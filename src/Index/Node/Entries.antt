-- ===== src/Index/Node/Entries.antt =====
-- What stands in a node of src/index/ix_index_handle.cpp before and after an `insert`.
use dbgenerality_rucbase.Base.{
  ℕ, ◌+◌, ◌≤◌, ◌<◌, ◌≡◌, ◌⊎◌, inl, inr, sym, ◌∙◌, ltb, arith, Bool-cases,
}
use dbgenerality_rucbase.Lock.Types.{Rid}
use dbgenerality_rucbase.Index.Order.{KeyOrder}
use dbgenerality_rucbase.Index.Node.{IxNodeHandle, lower_bound}
use dbgenerality_rucbase.Index.Node.Search.{IsSorted, lower_bound-le}
use dbgenerality_rucbase.Index.Node.Insert.{
  grown, place, insert_at-before, insert_at-at, insert_at-after,
}

module _ (order : KeyOrder) where
  open order use {Key}

  -- The key and the rid stand at a place of the node.
  abbrev pub Entry : IxNodeHandle order → Key → Rid → Type 0
  Entry node key rid = (i : ℕ) × (i < node.num_key) × (node.keys i ≡ key) × (node.rids i ≡ rid)

  module _ (node : IxNodeHandle order) (s : IsSorted order node) (key : Key) (value : Rid) where
    -- An entry of the node after the insertion is one from before or the new one.
    pub Entry-grown :
        (k : Key) (rid : Rid)
        → Entry (grown order node s key value) k rid
        → Entry node k rid ⊎ ((k ≡ key) × (rid ≡ value))
    Entry-grown k rid (i, h, a, b) =
        let n = node.num_key in
        let pos = lower_bound order node key in
        elim (place pos n i h (lower_bound-le order node s key)) [
          | inl c ↦ inl (
            i,
            omega (arith, lower_bound-le order node s key),
            sym (insert_at-before n pos i key node.keys c) ∙ a,
            sym (insert_at-before n pos i value node.rids c) ∙ b,
          )
          | inr (inl c) ↦ inr (
            sym a ∙ rw (c, insert_at-at n pos key node.keys),
            sym b ∙ rw (c, insert_at-at n pos value node.rids),
          )
          | inr (inr (j, c, d, e)) ↦ inl (
            j,
            e,
            sym (insert_at-after n pos j key node.keys d e) ∙ rw (← c) a,
            sym (insert_at-after n pos j value node.rids d e) ∙ rw (← c) b,
          )
        ]

    pub grown-Entry :
        (k : Key) (rid : Rid) → Entry node k rid → Entry (grown order node s key value) k rid
    grown-Entry k rid (i, h, a, b) =
        let n = node.num_key in
        let pos = lower_bound order node key in
        elim (Bool-cases (ltb i pos)) [
          | inl e ↦
              let c : i < pos = ground arith in
              (
                i,
                omega arith,
                insert_at-before n pos i key node.keys c ∙ a,
                insert_at-before n pos i value node.rids c ∙ b,
              )
          | inr e ↦
              let c : pos ≤ i = ground arith in
              (
                i + 1,
                omega arith,
                insert_at-after n pos i key node.keys c h ∙ a,
                insert_at-after n pos i value node.rids c h ∙ b,
              )
        ]

    pub grown-Entry_new : Entry (grown order node s key value) key value
    grown-Entry_new =
        let n = node.num_key in
        let pos = lower_bound order node key in
        (
          pos,
          omega (arith, lower_bound-le order node s key),
          insert_at-at n pos key node.keys,
          insert_at-at n pos value node.rids,
        )
