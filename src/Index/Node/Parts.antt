-- ===== src/Index/Node/Parts.antt =====
-- The two nodes that `split` of src/index/ix_index_handle.cpp makes of one.
use dbgenerality_rucbase.Base.{
  ℕ, zero, suc, ◌+◌, ◌-◌, ◌/◌, ◌≤◌, ◌<◌, ◌≡◌, ◌⊎◌, inl, inr, refl, sym, ◌∙◌, ap, true, false, ltb,
  arith, Bool-cases,
}
use dbgenerality_rucbase.Lock.Types.{Rid}
use dbgenerality_rucbase.Index.Order.{KeyOrder, is_above}
use dbgenerality_rucbase.Index.Node.{IxNodeHandle, insert_at}
use dbgenerality_rucbase.Index.Node.Search.{IsSorted}
use dbgenerality_rucbase.Index.Node.Upper.{compare-flip_below}
use dbgenerality_rucbase.Index.Node.Entries.{Entry}

moved_at {ℓ} :
    {A : Type ℓ} (num i : ℕ) (new old : ℕ → A) → i < num → insert_at 0 0 num new old i ≡ new i
unfolding insert_at
moved_at num i new old h = ground arith

module _ (order : KeyOrder) (zero_key : order.Key) (blank_rid : Rid) where
  open order use {Key, ix_compare, compare-refl}

  abbrev pub left_part : IxNodeHandle order → IxNodeHandle order
  left_part node = record node { num_key = node.num_key / 2 }

  abbrev pub right_part : IxNodeHandle order → IxNodeHandle order
  right_part node =
      let half = node.num_key / 2 in
      let num = node.num_key - half in
      record {
        num_key = 0 + num;
        keys = insert_at 0 0 num (λ i. node.keys (half + i)) (λ i. zero_key);
        rids = insert_at 0 0 num (λ i. node.rids (half + i)) (λ i. blank_rid);
      }

  module _ (node : IxNodeHandle order) (s : IsSorted order node) (some_key : 1 ≤ node.num_key) where
    abbrev half : ℕ
    half = node.num_key / 2

    abbrev pub sep : Key
    sep = (right_part node).keys 0

    right_key : (i : ℕ) → i < node.num_key - half → (right_part node).keys i ≡ node.keys (half + i)
    right_key i h = moved_at (node.num_key - half) i (λ j. node.keys (half + j)) (λ j. zero_key) h

    right_rid : (i : ℕ) → i < node.num_key - half → (right_part node).rids i ≡ node.rids (half + i)
    right_rid i h = moved_at (node.num_key - half) i (λ j. node.rids (half + j)) (λ j. blank_rid) h

    pub left_part-IsSorted : IsSorted order (left_part node)
    left_part-IsSorted i j h k = s i j h (omega arith)

    pub right_part-IsSorted : IsSorted order (right_part node)
    right_part-IsSorted i j h k =
        rw (right_key i (omega arith), right_key j (omega arith))
          (s (half + i) (half + j) (omega arith) (omega arith))

    pub left-below : (i : ℕ) → i < half → is_above (ix_compare sep (node.keys i)) ≡ true
    left-below i h =
        let first : sep ≡ node.keys (half + 0) = right_key 0 (omega arith) in
        let less = s i (half + 0) (omega arith) (omega arith) in
        rw (first, compare-flip_below order (node.keys i) (node.keys (half + 0)) less) refl

    pub right-at_least :
        (i : ℕ)
        → i < node.num_key - half
        → is_above (ix_compare sep ((right_part node).keys i)) ≡ false
    right-at_least zero h = rw (compare-refl sep) refl
    right-at_least (suc i) h = rw (right_part-IsSorted 0 (suc i) (omega arith) (omega arith)) refl

    pub Entry-parts :
        (k : Key) (rid : Rid)
        → Entry order node k rid
        → Entry order (left_part node) k rid ⊎ Entry order (right_part node) k rid
    Entry-parts k rid (i, h, a, b) = elim (Bool-cases (ltb i half)) [
      | inl e ↦ inl (i, ground arith, a, b)
      | inr e ↦
          let inside : i - half < node.num_key - half = ground arith in
          let same : half + (i - half) ≡ i = ground arith in
          inr (
            i - half,
            omega (arith, inside),
            right_key (i - half) inside ∙ ap node.keys same ∙ a,
            right_rid (i - half) inside ∙ ap node.rids same ∙ b,
          )
    ]

    pub left-Entry :
        (k : Key) (rid : Rid) → Entry order (left_part node) k rid → Entry order node k rid
    left-Entry k rid (i, h, a, b) = (i, omega arith, a, b)

    pub right-Entry :
        (k : Key) (rid : Rid) → Entry order (right_part node) k rid → Entry order node k rid
    right-Entry k rid (i, h, a, b) = (
      half + i,
      omega arith,
      sym (right_key i (omega arith)) ∙ a,
      sym (right_rid i (omega arith)) ∙ b,
    )
