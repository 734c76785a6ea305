-- ===== src/Index/Node/Insert.antt =====
-- `IxNodeHandle::insert` of src/index/ix_index_handle.cpp on a node whose keys grow strictly.
use dbgenerality_rucbase.Base.{
  ℕ, ◌+◌, ◌-◌, ◌≤◌, ◌<◌, ◌≡◌, ◌⊎◌, true, false, ltb, arith, Bool-cases, inl, inr, ℕ_discrete, ◌∙◌,
  subst, ap, some, none, ◌==◌, ◌||◌, leb,
}
use dbgenerality_rucbase.Lock.Types.{Rid}
use dbgenerality_rucbase.Index.Order.{KeyOrder, below, above, is_above}
use dbgenerality_rucbase.Index.Node.{
  IxNodeHandle, lower_bound, leaf_lookup, insert_at, insert_pairs, insert,
}
use dbgenerality_rucbase.Index.Node.Search.{
  IsSorted, lower_bound-low, lower_bound-le, leaf_lookup-found, lookup_hit,
}

pub insert_at-before {ℓ} :
    {A : Type ℓ} (size pos i : ℕ) (x : A) (old : ℕ → A)
    → i < pos
    → insert_at size pos 1 (λ k. x) old i ≡ old i
unfolding insert_at
insert_at-before size pos i x old h = ground arith

pub insert_at-at {ℓ} :
    {A : Type ℓ} (size pos : ℕ) (x : A) (old : ℕ → A) → insert_at size pos 1 (λ k. x) old pos ≡ x
unfolding insert_at
insert_at-at size pos x old = ground arith

pub insert_at-after {ℓ} :
    {A : Type ℓ} (size pos i : ℕ) (x : A) (old : ℕ → A)
    → pos ≤ i
    → i < size
    → insert_at size pos 1 (λ k. x) old (i + 1) ≡ old i
unfolding insert_at
insert_at-after size pos i x old h k = ground arith

-- A place of the longer array is before the new one, it, or the place after one of the old ones.
pub place :
    (pos size i : ℕ)
    → i < size + 1
    → pos ≤ size
    → (i < pos) ⊎ ((i ≡ pos) ⊎ ((j : ℕ) × (i ≡ j + 1) × (pos ≤ j) × (j < size)))
place pos size i h k = elim (Bool-cases (ltb i pos)) [
  | inl e ↦ inl (ground arith)
  | inr e ↦ elim (ℕ_discrete i pos) [
    | yes q ↦ inr (inl q)
    | no q ↦ inr (inr (i - 1, ground arith, ground arith, ground arith))
  ]
]

module _ (order : KeyOrder) where
  open order use {Key, ix_compare, compare-trans, compare-refl, compare-same, compare-flip}

  module _ (node : IxNodeHandle order) (s : IsSorted order node) (key : Key) (value : Rid) where
    abbrev pub pos : ℕ
    pos = lower_bound order node key

    -- The node after the insertion of a key that is not there.
    abbrev pub grown : IxNodeHandle order
    grown = record {
      num_key = node.num_key + 1;
      keys = insert_at node.num_key pos 1 (λ i. key) node.keys;
      rids = insert_at node.num_key pos 1 (λ i. value) node.rids;
    }

    before_key : (i : ℕ) → i < pos → ix_compare (node.keys i) key ≡ below
    before_key i h =
        ground (arith, lower_bound-low order node s key i, lower_bound-le order node s key)

    module _ (past : (pos ≡ node.num_key) ⊎ (ix_compare (node.keys pos) key ≡ above)) where
      after_key : (j : ℕ) → pos ≤ j → j < node.num_key → ix_compare key (node.keys j) ≡ below
      after_key j h k = elim past [
        | inl e ↦ absurd (omega arith)
        | inr e ↦
            let first = compare-flip (node.keys pos) key e in
            elim (ℕ_discrete pos j) [
              | yes q ↦ subst (λ (i : ℕ). ix_compare key (node.keys i) ≡ below) q first
              | no q ↦
                  compare-trans key (node.keys pos) (node.keys j) first (s pos j (omega arith) k)
            ]
      ]

      pub grown-IsSorted : IsSorted order grown
      grown-IsSorted i j h k =
          let n = node.num_key in
          let le = lower_bound-le order node s key in
          let old = node.keys in
          elim (place pos n i (omega arith) le) [
            | inl a ↦ elim (place pos n j k le) [
              | inl b ↦
                  rw (insert_at-before n pos i key old a, insert_at-before n pos j key old b)
                    (s i j h (omega arith))
              | inr (inl b) ↦
                  rw (insert_at-before n pos i key old a, b, insert_at-at n pos key old)
                    (before_key i a)
              | inr (inr (j', b, c, d)) ↦
                  rw (insert_at-before n pos i key old a, b, insert_at-after n pos j' key old c d)
                    (s i j' (omega arith) d)
            ]
            | inr (inl a) ↦ elim (place pos n j k le) [
              | inl b ↦ absurd (omega arith)
              | inr (inl b) ↦ absurd (omega arith)
              | inr (inr (j', b, c, d)) ↦
                  rw (a, b, insert_at-at n pos key old, insert_at-after n pos j' key old c d)
                    (after_key j' c d)
            ]
            | inr (inr (i', a, c, d)) ↦ elim (place pos n j k le) [
              | inl b ↦ absurd (omega arith)
              | inr (inl b) ↦ absurd (omega arith)
              | inr (inr (j', b, c', d')) ↦
                  rw
                    (
                      a,
                      b,
                      insert_at-after n pos i' key old c d,
                      insert_at-after n pos j' key old c' d',
                    )
                    (s i' j' (omega arith) d')
            ]
          ]

      grown-found : leaf_lookup order grown key ≡ some value
      grown-found =
          let n = node.num_key in
          let le = lower_bound-le order node s key in
          let k = leaf_lookup-found order grown pos grown-IsSorted (omega arith) in
          subst (λ (x : Key). leaf_lookup order grown x ≡ some value)
            (insert_at-at n pos key node.keys) (k ∙ ap some (insert_at-at n pos value node.rids))

      grown-old :
          (i : ℕ) → i < node.num_key → leaf_lookup order grown (node.keys i) ≡ some (node.rids i)
      grown-old i h =
          let n = node.num_key in
          elim (Bool-cases (ltb i pos)) [
            | inl e ↦
                let b : i < pos = ground arith in
                subst (λ (x : Key). leaf_lookup order grown x ≡ some (node.rids i))
                  (insert_at-before n pos i key node.keys b)
                  (leaf_lookup-found order grown i grown-IsSorted (omega arith)
                    ∙ ap some (insert_at-before n pos i value node.rids b))
            | inr e ↦
                let b : pos ≤ i = ground arith in
                subst (λ (x : Key). leaf_lookup order grown x ≡ some (node.rids i))
                  (insert_at-after n pos i key node.keys b h)
                  (leaf_lookup-found order grown (i + 1) grown-IsSorted (omega arith)
                    ∙ ap some (insert_at-after n pos i value node.rids b h))
          ]

      pub insert-grown : insert order key value node ≡ some (node.num_key + 1, grown)
      unfolding insert insert_pairs
      insert-grown =
          let le = lower_bound-le order node s key in
          let a : (pos == node.num_key || is_above (ix_compare (node.keys pos) key)) ≡ true =
            ground arith in
          let b : leb pos node.num_key ≡ true = ground arith in rw (insert, a, insert_pairs, b)

    pub absent_past :
        leaf_lookup order node key ≡ none
        → (pos ≡ node.num_key) ⊎ (ix_compare (node.keys pos) key ≡ above)
    unfolding leaf_lookup
    absent_past e = elim (ℕ_discrete pos node.num_key) [
      | yes q ↦ inl q
      | no q ↦
          let le = lower_bound-le order node s key in
          inr (ground (arith, lower_bound-low order node s key pos))
    ]

    -- Into a node whose keys grow strictly, `insert` of a key that `leaf_lookup` does not find
    -- returns the size plus one; in the node after it the keys grow strictly, the key is found with
    -- its rid, and the key at any place of the node before is found with the rid that it had.
    pub insert-new :
        (i : ℕ)
        → leaf_lookup order node key ≡ none
        → i < node.num_key
        → (node' : IxNodeHandle order) × (insert order key value node
            ≡ some (node.num_key + 1, node'))
          × IsSorted order node'
          × (leaf_lookup order node' key ≡ some value)
          × (leaf_lookup order node' (node.keys i) ≡ some (node.rids i))
    insert-new i e h =
        let past = absent_past e in
        (grown, insert-grown past, grown-IsSorted past, grown-found past, grown-old past i h)

    -- Into a node whose keys grow strictly, `insert` of a key that `leaf_lookup` finds changes
    -- nothing and returns the size.
    pub insert-present :
        (rid : Rid)
        → leaf_lookup order node key ≡ some rid
        → insert order key value node ≡ some (node.num_key, node)
    unfolding insert leaf_lookup
    insert-present rid e =
        let c = ix_compare (node.keys pos) key in
        let (a, b, d) = lookup_hit c pos node.num_key (node.rids pos) rid e in
        let no : (pos == node.num_key || is_above c) ≡ false = ground arith in rw (insert, no)
