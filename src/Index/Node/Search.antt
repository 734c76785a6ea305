-- ===== src/Index/Node/Search.antt =====
-- The two binary searches of a node, src/index/ix_index_handle.cpp, find the right place.
use dbgenerality_rucbase.Base.{
  ℕ, zero, suc, ◌+◌, ◌-◌, ◌/◌, ◌≤◌, ◌<◌, ◌≡◌, Bool, true, false, if◌then◌else◌, ltb, arith,
  Bool-cases, inl, inr, ℕ_discrete, sym, ◌∙◌, ◌≢◌, subst, refl, some, none, ◌==◌, ◌&&◌, not,
}
use dbgenerality_rucbase.Index.Order.{KeyOrder, Sign, below, is_same, same, is_below}
use dbgenerality_rucbase.Lock.Types.{Rid}
use dbgenerality_rucbase.Index.Node.{
  IxNodeHandle, narrow_lower, lower_from, lower_bound, leaf_lookup,
}

ne_bound : (i n : ℕ) → i < n → (i == n) ≡ false
ne_bound i n h = ground arith

pub lookup_hit :
    (c : Sign) (n m : ℕ) (x y : Rid)
    → (if is_same c && not (n == m) then some x else none) ≡ some y
    → (c ≡ same) × (n ≢ m) × (x ≡ y)
lookup_hit c n m x y e = ground arith

module _ (order : KeyOrder) where
  open order use {Key, ix_compare, compare-trans, compare-refl, compare-same}

  -- The keys of a node grow strictly.
  abbrev pub IsSorted : IxNodeHandle order → Type 0
  IsSorted node =
      (i j : ℕ) → i < j → j < node.num_key → ix_compare (node.keys i) (node.keys j) ≡ below

  module _ (node : IxNodeHandle order) (s : IsSorted node) (target : Key) where
    -- Whether the key at a place is below the target.
    abbrev low : ℕ → Bool
    low i = is_below (ix_compare (node.keys i) target)

    low-before : (i j : ℕ) → i < j → j < node.num_key → low j ≡ true → low i ≡ true
    low-before i j h k e = ground (arith, s i j, compare-trans (node.keys i) (node.keys j) target)

    -- What the loop keeps of its range.
    record Range (l r : ℕ) : Type 0 where
      ordered : l ≤ r
      inside : r ≤ node.num_key
      left : (i : ℕ) → i < l → low i ≡ true
      right : (i : ℕ) → r ≤ i → i < node.num_key → low i ≡ false

    low-from : (i j : ℕ) → i ≤ j → j < node.num_key → low i ≡ false → low j ≡ false
    low-from i j h k e = elim (Bool-cases (low j)) [
      | inr f ↦ f
      | inl f ↦ elim (ℕ_discrete i j) [
        | yes q ↦ absurd (cc (e, f, q))
        | no q ↦ absurd (cc (e, low-before i j (omega arith) k f))
      ]
    ]

    narrow-Range :
        (l r : ℕ)
        → l < r
        → Range l r
        → (let next = narrow_lower order node target l r in
            Range next.0 next.1 × (next.1 - next.0 < r - l))
    unfolding narrow_lower
    narrow-Range l r h v = elim (Bool-cases (low ((l + r) / 2))) [
      | inl e ↦
          rw (e, narrow_lower)
            (
              record {
                ordered = omega (arith, v.ordered);
                inside = v.inside;
                left = λ i k. elim (ℕ_discrete i ((l + r) / 2)) [
                  | yes q ↦ rw q e
                  | no q ↦ low-before i ((l + r) / 2) (omega arith) (omega (arith, v.inside)) e
                ];
                right = v.right;
              },
              omega arith,
            )
      | inr e ↦
          rw (e, narrow_lower)
            (
              record {
                ordered = omega arith;
                inside = omega (arith, v.inside);
                left = v.left;
                right = λ i a b. low-from ((l + r) / 2) i a b e;
              },
              omega arith,
            )
    ]

    -- A range that is empty has found the place.
    found : (l r i : ℕ) → Range l r → r ≤ l → i < node.num_key → ltb i l ≡ low i
    found l r i v e h = elim (Bool-cases (ltb i l)) [
      | inl b ↦ b ∙ sym (v.left i (ground arith))
      | inr b ↦ b ∙ sym (v.right i (ground arith) h)
    ]

    lower_from-low :
        (fuel l r i : ℕ)
        → r - l ≤ fuel
        → Range l r
        → i < node.num_key
        → ltb i (lower_from order fuel node target l r) ≡ low i
    unfolding lower_from
    lower_from-low zero l r i f v h = found l r i v (omega arith) h
    lower_from-low (suc fuel) l r i f v h = elim (Bool-cases (ltb l r)) [
      | inr e ↦ rw (e, lower_from) (found l r i v (ground arith) h)
      | inl e ↦
          let k = narrow-Range l r (ground arith) v in
          rw (e, lower_from)
            (lower_from-low fuel (narrow_lower order node target l r).0
              (narrow_lower order node target l r).1 i (omega (arith, k.1)) k.0 h)
    ]

    whole : Range 0 node.num_key
    whole = record {
      ordered = omega arith;
      inside = omega arith;
      left = λ i h. absurd (omega arith);
      right = λ i a b. absurd (omega arith);
    }

    -- In a node whose keys grow strictly, the binary search `lower_bound` ends, and a place of the
    -- node comes before its result exactly if the key there is below the target.
    pub lower_bound-low :
        (i : ℕ)
        → i < node.num_key
        → ltb i (lower_bound order node target) ≡ is_below (ix_compare (node.keys i) target)
    unfolding lower_bound
    lower_bound-low i h = lower_from-low node.num_key 0 node.num_key i (omega arith) whole h

    -- The result is a place of the node or the end.
    lower_from-le : (fuel l r : ℕ) → l ≤ r → lower_from order fuel node target l r ≤ r
    unfolding lower_from narrow_lower
    lower_from-le zero l r h = h
    lower_from-le (suc fuel) l r h = elim (Bool-cases (ltb l r)) [
      | inr e ↦ rw (e, lower_from) h
      | inl e ↦ elim (Bool-cases (low ((l + r) / 2))) [
        | inl b ↦
            rw (e, b, lower_from, narrow_lower)
              (lower_from-le fuel ((l + r) / 2 + 1) r (ground arith))
        | inr b ↦
            let k = lower_from-le fuel l ((l + r) / 2) (ground arith) in
            rw (e, b, lower_from, narrow_lower) (ground arith)
      ]
    ]

    pub lower_bound-le : lower_bound order node target ≤ node.num_key
    unfolding lower_bound
    lower_bound-le = lower_from-le node.num_key 0 node.num_key (omega arith)

    -- The place of a key that is there.
    pub lower_bound-at :
        (i : ℕ) → i < node.num_key → node.keys i ≡ target → lower_bound order node target ≡ i
    lower_bound-at i h e =
        let n = lower_bound order node target in
        let here : low i ≡ false = rw (e, compare-refl target) in
        let past : n ≤ i = ground (arith, lower_bound-low i h) in
        elim (ℕ_discrete n i) [
          | yes q ↦ q
          | no q ↦
              let less : ix_compare (node.keys n) target ≡ below =
                subst (λ (k : Key). ix_compare (node.keys n) k ≡ below) e (s n i (omega arith) h) in
              absurd (ground (arith, lower_bound-low n (omega arith)))
        ]

  -- In a node whose keys grow strictly, `leaf_lookup` of a key that stands at a place of the node
  -- gives the rid at that place.
  pub leaf_lookup-found :
      (node : IxNodeHandle order) (i : ℕ)
      → IsSorted node
      → i < node.num_key
      → leaf_lookup order node (node.keys i) ≡ some (node.rids i)
  unfolding leaf_lookup
  leaf_lookup-found node i s h =
      let at = lower_bound-at node s (node.keys i) i h refl in
      rw (leaf_lookup, at, compare-refl (node.keys i), ne_bound i node.num_key h)

  -- What `leaf_lookup` gives is the rid at a place of the node that has the key.
  pub leaf_lookup_sound :
      (node : IxNodeHandle order) (key : Key) (rid : Rid)
      → IsSorted node
      → leaf_lookup order node key ≡ some rid
      → (i : ℕ) × (i < node.num_key) × (node.keys i ≡ key) × (node.rids i ≡ rid)
  unfolding leaf_lookup
  leaf_lookup_sound node key rid s e =
      let n = lower_bound order node key in
      let c = ix_compare (node.keys n) key in
      let (a, b, d) = lookup_hit c n node.num_key (node.rids n) rid e in
      (n, ground (arith, lower_bound-le node s key), compare-same (node.keys n) key a, d)
