-- ===== src/Index/Node/Upper.antt =====
-- The binary search `upper_bound` of a node, src/index/ix_index_handle.cpp, with which an internal
-- node finds the child of a key.
use dbgenerality_rucbase.Base.{
  ℕ, zero, suc, ◌+◌, ◌-◌, ◌/◌, ◌≤◌, ◌<◌, ◌≡◌, Bool, true, false, ltb, arith, Bool-cases, inl, inr,
  ℕ_discrete, refl,
}
use dbgenerality_rucbase.Index.Order.{KeyOrder, Sign, below, same, above, is_above}
use dbgenerality_rucbase.Index.Node.{IxNodeHandle, narrow_upper, upper_from, upper_bound}

module _ (order : KeyOrder) where
  open order use {Key, ix_compare, compare-trans, compare-refl, compare-same, compare-flip}

  flip_as : (a b : Key) (c : Sign) → ix_compare b a ≡ c → ix_compare a b ≡ below → c ≡ above
  flip_as a b above e h = refl
  flip_as a b same e h = absurd (cc (compare-refl a, compare-same b a e, h))
  flip_as a b below e h = absurd (cc (compare-refl a, compare-trans a b a h e))

  -- A key that comes after another one compares as above it.
  pub compare-flip_below : (a b : Key) → ix_compare a b ≡ below → ix_compare b a ≡ above
  compare-flip_below a b h = flip_as a b (ix_compare b a) refl h

  -- The keys of an internal node grow strictly from place 1 on.
  abbrev pub IsSortedAbove0 : IxNodeHandle order → Type 0
  IsSortedAbove0 node =
      (i j : ℕ) → 1 ≤ i → i < j → j < node.num_key → ix_compare (node.keys i) (node.keys j) ≡ below

  module _ (node : IxNodeHandle order) (s : IsSortedAbove0 node) (target : Key) where
    -- Whether the key at a place is above the target.
    abbrev high : ℕ → Bool
    high i = is_above (ix_compare (node.keys i) target)

    high-after : (i j : ℕ) → 1 ≤ i → i < j → j < node.num_key → high i ≡ true → high j ≡ true
    high-after i j a h k e = ground (
      arith,
      s i j,
      compare-flip (node.keys i) target,
      compare-trans target (node.keys i) (node.keys j),
      compare-flip_below target (node.keys j),
    )

    -- What the loop keeps of its range.
    record Range (l r : ℕ) : Type 0 where
      start : 1 ≤ l
      ordered : l ≤ r
      inside : r ≤ node.num_key
      left : (i : ℕ) → 1 ≤ i → i < l → high i ≡ false
      right : (i : ℕ) → r ≤ i → i < node.num_key → high i ≡ true

    high-upto : (i j : ℕ) → 1 ≤ i → i ≤ j → j < node.num_key → high j ≡ false → high i ≡ false
    high-upto i j a h k e = elim (Bool-cases (high i)) [
      | inr f ↦ f
      | inl f ↦ elim (ℕ_discrete i j) [
        | yes q ↦ absurd (cc (e, f, q))
        | no q ↦ absurd (cc (e, high-after i j a (omega arith) k f))
      ]
    ]

    high-from : (i j : ℕ) → 1 ≤ i → i ≤ j → j < node.num_key → high i ≡ true → high j ≡ true
    high-from i j a h k e = elim (ℕ_discrete i j) [
      | yes q ↦ rw (← q) e
      | no q ↦ high-after i j a (omega arith) k e
    ]

    narrow-Range :
        (l r : ℕ)
        → l < r
        → Range l r
        → (let next = narrow_upper order node target l r in
            Range next.0 next.1 × (next.1 - next.0 < r - l))
    unfolding narrow_upper
    narrow-Range l r h v =
        let mid = (l + r) / 2 in
        let start : 1 ≤ mid = omega (arith, v.start) in
        let inside : mid < node.num_key = omega (arith, v.inside) in
        elim (Bool-cases (high mid)) [
          | inl e ↦
              rw (e, narrow_upper)
                (
                  record {
                    start = v.start;
                    ordered = omega arith;
                    inside = omega (arith, v.inside);
                    left = v.left;
                    right = λ i a b. high-from mid i start a b e;
                  },
                  omega arith,
                )
          | inr e ↦
              rw (e, narrow_upper)
                (
                  record {
                    start = omega arith;
                    ordered = omega arith;
                    inside = v.inside;
                    left = λ i a b. high-upto i mid a (omega arith) inside e;
                    right = v.right;
                  },
                  omega arith,
                )
        ]

    -- What the search ends with: the place of the first key above the target.
    pub record Found (u : ℕ) : Type 0 where
      pub from_1 : 1 ≤ u
      pub inside : u ≤ node.num_key
      pub before : (i : ℕ) → 1 ≤ i → i < u → high i ≡ false
      pub after : (i : ℕ) → u ≤ i → i < node.num_key → high i ≡ true

    stop : (l r : ℕ) → Range l r → r ≤ l → Found l
    stop l r v h = record {
      from_1 = v.start;
      inside = omega (arith, v.inside, v.ordered);
      before = v.left;
      after = λ i a b. v.right i (omega arith) b;
    }

    upper_from-Found :
        (fuel l r : ℕ) → r - l ≤ fuel → Range l r → Found (upper_from order fuel node target l r)
    unfolding upper_from
    upper_from-Found zero l r f v = stop l r v (omega arith)
    upper_from-Found (suc fuel) l r f v = elim (Bool-cases (ltb l r)) [
      | inr e ↦ rw (e, upper_from) (stop l r v (ground arith))
      | inl e ↦
          let k = narrow-Range l r (ground arith) v in
          rw (e, upper_from)
            (upper_from-Found fuel (narrow_upper order node target l r).0
              (narrow_upper order node target l r).1 (omega (arith, k.1)) k.0)
    ]

    pub upper_bound-Found : 1 ≤ node.num_key → Found (upper_bound order node target)
    unfolding upper_bound
    upper_bound-Found h = upper_from-Found node.num_key 1 node.num_key (omega arith) (record {
      start = omega arith;
      ordered = h;
      inside = omega arith;
      left = λ i a b. absurd (omega arith);
      right = λ i a b. absurd (omega arith);
    })
