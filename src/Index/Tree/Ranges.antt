-- ===== src/Index/Tree/Ranges.antt =====
-- The ranges of keys in the tree of src/index/ix_index_handle.cpp, and the child that a search takes.
use dbgenerality_rucbase.Base.{
  ℕ, zero, suc, ◌+◌, ◌-◌, ◌≤◌, ◌<◌, ◌≡◌, true, false, Option, none, some, ltb, arith, inl, inr,
  Bool-cases,
}
use dbgenerality_rucbase.Index.Order.{KeyOrder, is_above}
use dbgenerality_rucbase.Index.Node.{upper_bound}
use dbgenerality_rucbase.Index.Node.Upper.{compare-flip_below, upper_bound-Found}
use dbgenerality_rucbase.Index.Tree.Shape.{
  IndexPage, AtLeast, Under, Within, floor, ceiling, IsInner,
}

module _ (order : KeyOrder) (zero_key : order.Key) where
  open order use {Key, ix_compare, compare-trans, compare-same, compare-flip}

  -- A range is the same or smaller further down.
  le_trans_key :
      (a b c : Key)
      → is_above (ix_compare a b) ≡ false
      → is_above (ix_compare b c) ≡ false
      → is_above (ix_compare a c) ≡ false
  le_trans_key a b c h k =
      ground (
        arith,
        compare-same a b,
        compare-flip a c,
        compare-trans c a b,
        compare-flip_below order c b,
      )

  lt_trans_key :
      (a b c : Key)
      → is_above (ix_compare b a) ≡ true
      → is_above (ix_compare c b) ≡ true
      → is_above (ix_compare c a) ≡ true
  lt_trans_key a b c h k =
      ground (
        arith,
        compare-flip b a,
        compare-flip c b,
        compare-trans a b c,
        compare-flip_below order a c,
      )

  AtLeast-trans :
      (lo : Option Key) (a b : Key)
      → AtLeast order zero_key lo a
      → is_above (ix_compare a b) ≡ false
      → AtLeast order zero_key lo b
  AtLeast-trans none a b h k = tt
  AtLeast-trans (some l) a b h k = le_trans_key l a b h k

  Under-trans :
      (hi : Option Key) (a b : Key)
      → Under order zero_key hi a
      → is_above (ix_compare a b) ≡ true
      → Under order zero_key hi b
  Under-trans none a b h k = tt
  Under-trans (some u) a b h k = lt_trans_key b a u k h

  module _ (n : IndexPage order zero_key) (lo hi : Option Key)
      (v : IsInner order zero_key n lo hi) where
    floor_widens :
        (i : ℕ) (key : Key)
        → i < n.node.num_key
        → AtLeast order zero_key (floor order zero_key lo n.node i) key
        → AtLeast order zero_key lo key
    floor_widens zero key h k = k
    floor_widens (suc i) key h k =
        AtLeast-trans lo (n.node.keys (suc i)) key (v.within (suc i) (omega arith) h).0 k

    ceiling_widens :
        (i : ℕ) (key : Key)
        → Under order zero_key (ceiling order zero_key hi n.node i) key
        → Under order zero_key hi key
    ceiling_widens i key k = elim (Bool-cases (ltb (i + 1) n.node.num_key)) [
      | inl e ↦
          Under-trans hi (n.node.keys (i + 1)) key (v.within (i + 1) (omega arith) (ground arith)).1
            (rw e at k)
      | inr e ↦ rw e at k
    ]

    -- A key in the range of a child is in that of the node.
    pub widens :
        (i : ℕ) (key : Key)
        → i < n.node.num_key
        → Within order zero_key
            (floor order zero_key lo n.node i)
            (ceiling order zero_key hi n.node i)
            key
        → Within order zero_key lo hi key
    widens i key h (a, b) = (floor_widens i key h a, ceiling_widens i key b)

    ceiling_here :
        (i : ℕ) (key : Key)
        → i + 1 < n.node.num_key
        → Under order zero_key (ceiling order zero_key hi n.node i) key
        → is_above (ix_compare (n.node.keys (i + 1)) key) ≡ true
    ceiling_here i key h k = let e : ltb (i + 1) n.node.num_key ≡ true = ground arith in rw e at k

    floor_here :
        (i : ℕ) (key : Key)
        → 1 ≤ i
        → AtLeast order zero_key (floor order zero_key lo n.node i) key
        → is_above (ix_compare (n.node.keys i) key) ≡ false
    floor_here zero key h k = absurd (omega arith)
    floor_here (suc i) key h k = k

    -- The search goes to the child in whose range the key is.
    pub upper_bound-child :
        (i : ℕ) (key : Key)
        → i < n.node.num_key
        → Within order zero_key
            (floor order zero_key lo n.node i)
            (ceiling order zero_key hi n.node i)
            key
        → upper_bound order n.node key - 1 ≡ i
    upper_bound-child i key h (a, b) =
        let u = upper_bound order n.node key in
        let f = upper_bound-Found order n.node v.sorted key v.some_child in
        elim (Bool-cases (ltb i u)) [
          | inr e ↦
              let k : u ≤ i = ground arith in
              absurd (cc (f.after i k h, floor_here i key (omega (arith, f.from_1)) a))
          | inl e ↦ elim (Bool-cases (ltb (i + 1) u)) [
            | inl d ↦
                let k : i + 1 < u = ground arith in
                absurd (
                  cc (
                    f.before (i + 1) (omega arith) k,
                    ceiling_here i key (omega (arith, f.inside)) b,
                  ))
            | inr d ↦ ground arith
          ]
        ]

    floor_at :
        (i : ℕ) (key : Key)
        → (1 ≤ i → is_above (ix_compare (n.node.keys i) key) ≡ false)
        → AtLeast order zero_key lo key
        → AtLeast order zero_key (floor order zero_key lo n.node i) key
    floor_at zero key h k = k
    floor_at (suc i) key h k = h (omega arith)

    ceiling_at :
        (i : ℕ) (key : Key)
        → (i + 1 < n.node.num_key → is_above (ix_compare (n.node.keys (i + 1)) key) ≡ true)
        → Under order zero_key hi key
        → Under order zero_key (ceiling order zero_key hi n.node i) key
    ceiling_at i key h k = elim (Bool-cases (ltb (i + 1) n.node.num_key)) [
      | inl e ↦ rw e (h (ground arith))
      | inr e ↦ rw e k
    ]

    -- The child to which the search goes, and its range.
    pub child-Within :
        (key : Key)
        → Within order zero_key lo hi key
        → (let i = upper_bound order n.node key - 1 in
            (i < n.node.num_key)
            × Within order zero_key
                (floor order zero_key lo n.node i)
                (ceiling order zero_key hi n.node i)
                key)
    child-Within key (a, b) =
        let u = upper_bound order n.node key in
        let f = upper_bound-Found order n.node v.sorted key v.some_child in
        (
          omega (arith, f.from_1, f.inside),
          (
            floor_at (u - 1) key (λ h. f.before (u - 1) h (omega (arith, f.from_1))) a,
            ceiling_at (u - 1) key (λ h. f.after (u - 1 + 1) (omega (arith, f.from_1)) h) b,
          ),
        )
