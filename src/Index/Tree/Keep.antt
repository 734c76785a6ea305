-- ===== src/Index/Tree/Keep.antt =====
-- A tree of src/index/ix_index_handle.cpp after the change of one of its leaves.
use dbgenerality_rucbase.Base.{
  ℕ, zero, suc, ◌-◌, ◌<◌, ◌≡◌, ◌⊎◌, inl, inr, refl, sym, ◌∙◌, ap, subst, true, false, Option, none,
  some, if◌then◌else◌, ℤ, minus_one, eqb_ℤ, eqb_ℤ_iff, Bool-cases,
}
use dbgenerality_rucbase.Index.Order.{KeyOrder}
use dbgenerality_rucbase.Index.Node.{internal_lookup, upper_bound}
use dbgenerality_rucbase.Index.Node.Search.{IsSorted}
use dbgenerality_rucbase.Index.Tree.Shape.{
  IndexPage, IndexPages, Within, floor, ceiling, IsLeaf, IsInner, Subtree, LeafAt, Goes, same_page,
}
use dbgenerality_rucbase.Index.Tree.Ranges.{child-Within}
use dbgenerality_rucbase.Index.Tree.Find.{Goes-LeafAt}

pub eqb_ℤ_self : (a : ℤ) → eqb_ℤ a a ≡ true
eqb_ℤ_self a = (eqb_ℤ_iff a a).1 refl

module _ (order : KeyOrder) (zero_key : order.Key) where
  open order use {Key}

  abbrev parent_in : Option (IndexPage order zero_key) → ℤ
  parent_in none = minus_one
  parent_in (some n) = n.parent

  -- The page some levels above a leaf, by the links to the parents.
  abbrev climb : IndexPages order zero_key → ℕ → ℤ → ℤ
  climb pages zero q = q
  climb pages (suc h) q = parent_in (pages (climb pages h q))

  Subtree-parent :
      (pages : IndexPages order zero_key) (h : ℕ) (p parent : ℤ) (lo hi : Option Key)
      → Subtree order zero_key pages h p parent lo hi
      → parent_in (pages p) ≡ parent
  Subtree-parent pages zero p parent lo hi (n, e, d, v) = ap parent_in e ∙ d
  Subtree-parent pages (suc h) p parent lo hi (n, e, d, v, sub) = ap parent_in e ∙ d

  -- The child in which a leaf is, for the node as it was read.
  pub LeafAt-child :
      (pages : IndexPages order zero_key) (h : ℕ) (p q : ℤ) (n : IndexPage order zero_key)
      → pages p ≡ some n
      → LeafAt order zero_key pages (suc h) p q
      → (i : ℕ) × (i < n.node.num_key) × LeafAt order zero_key pages h (n.node.rids i).page_no q
  LeafAt-child pages h p q n e (m, k, i, b, at) =
      let e' = same_page order zero_key k e in
      (
        i,
        subst (λ (x : IndexPage order zero_key). i < x.node.num_key) e' b,
        subst
            (λ (x : IndexPage order zero_key).
              LeafAt order zero_key pages h (x.node.rids i).page_no q)
            e' at,
      )

  LeafAt-climb :
      (pages : IndexPages order zero_key) (h : ℕ) (p parent : ℤ) (lo hi : Option Key) (q : ℤ)
      → Subtree order zero_key pages h p parent lo hi
      → LeafAt order zero_key pages h p q
      → climb pages h q ≡ p
  LeafAt-climb pages zero p parent lo hi q s at = sym at
  LeafAt-climb pages (suc h) p parent lo hi q (n, e, d, v, sub) at =
      let (i, b, at') = LeafAt-child pages h p q n e at in
      let c = (n.node.rids i).page_no in
      let lo' = floor order zero_key lo n.node i in
      let hi' = ceiling order zero_key hi n.node i in
      ap (λ (x : ℤ). parent_in (pages x)) (LeafAt-climb pages h c p lo' hi' q (sub i b) at')
      ∙ Subtree-parent pages h c p lo' hi' (sub i b)

  -- A leaf to which the search goes is in the child to which the search goes, and in no other.
  LeafAt-route :
      (pages : IndexPages order zero_key) (key : Key) (h : ℕ) (p : ℤ) (lo hi : Option Key) (q : ℤ)
      (n : IndexPage order zero_key) (i : ℕ)
      → pages p ≡ some n
      → IsInner order zero_key n lo hi
      → ((j : ℕ)
          → j < n.node.num_key
          → Subtree order zero_key pages h
              (n.node.rids j).page_no
              p
              (floor order zero_key lo n.node j)
              (ceiling order zero_key hi n.node j))
      → i < n.node.num_key
      → LeafAt order zero_key pages h (n.node.rids i).page_no q
      → Goes order zero_key pages key (suc h) p q
      → Within order zero_key lo hi key
      → Goes order zero_key pages key h (n.node.rids i).page_no q
        × Within order zero_key
            (floor order zero_key lo n.node i)
            (ceiling order zero_key hi n.node i)
            key
  unfolding internal_lookup
  LeafAt-route pages key h p lo hi q n i e v sub b at (m, k, g) w =
      let c = upper_bound order n.node key - 1 in
      let g' : Goes order zero_key pages key h (n.node.rids c).page_no q =
        subst
          (λ (x : IndexPage order zero_key).
            Goes order zero_key pages key h (x.node.rids (upper_bound order x.node key - 1)).page_no
              q)
          (same_page order zero_key k e) g in
      let (b', w') = child-Within order zero_key n lo hi v key w in
      let lo' = floor order zero_key lo n.node in
      let hi' = ceiling order zero_key hi n.node in
      let there =
        Goes-LeafAt order zero_key pages key h (n.node.rids c).page_no p (lo' c) (hi' c) q
          (sub c b') w' g' in
      let one : c ≡ i = v.apart c i b' b (
        sym (LeafAt-climb pages h (n.node.rids c).page_no p (lo' c) (hi' c) q (sub c b') there)
        ∙ LeafAt-climb pages h (n.node.rids i).page_no p (lo' i) (hi' i) q (sub i b) at) in
      subst
        (λ (x : ℕ).
          Goes order zero_key pages key h (n.node.rids x).page_no q
          × Within order zero_key (floor order zero_key lo n.node x)
              (ceiling order zero_key hi n.node x) key)
        one (g', w')

  -- The leaf `q` gets a new content, with the same parent; its keys are those from before and `key`.
  module _ (pages : IndexPages order zero_key) (q : ℤ) (n n' : IndexPage order zero_key) (key : Key)
      (reads : pages q ≡ some n) (was_leaf : n.is_leaf ≡ true) where
    abbrev pub changed : IndexPages order zero_key
    changed x = if eqb_ℤ x q then some n' else pages x

    pub changed_self : changed q ≡ some n'
    changed_self = rw (eqb_ℤ_self q) refl

    changed_at : (p : ℤ) → p ≡ q → changed p ≡ some n'
    changed_at p e = rw ((eqb_ℤ_iff p q).1 e) refl

    changed_ne :
        (p : ℤ) (m : IndexPage order zero_key)
        → m.is_leaf ≡ false
        → pages p ≡ some m
        → changed p ≡ pages p
    changed_ne p m inner e = elim (Bool-cases (eqb_ℤ p q)) [
      | inr d ↦ rw d refl
      | inl d ↦
          let same_node =
            same_page order zero_key (ap pages (sym ((eqb_ℤ_iff p q).0 d)) ∙ e) reads in
          absurd (cc (inner, was_leaf, ap (λ (x : IndexPage order zero_key). x.is_leaf) same_node))
    ]

    pub LeafAt-changed :
        (h : ℕ) (p parent : ℤ) (lo hi : Option Key) (x : ℤ)
        → Subtree order zero_key pages h p parent lo hi
        → LeafAt order zero_key pages h p x
        → LeafAt order zero_key changed h p x
    LeafAt-changed zero p parent lo hi x s at = at
    LeafAt-changed (suc h) p parent lo hi x (m, e, d, v, sub) at =
        let (i, b, at') = LeafAt-child pages h p x m e at in
        (
          m,
          changed_ne p m v.inner e ∙ e,
          i,
          b,
          LeafAt-changed h (m.node.rids i).page_no p (floor order zero_key lo m.node i)
              (ceiling order zero_key hi m.node i) x (sub i b) at',
        )

    pub changed-LeafAt :
        (h : ℕ) (p parent : ℤ) (lo hi : Option Key) (x : ℤ)
        → Subtree order zero_key pages h p parent lo hi
        → LeafAt order zero_key changed h p x
        → LeafAt order zero_key pages h p x
    changed-LeafAt zero p parent lo hi x s at = at
    changed-LeafAt (suc h) p parent lo hi x (m, e, d, v, sub) at =
        let (i, b, at') = LeafAt-child changed h p x m (changed_ne p m v.inner e ∙ e) at in
        (
          m,
          e,
          i,
          b,
          changed-LeafAt h (m.node.rids i).page_no p (floor order zero_key lo m.node i)
              (ceiling order zero_key hi m.node i) x (sub i b) at',
        )

    module _ (same_parent : n'.parent ≡ n.parent) (leaf : n'.is_leaf ≡ true)
        (sorted : IsSorted order n'.node)
        (old : (i : ℕ)
          → i < n'.node.num_key
          → (n'.node.keys i ≡ key)
            ⊎ ((j : ℕ) × (j < n.node.num_key) × (n.node.keys j ≡ n'.node.keys i))) where
      keep-IsLeaf :
          (lo hi : Option Key)
          → IsLeaf order zero_key n lo hi
          → Within order zero_key lo hi key
          → IsLeaf order zero_key n' lo hi
      keep-IsLeaf lo hi v w = record {
        leaf = leaf;
        sorted = sorted;
        within = λ i b. elim (old i b) [
          | inl e ↦ subst (Within order zero_key lo hi) (sym e) w
          | inr (j, c, e) ↦ subst (Within order zero_key lo hi) e (v.within j c)
        ];
      }

      -- The pages are still a tree where the search for `key` goes to the leaf.
      pub Subtree-changed :
          (h : ℕ) (p parent : ℤ) (lo hi : Option Key)
          → Subtree order zero_key pages h p parent lo hi
          → (LeafAt order zero_key pages h p q
              → Goes order zero_key pages key h p q × Within order zero_key lo hi key)
          → Subtree order zero_key changed h p parent lo hi
      Subtree-changed zero p parent lo hi (m, e, d, v) way = elim (Bool-cases (eqb_ℤ p q)) [
        | inr f ↦ (m, rw f e, d, v)
        | inl f ↦
            let at : p ≡ q = (eqb_ℤ_iff p q).0 f in
            let one = same_page order zero_key (ap pages (sym at) ∙ e) reads in
            (
              n',
              changed_at p at,
              same_parent ∙ ap (λ (x : IndexPage order zero_key). x.parent) (sym one) ∙ d,
              keep-IsLeaf lo hi
                  (subst (λ (x : IndexPage order zero_key). IsLeaf order zero_key x lo hi) one v)
                  (way at).1,
            )
      ]
      Subtree-changed (suc h) p parent lo hi (m, e, d, v, sub) way = (
        m,
        changed_ne p m v.inner e ∙ e,
        d,
        v,
        λ i b.
            Subtree-changed h (m.node.rids i).page_no p (floor order zero_key lo m.node i)
              (ceiling order zero_key hi m.node i) (sub i b)
              (λ at.
                let (g, w) = way (m, e, i, b, at) in
                LeafAt-route pages key h p lo hi q m i e v sub b at g w),
      )
