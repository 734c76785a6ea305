-- ===== src/Index/Tree/Find.antt =====
-- The search in the tree, `find_leaf_page` and `get_value` of src/index/ix_index_handle.cpp, finds
-- what is stored.
use dbgenerality_rucbase.Base.{
  ℕ, zero, suc, ◌-◌, ◌<◌, ◌≡◌, ◌↔◌, refl, sym, ◌∙◌, ap, subst, Option, none, some, ℤ, minus_one,
  arith,
}
use dbgenerality_rucbase.Lock.Types.{Rid}
use dbgenerality_rucbase.Query.Result.{ok}
use dbgenerality_rucbase.Index.Order.{KeyOrder}
use dbgenerality_rucbase.Index.Node.{internal_lookup, leaf_lookup, upper_bound}
use dbgenerality_rucbase.Index.Node.Search.{IsSorted, leaf_lookup-found, leaf_lookup_sound}
use dbgenerality_rucbase.Index.Tree.{IxIndexHandle, descend, find_leaf_page, get_value}
use dbgenerality_rucbase.Index.Tree.Shape.{
  IndexPage, IndexPages, Within, floor, ceiling, IsLeaf, Subtree, LeafAt, Stored, Goes, IsTree,
  same_page,
}
use dbgenerality_rucbase.Index.Tree.Ranges.{widens, upper_bound-child, child-Within}

module _ (order : KeyOrder) (zero_key : order.Key) where
  open order use {Key}

  -- A leaf of a tree is a leaf, with keys in the range of the tree.
  pub LeafAt-IsLeaf :
      (pages : IndexPages order zero_key) (h : ℕ) (p parent : ℤ) (lo hi : Option Key) (q : ℤ)
      → Subtree order zero_key pages h p parent lo hi
      → LeafAt order zero_key pages h p q
      → (n : IndexPage order zero_key) × (pages q ≡ some n) × IsLeaf order zero_key n lo hi
  LeafAt-IsLeaf pages zero p parent lo hi q (n, e, d, v) at =
      (n, subst (λ (x : ℤ). pages x ≡ some n) at e, v)
  LeafAt-IsLeaf pages (suc h) p parent lo hi q (n, e, d, v, sub) (m, k, i, b, at) =
      let same_node : m ≡ n = same_page order zero_key k e in
      let below : i < n.node.num_key =
        subst (λ (x : IndexPage order zero_key). i < x.node.num_key) same_node b in
      let here : LeafAt order zero_key pages h (n.node.rids i).page_no q =
        subst
          (λ (x : IndexPage order zero_key).
            LeafAt order zero_key pages h (x.node.rids i).page_no q)
          same_node at in
      let (l, r, w) =
        LeafAt-IsLeaf pages h (n.node.rids i).page_no p (floor order zero_key lo n.node i)
          (ceiling order zero_key hi n.node i) q (sub i below) here in
      (
        l,
        r,
        record {
          leaf = w.leaf;
          sorted = w.sorted;
          within = λ j c. widens order zero_key n lo hi v i (l.node.keys j) below (w.within j c);
        },
      )

  -- Every search arrives at a leaf.
  pub Goes-some :
      (pages : IndexPages order zero_key) (key : Key) (h : ℕ) (p parent : ℤ) (lo hi : Option Key)
      → Subtree order zero_key pages h p parent lo hi
      → Within order zero_key lo hi key
      → (q : ℤ) × Goes order zero_key pages key h p q
  unfolding internal_lookup
  Goes-some pages key zero p parent lo hi s w = (p, refl)
  Goes-some pages key (suc h) p parent lo hi (n, e, d, v, sub) w =
      let i = upper_bound order n.node key - 1 in
      let (b, w') = child-Within order zero_key n lo hi v key w in
      let (q, g) =
        Goes-some pages key h (n.node.rids i).page_no p (floor order zero_key lo n.node i)
          (ceiling order zero_key hi n.node i) (sub i b) w' in
      (q, (n, e, g))

  pub Goes-LeafAt :
      (pages : IndexPages order zero_key) (key : Key) (h : ℕ) (p parent : ℤ) (lo hi : Option Key)
      (q : ℤ)
      → Subtree order zero_key pages h p parent lo hi
      → Within order zero_key lo hi key
      → Goes order zero_key pages key h p q
      → LeafAt order zero_key pages h p q
  unfolding internal_lookup
  Goes-LeafAt pages key zero p parent lo hi q s w g = g
  Goes-LeafAt pages key (suc h) p parent lo hi q (n, e, d, v, sub) w (m, k, g) =
      let i = upper_bound order n.node key - 1 in
      let (b, w') = child-Within order zero_key n lo hi v key w in
      let g' : Goes order zero_key pages key h (n.node.rids i).page_no q =
        subst
          (λ (x : IndexPage order zero_key).
            Goes order zero_key pages key h (x.node.rids (upper_bound order x.node key - 1)).page_no
              q)
          (same_page order zero_key k e) g in
      (
        n,
        e,
        i,
        b,
        Goes-LeafAt pages key h (n.node.rids i).page_no p (floor order zero_key lo n.node i)
            (ceiling order zero_key hi n.node i) q (sub i b) w' g',
      )

  -- The loop takes as many rounds as the tree has levels.
  pub descend-Goes :
      (t : IxIndexHandle order zero_key) (key : Key) (h fuel : ℕ) (p parent : ℤ)
      (lo hi : Option Key) (q : ℤ)
      → h < fuel
      → Subtree order zero_key t.pages h p parent lo hi
      → Within order zero_key lo hi key
      → Goes order zero_key t.pages key h p q
      → descend order zero_key fuel key p t ≡ ok q
  unfolding descend
  descend-Goes t key h zero p parent lo hi q f s w g = absurd (omega arith)
  descend-Goes t key zero (suc fuel) p parent lo hi q f (n, e, d, v) w g =
      rw (e, v.leaf, descend) (ap ok g)
  descend-Goes t key (suc h) (suc fuel) p parent lo hi q f (n, e, d, v, sub) w (m, k, g) =
      let i = upper_bound order n.node key - 1 in
      let (b, w') = child-Within order zero_key n lo hi v key w in
      let g' : Goes order zero_key t.pages key h (internal_lookup order n.node key) q =
        subst
          (λ (x : IndexPage order zero_key).
            Goes order zero_key t.pages key h (internal_lookup order x.node key) q)
          (same_page order zero_key k e) g in
      rw (e, v.inner, descend)
        (descend-Goes t key h fuel (internal_lookup order n.node key) p
          (floor order zero_key lo n.node i) (ceiling order zero_key hi n.node i) q (omega arith)
          (unfold internal_lookup in (sub i b)) w' g')

  -- A key that stands in a leaf is searched in this leaf.
  pub Stored-Goes :
      (pages : IndexPages order zero_key) (key : Key) (h : ℕ) (p parent : ℤ) (lo hi : Option Key)
      (q : ℤ) (l : IndexPage order zero_key) (j : ℕ)
      → Subtree order zero_key pages h p parent lo hi
      → LeafAt order zero_key pages h p q
      → pages q ≡ some l
      → j < l.node.num_key
      → l.node.keys j ≡ key
      → Goes order zero_key pages key h p q
  unfolding internal_lookup
  Stored-Goes pages key zero p parent lo hi q l j s at r b e = at
  Stored-Goes pages key (suc h) p parent lo hi q l j (n, e, d, v, sub) (m, k, i, b, at) r c o =
      let same_node : m ≡ n = same_page order zero_key k e in
      let below : i < n.node.num_key =
        subst (λ (x : IndexPage order zero_key). i < x.node.num_key) same_node b in
      let here : LeafAt order zero_key pages h (n.node.rids i).page_no q =
        subst
          (λ (x : IndexPage order zero_key).
            LeafAt order zero_key pages h (x.node.rids i).page_no q)
          same_node at in
      let lo' = floor order zero_key lo n.node i in
      let hi' = ceiling order zero_key hi n.node i in
      let (l', r', w) =
        LeafAt-IsLeaf pages h (n.node.rids i).page_no p lo' hi' q (sub i below) here in
      let within : Within order zero_key lo' hi' key = subst (Within order zero_key lo' hi') o (
        subst
          (λ (x : IndexPage order zero_key).
            (a : j < x.node.num_key) → Within order zero_key lo' hi' (x.node.keys j))
          (same_page order zero_key r' r) (w.within j) c) in
      let child = upper_bound-child order zero_key n lo hi v i key below within in
      let g =
        Stored-Goes pages key h (n.node.rids i).page_no p lo' hi' q l j (sub i below) here r c o in
      (
        n,
        e,
        subst (λ (x : ℕ). Goes order zero_key pages key h (n.node.rids x).page_no q) (sym child) g,
      )

  pub Goes-unique :
      (pages : IndexPages order zero_key) (key : Key) (h : ℕ) (p q q' : ℤ)
      → Goes order zero_key pages key h p q
      → Goes order zero_key pages key h p q'
      → q ≡ q'
  Goes-unique pages key zero p q q' a b = sym a ∙ b
  Goes-unique pages key (suc h) p q q' (n, e, a) (m, k, b) =
      Goes-unique pages key h (internal_lookup order n.node key) q q' a (
        subst
          (λ (x : IndexPage order zero_key).
            Goes order zero_key pages key h (internal_lookup order x.node key) q')
          (same_page order zero_key k e) b)

  pub found_in :
      (l l' : IndexPage order zero_key) (key : Key) (rid : Rid) (i : ℕ)
      → IsSorted order l.node
      → l ≡ l'
      → i < l'.node.num_key
      → l'.node.keys i ≡ key
      → l'.node.rids i ≡ rid
      → leaf_lookup order l.node key ≡ some rid
  found_in l l' key rid i v e b c d =
      let sorted = subst (λ (x : IndexPage order zero_key). IsSorted order x.node) e v in
      let there = leaf_lookup-found order l'.node i sorted b in
      subst (λ (x : IndexPage order zero_key). leaf_lookup order x.node key ≡ some rid) (sym e)
        (subst (λ (k : Key). leaf_lookup order l'.node k ≡ some rid) c (there ∙ ap some d))

  -- In a tree, with as many rounds as it has levels, `get_value` ends, and it gives a rid exactly if
  -- the rid is stored with the key in a leaf of the tree, whichever leaf that is.
  pub get_value-Stored :
      (t : IxIndexHandle order zero_key) (h fuel : ℕ) (key : Key)
      → IsTree order zero_key t h
      → h < fuel
      → (r : Option Rid) × (get_value order zero_key fuel key t ≡ ok r)
        × ((rid : Rid) → (r ≡ some rid) ↔ Stored order zero_key t.pages h t.root_page key rid)
  unfolding get_value find_leaf_page
  get_value-Stored t h fuel key s f =
      let root = t.root_page in
      let (q, g) = Goes-some t.pages key h root minus_one none none s (tt, tt) in
      let at = Goes-LeafAt t.pages key h root minus_one none none q s (tt, tt) g in
      let (l, r, v) = LeafAt-IsLeaf t.pages h root minus_one none none q s at in
      let way = descend-Goes t key h fuel root minus_one none none q f s (tt, tt) g in
      (
        leaf_lookup order l.node key,
        rw (way, r),
        λ rid. (
          (λ e.
              let (i, b, c, d) = leaf_lookup_sound order l.node key rid v.sorted e in
              (q, l, i, at, r, b, c, d)),
          λ (q', l', i, at', r', b, c, d).
              let g' = Stored-Goes t.pages key h root minus_one none none q' l' i s at' r' b c in
              let there : t.pages q ≡ some l' =
                ap t.pages (Goes-unique t.pages key h root q q' g g') ∙ r' in
              let same_leaf = same_page order zero_key r there in
              found_in l l' key rid i v.sorted same_leaf b c d,
        ),
      )
