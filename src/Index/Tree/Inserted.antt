-- ===== src/Index/Tree/Inserted.antt =====
-- `insert_entry` of src/index/ix_index_handle.cpp into a leaf that does not become full.
use dbgenerality_rucbase.Base.{
  ℕ, ◌+◌, ◌<◌, ◌≡◌, ◌≢◌, ◌↔◌, ◌⊎◌, inl, inr, refl, sym, ◌∙◌, ap, subst, true, false, none, some,
  ◌==◌, ℤ, minus_one, eqb_ℤ, eqb_ℤ_iff, arith, Bool-cases,
}
use dbgenerality_rucbase.Lock.Types.{Rid}
use dbgenerality_rucbase.Query.Result.{ok, ◌>>=◌}
use dbgenerality_rucbase.Index.Order.{KeyOrder}
use dbgenerality_rucbase.Index.Node.{leaf_lookup}
use dbgenerality_rucbase.Index.Node.Insert.{
  grown, grown-IsSorted, insert-grown, absent_past, insert-present,
}
use dbgenerality_rucbase.Index.Node.Entries.{Entry, Entry-grown, grown-Entry, grown-Entry_new}
use dbgenerality_rucbase.Index.Tree.{
  IxIndexHandle, asserted, get_max_size, put_node, find_leaf_page, get_value,
}
use dbgenerality_rucbase.Index.Tree.Split.{with_node, after_insert, insert_entry}
use dbgenerality_rucbase.Index.Tree.Shape.{
  IndexPage, IndexPages, LeafAt, Stored, Goes, IsTree, IsLeaf, same_page,
}
use dbgenerality_rucbase.Index.Tree.Find.{Goes-some, Goes-LeafAt, LeafAt-IsLeaf, descend-Goes}
use dbgenerality_rucbase.Index.Tree.Keep.{
  changed, changed_self, LeafAt-changed, changed-LeafAt, Subtree-changed,
}

module _ (order : KeyOrder) (zero_key : order.Key) where
  open order use {Key}

  -- The leaf to which the search goes, as the tree has it.
  record Place (t : IxIndexHandle order zero_key) (h fuel : ℕ) (key : Key) : Type 0 where
    leaf_page : ℤ
    page : IndexPage order zero_key
    finds : find_leaf_page order zero_key fuel key t ≡ ok leaf_page
    reads : t.pages leaf_page ≡ some page
    is : IsLeaf order zero_key page none none
    goes : Goes order zero_key t.pages key h t.root_page leaf_page
    at : LeafAt order zero_key t.pages h t.root_page leaf_page

  Place-of :
      (t : IxIndexHandle order zero_key) (h fuel : ℕ) (key : Key)
      → IsTree order zero_key t h
      → h < fuel
      → Place t h fuel key
  unfolding find_leaf_page
  Place-of t h fuel key s f =
      let root = t.root_page in
      let (q, g) = Goes-some order zero_key t.pages key h root minus_one none none s (tt, tt) in
      let at = Goes-LeafAt order zero_key t.pages key h root minus_one none none q s (tt, tt) g in
      let (l, r, v) = LeafAt-IsLeaf order zero_key t.pages h root minus_one none none q s at in
      record {
        leaf_page = q;
        page = l;
        finds = descend-Goes order zero_key t key h fuel root minus_one none none q f s (tt, tt) g;
        reads = r;
        is = v;
        goes = g;
        at = at;
      }

  -- The entries of the tree and the new one.
  abbrev pub Added :
      IxIndexHandle order zero_key → IxIndexHandle order zero_key → ℕ → Key → Rid → Type 0
  Added t t' h key value =
      (k : Key) (rid : Rid)
      → Stored order zero_key t'.pages h t'.root_page k rid
        ↔ (Stored order zero_key t.pages h t.root_page k rid ⊎ ((k ≡ key) × (rid ≡ value)))

  module _ (t : IxIndexHandle order zero_key) (h fuel : ℕ) (key : Key) (value : Rid)
      (s : IsTree order zero_key t h) (p : Place t h fuel key) where
    open p use {leaf_page, page, reads, is, goes, at}

    fuller : IndexPage order zero_key
    fuller = with_node order zero_key page (grown order page.node is.sorted key value)

    after : IndexPages order zero_key
    after = changed order zero_key t.pages leaf_page page fuller key reads is.leaf

    t' : IxIndexHandle order zero_key
    t' = put_node order zero_key leaf_page fuller t

    root : ℤ
    root = t.root_page

    module _ (absent : leaf_lookup order page.node key ≡ none) where
      keeps : IsTree order zero_key t' h
      unfolding t' fuller
      keeps =
          Subtree-changed order zero_key t.pages leaf_page page fuller key reads is.leaf refl
            is.leaf
            (grown-IsSorted order page.node is.sorted key value
              (absent_past order page.node is.sorted key value absent))
            (λ i b.
              elim (Entry-grown order page.node is.sorted key value (fuller.node.keys i)
                (fuller.node.rids i) (i, b, refl, refl)) [
                  | inl (j, c, d, e) ↦ inr (j, c, d)
                  | inr (d, e) ↦ inl d
                ])
            h t.root_page minus_one none none s (λ a. (goes, (tt, tt)))

      leaf_back :
          (q : ℤ)
          → LeafAt order zero_key t'.pages h t'.root_page q
          → LeafAt order zero_key t.pages h t.root_page q
      unfolding t' fuller
      leaf_back q a =
          changed-LeafAt order zero_key t.pages leaf_page page fuller key reads is.leaf h
            t.root_page minus_one none none q s a

      leaf_on :
          (q : ℤ)
          → LeafAt order zero_key t.pages h t.root_page q
          → LeafAt order zero_key t'.pages h t'.root_page q
      unfolding t' fuller
      leaf_on q a =
          LeafAt-changed order zero_key t.pages leaf_page page fuller key reads is.leaf h
            t.root_page minus_one none none q s a

      was_there :
          (k : Key) (rid : Rid)
          → Stored order zero_key t'.pages h t'.root_page k rid
          → Stored order zero_key t.pages h t.root_page k rid ⊎ ((k ≡ key) × (rid ≡ value))
      unfolding t' fuller
      was_there k rid (q, m, i, a, r, b, c, d) = elim (Bool-cases (eqb_ℤ q leaf_page)) [
        | inr e ↦ inl (q, m, i, leaf_back q a, (rw e at r), b, c, d)
        | inl e ↦
            let r' : some fuller ≡ some m = rw e at r in
            let entry : Entry order fuller.node k rid =
              subst (λ (x : IndexPage order zero_key). Entry order x.node k rid)
                (same_page order zero_key {o = some m} refl (sym r')) (i, b, c, d) in
            elim (Entry-grown order page.node is.sorted key value k rid entry) [
              | inl (j, b', c', d') ↦ inl (leaf_page, page, j, at, reads, b', c', d')
              | inr new ↦ inr new
            ]
      ]

      in_leaf :
          (k : Key) (rid : Rid)
          → Entry order fuller.node k rid
          → Stored order zero_key t'.pages h t'.root_page k rid
      unfolding t' fuller
      in_leaf k rid (j, b, c, d) = (
        leaf_page,
        fuller,
        j,
        leaf_on leaf_page at,
        changed_self order zero_key t.pages leaf_page page fuller key reads is.leaf,
        b,
        c,
        d,
      )

      is_there :
          (k : Key) (rid : Rid)
          → Stored order zero_key t.pages h t.root_page k rid
          → Stored order zero_key t'.pages h t'.root_page k rid
      unfolding t' fuller
      is_there k rid (q, m, i, a, r, b, c, d) = elim (Bool-cases (eqb_ℤ q leaf_page)) [
        | inr e ↦ (q, m, i, leaf_on q a, (rw e r), b, c, d)
        | inl e ↦
            let same_leaf : m ≡ page =
              same_page order zero_key r (ap t.pages ((eqb_ℤ_iff q leaf_page).0 e) ∙ reads) in
            in_leaf k rid (
              grown-Entry order page.node is.sorted key value k rid (
                subst (λ (x : IndexPage order zero_key). Entry order x.node k rid) same_leaf
                  (i, b, c, d)))
      ]

      new_there : Stored order zero_key t'.pages h t'.root_page key value
      unfolding fuller
      new_there = in_leaf key value (grown-Entry_new order page.node is.sorted key value)

      adds : Added t t' h key value
      adds k rid = (
        was_there k rid,
        λ x. elim x [
          | inl old ↦ is_there k rid old
          | inr (c, d) ↦
              subst (λ (y : Key). Stored order zero_key t'.pages h t'.root_page y rid) (sym c)
                (subst (Stored order zero_key t'.pages h t'.root_page key) (sym d) new_there)
        ],
      )

      goes_on :
          page.node.num_key + 1 ≢ get_max_size order zero_key t
          → insert_entry order zero_key fuel key value t ≡ ok (true, t')
      unfolding insert_entry t' fuller after_insert
      goes_on room =
          let past = absent_past order page.node is.sorted key value absent in
          let grows = insert-grown order page.node is.sorted key value past in
          let bigger : (page.node.num_key + 1 == page.node.num_key) ≡ false = ground arith in
          let free : (page.node.num_key + 1 == get_max_size order zero_key t) ≡ false =
            ground arith in
          rw (p.finds, reads, grows, asserted, ◌>>=◌, bigger, free, after_insert) refl

  -- In a tree in which `get_value` finds no rid for a key, where the leaf to which `find_leaf_page`
  -- goes does not become full by one more key: `insert_entry` answers that the key is new, the pages
  -- after it are a tree of the same height, and what is stored in it is what was stored before and
  -- the new entry.
  pub insert_entry-Added :
      (t : IxIndexHandle order zero_key) (h fuel : ℕ) (key : Key) (value : Rid) (q : ℤ)
      (n : IndexPage order zero_key)
      → IsTree order zero_key t h
      → h < fuel
      → get_value order zero_key fuel key t ≡ ok none
      → find_leaf_page order zero_key fuel key t ≡ ok q
      → t.pages q ≡ some n
      → n.node.num_key + 1 ≢ get_max_size order zero_key t
      → (t' : IxIndexHandle order zero_key) × (insert_entry order zero_key fuel key value t
          ≡ ok (true, t'))
        × IsTree order zero_key t' h
        × Added t t' h key value
  unfolding get_value
  insert_entry-Added t h fuel key value q n s f e finds reads room =
      let p = Place-of t h fuel key s f in
      let o : get_value order zero_key fuel key t ≡ ok (leaf_lookup order p.page.node key) =
        rw (p.finds, p.reads) refl in
      let absent : leaf_lookup order p.page.node key ≡ none = cc (o, e) in
      let leaf : q ≡ p.leaf_page = cc (finds, p.finds) in
      let one : n ≡ p.page = same_page order zero_key reads (ap t.pages leaf ∙ p.reads) in
      let room' =
        subst (λ (x : IndexPage order zero_key). x.node.num_key + 1 ≢ get_max_size order zero_key t)
          one room in
      (
        t' t h fuel key value s p,
        goes_on t h fuel key value s p absent room',
        keeps t h fuel key value s p absent,
        adds t h fuel key value s p absent,
      )

  -- In a tree in which `get_value` finds a rid for a key, `insert_entry` of the key changes nothing
  -- and answers that it is not new.
  pub insert_entry-present :
      (t : IxIndexHandle order zero_key) (h fuel : ℕ) (key : Key) (value rid : Rid)
      → IsTree order zero_key t h
      → h < fuel
      → get_value order zero_key fuel key t ≡ ok (some rid)
      → insert_entry order zero_key fuel key value t ≡ ok (false, t)
  unfolding get_value insert_entry
  insert_entry-present t h fuel key value rid s f e =
      let p = Place-of t h fuel key s f in
      let o : get_value order zero_key fuel key t ≡ ok (leaf_lookup order p.page.node key) =
        rw (p.finds, p.reads) refl in
      let present : leaf_lookup order p.page.node key ≡ some rid = cc (o, e) in
      let same_node = insert-present order p.page.node p.is.sorted key value rid present in
      let same_size : (p.page.node.num_key == p.page.node.num_key) ≡ true = ground arith in
      rw (p.finds, p.reads, same_node, asserted, ◌>>=◌, same_size) refl
