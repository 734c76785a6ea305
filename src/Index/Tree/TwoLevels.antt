-- ===== src/Index/Tree/TwoLevels.antt =====
-- `insert_entry` of src/index/ix_index_handle.cpp into a root that is a full leaf: what the two
-- leaves of the split hold.
use dbgenerality_rucbase.Base.{
  ℕ, suc, ◌+◌, ◌≡◌, ◌≢◌, ◌↔◌, ◌⊎◌, refl, sym, ◌∙◌, ap, subst, true, none, some, minus_one, inc,
  arith, inl, inr,
}
use dbgenerality_rucbase.Lock.Types.{Rid}
use dbgenerality_rucbase.Query.Result.{ok}
use dbgenerality_rucbase.Index.Order.{KeyOrder}
use dbgenerality_rucbase.Index.Node.{leaf_lookup}
use dbgenerality_rucbase.Index.Node.Search.{IsSorted}
use dbgenerality_rucbase.Index.Node.Entries.{Entry, Entry-grown, grown-Entry, grown-Entry_new}
use dbgenerality_rucbase.Index.Node.Parts.{Entry-parts, left-Entry, right-Entry}
use dbgenerality_rucbase.Index.Tree.{
  IxIndexHandle, zero_rid, get_max_size, find_leaf_page, descend, get_value,
}
use dbgenerality_rucbase.Index.Tree.Split.{insert_entry}
use dbgenerality_rucbase.Index.Tree.Shape.{IndexPage, IsTree, Stored, same_page}
use dbgenerality_rucbase.Index.Tree.Taller.{
  FullRoot, p, q, t2, t3, fuller, first, second, sorted, at_first, at_second, leaves, t3_first,
  t3_second, goes_up, keeps,
}

module _ (order : KeyOrder) (zero_key : order.Key) where
  open order use {Key}

  module _ (f : FullRoot order zero_key) where
    open f use {t, key, value, n, reads, s, full}

    -- What stands in one of the two leaves stands in the leaf before the split.
    in_fuller :
        (k : Key) (rid : Rid)
        → Stored order zero_key (t3 order zero_key f).pages 1 (t3 order zero_key f).root_page k rid
        → Entry order (fuller order zero_key f).node k rid
    in_fuller k rid (x, m, i, at, r, b, c, d) = elim (leaves order zero_key f x at) [
      | inl e ↦
          let one =
            same_page order zero_key r
              (ap (t3 order zero_key f).pages e ∙ t3_first order zero_key f) in
          left-Entry order zero_key zero_rid (fuller order zero_key f).node
            (sorted order zero_key f) (omega arith) k rid
            (subst (λ (w : IndexPage order zero_key). Entry order w.node k rid) one (i, b, c, d))
      | inr e ↦
          let one =
            same_page order zero_key r
              (ap (t3 order zero_key f).pages e ∙ t3_second order zero_key f) in
          right-Entry order zero_key zero_rid (fuller order zero_key f).node
            (sorted order zero_key f) (omega arith) k rid
            (subst (λ (w : IndexPage order zero_key). Entry order w.node k rid) one (i, b, c, d))
    ]

    from_fuller :
        (k : Key) (rid : Rid)
        → Entry order (fuller order zero_key f).node k rid
        → Stored order zero_key (t3 order zero_key f).pages 1 (t3 order zero_key f).root_page k rid
    from_fuller k rid e =
        elim (Entry-parts order zero_key zero_rid (fuller order zero_key f).node
          (sorted order zero_key f) (omega arith) k rid e) [
            | inl (i, b, c, d) ↦ (
              (p order zero_key f),
              record (first order zero_key f) { parent = (t2 order zero_key f).next_page_no },
              i,
              at_first order zero_key f,
              t3_first order zero_key f,
              b,
              c,
              d,
            )
            | inr (i, b, c, d) ↦ (
              (q order zero_key f),
              record (second order zero_key f) { parent = (t2 order zero_key f).next_page_no },
              i,
              at_second order zero_key f,
              t3_second order zero_key f,
              b,
              c,
              d,
            )
          ]

    adds :
        (k : Key) (rid : Rid)
        → Stored order zero_key (t3 order zero_key f).pages 1 (t3 order zero_key f).root_page k rid
          ↔ (Stored order zero_key t.pages 0 (p order zero_key f) k rid
              ⊎ ((k ≡ key) × (rid ≡ value)))
    adds k rid = (
      (λ x. elim (Entry-grown order n.node s key value k rid (in_fuller k rid x)) [
        | inl (i, b, c, d) ↦ inl ((p order zero_key f), n, i, refl, reads, b, c, d)
        | inr new ↦ inr new
      ]),
      λ x. elim x [
        | inl (z, m, i, at, r, b, c, d) ↦
            let one = same_page order zero_key r (ap t.pages (sym at) ∙ reads) in
            from_fuller k rid (
              grown-Entry order n.node s key value k rid (
                subst (λ (w : IndexPage order zero_key). Entry order w.node k rid) one
                  (i, b, c, d)))
        | inr (c, d) ↦ from_fuller k rid (
            subst (λ (k' : Key). Entry order (fuller order zero_key f).node k' rid) (sym c)
              (subst (λ (r' : Rid). Entry order (fuller order zero_key f).node key r') (sym d)
                (grown-Entry_new order n.node s key value)))
      ],
    )

  -- In an index that is one leaf, where `get_value` finds no rid for a key and the leaf becomes full
  -- by one more: `insert_entry` splits the leaf and answers that the key is new, the pages after it
  -- are a tree of two levels, and what is stored in it is what was stored before and the new entry.
  -- The next two page numbers must be free, and the page after the leaf must be another one that can
  -- be read.
  pub insert_entry-taller :
      (t : IxIndexHandle order zero_key) (fuel : ℕ) (key : Key) (value : Rid)
      (n y : IndexPage order zero_key)
      → IsTree order zero_key t 0
      → t.pages t.root_page ≡ some n
      → get_value order zero_key (suc fuel) key t ≡ ok none
      → n.node.num_key + 1 ≡ get_max_size order zero_key t
      → t.pages n.next_leaf ≡ some y
      → n.next_leaf ≢ t.root_page
      → t.pages t.next_page_no ≡ none
      → t.pages (inc t.next_page_no) ≡ none
      → (t' : IxIndexHandle order zero_key) × (insert_entry order zero_key (suc fuel) key value t
          ≡ ok (true, t'))
        × IsTree order zero_key t' 1
        × ((k : Key) (rid : Rid)
            → Stored order zero_key t'.pages 1 t'.root_page k rid
              ↔ (Stored order zero_key t.pages 0 t.root_page k rid ⊎ ((k ≡ key) × (rid ≡ value))))
  unfolding get_value find_leaf_page descend
  insert_entry-taller t fuel key value n y (m, e, d, v) reads none_there full reads_next other free
        free' =
      let one = same_page order zero_key e reads in
      let leaf = subst (λ (w : IndexPage order zero_key). w.is_leaf ≡ true) one v.leaf in
      let at_root = subst (λ (w : IndexPage order zero_key). w.parent ≡ minus_one) one d in
      let s = subst (λ (w : IndexPage order zero_key). IsSorted order w.node) one v.sorted in
      let o : get_value order zero_key (suc fuel) key t ≡ ok (leaf_lookup order n.node key) =
        rw (reads, leaf, reads) refl in
      let absent : leaf_lookup order n.node key ≡ none = cc (o, none_there) in
      let f : FullRoot order zero_key = record {
        t = t;
        fuel = fuel;
        key = key;
        value = value;
        n = n;
        y = y;
        reads = reads;
        at_root = at_root;
        leaf = leaf;
        s = s;
        absent = absent;
        full = full;
        reads_next = reads_next;
        not_self = other;
        free = free;
        free' = free';
      } in
      (t3 order zero_key f, goes_up order zero_key f, keeps order zero_key f, adds f)
