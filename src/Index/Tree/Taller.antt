-- ===== src/Index/Tree/Taller.antt =====
-- `insert_entry` of src/index/ix_index_handle.cpp into a root that is a full leaf: the tree gets a
-- level.
use dbgenerality_rucbase.Base.{
  ℕ, zero, suc, ◌+◌, ◌≡◌, ◌≢◌, ◌⊎◌, refl, sym, ◌∙◌, ap, true, false, Option, none, some,
  if◌then◌else◌, ◌==◌, ℤ, pos, negsuc, minus_one, inc, eqb_ℤ, eqb_ℤ_iff, arith, Bool-cases, inl,
  inr,
}
use dbgenerality_rucbase.Lock.Types.{Rid}
use dbgenerality_rucbase.Query.Result.{ok, ◌>>=◌}
use dbgenerality_rucbase.Index.Order.{KeyOrder}
use dbgenerality_rucbase.Index.Node.{leaf_lookup}
use dbgenerality_rucbase.Index.Node.Search.{IsSorted}
use dbgenerality_rucbase.Index.Node.Insert.{grown, grown-IsSorted, insert-grown, absent_past}
use dbgenerality_rucbase.Index.Node.Parts.{
  left_part, right_part, left_part-IsSorted, right_part-IsSorted, left-below, right-at_least,
}
use dbgenerality_rucbase.Index.Tree.{
  IxIndexHandle, asserted, zero_rid, get_max_size, put_node, find_leaf_page, descend, create_node,
}
use dbgenerality_rucbase.Index.Tree.Split.{
  with_node, split_header, split, split_leaf, after_insert, insert_entry,
}
use dbgenerality_rucbase.Index.Tree.Shape.{IndexPage, IsTree, LeafAt}
use dbgenerality_rucbase.Index.Tree.Keep.{eqb_ℤ_self}
use dbgenerality_rucbase.Index.Tree.Halves.{halves, linked, split-halves, halves_left, halves_right}
use dbgenerality_rucbase.Index.Tree.NewRoot.{
  taller, insert_into_parent-taller, taller-IsTree, taller_left, taller_right, taller-LeafAt,
  LeafAt-left, LeafAt-right,
}

eqb_ℤ_ne : (a b : ℤ) → a ≢ b → eqb_ℤ a b ≡ false
eqb_ℤ_ne a b h = elim (Bool-cases (eqb_ℤ a b)) [
  | inr e ↦ e
  | inl e ↦ absurd (h ((eqb_ℤ_iff a b).0 e))
]

inc_ne : (a : ℤ) → a ≢ inc a
inc_ne (pos n) e = ground arith
inc_ne (negsuc zero) e = ground arith
inc_ne (negsuc (suc n)) e = ground arith

module _ (order : KeyOrder) (zero_key : order.Key) where
  open order use {Key}

  used_ne :
      (t : IxIndexHandle order zero_key) (a b : ℤ) (n : IndexPage order zero_key)
      → t.pages a ≡ some n
      → t.pages b ≡ none
      → a ≢ b
  used_ne t a b n e k h = cc (e, k, ap t.pages h)

  -- An index that is one leaf, which becomes full by one more key, with what the split needs.
  pub record FullRoot : Type 0 where
    pub t : IxIndexHandle order zero_key
    pub fuel : ℕ
    pub key : Key
    pub value : Rid
    pub n : IndexPage order zero_key
    pub y : IndexPage order zero_key
    pub reads : t.pages t.root_page ≡ some n
    pub at_root : n.parent ≡ minus_one
    pub leaf : n.is_leaf ≡ true
    pub s : IsSorted order n.node
    pub absent : leaf_lookup order n.node key ≡ none
    pub full : n.node.num_key + 1 ≡ get_max_size order zero_key t
    pub reads_next : t.pages n.next_leaf ≡ some y
    pub not_self : n.next_leaf ≢ t.root_page
    pub free : t.pages t.next_page_no ≡ none
    pub free' : t.pages (inc t.next_page_no) ≡ none

  module _ (f : FullRoot) where
    open f use {
      t, fuel, key, value, n, y, reads, at_root, leaf, s, absent, full, reads_next, not_self, free,
      free',
    }

    abbrev pub p : ℤ
    p = t.root_page

    abbrev pub q : ℤ
    q = t.next_page_no

    abbrev pub fuller : IndexPage order zero_key
    fuller = with_node order zero_key n (grown order n.node s key value)

    abbrev t0 : IxIndexHandle order zero_key
    t0 = put_node order zero_key p fuller t

    reads0 : t0.pages p ≡ some fuller
    reads0 = rw (eqb_ℤ_self p) refl

    xp : eqb_ℤ n.next_leaf p ≡ false
    xp = eqb_ℤ_ne n.next_leaf p not_self

    px : eqb_ℤ p n.next_leaf ≡ false
    px = eqb_ℤ_ne p n.next_leaf (λ e. not_self (sym e))

    pub pq : eqb_ℤ p q ≡ false
    pq = eqb_ℤ_ne p q (used_ne t p q n reads free)

    pub qp : eqb_ℤ q p ≡ false
    qp = eqb_ℤ_ne q p (λ e. used_ne t p q n reads free (sym e))

    xq : eqb_ℤ n.next_leaf q ≡ false
    xq = eqb_ℤ_ne n.next_leaf q (used_ne t n.next_leaf q y reads_next free)

    qx : eqb_ℤ q n.next_leaf ≡ false
    qx = eqb_ℤ_ne q n.next_leaf (λ e. used_ne t n.next_leaf q y reads_next free (sym e))

    reads_next0 : t0.pages n.next_leaf ≡ some y
    reads_next0 = rw xp reads_next

    pub t1 : IxIndexHandle order zero_key
    t1 = halves order zero_key t0 p fuller y reads0 leaf reads_next0 pq qp xp xq px qx

    abbrev pub first : IndexPage order zero_key
    first = record fuller { node = left_part order zero_key zero_rid fuller.node; next_leaf = q }

    abbrev pub second : IndexPage order zero_key
    second = record (split_header order zero_key fuller) {
      node = right_part order zero_key zero_rid fuller.node;
      prev_leaf = p;
      next_leaf = n.next_leaf;
    }

    pub t1_first : t1.pages p ≡ some first
    unfolding t1
    t1_first = halves_left order zero_key t0 p fuller y reads0 leaf reads_next0 pq qp xp xq px qx

    t1_second : t1.pages q ≡ some second
    unfolding t1
    t1_second = halves_right order zero_key t0 p fuller y reads0 leaf reads_next0 pq qp xp xq px qx

    abbrev pub sep : Key
    sep = second.node.keys 0

    -- The pages with the last leaf of the header.
    pub t2 : IxIndexHandle order zero_key
    t2 = if eqb_ℤ p t1.last_leaf then record t1 { last_leaf = q } else t1

    t2_pages : t2.pages ≡ t1.pages
    unfolding t2
    t2_pages = ground arith

    t2_next : t2.next_page_no ≡ inc q
    unfolding t2 t1 halves linked create_node
    t2_next = ground arith

    pub t2_first : t2.pages p ≡ some first
    t2_first = ap (λ (g : ℤ → Option (IndexPage order zero_key)). g p) t2_pages ∙ t1_first

    pub t2_second : t2.pages q ≡ some second
    t2_second = ap (λ (g : ℤ → Option (IndexPage order zero_key)). g q) t2_pages ∙ t1_second

    pub pr : eqb_ℤ p t2.next_page_no ≡ false
    pr = rw t2_next (eqb_ℤ_ne p (inc q) (used_ne t p (inc q) n reads free'))

    pub rp : eqb_ℤ t2.next_page_no p ≡ false
    rp = rw t2_next (eqb_ℤ_ne (inc q) p (λ e. used_ne t p (inc q) n reads free' (sym e)))

    pub qr : eqb_ℤ q t2.next_page_no ≡ false
    qr = rw t2_next (eqb_ℤ_ne q (inc q) (inc_ne q))

    pub rq : eqb_ℤ t2.next_page_no q ≡ false
    rq = rw t2_next (eqb_ℤ_ne (inc q) q (λ e. inc_ne q (sym e)))

    unfoldable pub t3 : IxIndexHandle order zero_key
    t3 = taller order zero_key t2 p q sep first second t2_first t2_second pq qp pr rp qr rq

    splits : split order zero_key p t0 ≡ ok (q, t1)
    unfolding t1
    splits = split-halves order zero_key t0 p fuller y reads0 leaf reads_next0 pq qp xp xq px qx

    split_leaf-t3 : split_leaf order zero_key (suc fuel) p t0 ≡ ok t3
    unfolding split_leaf t2 t3
    split_leaf-t3 =
        let up =
          insert_into_parent-taller order zero_key t2 p q sep first second t2_first t2_second pq qp
            pr rp qr rq fuel at_root in
        rw (splits, ◌>>=◌, t1_second, ◌>>=◌) up

    pub goes_up : insert_entry order zero_key (suc fuel) key value t ≡ ok (true, t3)
    unfolding insert_entry after_insert find_leaf_page descend
    goes_up =
        let finds : find_leaf_page order zero_key (suc fuel) key t ≡ ok p = rw (reads, leaf) refl in
        let past = absent_past order n.node s key value absent in
        let grows = insert-grown order n.node s key value past in
        let bigger : (n.node.num_key + 1 == n.node.num_key) ≡ false = ground arith in
        let reached : (n.node.num_key + 1 == get_max_size order zero_key t) ≡ true = ground arith in
        rw (finds, reads, grows, asserted, ◌>>=◌, bigger, reached, split_leaf-t3) refl

    pub sorted : IsSorted order fuller.node
    sorted = grown-IsSorted order n.node s key value (absent_past order n.node s key value absent)

    pub keeps : IsTree order zero_key t3 1
    unfolding t3
    keeps =
        taller-IsTree order zero_key t2 p q sep first second t2_first t2_second pq qp pr rp qr rq
          (record {
            leaf = leaf;
            sorted = left_part-IsSorted order zero_key zero_rid fuller.node sorted (omega arith);
            within = λ i h.
                (tt, left-below order zero_key zero_rid fuller.node sorted (omega arith) i h);
          })
          (record {
            leaf = leaf;
            sorted = right_part-IsSorted order zero_key zero_rid fuller.node sorted (omega arith);
            within = λ i h. (
              right-at_least order zero_key zero_rid fuller.node sorted (omega arith) i
                  (omega arith),
              tt,
            );
          })

    pub at_first : LeafAt order zero_key t3.pages 1 t3.root_page p
    unfolding t3
    at_first =
        LeafAt-left order zero_key t2 p q sep first second t2_first t2_second pq qp pr rp qr rq

    pub at_second : LeafAt order zero_key t3.pages 1 t3.root_page q
    unfolding t3
    at_second =
        LeafAt-right order zero_key t2 p q sep first second t2_first t2_second pq qp pr rp qr rq

    pub leaves : (x : ℤ) → LeafAt order zero_key t3.pages 1 t3.root_page x → (x ≡ p) ⊎ (x ≡ q)
    unfolding t3
    leaves x at =
        taller-LeafAt order zero_key t2 p q sep first second t2_first t2_second pq qp pr rp qr rq x
          at

    pub t3_first : t3.pages p ≡ some (record first { parent = t2.next_page_no })
    unfolding t3
    t3_first =
        taller_left order zero_key t2 p q sep first second t2_first t2_second pq qp pr rp qr rq

    pub t3_second : t3.pages q ≡ some (record second { parent = t2.next_page_no })
    unfolding t3
    t3_second =
        taller_right order zero_key t2 p q sep first second t2_first t2_second pq qp pr rp qr rq
