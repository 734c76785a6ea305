-- ===== src/Index/Tree/Ends.antt =====
-- Two ends of the deletion in src/index/ix_index_handle.cpp: the last key of an index, and two
-- internal nodes.
use dbgenerality_rucbase.Base.{
  ℕ, suc, ◌-◌, ◌≡◌, ltb, refl, subst, true, false, none, some, ◌==◌, ℤ, minus_one, arith,
  Option-cases, ◌⊎◌, inl, inr,
}
use dbgenerality_rucbase.Lock.Types.{Rid}
use dbgenerality_rucbase.Query.Result.{ok, throws, internal_error, ◌>>=◌}
use dbgenerality_rucbase.Index.Order.{KeyOrder, is_same}
use dbgenerality_rucbase.Index.Node.{IxNodeHandle, remove, erase_pair, erase_at}
use dbgenerality_rucbase.Index.Node.Search.{IsSorted, lower_bound-at}
use dbgenerality_rucbase.Index.Tree.{
  IxIndexHandle, asserted, put_node, descend, find_leaf_page, get_value,
}
use dbgenerality_rucbase.Index.Tree.Split.{with_node, insert_entry}
use dbgenerality_rucbase.Index.Tree.Remove.{
  release_node_handle, delete_entry, coalesce_or_redistribute, adjust_root,
}
use dbgenerality_rucbase.Index.Tree.Shape.{IndexPage, IsTree, same_page}
use dbgenerality_rucbase.Index.Tree.Keep.{eqb_ℤ_self}

module _ (order : KeyOrder) (zero_key : order.Key) where
  open order use {Key, ix_compare, compare-refl}

  module _ (node : IxNodeHandle order) (key : Key) (s : IsSorted order node)
      (one : node.num_key ≡ 1) (is : node.keys 0 ≡ key) where
    emptied : IxNodeHandle order
    emptied = record {
      num_key = node.num_key - 1;
      keys = erase_at node.num_key 0 node.keys;
      rids = erase_at node.num_key 0 node.rids;
    }

    -- The only key of a leaf is removed.
    remove-only : remove order key node ≡ some (emptied.num_key, emptied)
    unfolding remove erase_pair emptied
    remove-only =
        let at = lower_bound-at order node s key 0 (omega arith) is in
        let there : (0 == node.num_key) ≡ false = ground arith in
        let hit : is_same (ix_compare (node.keys 0) key) ≡ true = rw (is, compare-refl key) refl in
        let first : ltb 0 node.num_key ≡ true = ground arith in
        rw (remove, at, there, hit, erase_pair, first) refl

  -- A root that is a leaf without keys is given up.
  give_up :
      (t : IxIndexHandle order zero_key) (p : ℤ) (w : IndexPage order zero_key) (fuel : ℕ)
      → t.pages p ≡ some w
      → w.parent ≡ minus_one
      → w.is_leaf ≡ true
      → w.node.num_key ≡ 0
      → coalesce_or_redistribute order zero_key (suc fuel) p t
        ≡ ok (true, record (release_node_handle order zero_key t) { root_page = minus_one })
  unfolding coalesce_or_redistribute adjust_root
  give_up t p w fuel reads root leaf empty =
      rw (coalesce_or_redistribute, reads, ◌>>=◌, root, adjust_root, reads, leaf, empty, leaf) refl

  root_leaf :
      (t : IxIndexHandle order zero_key) (n : IndexPage order zero_key) (key : Key) (fuel : ℕ)
      → t.pages t.root_page ≡ some n
      → n.is_leaf ≡ true
      → find_leaf_page order zero_key (suc fuel) key t ≡ ok t.root_page
  unfolding find_leaf_page descend
  root_leaf t n key fuel e l = rw (e, l) refl

  no_root :
      (t : IxIndexHandle order zero_key) (k : Key) (rid : Rid) (f : ℕ)
      → t.pages t.root_page ≡ none
      → (insert_entry order zero_key (suc f) k rid t ≡ throws internal_error)
        × (get_value order zero_key (suc f) k t ≡ throws internal_error)
  unfolding insert_entry get_value descend
  no_root t k rid f e = (rw e refl, rw e refl)

  -- Deleting the only key of an index leaves it without a root, and `find_leaf_page` does not ask
  -- for this: where the root is a leaf with one key, `delete_entry` of the key answers that it was
  -- there, the number of the root page is then -1, and the old root is still a page, without keys.
  -- Unless what stands for page -1 at that time is taken for a node, the next `insert_entry` or
  -- `get_value`, of any key, ends in the exception of a page that cannot be read.
  pub delete_entry-last :
      (t : IxIndexHandle order zero_key) (n : IndexPage order zero_key) (key : Key) (fuel : ℕ)
      → IsTree order zero_key t 0
      → t.pages t.root_page ≡ some n
      → n.node.num_key ≡ 1
      → n.node.keys 0 ≡ key
      → (t' : IxIndexHandle order zero_key) × (w : IndexPage order zero_key) × (delete_entry order
            zero_key
            (suc fuel)
            key
            t
          ≡ ok (true, t'))
        × (t'.root_page ≡ minus_one)
        × (t'.pages t.root_page ≡ some w)
        × (w.node.num_key ≡ 0)
        × (((x : IndexPage order zero_key) × (t'.pages minus_one ≡ some x))
            ⊎ ((k : Key) (rid : Rid) (f : ℕ)
                → (insert_entry order zero_key (suc f) k rid t' ≡ throws internal_error)
                  × (get_value order zero_key (suc f) k t' ≡ throws internal_error)))
  unfolding delete_entry descend emptied
  delete_entry-last t n key fuel (m, e, d, v) reads one is =
      let same_node : m ≡ n = same_page order zero_key e reads in
      let leaf : n.is_leaf ≡ true =
        subst (λ (x : IndexPage order zero_key). x.is_leaf ≡ true) same_node v.leaf in
      let root : n.parent ≡ minus_one =
        subst (λ (x : IndexPage order zero_key). x.parent ≡ minus_one) same_node d in
      let sorted : IsSorted order n.node =
        subst (λ (x : IndexPage order zero_key). IsSorted order x.node) same_node v.sorted in
      let finds = root_leaf t n key fuel reads leaf in
      let gone = remove-only n.node key sorted one is in
      let node' = emptied n.node key sorted one is in
      let t1 = put_node order zero_key t.root_page (with_node order zero_key n node') t in
      let t' = record (release_node_handle order zero_key t1) { root_page = minus_one } in
      let w = with_node order zero_key n node' in
      let self : t1.pages t.root_page ≡ some w = rw (eqb_ℤ_self t.root_page) refl in
      let up = give_up t1 t.root_page w fuel self root leaf (omega arith) in
      let fewer : (n.node.num_key - 1 == n.node.num_key) ≡ false = ground arith in
      let next : ((x : IndexPage order zero_key) × (t'.pages minus_one ≡ some x))
          ⊎ ((k : Key) (rid : Rid) (f : ℕ)
              → (insert_entry order zero_key (suc f) k rid t' ≡ throws internal_error)
                × (get_value order zero_key (suc f) k t' ≡ throws internal_error)) =
        elim (Option-cases (t'.pages minus_one)) [
          | inl unread ↦ inr (λ k rid f. no_root t' k rid f unread)
          | inr x ↦ inl x
        ] in
      (
        t',
        w,
        rw (finds, reads, gone, asserted, ◌>>=◌, fewer, up) refl,
        refl,
        self,
        omega arith,
        next,
      )
