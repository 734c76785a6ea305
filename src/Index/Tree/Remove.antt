-- ===== src/Index/Tree/Remove.antt =====
-- The deletion from the tree of src/index/ix_index_handle.cpp: `delete_entry`,
-- `coalesce_or_redistribute` and what they call.
use dbgenerality_rucbase.Base.{
  ℕ, zero, suc, ◌+◌, ◌-◌, ◌*◌, Bool, true, false, ◌&&◌, not, if◌then◌else◌, ◌==◌, leb, ℤ, pos,
  negsuc, minus_one, eqb_ℤ,
}
use dbgenerality_rucbase.Query.Result.{
  Result, ok, throws, assertion_failed, out_of_fuel, require, ◌>>=◌, ◌>>◌,
}
use dbgenerality_rucbase.Index.Order.{KeyOrder, is_same}
use dbgenerality_rucbase.Index.Node.{IxNodeHandle, insert_pairs, erase_pair, remove}
use dbgenerality_rucbase.Index.Tree.{
  IxIndexHandle, asserted, get_min_size, fetch_node, put_node, find_leaf_page, find_child,
  set_parent, maintain_child, maintain_children,
}
use dbgenerality_rucbase.Index.Tree.Split.{with_node, insert_pair}

-- `num_pages_--`
abbrev pub minus_1 : ℤ → ℤ
minus_1 (pos zero) = minus_one
minus_1 (pos (suc n)) = pos n
minus_1 (negsuc n) = negsuc (suc n)

module _ (order : KeyOrder) (zero_key : order.Key) where
  open order use {Key, ix_compare}

  abbrev pub Index : Type 0
  Index = IxIndexHandle order zero_key

  -- `release_node_handle`
  abbrev pub release_node_handle : Index → Index
  release_node_handle t = record t { num_pages = minus_1 t.num_pages }

  -- `set_key`
  abbrev pub set_key : ℕ → Key → IxNodeHandle order → IxNodeHandle order
  set_key i key h = record h { keys = λ j. if j == i then key else h.keys j }

  -- The loop of `maintain_parent`; the rounds are the levels above the node. `memcmp` finds two keys
  -- equal where `ix_compare` does.
  unfoldable pub maintain_parent : ℕ → ℤ → Index → Result Index
  unfolding find_child
  maintain_parent zero curr t = throws out_of_fuel
  maintain_parent (suc fuel) curr t = do
    n ← fetch_node order zero_key curr t
    elim (eqb_ℤ n.parent minus_one) [
      | true ↦ ok t
      | false ↦ do
        parent ← fetch_node order zero_key n.parent t
        rank ← find_child order zero_key curr parent.node
        let child_first_key = n.node.keys 0
        elim (is_same (ix_compare (parent.node.keys rank) child_first_key)) [
          | true ↦ ok t
          | false ↦ maintain_parent fuel n.parent (
              put_node order zero_key n.parent
                (with_node order zero_key parent (set_key rank child_first_key parent.node)) t)
        ]
    ]

  unfoldable pub erase_leaf : ℤ → Index → Result Index
  erase_leaf leaf t = do
    n ← fetch_node order zero_key leaf t
    require n.is_leaf assertion_failed
    prev ← fetch_node order zero_key n.prev_leaf t
    let t1 = put_node order zero_key n.prev_leaf (record prev { next_leaf = n.next_leaf }) t
    n1 ← fetch_node order zero_key leaf t1
    next ← fetch_node order zero_key n1.next_leaf t1
    ok (put_node order zero_key n1.next_leaf (record next { prev_leaf = n1.prev_leaf }) t1)

  -- `adjust_root`: whether the root is to be deleted.
  unfoldable pub adjust_root : ℤ → Index → Result (Bool × Index)
  unfolding set_parent
  adjust_root old_root t = do
    n ← fetch_node order zero_key old_root t
    elim (not n.is_leaf && n.node.num_key == 1) [
      | true ↦ do
        let new_root = (n.node.rids 0).page_no
        t1 ← set_parent order zero_key new_root minus_one t
        ok (true, release_node_handle (record t1 { root_page = new_root }))
      | false ↦
          if n.is_leaf && n.node.num_key == 0
          then ok (true, record (release_node_handle t) { root_page = minus_one })
          else ok (false, t)
    ]

  -- `redistribute` of a neighbour before the node.
  unfoldable pub take_last : ℕ → ℤ → ℤ → Index → Result Index
  unfolding insert_pair erase_pair maintain_child maintain_parent
  take_last fuel neighbor p t = do
    b ← fetch_node order zero_key neighbor t
    n ← fetch_node order zero_key p t
    let last = b.node.num_key - 1
    h ← insert_pair order zero_key 0 (b.node.keys last) (b.node.rids last) n.node
    k ← asserted (erase_pair order last b.node)
    let t1 = put_node order zero_key p (with_node order zero_key n h) t
    let t2 = put_node order zero_key neighbor (with_node order zero_key b k) t1
    t3 ← maintain_child order zero_key p 0 t2
    maintain_parent fuel p t3

  -- `redistribute` of a neighbour after the node.
  unfoldable pub take_first : ℕ → ℤ → ℤ → Index → Result Index
  unfolding insert_pair erase_pair maintain_child maintain_parent
  take_first fuel neighbor p t = do
    b ← fetch_node order zero_key neighbor t
    n ← fetch_node order zero_key p t
    h ← insert_pair order zero_key n.node.num_key (b.node.keys 0) (b.node.rids 0) n.node
    k ← asserted (erase_pair order 0 b.node)
    let t1 = put_node order zero_key p (with_node order zero_key n h) t
    let t2 = put_node order zero_key neighbor (with_node order zero_key b k) t1
    t3 ← maintain_child order zero_key p (h.num_key - 1) t2
    maintain_parent fuel neighbor t3

  unfoldable pub redistribute : ℕ → ℤ → ℤ → ℕ → Index → Result Index
  unfolding take_last take_first
  redistribute fuel neighbor p index t =
      if not (index == 0) then take_last fuel neighbor p t else take_first fuel neighbor p t

  -- `coalesce` of a node into the one on its left, up to the call for the parent.
  unfoldable pub merge : ℤ → ℤ → ℤ → ℕ → Index → Result Index
  unfolding insert_pairs maintain_children erase_leaf erase_pair
  merge left right parent index t = do
    l ← fetch_node order zero_key left t
    r ← fetch_node order zero_key right t
    h ← asserted (insert_pairs order l.node.num_key r.node.keys r.node.rids r.node.num_key l.node)
    t1 ←
        maintain_children order zero_key (h.num_key - l.node.num_key) left l.node.num_key
          (put_node order zero_key left (with_node order zero_key l h) t)
    t2 ← erase_leaf right (if eqb_ℤ right t1.last_leaf then record t1 { last_leaf = left } else t1)
    p ← fetch_node order zero_key parent t2
    k ← asserted (erase_pair order index p.node)
    ok (put_node order zero_key parent (with_node order zero_key p k) (release_node_handle t2))

  -- `coalesce` up to that call, which swaps the two nodes where the node is the first child.
  unfoldable pub coalesce : ℤ → ℤ → ℤ → ℕ → Index → Result Index
  unfolding merge
  coalesce neighbor p parent index t =
      if index == 0 then merge p neighbor parent 1 t else merge neighbor p parent index t

  -- The rounds are the levels from the node up; the answer of the call for the parent is not used.
  unfoldable pub coalesce_or_redistribute : ℕ → ℤ → Index → Result (Bool × Index)
  unfolding adjust_root maintain_parent find_child redistribute coalesce
  coalesce_or_redistribute zero p t = throws out_of_fuel
  coalesce_or_redistribute (suc fuel) p t = do
    n ← fetch_node order zero_key p t
    elim (eqb_ℤ n.parent minus_one) [
      | true ↦ adjust_root p t
      | false ↦ elim (leb (get_min_size order zero_key t) n.node.num_key) [
        | true ↦ do t1 ← maintain_parent (suc fuel) p t; ok (false, t1)
        | false ↦ do
          parent ← fetch_node order zero_key n.parent t
          index ← find_child order zero_key p parent.node
          let neighbor = if not (index == 0) then n.prev_leaf else n.next_leaf
          b ← fetch_node order zero_key neighbor t
          elim (leb (get_min_size order zero_key t * 2) (n.node.num_key + b.node.num_key)) [
            | true ↦ do t1 ← redistribute (suc fuel) neighbor p index t; ok (false, t1)
            | false ↦ do
              t1 ← coalesce neighbor p n.parent index t
              r ← coalesce_or_redistribute fuel n.parent t1
              ok (true, r.1)
          ]
      ]
    ]

  -- `delete_entry`: whether the key was there.
  unfoldable pub delete_entry : ℕ → Key → Index → Result (Bool × Index)
  unfolding find_leaf_page remove coalesce_or_redistribute
  delete_entry fuel key t = do
    p ← find_leaf_page order zero_key fuel key t
    n ← fetch_node order zero_key p t
    r ← asserted (remove order key n.node)
    elim (r.0 == n.node.num_key) [
      | true ↦ ok (false, t)
      | false ↦ do
        s ←
            coalesce_or_redistribute fuel p
              (put_node order zero_key p (with_node order zero_key n r.1) t)
        ok (true, s.1)
    ]
