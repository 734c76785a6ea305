-- ===== src/Index/Tree/Split.antt =====
-- The insertion into the tree of src/index/ix_index_handle.cpp: `split`, `insert_into_parent` and
-- `insert_entry`.
use dbgenerality_rucbase.Base.{
  ℕ, zero, suc, ◌+◌, ◌-◌, ◌/◌, Bool, true, false, if◌then◌else◌, ◌==◌, ℤ, minus_one, eqb_ℤ,
}
use dbgenerality_rucbase.Lock.Types.{Rid}
use dbgenerality_rucbase.Query.Result.{Result, ok, throws, out_of_fuel, ◌>>=◌}
use dbgenerality_rucbase.Index.Order.{KeyOrder}
use dbgenerality_rucbase.Index.Node.{IxNodeHandle, insert, insert_pairs}
use dbgenerality_rucbase.Index.Tree.{
  NodePage, IxIndexHandle, asserted, child_rid, get_max_size, fetch_node, put_node, blank,
  create_node, find_leaf_page, find_child, set_parent, maintain_children,
}

module _ (order : KeyOrder) (zero_key : order.Key) where
  open order use {Key}

  -- A node with its keys and rids changed.
  abbrev pub with_node : NodePage order zero_key → IxNodeHandle order → NodePage order zero_key
  with_node n h = record n { node = h }

  -- `insert_pair`
  unfoldable pub insert_pair : ℕ → Key → Rid → IxNodeHandle order → Result (IxNodeHandle order)
  unfolding insert_pairs
  insert_pair i key rid node = asserted (insert_pairs order i (λ j. key) (λ j. rid) 1 node)

  -- The header that `split` gives to the new node, before the links of a leaf.
  abbrev pub split_header : NodePage order zero_key → NodePage order zero_key
  split_header n = record (blank order zero_key) {
    is_leaf = n.is_leaf;
    parent = n.parent;
    next_free_page_no = n.next_free_page_no;
  }

  -- What `split` does to a leaf `p` and the new node `q`: `q` comes between `p` and the next leaf.
  unfoldable pub link :
      ℤ
      → NodePage order zero_key
      → ℤ
      → IxIndexHandle order zero_key
      → Result (IxIndexHandle order zero_key)
  link p n q t =
      let new_node = record (split_header n) { prev_leaf = p; next_leaf = n.next_leaf } in
      let t1 = put_node order zero_key q new_node t in
      let t2 = put_node order zero_key p (record n { next_leaf = q }) t1 in
      do
        next_node ← fetch_node order zero_key n.next_leaf t2
        ok (put_node order zero_key n.next_leaf (record next_node { prev_leaf = q }) t2)

  -- The right half of the node goes to the new one.
  unfoldable pub move_half :
      ℤ → ℤ → IxIndexHandle order zero_key → Result (IxIndexHandle order zero_key)
  unfolding insert_pairs maintain_children
  move_half p q t = do
    n ← fetch_node order zero_key p t
    new_node ← fetch_node order zero_key q t
    let half = n.node.num_key / 2
    let num = n.node.num_key - half
    h ← asserted (
        insert_pairs order 0 (λ i. n.node.keys (half + i)) (λ i. n.node.rids (half + i)) num
          new_node.node)
    let t1 = put_node order zero_key q (with_node new_node h) t
    let t2 = put_node order zero_key p (with_node n (record (n.node) { num_key = half })) t1
    maintain_children order zero_key num q 0 t2

  -- `split`: the number of the new node.
  unfoldable pub split :
      ℤ → IxIndexHandle order zero_key → Result (ℤ × IxIndexHandle order zero_key)
  unfolding create_node link move_half
  split p t = do
    let c = create_node order zero_key t
    n ← fetch_node order zero_key p c.1
    t1 ←
        if n.is_leaf
        then link p n c.0 c.1
        else ok (put_node order zero_key c.0 (split_header n) c.1)
    t2 ← move_half p c.0 t1
    ok (c.0, t2)

  -- `insert_into_parent` at a root: a new root over the two nodes.
  unfoldable pub grow_root :
      ℤ → Key → ℤ → IxIndexHandle order zero_key → Result (IxIndexHandle order zero_key)
  unfolding create_node insert_pair set_parent
  grow_root old_node key new_node t = do
    let c = create_node order zero_key t
    n ← fetch_node order zero_key old_node c.1
    h1 ← insert_pair 0 (n.node.keys 0) (child_rid old_node) (blank order zero_key).node
    h2 ← insert_pair 1 key (child_rid new_node) h1
    let root : NodePage order zero_key = record (blank order zero_key) {
      node = h2;
      is_leaf = false;
      parent = minus_one;
      next_free_page_no = minus_one;
    }
    let t1 = put_node order zero_key c.0 root c.1
    t2 ← set_parent order zero_key new_node c.0 (record t1 { root_page = c.0 })
    set_parent order zero_key old_node c.0 t2

  -- `insert_into_parent`; the rounds are the levels above the node.
  unfoldable pub insert_into_parent :
      ℕ → ℤ → Key → ℤ → IxIndexHandle order zero_key → Result (IxIndexHandle order zero_key)
  unfolding grow_root split find_child insert_pair
  insert_into_parent zero old_node key new_node t = throws out_of_fuel
  insert_into_parent (suc fuel) old_node key new_node t = do
    n ← fetch_node order zero_key old_node t
    elim (eqb_ℤ n.parent minus_one) [
      | true ↦ grow_root old_node key new_node t
      | false ↦ do
        parent ← fetch_node order zero_key n.parent t
        rid_idx ← find_child order zero_key old_node parent.node
        h ← insert_pair (rid_idx + 1) key (child_rid new_node) parent.node
        let t1 = put_node order zero_key n.parent (with_node parent h) t
        elim (h.num_key == get_max_size order zero_key t1) [
          | false ↦ ok t1
          | true ↦ do
            s ← split n.parent t1
            new_parent ← fetch_node order zero_key s.0 s.1
            insert_into_parent fuel n.parent (new_parent.node.keys 0) s.0 s.1
        ]
    ]

  -- What `insert_entry` does with a full leaf.
  unfoldable pub split_leaf :
      ℕ → ℤ → IxIndexHandle order zero_key → Result (IxIndexHandle order zero_key)
  unfolding split insert_into_parent
  split_leaf fuel p t = do
    s ← split p t
    new_node ← fetch_node order zero_key s.0 s.1
    let t1 = if eqb_ℤ p s.1.last_leaf then record (s.1) { last_leaf = s.0 } else s.1
    insert_into_parent fuel p (new_node.node.keys 0) s.0 t1

  -- What `insert_entry` does after the key went into the leaf.
  unfoldable pub after_insert :
      ℕ → ℤ → ℕ → IxIndexHandle order zero_key → Result (IxIndexHandle order zero_key)
  unfolding split_leaf
  after_insert fuel p size t =
      if size == get_max_size order zero_key t then split_leaf fuel p t else ok t

  -- `insert_entry`: whether the key is new.
  unfoldable pub insert_entry :
      ℕ → Key → Rid → IxIndexHandle order zero_key → Result (Bool × IxIndexHandle order zero_key)
  unfolding find_leaf_page insert after_insert
  insert_entry fuel key value t = do
    p ← find_leaf_page order zero_key fuel key t
    n ← fetch_node order zero_key p t
    r ← asserted (insert order key value n.node)
    elim (r.0 == n.node.num_key) [
      | true ↦ ok (false, t)
      | false ↦ do
        t' ← after_insert fuel p r.0 (put_node order zero_key p (with_node n r.1) t)
        ok (true, t')
    ]
