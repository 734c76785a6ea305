-- ===== src/Tests/Tree.antt =====
-- A tree of src/index/ix_index_handle.cpp with two leaves, and runs from an empty index.
use dbgenerality_rucbase.Base.{
  ℕ, zero, suc, ◌+◌, ◌*◌, ◌<◌, ◌≤◌, ◌≡◌, ◌↔◌, refl, true, false, Option, none, some, if◌then◌else◌,
  ℤ, pos, minus_one, eqb_ℤ, arith, List, [], ◌∷◌,
}
use dbgenerality_rucbase.Lock.Types.{Rid}
use dbgenerality_rucbase.Query.Result.{Result, ok, ◌>>=◌}
use dbgenerality_rucbase.Index.Compare.{compare_int, int_order}
use dbgenerality_rucbase.Index.Node.{internal_lookup, leaf_lookup}
use dbgenerality_rucbase.Index.Tree.{NodePage, IxIndexHandle, child_rid, get_value, find_leaf_page}
use dbgenerality_rucbase.Index.Tree.Split.{insert_entry}
use dbgenerality_rucbase.Index.Tree.Remove.{delete_entry}
use dbgenerality_rucbase.Index.Tree.Shape.{Subtree, Stored, IsTree, floor, ceiling}
use dbgenerality_rucbase.Index.Tree.Find.{get_value-Stored}
use dbgenerality_rucbase.Index.Tree.Inserted.{Added, insert_entry-Added}
use dbgenerality_rucbase.Index.Tree.Create.{
  create_index, new_index, create_index-IsTree, ix_page_hdr_size, rid_size,
}
use dbgenerality_rucbase.Record.Layout.{page_size}

abbrev pub Tree : Type 0
Tree = IxIndexHandle int_order (pos 0)

abbrev pub rid_of : ℕ → Rid
rid_of i = record { page_no = pos 1; slot_no = pos i }

-- The leaves 1, 2 and 4, 7 below a root.
abbrev pub leaf_page : ℤ → ℤ → (ℕ → ℤ) → NodePage int_order (pos 0)
leaf_page prev next keys = record {
  node = record { num_key = 2; keys = keys; rids = rid_of };
  is_leaf = true;
  parent = pos 4;
  prev_leaf = prev;
  next_leaf = next;
  next_free_page_no = minus_one;
}

abbrev pub root_node : NodePage int_order (pos 0)
root_node = record {
  node = record { num_key = 2; keys = λ i. pos (i * 3 + 1); rids = λ i. child_rid (pos (i + 2)) };
  is_leaf = false;
  parent = minus_one;
  prev_leaf = pos 0;
  next_leaf = pos 0;
  next_free_page_no = minus_one;
}

abbrev pub first_leaf : NodePage int_order (pos 0)
first_leaf = leaf_page (pos 1) (pos 3) (λ i. pos (i + 1))

abbrev pub last_leaf : NodePage int_order (pos 0)
last_leaf = leaf_page (pos 2) (pos 1) (λ i. pos (i * 3 + 4))

abbrev pub two_leaves : Tree
two_leaves = record {
  root_page = pos 4;
  first_leaf = pos 2;
  last_leaf = pos 3;
  num_pages = pos 5;
  btree_order = 4;
  next_page_no = pos 5;
  pages = λ p.
      if eqb_ℤ p (pos 4)
      then some root_node
      else if eqb_ℤ p (pos 2)
      then some first_leaf
      else if eqb_ℤ p (pos 3)
      then some last_leaf
      else none;
}

child_IsTree :
    (i : ℕ)
    → i < 2
    → (let n = root_node.node in
        Subtree int_order
          (pos 0)
          two_leaves.pages
          0
          (pos (i + 2))
          (pos 4)
          (floor int_order (pos 0) none n i)
          (ceiling int_order (pos 0) none n i))
unfolding compare_int
child_IsTree zero h = (
  first_leaf,
  refl,
  refl,
  record { leaf = refl; sorted = λ i j a b. ground arith; within = λ i a. (tt, ground arith) },
)
child_IsTree (suc zero) h = (
  last_leaf,
  refl,
  refl,
  record { leaf = refl; sorted = λ i j a b. ground arith; within = λ i a. (ground arith, tt) },
)
child_IsTree (suc (suc i)) h = absurd (omega arith)

pub two_leaves-IsTree : IsTree int_order (pos 0) two_leaves 1
unfolding compare_int
two_leaves-IsTree = (
  root_node,
  refl,
  refl,
  record {
    inner = refl;
    some_child = omega arith;
    sorted = λ i j a b c. ground arith;
    within = λ i a b. (tt, tt);
    apart = λ i j a b e. ground arith;
  },
  child_IsTree,
)

get_value-Stored_example :
    (r : Option Rid) × (get_value int_order (pos 0) 2 (pos 7) two_leaves ≡ ok r)
    × ((rid : Rid)
        → (r ≡ some rid) ↔ Stored int_order (pos 0) two_leaves.pages 1 (pos 4) (pos 7) rid)
get_value-Stored_example =
    get_value-Stored int_order (pos 0) two_leaves 1 2 (pos 7) two_leaves-IsTree (omega arith)

insert_entry-Added_example :
    (t' : Tree) × (insert_entry int_order (pos 0) 2 (pos 5) (rid_of 9) two_leaves ≡ ok (true, t'))
    × IsTree int_order (pos 0) t' 1
    × Added int_order (pos 0) two_leaves t' 1 (pos 5) (rid_of 9)
unfolding get_value compare_int find_leaf_page internal_lookup leaf_lookup
insert_entry-Added_example =
    insert_entry-Added int_order (pos 0) two_leaves 1 2 (pos 5) (rid_of 9) (pos 3) last_leaf
      two_leaves-IsTree (omega arith) refl refl refl (ground arith)

create_index-IsTree_example :
    (t : Tree) × (create_index int_order (pos 0) 4 ≡ ok t)
    × IsTree int_order (pos 0) t 0
    × (ix_page_hdr_size + (t.btree_order + 1) * (4 + rid_size) ≤ page_size)
create_index-IsTree_example = create_index-IsTree int_order (pos 0) 4 (omega arith)

-- The keys inserted one after the other.
insert_all : List ℕ → Tree → Result Tree
insert_all [] t = ok t
insert_all (k ∷ ks) t = do
  r ← insert_entry int_order (pos 0) 9 (pos k) (rid_of k) t
  insert_all ks r.1

delete_all : List ℕ → Tree → Result Tree
delete_all [] t = ok t
delete_all (k ∷ ks) t = do r ← delete_entry int_order (pos 0) 9 (pos k) t; delete_all ks r.1

look_up : ℕ → Result Tree → Result (Option Rid)
look_up k m = do t ← m; get_value int_order (pos 0) 9 (pos k) t

-- Leaves that hold three keys: two levels of splits.
split_run :
    look_up 9 (insert_all (5 ∷ 2 ∷ 9 ∷ 7 ∷ 1 ∷ 4 ∷ 8 ∷ 3 ∷ 6 ∷ []) (new_index int_order (pos 0) 3))
    ≡ ok (some (rid_of 9))
unfolding look_up insert_all insert_entry get_value compare_int internal_lookup leaf_lookup
split_run = refl

-- A node takes a key from its neighbour, and then the two leaves become one.
merge_run :
    look_up 2 (do
      t ← insert_all (1 ∷ 2 ∷ 3 ∷ 4 ∷ 5 ∷ []) (new_index int_order (pos 0) 3)
      delete_all (1 ∷ 4 ∷ 3 ∷ []) t)
    ≡ ok (some (rid_of 2))
unfolding look_up insert_all insert_entry delete_all delete_entry get_value compare_int
    internal_lookup leaf_lookup
merge_run = refl
