-- ===== src/Tests/Taller.antt =====
-- An index of src/index/ix_index_handle.cpp that is one leaf, full by one more key.
use dbgenerality_rucbase.Base.{
  ℕ, ◌*◌, ◌≡◌, ◌↔◌, ◌⊎◌, refl, true, some, none, if◌then◌else◌, ℤ, pos, minus_one, eqb_ℤ, arith,
}
use dbgenerality_rucbase.Lock.Types.{Rid}
use dbgenerality_rucbase.Query.Result.{ok}
use dbgenerality_rucbase.Index.Compare.{compare_int, int_order}
use dbgenerality_rucbase.Index.Node.{leaf_lookup}
use dbgenerality_rucbase.Index.Tree.{NodePage, IxIndexHandle, get_value, find_leaf_page}
use dbgenerality_rucbase.Index.Tree.Split.{insert_entry}
use dbgenerality_rucbase.Index.Tree.Shape.{Stored, IsTree}
use dbgenerality_rucbase.Index.Tree.TwoLevels.{insert_entry-taller}

abbrev rid_at : ℕ → Rid
rid_at i = record { page_no = pos 1; slot_no = pos i }

abbrev leaf_of : ℕ → NodePage int_order (pos 0)
leaf_of size = record {
  node = record { num_key = size; keys = λ i. pos (i * 3); rids = rid_at };
  is_leaf = true;
  parent = minus_one;
  prev_leaf = pos 1;
  next_leaf = pos 1;
  next_free_page_no = minus_one;
}

-- The root page 2 is the leaf 0, 3, 6, and page 1 is the head of the list of leaves.
abbrev one_leaf : IxIndexHandle int_order (pos 0)
one_leaf = record {
  root_page = pos 2;
  first_leaf = pos 2;
  last_leaf = pos 2;
  num_pages = pos 3;
  btree_order = 3;
  next_page_no = pos 3;
  pages = λ p.
      if eqb_ℤ p (pos 2)
      then some (leaf_of 3)
      else if eqb_ℤ p (pos 1)
      then some (leaf_of 0)
      else none;
}

one_leaf-IsTree : IsTree int_order (pos 0) one_leaf 0
unfolding compare_int
one_leaf-IsTree = (
  leaf_of 3,
  refl,
  refl,
  record { leaf = refl; sorted = λ i j a b. ground arith; within = λ i a. (tt, tt) },
)

insert_entry-taller_example :
    (t' : IxIndexHandle int_order (pos 0)) × (insert_entry int_order
        (pos 0)
        2
        (pos 4)
        (rid_at 9)
        one_leaf
      ≡ ok (true, t'))
    × IsTree int_order (pos 0) t' 1
    × ((k : ℤ) (rid : Rid)
        → Stored int_order (pos 0) t'.pages 1 t'.root_page k rid ↔ (
            Stored int_order (pos 0) one_leaf.pages 0 (pos 2) k rid
            ⊎ ((k ≡ pos 4) × (rid ≡ rid_at 9))))
unfolding get_value compare_int find_leaf_page leaf_lookup
insert_entry-taller_example =
    insert_entry-taller int_order (pos 0) one_leaf 1 (pos 4) (rid_at 9) (leaf_of 3) (leaf_of 0)
      one_leaf-IsTree refl refl refl refl (λ e. ground arith) refl refl
