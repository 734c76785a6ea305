-- ===== src/Tests/Index.antt =====
-- A leaf of src/index/ix_index_handle.cpp with the keys 1, 4 and 7.
use dbgenerality_rucbase.Base.{
  ℕ, ◌+◌, ◌*◌, ◌≡◌, refl, some, pos, arith, List, [], ◌∷◌, minus_one, ℤ,
}
use dbgenerality_rucbase.System.Meta.{type_int}
use dbgenerality_rucbase.Index.Header.{
  IxFileHdr, serialize, deserialize, update_tot_len, deserialize-serialize,
}
use dbgenerality_rucbase.Lock.Types.{Rid}
use dbgenerality_rucbase.Index.Compare.{compare_int, int_order}
use dbgenerality_rucbase.Index.Node.{IxNodeHandle}
use dbgenerality_rucbase.Index.Node.Search.{IsSorted}

abbrev rid_of : ℕ → Rid
rid_of i = record { page_no = pos 1; slot_no = pos i }

abbrev leaf : IxNodeHandle int_order
leaf = record { num_key = 3; keys = λ i. pos (i * 3 + 1); rids = rid_of }

leaf-IsSorted : IsSorted int_order leaf
unfolding compare_int
leaf-IsSorted i j h k = ground arith

-- The header of an index on one INT column.
abbrev one_column : IxFileHdr
one_column = record {
  first_free_page_no = minus_one;
  num_pages = pos 3;
  root_page = pos 2;
  col_num = 1;
  col_types = type_int ∷ [];
  col_lens = pos 4 ∷ [];
  col_tot_len = pos 4;
  btree_order = pos 339;
  keys_size = pos 1360;
  first_leaf = pos 2;
  last_leaf = pos 2;
  tot_len = pos 0;
}

deserialize-serialize_example :
    (ws : List ℤ) × (serialize (update_tot_len one_column) ≡ some ws)
    × (deserialize ws ≡ some (update_tot_len one_column))
deserialize-serialize_example = deserialize-serialize one_column refl refl
