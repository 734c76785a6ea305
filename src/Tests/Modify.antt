-- ===== src/Tests/Modify.antt =====
-- Changes to a small table with an index, through the executors of src/execution.
use dbgenerality_rucbase.Base.{◌≡◌, refl, false, List, [], ◌∷◌, some, if◌then◌else◌, arith, pos}
use dbgenerality_rucbase.Record.File.{insert_record, get_record, update_record, is_record}
use dbgenerality_rucbase.Query.Result.{ok}
use dbgenerality_rucbase.Query.Cursor.{Row}
use dbgenerality_rucbase.Query.Value.{Value, SetClause, fresh, set_int}
use dbgenerality_rucbase.Query.Projection.{column}
use dbgenerality_rucbase.Query.Analyze.{for_each}
use dbgenerality_rucbase.Query.Modify.{
  IntIndex, int_index, rid_of, Indexed, Store, key_of, apply_sets, update_at, delete_all,
  delete_next, insert_next,
}
use dbgenerality_rucbase.Query.Modify.Inserts.{LaidFrom, encoded, insert_next-columns}
use dbgenerality_rucbase.Query.Modify.Changes.{is_in, delete_next-is_record}
use dbgenerality_rucbase.Query.Modify.Updates.{update_at-get_value}
use dbgenerality_rucbase.Query.Value.Bytes.{int_of_bytes}
use dbgenerality_rucbase.Index.Compare.{compare_int, int_order}
use dbgenerality_rucbase.Index.Node.{internal_lookup, leaf_lookup}
use dbgenerality_rucbase.Index.Tree.{get_value, find_leaf_page}
use dbgenerality_rucbase.Index.Tree.Shape.{IsTree}
use dbgenerality_rucbase.Tests.Tree.{two_leaves, two_leaves-IsTree, last_leaf}
use dbgenerality_rucbase.Record.Layout.{new_header, create_file}
use dbgenerality_rucbase.System.Meta.{type_int}
use dbgenerality_rucbase.System.Tables.{ColDef, SmManager, create_table}
use dbgenerality_rucbase.Query.Modify.Created.{Created, create_table-LaidFrom}
use dbgenerality_rucbase.Tests.Tables.{col_a, tab, two_rows, row_1, a_of}

-- The index on the column `a`: 1, 2, 4 and 7 in two leaves.
abbrev on_a : Indexed IntIndex
on_a = record {
  index = record { tab_name = "t"; col_tot_len = pos 4; col_num = 1; cols = col_a "t" ∷ [] };
  blank = 0 ∷ 0 ∷ 0 ∷ 0 ∷ [];
  ih = two_leaves;
}

abbrev set_a : SetClause
set_a = record {
  lhs = a_of "";
  rhs = record (set_int (pos 5) fresh) { raw = some (5 ∷ 0 ∷ 0 ∷ 0 ∷ []) };
}

abbrev changed_row : Row
changed_row = 5 ∷ 0 ∷ 0 ∷ 0 ∷ 7 ∷ 0 ∷ 0 ∷ 0 ∷ []

-- The record of key 1 gets key 5.
update_at-get_value_example :
    (t : IntIndex) × (update_at
        (int_index 2)
        tab
        (set_a ∷ [])
        (1, 0)
        (record { file = two_rows; indexes = on_a ∷ [] })
      ≡ ok (record {
        file = update_record 1 0 changed_row two_rows;
        indexes = record on_a { ih = t } ∷ [];
      }))
    × IsTree int_order (pos 0) t 1
    × (get_value int_order (pos 0) 2 (pos 5) t ≡ ok (some (rid_of (1, 0))))
    × (get_value int_order (pos 0) 2 (pos 1) t ≡ ok (some (rid_of (1, 0))))
unfolding apply_sets get_record key_of get_value compare_int find_leaf_page internal_lookup
    leaf_lookup int_of_bytes
update_at-get_value_example =
    update_at-get_value 2 1 tab (set_a ∷ []) 1 0 (record { file = two_rows; indexes = on_a ∷ [] })
      on_a changed_row (1 ∷ 0 ∷ 0 ∷ 0 ∷ []) (5 ∷ 0 ∷ 0 ∷ 0 ∷ []) (pos 1) (pos 5) (pos 3) last_leaf
      refl refl refl refl refl refl two_leaves-IsTree (omega arith) refl refl refl refl
      (ground arith)

abbrev no_index : Store IntIndex
no_index = record { file = two_rows; indexes = [] }

delete_next-is_record_example :
    is_record 1 0 (delete_all ((1, 0) ∷ []) two_rows)
    ≡ (if is_in 1 0 ((1, 0) ∷ []) then false else is_record 1 0 two_rows)
unfolding delete_next
delete_next-is_record_example =
    delete_next-is_record (int_index 2) row_1 ((1, 0) ∷ []) no_index
      (record { file = delete_all ((1, 0) ∷ []) two_rows; indexes = [] }) 1 0 refl

-- The values 1 and 7.
abbrev new_values : List Value
new_values = set_int (pos 1) fresh ∷ set_int (pos 7) fresh ∷ []

abbrev grown_store : Store IntIndex
grown_store = record { file = (insert_record row_1 two_rows).1; indexes = [] }

insert_next-columns_example :
    (out : List Row) × (encoded tab.cols new_values ≡ ok out)
    × (for_each (λ c. column c (get_record 1 2 grown_store.file)) tab.cols ≡ ok out)
unfolding LaidFrom insert_next
insert_next-columns_example =
    insert_next-columns (int_index 2) (0 ∷ 0 ∷ 0 ∷ 0 ∷ 0 ∷ 0 ∷ 0 ∷ 0 ∷ []) tab new_values no_index
      grown_store (1, 2) (4, refl, refl, (4, refl, refl, refl)) refl (refl, (refl, tt)) refl

-- A database without tables, and the same with the table `t`.
abbrev no_tables : SmManager
no_tables = record {
  db = record { name = "d"; tabs = [] };
  fhs = [];
  meta_file = record { name = "d"; tabs = [] };
}

abbrev with_t : SmManager
with_t = record {
  db = record { name = "d"; tabs = ("t", tab) ∷ [] };
  fhs = ("t", new_header 8) ∷ [];
  meta_file = record { name = "d"; tabs = ("t", tab) ∷ [] };
}

abbrev two_defs : List ColDef
two_defs =
    record { name = "a"; type = type_int; len = pos 4 }
    ∷ record { name = "b"; type = type_int; len = pos 4 }
    ∷ []

create_table-LaidFrom_example : Created "t" no_tables with_t
unfolding create_table create_file
create_table-LaidFrom_example =
    create_table-LaidFrom "t" two_defs no_tables with_t
      (4, refl, omega arith, (4, refl, omega arith, tt)) refl
