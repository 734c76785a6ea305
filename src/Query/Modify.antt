-- ===== src/Query/Modify.antt =====
-- `InsertExecutor`, `UpdateExecutor` and `DeleteExecutor` of src/execution, on the file of a table
-- and its indexes. The context is null, as in Record.File.
pub mod Inserts
pub mod Changes
pub mod Created
pub mod Updates
use Prim.Native.String.{String}
use dbgenerality_rucbase.Base.{
  ℕ, zero, suc, ◌+◌, ◌≡◌, ◌≢◌, Bool, true, false, List, [], ◌∷◌, Option, none, some, length, ◌==◌,
  ℤ, pos,
}
use dbgenerality_rucbase.System.Meta.{ColMeta, IndexMeta, TabMeta}
use dbgenerality_rucbase.System.Catalogue.{find_col}
use dbgenerality_rucbase.Record.File.{
  RmFile, insert_record, get_record, update_record, delete_record,
}
use dbgenerality_rucbase.Query.Result.{
  Result, ok, throws, invalid_value_count, incompatible_type, column_not_found, require, ◌>>=◌,
  ◌>>◌,
}
use dbgenerality_rucbase.Query.Cursor.{Row}
use dbgenerality_rucbase.Lock.Types.{Rid}
use dbgenerality_rucbase.Index.Compare.{int_order}
use dbgenerality_rucbase.Index.Tree.{IxIndexHandle}
use dbgenerality_rucbase.Index.Tree.Split
use dbgenerality_rucbase.Index.Tree.Remove
use dbgenerality_rucbase.Query.Value.{Value, init_raw, SetClause}
use dbgenerality_rucbase.Query.Value.Bytes.{first, int_of_bytes}
use dbgenerality_rucbase.Query.Eval.{nat_of, eqb_col_type, raw_data}
use dbgenerality_rucbase.Query.Projection.{column, write_at}
use dbgenerality_rucbase.Query.Analyze.{found}

-- What the executors call of `IxIndexHandle`, on the state of an index. `int_index` has the functions
-- of the tree.
pub record IndexHandle (I : Type 0) : Type 0 where
  pub insert_entry : Row → ℕ × ℕ → I → Result I
  pub delete_entry : Row → I → Result I

-- An index of the table and the state that `ihs_` has for it. `blank` is what its key buffers hold
-- when they are new.
pub record Indexed (I : Type 0) : Type 0 where
  pub index : IndexMeta
  pub blank : Row
  pub ih : I

-- The file and the indexes of a table.
pub record Store (I : Type 0) : Type 0 where
  pub file : RmFile
  pub indexes : List (Indexed I)

-- The loop that collects a key from a record.
unfoldable pub key_from : ℕ → List ColMeta → Row → Row → Result Row
unfolding column write_at
key_from offset [] rec key = ok key
key_from offset (col ∷ cols) rec key = do
  bytes ← column col rec
  key' ← write_at (pos offset) bytes key
  n ← nat_of col.len
  key_from (offset + n) cols rec key'

unfoldable pub key_of : {I : Type 0} → Indexed I → Row → Result Row
unfolding key_from
key_of x rec = key_from 0 x.index.cols rec x.blank

-- The loop of `InsertExecutor::Next` over the values, on the buffer of the record.
unfoldable pub fill : List ColMeta → List Value → Row → Result Row
unfolding init_raw write_at
fill [] [] rec = ok rec
fill (col ∷ cols) (val ∷ vals) rec = do
  require (eqb_col_type col.type val.type) incompatible_type
  len ← nat_of col.len
  v ← init_raw len val
  bytes ← raw_data v.raw
  rec' ← write_at col.offset bytes rec
  fill cols vals rec'
fill _ _ rec = throws invalid_value_count

-- The loop of `DeleteExecutor::Next` over the places.
unfoldable pub delete_all : List (ℕ × ℕ) → RmFile → RmFile
unfolding delete_record
delete_all [] file = file
delete_all ((p, s) ∷ rids) file = delete_all rids (delete_record p s file)

-- The set clauses of an update, on the bytes of a record.
unfoldable pub apply_sets : TabMeta → List SetClause → Row → Result Row
unfolding find_col first write_at
apply_sets tab [] rec = ok rec
apply_sets tab (set_clause ∷ sets) rec = do
  lhs_col ← found column_not_found (find_col tab.cols set_clause.lhs.col_name)
  len ← nat_of lhs_col.len
  raw ← raw_data set_clause.rhs.raw
  bytes ← first len raw
  rec' ← write_at lhs_col.offset bytes rec
  apply_sets tab sets rec'

-- A loop over the indexes with one call on each.
unfoldable pub on_indexes :
    {I : Type 0} → (Row → I → Result I) → Row → List (Indexed I) → Result (List (Indexed I))
unfolding key_of
on_indexes call rec [] = ok []
on_indexes call rec (x ∷ xs) = do
  key ← key_of x rec
  ih ← call key x.ih
  rest ← on_indexes call rec xs
  ok (record x { ih = ih } ∷ rest)

-- The place of a record as the index has it.
abbrev pub rid_of : ℕ × ℕ → Rid
rid_of (p, s) = record { page_no = pos p; slot_no = pos s }

-- The tree of an index on one INT column, with a number of rounds for its levels.
abbrev pub IntIndex : Type 0
IntIndex = IxIndexHandle int_order (pos 0)

abbrev pub int_index : ℕ → IndexHandle IntIndex
int_index fuel = record {
  insert_entry = λ key rid ih. do
    k ← int_of_bytes key
    r ← Split.insert_entry int_order (pos 0) fuel k (rid_of rid) ih
    ok r.1;
  delete_entry = λ key ih. do
    k ← int_of_bytes key
    r ← Remove.delete_entry int_order (pos 0) fuel k ih
    ok r.1;
}

module _ {I : Type 0} (handle : IndexHandle I) where
  -- `InsertExecutor`: the constructor's test and `Next`, which gives the new place.
  unfoldable pub insert_next : Row → TabMeta → List Value → Store I → Result ((ℕ × ℕ) × Store I)
  unfolding fill insert_record on_indexes
  insert_next blank tab values store = do
    require (length values == length tab.cols) invalid_value_count
    rec ← fill tab.cols values blank
    placed ← ok (insert_record rec store.file)
    indexes ← on_indexes (λ key. handle.insert_entry key placed.0) rec store.indexes
    ok (placed.0, record { file = placed.1; indexes = indexes })

  -- The loop of `UpdateExecutor::Next` for one place.
  unfoldable pub update_at : TabMeta → List SetClause → ℕ × ℕ → Store I → Result (Store I)
  unfolding apply_sets on_indexes update_record get_record
  update_at tab sets (p, s) store = do
    rec ← apply_sets tab sets (get_record p s store.file)
    removed ← on_indexes handle.delete_entry rec store.indexes
    inserted ← on_indexes (λ key. handle.insert_entry key (p, s)) rec removed
    ok (record { file = update_record p s rec store.file; indexes = inserted })

  unfoldable pub update_next : TabMeta → List SetClause → List (ℕ × ℕ) → Store I → Result (Store I)
  unfolding update_at
  update_next tab sets [] store = ok store
  update_next tab sets (rid ∷ rids) store = do
    store' ← update_at tab sets rid store
    update_next tab sets rids store'

  -- `DeleteExecutor::Next`. The record that the keys are taken from is a new buffer, `blank`.
  unfoldable pub delete_next : Row → List (ℕ × ℕ) → Store I → Result (Store I)
  unfolding delete_all on_indexes
  delete_next blank rids store = do
    indexes ← on_indexes handle.delete_entry blank store.indexes
    ok (record { file = delete_all rids store.file; indexes = indexes })
