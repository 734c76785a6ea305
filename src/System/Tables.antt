-- ===== src/System/Tables.antt =====
-- `SmManager::create_table` of src/system/sm_manager.cpp with a null context, so that no lock is
-- asked for. A table's file is its header.
use Prim.Native.String.{String}
use dbgenerality_rucbase.Base.{
  suc, ◌+◌, ◌-◌, true, false, List, [], ◌∷◌, Option, none, some, leb, if◌then◌else◌, ℤ, pos, negsuc,
}
use dbgenerality_rucbase.Record.Layout.{RmFileHdr, create_file}
use dbgenerality_rucbase.System.Meta.{ColType, ColMeta, TabMeta}
use dbgenerality_rucbase.Query.Value.Bytes.{int_of, word_of}
use dbgenerality_rucbase.System.Catalogue.{DbMeta, is_table}

pub record ColDef : Type 0 where
  pub name : String
  pub type : ColType
  pub len : ℤ

-- The metadata in memory, the files of the tables, and what the metadata file holds.
pub record SmManager : Type 0 where
  pub db : DbMeta
  pub fhs : List (String × RmFileHdr)
  pub meta_file : DbMeta

abbrev pub plus_ℤ : ℤ → ℤ → ℤ
plus_ℤ (pos a) (pos b) = pos (a + b)
plus_ℤ (pos a) (negsuc b) = if leb (suc b) a then pos (a - suc b) else negsuc (b - a)
plus_ℤ (negsuc a) (pos b) = if leb (suc a) b then pos (b - suc a) else negsuc (a - b)
plus_ℤ (negsuc a) (negsuc b) = negsuc (suc (a + b))

-- `a + b` on `int`, which wraps around.
unfoldable pub add_int : ℤ → ℤ → ℤ
add_int a b = int_of (word_of (plus_ℤ a b))

-- The loop over the column definitions, from an offset: the columns and where they end.
unfoldable pub place_cols : String → ℤ → List ColDef → List ColMeta × ℤ
unfolding add_int
place_cols tab_name curr_offset [] = ([], curr_offset)
place_cols tab_name curr_offset (d ∷ defs) =
    let rest = place_cols tab_name (add_int curr_offset d.len) defs in
    let col : ColMeta = record {
      tab_name = tab_name;
      name = d.name;
      type = d.type;
      len = d.len;
      offset = curr_offset;
      index = false;
    } in
    (col ∷ rest.0, rest.1)

-- How `create_table` ends.
pub data Creation : Type 0 where
  created : SmManager → Creation
  table_exists invalid_record_size : Creation

-- `create_file`, which tests for a size below 1.
unfoldable pub new_file : ℤ → Option RmFileHdr
unfolding create_file
new_file (pos n) = create_file n
new_file (negsuc n) = none

abbrev pub flush_meta : SmManager → SmManager
flush_meta sm = record sm { meta_file = sm.db }

unfoldable pub create_table : String → List ColDef → SmManager → Creation
unfolding is_table place_cols new_file
create_table tab_name col_defs sm = elim (is_table sm.db tab_name) [
  | true ↦ table_exists
  | false ↦
      let placed = place_cols tab_name (pos 0) col_defs in
      let tab : TabMeta = record { name = tab_name; cols = placed.0; indexes = [] } in
      elim (new_file placed.1) [
        | none ↦ invalid_record_size
        | some hdr ↦ created (
            flush_meta (record sm {
              db = record sm.db { tabs = (tab_name, tab) ∷ sm.db.tabs };
              fhs = (tab_name, hdr) ∷ sm.fhs;
            }))
      ]
]
