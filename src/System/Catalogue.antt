-- ===== src/System/Catalogue.antt =====
-- The lookups of `TabMeta` and `DbMeta` in src/system/sm_meta.h.
use Prim.Native.String.{String}
use text.Mathlib.Text.{◌==◌ as str_eq}
use dbgenerality_rucbase.Base.{
  Bool, true, false, ◌&&◌, ◌||◌, List, [], ◌∷◌, Option, none, some, length, ◌==◌, if◌then◌else◌,
}
use dbgenerality_rucbase.System.Meta.{ColMeta, IndexMeta, TabMeta}

-- `is_col`
unfoldable pub is_col : List ColMeta → String → Bool
is_col [] col_name = false
is_col (col ∷ cols) col_name = str_eq col.name col_name || is_col cols col_name

-- `TabMeta::get_col`, of which `none` is `ColumnNotFoundError`.
unfoldable pub find_col : List ColMeta → String → Option ColMeta
find_col [] col_name = none
find_col (col ∷ cols) col_name =
    if str_eq col.name col_name then some col else find_col cols col_name

-- The loop over the columns of an index and over as many names.
unfoldable pub same_names : List ColMeta → List String → Bool
same_names (col ∷ cols) (name ∷ names) = str_eq col.name name && same_names cols names
same_names [] [] = true
same_names _ _ = false

abbrev pub is_index_on : List String → IndexMeta → Bool
is_index_on col_names index = (index.col_num == length col_names) && same_names index.cols col_names

-- `is_index`
unfoldable pub is_index : List IndexMeta → List String → Bool
unfolding same_names
is_index [] col_names = false
is_index (index ∷ indexes) col_names = is_index_on col_names index || is_index indexes col_names

-- `get_index_meta`, of which `none` is `IndexNotFoundError`.
unfoldable pub get_index_meta : List IndexMeta → List String → Option IndexMeta
unfolding same_names
get_index_meta [] col_names = none
get_index_meta (index ∷ indexes) col_names =
    if is_index_on col_names index then some index else get_index_meta indexes col_names

-- The tables of a database under their names.
pub record DbMeta : Type 0 where
  pub name : String
  pub tabs : List (String × TabMeta)

unfoldable pub find_tab : List (String × TabMeta) → String → Option TabMeta
find_tab [] tab_name = none
find_tab ((name, tab) ∷ tabs) tab_name =
    if str_eq name tab_name then some tab else find_tab tabs tab_name

abbrev pub is_some : {A : Type 0} → Option A → Bool
is_some none = false
is_some (some a) = true

unfoldable pub is_table : DbMeta → String → Bool
unfolding find_tab
is_table db tab_name = is_some (find_tab db.tabs tab_name)

-- `get_table`, of which `none` is `TableNotFoundError`.
unfoldable pub get_table : DbMeta → String → Option TabMeta
unfolding find_tab
get_table db tab_name = find_tab db.tabs tab_name
