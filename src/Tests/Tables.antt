-- ===== src/Tests/Tables.antt =====
-- A small table with two columns of numbers, its file, and a condition on it.
use Prim.Native.String.{String}
use dbgenerality_rucbase.Base.{
  true, false, [], ◌∷◌, none, some, if◌then◌else◌, ◌==◌, ◌&&◌, ltb, pos,
}
use dbgenerality_rucbase.Index.Order.{Sign, same}
use dbgenerality_rucbase.System.Meta.{ColMeta, TabMeta, type_int}
use dbgenerality_rucbase.System.Catalogue.{DbMeta}
use dbgenerality_rucbase.Record.File.{RmFile}
use dbgenerality_rucbase.Query.Cursor.{Row}
use dbgenerality_rucbase.Query.Value.{TabCol, fresh, set_int, op_gt, Condition}

-- Floats do not occur.
abbrev pub no_floats : Row → Row → Sign
no_floats a b = same

abbrev pub col_a : String → ColMeta
col_a t = record {
  tab_name = t;
  name = "a";
  type = type_int;
  len = pos 4;
  offset = pos 0;
  index = false;
}

abbrev pub col_b : String → ColMeta
col_b t = record {
  tab_name = t;
  name = "b";
  type = type_int;
  len = pos 4;
  offset = pos 4;
  index = false;
}

abbrev pub tab : TabMeta
tab = record { name = "t"; cols = col_a "t" ∷ col_b "t" ∷ []; indexes = [] }

abbrev pub db : DbMeta
db = record { name = "d"; tabs = ("t", tab) ∷ [] }

abbrev pub row_1 : Row
row_1 = 1 ∷ 0 ∷ 0 ∷ 0 ∷ 7 ∷ 0 ∷ 0 ∷ 0 ∷ []

abbrev pub row_2 : Row
row_2 = 2 ∷ 0 ∷ 0 ∷ 0 ∷ 9 ∷ 0 ∷ 0 ∷ 0 ∷ []

-- Two records on the one record page.
abbrev pub two_rows : RmFile
two_rows = record {
  file_hdr = record {
    record_size = 8;
    num_pages = 2;
    num_records_per_page = 3;
    first_free_page_no = some 1;
    bitmap_size = 1;
  };
  pages = λ q. record {
    next_free_page_no = none;
    num_records = pos 2;
    bitmap = λ i k. i == 0 && ltb k 2;
    slots = λ s. if s == 0 then row_1 else row_2;
  };
  new_page_no = 2;
}

abbrev pub a_of : String → TabCol
a_of t = record { tab_name = t; col_name = "a" }

-- `a > 1`, before and after the analysis.
abbrev pub over_1 : Condition
over_1 = record {
  lhs_col = a_of "";
  op = op_gt;
  is_rhs_val = true;
  rhs_col = a_of "";
  rhs_val = set_int (pos 1) fresh;
}

abbrev pub over_1_checked : Condition
over_1_checked = record {
  lhs_col = a_of "t";
  op = op_gt;
  is_rhs_val = true;
  rhs_col = a_of "";
  rhs_val = record (set_int (pos 1) fresh) { raw = some (1 ∷ 0 ∷ 0 ∷ 0 ∷ []) };
}
