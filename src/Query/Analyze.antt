-- ===== src/Query/Analyze.antt =====
-- `Analyze` of src/analyze/analyze.cpp over the catalogue.
pub mod Checked
pub mod Columns
pub mod Evaluates
pub mod Scans
pub mod Early
use Prim.Native.String.{String}
use text.Mathlib.Text.{◌==◌ as str_eq}
use dbgenerality_rucbase.Base.{
  ℕ, Bool, true, false, ◌&&◌, List, [], ◌∷◌, ◌++◌, map, Option, none, some, not, if◌then◌else◌,
}
use dbgenerality_rucbase.System.Meta.{ColType, ColMeta, TabMeta}
use dbgenerality_rucbase.System.Catalogue.{DbMeta, is_col, find_col, is_some, is_table, get_table}
use dbgenerality_rucbase.Query.Result.{
  Error, Result, ok, throws, table_not_found, column_not_found, ambiguous_column, incompatible_type,
  require, ◌>>=◌, ◌>>◌,
}
use dbgenerality_rucbase.Query.Value.{
  TabCol, Value, fresh, set_int, set_float, set_str, init_raw, CompOp, op_eq, op_ne, op_lt, op_gt,
  op_le, op_ge, Condition, SetClause,
}
use dbgenerality_rucbase.Query.Eval.{nat_of, eqb_col_type}
use dbgenerality_rucbase.Query.Ast.{
  Literal, int_lit, float_lit, string_lit, Expr, value, col, SvCompOp, sv_op_eq, sv_op_ne, sv_op_lt,
  sv_op_gt, sv_op_le, sv_op_ge, BinaryExpr, Statement, select_stmt, update_stmt, delete_stmt,
  insert_stmt, other_stmt,
}

pub record Query : Type 0 where
  pub conds : List Condition
  pub cols : List TabCol
  pub tables : List String
  pub set_clauses : List SetClause
  pub values : List Value

abbrev pub empty_query : Query
empty_query = record { conds = []; cols = []; tables = []; set_clauses = []; values = [] }

abbrev pub found : {A : Type 0} → Error → Option A → Result A
found e none = throws e
found e (some a) = ok a

abbrev pub is_empty : String → Bool
is_empty s = str_eq s ""

-- Each element is replaced, or the first failure fails the whole.
unfoldable pub for_each {ℓ κ} :
    {A : Type ℓ} {B : Type κ} → (A → Result B) → List A → Result (List B)
for_each f [] = ok []
for_each f (x ∷ xs) = do y ← f x; ys ← for_each f xs; ok (y ∷ ys)

-- The loop of `check_column` that infers a table's name, from the name found so far.
unfoldable pub infer_table : List ColMeta → String → String → Result String
infer_table [] col_name tab_name = ok tab_name
infer_table (c ∷ cols) col_name tab_name = elim (str_eq c.name col_name) [
  | true ↦ do require (is_empty tab_name) ambiguous_column; infer_table cols col_name c.tab_name
  | false ↦ infer_table cols col_name tab_name
]

-- `is_table(tab_name) && get_table(tab_name).is_col(col_name)`
unfoldable pub exists_col : DbMeta → TabCol → Bool
unfolding get_table is_col
exists_col db target = elim (get_table db target.tab_name) [
  | none ↦ false
  | some tab ↦ is_col tab.cols target.col_name
]

unfoldable pub check_column : DbMeta → List ColMeta → TabCol → Result TabCol
unfolding infer_table exists_col
check_column db all_cols target = elim (is_empty target.tab_name) [
  | true ↦ do
    tab_name ← infer_table all_cols target.col_name ""
    require (not (is_empty tab_name)) column_not_found
    ok (record target { tab_name = tab_name })
  | false ↦ do require (exists_col db target) column_not_found; ok target
]

unfoldable pub get_all_cols : DbMeta → List String → Result (List ColMeta)
unfolding get_table
get_all_cols db [] = ok []
get_all_cols db (name ∷ names) = do
  tab ← found table_not_found (get_table db name)
  rest ← get_all_cols db names
  ok (tab.cols ++ rest)

-- `convert_sv_value`
abbrev pub convert_value : Literal → Value
convert_value (int_lit i) = set_int i fresh
convert_value (float_lit f) = set_float f fresh
convert_value (string_lit s) = set_str s fresh

-- `convert_sv_comp_op`
abbrev pub convert_op : SvCompOp → CompOp
convert_op sv_op_eq = op_eq
convert_op sv_op_ne = op_ne
convert_op sv_op_lt = op_lt
convert_op sv_op_gt = op_gt
convert_op sv_op_le = op_le
convert_op sv_op_ge = op_ge

abbrev pub no_col : TabCol
no_col = record { tab_name = ""; col_name = "" }

-- One round of `get_clause`.
unfoldable pub clause_of : BinaryExpr → Condition
clause_of e = elim e.rhs [
  | value v ↦ record {
    lhs_col = e.lhs;
    op = convert_op e.op;
    is_rhs_val = true;
    rhs_col = no_col;
    rhs_val = convert_value v;
  }
  | col c ↦ record {
    lhs_col = e.lhs;
    op = convert_op e.op;
    is_rhs_val = false;
    rhs_col = c;
    rhs_val = fresh;
  }
]

abbrev pub get_clause : List BinaryExpr → List Condition
get_clause exprs = map clause_of exprs

-- `get_table(col.tab_name).get_col(col.col_name)`
unfoldable pub col_of : DbMeta → TabCol → Result ColMeta
unfolding get_table find_col
col_of db c = do
  tab ← found table_not_found (get_table db c.tab_name)
  found column_not_found (find_col tab.cols c.col_name)

-- The right-hand side of a condition on a column: the condition and the type.
unfoldable pub check_rhs : DbMeta → ColMeta → Condition → Result (Condition × ColType)
unfolding init_raw col_of
check_rhs db lhs_col cond = elim cond.is_rhs_val [
  | true ↦ do
    len ← nat_of lhs_col.len
    rhs_val ← init_raw len cond.rhs_val
    ok (record cond { rhs_val = rhs_val }, rhs_val.type)
  | false ↦ do rhs_col ← col_of db cond.rhs_col; ok (cond, rhs_col.type)
]

-- The two calls of `check_column` for a condition.
unfoldable pub resolve : DbMeta → List ColMeta → Condition → Result Condition
unfolding check_column
resolve db all_cols cond = do
  lhs ← check_column db all_cols cond.lhs_col
  elim cond.is_rhs_val [
    | true ↦ ok (record cond { lhs_col = lhs })
    | false ↦ do
      rhs ← check_column db all_cols cond.rhs_col
      ok (record cond { lhs_col = lhs; rhs_col = rhs })
  ]

-- One round of `check_clause`.
unfoldable pub check_cond : DbMeta → List ColMeta → Condition → Result Condition
unfolding resolve check_rhs col_of
check_cond db all_cols cond = do
  resolved ← resolve db all_cols cond
  lhs_col ← col_of db resolved.lhs_col
  rhs ← check_rhs db lhs_col resolved
  require (eqb_col_type lhs_col.type rhs.1) incompatible_type
  ok rhs.0

unfoldable pub check_clause : DbMeta → List String → List Condition → Result (List Condition)
unfolding get_all_cols check_cond for_each
check_clause db tab_names conds = do
  all_cols ← get_all_cols db tab_names
  for_each (check_cond db all_cols) conds

-- The columns of a `select`: all, or those that are named.
unfoldable pub select_cols : DbMeta → List ColMeta → List TabCol → Result (List TabCol)
unfolding check_column for_each
select_cols db all_cols [] =
    ok (map (λ c. record { tab_name = c.tab_name; col_name = c.name }) all_cols)
select_cols db all_cols (c ∷ cs) = for_each (check_column db all_cols) (c ∷ cs)

-- One assignment of an `update`.
unfoldable pub check_set : TabMeta → String × Literal → Result SetClause
unfolding find_col init_raw
check_set tab (col_name, lit) = do
  lhs_col ← found column_not_found (find_col tab.cols col_name)
  require (eqb_col_type lhs_col.type (convert_value lit).type) incompatible_type
  len ← nat_of lhs_col.len
  rhs ← init_raw len (convert_value lit)
  ok (record { lhs = record { tab_name = ""; col_name = col_name }; rhs = rhs })

abbrev pub check_tables : DbMeta → List String → Result (Unit {0})
check_tables db [] = ok tt
check_tables db (name ∷ names) = require (is_table db name) table_not_found >> check_tables db names

unfoldable pub do_analyze : DbMeta → Statement → Result Query
unfolding select_cols get_all_cols check_clause check_set for_each is_table get_table clause_of
do_analyze db (select_stmt cols tabs conds) = do
  check_tables db tabs
  all_cols ← get_all_cols db tabs
  cols' ← select_cols db all_cols cols
  conds' ← check_clause db tabs (get_clause conds)
  ok (record empty_query { conds = conds'; cols = cols'; tables = tabs })
do_analyze db (update_stmt tab_name set_clauses conds) = do
  tab ← found table_not_found (get_table db tab_name)
  sets ← for_each (check_set tab) set_clauses
  conds' ← check_clause db (tab_name ∷ []) (get_clause conds)
  ok (record empty_query { conds = conds'; set_clauses = sets })
do_analyze db (delete_stmt tab_name conds) = do
  conds' ← check_clause db (tab_name ∷ []) (get_clause conds)
  ok (record empty_query { conds = conds' })
do_analyze db (insert_stmt tab_name vals) =
    ok (record empty_query { values = map convert_value vals })
do_analyze db other_stmt = ok empty_query
