-- ===== src/Query/Eval.antt =====
-- The test of a record against the conditions of a statement: `get_col` of
-- src/execution/executor_abstract.h, `eval_cond` and `eval_conds` of executor_seq_scan.h and
-- executor_nestedloop_join.h, and `ix_compare` of src/index/ix_index_handle.h on one column. The
-- comparison of two floats is a parameter.
pub mod Ints
use Prim.Native.String.{String}
use text.Mathlib.Text.{◌==◌ as str_eq}
use dbgenerality_rucbase.Base.{
  ℕ, ◌+◌, ◌-◌, Bool, true, false, ◌&&◌, List, [], ◌∷◌, Option, none, some, not, if◌then◌else◌, ltb,
  ℤ, pos, negsuc, eqb_ℤ,
}
use dbgenerality_rucbase.Index.Order.{Sign, below, same, above, is_below, is_above, is_same}
use dbgenerality_rucbase.Index.Compare.{compare_int}
use dbgenerality_rucbase.System.Meta.{
  ColType, type_int, type_float, type_string, ColMeta, type_number,
}
use dbgenerality_rucbase.Query.Result.{
  Result, ok, throws, assertion_failed, column_not_found, out_of_bounds, require, ◌>>=◌, ◌>>◌,
}
use dbgenerality_rucbase.Query.Cursor.{Row}
use dbgenerality_rucbase.Query.Value.{
  TabCol, Value, CompOp, op_eq, op_ne, op_lt, op_gt, op_le, op_ge, Condition,
}
use dbgenerality_rucbase.Query.Value.Bytes.{int_of_bytes, from, first}

-- `col.tab_name == target.tab_name && col.name == target.col_name`
abbrev pub is_target : TabCol → ColMeta → Bool
is_target target col = str_eq col.tab_name target.tab_name && str_eq col.name target.col_name

unfoldable pub get_col : List ColMeta → TabCol → Result ColMeta
get_col [] target = throws column_not_found
get_col (col ∷ cols) target = if is_target target col then ok col else get_col cols target

-- `memcmp` on two buffers of one length.
unfoldable pub memcmp : Row → Row → Sign
memcmp (x ∷ xs) (y ∷ ys) = if ltb x y then below else if ltb y x then above else memcmp xs ys
memcmp _ _ = same

abbrev pub nat_of : ℤ → Result ℕ
nat_of (pos n) = ok n
nat_of (negsuc n) = throws out_of_bounds

-- `float` values are compared by `float_sign`, on four bytes each.
unfoldable pub ix_compare : (Row → Row → Sign) → Row → Row → ColType → ℤ → Result Sign
unfolding int_of_bytes first memcmp compare_int
ix_compare float_sign a b type_int col_len = do
  ia ← int_of_bytes a
  ib ← int_of_bytes b
  ok (compare_int ia ib)
ix_compare float_sign a b type_float col_len = do
  fa ← first 4 a
  fb ← first 4 b
  ok (float_sign fa fb)
ix_compare float_sign a b type_string col_len = do
  n ← nat_of col_len
  sa ← first n a
  sb ← first n b
  ok (memcmp sa sb)

-- The tests of `cmp` against 0.
abbrev pub test_op : CompOp → Sign → Bool
test_op op_eq cmp = is_same cmp
test_op op_ne cmp = not (is_same cmp)
test_op op_lt cmp = is_below cmp
test_op op_gt cmp = is_above cmp
test_op op_le cmp = not (is_above cmp)
test_op op_ge cmp = not (is_below cmp)

abbrev pub eqb_col_type : ColType → ColType → Bool
eqb_col_type a b = eqb_ℤ (type_number a) (type_number b)

-- `raw->data`, of which a null pointer has none.
abbrev pub raw_data : Option Row → Result Row
raw_data none = throws out_of_bounds
raw_data (some bytes) = ok bytes

-- The type and the bytes on the right of a condition, for a record in which the columns on the
-- right stand.
unfoldable pub rhs_of : List ColMeta → Condition → (ColMeta → Result Row) → Result (ColType × Row)
unfolding get_col
rhs_of rec_cols cond place = elim cond.is_rhs_val [
  | true ↦ do bytes ← raw_data cond.rhs_val.raw; ok (cond.rhs_val.type, bytes)
  | false ↦ do
    rhs_col ← get_col rec_cols cond.rhs_col
    bytes ← place rhs_col
    ok (rhs_col.type, bytes)
]

-- `eval_cond`, up to where the two columns stand.
unfoldable pub eval_at :
    (Row → Row → Sign)
    → List ColMeta
    → Condition
    → (ColMeta → Result Row)
    → (ColMeta → Result Row)
    → Result Bool
unfolding get_col rhs_of ix_compare
eval_at float_sign rec_cols cond lhs_place rhs_place = do
  lhs_col ← get_col rec_cols cond.lhs_col
  lhs ← lhs_place lhs_col
  rhs ← rhs_of rec_cols cond rhs_place
  require (eqb_col_type rhs.0 lhs_col.type) assertion_failed
  cmp ← ix_compare float_sign lhs rhs.1 rhs.0 lhs_col.len
  ok (test_op cond.op cmp)

-- `std::all_of`, which stops at the first test that fails.
unfoldable pub all_of : {A : Type 0} → (A → Result Bool) → List A → Result Bool
all_of test [] = ok true
all_of test (c ∷ cs) = do holds ← test c; elim holds [ true ↦ all_of test cs | false ↦ ok false ]

-- In a scan both columns stand in the one record.
unfoldable pub eval_cond : (Row → Row → Sign) → List ColMeta → Row → Condition → Result Bool
unfolding eval_at from
eval_cond float_sign rec_cols rec cond =
    eval_at float_sign rec_cols cond (λ c. from c.offset rec) (λ c. from c.offset rec)

unfoldable pub eval_conds : (Row → Row → Sign) → List ColMeta → List Condition → Row → Result Bool
unfolding all_of eval_cond
eval_conds float_sign rec_cols conds rec = all_of (eval_cond float_sign rec_cols rec) conds

-- `a - b`
abbrev pub minus_len : ℤ → ℕ → ℤ
minus_len (pos a) b = if ltb a b then negsuc (b - a - 1) else pos (a - b)
minus_len (negsuc a) b = negsuc (a + b)

-- In a join the column on the left stands in the left record, the one on the right in the right
-- record, whose columns start after the `left_len` bytes of the left one.
unfoldable pub eval_join_cond :
    (Row → Row → Sign) → ℕ → List ColMeta → Row → Row → Condition → Result Bool
unfolding eval_at from
eval_join_cond float_sign left_len rec_cols lrec rrec cond =
    eval_at float_sign rec_cols cond (λ c. from c.offset lrec)
      (λ c. from (minus_len c.offset left_len) rrec)

unfoldable pub eval_join_conds :
    (Row → Row → Sign) → ℕ → List ColMeta → List Condition → Row → Row → Result Bool
unfolding all_of eval_join_cond
eval_join_conds float_sign left_len rec_cols conds lrec rrec =
    all_of (eval_join_cond float_sign left_len rec_cols lrec rrec) conds
