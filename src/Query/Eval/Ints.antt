-- ===== src/Query/Eval/Ints.antt =====
-- `eval_cond` of src/execution/executor_seq_scan.h on an INT column.
use dbgenerality_rucbase.Base.{
  ◌<◌, ◌≡◌, refl, sym, ap, ◌≢◌, ◌↔◌, Bool, true, List, ◌++◌, some, length, ℤ, pos, negsuc, arith,
}
use dbgenerality_rucbase.Index.Order.{Sign}
use dbgenerality_rucbase.Index.Compare.{compare_int, ltb_ℤ}
use dbgenerality_rucbase.System.Meta.{type_int, ColMeta}
use dbgenerality_rucbase.Query.Result.{Result, ok, throws}
use dbgenerality_rucbase.Query.Cursor.{Row}
use dbgenerality_rucbase.Query.Value.{
  TabCol, Value, fresh, set_int, init_raw, raw_bytes, CompOp, op_eq, op_ne, op_lt, op_gt, op_le,
  op_ge,
}
use dbgenerality_rucbase.Query.Value.Bytes.{
  bytes_of_int, IsInt, int_of_bytes-bytes_of_int, int_of_bytes-alone, from-append,
}
use dbgenerality_rucbase.Query.Eval.{get_col, ix_compare, test_op, rhs_of, eval_at, eval_cond}

-- The order of the integers.
abbrev pub Less : ℤ → ℤ → Type 0
Less (pos a) (pos b) = a < b
Less (pos a) (negsuc b) = ⊥
Less (negsuc a) (pos b) = Unit {0}
Less (negsuc a) (negsuc b) = b < a

-- What each comparison operator means.
abbrev pub Holds : CompOp → ℤ → ℤ → Type 0
Holds op_eq a b = a ≡ b
Holds op_ne a b = a ≢ b
Holds op_lt a b = Less a b
Holds op_gt a b = Less b a
Holds op_le a b = ¬ Less b a
Holds op_ge a b = ¬ Less a b

test_op-Holds : (op : CompOp) (a b : ℤ) → (test_op op (compare_int a b) ≡ true) ↔ Holds op a b
unfolding compare_int ltb_ℤ
test_op-Holds op (pos a) (pos b) = elim op [
  | op_eq ↦ ground arith
  | op_ne ↦ ground arith
  | op_lt ↦ ground arith
  | op_gt ↦ ground arith
  | op_le ↦ ground arith
  | op_ge ↦ ground arith
]
test_op-Holds op (pos a) (negsuc b) = elim op [
  | op_eq ↦ ground arith
  | op_ne ↦ ground arith
  | op_lt ↦ ground arith
  | op_gt ↦ ground arith
  | op_le ↦ ground arith
  | op_ge ↦ ground arith
]
test_op-Holds op (negsuc a) (pos b) = elim op [
  | op_eq ↦ ground arith
  | op_ne ↦ ground arith
  | op_lt ↦ ground arith
  | op_gt ↦ ground arith
  | op_le ↦ ground arith
  | op_ge ↦ ground arith
]
test_op-Holds op (negsuc a) (negsuc b) = elim op [
  | op_eq ↦ ground arith
  | op_ne ↦ ground arith
  | op_lt ↦ ground arith
  | op_gt ↦ ground arith
  | op_le ↦ ground arith
  | op_ge ↦ ground arith
]

value : Result Value → Value
value (ok v) = v
value (throws e) = fresh

init_raw_int :
    (b : ℤ) (v : Value)
    → init_raw 4 (set_int b fresh) ≡ ok v
    → record (set_int b fresh) { raw = some (bytes_of_int b) } ≡ v
unfolding init_raw raw_bytes value
init_raw_int b v i = ap value i

ix_compare_ints :
    (float_sign : Row → Row → Sign) (a b : ℤ) (after : Row) (len : ℤ)
    → IsInt a
    → IsInt b
    → ix_compare float_sign (bytes_of_int a ++ after) (bytes_of_int b) type_int len
      ≡ ok (compare_int a b)
unfolding ix_compare
ix_compare_ints float_sign a b after len ha hb =
    rw (int_of_bytes-bytes_of_int a after ha, int_of_bytes-alone b hb)

-- A scan that tests an INT column of a record against an INT literal finds out whether the column's
-- number and the literal's stand in the relation that the operator names: where the record holds
-- the bytes of `a` at the column's offset, the condition's value is the literal `b` after
-- `init_raw`, and both are numbers of 32 bits, the test ends and is true just if the relation holds.
pub eval_cond-Holds :
    (float_sign : Row → Row → Sign) (cols : List ColMeta) (before after : Row) (col : ColMeta)
    (lhs rhs : TabCol) (op : CompOp) (a b : ℤ) (v : Value)
    → IsInt a
    → IsInt b
    → get_col cols lhs ≡ ok col
    → col.type ≡ type_int
    → col.offset ≡ pos (length before)
    → init_raw 4 (set_int b fresh) ≡ ok v
    → (r : Bool) × (eval_cond float_sign cols
          (before ++ (bytes_of_int a ++ after))
          (record { lhs_col = lhs; op = op; is_rhs_val = true; rhs_col = rhs; rhs_val = v })
        ≡ ok r)
      × ((r ≡ true) ↔ Holds op a b)
unfolding eval_cond eval_at rhs_of
eval_cond-Holds float_sign cols before after col lhs rhs op a b v ha hb found ty off i =
    let there = from-append before (bytes_of_int a ++ after) in
    let cmp = ix_compare_ints float_sign a b after col.len ha hb in
    (
      test_op op (compare_int a b),
      rw (sym (init_raw_int b v i), eval_at, found, off, there, rhs_of, ty, cmp) refl,
      test_op-Holds op a b,
    )
