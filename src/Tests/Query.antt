-- ===== src/Tests/Query.antt =====
-- The executors of src/execution on small tables.
use dbgenerality_rucbase.Base.{
  ◌≡◌, ◌↔◌, refl, Bool, true, false, List, [], ◌∷◌, ◌++◌, some, ltb, arith, pos, negsuc,
}
use dbgenerality_rucbase.Record.Bitmap.{is_set}
use dbgenerality_rucbase.Record.Scan.{begin_scan}
use dbgenerality_rucbase.Record.Scan.Places.{places, walk, walk-begin_scan}
use dbgenerality_rucbase.Query.Result.{Result, ok, throws, assertion_failed}
use dbgenerality_rucbase.Query.Cursor.{Row, Executor, Yields, ended, gives, Restarts}
use dbgenerality_rucbase.Query.Value.{op_gt, init_raw}
use dbgenerality_rucbase.Query.Value.Bytes.{bytes_of_int, small, minus}
use dbgenerality_rucbase.Query.Eval.{get_col, eval_cond, eval_conds}
use dbgenerality_rucbase.Query.Eval.Ints.{Holds, eval_cond-Holds}
use dbgenerality_rucbase.Query.SeqScan.{seq_scan}
use dbgenerality_rucbase.Query.SeqScan.Selected.{selected, seq_scan-selected}
use dbgenerality_rucbase.Query.Join.{join}
use dbgenerality_rucbase.Query.Join.Product.{product, join-product, join-assertion_failed}
use dbgenerality_rucbase.Query.Projection.{Chosen}
use dbgenerality_rucbase.Tests.Tables.{
  no_floats, col_a, col_b, tab, row_1, row_2, two_rows, a_of, over_1_checked,
}

walk-begin_scan_example : walk 3 two_rows (begin_scan two_rows) ≡ some (places two_rows 1 1 0)
unfolding places is_set
walk-begin_scan_example = walk-begin_scan 3 two_rows (omega arith) (omega arith)

eval_cond-Holds_example :
    (r : Bool) × (eval_cond no_floats tab.cols ([] ++ (bytes_of_int (negsuc 4) ++ [])) (record {
      lhs_col = a_of "t";
      op = op_gt;
      is_rhs_val = true;
      rhs_col = a_of "";
      rhs_val = over_1_checked.rhs_val;
    })
      ≡ ok r)
    × ((r ≡ true) ↔ Holds op_gt (negsuc 4) (pos 1))
unfolding init_raw get_col
eval_cond-Holds_example =
    eval_cond-Holds no_floats tab.cols [] [] (col_a "t") (a_of "t") (a_of "") op_gt (negsuc 4)
      (pos 1) over_1_checked.rhs_val (minus (omega arith)) (small (omega arith)) refl refl refl refl

-- An executor that gives the records of a list from the start.
abbrev rows_of : List Row → Executor (List Row)
rows_of rows = record {
  begin_tuple = λ s. ok rows;
  next_tuple = λ s. elim s [ [] ↦ throws assertion_failed | r ∷ rs ↦ ok rs ];
  is_end = λ s. elim s [ [] ↦ true | r ∷ rs ↦ false ];
  fetch = λ s. elim s [ [] ↦ throws assertion_failed | r ∷ rs ↦ ok r ];
}

Yields-rows_of : (all rows : List Row) → Yields (rows_of all) rows rows
Yields-rows_of all [] = ended refl
Yields-rows_of all (r ∷ rs) = gives refl refl refl (Yields-rows_of all rs)

Restarts-rows_of : (rows : List Row) → Restarts (rows_of rows) rows
Restarts-rows_of rows s = (rows, refl, Yields-rows_of rows rows)

abbrev first_less : Row → Row → Result Bool
first_less (x ∷ xs) (y ∷ ys) = ok (ltb x y)
first_less _ _ = ok false

abbrev left_rows : List Row
left_rows = row_1 ∷ row_2 ∷ []

join-product_example :
    Restarts (join (rows_of left_rows) (rows_of left_rows) first_less 5) ((row_1 ++ row_2) ∷ [])
unfolding product
join-product_example =
    join-product (rows_of left_rows) (rows_of left_rows) first_less left_rows
      (Restarts-rows_of left_rows) (λ e. absurd (cc e)) 5 left_rows ((row_1 ++ row_2) ∷ [])
      (Restarts-rows_of left_rows) (omega arith) refl

join-assertion_failed_example :
    (join (rows_of left_rows) (rows_of []) first_less 3).begin_tuple ([], [])
    ≡ throws assertion_failed
join-assertion_failed_example =
    join-assertion_failed (rows_of left_rows) (rows_of []) first_less 3 [] left_rows [] [] refl refl
      refl refl asserts (omega arith)
  where
    asserts :
        (s : List Row)
        → (rows_of []).is_end s ≡ true
        → (rows_of []).fetch s ≡ throws assertion_failed
    asserts [] e = refl
    asserts (r ∷ rs) e = absurd (cc e)

seq_scan-selected_example :
    Restarts
      (seq_scan two_rows (eval_conds no_floats tab.cols (over_1_checked ∷ [])) 3)
      (row_2 ∷ [])
unfolding places selected eval_conds is_set
seq_scan-selected_example =
    seq_scan-selected two_rows (eval_conds no_floats tab.cols (over_1_checked ∷ [])) 3 (row_2 ∷ [])
      (omega arith) (omega arith) refl

abbrev b_chosen : List Chosen
b_chosen = record { prev_idx = 1; col = record (col_b "t") { offset = pos 0 } } ∷ []
