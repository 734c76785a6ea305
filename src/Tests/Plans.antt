-- ===== src/Tests/Plans.antt =====
-- A checked statement and a plan of src/execution on small tables.
use dbgenerality_rucbase.Base.{
  ℕ, ◌≡◌, refl, inl, Bool, true, false, List, [], ◌∷◌, ◌++◌, if◌then◌else◌, ◌==◌, length, arith,
  pos,
}
use dbgenerality_rucbase.System.Catalogue.{get_table}
use dbgenerality_rucbase.Record.Bitmap.{is_set}
use dbgenerality_rucbase.Record.File.{get_record}
use dbgenerality_rucbase.Record.Scan.Places.{places}
use dbgenerality_rucbase.Query.Result.{ok}
use dbgenerality_rucbase.Query.Cursor.{Row, Restarts}
use dbgenerality_rucbase.Query.Value.{fresh, op_eq, Condition}
use dbgenerality_rucbase.Query.Eval.{eval_conds, eval_join_conds}
use dbgenerality_rucbase.Query.SeqScan.{tuple_len, seq_scan}
use dbgenerality_rucbase.Query.SeqScan.Selected.{selected}
use dbgenerality_rucbase.Query.Join.{join, join_cols}
use dbgenerality_rucbase.Query.Join.Product.{product}
use dbgenerality_rucbase.Query.Projection.{Chosen, choose, projection}
use dbgenerality_rucbase.Query.Projection.Columns.{columns, each}
use dbgenerality_rucbase.Query.Select.{Table, scan_of, select-answer}
use dbgenerality_rucbase.Query.Analyze.{check_clause}
use dbgenerality_rucbase.Query.Analyze.Checked.{All, ColFits}
use dbgenerality_rucbase.Query.Analyze.Evaluates.{OwnLiteral, check_clause-eval_conds}
use dbgenerality_rucbase.Query.Analyze.Scans.{seq_scan-check_clause}
use dbgenerality_rucbase.System.Meta.{ColMeta, type_string}
use dbgenerality_rucbase.System.Catalogue.{DbMeta}
use dbgenerality_rucbase.Query.Result.{throws, assertion_failed}
use dbgenerality_rucbase.Query.Analyze.{check_cond, check_column, col_of}
use dbgenerality_rucbase.Query.Analyze.Early.{check_cond-assertion_failed}
use dbgenerality_rucbase.Tests.Tables.{
  no_floats, col_a, col_b, tab, db, row_1, row_2, two_rows, a_of, over_1, over_1_checked,
}

fits-tab : All (ColFits "t" 8) tab.cols
fits-tab = (
  record {
    named = refl;
    at = 0;
    width = 4;
    offset_at = refl;
    len_width = refl;
    fits = omega arith;
  },
  (
    record {
      named = refl;
      at = 4;
      width = 4;
      offset_at = refl;
      len_width = refl;
      fits = omega arith;
    },
    tt,
  ),
)

own-over_1 : All (OwnLiteral "t") (over_1 ∷ [])
own-over_1 = (record { literal = refl; four = refl; own = inl refl }, tt)

check_clause-eval_conds_example :
    (b : Bool) × (eval_conds no_floats tab.cols (over_1_checked ∷ []) row_2 ≡ ok b)
unfolding check_clause get_table
check_clause-eval_conds_example =
    check_clause-eval_conds db tab 8 refl fits-tab no_floats (over_1 ∷ []) (over_1_checked ∷ [])
      row_2 own-over_1 refl refl

seq_scan-check_clause_example :
    (rows : List Row) × (selected
        (eval_conds no_floats tab.cols (over_1_checked ∷ []))
        two_rows
        (places two_rows 1 1 0)
      ≡ ok rows)
    × Restarts (seq_scan two_rows (eval_conds no_floats tab.cols (over_1_checked ∷ [])) 3) rows
unfolding check_clause get_table places is_set get_record
seq_scan-check_clause_example =
    seq_scan-check_clause db tab 8 no_floats (over_1 ∷ []) (over_1_checked ∷ []) two_rows 3 refl
      fits-tab own-over_1 refl sizes (omega arith) (omega arith)
  where
    by_slot : (b : Bool) → length (if b then row_1 else row_2) ≡ 8
    by_slot true = refl
    by_slot false = refl

    sizes : (p s : ℕ) → length (get_record p s two_rows) ≡ 8
    sizes p s = by_slot (s == 0)

-- `select t.b from t, u where t.a > 1`
abbrev t_table : Table
t_table = record { file = two_rows; cols = tab.cols; conds = over_1_checked ∷ [] }

abbrev u_table : Table
u_table = record { file = two_rows; cols = col_a "u" ∷ col_b "u" ∷ []; conds = [] }

-- `t.a = u.a`
abbrev equal_a : Condition
equal_a = record {
  lhs_col = a_of "t";
  op = op_eq;
  is_rhs_val = false;
  rhs_col = a_of "u";
  rhs_val = fresh;
}

abbrev u_b_chosen : List Chosen
u_b_chosen = record { prev_idx = 3; col = record (col_b "u") { offset = pos 0 } } ∷ []

select-answer_example :
    Restarts
      (projection
        (join
          (scan_of no_floats t_table 9)
          (scan_of no_floats u_table 9)
          (eval_join_conds no_floats 8 (join_cols 8 t_table.cols u_table.cols) (equal_a ∷ []))
          9)
        (join_cols 8 t_table.cols u_table.cols)
        u_b_chosen
        (0 ∷ 0 ∷ 0 ∷ 0 ∷ []))
      ((9 ∷ 0 ∷ 0 ∷ 0 ∷ []) ∷ [])
unfolding tuple_len join_cols places is_set selected eval_conds product eval_join_conds choose
    columns each
select-answer_example =
    select-answer no_floats t_table u_table 8 9 (equal_a ∷ [])
      (record { tab_name = "u"; col_name = "b" } ∷ []) u_b_chosen 4 (0 ∷ 0 ∷ 0 ∷ 0 ∷ [])
      (row_2 ∷ []) (row_1 ∷ row_2 ∷ []) ((row_2 ++ row_2) ∷ []) ((9 ∷ 0 ∷ 0 ∷ 0 ∷ []) ∷ []) refl
      (omega arith) (omega arith) (omega arith) (omega arith) refl refl (λ e. absurd (cc e))
      (omega arith) refl refl refl refl

-- A table with a text of 20 bytes, and `s > 1`.
abbrev col_s : ColMeta
col_s = record {
  tab_name = "v";
  name = "s";
  type = type_string;
  len = pos 20;
  offset = pos 0;
  index = false;
}

abbrev text_db : DbMeta
text_db = record {
  name = "d";
  tabs = ("v", record { name = "v"; cols = col_s ∷ []; indexes = [] }) ∷ [];
}

abbrev s_over_1 : Condition
s_over_1 = record over_1 { lhs_col = record { tab_name = ""; col_name = "s" } }

check_cond-assertion_failed_example :
    check_cond text_db (col_s ∷ []) s_over_1 ≡ throws assertion_failed
unfolding check_column col_of
check_cond-assertion_failed_example =
    check_cond-assertion_failed text_db (col_s ∷ []) s_over_1
      (record { tab_name = "v"; col_name = "s" }) col_s 20 refl refl refl refl refl refl refl
      (λ e. absurd (omega arith))
