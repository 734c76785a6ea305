-- ===== src/Query/Plan.antt =====
-- `pop_conds`, `push_conds` and `get_index_cols` of src/optimizer/planner.cpp on the plans of a
-- select. A pointer to a plan that is changed is the plan before and after.
pub mod Pushed
use Prim.Native.String.{String}
use text.Mathlib.Text.{◌==◌ as str_eq}
use dbgenerality_rucbase.Base.{
  ℕ, ◌+◌, Bool, true, false, ◌&&◌, ◌||◌, List, [], ◌∷◌, ◌++◌, ◌==◌, if◌then◌else◌,
}
use dbgenerality_rucbase.System.Meta.{IndexMeta}
use dbgenerality_rucbase.System.Catalogue.{is_index}
use dbgenerality_rucbase.Query.Value.{CompOp, op_eq, op_ne, op_lt, op_gt, op_le, op_ge, Condition}

-- `ScanPlan` and `JoinPlan`
pub data Plan : Type 0 where
  scan_plan : (tab_name : String) (conds : List Condition) → Plan
  join_plan : (left right : Plan) (conds : List Condition) → Plan

-- `swap_op`
abbrev pub swap_op : CompOp → CompOp
swap_op op_eq = op_eq
swap_op op_ne = op_ne
swap_op op_lt = op_gt
swap_op op_gt = op_lt
swap_op op_le = op_ge
swap_op op_ge = op_le

-- The two columns and the operator swapped.
abbrev pub swapped : Condition → Condition
swapped cond = record cond { lhs_col = cond.rhs_col; op = swap_op cond.op; rhs_col = cond.lhs_col }

-- Which side of the condition names the table of a scan.
abbrev pub side : String → Condition → ℕ
side tab_name cond =
    if str_eq tab_name cond.lhs_col.tab_name
    then 1
    else if str_eq tab_name cond.rhs_col.tab_name
    then 2
    else 0

-- What a join does with the condition after both of its inputs had it: the result of each and the
-- inputs as they are then.
unfoldable pub push_here : Condition → ℕ → ℕ → Plan → Plan → List Condition → ℕ × Plan
push_here cond left_res right_res left right conds =
    if right_res == 3
    then (3, join_plan left right conds)
    else if left_res == 0 || right_res == 0
    then (left_res + right_res, join_plan left right conds)
    else (3, join_plan left right (conds ++ (if left_res == 2 then swapped cond else cond) ∷ []))

unfoldable pub push_conds : Condition → Plan → ℕ × Plan
unfolding push_here
push_conds cond (scan_plan tab_name conds) = (side tab_name cond, scan_plan tab_name conds)
push_conds cond (join_plan left right conds) =
    let l = push_conds cond left in
    let r = push_conds cond right in
    if l.0 == 3 then (3, join_plan l.1 right conds) else push_here cond l.0 r.0 l.1 r.1 conds

-- The test of `pop_conds`, and what it takes out of a list and leaves.
abbrev pub is_solved : String → Condition → Bool
is_solved tab_name cond =
    str_eq tab_name cond.lhs_col.tab_name && cond.is_rhs_val
    || str_eq cond.lhs_col.tab_name cond.rhs_col.tab_name

unfoldable pub pop_conds : String → List Condition → List Condition × List Condition
pop_conds tab_name [] = ([], [])
pop_conds tab_name (cond ∷ conds) =
    let rest = pop_conds tab_name conds in
    if is_solved tab_name cond then (cond ∷ rest.0, rest.1) else (rest.0, cond ∷ rest.1)

-- The columns of `get_index_cols`, and its answer.
unfoldable pub point_cols : String → List Condition → List String
point_cols tab_name [] = []
point_cols tab_name (cond ∷ conds) =
    let rest = point_cols tab_name conds in
    elim cond.op [
      | op_eq ↦
          if cond.is_rhs_val && str_eq cond.lhs_col.tab_name tab_name
          then cond.lhs_col.col_name ∷ rest
          else rest
      | _ ↦ rest
    ]

unfoldable pub get_index_cols : String → List Condition → List IndexMeta → List String × Bool
unfolding point_cols is_index
get_index_cols tab_name conds indexes =
    let names = point_cols tab_name conds in (names, is_index indexes names)
