-- ===== src/Tests/Planner.antt =====
-- A condition and a plan of src/optimizer/planner.cpp.
use Prim.Native.String.{String}
use text.Mathlib.Text.{◌==◌ as str_eq}
use text.Mathlib.TextEquality.{eq_iff}
use dbgenerality_rucbase.Base.{sym, ◌∙◌, inl, inr, ◌≡◌, refl, false, [], ◌∷◌}
use dbgenerality_rucbase.Query.Value.{fresh, op_lt, op_gt, Condition}
use dbgenerality_rucbase.Query.Plan.{Plan, scan_plan, join_plan, push_conds}
use dbgenerality_rucbase.Query.Plan.Pushed.{Distinct, Pushed, push_conds-Pushed}

-- The condition `u.b > t.a` in the join of t and u.
abbrev b_over_a : Condition
b_over_a = record {
  lhs_col = record { tab_name = "u"; col_name = "b" };
  op = op_gt;
  is_rhs_val = false;
  rhs_col = record { tab_name = "t"; col_name = "a" };
  rhs_val = fresh;
}

abbrev a_under_b : Condition
a_under_b = record {
  lhs_col = record { tab_name = "t"; col_name = "a" };
  op = op_lt;
  is_rhs_val = false;
  rhs_col = record { tab_name = "u"; col_name = "b" };
  rhs_val = fresh;
}

abbrev three_tables : Plan
three_tables = join_plan (scan_plan "s" []) (join_plan (scan_plan "t" []) (scan_plan "u" []) []) []

-- The condition goes to the inner join, with its sides swapped.
push_conds_run : push_conds b_over_a three_tables ≡ (
  3,
  join_plan
      (scan_plan "s" [])
      (join_plan (scan_plan "t" []) (scan_plan "u" []) (a_under_b ∷ []))
      [],
)
unfolding push_conds
push_conds_run = refl

ne_names : (a b : String) {name : String} → str_eq a b ≡ false → a ≡ name → b ≡ name → ⊥
ne_names a b e x y = let one = (eq_iff a b).1 (x ∙ sym y) in absurd (cc (e, one))

three_tables-Distinct : Distinct three_tables
three_tables-Distinct = (
  tt,
  (tt, tt, λ name x y. ne_names "t" "u" refl x y),
  λ name x y. elim y [ inl z ↦ ne_names "s" "t" refl x z | inr z ↦ ne_names "s" "u" refl x z ],
)

push_conds-Pushed_example :
    Pushed b_over_a three_tables
      (push_conds b_over_a three_tables).0
      (push_conds b_over_a three_tables).1
push_conds-Pushed_example = push_conds-Pushed b_over_a three_tables three_tables-Distinct
