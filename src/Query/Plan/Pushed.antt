-- ===== src/Query/Plan/Pushed.antt =====
-- The conditions of a plan before and after `push_conds` of src/optimizer/planner.cpp.
use Prim.Native.String.{String}
use text.Mathlib.Text.{◌==◌ as str_eq}
use text.Mathlib.TextEquality.{eq_iff}
use dbgenerality_rucbase.Base.{
  ℕ, ◌≡◌, ◌≢◌, ◌↔◌, refl, sym, ◌∙◌, ◌⊎◌, inl, inr, List, [], ◌∷◌, ◌++◌, ◌==◌, if◌then◌else◌, arith,
  Bool-cases, ℤ,
}
use dbgenerality_rucbase.Query.Value.{
  TabCol, Condition, CompOp, op_eq, op_ne, op_lt, op_gt, op_le, op_ge,
}
use dbgenerality_rucbase.Query.Eval.Ints.{Holds}
use dbgenerality_rucbase.Query.Plan.{
  Plan, scan_plan, join_plan, swap_op, swapped, side, push_here, push_conds,
}

-- A table is scanned in a plan, and no table is scanned in both inputs of a join.
abbrev pub Scans : String → Plan → Type 0
Scans name (scan_plan tab_name conds) = tab_name ≡ name
Scans name (join_plan left right conds) = Scans name left ⊎ Scans name right

abbrev pub Distinct : Plan → Type 0
Distinct (scan_plan tab_name conds) = Unit
Distinct (join_plan left right conds) =
    Distinct left × Distinct right × ((name : String) → Scans name left → ¬ Scans name right)

-- What a condition on two columns says of the numbers in them.
abbrev pub Says : Condition → (TabCol → ℤ) → Type 0
Says cond values = Holds cond.op (values cond.lhs_col) (values cond.rhs_col)

-- A condition that says the same, with a left column of the one plan and a right column of the other,
-- and has the value of the first.
pub record Joins (cond c : Condition) (left right : Plan) : Type 0 where
  pub says : (values : TabCol → ℤ) → Says c values ↔ Says cond values
  pub from_left : Scans c.lhs_col.tab_name left
  pub from_right : Scans c.rhs_col.tab_name right
  pub is_rhs_val : c.is_rhs_val ≡ cond.is_rhs_val
  pub rhs_val : c.rhs_val ≡ cond.rhs_val

-- One join of a plan has the condition more, as the last one.
pub data Placed (cond : Condition) : Plan → Plan → Type 0 where
  at_join :
      {left right : Plan} {conds : List Condition} (c : Condition)
      → Joins cond c left right
      → Placed cond (join_plan left right conds) (join_plan left right (conds ++ c ∷ []))
  in_left :
      {left left' right : Plan} {conds : List Condition}
      → Placed cond left left'
      → Placed cond (join_plan left right conds) (join_plan left' right conds)
  in_right :
      {left right right' : Plan} {conds : List Condition}
      → Placed cond right right'
      → Placed cond (join_plan left right conds) (join_plan left right' conds)

-- What an answer says: 3, that the condition has its place, and 0, 1 and 2, that the plan is as it
-- was and scans none of the two tables, only the one on the left (or both are one), or only the one on
-- the right.
pub data Pushed (cond : Condition) (plan : Plan) : ℕ → Plan → Type 0 where
  solved : {plan' : Plan} → Placed cond plan plan' → Pushed cond plan 3 plan'
  neither :
      ¬ Scans cond.lhs_col.tab_name plan
      → ¬ Scans cond.rhs_col.tab_name plan
      → Pushed cond plan 0 plan
  only_left :
      Scans cond.lhs_col.tab_name plan
      → (Scans cond.rhs_col.tab_name plan → cond.lhs_col.tab_name ≡ cond.rhs_col.tab_name)
      → Pushed cond plan 1 plan
  only_right :
      Scans cond.rhs_col.tab_name plan
      → ¬ Scans cond.lhs_col.tab_name plan
      → Pushed cond plan 2 plan

swap_op-Holds : (op : CompOp) (a b : ℤ) → Holds (swap_op op) b a ↔ Holds op a b
swap_op-Holds op_eq a b = (sym, sym)
swap_op-Holds op_ne a b = ((λ h e. h (sym e)), λ h e. h (sym e))
swap_op-Holds op_lt a b = ((λ h. h), λ h. h)
swap_op-Holds op_gt a b = ((λ h. h), λ h. h)
swap_op-Holds op_le a b = ((λ h. h), λ h. h)
swap_op-Holds op_ge a b = ((λ h. h), λ h. h)

module _ (cond : Condition) where
  l_name : String
  l_name = cond.lhs_col.tab_name

  r_name : String
  r_name = cond.rhs_col.tab_name

  scan-Pushed :
      (tab_name : String) (conds : List Condition)
      → Pushed cond (scan_plan tab_name conds) (side tab_name cond) (scan_plan tab_name conds)
  scan-Pushed tab_name conds =
      let l = eq_iff tab_name cond.lhs_col.tab_name in
      let r = eq_iff tab_name cond.rhs_col.tab_name in
      elim (Bool-cases (str_eq tab_name cond.lhs_col.tab_name)) [
        | inl a ↦ rw (a) (only_left (l.0 a) (λ e. sym (l.0 a) ∙ e))
        | inr a ↦ elim (Bool-cases (str_eq tab_name cond.rhs_col.tab_name)) [
          | inl b ↦ rw (a, b) (only_right (r.0 b) (λ e. absurd (cc (a, l.1 e))))
          | inr b ↦ rw (a, b) (neither (λ e. absurd (cc (a, l.1 e))) (λ e. absurd (cc (b, r.1 e))))
        ]
      ]

  module _ (left right : Plan) (conds : List Condition)
      (apart : (name : String) → Scans name left → ¬ Scans name right) where
    abbrev whole : Plan
    whole = join_plan left right conds

    here-Pushed :
        (l r : ℕ) (left' right' : Plan)
        → Pushed cond left l left'
        → Pushed cond right r right'
        → l ≢ 3
        → (let res = push_here cond l r left' right' conds in Pushed cond whole res.0 res.1)
    unfolding push_here
    here-Pushed l r left' right' (solved p) q ne = absurd (ne refl)
    here-Pushed l r left' right' (neither a b) (solved q) ne = solved (in_right q)
    here-Pushed l r left' right' (neither a b) (neither c d) ne =
        neither (λ x. elim x [ inl y ↦ a y | inr y ↦ c y ])
          (λ x. elim x [ inl y ↦ b y | inr y ↦ d y ])
    here-Pushed l r left' right' (neither a b) (only_left c d) ne =
        only_left (inr c) (λ x. elim x [ inl y ↦ absurd (b y) | inr y ↦ d y ])
    here-Pushed l r left' right' (neither a b) (only_right c d) ne =
        only_right (inr c) (λ x. elim x [ inl y ↦ a y | inr y ↦ d y ])
    here-Pushed l r left' right' (only_left a b) (solved q) ne = solved (in_right q)
    here-Pushed l r left' right' (only_left a b) (neither c d) ne =
        only_left (inl a) (λ x. elim x [ inl y ↦ b y | inr y ↦ absurd (d y) ])
    here-Pushed l r left' right' (only_left a b) (only_left c d) ne = absurd (apart _ a c)
    here-Pushed l r left' right' (only_left a b) (only_right c d) ne = solved (
        at_join cond (record {
          says = λ values. ((λ h. h), λ h. h);
          from_left = a;
          from_right = c;
          is_rhs_val = refl;
          rhs_val = refl;
        }))
    here-Pushed l r left' right' (only_right a b) (solved q) ne = solved (in_right q)
    here-Pushed l r left' right' (only_right a b) (neither c d) ne =
        only_right (inl a) (λ x. elim x [ inl y ↦ b y | inr y ↦ c y ])
    here-Pushed l r left' right' (only_right a b) (only_left c d) ne = solved (
        at_join (swapped cond) (record {
          says = λ values. swap_op-Holds cond.op (values cond.lhs_col) (values cond.rhs_col);
          from_left = a;
          from_right = c;
          is_rhs_val = refl;
          rhs_val = refl;
        }))
    here-Pushed l r left' right' (only_right a b) (only_right c d) ne = absurd (apart _ a c)

    join-Pushed :
        (l : ℕ) (left' : Plan) (r : ℕ × Plan)
        → Pushed cond left l left'
        → Pushed cond right r.0 r.1
        → (let res : ℕ × Plan =
              if l == 3
              then (3, join_plan left' right conds)
              else push_here cond l r.0 left' r.1 conds in
            Pushed cond whole res.0 res.1)
    join-Pushed l left' r (solved p) q = solved (in_left p)
    join-Pushed l left' r (neither a b) q =
        here-Pushed 0 r.0 left r.1 (neither a b) q (λ e. ground arith)
    join-Pushed l left' r (only_left a b) q =
        here-Pushed 1 r.0 left r.1 (only_left a b) q (λ e. ground arith)
    join-Pushed l left' r (only_right a b) q =
        here-Pushed 2 r.0 left r.1 (only_right a b) q (λ e. ground arith)

-- In a plan that scans each table once, the answer of `push_conds` says what became of the condition.
-- With 3, just one join has one condition more, which says the same of the numbers in the two
-- columns, its left column from the join's left input and its right one from the right input, and all
-- else is as it was. With 0, 1 or 2 the plan is as it was, and it scans neither of the condition's
-- tables, or of the two only the one on the left, or only the one on the right.
pub push_conds-Pushed :
    (cond : Condition) (plan : Plan)
    → Distinct plan
    → Pushed cond plan (push_conds cond plan).0 (push_conds cond plan).1
unfolding push_conds
push_conds-Pushed cond (scan_plan tab_name conds) d = scan-Pushed cond tab_name conds
push_conds-Pushed cond (join_plan left right conds) (dl, dr, apart) =
    join-Pushed cond left right conds apart (push_conds cond left).0 (push_conds cond left).1
      (push_conds cond right) (push_conds-Pushed cond left dl) (push_conds-Pushed cond right dr)
