-- ===== src/Query/Analyze/Columns.antt =====
-- The columns that `check_column` and `get_table(...).get_col(...)` find for a condition on the table
-- of the statement.
use Prim.Native.String.{String}
use dbgenerality_rucbase.Base.{
  ℕ, ◌≡◌, sym, ◌∙◌, ap, subst, ◌⊎◌, inl, inr, true, false, List, Option, none, some, not, arith,
  Bool-cases,
}
use dbgenerality_rucbase.System.Meta.{ColMeta, TabMeta}
use dbgenerality_rucbase.System.Catalogue.{DbMeta, find_col, get_table}
use dbgenerality_rucbase.Query.Result.{Error, ok, bind_ok, require_ok}
use dbgenerality_rucbase.Query.Value.{TabCol}
use dbgenerality_rucbase.Query.Eval.{get_col}
use dbgenerality_rucbase.Query.Analyze.{
  exists_col, infer_table, check_column, col_of, is_empty, found,
}
use dbgenerality_rucbase.Query.Analyze.Checked.{All, ColFits, get_col-find_col, infer_table-named}

pub found_ok : {A : Type 0} (e : Error) (o : Option A) (a : A) → found e o ≡ ok a → o ≡ some a
found_ok e none a h = absurd (cc h)
found_ok e (some b) a h = let same : b ≡ a = cc h in ap some same

-- The column on the left is given the statement's table.
pub check_column-named :
    (db : DbMeta) (tab_name : String) (size : ℕ) (cols : List ColMeta) (target lhs : TabCol)
    → All (ColFits tab_name size) cols
    → (is_empty target.tab_name ≡ true) ⊎ (target.tab_name ≡ tab_name)
    → check_column db cols target ≡ ok lhs
    → lhs.tab_name ≡ tab_name
unfolding check_column
check_column-named db tab_name size cols target lhs fits own e =
    elim (Bool-cases (is_empty target.tab_name)) [
      | inl c ↦
          let inferred = rw (check_column, c) at e in
          bind_ok (infer_table cols target.col_name "") inferred λ t i e1.
            require_ok (not (is_empty t)) _ e1 λ given e2.
              let lhs_is : t ≡ lhs.tab_name = cc e2 in
              elim (infer_table-named tab_name target.col_name "" t size cols fits i) [
                | inl none_found ↦
                    let wrong : false ≡ true =
                      subst (λ (u : String). not (is_empty u) ≡ true) none_found given in
                    absurd (cc wrong)
                | inr is_table ↦ sym lhs_is ∙ is_table
              ]
      | inr c ↦
          let named = rw (check_column, c) at e in
          require_ok (exists_col db target) _ named λ exists e1.
            let kept : target.tab_name ≡ lhs.tab_name = cc e1 in
            elim own [ inl empty ↦ absurd (ground arith) | inr same ↦ sym kept ∙ same ]
    ]

pub col_of_lem :
    (db : DbMeta) (tab : TabMeta) (size : ℕ) (lhs : TabCol) (col : ColMeta)
    → get_table db tab.name ≡ some tab
    → All (ColFits tab.name size) tab.cols
    → lhs.tab_name ≡ tab.name
    → col_of db lhs ≡ ok col
    → (get_col tab.cols lhs ≡ ok col) × ColFits tab.name size col
unfolding col_of
col_of_lem db tab size lhs col there fits named e =
    bind_ok (found _ (get_table db lhs.tab_name)) e λ tab' g e1.
      let same : tab ≡ tab' =
        cc (there, found_ok _ (get_table db lhs.tab_name) tab' g, ap (get_table db) named) in
      let col_found =
        subst (λ (t : TabMeta). find_col t.cols lhs.col_name ≡ some col) (sym same)
          (found_ok _ (find_col tab'.cols lhs.col_name) col e1) in
      let (got, fit) = get_col-find_col tab.name lhs.col_name size tab.cols col fits col_found in
      (
        ap (λ (n : String). get_col tab.cols (record { tab_name = n; col_name = lhs.col_name }))
              named
            ∙ got,
        fit,
      )
