-- ===== src/Query/Analyze/Evaluates.antt =====
-- The conditions of `check_clause` in src/analyze/analyze.cpp, as `eval_conds` of
-- src/execution/executor_seq_scan.h evaluates them.
use Prim.Native.String.{String}
use mathlib.Core.List.{append-nil}
use dbgenerality_rucbase.Base.{
  ℕ, ◌≡◌, refl, sym, ◌∙◌, ap, subst, ◌⊎◌, Bool, true, false, List, [], ◌∷◌, ◌++◌, some, length,
  arith, length-drop, drop,
}
use dbgenerality_rucbase.Index.Order.{Sign}
use dbgenerality_rucbase.System.Meta.{ColType, type_int, type_float, type_string, ColMeta, TabMeta}
use dbgenerality_rucbase.System.Catalogue.{DbMeta, get_table}
use dbgenerality_rucbase.Query.Result.{ok, bind_ok, require_ok}
use dbgenerality_rucbase.Query.Cursor.{Row}
use dbgenerality_rucbase.Query.Value.{Value, Condition, raw_bytes, init_raw, is_null}
use dbgenerality_rucbase.Query.Value.Bytes.{from_total}
use dbgenerality_rucbase.Query.Eval.{
  get_col, nat_of, test_op, rhs_of, eval_at, eval_cond, eval_conds, all_of, eqb_col_type,
}
use dbgenerality_rucbase.Query.Analyze.{
  check_column, col_of, is_empty, check_rhs, resolve, check_cond, for_each, get_all_cols,
  check_clause,
}
use dbgenerality_rucbase.Query.Analyze.Columns.{check_column-named, col_of_lem}
use dbgenerality_rucbase.Query.Analyze.Checked.{
  All, ColFits, IsWide, raw_bytes-IsWide, ix_compare_total,
}

-- A condition that compares a column with a literal and names the column's table, if at all, as the
-- table of the statement. A float takes four bytes.
pub record OwnLiteral (tab_name : String) (cond : Condition) : Type 0 where
  pub literal : cond.is_rhs_val ≡ true
  pub four : length cond.rhs_val.float_val ≡ 4
  pub own : (is_empty cond.lhs_col.tab_name ≡ true) ⊎ (cond.lhs_col.tab_name ≡ tab_name)

-- A condition on a column of the table with a value of the column's type and width.
record Checked (tab : TabMeta) (size : ℕ) (cond : Condition) : Type 0 where
  literal : cond.is_rhs_val ≡ true
  col : ColMeta
  bytes : Row
  has_col : get_col tab.cols cond.lhs_col ≡ ok col
  fits : ColFits tab.name size col
  has_raw : cond.rhs_val.raw ≡ some bytes
  typed : col.type ≡ cond.rhs_val.type
  sized : length bytes ≡ fits.width
  wide : IsWide cond.rhs_val.type fits.width

eqb_col_type_sound : (a b : ColType) → eqb_col_type a b ≡ true → a ≡ b
eqb_col_type_sound type_int type_int h = refl
eqb_col_type_sound type_float type_float h = refl
eqb_col_type_sound type_string type_string h = refl
eqb_col_type_sound type_int type_float h = absurd (ground arith)
eqb_col_type_sound type_int type_string h = absurd (ground arith)
eqb_col_type_sound type_float type_int h = absurd (ground arith)
eqb_col_type_sound type_float type_string h = absurd (ground arith)
eqb_col_type_sound type_string type_int h = absurd (ground arith)
eqb_col_type_sound type_string type_float h = absurd (ground arith)

eqb_col_type_refl : (a : ColType) → eqb_col_type a a ≡ true
eqb_col_type_refl type_int = refl
eqb_col_type_refl type_float = refl
eqb_col_type_refl type_string = refl

-- What `init_raw` gives.
init_raw_lem :
    (len : ℕ) (v v' : Value)
    → length v.float_val ≡ 4
    → init_raw len v ≡ ok v'
    → (v'.type ≡ v.type)
      × ((bytes : Row) × (v'.raw ≡ some bytes) × (length bytes ≡ len) × IsWide v.type len)
unfolding init_raw
init_raw_lem len v v' four e = require_ok (is_null v.raw) _ e λ unused e1.
    bind_ok (raw_bytes v.type len v) e1 λ bytes w e2.
      let same : record v { raw = some bytes } ≡ v' = cc e2 in
      let (size, wide) = raw_bytes-IsWide v.type len v bytes four w in
      (
        sym (ap (λ (x : Value). x.type) same),
        (bytes, sym (ap (λ (x : Value). x.raw) same), size, wide),
      )

module _ (db : DbMeta) (tab : TabMeta) (size : ℕ) (there : get_table db tab.name ≡ some tab)
    (fits : All (ColFits tab.name size) tab.cols) where
  -- The condition after its column is found.
  check_resolved :
      (cond : Condition) (lhs_col : ColMeta) (rhs : Condition × ColType)
      → cond.is_rhs_val ≡ true
      → length cond.rhs_val.float_val ≡ 4
      → cond.lhs_col.tab_name ≡ tab.name
      → col_of db cond.lhs_col ≡ ok lhs_col
      → check_rhs db lhs_col cond ≡ ok rhs
      → eqb_col_type lhs_col.type rhs.1 ≡ true
      → Checked tab size rhs.0
  unfolding check_rhs
  check_resolved cond lhs_col rhs literal four named c r t =
      let (got, fit) = col_of_lem db tab size cond.lhs_col lhs_col there fits named c in
      let by_value = rw (check_rhs, literal) at r in
      bind_ok (nat_of lhs_col.len) by_value λ len l e1.
        bind_ok (init_raw len cond.rhs_val) e1 λ v i e2.
          let width : len ≡ fit.width = cc (l, ap nat_of fit.len_width) in
          let raw = subst (λ (n : ℕ). init_raw n cond.rhs_val ≡ ok v) width i in
          let (ty, (bytes, has_raw, sized, wide)) =
            init_raw_lem fit.width cond.rhs_val v four raw in
          let done : ◌≡◌ {A = Condition × ColType} (record cond { rhs_val = v }, v.type) rhs =
            cc e2 in
          subst
            (λ (x : Condition × ColType).
              eqb_col_type lhs_col.type x.1 ≡ true → Checked tab size x.0)
            done
            (λ same_type. record {
              literal = literal;
              col = lhs_col;
              bytes = bytes;
              has_col = got;
              fits = fit;
              has_raw = has_raw;
              typed = eqb_col_type_sound lhs_col.type v.type same_type;
              sized = sized;
              wide = subst (λ (u : ColType). IsWide u fit.width) (sym ty) wide;
            })
            t

  check_cond-Checked :
      (cond cond' : Condition)
      → OwnLiteral tab.name cond
      → check_cond db (tab.cols ++ []) cond ≡ ok cond'
      → Checked tab size cond'
  unfolding check_cond resolve
  check_cond-Checked cond cond' own e =
      bind_ok (resolve db (tab.cols ++ []) cond) e λ resolved r e1.
        bind_ok (col_of db resolved.lhs_col) e1 λ lhs_col c e2.
          bind_ok (check_rhs db lhs_col resolved) e2 λ rhs h e3.
            require_ok (eqb_col_type lhs_col.type rhs.1) _ e3 λ t e4.
              let by_value = rw (resolve, own.literal) at r in
              bind_ok (check_column db (tab.cols ++ []) cond.lhs_col) by_value λ lhs k r1.
                let same : record cond { lhs_col = lhs } ≡ resolved = cc r1 in
                let all_fit =
                  subst (All (ColFits tab.name size)) (sym (append-nil tab.cols)) fits in
                let named =
                  check_column-named db tab.name size (tab.cols ++ []) cond.lhs_col lhs all_fit
                    own.own k in
                subst (Checked tab size) (cc e4) (
                  check_resolved resolved lhs_col rhs
                    (ap (λ (x : Condition). x.is_rhs_val) (sym same) ∙ own.literal)
                    (ap (λ (x : Condition). length x.rhs_val.float_val) (sym same) ∙ own.four)
                    (ap (λ (x : Condition). x.lhs_col.tab_name) (sym same) ∙ named) c h t)

  eval_cond-Checked :
      (float_sign : Row → Row → Sign) (cond : Condition) (rec : Row)
      → Checked tab size cond
      → length rec ≡ size
      → (b : Bool) × (eval_cond float_sign tab.cols rec cond ≡ ok b)
  unfolding eval_cond eval_at rhs_of
  eval_cond-Checked float_sign cond rec c h =
      let at = c.fits.at in
      let inside = c.fits.fits in
      let left = length-drop at rec in
      let placed = from_total at rec (omega arith) in
      let (cmp, s) =
        ix_compare_total float_sign (drop at rec) c.bytes cond.rhs_val.type c.fits.width
          (omega arith) c.sized c.wide in
      (
        test_op cond.op cmp,
        rw (
          eval_at,
          c.has_col,
          c.fits.offset_at,
          placed,
          rhs_of,
          c.literal,
          c.has_raw,
          c.typed,
          eqb_col_type_refl cond.rhs_val.type,
          c.fits.len_width,
          s,
        ),
      )

  for_each-Checked :
      (conds conds' : List Condition)
      → All (OwnLiteral tab.name) conds
      → for_each (check_cond db (tab.cols ++ [])) conds ≡ ok conds'
      → All (Checked tab size) conds'
  unfolding for_each
  for_each-Checked [] conds' own e =
      let empty : [] ≡ conds' = cc e in subst (All (Checked tab size)) empty tt
  for_each-Checked (c ∷ cs) conds' (own, owns) e =
      bind_ok (check_cond db (tab.cols ++ []) c) e λ c' k e1.
        bind_ok (for_each (check_cond db (tab.cols ++ [])) cs) e1 λ cs' ks e2.
          let all : c' ∷ cs' ≡ conds' = cc e2 in
          subst (All (Checked tab size)) all
            (check_cond-Checked c c' own k, for_each-Checked cs cs' owns ks)

  eval_conds-Checked :
      (float_sign : Row → Row → Sign) (conds : List Condition) (rec : Row)
      → All (Checked tab size) conds
      → length rec ≡ size
      → (b : Bool) × (eval_conds float_sign tab.cols conds rec ≡ ok b)
  unfolding eval_conds all_of
  eval_conds-Checked float_sign [] rec checked h = (true, refl)
  eval_conds-Checked float_sign (c ∷ cs) rec (checked, rest) h =
      by_first (eval_cond-Checked float_sign c rec checked h)
        (eval_conds-Checked float_sign cs rec rest h)
    where
      by_first :
          ((b : Bool) × (eval_cond float_sign tab.cols rec c ≡ ok b))
          → ((b : Bool) × (eval_conds float_sign tab.cols cs rec ≡ ok b))
          → (b : Bool) × (eval_conds float_sign tab.cols (c ∷ cs) rec ≡ ok b)
      by_first (true, e) (b, f) = (b, rw (eval_conds, all_of, e) f)
      by_first (false, e) later = (false, rw (eval_conds, all_of, e))

  -- Conditions that `check_clause` accepts for a statement on one table are evaluated by the scan's
  -- `eval_conds` on each record of the table's size without an exception, a failed assertion or a
  -- read outside of the record: where the catalogue has the table, each of its columns carries its
  -- name and lies within a record, and each condition compares a column, of this table if its table
  -- is given, with a literal.
  pub check_clause-eval_conds :
      (float_sign : Row → Row → Sign) (conds conds' : List Condition) (rec : Row)
      → All (OwnLiteral tab.name) conds
      → check_clause db (tab.name ∷ []) conds ≡ ok conds'
      → length rec ≡ size
      → (b : Bool) × (eval_conds float_sign tab.cols conds' rec ≡ ok b)
  unfolding check_clause get_all_cols
  check_clause-eval_conds float_sign conds conds' rec own e h =
      eval_conds-Checked float_sign conds' rec
        (for_each-Checked conds conds' own (rw (check_clause, get_all_cols, there) at e)) h
