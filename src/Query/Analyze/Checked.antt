-- ===== src/Query/Analyze/Checked.antt =====
-- The columns, values and types that `check_clause` of src/analyze/analyze.cpp puts together.
use Prim.Native.String.{String}
use text.Mathlib.Text.{◌==◌ as str_eq}
use text.Mathlib.TextEquality.{eq_iff}
use dbgenerality_rucbase.Base.{
  ℕ, ◌+◌, ◌-◌, ◌≤◌, ◌≡◌, sym, ◌∙◌, ap, subst, ◌⊎◌, inl, inr, true, List, [], ◌∷◌, ◌++◌, some,
  length, replicate, leb, take, pos, eqb_ℤ, arith, length-append, length-replicate, Bool-cases,
}
use dbgenerality_rucbase.Index.Order.{Sign}
use dbgenerality_rucbase.Index.Compare.{compare_int}
use dbgenerality_rucbase.System.Meta.{ColType, type_int, type_float, type_string, ColMeta}
use dbgenerality_rucbase.System.Catalogue.{find_col}
use dbgenerality_rucbase.Query.Result.{ok, require_ok}
use dbgenerality_rucbase.Query.Cursor.{Row}
use dbgenerality_rucbase.Query.Value.{Value, raw_bytes}
use dbgenerality_rucbase.Query.Value.Bytes.{bytes_of_int, int_of_bytes_total, first_total}
use dbgenerality_rucbase.Query.Eval.{get_col, memcmp, ix_compare}
use dbgenerality_rucbase.Query.Analyze.{infer_table, is_empty}

-- A property of each element.
abbrev pub All {ℓ κ} : {A : Type ℓ} → (A → Type κ) → List A → Type κ
All p [] = Unit
All p (x ∷ xs) = p x × All p xs

-- A column of the table with this name lies within its records.
pub record ColFits (tab_name : String) (size : ℕ) (c : ColMeta) : Type 0 where
  pub named : c.tab_name ≡ tab_name
  pub at : ℕ
  pub width : ℕ
  pub offset_at : c.offset ≡ pos at
  pub len_width : c.len ≡ pos width
  pub fits : at + width ≤ size

-- The types of numbers have four bytes.
abbrev pub IsWide : ColType → ℕ → Type 0
IsWide type_int n = n ≡ 4
IsWide type_float n = n ≡ 4
IsWide type_string n = Unit

pub raw_bytes-IsWide :
    (t : ColType) (len : ℕ) (v : Value) (bytes : Row)
    → length v.float_val ≡ 4
    → raw_bytes t len v ≡ ok bytes
    → (length bytes ≡ len) × IsWide t len
unfolding raw_bytes bytes_of_int
raw_bytes-IsWide type_int len v bytes h e = require_ok (eqb_ℤ (pos len) (pos 4)) _ e λ four same.
    let width : len ≡ 4 = ground arith in
    let written : bytes_of_int v.int_val ≡ bytes = cc same in
    (ap length (sym written) ∙ sym width, width)
raw_bytes-IsWide type_float len v bytes h e = require_ok (eqb_ℤ (pos len) (pos 4)) _ e λ four same.
    let width : len ≡ 4 = ground arith in
    let written : v.float_val ≡ bytes = cc same in (ap length (sym written) ∙ h ∙ sym width, width)
raw_bytes-IsWide type_string len v bytes h e =
    require_ok (leb (length v.str_val) len) _ e λ short same.
      let written : v.str_val ++ replicate (len - length v.str_val) 0 ≡ bytes = cc same in
      let long = length-append v.str_val (replicate {A = ℕ} (len - length v.str_val) 0) in
      let pad : length (replicate {A = ℕ} (len - length v.str_val) 0) ≡ len - length v.str_val =
        length-replicate (len - length v.str_val) 0 in
      (ap length (sym written) ∙ ground arith, tt)

pub ix_compare_total :
    (float_sign : Row → Row → Sign) (a b : Row) (t : ColType) (n : ℕ)
    → n ≤ length a
    → length b ≡ n
    → IsWide t n
    → (s : Sign) × (ix_compare float_sign a b t (pos n) ≡ ok s)
unfolding ix_compare
ix_compare_total float_sign a b type_int n ha hb w =
    let (i, p) = int_of_bytes_total a (omega arith) in
    let (j, q) = int_of_bytes_total b (omega arith) in (compare_int i j, rw (p, q))
ix_compare_total float_sign a b type_float n ha hb w = (
  float_sign (take 4 a) (take 4 b),
  rw (first_total 4 a (omega arith), first_total 4 b (omega arith)),
)
ix_compare_total float_sign a b type_string n ha hb w =
    (memcmp (take n a) (take n b), rw (first_total n a ha, first_total n b (omega arith)))

pub get_col-find_col :
    (tab_name col_name : String) (size : ℕ) (cols : List ColMeta) (c : ColMeta)
    → All (ColFits tab_name size) cols
    → find_col cols col_name ≡ some c
    → (get_col cols (record { tab_name = tab_name; col_name = col_name }) ≡ ok c)
      × ColFits tab_name size c
unfolding get_col find_col
get_col-find_col tab_name col_name size [] c h e = absurd (cc e)
get_col-find_col tab_name col_name size (x ∷ xs) c (f, h) e =
    elim (Bool-cases (str_eq x.name col_name)) [
      | inl c' ↦
          let same : x ≡ c = ground arith in
          let own : str_eq x.tab_name tab_name ≡ true = (eq_iff x.tab_name tab_name).1 f.named in
          (rw (own, c') (ap ok same), subst (λ (y : ColMeta). ColFits tab_name size y) same f)
      | inr c' ↦
          let own : str_eq x.tab_name tab_name ≡ true = (eq_iff x.tab_name tab_name).1 f.named in
          let (g, k) = get_col-find_col tab_name col_name size xs c h (ground arith) in
          (rw (own, c') g, k)
    ]

pub infer_table-named :
    (tab_name col_name acc t : String) (size : ℕ) (cols : List ColMeta)
    → All (ColFits tab_name size) cols
    → infer_table cols col_name acc ≡ ok t
    → (t ≡ acc) ⊎ (t ≡ tab_name)
unfolding infer_table
infer_table-named tab_name col_name acc t size [] h e = inl (cc e)
infer_table-named tab_name col_name acc t size (x ∷ xs) (f, h) e =
    elim (Bool-cases (str_eq x.name col_name)) [
      | inl c ↦
          let taken = rw (infer_table, c) at e in
          require_ok (is_empty acc) _ taken λ first_one rest.
            elim (infer_table-named tab_name col_name x.tab_name t size xs h rest) [
              | inl same ↦ inr (same ∙ f.named)
              | inr same ↦ inr same
            ]
      | inr c ↦ infer_table-named tab_name col_name acc t size xs h (ground arith)
    ]
