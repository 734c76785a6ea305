-- ===== src/Index/Columns.antt =====
-- `ix_compare` of src/index/ix_index_handle.h on keys of several columns, here INT and STRING.
use mathlib.Core.List.{append_assoc}
use dbgenerality_rucbase.Base.{
  ℕ, zero, suc, ◌+◌, ◌≡◌, ◌↔◌, refl, sym, ◌∙◌, ap, subst, true, false, List, [], ◌∷◌, ◌++◌, length,
  ltb, Bool-cases, inl, inr, ℤ, pos, arith, length-append,
}
use dbgenerality_rucbase.Index.Order.{KeyOrder, Sign, below, same, above, is_same}
use dbgenerality_rucbase.Index.Compare.{int_order, compare_int}
use dbgenerality_rucbase.Index.Orders.{then_by, pair_order, unit_order, byte_order, compare_byte}
use dbgenerality_rucbase.System.Meta.{ColType, type_int, type_string}
use dbgenerality_rucbase.Query.Result.{Result, ok, throws, out_of_bounds, ◌>>=◌}
use dbgenerality_rucbase.Query.Cursor.{Row}
use dbgenerality_rucbase.Query.Eval.{ix_compare, memcmp}
use dbgenerality_rucbase.Query.Value.Bytes.{
  from, first, from-append, first-append, bytes_of_int, int_of_bytes-bytes_of_int, IsInt,
}

-- The columns from `offset` on.
unfoldable pub compare_from :
    (Row → Row → Sign) → List ColType → List ℕ → ℕ → Row → Row → Result Sign
unfolding from ix_compare
compare_from float_sign [] col_lens offset a b = ok same
compare_from float_sign (type ∷ types) [] offset a b = throws out_of_bounds
compare_from float_sign (type ∷ types) (len ∷ lens) offset a b = do
  rest_a ← from (pos offset) a
  rest_b ← from (pos offset) b
  res ← ix_compare float_sign rest_a rest_b type (pos len)
  elim (is_same res) [
    | true ↦ compare_from float_sign types lens (offset + len) a b
    | false ↦ ok res
  ]

abbrev pub compare_columns : (Row → Row → Sign) → List ColType → List ℕ → Row → Row → Result Sign
compare_columns float_sign col_types col_lens a b = compare_from float_sign col_types col_lens 0 a b

-- A column of a key: INT, or STRING with a length.
pub data KeyColumn : Type 0 where
  int_column : KeyColumn
  string_column : ℕ → KeyColumn

abbrev pub types_of : List KeyColumn → List ColType
types_of [] = []
types_of (int_column ∷ cols) = type_int ∷ types_of cols
types_of (string_column n ∷ cols) = type_string ∷ types_of cols

abbrev pub lens_of : List KeyColumn → List ℕ
lens_of [] = []
lens_of (int_column ∷ cols) = 4 ∷ lens_of cols
lens_of (string_column n ∷ cols) = n ∷ lens_of cols

-- The order of `n` bytes, the first byte first.
abbrev pub chars_order : ℕ → KeyOrder
chars_order zero = unit_order
chars_order (suc n) = pair_order byte_order (chars_order n)

-- The order of keys by their columns, the first column first.
abbrev pub columns_order : List KeyColumn → KeyOrder
columns_order [] = unit_order
columns_order (int_column ∷ cols) = pair_order int_order (columns_order cols)
columns_order (string_column n ∷ cols) = pair_order (chars_order n) (columns_order cols)

abbrev pub bytes_of_chars : (n : ℕ) → (chars_order n).Key → Row
bytes_of_chars zero k = []
bytes_of_chars (suc n) k = k.0 ∷ bytes_of_chars n k.1

-- The buffer that holds a key.
abbrev pub bytes_of_key : (cols : List KeyColumn) → (columns_order cols).Key → Row
bytes_of_key [] k = []
bytes_of_key (int_column ∷ cols) k = bytes_of_int k.0 ++ bytes_of_key cols k.1
bytes_of_key (string_column n ∷ cols) k = bytes_of_chars n k.0 ++ bytes_of_key cols k.1

-- The numbers of a key fit their columns.
abbrev pub Fits : (cols : List KeyColumn) → (columns_order cols).Key → Type 0
Fits [] k = Unit
Fits (int_column ∷ cols) k = IsInt k.0 × Fits cols k.1
Fits (string_column n ∷ cols) k = Fits cols k.1

length-chars : (n : ℕ) (k : (chars_order n).Key) → length (bytes_of_chars n k) ≡ n
length-chars zero k = refl
length-chars (suc n) k = ap suc (length-chars n k.1)

memcmp-chars :
    (n : ℕ) (a b : (chars_order n).Key)
    → memcmp (bytes_of_chars n a) (bytes_of_chars n b) ≡ (chars_order n).ix_compare a b
unfolding memcmp compare_byte
memcmp-chars zero a b = refl
memcmp-chars (suc n) a b = elim (Bool-cases (ltb a.0 b.0)) [
  | inl e ↦ rw (e) refl
  | inr e ↦ elim (Bool-cases (ltb b.0 a.0)) [
    | inl f ↦ rw (e, f) refl
    | inr f ↦ rw (e, f) (memcmp-chars n a.1 b.1)
  ]
]

from_at : (offset : ℕ) (pre xs : Row) → length pre ≡ offset → from (pos offset) (pre ++ xs) ≡ ok xs
from_at offset pre xs e = subst (λ (k : ℕ). from (pos k) (pre ++ xs) ≡ ok xs) e (from-append pre xs)

compare_from_end :
    (float_sign : Row → Row → Sign) (offset : ℕ) (a b : Row)
    → compare_from float_sign [] [] offset a b ≡ ok same
unfolding compare_from
compare_from_end float_sign offset a b = refl

ok-injective : (s s' : Sign) → ok s ≡ ok s' → s ≡ s'
ok-injective s s' e = ground arith

-- One column and the rest of the loop.
compare_from_step :
    (float_sign : Row → Row → Sign) (type : ColType) (types : List ColType) (len : ℕ)
    (lens : List ℕ) (offset : ℕ) (pre_a pre_b xa xb ra rb : Row) (s s' : Sign)
    → length pre_a ≡ offset
    → length pre_b ≡ offset
    → ix_compare float_sign (xa ++ ra) (xb ++ rb) type (pos len) ≡ ok s
    → compare_from float_sign types lens (offset + len) ((pre_a ++ xa) ++ ra) ((pre_b ++ xb) ++ rb)
      ≡ ok s'
    → compare_from float_sign
        (type ∷ types)
        (len ∷ lens)
        offset
        (pre_a ++ (xa ++ ra))
        (pre_b ++ (xb ++ rb))
      ≡ ok (then_by s s')
unfolding compare_from
compare_from_step float_sign type types len lens offset pre_a pre_b xa xb ra rb s s' la lb here
      rest =
    let at_a = from_at offset pre_a (xa ++ ra) la in
    let at_b = from_at offset pre_b (xb ++ rb) lb in rw (at_a, at_b, ◌>>=◌, here) (go s)
  where
    go :
        (s : Sign)
        → (elim (is_same s) [
          | true ↦
              compare_from float_sign types lens
                (offset + len)
                (pre_a ++ (xa ++ ra))
                (pre_b ++ (xb ++ rb))
          | false ↦ ok s
        ])
          ≡ ok (then_by s s')
    go below = refl
    go same = rw (sym (append_assoc pre_a xa ra), sym (append_assoc pre_b xb rb)) rest
    go above = refl

longer :
    (offset len : ℕ) (pre xs : Row)
    → length pre ≡ offset
    → length xs ≡ len
    → length (pre ++ xs) ≡ offset + len
longer offset len pre xs l m = omega (arith, length-append pre xs)

length-bytes_of_int : (i : ℤ) → length (bytes_of_int i) ≡ 4
unfolding bytes_of_int
length-bytes_of_int i = refl

ix_compare-int :
    (float_sign : Row → Row → Sign) (i j : ℤ) (ra rb : Row) (len : ℤ)
    → IsInt i
    → IsInt j
    → ix_compare float_sign (bytes_of_int i ++ ra) (bytes_of_int j ++ rb) type_int len
      ≡ ok (compare_int i j)
unfolding ix_compare
ix_compare-int float_sign i j ra rb len hi hj =
    rw (int_of_bytes-bytes_of_int i ra hi, ◌>>=◌, int_of_bytes-bytes_of_int j rb hj) refl

first-chars :
    (n : ℕ) (k : (chars_order n).Key) (rest : Row)
    → first n (bytes_of_chars n k ++ rest) ≡ ok (bytes_of_chars n k)
first-chars n k rest =
    subst (λ (m : ℕ). first m (bytes_of_chars n k ++ rest) ≡ ok (bytes_of_chars n k))
      (length-chars n k) (first-append (bytes_of_chars n k) rest)

ix_compare-chars :
    (float_sign : Row → Row → Sign) (n : ℕ) (a b : (chars_order n).Key) (ra rb : Row)
    → ix_compare float_sign
        (bytes_of_chars n a ++ ra)
        (bytes_of_chars n b ++ rb)
        type_string
        (pos n)
      ≡ ok ((chars_order n).ix_compare a b)
unfolding ix_compare
ix_compare-chars float_sign n a b ra rb =
    rw (first-chars n a ra, ◌>>=◌, first-chars n b rb, memcmp-chars n a b) refl

compare_from-columns_order :
    (float_sign : Row → Row → Sign) (cols : List KeyColumn) (offset : ℕ) (pre_a pre_b : Row)
    (a b : (columns_order cols).Key)
    → length pre_a ≡ offset
    → length pre_b ≡ offset
    → Fits cols a
    → Fits cols b
    → compare_from float_sign
        (types_of cols)
        (lens_of cols)
        offset
        (pre_a ++ bytes_of_key cols a)
        (pre_b ++ bytes_of_key cols b)
      ≡ ok ((columns_order cols).ix_compare a b)
compare_from-columns_order float_sign [] offset pre_a pre_b a b la lb fa fb =
    compare_from_end float_sign offset (pre_a ++ []) (pre_b ++ [])
compare_from-columns_order float_sign (int_column ∷ cols) offset pre_a pre_b a b la lb fa fb =
    let xa = bytes_of_int a.0 in
    let xb = bytes_of_int b.0 in
    compare_from_step float_sign type_int (types_of cols) 4 (lens_of cols) offset pre_a pre_b xa xb
      (bytes_of_key cols a.1) (bytes_of_key cols b.1) (compare_int a.0 b.0)
      ((columns_order cols).ix_compare a.1 b.1) la lb
      (ix_compare-int float_sign a.0 b.0 (bytes_of_key cols a.1) (bytes_of_key cols b.1) (pos 4)
        fa.0 fb.0)
      (compare_from-columns_order float_sign cols (offset + 4) (pre_a ++ xa) (pre_b ++ xb) a.1 b.1
        (longer offset 4 pre_a xa la (length-bytes_of_int a.0))
        (longer offset 4 pre_b xb lb (length-bytes_of_int b.0)) fa.1 fb.1)
compare_from-columns_order float_sign (string_column n ∷ cols) offset pre_a pre_b a b la lb fa fb =
    let xa = bytes_of_chars n a.0 in
    let xb = bytes_of_chars n b.0 in
    compare_from_step float_sign type_string (types_of cols) n (lens_of cols) offset pre_a pre_b xa
      xb (bytes_of_key cols a.1) (bytes_of_key cols b.1) ((chars_order n).ix_compare a.0 b.0)
      ((columns_order cols).ix_compare a.1 b.1) la lb
      (ix_compare-chars float_sign n a.0 b.0 (bytes_of_key cols a.1) (bytes_of_key cols b.1))
      (compare_from-columns_order float_sign cols (offset + n) (pre_a ++ xa) (pre_b ++ xb) a.1 b.1
        (longer offset n pre_a xa la (length-chars n a.0))
        (longer offset n pre_b xb lb (length-chars n b.0)) fa fb)

pub compare_columns-order :
    (float_sign : Row → Row → Sign) (cols : List KeyColumn) (a b : (columns_order cols).Key)
    → Fits cols a
    → Fits cols b
    → (compare_columns float_sign
          (types_of cols)
          (lens_of cols)
          (bytes_of_key cols a)
          (bytes_of_key cols b)
        ≡ ok ((columns_order cols).ix_compare a b))
      × ((compare_columns float_sign
              (types_of cols)
              (lens_of cols)
              (bytes_of_key cols a)
              (bytes_of_key cols b)
            ≡ ok same)
          ↔ (a ≡ b))
compare_columns-order float_sign cols a b fa fb =
    let order = columns_order cols in
    let is = compare_from-columns_order float_sign cols 0 [] [] a b refl refl fa fb in
    (
      is,
      (
        (λ e. order.compare-same a b (ok-injective _ _ (sym is ∙ e))),
        λ e.
            is
            ∙ ap (λ (k : order.Key). ok (order.ix_compare a k)) (sym e)
            ∙ ap ok (order.compare-refl a),
      ),
    )
