-- ===== src/Index/Header.antt =====
-- `IxFileHdr` of src/index/ix_defs.h. Each field is four bytes, so the buffer is a list of words
-- and an offset is four times a position. `tot_len_` and the offsets are ints, which wrap around; the
-- number of columns is not negative.
use dbgenerality_rucbase.Base.{
  ℕ, true, zero, suc, ◌+◌, ◌*◌, ◌≡◌, refl, subst, List, [], ◌∷◌, Option, none, some, if◌then◌else◌,
  ◌%◌, length, ℤ, pos, arith, eqb_ℤ, eqb_ℤ_iff, ap, ◌∙◌,
}
use dbgenerality_rucbase.Query.Value.Bytes.{int_of}
use dbgenerality_rucbase.System.Meta.{
  ColType, type_int, type_float, type_string, type_number, read_type,
}

pub record IxFileHdr : Type 0 where
  pub first_free_page_no : ℤ
  pub num_pages : ℤ
  pub root_page : ℤ
  pub col_num : ℕ
  pub col_types : List ColType
  pub col_lens : List ℤ
  pub col_tot_len : ℤ
  pub btree_order : ℤ
  pub keys_size : ℤ
  pub first_leaf : ℤ
  pub last_leaf : ℤ
  pub tot_len : ℤ

-- A sum of sizes in an `int`.
abbrev pub int_size : ℕ → ℤ
int_size n = int_of (n % 4294967296)

unfoldable pub update_tot_len : IxFileHdr → IxFileHdr
update_tot_len hdr = record hdr {
  tot_len = int_size (4 * 4 + 4 * 6 + (4 * hdr.col_num + 4 * hdr.col_num));
}

-- The two loops of `serialize`, before what is written next; `none` is an index past the vector.
unfoldable pub write_types : ℕ → List ColType → List ℤ → Option (List ℤ)
write_types zero ts rest = some rest
write_types (suc n) [] rest = none
write_types (suc n) (t ∷ ts) rest = elim (write_types n ts rest) [
  | none ↦ none
  | some ws ↦ some (type_number t ∷ ws)
]

unfoldable pub write_lens : ℕ → List ℤ → List ℤ → Option (List ℤ)
write_lens zero ls rest = some rest
write_lens (suc n) [] rest = none
write_lens (suc n) (l ∷ ls) rest = elim (write_lens n ls rest) [
  | none ↦ none
  | some ws ↦ some (l ∷ ws)
]

-- `assert(offset == tot_len_)` at the end of `serialize`.
unfoldable pub checked : ℤ → List ℤ → Option (List ℤ)
checked tot_len ws = if eqb_ℤ (int_size (4 * length ws)) tot_len then some ws else none

unfoldable pub serialize : IxFileHdr → Option (List ℤ)
unfolding write_types write_lens checked
serialize hdr =
    elim (write_lens hdr.col_num hdr.col_lens
      (hdr.col_tot_len ∷ hdr.btree_order ∷ hdr.keys_size ∷ hdr.first_leaf ∷ hdr.last_leaf ∷ [])) [
        | none ↦ none
        | some tail ↦ elim (write_types hdr.col_num hdr.col_types tail) [
          | none ↦ none
          | some ws ↦ checked hdr.tot_len (
              hdr.tot_len
              ∷ hdr.first_free_page_no
              ∷ hdr.num_pages
              ∷ hdr.root_page
              ∷ pos hdr.col_num
              ∷ ws)
        ]
      ]

unfoldable pub read_types : ℕ → List ℤ → Option (List ColType × List ℤ)
read_types zero ws = some ([], ws)
read_types (suc n) [] = none
read_types (suc n) (w ∷ ws) = elim (read_type w) [
  | none ↦ none
  | some t ↦ elim (read_types n ws) [ none ↦ none | some (ts, rest) ↦ some (t ∷ ts, rest) ]
]

unfoldable pub read_lens : ℕ → List ℤ → Option (List ℤ × List ℤ)
read_lens zero ws = some ([], ws)
read_lens (suc n) [] = none
read_lens (suc n) (w ∷ ws) = elim (read_lens n ws) [
  | none ↦ none
  | some (ls, rest) ↦ some (w ∷ ls, rest)
]

-- The words after the two vectors, and the assertion on the offset: ten words and two for each
-- column.
unfoldable pub read_tail : ℤ → ℤ → ℤ → ℤ → ℕ → List ColType → List ℤ → List ℤ → Option IxFileHdr
read_tail tot free num root n ts ls (a ∷ b ∷ c ∷ d ∷ e ∷ rest) =
    if eqb_ℤ (int_size (4 * (10 + (n + n)))) tot
    then some (record {
      first_free_page_no = free;
      num_pages = num;
      root_page = root;
      col_num = n;
      col_types = ts;
      col_lens = ls;
      col_tot_len = a;
      btree_order = b;
      keys_size = c;
      first_leaf = d;
      last_leaf = e;
      tot_len = tot;
    })
    else none
read_tail tot free num root n ts ls _ = none

-- `deserialize` into a header whose vectors are empty; `none` is a failed assertion or a number
-- that is no column type.
unfoldable pub deserialize : List ℤ → Option IxFileHdr
unfolding read_types read_lens read_tail
deserialize (tot ∷ free ∷ num ∷ root ∷ pos n ∷ ws) = elim (read_types n ws) [
  | none ↦ none
  | some (ts, ws') ↦ elim (read_lens n ws') [
    | none ↦ none
    | some (ls, rest) ↦ read_tail tot free num root n ts ls rest
  ]
]
deserialize _ = none

lens_back :
    (ls rest : List ℤ)
    → (ws : List ℤ) × (write_lens (length ls) ls rest ≡ some ws)
      × (length ws ≡ length ls + length rest)
      × (read_lens (length ls) ws ≡ some (ls, rest))
unfolding write_lens read_lens
lens_back [] rest = (rest, refl, omega arith, refl)
lens_back (l ∷ ls) rest =
    let (ws, a, b, c) = lens_back ls rest in
    (l ∷ ws, rw (write_lens, a), ground arith, rw (read_lens, c))

type_back : (t : ColType) → read_type (type_number t) ≡ some t
type_back type_int = refl
type_back type_float = refl
type_back type_string = refl

types_back :
    (ts : List ColType) (rest : List ℤ)
    → (ws : List ℤ) × (write_types (length ts) ts rest ≡ some ws)
      × (length ws ≡ length ts + length rest)
      × (read_types (length ts) ws ≡ some (ts, rest))
unfolding write_types read_types
types_back [] rest = (rest, refl, omega arith, refl)
types_back (t ∷ ts) rest =
    let (ws, a, b, c) = types_back ts rest in
    (type_number t ∷ ws, rw (write_types, a), ground arith, rw (read_types, type_back t, c))

-- A header whose two vectors have one entry for each column is written after `update_tot_len`
-- without a failed assertion, and read back as it was.
pub deserialize-serialize :
    (hdr : IxFileHdr)
    → length hdr.col_types ≡ hdr.col_num
    → length hdr.col_lens ≡ hdr.col_num
    → (ws : List ℤ) × (serialize (update_tot_len hdr) ≡ some ws)
      × (deserialize ws ≡ some (update_tot_len hdr))
unfolding serialize deserialize update_tot_len checked read_tail
deserialize-serialize hdr e f =
    let last =
      hdr.col_tot_len ∷ hdr.btree_order ∷ hdr.keys_size ∷ hdr.first_leaf ∷ hdr.last_leaf ∷ [] in
    let (tail, a, b, c) = lens_back hdr.col_lens last in
    let (ws, a', b', c') = types_back hdr.col_types tail in
    let up = subst (λ (n : ℕ). write_lens n hdr.col_lens last ≡ some tail) f a in
    let ut = subst (λ (n : ℕ). write_types n hdr.col_types tail ≡ some ws) e a' in
    let dl = subst (λ (n : ℕ). read_lens n tail ≡ some (hdr.col_lens, last)) f c in
    let dt = subst (λ (n : ℕ). read_types n ws ≡ some (hdr.col_types, tail)) e c' in
    let size = 4 * 4 + 4 * 6 + (4 * hdr.col_num + 4 * hdr.col_num) in
    let tot = int_size size in
    let self : eqb_ℤ tot tot ≡ true = (eqb_ℤ_iff tot tot).1 refl in
    let all = tot ∷ hdr.first_free_page_no ∷ hdr.num_pages ∷ hdr.root_page ∷ pos hdr.col_num ∷ ws in
    let long : 4 * length all ≡ size = ground arith in
    let fits : eqb_ℤ (int_size (4 * length all)) tot ≡ true =
      ap (λ (n : ℕ). eqb_ℤ (int_size n) tot) long ∙ self in
    let sum : 4 * (10 + (hdr.col_num + hdr.col_num)) ≡ size = omega arith in
    let fits' : eqb_ℤ (int_size (4 * (10 + (hdr.col_num + hdr.col_num)))) tot ≡ true =
      ap (λ (n : ℕ). eqb_ℤ (int_size n) tot) sum ∙ self in
    (all, rw (serialize, up, ut, checked, fits), rw (deserialize, dt, dl, read_tail, fits'))
