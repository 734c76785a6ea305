-- ===== src/Query/Value/Bytes.antt =====
-- A C `int` as the four bytes that hold it, the least significant one first, as on the machines
-- that src/index/ix_index_handle.h and src/common/common.h cast to and from `int *`.
use dbgenerality_rucbase.Base.{
  ℕ, suc, ◌+◌, ◌-◌, ◌*◌, ◌/◌, ◌%◌, ◌<◌, ◌≤◌, ◌≡◌, refl, sym, ◌∙◌, ap, true, [], ◌∷◌, ◌++◌, length,
  ltb, leb, if◌then◌else◌, ℤ, pos, negsuc, drop, take, arith, length-append, length-take,
  Bool-cases, inl, inr,
}
use dbgenerality_rucbase.Query.Result.{Result, ok, throws, out_of_bounds}
use dbgenerality_rucbase.Query.Cursor.{Row}

-- The number of a 32-bit word as an `int`, and back.
abbrev pub word_of : ℤ → ℕ
word_of (pos n) = n % 4294967296
word_of (negsuc n) = 4294967295 - n % 4294967296

abbrev pub int_of : ℕ → ℤ
int_of u = if ltb u 2147483648 then pos u else negsuc (4294967295 - u)

-- The bytes of a word.
abbrev pub bytes_of : ℕ → Row
bytes_of u = u % 256 ∷ u / 256 % 256 ∷ u / 65536 % 256 ∷ u / 16777216 % 256 ∷ []

-- `*(int *)data = i`
unfoldable pub bytes_of_int : ℤ → Row
bytes_of_int i = bytes_of (word_of i)

-- `*(int *)data`
unfoldable pub int_of_bytes : Row → Result ℤ
int_of_bytes (a ∷ b ∷ c ∷ d ∷ rest) = ok (int_of (a + 256 * b + 65536 * c + 16777216 * d))
int_of_bytes _ = throws out_of_bounds

-- `data + offset`: what the buffer holds from there on.
unfoldable pub from : ℤ → Row → Result Row
from (pos n) buf = if leb n (length buf) then ok (drop n buf) else throws out_of_bounds
from (negsuc n) buf = throws out_of_bounds

-- The first `n` bytes.
unfoldable pub first : ℕ → Row → Result Row
first n buf = if leb n (length buf) then ok (take n buf) else throws out_of_bounds

-- The numbers that an `int` holds.
pub data IsInt : ℤ → Type 0 where
  small : {n : ℕ} → n < 2147483648 → IsInt (pos n)
  minus : {n : ℕ} → n < 2147483648 → IsInt (negsuc n)

word_bytes :
    (u : ℕ)
    → u < 4294967296
    → u % 256 + 256 * (u / 256 % 256) + 65536 * (u / 65536 % 256) + 16777216 * (u / 16777216 % 256)
      ≡ u
word_bytes u h = omega arith

pub int-word : (i : ℤ) → IsInt i → int_of (word_of i) ≡ i
int-word (pos n) (small h) = let same : n % 4294967296 ≡ n = omega arith in rw (same) (ground arith)
int-word (negsuc n) (minus h) =
    let same : 4294967295 - (4294967295 - n % 4294967296) ≡ n = omega arith in
    let high : 2147483648 ≤ 4294967295 - n % 4294967296 = omega arith in ground (arith, same)

word_of_bound : (i : ℤ) → word_of i < 4294967296
word_of_bound (pos n) = omega arith
word_of_bound (negsuc n) = omega arith

-- What was written as an `int` is read as the same `int`, whatever follows it in the buffer, for
-- the numbers of 32 bits with a sign.
pub int_of_bytes-bytes_of_int :
    (i : ℤ) (rest : Row) → IsInt i → int_of_bytes (bytes_of_int i ++ rest) ≡ ok i
unfolding int_of_bytes bytes_of_int
int_of_bytes-bytes_of_int i rest h =
    ap (λ (u : ℕ). ok (int_of u)) (word_bytes (word_of i) (word_of_bound i)) ∙ ap ok (int-word i h)

pub int_of_bytes-alone : (i : ℤ) → IsInt i → int_of_bytes (bytes_of_int i) ≡ ok i
unfolding bytes_of_int
int_of_bytes-alone i h = int_of_bytes-bytes_of_int i [] h

pub length-first : (n : ℕ) (buf bytes : Row) → first n buf ≡ ok bytes → length bytes ≡ n
unfolding first
length-first n buf bytes e = elim (Bool-cases (leb n (length buf))) [
  | inl c ↦
      let is_take : take n buf ≡ bytes = ground arith in
      let cut = length-take n buf in ap length (sym is_take) ∙ cut ∙ ground arith
  | inr c ↦ absurd (ground arith)
]

-- What stands in a buffer after its first part.
pub drop_past : (xs ys : Row) (n : ℕ) → drop (length xs + n) (xs ++ ys) ≡ drop n ys
drop_past [] ys n = ap (λ (k : ℕ). drop k ys) (omega arith)
drop_past (x ∷ xs) ys n =
    let next : suc (length xs) + n ≡ suc (length xs + n) = omega arith in
    ap (λ (k : ℕ). drop k (x ∷ (xs ++ ys))) next ∙ drop_past xs ys n

pub int_of_bytes_total : (a : Row) → 4 ≤ length a → (i : ℤ) × (int_of_bytes a ≡ ok i)
unfolding int_of_bytes
int_of_bytes_total [] h = absurd (omega arith)
int_of_bytes_total (a ∷ []) h = absurd (omega arith)
int_of_bytes_total (a ∷ b ∷ []) h = absurd (omega arith)
int_of_bytes_total (a ∷ b ∷ c ∷ []) h = absurd (omega arith)
int_of_bytes_total (a ∷ b ∷ c ∷ d ∷ rest) h = (_, refl)

pub first_total : (n : ℕ) (a : Row) → n ≤ length a → first n a ≡ ok (take n a)
unfolding first
first_total n a h = let inside : leb n (length a) ≡ true = ground arith in rw (inside)

pub from_total : (n : ℕ) (a : Row) → n ≤ length a → from (pos n) a ≡ ok (drop n a)
unfolding from
from_total n a h = let inside : leb n (length a) ≡ true = ground arith in rw (inside)

drop_append : (xs ys : Row) → drop (length xs) (xs ++ ys) ≡ ys
drop_append [] ys = refl
drop_append (x ∷ xs) ys = drop_append xs ys

pub take_append : (xs ys : Row) → take (length xs) (xs ++ ys) ≡ xs
take_append [] ys = refl
take_append (x ∷ xs) ys = ap (λ (l : Row). x ∷ l) (take_append xs ys)

-- A pointer past the first part of a buffer sees the second part.
pub from-append : (xs ys : Row) → from (pos (length xs)) (xs ++ ys) ≡ ok ys
unfolding from
from-append xs ys =
    let long = length-append xs ys in
    let inside : leb (length xs) (length (xs ++ ys)) ≡ true = ground arith in
    rw (inside, drop_append xs ys)

pub first-append : (xs ys : Row) → first (length xs) (xs ++ ys) ≡ ok xs
unfolding first
first-append xs ys =
    let long = length-append xs ys in
    let inside : leb (length xs) (length (xs ++ ys)) ≡ true = ground arith in
    rw (inside, take_append xs ys)
