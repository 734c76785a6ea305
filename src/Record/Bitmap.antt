-- ===== src/Record/Bitmap.antt =====
-- `Bitmap` of src/record/bitmap.h. A byte is its eight bits from the highest: `get_bit` shifts 0x80
-- to the right by the position in the byte.
use dbgenerality_rucbase.Base.{
  ℕ, zero, suc, ◌+◌, ◌-◌, ◌/◌, ◌%◌, ◌≤◌, ◌<◌, ◌≡◌, Bool, true, false, ◌&&◌, if◌then◌else◌, ◌==◌,
  ltb, arith, subst, Bool-cases, inl, inr, ℕ_discrete,
}

-- The bytes of a bitmap.
abbrev pub Bytes : Type 0
Bytes = ℕ → ℕ → Bool

-- `BITMAP_WIDTH`
abbrev pub bitmap_width : ℕ
bitmap_width = 8

abbrev pub get_bucket : ℕ → ℕ
get_bucket pos = pos / 8

-- The place of the one bit of `get_bit`.
abbrev pub get_bit : ℕ → ℕ
get_bit pos = pos % 8

-- The first `size` bytes are set to 0.
unfoldable pub init : ℕ → Bytes → Bytes
init size bm i k = if ltb i size then false else bm i k

-- `bm[i] |= bit` and `bm[i] &= ~bit`
unfoldable pub put : Bool → ℕ → ℕ → Bytes → Bytes
put b bucket bit bm i k = if i == bucket && k == bit then b else bm i k

unfoldable pub set : ℕ → Bytes → Bytes
unfolding put
set pos bm = put true (get_bucket pos) (get_bit pos) bm

unfoldable pub reset : ℕ → Bytes → Bytes
unfolding put
reset pos bm = put false (get_bucket pos) (get_bit pos) bm

unfoldable pub is_set : Bytes → ℕ → Bool
is_set bm pos = bm (get_bucket pos) (get_bit pos)

-- `a == b` on Booleans
abbrev pub eqb_bool : Bool → Bool → Bool
eqb_bool true b = b
eqb_bool false true = false
eqb_bool false false = true

-- The loop of `next_bit` from `i`, with the places that are left up to `max_n`.
unfoldable pub next_from : Bool → Bytes → ℕ → ℕ → ℕ
unfolding is_set
next_from bit bm i zero = i
next_from bit bm i (suc left) =
    let rest = next_from bit bm (i + 1) left in if eqb_bool (is_set bm i) bit then i else rest

-- `next_bit`, from the place after `curr`: the argument is `curr + 1`, as `curr` may be -1.
unfoldable pub next_bit : Bool → Bytes → ℕ → ℕ → ℕ
unfolding next_from
next_bit bit bm max_n start =
    if ltb start max_n then next_from bit bm start (max_n - start) else max_n

unfoldable pub first_bit : Bool → Bytes → ℕ → ℕ
unfolding next_bit
first_bit bit bm max_n = next_bit bit bm max_n 0

same_place : (p q : ℕ) → p / 8 ≡ q / 8 → p % 8 ≡ q % 8 → p ≡ q
same_place p q a b = omega arith

put-is_set :
    (b : Bool) (p q : ℕ) (bm : Bytes)
    → is_set (put b (get_bucket p) (get_bit p) bm) q ≡ (if q == p then b else is_set bm q)
unfolding put is_set
put-is_set b p q bm = elim (ℕ_discrete q p) [
  | yes e ↦ ground arith
  | no h ↦ ground (arith, same_place q p)
]

-- After `set` of a position `is_set` is true there and as before at every other position, also at
-- the other positions of the same byte; after `reset` it is false there and as before elsewhere.
pub is_set-set :
    (p q : ℕ) (bm : Bytes)
    → (is_set (set p bm) q ≡ (if q == p then true else is_set bm q))
      × (is_set (reset p bm) q ≡ (if q == p then false else is_set bm q))
unfolding set reset
is_set-set p q bm = (put-is_set true p q bm, put-is_set false p q bm)

next_from-le :
    (bit : Bool) (bm : Bytes) (i left : ℕ)
    → (i ≤ next_from bit bm i left) × (next_from bit bm i left ≤ i + left)
unfolding next_from
next_from-le bit bm i zero = (omega arith, omega arith)
next_from-le bit bm i (suc left) = ground (arith, next_from-le bit bm (i + 1) left)

next_from-skips :
    (bit : Bool) (bm : Bytes) (i left j : ℕ)
    → i ≤ j
    → j < next_from bit bm i left
    → eqb_bool (is_set bm j) bit ≡ false
unfolding next_from
next_from-skips bit bm i zero j h k = absurd (omega arith)
next_from-skips bit bm i (suc left) j h k = elim (Bool-cases (eqb_bool (is_set bm i) bit)) [
  | inl e ↦ absurd (ground arith)
  | inr e ↦ elim (ℕ_discrete i j) [
    | yes q ↦ subst (λ (k : ℕ). eqb_bool (is_set bm k) bit ≡ false) q e
    | no q ↦ next_from-skips bit bm (i + 1) left j (omega arith) (ground arith)
  ]
]

next_from-hit :
    (bit : Bool) (bm : Bytes) (i left : ℕ)
    → next_from bit bm i left < i + left
    → eqb_bool (is_set bm (next_from bit bm i left)) bit ≡ true
unfolding next_from
next_from-hit bit bm i zero h = absurd (omega arith)
next_from-hit bit bm i (suc left) h = elim (Bool-cases (eqb_bool (is_set bm i) bit)) [
  | inl e ↦ rw (next_from, e) e
  | inr e ↦ let k = next_from-hit bit bm (i + 1) left (ground arith) in rw (next_from, e) k
]

-- `next_bit` gives a place that is at most `max_n`, where it starts at most there, and passes only over
-- places, from the one that it starts at, where the bit is not the one asked for.
pub next_bit-skips :
    (bit : Bool) (bm : Bytes) (max_n start j : ℕ)
    → start ≤ j
    → j < next_bit bit bm max_n start
    → start ≤ max_n
    → (next_bit bit bm max_n start ≤ max_n) × (eqb_bool (is_set bm j) bit ≡ false)
unfolding next_bit
next_bit-skips bit bm max_n start j h k b = elim (Bool-cases (ltb start max_n)) [
  | inr e ↦ absurd (ground arith)
  | inl e ↦
      let top = (next_from-le bit bm start (max_n - start)).1 in
      (ground arith, next_from-skips bit bm start (max_n - start) j h (ground arith))
]

-- A place before `max_n` that `next_bit` gives holds the bit asked for.
pub next_bit-hit :
    (bit : Bool) (bm : Bytes) (max_n start : ℕ)
    → next_bit bit bm max_n start < max_n
    → eqb_bool (is_set bm (next_bit bit bm max_n start)) bit ≡ true
unfolding next_bit
next_bit-hit bit bm max_n start h = elim (Bool-cases (ltb start max_n)) [
  | inr e ↦ absurd (ground arith)
  | inl e ↦ rw (next_bit, e) (next_from-hit bit bm start (max_n - start) (ground arith))
]
