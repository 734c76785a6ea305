-- ===== src/Query/Result.antt =====
-- How a function of the query layer ends: with a value, or with one of the exceptions of
-- src/errors.h or a failed assertion.
use dbgenerality_rucbase.Base.{◌≡◌, refl, Bool, true, false}

pub data Error : Type 0 where
  table_not_found column_not_found ambiguous_column incompatible_type : Error
  string_overflow invalid_value_count index_not_found internal_error index_entry_not_found
        invalid_col_length :
      Error
  assertion_failed : Error
  -- a read or a write outside of a buffer
  out_of_bounds : Error
  -- a loop of the model that was given too few rounds
  out_of_fuel : Error

-- A value, or the exception that was thrown on the way.
pub data Result {ℓ} (T : Type ℓ) : Type ℓ where
  throws : Error → Result T
  ok : T → Result T

module _ {ℓ κ} {T : Type ℓ} {V : Type κ} where
  infixl 5 ◌>>=◌
  -- One statement after the other, up to the first that throws.
  abbrev pub ◌>>=◌ : Result T → (T → Result V) → Result V
  throws x >>= next_statement = throws x
  ok v >>= next_statement = next_statement v

module _ {κ} {V : Type κ} where
  infixl 5 ◌>>◌
  abbrev pub ◌>>◌ : Result (Unit {0}) → Result V → Result V
  throws x >> rest = throws x
  ok done >> rest = rest

-- `if (!condition) throw x;`
abbrev pub require : Bool → Error → Result (Unit {0})
require false x = throws x
require true x = ok tt

-- A chain that ends well ended well at its first step.
pub bind_ok {ℓ κ μ} :
    {A : Type ℓ} {B : Type κ} {C : Type μ} (m : Result A) {f : A → Result B} {b : B}
    → (m >>= f) ≡ ok b
    → ((a : A) → m ≡ ok a → f a ≡ ok b → C)
    → C
bind_ok (ok a) e k = k a refl e
bind_ok (throws x) e k = absurd (cc e)

pub require_ok {ℓ κ} :
    {B : Type ℓ} {C : Type κ} (c : Bool) (x : Error) {m : Result B} {b : B}
    → (require c x >> m) ≡ ok b
    → (c ≡ true → m ≡ ok b → C)
    → C
require_ok true x e k = k refl e
require_ok false x e k = absurd (cc e)
