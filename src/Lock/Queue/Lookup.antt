-- ===== src/Lock/Queue/Lookup.antt =====
-- The request queue as a map from transactions to modes: how `mode_of` reads a queue after each
-- change of src/transaction/concurrency/lock_manager.cpp, and how many requests satisfy a test.
use dbgenerality_rucbase.Base.{
  ℕ, ◌+◌, ◌≤◌, ◌≡◌, refl, ◌≢◌, Bool, true, false, List, [], ◌∷◌, none, some, arith, length,
}
use dbgenerality_rucbase.Lock.Types.{LockMode, LockRequest}
use dbgenerality_rucbase.Lock.Queue.{mode_of, set_mode, erase_request, push_request}

-- No transaction has two requests in the queue.
abbrev pub Distinct : List LockRequest → Type 0
Distinct [] = Unit {0}
Distinct (r ∷ rs) = (mode_of r.txn_id rs ≡ none) × Distinct rs

abbrev pub bit : Bool → ℕ
bit true = 1
bit false = 0

-- How many requests have a mode that passes the test.
abbrev pub count : (LockMode → Bool) → List LockRequest → ℕ
count p [] = 0
count p (r ∷ rs) = bit (p r.lock_mode) + count p rs

pub mode_of-set_mode_self :
    (t : ℕ) (m n : LockMode) (rs : List LockRequest)
    → mode_of t rs ≡ some n
    → mode_of t (set_mode t m rs) ≡ some m
unfolding mode_of set_mode
mode_of-set_mode_self t m n [] h = ground arith
mode_of-set_mode_self t m n (r ∷ rs) h = ground (arith, mode_of-set_mode_self t m n rs)

pub mode_of-set_mode_ne :
    (t u : ℕ) (m : LockMode) (rs : List LockRequest)
    → u ≢ t
    → mode_of u (set_mode t m rs) ≡ mode_of u rs
unfolding mode_of set_mode
mode_of-set_mode_ne t u m [] h = refl
mode_of-set_mode_ne t u m (r ∷ rs) h = ground (arith, mode_of-set_mode_ne t u m rs)

pub mode_of-push_self :
    (t : ℕ) (m : LockMode) (rs : List LockRequest)
    → mode_of t rs ≡ none
    → mode_of t (push_request t m rs) ≡ some m
unfolding mode_of
mode_of-push_self t m [] h = ground arith
mode_of-push_self t m (r ∷ rs) h = ground (arith, mode_of-push_self t m rs)

pub mode_of-push_ne :
    (t u : ℕ) (m : LockMode) (rs : List LockRequest)
    → u ≢ t
    → mode_of u (push_request t m rs) ≡ mode_of u rs
unfolding mode_of
mode_of-push_ne t u m [] h = ground arith
mode_of-push_ne t u m (r ∷ rs) h = ground (arith, mode_of-push_ne t u m rs)

pub mode_of-erase_self :
    (t : ℕ) (rs : List LockRequest) → Distinct rs → mode_of t (erase_request t rs) ≡ none
unfolding mode_of erase_request
mode_of-erase_self t [] d = refl
mode_of-erase_self t (r ∷ rs) d = ground (arith, mode_of-erase_self t rs d.1)

pub mode_of-erase_ne :
    (t u : ℕ) (rs : List LockRequest) → u ≢ t → mode_of u (erase_request t rs) ≡ mode_of u rs
unfolding mode_of erase_request
mode_of-erase_ne t u [] h = refl
mode_of-erase_ne t u (r ∷ rs) h = ground (arith, mode_of-erase_ne t u rs)

pub Distinct-set_mode :
    (t : ℕ) (m : LockMode) (rs : List LockRequest) → Distinct rs → Distinct (set_mode t m rs)
unfolding set_mode
Distinct-set_mode t m [] d = tt
Distinct-set_mode t m (r ∷ rs) d =
    ground (arith, Distinct-set_mode t m rs d.1, mode_of-set_mode_ne t r.txn_id m rs)

pub Distinct-push :
    (t : ℕ) (m : LockMode) (rs : List LockRequest)
    → mode_of t rs ≡ none
    → Distinct rs
    → Distinct (push_request t m rs)
unfolding mode_of
Distinct-push t m [] h d = (refl, tt)
Distinct-push t m (r ∷ rs) h d =
    ground (arith, Distinct-push t m rs, mode_of-push_ne t r.txn_id m rs)

pub Distinct-erase : (t : ℕ) (rs : List LockRequest) → Distinct rs → Distinct (erase_request t rs)
unfolding erase_request
Distinct-erase t [] d = tt
Distinct-erase t (r ∷ rs) d =
    ground (arith, Distinct-erase t rs d.1, mode_of-erase_ne t r.txn_id rs)

module _ (p : LockMode → Bool) where
  pub count-set_mode :
      (t : ℕ) (m n : LockMode) (rs : List LockRequest)
      → mode_of t rs ≡ some n
      → count p (set_mode t m rs) + bit (p n) ≡ count p rs + bit (p m)
  unfolding mode_of set_mode
  count-set_mode t m n [] h = ground arith
  count-set_mode t m n (r ∷ rs) h = ground (arith, count-set_mode t m n rs)

  pub count-push :
      (t : ℕ) (m : LockMode) (rs : List LockRequest)
      → count p (push_request t m rs) ≡ count p rs + bit (p m)
  count-push t m [] = omega arith
  count-push t m (r ∷ rs) = omega (arith, count-push t m rs)

  pub count-erase :
      (t : ℕ) (n : LockMode) (rs : List LockRequest)
      → mode_of t rs ≡ some n
      → count p (erase_request t rs) + bit (p n) ≡ count p rs
  unfolding mode_of erase_request
  count-erase t n [] h = ground arith
  count-erase t n (r ∷ rs) h = ground (arith, count-erase t n rs)

  pub bit-le-count :
      (t : ℕ) (m : LockMode) (rs : List LockRequest)
      → mode_of t rs ≡ some m
      → bit (p m) ≤ count p rs
  unfolding mode_of
  bit-le-count t m [] h = ground arith
  bit-le-count t m (r ∷ rs) h = ground (arith, bit-le-count t m rs)

  -- Two transactions count as two.
  pub bit-add-le-count :
      (t u : ℕ) (m n : LockMode) (rs : List LockRequest)
      → t ≢ u
      → mode_of t rs ≡ some m
      → mode_of u rs ≡ some n
      → bit (p m) + bit (p n) ≤ count p rs
  unfolding mode_of
  bit-add-le-count t u m n [] h e f = ground arith
  bit-add-le-count t u m n (r ∷ rs) h e f =
      ground (arith, bit-add-le-count t u m n rs, bit-le-count t m rs, bit-le-count u n rs)

pub count-true : (rs : List LockRequest) → count (λ _. true) rs ≡ length rs
count-true [] = refl
count-true (r ∷ rs) = omega (arith, count-true rs)

-- A queue of one request is one transaction's.
pub single_holder :
    (t u : ℕ) (m n : LockMode) (rs : List LockRequest)
    → length rs ≡ 1
    → mode_of t rs ≡ some m
    → mode_of u rs ≡ some n
    → ¬ (t ≢ u)
single_holder t u m n rs one e f h =
    absurd (omega (arith, count-true rs, bit-add-le-count (λ _. true) t u m n rs h e f))
