-- ===== src/Query/Cursor.antt =====
-- `AbstractExecutor` of src/execution/executor_abstract.h: an operator of a plan that gives its
-- records one after the other.
use dbgenerality_rucbase.Base.{ℕ, ◌≡◌, Bool, true, false, List, [], ◌∷◌}
use dbgenerality_rucbase.Query.Result.{Result, ok}

-- The data of a record, as bytes.
abbrev pub Row : Type 0
Row = List ℕ

-- The virtual functions `beginTuple`, `nextTuple`, `is_end` and `Next`, on the operator's state.
pub record Executor (S : Type 0) : Type 0 where
  pub begin_tuple : S → Result S
  pub next_tuple : S → Result S
  pub is_end : S → Bool
  pub fetch : S → Result Row

-- From a state the executor gives just these records, in this order, and then is at its end.
pub data Yields {S : Type 0} (e : Executor S) : S → List Row → Type 0 where
  ended : {s : S} → e.is_end s ≡ true → Yields e s []
  gives :
      {s s' : S} {r : Row} {rs : List Row}
      → e.is_end s ≡ false
      → e.fetch s ≡ ok r
      → e.next_tuple s ≡ ok s'
      → Yields e s' rs
      → Yields e s (r ∷ rs)

-- `beginTuple`, from any state, starts the same list.
abbrev pub Restarts : {S : Type 0} → Executor S → List Row → Type 0
Restarts {S} e rs = (s : S) → (s' : S) × (e.begin_tuple s ≡ ok s') × Yields e s' rs
