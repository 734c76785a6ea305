-- ===== src/Lock/Manager/System.antt =====
-- Any number of transactions that call the functions of
-- src/transaction/concurrency/lock_manager.cpp in any order; the latch serialises the calls.
use dbgenerality_rucbase.Base.{
  ℕ, ◌≡◌, ◌≢◌, ◌⊎◌, List, [], ◌∷◌, none, some, if◌then◌else◌, arith, ◌==◌, ℤ,
}
use dbgenerality_rucbase.Lock.Types.{
  Rid, TransactionState, default, growing, LockDataId, LockMode, table_id, record_id,
  LockRequestQueue, Transaction, new_transaction,
}
use dbgenerality_rucbase.Lock.Queue.{
  Decision, decide_shared_on_record, decide_exclusive_on_record, decide_shared_on_table,
  decide_exclusive_on_table, decide_is_on_table, decide_ix_on_table,
}
use dbgenerality_rucbase.Lock.Queue.Inv.{QueueInv}
use dbgenerality_rucbase.Lock.Queue.Safety.{
  Keeps, shared_on_record-Keeps, exclusive_on_record-Keeps, shared_on_table-Keeps,
  exclusive_on_table-Keeps, is_on_table-Keeps, ix_on_table-Keeps,
}
use dbgenerality_rucbase.Lock.Queue.Effects.{
  Local, shared_on_record-Local, exclusive_on_record-Local, shared_on_table-Local,
  exclusive_on_table-Local, is_on_table-Local, ix_on_table-Local,
}
use dbgenerality_rucbase.Lock.Manager.{
  LockTable, LockResult, lock_with, unlock, shrunk, lock_shared_on_record, lock_exclusive_on_record,
  lock_shared_on_table, lock_exclusive_on_table, lock_is_on_table, lock_ix_on_table,
}
use dbgenerality_rucbase.Lock.Manager.Table.{TableInv, mode_at}
use dbgenerality_rucbase.Lock.Manager.Frame.{
  Tracks, lock_with-TableInv, lock_with-others, lock_with-Tracks, lock_with-Phase, lock_with-closed,
}
use dbgenerality_rucbase.Lock.Manager.Unlock.{
  unlock-TableInv, unlock-held, unlock-others, unlock-Tracks, unlock-txn,
}

pub data Call : Type 0 where
  shared_on_record exclusive_on_record : Rid → ℤ → Call
  shared_on_table exclusive_on_table is_on_table ix_on_table : ℤ → Call
  release_lock : LockDataId → Call

unfoldable pub perform : Call → Transaction → LockTable → LockResult
unfolding lock_shared_on_record lock_exclusive_on_record lock_shared_on_table
    lock_exclusive_on_table lock_is_on_table lock_ix_on_table unlock
perform (shared_on_record rid fd) txn tbl = lock_shared_on_record txn rid fd tbl
perform (exclusive_on_record rid fd) txn tbl = lock_exclusive_on_record txn rid fd tbl
perform (shared_on_table fd) txn tbl = lock_shared_on_table txn fd tbl
perform (exclusive_on_table fd) txn tbl = lock_exclusive_on_table txn fd tbl
perform (is_on_table fd) txn tbl = lock_is_on_table txn fd tbl
perform (ix_on_table fd) txn tbl = lock_ix_on_table txn fd tbl
perform (release_lock id) txn tbl = unlock txn id tbl

-- A decision that keeps the invariant and changes the caller's request only.
record Behaves (decide : ℕ → LockRequestQueue → Decision) : Type 0 where
  keeps : (t : ℕ) (q : LockRequestQueue) → QueueInv q → Keeps (decide t q)
  local : (t : ℕ) (q : LockRequestQueue) → Local t q (decide t q)

-- A property of every function holds if it holds of the frame and of `unlock`.
perform_ind :
    (P : (Transaction → LockTable → LockResult) → Type 0)
    → ((decide : ℕ → LockRequestQueue → Decision) (id : LockDataId)
        → Behaves decide
        → P (λ txn tbl. lock_with decide txn id tbl))
    → ((id : LockDataId) → P (λ txn tbl. unlock txn id tbl))
    → (c : Call) → P (perform c)
unfolding perform lock_shared_on_record lock_exclusive_on_record lock_shared_on_table
    lock_exclusive_on_table lock_is_on_table lock_ix_on_table
perform_ind P locks unlocks (shared_on_record rid fd) =
    locks decide_shared_on_record (record_id fd rid)
      (record { keeps = shared_on_record-Keeps; local = shared_on_record-Local })
perform_ind P locks unlocks (exclusive_on_record rid fd) =
    locks decide_exclusive_on_record (record_id fd rid)
      (record { keeps = exclusive_on_record-Keeps; local = exclusive_on_record-Local })
perform_ind P locks unlocks (shared_on_table fd) =
    locks decide_shared_on_table (table_id fd)
      (record { keeps = shared_on_table-Keeps; local = shared_on_table-Local })
perform_ind P locks unlocks (exclusive_on_table fd) =
    locks decide_exclusive_on_table (table_id fd)
      (record { keeps = exclusive_on_table-Keeps; local = exclusive_on_table-Local })
perform_ind P locks unlocks (is_on_table fd) =
    locks decide_is_on_table (table_id fd)
      (record { keeps = is_on_table-Keeps; local = is_on_table-Local })
perform_ind P locks unlocks (ix_on_table fd) =
    locks decide_ix_on_table (table_id fd)
      (record { keeps = ix_on_table-Keeps; local = ix_on_table-Local })
perform_ind P locks unlocks (release_lock id) = unlocks id

pub perform-TableInv :
    (c : Call) (txn : Transaction) (tbl : LockTable)
    → TableInv tbl
    → TableInv (perform c txn tbl).lock_table
perform-TableInv =
    perform_ind
      (λ f. (txn : Transaction) (tbl : LockTable) → TableInv tbl → TableInv (f txn tbl).lock_table)
      (λ decide id b. lock_with-TableInv decide id b.keeps) (λ id txn. unlock-TableInv txn id)

-- Where the lock table is in its invariant, a call of one transaction, be it to lock or to unlock,
-- leaves every lock of every other transaction as it was.
pub perform-others :
    (c : Call) (txn : Transaction) (tbl : LockTable)
    → TableInv tbl
    → (u : ℕ) (j : LockDataId) → u ≢ txn.txn_id
    → mode_at u j (perform c txn tbl).lock_table ≡ mode_at u j tbl
perform-others =
    perform_ind
      (λ f.
        (txn : Transaction) (tbl : LockTable)
        → TableInv tbl
        → (u : ℕ) (j : LockDataId) → u ≢ txn.txn_id
        → mode_at u j (f txn tbl).lock_table ≡ mode_at u j tbl)
      (λ decide id b txn tbl v. lock_with-others decide id b.local txn tbl)
      (λ id txn. unlock-others txn id)

pub perform-Tracks :
    (c : Call) (txn : Transaction) (tbl : LockTable)
    → TableInv tbl
    → Tracks txn tbl
    → (let r = perform c txn tbl in Tracks r.txn r.lock_table)
perform-Tracks =
    perform_ind
      (λ f.
        (txn : Transaction) (tbl : LockTable)
        → TableInv tbl
        → Tracks txn tbl
        → (let r = f txn tbl in Tracks r.txn r.lock_table))
      (λ decide id b txn tbl v. lock_with-Tracks decide id b.local txn tbl)
      (λ id txn. unlock-Tracks txn id)

pub perform-id :
    (c : Call) (txn : Transaction) (tbl : LockTable) → (perform c txn tbl).txn.txn_id ≡ txn.txn_id
perform-id =
    perform_ind (λ f. (txn : Transaction) (tbl : LockTable) → (f txn tbl).txn.txn_id ≡ txn.txn_id)
      (λ decide id b txn tbl. (lock_with-Phase decide id txn tbl).0)
      (λ id txn tbl. (unlock-txn txn id tbl).0)

-- The shrinking phase, or the end, of a transaction.
abbrev pub IsClosed : TransactionState → Type 0
IsClosed s = (s ≢ default) × (s ≢ growing)

-- In the shrinking phase a call leaves the caller there and takes no lock.
pub perform-IsClosed :
    (c : Call) (txn : Transaction) (tbl : LockTable)
    → TableInv tbl
    → IsClosed txn.state
    → IsClosed (perform c txn tbl).txn.state
      × ((j : LockDataId) (m : LockMode)
          → mode_at txn.txn_id j (perform c txn tbl).lock_table ≡ some m
          → mode_at txn.txn_id j tbl ≡ some m)
perform-IsClosed =
    perform_ind
      (λ f.
        (txn : Transaction) (tbl : LockTable)
        → TableInv tbl
        → IsClosed txn.state
        → IsClosed (f txn tbl).txn.state
          × ((j : LockDataId) (m : LockMode)
              → mode_at txn.txn_id j (f txn tbl).lock_table ≡ some m
              → mode_at txn.txn_id j tbl ≡ some m))
      (λ decide id b txn tbl v k. (
        closed_lock _ _ k (lock_with-Phase decide id txn tbl).1,
        λ j m. rw (lock_with-closed decide id txn tbl k.0 k.1) (λ h. h),
      ))
      (λ id txn tbl v k. (
        closed_unlock _ _ k (unlock-txn txn id tbl).1,
        λ j m. unlock-held txn id tbl v txn.txn_id j m,
      ))
  where
    closed_lock :
        (s r : TransactionState)
        → IsClosed s
        → (r ≡ s) ⊎ ((s ≡ default) × (r ≡ growing))
        → IsClosed r
    closed_lock s r k h = ground arith

    closed_unlock : (s r : TransactionState) → IsClosed s → r ≡ shrunk s → IsClosed r
    closed_unlock s r k h = ground arith

-- The transactions by id, and the lock table.
pub record System : Type 0 where
  pub txns : ℕ → Transaction
  pub lock_table : LockTable

abbrev write_txn : ℕ → Transaction → (ℕ → Transaction) → ℕ → Transaction
write_txn t txn f u = if t == u then txn else f u

unfoldable pub step : System → ℕ × Call → System
unfolding perform
step s (t, c) =
    let r = perform c (s.txns t) s.lock_table in
    record { txns = write_txn t r.txn s.txns; lock_table = r.lock_table }

unfoldable pub run : System → List (ℕ × Call) → System
unfolding step
run s [] = s
run s (c ∷ cs) = run (step s c) cs

abbrev pub start : System
start = record { txns = new_transaction; lock_table = λ id. none }

pub record SysInv (s : System) : Type 0 where
  pub table : TableInv s.lock_table
  pub ids : (t : ℕ) → (s.txns t).txn_id ≡ t
  pub tracks : (t : ℕ) → Tracks (s.txns t) s.lock_table
