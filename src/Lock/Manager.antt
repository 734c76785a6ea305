-- ===== src/Lock/Manager.antt =====
-- `LockManager` of src/transaction/concurrency/lock_manager.{h,cpp}: the seven functions over the
-- lock table. The latch makes each of them one step.
pub mod Table
pub mod Frame
pub mod Unlock
pub mod System
use dbgenerality_rucbase.Base.{
  ℕ, ◌≡◌, Bool, true, false, ◌||◌, List, [], ◌∷◌, Option, none, some, if◌then◌else◌, ℤ,
}
use dbgenerality_rucbase.Lock.Types.{
  Rid, TransactionState, default, growing, shrinking, committed, aborted, AbortReason,
  lock_on_shirinking, deadlock_prevention, LockDataId, table_id, record_id, eqb_id,
  LockRequestQueue, empty_queue, Transaction,
}
use dbgenerality_rucbase.Lock.Queue.{
  Decision, held, granted, deny, decide_shared_on_record, decide_exclusive_on_record,
  decide_shared_on_table, decide_exclusive_on_table, decide_is_on_table, decide_ix_on_table,
  unlock_queue,
}

-- `std::unordered_map<LockDataId, LockRequestQueue> lock_table_`
abbrev pub LockTable : Type 0
LockTable = LockDataId → Option LockRequestQueue

-- How a call ends: it returns a Boolean, or throws `TransactionAbortException`.
pub data Outcome : Type 0 where
  returned : Bool → Outcome
  thrown : AbortReason → Outcome

pub record LockResult : Type 0 where
  pub txn : Transaction
  pub lock_table : LockTable
  pub outcome : Outcome

pub data Check : Type 0 where
  refused : Check
  raised : AbortReason → Check
  passed : Transaction → Check

-- `check_lock`
unfoldable pub check_lock : Transaction → Check
check_lock txn = elim txn.state [
  | committed ↦ refused
  | aborted ↦ refused
  | shrinking ↦ raised lock_on_shirinking
  | default ↦ passed (record txn { state = growing })
  | growing ↦ passed txn
]

-- `lock_set_->emplace(id)` on an `unordered_set`
unfoldable pub contains : LockDataId → List LockDataId → Bool
contains id [] = false
contains id (j ∷ js) = if eqb_id j id then true else contains id js

unfoldable pub emplace : LockDataId → List LockDataId → List LockDataId
unfolding contains
emplace id ids = if contains id ids then ids else id ∷ ids

-- `lock_table_.at(id)` after `emplace` of an empty queue where there is none
unfoldable pub queue_at : LockDataId → LockTable → LockRequestQueue
queue_at id tbl = elim (tbl id) [ none ↦ empty_queue | some q ↦ q ]

-- The table with the queue of the id written.
unfoldable pub store : LockDataId → LockRequestQueue → LockTable → LockTable
unfolding eqb_id
store id q tbl j = if eqb_id id j then some q else tbl j

-- The end of a lock function, by the decision on the queue.
unfoldable pub conclude : Transaction → LockDataId → LockTable → Decision → LockResult
unfolding store emplace
conclude txn id tbl (held q) = record {
  txn = txn;
  lock_table = store id q tbl;
  outcome = returned true;
}
conclude txn id tbl (granted q) = record {
  txn = record txn { lock_set = emplace id txn.lock_set };
  lock_table = store id q tbl;
  outcome = returned true;
}
conclude txn id tbl deny = record {
  txn = txn;
  lock_table = tbl;
  outcome = thrown deadlock_prevention;
}

-- The rest of a lock function after `check_lock`: the queue of the id (created where it is
-- missing), and the decision on it.
unfoldable pub proceed :
    (ℕ → LockRequestQueue → Decision) → Transaction → LockDataId → LockTable → Check → LockResult
unfolding queue_at store conclude
proceed decide txn id tbl refused = record { txn = txn; lock_table = tbl; outcome = returned false }
proceed decide txn id tbl (raised r) = record { txn = txn; lock_table = tbl; outcome = thrown r }
proceed decide txn id tbl (passed txn') =
    let q = queue_at id tbl in conclude txn' id (store id q tbl) (decide txn'.txn_id q)

-- The frame that the six lock functions share.
unfoldable pub lock_with :
    (ℕ → LockRequestQueue → Decision) → Transaction → LockDataId → LockTable → LockResult
unfolding check_lock proceed
lock_with decide txn id tbl = proceed decide txn id tbl (check_lock txn)

unfoldable pub lock_shared_on_record : Transaction → Rid → ℤ → LockTable → LockResult
unfolding lock_with decide_shared_on_record
lock_shared_on_record txn rid fd = lock_with decide_shared_on_record txn (record_id fd rid)

unfoldable pub lock_exclusive_on_record : Transaction → Rid → ℤ → LockTable → LockResult
unfolding lock_with decide_exclusive_on_record
lock_exclusive_on_record txn rid fd = lock_with decide_exclusive_on_record txn (record_id fd rid)

unfoldable pub lock_shared_on_table : Transaction → ℤ → LockTable → LockResult
unfolding lock_with decide_shared_on_table
lock_shared_on_table txn fd = lock_with decide_shared_on_table txn (table_id fd)

unfoldable pub lock_exclusive_on_table : Transaction → ℤ → LockTable → LockResult
unfolding lock_with decide_exclusive_on_table
lock_exclusive_on_table txn fd = lock_with decide_exclusive_on_table txn (table_id fd)

unfoldable pub lock_is_on_table : Transaction → ℤ → LockTable → LockResult
unfolding lock_with decide_is_on_table
lock_is_on_table txn fd = lock_with decide_is_on_table txn (table_id fd)

unfoldable pub lock_ix_on_table : Transaction → ℤ → LockTable → LockResult
unfolding lock_with decide_ix_on_table
lock_ix_on_table txn fd = lock_with decide_ix_on_table txn (table_id fd)

-- The table after `unlock`: nothing changes where the id has no queue.
unfoldable pub release : ℕ → LockDataId → LockTable → LockTable
unfolding store
release t id tbl = elim (tbl id) [ none ↦ tbl | some q ↦ store id (unlock_queue t q) tbl ]

-- `state == COMMITTED || state == ABORTED`
abbrev pub is_ended : TransactionState → Bool
is_ended committed = true
is_ended aborted = true
is_ended _ = false

-- The step from the growing to the shrinking phase.
abbrev pub shrunk : TransactionState → TransactionState
shrunk growing = shrinking
shrunk s = s

-- `unlock`
unfoldable pub unlock : Transaction → LockDataId → LockTable → LockResult
unfolding release
unlock txn id tbl =
    if is_ended txn.state
    then record { txn = txn; lock_table = tbl; outcome = returned false }
    else record {
      txn = record txn { state = shrunk txn.state };
      lock_table = release txn.txn_id id tbl;
      outcome = returned true;
    }
