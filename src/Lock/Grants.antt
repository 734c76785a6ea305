-- ===== src/Lock/Grants.antt =====
-- What the caller of one function of src/transaction/concurrency/lock_manager.cpp gets, and where
-- the group mode and the counters lead to refusals that the modes held do not call for.
use dbgenerality_rucbase.Base.{ℕ, ◌≡◌, refl, sym, ap, ◌∙◌, ◌≢◌, true, [], ◌∷◌, none, some, arith, ℤ}
use dbgenerality_rucbase.Lock.Types.{
  group_s, non_lock, LockDataId, LockMode, Transaction, shared, exlucsive, intention_shared,
  intention_exclusive, table_id, eqb_id_iff, LockRequest, LockRequestQueue, empty_queue,
}
use dbgenerality_rucbase.Lock.Queue.{
  mode_of, Decision, held, granted, deny, decide_shared_on_table, decide_exclusive_on_table,
  decide_is_on_table, decide_ix_on_table, unlock_queue, set_mode, erase_request, strongest,
}
use dbgenerality_rucbase.Lock.Queue.Inv.{compatible}
use dbgenerality_rucbase.Lock.Queue.Secures.{
  Secures, dominates, shared_on_table-Secures, exclusive_on_table-Secures, is_on_table-Secures,
  ix_on_table-Secures,
}
use dbgenerality_rucbase.Lock.Manager.{
  LockTable, LockResult, returned, Check, refused, raised, passed, queue_at, check_lock, conclude,
  proceed, lock_with, lock_shared_on_table, lock_exclusive_on_table, lock_is_on_table,
  lock_ix_on_table, store,
}
use dbgenerality_rucbase.Lock.Manager.Table.{mode_at, mode_at-store}
use dbgenerality_rucbase.Lock.Manager.Frame.{check_lock-Passed}

-- A transaction has a mode on the id that is at least as strong as `w`.
abbrev pub HasLock : LockMode → LockDataId → Transaction → LockTable → Type 0
HasLock w id txn tbl =
    (m : LockMode) × (mode_at txn.txn_id id tbl ≡ some m) × (dominates m w ≡ true)

module _ (decide : ℕ → LockRequestQueue → Decision) (w : LockMode) (id : LockDataId)
    (secures : (t : ℕ) (q : LockRequestQueue) → Secures t w (decide t q)) where
  stored :
      (t : ℕ) (q : LockRequestQueue) (tbl : LockTable)
      → mode_at t id (store id q tbl) ≡ mode_of t q.request_queue
  stored t q tbl = mode_at-store t id id q tbl ∙ rw ((eqb_id_iff id id).1 refl)

  conclude-HasLock :
      (txn : Transaction) (tbl : LockTable) (d : Decision)
      → Secures txn.txn_id w d
      → (conclude txn id tbl d).outcome ≡ returned true
      → HasLock w id txn (conclude txn id tbl d).lock_table
  unfolding conclude
  conclude-HasLock txn tbl (held q) k e = (k.0, stored txn.txn_id q tbl ∙ k.1, k.2)
  conclude-HasLock txn tbl (granted q) k e = (k.0, stored txn.txn_id q tbl ∙ k.1, k.2)
  conclude-HasLock txn tbl deny k e = absurd (cc e)

  proceed-HasLock :
      (txn : Transaction) (tbl : LockTable) (c : Check)
      → check_lock txn ≡ c
      → (proceed decide txn id tbl c).outcome ≡ returned true
      → HasLock w id txn (proceed decide txn id tbl c).lock_table
  unfolding proceed
  proceed-HasLock txn tbl refused p e = absurd (cc e)
  proceed-HasLock txn tbl (raised r) p e = absurd (cc e)
  proceed-HasLock txn tbl (passed txn') p e =
      let q = queue_at id tbl in
      let same = (check_lock-Passed txn txn' p).0 in
      let k =
        conclude-HasLock txn' (store id q tbl) (decide txn'.txn_id q) (secures txn'.txn_id q) e in
      (
        k.0,
        ap
              (λ (t : ℕ).
                mode_at t id (conclude txn' id (store id q tbl) (decide txn'.txn_id q)).lock_table)
              (sym same)
            ∙ k.1,
        k.2,
      )

  lock_with-HasLock :
      (txn : Transaction) (tbl : LockTable)
      → (lock_with decide txn id tbl).outcome ≡ returned true
      → HasLock w id txn (lock_with decide txn id tbl).lock_table
  unfolding lock_with
  lock_with-HasLock txn tbl = proceed-HasLock txn tbl (check_lock txn) refl

-- The four functions that lock a table, and the mode that each is named for.
pub data TableLock : Type 0 where
  for_shared for_exclusive for_is for_ix : TableLock

abbrev pub mode_wanted : TableLock → LockMode
mode_wanted for_shared = shared
mode_wanted for_exclusive = exlucsive
mode_wanted for_is = intention_shared
mode_wanted for_ix = intention_exclusive

unfoldable pub lock_table_for : TableLock → Transaction → ℤ → LockTable → LockResult
unfolding lock_shared_on_table lock_exclusive_on_table lock_is_on_table lock_ix_on_table
lock_table_for for_shared = lock_shared_on_table
lock_table_for for_exclusive = lock_exclusive_on_table
lock_table_for for_is = lock_is_on_table
lock_table_for for_ix = lock_ix_on_table

-- A function that locks a table and returns true leaves its caller with a lock on that table at
-- least as strong as the mode that the function is named for, be it S, X, IS or IX.
pub lock_table_for-HasLock :
    (k : TableLock) (txn : Transaction) (fd : ℤ) (tbl : LockTable)
    → (lock_table_for k txn fd tbl).outcome ≡ returned true
    → HasLock (mode_wanted k) (table_id fd) txn (lock_table_for k txn fd tbl).lock_table
unfolding lock_table_for
lock_table_for-HasLock for_shared txn fd tbl =
    lock_with-HasLock decide_shared_on_table shared (table_id fd) shared_on_table-Secures txn tbl
lock_table_for-HasLock for_exclusive txn fd tbl =
    lock_with-HasLock decide_exclusive_on_table exlucsive (table_id fd) exclusive_on_table-Secures
      txn tbl
lock_table_for-HasLock for_is txn fd tbl =
    lock_with-HasLock decide_is_on_table intention_shared (table_id fd) is_on_table-Secures txn tbl
lock_table_for-HasLock for_ix txn fd tbl =
    lock_with-HasLock decide_ix_on_table intention_exclusive (table_id fd) ix_on_table-Secures txn
      tbl

-- Where a single IS request is left after an `unlock`, the group mode becomes S: another
-- transaction that then asks for IX on the table is refused, although IX is compatible with IS.
pub unlock-refuses_ix :
    (t u : ℕ) (q : LockRequestQueue) (r : LockRequest)
    → mode_of t q.request_queue ≢ none
    → erase_request t q.request_queue ≡ r ∷ []
    → r.lock_mode ≡ intention_shared
    → r.txn_id ≢ u
    → ((unlock_queue t q).group_lock_mode ≡ group_s)
      × (decide_ix_on_table u (unlock_queue t q) ≡ deny)
      × (compatible intention_exclusive r.lock_mode ≡ true)
unfolding decide_ix_on_table unlock_queue strongest mode_of
unlock-refuses_ix t u q r a b c d = ground arith

-- The queue that a decision leaves.
abbrev pub queue_after : LockRequestQueue → Decision → LockRequestQueue
queue_after q (held q') = q'
queue_after q (granted q') = q'
queue_after q deny = q

-- The only holder of S goes up to X and unlocks: the queue is empty and its group mode is that of
-- no lock, but the counter of shared locks still counts the lost S. So the next transaction that
-- takes S is given it and counted as the second, and cannot go on to IX, which after S on a queue
-- that was never used is given.
pub upgrade-stale_counter :
    (t u : ℕ) (q : LockRequestQueue) (r : LockRequest)
    → q.request_queue ≡ r ∷ []
    → r.txn_id ≡ t
    → r.lock_mode ≡ shared
    → q.shared_lock_num ≡ 1
    → (let freed = unlock_queue t (queue_after q (decide_exclusive_on_table t q)) in
        (freed.request_queue ≡ [])
        × (freed.group_lock_mode ≡ non_lock)
        × (freed.shared_lock_num ≡ 1)
        × (decide_shared_on_table u freed
            ≡ granted (record freed {
              group_lock_mode = group_s;
              request_queue = record { txn_id = u; lock_mode = shared; granted = true } ∷ [];
              shared_lock_num = 2;
            }))
        × (decide_ix_on_table u (queue_after freed (decide_shared_on_table u freed)) ≡ deny)
        × (decide_ix_on_table u (queue_after empty_queue (decide_shared_on_table u empty_queue))
            ≢ deny))
unfolding decide_ix_on_table unlock_queue strongest mode_of decide_exclusive_on_table
    decide_shared_on_table set_mode erase_request
upgrade-stale_counter t u q r a b c d = ground arith
