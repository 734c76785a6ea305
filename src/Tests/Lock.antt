-- ===== src/Tests/Lock.antt =====
-- Runs of src/transaction/concurrency/lock_manager.cpp.
use dbgenerality_rucbase.Base.{ℕ, ◌≡◌, ◌≢◌, refl, true, [], ◌∷◌, List, some, none, pos, arith}
use dbgenerality_rucbase.Lock.Types.{
  LockDataId, LockRequestQueue, committed, shared, intention_shared, intention_exclusive, table_id,
  empty_queue, new_transaction, LockRequest, group_s, non_lock,
}
use dbgenerality_rucbase.Lock.Queue.{
  mode_of, granted, deny, unlock_queue, decide_ix_on_table, decide_exclusive_on_table,
  decide_shared_on_table, erase_request,
}
use dbgenerality_rucbase.Lock.Queue.Inv.{QueueInv, compatible}
use dbgenerality_rucbase.Lock.Manager.{queue_at}
use dbgenerality_rucbase.Lock.Manager.Table.{mode_at, queue_at-QueueInv}
use dbgenerality_rucbase.Lock.Manager.System.{
  Call, shared_on_table, is_on_table, release_lock, run, start, System, IsClosed, perform,
  perform-others,
}
use dbgenerality_rucbase.Lock.TwoPhase.{run-compatible, run_two_phase, run-SysInv, start-SysInv}
use dbgenerality_rucbase.Lock.Commit.{commit, commit-releases}
use dbgenerality_rucbase.Lock.Grants.{
  HasLock, for_shared, lock_table_for, lock_table_for-HasLock, unlock-refuses_ix, queue_after,
  upgrade-stale_counter,
}

abbrev tab : LockDataId
tab = table_id (pos 5)

-- Transaction 1 takes S on a table and transaction 2 IS.
abbrev two_readers : List (ℕ × Call)
two_readers = (1, shared_on_table (pos 5)) ∷ (2, is_on_table (pos 5)) ∷ []

run-compatible_example : compatible shared intention_shared ≡ true
unfolding run mode_at queue_at mode_of
run-compatible_example =
    run-compatible two_readers tab 1 2 shared intention_shared (λ e. ground arith) refl refl

-- Transaction 1 locks two tables and gives one back, and then asks for it again.
abbrev shrinking_run : System
shrinking_run =
    run start
      ((1, shared_on_table (pos 5)) ∷ (1, shared_on_table (pos 6)) ∷ (1, release_lock tab) ∷ [])

run_two_phase_example :
    (mode_at 1 (table_id (pos 6)) shrinking_run.lock_table ≡ some shared)
    × IsClosed ((run shrinking_run ((1, is_on_table (pos 5)) ∷ [])).txns 1).state
unfolding run mode_at queue_at mode_of unlock_queue
run_two_phase_example =
    run_two_phase ((1, is_on_table (pos 5)) ∷ []) shrinking_run 1 (table_id (pos 6)) shared
      (run-SysInv start
        ((1, shared_on_table (pos 5)) ∷ (1, shared_on_table (pos 6)) ∷ (1, release_lock tab) ∷ [])
        start-SysInv)
      ((λ e. ground arith), (λ e. ground arith)) refl

lock_table_for-HasLock_example :
    HasLock shared tab
      (new_transaction 1)
      (lock_table_for for_shared (new_transaction 1) (pos 5) (λ id. none)).lock_table
unfolding lock_table_for mode_of
lock_table_for-HasLock_example =
    lock_table_for-HasLock for_shared (new_transaction 1) (pos 5) (λ id. none) refl

perform-others_example :
    mode_at 2 tab
      (perform (shared_on_table (pos 5)) (new_transaction 1) start.lock_table).lock_table
    ≡ mode_at 2 tab start.lock_table
perform-others_example =
    perform-others (shared_on_table (pos 5)) (new_transaction 1) start.lock_table
      (start-SysInv).table 2 tab (λ e. ground arith)

-- The queue of the table after the run of the two readers.
abbrev readers : LockRequestQueue
readers = queue_at tab (run start two_readers).lock_table

abbrev readers-QueueInv : QueueInv readers
readers-QueueInv =
    queue_at-QueueInv tab (run start two_readers).lock_table
      (run-SysInv start two_readers start-SysInv).table

unlock-refuses_ix_example :
    ((unlock_queue 1 readers).group_lock_mode ≡ group_s)
    × (decide_ix_on_table 3 (unlock_queue 1 readers) ≡ deny)
    × (compatible intention_exclusive intention_shared ≡ true)
unfolding run queue_at mode_of erase_request
unlock-refuses_ix_example =
    unlock-refuses_ix 1 3 readers
      (record { txn_id = 2; lock_mode = intention_shared; granted = true }) (λ e. ground arith) refl
      refl (λ e. ground arith)

abbrev one_reader : LockRequest
one_reader = record { txn_id = 1; lock_mode = shared; granted = true }

abbrev one_queue : LockRequestQueue
one_queue = record {
  request_queue = one_reader ∷ [];
  group_lock_mode = group_s;
  shared_lock_num = 1;
  ix_lock_num = 0;
}

upgrade-stale_counter_example :
    (let freed = unlock_queue 1 (queue_after one_queue (decide_exclusive_on_table 1 one_queue)) in
      (freed.request_queue ≡ [])
      × (freed.group_lock_mode ≡ non_lock)
      × (freed.shared_lock_num ≡ 1)
      × (decide_shared_on_table 2 freed
          ≡ granted (record freed {
            group_lock_mode = group_s;
            request_queue = record { txn_id = 2; lock_mode = shared; granted = true } ∷ [];
            shared_lock_num = 2;
          }))
      × (decide_ix_on_table 2 (queue_after freed (decide_shared_on_table 2 freed)) ≡ deny)
      × (decide_ix_on_table 2 (queue_after empty_queue (decide_shared_on_table 2 empty_queue))
          ≢ deny))
upgrade-stale_counter_example = upgrade-stale_counter 1 2 one_queue one_reader refl refl refl refl

commit-releases_example :
    (mode_at 1 tab (commit ((run start two_readers).txns 1) (run start two_readers).lock_table).1
      ≡ none)
    × (mode_at 2 tab (commit ((run start two_readers).txns 1) (run start two_readers).lock_table).1
        ≡ mode_at 2 tab (run start two_readers).lock_table)
    × ((commit ((run start two_readers).txns 1) (run start two_readers).lock_table).0.state
        ≡ committed)
    × ((commit ((run start two_readers).txns 1) (run start two_readers).lock_table).0.lock_set ≡ [])
    × ((commit ((run start two_readers).txns 1) (run start two_readers).lock_table).0.write_set
        ≡ [])
unfolding run mode_of
commit-releases_example =
    commit-releases ((run start two_readers).txns 1) (run start two_readers).lock_table 2 tab tab
      (run-SysInv start two_readers start-SysInv).table
      ((run-SysInv start two_readers start-SysInv).tracks 1) refl (λ e. ground arith)
