-- ===== src/Lock/Queue/Effects.antt =====
-- What a decision of src/transaction/concurrency/lock_manager.cpp changes: the caller's request
-- only.
use dbgenerality_rucbase.Base.{ℕ, ◌≡◌, refl, ◌≢◌, ◌||◌, ◌&&◌, some, ◌==◌, length}
use dbgenerality_rucbase.Lock.Types.{
  LockMode, shared, exlucsive, intention_shared, intention_exclusive, s_ix, non_lock, group_is,
  group_ix, group_s, group_x, group_six, LockRequestQueue,
}
use dbgenerality_rucbase.Lock.Queue.{
  mode_of, set_mode, push_request, eqb_mode, eqb_group, Decision, held, granted, deny,
  decide_shared_on_record, decide_exclusive_on_record, decide_shared_on_table,
  decide_exclusive_on_table, decide_is_on_table, decide_ix_on_table,
}
use dbgenerality_rucbase.Lock.Queue.Lookup.{mode_of-set_mode_ne, mode_of-push_ne}
use dbgenerality_rucbase.Lock.Queue.Safety.{split_if, split_mode}

module _ (t : ℕ) (q : LockRequestQueue) where
  abbrev OthersSame : LockRequestQueue → Type 0
  OthersSame q' = (u : ℕ) → u ≢ t → mode_of u q'.request_queue ≡ mode_of u q.request_queue

  abbrev HasRequest : LockRequestQueue → Type 0
  HasRequest q' = (m : LockMode) × (mode_of t q'.request_queue ≡ some m)

  -- The other transactions keep their requests; the caller had one if the queue is `held`.
  abbrev pub Local : Decision → Type 0
  Local (held q') = OthersSame q' × HasRequest q
  Local (granted q') = OthersSame q'
  Local deny = Unit

module _ (t : ℕ) (q : LockRequestQueue) where
  open q use {request_queue as rs, group_lock_mode as g, shared_lock_num as sn, ix_lock_num as xn}

  pushed : (m : LockMode) (u : ℕ) → u ≢ t → mode_of u (push_request t m rs) ≡ mode_of u rs
  pushed m u h = mode_of-push_ne t u m rs h

  upgraded : (m : LockMode) (u : ℕ) → u ≢ t → mode_of u (set_mode t m rs) ≡ mode_of u rs
  upgraded m u h = mode_of-set_mode_ne t u m rs h

  pub shared_on_record-Local : Local t q (decide_shared_on_record t q)
  unfolding decide_shared_on_record
  shared_on_record-Local =
      split_mode (Local t q) (mode_of t rs) (λ m e. (λ u h. refl, (m, e)))
        λ e.
          split_if (Local t q)
            (eqb_group g group_x || eqb_group g group_ix || eqb_group g group_six) (λ _. tt)
            (λ _. pushed shared)

  pub exclusive_on_record-Local : Local t q (decide_exclusive_on_record t q)
  unfolding decide_exclusive_on_record
  exclusive_on_record-Local =
      split_mode (Local t q) (mode_of t rs)
        (λ m e.
          split_if (Local t q) (eqb_mode m exlucsive) (λ _. (λ u h. refl, (m, e)))
            λ _.
              split_if (Local t q) (eqb_mode m shared && length rs == 1)
                (λ _. (upgraded exlucsive, (m, e))) (λ _. tt))
        λ e. split_if (Local t q) (eqb_group g non_lock) (λ _. pushed exlucsive) (λ _. tt)

  pub shared_on_table-Local : Local t q (decide_shared_on_table t q)
  unfolding decide_shared_on_table
  shared_on_table-Local =
      split_mode (Local t q) (mode_of t rs)
        (λ m e.
          split_if (Local t q) (eqb_mode m shared || eqb_mode m exlucsive || eqb_mode m s_ix)
            (λ _. (λ u h. refl, (m, e)))
            λ _.
              split_if (Local t q)
                (eqb_mode m intention_shared && (eqb_group g group_s || eqb_group g group_is))
                (λ _. (upgraded shared, (m, e)))
                λ _.
                  split_if (Local t q) (eqb_mode m intention_exclusive && xn == 1)
                    (λ _. (upgraded s_ix, (m, e))) (λ _. tt))
        λ e.
          split_if (Local t q)
            (eqb_group g group_x || eqb_group g group_ix || eqb_group g group_six) (λ _. tt)
            (λ _. pushed shared)

  pub exclusive_on_table-Local : Local t q (decide_exclusive_on_table t q)
  unfolding decide_exclusive_on_table
  exclusive_on_table-Local =
      split_mode (Local t q) (mode_of t rs)
        (λ m e.
          split_if (Local t q) (eqb_mode m exlucsive) (λ _. (λ u h. refl, (m, e)))
            λ _.
              split_if (Local t q) (length rs == 1) (λ _. (upgraded exlucsive, (m, e))) (λ _. tt))
        λ e. split_if (Local t q) (eqb_group g non_lock) (λ _. pushed exlucsive) (λ _. tt)

  pub is_on_table-Local : Local t q (decide_is_on_table t q)
  unfolding decide_is_on_table
  is_on_table-Local =
      split_mode (Local t q) (mode_of t rs) (λ m e. (λ u h. refl, (m, e)))
        λ e. split_if (Local t q) (eqb_group g group_x) (λ _. tt) (λ _. pushed intention_shared)

  pub ix_on_table-Local : Local t q (decide_ix_on_table t q)
  unfolding decide_ix_on_table
  ix_on_table-Local =
      split_mode (Local t q) (mode_of t rs)
        (λ m e.
          split_if (Local t q)
            (eqb_mode m intention_exclusive || eqb_mode m s_ix || eqb_mode m exlucsive)
            (λ _. (λ u h. refl, (m, e)))
            λ _.
              split_if (Local t q) (eqb_mode m shared && sn == 1) (λ _. (upgraded s_ix, (m, e)))
                λ _.
                  split_if (Local t q)
                    (eqb_mode m intention_shared && (eqb_group g group_is || eqb_group g group_ix))
                    (λ _. (upgraded intention_exclusive, (m, e))) (λ _. tt))
        λ e.
          split_if (Local t q) (eqb_group g group_s || eqb_group g group_six || eqb_group g group_x)
            (λ _. tt) (λ _. pushed intention_exclusive)
