-- ===== src/Lock/Queue/Secures.antt =====
-- A lock function of src/transaction/concurrency/lock_manager.cpp that succeeds leaves its caller
-- with a mode at least as strong as the one asked for.
use dbgenerality_rucbase.Base.{
  ℕ, ◌≡◌, refl, Bool, true, false, ◌||◌, ◌&&◌, none, some, arith, ◌==◌, length,
}
use dbgenerality_rucbase.Lock.Types.{
  LockMode, shared, exlucsive, intention_shared, intention_exclusive, s_ix, non_lock, group_is,
  group_ix, group_s, group_x, group_six, LockRequestQueue,
}
use dbgenerality_rucbase.Lock.Queue.{
  mode_of, set_mode, push_request, eqb_mode, eqb_group, Decision, held, granted, deny,
  decide_shared_on_record, decide_exclusive_on_record, decide_shared_on_table,
  decide_exclusive_on_table, decide_is_on_table, decide_ix_on_table,
}
use dbgenerality_rucbase.Lock.Queue.Lookup.{mode_of-set_mode_self, mode_of-push_self}
use dbgenerality_rucbase.Lock.Queue.Safety.{split_if, split_mode}

-- The order of strength of the modes: what one mode allows, the other allows too.
abbrev pub dominates : LockMode → LockMode → Bool
dominates exlucsive _ = true
dominates s_ix exlucsive = false
dominates s_ix _ = true
dominates shared shared = true
dominates shared intention_shared = true
dominates intention_exclusive intention_exclusive = true
dominates intention_exclusive intention_shared = true
dominates intention_shared intention_shared = true
dominates _ _ = false

module _ (t : ℕ) where
  -- A successful request leaves the caller with at least the mode that it asked for.
  abbrev pub Secures : LockMode → Decision → Type 0
  Secures w (held q') =
      (m : LockMode) × (mode_of t q'.request_queue ≡ some m) × (dominates m w ≡ true)
  Secures w (granted q') =
      (m : LockMode) × (mode_of t q'.request_queue ≡ some m) × (dominates m w ≡ true)
  Secures w deny = Unit

  -- The queue of a record holds shared and exclusive requests only.
  abbrev pub IsRecordQueue : LockRequestQueue → Type 0
  IsRecordQueue q =
      (u : ℕ) (m : LockMode) → mode_of u q.request_queue ≡ some m → dominates m shared ≡ true

module _ (t : ℕ) (q : LockRequestQueue) where
  open q use {request_queue as rs, group_lock_mode as g, shared_lock_num as sn, ix_lock_num as xn}

  got : (m : LockMode) → mode_of t rs ≡ none → mode_of t (push_request t m rs) ≡ some m
  got m e = mode_of-push_self t m rs e

  now : (m n : LockMode) → mode_of t rs ≡ some n → mode_of t (set_mode t m rs) ≡ some m
  now m n e = mode_of-set_mode_self t m n rs e

  pub shared_on_record-Secures : IsRecordQueue t q → Secures t shared (decide_shared_on_record t q)
  unfolding decide_shared_on_record
  shared_on_record-Secures recs =
      split_mode (Secures t shared) (mode_of t rs) (λ m e. (m, e, recs t m e))
        λ e.
          split_if (Secures t shared)
            (eqb_group g group_x || eqb_group g group_ix || eqb_group g group_six) (λ _. tt)
            (λ _. (shared, got shared e, refl))

  pub exclusive_on_record-Secures : Secures t exlucsive (decide_exclusive_on_record t q)
  unfolding decide_exclusive_on_record
  exclusive_on_record-Secures =
      split_mode (Secures t exlucsive) (mode_of t rs)
        (λ m e.
          split_if (Secures t exlucsive) (eqb_mode m exlucsive) (λ x. (m, e, ground arith))
            λ _.
              split_if (Secures t exlucsive) (eqb_mode m shared && length rs == 1)
                (λ _. (exlucsive, now exlucsive m e, refl)) (λ _. tt))
        λ e.
          split_if (Secures t exlucsive) (eqb_group g non_lock)
            (λ _. (exlucsive, got exlucsive e, refl)) (λ _. tt)

  pub exclusive_on_table-Secures : Secures t exlucsive (decide_exclusive_on_table t q)
  unfolding decide_exclusive_on_table
  exclusive_on_table-Secures =
      split_mode (Secures t exlucsive) (mode_of t rs)
        (λ m e.
          split_if (Secures t exlucsive) (eqb_mode m exlucsive) (λ x. (m, e, ground arith))
            λ _.
              split_if (Secures t exlucsive) (length rs == 1)
                (λ _. (exlucsive, now exlucsive m e, refl)) (λ _. tt))
        λ e.
          split_if (Secures t exlucsive) (eqb_group g non_lock)
            (λ _. (exlucsive, got exlucsive e, refl)) (λ _. tt)

  pub shared_on_table-Secures : Secures t shared (decide_shared_on_table t q)
  unfolding decide_shared_on_table
  shared_on_table-Secures =
      split_mode (Secures t shared) (mode_of t rs)
        (λ m e.
          split_if (Secures t shared) (eqb_mode m shared || eqb_mode m exlucsive || eqb_mode m s_ix)
            (λ x. (m, e, ground arith))
            λ _.
              split_if (Secures t shared)
                (eqb_mode m intention_shared && (eqb_group g group_s || eqb_group g group_is))
                (λ _. (shared, now shared m e, refl))
                λ _.
                  split_if (Secures t shared) (eqb_mode m intention_exclusive && xn == 1)
                    (λ _. (s_ix, now s_ix m e, refl)) (λ _. tt))
        λ e.
          split_if (Secures t shared)
            (eqb_group g group_x || eqb_group g group_ix || eqb_group g group_six) (λ _. tt)
            (λ _. (shared, got shared e, refl))

  pub is_on_table-Secures : Secures t intention_shared (decide_is_on_table t q)
  unfolding decide_is_on_table
  is_on_table-Secures =
      split_mode (Secures t intention_shared) (mode_of t rs) (λ m e. (m, e, ground arith))
        λ e.
          split_if (Secures t intention_shared) (eqb_group g group_x) (λ _. tt)
            (λ _. (intention_shared, got intention_shared e, refl))

  pub ix_on_table-Secures : Secures t intention_exclusive (decide_ix_on_table t q)
  unfolding decide_ix_on_table
  ix_on_table-Secures =
      split_mode (Secures t intention_exclusive) (mode_of t rs)
        (λ m e.
          split_if (Secures t intention_exclusive)
            (eqb_mode m intention_exclusive || eqb_mode m s_ix || eqb_mode m exlucsive)
            (λ x. (m, e, ground arith))
            λ _.
              split_if (Secures t intention_exclusive) (eqb_mode m shared && sn == 1)
                (λ _. (s_ix, now s_ix m e, refl))
                λ _.
                  split_if (Secures t intention_exclusive)
                    (eqb_mode m intention_shared && (eqb_group g group_is || eqb_group g group_ix))
                    (λ _. (intention_exclusive, now intention_exclusive m e, refl)) (λ _. tt))
        λ e.
          split_if (Secures t intention_exclusive)
            (eqb_group g group_s || eqb_group g group_six || eqb_group g group_x) (λ _. tt)
            (λ _. (intention_exclusive, got intention_exclusive e, refl))
