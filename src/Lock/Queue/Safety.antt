-- ===== src/Lock/Queue/Safety.antt =====
-- Every decision of src/transaction/concurrency/lock_manager.cpp keeps the invariant of the queue.
use dbgenerality_rucbase.Base.{
  ℕ, ◌+◌, ◌≡◌, refl, Bool, true, false, ◌||◌, ◌&&◌, Option, none, some, arith, if◌then◌else◌,
  length, ◌==◌,
}
use dbgenerality_rucbase.Lock.Types.{
  LockMode, shared, exlucsive, intention_shared, intention_exclusive, s_ix, non_lock, group_is,
  group_ix, group_s, group_x, group_six, LockRequestQueue,
}
use dbgenerality_rucbase.Lock.Queue.{
  mode_of, set_mode, push_request, eqb_mode, eqb_group, Decision, held, granted, deny,
  decide_shared_on_record, decide_exclusive_on_record, decide_shared_on_table,
  decide_exclusive_on_table, decide_is_on_table, decide_ix_on_table,
}
use dbgenerality_rucbase.Lock.Queue.Lookup.{bit-add-le-count, single_holder}
use dbgenerality_rucbase.Lock.Queue.Inv.{
  QueueInv, is_shared, is_ix, upgrade-QueueInv, push-QueueInv,
}

-- Case analysis on the branches of a decision.
module _ (P : Decision → Type 0) where
  pub split_if :
      (b : Bool) {x y : Decision} → (b ≡ true → P x) → (b ≡ false → P y) → P (if b then x else y)
  split_if true p q = p refl
  split_if false p q = q refl

  pub split_mode :
      (o : Option LockMode) {f : LockMode → Decision} {d : Decision}
      → ((m : LockMode) → o ≡ some m → P (f m))
      → (o ≡ none → P d)
      → P (elim o [ some m ↦ f m | none ↦ d ])
  split_mode none p q = q refl
  split_mode (some m) p q = p m refl

-- The queue that a decision leaves satisfies the invariant; a refusal leaves the old one.
abbrev pub Keeps : Decision → Type 0
Keeps (held q) = QueueInv q
Keeps (granted q) = QueueInv q
Keeps deny = Unit

module _ (t : ℕ) (q : LockRequestQueue) (v : QueueInv q) where
  open q use {request_queue as rs, group_lock_mode as g, shared_lock_num as sn, ix_lock_num as xn}

  -- A new shared request: no other mode than IS and S stands in the queue.
  push_shared :
      (eqb_group g group_x || eqb_group g group_ix || eqb_group g group_six) ≡ false
      → mode_of t rs ≡ none
      → QueueInv (record q {
        group_lock_mode = group_s;
        request_queue = push_request t shared rs;
        shared_lock_num = sn + 1;
      })
  push_shared free e =
      push-QueueInv t shared q v group_s _ _ e refl (λ u n h f. ground (arith, v.covered u n f))
        (omega arith) (omega arith)

  push_exclusive :
      eqb_group g non_lock ≡ true
      → mode_of t rs ≡ none
      → QueueInv
          (record q { group_lock_mode = group_x; request_queue = push_request t exlucsive rs })
  push_exclusive free e =
      push-QueueInv t exlucsive q v group_x _ _ e refl (λ u n h f. ground (arith, v.covered u n f))
        (omega arith) (omega arith)

  -- The only transaction of the queue goes up to X.
  upgrade_exclusive :
      (m : LockMode)
      → mode_of t rs ≡ some m
      → length rs ≡ 1
      → QueueInv (record q { request_queue = set_mode t exlucsive rs; group_lock_mode = group_x })
  upgrade_exclusive m e one =
      upgrade-QueueInv t exlucsive q v m group_x _ _ e refl
        (λ u n h f. absurd (single_holder u t n m rs one f e h)) (omega arith) (omega arith)

  pub shared_on_record-Keeps : Keeps (decide_shared_on_record t q)
  unfolding decide_shared_on_record
  shared_on_record-Keeps =
      split_mode Keeps (mode_of t rs) (λ m e. v)
        λ e.
          split_if Keeps (eqb_group g group_x || eqb_group g group_ix || eqb_group g group_six)
            (λ _. tt) (λ free. push_shared free e)

  pub exclusive_on_record-Keeps : Keeps (decide_exclusive_on_record t q)
  unfolding decide_exclusive_on_record
  exclusive_on_record-Keeps =
      split_mode Keeps (mode_of t rs)
        (λ m e.
          split_if Keeps (eqb_mode m exlucsive) (λ _. v)
            λ _.
              split_if Keeps (eqb_mode m shared && length rs == 1)
                (λ one. upgrade_exclusive m e (ground arith)) (λ _. tt))
        λ e. split_if Keeps (eqb_group g non_lock) (λ free. push_exclusive free e) (λ _. tt)

  pub exclusive_on_table-Keeps : Keeps (decide_exclusive_on_table t q)
  unfolding decide_exclusive_on_table
  exclusive_on_table-Keeps =
      split_mode Keeps (mode_of t rs)
        (λ m e.
          split_if Keeps (eqb_mode m exlucsive) (λ _. v)
            λ _.
              split_if Keeps (length rs == 1) (λ one. upgrade_exclusive m e (ground arith))
                (λ _. tt))
        λ e. split_if Keeps (eqb_group g non_lock) (λ free. push_exclusive free e) (λ _. tt)

  pub is_on_table-Keeps : Keeps (decide_is_on_table t q)
  unfolding decide_is_on_table
  is_on_table-Keeps =
      split_mode Keeps (mode_of t rs) (λ m e. v)
        λ e.
          split_if Keeps (eqb_group g group_x) (λ _. tt)
            λ free.
              push-QueueInv t intention_shared q v _ _ _ e (ground arith)
                (λ u n h f. ground (arith, v.covered u n f)) (omega arith) (omega arith)

  -- IS goes up to S beside IS and S.
  upgrade_shared :
      mode_of t rs ≡ some intention_shared
      → (eqb_group g group_s || eqb_group g group_is) ≡ true
      → QueueInv (record q {
        request_queue = set_mode t shared rs;
        group_lock_mode = group_s;
        shared_lock_num = sn + 1;
      })
  upgrade_shared e free =
      upgrade-QueueInv t shared q v intention_shared group_s _ _ e refl
        (λ u n h f. ground (arith, v.covered u n f)) (omega arith) (omega arith)

  -- The only holder of IX goes up to SIX.
  upgrade_six :
      mode_of t rs ≡ some intention_exclusive
      → xn ≡ 1
      → QueueInv (record q {
        request_queue = set_mode t s_ix rs;
        group_lock_mode = group_six;
        shared_lock_num = sn + 1;
      })
  upgrade_six e one =
      upgrade-QueueInv t s_ix q v intention_exclusive group_six _ _ e refl
        (λ u n h f. ground (
          arith,
          v.compat u t n intention_exclusive h f e,
          v.ix_count,
          bit-add-le-count is_ix u t n intention_exclusive rs h f e,
        ))
        (omega arith) (omega arith)

  pub shared_on_table-Keeps : Keeps (decide_shared_on_table t q)
  unfolding decide_shared_on_table
  shared_on_table-Keeps =
      split_mode Keeps (mode_of t rs)
        (λ m e.
          split_if Keeps (eqb_mode m shared || eqb_mode m exlucsive || eqb_mode m s_ix) (λ _. v)
            λ _.
              split_if Keeps
                (eqb_mode m intention_shared && (eqb_group g group_s || eqb_group g group_is))
                (λ free. upgrade_shared (ground arith) (ground arith))
                λ _.
                  split_if Keeps (eqb_mode m intention_exclusive && xn == 1)
                    (λ one. upgrade_six (ground arith) (ground arith)) (λ _. tt))
        λ e.
          split_if Keeps (eqb_group g group_x || eqb_group g group_ix || eqb_group g group_six)
            (λ _. tt) (λ free. push_shared free e)

  -- The only holder of S goes up to SIX.
  upgrade_shared_six :
      mode_of t rs ≡ some shared
      → sn ≡ 1
      → QueueInv (record q {
        ix_lock_num = xn + 1;
        request_queue = set_mode t s_ix rs;
        group_lock_mode = group_six;
      })
  upgrade_shared_six e one =
      upgrade-QueueInv t s_ix q v shared group_six _ _ e refl
        (λ u n h f. ground (
          arith,
          v.compat u t n shared h f e,
          v.shared_count,
          bit-add-le-count is_shared u t n shared rs h f e,
        ))
        (omega arith) (omega arith)

  -- IS goes up to IX beside IS and IX.
  upgrade_ix :
      mode_of t rs ≡ some intention_shared
      → (eqb_group g group_is || eqb_group g group_ix) ≡ true
      → QueueInv (record q {
        ix_lock_num = xn + 1;
        request_queue = set_mode t intention_exclusive rs;
        group_lock_mode = group_ix;
      })
  upgrade_ix e free =
      upgrade-QueueInv t intention_exclusive q v intention_shared group_ix _ _ e refl
        (λ u n h f. ground (arith, v.covered u n f)) (omega arith) (omega arith)

  push_ix :
      (eqb_group g group_s || eqb_group g group_six || eqb_group g group_x) ≡ false
      → mode_of t rs ≡ none
      → QueueInv (record q {
        group_lock_mode = group_ix;
        request_queue = push_request t intention_exclusive rs;
        ix_lock_num = xn + 1;
      })
  push_ix free e =
      push-QueueInv t intention_exclusive q v group_ix _ _ e refl
        (λ u n h f. ground (arith, v.covered u n f)) (omega arith) (omega arith)

  pub ix_on_table-Keeps : Keeps (decide_ix_on_table t q)
  unfolding decide_ix_on_table
  ix_on_table-Keeps =
      split_mode Keeps (mode_of t rs)
        (λ m e.
          split_if Keeps (eqb_mode m intention_exclusive || eqb_mode m s_ix || eqb_mode m exlucsive)
            (λ _. v)
            λ _.
              split_if Keeps (eqb_mode m shared && sn == 1)
                (λ one. upgrade_shared_six (ground arith) (ground arith))
                λ _.
                  split_if Keeps
                    (eqb_mode m intention_shared && (eqb_group g group_is || eqb_group g group_ix))
                    (λ free. upgrade_ix (ground arith) (ground arith)) (λ _. tt))
        λ e.
          split_if Keeps (eqb_group g group_s || eqb_group g group_six || eqb_group g group_x)
            (λ _. tt) (λ free. push_ix free e)
