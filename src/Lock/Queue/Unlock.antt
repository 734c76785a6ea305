-- ===== src/Lock/Queue/Unlock.antt =====
-- `LockManager::unlock` on a queue: src/transaction/concurrency/lock_manager.cpp.
use dbgenerality_rucbase.Base.{
  ℕ, ◌-◌, ◌≤◌, ◌≡◌, refl, sym, ◌∙◌, ◌≢◌, ◌⊎◌, inl, inr, true, ◌||◌, List, [], ◌∷◌, none, some,
  arith, ℕ_discrete, if◌then◌else◌, Option-cases,
}
use dbgenerality_rucbase.Lock.Types.{
  LockMode, shared, exlucsive, intention_shared, intention_exclusive, s_ix, LockRequest,
  LockRequestQueue,
}
use dbgenerality_rucbase.Lock.Queue.{
  mode_of, erase_request, eqb_mode, mode_rank, max_mode, strongest, group_of, regroup, unlock_queue,
}
use dbgenerality_rucbase.Lock.Queue.Lookup.{
  Distinct, bit, mode_of-erase_self, mode_of-erase_ne, Distinct-erase, count-erase,
}
use dbgenerality_rucbase.Lock.Queue.Inv.{QueueInv, compatible, covers, is_shared, is_ix}

-- The fold reaches every rank that it passes.
strongest-ge-start :
    (a : LockMode) (rs : List LockRequest) → mode_rank a ≤ mode_rank (strongest a rs)
unfolding strongest
strongest-ge-start a [] = omega arith
strongest-ge-start a (r ∷ rs) = ground (arith, strongest-ge-start (max_mode a r.lock_mode) rs)

strongest-ge :
    (u : ℕ) (n a : LockMode) (rs : List LockRequest)
    → mode_of u rs ≡ some n
    → mode_rank n ≤ mode_rank (strongest a rs)
unfolding strongest mode_of
strongest-ge u n a [] e = ground arith
strongest-ge u n a (r ∷ rs) e = ground (
  arith,
  strongest-ge-start (max_mode a r.lock_mode) rs,
  strongest-ge u n (max_mode a r.lock_mode) rs,
)

-- What it ends with is where it began or the mode of a request.
strongest-source :
    (a : LockMode) (rs : List LockRequest)
    → Distinct rs
    → (strongest a rs ≡ a) ⊎ ((u : ℕ) × (mode_of u rs ≡ some (strongest a rs)))
unfolding strongest mode_of
strongest-source a [] d = inl refl
strongest-source a (r ∷ rs) d = elim (strongest-source (max_mode a r.lock_mode) rs d.1) [
  | inr (u, e) ↦ inr (u, ground arith)
  | inl e ↦ elim (max_mode-cases a r.lock_mode) [
    | inl f ↦ inl (e ∙ f)
    | inr f ↦ inr (r.txn_id, ground arith)
  ]
]
  where
    max_mode-cases : (m n : LockMode) → (max_mode m n ≡ m) ⊎ (max_mode m n ≡ n)
    max_mode-cases m n = ground arith

group_of-covers :
    (k n : LockMode)
    → 2 ≤ mode_rank k
    → mode_rank n ≤ mode_rank k
    → n ≢ exlucsive
    → (k ≡ s_ix → (n ≡ s_ix) ⊎ (compatible s_ix n ≡ true))
    → covers (group_of k) n ≡ true
group_of-covers k n a b c d = ground arith

regroup_nonempty :
    (u : ℕ) (n : LockMode) (rs : List LockRequest)
    → mode_of u rs ≡ some n
    → regroup rs ≡ group_of (strongest intention_shared rs)
unfolding mode_of
regroup_nonempty u n [] e = absurd (ground arith)
regroup_nonempty u n (r ∷ rs) e = refl

module _ (t : ℕ) (q : LockRequestQueue) (v : QueueInv q) where
  open q use {request_queue as rs}

  -- A transaction that stays, beside the one that goes.
  stays :
      (m : LockMode)
      → mode_of t rs ≡ some m
      → (u : ℕ) (n : LockMode) → mode_of u (erase_request t rs) ≡ some n
      → (u ≢ t) × (mode_of u rs ≡ some n)
  stays m e u n f = elim (ℕ_discrete u t) [
    | yes p ↦ absurd (ground (arith, mode_of-erase_self t rs v.distinct))
    | no p ↦ (p, sym (mode_of-erase_ne t u rs p) ∙ f)
  ]

  regroup-covers :
      (m : LockMode)
      → mode_of t rs ≡ some m
      → (u : ℕ) (n : LockMode) → mode_of u (erase_request t rs) ≡ some n
      → covers (regroup (erase_request t rs)) n ≡ true
  regroup-covers m e u n f =
      let rest = erase_request t rs in
      let (p, old) = stays m e u n f in
      rw (regroup_nonempty u n rest f) (
        group_of-covers (strongest intention_shared rest) n
          (strongest-ge-start intention_shared rest) (strongest-ge u n intention_shared rest f)
          (λ x. absurd (ground (arith, v.compat u t n m p old e)))
          λ six. elim (strongest-source intention_shared rest (Distinct-erase t rs v.distinct)) [
            | inl start ↦ absurd (ground arith)
            | inr (w, g) ↦ elim (ℕ_discrete w u) [
              | yes same ↦ inl (ground arith)
              | no other ↦
                  let held_six = (stays m e w s_ix (ground arith)).1 in
                  inr (v.compat w u s_ix n other held_six old)
            ]
          ])

  unlock-some-QueueInv :
      (m : LockMode)
      → mode_of t rs ≡ some m
      → QueueInv (record {
        request_queue = erase_request t rs;
        group_lock_mode = regroup (erase_request t rs);
        shared_lock_num =
            if eqb_mode m shared || eqb_mode m s_ix
            then q.shared_lock_num - 1
            else q.shared_lock_num;
        ix_lock_num =
            if eqb_mode m intention_exclusive || eqb_mode m s_ix
            then q.ix_lock_num - 1
            else q.ix_lock_num;
      })
  unlock-some-QueueInv m e = record {
    distinct = Distinct-erase t rs v.distinct;
    compat = λ u w k n h f g. v.compat u w k n h (stays m e u k f).1 (stays m e w n g).1;
    covered = regroup-covers m e;
    idle = λ h. rw h;
    shared_count = ground (arith, count-erase is_shared t m rs e, v.shared_count);
    ix_count = ground (arith, count-erase is_ix t m rs e, v.ix_count);
  }

  -- An unlock by a transaction keeps the invariant of the queue: one request for each transaction,
  -- compatible modes, a group mode that rules out what conflicts, and counters that bound the S and
  -- IX modes held.
  pub unlock_queue-QueueInv : QueueInv (unlock_queue t q)
  unfolding unlock_queue
  unlock_queue-QueueInv = elim (Option-cases (mode_of t rs)) [
    | inl e ↦ rw (e, unlock_queue) v
    | inr (m, e) ↦ rw (e, unlock_queue) (unlock-some-QueueInv m e)
  ]

  -- After it the transaction has no request.
  pub mode_of-unlock_self : mode_of t (unlock_queue t q).request_queue ≡ none
  unfolding unlock_queue
  mode_of-unlock_self = elim (Option-cases (mode_of t rs)) [
    | inl e ↦ rw (e, unlock_queue) e
    | inr (m, e) ↦ rw (e, unlock_queue) (mode_of-erase_self t rs v.distinct)
  ]

  -- In a queue in the invariant, an unlock by one transaction leaves the mode of every other
  -- transaction as it was.
  pub mode_of-unlock_ne :
      (u : ℕ) → u ≢ t → mode_of u (unlock_queue t q).request_queue ≡ mode_of u rs
  unfolding unlock_queue
  mode_of-unlock_ne u h = elim (Option-cases (mode_of t rs)) [
    | inl e ↦ rw (e, unlock_queue)
    | inr (m, e) ↦ rw (e, unlock_queue) (mode_of-erase_ne t u rs h)
  ]

  -- In a queue in the invariant, where the transaction holds a mode, the counters that `unlock`
  -- decrements for that mode are not 0: the subtraction never goes below zero.
  pub unlock-counters :
      (m : LockMode)
      → mode_of t rs ≡ some m
      → (bit (is_shared m) ≤ q.shared_lock_num) × (bit (is_ix m) ≤ q.ix_lock_num)
  unlock-counters m e = ground (
    arith,
    count-erase is_shared t m rs e,
    count-erase is_ix t m rs e,
    v.shared_count,
    v.ix_count,
  )
