-- ===== src/Lock/TwoPhase.antt =====
-- What the lock manager of src/transaction/concurrency/lock_manager.cpp promises to the
-- transactions: no two hold conflicting locks, and none takes a lock after it has released one.
use dbgenerality_rucbase.Base.{
  ℕ, ◌≡◌, refl, sym, ap, ◌∙◌, ◌≢◌, inl, inr, true, List, [], ◌∷◌, some, if◌then◌else◌, Bool-cases,
  subst, ℕ_discrete, ◌==◌, ==_iff,
}
use dbgenerality_rucbase.Lock.Types.{LockDataId, LockMode, Transaction}
use dbgenerality_rucbase.Lock.Queue.{mode_of}
use dbgenerality_rucbase.Lock.Queue.Inv.{compatible}
use dbgenerality_rucbase.Lock.Manager.{contains, queue_at}
use dbgenerality_rucbase.Lock.Manager.Table.{mode_at, queue_at-QueueInv}
use dbgenerality_rucbase.Lock.Manager.Frame.{Tracks}
use dbgenerality_rucbase.Lock.Manager.System.{
  Call, perform, System, SysInv, step, run, start, IsClosed, perform-TableInv, perform-others,
  perform-Tracks, perform-id, perform-IsClosed,
}

pub start-SysInv : SysInv start
unfolding mode_at queue_at mode_of
start-SysInv = record {
  table = λ id q e. absurd (cc e);
  ids = λ t. refl;
  tracks = λ t j m e. absurd (cc e);
}

-- A call changes the caller and no other transaction.
split_txn :
    (P : Transaction → Type 0) (t u : ℕ) (new old : Transaction)
    → (t ≡ u → P new)
    → (t ≢ u → P old)
    → P (if t == u then new else old)
split_txn P t u new old p q = elim (ℕ_discrete t u) [
  | yes e ↦ subst (λ b. P (if b then new else old)) (sym ((==_iff t u).1 e)) (p e)
  | no h ↦ elim (Bool-cases (t == u)) [ inl e ↦ absurd (h ((==_iff t u).0 e)) | inr e ↦ rw e (q h) ]
]

module _ (s : System) (v : SysInv s) (t : ℕ) (c : Call) where
  others_same :
      (u : ℕ) (j : LockDataId)
      → u ≢ t
      → mode_at u j (step s (t, c)).lock_table ≡ mode_at u j s.lock_table
  unfolding step
  others_same u j h = perform-others c (s.txns t) s.lock_table v.table u j (λ e. h (e ∙ v.ids t))

  step-ids : (u : ℕ) → ((step s (t, c)).txns u).txn_id ≡ u
  unfolding step
  step-ids u =
      split_txn (λ x. x.txn_id ≡ u) t u _ _
        (λ e. perform-id c (s.txns t) s.lock_table ∙ v.ids t ∙ e) (λ _. v.ids u)

  step-Tracks : (u : ℕ) → Tracks ((step s (t, c)).txns u) (step s (t, c)).lock_table
  unfolding step
  step-Tracks u =
      split_txn (λ x. Tracks x (step s (t, c)).lock_table) t u _ _
        (λ e. perform-Tracks c (s.txns t) s.lock_table v.table (v.tracks t))
        (λ h j m e.
          v.tracks u j m (sym (others_same (s.txns u).txn_id j (λ g. h (sym g ∙ v.ids u))) ∙ e))

  pub step-SysInv : SysInv (step s (t, c))
  unfolding step
  step-SysInv = record {
    table = perform-TableInv c (s.txns t) s.lock_table v.table;
    ids = step-ids;
    tracks = step-Tracks;
  }

pub run-SysInv : (s : System) (cs : List (ℕ × Call)) → SysInv s → SysInv (run s cs)
unfolding run
run-SysInv s [] v = v
run-SysInv s ((t, c) ∷ cs) v = run-SysInv (step s (t, c)) cs (step-SysInv s v t c)

-- After any sequence of lock and unlock calls of any transactions, two different transactions hold
-- only compatible modes on the same table or record.
pub run-compatible :
    (cs : List (ℕ × Call)) (id : LockDataId) (t u : ℕ) (m n : LockMode)
    → t ≢ u
    → mode_at t id (run start cs).lock_table ≡ some m
    → mode_at u id (run start cs).lock_table ≡ some n
    → compatible m n ≡ true
unfolding mode_at
run-compatible cs id t u m n h e f =
    let v = run-SysInv start cs start-SysInv in
    (queue_at-QueueInv id (run start cs).lock_table v.table).compat t u m n h e f

-- After any sequence of calls every lock that a transaction holds is in its lock set, so that
-- commit and abort, which go through the lock set, meet all of them.
pub run-Tracks :
    (cs : List (ℕ × Call)) (t : ℕ) (id : LockDataId) (m : LockMode)
    → mode_at t id (run start cs).lock_table ≡ some m
    → contains id ((run start cs).txns t).lock_set ≡ true
run-Tracks cs t id m e =
    let v = run-SysInv start cs start-SysInv in v.tracks t id m (rw (v.ids t) e)

-- Whether a closed transaction stays so and what it then holds, over one call of anyone.
step-IsClosed :
    (s : System) (t u : ℕ) (c : Call)
    → SysInv s
    → IsClosed (s.txns u).state
    → IsClosed ((step s (t, c)).txns u).state
      × ((j : LockDataId) (m : LockMode)
          → mode_at u j (step s (t, c)).lock_table ≡ some m
          → mode_at u j s.lock_table ≡ some m)
unfolding step
step-IsClosed s t u c v k = elim (ℕ_discrete t u) [
  | yes e ↦
      let own = perform-IsClosed c (s.txns t) s.lock_table v.table (rw (← e) at k) in
      let q : (s.txns t).txn_id ≡ u = v.ids t ∙ e in
      let after = (perform c (s.txns t) s.lock_table).lock_table in
      (
        split_txn (λ x. IsClosed x.state) t u _ _ (λ _. own.0) (λ h. absurd (h e)),
        λ j m f.
            ap (λ (w : ℕ). mode_at w j s.lock_table) (sym q)
            ∙ own.1 j m (ap (λ (w : ℕ). mode_at w j after) q ∙ f),
      )
  | no h ↦ (
    split_txn (λ x. IsClosed x.state) t u _ _ (λ e. absurd (h e)) (λ _. k),
    λ j m f. sym (others_same s v t c u j (λ e. h (sym e))) ∙ f,
  )
]

run-IsClosed :
    (cs : List (ℕ × Call)) (s : System) (u : ℕ)
    → SysInv s
    → IsClosed (s.txns u).state
    → IsClosed ((run s cs).txns u).state
      × ((j : LockDataId) (m : LockMode)
          → mode_at u j (run s cs).lock_table ≡ some m
          → mode_at u j s.lock_table ≡ some m)
unfolding run
run-IsClosed [] s u v k = (k, λ j m e. e)
run-IsClosed ((t, c) ∷ cs) s u v k =
    let one = step-IsClosed s t u c v k in
    let rest = run-IsClosed cs (step s (t, c)) u (step-SysInv s v t c) one.0 in
    (rest.0, λ j m e. one.1 j m (rest.1 j m e))

-- Two-phase locking: from a state that meets the invariant, whatever a transaction that is in the
-- shrinking phase or has ended holds after any further calls of anyone, it held before them; and it
-- is still in a phase that takes no locks.
pub run_two_phase :
    (cs : List (ℕ × Call)) (s : System) (u : ℕ) (j : LockDataId) (m : LockMode)
    → SysInv s
    → IsClosed (s.txns u).state
    → mode_at u j (run s cs).lock_table ≡ some m
    → (mode_at u j s.lock_table ≡ some m) × IsClosed ((run s cs).txns u).state
run_two_phase cs s u j m v k e = let r = run-IsClosed cs s u v k in (r.1 j m e, r.0)
