-- ===== src/Lock/Manager/Unlock.antt =====
-- `LockManager::unlock` of src/transaction/concurrency/lock_manager.cpp on the whole lock table.
use dbgenerality_rucbase.Base.{
  ℕ, ◌≡◌, refl, sym, ◌∙◌, ◌≢◌, inl, inr, true, false, [], none, some, arith, Bool-cases,
  Option-cases, subst, ℕ_discrete,
}
use dbgenerality_rucbase.Lock.Types.{
  LockDataId, eqb_id, eqb_id_iff, LockMode, LockRequestQueue, Transaction,
}
use dbgenerality_rucbase.Lock.Queue.{mode_of, unlock_queue}
use dbgenerality_rucbase.Lock.Queue.Unlock.{
  unlock_queue-QueueInv, mode_of-unlock_self, mode_of-unlock_ne,
}
use dbgenerality_rucbase.Lock.Manager.{
  LockTable, returned, queue_at, release, unlock, is_ended, shrunk,
}
use dbgenerality_rucbase.Lock.Manager.Table.{TableInv, mode_at, store-TableInv, mode_at-store}
use dbgenerality_rucbase.Lock.Manager.Frame.{Tracks}

mode_of-nil : (t : ℕ) → mode_of t [] ≡ none
unfolding mode_of
mode_of-nil t = refl

eqb_id_refl : (id : LockDataId) → eqb_id id id ≡ true
eqb_id_refl id = (eqb_id_iff id id).1 refl

-- What is held on an id whose queue is at hand.
mode_at-found :
    (u : ℕ) (id j : LockDataId) (tbl : LockTable) (q : LockRequestQueue)
    → eqb_id id j ≡ true
    → tbl id ≡ some q
    → mode_at u j tbl ≡ mode_of u q.request_queue
unfolding mode_at queue_at
mode_at-found u id j tbl q same e =
    subst (λ (k : LockDataId). mode_of u (queue_at k tbl).request_queue ≡ mode_of u q.request_queue)
      ((eqb_id_iff id j).0 same) (rw (e, queue_at) refl)

module _ (t : ℕ) (id : LockDataId) (tbl : LockTable) (v : TableInv tbl) where
  pub release-TableInv : TableInv (release t id tbl)
  unfolding release
  release-TableInv = elim (Option-cases (tbl id)) [
    | inl e ↦ rw (e, release) v
    | inr (q, e) ↦
        rw (e, release)
          (store-TableInv id (unlock_queue t q) tbl (unlock_queue-QueueInv t q (v id q e)) v)
  ]

  -- The request of the transaction on the id is gone.
  pub mode_at-release_self : mode_at t id (release t id tbl) ≡ none
  unfolding release mode_at queue_at
  mode_at-release_self = elim (Option-cases (tbl id)) [
    | inl e ↦ rw (e, release, queue_at) (rw (e, queue_at) (mode_of-nil t))
    | inr (q, e) ↦
        rw (e, release)
          (mode_at-store t id id (unlock_queue t q) tbl
            ∙ rw (eqb_id_refl id) (mode_of-unlock_self t q (v id q e)))
  ]

  -- Whoever else holds a lock keeps it.
  pub mode_at-release_ne :
      (u : ℕ) (j : LockDataId) → u ≢ t → mode_at u j (release t id tbl) ≡ mode_at u j tbl
  unfolding release
  mode_at-release_ne u j h = elim (Option-cases (tbl id)) [
    | inl e ↦ rw (e, release)
    | inr (q, e) ↦
        rw (e, release)
          (mode_at-store u j id (unlock_queue t q) tbl ∙ (elim (Bool-cases (eqb_id id j)) [
            | inl same ↦
                rw same
                  (mode_of-unlock_ne t q (v id q e) u h ∙ sym (mode_at-found u id j tbl q same e))
            | inr other ↦ rw other
          ]))
  ]

  -- Nothing changes on any other id.
  pub mode_at-release_other :
      (u : ℕ) (j : LockDataId)
      → eqb_id id j ≡ false
      → mode_at u j (release t id tbl) ≡ mode_at u j tbl
  unfolding release
  mode_at-release_other u j other = elim (Option-cases (tbl id)) [
    | inl e ↦ rw (e, release)
    | inr (q, e) ↦ rw (e, release) (mode_at-store u j id (unlock_queue t q) tbl ∙ rw other)
  ]

  -- A lock that is held after `unlock` was held before.
  pub release-held :
      (u : ℕ) (j : LockDataId) (m : LockMode)
      → mode_at u j (release t id tbl) ≡ some m
      → mode_at u j tbl ≡ some m
  release-held u j m e = elim (Bool-cases (eqb_id id j)) [
    | inr other ↦ sym (mode_at-release_other u j other) ∙ e
    | inl same ↦ elim (ℕ_discrete u t) [
      | no h ↦ sym (mode_at-release_ne u j h) ∙ e
      | yes h ↦ absurd (gone ((eqb_id_iff id j).0 same) h)
    ]
  ]
    where
      gone : id ≡ j → u ≡ t → ⊥
      gone p h = cc (mode_at-release_self, p, h, e)

-- `unlock` by its branches.
pub unlock-ended :
    (txn : Transaction) (id : LockDataId) (tbl : LockTable)
    → is_ended txn.state ≡ true
    → unlock txn id tbl ≡ record { txn = txn; lock_table = tbl; outcome = returned false }
unfolding unlock
unlock-ended txn id tbl e = rw e

pub unlock-open :
    (txn : Transaction) (id : LockDataId) (tbl : LockTable)
    → is_ended txn.state ≡ false
    → unlock txn id tbl ≡ record {
      txn = record txn { state = shrunk txn.state };
      lock_table = release txn.txn_id id tbl;
      outcome = returned true;
    }
unfolding unlock
unlock-open txn id tbl e = rw e

module _ (txn : Transaction) (id : LockDataId) (tbl : LockTable) where
  pub unlock-TableInv : TableInv tbl → TableInv (unlock txn id tbl).lock_table
  unlock-TableInv v = elim (Bool-cases (is_ended txn.state)) [
    | inl e ↦ rw (unlock-ended txn id tbl e) v
    | inr e ↦ rw (unlock-open txn id tbl e) (release-TableInv txn.txn_id id tbl v)
  ]

  pub unlock-held :
      TableInv tbl
      → (u : ℕ) (j : LockDataId) (m : LockMode)
      → mode_at u j (unlock txn id tbl).lock_table ≡ some m
      → mode_at u j tbl ≡ some m
  unlock-held v u j m = elim (Bool-cases (is_ended txn.state)) [
    | inl e ↦ rw (unlock-ended txn id tbl e) (λ h. h)
    | inr e ↦ rw (unlock-open txn id tbl e) (release-held txn.txn_id id tbl v u j m)
  ]

  pub unlock-others :
      TableInv tbl
      → (u : ℕ) (j : LockDataId) → u ≢ txn.txn_id
      → mode_at u j (unlock txn id tbl).lock_table ≡ mode_at u j tbl
  unlock-others v u j h = elim (Bool-cases (is_ended txn.state)) [
    | inl e ↦ rw (unlock-ended txn id tbl e)
    | inr e ↦ rw (unlock-open txn id tbl e) (mode_at-release_ne txn.txn_id id tbl v u j h)
  ]

  -- `unlock` leaves the lock set alone: it may hold more than is held, never less.
  pub unlock-Tracks :
      TableInv tbl → Tracks txn tbl → (let r = unlock txn id tbl in Tracks r.txn r.lock_table)
  unlock-Tracks v k = elim (Bool-cases (is_ended txn.state)) [
    | inl e ↦ rw (unlock-ended txn id tbl e) k
    | inr e ↦
        rw (unlock-open txn id tbl e)
          (λ j m f. k j m (release-held txn.txn_id id tbl v txn.txn_id j m f))
  ]

  pub unlock-txn :
      ((unlock txn id tbl).txn.txn_id ≡ txn.txn_id)
      × ((unlock txn id tbl).txn.state ≡ shrunk txn.state)
  unfolding unlock
  unlock-txn = ground arith
