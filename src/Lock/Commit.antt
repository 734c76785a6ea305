-- ===== src/Lock/Commit.antt =====
-- `begin` and `commit` of src/transaction/transaction_manager.cpp. The log manager that `commit`
-- flushes does nothing yet: src/recovery/log_manager.cpp.
use dbgenerality_rucbase.Base.{
  ℕ, ◌+◌, ◌≡◌, ◌≢◌, ◌∙◌, refl, subst, true, false, List, [], ◌∷◌, Option, none, some, if◌then◌else◌,
  ◌==◌, Bool-cases, Option-cases, inl, inr, arith,
}
use dbgenerality_rucbase.Lock.Types.{
  LockDataId, LockMode, Transaction, TransactionState, committed, new_transaction, eqb_id_iff,
  eqb_id,
}
use dbgenerality_rucbase.Lock.Manager.{
  LockTable, LockResult, returned, unlock, contains, is_ended, shrunk,
}
use dbgenerality_rucbase.Lock.Manager.Table.{TableInv, mode_at}
use dbgenerality_rucbase.Lock.Manager.Frame.{Tracks}
use dbgenerality_rucbase.Lock.Manager.Unlock.{
  unlock-open, unlock-TableInv, unlock-held, unlock-others, unlock-txn, mode_at-release_self,
}

-- What `TransactionManager` keeps.
pub record TransactionManager : Type 0 where
  pub next_txn_id : ℕ
  pub next_timestamp : ℕ
  pub txn_map : ℕ → Option Transaction

-- `txn_map[txn->get_transaction_id()] = txn`
unfoldable pub enter : Transaction → (ℕ → Option Transaction) → ℕ → Option Transaction
enter txn map t = if txn.txn_id == t then some txn else map t

-- `begin`; `none` is the null pointer, for which a transaction is made.
unfoldable pub begin : Option Transaction → TransactionManager → Transaction × TransactionManager
unfolding enter
begin none mgr =
    let txn = record (new_transaction mgr.next_txn_id) { start_ts = mgr.next_timestamp } in
    (txn, record mgr { next_txn_id = mgr.next_txn_id + 1; txn_map = enter txn mgr.txn_map })
begin (some txn) mgr = (txn, record mgr { txn_map = enter txn mgr.txn_map })

-- The loop of `commit` over the lock set.
unfoldable pub unlock_all : List LockDataId → Transaction → LockTable → LockResult
unfolding unlock
unlock_all [] txn tbl = record { txn = txn; lock_table = tbl; outcome = returned true }
unlock_all (id ∷ ids) txn tbl = let r = unlock txn id tbl in unlock_all ids r.txn r.lock_table

unfoldable pub commit : Transaction → LockTable → Transaction × LockTable
unfolding unlock_all
commit txn tbl =
    let r = unlock_all txn.lock_set (record txn { write_set = [] }) tbl in
    (record r.txn { lock_set = []; state = committed }, r.lock_table)

unlock_all-held :
    (ids : List LockDataId) (txn : Transaction) (tbl : LockTable)
    → TableInv tbl
    → (u : ℕ) (j : LockDataId) (m : LockMode)
    → mode_at u j (unlock_all ids txn tbl).lock_table ≡ some m
    → mode_at u j tbl ≡ some m
unfolding unlock_all
unlock_all-held [] txn tbl v u j m e = e
unlock_all-held (id ∷ ids) txn tbl v u j m e =
    let r = unlock txn id tbl in
    unlock-held txn id tbl v u j m
      (unlock_all-held ids r.txn r.lock_table (unlock-TableInv txn id tbl v) u j m e)

pub unlock_all-others :
    (ids : List LockDataId) (txn : Transaction) (tbl : LockTable)
    → TableInv tbl
    → (u : ℕ) (j : LockDataId) → u ≢ txn.txn_id
    → mode_at u j (unlock_all ids txn tbl).lock_table ≡ mode_at u j tbl
unfolding unlock_all
unlock_all-others [] txn tbl v u j h = refl
unlock_all-others (id ∷ ids) txn tbl v u j h =
    let r = unlock txn id tbl in
    unlock_all-others ids r.txn r.lock_table (unlock-TableInv txn id tbl v) u j
      (λ e. h (e ∙ (unlock-txn txn id tbl).0))
    ∙ unlock-others txn id tbl v u j h

unlock_self :
    (txn : Transaction) (id : LockDataId) (tbl : LockTable)
    → TableInv tbl
    → is_ended txn.state ≡ false
    → mode_at txn.txn_id id (unlock txn id tbl).lock_table ≡ none
unlock_self txn id tbl v o =
    rw (unlock-open txn id tbl o) (mode_at-release_self txn.txn_id id tbl v)

still_open : (s r : TransactionState) → is_ended s ≡ false → r ≡ shrunk s → is_ended r ≡ false
still_open s r o e = ground arith

-- A transaction that has not ended has no lock on the ids that it went through.
unlock_all-gone :
    (ids : List LockDataId) (txn : Transaction) (tbl : LockTable)
    → TableInv tbl
    → is_ended txn.state ≡ false
    → (j : LockDataId) → contains j ids ≡ true
    → mode_at txn.txn_id j (unlock_all ids txn tbl).lock_table ≡ none
unfolding unlock_all contains
unlock_all-gone [] txn tbl v o j c = absurd (ground arith)
unlock_all-gone (id ∷ ids) txn tbl v o j c =
    let r = unlock txn id tbl in
    let next = unlock-TableInv txn id tbl v in
    let same = (unlock-txn txn id tbl).0 in
    elim (Bool-cases (eqb_id j id)) [
      | inl e ↦
          elim (Option-cases
            (mode_at txn.txn_id j (unlock_all ids r.txn r.lock_table).lock_table)) [
              | inl n ↦ n
              | inr (m, f) ↦
                  let before = unlock_all-held ids r.txn r.lock_table next txn.txn_id j m f in
                  absurd (cc (before, (eqb_id_iff j id).0 e, unlock_self txn id tbl v o))
            ]
      | inr e ↦
          subst (λ (t : ℕ). mode_at t j (unlock_all ids r.txn r.lock_table).lock_table ≡ none) same
            (unlock_all-gone ids r.txn r.lock_table next
              (still_open _ _ o (unlock-txn txn id tbl).1) j (ground arith))
    ]

unlock-write_set :
    (txn : Transaction) (id : LockDataId) (tbl : LockTable)
    → (unlock txn id tbl).txn.write_set ≡ txn.write_set
unfolding unlock
unlock-write_set txn id tbl = ground arith

unlock_all-write_set :
    (ids : List LockDataId) (txn : Transaction) (tbl : LockTable)
    → (unlock_all ids txn tbl).txn.write_set ≡ txn.write_set
unfolding unlock_all
unlock_all-write_set [] txn tbl = refl
unlock_all-write_set (id ∷ ids) txn tbl =
    let r = unlock txn id tbl in
    unlock_all-write_set ids r.txn r.lock_table ∙ unlock-write_set txn id tbl

-- Strict two-phase locking at the end of a transaction: where the lock table is in its invariant,
-- the lock set names every lock held and the transaction has not ended, after `commit` the
-- transaction is committed and holds no lock on anything, its lock set and write set are empty, and
-- a lock of another transaction is as it was.
pub commit-releases :
    (txn : Transaction) (tbl : LockTable) (u : ℕ) (j k : LockDataId)
    → TableInv tbl
    → Tracks txn tbl
    → is_ended txn.state ≡ false
    → u ≢ txn.txn_id
    → (mode_at txn.txn_id j (commit txn tbl).1 ≡ none)
      × (mode_at u k (commit txn tbl).1 ≡ mode_at u k tbl)
      × ((commit txn tbl).0.state ≡ committed)
      × ((commit txn tbl).0.lock_set ≡ [])
      × ((commit txn tbl).0.write_set ≡ [])
unfolding commit
commit-releases txn tbl u j k v tr o h = (
  elim (Option-cases (mode_at txn.txn_id j (commit txn tbl).1)) [
    | inl n ↦ n
    | inr (m, e) ↦
        let start = record txn { write_set = [] } in
        let before = unlock_all-held txn.lock_set start tbl v txn.txn_id j m e in
        unlock_all-gone txn.lock_set start tbl v o j (tr j m before)
  ],
  unlock_all-others txn.lock_set (record txn { write_set = [] }) tbl v u k h,
  refl,
  refl,
  unlock_all-write_set txn.lock_set (record txn { write_set = [] }) tbl,
)
