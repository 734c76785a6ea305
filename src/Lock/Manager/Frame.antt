-- ===== src/Lock/Manager/Frame.antt =====
-- The frame of the lock functions of src/transaction/concurrency/lock_manager.cpp, for any decision
-- on the queue.
use dbgenerality_rucbase.Base.{
  ℕ, ◌≡◌, refl, sym, ap, ◌∙◌, ◌≢◌, ◌⊎◌, inl, inr, true, false, some, arith, Bool-cases, subst,
}
use dbgenerality_rucbase.Lock.Types.{
  default, growing, LockDataId, eqb_id, eqb_id_iff, LockMode, LockRequestQueue, Transaction,
}
use dbgenerality_rucbase.Lock.Queue.{Decision, held, granted, deny, mode_of}
use dbgenerality_rucbase.Lock.Queue.Inv.{QueueInv}
use dbgenerality_rucbase.Lock.Queue.Safety.{Keeps}
use dbgenerality_rucbase.Lock.Queue.Effects.{Local}
use dbgenerality_rucbase.Lock.Manager.{
  LockTable, Check, refused, raised, passed, check_lock, contains, queue_at, store, conclude,
  proceed, lock_with,
}
use dbgenerality_rucbase.Lock.Manager.Table.{
  TableInv, mode_at, queue_at-QueueInv, store-TableInv, queue_at-store, mode_at-store_self,
  contains-emplace,
}

-- Every id on which the transaction holds a lock is in its lock set.
abbrev pub Tracks : Transaction → LockTable → Type 0
Tracks txn tbl =
    (j : LockDataId) (m : LockMode)
    → mode_at txn.txn_id j tbl ≡ some m
    → contains j txn.lock_set ≡ true

-- What a transaction is like that passes `check_lock`.
abbrev pub Passed : Transaction → Transaction → Type 0
Passed txn txn' =
    (txn'.txn_id ≡ txn.txn_id)
    × (txn'.lock_set ≡ txn.lock_set)
    × (txn'.state ≡ growing)
    × ((txn.state ≡ default) ⊎ (txn.state ≡ growing))

pub check_lock-Passed : (txn txn' : Transaction) → check_lock txn ≡ passed txn' → Passed txn txn'
unfolding check_lock
check_lock-Passed txn txn' e = ground arith

module _ (id : LockDataId) (q : LockRequestQueue) (tbl : LockTable) where
  -- The table once the missing queue is there and the decided one is written.
  written : LockTable
  written = store id q (store id (queue_at id tbl) tbl)

  written_same :
      (u : ℕ) (j : LockDataId)
      → mode_of u q.request_queue ≡ mode_of u (queue_at id tbl).request_queue
      → mode_at u j written ≡ mode_at u j tbl
  unfolding written mode_at
  written_same u j same = elim (Bool-cases (eqb_id id j)) [
    | inl e ↦
        rw (queue_at-store j id q _, e, same)
          (ap (λ (k : LockDataId). mode_of u (queue_at k tbl).request_queue)
            ((eqb_id_iff id j).0 e))
    | inr e ↦ rw (queue_at-store j id q _, e, queue_at-store j id _ tbl, e)
  ]

  written_other :
      (u : ℕ) (j : LockDataId) → eqb_id id j ≡ false → mode_at u j written ≡ mode_at u j tbl
  unfolding written mode_at
  written_other u j e = rw (queue_at-store j id q _, e, queue_at-store j id _ tbl, e)

module _ (decide : ℕ → LockRequestQueue → Decision) (id : LockDataId) where
  module _ (keeps : (t : ℕ) (q : LockRequestQueue) → QueueInv q → Keeps (decide t q)) where
    conclude-TableInv :
        (txn : Transaction) (tbl : LockTable) (d : Decision)
        → Keeps d
        → TableInv tbl
        → TableInv (conclude txn id tbl d).lock_table
    unfolding conclude
    conclude-TableInv txn tbl (held q) k v = store-TableInv id q tbl k v
    conclude-TableInv txn tbl (granted q) k v = store-TableInv id q tbl k v
    conclude-TableInv txn tbl deny k v = v

    proceed-TableInv :
        (txn : Transaction) (tbl : LockTable) (c : Check)
        → TableInv tbl
        → TableInv (proceed decide txn id tbl c).lock_table
    unfolding proceed
    proceed-TableInv txn tbl refused v = v
    proceed-TableInv txn tbl (raised r) v = v
    proceed-TableInv txn tbl (passed txn') v =
        let q = queue_at id tbl in
        let w = queue_at-QueueInv id tbl v in
        conclude-TableInv txn' (store id q tbl) (decide txn'.txn_id q) (keeps txn'.txn_id q w)
          (store-TableInv id q tbl w v)

    pub lock_with-TableInv :
        (txn : Transaction) (tbl : LockTable)
        → TableInv tbl
        → TableInv (lock_with decide txn id tbl).lock_table
    unfolding lock_with
    lock_with-TableInv txn tbl v = proceed-TableInv txn tbl (check_lock txn) v

  module _ (local : (t : ℕ) (q : LockRequestQueue) → Local t q (decide t q)) where
    -- The other transactions hold what they held.
    conclude-others :
        (txn : Transaction) (tbl : LockTable) (d : Decision)
        → Local txn.txn_id (queue_at id tbl) d
        → (u : ℕ) (j : LockDataId) → u ≢ txn.txn_id
        → mode_at u j (conclude txn id (store id (queue_at id tbl) tbl) d).lock_table
          ≡ mode_at u j tbl
    unfolding conclude written
    conclude-others txn tbl (held q) l u j h = written_same id q tbl u j (l.0 u h)
    conclude-others txn tbl (granted q) l u j h = written_same id q tbl u j (l u h)
    conclude-others txn tbl deny l u j h = mode_at-store_self u j id tbl

    conclude-Tracks :
        (txn : Transaction) (tbl : LockTable) (d : Decision)
        → Local txn.txn_id (queue_at id tbl) d
        → Tracks txn tbl
        → (let r = conclude txn id (store id (queue_at id tbl) tbl) d in Tracks r.txn r.lock_table)
    unfolding conclude written mode_at
    conclude-Tracks txn tbl (held q) (o, (m, e)) k j n f = elim (Bool-cases (eqb_id id j)) [
      | inl same ↦
          subst (λ (i : LockDataId). contains i txn.lock_set ≡ true) ((eqb_id_iff id j).0 same)
            (k id m e)
      | inr other ↦ k j n (sym (written_other id q tbl txn.txn_id j other) ∙ f)
    ]
    conclude-Tracks txn tbl (granted q) l k j n f = elim (Bool-cases (eqb_id id j)) [
      | inl same ↦ rw (contains-emplace j id txn.lock_set, same)
      | inr other ↦
          rw (contains-emplace j id txn.lock_set, other)
            (k j n (sym (written_other id q tbl txn.txn_id j other) ∙ f))
    ]
    conclude-Tracks txn tbl deny l k j n f =
        k j n (sym (mode_at-store_self txn.txn_id j id tbl) ∙ f)

    -- No lock function touches what the other transactions hold.
    proceed-others :
        (txn : Transaction) (tbl : LockTable) (c : Check)
        → check_lock txn ≡ c
        → (u : ℕ) (j : LockDataId) → u ≢ txn.txn_id
        → mode_at u j (proceed decide txn id tbl c).lock_table ≡ mode_at u j tbl
    unfolding proceed
    proceed-others txn tbl refused e u j h = refl
    proceed-others txn tbl (raised r) e u j h = refl
    proceed-others txn tbl (passed txn') e u j h =
        let p = check_lock-Passed txn txn' e in
        conclude-others txn' tbl (decide txn'.txn_id (queue_at id tbl))
          (local txn'.txn_id (queue_at id tbl)) u j (λ g. h (g ∙ p.0))

    pub lock_with-others :
        (txn : Transaction) (tbl : LockTable) (u : ℕ) (j : LockDataId)
        → u ≢ txn.txn_id
        → mode_at u j (lock_with decide txn id tbl).lock_table ≡ mode_at u j tbl
    unfolding lock_with
    lock_with-others txn tbl u j h = proceed-others txn tbl (check_lock txn) refl u j h

    -- What the caller holds stays in its lock set.
    proceed-Tracks :
        (txn : Transaction) (tbl : LockTable) (c : Check)
        → check_lock txn ≡ c
        → Tracks txn tbl
        → (let r = proceed decide txn id tbl c in Tracks r.txn r.lock_table)
    unfolding proceed
    proceed-Tracks txn tbl refused e k = k
    proceed-Tracks txn tbl (raised r) e k = k
    proceed-Tracks txn tbl (passed txn') e k =
        let p = check_lock-Passed txn txn' e in
        conclude-Tracks txn' tbl (decide txn'.txn_id (queue_at id tbl))
          (local txn'.txn_id (queue_at id tbl)) λ j m f. rw p.1 (k j m (rw p.0 at f))

    pub lock_with-Tracks :
        (txn : Transaction) (tbl : LockTable)
        → Tracks txn tbl
        → (let r = lock_with decide txn id tbl in Tracks r.txn r.lock_table)
    unfolding lock_with
    lock_with-Tracks txn tbl k = proceed-Tracks txn tbl (check_lock txn) refl k

-- The caller of a lock function keeps its id, and is afterwards in the growing phase or where it was.
abbrev pub Phase : Transaction → Transaction → Type 0
Phase txn txn' =
    (txn'.txn_id ≡ txn.txn_id)
    × ((txn'.state ≡ txn.state) ⊎ ((txn.state ≡ default) × (txn'.state ≡ growing)))

module _ (decide : ℕ → LockRequestQueue → Decision) (id : LockDataId) where
  conclude-txn :
      (txn : Transaction) (tbl : LockTable) (d : Decision)
      → ((conclude txn id tbl d).txn.txn_id ≡ txn.txn_id)
        × ((conclude txn id tbl d).txn.state ≡ txn.state)
  unfolding conclude
  conclude-txn txn tbl (held q) = (refl, refl)
  conclude-txn txn tbl (granted q) = (refl, refl)
  conclude-txn txn tbl deny = (refl, refl)

  proceed-Phase :
      (txn : Transaction) (tbl : LockTable) (c : Check)
      → check_lock txn ≡ c
      → Phase txn (proceed decide txn id tbl c).txn
  unfolding proceed
  proceed-Phase txn tbl refused e = (refl, inl refl)
  proceed-Phase txn tbl (raised r) e = (refl, inl refl)
  proceed-Phase txn tbl (passed txn') e =
      let p = check_lock-Passed txn txn' e in
      let c =
        conclude-txn txn' (store id (queue_at id tbl) tbl) (decide txn'.txn_id (queue_at id tbl)) in
      (
        c.0 ∙ p.0,
        elim p.3 [ inl start ↦ inr (start, c.1 ∙ p.2) | inr same ↦ inl (c.1 ∙ p.2 ∙ sym same) ],
      )

  pub lock_with-Phase :
      (txn : Transaction) (tbl : LockTable) → Phase txn (lock_with decide txn id tbl).txn
  unfolding lock_with
  lock_with-Phase txn tbl = proceed-Phase txn tbl (check_lock txn) refl

  -- Once a transaction has released a lock, or ended, no lock function changes anything for it.
  pub lock_with-closed :
      (txn : Transaction) (tbl : LockTable)
      → txn.state ≢ default
      → txn.state ≢ growing
      → (lock_with decide txn id tbl).lock_table ≡ tbl
  unfolding lock_with proceed check_lock
  lock_with-closed txn tbl a b = ground arith
