-- ===== src/Lock/Manager/Table.antt =====
-- The lock table as a whole under the functions of
-- src/transaction/concurrency/lock_manager.cpp: the invariant of all queues, and who is touched.
use dbgenerality_rucbase.Base.{
  ℕ, ◌≡◌, refl, ap, inl, inr, Bool, true, false, ◌||◌, List, Option, none, some, if◌then◌else◌,
  arith, Bool-cases, Option-cases, subst,
}
use dbgenerality_rucbase.Lock.Types.{
  LockDataId, eqb_id, eqb_id_iff, LockMode, LockRequestQueue, empty_queue,
}
use dbgenerality_rucbase.Lock.Queue.{mode_of}
use dbgenerality_rucbase.Lock.Queue.Inv.{QueueInv}
use dbgenerality_rucbase.Lock.Manager.{LockTable, contains, emplace, queue_at, store}

abbrev pub TableInv : LockTable → Type 0
TableInv tbl = (id : LockDataId) (q : LockRequestQueue) → tbl id ≡ some q → QueueInv q

-- The mode that a transaction holds on an id.
unfoldable pub mode_at : ℕ → LockDataId → LockTable → Option LockMode
mode_at t id tbl = mode_of t (queue_at id tbl).request_queue

empty_queue-QueueInv : QueueInv empty_queue
unfolding mode_of
empty_queue-QueueInv = record {
  distinct = tt;
  compat = λ t u m n h e f. absurd (cc e);
  covered = λ t m e. absurd (cc e);
  idle = λ h. refl;
  shared_count = omega arith;
  ix_count = omega arith;
}

pub queue_at-QueueInv :
    (id : LockDataId) (tbl : LockTable) → TableInv tbl → QueueInv (queue_at id tbl)
unfolding queue_at
queue_at-QueueInv id tbl v = elim (Option-cases (tbl id)) [
  | inl e ↦ rw (e, queue_at) empty_queue-QueueInv
  | inr (q, e) ↦ rw (e, queue_at) (v id q e)
]

pub store-TableInv :
    (id : LockDataId) (q : LockRequestQueue) (tbl : LockTable)
    → QueueInv q
    → TableInv tbl
    → TableInv (store id q tbl)
unfolding store
store-TableInv id q tbl w v j r e = elim (Bool-cases (eqb_id id j)) [
  | inl same ↦ subst QueueInv (ground arith) w
  | inr other ↦ v j r (ground arith)
]

-- Which queue an id has once the queue of another is written.
pub queue_at-store :
    (j id : LockDataId) (q : LockRequestQueue) (tbl : LockTable)
    → queue_at j (store id q tbl) ≡ (if eqb_id id j then q else queue_at j tbl)
unfolding queue_at store
queue_at-store j id q tbl = by_test (eqb_id id j) (tbl j)
  where
    by_test :
        (b : Bool) (o : Option LockRequestQueue)
        → (elim (if b then some q else o) [ none ↦ empty_queue | some r ↦ r ])
          ≡ (if b then q else elim o [ none ↦ empty_queue | some r ↦ r ])
    by_test true o = refl
    by_test false o = refl

-- What a transaction holds once the queue of an id is written.
pub mode_at-store :
    (u : ℕ) (j id : LockDataId) (q : LockRequestQueue) (tbl : LockTable)
    → mode_at u j (store id q tbl)
      ≡ (if eqb_id id j then mode_of u q.request_queue else mode_at u j tbl)
unfolding mode_at
mode_at-store u j id q tbl = elim (Bool-cases (eqb_id id j)) [
  | inl e ↦ rw (queue_at-store j id q tbl, e)
  | inr e ↦ rw (queue_at-store j id q tbl, e)
]

pub mode_at-store_self :
    (u : ℕ) (j id : LockDataId) (tbl : LockTable)
    → mode_at u j (store id (queue_at id tbl) tbl) ≡ mode_at u j tbl
unfolding mode_at
mode_at-store_self u j id tbl = elim (Bool-cases (eqb_id id j)) [
  | inl e ↦
      rw (queue_at-store j id _ tbl, e)
        (ap (λ (k : LockDataId). mode_of u (queue_at k tbl).request_queue) ((eqb_id_iff id j).0 e))
  | inr e ↦ rw (queue_at-store j id _ tbl, e)
]

pub contains-emplace :
    (j id : LockDataId) (ids : List LockDataId)
    → contains j (emplace id ids) ≡ (eqb_id id j || contains j ids)
unfolding contains emplace
contains-emplace j id ids = ground (arith, eqb_id_iff id j)
