-- ===== src/Lock/Queue.antt =====
-- What each function of src/transaction/concurrency/lock_manager.cpp decides on the request queue
-- of one lock id, after the id has been looked up and before the transaction's lock set is told.
pub mod Lookup
pub mod Inv
pub mod Safety
pub mod Unlock
pub mod Effects
pub mod Secures
use dbgenerality_rucbase.Base.{
  ℕ, suc, ◌+◌, ◌-◌, ◌≡◌, Bool, true, false, ◌&&◌, ◌||◌, List, [], ◌∷◌, ◌++◌, Option, none, some,
  arith, if◌then◌else◌, ◌==◌, length, leb,
}
use dbgenerality_rucbase.Lock.Types.{
  LockMode, shared, exlucsive, intention_shared, intention_exclusive, s_ix, GroupLockMode, non_lock,
  group_is, group_ix, group_s, group_x, group_six, LockRequest, LockRequestQueue, empty_queue,
}

-- `lockRequest.lock_mode_ == mode`
abbrev pub eqb_mode : LockMode → LockMode → Bool
eqb_mode shared shared = true
eqb_mode exlucsive exlucsive = true
eqb_mode intention_shared intention_shared = true
eqb_mode intention_exclusive intention_exclusive = true
eqb_mode s_ix s_ix = true
eqb_mode _ _ = false

-- `lockRequestQueue.group_lock_mode_ == mode`
abbrev pub eqb_group : GroupLockMode → GroupLockMode → Bool
eqb_group non_lock non_lock = true
eqb_group group_is group_is = true
eqb_group group_ix group_ix = true
eqb_group group_s group_s = true
eqb_group group_x group_x = true
eqb_group group_six group_six = true
eqb_group _ _ = false

-- The loop `for (auto& lockRequest : lockRequests) if (lockRequest.txn_id_ == ...)` of every
-- function: the mode of the transaction's first request.
unfoldable pub mode_of : ℕ → List LockRequest → Option LockMode
mode_of t [] = none
mode_of t (r ∷ rs) = if r.txn_id == t then some r.lock_mode else mode_of t rs

-- `lockRequest.lock_mode_ = mode` on that request
unfoldable pub set_mode : ℕ → LockMode → List LockRequest → List LockRequest
set_mode t m [] = []
set_mode t m (r ∷ rs) =
    if r.txn_id == t then record r { lock_mode = m } ∷ rs else r ∷ set_mode t m rs

-- `lockRequests.erase(it)` on that request
unfoldable pub erase_request : ℕ → List LockRequest → List LockRequest
erase_request t [] = []
erase_request t (r ∷ rs) = if r.txn_id == t then rs else r ∷ erase_request t rs

-- `emplace_back(txn_id, mode)` followed by `back().granted_ = true`
abbrev pub push_request : ℕ → LockMode → List LockRequest → List LockRequest
push_request t m rs = rs ++ record { txn_id = t; lock_mode = m; granted = true } ∷ []

-- How a lock function ends once the queue is at hand: the lock was there already or was upgraded
-- (`held`), a new request was queued and goes into the lock set (`granted`), or it throws.
pub data Decision : Type 0 where
  held : LockRequestQueue → Decision
  granted : LockRequestQueue → Decision
  deny : Decision

unfoldable pub decide_shared_on_record : ℕ → LockRequestQueue → Decision
decide_shared_on_record t q = elim (mode_of t q.request_queue) [
  | some _ ↦ held q
  | none ↦
      if eqb_group q.group_lock_mode group_x
        || eqb_group q.group_lock_mode group_ix
        || eqb_group q.group_lock_mode group_six
      then deny
      else granted (record q {
        group_lock_mode = group_s;
        request_queue = push_request t shared q.request_queue;
        shared_lock_num = q.shared_lock_num + 1;
      })
]

unfoldable pub decide_exclusive_on_record : ℕ → LockRequestQueue → Decision
decide_exclusive_on_record t q = elim (mode_of t q.request_queue) [
  | some m ↦
      if eqb_mode m exlucsive
      then held q
      else if eqb_mode m shared && length q.request_queue == 1
      then held (record q {
        request_queue = set_mode t exlucsive q.request_queue;
        group_lock_mode = group_x;
      })
      else deny
  | none ↦
      if eqb_group q.group_lock_mode non_lock
      then granted (record q {
        group_lock_mode = group_x;
        request_queue = push_request t exlucsive q.request_queue;
      })
      else deny
]

unfoldable pub decide_shared_on_table : ℕ → LockRequestQueue → Decision
decide_shared_on_table t q = elim (mode_of t q.request_queue) [
  | some m ↦
      if eqb_mode m shared || eqb_mode m exlucsive || eqb_mode m s_ix
      then held q
      else if eqb_mode m intention_shared
          && (eqb_group q.group_lock_mode group_s || eqb_group q.group_lock_mode group_is)
      then held (record q {
        request_queue = set_mode t shared q.request_queue;
        group_lock_mode = group_s;
        shared_lock_num = q.shared_lock_num + 1;
      })
      else if eqb_mode m intention_exclusive && q.ix_lock_num == 1
      then held (record q {
        request_queue = set_mode t s_ix q.request_queue;
        group_lock_mode = group_six;
        shared_lock_num = q.shared_lock_num + 1;
      })
      else deny
  | none ↦
      if eqb_group q.group_lock_mode group_x
        || eqb_group q.group_lock_mode group_ix
        || eqb_group q.group_lock_mode group_six
      then deny
      else granted (record q {
        group_lock_mode = group_s;
        request_queue = push_request t shared q.request_queue;
        shared_lock_num = q.shared_lock_num + 1;
      })
]

unfoldable pub decide_exclusive_on_table : ℕ → LockRequestQueue → Decision
decide_exclusive_on_table t q = elim (mode_of t q.request_queue) [
  | some m ↦
      if eqb_mode m exlucsive
      then held q
      else if length q.request_queue == 1
      then held (record q {
        request_queue = set_mode t exlucsive q.request_queue;
        group_lock_mode = group_x;
      })
      else deny
  | none ↦
      if eqb_group q.group_lock_mode non_lock
      then granted (record q {
        group_lock_mode = group_x;
        request_queue = push_request t exlucsive q.request_queue;
      })
      else deny
]

unfoldable pub decide_is_on_table : ℕ → LockRequestQueue → Decision
decide_is_on_table t q = elim (mode_of t q.request_queue) [
  | some _ ↦ held q
  | none ↦
      if eqb_group q.group_lock_mode group_x
      then deny
      else granted (record q {
        group_lock_mode =
            if eqb_group q.group_lock_mode non_lock then group_is else q.group_lock_mode;
        request_queue = push_request t intention_shared q.request_queue;
      })
]

unfoldable pub decide_ix_on_table : ℕ → LockRequestQueue → Decision
decide_ix_on_table t q = elim (mode_of t q.request_queue) [
  | some m ↦
      if eqb_mode m intention_exclusive || eqb_mode m s_ix || eqb_mode m exlucsive
      then held q
      else if eqb_mode m shared && q.shared_lock_num == 1
      then held (record q {
        ix_lock_num = q.ix_lock_num + 1;
        request_queue = set_mode t s_ix q.request_queue;
        group_lock_mode = group_six;
      })
      else if eqb_mode m intention_shared
          && (eqb_group q.group_lock_mode group_is || eqb_group q.group_lock_mode group_ix)
      then held (record q {
        ix_lock_num = q.ix_lock_num + 1;
        request_queue = set_mode t intention_exclusive q.request_queue;
        group_lock_mode = group_ix;
      })
      else deny
  | none ↦
      if eqb_group q.group_lock_mode group_s
        || eqb_group q.group_lock_mode group_six
        || eqb_group q.group_lock_mode group_x
      then deny
      else granted (record q {
        group_lock_mode = group_ix;
        request_queue = push_request t intention_exclusive q.request_queue;
        ix_lock_num = q.ix_lock_num + 1;
      })
]

-- `static_cast<int>(lockRequest.lock_mode_)`
abbrev pub mode_rank : LockMode → ℕ
mode_rank shared = 0
mode_rank exlucsive = 1
mode_rank intention_shared = 2
mode_rank intention_exclusive = 3
mode_rank s_ix = 4

-- `std::max` on the ranks, cast back
abbrev pub max_mode : LockMode → LockMode → LockMode
max_mode a b = if leb (mode_rank b) (mode_rank a) then a else b

-- The loop over the requests that stay: `new_mode` starts at INTENTION_SHARED.
unfoldable pub strongest : LockMode → List LockRequest → LockMode
strongest new_mode [] = new_mode
strongest new_mode (r ∷ rs) = strongest (max_mode new_mode r.lock_mode) rs

-- `static_cast<GroupLockMode>(static_cast<int>(new_mode) + 1)`
abbrev pub group_of : LockMode → GroupLockMode
group_of shared = group_is
group_of exlucsive = group_ix
group_of intention_shared = group_s
group_of intention_exclusive = group_x
group_of s_ix = group_six

-- The end of `unlock`: the group mode of what is left.
abbrev pub regroup : List LockRequest → GroupLockMode
regroup [] = non_lock
regroup (r ∷ rs) = group_of (strongest intention_shared (r ∷ rs))

-- `unlock` on the queue of the id.
unfoldable pub unlock_queue : ℕ → LockRequestQueue → LockRequestQueue
unlock_queue t q = elim (mode_of t q.request_queue) [
  | none ↦ q
  | some m ↦
      let rest = erase_request t q.request_queue in
      record {
        request_queue = rest;
        group_lock_mode = regroup rest;
        shared_lock_num =
            if eqb_mode m shared || eqb_mode m s_ix
            then q.shared_lock_num - 1
            else q.shared_lock_num;
        ix_lock_num =
            if eqb_mode m intention_exclusive || eqb_mode m s_ix
            then q.ix_lock_num - 1
            else q.ix_lock_num;
      }
]
