-- ===== src/Lock/Types.antt =====
-- src/transaction/txn_defs.h, src/transaction/transaction.h and the enums and records of
-- src/transaction/concurrency/lock_manager.h.
use Prim.Native.String.{String}
use dbgenerality_rucbase.Base.{
  ℕ, ◌≡◌, ◌↔◌, Bool, true, false, ◌&&◌, List, [], arith, if◌then◌else◌, ℤ, eqb_ℤ, eqb_ℤ_iff,
  minus_one,
}

-- The place of a record: page and slot.
pub record Rid : Type 0 where
  pub page_no : ℤ
  pub slot_no : ℤ

pub data TransactionState : Type 0 where
  default growing shrinking committed aborted : TransactionState

pub data AbortReason : Type 0 where
  lock_on_shirinking upgrade_conflict deadlock_prevention : AbortReason

pub data LockDataType : Type 0 where
  table record_type : LockDataType

pub record LockDataId : Type 0 where
  pub fd : ℤ
  pub rid : Rid
  pub type : LockDataType

-- `LockDataId(int fd, LockDataType type)`
abbrev pub table_id : ℤ → LockDataId
table_id fd = record {
  fd = fd;
  rid = record { page_no = minus_one; slot_no = minus_one };
  type = table;
}

-- `LockDataId(int fd, const Rid &rid, LockDataType type)`
abbrev pub record_id : ℤ → Rid → LockDataId
record_id fd rid = record { fd = fd; rid = rid; type = record_type }

-- Equality of two places: `operator==` of `Rid`.
abbrev pub eqb_rid : Rid → Rid → Bool
eqb_rid a b = eqb_ℤ a.page_no b.page_no && eqb_ℤ a.slot_no b.slot_no

abbrev pub eqb_type : LockDataType → LockDataType → Bool
eqb_type table table = true
eqb_type record_type record_type = true
eqb_type table record_type = false
eqb_type record_type table = false

-- `operator==` of `LockDataId`
unfoldable pub eqb_id : LockDataId → LockDataId → Bool
eqb_id a b =
    if eqb_type a.type b.type then if eqb_ℤ a.fd b.fd then eqb_rid a.rid b.rid else false else false

pub eqb_id_iff : (a b : LockDataId) → (eqb_id a b ≡ true) ↔ (a ≡ b)
unfolding eqb_id
eqb_id_iff a b = grind (
  arith,
  eqb_ℤ_iff a.fd b.fd,
  eqb_ℤ_iff a.rid.page_no b.rid.page_no,
  eqb_ℤ_iff a.rid.slot_no b.rid.slot_no,
)

pub data LockMode : Type 0 where
  shared exlucsive intention_shared intention_exclusive s_ix : LockMode

pub data GroupLockMode : Type 0 where
  non_lock group_is group_ix group_s group_x group_six : GroupLockMode

pub record LockRequest : Type 0 where
  pub txn_id : ℕ
  pub lock_mode : LockMode
  pub granted : Bool

pub record LockRequestQueue : Type 0 where
  pub request_queue : List LockRequest
  pub group_lock_mode : GroupLockMode
  pub shared_lock_num : ℕ
  pub ix_lock_num : ℕ

abbrev pub empty_queue : LockRequestQueue
empty_queue = record {
  request_queue = [];
  group_lock_mode = non_lock;
  shared_lock_num = 0;
  ix_lock_num = 0;
}

pub data WType : Type 0 where
  insert_tuple delete_tuple update_tuple : WType

-- `WriteRecord`: what `abort` needs to take a write back; an insert carries no data.
pub record WriteRecord : Type 0 where
  pub wtype : WType
  pub tab_name : String
  pub rid : Rid
  pub data_bytes : List ℕ

-- The part of `Transaction` that the lock and transaction managers read and write.
pub record Transaction : Type 0 where
  pub txn_id : ℕ
  pub state : TransactionState
  pub start_ts : ℕ
  pub write_set : List WriteRecord
  pub lock_set : List LockDataId

-- `explicit Transaction(txn_id_t txn_id, ...)`
abbrev pub new_transaction : ℕ → Transaction
new_transaction id = record {
  txn_id = id;
  state = default;
  start_ts = 0;
  write_set = [];
  lock_set = [];
}
