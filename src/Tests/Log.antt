-- ===== src/Tests/Log.antt =====
-- A log record of src/recovery/log_manager.h: an insertion of three bytes in the table "t".
use dbgenerality_rucbase.Base.{◌≡◌, [], ◌∷◌, ◌++◌, pos, arith}
use dbgenerality_rucbase.Lock.Types.{Rid}
use dbgenerality_rucbase.Query.Result.{ok}
use dbgenerality_rucbase.Query.Cursor.{Row}
use dbgenerality_rucbase.Query.Value.Bytes.{small, minus}
use dbgenerality_rucbase.Recovery.Log.{
  InsertLogRecord, insert_log_record, serialize_insert, deserialize_insert,
}
use dbgenerality_rucbase.Recovery.RoundTrip.{deserialize_insert-serialize_insert, InsertFits}

abbrev place : Rid
place = record { page_no = pos 1; slot_no = pos 4 }

abbrev three_bytes : InsertLogRecord
three_bytes = insert_log_record (pos 7) (1 ∷ 2 ∷ 3 ∷ []) place (116 ∷ [])

three_bytes-InsertFits : InsertFits three_bytes
unfolding insert_log_record
three_bytes-InsertFits = record {
  header = record {
    lsn = minus (omega arith);
    tot_len = omega arith;
    tid = small (omega arith);
    prev = minus (omega arith);
  };
  value = omega arith;
  page = small (omega arith);
  slot = small (omega arith);
  name = omega arith;
}

deserialize_insert-serialize_insert_example :
    (bytes : Row) × (serialize_insert three_bytes ≡ ok bytes)
    × (deserialize_insert (bytes ++ 9 ∷ []) ≡ ok three_bytes)
deserialize_insert-serialize_insert_example =
    deserialize_insert-serialize_insert three_bytes (9 ∷ []) three_bytes-InsertFits
