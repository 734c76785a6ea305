-- ===== src/Recovery/Log.antt =====
-- The log records of src/recovery/log_manager.h, with the offsets of src/recovery/log_defs.h. What is
-- written from `dest` on is a list of bytes. An `int` offset that overflows, which C++ leaves open, is
-- an error of the model.
use dbgenerality_rucbase.Base.{
  ℕ, ◌+◌, ◌*◌, ◌/◌, ◌%◌, ◌∷◌, ◌++◌, length, ℤ, pos, negsuc, minus_one, ◌==◌, if◌then◌else◌, ltb,
}
use dbgenerality_rucbase.Lock.Types.{Rid}
use dbgenerality_rucbase.Query.Result.{Result, ok, throws, out_of_bounds, internal_error, ◌>>=◌}
use dbgenerality_rucbase.Query.Cursor.{Row}
use dbgenerality_rucbase.Query.Value.Bytes.{bytes_of, bytes_of_int, int_of_bytes, from, first}

pub data LogType : Type 0 where
  update insert delete begin commit abort : LogType

abbrev pub log_type_number : LogType → ℕ
log_type_number update = 0
log_type_number insert = 1
log_type_number delete = 2
log_type_number begin = 3
log_type_number commit = 4
log_type_number abort = 5

-- Reading a number that is no `LogType`, which C++ leaves open, is an error of the model.
unfoldable pub log_type_of : ℤ → Result LogType
log_type_of (negsuc n) = throws internal_error
log_type_of (pos n) =
    if n == 0
    then ok update
    else if n == 1
    then ok insert
    else if n == 2
    then ok delete
    else if n == 3
    then ok begin
    else if n == 4
    then ok commit
    else if n == 5
    then ok abort
    else throws internal_error

-- `LogRecord`
pub record LogRecord : Type 0 where
  pub log_type : LogType
  pub lsn : ℤ
  pub log_tot_len : ℕ
  pub log_tid : ℤ
  pub prev_lsn : ℤ

abbrev pub log_header_size : ℕ
log_header_size = 20

-- An `int`, a `uint32_t` and a `size_t` at an offset, and bytes.
unfoldable pub read_int : ℕ → Row → Result ℤ
unfolding from int_of_bytes
read_int offset src = do p ← from (pos offset) src; int_of_bytes p

abbrev pub word_at : Row → Result ℕ
word_at (a ∷ b ∷ c ∷ d ∷ rest) = ok (a + 256 * b + 65536 * c + 16777216 * d)
word_at _ = throws out_of_bounds

unfoldable pub read_word : ℕ → Row → Result ℕ
unfolding from
read_word offset src = do p ← from (pos offset) src; word_at p

abbrev pub bytes_of_size : ℕ → Row
bytes_of_size n = bytes_of (n % 4294967296) ++ bytes_of (n / 4294967296 % 4294967296)

unfoldable pub read_size : ℕ → Row → Result ℕ
unfolding read_word
read_size offset src = do
  low ← read_word offset src
  high ← read_word (offset + 4) src
  ok (low + 4294967296 * high)

unfoldable pub read_bytes : ℕ → ℕ → Row → Result Row
unfolding from first
read_bytes offset n src = do p ← from (pos offset) src; first n p

-- `LogRecord::serialize` and `LogRecord::deserialize`
unfoldable pub serialize_header : LogRecord → Row
unfolding bytes_of_int
serialize_header r =
    bytes_of_int (pos (log_type_number r.log_type))
    ++ (bytes_of_int r.lsn
        ++ (bytes_of r.log_tot_len ++ (bytes_of_int r.log_tid ++ bytes_of_int r.prev_lsn)))

unfoldable pub deserialize_header : Row → Result LogRecord
unfolding read_int read_word log_type_of
deserialize_header src = do
  number ← read_int 0 src
  log_type ← log_type_of number
  lsn ← read_int 4 src
  log_tot_len ← read_word 8 src
  log_tid ← read_int 12 src
  prev_lsn ← read_int 16 src
  ok (record {
    log_type = log_type;
    lsn = lsn;
    log_tot_len = log_tot_len;
    log_tid = log_tid;
    prev_lsn = prev_lsn;
  })

-- `BeginLogRecord(txn_id)`
unfoldable pub begin_log_record : ℤ → LogRecord
begin_log_record txn_id = record {
  log_type = begin;
  lsn = minus_one;
  log_tot_len = log_header_size;
  log_tid = txn_id;
  prev_lsn = minus_one;
}

-- `InsertLogRecord`; the sizes of the record and of the name are the lengths.
pub record InsertLogRecord : Type 0 where
  pub header : LogRecord
  pub insert_value : Row
  pub rid : Rid
  pub table_name : Row

unfoldable pub insert_log_record : ℤ → Row → Rid → Row → InsertLogRecord
insert_log_record txn_id insert_value rid table_name = record {
  header = record {
    log_type = insert;
    lsn = minus_one;
    log_tot_len =
        (log_header_size + 4 + length insert_value + 8 + (8 + length table_name)) % 4294967296;
    log_tid = txn_id;
    prev_lsn = minus_one;
  };
  insert_value = insert_value;
  rid = rid;
  table_name = table_name;
}

-- `int offset`
unfoldable pub int_offset : ℕ → Result ℕ
int_offset n = if ltb n 2147483648 then ok n else throws out_of_bounds

-- What is written from the header of the log record on.
unfoldable pub insert_bytes : InsertLogRecord → Row
unfolding serialize_header bytes_of_int
insert_bytes r =
    serialize_header r.header
    ++ (bytes_of_int (pos (length r.insert_value))
        ++ (r.insert_value
            ++ (bytes_of_int r.rid.page_no
                ++ (bytes_of_int r.rid.slot_no
                    ++ (bytes_of_size (length r.table_name) ++ r.table_name)))))

unfoldable pub serialize_insert : InsertLogRecord → Result Row
unfolding int_offset insert_bytes
serialize_insert r = do
  offset ← int_offset (log_header_size + 4 + length r.insert_value)
  offset' ← int_offset (offset + 8)
  offset'' ← int_offset (offset' + 8)
  ok (insert_bytes r)

-- A size below 0 ends in the exception of `new`.
abbrev pub size_of : ℤ → Result ℕ
size_of (pos n) = ok n
size_of (negsuc n) = throws internal_error

unfoldable pub deserialize_insert : Row → Result InsertLogRecord
unfolding deserialize_header read_int read_size read_bytes int_offset
deserialize_insert src = do
  header ← deserialize_header src
  size ← read_int log_header_size src
  n ← size_of size
  insert_value ← read_bytes (log_header_size + 4) n src
  offset ← int_offset (log_header_size + n + 4)
  page_no ← read_int offset src
  slot_no ← read_int (offset + 4) src
  offset' ← int_offset (offset + 8)
  name_size ← read_size offset' src
  offset'' ← int_offset (offset' + 8)
  table_name ← read_bytes offset'' name_size src
  ok (record {
    header = header;
    insert_value = insert_value;
    rid = record { page_no = page_no; slot_no = slot_no };
    table_name = table_name;
  })
