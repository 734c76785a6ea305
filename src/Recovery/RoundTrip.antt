-- ===== src/Recovery/RoundTrip.antt =====
-- What `serialize` of a log record writes, `deserialize` reads: src/recovery/log_manager.h.
use mathlib.Core.List.{append_assoc}
use dbgenerality_rucbase.Base.{
  ℕ, ◌+◌, ◌*◌, ◌/◌, ◌%◌, ◌<◌, ◌≡◌, refl, sym, ◌∙◌, ap, subst, [], ◌++◌, length, ℤ, pos, arith, ltb,
  true, length-append,
}
use dbgenerality_rucbase.Lock.Types.{Rid}
use dbgenerality_rucbase.Query.Result.{ok}
use dbgenerality_rucbase.Query.Cursor.{Row}
use dbgenerality_rucbase.Query.Value.Bytes.{
  bytes_of, bytes_of_int, IsInt, small, int_of_bytes-bytes_of_int, from, from-append, first-append,
}
use dbgenerality_rucbase.Recovery.Log.{
  LogType, update, insert, delete, begin, commit, abort, LogRecord, InsertLogRecord, log_type_of,
  log_type_number, read_int, read_word, read_size, read_bytes, bytes_of_size, serialize_header,
  deserialize_header, serialize_insert, deserialize_insert, insert_log_record, insert_bytes,
  int_offset,
}

-- A buffer `src` that holds `piece` from `offset` on.
record Holds (src : Row) (offset : ℕ) (piece rest : Row) : Type 0 where
  before : Row
  long : length before ≡ offset
  is : src ≡ before ++ (piece ++ rest)

from-Holds :
    (src : Row) (offset : ℕ) (piece rest : Row)
    → Holds src offset piece rest
    → from (pos offset) src ≡ ok (piece ++ rest)
from-Holds src offset piece rest h =
    subst (λ (n : ℕ). from (pos n) src ≡ ok (piece ++ rest)) h.long
      (ap (from (pos (length h.before))) h.is ∙ from-append h.before (piece ++ rest))

-- The piece after it.
Holds-next :
    (src : Row) (offset n : ℕ) (piece next rest : Row)
    → length piece ≡ n
    → Holds src offset piece (next ++ rest)
    → Holds src (offset + n) next rest
Holds-next src offset n piece next rest e h = record {
  before = h.before ++ piece;
  long = omega (arith, length-append {0} h.before piece, h.long);
  is = h.is ∙ sym (append_assoc h.before piece (next ++ rest));
}

Holds-at :
    (src : Row) (m n : ℕ) (piece rest : Row)
    → m ≡ n
    → Holds src m piece rest
    → Holds src n piece rest
Holds-at src m n piece rest e h = record { before = h.before; long = h.long ∙ e; is = h.is }

read_int-Holds :
    (src : Row) (offset : ℕ) (i : ℤ) (rest : Row)
    → IsInt i
    → Holds src offset (bytes_of_int i) rest
    → read_int offset src ≡ ok i
unfolding read_int
read_int-Holds src offset i rest v h =
    rw (from-Holds src offset (bytes_of_int i) rest h) (int_of_bytes-bytes_of_int i rest v)

word_bytes :
    (u : ℕ)
    → u < 4294967296
    → u % 256 + 256 * (u / 256 % 256) + 65536 * (u / 65536 % 256) + 16777216 * (u / 16777216 % 256)
      ≡ u
word_bytes u h = omega arith

read_word-Holds :
    (src : Row) (offset u : ℕ) (rest : Row)
    → u < 4294967296
    → Holds src offset (bytes_of u) rest
    → read_word offset src ≡ ok u
unfolding read_word
read_word-Holds src offset u rest v h =
    rw (from-Holds src offset (bytes_of u) rest h) (ap ok (word_bytes u v))

read_size-Holds :
    (src : Row) (offset n : ℕ) (rest : Row)
    → n < 18446744073709551616
    → Holds src offset (bytes_of_size n) rest
    → read_size offset src ≡ ok n
unfolding read_size
read_size-Holds src offset n rest v h =
    let low = n % 4294967296 in
    let high = n / 4294967296 % 4294967296 in
    let a : Holds src offset (bytes_of low) (bytes_of high ++ rest) = record {
      before = h.before;
      long = h.long;
      is = h.is;
    } in
    let b = Holds-next src offset 4 (bytes_of low) (bytes_of high) rest refl a in
    rw
      (
        read_word-Holds src offset low (bytes_of high ++ rest) (omega arith) a,
        read_word-Holds src (offset + 4) high rest (omega arith) b,
      )
      (ap ok (omega arith))

read_bytes-Holds :
    (src : Row) (offset : ℕ) (bytes rest : Row)
    → Holds src offset bytes rest
    → read_bytes offset (length bytes) src ≡ ok bytes
unfolding read_bytes
read_bytes-Holds src offset bytes rest h =
    rw (from-Holds src offset bytes rest h) (first-append bytes rest)

-- The numbers of a header fit their fields.
pub record Fits (r : LogRecord) : Type 0 where
  pub lsn : IsInt r.lsn
  pub tot_len : r.log_tot_len < 4294967296
  pub tid : IsInt r.log_tid
  pub prev : IsInt r.prev_lsn

type_read : (t : LogType) → log_type_of (pos (log_type_number t)) ≡ ok t
unfolding log_type_of
type_read update = refl
type_read insert = refl
type_read delete = refl
type_read begin = refl
type_read commit = refl
type_read abort = refl

type_small : (t : LogType) → log_type_number t < 2147483648
type_small update = omega arith
type_small insert = omega arith
type_small delete = omega arith
type_small begin = omega arith
type_small commit = omega arith
type_small abort = omega arith

header-Holds :
    (src : Row) (r : LogRecord) (rest : Row)
    → Fits r
    → Holds src 0 (serialize_header r) rest
    → deserialize_header src ≡ ok r
unfolding serialize_header deserialize_header bytes_of_int
header-Holds src r rest f h =
    let e = bytes_of_int r.prev_lsn in
    let d = bytes_of_int r.log_tid in
    let c = bytes_of r.log_tot_len in
    let b = bytes_of_int r.lsn in
    let a = bytes_of_int (pos (log_type_number r.log_type)) in
    let ha : Holds src 0 a (b ++ (c ++ (d ++ (e ++ rest)))) = record {
      before = h.before;
      long = h.long;
      is = h.is;
    } in
    let hb = Holds-next src 0 4 a b (c ++ (d ++ (e ++ rest))) refl ha in
    let hc = Holds-next src 4 4 b c (d ++ (e ++ rest)) refl hb in
    let hd = Holds-next src 8 4 c d (e ++ rest) refl hc in
    let he = Holds-next src 12 4 d e rest refl hd in
    rw
      (
        read_int-Holds src 0 (pos (log_type_number r.log_type)) (b ++ (c ++ (d ++ (e ++ rest))))
            (small (type_small r.log_type)) ha,
        type_read r.log_type,
        read_int-Holds src 4 r.lsn (c ++ (d ++ (e ++ rest))) f.lsn hb,
        read_word-Holds src 8 r.log_tot_len (d ++ (e ++ rest)) f.tot_len hc,
        read_int-Holds src 12 r.log_tid (e ++ rest) f.tid hd,
        read_int-Holds src 16 r.prev_lsn rest f.prev he,
      )
      refl

length-header : (r : LogRecord) → length (serialize_header r) ≡ 20
unfolding serialize_header bytes_of_int
length-header r = refl

-- The record that a log record of an insertion describes, and its place, fit their fields, and the
-- offsets fit an `int`.
pub record InsertFits (r : InsertLogRecord) : Type 0 where
  pub header : Fits r.header
  pub value : 40 + length r.insert_value < 2147483648
  pub page : IsInt r.rid.page_no
  pub slot : IsInt r.rid.slot_no
  pub name : length r.table_name < 18446744073709551616

int_offset_fits : (n : ℕ) → n < 2147483648 → int_offset n ≡ ok n
unfolding int_offset
int_offset_fits n h = let below : ltb n 2147483648 ≡ true = ground arith in rw (below) refl

insert_bytes-read :
    (r : InsertLogRecord) (rest : Row)
    → InsertFits r
    → deserialize_insert (insert_bytes r ++ rest) ≡ ok r
unfolding deserialize_insert insert_bytes
insert_bytes-read r rest f =
    let src = insert_bytes r ++ rest in
    let n = length r.insert_value in
    let a = serialize_header r.header in
    let b = bytes_of_int (pos n) in
    let c = r.insert_value in
    let d = bytes_of_int r.rid.page_no in
    let e = bytes_of_int r.rid.slot_no in
    let g = bytes_of_size (length r.table_name) in
    let k = r.table_name in
    let whole : src ≡ a ++ (b ++ (c ++ (d ++ (e ++ (g ++ (k ++ rest)))))) =
      ap (λ (l : Row). a ++ (b ++ l)) (append_assoc c (d ++ (e ++ (g ++ k))) rest) in
    let ha : Holds src 0 a (b ++ (c ++ (d ++ (e ++ (g ++ (k ++ rest)))))) = record {
      before = [];
      long = refl;
      is = whole;
    } in
    let hb =
      Holds-next src 0 20 a b (c ++ (d ++ (e ++ (g ++ (k ++ rest))))) (length-header r.header) ha in
    let hc = Holds-next src 20 4 b c (d ++ (e ++ (g ++ (k ++ rest)))) refl hb in
    let o = 20 + n + 4 in
    let hd =
      Holds-at src (24 + n) o d (e ++ (g ++ (k ++ rest))) (omega arith)
        (Holds-next src 24 n c d (e ++ (g ++ (k ++ rest))) refl hc) in
    let he = Holds-next src o 4 d e (g ++ (k ++ rest)) refl hd in
    let hg =
      Holds-at src (o + 4 + 4) (o + 8) g (k ++ rest) (omega arith)
        (Holds-next src (o + 4) 4 e g (k ++ rest) refl he) in
    let hk = Holds-next src (o + 8) 8 g k rest refl hg in
    let long = f.value in
    rw
      (
        header-Holds src r.header (b ++ (c ++ (d ++ (e ++ (g ++ (k ++ rest)))))) f.header ha,
        read_int-Holds src 20 (pos n) (c ++ (d ++ (e ++ (g ++ (k ++ rest)))))
            (small (omega (arith, f.value))) hb,
        read_bytes-Holds src 24 c (d ++ (e ++ (g ++ (k ++ rest)))) hc,
        int_offset_fits o (omega arith),
        read_int-Holds src o r.rid.page_no (e ++ (g ++ (k ++ rest))) f.page hd,
        read_int-Holds src (o + 4) r.rid.slot_no (g ++ (k ++ rest)) f.slot he,
        int_offset_fits (o + 8) (omega arith),
        read_size-Holds src (o + 8) (length k) (k ++ rest) f.name hg,
        int_offset_fits (o + 8 + 8) (omega arith),
        read_bytes-Holds src (o + 8 + 8) k rest hk,
      )
      refl

-- `serialize` of a log record of an insertion whose numbers fit their fields, and whose offsets fit
-- an `int`, ends, and the record is read back by `deserialize` from what it wrote, whatever follows
-- it in the buffer.
pub deserialize_insert-serialize_insert :
    (r : InsertLogRecord) (rest : Row)
    → InsertFits r
    → (bytes : Row) × (serialize_insert r ≡ ok bytes) × (deserialize_insert (bytes ++ rest) ≡ ok r)
unfolding serialize_insert
deserialize_insert-serialize_insert r rest f =
    let n = length r.insert_value in
    let long = f.value in
    (
      insert_bytes r,
      rw
          (
            int_offset_fits (20 + 4 + n) (omega arith),
            int_offset_fits (20 + 4 + n + 8) (omega arith),
            int_offset_fits (20 + 4 + n + 8 + 8) (omega arith),
          )
          refl,
      insert_bytes-read r rest f,
    )

-- The length that the constructor of a log record of an insertion gives is the number of bytes that
-- `serialize` writes of it, where that fits in 32 bits.
pub length-insert_log_record :
    (txn_id : ℤ) (value : Row) (rid : Rid) (name : Row)
    → 40 + length value + length name < 4294967296
    → (let r = insert_log_record txn_id value rid name in
        length (insert_bytes r) ≡ r.header.log_tot_len)
unfolding insert_log_record insert_bytes
length-insert_log_record txn_id value rid name h =
    let g = bytes_of_size (length name) in
    let X = bytes_of_int rid.page_no ++ (bytes_of_int rid.slot_no ++ (g ++ name)) in
    let l : length X ≡ 16 + length name = omega arith in omega (arith, length-append {0} value X, l)
