-- ===== src/Query/Modify/Inserts.antt =====
-- `InsertExecutor` of src/execution/executor_insert.h and the reading of the new record.
use dbgenerality_rucbase.Base.{
  ℕ, zero, suc, ◌+◌, ◌≤◌, ◌≡◌, refl, sym, ◌∙◌, ap, subst, false, List, [], ◌∷◌, ◌++◌, Option, none,
  some, length, ◌==◌, take, drop, ℤ, pos, arith, ==_iff, length-append, length-drop,
}
use mathlib.Core.List.{append_assoc}
use dbgenerality_rucbase.System.Meta.{ColMeta, TabMeta}
use dbgenerality_rucbase.Record.File.{
  RmFile, insert_record, get_record, insert_into, create_page_handle, create_new_page_handle,
  write_page_of, write_slot,
}
use dbgenerality_rucbase.Query.Result.{
  Result, ok, throws, invalid_value_count, bind_ok, require_ok, ◌>>=◌,
}
use dbgenerality_rucbase.Query.Cursor.{Row}
use dbgenerality_rucbase.Query.Value.{Value, raw_bytes, init_raw, is_null}
use dbgenerality_rucbase.Query.Value.Bytes.{from-append, first-append}
use dbgenerality_rucbase.Query.Eval.{nat_of, eqb_col_type, raw_data}
use dbgenerality_rucbase.Query.Projection.{column, write_at}
use dbgenerality_rucbase.Query.Projection.Columns.{write_at-append}
use dbgenerality_rucbase.Query.Analyze.{for_each}
use dbgenerality_rucbase.Query.Analyze.Checked.{All, raw_bytes-IsWide}
use dbgenerality_rucbase.Record.Bitmap.{first_bit}
use dbgenerality_rucbase.Query.Modify.{IndexHandle, Store, fill, insert_next, on_indexes}

-- The columns lie one after the other, as `create_table` places them, up to a size.
unfoldable pub LaidFrom : ℕ → List ColMeta → ℕ → Type 0
LaidFrom at [] size = at ≡ size
LaidFrom at (c ∷ cols) size =
    (n : ℕ) × (c.offset ≡ pos at) × (c.len ≡ pos n) × LaidFrom (at + n) cols size

-- The specification: the bytes of the values for the columns.
unfoldable pub encoded : List ColMeta → List Value → Result (List Row)
unfolding raw_bytes
encoded [] [] = ok []
encoded (c ∷ cols) (v ∷ vals) = do
  n ← nat_of c.len
  bytes ← raw_bytes v.type n v
  rest ← encoded cols vals
  ok (bytes ∷ rest)
encoded _ _ = throws invalid_value_count

-- A record that has just been inserted is read back as it was given, up to the record size.
get_record-insert_into :
    (buf : Row) (p : ℕ) (file : RmFile)
    → get_record
        (insert_into buf p file).0.0
        (insert_into buf p file).0.1
        (insert_into buf p file).1
      ≡ take file.file_hdr.record_size buf
unfolding insert_into get_record write_page_of write_slot
get_record-insert_into buf p file =
    let s = first_bit false (file.pages p).bitmap file.file_hdr.num_records_per_page in
    rw (get_record, write_page_of, (==_iff p p).1 refl, write_slot, (==_iff s s).1 refl)

record_size-create_page_handle :
    (file : RmFile) → (create_page_handle file).1.file_hdr.record_size ≡ file.file_hdr.record_size
unfolding create_page_handle create_new_page_handle
record_size-create_page_handle file = by_free file.file_hdr.first_free_page_no
  where
    by_free :
        (o : Option ℕ)
        → (elim o as (λ x. ℕ × RmFile) [
          | none ↦ create_new_page_handle file
          | some p ↦ (p, file)
        ]).1.file_hdr.record_size
          ≡ file.file_hdr.record_size
    by_free none = refl
    by_free (some p) = refl

get_record-insert_record :
    (buf : Row) (file : RmFile)
    → get_record
        (insert_record buf file).0.0
        (insert_record buf file).0.1
        (insert_record buf file).1
      ≡ take file.file_hdr.record_size buf
unfolding insert_record
get_record-insert_record buf file =
    get_record-insert_into buf (create_page_handle file).0 (create_page_handle file).1
    ∙ ap (λ (n : ℕ). take n buf) (record_size-create_page_handle file)

-- What the buffer holds after the loop, for the columns from one place on.
abbrev Filled : List ColMeta → List Value → ℕ → Row → Row → Type 0
Filled cols vals size done rec =
    (out : List Row) × (tail : Row) × (length rec ≡ size)
    × (encoded cols vals ≡ ok out)
    × (rec ≡ done ++ tail)
    × (for_each (λ c. column c rec) cols ≡ ok out)

column_append :
    (c : ColMeta) (done bytes tail : Row)
    → c.offset ≡ pos (length done)
    → c.len ≡ pos (length bytes)
    → column c (done ++ (bytes ++ tail)) ≡ ok bytes
unfolding column
column_append c done bytes tail o l =
    rw (o, l, from-append done (bytes ++ tail), first-append bytes tail)

init_raw_data :
    (n : ℕ) (val v : Value) (bytes : Row)
    → init_raw n val ≡ ok v
    → raw_data v.raw ≡ ok bytes
    → raw_bytes val.type n val ≡ ok bytes
unfolding init_raw
init_raw_data n val v bytes i d = require_ok (is_null val.raw) _ i λ unused i1.
    bind_ok (raw_bytes val.type n val) i1 λ written w i2.
      let same : some written ≡ v.raw =
        ap (λ (x : Result Value). elim x [ ok y ↦ y.raw | throws z ↦ none ]) i2 in
      w ∙ ap raw_data same ∙ d

pub LaidFrom-le : (at : ℕ) (cols : List ColMeta) (size : ℕ) → LaidFrom at cols size → at ≤ size
unfolding LaidFrom
LaidFrom-le at [] size laid = omega arith
LaidFrom-le at (c ∷ cols) size (n, o, l, laid) =
    let rest = LaidFrom-le (at + n) cols size laid in omega arith

Filled-cons :
    (c : ColMeta) (cols : List ColMeta) (val : Value) (vals : List Value) (done bytes rec : Row)
    (len size : ℕ)
    → nat_of c.len ≡ ok len
    → raw_bytes val.type len val ≡ ok bytes
    → c.offset ≡ pos (length done)
    → c.len ≡ pos (length bytes)
    → Filled cols vals size (done ++ bytes) rec
    → Filled (c ∷ cols) (val ∷ vals) size done rec
unfolding encoded for_each
Filled-cons c cols val vals done bytes rec len size has_len raw o l
      (out, tail, full, enc, is_rec, read) =
    let parts : rec ≡ done ++ (bytes ++ tail) = is_rec ∙ append_assoc done bytes tail in
    let here : column c rec ≡ ok bytes =
      ap (column c) parts ∙ column_append c done bytes tail o l in
    (bytes ∷ out, bytes ++ tail, full, rw (has_len, raw, enc), parts, rw (here, read))

Filled-fill :
    (cols : List ColMeta) (vals : List Value) (size : ℕ) (done left rec : Row)
    → LaidFrom (length done) cols size
    → length done + length left ≡ size
    → All (λ (v : Value). length v.float_val ≡ 4) vals
    → fill cols vals (done ++ left) ≡ ok rec
    → Filled cols vals size done rec
unfolding fill encoded for_each LaidFrom
Filled-fill [] [] size done left rec laid h four e =
    let same : done ++ left ≡ rec = cc e in
    let long = length-append done left in
    ([], left, ap length (sym same) ∙ long ∙ h, refl, sym same, refl)
Filled-fill [] (v ∷ vals) size done left rec laid h four e = absurd (cc e)
Filled-fill (c ∷ cols) [] size done left rec laid h four e = absurd (cc e)
Filled-fill (c ∷ cols) (val ∷ vals) size done left rec (n, o, l, laid) h (four, fours) e =
    require_ok (eqb_col_type c.type val.type) _ e λ typed e1.
      bind_ok (nat_of c.len) e1 λ len has_len e2. bind_ok (init_raw len val) e2 λ v i e3.
        bind_ok (raw_data v.raw) e3 λ bytes d e4.
          bind_ok (write_at c.offset bytes (done ++ left)) e4 λ rec' w e5.
            let raw = init_raw_data len val v bytes i d in
            let (width, wide) = raw_bytes-IsWide val.type len val bytes four raw in
            let same_len : n ≡ len = cc (has_len, ap nat_of l) in
            let room = LaidFrom-le (length done + n) cols size laid in
            let longer = length-append done bytes in
            let shorter = length-drop (length bytes) left in
            let written : (done ++ bytes) ++ drop (length bytes) left ≡ rec' = cc (
              w,
              ap (λ (z : ℤ). write_at z bytes (done ++ left)) o,
              write_at-append done bytes left (omega arith),
            ) in
            Filled-cons c cols val vals done bytes rec len size has_len raw o
              (l ∙ ap pos (omega arith))
              (Filled-fill cols vals size (done ++ bytes) (drop (length bytes) left) rec
                (subst (λ (k : ℕ). LaidFrom k cols size) (omega arith) laid) (omega arith) fours
                (ap (fill cols vals) written ∙ e5))

take_all : (n : ℕ) (xs : Row) → length xs ≡ n → take n xs ≡ xs
take_all zero [] h = refl
take_all zero (x ∷ xs) h = absurd (omega arith)
take_all (suc n) [] h = refl
take_all (suc n) (x ∷ xs) h = ap (λ (l : Row). x ∷ l) (take_all n xs (omega arith))

-- The record that `InsertExecutor` leaves at the place that it gives holds the values: reading its
-- columns one by one gives, for each value, the bytes that it encodes to. This holds where the
-- columns lie one after the other up to the record size of the file, as `create_table` places them,
-- the new buffer has the record size, a float takes four bytes, and no check throws.
pub insert_next-columns :
    {I : Type 0} (handle : IndexHandle I) (blank : Row) (tab : TabMeta) (values : List Value)
    (store store' : Store I) (rid : ℕ × ℕ)
    → LaidFrom 0 tab.cols store.file.file_hdr.record_size
    → length blank ≡ store.file.file_hdr.record_size
    → All (λ (v : Value). length v.float_val ≡ 4) values
    → insert_next handle blank tab values store ≡ ok (rid, store')
    → (out : List Row) × (encoded tab.cols values ≡ ok out)
      × (for_each (λ c. column c (get_record rid.0 rid.1 store'.file)) tab.cols ≡ ok out)
unfolding insert_next
insert_next-columns {I} handle blank tab values store store' rid laid h four e =
    require_ok (length values == length tab.cols) _ e λ same e1.
      bind_ok (fill tab.cols values blank) e1 λ rec f e2.
        let size = store.file.file_hdr.record_size in
        let (out, tail, full, enc, is_rec, read) =
          Filled-fill tab.cols values size [] blank rec laid (omega arith) four f in
        let r = insert_record rec store.file in
        bind_ok (on_indexes (λ key. handle.insert_entry key r.0) rec store.indexes) e2
          λ indexes k e3.
            let back : get_record r.0.0 r.0.1 r.1 ≡ rec =
              get_record-insert_record rec store.file ∙ take_all size rec full in
            let given : (r.0, record { file = r.1; indexes = indexes }) ≡ (rid, store') = cc e3 in
            (
              out,
              enc,
              subst
                  (λ (x : (ℕ × ℕ) × Store I).
                    for_each (λ c. column c (get_record x.0.0 x.0.1 x.1.file)) tab.cols ≡ ok out)
                  given (ap (λ (x : Row). for_each (λ c. column c x) tab.cols) back ∙ read),
            )
