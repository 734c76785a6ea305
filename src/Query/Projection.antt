-- ===== src/Query/Projection.antt =====
-- `ProjectionExecutor` of src/execution/executor_projection.h over any executor with columns.
pub mod Columns
use dbgenerality_rucbase.Base.{
  ℕ, zero, suc, ◌+◌, ◌≡◌, Bool, true, false, List, [], ◌∷◌, ◌++◌, map, not, if◌then◌else◌, length,
  leb, take, drop, ℤ, pos, negsuc,
}
use dbgenerality_rucbase.System.Meta.{ColMeta}
use dbgenerality_rucbase.Query.Result.{
  Result, ok, throws, assertion_failed, column_not_found, out_of_bounds, require, ◌>>=◌, ◌>>◌,
}
use dbgenerality_rucbase.Query.Cursor.{Row, Executor}
use dbgenerality_rucbase.Query.Value.{TabCol}
use dbgenerality_rucbase.Query.Value.Bytes.{from, first}
use dbgenerality_rucbase.Query.Eval.{get_col, is_target, nat_of}

-- A column that is kept: `sel_idxs_[i]` and `cols_[i]`.
pub record Chosen : Type 0 where
  pub prev_idx : ℕ
  pub col : ColMeta

-- `pos - prev_cols.begin()` for the `pos` of `get_col`, counted from `i`.
unfoldable pub position : List ColMeta → TabCol → ℕ → Result ℕ
position [] target i = throws column_not_found
position (col ∷ cols) target i = if is_target target col then ok i else position cols target (i + 1)

-- `prev_cols[i]`
unfoldable pub col_at : List ColMeta → ℕ → Result ColMeta
col_at [] i = throws out_of_bounds
col_at (col ∷ cols) zero = ok col
col_at (col ∷ cols) (suc i) = col_at cols i

-- The loop of the constructor, from an offset: the columns that are kept and their length together.
unfoldable pub choose : List ColMeta → ℕ → List TabCol → Result (List Chosen × ℕ)
unfolding position get_col
choose prev_cols curr [] = ok ([], curr)
choose prev_cols curr (sel_col ∷ sel_cols) = do
  i ← position prev_cols sel_col 0
  col ← get_col prev_cols sel_col
  n ← nat_of col.len
  rest ← choose prev_cols (curr + n) sel_cols
  ok (record { prev_idx = i; col = record col { offset = pos curr } } ∷ rest.0, rest.1)

-- `memcpy(buf + offset, bytes, n)` for `n` bytes.
unfoldable pub write_at : ℤ → Row → Row → Result Row
write_at (pos n) bytes buf =
    if leb (n + length bytes) (length buf)
    then ok (take n buf ++ (bytes ++ drop (n + length bytes) buf))
    else throws out_of_bounds
write_at (negsuc n) bytes buf = throws out_of_bounds

-- The bytes of a column in a record.
unfoldable pub column : ColMeta → Row → Result Row
unfolding from first
column col rec = do n ← nat_of col.len; src ← from col.offset rec; first n src

-- The loop of `Next`, on the buffer of the new record.
unfoldable pub copy_cols : List ColMeta → Row → List Chosen → Row → Result Row
unfolding col_at column write_at
copy_cols prev_cols rec [] buf = ok buf
copy_cols prev_cols rec (c ∷ cs) buf = do
  prev_col ← col_at prev_cols c.prev_idx
  bytes ← column prev_col rec
  buf' ← write_at c.col.offset bytes buf
  copy_cols prev_cols rec cs buf'

-- The executor, for what the constructor chose. `blank` is what the new buffer happens to hold.
unfoldable pub projection :
    {S : Type 0} → Executor S → List ColMeta → List Chosen → Row → Executor S
unfolding copy_cols
projection prev prev_cols chosen blank = record {
  begin_tuple = prev.begin_tuple;
  next_tuple = λ s. (do require (not (prev.is_end s)) assertion_failed; prev.next_tuple s);
  is_end = prev.is_end;
  fetch = λ s. (do
    require (not (prev.is_end s)) assertion_failed
    rec ← prev.fetch s
    copy_cols prev_cols rec chosen blank);
}
