-- ===== src/Query/SeqScan.antt =====
-- `SeqScanExecutor` of src/execution/executor_seq_scan.h on the file of a table, over a test of a
-- record. The context is null, as in Record.File, so that reading a record asks for no lock.
pub mod Selected
use dbgenerality_rucbase.Base.{
  ℕ, zero, suc, ◌+◌, Bool, true, false, List, [], ◌∷◌, Option, none, some,
}
use dbgenerality_rucbase.Record.File.{RmFile, get_record}
use dbgenerality_rucbase.Record.Scan.{begin_scan, next}
use dbgenerality_rucbase.Query.Result.{
  Result, ok, throws, assertion_failed, out_of_fuel, out_of_bounds, require, ◌>>=◌, ◌>>◌,
}
use dbgenerality_rucbase.System.Meta.{ColMeta}
use dbgenerality_rucbase.Query.Eval.{nat_of}
use dbgenerality_rucbase.Query.Cursor.{Row, Executor}

-- `scan` is the place of the scan, `none` at its end, and `rid` the place of the current record.
pub record SeqScan : Type 0 where
  pub scan : Option (ℕ × ℕ)
  pub rid : ℕ × ℕ

abbrev pub at_end : SeqScan → Bool
at_end s = elim s.scan [ none ↦ true | some at ↦ false ]

-- `len_` of the constructor, `cols_.back().offset + cols_.back().len`.
unfoldable pub tuple_len : List ColMeta → Result ℕ
tuple_len [] = throws out_of_bounds
tuple_len (c ∷ []) = do offset ← nat_of c.offset; len ← nat_of c.len; ok (offset + len)
tuple_len (c ∷ d ∷ cols) = tuple_len (d ∷ cols)

module _ (file : RmFile) (test : Row → Result Bool) where
  -- The loops of `beginTuple` and `nextTuple`, with a bound on their rounds.
  unfoldable pub seek : ℕ → SeqScan → Result SeqScan
  unfolding get_record next
  seek zero s = throws out_of_fuel
  seek (suc fuel) s = elim s.scan [
    | none ↦ ok s
    | some (p, slot) ↦ do
      found ← test (get_record p slot file)
      elim found [
        | true ↦ ok (record { scan = some (p, slot); rid = (p, slot) })
        | false ↦ seek fuel (record { scan = next p slot file; rid = (p, slot) })
      ]
  ]

  -- `scan_->next()`, which is not called at the end.
  unfoldable pub move_on : SeqScan → Result SeqScan
  unfolding next
  move_on s = elim s.scan [
    | none ↦ throws assertion_failed
    | some (p, slot) ↦ ok (record s { scan = next p slot file })
  ]

  -- The executor. `rounds` bounds each loop.
  unfoldable pub seq_scan : ℕ → Executor SeqScan
  unfolding seek begin_scan move_on get_record
  seq_scan rounds = record {
    begin_tuple = λ s. seek rounds (record s { scan = begin_scan file });
    next_tuple = λ s. (do s' ← move_on s; seek rounds s');
    is_end = at_end;
    fetch = λ s. elim s.scan [
      | none ↦ throws assertion_failed
      | some at ↦ ok (get_record s.rid.0 s.rid.1 file)
    ];
  }
