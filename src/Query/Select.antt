-- ===== src/Query/Select.antt =====
-- The plan of a query on two tables: a projection of a nested-loop join of two sequential scans, as
-- src/portal.h composes the executors.
use dbgenerality_rucbase.Base.{ℕ, ◌-◌, ◌*◌, ◌<◌, ◌≤◌, ◌≡◌, ◌≢◌, List, [], length}
use dbgenerality_rucbase.Index.Order.{Sign}
use dbgenerality_rucbase.System.Meta.{ColMeta}
use dbgenerality_rucbase.Record.File.{RmFile}
use dbgenerality_rucbase.Record.Scan.Places.{places}
use dbgenerality_rucbase.Query.Result.{Result, ok}
use dbgenerality_rucbase.Query.Cursor.{Row, Executor, Restarts}
use dbgenerality_rucbase.Query.Value.{TabCol, Condition}
use dbgenerality_rucbase.Query.Eval.{eval_conds, eval_join_conds}
use dbgenerality_rucbase.Query.SeqScan.{SeqScan, tuple_len, seq_scan}
use dbgenerality_rucbase.Query.SeqScan.Selected.{selected, seq_scan-selected}
use dbgenerality_rucbase.Query.Join.{join, join_cols}
use dbgenerality_rucbase.Query.Join.Product.{product, join-product}
use dbgenerality_rucbase.Query.Projection.{Chosen, choose, projection}
use dbgenerality_rucbase.Query.Projection.Columns.{columns, each, projection-columns}

-- A table as a statement uses it: its file, its columns and the conditions on it alone.
pub record Table : Type 0 where
  pub file : RmFile
  pub cols : List ColMeta
  pub conds : List Condition

-- All the places of a table's file.
abbrev pub all_places : Table → List (ℕ × ℕ)
all_places t = places t.file (t.file.file_hdr.num_pages - 1) 1 0

-- The records of a table that pass its conditions.
abbrev pub chosen_rows : (Row → Row → Sign) → Table → Result (List Row)
chosen_rows float_sign t = selected (eval_conds float_sign t.cols t.conds) t.file (all_places t)

-- The scan of a table.
abbrev pub scan_of : (Row → Row → Sign) → Table → ℕ → Executor SeqScan
scan_of float_sign t rounds = seq_scan t.file (eval_conds float_sign t.cols t.conds) rounds

-- A query on two tables: it joins what the scans of the tables give on some conditions and gives
-- some columns of the result. For each table let the file have its header page and a scan have more
-- rounds than the file has records, let no condition fail on a record or a pair; let the right
-- table have a record that passes its conditions. Then the plan gives from each start the asked
-- columns of the joined pairs of chosen records that meet the join's conditions, in the order of
-- the product, as soon as the join may take more rounds than there are pairs.
pub select-answer :
    (float_sign : Row → Row → Sign) (l r : Table) (left_len rounds : ℕ) (conds : List Condition)
    (sel_cols : List TabCol) (chosen : List Chosen) (len : ℕ) (blank : Row)
    (outer inner pairs out : List Row)
    → tuple_len l.cols ≡ ok left_len
    → 1 ≤ l.file.file_hdr.num_pages
    → 1 ≤ r.file.file_hdr.num_pages
    → length (all_places l) < rounds
    → length (all_places r) < rounds
    → chosen_rows float_sign l ≡ ok outer
    → chosen_rows float_sign r ≡ ok inner
    → inner ≢ []
    → length outer * length inner < rounds
    → product
        (eval_join_conds float_sign left_len (join_cols left_len l.cols r.cols) conds)
        outer
        inner
      ≡ ok pairs
    → choose (join_cols left_len l.cols r.cols) 0 sel_cols ≡ ok (chosen, len)
    → length blank ≡ len
    → each (columns (join_cols left_len l.cols r.cols) sel_cols) pairs ≡ ok out
    → Restarts
        (projection
          (join
            (scan_of float_sign l rounds)
            (scan_of float_sign r rounds)
            (eval_join_conds float_sign left_len (join_cols left_len l.cols r.cols) conds)
            rounds)
          (join_cols left_len l.cols r.cols)
          chosen
          blank)
        out
select-answer float_sign l r left_len rounds conds sel_cols chosen len blank outer inner pairs out
      wl hl hr nl nr cl cr ne np p c b e =
    let cols = join_cols left_len l.cols r.cols in
    let matches = eval_join_conds float_sign left_len cols conds in
    projection-columns
      (join (scan_of float_sign l rounds) (scan_of float_sign r rounds) matches rounds) cols
      sel_cols chosen len blank pairs out
      (join-product (scan_of float_sign l rounds) (scan_of float_sign r rounds) matches inner
        (seq_scan-selected r.file (eval_conds float_sign r.cols r.conds) rounds inner hr nr cr) ne
        rounds outer pairs
        (seq_scan-selected l.file (eval_conds float_sign l.cols l.conds) rounds outer hl nl cl) np
        p)
      c b e
