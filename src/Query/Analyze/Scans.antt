-- ===== src/Query/Analyze/Scans.antt =====
-- The conditions of `check_clause` in src/analyze/analyze.cpp, in a sequential scan.
use dbgenerality_rucbase.Base.{
  ℕ, ◌-◌, ◌<◌, ◌≤◌, ◌≡◌, refl, Bool, List, [], ◌∷◌, some, length, if◌then◌else◌,
}
use dbgenerality_rucbase.Index.Order.{Sign}
use dbgenerality_rucbase.Record.File.{RmFile, get_record}
use dbgenerality_rucbase.Record.Scan.Places.{places}
use dbgenerality_rucbase.System.Meta.{TabMeta}
use dbgenerality_rucbase.System.Catalogue.{DbMeta, get_table}
use dbgenerality_rucbase.Query.Result.{Result, ok}
use dbgenerality_rucbase.Query.Cursor.{Row, Restarts}
use dbgenerality_rucbase.Query.Value.{Condition}
use dbgenerality_rucbase.Query.Eval.{eval_conds}
use dbgenerality_rucbase.Query.SeqScan.{seq_scan}
use dbgenerality_rucbase.Query.SeqScan.Selected.{selected, seq_scan-selected}
use dbgenerality_rucbase.Query.Analyze.{check_clause}
use dbgenerality_rucbase.Query.Analyze.Checked.{All, ColFits}
use dbgenerality_rucbase.Query.Analyze.Evaluates.{OwnLiteral, check_clause-eval_conds}

selected_total :
    (test : Row → Result Bool) (size : ℕ) (file : RmFile) (list : List (ℕ × ℕ))
    → ((rec : Row) → length rec ≡ size → (b : Bool) × (test rec ≡ ok b))
    → ((p s : ℕ) → length (get_record p s file) ≡ size)
    → (rows : List Row) × (selected test file list ≡ ok rows)
unfolding selected
selected_total test size file [] total h = ([], refl)
selected_total test size file ((p, s) ∷ list) total h =
    let (b, e) = total (get_record p s file) (h p s) in
    let (rows, f) = selected_total test size file list total h in
    (if b then get_record p s file ∷ rows else rows, rw (selected, e, f))

-- The sequential scan of a statement on one table, with the conditions that `check_clause` accepts,
-- comes to its end: as soon as its loops may take more rounds than the file has records it yields
-- from each start the records that pass, and no test of a record fails. This holds where the
-- catalogue has the table, each of its columns carries its name and lies within a record, each
-- condition compares a column, of this table if its table is given, with a literal, each record has
-- the table's size, and the file has its header page.
pub seq_scan-check_clause :
    (db : DbMeta) (tab : TabMeta) (size : ℕ) (float_sign : Row → Row → Sign)
    (conds conds' : List Condition) (file : RmFile) (rounds : ℕ)
    → get_table db tab.name ≡ some tab
    → All (ColFits tab.name size) tab.cols
    → All (OwnLiteral tab.name) conds
    → check_clause db (tab.name ∷ []) conds ≡ ok conds'
    → ((p s : ℕ) → length (get_record p s file) ≡ size)
    → 1 ≤ file.file_hdr.num_pages
    → length (places file (file.file_hdr.num_pages - 1) 1 0) < rounds
    → (rows : List Row) × (selected
          (eval_conds float_sign tab.cols conds')
          file
          (places file (file.file_hdr.num_pages - 1) 1 0)
        ≡ ok rows)
      × Restarts (seq_scan file (eval_conds float_sign tab.cols conds') rounds) rows
seq_scan-check_clause db tab size float_sign conds conds' file rounds there fits own e h n l =
    let test = eval_conds float_sign tab.cols conds' in
    let (rows, all) =
      selected_total test size file (places file (file.file_hdr.num_pages - 1) 1 0)
        (λ rec r.
          check_clause-eval_conds db tab size there fits float_sign conds conds' rec own e r)
        h in
    (rows, all, seq_scan-selected file test rounds rows n l all)
