-- ===== src/Query/SeqScan/Selected.antt =====
-- `SeqScanExecutor` of src/execution/executor_seq_scan.h against the list of the places of the file.
use dbgenerality_rucbase.Base.{
  ℕ, zero, suc, ◌-◌, ◌<◌, ◌≤◌, ◌≡◌, refl, sym, subst, Bool, true, false, List, [], ◌∷◌, length,
  Option, none, some, if◌then◌else◌, arith,
}
use dbgenerality_rucbase.Record.File.{RmFile, get_record}
use dbgenerality_rucbase.Record.Scan.{begin_scan, next}
use dbgenerality_rucbase.Record.Scan.Places.{places, Visits, done, visit, Visits-begin_scan}
use dbgenerality_rucbase.Query.Result.{Result, ok, throws, ◌>>=◌}
use dbgenerality_rucbase.Query.Cursor.{Row, Yields, ended, gives, Restarts}
use dbgenerality_rucbase.Query.SeqScan.{SeqScan, seek, move_on, seq_scan}

-- The specification: of the records at some places those that pass. A test that fails fails the
-- whole.
unfoldable pub selected : (Row → Result Bool) → RmFile → List (ℕ × ℕ) → Result (List Row)
unfolding get_record
selected test file [] = ok []
selected test file ((p, s) ∷ list) = do
  found ← test (get_record p s file)
  rest ← selected test file list
  ok (if found then get_record p s file ∷ rest else rest)

-- One place of the specification.
selected_back :
    (m : Result Bool) (tail : Result (List Row)) (r : Row) (rows : List Row)
    → (do found ← m; rest ← tail; ok (if found then r ∷ rest else rest)) ≡ ok rows
    → (b : Bool) × (rest : List Row) × (m ≡ ok b)
      × (tail ≡ ok rest)
      × (rows ≡ (if b then r ∷ rest else rest))
selected_back (throws x) tail r rows e = absurd (cc e)
selected_back (ok b) (throws x) r rows e = absurd (cc e)
selected_back (ok true) (ok t) r rows e = (true, t, refl, refl, cc e)
selected_back (ok false) (ok t) r rows e = (false, t, refl, refl, cc e)

module _ (file : RmFile) (test : Row → Result Bool) (rounds : ℕ) where
  -- The loop ends where the scan goes on to yield these records.
  abbrev Seeks : ℕ → SeqScan → List Row → Type 0
  Seeks fuel s rows =
      (s' : SeqScan) × (seek file test fuel s ≡ ok s') × Yields (seq_scan file test rounds) s' rows

  abbrev at_place : Option (ℕ × ℕ) → ℕ × ℕ → SeqScan
  at_place at r = record { scan = at; rid = r }

  -- One round of the loop, by what the test says.
  seek_round_lem :
      (b : Bool) (fuel p s : ℕ) (r : ℕ × ℕ) (rest : List Row)
      → test (get_record p s file) ≡ ok b
      → Seeks fuel (at_place (next p s file) (p, s)) rest
      → Seeks rounds (at_place (next p s file) (p, s)) rest
      → Seeks (suc fuel) (at_place (some (p, s)) r) (if b then get_record p s file ∷ rest else rest)
  unfolding seek seq_scan move_on
  seek_round_lem true fuel p s r rest m here (s', a, y) =
      (at_place (some (p, s)) (p, s), rw (m), gives refl refl a y)
  seek_round_lem false fuel p s r rest m (s', a, y) onward = (s', rw (m) a, y)

  seeks :
      (list : List (ℕ × ℕ)) (fuel : ℕ) (at : Option (ℕ × ℕ)) (r : ℕ × ℕ) (rows : List Row)
      → Visits file at list
      → length list < fuel
      → length list < rounds
      → selected test file list ≡ ok rows
      → Seeks fuel (at_place at r) rows
  unfolding seek selected seq_scan
  seeks list zero at r rows v f g e = absurd (omega arith)
  seeks [] (suc fuel) none r rows done f g e = (
    at_place none r,
    refl,
    subst (λ (l : List Row). Yields (seq_scan file test rounds) (at_place none r) l) (cc e)
        (ended refl),
  )
  seeks [] (suc fuel) (some at) r rows v f g e = elim v [ ]
  seeks (_ ∷ list) (suc fuel) none r rows v f g e = elim v [ ]
  seeks (_ ∷ list) (suc fuel) (some (p, s)) r rows (visit v) f g e =
      let (b, rest, m, t, o) =
        selected_back (test (get_record p s file)) (selected test file list) (get_record p s file)
          rows e in
      subst (λ (l : List Row). Seeks (suc fuel) (at_place (some (p, s)) r) l) (sym o)
        (seek_round_lem b fuel p s r rest m
          (seeks list fuel (next p s file) (p, s) rest v (omega arith) (omega arith) t)
          (seeks list rounds (next p s file) (p, s) rest v (omega arith) (omega arith) t))

-- A sequential scan whose loops may take more rounds than the file has records yields, from each
-- start, just the records of the file that pass the test, in the order of the file, where the test
-- ends without an error on each record.
pub seq_scan-selected :
    (file : RmFile) (test : Row → Result Bool) (rounds : ℕ) (rows : List Row)
    → 1 ≤ file.file_hdr.num_pages
    → length (places file (file.file_hdr.num_pages - 1) 1 0) < rounds
    → selected test file (places file (file.file_hdr.num_pages - 1) 1 0) ≡ ok rows
    → Restarts (seq_scan file test rounds) rows
unfolding seq_scan
seq_scan-selected file test rounds rows h l e s =
    seeks file test rounds (places file (file.file_hdr.num_pages - 1) 1 0) rounds (begin_scan file)
      s.rid rows (Visits-begin_scan file h) l l e
