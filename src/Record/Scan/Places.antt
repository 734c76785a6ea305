-- ===== src/Record/Scan/Places.antt =====
-- `RmScan` of src/record/rm_scan.cpp against the list of the places of the file.
use dbgenerality_rucbase.Base.{
  ℕ, zero, suc, ◌+◌, ◌-◌, ◌<◌, ◌≤◌, ◌≡◌, refl, sym, ◌∙◌, ap, subst, true, List, [], ◌∷◌, ◌++◌,
  length, Option, none, some, if◌then◌else◌, ltb, arith, Bool-cases, inl, inr,
}
use dbgenerality_rucbase.Record.Bitmap.{Bytes, is_set, next_bit, next_from}
use dbgenerality_rucbase.Record.File.{RmFile}
use dbgenerality_rucbase.Record.Scan.{scan_from, begin_scan, next}

-- The specification: the slots of a page that hold a record, from one on, and the places of a file,
-- page by page.
unfoldable pub slots_from : Bytes → ℕ → ℕ → List ℕ
slots_from bm start zero = []
slots_from bm start (suc left) =
    let rest = slots_from bm (start + 1) left in if is_set bm start then start ∷ rest else rest

abbrev pub on_page : ℕ → List ℕ → List (ℕ × ℕ)
on_page p [] = []
on_page p (s ∷ ss) = (p, s) ∷ on_page p ss

unfoldable pub places : RmFile → ℕ → ℕ → ℕ → List (ℕ × ℕ)
unfolding slots_from
places file zero p start = []
places file (suc left) p start =
    on_page p (slots_from (file.pages p).bitmap start (file.file_hdr.num_records_per_page - start))
    ++ places file left (p + 1) 0

-- The search for the next bit finds the first slot of the list, or there is none.
next_from-some :
    (bm : Bytes) (i left k : ℕ)
    → next_from true bm i left + 1 + k ≡ i + left
    → slots_from bm i left
      ≡ next_from true bm i left ∷ slots_from bm (next_from true bm i left + 1) k
unfolding next_from slots_from
next_from-some bm i zero k h = absurd (omega arith)
next_from-some bm i (suc left) k h = elim (Bool-cases (is_set bm i)) [
  | inl e ↦
      let same : left ≡ k = ground arith in
      rw (e, slots_from, next_from)
        (subst (λ (m : ℕ). i ∷ slots_from bm (i + 1) left ≡ i ∷ slots_from bm (i + 1) m) same refl)
  | inr e ↦ rw (e, slots_from, next_from) (next_from-some bm (i + 1) left k (ground arith))
]

next_from-none :
    (bm : Bytes) (i left : ℕ) → i + left ≤ next_from true bm i left → slots_from bm i left ≡ []
unfolding next_from slots_from
next_from-none bm i zero h = refl
next_from-none bm i (suc left) h = elim (Bool-cases (is_set bm i)) [
  | inl e ↦ absurd (ground arith)
  | inr e ↦ rw (e, slots_from) (next_from-none bm (i + 1) left (ground arith))
]

page-none :
    (bm : Bytes) (n start : ℕ) → n ≤ next_bit true bm n start → slots_from bm start (n - start) ≡ []
unfolding next_bit slots_from
page-none bm n start h = elim (Bool-cases (ltb start n)) [
  | inl e ↦ next_from-none bm start (n - start) (ground arith)
  | inr e ↦
      let gone : n - start ≡ 0 = ground arith in
      subst (λ (k : ℕ). slots_from bm start k ≡ []) (sym gone) refl
]

page-some :
    (bm : Bytes) (n start : ℕ)
    → next_bit true bm n start < n
    → slots_from bm start (n - start)
      ≡ next_bit true bm n start
        ∷ slots_from bm (next_bit true bm n start + 1) (n - (next_bit true bm n start + 1))
unfolding next_bit
page-some bm n start h = elim (Bool-cases (ltb start n)) [
  | inl e ↦
      let s = next_from true bm start (n - start) in
      rw (next_bit, e) (next_from-some bm start (n - start) (n - (s + 1)) (ground arith))
  | inr e ↦ absurd (ground arith)
]

-- What `scan_from` gives, by the list of the places that are left.
scan_from-none :
    (left p start : ℕ) (file : RmFile)
    → scan_from left file p start ≡ none
    → places file left p start ≡ []
unfolding scan_from places next_bit
scan_from-none zero p start file e = refl
scan_from-none (suc left) p start file e =
    let n = file.file_hdr.num_records_per_page in
    let b = next_bit true (file.pages p).bitmap n start in
    elim (Bool-cases (ltb b n)) [
      | inl c ↦ absurd (ground arith)
      | inr c ↦
          rw (page-none (file.pages p).bitmap n start (ground arith))
            (scan_from-none left (p + 1) 0 file (ground arith))
    ]

scan_from-some :
    (left p start q s : ℕ) (file : RmFile)
    → scan_from left file p start ≡ some (q, s)
    → (k : ℕ) × (q + k ≡ p + left) × (places file left p start ≡ (q, s) ∷ places file k q (s + 1))
unfolding scan_from places next_bit
scan_from-some zero p start q s file e = absurd (cc e)
scan_from-some (suc left) p start q s file e =
    let n = file.file_hdr.num_records_per_page in
    let b = next_bit true (file.pages p).bitmap n start in
    elim (Bool-cases (ltb b n)) [
      | inl c ↦
          let here : (p ≡ q) × (b ≡ s) = ground arith in
          (
            suc left,
            ap (λ (k : ℕ). k + suc left) (sym here.0),
            rw (page-some (file.pages p).bitmap n start (ground arith)) (
                ap (λ (k : ℕ). (k, b) ∷ places file (suc left) k (b + 1)) here.0
                ∙ ap (λ (t : ℕ). (q, t) ∷ places file (suc left) q (t + 1)) here.1),
          )
      | inr c ↦
          let (k, a, rest) = scan_from-some left (p + 1) 0 q s file (ground arith) in
          (k, omega arith, rw (page-none (file.pages p).bitmap n start (ground arith)) rest)
    ]

-- A whole scan: the place that it is at, and the places that `next` then gives.
unfoldable pub walk : ℕ → RmFile → Option (ℕ × ℕ) → Option (List (ℕ × ℕ))
unfolding next
walk zero file at = none
walk (suc fuel) file none = some []
walk (suc fuel) file (some (p, s)) = elim (walk fuel file (next p s file)) [
  | none ↦ none
  | some rest ↦ some ((p, s) ∷ rest)
]

-- The places that a scan visits from where it is.
pub data Visits (file : RmFile) : Option (ℕ × ℕ) → List (ℕ × ℕ) → Type 0 where
  done : Visits file none []
  visit :
      {p s : ℕ} {list : List (ℕ × ℕ)}
      → Visits file (next p s file) list
      → Visits file (some (p, s)) ((p, s) ∷ list)

Visits-places :
    (n left p start : ℕ) (file : RmFile)
    → p + left ≡ file.file_hdr.num_pages
    → length (places file left p start) < n
    → Visits file (scan_from left file p start) (places file left p start)
unfolding next
Visits-places zero left p start file e h = absurd (omega arith)
Visits-places (suc n) left p start file e h =
    by_start (λ k q t. Visits-places n k q t file) (scan_from left file p start) refl
  where
    by_start :
        (ih : (k q t : ℕ)
          → q + k ≡ file.file_hdr.num_pages
          → length (places file k q t) < n
          → Visits file (scan_from k file q t) (places file k q t))
        (at : Option (ℕ × ℕ))
        → scan_from left file p start ≡ at
        → Visits file at (places file left p start)
    by_start ih none d = rw (scan_from-none left p start file d) done
    by_start ih (some (q, s)) d =
        let (k, a, list) = scan_from-some left p start q s file d in
        let here : next q s file ≡ scan_from k file q (s + 1) =
          ap (λ (m : ℕ). scan_from m file q (s + 1)) (omega arith) in
        let shorter = ap length list in
        rw (list) (visit (rw (here) (ih k q (s + 1) (omega arith) (omega arith))))

-- A scan from the start visits the places of the file.
pub Visits-begin_scan :
    (file : RmFile)
    → 1 ≤ file.file_hdr.num_pages
    → Visits file (begin_scan file) (places file (file.file_hdr.num_pages - 1) 1 0)
unfolding begin_scan
Visits-begin_scan file h =
    let left = file.file_hdr.num_pages - 1 in
    Visits-places (suc (length (places file left 1 0))) left 1 0 file (omega arith) (omega arith)

walk-Visits :
    (fuel : ℕ) (file : RmFile) (at : Option (ℕ × ℕ)) (list : List (ℕ × ℕ))
    → Visits file at list
    → length list < fuel
    → walk fuel file at ≡ some list
unfolding walk
walk-Visits zero file at list v h = absurd (omega arith)
walk-Visits (suc fuel) file none [] done h = refl
walk-Visits (suc fuel) file none (_ ∷ list) v h = elim v [ ]
walk-Visits (suc fuel) file (some (p, s)) [] v h = elim v [ ]
walk-Visits (suc fuel) file (some (p, s)) (_ ∷ list) (visit v) h =
    rw (walk-Visits fuel file (next p s file) list v (omega arith))

-- Going through a file from `begin_scan` by `next` to the end ends, and meets the records of the
-- file, from the first record page on, in the order of pages and slots and each just once: it gives
-- the list `places`, as soon as more rounds are allowed than that list is long.
pub walk-begin_scan :
    (fuel : ℕ) (file : RmFile)
    → 1 ≤ file.file_hdr.num_pages
    → length (places file (file.file_hdr.num_pages - 1) 1 0) < fuel
    → walk fuel file (begin_scan file) ≡ some (places file (file.file_hdr.num_pages - 1) 1 0)
walk-begin_scan fuel file h l =
    walk-Visits fuel file (begin_scan file) (places file (file.file_hdr.num_pages - 1) 1 0)
      (Visits-begin_scan file h) l
