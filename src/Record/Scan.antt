-- ===== src/Record/Scan.antt =====
-- `RmScan` of src/record/rm_scan.cpp on the pages that the buffer pool shows; `none` is the end.
pub mod Places
use dbgenerality_rucbase.Base.{
  ℕ, zero, suc, ◌+◌, ◌-◌, ◌<◌, ◌≤◌, ◌≡◌, Bool, true, false, Option, none, some, if◌then◌else◌, ltb,
  arith, Bool-cases, inl, inr, ℕ_discrete, subst,
}
use dbgenerality_rucbase.Record.Bitmap.{is_set, next_bit, next_bit-skips, eqb_bool}
use dbgenerality_rucbase.Record.File.{RmFile, is_record}

-- The loop of `next` over the pages that are left, from a page and a slot in it.
unfoldable pub scan_from : ℕ → RmFile → ℕ → ℕ → Option (ℕ × ℕ)
unfolding next_bit
scan_from zero file p start = none
scan_from (suc left) file p start =
    let n = file.file_hdr.num_records_per_page in
    let s = next_bit true (file.pages p).bitmap n start in
    let rest = scan_from left file (p + 1) 0 in if ltb s n then some (p, s) else rest

-- The constructor: from the first record page, before its first slot.
unfoldable pub begin_scan : RmFile → Option (ℕ × ℕ)
unfolding scan_from
begin_scan file = scan_from (file.file_hdr.num_pages - 1) file 1 0

-- `next` from a place that is not the end.
unfoldable pub next : ℕ → ℕ → RmFile → Option (ℕ × ℕ)
unfolding scan_from
next p s file = scan_from (file.file_hdr.num_pages - p) file p (s + 1)

not_set : (b : Bool) → eqb_bool b true ≡ false → b ≡ false
not_set true e = absurd (cc e)
not_set false e = e

scan_from-none :
    (left p q t : ℕ) (file : RmFile)
    → scan_from left file p 0 ≡ none
    → p ≤ q
    → q < p + left
    → t < file.file_hdr.num_records_per_page
    → is_record q t file ≡ false
unfolding scan_from is_record
scan_from-none zero p q t file e a b h = absurd (omega arith)
scan_from-none (suc left) p q t file e a b h =
    let n = file.file_hdr.num_records_per_page in
    let s = next_bit true (file.pages p).bitmap n 0 in
    elim (Bool-cases (ltb s n)) [
      | inl c ↦ absurd (ground arith)
      | inr c ↦
          let rest : scan_from left file (p + 1) 0 ≡ none = ground arith in
          elim (ℕ_discrete p q) [
            | no d ↦ scan_from-none left (p + 1) q t file rest (omega arith) (omega arith) h
            | yes d ↦
                subst (λ (k : ℕ). is_record k t file ≡ false) d
                  (not_set (is_set (file.pages p).bitmap t)
                    (next_bit-skips true (file.pages p).bitmap n 0 t (omega arith) (ground arith)
                      (omega arith)).1)
          ]
    ]

-- A scan that is at its end from the start has a file without records: no slot that a page counts,
-- on any page from the first record page on, holds one.
pub begin_scan-none :
    (q t : ℕ) (file : RmFile)
    → begin_scan file ≡ none
    → 1 ≤ q
    → q < file.file_hdr.num_pages
    → t < file.file_hdr.num_records_per_page
    → is_record q t file ≡ false
unfolding begin_scan
begin_scan-none q t file e a b h =
    scan_from-none (file.file_hdr.num_pages - 1) 1 q t file e a (omega arith) h
