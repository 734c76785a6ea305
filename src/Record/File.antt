-- ===== src/Record/File.antt =====
-- `RmFileHandle` of src/record/rm_file_handle.{h,cpp} with a null context, so that no lock is asked
-- for. The pages are those that the buffer pool shows; pins and dirty marks are not kept here.
use dbgenerality_rucbase.Base.{
  ℕ, zero, suc, ◌+◌, ◌<◌, ◌≡◌, refl, ◌∙◌, Bool, true, false, ◌&&◌, List, [], ◌∷◌, Option, none,
  some, if◌then◌else◌, ◌==◌, take, arith, ==_iff, ap, ℤ, pos, negsuc, inc, eqb_ℤ, Bool-cases, inl,
  inr,
}
use dbgenerality_rucbase.Record.Bitmap.{
  Bytes, set, reset, is_set, first_bit, next_bit-hit, is_set-set,
}
use dbgenerality_rucbase.Record.Layout.{RmFileHdr}

-- A page: `RmPageHdr`, the bitmap and the slots.
pub record RmPage : Type 0 where
  pub next_free_page_no : Option ℕ
  pub num_records : ℤ
  pub bitmap : Bytes
  pub slots : ℕ → List ℕ

-- `new_page_no` is the page number that the disk manager gives out next.
pub record RmFile : Type 0 where
  pub file_hdr : RmFileHdr
  pub pages : ℕ → RmPage
  pub new_page_no : ℕ

-- `num_records--`
abbrev pub dec : ℤ → ℤ
dec (pos zero) = negsuc 0
dec (pos (suc n)) = pos n
dec (negsuc n) = negsuc (suc n)

abbrev pub zeros : ℕ → List ℕ
zeros zero = []
zeros (suc n) = 0 ∷ zeros n

unfoldable pub write_page_of : ℕ → RmPage → (ℕ → RmPage) → ℕ → RmPage
write_page_of p page pages q = if p == q then page else pages q

-- The file and the page that the handle points at.
unfoldable pub create_new_page_handle : RmFile → ℕ × RmFile
unfolding write_page_of
create_new_page_handle file =
    let p = file.new_page_no in
    let page : RmPage = record {
      next_free_page_no = file.file_hdr.first_free_page_no;
      num_records = pos 0;
      bitmap = λ i k. false;
      slots = λ s. zeros file.file_hdr.record_size;
    } in
    (
      p,
      record {
        file_hdr = record file.file_hdr {
          first_free_page_no = some p;
          num_pages = file.file_hdr.num_pages + 1;
        };
        pages = write_page_of p page file.pages;
        new_page_no = p + 1;
      },
    )

unfoldable pub create_page_handle : RmFile → ℕ × RmFile
unfolding create_new_page_handle
create_page_handle file = elim file.file_hdr.first_free_page_no [
  | none ↦ create_new_page_handle file
  | some p ↦ (p, file)
]

unfoldable pub write_slot : ℕ → List ℕ → (ℕ → List ℕ) → ℕ → List ℕ
write_slot s d slots t = if t == s then d else slots t

-- `insert_record` on the page that the handle points at: the place and the file.
unfoldable pub insert_into : List ℕ → ℕ → RmFile → (ℕ × ℕ) × RmFile
unfolding write_page_of write_slot set first_bit
insert_into buf p file =
    let page = file.pages p in
    let hdr = file.file_hdr in
    let s = first_bit false page.bitmap hdr.num_records_per_page in
    let count = inc page.num_records in
    let page' = record page {
      num_records = count;
      bitmap = set s page.bitmap;
      slots = write_slot s (take hdr.record_size buf) page.slots;
    } in
    (
      (p, s),
      record file {
        file_hdr =
            if eqb_ℤ count (pos hdr.num_records_per_page)
            then record hdr { first_free_page_no = page.next_free_page_no }
            else hdr;
        pages = write_page_of p page' file.pages;
      },
    )

unfoldable pub insert_record : List ℕ → RmFile → (ℕ × ℕ) × RmFile
unfolding create_page_handle insert_into
insert_record buf file = let (p, created) = create_page_handle file in insert_into buf p created

unfoldable pub is_record : ℕ → ℕ → RmFile → Bool
unfolding is_set
is_record p s file = is_set (file.pages p).bitmap s

unfoldable pub get_record : ℕ → ℕ → RmFile → List ℕ
get_record p s file = (file.pages p).slots s

unfoldable pub update_record : ℕ → ℕ → List ℕ → RmFile → RmFile
unfolding write_page_of write_slot
update_record p s buf file =
    let page = file.pages p in
    record file {
      pages =
          write_page_of p
            (record page { slots = write_slot s (take file.file_hdr.record_size buf) page.slots })
            file.pages;
    }

-- `delete_record`; the page goes to the front of the free list if it was full before.
unfoldable pub delete_record : ℕ → ℕ → RmFile → RmFile
unfolding write_page_of reset
delete_record p s file =
    let page = file.pages p in
    let hdr = file.file_hdr in
    let page' = record page { num_records = dec page.num_records; bitmap = reset s page.bitmap } in
    if eqb_ℤ page'.num_records (dec (pos hdr.num_records_per_page))
    then record file {
      file_hdr = record hdr { first_free_page_no = some p };
      pages =
          write_page_of p (record page' { next_free_page_no = hdr.first_free_page_no }) file.pages;
    }
    else record file { pages = write_page_of p page' file.pages }

apply_page {ℓ} :
    {A : Type ℓ} (f : RmPage → A) (p q : ℕ) (page : RmPage) (pages : ℕ → RmPage)
    → f (write_page_of p page pages q) ≡ (if p == q then f page else f (pages q))
unfolding write_page_of
apply_page f p q page pages = elim (Bool-cases (p == q)) [ inl e ↦ rw e | inr e ↦ rw e ]

merge {ℓ} :
    {A : Type ℓ} (p q : ℕ) (c : Bool) (new mid : A) (old : ℕ → A)
    → mid ≡ (if c then new else old p)
    → (if p == q then mid else old q) ≡ (if p == q && c then new else old q)
merge p q c new mid old e = elim (Bool-cases (p == q)) [
  | inr f ↦ rw f
  | inl f ↦ rw f (e ∙ ap (λ (k : ℕ). if c then new else old k) ((==_iff p q).0 f))
]

-- What an attribute of a place is after the page of one place is written.
written {ℓ} :
    {A : Type ℓ} (f : RmPage → A) (p q : ℕ) (c : Bool) (new : A) (page : RmPage)
    (pages : ℕ → RmPage)
    → f page ≡ (if c then new else f (pages p))
    → f (write_page_of p page pages q) ≡ (if p == q && c then new else f (pages q))
written f p q c new page pages e =
    apply_page f p q page pages ∙ merge p q c new (f page) (λ k. f (pages k)) e

-- Where the page that `insert_record` takes has a clear bit among its slots, the record is put into
-- a slot that the page counts and that held no record; after it that slot holds a record, with the
-- data given, and for every other slot of every page both are as they were once the page was taken.
pub insert_into-place :
    (buf : List ℕ) (p q t : ℕ) (file : RmFile)
    → first_bit false (file.pages p).bitmap file.file_hdr.num_records_per_page
      < file.file_hdr.num_records_per_page
    → (let s = first_bit false (file.pages p).bitmap file.file_hdr.num_records_per_page in
        let after = (insert_into buf p file).1 in
        ((insert_into buf p file).0 ≡ (p, s))
        × (is_record p s file ≡ false)
        × (is_record q t after ≡ (if p == q && t == s then true else is_record q t file))
        × (get_record q t after ≡ (
            if p == q && t == s then take file.file_hdr.record_size buf else get_record q t file)))
unfolding insert_into is_record get_record write_page_of write_slot first_bit
insert_into-place buf p q t file h =
    let bm = (file.pages p).bitmap in
    let n = file.file_hdr.num_records_per_page in
    let s = first_bit false bm n in
    (
      refl,
      (ground (arith, next_bit-hit false bm n 0 h)),
      written (λ x. is_set x.bitmap t) p q (t == s) true _ file.pages (is_set-set s t bm).0,
      written (λ x. x.slots t) p q (t == s) (take file.file_hdr.record_size buf) _ file.pages refl,
    )

-- `delete_record` clears the record at its place and no other, and `update_record` changes the data
-- at its place and no other.
pub delete_record-is_record :
    (p q s t : ℕ) (buf : List ℕ) (file : RmFile)
    → (is_record q t (delete_record p s file)
        ≡ (if p == q && t == s then false else is_record q t file))
      × (get_record q t (update_record p s buf file)
          ≡ (if p == q && t == s then take file.file_hdr.record_size buf else get_record q t file))
unfolding delete_record update_record is_record get_record write_page_of write_slot
delete_record-is_record p q s t buf file = (
  elim (Bool-cases
      (eqb_ℤ (dec (file.pages p).num_records) (dec (pos file.file_hdr.num_records_per_page)))) [
        | inl e ↦ rw e (
            written (λ x. is_set x.bitmap t) p q (t == s) false _ file.pages
              (is_set-set s t (file.pages p).bitmap).1)
        | inr e ↦ rw e (
            written (λ x. is_set x.bitmap t) p q (t == s) false _ file.pages
              (is_set-set s t (file.pages p).bitmap).1)
      ],
  written (λ x. x.slots t) p q (t == s) (take file.file_hdr.record_size buf) _ file.pages refl,
)
