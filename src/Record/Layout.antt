-- ===== src/Record/Layout.antt =====
-- How `create_file` of src/record/rm_manager.h lays out a page, and `get_slot` of
-- src/record/rm_file_handle.h.
use native.Mathlib.Nat.{div-mul-le_self, mul-le-mul_right}
use dbgenerality_rucbase.Base.{
  ℕ, suc, ◌+◌, ◌*◌, ◌-◌, ◌/◌, ◌≤◌, ◌<◌, ◌≡◌, ◌||◌, Option, none, some, if◌then◌else◌, ltb, arith,
  subst, sym,
}

-- `RmFileHdr`
pub record RmFileHdr : Type 0 where
  pub record_size : ℕ
  pub num_pages : ℕ
  pub num_records_per_page : ℕ
  pub first_free_page_no : Option ℕ
  pub bitmap_size : ℕ

-- `PAGE_SIZE`
abbrev pub page_size : ℕ
page_size = 4096

-- `sizeof(RmFileHdr)`: five numbers of four bytes
abbrev pub file_hdr_size : ℕ
file_hdr_size = 20

-- `sizeof(RmPageHdr)`
abbrev pub page_hdr_size : ℕ
page_hdr_size = 8

-- `OFFSET_PAGE_HDR`
abbrev pub offset_page_hdr : ℕ
offset_page_hdr = 4

unfoldable pub records_per_page : ℕ → ℕ
records_per_page record_size = (8 * (page_size - 1 - file_hdr_size) + 1) / (1 + record_size * 8)

-- The header of a new file.
abbrev pub new_header : ℕ → RmFileHdr
new_header record_size = record {
  record_size = record_size;
  num_pages = 1;
  num_records_per_page = records_per_page record_size;
  first_free_page_no = none;
  bitmap_size = (records_per_page record_size + 8 - 1) / 8;
}

-- The file header that `create_file` writes; `none` is `InvalidRecordSizeError`.
unfoldable pub create_file : ℕ → Option RmFileHdr
unfolding records_per_page
create_file record_size =
    if ltb record_size 1 || ltb 512 record_size then none else some (new_header record_size)

-- Where the bitmap of a page starts.
abbrev pub bitmap_offset : ℕ
bitmap_offset = page_hdr_size + offset_page_hdr

-- `get_slot`: the offset in the page.
unfoldable pub get_slot : RmFileHdr → ℕ → ℕ
get_slot hdr slot_no = bitmap_offset + hdr.bitmap_size + slot_no * hdr.record_size

capacity : (rs : ℕ) → records_per_page rs + records_per_page rs * rs * 8 ≤ 32601
unfolding records_per_page
capacity rs = ground (arith, div-mul-le_self 32601 (1 + rs * 8))

room : (s n rs : ℕ) → s < n → s * rs + rs ≤ n * rs
room s n rs h = omega (arith, mul-le-mul_right {m = suc s} {n = n} rs h)

slot_bound :
    (n s rs : ℕ) → s < n → n + n * rs * 8 ≤ 32601 → 12 + (n + 8 - 1) / 8 + s * rs + rs ≤ 4096
slot_bound n s rs h c = omega (arith, room s n rs h)

header_of : (rs : ℕ) (hdr : RmFileHdr) → create_file rs ≡ some hdr → new_header rs ≡ hdr
unfolding create_file
header_of rs hdr e = ground arith

new_slots :
    (rs s t : ℕ)
    → s < t
    → t < records_per_page rs
    → (get_slot (new_header rs) t + rs ≤ page_size)
      × (get_slot (new_header rs) s + rs ≤ get_slot (new_header rs) t)
      × (t / 8 < (records_per_page rs + 8 - 1) / 8)
unfolding get_slot
new_slots rs s t h k = (
  omega (arith, slot_bound (records_per_page rs) t rs k (capacity rs)),
  omega (arith, room s t rs h),
  omega arith,
)

-- In a file that `create_file` makes, for any record size that it accepts, every slot that the
-- header counts ends inside the page, two different slots do not overlap, and the bit of a slot is
-- in the bitmap.
pub create_file-get_slot :
    (rs s t : ℕ) (hdr : RmFileHdr)
    → create_file rs ≡ some hdr
    → s < t
    → t < hdr.num_records_per_page
    → (get_slot hdr t + hdr.record_size ≤ page_size)
      × (get_slot hdr s + hdr.record_size ≤ get_slot hdr t)
      × (t / 8 < hdr.bitmap_size)
create_file-get_slot rs s t hdr e h k =
    let q = header_of rs hdr e in
    subst
      (λ (x : RmFileHdr).
        (get_slot x t + x.record_size ≤ page_size)
        × (get_slot x s + x.record_size ≤ get_slot x t)
        × (t / 8 < x.bitmap_size))
      q (new_slots rs s t h (subst (λ (x : RmFileHdr). t < x.num_records_per_page) (sym q) k))
