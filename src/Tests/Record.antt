-- ===== src/Tests/Record.antt =====
-- A record file of src/record with slots of 100 bytes.
use dbgenerality_rucbase.Base.{
  ◌+◌, ◌/◌, ◌<◌, ◌≤◌, ◌≡◌, refl, true, false, ◌&&◌, [], ◌∷◌, none, if◌then◌else◌, ◌==◌, take, arith,
  pos,
}
use dbgenerality_rucbase.Record.Bitmap.{Bytes, set, first_bit, next_bit}
use dbgenerality_rucbase.Record.Layout.{
  RmFileHdr, new_header, page_size, get_slot, create_file, records_per_page, create_file-get_slot,
}
use dbgenerality_rucbase.Record.File.{
  RmFile, zeros, insert_into, insert_into-place, is_record, get_record, delete_record,
  update_record, delete_record-is_record,
}

-- Bit 0 is set.
abbrev one_bit : Bytes
one_bit = set 0 (λ i k. false)

abbrev hdr : RmFileHdr
hdr = new_header 100

create_file-get_slot_example :
    (get_slot hdr 7 + 100 ≤ page_size)
    × (get_slot hdr 6 + 100 ≤ get_slot hdr 7)
    × (7 / 8 < hdr.bitmap_size)
unfolding create_file
create_file-get_slot_example = create_file-get_slot 100 6 7 hdr refl (omega arith) (omega arith)

abbrev one_record : RmFile
one_record = record {
  file_hdr = hdr;
  pages = λ q. record {
    next_free_page_no = none;
    num_records = pos 1;
    bitmap = one_bit;
    slots = λ s. zeros 100;
  };
  new_page_no = 2;
}

insert_into-place_example :
    ((insert_into (5 ∷ []) 1 one_record).0 ≡ (1, 1))
    × (is_record 1 1 one_record ≡ false)
    × (is_record 1 1 (insert_into (5 ∷ []) 1 one_record).1
        ≡ (if 1 == 1 && 1 == 1 then true else is_record 1 1 one_record))
    × (get_record 1 1 (insert_into (5 ∷ []) 1 one_record).1
        ≡ (if 1 == 1 && 1 == 1 then take 100 (5 ∷ []) else get_record 1 1 one_record))
unfolding next_bit set records_per_page first_bit
insert_into-place_example = insert_into-place (5 ∷ []) 1 1 1 one_record (omega arith)

delete_record-is_record_example :
    (is_record 1 0 (delete_record 1 0 one_record)
      ≡ (if 1 == 1 && 0 == 0 then false else is_record 1 0 one_record))
    × (get_record 1 0 (update_record 1 0 (7 ∷ []) one_record)
        ≡ (if 1 == 1 && 0 == 0 then take 100 (7 ∷ []) else get_record 1 0 one_record))
delete_record-is_record_example = delete_record-is_record 1 1 0 0 (7 ∷ []) one_record

abbrev empty_file : RmFile
empty_file = record {
  file_hdr = record hdr { num_pages = 2; num_records_per_page = 3 };
  pages = λ q. record {
    next_free_page_no = none;
    num_records = pos 0;
    bitmap = λ i k. false;
    slots = λ s. zeros 100;
  };
  new_page_no = 2;
}
