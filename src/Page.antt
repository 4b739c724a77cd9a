-- ===== src/Page.antt =====
-- src/slotted_page.c: a page of variable-length records. The slot directory grows up from the
-- header, the records grow down from the end of the page. A 32-bit word is its pattern, so the
-- comparisons are the signed ones of `Base.Word`.
pub mod Layout
pub mod Frame
pub mod Insert
pub mod Get
mod Tests
use garry.Base.{
  ℕ, zero, suc, ◌+◌, ◌-◌, ◌*◌, ◌/◌, ◌%◌, List, [], ◌∷◌, length, Option, none, some, Bool, true,
  false, if◌then◌else◌, ◌||◌,
}
use garry.Base.Buffer.{Buffer, store, zero_fill, copy_in, read_bytes}
use garry.Base.Word.{add32, sub32, slt, sle, minus_one}
use garry.Endian.{read_int32, write_int32}

-- GARRY_PAGE_HEADER_SIZE, GARRY_SLOT_SIZE, GARRY_MAX_SLOTS
abbrev pub header_size : ℕ
header_size = 32

abbrev pub slot_size : ℕ
slot_size = 4

abbrev pub max_slots : ℕ
max_slots = 128

-- GARRY_PAGE_HDR_OFF_*
abbrev pub off_type : ℕ
off_type = 0

abbrev pub off_level : ℕ
off_level = 4

abbrev pub off_count : ℕ
off_count = 8

abbrev pub off_free_start : ℕ
off_free_start = 12

abbrev pub off_free_end : ℕ
off_free_end = 16

abbrev pub off_compression : ℕ
off_compression = 20

abbrev pub off_parent : ℕ
off_parent = 24

abbrev pub off_checksum : ℕ
off_checksum = 28

pub record SlotEntry : Type 0 where
  pub offset : ℕ
  pub length : ℕ

abbrev pub slot_at : ℕ → ℕ
slot_at idx = header_size + idx * slot_size

unfoldable pub read_slot : Buffer → ℕ → SlotEntry
read_slot buf idx = record {
  offset = buf (slot_at idx) + buf (slot_at idx + 1) * 256;
  length = buf (slot_at idx + 2) + buf (slot_at idx + 3) * 256;
}

-- The entry's numbers are not negative, so `%` and `/` are those of natural numbers.
unfoldable pub write_slot : Buffer → ℕ → SlotEntry → Buffer
unfolding store
write_slot buf idx entry =
    let b0 = store buf (slot_at idx) (entry.offset % 256) in
    let b1 = store b0 (slot_at idx + 1) (entry.offset / 256 % 256) in
    let b2 = store b1 (slot_at idx + 2) (entry.length % 256) in
    store b2 (slot_at idx + 3) (entry.length / 256 % 256)

unfoldable pub page_record_count : Buffer → ℕ
page_record_count buf = read_int32 buf off_count

-- `ptype` is the number of the node kind.
unfoldable pub page_init : Buffer → ℕ → ℕ → ℕ → Buffer
page_init buf ptype level page_size =
    let b0 = zero_fill buf page_size in
    let b1 = write_int32 b0 off_type ptype in
    let b2 = write_int32 b1 off_level level in
    let b3 = write_int32 b2 off_count 0 in
    let b4 = write_int32 b3 off_free_start header_size in
    let b5 = write_int32 b4 off_free_end page_size in
    let b6 = write_int32 b5 off_compression 0 in
    let b7 = write_int32 b6 off_parent 0 in write_int32 b7 off_checksum 0

-- The writes of a successful insert: slot, count, both ends of the free space, the record's bytes.
unfoldable pub write_record : Buffer → ℕ → ℕ → ℕ → List ℕ → Buffer
write_record buf count free_start new_end bytes =
    let b0 = write_slot buf count (record { offset = new_end; length = length bytes }) in
    let b1 = write_int32 b0 off_count (add32 count 1) in
    let b2 = write_int32 b1 off_free_start (add32 free_start slot_size) in
    let b3 = write_int32 b2 off_free_end new_end in copy_in b3 new_end bytes

-- The five tests before the first write; true if one of them refuses the record.
unfoldable pub no_room : ℕ → ℕ → ℕ → ℕ → Bool
no_room count free_start free_end dlen =
    sle max_slots count
    || (slt free_end (add32 free_start slot_size)
        || (slt (sub32 free_end dlen) header_size
            || (slt (sub32 free_end free_start) (add32 dlen slot_size)
                || slt (sub32 free_end dlen) (add32 free_start slot_size))))

-- `none` is the result -1, which leaves the page alone; otherwise the new slot's index.
unfoldable pub page_insert : Buffer → List ℕ → Option (ℕ × Buffer)
page_insert buf bytes =
    let count = read_int32 buf off_count in
    let free_start = read_int32 buf off_free_start in
    let free_end = read_int32 buf off_free_end in
    if no_room count free_start free_end (length bytes)
    then none
    else some (count, write_record buf count free_start (sub32 free_end (length bytes)) bytes)

-- `none` is the result -1; otherwise the bytes that go through `data`.
unfoldable pub page_get : Buffer → ℕ → ℕ → Option (List ℕ)
page_get buf slot_idx page_size =
    let entry = read_slot buf slot_idx in
    if slt slot_idx 0 || sle (page_record_count buf) slot_idx
    then none
    else if slt (sub32 page_size header_size) entry.length
    then none
    else some (read_bytes buf entry.offset entry.length)
