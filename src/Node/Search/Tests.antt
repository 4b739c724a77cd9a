-- ===== src/Node/Search/Tests.antt =====
-- The search at a tree of one leaf, in a pool over a file.
use garry.Base.{ℕ, ◌≡◌, refl, [], ◌∷◌, Option, none, some, true, ◌==◌, if◌then◌else◌}
use garry.Base.Buffer.{Buffer, copy_in, read_bytes}
use garry.Base.Word.{minus_one}
use garry.Endian.{read_int32, write_int32}
use garry.Codec.{
  decode_kv, cbor_array_header_size_raw, cbor_decode_byte_string_raw, cbor_decode_array_header_raw,
}
use garry.Page.{
  page_init, page_insert, no_room, write_record, write_slot, page_record_count, page_get, read_slot,
}
use garry.Pool.{BufferPool, empty_slot, find_slot, slot_from, file_read_page}
use garry.Pool.Find.{view}
use garry.Compress.{byte_equal}
use garry.Node.{
  leaf_find, find_from, decode_node_meta, decode_elements, decode_children, decode_cbor_uint,
}
use garry.Node.Load.{load_entries, load_entry, load_meta, node_of_page, kind_of, leaf_value}

abbrev blank : Buffer
blank j = 0

abbrev or_blank : Option (ℕ × Buffer) → Buffer
or_blank none = blank
or_blank (some (i, b)) = b

-- A leaf with the metadata record of no neighbours and the entry of the one-byte key 9 with the value
-- 4.
abbrev leaf_page : Buffer
leaf_page = or_blank (
    page_insert
      (or_blank (
        page_insert (page_init blank 1 0 512)
          (130 ∷ 26 ∷ 0 ∷ 1 ∷ 134 ∷ 159 ∷ 26 ∷ 0 ∷ 1 ∷ 134 ∷ 159 ∷ [])))
      (130 ∷ 65 ∷ 9 ∷ 65 ∷ 4 ∷ []))

abbrev start : BufferPool
start = record {
  capacity = 2;
  page_size = 512;
  slots = λ i. empty_slot;
  file = record { pages = λ q. if q == 3 then some leaf_page else none; writable = λ q. true };
  next_page = 4;
  free_list_head = minus_one;
  access_counter = 0;
}

found_lem : leaf_value (node_of_page (view start 3) 512 0).node (9 ∷ []) ≡ some (4 ∷ [])
unfolding view find_slot slot_from file_read_page node_of_page kind_of page_insert page_init no_room
    write_record write_slot copy_in read_int32 write_int32 leaf_value leaf_find find_from
    load_entries load_entry load_meta page_record_count page_get read_slot read_bytes decode_kv
    decode_node_meta decode_elements decode_children decode_cbor_uint byte_equal
    cbor_array_header_size_raw cbor_decode_byte_string_raw cbor_decode_array_header_raw
found_lem = refl
