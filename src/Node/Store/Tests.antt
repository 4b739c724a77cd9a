-- ===== src/Node/Store/Tests.antt =====
-- The store of a leaf of one entry.
use garry.Base.{◌≡◌, refl, [], ◌∷◌, true, false, arith}
use garry.Base.Buffer.{copy_in, read_bytes, store}
use garry.Base.Word.{minus_one}
use garry.Page.Layout.{total}
use garry.Codec.{
  encode_kv, cbor_encode_array_header_raw, cbor_encode_byte_string_raw, header_bytes, int_bytes,
}
use garry.Node.{encode_node_meta, node_meta_bytes, cbor_uint_bytes, children_bytes}
use garry.Node.Load.{LoadedNode, leaf}
use garry.Node.Store.{
  meta_record, entry_record, entry_records, store_page, node_records, Contains, store_page-Contains,
}

abbrev one_entry : LoadedNode
one_entry = record {
  kind = leaf;
  level = 0;
  node = record {
    is_internal = false;
    keys = λ i. 9 ∷ [];
    values = λ i. 4 ∷ [];
    children = λ i. 0;
    next_page = minus_one;
    prev_page = minus_one;
    entry_count = 1;
  };
}

records_lem :
    node_records one_entry
    ≡ (130 ∷ 26 ∷ 0 ∷ 1 ∷ 134 ∷ 159 ∷ 26 ∷ 0 ∷ 1 ∷ 134 ∷ 159 ∷ [])
      ∷ (130 ∷ 65 ∷ 9 ∷ 65 ∷ 4 ∷ [])
      ∷ []
unfolding meta_record read_bytes entry_records encode_node_meta entry_record node_meta_bytes
    encode_kv header_bytes cbor_encode_byte_string_raw copy_in cbor_uint_bytes
    cbor_encode_array_header_raw int_bytes store children_bytes
records_lem = refl

store_page-Contains_example :
    ((store_page one_entry 512 (λ j. 0)).1 ≡ true)
    × Contains (store_page one_entry 512 (λ j. 0)).0 512 (node_records one_entry)
unfolding meta_record entry_records entry_record read_bytes encode_kv cbor_encode_byte_string_raw
    cbor_encode_array_header_raw header_bytes total encode_node_meta node_meta_bytes cbor_uint_bytes
    int_bytes children_bytes
store_page-Contains_example =
    store_page-Contains one_entry 512 (λ j. 0) (omega arith) (omega arith)
      (omega arith, omega arith)
