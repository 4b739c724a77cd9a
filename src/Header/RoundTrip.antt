-- ===== src/Header/RoundTrip.antt =====
-- A header comes back from the page that it was written to.
use garry.Base.{
  ℕ, ◌+◌, ◌%◌, ◌^◌, ◌≤◌, ◌<◌, ◌≡◌, refl, sym, ◌∙◌, ap, List, [], ◌∷◌, drop, Bool, true, leb, ◌||◌,
  ◌&&◌, arith, inl, eq→==,
}
use garry.Base.Buffer.{Buffer, read_bytes-ext}
use garry.Endian.{write_int32, read_int32}
use garry.Endian.Laws.{read_int32-write_int32, write_int32-Outside}
use garry.Page.Layout.{read_int32-past}
use garry.Header.{
  DbHeader, off_header_checksum, fnv1a, fnv1a_offset_basis, compute_header_checksum, write_fields,
  header_fields, write_db_header, read_db_header,
}

-- No field of the list overlaps the word at `p`.
apart : ℕ → List (ℕ × ℕ) → Bool
apart p [] = true
apart p ((o, v) ∷ fields) = (leb (o + 4) p || leb (p + 4) o) && apart p fields

past_fields :
    (buf : Buffer) (fields : List (ℕ × ℕ)) (p : ℕ)
    → apart p fields ≡ true
    → read_int32 (write_fields buf fields) p ≡ read_int32 buf p
unfolding write_fields apart
past_fields buf [] p h = refl
past_fields buf ((o, v) ∷ fields) p h =
    past_fields (write_int32 buf o v) fields p (ground arith)
    ∙ read_int32-past buf o v p (ground arith)

-- A field that no later one overlaps, below the checksum, comes back.
field_back :
    (buf : Buffer) (o v c : ℕ) (fields : List (ℕ × ℕ))
    → v < 2 ^ 32
    → apart o fields ≡ true
    → o + 4 ≤ off_header_checksum
    → read_int32 (write_int32 (write_fields (write_int32 buf o v) fields) off_header_checksum c) o
      ≡ v
field_back buf o v c fields h a below =
    read_int32-past (write_fields (write_int32 buf o v) fields) off_header_checksum c o
      (ground arith)
    ∙ past_fields (write_int32 buf o v) fields o a
    ∙ read_int32-write_int32 buf o v h

-- The checksum does not depend on its own word.
checksum_past :
    (buf : Buffer) (c : ℕ)
    → compute_header_checksum (write_int32 buf off_header_checksum c) ≡ compute_header_checksum buf
unfolding compute_header_checksum
checksum_past buf c =
    ap (λ bytes. fnv1a fnv1a_offset_basis bytes % 2 ^ 31)
      (read_bytes-ext (write_int32 buf off_header_checksum c) buf 0 off_header_checksum
        (λ i lo hi. write_int32-Outside buf off_header_checksum c i (inl hi)))

stored_checksum :
    (buf : Buffer) (hdr : DbHeader)
    → read_int32 (write_db_header buf hdr) off_header_checksum
      ≡ compute_header_checksum (write_db_header buf hdr)
unfolding write_db_header
stored_checksum buf hdr =
    read_int32-write_int32 filled off_header_checksum sum small ∙ sym (checksum_past filled sum)
  where
    filled : Buffer
    filled = write_fields buf (header_fields hdr)

    sum : ℕ
    sum = compute_header_checksum filled

    small : sum < 2 ^ 32
    small = unfold compute_header_checksum in omega arith

-- Every word of the header is a 32-bit pattern.
pub record IsWords (hdr : DbHeader) : Type 0 where
  pub magic : hdr.magic < 2 ^ 32
  pub version : hdr.version < 2 ^ 32
  pub page_size : hdr.page_size < 2 ^ 32
  pub compression : hdr.compression < 2 ^ 32
  pub root_page : hdr.root_page < 2 ^ 32
  pub free_list_head : hdr.free_list_head < 2 ^ 32
  pub total_pages : hdr.total_pages < 2 ^ 32
  pub max_txns : hdr.max_txns < 2 ^ 32
  pub max_versions : hdr.max_versions < 2 ^ 32
  pub max_key_size : hdr.max_key_size < 2 ^ 32
  pub max_subscripts : hdr.max_subscripts < 2 ^ 32
  pub btree_flags : hdr.btree_flags < 2 ^ 32
  pub next_txid : hdr.next_txid < 2 ^ 32

-- The words of a written header.
words_back :
    (buf : Buffer) (hdr : DbHeader)
    → IsWords hdr
    → (read_int32 (write_db_header buf hdr) 0 ≡ hdr.magic)
      × (read_int32 (write_db_header buf hdr) 4 ≡ hdr.version)
      × (read_int32 (write_db_header buf hdr) 8 ≡ hdr.page_size)
      × (read_int32 (write_db_header buf hdr) 12 ≡ hdr.compression)
      × (read_int32 (write_db_header buf hdr) 16 ≡ hdr.root_page)
      × (read_int32 (write_db_header buf hdr) 20 ≡ hdr.free_list_head)
      × (read_int32 (write_db_header buf hdr) 24 ≡ hdr.total_pages)
      × (read_int32 (write_db_header buf hdr) 28 ≡ hdr.max_txns)
      × (read_int32 (write_db_header buf hdr) 32 ≡ hdr.max_versions)
      × (read_int32 (write_db_header buf hdr) 36 ≡ hdr.max_key_size)
      × (read_int32 (write_db_header buf hdr) 40 ≡ hdr.max_subscripts)
      × (read_int32 (write_db_header buf hdr) 44 ≡ hdr.btree_flags)
      × (read_int32 (write_db_header buf hdr) 48 ≡ hdr.next_txid)
unfolding write_db_header write_fields apart
words_back buf hdr w = (
  field_back _ 0 hdr.magic _ (drop 1 (header_fields hdr)) w.magic refl (omega arith),
  field_back _ 4 hdr.version _ (drop 2 (header_fields hdr)) w.version refl (omega arith),
  field_back _ 8 hdr.page_size _ (drop 3 (header_fields hdr)) w.page_size refl (omega arith),
  field_back _ 12 hdr.compression _ (drop 4 (header_fields hdr)) w.compression refl (omega arith),
  field_back _ 16 hdr.root_page _ (drop 5 (header_fields hdr)) w.root_page refl (omega arith),
  field_back _ 20 hdr.free_list_head _ (drop 6 (header_fields hdr)) w.free_list_head refl
      (omega arith),
  field_back _ 24 hdr.total_pages _ (drop 7 (header_fields hdr)) w.total_pages refl (omega arith),
  field_back _ 28 hdr.max_txns _ (drop 8 (header_fields hdr)) w.max_txns refl (omega arith),
  field_back _ 32 hdr.max_versions _ (drop 9 (header_fields hdr)) w.max_versions refl (omega arith),
  field_back _ 36 hdr.max_key_size _ (drop 10 (header_fields hdr)) w.max_key_size refl
      (omega arith),
  field_back _ 40 hdr.max_subscripts _ (drop 11 (header_fields hdr)) w.max_subscripts refl
      (omega arith),
  field_back _ 44 hdr.btree_flags _ (drop 12 (header_fields hdr)) w.btree_flags refl (omega arith),
  field_back _ 48 hdr.next_txid _ (drop 13 (header_fields hdr)) w.next_txid refl (omega arith),
)

-- Every header comes back from `garry_read_db_header` as it was written, but for its checksum, which
-- is that of the words written.
pub read_db_header-write_db_header :
    (buf : Buffer) (hdr : DbHeader)
    → IsWords hdr
    → read_db_header (write_db_header buf hdr) ≡ record {
      magic = hdr.magic;
      version = hdr.version;
      page_size = hdr.page_size;
      compression = hdr.compression;
      root_page = hdr.root_page;
      free_list_head = hdr.free_list_head;
      total_pages = hdr.total_pages;
      max_txns = hdr.max_txns;
      max_versions = hdr.max_versions;
      max_key_size = hdr.max_key_size;
      max_subscripts = hdr.max_subscripts;
      btree_flags = hdr.btree_flags;
      next_txid = hdr.next_txid;
      checksum = compute_header_checksum (write_db_header buf hdr);
    }
unfolding read_db_header
read_db_header-write_db_header buf hdr w =
    let f = words_back buf hdr w in
    rw
      (
        stored,
        eq→== sum sum refl,
        f.0,
        f.1,
        f.2,
        f.3,
        f.4,
        f.5,
        f.6,
        f.7,
        f.8,
        f.9,
        f.10,
        f.11,
        f.12,
      )
      refl
  where
    sum : ℕ
    sum = compute_header_checksum (write_db_header buf hdr)

    stored : read_int32 (write_db_header buf hdr) off_header_checksum ≡ sum
    stored = stored_checksum buf hdr
