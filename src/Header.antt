-- ===== src/Header.antt =====
-- src/db_header.c: the database header, fourteen 32-bit words with a checksum behind them. A word is
-- its bit pattern.
pub mod RoundTrip
pub mod Validity
mod Tests
use garry.Base.{
  ℕ, ◌+◌, ◌*◌, ◌%◌, ◌^◌, List, [], ◌∷◌, Bool, true, false, not, ◌&&◌, ltb, ◌==◌, if◌then◌else◌,
}
use Prim.Native.Nat.{bit_xor}
use garry.Base.Buffer.{Buffer, read_bytes}
use garry.Base.Word.{slt, sle, minus_one}
use garry.Endian.{write_int32, read_int32}

abbrev pub db_magic : ℕ
db_magic = 0x5243_5350

abbrev pub db_version : ℕ
db_version = 2

abbrev pub min_page_size : ℕ
min_page_size = 512

abbrev pub max_page_size : ℕ
max_page_size = 65536

-- GARRY_HDR_OFF_CHECKSUM and GARRY_HEADER_CHECKSUM_LEN
abbrev pub off_header_checksum : ℕ
off_header_checksum = 52

abbrev pub fnv1a_offset_basis : ℕ
fnv1a_offset_basis = 2166136261

abbrev pub fnv1a_prime : ℕ
fnv1a_prime = 16777619

pub record EngineSettings : Type 0 where
  pub page_size : ℕ
  pub compression : ℕ
  pub max_txns : ℕ
  pub max_versions : ℕ
  pub max_key_size : ℕ
  pub max_subscripts : ℕ
  pub btree_flags : ℕ
  pub pool_size : ℕ
  pub max_record_size : ℕ

pub record DbHeader : Type 0 where
  pub magic : ℕ
  pub version : ℕ
  pub page_size : ℕ
  pub compression : ℕ
  pub root_page : ℕ
  pub free_list_head : ℕ
  pub total_pages : ℕ
  pub max_txns : ℕ
  pub max_versions : ℕ
  pub max_key_size : ℕ
  pub max_subscripts : ℕ
  pub btree_flags : ℕ
  pub next_txid : ℕ
  pub checksum : ℕ

-- `memset(&hdr, 0, sizeof(hdr))`
abbrev pub zero_header : DbHeader
zero_header = record {
  magic = 0;
  version = 0;
  page_size = 0;
  compression = 0;
  root_page = 0;
  free_list_head = 0;
  total_pages = 0;
  max_txns = 0;
  max_versions = 0;
  max_key_size = 0;
  max_subscripts = 0;
  btree_flags = 0;
  next_txid = 0;
  checksum = 0;
}

-- The test of the page size.
unfoldable pub page_size_ok : ℕ → Bool
page_size_ok n = sle min_page_size n && (sle n max_page_size && n % min_page_size == 0)

-- `garry_make_db_header_from_settings` is the same function.
unfoldable pub create_db_header : EngineSettings → DbHeader
create_db_header settings =
    if page_size_ok settings.page_size
    then record {
      magic = db_magic;
      version = db_version;
      page_size = settings.page_size;
      compression = settings.compression;
      root_page = 1;
      free_list_head = minus_one;
      total_pages = 1;
      max_txns = settings.max_txns;
      max_versions = settings.max_versions;
      max_key_size = settings.max_key_size;
      max_subscripts = settings.max_subscripts;
      btree_flags = 0;
      next_txid = 1;
      checksum = 0;
    }
    else zero_header

-- The loop over the bytes, in unsigned 32-bit arithmetic.
unfoldable pub fnv1a : ℕ → List ℕ → ℕ
fnv1a hash [] = hash
fnv1a hash (b ∷ bytes) = fnv1a (bit_xor hash b * fnv1a_prime % 2 ^ 32) bytes

-- The mask keeps the lower 31 bits.
unfoldable pub compute_header_checksum : Buffer → ℕ
compute_header_checksum buf =
    fnv1a fnv1a_offset_basis (read_bytes buf 0 off_header_checksum) % 2 ^ 31

-- The calls of `garry_write_int32`, one for each offset and value.
unfoldable pub write_fields : Buffer → List (ℕ × ℕ) → Buffer
write_fields buf [] = buf
write_fields buf ((offset, val) ∷ fields) = write_fields (write_int32 buf offset val) fields

-- The offsets GARRY_HDR_OFF_MAGIC to GARRY_HDR_OFF_NEXT_TXID with what is written there.
abbrev pub header_fields : DbHeader → List (ℕ × ℕ)
header_fields hdr =
    (0, hdr.magic)
    ∷ (4, hdr.version)
    ∷ (8, hdr.page_size)
    ∷ (12, hdr.compression)
    ∷ (16, hdr.root_page)
    ∷ (20, hdr.free_list_head)
    ∷ (24, hdr.total_pages)
    ∷ (28, hdr.max_txns)
    ∷ (32, hdr.max_versions)
    ∷ (36, hdr.max_key_size)
    ∷ (40, hdr.max_subscripts)
    ∷ (44, hdr.btree_flags)
    ∷ (48, hdr.next_txid)
    ∷ []

unfoldable pub write_db_header : Buffer → DbHeader → Buffer
write_db_header buf hdr =
    let filled = write_fields buf (header_fields hdr) in
    write_int32 filled off_header_checksum (compute_header_checksum filled)

unfoldable pub read_db_header : Buffer → DbHeader
read_db_header buf = record {
  magic =
      (if not (read_int32 buf off_header_checksum == compute_header_checksum buf)
        then 0
        else read_int32 buf 0);
  version = read_int32 buf 4;
  page_size = read_int32 buf 8;
  compression = read_int32 buf 12;
  root_page = read_int32 buf 16;
  free_list_head = read_int32 buf 20;
  total_pages = read_int32 buf 24;
  max_txns = read_int32 buf 28;
  max_versions = read_int32 buf 32;
  max_key_size = read_int32 buf 36;
  max_subscripts = read_int32 buf 40;
  btree_flags = read_int32 buf 44;
  next_txid = read_int32 buf 48;
  checksum = read_int32 buf off_header_checksum;
}

unfoldable pub validate_db_header : DbHeader → Bool
validate_db_header hdr =
    if not (hdr.magic == db_magic)
    then false
    else if not (hdr.version == db_version)
    then false
    else if slt hdr.page_size min_page_size
    then false
    else if slt max_page_size hdr.page_size
    then false
    else if sle hdr.max_txns 0
    then false
    else if sle hdr.max_versions 0
    then false
    else true
