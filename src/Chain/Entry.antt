-- ===== src/Chain/Entry.antt =====
-- The fields of a version entry read back as they were written, and its length.
use garry.Base.{
  ℕ, ◌+◌, ◌^◌, ◌≤◌, ◌<◌, ◌≡◌, false, refl, ◌∙◌, arith, List, [], ◌∷◌, ◌++◌, length, get_or, ap, ap₂,
  append_assoc, length-append, sym,
}
use garry.Base.Buffer.{read_bytes}
use garry.Base.Word.{slt}
use garry.Endian.{read_le32}
use garry.Chain.{
  entry_bytes, le_bytes, rec_buffer, entry_created, entry_deleted, entry_value_len, entry_head,
  entry_header_size, max_record_size, chain_inline_capacity,
}

pub get_or-append : (pre xs : List ℕ) (x : ℕ) → get_or (pre ++ (x ∷ xs)) (length pre) 0 ≡ x
get_or-append [] xs x = refl
get_or-append (p ∷ pre) xs x = get_or-append pre xs x

pub read_bytes-rec_buffer :
    (pre xs : List ℕ) (o : ℕ)
    → o ≡ length pre
    → read_bytes (rec_buffer (pre ++ xs)) o (length xs) ≡ xs
unfolding read_bytes
read_bytes-rec_buffer pre [] o e = refl
read_bytes-rec_buffer pre (x ∷ xs) o e =
    ap₂ ◌∷◌ (ap (λ k. get_or (pre ++ (x ∷ xs)) k 0) e ∙ get_or-append pre xs x) (
      ap (λ l. read_bytes (rec_buffer l) (o + 1) (length xs)) (sym (append_assoc pre (x ∷ []) xs))
      ∙ read_bytes-rec_buffer (pre ++ (x ∷ [])) xs (o + 1)
          (omega (arith, length-append pre (x ∷ []))))

pub length-entry_bytes :
    (txn vlen tombstone flags : ℕ) (payload : List ℕ)
    → length (entry_bytes txn vlen tombstone flags payload) ≡ entry_header_size + length payload
unfolding entry_bytes
length-entry_bytes txn vlen tombstone flags payload = omega arith

module _ (txn vlen tombstone flags : ℕ) (payload : List ℕ) where
  abbrev rec : List ℕ
  rec = entry_bytes txn vlen tombstone flags payload

  pub entry_created_lem : txn < 2 ^ 32 → entry_created rec ≡ txn
  unfolding entry_bytes read_le32
  entry_created_lem h = omega arith

  pub entry_deleted_lem : entry_deleted rec ≡ 0
  unfolding entry_bytes read_le32
  entry_deleted_lem = refl

  pub entry_value_len_lem : vlen < 2 ^ 32 → entry_value_len rec ≡ vlen
  unfolding entry_bytes read_le32
  entry_value_len_lem h = omega arith

  pub entry_is_tombstone_lem : get_or rec 12 0 ≡ tombstone
  unfolding entry_bytes
  entry_is_tombstone_lem = refl

  pub entry_flags_lem : get_or rec 13 0 ≡ flags
  unfolding entry_bytes
  entry_flags_lem = refl

  pub entry_payload_lem : read_bytes (rec_buffer rec) entry_header_size (length payload) ≡ payload
  unfolding entry_bytes
  entry_payload_lem =
      read_bytes-rec_buffer
        (le_bytes txn ++ (le_bytes 0 ++ (le_bytes vlen ++ (tombstone ∷ flags ∷ [])))) payload 14
        refl

pub entry_head_lem :
    (txn vlen tombstone flags head : ℕ)
    → head < 2 ^ 32
    → entry_head (entry_bytes txn vlen tombstone flags (le_bytes head)) ≡ head
unfolding entry_bytes read_le32
entry_head_lem txn vlen tombstone flags head h = omega arith

-- On a page of at most 16420 bytes every value that `garry_chain_page_append` takes gives an entry
-- that fits the 16384 bytes of `entry_buf` and `rec_data`.
pub entry_fits_buffer :
    (page_size txn : ℕ) (value : List ℕ)
    → 32 ≤ page_size
    → page_size ≤ 16420
    → length value < 2 ^ 31
    → slt (chain_inline_capacity page_size) (length value) ≡ false
    → length (entry_bytes txn (length value) 0 0 value) ≤ max_record_size
unfolding entry_bytes chain_inline_capacity
entry_fits_buffer page_size txn value lo hi short room = ground arith

-- On every page of more than 16420 bytes, and at most 65536, a value of the inline capacity passes
-- the test of `garry_chain_page_append`, and its entry is longer than the 16384 bytes of the buffer
-- that it is built in.
pub entry_overruns_buffer :
    (page_size txn : ℕ) (value : List ℕ)
    → 16420 < page_size
    → page_size ≤ 65536
    → length value ≡ chain_inline_capacity page_size
    → (slt (chain_inline_capacity page_size) (length value) ≡ false)
      × (max_record_size < length (entry_bytes txn (length value) 0 0 value))
unfolding entry_bytes chain_inline_capacity
entry_overruns_buffer page_size txn value lo hi e = ground arith
