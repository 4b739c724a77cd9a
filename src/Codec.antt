-- ===== src/Codec.antt =====
-- src/record_codec.c: the subset of CBOR in which key-value records and descriptors are kept. A
-- position that may be negative is its 32-bit pattern; bytes are below 256, so the tests `fb < 0` do
-- nothing. A read at a negative position, which C leaves undefined, is the value that the memory has
-- at the pattern.
pub mod Strings
pub mod Record
pub mod Numbers
pub mod Descriptors
mod Tests
use garry.Base.{
  ℕ, ◌+◌, ◌-◌, ◌*◌, ◌/◌, ◌%◌, ◌^◌, List, [], ◌∷◌, ◌++◌, length, Option, none, some, Bool, true,
  false, not, ltb, leb, ◌==◌, if◌then◌else◌, ◌||◌, ◌&&◌,
}
use garry.Base.Buffer.{Buffer, store, copy_in, read_bytes}
use garry.Base.Word.{add32, sub32, slt, sle, minus_one}

-- CBOR_INLINE_THRESHOLD and the bases of the major types
abbrev pub inline_threshold : ℕ
inline_threshold = 24

abbrev pub uint_base : ℕ
uint_base = 0

abbrev pub negint_base : ℕ
negint_base = 32

abbrev pub bytes_base : ℕ
bytes_base = 64

abbrev pub text_base : ℕ
text_base = 96

abbrev pub array_base : ℕ
array_base = 128

abbrev pub map_base : ℕ
map_base = 160

abbrev pub simple_base : ℕ
simple_base = 224

-- What the two encoders store before the bytes: the length in the first byte or in a second one.
unfoldable pub header_bytes : ℕ → ℕ → List ℕ
header_bytes base n =
    if ltb n inline_threshold
    then ((base + n) % 256) ∷ []
    else (base + inline_threshold) ∷ (n % 256) ∷ []

unfoldable pub cbor_encode_array_header_raw : Buffer → ℕ → ℕ → Buffer × ℕ
cbor_encode_array_header_raw out pos count =
    (copy_in out pos (header_bytes array_base count), pos + length (header_bytes array_base count))

unfoldable pub cbor_encode_byte_string_raw : List ℕ → Buffer → ℕ → Buffer × ℕ
cbor_encode_byte_string_raw bytes out pos =
    let start = pos + length (header_bytes bytes_base (length bytes)) in
    (
      copy_in (copy_in out pos (header_bytes bytes_base (length bytes))) start bytes,
      start + length bytes,
    )

unfoldable pub cbor_decode_array_header_raw : Buffer → ℕ → ℕ → ℕ
cbor_decode_array_header_raw buf blen pos =
    let fb = buf pos in
    let ai = fb - array_base in
    if ltb fb array_base || leb (array_base + 32) fb
    then 0
    else if ltb ai 24
    then ai
    else if ai == inline_threshold && slt (add32 pos 1) blen
    then buf (add32 pos 1)
    else 0

unfoldable pub cbor_array_header_size_raw : Buffer → ℕ → ℕ
cbor_array_header_size_raw buf pos =
    let ai = sub32 (buf pos) array_base in
    if slt ai 24 then 1 else if ai == inline_threshold then 2 else 1

-- The position behind the string, its bytes, and `*dlen`.
pub record ByteString : Type 0 where
  pub next : ℕ
  pub bytes : List ℕ
  pub dlen : ℕ

-- `slen` bytes from `pos` on; the loop does nothing for a negative `slen`, but `*dlen` and the
-- result have it.
abbrev pub byte_string_at : Buffer → ℕ → ℕ → ByteString
byte_string_at buf pos slen = record {
  next = add32 pos slen;
  bytes = (if slt 0 slen then read_bytes buf pos slen else []);
  dlen = slen;
}

unfoldable pub cbor_decode_byte_string_raw : Buffer → ℕ → ℕ → ByteString
cbor_decode_byte_string_raw buf blen pos =
    let ai = sub32 (buf pos) bytes_base in
    if slt ai 24
    then byte_string_at buf (add32 pos 1) ai
    else if ai == inline_threshold && slt (add32 pos 1) blen
    then byte_string_at buf (add32 pos 2) (buf (add32 pos 1))
    else record { next = 0; bytes = []; dlen = 0 }

unfoldable pub encode_kv : List ℕ → List ℕ → Buffer → Buffer × ℕ
encode_kv key value out_buf =
    let (b0, p0) = cbor_encode_array_header_raw out_buf 0 2 in
    let (b1, p1) = cbor_encode_byte_string_raw key b0 p0 in
    let (b2, p2) = cbor_encode_byte_string_raw value b1 p1 in
    if leb p1 0 then (b1, 0) else if leb p2 0 then (b2, 0) else (b2, p2)

-- The key and the value with their lengths; `none` is the result false, with both lengths set to 0.
-- `encoded` is not NULL.
unfoldable pub decode_kv : Buffer → ℕ → Option (ByteString × ByteString)
decode_kv encoded elen =
    let pos = cbor_array_header_size_raw encoded 0 in
    let key = cbor_decode_byte_string_raw encoded elen pos in
    let value = cbor_decode_byte_string_raw encoded elen key.next in
    if sle elen 0
    then none
    else if not (cbor_decode_array_header_raw encoded elen 0 == 2)
    then none
    else if sle key.next 0
    then none
    else if sle value.next 0
    then none
    else some (key, value)

unfoldable pub encode_key_only : List ℕ → Buffer → Buffer × ℕ
encode_key_only key out_buf = cbor_encode_byte_string_raw key out_buf 0

-- The bytes and the length, which is the result.
unfoldable pub decode_key_only : Buffer → ℕ → ByteString
decode_key_only encoded elen = cbor_decode_byte_string_raw encoded elen 0

-- What `encode_uint` and `encode_negint` store, which differ in the base of the first byte.
unfoldable pub int_bytes : ℕ → ℕ → List ℕ
int_bytes base val =
    if ltb val 24
    then (base + val) ∷ []
    else if ltb val 256
    then (base + inline_threshold) ∷ val ∷ []
    else if ltb val 65536
    then (base + 25) ∷ (val / 256 % 256) ∷ (val % 256) ∷ []
    else (base + 26)
      ∷ (val / 16777216 % 256)
      ∷ (val / 65536 % 256)
      ∷ (val / 256 % 256)
      ∷ (val % 256)
      ∷ []

-- `chain_id` is the pattern of the id; -1 - chain_id is its distance from -1.
unfoldable pub chain_id_bytes : ℕ → List ℕ
chain_id_bytes chain_id =
    if ltb chain_id (2 ^ 31)
    then int_bytes uint_base chain_id
    else int_bytes negint_base (sub32 minus_one chain_id)

-- The map header and the text "cid", the id, the text "hc" and the flag.
unfoldable pub descriptor_bytes : ℕ → Bool → List ℕ
descriptor_bytes chain_id has_children =
    (map_base + 2)
    ∷ (text_base + 3)
    ∷ 99
    ∷ 105
    ∷ 100
    ∷ (chain_id_bytes chain_id
        ++ ((text_base + 2) ∷ 104 ∷ 99 ∷ (simple_base + (if has_children then 21 else 20)) ∷ []))

unfoldable pub encode_descriptor : ℕ → Bool → Buffer → Buffer × ℕ
encode_descriptor chain_id has_children out_buf = (
  copy_in out_buf 0 (descriptor_bytes chain_id has_children),
  length (descriptor_bytes chain_id has_children),
)

-- `decode_uint` and, up to the sign, `decode_negint`: the position behind the number and the number,
-- or `none` for -1, which leaves `*val` alone.
unfoldable pub decode_int : ℕ → Buffer → ℕ → ℕ → Option (ℕ × ℕ)
decode_int base encoded elen pos =
    let fb = encoded pos in
    let b0 = encoded (add32 pos 1) in
    let b1 = encoded (add32 pos 2) in
    let b2 = encoded (add32 pos 3) in
    let b3 = encoded (add32 pos 4) in
    if leb base fb && ltb fb (base + inline_threshold)
    then some (add32 pos 1, fb - base)
    else if fb == base + 24 && slt (add32 pos 1) elen
    then some (add32 pos 2, b0)
    else if fb == base + 25 && slt (add32 pos 2) elen
    then some (add32 pos 3, b0 * 256 + b1)
    else if fb == base + 26 && slt (add32 pos 4) elen
    then some (add32 pos 5, (b0 * 16777216 + b1 * 65536 + b2 * 256 + b3) % 2 ^ 32)
    else none

-- `*chain_id` and `*has_children`
pub record Descriptor : Type 0 where
  pub chain_id : ℕ
  pub has_children : Bool

-- From the second text on.
unfoldable pub decode_flag : Buffer → ℕ → ℕ → ℕ → Descriptor
decode_flag encoded elen pos chain_id =
    let next = add32 (add32 pos 1) (sub32 (encoded pos) text_base) in
    if sle elen pos
    then record { chain_id = chain_id; has_children = false }
    else if sle elen next
    then record { chain_id = chain_id; has_children = false }
    else record { chain_id = chain_id; has_children = encoded next == simple_base + 21 }

-- From the number on, whose decoder may leave the position and the id as they are.
unfoldable pub decode_chain_id : Buffer → ℕ → ℕ → Descriptor
decode_chain_id encoded elen pos =
    let fb = encoded pos in
    if ltb fb (uint_base + 32)
    then elim (decode_int uint_base encoded elen pos) [
      | none ↦ decode_flag encoded elen pos 0
      | some (next, val) ↦ decode_flag encoded elen next val
    ]
    else if ltb fb (negint_base + 32)
    then elim (decode_int negint_base encoded elen pos) [
      | none ↦ decode_flag encoded elen pos 0
      | some (next, val) ↦ decode_flag encoded elen next (sub32 minus_one val)
    ]
    else record { chain_id = 0; has_children = false }

unfoldable pub decode_descriptor : Buffer → ℕ → Descriptor
decode_descriptor encoded elen =
    let fb = encoded 0 in
    let pos = add32 2 (sub32 (encoded 1) text_base) in
    if sle elen 0
    then record { chain_id = 0; has_children = false }
    else if ltb fb map_base || leb (map_base + 32) fb
    then record { chain_id = 0; has_children = false }
    else if sle elen 1
    then record { chain_id = 0; has_children = false }
    else if sle elen pos
    then record { chain_id = 0; has_children = false }
    else decode_chain_id encoded elen pos
