-- ===== src/Key.antt =====
-- src/key_encoding.c: tuples of components as length-prefixed bytes, integer subscripts, prefixes
-- and the comparison of keys. A component with its count is the list of its bytes.
pub mod Tuple
pub mod Order
pub mod Integer
mod Tests
use garry.Base.{
  ℕ, zero, suc, ◌+◌, ◌-◌, ◌*◌, ◌/◌, ◌%◌, ◌^◌, List, [], ◌∷◌, ◌++◌, length, Bool, true, false, not,
  ◌&&◌, ltb, ◌==◌, if◌then◌else◌,
}
use garry.Base.Buffer.{Buffer, store, zero_fill, copy_in, read_bytes}

-- GARRY_LEN_PREFIX_INLINE_MAX, GARRY_LEN_PREFIX_LONG_MARKER, GARRY_MAX_SUBSCRIPTS and the size of a
-- garry_byte_array
abbrev pub inline_max : ℕ
inline_max = 128

abbrev pub long_marker : ℕ
long_marker = 255

abbrev pub max_subscripts : ℕ
max_subscripts = 16

abbrev pub byte_array_size : ℕ
byte_array_size = 256

unfoldable pub length_prefix_size : ℕ → ℕ
length_prefix_size plen = if ltb plen inline_max then 1 else 3

unfoldable pub tuple_length : List (List ℕ) → ℕ
tuple_length [] = 0
tuple_length (p ∷ ps) = length_prefix_size (length p) + length p + tuple_length ps

-- The bytes that `garry_encode_length_prefix` stores.
unfoldable pub prefix_bytes : ℕ → List ℕ
prefix_bytes plen =
    if ltb plen inline_max
    then plen % 256 ∷ []
    else long_marker ∷ (plen / 256 % 256) ∷ (plen % 256) ∷ []

-- The buffer with the prefix stored, and the offset behind it.
unfoldable pub encode_length_prefix : Buffer → ℕ → ℕ → Buffer × ℕ
encode_length_prefix result offset plen = (
  copy_in result offset (prefix_bytes plen),
  if ltb plen inline_max then offset + 1 else offset + 3,
)

unfoldable pub decode_length_prefix : Buffer → ℕ → ℕ
decode_length_prefix key offset =
    if not (key offset == long_marker)
    then key offset
    else key (offset + 1) * 256 + key (offset + 2)

-- The loop over the components; the second result is the offset behind the last.
unfoldable pub encode_parts : Buffer → ℕ → List (List ℕ) → Buffer × ℕ
encode_parts out offset [] = (out, offset)
encode_parts out offset (p ∷ ps) =
    let (out', start) = encode_length_prefix out offset (length p) in
    encode_parts (copy_in out' start p) (start + length p) ps

-- `out` has the room of 256 bytes that the caller gives it; bytes past that are written all the same.
unfoldable pub encode_key_tuple : List (List ℕ) → Buffer → Buffer
encode_key_tuple parts out = (encode_parts (zero_fill out byte_array_size) 0 parts).0

-- The loop of `garry_decode_key_tuple`; `left` is `GARRY_MAX_SUBSCRIPTS - idx`. A component is the
-- offset that its pointer has in `encoded`, and its count.
unfoldable pub decode_parts : Buffer → ℕ → ℕ → ℕ → List (ℕ × ℕ)
decode_parts encoded elen zero offset = []
decode_parts encoded elen (suc left) offset =
    let plen = decode_length_prefix encoded offset in
    let start = offset + (if encoded offset == long_marker then 3 else 1) in
    let more = decode_parts encoded elen left (start + plen) in
    if ltb offset elen then (start, plen) ∷ more else []

unfoldable pub decode_key_tuple : Buffer → ℕ → List (ℕ × ℕ)
decode_key_tuple encoded elen = decode_parts encoded elen max_subscripts 0

-- The test `klen < plen` and the loop over the prefix.
unfoldable pub has_prefix : List ℕ → List ℕ → Bool
has_prefix key [] = true
has_prefix [] (p ∷ prefix) = false
has_prefix (k ∷ key) (p ∷ prefix) = k == p && has_prefix key prefix

-- The results -1, 0 and 1 of `garry_byte_compare`.
pub data Sign : Type 0 where
  less equal greater : Sign

-- The loop over the common length and the tests of the lengths behind it.
unfoldable pub byte_compare : List ℕ → List ℕ → Sign
byte_compare [] [] = equal
byte_compare [] (b ∷ bs) = less
byte_compare (a ∷ as') [] = greater
byte_compare (a ∷ as') (b ∷ bs) =
    if ltb a b then less else if ltb b a then greater else byte_compare as' bs

-- The loop that stores `count` bytes of `val` from offset `i` on.
unfoldable pub store_le : ℕ → Buffer → ℕ → ℕ → Buffer
store_le zero out i val = out
store_le (suc count) out i val = store_le count (store out i (val % 256)) (i + 1) (val / 256)

-- `n` is the pattern of the integer.
unfoldable pub encode_integer_subscript : ℕ → Buffer → Buffer
encode_integer_subscript n out = store_le 8 (store (zero_fill out byte_array_size) 0 2) 1 n

-- `result * 256 + encoded[offset + i]` for `i` from `count` down to 1, in 32 bits; past 2 ^ 31 the
-- arithmetic of C is undefined, and is taken to wrap.
unfoldable pub load_le : ℕ → Buffer → ℕ → ℕ → ℕ
load_le zero encoded offset result = result
load_le (suc i) encoded offset result =
    load_le i encoded offset ((result * 256 + encoded (offset + suc i)) % 2 ^ 32)

unfoldable pub decode_integer_subscript : Buffer → ℕ → ℕ
decode_integer_subscript encoded offset = load_le 8 encoded offset 0
