-- ===== src/Subscript.antt =====
-- src/hierarchical.c: the subscripts of an encoded key. Lengths and indices are not negative; -1 is
-- `none`.
pub mod Walk
pub mod Extend
mod Tests
use garry.Base.{
  ℕ, zero, suc, ◌+◌, List, [], ◌∷◌, length, Option, none, some, Bool, true, false, ◌&&◌, ltb, ◌==◌,
  if◌then◌else◌,
}
use garry.Base.Buffer.{Buffer, zero_fill, copy_in, read_bytes}
use garry.Key.{decode_length_prefix, length_prefix_size, encode_length_prefix}
use garry.Lock.{same_bytes}

-- the offset behind the subscript at `offset`
abbrev pub next_offset : Buffer → ℕ → ℕ
next_offset key offset =
    let plen = decode_length_prefix key offset in offset + length_prefix_size plen + plen

-- `while (offset < klen)`; a round moves by a byte at least, so `klen` rounds are enough.
unfoldable pub count_from : Buffer → ℕ → ℕ → ℕ → ℕ
count_from key klen zero offset = 0
count_from key klen (suc fuel) offset =
    let rest = count_from key klen fuel (next_offset key offset) in
    if ltb offset klen then 1 + rest else 0

unfoldable pub subscript_count : Buffer → ℕ → ℕ
subscript_count key klen = count_from key klen klen 0

-- the loop over `i` of `garry_get_subscript_offset` and of `garry_subscript_equal`
unfoldable pub offset_from : Buffer → ℕ → ℕ → ℕ → Option ℕ
offset_from key klen zero offset = some offset
offset_from key klen (suc rounds) offset =
    let rest = offset_from key klen rounds (next_offset key offset) in
    if ltb offset klen then (if ltb klen (next_offset key offset) then none else rest) else none

unfoldable pub get_subscript_offset : Buffer → ℕ → ℕ → Option ℕ
get_subscript_offset key klen idx = offset_from key klen idx 0

-- What `garry_subscript_equal` does behind its loop; the bytes of `expected` are those up to its end.
unfoldable pub equal_at : Buffer → ℕ → List ℕ → Option ℕ → Bool
equal_at key klen expected none = false
equal_at key klen expected (some offset) =
    let plen = decode_length_prefix key offset in
    let start = offset + length_prefix_size plen in
    if ltb offset klen
    then (if ltb klen (start + plen)
        then false
        else plen == length expected && same_bytes (read_bytes key start plen) expected)
    else false

unfoldable pub subscript_equal : Buffer → ℕ → ℕ → List ℕ → Bool
subscript_equal key klen idx expected = equal_at key klen expected (offset_from key klen idx 0)

-- The buffer `out` and the result. Where the offset is -1, `out` is cleared and the result is -1.
unfoldable pub prefix_into : Buffer → ℕ → Buffer → Option ℕ → Buffer × Option ℕ
prefix_into key out_size out none = (zero_fill out out_size, none)
prefix_into key out_size out (some plen) =
    if ltb out_size plen
    then (out, none)
    else (copy_in (zero_fill out out_size) 0 (read_bytes key 0 plen), some plen)

unfoldable pub key_prefix : Buffer → ℕ → ℕ → Buffer → ℕ → Buffer × Option ℕ
key_prefix key klen nsubs out out_size =
    prefix_into key out_size out (get_subscript_offset key klen nsubs)

-- The bytes that go through `sub`. The offset is not tested: at -1 the code reads before the key,
-- which is `none`.
unfoldable pub extract_at : Buffer → Option ℕ → Option (List ℕ)
extract_at key none = none
extract_at key (some offset) =
    let plen = decode_length_prefix key offset in
    some (read_bytes key (offset + length_prefix_size plen) plen)

unfoldable pub extract_subscript : Buffer → ℕ → ℕ → Option (List ℕ)
extract_subscript key klen idx = extract_at key (get_subscript_offset key klen idx)

-- `none` is the result -1, which leaves `out` alone; otherwise `out` and the total length.
unfoldable pub concat_prefix : List ℕ → List ℕ → Buffer → ℕ → Option (Buffer × ℕ)
concat_prefix parent sub out out_size =
    let total = length parent + length_prefix_size (length sub) + length sub in
    let copied = copy_in (zero_fill out out_size) 0 parent in
    let (prefixed, offset) = encode_length_prefix copied (length parent) (length sub) in
    if ltb out_size total then none else some (copy_in prefixed offset sub, total)
