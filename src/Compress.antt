-- ===== src/Compress.antt =====
-- src/btree_compression.c: common prefixes of keys, separators between neighbours, and keys stored
-- without the prefix that they share with the key before. A key with its length is the list of its
-- bytes.
pub mod Separator
pub mod RoundTrip
mod Tests
use garry.Base.{
  ℕ, zero, suc, ◌+◌, ◌-◌, ◌%◌, List, [], ◌∷◌, ◌++◌, length, take, drop, Bool, true, false, ltb,
  ◌==◌, if◌then◌else◌,
}
use garry.Base.Buffer.{Buffer, store, zero_fill, copy_in, read_bytes}
use garry.Key.{Sign, less, equal, greater, byte_compare, byte_array_size}

unfoldable pub common_prefix_length : List ℕ → List ℕ → ℕ
common_prefix_length [] bs = 0
common_prefix_length (a ∷ as') [] = 0
common_prefix_length (a ∷ as') (b ∷ bs) =
    let rest = common_prefix_length as' bs in if a == b then suc rest else 0

-- `garry_byte_compare(...) <= 0`
abbrev pub not_greater : Sign → Bool
not_greater less = true
not_greater equal = true
not_greater greater = false

unfoldable pub minimum_separator : Buffer → List ℕ → List ℕ → Buffer
minimum_separator result left right =
    let plen = common_prefix_length left right in
    let sep_len = if ltb (length right) (plen + 1) then length right else plen + 1 in
    let filled = copy_in (zero_fill result byte_array_size) 0 (take sep_len right) in
    let whole = if ltb byte_array_size (length left) then byte_array_size else length left in
    if not_greater (byte_compare (read_bytes filled 0 sep_len) left)
    then copy_in filled 0 (take whole left)
    else filled

-- `prefix_len` is at most the length of the key.
unfoldable pub compress_key : Buffer → List ℕ → ℕ → Buffer
compress_key result full_key prefix_len =
    let suffix_len = length full_key - prefix_len in
    let b0 = store (zero_fill result byte_array_size) 0 (prefix_len % 256) in
    let b1 = store b0 1 (suffix_len % 256) in copy_in b1 2 (drop prefix_len full_key)

unfoldable pub decompress_key : Buffer → Buffer → Buffer → Buffer
decompress_key result compressed prev_key =
    let prefix_len = compressed 0 in
    let suffix_len = compressed 1 in
    let b0 = copy_in (zero_fill result byte_array_size) 0 (read_bytes prev_key 0 prefix_len) in
    copy_in b0 prefix_len (read_bytes compressed 2 suffix_len)

-- The tests of `garry_byte_equal`: the lengths, then the bytes.
unfoldable pub byte_equal : List ℕ → List ℕ → Bool
byte_equal [] [] = true
byte_equal [] (b ∷ bs) = false
byte_equal (a ∷ as') [] = false
byte_equal (a ∷ as') (b ∷ bs) = let rest = byte_equal as' bs in if a == b then rest else false
