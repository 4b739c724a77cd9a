-- ===== src/Split.antt =====
-- src/keysplit.c: readable keys cut at a delimiter into segments behind one length byte each, and
-- joined again. A string is the list of its bytes up to the final 0.
pub mod RoundTrip
pub mod Mismatch
mod Tests
use garry.Base.{
  ℕ, zero, suc, ◌+◌, ◌-◌, ◌%◌, List, [], ◌∷◌, ◌++◌, length, take, drop, Option, none, some, Bool,
  true, false, ltb, leb, ◌==◌, if◌then◌else◌, ◌||◌, ◌&&◌,
}

-- GARRY_MAX_SEGMENT_LEN, GARRY_MAX_SUBSCRIPTS, GARRY_MAX_KEY_SIZE
abbrev pub max_segment_len : ℕ
max_segment_len = 255

abbrev pub max_subscripts : ℕ
max_subscripts = 16

abbrev pub max_key_size : ℕ
max_key_size = 256

-- The inner loop: the segment that it passes, of at most `left` bytes, and what `p` points at then.
unfoldable pub scan_segment : ℕ → ℕ → List ℕ → List ℕ × List ℕ
scan_segment delimiter left [] = ([], [])
scan_segment delimiter zero (c ∷ str) = ([], c ∷ str)
scan_segment delimiter (suc left) (c ∷ str) =
    let (seg, rest) = scan_segment delimiter left str in
    if c == delimiter then ([], c ∷ str) else (c ∷ seg, rest)

-- `if (*p == delimiter) p++`
unfoldable pub skip_delimiter : ℕ → List ℕ → List ℕ
skip_delimiter delimiter [] = []
skip_delimiter delimiter (c ∷ str) = if c == delimiter then str else c ∷ str

-- The bytes that a segment gives: its length as a byte, and itself.
abbrev pub segment_bytes : List ℕ → List ℕ
segment_bytes seg = length seg % 256 ∷ seg

-- The outer loop, `left` being `GARRY_MAX_SUBSCRIPTS - count`: the bytes stored from `pos` on.
unfoldable pub split_from : ℕ → ℕ → ℕ → List ℕ → List ℕ
split_from delimiter zero pos str = []
split_from delimiter (suc left) pos [] = []
split_from delimiter (suc left) pos (c ∷ str) =
    let (seg, rest) = scan_segment delimiter max_segment_len (c ∷ str) in
    let more = split_from delimiter left (pos + 1 + length seg) (skip_delimiter delimiter rest) in
    if ltb max_key_size (pos + 1 + length seg) then [] else segment_bytes seg ++ more

-- The bytes of the key; the result of the function is their number. `str` is not NULL.
unfoldable pub key_split : List ℕ → ℕ → List ℕ
key_split str delimiter = split_from delimiter max_subscripts 0 str

-- What `garry_key_unsplit` has written and counted.
pub record Unsplit : Type 0 where
  pub out : List ℕ
  pub count : ℕ

-- The loop: `key` is what stands from `pos` on, `out` what is written so far. A round takes a byte
-- at least, so as many rounds as bytes are enough.
unfoldable pub unsplit_from : ℕ → ℕ → ℕ → List ℕ → List ℕ → ℕ → Unsplit
unsplit_from delimiter out_size zero key out count = record { out = out; count = count }
unsplit_from delimiter out_size (suc fuel) [] out count = record { out = out; count = count }
unsplit_from delimiter out_size (suc fuel) (seg_len ∷ key) out count =
    let joined = if leb (length out) 0 then out else out ++ (delimiter ∷ []) in
    let more =
      unsplit_from delimiter out_size fuel (drop seg_len key) (joined ++ take seg_len key)
        (count + 1) in
    if ltb (length key) seg_len
    then record { out = out; count = count }
    else if ltb 0 (length out) && leb out_size (length out)
    then record { out = out; count = count }
    else if ltb out_size (length joined + seg_len)
    then record { out = joined; count = count }
    else more

-- `none` is the result 0 of the tests at the head, of which `key` and `out` not NULL are taken for
-- granted. The final 0 byte is written behind `out` if it is shorter than `out_size`.
unfoldable pub key_unsplit : List ℕ → ℕ → ℕ → Option Unsplit
key_unsplit key delimiter out_size =
    if length key == 0 || out_size == 0
    then none
    else some (unsplit_from delimiter out_size (length key) key [] 0)

-- The bytes of `str` up to the longest segment.
unfoldable pub make_key : List ℕ → List ℕ
make_key str =
    let seg = take max_segment_len str in
    if ltb max_key_size (1 + length seg) then [] else segment_bytes seg

-- The loop over the parts, `left` being `GARRY_MAX_SUBSCRIPTS - i`; a part that is NULL is `none`,
-- and makes the result 0.
unfoldable pub make_parts : ℕ → ℕ → List (Option (List ℕ)) → Option (List ℕ)
make_parts zero pos parts = some []
make_parts (suc left) pos [] = some []
make_parts (suc left) pos (none ∷ parts) = none
make_parts (suc left) pos (some part ∷ parts) =
    let seg = take max_segment_len part in
    let more = make_parts left (pos + 1 + length seg) parts in
    if ltb max_key_size (pos + 1 + length seg)
    then some []
    else elim more [ none ↦ none | some rest ↦ some (segment_bytes seg ++ rest) ]

unfoldable pub make_key_parts : List (Option (List ℕ)) → Option (List ℕ)
make_key_parts parts = make_parts max_subscripts 0 parts
