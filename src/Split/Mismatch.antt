-- ===== src/Split/Mismatch.antt =====
-- The keys of keysplit.c as src/hierarchical.c and src/key_encoding.c read them: the two agree on
-- segments shorter than 128 bytes, and not on longer ones.
use garry.Base.{
  ℕ, zero, suc, ◌≤◌, ◌<◌, ◌≡◌, refl, ◌∙◌, ap, List, [], ◌∷◌, length, take, none, false, arith, All,
  ne→==,
}
use garry.Base.Buffer.{Buffer}
use garry.Key.{inline_max, long_marker, prefix_bytes, decode_length_prefix, length_prefix_size}
use garry.Key.Tuple.{key_bytes, At}
use garry.Split.{max_segment_len, max_subscripts, max_key_size, key_split, segment_bytes, make_key}
use garry.Split.RoundTrip.{Segment, join, segments_bytes, key_split-join}
use garry.Subscript.{get_subscript_offset, offset_from, subscript_equal, equal_at}

segments_bytes-key_bytes :
    (segs : List (List ℕ))
    → All (λ s. length s < inline_max) segs
    → segments_bytes segs ≡ key_bytes segs
unfolding segments_bytes key_bytes prefix_bytes
segments_bytes-key_bytes [] a = refl
segments_bytes-key_bytes (s ∷ segs) a = ground (arith, segments_bytes-key_bytes segs a.1)

-- A string of segments shorter than 128 bytes is cut into the key that `garry_encode_key_tuple`
-- gives for its segments, under the bounds of `garry_key_split` on their number and the key's size.
pub key_split-key_bytes :
    (d : ℕ) (segs : List (List ℕ))
    → All (Segment d) segs
    → All (λ s. length s < inline_max) segs
    → length segs ≤ max_subscripts
    → length (key_bytes segs) ≤ max_key_size
    → key_split (join d segs) d ≡ key_bytes segs
key_split-key_bytes d segs a b h fits =
    key_split-join d segs a h (rw (segments_bytes-key_bytes segs b) fits)
    ∙ segments_bytes-key_bytes segs b

take_short : (n : ℕ) (s : List ℕ) → length s ≤ n → take n s ≡ s
take_short zero [] h = refl
take_short (suc n) [] h = refl
take_short zero (x ∷ s) h = absurd (omega arith)
take_short (suc n) (x ∷ s) h = ap (λ l. x ∷ l) (take_short n s (omega arith))

make_key_lem : (str : List ℕ) → length str ≤ max_segment_len → make_key str ≡ segment_bytes str
unfolding make_key
make_key_lem str h = rw (take_short max_segment_len str h) (ground arith)

-- The key that `garry_make_key` gives for a string of 128 to 254 bytes has no second subscript
-- offset, and its first subscript is not found equal to the string: the subscript functions take its
-- length byte for a prefix of three bytes.
pub make_key_misread :
    (b : Buffer) (str : List ℕ)
    → inline_max ≤ length str
    → length str < long_marker
    → At b 0 (make_key str)
    → (get_subscript_offset b (length (make_key str)) 1 ≡ none)
      × (subscript_equal b (length (make_key str)) 0 str ≡ false)
unfolding get_subscript_offset offset_from subscript_equal equal_at length_prefix_size
make_key_misread b str h k at = rw (make_key_lem str (omega arith), decoded) (ground arith)
  where
    first : b 0 ≡ length str
    first =
        let at' : At b 0 (segment_bytes str) = rw (make_key_lem str (omega arith)) at at in
        omega (arith, at'.0)

    decoded : decode_length_prefix b 0 ≡ length str
    decoded =
        unfold decode_length_prefix in
        rw (ne→== (b 0) long_marker (λ e. omega (arith, first, e))) first
