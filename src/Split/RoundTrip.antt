-- ===== src/Split/RoundTrip.antt =====
-- Strings of segments that are cut into keys, and come back.
use garry.Base.{
  ℕ, zero, suc, ◌+◌, ◌%◌, ◌≤◌, ◌≡◌, refl, sym, ◌∙◌, ap, ap₂, List, [], ◌∷◌, ◌++◌, append_assoc,
  append-nil, length, take_all, drop_all, some, false, ltb, leb, ◌==◌, ==_refl, if◌then◌else◌, ◌||◌,
  ◌&&◌, arith, All, length-append, le→ltb,
}
use garry.Split.{
  max_segment_len, max_subscripts, max_key_size, scan_segment, skip_delimiter, segment_bytes,
  split_from, key_split, unsplit_from, key_unsplit,
}

-- The segments behind the first, each behind a delimiter.
unfoldable pub behind : ℕ → List (List ℕ) → List ℕ
behind delimiter [] = []
behind delimiter (s ∷ segs) = delimiter ∷ (s ++ behind delimiter segs)

-- The segments with a delimiter between each two.
unfoldable pub join : ℕ → List (List ℕ) → List ℕ
join delimiter [] = []
join delimiter (s ∷ segs) = s ++ behind delimiter segs

-- A segment is not empty, has at most 255 bytes, and none of them is the delimiter.
abbrev pub Segment : ℕ → List ℕ → Type 0
Segment delimiter s =
    (1 ≤ length s) × (length s ≤ max_segment_len) × All (λ c. (c == delimiter) ≡ false) s

-- The bytes that the segments give.
unfoldable pub segments_bytes : List (List ℕ) → List ℕ
segments_bytes [] = []
segments_bytes (s ∷ segs) = segment_bytes s ++ segments_bytes segs

scan_segment-behind :
    (d left : ℕ) (s : List ℕ) (segs : List (List ℕ))
    → length s ≤ left
    → All (λ c. (c == d) ≡ false) s
    → scan_segment d left (s ++ behind d segs) ≡ (s, behind d segs)
unfolding scan_segment behind
scan_segment-behind d left [] [] h a = refl
scan_segment-behind d zero [] (t ∷ segs) h a = refl
scan_segment-behind d (suc left) [] (t ∷ segs) h a = rw (==_refl d) refl
scan_segment-behind d zero (c ∷ s) segs h a = absurd (omega arith)
scan_segment-behind d (suc left) (c ∷ s) segs h a =
    rw (a.0, scan_segment-behind d left s segs (omega arith) a.1) refl

skip_delimiter-behind :
    (d : ℕ) (segs : List (List ℕ)) → skip_delimiter d (behind d segs) ≡ join d segs
unfolding skip_delimiter behind join
skip_delimiter-behind d [] = refl
skip_delimiter-behind d (s ∷ segs) = rw (==_refl d) refl

pub length-segments_bytes :
    (s : List ℕ) (segs : List (List ℕ))
    → length (segments_bytes (s ∷ segs)) ≡ 1 + length s + length (segments_bytes segs)
unfolding segments_bytes
length-segments_bytes s segs = omega (arith, length-append s (segments_bytes segs))

split_from-join :
    (d left pos : ℕ) (segs : List (List ℕ))
    → All (Segment d) segs
    → length segs ≤ left
    → pos + length (segments_bytes segs) ≤ max_key_size
    → split_from d left pos (join d segs) ≡ segments_bytes segs
unfolding split_from join
split_from-join d zero pos [] a h fits = unfold segments_bytes in refl
split_from-join d (suc left) pos [] a h fits = unfold segments_bytes in refl
split_from-join d zero pos (s ∷ segs) a h fits = absurd (omega arith)
split_from-join d (suc left) pos ([] ∷ segs) a h fits = absurd (omega (arith, a.0.0))
split_from-join d (suc left) pos ((c ∷ s) ∷ segs) a h fits =
    rw
      (
        scan_segment-behind d max_segment_len (c ∷ s) segs a.0.1 a.0.2,
        skip_delimiter-behind d segs,
        le→ltb max_key_size (pos + 1 + length (c ∷ s)) room,
      )
      (ap (λ r. segment_bytes (c ∷ s) ++ r)
          (split_from-join d left (pos + 1 + length (c ∷ s)) segs a.1 (omega arith)
            (omega (arith, length-segments_bytes (c ∷ s) segs)))
        ∙ unfold segments_bytes in refl)
  where
    room : pos + 1 + length (c ∷ s) ≤ max_key_size
    room = omega (arith, length-segments_bytes (c ∷ s) segs)

-- A string of at most sixteen segments, each of 1 to 255 bytes, whose key has at most 256 bytes, is
-- cut into exactly these segments, each behind the byte of its length.
pub key_split-join :
    (d : ℕ) (segs : List (List ℕ))
    → All (Segment d) segs
    → length segs ≤ max_subscripts
    → length (segments_bytes segs) ≤ max_key_size
    → key_split (join d segs) d ≡ segments_bytes segs
unfolding key_split
key_split-join d segs a h fits = split_from-join d max_subscripts 0 segs a h (omega arith)

-- One round of the loop on a segment that is there and has room.
unsplit_step :
    (d size fuel count : ℕ) (s key out joined : List ℕ)
    → length s ≤ max_segment_len
    → (if leb (length out) 0 then out else out ++ (d ∷ [])) ≡ joined
    → length joined + length s ≤ size
    → (ltb 0 (length out) && leb size (length out)) ≡ false
    → unsplit_from d size (suc fuel) (segment_bytes s ++ key) out count
      ≡ unsplit_from d size fuel key (joined ++ s) (count + 1)
unfolding unsplit_from
unsplit_step d size fuel count s key out joined h e fits room =
    rw
      (
        small,
        drop_all s key,
        take_all s key,
        e,
        room,
        le→ltb (length (s ++ key)) (length s) (omega (arith, length-append s key)),
        le→ltb size (length joined + length s) fits,
      )
      refl
  where
    small : length s % 256 ≡ length s
    small = omega arith

length-behind :
    (d : ℕ) (s : List ℕ) (segs : List (List ℕ))
    → length (behind d (s ∷ segs)) ≡ 1 + length s + length (behind d segs)
unfolding behind
length-behind d s segs = omega (arith, length-append s (behind d segs))

append_behind :
    (d : ℕ) (out s : List ℕ) (segs : List (List ℕ))
    → ((out ++ (d ∷ [])) ++ s) ++ behind d segs ≡ out ++ behind d (s ∷ segs)
unfolding behind
append_behind d out s segs = simp append_assoc

unsplit_from-behind :
    (d size fuel count : ℕ) (out : List ℕ) (segs : List (List ℕ))
    → 1 ≤ length out
    → All (Segment d) segs
    → length out + length (behind d segs) ≤ size
    → length (segments_bytes segs) ≤ fuel
    → unsplit_from d size fuel (segments_bytes segs) out count
      ≡ record { out = out ++ behind d segs; count = count + length segs }
unsplit_from-behind d size zero count out [] some_out a fits h =
    unfold unsplit_from segments_bytes behind in
    ap₂ (λ (o : List ℕ) (n : ℕ). record { out = o; count = n }) (sym (append-nil out)) (omega arith)
unsplit_from-behind d size (suc fuel) count out [] some_out a fits h =
    unfold unsplit_from segments_bytes behind in
    ap₂ (λ (o : List ℕ) (n : ℕ). record { out = o; count = n }) (sym (append-nil out)) (omega arith)
unsplit_from-behind d size zero count out (s ∷ segs) some_out a fits h =
    absurd (omega (arith, length-segments_bytes s segs))
unsplit_from-behind d size (suc fuel) count out (s ∷ segs) some_out a fits h =
    first_round
    ∙ unsplit_from-behind d size fuel (count + 1) (joined ++ s) segs
        (omega (arith, length-append joined s, length-append out (d ∷ []))) a.1
        (omega (arith, length-behind d s segs, length-append joined s, length-append out (d ∷ [])))
        (omega (arith, length-segments_bytes s segs))
    ∙ ap₂ (λ (o : List ℕ) (n : ℕ). record { out = o; count = n }) (append_behind d out s segs)
        (omega arith)
  where
    joined : List ℕ
    joined = out ++ (d ∷ [])

    first_round :
        unsplit_from d size (suc fuel) (segments_bytes (s ∷ segs)) out count
        ≡ unsplit_from d size fuel (segments_bytes segs) (joined ++ s) (count + 1)
    first_round =
        unfold segments_bytes in
        unsplit_step d size fuel count s (segments_bytes segs) out joined a.0.1 (ground arith)
          (omega (arith, length-behind d s segs, length-append out (d ∷ [])))
          (ground (arith, length-behind d s segs))

-- A string of one to sixteen segments, each of 1 to 255 bytes, whose key has at most 256 bytes, comes
-- back from `garry_key_split` and `garry_key_unsplit`, which counts its segments, when the output has
-- room for the string.
pub key_unsplit-key_split :
    (d size : ℕ) (s : List ℕ) (segs : List (List ℕ))
    → All (Segment d) (s ∷ segs)
    → length (s ∷ segs) ≤ max_subscripts
    → length (segments_bytes (s ∷ segs)) ≤ max_key_size
    → length (join d (s ∷ segs)) ≤ size
    → key_unsplit (key_split (join d (s ∷ segs)) d) d size
      ≡ some (record { out = join d (s ∷ segs); count = length (s ∷ segs) })
key_unsplit-key_split d size s segs a h fits room =
    ap (λ k. key_unsplit k d size) (key_split-join d (s ∷ segs) a h fits)
    ∙ (unfold key_unsplit in
        rw (guards) (
          ap some (
            rw rounds (
              unfold segments_bytes in
              unsplit_step d size (length s + length (segments_bytes segs)) 0 s
                (segments_bytes segs) [] [] a.0.1 refl (omega (arith, long)) refl)
            ∙ unsplit_from-behind d size (length s + length (segments_bytes segs)) 1 s segs a.0.0
                a.1 (omega (arith, long)) (omega arith)
            ∙ unfold join in
              ap₂ (λ (o : List ℕ) (n : ℕ). record { out = o; count = n }) refl (omega arith))))
  where
    rounds : length (segments_bytes (s ∷ segs)) ≡ suc (length s + length (segments_bytes segs))
    rounds = omega (arith, length-segments_bytes s segs)

    long : length (join d (s ∷ segs)) ≡ length s + length (behind d segs)
    long = unfold join in length-append s (behind d segs)

    guards : (length (segments_bytes (s ∷ segs)) == 0 || size == 0) ≡ false
    guards = ground (arith, length-segments_bytes s segs, long, a.0.0)
