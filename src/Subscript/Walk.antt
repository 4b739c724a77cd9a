-- ===== src/Subscript/Walk.antt =====
-- Walking over the subscripts of an encoded tuple: their number, their offsets and their bytes.
use garry.Base.{
  ℕ, zero, suc, ◌+◌, ◌≤◌, ◌<◌, ◌≡◌, refl, sym, ◌∙◌, ap, subst, List, [], ◌∷◌, length, take,
  get_elem?, Option, none, some, Bool, true, false, ◌&&◌, leb, ◌==◌, if◌then◌else◌, arith, All, ◌↔◌,
  lt→ltb, le→ltb,
}
use garry.Base.Buffer.{Buffer, read_bytes}
use garry.Lock.{same_bytes}
use garry.Lock.Held.{same_bytes_refl, same_bytes→eq}
use garry.Key.{decode_length_prefix, length_prefix_size}
use garry.Key.Tuple.{
  key_bytes, At, At-read_bytes, Short, decode_length_prefix-At, length-key_bytes_cons,
  length_prefix_size_pos, At-key_bytes_cons,
}
use garry.Subscript.{
  next_offset, count_from, subscript_count, offset_from, get_subscript_offset, equal_at,
  subscript_equal, extract_at, extract_subscript,
}

-- One subscript of an encoded key that starts at `o`.
module _ (b : Buffer) (o : ℕ) (p : List ℕ) (ps : List (List ℕ)) (short : Short p)
    (at : At b o (key_bytes (p ∷ ps))) where
  decoded : decode_length_prefix b o ≡ length p
  decoded = (decode_length_prefix-At b o (length p) short (At-key_bytes_cons b o p ps at).0).0

  next_offset_lem : next_offset b o ≡ o + length_prefix_size (length p) + length p
  next_offset_lem = ap (λ n. o + length_prefix_size n + n) decoded

  next_offset-At : At b (next_offset b o) (key_bytes ps)
  next_offset-At =
      subst (λ k. At b k (key_bytes ps)) (sym next_offset_lem) (At-key_bytes_cons b o p ps at).2

  end_next :
      (end : ℕ)
      → o + length (key_bytes (p ∷ ps)) ≡ end
      → next_offset b o + length (key_bytes ps) ≡ end
  end_next end e = omega (arith, next_offset_lem, length-key_bytes_cons p ps)

  starts_before : (end : ℕ) → o + length (key_bytes (p ∷ ps)) ≡ end → o < end
  starts_before end e = omega (arith, length-key_bytes_cons p ps, length_prefix_size_pos (length p))

  body_at : read_bytes b (o + length_prefix_size (length p)) (length p) ≡ p
  body_at = At-read_bytes b _ p (At-key_bytes_cons b o p ps at).1

no_bytes : length (key_bytes []) ≡ 0
unfolding key_bytes
no_bytes = refl

count_from-key_bytes :
    (b : Buffer) (parts : List (List ℕ)) (fuel o end : ℕ)
    → All Short parts
    → o + length (key_bytes parts) ≡ end
    → length (key_bytes parts) ≤ fuel
    → At b o (key_bytes parts)
    → count_from b end fuel o ≡ length parts
unfolding count_from
count_from-key_bytes b [] zero o end s e h at = refl
count_from-key_bytes b [] (suc fuel) o end s e h at = ground (arith, no_bytes)
count_from-key_bytes b (p ∷ ps) zero o end s e h at =
    absurd (omega (arith, length-key_bytes_cons p ps, length_prefix_size_pos (length p)))
count_from-key_bytes b (p ∷ ps) (suc fuel) o end s e h at =
    let n : ℕ = next_offset b o in
    rw (lt→ltb o end (starts_before b o p ps s.0 at end e)) (
      omega (
        arith,
        count_from-key_bytes b ps fuel n end s.1 (end_next b o p ps s.0 at end e)
            (omega (arith, length-key_bytes_cons p ps, length_prefix_size_pos (length p)))
            (next_offset-At b o p ps s.0 at),
      ))

-- On an encoded tuple `garry_subscript_count` is the number of its components.
pub subscript_count-key_bytes :
    (b : Buffer) (parts : List (List ℕ))
    → All Short parts
    → At b 0 (key_bytes parts)
    → subscript_count b (length (key_bytes parts)) ≡ length parts
unfolding subscript_count
subscript_count-key_bytes b parts s at =
    count_from-key_bytes b parts (length (key_bytes parts)) 0 (length (key_bytes parts)) s
      (omega arith) (omega arith) at

offset_from-key_bytes :
    (b : Buffer) (parts : List (List ℕ)) (idx o end : ℕ)
    → All Short parts
    → o + length (key_bytes parts) ≡ end
    → At b o (key_bytes parts)
    → offset_from b end idx o
      ≡ (if leb idx (length parts) then some (o + length (key_bytes (take idx parts))) else none)
unfolding offset_from
offset_from-key_bytes b parts zero o end s e at = ground (arith, no_bytes)
offset_from-key_bytes b [] (suc idx) o end s e at = ground (arith, no_bytes)
offset_from-key_bytes b (p ∷ ps) (suc idx) o end s e at =
    let n : ℕ = next_offset b o in
    rw (lt→ltb o end (starts_before b o p ps s.0 at end e)) (
      ground (
        arith,
        end_next b o p ps s.0 at end e,
        next_offset_lem b o p ps s.0 at,
        length-key_bytes_cons p (take idx ps),
        offset_from-key_bytes b ps idx n end s.1 (end_next b o p ps s.0 at end e)
            (next_offset-At b o p ps s.0 at),
      ))

-- On an encoded tuple the offset of subscript `idx` is the length of the encoding of the first `idx`
-- components, and -1 if the tuple has fewer.
pub get_subscript_offset-key_bytes :
    (b : Buffer) (parts : List (List ℕ)) (idx : ℕ)
    → All Short parts
    → At b 0 (key_bytes parts)
    → get_subscript_offset b (length (key_bytes parts)) idx
      ≡ (if leb idx (length parts) then some (length (key_bytes (take idx parts))) else none)
unfolding get_subscript_offset
get_subscript_offset-key_bytes b parts idx s at =
    offset_from-key_bytes b parts idx 0 (length (key_bytes parts)) s (omega arith) at ∙ ground arith

-- The first round over an encoded tuple goes to its second component.
skip :
    (b : Buffer) (p : List ℕ) (ps : List (List ℕ)) (idx o end : ℕ) (s : Short p)
    (e : o + length (key_bytes (p ∷ ps)) ≡ end) (at : At b o (key_bytes (p ∷ ps)))
    → offset_from b end (suc idx) o ≡ offset_from b end idx (next_offset b o)
unfolding offset_from
skip b p ps idx o end s e at =
    rw
      (
        lt→ltb o end (starts_before b o p ps s at end e),
        le→ltb end (next_offset b o) (omega (arith, end_next b o p ps s at end e)),
      )
      refl

-- What the test of `garry_subscript_equal` says of one component.
equals : Option (List ℕ) → List ℕ → Bool
equals none expected = false
equals (some p) expected = length p == length expected && same_bytes p expected

equal_at-here :
    (b : Buffer) (p : List ℕ) (ps : List (List ℕ)) (o end : ℕ) (expected : List ℕ) (s : Short p)
    (e : o + length (key_bytes (p ∷ ps)) ≡ end) (at : At b o (key_bytes (p ∷ ps)))
    → equal_at b end expected (some o) ≡ equals (some p) expected
unfolding equal_at equals
equal_at-here b p ps o end expected s e at =
    rw (decoded b o p ps s at, lt→ltb o end (starts_before b o p ps s at end e))
      (rw
        (
          le→ltb end (o + length_prefix_size (length p) + length p)
              (omega (arith, length-key_bytes_cons p ps)),
          body_at b o p ps s at,
        )
        refl)

equal_at-key_bytes :
    (b : Buffer) (parts : List (List ℕ)) (idx o end : ℕ) (expected : List ℕ)
    → All Short parts
    → o + length (key_bytes parts) ≡ end
    → At b o (key_bytes parts)
    → equal_at b end expected (offset_from b end idx o) ≡ equals (get_elem? parts idx) expected
equal_at-key_bytes b [] zero o end expected s e at =
    unfold equal_at offset_from equals in ground (arith, no_bytes)
equal_at-key_bytes b (p ∷ ps) zero o end expected s e at =
    unfold offset_from in equal_at-here b p ps o end expected s.0 e at
equal_at-key_bytes b [] (suc idx) o end expected s e at =
    unfold equal_at offset_from equals in ground (arith, no_bytes)
equal_at-key_bytes b (p ∷ ps) (suc idx) o end expected s e at =
    let n : ℕ = next_offset b o in
    ap (equal_at b end expected) (skip b p ps idx o end s.0 e at)
    ∙ equal_at-key_bytes b ps idx n end expected s.1 (end_next b o p ps s.0 at end e)
        (next_offset-At b o p ps s.0 at)

extract_at-key_bytes :
    (b : Buffer) (parts : List (List ℕ)) (idx o end : ℕ)
    → idx < length parts
    → All Short parts
    → o + length (key_bytes parts) ≡ end
    → At b o (key_bytes parts)
    → extract_at b (offset_from b end idx o) ≡ get_elem? parts idx
extract_at-key_bytes b [] idx o end h s e at = absurd (omega arith)
extract_at-key_bytes b (p ∷ ps) zero o end h s e at =
    unfold extract_at offset_from in
    rw (decoded b o p ps s.0 at) (ap some (body_at b o p ps s.0 at))
extract_at-key_bytes b (p ∷ ps) (suc idx) o end h s e at =
    let n : ℕ = next_offset b o in
    ap (extract_at b) (skip b p ps idx o end s.0 e at)
    ∙ extract_at-key_bytes b ps idx n end (omega arith) s.1 (end_next b o p ps s.0 at end e)
        (next_offset-At b o p ps s.0 at)

equals→eq : (r : Option (List ℕ)) (expected : List ℕ) → equals r expected ≡ true → r ≡ some expected
unfolding equals
equals→eq none expected h = cc
equals→eq (some p) expected h = ap some (same_bytes→eq p expected (ground arith))

equals_refl : (p : List ℕ) → equals (some p) p ≡ true
unfolding equals
equals_refl p = ground (arith, same_bytes_refl p)

-- On an encoded tuple `garry_subscript_equal` says whether the tuple has a component `idx` and that
-- component has exactly the expected bytes.
pub subscript_equal-key_bytes :
    (b : Buffer) (parts : List (List ℕ)) (idx : ℕ) (expected : List ℕ)
    → All Short parts
    → At b 0 (key_bytes parts)
    → (subscript_equal b (length (key_bytes parts)) idx expected ≡ true)
      ↔ (get_elem? parts idx ≡ some expected)
unfolding subscript_equal
subscript_equal-key_bytes b parts idx expected s at =
    let e : equal_at b end expected (offset_from b end idx 0)
        ≡ equals (get_elem? parts idx) expected =
      equal_at-key_bytes b parts idx 0 end expected s (omega arith) at in
    (
      λ h. equals→eq (get_elem? parts idx) expected (sym e ∙ h),
      λ h. e ∙ ap (λ r. equals r expected) h ∙ equals_refl expected,
    )
  where
    end : ℕ
    end = length (key_bytes parts)

-- On an encoded tuple that has a component `idx`, `garry_extract_subscript` gives its bytes.
pub extract_subscript-key_bytes :
    (b : Buffer) (parts : List (List ℕ)) (idx : ℕ)
    → idx < length parts
    → All Short parts
    → At b 0 (key_bytes parts)
    → extract_subscript b (length (key_bytes parts)) idx ≡ get_elem? parts idx
unfolding extract_subscript get_subscript_offset
extract_subscript-key_bytes b parts idx h s at =
    extract_at-key_bytes b parts idx 0 (length (key_bytes parts)) h s (omega arith) at
