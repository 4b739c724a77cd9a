-- ===== src/Key/Tuple.antt =====
-- A tuple of components comes back from its encoding.
use garry.Base.{
  ℕ, zero, suc, ◌+◌, ◌/◌, ◌%◌, ◌≤◌, ◌<◌, ◌≡◌, refl, sym, ◌∙◌, ap, ap₂, List, [], ◌∷◌, ◌++◌, length,
  ltb, ◌==◌, if◌then◌else◌, arith, All, length-append, inl, inr, Bool-cases, lt→ltb,
}
use mathlib.Core.List.{map}
use garry.Base.Buffer.{Buffer, store, zero_fill, copy_in, read_bytes, read_bytes-copy_in}
use garry.Key.{
  inline_max, long_marker, max_subscripts, byte_array_size, length_prefix_size, tuple_length,
  prefix_bytes, encode_length_prefix, decode_length_prefix, encode_parts, encode_key_tuple,
  decode_parts, decode_key_tuple,
}

-- The bytes of a key: each component behind its length prefix.
unfoldable pub key_bytes : List (List ℕ) → List ℕ
key_bytes [] = []
key_bytes (p ∷ ps) = prefix_bytes (length p) ++ (p ++ key_bytes ps)

-- The buffer holds the bytes `xs` from offset `o` on.
abbrev pub At : Buffer → ℕ → List ℕ → Type 0
At b o [] = Unit {0}
At b o (x ∷ xs) = (b o ≡ x) × At b (o + 1) xs

pub At-append-left : (b : Buffer) (o : ℕ) (xs ys : List ℕ) → At b o (xs ++ ys) → At b o xs
At-append-left b o [] ys h = tt
At-append-left b o (x ∷ xs) ys h = (h.0, At-append-left b (o + 1) xs ys h.1)

pub At-append-right :
    (b : Buffer) (o p : ℕ) (xs ys : List ℕ) → o + length xs ≡ p → At b o (xs ++ ys) → At b p ys
At-append-right b o p [] ys e h = let e' : o ≡ p = omega arith in rw (← e') h
At-append-right b o p (x ∷ xs) ys e h = At-append-right b (o + 1) p xs ys (omega arith) h.1

pub At-read_bytes : (b : Buffer) (o : ℕ) (xs : List ℕ) → At b o xs → read_bytes b o (length xs) ≡ xs
unfolding read_bytes
At-read_bytes b o [] h = refl
At-read_bytes b o (x ∷ xs) h = ap₂ ◌∷◌ h.0 (At-read_bytes b (o + 1) xs h.1)

pub read_bytes-At : (b : Buffer) (o : ℕ) (xs : List ℕ) → read_bytes b o (length xs) ≡ xs → At b o xs
unfolding read_bytes
read_bytes-At b o [] h = tt
read_bytes-At b o (x ∷ xs) h = (cc, read_bytes-At b (o + 1) xs (cc))

pub copied-At : (out : Buffer) (o : ℕ) (xs : List ℕ) → At (copy_in out o xs) o xs
copied-At out o xs = read_bytes-At (copy_in out o xs) o xs (read_bytes-copy_in out o xs)

pub copy_in-append :
    (b : Buffer) (o : ℕ) (xs ys : List ℕ)
    → copy_in b o (xs ++ ys) ≡ copy_in (copy_in b o xs) (o + length xs) ys
unfolding copy_in
copy_in-append b o [] ys = ap (λ k. copy_in b k ys) (omega arith)
copy_in-append b o (x ∷ xs) ys =
    copy_in-append (store b o x) (o + 1) xs ys
    ∙ ap (λ k. copy_in (copy_in (store b o x) (o + 1) xs) k ys) (omega arith)

pub length-prefix_bytes : (n : ℕ) → length (prefix_bytes n) ≡ length_prefix_size n
unfolding prefix_bytes length_prefix_size
length-prefix_bytes n = ground arith

pub length-key_bytes : (parts : List (List ℕ)) → length (key_bytes parts) ≡ tuple_length parts
unfolding key_bytes tuple_length
length-key_bytes [] = refl
length-key_bytes (p ∷ ps) =
    length-append (prefix_bytes (length p)) (p ++ key_bytes ps)
    ∙ omega
        (arith, length-append p (key_bytes ps), length-prefix_bytes (length p), length-key_bytes ps)

-- The loop stores the bytes of the key one after the other.
pub encode_parts-key_bytes :
    (parts : List (List ℕ)) (b : Buffer) (o : ℕ)
    → (encode_parts b o parts).0 ≡ copy_in b o (key_bytes parts)
unfolding encode_parts key_bytes encode_length_prefix
encode_parts-key_bytes [] b o = unfold copy_in in refl
encode_parts-key_bytes (p ∷ ps) b o =
    encode_parts-key_bytes ps _ _
    ∙ ap (λ s. copy_in (copy_in (copy_in b o pre) s p) (s + length p) (key_bytes ps)) start
    ∙ sym (
        copy_in-append b o pre (p ++ key_bytes ps)
        ∙ copy_in-append (copy_in b o pre) (o + length pre) p (key_bytes ps))
  where
    pre : List ℕ
    pre = prefix_bytes (length p)

    start : (if ltb (length p) inline_max then o + 1 else o + 3) ≡ o + length pre
    start = unfold prefix_bytes in ground arith

two : (o : ℕ) → o + 1 + 1 ≡ o + 2
two o = omega arith

pub decode_length_prefix-At :
    (b : Buffer) (o n : ℕ)
    → n < 65536
    → At b o (prefix_bytes n)
    → (decode_length_prefix b o ≡ n)
      × ((if b o == long_marker then 3 else 1) ≡ length_prefix_size n)
unfolding decode_length_prefix prefix_bytes length_prefix_size
decode_length_prefix-At b o n h at = elim (Bool-cases (ltb n inline_max)) [
  | inl small ↦ let at' : At b o (n % 256 ∷ []) = rw small at at in ground arith
  | inr large ↦
      let at' : At b o (long_marker ∷ (n / 256 % 256) ∷ (n % 256) ∷ []) = rw large at at in
      ground (arith, ap b (two o))
]

abbrev pub bytes_at : Buffer → ℕ × ℕ → List ℕ
bytes_at b (o, n) = read_bytes b o n

pub encode_key_tuple-At :
    (parts : List (List ℕ)) (out : Buffer) → At (encode_key_tuple parts out) 0 (key_bytes parts)
unfolding encode_key_tuple
encode_key_tuple-At parts out =
    rw (encode_parts-key_bytes parts (zero_fill out byte_array_size) 0) (
      read_bytes-At _ 0 (key_bytes parts)
        (read_bytes-copy_in (zero_fill out byte_array_size) 0 (key_bytes parts)))

pub length_prefix_size_pos : (n : ℕ) → 1 ≤ length_prefix_size n
unfolding length_prefix_size
length_prefix_size_pos n = ground arith

pub length-key_bytes_cons :
    (p : List ℕ) (ps : List (List ℕ))
    → length (key_bytes (p ∷ ps))
      ≡ length_prefix_size (length p) + (length p + length (key_bytes ps))
unfolding key_bytes
length-key_bytes_cons p ps =
    length-append (prefix_bytes (length p)) (p ++ key_bytes ps)
    ∙ omega (arith, length-prefix_bytes (length p), length-append p (key_bytes ps))

-- Where the parts of a key's first component and of the others lie.
pub At-key_bytes_cons :
    (b : Buffer) (o : ℕ) (p : List ℕ) (ps : List (List ℕ))
    → At b o (key_bytes (p ∷ ps))
    → At b o (prefix_bytes (length p))
      × At b (o + length_prefix_size (length p)) p
      × At b (o + length_prefix_size (length p) + length p) (key_bytes ps)
unfolding key_bytes
At-key_bytes_cons b o p ps at =
    let pre : List ℕ = prefix_bytes (length p) in
    let start : ℕ = o + length_prefix_size (length p) in
    let after : At b start (p ++ key_bytes ps) =
      At-append-right b o start pre (p ++ key_bytes ps)
        (omega (arith, length-prefix_bytes (length p))) at in
    (
      At-append-left b o pre (p ++ key_bytes ps) at,
      At-append-left b start p (key_bytes ps) after,
      At-append-right b start (start + length p) p (key_bytes ps) refl after,
    )

-- Every component is shorter than 65536, as its prefix has two bytes for its length.
abbrev pub Short : List ℕ → Type 0
Short p = length p < 65536

decode_parts_step :
    (b : Buffer) (left o elen n : ℕ)
    → n < 65536
    → o < elen
    → At b o (prefix_bytes n)
    → decode_parts b elen (suc left) o
      ≡ (o + length_prefix_size n, n) ∷ decode_parts b elen left (o + length_prefix_size n + n)
unfolding decode_parts
decode_parts_step b left o elen n h lt at =
    let (d, z) = decode_length_prefix-At b o n h at in rw (z, d, lt→ltb o elen lt)

decode_parts-At :
    (b : Buffer) (parts : List (List ℕ)) (left o elen : ℕ)
    → All Short parts
    → length parts ≤ left
    → o + length (key_bytes parts) ≡ elen
    → At b o (key_bytes parts)
    → map (bytes_at b) (decode_parts b elen left o) ≡ parts
decode_parts-At b [] zero o elen s h e at = unfold decode_parts in refl
decode_parts-At b [] (suc left) o elen s h e at = unfold decode_parts key_bytes in ground arith
decode_parts-At b (p ∷ ps) zero o elen s h e at = absurd (omega arith)
decode_parts-At b (p ∷ ps) (suc left) o elen s h e at =
    ap (map (bytes_at b))
      (decode_parts_step b left o elen n s.0 (omega (arith, size_pos, whole)) pre)
    ∙ ap₂ ◌∷◌ (At-read_bytes b start p body)
        (decode_parts-At b ps left (start + n) elen s.1 (omega arith) (omega (arith, whole)) rest)
  where
    n : ℕ
    n = length p

    start : ℕ
    start = o + length_prefix_size n

    size_pos : 1 ≤ length_prefix_size n
    size_pos = length_prefix_size_pos n

    whole : length (key_bytes (p ∷ ps)) ≡ length_prefix_size n + (n + length (key_bytes ps))
    whole = length-key_bytes_cons p ps

    pre : At b o (prefix_bytes n)
    pre = (At-key_bytes_cons b o p ps at).0

    body : At b start p
    body = (At-key_bytes_cons b o p ps at).1

    rest : At b (start + n) (key_bytes ps)
    rest = (At-key_bytes_cons b o p ps at).2

-- A tuple of at most sixteen components comes back from its encoding: `garry_decode_key_tuple` finds
-- as many components, each with its bytes, when it is given the length that `garry_tuple_length`
-- computes.
pub decode_key_tuple-encode_key_tuple :
    (parts : List (List ℕ)) (out : Buffer)
    → All Short parts
    → length parts ≤ max_subscripts
    → let encoded = encode_key_tuple parts out in
      map (bytes_at encoded) (decode_key_tuple encoded (tuple_length parts)) ≡ parts
unfolding decode_key_tuple
decode_key_tuple-encode_key_tuple parts out s h =
    decode_parts-At (encode_key_tuple parts out) parts max_subscripts 0 (tuple_length parts) s h
      (omega (arith, length-key_bytes parts)) (encode_key_tuple-At parts out)
