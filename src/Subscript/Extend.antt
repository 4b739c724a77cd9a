-- ===== src/Subscript/Extend.antt =====
-- Building keys from keys: the prefix of the first components, and a key with one component more.
use garry.Base.{
  ℕ, zero, suc, ◌+◌, ◌≤◌, ◌<◌, ◌≡◌, refl, sym, ◌∙◌, ap, ap₂, subst, List, [], ◌∷◌, ◌++◌, length,
  take, none, some, true, ltb, leb, if◌then◌else◌, arith, All, lt→ltb, le→ltb, append-nil,
  length-append,
}
use garry.Base.Buffer.{Buffer, read_bytes-copy_in, copy_in, zero_fill}
use garry.Key.{length_prefix_size, prefix_bytes, encode_length_prefix, inline_max}
use garry.Key.Tuple.{
  key_bytes, At, At-read_bytes, Short, length-prefix_bytes, read_bytes-At, copy_in-append,
  At-append-left,
}
use garry.Key.Order.{key_bytes-append}
use garry.Subscript.{concat_prefix, key_prefix, prefix_into}
use garry.Subscript.Walk.{get_subscript_offset-key_bytes}

key_bytes_one : (sub : List ℕ) → key_bytes (sub ∷ []) ≡ prefix_bytes (length sub) ++ sub
unfolding key_bytes
key_bytes_one sub = ap (λ r. prefix_bytes (length sub) ++ r) (append-nil sub)

-- What the three copies of `garry_concat_prefix` store.
concat_stored :
    (z : Buffer) (parent sub : List ℕ)
    → let (prefixed, offset) =
        encode_length_prefix (copy_in z 0 parent) (length parent) (length sub) in
      copy_in prefixed offset sub ≡ copy_in z 0 (parent ++ (prefix_bytes (length sub) ++ sub))
unfolding encode_length_prefix
concat_stored z parent sub =
    ap (λ o. copy_in (copy_in (copy_in z 0 parent) (length parent) pre) o sub) start
    ∙ sym (copy_in-append (copy_in z 0 parent) (length parent) pre sub)
    ∙ sym (
        copy_in-append z 0 parent (pre ++ sub)
        ∙ ap (λ o. copy_in (copy_in z 0 parent) o (pre ++ sub)) (omega arith))
  where
    pre : List ℕ
    pre = prefix_bytes (length sub)

    start :
        (if ltb (length sub) inline_max then length parent + 1 else length parent + 3)
        ≡ length parent + length pre
    start = unfold prefix_bytes in ground arith

copied-At : (z : Buffer) (xs : List ℕ) → At (copy_in z 0 xs) 0 xs
copied-At z xs = read_bytes-At (copy_in z 0 xs) 0 xs (read_bytes-copy_in z 0 xs)

-- Where the extended key fits, `garry_concat_prefix` leaves the encoding of the tuple with the new
-- component behind the others, and its length.
pub concat_prefix-key_bytes :
    (parts : List (List ℕ)) (sub : List ℕ) (out : Buffer) (out_size : ℕ)
    → length (key_bytes (parts ++ (sub ∷ []))) ≤ out_size
    → (out' : Buffer) × (concat_prefix (key_bytes parts) sub out out_size
        ≡ some (out', length (key_bytes (parts ++ (sub ∷ [])))))
      × At out' 0 (key_bytes (parts ++ (sub ∷ [])))
unfolding concat_prefix
concat_prefix-key_bytes parts sub out out_size h = (
  copy_in z 0 (key_bytes (parts ++ (sub ∷ []))),
  rw (le→ltb out_size total (omega (arith, total_lem))) (
      ap₂ (λ (b : Buffer) (n : ℕ). some (b, n))
        (concat_stored z (key_bytes parts) sub ∙ ap (copy_in z 0) (sym extended)) total_lem),
  copied-At z (key_bytes (parts ++ (sub ∷ []))),
)
  where
    z : Buffer
    z = zero_fill out out_size

    total : ℕ
    total = length (key_bytes parts) + length_prefix_size (length sub) + length sub

    extended :
        key_bytes (parts ++ (sub ∷ [])) ≡ key_bytes parts ++ (prefix_bytes (length sub) ++ sub)
    extended =
        key_bytes-append parts (sub ∷ []) ∙ ap (λ r. key_bytes parts ++ r) (key_bytes_one sub)

    total_lem : total ≡ length (key_bytes (parts ++ (sub ∷ [])))
    total_lem = omega (
      arith,
      ap length extended,
      length-append (key_bytes parts) (prefix_bytes (length sub) ++ sub),
      length-append (prefix_bytes (length sub)) sub,
      length-prefix_bytes (length sub),
    )

-- Otherwise it answers -1.
concat_prefix-none :
    (parent sub : List ℕ) (out : Buffer) (out_size : ℕ)
    → out_size < length parent + length_prefix_size (length sub) + length sub
    → concat_prefix parent sub out out_size ≡ none
unfolding concat_prefix
concat_prefix-none parent sub out out_size h = rw (lt→ltb _ _ h) refl

take-prefix :
    (idx : ℕ) (parts : List (List ℕ)) → (rest : List (List ℕ)) × (parts ≡ take idx parts ++ rest)
take-prefix zero parts = (parts, refl)
take-prefix (suc idx) [] = ([], refl)
take-prefix (suc idx) (p ∷ ps) = let (rest, e) = take-prefix idx ps in (rest, ap (λ l. p ∷ l) e)

-- On an encoded tuple of at least `nsubs` components whose first `nsubs` fit the buffer,
-- `garry_key_prefix` leaves the encoding of those components, and its length.
pub key_prefix-key_bytes :
    (b : Buffer) (parts : List (List ℕ)) (nsubs : ℕ) (out : Buffer) (out_size : ℕ)
    → All Short parts
    → At b 0 (key_bytes parts)
    → nsubs ≤ length parts
    → length (key_bytes (take nsubs parts)) ≤ out_size
    → ((key_prefix b (length (key_bytes parts)) nsubs out out_size).1
        ≡ some (length (key_bytes (take nsubs parts))))
      × At
          (key_prefix b (length (key_bytes parts)) nsubs out out_size).0
          0
          (key_bytes (take nsubs parts))
unfolding key_prefix prefix_into
key_prefix-key_bytes b parts nsubs out out_size s at h fits =
    rw (get_subscript_offset-key_bytes b parts nsubs s at, leb-true, le→ltb out_size n fits)
      (refl, rw (At-read_bytes b 0 first at_first) (copied-At (zero_fill out out_size) first))
  where
    first : List ℕ
    first = key_bytes (take nsubs parts)

    n : ℕ
    n = length first

    leb-true : leb nsubs (length parts) ≡ true
    leb-true = ground arith

    at_first : At b 0 first
    at_first =
        let (rest, e) = take-prefix nsubs parts in
        At-append-left b 0 first (key_bytes rest)
          (subst (λ l. At b 0 l) (ap key_bytes e ∙ key_bytes-append (take nsubs parts) rest) at)
