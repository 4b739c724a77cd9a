-- ===== src/Key/Order.antt =====
-- The comparison of keys is a total order, prefixes of keys are prefixes of their tuples, and the
-- order of encoded keys goes by length first.
use garry.Base.{
  ℕ, ◌+◌, ◌≤◌, ◌<◌, ◌≡◌, ◌↔◌, refl, sym, ◌∙◌, ap, ap₂, subst, List, [], ◌∷◌, ◌++◌, length, true,
  arith, All, length-append, append_assoc,
}
use garry.Base.Buffer.{Buffer, read_bytes}
use garry.Key.{
  Sign, less, equal, greater, byte_compare, has_prefix, length_prefix_size, prefix_bytes,
  inline_max,
}
use garry.Key.Tuple.{
  key_bytes, At, At-read_bytes, Short, decode_length_prefix-At, length-key_bytes_cons,
  length_prefix_size_pos, At-key_bytes_cons,
}
use garry.Chain.{rec_buffer}
use garry.Chain.Entry.{get_or-append}

abbrev pub opposite : Sign → Sign
opposite less = greater
opposite equal = equal
opposite greater = less

byte_compare_refl : (a : List ℕ) → byte_compare a a ≡ equal
unfolding byte_compare
byte_compare_refl [] = refl
byte_compare_refl (x ∷ a) = ground (arith, byte_compare_refl a)

byte_compare→eq : (a b : List ℕ) → byte_compare a b ≡ equal → a ≡ b
unfolding byte_compare
byte_compare→eq [] [] h = refl
byte_compare→eq [] (y ∷ b) h = cc
byte_compare→eq (x ∷ a) [] h = cc
byte_compare→eq (x ∷ a) (y ∷ b) h = ground (arith, byte_compare→eq a b)

byte_compare_flip : (a b : List ℕ) → byte_compare b a ≡ opposite (byte_compare a b)
unfolding byte_compare
byte_compare_flip [] [] = refl
byte_compare_flip [] (y ∷ b) = refl
byte_compare_flip (x ∷ a) [] = refl
byte_compare_flip (x ∷ a) (y ∷ b) = ground (arith, byte_compare_flip a b)

-- `garry_byte_compare` says 0 exactly for equal keys, and with the keys exchanged it says the
-- opposite.
pub byte_compare_total :
    (a b : List ℕ)
    → ((byte_compare a b ≡ equal) ↔ (a ≡ b)) × (byte_compare b a ≡ opposite (byte_compare a b))
byte_compare_total a b =
    ((byte_compare→eq a b, λ e. rw e (byte_compare_refl b)), byte_compare_flip a b)

-- Less is transitive, so keys are totally ordered by `garry_byte_compare`.
pub byte_compare_trans :
    (a b c : List ℕ) → byte_compare a b ≡ less → byte_compare b c ≡ less → byte_compare a c ≡ less
unfolding byte_compare
byte_compare_trans [] [] c h k = cc
byte_compare_trans [] (y ∷ b) [] h k = cc
byte_compare_trans [] (y ∷ b) (z ∷ c) h k = refl
byte_compare_trans (x ∷ a) [] c h k = cc
byte_compare_trans (x ∷ a) (y ∷ b) [] h k = cc
byte_compare_trans (x ∷ a) (y ∷ b) (z ∷ c) h k = ground (arith, byte_compare_trans a b c)

has_prefix-append : (p rest : List ℕ) → has_prefix (p ++ rest) p ≡ true
unfolding has_prefix
has_prefix-append [] [] = refl
has_prefix-append [] (r ∷ rest) = refl
has_prefix-append (x ∷ p) rest = ground (arith, has_prefix-append p rest)

pub key_bytes-append : (ps qs : List (List ℕ)) → key_bytes (ps ++ qs) ≡ key_bytes ps ++ key_bytes qs
unfolding key_bytes
key_bytes-append [] qs = refl
key_bytes-append (p ∷ ps) qs =
    ap (λ r. prefix_bytes (length p) ++ (p ++ r)) (key_bytes-append ps qs) ∙ simp append_assoc

-- What a prefix of a list's bytes says of the list read as memory.
has_prefix-At :
    (xs ps : List ℕ) (b : Buffer) (o : ℕ) → has_prefix xs ps ≡ true → At b o xs → At b o ps
unfolding has_prefix
has_prefix-At xs [] b o h at = tt
has_prefix-At [] (p ∷ ps) b o h at = cc
has_prefix-At (x ∷ xs) (p ∷ ps) b o h at = ground (arith, has_prefix-At xs ps b (o + 1))

pub At-rec_buffer : (pre xs : List ℕ) (o : ℕ) → o ≡ length pre → At (rec_buffer (pre ++ xs)) o xs
At-rec_buffer pre [] o e = tt
At-rec_buffer pre (x ∷ xs) o e = (
  ap (rec_buffer (pre ++ (x ∷ xs))) e ∙ get_or-append pre xs x,
  subst (λ l. At (rec_buffer l) (o + 1) xs) (append_assoc pre (x ∷ []) xs)
      (At-rec_buffer (pre ++ (x ∷ [])) xs (o + 1) (omega (arith, length-append pre (x ∷ [])))),
)

-- Two tuples in one memory: they agree as far as the shorter goes.
At-key_bytes :
    (b : Buffer) (o : ℕ) (ps qs : List (List ℕ))
    → All Short ps
    → All Short qs
    → At b o (key_bytes ps)
    → At b o (key_bytes qs)
    → length (key_bytes ps) ≤ length (key_bytes qs)
    → (rest : List (List ℕ)) × (qs ≡ ps ++ rest)
At-key_bytes b o [] qs sp sq ap' aq h = (qs, refl)
At-key_bytes b o (p ∷ ps) [] sp sq ap' aq h =
    absurd (omega (arith, length-key_bytes_cons p ps, length_prefix_size_pos (length p), none_left))
  where
    none_left : length (key_bytes []) ≡ 0
    none_left = unfold key_bytes in refl
At-key_bytes b o (p ∷ ps) (q ∷ qs) sp sq ap' aq h =
    let (rest, e) =
      At-key_bytes b next ps qs sp.1 sq.1 fp.2 other
        (omega (arith, length-key_bytes_cons p ps, length-key_bytes_cons q qs, size, same)) in
    (rest, ap₂ ◌∷◌ (sym head) e)
  where
    fp :
        At b o (prefix_bytes (length p))
        × At b (o + length_prefix_size (length p)) p
        × At b (o + length_prefix_size (length p) + length p) (key_bytes ps)
    fp = At-key_bytes_cons b o p ps ap'

    fq :
        At b o (prefix_bytes (length q))
        × At b (o + length_prefix_size (length q)) q
        × At b (o + length_prefix_size (length q) + length q) (key_bytes qs)
    fq = At-key_bytes_cons b o q qs aq

    same : length p ≡ length q
    same =
        sym (decode_length_prefix-At b o (length p) sp.0 fp.0).0
        ∙ (decode_length_prefix-At b o (length q) sq.0 fq.0).0

    size : length_prefix_size (length p) ≡ length_prefix_size (length q)
    size = ap length_prefix_size same

    next : ℕ
    next = o + length_prefix_size (length p) + length p

    head : p ≡ q
    head =
        sym (At-read_bytes b (o + length_prefix_size (length p)) p fp.1)
        ∙ ap (λ n. read_bytes b (o + length_prefix_size n) n) same
        ∙ At-read_bytes b (o + length_prefix_size (length q)) q fq.1

    other : At b next (key_bytes qs)
    other = subst (λ n. At b (o + length_prefix_size n + n) (key_bytes qs)) (sym same) fq.2

has_prefix-length : (xs ps : List ℕ) → has_prefix xs ps ≡ true → length ps ≤ length xs
unfolding has_prefix
has_prefix-length xs [] h = omega arith
has_prefix-length [] (p ∷ ps) h = cc
has_prefix-length (x ∷ xs) (p ∷ ps) h = ground (arith, has_prefix-length xs ps)

-- The prefix test on encoded keys is exact: every key extended by more components has the encoding
-- of the shorter key as a prefix, and a key whose encoding has that prefix is such an extension.
pub has_prefix-key_bytes :
    (ps qs : List (List ℕ))
    → All Short ps
    → All Short qs
    → (has_prefix (key_bytes qs) (key_bytes ps) ≡ true)
      ↔ ((rest : List (List ℕ)) × (qs ≡ ps ++ rest))
has_prefix-key_bytes ps qs sp sq = (
  λ h.
      let here : At (rec_buffer (key_bytes qs)) 0 (key_bytes qs) =
        At-rec_buffer [] (key_bytes qs) 0 refl in
      At-key_bytes (rec_buffer (key_bytes qs)) 0 ps qs sp sq
        (has_prefix-At (key_bytes qs) (key_bytes ps) (rec_buffer (key_bytes qs)) 0 h here) here
        (has_prefix-length (key_bytes qs) (key_bytes ps) h),
  λ (rest, e). rw (e, key_bytes-append) (has_prefix-append (key_bytes ps) (key_bytes rest)),
)

-- Among one-component keys with components shorter than 128 bytes the shorter key comes first,
-- whatever its bytes.
pub shorter_first :
    (p q : List ℕ)
    → length p < length q
    → length q < inline_max
    → byte_compare (key_bytes (p ∷ [])) (key_bytes (q ∷ [])) ≡ less
unfolding key_bytes prefix_bytes byte_compare
shorter_first p q h k = ground arith
