-- ===== src/Compress/RoundTrip.antt =====
-- A key stored without its common prefix comes back from the key before it.
use garry.Base.{
  ℕ, zero, suc, ◌-◌, ◌%◌, ◌≤◌, ◌≡◌, ◌↔◌, refl, sym, ◌∙◌, ap, List, [], ◌∷◌, ◌++◌, length, take,
  drop, true, arith,
}
use garry.Base.Buffer.{Buffer, zero_fill, copy_in, read_bytes, read_bytes-copy_in}
use garry.Key.{byte_array_size}
use garry.Key.Tuple.{At, At-read_bytes, copy_in-append}
use garry.Key.Tuple.{copied-At}
use garry.Compress.{compress_key, decompress_key, byte_equal}

take-drop : (n : ℕ) (xs : List ℕ) → take n xs ++ drop n xs ≡ xs
take-drop zero xs = refl
take-drop (suc n) [] = refl
take-drop (suc n) (x ∷ xs) = ap (λ l. x ∷ l) (take-drop n xs)

length-take : (n : ℕ) (xs : List ℕ) → n ≤ length xs → length (take n xs) ≡ n
length-take zero xs h = refl
length-take (suc n) [] h = absurd (omega arith)
length-take (suc n) (x ∷ xs) h = ap suc (length-take n xs (omega arith))

length-drop : (n : ℕ) (xs : List ℕ) → length (drop n xs) ≡ length xs - n
length-drop zero xs = omega arith
length-drop (suc n) [] = omega arith
length-drop (suc n) (x ∷ xs) = omega (arith, length-drop n xs)

-- What `garry_compress_key` stores.
compress_key-bytes :
    (result : Buffer) (key : List ℕ) (n : ℕ)
    → compress_key result key n
      ≡ copy_in (zero_fill result byte_array_size) 0 (n % 256 ∷ (length key - n) % 256 ∷ drop n key)
unfolding compress_key copy_in
compress_key-bytes result key n = refl

-- A key of at most 256 bytes, of which at most 255 are shared with the key before and at most 254
-- are not, comes back from its compressed form and the key before.
pub decompress_key-compress_key :
    (result out prev : Buffer) (key : List ℕ) (n : ℕ)
    → length key ≤ byte_array_size
    → n ≤ length key
    → n ≤ 255
    → length key - n ≤ 254
    → read_bytes prev 0 n ≡ take n key
    → read_bytes (decompress_key out (compress_key result key n) prev) 0 (length key) ≡ key
unfolding compress_key copy_in
decompress_key-compress_key result out prev key n long h small rest shared =
    ap (λ c. read_bytes c 0 (length key)) restored
    ∙ read_bytes-copy_in (zero_fill out byte_array_size) 0 key
  where
    c : Buffer
    c = compress_key result key n

    z : Buffer
    z = zero_fill out byte_array_size

    at : At c 0 ((n % 256) ∷ ((length key - n) % 256) ∷ drop n key)
    at = rw (compress_key-bytes result key n) (
        copied-At (zero_fill result byte_array_size) 0
          ((n % 256) ∷ ((length key - n) % 256) ∷ drop n key))

    first : c 0 ≡ n
    first = omega (arith, at.0)

    second : c 1 ≡ length key - n
    second = omega (arith, at.1.0)

    suffix : read_bytes c 2 (length key - n) ≡ drop n key
    suffix = ap (read_bytes c 2) (sym (length-drop n key)) ∙ At-read_bytes c 2 (drop n key) at.1.1

    behind : copy_in (copy_in z 0 (take n key)) n (drop n key) ≡ copy_in z 0 key
    behind =
        ap (λ o. copy_in (copy_in z 0 (take n key)) o (drop n key))
          (omega (arith, length-take n key h))
        ∙ sym (copy_in-append z 0 (take n key) (drop n key))
        ∙ ap (copy_in z 0) (take-drop n key)

    restored : decompress_key out c prev ≡ copy_in z 0 key
    restored = unfold decompress_key in rw (first, second, suffix, shared) behind

pub byte_equal_refl : (a : List ℕ) → byte_equal a a ≡ true
unfolding byte_equal
byte_equal_refl [] = refl
byte_equal_refl (x ∷ a) = ground (arith, byte_equal_refl a)

pub byte_equal→eq : (a b : List ℕ) → byte_equal a b ≡ true → a ≡ b
unfolding byte_equal
byte_equal→eq [] [] h = refl
byte_equal→eq [] (y ∷ b) h = cc
byte_equal→eq (x ∷ a) [] h = cc
byte_equal→eq (x ∷ a) (y ∷ b) h = ground (arith, byte_equal→eq a b)

-- `garry_byte_equal` says whether two keys are the same.
pub byte_equal_lem : (a b : List ℕ) → (byte_equal a b ≡ true) ↔ (a ≡ b)
byte_equal_lem a b = (byte_equal→eq a b, λ e. rw (← e) (byte_equal_refl a))
