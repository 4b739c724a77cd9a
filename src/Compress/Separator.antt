-- ===== src/Compress/Separator.antt =====
-- The separator of two keys is the shortest prefix of the upper key above the lower one.
use garry.Base.{
  ℕ, zero, suc, ◌+◌, ◌≤◌, ◌<◌, ◌≡◌, ◌≢◌, refl, sym, ◌∙◌, ap, List, [], ◌∷◌, length, take, arith,
  le→ltb,
}
use garry.Base.Buffer.{Buffer, zero_fill, copy_in, read_bytes, read_bytes-copy_in}
use garry.Key.{less, greater, byte_compare, byte_array_size}
use garry.Key.Order.{opposite, byte_compare_total}
use garry.Compress.{common_prefix_length, minimum_separator}

cut : List ℕ → List ℕ → List ℕ
cut left right = take (suc (common_prefix_length left right)) right

length-cut :
    (left right : List ℕ)
    → byte_compare left right ≡ less
    → length (cut left right) ≡ suc (common_prefix_length left right)
unfolding byte_compare common_prefix_length cut
length-cut [] [] h = cc
length-cut [] (b ∷ bs) h = refl
length-cut (a ∷ as') [] h = cc
length-cut (a ∷ as') (b ∷ bs) h = ground (arith, length-cut as' bs)

cut_above :
    (left right : List ℕ)
    → byte_compare left right ≡ less
    → byte_compare left (cut left right) ≡ less
unfolding byte_compare common_prefix_length cut
cut_above [] [] h = cc
cut_above [] (b ∷ bs) h = refl
cut_above (a ∷ as') [] h = cc
cut_above (a ∷ as') (b ∷ bs) h = ground (arith, cut_above as' bs)

take-not_greater : (n : ℕ) (xs : List ℕ) → byte_compare (take n xs) xs ≢ greater
unfolding byte_compare
take-not_greater zero [] h = cc
take-not_greater zero (x ∷ xs) h = cc
take-not_greater (suc n) [] h = cc
take-not_greater (suc n) (x ∷ xs) h = ground (arith, take-not_greater n xs)

shorter_not_above :
    (left right : List ℕ) (m : ℕ)
    → m ≤ common_prefix_length left right
    → byte_compare left (take m right) ≢ less
unfolding byte_compare common_prefix_length
shorter_not_above [] right zero h e = cc
shorter_not_above (a ∷ as') right zero h e = cc
shorter_not_above [] right (suc m) h e = absurd (omega arith)
shorter_not_above (a ∷ as') [] (suc m) h e = absurd (omega arith)
shorter_not_above (a ∷ as') (b ∷ bs) (suc m) h e = ground (arith, shorter_not_above as' bs m)

-- The separator of a lower and a greater key, the greater one of at most 256 bytes, is a prefix of the greater one: it
-- is above the lower key and not above the greater one, and no shorter prefix is above the lower key.
pub minimum_separator_lem :
    (result : Buffer) (left right : List ℕ)
    → length right ≤ byte_array_size
    → byte_compare left right ≡ less
    → let n = suc (common_prefix_length left right) in
      let sep = take n right in
      (minimum_separator result left right ≡ copy_in (zero_fill result byte_array_size) 0 sep)
      × (length sep ≡ n)
      × (byte_compare left sep ≡ less)
      × (byte_compare sep right ≢ greater)
      × ((m : ℕ) → m < n → byte_compare left (take m right) ≢ less)
minimum_separator_lem result left right size h = (
  computed,
  long,
  above,
  take-not_greater (suc plen) right,
  λ m lt. shorter_not_above left right m (omega arith),
)
  where
    plen : ℕ
    plen = common_prefix_length left right

    sep : List ℕ
    sep = take (suc plen) right

    long : length sep ≡ suc plen
    long = unfold cut in length-cut left right h

    above : byte_compare left sep ≡ less
    above = unfold cut in cut_above left right h

    below : byte_compare sep left ≡ greater
    below = (byte_compare_total left sep).1 ∙ ap opposite above

    fits : (n : ℕ) (xs : List ℕ) → length (take n xs) ≤ length xs
    fits zero xs = omega arith
    fits (suc n) [] = omega arith
    fits (suc n) (x ∷ xs) = omega (arith, fits n xs)

    e : plen + 1 ≡ suc plen
    e = omega arith

    read : read_bytes (copy_in (zero_fill result byte_array_size) 0 sep) 0 (suc plen) ≡ sep
    read =
        ap (read_bytes (copy_in (zero_fill result byte_array_size) 0 sep) 0) (sym long)
        ∙ read_bytes-copy_in (zero_fill result byte_array_size) 0 sep

    computed :
        minimum_separator result left right ≡ copy_in (zero_fill result byte_array_size) 0 sep
    computed =
        unfold minimum_separator in
        rw
          (
            e,
            le→ltb (length right) (suc plen) (omega (arith, fits (suc plen) right, long)),
            read,
            below,
          )
          refl
