-- ===== src/Key/Tests.antt =====
-- The theorems of keys at concrete inputs.
use garry.Base.{ℕ, ◌≡◌, ◌↔◌, List, [], ◌∷◌, ◌++◌, true, arith, All}
use mathlib.Core.List.{map}
use garry.Base.Buffer.{Buffer}
use garry.Key.{has_prefix, encode_key_tuple, decode_key_tuple, tuple_length}
use garry.Key.Tuple.{key_bytes, bytes_at, Short, decode_key_tuple-encode_key_tuple}
use garry.Key.Order.{has_prefix-key_bytes}

abbrev blank : Buffer
blank j = 0

-- the components "ab", empty and "c"
abbrev three : List (List ℕ)
three = (97 ∷ 98 ∷ []) ∷ [] ∷ (99 ∷ []) ∷ []

abbrev first_two : List (List ℕ)
first_two = (97 ∷ 98 ∷ []) ∷ [] ∷ []

three-Short : All Short three
three-Short = (omega arith, (omega arith, (omega arith, tt)))

first_two-Short : All Short first_two
first_two-Short = (omega arith, (omega arith, tt))

decode_key_tuple-encode_key_tuple_example :
    map
      (bytes_at (encode_key_tuple three blank))
      (decode_key_tuple (encode_key_tuple three blank) (tuple_length three))
    ≡ three
decode_key_tuple-encode_key_tuple_example =
    decode_key_tuple-encode_key_tuple three blank three-Short (omega arith)

abbrev longer : List ℕ
longer = 1 ∷ 2 ∷ []

abbrev shorter : List ℕ
shorter = 1 ∷ []

has_prefix-key_bytes_example :
    (has_prefix (key_bytes three) (key_bytes first_two) ≡ true)
    ↔ ((rest : List (List ℕ)) × (three ≡ first_two ++ rest))
has_prefix-key_bytes_example = has_prefix-key_bytes first_two three first_two-Short three-Short
