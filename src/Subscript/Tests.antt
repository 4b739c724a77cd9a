-- ===== src/Subscript/Tests.antt =====
-- The theorems of subscripts at the encoding of a concrete tuple.
use garry.Base.{ℕ, ◌≡◌, ◌↔◌, List, [], ◌∷◌, length, some, true, arith, All, get_elem?}
use garry.Base.Buffer.{Buffer}
use garry.Key.{encode_key_tuple}
use garry.Key.Tuple.{key_bytes, Short, At, encode_key_tuple-At}
use garry.Subscript.{subscript_equal}
use garry.Subscript.Walk.{subscript_equal-key_bytes}

abbrev blank : Buffer
blank j = 0

-- the components "ab", empty and "c"
abbrev three : List (List ℕ)
three = (97 ∷ 98 ∷ []) ∷ [] ∷ (99 ∷ []) ∷ []

three-Short : All Short three
three-Short = (omega arith, (omega arith, (omega arith, tt)))

abbrev key : Buffer
key = encode_key_tuple three blank

key-At : At key 0 (key_bytes three)
key-At = encode_key_tuple-At three blank

subscript_equal-key_bytes_example :
    (subscript_equal key (length (key_bytes three)) 2 (99 ∷ []) ≡ true)
    ↔ (get_elem? three 2 ≡ some (99 ∷ []))
subscript_equal-key_bytes_example =
    subscript_equal-key_bytes key three 2 (99 ∷ []) three-Short key-At
