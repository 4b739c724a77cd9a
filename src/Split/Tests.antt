-- ===== src/Split/Tests.antt =====
-- The theorems of split keys at concrete strings.
use garry.Base.{ℕ, zero, suc, ◌≡◌, refl, List, [], ◌∷◌, some, arith, All}
use garry.Split.{key_split, key_unsplit}
use garry.Split.RoundTrip.{Segment, join, behind, segments_bytes, key_unsplit-key_split}

-- "ab" and "c", with '/' between them
abbrev two : List (List ℕ)
two = (97 ∷ 98 ∷ []) ∷ (99 ∷ []) ∷ []

two-Segment : All (Segment 47) two
two-Segment =
    ((omega arith, omega arith, (refl, (refl, tt))), ((omega arith, omega arith, (refl, tt)), tt))

key_unsplit-key_split_example :
    key_unsplit (key_split (join 47 two) 47) 47 64 ≡ some (record { out = join 47 two; count = 2 })
unfolding join behind segments_bytes
key_unsplit-key_split_example =
    key_unsplit-key_split 47 64 (97 ∷ 98 ∷ []) ((99 ∷ []) ∷ []) two-Segment (omega arith)
      (omega arith) (omega arith)

-- `n` times the letter "a"
abbrev letters : ℕ → List ℕ
letters zero = []
letters (suc n) = 97 ∷ letters n
