-- ===== src/Compress/Tests.antt =====
-- The theorems of separators and compressed keys at concrete keys.
use garry.Base.{ℕ, List, [], ◌∷◌}
use garry.Base.Buffer.{Buffer}

abbrev blank : Buffer
blank j = 0

-- "apple" and "apricot", of which "apr" is the separator
abbrev apple : List ℕ
apple = 97 ∷ 112 ∷ 112 ∷ 108 ∷ 101 ∷ []

abbrev apricot : List ℕ
apricot = 97 ∷ 112 ∷ 114 ∷ 105 ∷ 99 ∷ 111 ∷ 116 ∷ []

abbrev apr : List ℕ
apr = 97 ∷ 112 ∷ 114 ∷ []
