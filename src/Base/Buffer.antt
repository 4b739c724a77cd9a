-- ===== src/Base/Buffer.antt =====
-- C byte memory: a buffer gives the byte at each offset; stores, fills and copies on it.
use Prim.Native.Nat.{ℕ, zero, suc, ◌+◌, ◌≤◌, ◌<◌}
use mathlib.Core.Path.{◌≡◌, refl, ◌∙◌, ap₂}
use mathlib.Core.Logic.{◌⊎◌, inl, inr, ◌≢◌}
use mathlib.Core.List.{List, [], ◌∷◌}
use native.Mathlib.Omega.{arith}
use garry.Base.Tests.{ltb, ◌==◌, if◌then◌else◌}
use garry.Base.Lists.{length}

abbrev pub Buffer : Type 0
Buffer = ℕ → ℕ

-- `buf[i] = v`
unfoldable pub store : Buffer → ℕ → ℕ → Buffer
store buf i v j = if j == i then v else buf j

-- `memset(buf, 0, n)`
unfoldable pub zero_fill : Buffer → ℕ → Buffer
zero_fill buf n j = if ltb j n then 0 else buf j

-- `memcpy(buf + offset, src, len)` and the loops that copy byte by byte
unfoldable pub copy_in : Buffer → ℕ → List ℕ → Buffer
copy_in buf offset [] = buf
copy_in buf offset (x ∷ xs) = copy_in (store buf offset x) (offset + 1) xs

-- the `n` bytes from `offset` on
unfoldable pub read_bytes : Buffer → ℕ → ℕ → List ℕ
read_bytes buf offset zero = []
read_bytes buf offset (suc n) = buf offset ∷ read_bytes buf (offset + 1) n

-- `j` is no offset of the `n` bytes from `o` on.
abbrev pub Outside : ℕ → ℕ → ℕ → Type 0
Outside j o n = (j < o) ⊎ (o + n ≤ j)

pub store_self : (buf : Buffer) (i v : ℕ) → store buf i v i ≡ v
unfolding store
store_self buf i v = ground arith

pub store_ne : (buf : Buffer) (i v j : ℕ) → j ≢ i → store buf i v j ≡ buf j
unfolding store
store_ne buf i v j h = ground arith

pub copy_in-Outside :
    (buf : Buffer) (o : ℕ) (xs : List ℕ) (j : ℕ)
    → Outside j o (length xs)
    → copy_in buf o xs j ≡ buf j
unfolding copy_in
copy_in-Outside buf o [] j h = refl
copy_in-Outside buf o (x ∷ xs) j h =
    copy_in-Outside (store buf o x) (o + 1) xs j (apart h) ∙ store_ne buf o x j (λ e. differ h e)
  where
    apart : Outside j o (suc (length xs)) → Outside j (o + 1) (length xs)
    apart (inl p) = inl (omega arith)
    apart (inr p) = inr (omega arith)

    differ : Outside j o (suc (length xs)) → j ≡ o → ⊥
    differ (inl p) e = omega arith
    differ (inr p) e = omega arith

pub read_bytes-ext :
    (b c : Buffer) (o n : ℕ)
    → ((i : ℕ) → o ≤ i → i < o + n → b i ≡ c i)
    → read_bytes b o n ≡ read_bytes c o n
unfolding read_bytes
read_bytes-ext b c o zero h = refl
read_bytes-ext b c o (suc n) h =
    ap₂ ◌∷◌ (h o (omega arith) (omega arith))
      (read_bytes-ext b c (o + 1) n (λ i p q. h i (omega arith) (omega arith)))

pub read_bytes-copy_in :
    (buf : Buffer) (o : ℕ) (xs : List ℕ) → read_bytes (copy_in buf o xs) o (length xs) ≡ xs
unfolding read_bytes copy_in
read_bytes-copy_in buf o [] = refl
read_bytes-copy_in buf o (x ∷ xs) =
    ap₂ ◌∷◌ (copy_in-Outside (store buf o x) (o + 1) xs o (inl (omega arith)) ∙ store_self buf o x)
      (read_bytes-copy_in (store buf o x) (o + 1) xs)

pub length-read_bytes : (b : Buffer) (o n : ℕ) → length (read_bytes b o n) ≡ n
unfolding read_bytes
length-read_bytes b o zero = refl
length-read_bytes b o (suc n) = omega (arith, length-read_bytes b (o + 1) n)
