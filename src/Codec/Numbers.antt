-- ===== src/Codec/Numbers.antt =====
-- The numbers of descriptors come back from their encoding.
use garry.Base.{
  ℕ, ◌+◌, ◌*◌, ◌/◌, ◌%◌, ◌^◌, ◌≤◌, ◌<◌, ◌≡◌, ◌⊎◌, refl, ◌∙◌, ap, [], ◌∷◌, length, some, ltb, arith,
  inl, inr, Bool-cases, ltb→lt,
}
use garry.Base.Buffer.{Buffer}
use garry.Base.Word.{add32}
use garry.Codec.{int_bytes, decode_int, inline_threshold}
use garry.Key.Tuple.{At}

-- The four lengths that a number has.
decode_one :
    (base : ℕ) (b : Buffer) (elen o val : ℕ)
    → base ≤ 32
    → val < 24
    → elen < 2 ^ 31
    → o + 1 ≤ elen
    → At b o ((base + val) ∷ [])
    → decode_int base b elen o ≡ some (o + 1, val)
unfolding decode_int
decode_one base b elen o val hb hv small fits at = ground arith

decode_two :
    (base : ℕ) (b : Buffer) (elen o x0 : ℕ)
    → base ≤ 32
    → elen < 2 ^ 31
    → o + 2 ≤ elen
    → At b o ((base + inline_threshold) ∷ x0 ∷ [])
    → decode_int base b elen o ≡ some (o + 2, x0)
unfolding decode_int
decode_two base b elen o x0 hb small fits at =
    let p1 : add32 o 1 ≡ o + 1 = omega arith in
    let p2 : add32 o 2 ≡ o + 2 = omega arith in rw (p1, p2, at.0, at.1.0) (ground arith)

decode_three :
    (base : ℕ) (b : Buffer) (elen o x0 x1 : ℕ)
    → base ≤ 32
    → elen < 2 ^ 31
    → o + 3 ≤ elen
    → At b o ((base + 25) ∷ x0 ∷ x1 ∷ [])
    → decode_int base b elen o ≡ some (o + 3, x0 * 256 + x1)
unfolding decode_int
decode_three base b elen o x0 x1 hb small fits at =
    let p1 : add32 o 1 ≡ o + 1 = omega arith in
    let p2 : add32 o 2 ≡ o + 1 + 1 = omega arith in
    rw (p1, p2, at.0, at.1.0, at.1.1.0) (ground arith)

decode_five :
    (base : ℕ) (b : Buffer) (elen o x0 x1 x2 x3 : ℕ)
    → base ≤ 32
    → elen < 2 ^ 31
    → o + 5 ≤ elen
    → At b o ((base + 26) ∷ x0 ∷ x1 ∷ x2 ∷ x3 ∷ [])
    → decode_int base b elen o ≡ some (o + 5, (x0 * 16777216 + x1 * 65536 + x2 * 256 + x3) % 2 ^ 32)
unfolding decode_int
decode_five base b elen o x0 x1 x2 x3 hb small fits at =
    let p1 : add32 o 1 ≡ o + 1 = omega arith in
    let p2 : add32 o 2 ≡ o + 1 + 1 = omega arith in
    let p3 : add32 o 3 ≡ o + 1 + 1 + 1 = omega arith in
    let p4 : add32 o 4 ≡ o + 1 + 1 + 1 + 1 = omega arith in
    rw (p1, p2, p3, p4, at.0, at.1.0, at.1.1.0, at.1.1.1.0, at.1.1.1.1.0) (ground arith)

-- The bytes of a number in each of the four lengths.
pub int_bytes-cases :
    (base val : ℕ)
    → val < 2 ^ 31
    → (val < 24 × (int_bytes base val ≡ (base + val) ∷ []))
      ⊎ ((int_bytes base val ≡ (base + 24) ∷ val ∷ [])
          ⊎ ((int_bytes base val ≡ (base + 25) ∷ (val / 256 % 256) ∷ (val % 256) ∷ [])
                × (val < 65536)
              ⊎ (int_bytes base val
                  ≡ (base + 26)
                    ∷ (val / 16777216 % 256)
                    ∷ (val / 65536 % 256)
                    ∷ (val / 256 % 256)
                    ∷ (val % 256)
                    ∷ [])))
unfolding int_bytes
int_bytes-cases base val h = elim (Bool-cases (ltb val 24)) [
  | inl e ↦ inl (ltb→lt val 24 e, rw e refl)
  | inr e ↦ inr (elim (Bool-cases (ltb val 256)) [
    | inl f ↦ inl (rw (e, f) refl)
    | inr f ↦ inr (elim (Bool-cases (ltb val 65536)) [
      | inl g ↦ inl (rw (e, f, g) refl, ltb→lt val 65536 g)
      | inr g ↦ inr (rw (e, f, g) refl)
    ])
  ])
]

pub decode_int-At :
    (base : ℕ) (b : Buffer) (elen o val : ℕ)
    → base ≤ 32
    → val < 2 ^ 31
    → elen < 2 ^ 31
    → o + length (int_bytes base val) ≤ elen
    → At b o (int_bytes base val)
    → decode_int base b elen o ≡ some (o + length (int_bytes base val), val)
decode_int-At base b elen o val hb hv small fits at = elim (int_bytes-cases base val hv) [
  | inl (lt, e) ↦ rw e (decode_one base b elen o val hb lt small (rw e at fits) (rw e at at))
  | inr (inl e) ↦ rw e (decode_two base b elen o val hb small (rw e at fits) (rw e at at))
  | inr (inr (inl (e, lt))) ↦ rw e (
      decode_three base b elen o (val / 256 % 256) (val % 256) hb small (rw e at fits) (rw e at at)
      ∙ ap (λ (v : ℕ). some (o + 3, v)) (omega arith))
  | inr (inr (inr e)) ↦ rw e (
      decode_five base b elen o (val / 16777216 % 256) (val / 65536 % 256) (val / 256 % 256)
        (val % 256) hb small (rw e at fits) (rw e at at)
      ∙ ap (λ (v : ℕ). some (o + 5, v)) (omega arith))
]

-- The first byte of a number lies in the range of its base.
pub first_byte :
    (base : ℕ) (b : Buffer) (o val : ℕ)
    → val < 2 ^ 31
    → At b o (int_bytes base val)
    → (base ≤ b o) × (b o < base + 32)
first_byte base b o val hv at = elim (int_bytes-cases base val hv) [
  | inl (lt, e) ↦
      let h : At b o ((base + val) ∷ []) = rw e at at in (omega (arith, h.0), omega (arith, h.0))
  | inr (inl e) ↦
      let h : At b o ((base + 24) ∷ val ∷ []) = rw e at at in
      (omega (arith, h.0), omega (arith, h.0))
  | inr (inr (inl (e, lt))) ↦
      let h : At b o ((base + 25) ∷ (val / 256 % 256) ∷ (val % 256) ∷ []) = rw e at at in
      (omega (arith, h.0), omega (arith, h.0))
  | inr (inr (inr e)) ↦
      let h : At b o (
          (base + 26)
          ∷ (val / 16777216 % 256)
          ∷ (val / 65536 % 256)
          ∷ (val / 256 % 256)
          ∷ (val % 256)
          ∷ []) =
        rw e at at in
      (omega (arith, h.0), omega (arith, h.0))
]

pub length-int_bytes_le : (base val : ℕ) → length (int_bytes base val) ≤ 5
unfolding int_bytes
length-int_bytes_le base val = ground arith
