-- ===== src/Node/Uint.antt =====
-- The numbers of a node's metadata come back from their encoding.
use garry.Base.{
  ℕ, ◌+◌, ◌*◌, ◌/◌, ◌%◌, ◌^◌, ◌≤◌, ◌<◌, ◌≡◌, ◌∙◌, ap, [], ◌∷◌, length, arith, inl, inr,
}
use garry.Base.Buffer.{Buffer}
use garry.Codec.{int_bytes}
use garry.Codec.Numbers.{int_bytes-cases}
use garry.Key.Tuple.{At}
use garry.Node.{cbor_uint_bytes, decode_cbor_uint, biased_id}

decode_five :
    (b : Buffer) (elen o x0 x1 x2 x3 old : ℕ)
    → o + 5 ≤ elen
    → At b o (26 ∷ x0 ∷ x1 ∷ x2 ∷ x3 ∷ [])
    → decode_cbor_uint b o elen old ≡ (o + 5, (x0 * 16777216 + x1 * 65536 + x2 * 256 + x3) % 2 ^ 32)
unfolding decode_cbor_uint
decode_five b elen o x0 x1 x2 x3 old fits at =
    let p2 : o + 2 ≡ o + 1 + 1 = omega arith in
    let p3 : o + 3 ≡ o + 1 + 1 + 1 = omega arith in
    let p4 : o + 4 ≡ o + 1 + 1 + 1 + 1 = omega arith in
    rw (p2, p3, p4, at.0, at.1.0, at.1.1.0, at.1.1.1.0, at.1.1.1.1.0) (ground arith)

decode_three :
    (b : Buffer) (elen o x0 x1 old : ℕ)
    → o + 3 ≤ elen
    → At b o (25 ∷ x0 ∷ x1 ∷ [])
    → decode_cbor_uint b o elen old ≡ (o + 3, x0 * 256 + x1)
unfolding decode_cbor_uint
decode_three b elen o x0 x1 old fits at =
    let p2 : o + 2 ≡ o + 1 + 1 = omega arith in rw (p2, at.0, at.1.0, at.1.1.0) (ground arith)

decode_two :
    (b : Buffer) (elen o x0 old : ℕ)
    → o + 2 ≤ elen
    → At b o (24 ∷ x0 ∷ [])
    → decode_cbor_uint b o elen old ≡ (o + 2, x0)
unfolding decode_cbor_uint
decode_two b elen o x0 old fits at = rw (at.0, at.1.0) (ground arith)

decode_one :
    (b : Buffer) (elen o v old : ℕ)
    → o + 1 ≤ elen
    → v < 24
    → At b o (v ∷ [])
    → decode_cbor_uint b o elen old ≡ (o + 1, v)
unfolding decode_cbor_uint
decode_one b elen o v old fits h at = rw at.0 (ground arith)

-- A page id whose bias keeps it in the range of 32-bit integers that are not negative.
abbrev pub IsBiased : ℕ → Type 0
IsBiased id = (id < 2 ^ 32) × (biased_id id < 2 ^ 31)

cbor_uint_bytes-int_bytes : (v : ℕ) → v < 2 ^ 31 → cbor_uint_bytes v ≡ int_bytes 0 v
unfolding cbor_uint_bytes
cbor_uint_bytes-int_bytes v h = ground arith

pub decode_cbor_uint-At :
    (b : Buffer) (elen o v old : ℕ)
    → v < 2 ^ 31
    → o + length (cbor_uint_bytes v) ≤ elen
    → At b o (cbor_uint_bytes v)
    → decode_cbor_uint b o elen old ≡ (o + length (cbor_uint_bytes v), v)
decode_cbor_uint-At b elen o v old h fits at = elim (int_bytes-cases 0 v h) [
  | inl (lt, e) ↦
      let c : cbor_uint_bytes v ≡ (v ∷ []) =
        cbor_uint_bytes-int_bytes v h ∙ e ∙ ap (λ x. x ∷ []) (omega arith) in
      rw c (decode_one b elen o v old (rw c at fits) lt (rw c at at))
  | inr (inl e) ↦
      let c : cbor_uint_bytes v ≡ (24 ∷ v ∷ []) = cbor_uint_bytes-int_bytes v h ∙ e in
      rw c (decode_two b elen o v old (rw c at fits) (rw c at at))
  | inr (inr (inl (e, lt))) ↦
      let c : cbor_uint_bytes v ≡ (25 ∷ (v / 256 % 256) ∷ (v % 256) ∷ []) =
        cbor_uint_bytes-int_bytes v h ∙ e in
      rw c (
        decode_three b elen o (v / 256 % 256) (v % 256) old (rw c at fits) (rw c at at)
        ∙ ap (λ (n : ℕ). (o + 3, n)) (omega arith))
  | inr (inr (inr e)) ↦
      let c : cbor_uint_bytes v
          ≡ (26 ∷ (v / 16777216 % 256) ∷ (v / 65536 % 256) ∷ (v / 256 % 256) ∷ (v % 256) ∷ []) =
        cbor_uint_bytes-int_bytes v h ∙ e in
      rw c (
        decode_five b elen o (v / 16777216 % 256) (v / 65536 % 256) (v / 256 % 256) (v % 256) old
          (rw c at fits) (rw c at at)
        ∙ ap (λ (n : ℕ). (o + 5, n)) (omega arith))
]
