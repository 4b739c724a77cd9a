-- ===== src/Codec/Descriptors.antt =====
-- A descriptor comes back from its encoding, for every 32-bit chain id.
use garry.Base.{
  ℕ, ◌+◌, ◌^◌, ◌≤◌, ◌<◌, ◌≡◌, lt→ltb, le→ltb, refl, ◌∙◌, ap, List, [], ◌∷◌, ◌++◌, length, Bool,
  true, false, ltb, ◌==◌, if◌then◌else◌, arith, inl, inr, Bool-cases, length-append, ltb→lt, ltb→le,
}
use garry.Base.Buffer.{Buffer, copy_in}
use garry.Base.Word.{add32, sub32, sle, minus_one}
use garry.Codec.{
  int_bytes, chain_id_bytes, descriptor_bytes, encode_descriptor, decode_flag, decode_chain_id,
  decode_descriptor, uint_base, negint_base, text_base, simple_base,
}
use garry.Key.Tuple.{copied-At}
use garry.Key.Tuple.{At, At-append-left, At-append-right}
use garry.Codec.Numbers.{decode_int-At, first_byte, length-int_bytes_le}

flag_bytes : Bool → List ℕ
flag_bytes has_children = 98 ∷ 104 ∷ 99 ∷ (simple_base + (if has_children then 21 else 20)) ∷ []

decode_flag-At :
    (b : Buffer) (o elen id : ℕ) (has_children : Bool)
    → elen < 2 ^ 31
    → o + 4 ≡ elen
    → At b o (flag_bytes has_children)
    → decode_flag b elen o id ≡ record { chain_id = id; has_children = has_children }
unfolding decode_flag flag_bytes
decode_flag-At b o elen id has_children small e at =
    let p : add32 (add32 o 1) (sub32 (b o) text_base) ≡ o + 1 + 1 + 1 = omega (arith, at.0) in
    let t : sle elen o ≡ false = ground arith in
    let u : sle elen (o + 1 + 1 + 1) ≡ false = ground arith in
    rw (p, t, u, at.1.1.1.0)
      (ap (λ (h : Bool). record { chain_id = id; has_children = h }) (flag has_children))
  where
    flag : (h : Bool) → ((simple_base + (if h then 21 else 20)) == simple_base + 21) ≡ h
    flag true = refl
    flag false = refl

decode_uint-At :
    (b : Buffer) (o elen val : ℕ) (has_children : Bool)
    → val < 2 ^ 31
    → elen < 2 ^ 31
    → o + length (int_bytes uint_base val) + 4 ≡ elen
    → At b o (int_bytes uint_base val)
    → At b (o + length (int_bytes uint_base val)) (flag_bytes has_children)
    → decode_chain_id b elen o ≡ record { chain_id = val; has_children = has_children }
unfolding decode_chain_id
decode_uint-At b o elen val has_children hv small e at fl =
    let (_, hi) = first_byte uint_base b o val hv at in
    rw
      (
        lt→ltb (b o) 32 hi,
        decode_int-At uint_base b elen o val (omega arith) hv small (omega arith) at,
      )
      (decode_flag-At b (o + length (int_bytes uint_base val)) elen val has_children small e fl)

decode_negint-At :
    (b : Buffer) (o elen val : ℕ) (has_children : Bool)
    → val < 2 ^ 31
    → elen < 2 ^ 31
    → o + length (int_bytes negint_base val) + 4 ≡ elen
    → At b o (int_bytes negint_base val)
    → At b (o + length (int_bytes negint_base val)) (flag_bytes has_children)
    → decode_chain_id b elen o
      ≡ record { chain_id = sub32 minus_one val; has_children = has_children }
unfolding decode_chain_id
decode_negint-At b o elen val has_children hv small e at fl =
    let (lo, hi) = first_byte negint_base b o val hv at in
    rw
      (
        le→ltb (b o) 32 lo,
        lt→ltb (b o) 64 hi,
        decode_int-At negint_base b elen o val (omega arith) hv small (omega arith) at,
      )
      (decode_flag-At b (o + length (int_bytes negint_base val)) elen (sub32 minus_one val)
        has_children small e fl)

decode_chain_id-At :
    (b : Buffer) (o elen id : ℕ) (has_children : Bool)
    → id < 2 ^ 32
    → elen < 2 ^ 31
    → o + length (chain_id_bytes id) + 4 ≡ elen
    → At b o (chain_id_bytes id)
    → At b (o + length (chain_id_bytes id)) (flag_bytes has_children)
    → decode_chain_id b elen o ≡ record { chain_id = id; has_children = has_children }
decode_chain_id-At b o elen id has_children hid small e at fl =
    elim (Bool-cases (ltb id (2 ^ 31))) [
      | inl h ↦
          let c : chain_id_bytes id ≡ int_bytes uint_base id = unfold chain_id_bytes in rw h refl in
          decode_uint-At b o elen id has_children (ltb→lt id (2 ^ 31) h) small (rw c at e)
            (rw c at at) (rw c at fl)
      | inr h ↦
          let c : chain_id_bytes id ≡ int_bytes negint_base (sub32 minus_one id) =
            unfold chain_id_bytes in rw h refl in
          decode_negint-At b o elen (sub32 minus_one id) has_children
            (omega (arith, ltb→le id (2 ^ 31) h)) small (rw c at e) (rw c at at) (rw c at fl)
          ∙ ap (λ (n : ℕ). record { chain_id = n; has_children = has_children }) (omega arith)
    ]

length-chain_id_bytes_le : (id : ℕ) → length (chain_id_bytes id) ≤ 5
unfolding chain_id_bytes
length-chain_id_bytes_le id =
    ground (
      arith,
      length-int_bytes_le uint_base id,
      length-int_bytes_le negint_base (sub32 minus_one id),
    )

-- A descriptor comes back from its encoding, whatever its 32-bit chain id, negative ones included,
-- and its flag.
pub decode_descriptor-encode_descriptor :
    (id : ℕ) (has_children : Bool) (out : Buffer)
    → id < 2 ^ 32
    → let (encoded, elen) = encode_descriptor id has_children out in
      decode_descriptor encoded elen ≡ record { chain_id = id; has_children = has_children }
unfolding encode_descriptor decode_descriptor
decode_descriptor-encode_descriptor id has_children out h =
    rw (t0, at.0, t1, p, t2)
      (decode_chain_id-At b 5 elen id has_children h
        (omega (arith, whole, length-chain_id_bytes_le id)) (omega (arith, whole))
        (At-append-left b 5 ids fl rest) (At-append-right b 5 (5 + length ids) ids fl refl rest))
  where
    b : Buffer
    b = copy_in out 0 (descriptor_bytes id has_children)

    elen : ℕ
    elen = length (descriptor_bytes id has_children)

    ids : List ℕ
    ids = chain_id_bytes id

    fl : List ℕ
    fl = flag_bytes has_children

    at : At b 0 (162 ∷ 99 ∷ 99 ∷ 105 ∷ 100 ∷ (ids ++ fl))
    at = unfold descriptor_bytes flag_bytes in copied-At out 0 (descriptor_bytes id has_children)

    rest : At b 5 (ids ++ fl)
    rest = at.1.1.1.1.1

    whole : elen ≡ 9 + length ids
    whole = unfold descriptor_bytes flag_bytes in omega (arith, length-append ids fl)

    t0 : sle elen 0 ≡ false
    t0 = ground (arith, whole, length-chain_id_bytes_le id)

    t1 : sle elen 1 ≡ false
    t1 = ground (arith, whole, length-chain_id_bytes_le id)

    p : add32 2 (sub32 (b 1) text_base) ≡ 5
    p = omega (arith, at.1.0)

    t2 : sle elen 5 ≡ false
    t2 = ground (arith, whole, length-chain_id_bytes_le id)
