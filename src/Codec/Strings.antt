-- ===== src/Codec/Strings.antt =====
-- The bytes of an encoded string, and what the decoder makes of them.
use garry.Base.{
  ℕ, zero, suc, ◌+◌, ◌%◌, ◌^◌, ◌≤◌, ◌<◌, ◌≡◌, refl, sym, ◌∙◌, ap₂, List, [], ◌∷◌, ◌++◌, length,
  take, true, ltb, if◌then◌else◌, arith, inl, inr, Bool-cases, length-append, ltb→lt,
}
use garry.Base.Buffer.{Buffer, copy_in, read_bytes}
use garry.Base.Word.{add32, sub32, slt}
use garry.Codec.{
  header_bytes, inline_threshold, bytes_base, cbor_encode_byte_string_raw, byte_string_at,
  cbor_decode_byte_string_raw,
}
use garry.Key.Tuple.{At, At-append-left, At-append-right, copy_in-append}

At-read_take :
    (b : Buffer) (o n : ℕ) (xs : List ℕ) → n ≤ length xs → At b o xs → read_bytes b o n ≡ take n xs
unfolding read_bytes
At-read_take b o zero xs h at = refl
At-read_take b o (suc n) [] h at = absurd (omega arith)
At-read_take b o (suc n) (x ∷ xs) h at =
    ap₂ ◌∷◌ at.0 (At-read_take b (o + 1) n xs (omega arith) at.1)

-- The bytes of an encoded string.
abbrev pub string_bytes : List ℕ → List ℕ
string_bytes xs = header_bytes bytes_base (length xs) ++ xs

read_or_none :
    (b : Buffer) (p slen : ℕ) (xs : List ℕ)
    → slen ≤ length xs
    → slen < 2 ^ 31
    → At b p xs
    → (if slt 0 slen then read_bytes b p slen else []) ≡ take slen xs
read_or_none b p zero xs h k at = refl
read_or_none b p (suc m) xs h k at =
    let e : slt 0 (suc m) ≡ true = ground arith in rw e (At-read_take b p (suc m) xs h at)

byte_string_at-At :
    (b : Buffer) (p slen : ℕ) (xs : List ℕ)
    → slen ≤ length xs
    → p + slen < 2 ^ 31
    → At b p xs
    → byte_string_at b p slen ≡ record { next = p + slen; bytes = take slen xs; dlen = slen }
byte_string_at-At b p slen xs h k at =
    let e : add32 p slen ≡ p + slen = omega arith in
    ap₂ (λ (n : ℕ) (l : List ℕ). record { next = n; bytes = l; dlen = slen }) e
      (read_or_none b p slen xs h (omega arith) at)

-- The test of the first bytes of a string finds its length up to multiples of 256, and its start.
decode_header :
    (b : Buffer) (blen o n : ℕ)
    → o + length (header_bytes bytes_base n) ≤ blen
    → blen < 2 ^ 31
    → At b o (header_bytes bytes_base n)
    → cbor_decode_byte_string_raw b blen o
      ≡ byte_string_at b (o + length (header_bytes bytes_base n)) (n % 256)
unfolding cbor_decode_byte_string_raw
decode_header b blen o n fits small at = elim (Bool-cases (ltb n inline_threshold)) [
  | inl h ↦
      let e : length (header_bytes bytes_base n) ≡ 1 = unfold header_bytes in rw h refl in
      let at' : At b o (((bytes_base + n) % 256) ∷ []) = unfold header_bytes in rw h at at in
      let ai : sub32 (b o) bytes_base ≡ n % 256 =
        omega (arith, ltb→lt n inline_threshold h, at'.0) in
      let t : slt (n % 256) 24 ≡ true = ground (arith, ltb→lt n inline_threshold h) in
      let p : add32 o 1 ≡ o + 1 = omega arith in rw (e, ai, t, p) refl
  | inr h ↦
      let e : length (header_bytes bytes_base n) ≡ 2 = unfold header_bytes in rw h refl in
      let at' : At b o (88 ∷ (n % 256) ∷ []) = unfold header_bytes in rw h at at in
      let ai : sub32 (b o) bytes_base ≡ 24 = omega (arith, at'.0) in
      let p : add32 o 1 ≡ o + 1 = omega arith in
      let q : add32 o 2 ≡ o + 2 = omega arith in
      let t : slt (o + 1) blen ≡ true = ground (arith, e) in rw (e, ai, p, q, t, at'.1.0) refl
]

-- Where the length of the string needs more than a byte, the upper part of it is lost.
pub decode_byte_string-At :
    (b : Buffer) (blen o : ℕ) (xs : List ℕ)
    → o + length (string_bytes xs) ≤ blen
    → blen < 2 ^ 31
    → At b o (string_bytes xs)
    → cbor_decode_byte_string_raw b blen o ≡ record {
      next = o + length (header_bytes bytes_base (length xs)) + length xs % 256;
      bytes = take (length xs % 256) xs;
      dlen = length xs % 256;
    }
decode_byte_string-At b blen o xs fits small at =
    decode_header b blen o (length xs) (omega (arith, total)) small
      (At-append-left b o header xs at)
    ∙ byte_string_at-At b (o + length header) (length xs % 256) xs (omega arith)
        (omega (arith, total)) (At-append-right b o (o + length header) header xs refl at)
  where
    header : List ℕ
    header = header_bytes bytes_base (length xs)

    total : length (string_bytes xs) ≡ length header + length xs
    total = length-append header xs

-- Storing a string is storing its bytes, and the result is the offset behind them.
pub encode_byte_string-string_bytes :
    (xs : List ℕ) (out : Buffer) (pos : ℕ)
    → cbor_encode_byte_string_raw xs out pos
      ≡ (copy_in out pos (string_bytes xs), pos + length (string_bytes xs))
unfolding cbor_encode_byte_string_raw
encode_byte_string-string_bytes xs out pos =
    ap₂ (λ (b : Buffer) (n : ℕ). (b, n)) (sym (copy_in-append out pos header xs))
      (omega (arith, length-append header xs))
  where
    header : List ℕ
    header = header_bytes bytes_base (length xs)

pub length-header_le : (n : ℕ) → length (header_bytes bytes_base n) ≤ 2
unfolding header_bytes
length-header_le n = ground arith
