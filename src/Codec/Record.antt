-- ===== src/Codec/Record.antt =====
-- Byte strings and key-value records come back from their encoding, up to 255 bytes each.
use garry.Base.{
  ℕ, ◌+◌, ◌%◌, ◌^◌, ◌≤◌, ◌<◌, ◌≡◌, refl, sym, ◌∙◌, ap, ap₂, List, [], ◌∷◌, ◌++◌, length, take, some,
  true, false, leb, ◌==◌, arith, length-append,
}
use garry.Base.Buffer.{Buffer, copy_in}
use garry.Base.Word.{sle}
use garry.Codec.{
  header_bytes, bytes_base, cbor_encode_array_header_raw, cbor_decode_array_header_raw,
  cbor_array_header_size_raw, ByteString, cbor_decode_byte_string_raw, encode_kv, decode_kv,
  encode_key_only, decode_key_only,
}
use garry.Key.Tuple.{copied-At, At, At-append-left, At-append-right, copy_in-append}
use garry.Codec.Strings.{
  string_bytes, decode_byte_string-At, encode_byte_string-string_bytes, length-header_le,
}

-- A key record gives the key back up to its length's last byte: a key of at most 255 bytes comes
-- back, and of a longer one, of n bytes, only its first n % 256.
pub decode_key_only-encode_key_only :
    (key : List ℕ) (out : Buffer)
    → length key < 2 ^ 30
    → let (encoded, elen) = encode_key_only key out in
      ((decode_key_only encoded elen).bytes ≡ take (length key % 256) key)
      × ((decode_key_only encoded elen).dlen ≡ length key % 256)
unfolding encode_key_only decode_key_only
decode_key_only-encode_key_only key out h =
    rw
      (
        encode_byte_string-string_bytes key out 0,
        decode_byte_string-At (copy_in out 0 (string_bytes key)) (0 + length (string_bytes key)) 0
            key (omega arith) (omega (arith, long, length-header_le (length key)))
            (copied-At out 0 (string_bytes key)),
      )
      (refl, refl)
  where
    long : length (string_bytes key) ≡ length (header_bytes bytes_base (length key)) + length key
    long = length-append (header_bytes bytes_base (length key)) key

kv_bytes : List ℕ → List ℕ → List ℕ
kv_bytes key value = 130 ∷ (string_bytes key ++ string_bytes value)

encode_array_two :
    (out : Buffer) → cbor_encode_array_header_raw out 0 2 ≡ (copy_in out 0 (130 ∷ []), 1)
unfolding cbor_encode_array_header_raw header_bytes
encode_array_two out = refl

encode_kv-kv_bytes :
    (key value : List ℕ) (out : Buffer)
    → encode_kv key value out ≡ (copy_in out 0 (kv_bytes key value), length (kv_bytes key value))
unfolding encode_kv kv_bytes
encode_kv-kv_bytes key value out =
    rw
      (
        encode_array_two out,
        encode_byte_string-string_bytes key (copy_in out 0 (130 ∷ [])) 1,
        encode_byte_string-string_bytes value (copy_in (copy_in out 0 (130 ∷ [])) 1 k)
            (1 + length k),
        first,
        second,
      )
      (ap₂ (λ (b : Buffer) (n : ℕ). (b, n)) stored (omega (arith, length-append k v)))
  where
    k : List ℕ
    k = string_bytes key

    v : List ℕ
    v = string_bytes value

    first : leb (1 + length k) 0 ≡ false
    first = ground arith

    second : leb (1 + length k + length v) 0 ≡ false
    second = ground arith

    stored :
        copy_in (copy_in (copy_in out 0 (130 ∷ [])) 1 k) (1 + length k) v
        ≡ copy_in out 0 (130 ∷ (k ++ v))
    stored =
        sym (
          copy_in-append out 0 (130 ∷ []) (k ++ v)
          ∙ copy_in-append (copy_in out 0 (130 ∷ [])) 1 k v)

take_whole : (xs : List ℕ) → take (length xs) xs ≡ xs
take_whole [] = refl
take_whole (x ∷ xs) = ap (λ l. x ∷ l) (take_whole xs)

-- A string of at most 255 bytes comes back whole.
decode_whole :
    (b : Buffer) (blen o : ℕ) (xs : List ℕ)
    → length xs ≤ 255
    → o + length (string_bytes xs) ≤ blen
    → blen < 2 ^ 31
    → At b o (string_bytes xs)
    → cbor_decode_byte_string_raw b blen o
      ≡ record { next = o + length (string_bytes xs); bytes = xs; dlen = length xs }
decode_whole b blen o xs h fits small at =
    decode_byte_string-At b blen o xs fits small at
    ∙ ap₂ (λ (n m : ℕ). record { next = n; bytes = take m xs; dlen = m })
        (omega (arith, length-append (header_bytes bytes_base (length xs)) xs)) m_lem
    ∙ ap
        (λ (l : List ℕ). record {
          next = o + length (string_bytes xs);
          bytes = l;
          dlen = length xs;
        })
        (take_whole xs)
  where
    m_lem : length xs % 256 ≡ length xs
    m_lem = omega arith

-- A key-value record whose key and value have at most 255 bytes comes back from its encoding.
pub decode_kv-encode_kv :
    (key value : List ℕ) (out : Buffer)
    → length key ≤ 255
    → length value ≤ 255
    → let (encoded, elen) = encode_kv key value out in
      (r : ByteString × ByteString) × (decode_kv encoded elen ≡ some r)
      × ((r.0.bytes ≡ key) × (r.0.dlen ≡ length key))
      × ((r.1.bytes ≡ value) × (r.1.dlen ≡ length value))
decode_kv-encode_kv key value out hk hv = (
  (
    record { next = 1 + length k; bytes = key; dlen = length key },
    record { next = 1 + length k + length v; bytes = value; dlen = length value },
  ),
  rw (encode_kv-kv_bytes key value out) whole,
  (refl, refl),
  (refl, refl),
)
  where
    k : List ℕ
    k = string_bytes key

    v : List ℕ
    v = string_bytes value

    b : Buffer
    b = copy_in out 0 (kv_bytes key value)

    elen : ℕ
    elen = length (kv_bytes key value)

    elen_lem : elen ≡ 1 + length k + length v
    elen_lem = unfold kv_bytes in omega (arith, length-append k v)

    short : (xs : List ℕ) → length xs ≤ 255 → length (string_bytes xs) ≤ 257
    short xs h = omega (
      arith,
      length-append (header_bytes bytes_base (length xs)) xs,
      length-header_le (length xs),
    )

    at : At b 0 (130 ∷ (k ++ v))
    at = unfold kv_bytes in copied-At out 0 (130 ∷ (k ++ v))

    key_lem :
        cbor_decode_byte_string_raw b elen 1
        ≡ record { next = 1 + length k; bytes = key; dlen = length key }
    key_lem =
        decode_whole b elen 1 key hk (omega (arith, elen_lem))
          (omega (arith, elen_lem, short key hk, short value hv)) (At-append-left b 1 k v at.1)

    value_lem :
        cbor_decode_byte_string_raw b elen (1 + length k)
        ≡ record { next = 1 + length k + length v; bytes = value; dlen = length value }
    value_lem =
        decode_whole b elen (1 + length k) value hv (omega (arith, elen_lem))
          (omega (arith, elen_lem, short key hk, short value hv))
          (At-append-right b 1 (1 + length k) k v refl at.1)

    head : (cbor_decode_array_header_raw b elen 0 == 2) ≡ true
    head = unfold cbor_decode_array_header_raw in rw at.0 refl

    head_size : cbor_array_header_size_raw b 0 ≡ 1
    head_size = unfold cbor_array_header_size_raw in rw at.0 refl

    t0 : sle elen 0 ≡ false
    t0 = ground (arith, elen_lem, short key hk, short value hv)

    t1 : sle (1 + length k) 0 ≡ false
    t1 = ground (arith, short key hk)

    t2 : sle (1 + length k + length v) 0 ≡ false
    t2 = ground (arith, short key hk, short value hv)

    whole :
        decode_kv b elen
        ≡ some (
          record { next = 1 + length k; bytes = key; dlen = length key },
          record { next = 1 + length k + length v; bytes = value; dlen = length value },
        )
    whole = unfold decode_kv in rw (head_size, key_lem, value_lem, head, t0, t1, t2) refl
