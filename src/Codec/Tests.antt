-- ===== src/Codec/Tests.antt =====
-- The theorems of records and descriptors at concrete inputs.
use garry.Base.{ℕ, zero, suc, ◌≡◌, List, [], ◌∷◌, some, true, arith}
use garry.Base.Buffer.{Buffer}
use garry.Base.Word.{minus_one}
use garry.Codec.{
  ByteString, encode_kv, decode_kv, encode_key_only, decode_key_only, encode_descriptor,
  decode_descriptor,
}
use garry.Codec.Record.{decode_kv-encode_kv, decode_key_only-encode_key_only}
use garry.Codec.Descriptors.{decode_descriptor-encode_descriptor}

abbrev blank : Buffer
blank j = 0

abbrev key : List ℕ
key = 2 ∷ 97 ∷ 98 ∷ []

abbrev value : List ℕ
value = 120 ∷ []

decode_kv-encode_kv_example :
    (r : ByteString × ByteString) × (decode_kv
        (encode_kv key value blank).0
        (encode_kv key value blank).1
      ≡ some r)
    × ((r.0.bytes ≡ key) × (r.0.dlen ≡ 3))
    × ((r.1.bytes ≡ value) × (r.1.dlen ≡ 1))
decode_kv-encode_kv_example = decode_kv-encode_kv key value blank (omega arith) (omega arith)

abbrev zeros : ℕ → List ℕ
zeros zero = []
zeros (suc n) = 0 ∷ zeros n

-- A key of 257 bytes comes back as its first byte.
decode_key_only-encode_key_only_example :
    ((decode_key_only
        (encode_key_only (zeros 257) blank).0
        (encode_key_only (zeros 257) blank).1).bytes
      ≡ 0 ∷ [])
    × ((decode_key_only
          (encode_key_only (zeros 257) blank).0
          (encode_key_only (zeros 257) blank).1).dlen
        ≡ 1)
decode_key_only-encode_key_only_example =
    decode_key_only-encode_key_only (zeros 257) blank (omega arith)

-- the chain id -1
decode_descriptor-encode_descriptor_example :
    decode_descriptor
      (encode_descriptor minus_one true blank).0
      (encode_descriptor minus_one true blank).1
    ≡ record { chain_id = minus_one; has_children = true }
decode_descriptor-encode_descriptor_example =
    decode_descriptor-encode_descriptor minus_one true blank (omega arith)
