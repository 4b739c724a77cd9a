-- ===== src/Key/Integer.antt =====
-- An integer subscript comes back from its encoding.
use garry.Base.{ℕ, ◌^◌, ◌<◌, ◌≡◌, arith}
use garry.Base.Buffer.{Buffer, store}
use garry.Key.{store_le, load_le, encode_integer_subscript, decode_integer_subscript}

-- Every 32-bit integer comes back from its subscript: eight bytes, the lowest first, behind the
-- marker byte 2, of which the upper four are 0.
pub decode-encode_integer_subscript :
    (n : ℕ) (out : Buffer)
    → n < 2 ^ 32
    → (encode_integer_subscript n out 0 ≡ 2)
      × (decode_integer_subscript (encode_integer_subscript n out) 0 ≡ n)
unfolding encode_integer_subscript decode_integer_subscript store_le load_le store
decode-encode_integer_subscript n out h = ground arith
