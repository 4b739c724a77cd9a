-- ===== src/Endian.antt =====
-- src/util_endian.h, and the two wrappers of src/db_header.c: 32-bit words in little-endian order.
-- A word is its bit pattern, and `|` of bytes in different places is their sum.
pub mod Laws
use garry.Base.{ℕ, ◌+◌, ◌*◌, ◌/◌, ◌%◌}
use garry.Base.Buffer.{Buffer, store}

unfoldable pub read_le32 : Buffer → ℕ → ℕ
read_le32 buf offset =
    buf offset + buf (offset + 1) * 256 + buf (offset + 2) * 65536 + buf (offset + 3) * 16777216

unfoldable pub write_le32 : Buffer → ℕ → ℕ → Buffer
unfolding store
write_le32 buf offset val =
    let b0 = store buf offset (val % 256) in
    let b1 = store b0 (offset + 1) (val / 256 % 256) in
    let b2 = store b1 (offset + 2) (val / 65536 % 256) in
    store b2 (offset + 3) (val / 16777216 % 256)

-- `garry_write_int32` and `garry_read_int32` only pass their arguments on.
unfoldable pub write_int32 : Buffer → ℕ → ℕ → Buffer
unfolding write_le32
write_int32 buf offset val = write_le32 buf offset val

unfoldable pub read_int32 : Buffer → ℕ → ℕ
unfolding read_le32
read_int32 buf offset = read_le32 buf offset
