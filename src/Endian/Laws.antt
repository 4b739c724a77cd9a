-- ===== src/Endian/Laws.antt =====
-- Reading back a little-endian word, and what a write of one leaves alone.
use garry.Base.{ℕ, ◌+◌, ◌^◌, ◌≤◌, ◌<◌, ◌≡◌, arith}
use garry.Base.Buffer.{Buffer, Outside}
use garry.Endian.{read_int32, write_int32}

-- `garry_read_int32` returns the 32-bit word that `garry_write_int32` stored at the same offset.
pub read_int32-write_int32 :
    (buf : Buffer) (o v : ℕ) → v < 2 ^ 32 → read_int32 (write_int32 buf o v) o ≡ v
unfolding read_int32 write_int32
read_int32-write_int32 buf o v h = ground arith

pub write_int32-Outside : (buf : Buffer) (o v j : ℕ) → Outside j o 4 → write_int32 buf o v j ≡ buf j
unfolding write_int32
write_int32-Outside buf o v j h = ground arith

pub read_int32-ext :
    (b c : Buffer) (o : ℕ)
    → ((i : ℕ) → o ≤ i → i < o + 4 → b i ≡ c i)
    → read_int32 b o ≡ read_int32 c o
unfolding read_int32
read_int32-ext b c o h = omega (
  arith,
  h o (omega arith) (omega arith),
  h (o + 1) (omega arith) (omega arith),
  h (o + 2) (omega arith) (omega arith),
  h (o + 3) (omega arith) (omega arith),
)
