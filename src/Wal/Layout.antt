-- ===== src/Wal/Layout.antt =====
-- The buffer of a record of the log holds the fields of the record at their offsets.
use garry.Base.{
  ℕ, zero, suc, ◌+◌, ◌^◌, ◌≤◌, ◌<◌, ◌≡◌, ◌⊎◌, refl, sym, ◌∙◌, ap, ap₂, Bool, true, false,
  if◌then◌else◌, ◌∷◌, length, arith, inl, inr,
}
use garry.Base.Buffer.{
  Buffer, Outside, copy_in, copy_in-Outside, read_bytes, store, store_self, length-read_bytes,
}
use garry.Endian.{read_int32, write_int32}
use garry.Endian.Laws.{read_int32-write_int32, write_int32-Outside, read_int32-ext}
use garry.Wal.{
  WalRecord, WalRecordKind, update, commit, abort, checkpoint, delete, kind_code, record_buffer,
  zeros, kind_off, txid_off, klen_off, vlen_off, key_off, new_off, new_overflow_flag_off,
  new_overflow_head_off,
}

-- No offset of the `n` bytes from `p` on is one of the `k` bytes from `o` on.
abbrev Apart : ℕ → ℕ → ℕ → ℕ → Type 0
Apart p n o k = (p + n ≤ o) ⊎ (o + k ≤ p)

Apart-Outside : (p n o k i : ℕ) → Apart p n o k → p ≤ i → i < p + n → Outside i o k
Apart-Outside p n o k i (inl h) lo hi = inl (omega arith)
Apart-Outside p n o k i (inr h) lo hi = inr (omega arith)

int_past_int :
    (b : Buffer) (o v p : ℕ) → Apart p 4 o 4 → read_int32 (write_int32 b o v) p ≡ read_int32 b p
int_past_int b o v p h =
    read_int32-ext (write_int32 b o v) b p
      (λ i lo hi. write_int32-Outside b o v i (Apart-Outside p 4 o 4 i h lo hi))

int_past_copy :
    (b : Buffer) (o : ℕ) (src : Buffer) (p : ℕ)
    → Apart p 4 o 256
    → read_int32 (copy_in b o (read_bytes src 0 256)) p ≡ read_int32 b p
int_past_copy b o src p h = read_int32-ext (copy_in b o (read_bytes src 0 256)) b p (λ i lo hi.
    copy_in-Outside b o (read_bytes src 0 256) i (apart i (Apart-Outside p 4 o 256 i h lo hi)))
  where
    apart : (i : ℕ) → Outside i o 256 → Outside i o (length (read_bytes src 0 256))
    apart i (inl g) = inl g
    apart i (inr g) = inr (omega (arith, length-read_bytes src 0 256))

byte_past_copy :
    (b : Buffer) (o : ℕ) (src : Buffer) (i : ℕ)
    → Outside i o 256
    → copy_in b o (read_bytes src 0 256) i ≡ b i
byte_past_copy b o src i (inl g) = copy_in-Outside b o (read_bytes src 0 256) i (inl g)
byte_past_copy b o src i (inr g) =
    copy_in-Outside b o (read_bytes src 0 256) i (inr (omega (arith, length-read_bytes src 0 256)))

copied_byte :
    (b src : Buffer) (o s n i : ℕ) → i < n → copy_in b o (read_bytes src s n) (o + i) ≡ src (s + i)
unfolding copy_in read_bytes
copied_byte b src o s zero i h = absurd (omega arith)
copied_byte b src o s (suc n) zero h =
    let e : o + 0 ≡ o = omega arith in
    let f : s + 0 ≡ s = omega arith in
    ap (copy_in b o (read_bytes src s (suc n))) e
    ∙ copy_in-Outside (store b o (src s)) (o + 1) (read_bytes src (s + 1) n) o (inl (omega arith))
    ∙ store_self b o (src s)
    ∙ ap src (sym f)
copied_byte b src o s (suc n) (suc i) h =
    let e : o + 1 + i ≡ o + suc i = omega arith in
    let f : s + 1 + i ≡ s + suc i = omega arith in
    ap (copy_in b o (read_bytes src s (suc n))) (sym e)
    ∙ copied_byte (store b o (src s)) src (o + 1) (s + 1) n i (omega arith)
    ∙ ap src f

pub read_bytes-shift :
    (b c : Buffer) (o p n : ℕ)
    → ((i : ℕ) → i < n → b (o + i) ≡ c (p + i))
    → read_bytes b o n ≡ read_bytes c p n
unfolding read_bytes
read_bytes-shift b c o p zero h = refl
read_bytes-shift b c o p (suc n) h =
    let e : o + 0 ≡ o = omega arith in
    let f : p + 0 ≡ p = omega arith in
    ap₂ ◌∷◌ (ap b (sym e) ∙ h 0 (omega arith) ∙ ap c f) (
      read_bytes-shift b c (o + 1) (p + 1) n λ i lt.
        let e' : o + 1 + i ≡ o + suc i = omega arith in
        let f' : p + 1 + i ≡ p + suc i = omega arith in
        ap b e' ∙ h (suc i) (omega arith) ∙ ap c (sym f'))

kind_code-bound : (kind : WalRecordKind) → kind_code kind < 2 ^ 32
unfolding kind_code
kind_code-bound update = omega arith
kind_code-bound commit = omega arith
kind_code-bound abort = omega arith
kind_code-bound checkpoint = omega arith
kind_code-bound delete = omega arith

-- The numbers of the record are 32-bit patterns.
pub record IsWalRecord (rec : WalRecord) : Type 0 where
  pub txid_bound : rec.txid < 2 ^ 32
  pub key_len_bound : rec.key_len < 2 ^ 32
  pub value_len_bound : rec.value_len < 2 ^ 32
  pub head_bound : rec.new_overflow_head < 2 ^ 32

abbrev pub flag : WalRecord → ℕ
flag rec = if rec.new_is_overflow then 1 else 0

-- What the recovery reads in the buffer of a record.
pub record Holds (b : Buffer) (rec : WalRecord) : Type 0 where
  pub kind : read_int32 b kind_off ≡ kind_code rec.kind
  pub txid : read_int32 b txid_off ≡ rec.txid
  pub key_len : read_int32 b klen_off ≡ rec.key_len
  pub value_len : read_int32 b vlen_off ≡ rec.value_len
  pub is_overflow : read_int32 b new_overflow_flag_off ≡ flag rec
  pub head : read_int32 b new_overflow_head_off ≡ rec.new_overflow_head
  pub key : (n : ℕ) → n ≤ 256 → read_bytes b key_off n ≡ read_bytes rec.key 0 n
  pub new_data : (n : ℕ) → n ≤ 256 → read_bytes b new_off n ≡ read_bytes rec.new_data 0 n

-- Every field that the recovery reads in the buffer of a record is that of the record.
pub record_buffer-Holds : (rec : WalRecord) → IsWalRecord rec → Holds (record_buffer rec) rec
unfolding record_buffer
record_buffer-Holds rec ok = record {
  kind =
      int_past_int b7 788 _ 0 (inl (omega arith))
      ∙ int_past_int b6 784 _ 0 (inl (omega arith))
      ∙ past_copies 0 (inl (omega arith))
      ∙ int_past_int b2 12 _ 0 (inl (omega arith))
      ∙ int_past_int b1 8 _ 0 (inl (omega arith))
      ∙ int_past_int b0 4 _ 0 (inl (omega arith))
      ∙ read_int32-write_int32 zeros 0 (kind_code rec.kind) (kind_code-bound rec.kind);
  txid =
      int_past_int b7 788 _ 4 (inl (omega arith))
      ∙ int_past_int b6 784 _ 4 (inl (omega arith))
      ∙ past_copies 4 (inl (omega arith))
      ∙ int_past_int b2 12 _ 4 (inl (omega arith))
      ∙ int_past_int b1 8 _ 4 (inl (omega arith))
      ∙ read_int32-write_int32 b0 4 rec.txid ok.txid_bound;
  key_len =
      int_past_int b7 788 _ 8 (inl (omega arith))
      ∙ int_past_int b6 784 _ 8 (inl (omega arith))
      ∙ past_copies 8 (inl (omega arith))
      ∙ int_past_int b2 12 _ 8 (inl (omega arith))
      ∙ read_int32-write_int32 b1 8 rec.key_len ok.key_len_bound;
  value_len =
      int_past_int b7 788 _ 12 (inl (omega arith))
      ∙ int_past_int b6 784 _ 12 (inl (omega arith))
      ∙ past_copies 12 (inl (omega arith))
      ∙ read_int32-write_int32 b2 12 rec.value_len ok.value_len_bound;
  is_overflow =
      int_past_int b7 788 _ 784 (inl (omega arith))
      ∙ read_int32-write_int32 b6 784 (flag rec) (flag-bound rec.new_is_overflow);
  head = read_int32-write_int32 b7 788 rec.new_overflow_head ok.head_bound;
  key = λ n le. read_bytes-shift b8 rec.key 16 0 n λ i lt.
      byte_past_ints (16 + i) (omega arith)
      ∙ byte_past_copy b5 528 rec.new_data (16 + i) (inl (omega arith))
      ∙ byte_past_copy b4 272 rec.old_data (16 + i) (inl (omega arith))
      ∙ copied_byte b3 rec.key 16 0 256 i (omega arith);
  new_data = λ n le. read_bytes-shift b8 rec.new_data 528 0 n λ i lt.
      byte_past_ints (528 + i) (omega arith)
      ∙ copied_byte b5 rec.new_data 528 0 256 i (omega arith);
}
  where
    b0 : Buffer
    b0 = write_int32 zeros 0 (kind_code rec.kind)

    b1 : Buffer
    b1 = write_int32 b0 4 rec.txid

    b2 : Buffer
    b2 = write_int32 b1 8 rec.key_len

    b3 : Buffer
    b3 = write_int32 b2 12 rec.value_len

    b4 : Buffer
    b4 = copy_in b3 16 (read_bytes rec.key 0 256)

    b5 : Buffer
    b5 = copy_in b4 272 (read_bytes rec.old_data 0 256)

    b6 : Buffer
    b6 = copy_in b5 528 (read_bytes rec.new_data 0 256)

    b7 : Buffer
    b7 = write_int32 b6 784 (flag rec)

    b8 : Buffer
    b8 = write_int32 b7 788 rec.new_overflow_head

    flag-bound : (o : Bool) → (if o then 1 else 0) < 2 ^ 32
    flag-bound true = omega arith
    flag-bound false = omega arith

    past_copies : (p : ℕ) → Apart p 4 16 768 → read_int32 b6 p ≡ read_int32 b3 p
    past_copies p h =
        int_past_copy b5 528 rec.new_data p (part p 528 h (omega arith) (omega arith))
        ∙ int_past_copy b4 272 rec.old_data p (part p 272 h (omega arith) (omega arith))
        ∙ int_past_copy b3 16 rec.key p (part p 16 h (omega arith) (omega arith))
      where
        part : (p o : ℕ) → Apart p 4 16 768 → 16 ≤ o → o + 256 ≤ 784 → Apart p 4 o 256
        part p o (inl g) lo hi = inl (omega arith)
        part p o (inr g) lo hi = inr (omega arith)

    byte_past_ints : (j : ℕ) → j < 784 → b8 j ≡ b6 j
    byte_past_ints j lt =
        write_int32-Outside b7 788 rec.new_overflow_head j (inl (omega arith))
        ∙ write_int32-Outside b6 784 (flag rec) j (inl (omega arith))
