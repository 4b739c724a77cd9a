-- ===== src/Chain/Overflow.antt =====
-- Reading a chain of overflow pages: it ends, and it gives the bytes that the pages hold in order.
use garry.Base.{
  ℕ, zero, suc, ◌+◌, ◌-◌, ◌^◌, ◌≤◌, ◌<◌, ◌≡◌, refl, ◌∙◌, arith, List, [], ◌++◌, length, ap, ap₂,
  Option, some, if◌then◌else◌, ltb, sym, length-append, append-nil,
}
use garry.Base.Buffer.{Buffer, read_bytes}
use garry.Endian.{read_int32}
use garry.Page.{header_size}
use garry.Chain.{overflow_read_from, overflow_read, overflow_chunk_size, overflow_ptr_size}

-- The value `bytes` is laid out from page `pid` on: each page holds the id of the next one and up to
-- `chunk` bytes of the value.
pub data Holds (pages : ℕ → Option Buffer) (chunk : ℕ) : ℕ → List ℕ → Type 0 where
  last :
      {pid : ℕ} (buf : Buffer) (bytes : List ℕ)
      → pid < 2 ^ 31
      → pages pid ≡ some buf
      → 0 < length bytes
      → length bytes ≤ chunk
      → read_bytes buf (header_size + overflow_ptr_size) (length bytes) ≡ bytes
      → Holds pages chunk pid bytes
  link :
      {pid next : ℕ} {whole : List ℕ} (buf : Buffer) (bytes more : List ℕ)
      → pid < 2 ^ 31
      → pages pid ≡ some buf
      → 0 < length bytes
      → length bytes ≡ chunk
      → 0 < length more
      → read_bytes buf (header_size + overflow_ptr_size) (length bytes) ≡ bytes
      → read_int32 buf header_size ≡ next
      → whole ≡ bytes ++ more
      → Holds pages chunk next more
      → Holds pages chunk pid whole

overflow_read_from_done :
    (pages : ℕ → Option Buffer) (chunk fuel pid : ℕ)
    → overflow_read_from pages chunk fuel pid 0 ≡ some []
unfolding overflow_read_from
overflow_read_from_done pages chunk zero pid = refl
overflow_read_from_done pages chunk (suc fuel) pid = ground arith

-- One round, at a page that the pool gives.
overflow_round :
    (pages : ℕ → Option Buffer) (chunk fuel pid rest c : ℕ) (buf : Buffer) (more : List ℕ)
    → pid < 2 ^ 31
    → 0 < rest
    → pages pid ≡ some buf
    → (if ltb rest chunk then rest else chunk) ≡ c
    → overflow_read_from pages chunk fuel (read_int32 buf header_size) (rest - c) ≡ some more
    → overflow_read_from pages chunk (suc fuel) pid rest
      ≡ some (read_bytes buf (header_size + overflow_ptr_size) c ++ more)
unfolding overflow_read_from
overflow_round pages chunk fuel pid rest c buf more hp pos e ec er = ground arith

-- The loop reads a value back from pages that hold it, on fuel of the value's length.
overflow_read_from-Holds :
    (pages : ℕ → Option Buffer) (chunk fuel pid : ℕ) (bytes : List ℕ)
    → length bytes ≤ fuel
    → Holds pages chunk pid bytes
    → overflow_read_from pages chunk fuel pid (length bytes) ≡ some bytes
overflow_read_from-Holds pages chunk zero pid bytes h (last buf b hp e pos le r) =
    absurd (omega arith)
overflow_read_from-Holds pages chunk zero pid bytes h
      (link buf b more hp e pos le pos' r q w hold) =
    absurd (omega (arith, ap length w, length-append b more))
overflow_read_from-Holds pages chunk (suc fuel) pid bytes h (last buf b hp e pos le r) =
    overflow_round pages chunk fuel pid (length bytes) (length bytes) buf [] hp pos e (ground arith)
      (ap (overflow_read_from pages chunk fuel (read_int32 buf header_size)) (omega arith)
        ∙ overflow_read_from_done pages chunk fuel (read_int32 buf header_size))
    ∙ ap some (append-nil _ ∙ r)
overflow_read_from-Holds pages chunk (suc fuel) pid bytes h
      (link {next = next} buf b more hp e pos le pos' r q w hold) =
    let total : length bytes ≡ length b + length more = ap length w ∙ length-append b more in
    overflow_round pages chunk fuel pid (length bytes) (length b) buf more hp (omega arith) e
      (ground arith)
      (ap₂ (overflow_read_from pages chunk fuel) q (omega arith)
        ∙ overflow_read_from-Holds pages chunk fuel next more (omega arith) hold)
    ∙ ap some (ap (λ l. l ++ more) r ∙ sym w)

-- `garry_overflow_read` gives back, whole and in order, a value that lies on the pages from `head`
-- on, whatever number of pages it takes: each holds the next page's id and a chunk of the value.
pub overflow_read-Holds :
    (pages : ℕ → Option Buffer) (page_size head : ℕ) (value : List ℕ)
    → length value < 2 ^ 31
    → Holds pages (overflow_chunk_size page_size) head value
    → overflow_read pages page_size head (length value) ≡ some value
unfolding overflow_read
overflow_read-Holds pages page_size head value h hold = ground (
  arith,
  overflow_read_from-Holds pages (overflow_chunk_size page_size) (length value) head value
      (omega arith) hold,
)
