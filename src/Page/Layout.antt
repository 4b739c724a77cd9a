-- ===== src/Page/Layout.antt =====
-- When a page is well formed, and that `page_init` makes it so.
use garry.Base.{
  ℕ, ◌+◌, ◌*◌, ◌≤◌, ◌<◌, ◌≡◌, true, leb, ◌||◌, refl, ◌∙◌, ◌⊎◌, arith, zero, suc, List, [], ◌∷◌,
  ◌++◌, length,
}
use garry.Base.Buffer.{Buffer, read_bytes, Outside}
use garry.Endian.{read_int32, write_int32}
use garry.Endian.Laws.{read_int32-write_int32, write_int32-Outside, read_int32-ext}
use garry.Page.{
  header_size, slot_size, max_slots, off_count, off_free_start, off_free_end, read_slot, page_init,
}

-- `garry_read_int32` past a `garry_write_int32` elsewhere.
pub read_int32-past :
    (buf : Buffer) (o v p : ℕ)
    → (leb (o + 4) p || leb (p + 4) o) ≡ true
    → read_int32 (write_int32 buf o v) p ≡ read_int32 buf p
read_int32-past buf o v p h =
    read_int32-ext (write_int32 buf o v) buf p
      (λ i a b. write_int32-Outside buf o v i (apart i a b))
  where
    apart : (i : ℕ) → p ≤ i → i < p + 4 → Outside i o 4
    apart i a b = ground arith

unfoldable pub record_at : Buffer → ℕ → List ℕ
record_at buf i = read_bytes buf (read_slot buf i).offset (read_slot buf i).length

-- The records of the first `n` slots, in the order of the slots.
unfoldable pub contents : Buffer → ℕ → List (List ℕ)
contents buf zero = []
contents buf (suc n) = contents buf n ++ (record_at buf n ∷ [])

-- The bytes that the records take together.
unfoldable pub total : List (List ℕ) → ℕ
total [] = 0
total (r ∷ rs) = length r + total rs

pub total-snoc : (rs : List (List ℕ)) (r : List ℕ) → total (rs ++ (r ∷ [])) ≡ total rs + length r
unfolding total
total-snoc [] r = omega arith
total-snoc (x ∷ rs) r = omega (arith, total-snoc rs r)

-- The layout of a page of `size` bytes that holds `n` records: the directory ends where the free
-- space starts, every record lies between the free space and the end of the page, and together the
-- records fill that part.
pub record IsPage (buf : Buffer) (size n : ℕ) : Type 0 where
  pub size_min : header_size ≤ size
  pub size_max : size ≤ 65536
  pub few : n ≤ max_slots
  pub count : read_int32 buf off_count ≡ n
  pub free_start : read_int32 buf off_free_start ≡ header_size + n * slot_size
  pub room : header_size + n * slot_size ≤ read_int32 buf off_free_end
  pub free_end : read_int32 buf off_free_end ≤ size
  pub slots :
      (i : ℕ)
      → i < n
      → ((read_slot buf i).length ≡ 0)
        ⊎ ((read_int32 buf off_free_end ≤ (read_slot buf i).offset)
            × ((read_slot buf i).offset + (read_slot buf i).length ≤ size))
  pub packed : read_int32 buf off_free_end + total (contents buf n) ≡ size

-- The header fields that `page_init` writes, in any buffer.
page_init_fields :
    (buf : Buffer) (ptype level size : ℕ)
    → size ≤ 65536
    → (read_int32 (page_init buf ptype level size) off_count ≡ 0)
      × (read_int32 (page_init buf ptype level size) off_free_start ≡ header_size)
      × (read_int32 (page_init buf ptype level size) off_free_end ≡ size)
unfolding page_init
page_init_fields buf ptype level size h = (
  read_int32-past _ 28 0 8 refl
      ∙ read_int32-past _ 24 0 8 refl
      ∙ read_int32-past _ 20 0 8 refl
      ∙ read_int32-past _ 16 size 8 refl
      ∙ read_int32-past _ 12 32 8 refl
      ∙ read_int32-write_int32 _ 8 0 (omega arith),
  read_int32-past _ 28 0 12 refl
      ∙ read_int32-past _ 24 0 12 refl
      ∙ read_int32-past _ 20 0 12 refl
      ∙ read_int32-past _ 16 size 12 refl
      ∙ read_int32-write_int32 _ 12 32 (omega arith),
  read_int32-past _ 28 0 16 refl
      ∙ read_int32-past _ 24 0 16 refl
      ∙ read_int32-past _ 20 0 16 refl
      ∙ read_int32-write_int32 _ 16 size (omega arith),
)

-- `garry_page_init` leaves a well-formed page with no record, whatever the buffer held.
pub page_init-IsPage :
    (buf : Buffer) (ptype level size : ℕ)
    → header_size ≤ size
    → size ≤ 65536
    → IsPage (page_init buf ptype level size) size 0
unfolding total contents
page_init-IsPage buf ptype level size lo hi =
    let f = page_init_fields buf ptype level size hi in
    record {
      size_min = lo;
      size_max = hi;
      few = omega arith;
      count = f.0;
      free_start = f.1;
      room = omega arith;
      free_end = omega arith;
      slots = λ i h. absurd (omega arith);
      packed = omega (arith, f.2);
    }
