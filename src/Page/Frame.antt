-- ===== src/Page/Frame.antt =====
-- What the writes of `page_insert` change: the new slot, three header words and the record's bytes.
use garry.Base.{ℕ, ◌+◌, ◌%◌, ◌^◌, ◌≤◌, ◌<◌, ◌≡◌, refl, inl, inr, ◌∙◌, arith, List, length}
use garry.Base.Buffer.{Buffer, copy_in, Outside, copy_in-Outside}
use garry.Endian.{read_int32}
use garry.Endian.Laws.{read_int32-write_int32, write_int32-Outside, read_int32-ext}
use garry.Page.{
  off_count, off_free_start, off_free_end, SlotEntry, slot_at, read_slot, write_slot, write_record,
}
use garry.Page.Layout.{read_int32-past}

pub write_slot-Outside :
    (buf : Buffer) (i : ℕ) (e : SlotEntry) (j : ℕ)
    → Outside j (slot_at i) 4
    → write_slot buf i e j ≡ buf j
unfolding write_slot
write_slot-Outside buf i e j h = ground arith

-- The directory keeps 16 bits of an offset.
pub read_slot-write_slot :
    (buf : Buffer) (i o n : ℕ)
    → n < 65536
    → read_slot (write_slot buf i (record { offset = o; length = n })) i
      ≡ record { offset = o % 65536; length = n }
unfolding read_slot write_slot
read_slot-write_slot buf i o n hn = ground arith

pub read_slot-ext :
    (b c : Buffer) (i : ℕ)
    → ((j : ℕ) → slot_at i ≤ j → j < slot_at i + 4 → b j ≡ c j)
    → read_slot b i ≡ read_slot c i
unfolding read_slot
read_slot-ext b c i h = ground (
  arith,
  h (slot_at i) (omega arith) (omega arith),
  h (slot_at i + 1) (omega arith) (omega arith),
  h (slot_at i + 2) (omega arith) (omega arith),
  h (slot_at i + 3) (omega arith) (omega arith),
)

-- A byte that lies neither in the header words 8 to 20, nor in the new slot, nor under the record
-- keeps its value.
pub write_record-Outside :
    (buf : Buffer) (count start end : ℕ) (bytes : List ℕ) (j : ℕ)
    → Outside j 8 12
    → Outside j (slot_at count) 4
    → Outside j end (length bytes)
    → write_record buf count start end bytes j ≡ buf j
unfolding write_record
write_record-Outside buf count start end bytes j h s r =
    copy_in-Outside _ end bytes j r
    ∙ write_int32-Outside _ 16 end j (part h (omega arith) (omega arith))
    ∙ write_int32-Outside _ 12 _ j (part h (omega arith) (omega arith))
    ∙ write_int32-Outside _ 8 _ j (part h (omega arith) (omega arith))
    ∙ write_slot-Outside buf count _ j s
  where
    part : {o : ℕ} → Outside j 8 12 → 8 ≤ o → o ≤ 16 → Outside j o 4
    part (inl p) lo hi = inl (omega arith)
    part (inr p) lo hi = inr (omega arith)

-- The header words and the slot that it writes, for a record that lies above the directory.
pub write_record_fields :
    (buf : Buffer) (count start end : ℕ) (bytes : List ℕ)
    → slot_at count + 4 ≤ end
    → end + length bytes ≤ 65536
    → count < 2 ^ 31
    → start < 2 ^ 31
    → (read_int32 (write_record buf count start end bytes) off_count ≡ count + 1)
      × (read_int32 (write_record buf count start end bytes) off_free_start ≡ start + 4)
      × (read_int32 (write_record buf count start end bytes) off_free_end ≡ end)
unfolding write_record
write_record_fields buf count start end bytes lo hi hc hs = (
  below _ 8 (omega arith)
      ∙ read_int32-past _ 16 end 8 refl
      ∙ read_int32-past _ 12 _ 8 refl
      ∙ read_int32-write_int32 _ 8 _ (omega arith)
      ∙ omega arith,
  below _ 12 (omega arith)
      ∙ read_int32-past _ 16 end 12 refl
      ∙ read_int32-write_int32 _ 12 _ (omega arith)
      ∙ omega arith,
  below _ 16 (omega arith) ∙ read_int32-write_int32 _ 16 end (omega arith),
)
  where
    below : (b : Buffer) (o : ℕ) → o + 4 ≤ end → read_int32 (copy_in b end bytes) o ≡ read_int32 b o
    below b o h =
        read_int32-ext (copy_in b end bytes) b o
          (λ i p q. copy_in-Outside b end bytes i (inl (omega arith)))
