-- ===== src/Page/Insert.antt =====
-- A page is the list of its records: `page_insert` appends to it when there is room, and `page_get`
-- indexes it.
use garry.Base.{
  ℕ, zero, suc, ◌+◌, ◌%◌, ◌^◌, ◌≤◌, ◌<◌, ◌≡◌, Bool, true, false, leb, ltb, not, ◌&&◌, if◌then◌else◌,
  refl, sym, inl, inr, ◌∙◌, ◌⊎◌, arith, List, [], ◌∷◌, ◌++◌, length, ap₂, none, some, Bool-cases,
  subst,
}
use native.Mathlib.Decide.{dec_lt}
use native.Mathlib.Numerals.{add-one}
use mathlib.Core.Option.{some-injective}
use garry.Base.Buffer.{Buffer, read_bytes, copy_in-Outside, read_bytes-ext, read_bytes-copy_in}
use garry.Base.Word.{sub32}
use garry.Endian.{read_int32}
use garry.Endian.Laws.{write_int32-Outside}
use garry.Page.{
  slot_size, max_slots, off_free_end, slot_at, read_slot, write_record, no_room, page_insert,
}
use garry.Page.Layout.{IsPage, record_at, contents, total-snoc}
use garry.Page.Frame.{
  read_slot-write_slot, read_slot-ext, write_record-Outside, write_record_fields,
}

-- Whether a page with `n` records and free space up to `free_end` takes `dlen` more bytes.
unfoldable pub fits : ℕ → ℕ → ℕ → Bool
fits n free_end dlen = ltb n max_slots && leb (slot_at n + slot_size + dlen) free_end

no_room-fits :
    (n free_end dlen : ℕ)
    → n ≤ max_slots
    → slot_at n ≤ free_end
    → free_end ≤ 65536
    → dlen < 2 ^ 31
    → no_room n (slot_at n) free_end dlen ≡ not (fits n free_end dlen)
unfolding no_room fits
no_room-fits n free_end dlen hn lo hi hd = ground arith

module _ {buf : Buffer} {size n : ℕ} (page : IsPage buf size n) where
  page_insert_lem :
      (bytes : List ℕ)
      → length bytes < 2 ^ 31
      → page_insert buf bytes ≡ (
          if fits n (read_int32 buf off_free_end) (length bytes)
          then some (
            n,
            write_record buf n
                (slot_at n)
                (sub32 (read_int32 buf off_free_end) (length bytes))
                bytes,
          )
          else none)
  unfolding page_insert
  page_insert_lem bytes h =
      rw (page.count, page.free_start)
        (ground (
          arith,
          no_room-fits n (read_int32 buf off_free_end) (length bytes) page.few page.room
              (omega (arith, page.free_end, page.size_max)) h,
        ))

-- The page after a record has been written at `end`, just below the old free end.
module _ {buf : Buffer} {size n : ℕ} (page : IsPage buf size n) (bytes : List ℕ) (end : ℕ)
    (above : slot_at n + slot_size ≤ end)
    (below : end + length bytes ≡ read_int32 buf off_free_end) where
  abbrev written : Buffer
  written = write_record buf n (slot_at n) end bytes

  end_max : end + length bytes ≤ 65536
  end_max = omega (arith, page.free_end, page.size_max)

  slot_kept : (i : ℕ) → i < n → read_slot written i ≡ read_slot buf i
  slot_kept i h = read_slot-ext written buf i (λ j p q.
      write_record-Outside buf n (slot_at n) end bytes j (inr (omega arith)) (inl (omega arith))
        (inl (omega arith)))

  record_kept : (i : ℕ) → i < n → record_at written i ≡ record_at buf i
  unfolding record_at
  record_kept i h = rw (slot_kept i h) (place (page.slots i h))
    where
      place :
          ((read_slot buf i).length ≡ 0)
            ⊎ ((read_int32 buf off_free_end ≤ (read_slot buf i).offset)
                × ((read_slot buf i).offset + (read_slot buf i).length ≤ size))
          → read_bytes written (read_slot buf i).offset (read_slot buf i).length
            ≡ read_bytes buf (read_slot buf i).offset (read_slot buf i).length
      place (inl e) = read_bytes-ext written buf _ _ (λ j p q. absurd (omega arith))
      place (inr (lo, hi)) = read_bytes-ext written buf _ _ (λ j p q.
          write_record-Outside buf n (slot_at n) end bytes j (inr (omega arith)) (inr (omega arith))
            (inr (omega arith)))

  contents_kept : (k : ℕ) → k ≤ n → contents written k ≡ contents buf k
  unfolding contents
  contents_kept zero h = refl
  contents_kept (suc k) h =
      ap₂ (λ l r. l ++ (r ∷ [])) (contents_kept k (omega arith)) (record_kept k (omega arith))

  slot_new : read_slot written n ≡ record { offset = end % 65536; length = length bytes }
  unfolding write_record
  slot_new =
      read_slot-ext written _ n (λ j p q.
        copy_in-Outside _ end bytes j (inl (omega arith))
        ∙ write_int32-Outside _ 16 end j (inr (omega arith))
        ∙ write_int32-Outside _ 12 _ j (inr (omega arith))
        ∙ write_int32-Outside _ 8 _ j (inr (omega arith)))
      ∙ read_slot-write_slot buf n end (length bytes) (omega (arith, end_max, above))

  record_new : record_at written n ≡ bytes
  unfolding record_at write_record
  record_new = rw slot_new (bytes_new bytes end_max)
    where
      bytes_new :
          (xs : List ℕ)
          → end + length xs ≤ 65536
          → read_bytes (write_record buf n (slot_at n) end xs) (end % 65536) (length xs) ≡ xs
      bytes_new [] h = unfold read_bytes in refl
      bytes_new (x ∷ xs) h =
          let e : end % 65536 ≡ end = omega arith in rw e (read_bytes-copy_in _ end (x ∷ xs))

  slot_within :
      read_int32 written off_free_end ≡ end
      → (i : ℕ) → i < n + 1
      → ((read_slot written i).length ≡ 0)
        ⊎ ((read_int32 written off_free_end ≤ (read_slot written i).offset)
            × ((read_slot written i).offset + (read_slot written i).length ≤ size))
  slot_within fe i p = elim (dec_lt i n) [
    | yes q ↦ rw (slot_kept i q, fe) (old q (page.slots i q))
    | no q ↦
        let e : i ≡ n = omega arith in
        rw (e, slot_new, fe)
          (elim (dec_lt 0 (length bytes)) [
            | yes some_bytes ↦ inr (omega (arith, end_max), omega (arith, end_max, page.free_end))
            | no empty ↦ inl (omega arith)
          ])
  ]
    where
      old :
          i < n
          → ((read_slot buf i).length ≡ 0)
            ⊎ ((read_int32 buf off_free_end ≤ (read_slot buf i).offset)
                × ((read_slot buf i).offset + (read_slot buf i).length ≤ size))
          → ((read_slot buf i).length ≡ 0)
            ⊎ ((end ≤ (read_slot buf i).offset)
                × ((read_slot buf i).offset + (read_slot buf i).length ≤ size))
      old q (inl z) = inl z
      old q (inr (lo, hi)) = inr (omega arith, hi)

  written-IsPage : n < max_slots → IsPage written size (n + 1)
  unfolding contents
  written-IsPage h =
      let f =
        write_record_fields buf n (slot_at n) end bytes above end_max (omega arith) (omega arith) in
      record {
        size_min = page.size_min;
        size_max = page.size_max;
        few = omega arith;
        count = f.0;
        free_start = omega (arith, f.1);
        room = omega (arith, f.2);
        free_end = omega (arith, f.2, page.free_end);
        slots = λ i p. slot_within f.2 i p;
        packed =
            rw (add-one, contents_kept n (omega arith), record_new)
              (omega (arith, f.2, page.packed, total-snoc (contents buf n) bytes));
      }

module _ {buf : Buffer} {size n : ℕ} (page : IsPage buf size n) (bytes : List ℕ)
    (small : length bytes < 2 ^ 31) where
  -- Where the page has a slot and the bytes left for it, an insert answers with the new slot's
  -- index, the page stays well formed, and its records are the old ones, unchanged, with the new
  -- one behind them.
  pub page_insert_appends :
      fits n (read_int32 buf off_free_end) (length bytes) ≡ true
      → (buf' : Buffer) × (page_insert buf bytes ≡ some (n, buf'))
        × IsPage buf' size (n + 1)
        × (contents buf' (n + 1) ≡ contents buf n ++ (bytes ∷ []))
  unfolding fits contents
  page_insert_appends h =
      let free_end : ℕ = read_int32 buf off_free_end in
      let end : ℕ = sub32 free_end (length bytes) in
      let above : slot_at n + slot_size ≤ end = ground (arith, page.free_end, page.size_max) in
      let below : end + length bytes ≡ free_end = ground (arith, page.free_end, page.size_max) in
      (
        write_record buf n (slot_at n) end bytes,
        page_insert_lem page bytes small ∙ rw h,
        written-IsPage page bytes end above below (ground arith),
        rw add-one (
            ap₂ (λ l r. l ++ (r ∷ [])) (contents_kept page bytes end above below n (omega arith))
              (record_new page bytes end above below)),
      )

  -- Otherwise it answers -1.
  pub page_insert_refuses :
      fits n (read_int32 buf off_free_end) (length bytes) ≡ false → page_insert buf bytes ≡ none
  page_insert_refuses h = page_insert_lem page bytes small ∙ rw h

  -- The page that a successful insert leaves.
  pub page_insert_inv :
      (i : ℕ) (buf' : Buffer)
      → page_insert buf bytes ≡ some (i, buf')
      → (i ≡ n)
        × IsPage buf' size (n + 1)
        × (contents buf' (n + 1) ≡ contents buf n ++ (bytes ∷ []))
  page_insert_inv i buf' e =
      elim (Bool-cases (fits n (read_int32 buf off_free_end) (length bytes))) [
        | inl room ↦ appended (page_insert_appends room)
        | inr full ↦ cc (e, page_insert_refuses full)
      ]
    where
      appended :
          ((b : Buffer) × (page_insert buf bytes ≡ some (n, b))
            × IsPage b size (n + 1)
            × (contents b (n + 1) ≡ contents buf n ++ (bytes ∷ [])))
          → (i ≡ n)
            × IsPage buf' size (n + 1)
            × (contents buf' (n + 1) ≡ contents buf n ++ (bytes ∷ []))
      appended (b, p, page', q) =
          let same : (n, b) ≡ (i, buf') = some-injective (n, b) (i, buf') (sym p ∙ e) in
          subst
            (λ (r : ℕ × Buffer).
              (r.0 ≡ n)
              × IsPage r.1 size (n + 1)
              × (contents r.1 (n + 1) ≡ contents buf n ++ (bytes ∷ [])))
            same (refl, page', q)
