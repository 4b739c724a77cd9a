-- ===== src/Chain/Prune/Tests.antt =====
-- The prune at a chain page of two versions.
use garry.Base.{
  ℕ, zero, suc, ◌+◌, ◌≡◌, ◌≢◌, ◌<◌, refl, [], ◌∷◌, Option, none, some, arith, inl, ◌==◌,
  if◌then◌else◌, true,
}
use garry.Base.Buffer.{Buffer, copy_in, read_bytes}
use garry.Endian.{read_int32, write_int32, read_le32}
use garry.Page.{
  page_init, page_insert, no_room, write_record, write_slot, read_slot, page_get, page_record_count,
}
use garry.Page.Layout.{IsPage, page_init-IsPage, record_at, contents}
use garry.Chain.{
  chain_page_append, chain_page_append_overflow, chain_page_find_visible, entry_value,
  chain_inline_capacity, entry_bytes, entry_created, visible_step, is_visible, created_by_other,
}
use garry.Chain.Visible.{find_visible-append, find_visible-append_overflow}
use garry.Chain.Prune.{
  is_listed, seen_by, keep_record, keep_slot, pruned_page, chain_page_prune, free_record,
  free_dropped, overflow_free,
}
use garry.Pool.{
  BufferPool, empty_slot, pool_try_pin, pool_release_page, find_slot, slot_from, pin_slot,
  ensure_loaded, unpin, find_eviction_candidate, free_slot_from, load_into, write_back,
  file_read_page,
}
use garry.Pool.Space.{pool_free_page, evict_page}
use garry.Base.Word.{minus_one}
use garry.Chain.Prune.Page.{kept}
use garry.Chain.Prune.Readers.{newest}
use garry.Chain.Prune.Freed.{prune_keeps_readers, dropped, KeptReadSame}
use garry.Chain.Prune.Pages.{free_records, records_pages, OnlyListed}
use garry.Pool.Find.{IsPool}
use garry.Chain.Prune.Loss.{prune_drops_newest}

abbrev blank : Buffer
blank j = 0

abbrev no_pages : ℕ → Option Buffer
no_pages pid = none

abbrev empty_chain : Buffer
empty_chain = page_init blank 4 0 512

abbrev or_blank : Option Buffer → Buffer
or_blank none = blank
or_blank (some b) = b

-- Transaction 7 has set the key and committed, then transaction 5, which is older, has set it.
abbrev first_version : Buffer
first_version = or_blank (chain_page_append empty_chain 512 7 (104 ∷ []))

abbrev two_versions : Buffer
two_versions = or_blank (chain_page_append first_version 512 5 (105 ∷ []))

first_version_lem : chain_page_append empty_chain 512 7 (104 ∷ []) ≡ some first_version
unfolding chain_page_append chain_inline_capacity entry_bytes page_insert page_init no_room
    write_record write_slot copy_in read_int32 write_int32
first_version_lem = refl

two_versions_lem : chain_page_append first_version 512 5 (105 ∷ []) ≡ some two_versions
unfolding chain_page_append chain_inline_capacity entry_bytes page_insert page_init no_room
    write_record write_slot copy_in read_int32 write_int32
two_versions_lem = refl

first_version-IsPage : IsPage first_version 512 1
first_version-IsPage =
    (find_visible-append no_pages 512 5 (5 ∷ []) empty_chain first_version 0
      (page_init-IsPage blank 4 0 512 (omega arith) (omega arith)) 7 (104 ∷ []) (omega arith)
      (omega arith) (omega arith) first_version_lem).0

two_versions-IsPage : IsPage two_versions 512 2
two_versions-IsPage =
    (find_visible-append no_pages 512 5 (5 ∷ []) first_version two_versions 1 first_version-IsPage 5
      (105 ∷ []) (omega arith) (omega arith) (omega arith) two_versions_lem).0

not_own : (i : ℕ) → i < 2 → i + 1 < 2 → entry_created (record_at two_versions i) ≢ 5
unfolding read_le32 record_at read_bytes read_slot chain_page_append chain_inline_capacity
    entry_bytes page_insert page_init no_room write_record write_slot copy_in read_int32 write_int32
not_own zero lt more e = omega (arith, e)
not_own (suc i) lt more e = omega arith

-- Transaction 7 has set the key to a value on page 7 and committed, then transaction 5 has set it.
abbrev large_version : Buffer
large_version = or_blank (chain_page_append_overflow empty_chain 7 3 7)

abbrev large_then_small : Buffer
large_then_small = or_blank (chain_page_append large_version 512 5 (105 ∷ []))

large_version_lem : chain_page_append_overflow empty_chain 7 3 7 ≡ some large_version
unfolding chain_page_append_overflow entry_bytes page_insert page_init no_room write_record
    write_slot copy_in read_int32 write_int32
large_version_lem = refl

large_then_small_lem : chain_page_append large_version 512 5 (105 ∷ []) ≡ some large_then_small
unfolding chain_page_append_overflow chain_page_append chain_inline_capacity entry_bytes page_insert
    page_init no_room write_record write_slot copy_in read_int32 write_int32
large_then_small_lem = refl

large_version-IsPage : IsPage large_version 512 1
large_version-IsPage =
    (find_visible-append_overflow no_pages 512 5 (5 ∷ []) empty_chain large_version 0
      (page_init-IsPage blank 4 0 512 (omega arith) (omega arith)) 7 3 7 (omega arith) (omega arith)
      (omega arith) large_version_lem).0

large_then_small-IsPage : IsPage large_then_small 512 2
large_then_small-IsPage =
    (find_visible-append no_pages 512 5 (5 ∷ []) large_version large_then_small 1
      large_version-IsPage 5 (105 ∷ []) (omega arith) (omega arith) (omega arith)
      large_then_small_lem).0

not_own_large : (i : ℕ) → i < 2 → i + 1 < 2 → entry_created (record_at large_then_small i) ≢ 5
unfolding read_le32 record_at read_bytes read_slot chain_page_append chain_page_append_overflow
    chain_inline_capacity entry_bytes page_insert page_init no_room write_record write_slot copy_in
    read_int32 write_int32
not_own_large zero lt more e = omega (arith, e)
not_own_large (suc i) lt more e = omega arith

-- page 7, the last of its chain, loaded
abbrev overflow_page : Buffer
overflow_page = write_int32 blank 32 minus_one

abbrev start : BufferPool
start = record {
  capacity = 1;
  page_size = 512;
  slots = λ i. record empty_slot { page = overflow_page; page_id = 7; loaded = true };
  file = record { pages = λ q. if q == 7 then some overflow_page else none; writable = λ q. true };
  next_page = 8;
  free_list_head = minus_one;
  access_counter = 0;
}

abbrev or_start : Option BufferPool → BufferPool
or_start none = start
or_start (some p) = p

start-IsPool : IsPool start
unfolding file_read_page
start-IsPool = record {
  unique = λ i j q hi hj at_i at_j. omega arith;
  clean = λ i q hi at_i d. ground arith;
}

abbrev pool_after : BufferPool
pool_after = or_start (free_record 2 start (record_at large_then_small 0))

prune_lem :
    chain_page_prune 2 start large_then_small 512 (5 ∷ []) blank
    ≡ some (pool_after, pruned_page large_then_small 512 (5 ∷ []) blank)
unfolding chain_page_prune free_dropped keep_slot is_listed read_le32 record_at read_bytes read_slot
    chain_page_append chain_page_append_overflow chain_inline_capacity entry_bytes page_insert
    page_init no_room write_record write_slot copy_in read_int32 write_int32 page_get
    page_record_count keep_record seen_by free_record overflow_free pool_try_pin find_slot slot_from
    pin_slot pool_free_page ensure_loaded evict_page pool_release_page unpin find_eviction_candidate
    free_slot_from load_into write_back
prune_lem = refl

-- Page 7 is at the head of the free list then.
page_7_free : pool_after.free_list_head ≡ 7
unfolding free_record overflow_free read_le32 record_at read_bytes read_slot chain_page_append
    chain_page_append_overflow chain_inline_capacity entry_bytes page_insert page_init no_room
    write_record write_slot copy_in read_int32 write_int32 pool_try_pin find_slot slot_from pin_slot
    pool_free_page ensure_loaded evict_page pool_release_page unpin find_eviction_candidate
    free_slot_from load_into write_back
page_7_free = refl

abbrev page_7 : ℕ → Option Buffer
page_7 pid = if pid == 7 then some overflow_page else none

large_then_small-KeptReadSame : KeptReadSame page_7 no_pages 512 5 (5 ∷ []) large_then_small 2
unfolding read_le32 record_at read_bytes read_slot chain_page_append chain_page_append_overflow
    chain_inline_capacity entry_bytes page_insert page_init no_room write_record write_slot copy_in
    read_int32 write_int32 entry_value keep_record seen_by is_listed
large_then_small-KeptReadSame zero lt keep = absurd (cc)
large_then_small-KeptReadSame (suc zero) lt keep = refl
large_then_small-KeptReadSame (suc (suc i)) lt keep = absurd (omega arith)

-- Transaction 5 reads what it read before, and page 7 is freed.
prune_keeps_readers_example :
    (free_records 2 start (dropped large_then_small (5 ∷ []) 2 0 2) ≡ some pool_after)
    × OnlyListed start (records_pages 2 start (dropped large_then_small (5 ∷ []) 2 0 2)) pool_after
    × (chain_page_find_visible no_pages
          (pruned_page large_then_small 512 (5 ∷ []) blank)
          512
          5
          (5 ∷ [])
        ≡ chain_page_find_visible page_7 large_then_small 512 5 (5 ∷ []))
unfolding is_listed
prune_keeps_readers_example =
    prune_keeps_readers page_7 no_pages 512 5 (5 ∷ []) 2 start pool_after large_then_small
      (pruned_page large_then_small 512 (5 ∷ []) blank) blank 2 start-IsPool large_then_small-IsPage
      prune_lem large_then_small-KeptReadSame (inl (refl, not_own_large))

-- Transaction 8 loses the version of transaction 7.
prune_drops_newest_example :
    (chain_page_find_visible no_pages two_versions 512 8 (5 ∷ [])
      ≡ visible_step no_pages 512 8
          (5 ∷ [])
          (some (record_at two_versions 0))
          (newest no_pages 512 8 (5 ∷ []) none (contents two_versions 0)))
    × (chain_page_find_visible no_pages (pruned_page two_versions 512 (5 ∷ []) blank) 512 8 (5 ∷ [])
        ≡ newest no_pages 512 8 (5 ∷ []) none (kept two_versions (5 ∷ []) 2 0))
unfolding is_visible created_by_other is_listed read_le32 record_at read_bytes read_slot
    chain_page_append chain_inline_capacity entry_bytes page_insert page_init no_room write_record
    write_slot copy_in read_int32 write_int32
prune_drops_newest_example =
    prune_drops_newest no_pages 512 8 (5 ∷ []) two_versions blank 0 two_versions-IsPage refl
      (omega arith) (λ s at. ground arith)
