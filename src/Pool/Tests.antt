-- ===== src/Pool/Tests.antt =====
-- The theorems of src/buffer_pool.c at a pool of two slots.
use garry.Base.{ℕ, ◌≡◌, refl, none, some, true, ◌==◌, if◌then◌else◌, arith}
use garry.Base.Buffer.{Buffer}
use garry.Base.Word.{minus_one}
use garry.Pool.{
  File, BufferPool, zero_page, empty_slot, holds, slot_from, find_slot, find_eviction_candidate,
  free_slot_from, write_back, fill_slot, load_into, ensure_loaded, pin_slot, pool_pin_page,
  pool_create, pool_mark_dirty, pool_release_page, unpin, file_read_page, file_write_page,
}
use garry.Pool.Find.{IsPool, IsUnique, view}
use garry.Pool.Refine.{Pinned, pin_page-Pinned}
use garry.Pool.Space.{
  write_slot, flush_from, pool_flush_all, take_slot, allocate_free, allocate_new, pool_allocate,
  pool_free_page, evict_page,
}
use garry.Pool.Flush.{flush_all-file}
use garry.Pool.Change.{write_page, change_page, change_page-view}
use garry.Pool.Allocate.{Allocated, allocate-Allocated, allocate_duplicates}

abbrev nines : Buffer
nines j = 9

-- A file of the one page 7.
abbrev one_page : File
one_page = record { pages = λ q. if q == 7 then some nines else none; writable = λ q. true }

abbrev start : BufferPool
start = record {
  capacity = 2;
  page_size = 4096;
  slots = λ i. empty_slot;
  file = one_page;
  next_page = 8;
  free_list_head = minus_one;
  access_counter = 0;
}

start-IsPool : IsPool start
start-IsPool = record {
  unique = λ i j q hi hj at_i at_j. absurd (cc);
  clean = λ i q hi at_i d. absurd (cc);
}

create-start : pool_create one_page 2 4096 ≡ some (record start { next_page = 0 })
unfolding pool_create
create-start = refl

-- Page 7 pinned twice over a file that has it.
abbrev pinned : BufferPool
pinned = pin_slot (fill_slot start one_page 0 nines 7) 0

pin_start : pool_pin_page start 7 ≡ some (pinned, 0)
unfolding pool_pin_page ensure_loaded find_slot slot_from find_eviction_candidate free_slot_from
    load_into write_back file_read_page pin_slot
pin_start = refl

pin_page-Pinned_example : Pinned start 7 pinned 0
pin_page-Pinned_example = pin_page-Pinned start 7 pinned 0 start-IsPool pin_start

abbrev sevens : Buffer → Buffer
sevens page j = 7

abbrev changed : BufferPool
changed = pool_release_page (pool_mark_dirty (write_page pinned 0 sevens) 7) 7

change_start : change_page start 7 sevens ≡ some changed
unfolding change_page pool_pin_page ensure_loaded find_slot slot_from find_eviction_candidate
    free_slot_from load_into write_back file_read_page pin_slot
change_start = refl

change_page-view_example :
    IsPool changed
    × ((q : ℕ) → view changed q ≡ (if q == 7 then sevens (view start 7) else view start q))
change_page-view_example = change_page-view start 7 sevens changed start-IsPool change_start

-- The changed page is in the file after a flush, and not before.
flush_lem :
    (file_read_page changed.file 7 3 ≡ 9) × (file_read_page (pool_flush_all changed).0.file 7 3 ≡ 7)
unfolding file_read_page pool_flush_all flush_from write_slot file_write_page pool_release_page
    pool_mark_dirty find_slot slot_from pin_slot unpin
flush_lem = (refl, refl)

flush_all-file_example :
    IsPool (pool_flush_all start).0
    × ((q : ℕ) → view (pool_flush_all start).0 q ≡ view start q)
    × (((q : ℕ) → start.file.writable q ≡ true) → (pool_flush_all start).1 ≡ true)
    × ((pool_flush_all start).1 ≡ true
        → (q : ℕ) → file_read_page (pool_flush_all start).0.file q ≡ view start q)
flush_all-file_example = flush_all-file start start-IsPool

abbrev new_id : ℕ
new_id = 8

abbrev allocated : BufferPool
allocated = record (fill_slot start one_page 0 zero_page 8) { next_page = 9 }

allocate_start : pool_allocate start ≡ (allocated, some 8)
unfolding pool_allocate allocate_new find_eviction_candidate free_slot_from take_slot write_back
allocate_start = refl

allocate-Allocated_example : (new_id ≡ start.next_page) × Allocated start new_id allocated
unfolding find_slot slot_from file_read_page
allocate-Allocated_example =
    allocate-Allocated start allocated new_id start-IsPool (λ i lt l. refl) refl refl refl
      allocate_start

-- Page 7 freed, which leaves it in slot 0 with the end of the list in it, and allocated again.
abbrev twice_id : ℕ
twice_id = 7

abbrev freed : BufferPool
freed = pool_free_page start 7

abbrev twice : BufferPool
twice = (pool_allocate freed).0

allocate_duplicates_example :
    (twice_id ≡ freed.free_list_head)
    × (holds (twice.slots 0) twice_id ≡ true)
    × (holds (twice.slots 1) twice_id ≡ true)
    × ¬ IsUnique twice
unfolding pool_allocate allocate_free find_slot slot_from find_eviction_candidate free_slot_from
    take_slot write_back pool_free_page evict_page ensure_loaded load_into file_read_page
allocate_duplicates_example =
    allocate_duplicates freed 0 1 twice_id twice refl refl refl (omega arith) refl
