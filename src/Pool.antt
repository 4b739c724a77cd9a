-- ===== src/Pool.antt =====
-- src/buffer_pool.c and buffer_pool.h: the pages that are held in memory, over the file of the
-- database. The parallel arrays of the pool are one array of slots, a function of the index; the
-- rwlock makes each call one step. A page is its `page_size` bytes.
pub mod Find
pub mod Load
pub mod Pins
pub mod Refine
pub mod Space
pub mod Flush
pub mod Change
pub mod Free
pub mod Allocate
mod Tests
use garry.Base.{
  ℕ, zero, suc, ◌+◌, ◌-◌, Option, none, some, Bool, true, false, not, ltb, ◌==◌, if◌then◌else◌,
  ◌||◌, ◌&&◌,
}
use garry.Base.Buffer.{Buffer}
use garry.Base.Word.{add32, slt, minus_one}
use garry.Endian.{read_int32, write_int32}

-- The file: what a read of a whole page gives, `none` for a short read, and which writes succeed. A
-- write that fails leaves the page in the file alone.
pub record File : Type 0 where
  pub pages : ℕ → Option Buffer
  pub writable : ℕ → Bool

abbrev pub zero_page : Buffer
zero_page j = 0

-- `garry_file_read_page`, which clears the page on a short read.
unfoldable pub file_read_page : File → ℕ → Buffer
file_read_page file pid = elim (file.pages pid) [ none ↦ zero_page | some page ↦ page ]

-- `garry_file_write_page`; `none` is GARRY_FALSE.
unfoldable pub file_write_page : File → ℕ → Buffer → Option File
file_write_page file pid page =
    if file.writable pid
    then some (record file { pages = λ q. if q == pid then some page else file.pages q })
    else none

pub record Slot : Type 0 where
  pub page : Buffer
  pub page_id : ℕ
  pub pin_count : ℕ
  pub dirty : Bool
  pub loaded : Bool
  pub last_access : ℕ

pub record BufferPool : Type 0 where
  pub capacity : ℕ
  pub page_size : ℕ
  pub slots : ℕ → Slot
  pub file : File
  pub next_page : ℕ
  pub free_list_head : ℕ
  pub access_counter : ℕ

abbrev pub empty_slot : Slot
empty_slot = record {
  page = zero_page;
  page_id = 0;
  pin_count = 0;
  dirty = false;
  loaded = false;
  last_access = 0;
}

-- The argument tests and the loops; malloc succeeds. `none` is NULL.
unfoldable pub pool_create : File → ℕ → ℕ → Option BufferPool
pool_create file capacity page_size =
    if capacity == 0 || ltb 256 capacity
    then none
    else if ltb page_size 512 || ltb 65536 page_size
    then none
    else some (record {
      capacity = capacity;
      page_size = page_size;
      slots = λ i. empty_slot;
      file = file;
      next_page = 0;
      free_list_head = minus_one;
      access_counter = 0;
    })

abbrev pub set_slot : (ℕ → Slot) → ℕ → Slot → ℕ → Slot
set_slot slots i s j = if j == i then s else slots j

-- The test of `find_slot` on one slot.
abbrev pub holds : Slot → ℕ → Bool
holds s pid = s.loaded && s.page_id == pid

-- `for (i = 0; i < pool->capacity; i++)`, from `i` on with `rest` rounds left.
unfoldable pub slot_from : (ℕ → Slot) → ℕ → ℕ → ℕ → Option ℕ
slot_from slots pid i zero = none
slot_from slots pid i (suc rest) =
    let more = slot_from slots pid (i + 1) rest in if holds (slots i) pid then some i else more

-- `none` is GARRY_INVALID_SLOT.
unfoldable pub find_slot : BufferPool → ℕ → Option ℕ
find_slot pool pid = slot_from pool.slots pid 0 pool.capacity

-- The first loop of `find_eviction_candidate`.
unfoldable pub free_slot_from : (ℕ → Slot) → ℕ → ℕ → Option ℕ
free_slot_from slots i zero = none
free_slot_from slots i (suc rest) =
    let more = free_slot_from slots (i + 1) rest in if not (slots i).loaded then some i else more

-- Its second loop, over the unpinned slots; `best` is `none` for GARRY_INVALID_SLOT.
unfoldable pub oldest_from : (ℕ → Slot) → ℕ → ℕ → Option ℕ → ℕ → Option ℕ
oldest_from slots i zero best best_access = best
oldest_from slots i (suc rest) best best_access =
    let older = (slots i).pin_count == 0 && ltb (slots i).last_access best_access in
    oldest_from slots (i + 1) rest (if older then some i else best)
      (if older then (slots i).last_access else best_access)

unfoldable pub find_eviction_candidate : BufferPool → Option ℕ
find_eviction_candidate pool = elim (free_slot_from pool.slots 0 pool.capacity) [
  | some i ↦ some i
  | none ↦ oldest_from pool.slots 0 pool.capacity none minus_one
]

-- The write of a victim that is loaded and dirty; `none` if it fails.
unfoldable pub write_back : File → Slot → Bool → Option File
write_back file s needed = if needed then file_write_page file s.page_id s.page else some file

-- The slot of a page just brought in.
abbrev pub fresh_slot : Buffer → ℕ → ℕ → Slot
fresh_slot page pid access = record {
  page = page;
  page_id = pid;
  pin_count = 0;
  dirty = false;
  loaded = true;
  last_access = access;
}

-- Slot `v` after the victim in it has gone, in the pool over the file that was written.
abbrev pub fill_slot : BufferPool → File → ℕ → Buffer → ℕ → BufferPool
fill_slot pool file v page pid = record pool {
  file = file;
  access_counter = add32 pool.access_counter 1;
  slots = set_slot pool.slots v (fresh_slot page pid (add32 pool.access_counter 1));
}

-- Bringing page `pid` into the slot `v`.
unfoldable pub load_into : BufferPool → ℕ → ℕ → Option (BufferPool × ℕ)
load_into pool pid v =
    let s = pool.slots v in
    elim (write_back pool.file s (s.loaded && s.dirty)) [
      | none ↦ none
      | some file ↦ some (fill_slot pool file v (file_read_page file pid) pid, v)
    ]

-- The pool and the slot of the page; `none` is GARRY_INVALID_SLOT, which leaves the pool alone.
unfoldable pub ensure_loaded : BufferPool → ℕ → Option (BufferPool × ℕ)
ensure_loaded pool pid = elim (find_slot pool pid) [
  | some idx ↦ some (pool, idx)
  | none ↦ elim (find_eviction_candidate pool) [
    | none ↦ none
    | some victim ↦ load_into pool pid victim
  ]
]

-- The slot `idx` pinned once more, and marked as just used.
unfoldable pub pin_slot : BufferPool → ℕ → BufferPool
pin_slot pool idx =
    let s = pool.slots idx in
    let access = add32 pool.access_counter 1 in
    record pool {
      access_counter = access;
      slots =
          set_slot pool.slots idx
            (record s { pin_count = add32 s.pin_count 1; last_access = access });
    }

-- `none` is NULL; otherwise the slot whose page the result points to. `pid` is a pattern.
unfoldable pub pool_pin_page : BufferPool → ℕ → Option (BufferPool × ℕ)
pool_pin_page pool pid = if slt pid 0 then none else elim (ensure_loaded pool pid) [
  | none ↦ none
  | some (pool', idx) ↦ some (pin_slot pool' idx, idx)
]

unfoldable pub pool_try_pin : BufferPool → ℕ → Option (BufferPool × ℕ)
pool_try_pin pool pid =
    if slt pid 0
    then none
    else elim (find_slot pool pid) [ none ↦ none | some idx ↦ some (pin_slot pool idx, idx) ]

-- A change of the slot of page `pid`, if there is one.
abbrev pub at_page : BufferPool → ℕ → (Slot → Slot) → BufferPool
at_page pool pid change = if slt pid 0 then pool else elim (find_slot pool pid) [
  | none ↦ pool
  | some idx ↦ record pool { slots = set_slot pool.slots idx (change (pool.slots idx)) }
]

unfoldable pub unpin : Slot → Slot
unpin s = if ltb 0 s.pin_count then record s { pin_count = s.pin_count - 1 } else s

unfoldable pub pool_release_page : BufferPool → ℕ → BufferPool
pool_release_page pool pid = at_page pool pid unpin

unfoldable pub pool_pin_count : BufferPool → ℕ → ℕ
pool_pin_count pool pid =
    if slt pid 0
    then 0
    else elim (find_slot pool pid) [ none ↦ 0 | some idx ↦ (pool.slots idx).pin_count ]

unfoldable pub pool_mark_dirty : BufferPool → ℕ → BufferPool
pool_mark_dirty pool pid = at_page pool pid (λ s. record s { dirty = true })

unfoldable pub pool_is_loaded : BufferPool → ℕ → Bool
pool_is_loaded pool pid = elim (find_slot pool pid) [ none ↦ false | some idx ↦ true ]
