-- ===== src/Pool/Space.antt =====
-- The operations of src/buffer_pool.c that write to the file or that give page ids away.
use garry.Base.{ℕ, zero, suc, ◌+◌, Option, none, some, Bool, true, false, if◌then◌else◌, ◌&&◌}
use garry.Base.Word.{add32, slt, minus_one}
use garry.Endian.{read_int32, write_int32}
use garry.Pool.{
  File, BufferPool, zero_page, file_write_page, set_slot, fill_slot, find_slot,
  find_eviction_candidate, write_back, ensure_loaded,
}

-- Slot `i` written to the file, and clean then; `none` if the write fails.
unfoldable pub write_slot : BufferPool → ℕ → Option BufferPool
write_slot pool i = elim (file_write_page pool.file (pool.slots i).page_id (pool.slots i).page) [
  | none ↦ none
  | some file ↦ some (record pool {
    file = file;
    slots = set_slot pool.slots i (record (pool.slots i) { dirty = false });
  })
]

unfoldable pub pool_flush_page : BufferPool → ℕ → BufferPool × Bool
pool_flush_page pool pid = if slt pid 0 then (pool, false) else elim (find_slot pool pid) [
  | none ↦ (pool, true)
  | some idx ↦
      if (pool.slots idx).dirty
      then elim (write_slot pool idx) [ none ↦ (pool, false) | some pool' ↦ (pool', true) ]
      else (pool, true)
]

-- The loop from `i` on with `rest` rounds left, and whether it ran to its end.
unfoldable pub flush_from : BufferPool → ℕ → ℕ → BufferPool × Bool
flush_from pool i zero = (pool, true)
flush_from pool i (suc rest) =
    let next = flush_from pool (i + 1) rest in
    if (pool.slots i).loaded && (pool.slots i).dirty
    then elim (write_slot pool i) [
      | none ↦ (pool, false)
      | some pool' ↦ flush_from pool' (i + 1) rest
    ]
    else next

unfoldable pub pool_flush_all : BufferPool → BufferPool × Bool
pool_flush_all pool = flush_from pool 0 pool.capacity

-- The slot of the new page `pid`, over the page that was in it, which is written if it is dirty.
unfoldable pub take_slot : BufferPool → ℕ → ℕ → Option (BufferPool × ℕ)
take_slot pool v pid = elim (write_back pool.file (pool.slots v) (pool.slots v).dirty) [
  | none ↦ none
  | some file ↦ some (fill_slot pool file v zero_page pid, pid)
]

-- The next pointer of the first free page, if that is loaded.
unfoldable pub next_free : BufferPool → ℕ
next_free pool = elim (find_slot pool pool.free_list_head) [
  | none ↦ minus_one
  | some idx ↦ read_int32 (pool.slots idx).page 0
]

-- The branch of the free list. The head has moved when the result is -1 too.
unfoldable pub allocate_free : BufferPool → BufferPool × Option ℕ
allocate_free pool =
    let moved : BufferPool = record pool { free_list_head = next_free pool } in
    elim (find_eviction_candidate moved) [
      | none ↦ (moved, none)
      | some victim ↦ elim (take_slot moved victim pool.free_list_head) [
        | none ↦ (moved, none)
        | some (pool', pid) ↦ (pool', some pid)
      ]
    ]

unfoldable pub allocate_new : BufferPool → BufferPool × Option ℕ
allocate_new pool = elim (find_eviction_candidate pool) [
  | none ↦ (pool, none)
  | some victim ↦
      if slt pool.next_page 0 then (pool, none) else elim (take_slot pool victim pool.next_page) [
        | none ↦ (pool, none)
        | some (pool', pid) ↦ (record pool' { next_page = add32 pool.next_page 1 }, some pid)
      ]
]

-- `none` is -1.
unfoldable pub pool_allocate : BufferPool → BufferPool × Option ℕ
pool_allocate pool = if slt pool.free_list_head 0 then allocate_new pool else allocate_free pool

-- The eviction of page `pid`, whose write may fail.
unfoldable pub evict_page : BufferPool → ℕ → BufferPool
evict_page pool pid = elim (find_slot pool pid) [
  | none ↦ pool
  | some idx ↦
      let s = pool.slots idx in
      let file : File = elim (write_back pool.file s s.dirty) [
        | none ↦ pool.file
        | some written ↦ written
      ] in
      record pool {
        file = file;
        slots = set_slot pool.slots idx (record s { loaded = false; pin_count = 0; dirty = false });
      }
]

unfoldable pub pool_free_page : BufferPool → ℕ → BufferPool
pool_free_page pool pid =
    if slt pid 0
    then pool
    else let evicted = evict_page pool pid in
      elim (ensure_loaded evicted pid) [
        | none ↦ record evicted { free_list_head = pid }
        | some (loaded, idx) ↦
            let s = loaded.slots idx in
            record loaded {
              free_list_head = pid;
              slots =
                  set_slot loaded.slots idx
                    (record s { page = write_int32 s.page 0 loaded.free_list_head; dirty = true });
            }
      ]

-- One round of the loop of `garry_pool_close`: the slot is clean then, even if the write fails.
unfoldable pub close_slot : BufferPool → ℕ → BufferPool
close_slot pool i = elim (write_slot pool i) [
  | none ↦ record pool { slots = set_slot pool.slots i (record (pool.slots i) { dirty = false }) }
  | some pool' ↦ pool'
]

unfoldable pub close_from : BufferPool → ℕ → ℕ → BufferPool
close_from pool i zero = pool
close_from pool i (suc rest) =
    close_from (if (pool.slots i).loaded && (pool.slots i).dirty then close_slot pool i else pool)
      (i + 1) rest

-- The file that is left.
unfoldable pub pool_close : BufferPool → File
pool_close pool = (close_from pool 0 pool.capacity).file
