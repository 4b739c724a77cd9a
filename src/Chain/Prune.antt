-- ===== src/Chain/Prune.antt =====
-- src/version_chain.c and gc.c: the versions that no transaction of a snapshot can see are taken out
-- of a chain page. Allocations of memory succeed; `active` is the snapshot.
pub mod Page
pub mod Pages
pub mod Readers
pub mod Freed
pub mod Loss
mod Tests
use garry.Base.{
  ℕ, zero, suc, ◌+◌, ◌-◌, ◌%◌, List, [], ◌∷◌, length, get_or, Option, none, some, Bool, true, false,
  not, ◌&&◌, ◌||◌, ltb, leb, ◌==◌, if◌then◌else◌,
}
use garry.Base.Buffer.{Buffer}
use garry.Base.Word.{slt, sle, add32}
use garry.Endian.{read_int32}
use garry.Page.{page_insert, page_get, page_init, page_record_count, header_size, off_type}
use garry.Chain.{
  node_chain, chain_page_init, entry_header_size, entry_created, entry_deleted, entry_is_overflow,
  entry_head,
}
use garry.Pool.{BufferPool, pool_try_pin, pool_release_page, pool_mark_dirty}
use garry.Pool.Space.{pool_free_page}
use garry.Pool.Change.{write_page}

-- GARRY_CHAIN_PRUNE_MIN_LEN
abbrev pub prune_min_len : ℕ
prune_min_len = 8

-- The loop over `k2`.
unfoldable pub is_listed : List ℕ → ℕ → Bool
is_listed [] txn = false
is_listed (a ∷ active) txn = a == txn || is_listed active txn

-- The loop over `k`, with the snapshot a second time for the inner loop.
unfoldable pub seen_by : List ℕ → List ℕ → ℕ → ℕ → Bool
seen_by [] active created deleted = false
seen_by (snap ∷ snaps) active created deleted =
    (sle created snap
      && (not (not (deleted == 0) && sle deleted snap) && not (is_listed active created)))
    || seen_by snaps active created deleted

-- `keep[i]` of a record, and whether it is the last.
unfoldable pub keep_record : List ℕ → Bool → List ℕ → Bool
keep_record active last rec =
    if ltb (length rec) prune_min_len || last
    then true
    else seen_by active active (entry_created rec) (entry_deleted rec)

-- `keep[i]`; a slot that cannot be read gives the length -1.
unfoldable pub keep_slot : Buffer → ℕ → List ℕ → ℕ → ℕ → Bool
keep_slot buf page_size active count i = elim (page_get buf i page_size) [
  | none ↦ true
  | some rec ↦ keep_record active (i + 1 == count) rec
]

-- `none` if the fuel runs out, as on a cycle of pages.
unfoldable pub overflow_free : ℕ → BufferPool → ℕ → Option BufferPool
overflow_free zero pool pid = if slt pid 0 then some pool else none
overflow_free (suc fuel) pool pid = if slt pid 0 then some pool else elim (pool_try_pin pool pid) [
  | none ↦ some pool
  | some (pinned, i) ↦
      overflow_free fuel (pool_free_page (pool_release_page pinned pid) pid)
        (read_int32 (pinned.slots i).page header_size)
]

-- The overflow pages of a dropped record; an entry of 18 bytes at least has a head.
unfoldable pub free_record : ℕ → BufferPool → List ℕ → Option BufferPool
free_record fuel pool rec =
    if ltb (length rec) (entry_header_size + 4) || not (entry_is_overflow rec)
    then some pool
    else overflow_free fuel pool (entry_head rec)

-- The second loop, from slot `i` on with `rest` rounds left.
unfoldable pub free_dropped : ℕ → BufferPool → Buffer → ℕ → List ℕ → ℕ → ℕ → ℕ → Option BufferPool
free_dropped fuel pool buf page_size active count i zero = some pool
free_dropped fuel pool buf page_size active count i (suc rest) =
    if keep_slot buf page_size active count i
    then free_dropped fuel pool buf page_size active count (i + 1) rest
    else elim (page_get buf i page_size) [
      | none ↦ free_dropped fuel pool buf page_size active count (i + 1) rest
      | some rec ↦ elim (free_record fuel pool rec) [
        | none ↦ none
        | some pool' ↦ free_dropped fuel pool' buf page_size active count (i + 1) rest
      ]
    ]

-- The third loop over the first `n` slots, into an empty page; `none` if an insert fails. On a
-- well-formed page every slot can be read.
unfoldable pub copy_kept : Buffer → ℕ → List ℕ → ℕ → ℕ → Buffer → Option Buffer
copy_kept buf page_size active count zero tmp = some tmp
copy_kept buf page_size active count (suc n) tmp =
    elim (copy_kept buf page_size active count n tmp) [
      | none ↦ none
      | some copied ↦
          if keep_slot buf page_size active count n
          then elim (page_get buf n page_size) [
            | none ↦ none
            | some rec ↦ elim (page_insert copied rec) [ none ↦ none | some (i, page) ↦ some page ]
          ]
          else some copied
    ]

-- The new content of the page; a failed insert leaves it as it is.
unfoldable pub pruned_page : Buffer → ℕ → List ℕ → Buffer → Buffer
pruned_page buf page_size active tmp =
    let count = page_record_count buf in
    if sle count 1
    then buf
    else elim (copy_kept buf page_size active count count (chain_page_init tmp page_size)) [
      | none ↦ buf
      | some page ↦ page
    ]

-- The pool after the overflow pages of the dropped records are freed, and the page; `tmp` is what the
-- allocated memory holds, and `none` is for fuel that runs out.
unfoldable pub chain_page_prune :
    ℕ → BufferPool → Buffer → ℕ → List ℕ → Buffer → Option (BufferPool × Buffer)
chain_page_prune fuel pool buf page_size active tmp =
    let count = page_record_count buf in
    if sle count 1
    then some (pool, buf)
    else elim (free_dropped fuel pool buf page_size active count 0 count) [
      | none ↦ none
      | some pool' ↦ some (pool', pruned_page buf page_size active tmp)
    ]

-- One round of the loop of `garry_mvcc_gc`, over the pages that are in the pool.
unfoldable pub gc_page : ℕ → BufferPool → ℕ → List ℕ → Buffer → ℕ → Option BufferPool
gc_page fuel pool page_size snapshot tmp pid = elim (pool_try_pin pool pid) [
  | none ↦ some pool
  | some (pinned, i) ↦
      let page = (pinned.slots i).page in
      if read_int32 page off_type == node_chain
      then elim (chain_page_prune fuel pinned page page_size snapshot tmp) [
        | none ↦ none
        | some (pool', pruned) ↦
            some (pool_release_page (pool_mark_dirty (write_page pool' i (λ old. pruned)) pid) pid)
      ]
      else some (pool_release_page pinned pid)
]

-- The pages from `pid` on, with `rest` rounds left.
unfoldable pub gc_from : ℕ → BufferPool → ℕ → List ℕ → Buffer → ℕ → ℕ → Option BufferPool
gc_from fuel pool page_size snapshot tmp pid zero = some pool
gc_from fuel pool page_size snapshot tmp pid (suc rest) =
    elim (gc_page fuel pool page_size snapshot tmp pid) [
      | none ↦ none
      | some pool' ↦ gc_from fuel pool' page_size snapshot tmp (pid + 1) rest
    ]

-- `total_pages` is the header's, and the snapshot the transactions that the engine lists.
unfoldable pub mvcc_gc : ℕ → BufferPool → ℕ → List ℕ → Buffer → ℕ → Option BufferPool
mvcc_gc fuel pool page_size active_txns tmp total_pages =
    gc_from fuel pool page_size active_txns tmp 1 (total_pages - 1)
