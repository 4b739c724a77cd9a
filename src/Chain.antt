-- ===== src/Chain.antt =====
-- src/version_chain.c: the versions of one key, each a record of a slotted page, newest last.
-- `pages` is what the buffer pool gives when it pins a page (`none` for NULL), and allocations of
-- memory succeed. A 32-bit word is its pattern.
pub mod Entry
pub mod Visible
pub mod Overflow
pub mod Prune
mod Tests
use garry.Base.{
  ℕ, zero, suc, ◌+◌, ◌-◌, ◌*◌, ◌/◌, ◌%◌, ◌^◌, List, [], ◌∷◌, ◌++◌, length, get_or, Option, none,
  some, Bool, true, false, not, ◌&&◌, ◌||◌, ltb, ◌==◌, if◌then◌else◌,
}
use garry.Base.Buffer.{Buffer, read_bytes}
use garry.Base.Word.{add32, sub32, slt, sle}
use garry.Endian.{read_le32, read_int32}
use garry.Page.{page_insert, page_get, page_init, page_record_count, header_size}

-- GARRY_CHAIN_ENTRY_HEADER_SIZE, GARRY_OVERFLOW_PTR_SIZE, the size of `entry_buf`, and
-- GARRY_NODE_CHAIN
abbrev pub entry_header_size : ℕ
entry_header_size = 14

abbrev pub overflow_ptr_size : ℕ
overflow_ptr_size = 4

abbrev pub max_record_size : ℕ
max_record_size = 16384

abbrev pub node_chain : ℕ
node_chain = 4

unfoldable pub chain_page_init : Buffer → ℕ → Buffer
chain_page_init buf page_size = page_init buf node_chain 0 page_size

-- the four bytes of a word, lowest first
abbrev pub le_bytes : ℕ → List ℕ
le_bytes v = v % 256 ∷ (v / 256 % 256) ∷ (v / 65536 % 256) ∷ (v / 16777216 % 256) ∷ []

-- What stands in `entry_buf` when the entry is inserted: creator, deleter 0, length, the tombstone
-- and flag bytes, and what follows them.
unfoldable pub entry_bytes : ℕ → ℕ → ℕ → ℕ → List ℕ → List ℕ
entry_bytes txn vlen tombstone flags payload =
    le_bytes txn ++ (le_bytes 0 ++ (le_bytes vlen ++ (tombstone ∷ flags ∷ payload)))

unfoldable pub overflow_chunk_size : ℕ → ℕ
overflow_chunk_size page_size = sub32 (sub32 page_size header_size) overflow_ptr_size

unfoldable pub chain_inline_capacity : ℕ → ℕ
chain_inline_capacity page_size =
    sub32 (sub32 (sub32 page_size header_size) overflow_ptr_size) entry_header_size

abbrev pub page_of : Option (ℕ × Buffer) → Option Buffer
page_of none = none
page_of (some (i, buf)) = some buf

-- `none` is GARRY_FALSE, which leaves the page alone. The entry is built in `entry_buf` of 16384
-- bytes: past the end of that the code writes outside of it, as on pages of more than 16420 bytes,
-- and what happens then is not modelled.
unfoldable pub chain_page_append : Buffer → ℕ → ℕ → List ℕ → Option Buffer
chain_page_append buf page_size txn value =
    if slt (chain_inline_capacity page_size) (length value)
    then none
    else page_of (page_insert buf (entry_bytes txn (length value) 0 0 value))

unfoldable pub chain_page_append_tombstone : Buffer → ℕ → Option Buffer
chain_page_append_tombstone buf txn = page_of (page_insert buf (entry_bytes txn 0 1 0 []))

unfoldable pub chain_page_append_overflow : Buffer → ℕ → ℕ → ℕ → Option Buffer
chain_page_append_overflow buf txn total_len head =
    page_of (page_insert buf (entry_bytes txn total_len 0 1 (le_bytes head)))

-- `rec_data`, filled with a record; past its end the bytes are taken for 0.
abbrev pub rec_buffer : List ℕ → Buffer
rec_buffer rec i = get_or rec i 0

abbrev pub entry_created : List ℕ → ℕ
entry_created rec = read_le32 (rec_buffer rec) 0

abbrev pub entry_deleted : List ℕ → ℕ
entry_deleted rec = read_le32 (rec_buffer rec) 4

abbrev pub entry_value_len : List ℕ → ℕ
entry_value_len rec = read_le32 (rec_buffer rec) 8

abbrev pub entry_is_tombstone : List ℕ → Bool
entry_is_tombstone rec = not (get_or rec 12 0 == 0)

-- `fb & 0x1`
abbrev pub entry_is_overflow : List ℕ → Bool
entry_is_overflow rec = get_or rec 13 0 % 2 == 1

abbrev pub entry_head : List ℕ → ℕ
entry_head rec = read_le32 (rec_buffer rec) 14

-- The loop over `active`: another transaction that is still in the list created the entry.
unfoldable pub created_by_other : List ℕ → ℕ → ℕ → Bool
created_by_other [] created snap = false
created_by_other (a ∷ active) created snap =
    (a == created && not (a == snap)) || created_by_other active created snap

unfoldable pub is_visible : ℕ → ℕ → ℕ → List ℕ → Bool
is_visible created deleted snap active =
    not (slt snap created)
    && (not (not (deleted == 0) && sle deleted snap) && not (created_by_other active created snap))

-- `while (pid >= 0 && copied < total_len)`; `rest` is `total_len - copied`. Each round copies a byte
-- at least, so `rest` rounds are enough.
unfoldable pub overflow_read_from : (ℕ → Option Buffer) → ℕ → ℕ → ℕ → ℕ → Option (List ℕ)
overflow_read_from pages chunk zero pid rest = if rest == 0 then some [] else none
overflow_read_from pages chunk (suc fuel) pid rest = elim (slt pid 0 || rest == 0) [
  | true ↦ if rest == 0 then some [] else none
  | false ↦ elim (pages pid) [
    | none ↦ none
    | some buf ↦
        let this_chunk = if ltb rest chunk then rest else chunk in
        let bytes = read_bytes buf (header_size + overflow_ptr_size) this_chunk in
        elim (overflow_read_from pages chunk fuel (read_int32 buf header_size)
          (rest - this_chunk)) [ none ↦ none | some more ↦ some (bytes ++ more) ]
  ]
]

-- `none` is GARRY_FALSE.
unfoldable pub overflow_read : (ℕ → Option Buffer) → ℕ → ℕ → ℕ → Option (List ℕ)
overflow_read pages page_size head total_len =
    if slt total_len 0
    then none
    else overflow_read_from pages (overflow_chunk_size page_size) total_len head total_len

-- The value of a visible entry that is no tombstone; `none` if its overflow pages cannot be read.
unfoldable pub entry_value : (ℕ → Option Buffer) → ℕ → List ℕ → Option (List ℕ)
entry_value pages page_size rec =
    if entry_is_overflow rec
    then overflow_read pages page_size (entry_head rec) (entry_value_len rec)
    else some (read_bytes (rec_buffer rec) entry_header_size (entry_value_len rec))

-- One round of the loop of `garry_chain_page_find_visible`: `got` is what `garry_page_get` gives, and
-- `older` is the answer of the rounds that follow.
unfoldable pub visible_step :
    (ℕ → Option Buffer) → ℕ → ℕ → List ℕ → Option (List ℕ) → Option (List ℕ) → Option (List ℕ)
visible_step pages page_size snap active none older = older
visible_step pages page_size snap active (some rec) older =
    if ltb (length rec) entry_header_size
    then older
    else if not (is_visible (entry_created rec) (entry_deleted rec) snap active)
    then older
    else if entry_is_tombstone rec
    then none
    else elim (entry_value pages page_size rec) [ none ↦ older | some value ↦ some value ]

-- The loop over the slots below `i`, from the newest down.
unfoldable pub find_visible_below :
    (ℕ → Option Buffer) → Buffer → ℕ → ℕ → List ℕ → ℕ → Option (List ℕ)
find_visible_below pages buf page_size snap active zero = none
find_visible_below pages buf page_size snap active (suc i) =
    visible_step pages page_size snap active (page_get buf i page_size)
      (find_visible_below pages buf page_size snap active i)

-- `none` is NULL.
unfoldable pub chain_page_find_visible :
    (ℕ → Option Buffer) → Buffer → ℕ → ℕ → List ℕ → Option (List ℕ)
chain_page_find_visible pages buf page_size snap active =
    find_visible_below pages buf page_size snap active (page_record_count buf)

-- One round of the loop of `garry_chain_page_has_visible`.
unfoldable pub present_step : ℕ → List ℕ → Option (List ℕ) → Bool → Bool
present_step snap active none older = older
present_step snap active (some rec) older =
    if ltb (length rec) entry_header_size
    then older
    else if not (is_visible (entry_created rec) (entry_deleted rec) snap active)
    then older
    else not (entry_is_tombstone rec)

unfoldable pub has_visible_below : Buffer → ℕ → ℕ → List ℕ → ℕ → Bool
has_visible_below buf page_size snap active zero = false
has_visible_below buf page_size snap active (suc i) =
    present_step snap active (page_get buf i page_size)
      (has_visible_below buf page_size snap active i)

unfoldable pub chain_page_has_visible : Buffer → ℕ → ℕ → List ℕ → Bool
chain_page_has_visible buf page_size snap active =
    has_visible_below buf page_size snap active (page_record_count buf)

-- The loop over the first `n` slots; the order of the slots does not matter for the answer.
unfoldable pub has_version_below : Buffer → ℕ → ℕ → ℕ → Bool
has_version_below buf page_size txn zero = false
has_version_below buf page_size txn (suc i) =
    let others = has_version_below buf page_size txn i in
    elim (page_get buf i page_size) [
      | none ↦ others
      | some rec ↦ if not (ltb (length rec) 4) && entry_created rec == txn then true else others
    ]

unfoldable pub chain_page_has_version : Buffer → ℕ → ℕ → Bool
chain_page_has_version buf page_size txn =
    has_version_below buf page_size txn (page_record_count buf)
