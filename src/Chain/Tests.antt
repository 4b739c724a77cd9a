-- ===== src/Chain/Tests.antt =====
-- Runs of the version chain, and its theorems at concrete inputs.
use garry.Base.{
  ℕ, zero, suc, ◌+◌, ◌≡◌, refl, sym, ◌∙◌, subst, true, List, [], ◌∷◌, Option, none, some, length,
  if◌then◌else◌, arith, ◌≤◌,
}
use mathlib.Core.Option.{some-injective}
use garry.Base.Buffer.{Buffer, copy_in, read_bytes}
use garry.Base.Word.{minus_one}
use garry.Endian.{read_int32, write_int32, read_le32}
use garry.Page.{
  page_init, page_insert, no_room, write_record, write_slot, page_get, page_record_count, read_slot,
}
use garry.Page.Layout.{IsPage, page_init-IsPage}
use garry.Chain.{
  chain_page_append, chain_page_append_tombstone, chain_page_append_overflow,
  chain_page_find_visible, find_visible_below, visible_step, is_visible, created_by_other,
  chain_inline_capacity, entry_bytes, max_record_size, overflow_read, overflow_chunk_size,
  chain_page_has_visible, entry_value,
}
use garry.Chain.Entry.{entry_fits_buffer}
use garry.Chain.Visible.{
  find_visible-append, find_visible-append_overflow, is_some, has_visible-find_visible, Readable,
}
use garry.Chain.Overflow.{overflow_read-Holds, last}

abbrev blank : Buffer
blank j = 0

abbrev no_pages : ℕ → Option Buffer
no_pages pid = none

-- an empty chain page of 512 bytes
abbrev empty_chain : Buffer
empty_chain = page_init blank 4 0 512

abbrev or_blank : Option Buffer → Buffer
or_blank none = blank
or_blank (some b) = b

-- transaction 1 has set the key to two bytes
abbrev one_version : Buffer
one_version = or_blank (chain_page_append empty_chain 512 1 (104 ∷ 105 ∷ []))

empty_chain-IsPage : IsPage empty_chain 512 0
empty_chain-IsPage = page_init-IsPage blank 4 0 512 (omega arith) (omega arith)

one_version_lem : chain_page_append empty_chain 512 1 (104 ∷ 105 ∷ []) ≡ some one_version
unfolding chain_page_append chain_inline_capacity entry_bytes page_insert page_init no_room
    write_record write_slot copy_in read_int32 write_int32
one_version_lem = refl

-- Transaction 2 reads the version of transaction 1 once that has committed.
find_visible-append_example :
    IsPage one_version 512 (0 + 1)
    × (chain_page_find_visible no_pages one_version 512 2 (2 ∷ []) ≡ (
        if is_visible 1 0 2 (2 ∷ [])
        then some (104 ∷ 105 ∷ [])
        else chain_page_find_visible no_pages empty_chain 512 2 (2 ∷ [])))
    × (length (entry_bytes 1 2 0 0 (104 ∷ 105 ∷ [])) ≤ max_record_size)
find_visible-append_example =
    find_visible-append no_pages 512 2 (2 ∷ []) empty_chain one_version 0 empty_chain-IsPage 1
      (104 ∷ 105 ∷ []) (omega arith) (omega arith) (omega arith) one_version_lem

read_back : chain_page_find_visible no_pages one_version 512 2 (2 ∷ []) ≡ some (104 ∷ 105 ∷ [])
unfolding is_visible created_by_other
read_back = find_visible-append_example.1

-- While transaction 1 is active, only it reads its version.
hidden : chain_page_find_visible no_pages one_version 512 2 (1 ∷ 2 ∷ []) ≡ none
unfolding chain_page_append chain_inline_capacity entry_bytes page_insert page_init no_room
    write_record write_slot copy_in read_int32 write_int32 chain_page_find_visible
    find_visible_below visible_step is_visible created_by_other page_get page_record_count read_slot
    read_bytes read_le32
hidden = refl

abbrev deleted_version : Buffer
deleted_version = or_blank (chain_page_append_tombstone empty_chain 1)

deleted_version_lem : chain_page_append_tombstone empty_chain 1 ≡ some deleted_version
unfolding chain_page_append_tombstone entry_bytes page_insert page_init no_room write_record
    write_slot copy_in read_int32 write_int32
deleted_version_lem = refl

abbrev large_version : Buffer
large_version = or_blank (chain_page_append_overflow empty_chain 1 3 7)

large_version_lem : chain_page_append_overflow empty_chain 1 3 7 ≡ some large_version
unfolding chain_page_append_overflow entry_bytes page_insert page_init no_room write_record
    write_slot copy_in read_int32 write_int32
large_version_lem = refl

find_visible-append_overflow_example :
    IsPage large_version 512 (0 + 1)
    × (chain_page_find_visible no_pages large_version 512 2 (2 ∷ []) ≡ (
        if is_visible 1 0 2 (2 ∷ [])
        then elim (overflow_read no_pages 512 7 3) [
          | none ↦ chain_page_find_visible no_pages empty_chain 512 2 (2 ∷ [])
          | some value ↦ some value
        ]
        else chain_page_find_visible no_pages empty_chain 512 2 (2 ∷ [])))
find_visible-append_overflow_example =
    find_visible-append_overflow no_pages 512 2 (2 ∷ []) empty_chain large_version 0
      empty_chain-IsPage 1 3 7 (omega arith) (omega arith) (omega arith) large_version_lem

entry_fits_buffer_example : length (entry_bytes 1 2 0 0 (104 ∷ 105 ∷ [])) ≤ max_record_size
unfolding chain_inline_capacity
entry_fits_buffer_example =
    entry_fits_buffer 512 1 (104 ∷ 105 ∷ []) (omega arith) (omega arith) (omega arith) refl

-- one page of the chain, which holds three bytes after the id of no next page
abbrev tail_page : Buffer
tail_page = copy_in (write_int32 blank 32 minus_one) 36 (1 ∷ 2 ∷ 3 ∷ [])

abbrev tail_at_seven : ℕ → Option Buffer
tail_at_seven pid = some tail_page

overflow_read-Holds_example : overflow_read tail_at_seven 512 7 3 ≡ some (1 ∷ 2 ∷ 3 ∷ [])
unfolding overflow_chunk_size copy_in read_bytes write_int32
overflow_read-Holds_example =
    overflow_read-Holds tail_at_seven 512 7 (1 ∷ 2 ∷ 3 ∷ []) (omega arith)
      (last tail_page (1 ∷ 2 ∷ 3 ∷ []) (omega arith) refl (omega arith) (omega arith) refl)

-- the record of `one_version`
abbrev one_record : List ℕ
one_record = entry_bytes 1 2 0 0 (104 ∷ 105 ∷ [])

one_record_lem : page_get one_version 0 512 ≡ some one_record
unfolding chain_page_append chain_inline_capacity entry_bytes page_insert page_init no_room
    write_record write_slot copy_in read_int32 write_int32 page_get read_slot read_bytes read_le32
    page_record_count
one_record_lem = refl

one_record_read : is_some (entry_value no_pages 512 one_record) ≡ true
unfolding entry_bytes entry_value read_le32
one_record_read = refl

one_version-count : page_record_count one_version ≡ 1
unfolding chain_page_append chain_inline_capacity entry_bytes page_insert page_init no_room
    write_record write_slot copy_in read_int32 write_int32 page_record_count
one_version-count = refl

one_version-Readable : Readable no_pages 512 2 (2 ∷ []) one_version (page_record_count one_version)
one_version-Readable zero rec lt got =
    subst (λ r. is_some (entry_value no_pages 512 r) ≡ true)
      (some-injective one_record rec (sym one_record_lem ∙ got)) one_record_read
one_version-Readable (suc i) rec lt got = absurd (omega (arith, one_version-count))

-- Both say that transaction 2 finds a value.
has_visible-find_visible_example :
    chain_page_has_visible one_version 512 2 (2 ∷ [])
    ≡ is_some (chain_page_find_visible no_pages one_version 512 2 (2 ∷ []))
has_visible-find_visible_example =
    has_visible-find_visible no_pages 512 2 (2 ∷ []) one_version one_version-Readable
