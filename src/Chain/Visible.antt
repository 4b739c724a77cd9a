-- ===== src/Chain/Visible.antt =====
-- Snapshot reads of a version chain: what an appended version changes for a reader.
use garry.Base.{
  ℕ, zero, suc, ◌+◌, ◌^◌, ◌<◌, ◌≤◌, ◌≡◌, inl, inr, Bool, true, false, refl, ◌∙◌, arith, List, [],
  ◌∷◌, ◌++◌, length, ap, ap₂, Option, none, some, if◌then◌else◌, Bool-cases,
}
use native.Mathlib.Numerals.{add-one}
use mathlib.Core.Option.{some-injective}
use garry.Base.Buffer.{Buffer}
use garry.Base.Word.{slt}
use garry.Page.{page_get, page_insert, page_record_count}
use garry.Page.Layout.{IsPage, contents}
use garry.Page.Insert.{page_insert_inv}
use garry.Page.Get.{page_get_new, page_get_old}
use garry.Chain.{
  entry_bytes, le_bytes, is_visible, entry_value, find_visible_below, visible_step, present_step,
  chain_page_find_visible, has_visible_below, chain_page_has_visible, chain_page_append,
  chain_page_append_tombstone, page_of, chain_inline_capacity, chain_page_append_overflow,
  overflow_read, max_record_size,
}
use garry.Chain.Entry.{
  length-entry_bytes, entry_created_lem, entry_deleted_lem, entry_value_len_lem,
  entry_is_tombstone_lem, entry_flags_lem, entry_payload_lem, entry_head_lem, entry_fits_buffer,
}

module _ (pages : ℕ → Option Buffer) (size snap : ℕ) (active : List ℕ) where
  find_visible_below-ext :
      (b c : Buffer) (k : ℕ)
      → ((i : ℕ) → i < k → page_get b i size ≡ page_get c i size)
      → find_visible_below pages b size snap active k
        ≡ find_visible_below pages c size snap active k
  unfolding find_visible_below
  find_visible_below-ext b c zero h = refl
  find_visible_below-ext b c (suc k) h =
      ap₂ (visible_step pages size snap active) (h k (omega arith))
        (find_visible_below-ext b c k (λ i p. h i (omega arith)))

  -- A page with one more record answers by that record first, then by the older ones.
  find_visible_appended :
      (buf buf' : Buffer) (n : ℕ) (rec : List ℕ)
      → IsPage buf size n
      → IsPage buf' size (n + 1)
      → contents buf' (n + 1) ≡ contents buf n ++ (rec ∷ [])
      → chain_page_find_visible pages buf' size snap active
        ≡ visible_step pages size snap active
            (some rec)
            (chain_page_find_visible pages buf size snap active)
  unfolding chain_page_find_visible page_record_count
  find_visible_appended buf buf' n rec page page' e =
      rw (page'.count, page.count, add-one)
        (unfold find_visible_below in
          ap₂ (visible_step pages size snap active) (page_get_new rec page page' e)
            (find_visible_below-ext buf' buf n (page_get_old rec page page' e)))

  -- A record that holds an inline version of `txn`, for a reader at `snap`.
  visible_step_inline :
      (txn : ℕ) (value : List ℕ) (older : Option (List ℕ))
      → txn < 2 ^ 32
      → length value < 2 ^ 32
      → visible_step pages size snap active (some (entry_bytes txn (length value) 0 0 value)) older
        ≡ (if is_visible txn 0 snap active then some value else older)
  unfolding visible_step entry_value
  visible_step_inline txn value older ht hv = ground (
    arith,
    length-entry_bytes txn (length value) 0 0 value,
    entry_created_lem txn (length value) 0 0 value ht,
    entry_deleted_lem txn (length value) 0 0 value,
    entry_value_len_lem txn (length value) 0 0 value hv,
    entry_is_tombstone_lem txn (length value) 0 0 value,
    entry_flags_lem txn (length value) 0 0 value,
    entry_payload_lem txn (length value) 0 0 value,
  )

  visible_step_tombstone :
      (txn : ℕ) (older : Option (List ℕ))
      → txn < 2 ^ 32
      → visible_step pages size snap active (some (entry_bytes txn 0 1 0 [])) older
        ≡ (if is_visible txn 0 snap active then none else older)
  unfolding visible_step
  visible_step_tombstone txn older ht = ground (
    arith,
    length-entry_bytes txn 0 1 0 [],
    entry_created_lem txn 0 1 0 [] ht,
    entry_deleted_lem txn 0 1 0 [],
    entry_is_tombstone_lem txn 0 1 0 [],
  )

  -- An overflow entry answers with the bytes of its pages; where they cannot be read, the older
  -- versions answer.
  visible_step_overflow :
      (txn total head : ℕ) (older : Option (List ℕ))
      → txn < 2 ^ 32
      → total < 2 ^ 32
      → head < 2 ^ 32
      → visible_step pages size snap active (some (entry_bytes txn total 0 1 (le_bytes head))) older
        ≡ (if is_visible txn 0 snap active
            then elim (overflow_read pages size head total) [
              | none ↦ older
              | some value ↦ some value
            ]
            else older)
  unfolding visible_step entry_value
  visible_step_overflow txn total head older ht hn hh = ground (
    arith,
    length-entry_bytes txn total 0 1 (le_bytes head),
    entry_created_lem txn total 0 1 (le_bytes head) ht,
    entry_deleted_lem txn total 0 1 (le_bytes head),
    entry_value_len_lem txn total 0 1 (le_bytes head) hn,
    entry_is_tombstone_lem txn total 0 1 (le_bytes head),
    entry_flags_lem txn total 0 1 (le_bytes head),
    entry_head_lem txn total 0 1 head hh,
  )

page_of_inv :
    (r : Option (ℕ × Buffer)) (buf' : Buffer)
    → page_of r ≡ some buf'
    → (i : ℕ) × (r ≡ some (i, buf'))
page_of_inv none buf' e = cc
page_of_inv (some (i, b)) buf' e = (i, ap (λ c. some (i, c)) (some-injective b buf' e))

module _ (pages : ℕ → Option Buffer) (size snap : ℕ) (active : List ℕ) (buf buf' : Buffer) (n : ℕ)
    (page : IsPage buf size n) where
  inserted :
      (rec : List ℕ)
      → length rec < 2 ^ 31
      → page_of (page_insert buf rec) ≡ some buf'
      → IsPage buf' size (n + 1)
        × (chain_page_find_visible pages buf' size snap active
            ≡ visible_step pages size snap active
                (some rec)
                (chain_page_find_visible pages buf size snap active))
  inserted rec h e =
      let (i, p) = page_of_inv (page_insert buf rec) buf' e in
      let (same, page', grown) = page_insert_inv page rec h i buf' p in
      (page', find_visible_appended pages size snap active buf buf' n rec page page' grown)

  -- After an inline version of `txn` has been appended to a page of at most 16420 bytes, a reader
  -- finds the new value if that version is visible to it, and otherwise exactly what it found before;
  -- the page stays well formed, and the entry fits the buffer that it is built in.
  pub find_visible-append :
      (txn : ℕ) (value : List ℕ)
      → txn < 2 ^ 32
      → length value < 2 ^ 30
      → size ≤ 16420
      → chain_page_append buf size txn value ≡ some buf'
      → IsPage buf' size (n + 1)
        × (chain_page_find_visible pages buf' size snap active ≡ (
            if is_visible txn 0 snap active
            then some value
            else chain_page_find_visible pages buf size snap active))
        × (length (entry_bytes txn (length value) 0 0 value) ≤ max_record_size)
  unfolding chain_page_append
  find_visible-append txn value ht hv small e =
      elim (Bool-cases (slt (chain_inline_capacity size) (length value))) [
        | inl long ↦ cc (rw long at e)
        | inr short ↦
            let (page', found) =
              inserted (entry_bytes txn (length value) 0 0 value)
                (omega (arith, length-entry_bytes txn (length value) 0 0 value)) (rw short at e) in
            (
              page',
              found ∙ visible_step_inline pages size snap active txn value _ ht (omega arith),
              entry_fits_buffer size txn value (omega (arith, page.size_min)) small (omega arith)
                  short,
            )
      ]

  -- After a tombstone of `txn` has been appended, a reader that sees the tombstone finds nothing, and
  -- any other finds what it found before.
  pub find_visible-append_tombstone :
      (txn : ℕ)
      → txn < 2 ^ 32
      → chain_page_append_tombstone buf txn ≡ some buf'
      → IsPage buf' size (n + 1)
        × (chain_page_find_visible pages buf' size snap active ≡ (
            if is_visible txn 0 snap active
            then none
            else chain_page_find_visible pages buf size snap active))
  unfolding chain_page_append_tombstone
  find_visible-append_tombstone txn ht e =
      let (page', found) =
        inserted (entry_bytes txn 0 1 0 []) (omega (arith, length-entry_bytes txn 0 1 0 [])) e in
      (page', found ∙ visible_step_tombstone pages size snap active txn _ ht)

  -- After an overflow version of `txn` has been appended, a reader that sees it finds the bytes of
  -- its overflow pages, or what it found before if those pages cannot be read; any other reader finds
  -- what it found before.
  pub find_visible-append_overflow :
      (txn total head : ℕ)
      → txn < 2 ^ 32
      → total < 2 ^ 32
      → head < 2 ^ 32
      → chain_page_append_overflow buf txn total head ≡ some buf'
      → IsPage buf' size (n + 1)
        × (chain_page_find_visible pages buf' size snap active ≡ (
            if is_visible txn 0 snap active
            then elim (overflow_read pages size head total) [
              | none ↦ chain_page_find_visible pages buf size snap active
              | some value ↦ some value
            ]
            else chain_page_find_visible pages buf size snap active))
  unfolding chain_page_append_overflow
  find_visible-append_overflow txn total head ht hn hh e =
      let (page', found) =
        inserted (entry_bytes txn total 0 1 (le_bytes head))
          (omega (arith, length-entry_bytes txn total 0 1 (le_bytes head))) e in
      (page', found ∙ visible_step_overflow pages size snap active txn total head _ ht hn hh)

-- Whether `r` is a value.
abbrev pub is_some {ℓ} : {A : Type ℓ} → Option A → Bool
is_some none = false
is_some (some a) = true

is_some_inv {ℓ} : {A : Type ℓ} (r : Option A) → is_some r ≡ true → (a : A) × (r ≡ some a)
is_some_inv none e = cc
is_some_inv (some a) e = (a, refl)

module _ (pages : ℕ → Option Buffer) (size snap : ℕ) (active : List ℕ) (buf : Buffer) where
  -- The value of every record that can be read from the page can be read too.
  abbrev pub Readable : ℕ → Type 0
  Readable k =
      (i : ℕ) (rec : List ℕ)
      → i < k
      → page_get buf i size ≡ some rec
      → is_some (entry_value pages size rec) ≡ true

  present_visible_step :
      (got : Option (List ℕ)) (older : Option (List ℕ)) (b : Bool)
      → ((rec : List ℕ) → got ≡ some rec → is_some (entry_value pages size rec) ≡ true)
      → b ≡ is_some older
      → present_step snap active got b ≡ is_some (visible_step pages size snap active got older)
  unfolding present_step visible_step
  present_visible_step none older b h e = e
  present_visible_step (some rec) older b h e =
      let (v, q) = is_some_inv (entry_value pages size rec) (h rec refl) in ground (arith, q)

  has_visible_below-find_visible :
      (k : ℕ)
      → Readable k
      → has_visible_below buf size snap active k
        ≡ is_some (find_visible_below pages buf size snap active k)
  unfolding has_visible_below find_visible_below
  has_visible_below-find_visible zero h = refl
  has_visible_below-find_visible (suc k) h =
      present_visible_step (page_get buf k size) _ _ (λ rec e. h k rec (omega arith) e)
        (has_visible_below-find_visible k (λ i rec p e. h i rec (omega arith) e))

  -- Where the values of all versions can be read, `garry_chain_page_has_visible` says exactly whether
  -- `garry_chain_page_find_visible` finds a value, on any page.
  pub has_visible-find_visible :
      Readable (page_record_count buf)
      → chain_page_has_visible buf size snap active
        ≡ is_some (chain_page_find_visible pages buf size snap active)
  unfolding chain_page_has_visible chain_page_find_visible
  has_visible-find_visible h = has_visible_below-find_visible (page_record_count buf) h
