-- ===== src/Pool/Find.antt =====
-- What the search for a page's slot finds, the invariant of the pool, and the store that the pool
-- and its file show together.
use garry.Base.{
  ℕ, zero, suc, ◌+◌, ◌≤◌, ◌<◌, ◌≡◌, ◌⊎◌, refl, sym, ◌∙◌, ap, subst, Option, none, some, true, false,
  arith, inl, inr, Bool-cases,
}
use native.Mathlib.Decide.{ℕ_discrete}
use garry.Base.Buffer.{Buffer}
use garry.Pool.{Slot, BufferPool, holds, slot_from, find_slot, file_read_page}

slot_from-some :
    (slots : ℕ → Slot) (pid i rest k : ℕ)
    → slot_from slots pid i rest ≡ some k
    → (i ≤ k) × (k < i + rest) × (holds (slots k) pid ≡ true)
unfolding slot_from
slot_from-some slots pid i zero k h = cc
slot_from-some slots pid i (suc rest) k h = elim (Bool-cases (holds (slots i) pid)) [
  | inl e ↦
      let h' : some i ≡ some k = rw e at h in
      let same : i ≡ k = ground arith in
      (omega arith, omega arith, subst (λ n. holds (slots n) pid ≡ true) same e)
  | inr e ↦
      let h' : slot_from slots pid (i + 1) rest ≡ some k = rw e at h in
      let (lo, hi, found) = slot_from-some slots pid (i + 1) rest k h' in
      (omega arith, omega arith, found)
]

slot_from-none :
    (slots : ℕ → Slot) (pid i rest j : ℕ)
    → slot_from slots pid i rest ≡ none
    → i ≤ j
    → j < i + rest
    → holds (slots j) pid ≡ false
unfolding slot_from
slot_from-none slots pid i zero j h lo hi = absurd (omega arith)
slot_from-none slots pid i (suc rest) j h lo hi = elim (Bool-cases (holds (slots i) pid)) [
  | inl e ↦ let h' : some i ≡ none = rw e at h in cc
  | inr e ↦
      let h' : slot_from slots pid (i + 1) rest ≡ none = rw e at h in
      elim (ℕ_discrete j i) [
        | yes at ↦ subst (λ n. holds (slots n) pid ≡ false) (sym at) e
        | no ne ↦ slot_from-none slots pid (i + 1) rest j h' (omega (arith, ne)) (omega arith)
      ]
]

slot_from-ext :
    (s t : ℕ → Slot) (pid i rest : ℕ)
    → ((j : ℕ) → holds (s j) pid ≡ holds (t j) pid)
    → slot_from s pid i rest ≡ slot_from t pid i rest
unfolding slot_from
slot_from-ext s t pid i zero h = refl
slot_from-ext s t pid i (suc rest) h = rw (h i, slot_from-ext s t pid (i + 1) rest h) refl

pub find_slot-some :
    (pool : BufferPool) (pid k : ℕ)
    → find_slot pool pid ≡ some k
    → (k < pool.capacity) × (holds (pool.slots k) pid ≡ true)
unfolding find_slot
find_slot-some pool pid k h =
    let (lo, hi, found) = slot_from-some pool.slots pid 0 pool.capacity k h in (omega arith, found)

pub find_slot-none :
    (pool : BufferPool) (pid : ℕ)
    → find_slot pool pid ≡ none
    → (j : ℕ) → j < pool.capacity
    → holds (pool.slots j) pid ≡ false
unfolding find_slot
find_slot-none pool pid h j lt =
    slot_from-none pool.slots pid 0 pool.capacity j h (omega arith) (omega arith)

-- The two results of the search.
pub find_slot-cases :
    (pool : BufferPool) (pid : ℕ)
    → ((k : ℕ) × (find_slot pool pid ≡ some k)) ⊎ (find_slot pool pid ≡ none)
find_slot-cases pool pid = go (find_slot pool pid) refl
  where
    go :
        (r : Option ℕ)
        → find_slot pool pid ≡ r
        → ((k : ℕ) × (find_slot pool pid ≡ some k)) ⊎ (find_slot pool pid ≡ none)
    go none e = inr e
    go (some k) e = inl (k, e)

-- No page is in two slots.
abbrev pub IsUnique : BufferPool → Type 0
IsUnique pool =
    (i j pid : ℕ)
    → i < pool.capacity
    → j < pool.capacity
    → holds (pool.slots i) pid ≡ true
    → holds (pool.slots j) pid ≡ true
    → i ≡ j

-- No page is in two slots, and a page that is not dirty is what the file holds.
pub record IsPool (pool : BufferPool) : Type 0 where
  pub unique : IsUnique pool
  pub clean :
      (i pid : ℕ)
      → i < pool.capacity
      → holds (pool.slots i) pid ≡ true
      → (pool.slots i).dirty ≡ false
      → file_read_page pool.file pid ≡ (pool.slots i).page

-- The page that the pool shows under an id: that of its slot, and otherwise that of the file.
unfoldable pub view : BufferPool → ℕ → Buffer
view pool pid = elim (find_slot pool pid) [
  | none ↦ file_read_page pool.file pid
  | some i ↦ (pool.slots i).page
]

pub find_slot-here :
    (pool : BufferPool) (pid i : ℕ)
    → IsUnique pool
    → i < pool.capacity
    → holds (pool.slots i) pid ≡ true
    → find_slot pool pid ≡ some i
find_slot-here pool pid i u lt here = elim (find_slot-cases pool pid) [
  | inl (k, e) ↦
      let (hi, found) = find_slot-some pool pid k e in e ∙ ap some (u k i pid hi lt found here)
  | inr e ↦ let no_slot : holds (pool.slots i) pid ≡ false = find_slot-none pool pid e i lt in cc
]

pub find_slot-absent :
    (pool : BufferPool) (pid : ℕ)
    → ((j : ℕ) → j < pool.capacity → holds (pool.slots j) pid ≡ false)
    → find_slot pool pid ≡ none
find_slot-absent pool pid h = elim (find_slot-cases pool pid) [
  | inl (k, e) ↦
      let (hi, found) = find_slot-some pool pid k e in
      let no_slot : holds (pool.slots k) pid ≡ false = h k hi in cc
  | inr e ↦ e
]

pub view-here :
    (pool : BufferPool) (pid i : ℕ)
    → IsUnique pool
    → i < pool.capacity
    → holds (pool.slots i) pid ≡ true
    → view pool pid ≡ (pool.slots i).page
unfolding view
view-here pool pid i u lt here = rw (find_slot-here pool pid i u lt here, view) refl

pub view-absent :
    (pool : BufferPool) (pid : ℕ)
    → ((j : ℕ) → j < pool.capacity → holds (pool.slots j) pid ≡ false)
    → view pool pid ≡ file_read_page pool.file pid
unfolding view
view-absent pool pid h = rw (find_slot-absent pool pid h, view) refl

-- A change of the slots that moves no page leaves the search alone.
pub find_slot-ext :
    (pool : BufferPool) (s : ℕ → Slot) (access pid : ℕ)
    → ((j : ℕ) → holds (s j) pid ≡ holds (pool.slots j) pid)
    → find_slot (record pool { access_counter = access; slots = s }) pid ≡ find_slot pool pid
unfolding find_slot
find_slot-ext pool s access pid h = slot_from-ext s pool.slots pid 0 pool.capacity h
