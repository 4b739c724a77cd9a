-- ===== src/Pool/Flush/Write.antt =====
-- The write of one slot to the file, in src/buffer_pool.c: the slot is clean then, and the pool shows
-- what it showed.
use garry.Base.{
  ℕ, ◌+◌, ◌<◌, ◌≡◌, ◌≢◌, refl, sym, ◌∙◌, ap, subst, Option, none, some, true, false, ◌==◌,
  if◌then◌else◌, arith, inl, inr, Bool-cases, ==_refl, ne→==,
}
use mathlib.Core.Option.{some-injective}
use native.Mathlib.Decide.{ℕ_discrete}
use garry.Base.Buffer.{Buffer}
use garry.Pool.{File, BufferPool, holds, set_slot, file_read_page, file_write_page, write_back}
use garry.Pool.Find.{
  IsPool, view, view-here, view-absent, find_slot-some, find_slot-none, find_slot-cases,
}
use garry.Pool.Load.{write_back-read}
use garry.Pool.Space.{write_slot}

abbrev pub clean_slot : BufferPool → ℕ → File → BufferPool
clean_slot pool i file = record pool {
  file = file;
  slots = set_slot pool.slots i (record (pool.slots i) { dirty = false });
}

-- The pool after slot `i` has been written.
module _ (pool : BufferPool) (i : ℕ) (file : File) (inv : IsPool pool) (lt : i < pool.capacity)
    (loaded : (pool.slots i).loaded ≡ true)
    (wrote : file_write_page pool.file (pool.slots i).page_id (pool.slots i).page ≡ some file) where
  abbrev flushed : BufferPool
  flushed = clean_slot pool i file

  page_same : (j : ℕ) → (flushed.slots j).page ≡ (pool.slots j).page
  page_same j = elim (ℕ_discrete j i) [
    | yes e ↦ rw (e, ==_refl i) refl
    | no ne ↦ rw (ne→== j i ne) refl
  ]

  holds_same : (j q : ℕ) → holds (flushed.slots j) q ≡ holds (pool.slots j) q
  holds_same j q = elim (ℕ_discrete j i) [
    | yes e ↦ rw (e, ==_refl i) refl
    | no ne ↦ rw (ne→== j i ne) refl
  ]

  read :
      (q : ℕ)
      → file_read_page file q
        ≡ (if q == (pool.slots i).page_id then (pool.slots i).page else file_read_page pool.file q)
  read q = write_back-read pool.file (pool.slots i) true file q (unfold write_back in wrote)

  dirty_old : (j : ℕ) → j ≢ i → (flushed.slots j).dirty ≡ (pool.slots j).dirty
  dirty_old j ne = rw (ne→== j i ne) refl

  pub flushed-IsPool : IsPool flushed
  flushed-IsPool = record {
    unique = λ j k q hj hk at_j at_k.
        inv.unique j k q hj hk (sym (holds_same j q) ∙ at_j) (sym (holds_same k q) ∙ at_k);
    clean = λ j q hj at_j d. clean j q hj (sym (holds_same j q) ∙ at_j) d;
  }
    where
      clean :
          (j q : ℕ)
          → j < pool.capacity
          → holds (pool.slots j) q ≡ true
          → (flushed.slots j).dirty ≡ false
          → file_read_page file q ≡ (flushed.slots j).page
      clean j q hj at_j d = elim (Bool-cases (q == (pool.slots i).page_id)) [
        | inl own ↦
            let at_i : holds (pool.slots i) q ≡ true = ground arith in
            let e : j ≡ i = inv.unique j i q hj lt at_j at_i in
            read q
            ∙ rw own (
                sym (page_same i)
                ∙ subst (λ n. (flushed.slots i).page ≡ (flushed.slots n).page) (sym e) refl)
        | inr other ↦ elim (ℕ_discrete j i) [
          | yes e ↦
              let at_i : holds (pool.slots i) q ≡ true =
                subst (λ n. holds (pool.slots n) q ≡ true) e at_j in
              let own : (q == (pool.slots i).page_id) ≡ true = ground arith in absurd (cc)
          | no ne ↦
              read q
              ∙ rw other (inv.clean j q hj at_j (sym (dirty_old j ne) ∙ d) ∙ sym (page_same j))
        ]
      ]

  pub flushed-view : (q : ℕ) → view flushed q ≡ view pool q
  flushed-view q = elim (find_slot-cases pool q) [
    | inl (k, e) ↦
        let (hk, found) = find_slot-some pool q k e in
        view-here flushed q k flushed-IsPool.unique hk (holds_same k q ∙ found)
        ∙ page_same k
        ∙ sym (view-here pool q k inv.unique hk found)
    | inr e ↦
        let no_slot : holds (pool.slots i) q ≡ false = find_slot-none pool q e i lt in
        let other : (q == (pool.slots i).page_id) ≡ false = ground arith in
        view-absent flushed q (λ j hj. holds_same j q ∙ find_slot-none pool q e j hj)
        ∙ read q
        ∙ rw other (sym (view-absent pool q (find_slot-none pool q e)))
  ]

pub write_slot-some :
    (pool : BufferPool) (i : ℕ) (p : BufferPool)
    → write_slot pool i ≡ some p
    → (file : File) × (file_write_page pool.file (pool.slots i).page_id (pool.slots i).page
        ≡ some file)
      × (clean_slot pool i file ≡ p)
unfolding write_slot
write_slot-some pool i p h =
    go (file_write_page pool.file (pool.slots i).page_id (pool.slots i).page) refl
  where
    go :
        (w : Option File)
        → file_write_page pool.file (pool.slots i).page_id (pool.slots i).page ≡ w
        → (file : File) × (file_write_page pool.file (pool.slots i).page_id (pool.slots i).page
            ≡ some file)
          × (clean_slot pool i file ≡ p)
    go none e = let h' : none ≡ some p = rw (e, write_slot) at h in absurd (cc)
    go (some file) e =
        let h' : some (clean_slot pool i file) ≡ some p = rw (e, write_slot) at h in
        (file, e, some-injective _ _ h')

pub file_write_page-writable :
    (file : File) (pid : ℕ) (page : Buffer) (file' : File)
    → file_write_page file pid page ≡ some file'
    → (q : ℕ) → file'.writable q ≡ file.writable q
unfolding file_write_page
file_write_page-writable file pid page file' h q = elim (Bool-cases (file.writable pid)) [
  | inl e ↦
      let h' : some (record file { pages = λ n. if n == pid then some page else file.pages n })
          ≡ some file' =
        rw e at h in
      ap (λ (f : File). f.writable q) (sym (some-injective _ _ h'))
  | inr e ↦ let h' : none ≡ some file' = rw e at h in absurd (cc)
]

pub write_slot-none :
    (pool : BufferPool) (i : ℕ)
    → write_slot pool i ≡ none
    → pool.file.writable (pool.slots i).page_id ≡ false
unfolding write_slot file_write_page
write_slot-none pool i h = elim (Bool-cases (pool.file.writable (pool.slots i).page_id)) [
  | inl e ↦
      let written : File = record pool.file {
        pages = λ q.
            if q == (pool.slots i).page_id then some (pool.slots i).page else pool.file.pages q;
      } in
      let h' : some (clean_slot pool i written) ≡ none = rw (e, write_slot, file_write_page) at h in
      absurd (cc)
  | inr e ↦ e
]

pub clean_slot-clean :
    (pool : BufferPool) (i : ℕ) (file : File)
    → ((j : ℕ) → j < i → (pool.slots j).loaded ≡ true → (pool.slots j).dirty ≡ false)
    → (j : ℕ) → j < i + 1
    → ((clean_slot pool i file).slots j).loaded ≡ true
    → ((clean_slot pool i file).slots j).dirty ≡ false
clean_slot-clean pool i file below j lt = elim (ℕ_discrete j i) [
  | yes e ↦ rw (e, ==_refl i) (λ l. refl)
  | no ne ↦ rw (ne→== j i ne) (below j (omega (arith, ne)))
]
