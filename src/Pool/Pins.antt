-- ===== src/Pool/Pins.antt =====
-- Pinning a page: the slot that is taken, and what stays.
use garry.Base.{
  ℕ, zero, suc, ◌+◌, ◌≤◌, ◌<◌, ◌≡◌, ◌≢◌, ◌⊎◌, refl, sym, ◌∙◌, ap, subst, Option, none, some, true,
  false, ltb, ◌&&◌, ◌==◌, arith, inl, inr, Bool-cases,
}
use mathlib.Core.Option.{some-injective}
use native.Mathlib.Decide.{ℕ_discrete}
use garry.Base.Buffer.{Buffer}
use garry.Base.Word.{minus_one}
use garry.Pool.{
  File, Slot, BufferPool, holds, find_slot, file_read_page, write_back, fill_slot, load_into,
  ensure_loaded, find_eviction_candidate, free_slot_from, oldest_from,
}
use garry.Pool.Find.{IsPool, view, view-absent, find_slot-some, find_slot-none, find_slot-cases}
use garry.Pool.Load.{
  write_back-read, fill_slot-IsPool, fill_slot-view, fill_slot-view_self, slot_old, here,
}

-- A slot that may be given away.
abbrev pub IsFree : Slot → Type 0
IsFree s = (s.loaded ≡ false) ⊎ (s.pin_count ≡ 0)

free_slot_from-some :
    (slots : ℕ → Slot) (i rest k : ℕ)
    → free_slot_from slots i rest ≡ some k
    → (i ≤ k) × (k < i + rest) × ((slots k).loaded ≡ false)
unfolding free_slot_from
free_slot_from-some slots i zero k h = cc
free_slot_from-some slots i (suc rest) k h = elim (Bool-cases (slots i).loaded) [
  | inl e ↦
      let h' : free_slot_from slots (i + 1) rest ≡ some k = rw e at h in
      let (lo, hi, found) = free_slot_from-some slots (i + 1) rest k h' in
      (omega arith, omega arith, found)
  | inr e ↦
      let h' : some i ≡ some k = rw e at h in
      let same : i ≡ k = some-injective i k h' in
      (omega arith, omega arith, subst (λ n. (slots n).loaded ≡ false) same e)
]

oldest_from-some :
    (slots : ℕ → Slot) (i rest : ℕ) (best : Option ℕ) (access k : ℕ)
    → oldest_from slots i rest best access ≡ some k
    → (best ≡ some k) ⊎ ((i ≤ k) × (k < i + rest) × ((slots k).pin_count ≡ 0))
unfolding oldest_from
oldest_from-some slots i zero best access k h = inl h
oldest_from-some slots i (suc rest) best access k h =
    elim (oldest_from-some slots (i + 1) rest _ _ k h) [
      | inr (lo, hi, pins) ↦ inr (omega arith, omega arith, pins)
      | inl e ↦ elim (Bool-cases ((slots i).pin_count == 0 && ltb (slots i).last_access access)) [
        | inl t ↦
            let e' : some i ≡ some k = rw t at e in
            let same : i ≡ k = some-injective i k e' in
            let pins : (slots i).pin_count ≡ 0 = ground arith in
            inr (omega arith, omega arith, subst (λ n. (slots n).pin_count ≡ 0) same pins)
        | inr t ↦ inl (rw t at e)
      ]
    ]

-- The slot that is given away is one of the pool's, and is unloaded or unpinned.
pub find_eviction_candidate-IsFree :
    (pool : BufferPool) (v : ℕ)
    → find_eviction_candidate pool ≡ some v
    → (v < pool.capacity) × IsFree (pool.slots v)
unfolding find_eviction_candidate
find_eviction_candidate-IsFree pool v h = go (free_slot_from pool.slots 0 pool.capacity) refl
  where
    go :
        (r : Option ℕ)
        → free_slot_from pool.slots 0 pool.capacity ≡ r
        → (v < pool.capacity) × IsFree (pool.slots v)
    go (some k) e =
        let h' : some k ≡ some v = rw (e, find_eviction_candidate) at h in
        let (lo, hi, free) = free_slot_from-some pool.slots 0 pool.capacity v (e ∙ h') in
        (omega arith, inl free)
    go none e =
        let h' : oldest_from pool.slots 0 pool.capacity none minus_one ≡ some v =
          rw (e, find_eviction_candidate) at h in
        elim (oldest_from-some pool.slots 0 pool.capacity none minus_one v h') [
          | inl no_best ↦ absurd (cc)
          | inr (lo, hi, pins) ↦ (omega arith, inr pins)
        ]

-- The write of a victim leaves the page that is to be loaded as it is in the file.
pub write_back-other :
    (pool : BufferPool) (pid v : ℕ) (file : File)
    → find_slot pool pid ≡ none
    → v < pool.capacity
    → write_back pool.file (pool.slots v) ((pool.slots v).loaded && (pool.slots v).dirty)
      ≡ some file
    → file_read_page file pid ≡ file_read_page pool.file pid
write_back-other pool pid v file gone lt wrote =
    write_back-read pool.file (pool.slots v) ((pool.slots v).loaded && (pool.slots v).dirty) file
      pid wrote
    ∙ (let not_here : holds (pool.slots v) pid ≡ false = find_slot-none pool pid gone v lt in
        let off : (((pool.slots v).loaded && (pool.slots v).dirty) && pid == (pool.slots v).page_id)
            ≡ false =
          ground arith in
        rw off refl)

-- What a call that brings in page `pid`, in slot `v`, keeps: the invariant, the store, and every slot
-- that is pinned.
pub record Keeps (pool pool' : BufferPool) : Type 0 where
  pub inv : IsPool pool'
  pub capacity : pool'.capacity ≡ pool.capacity
  pub page_size : pool'.page_size ≡ pool.page_size
  pub same_view : (q : ℕ) → view pool' q ≡ view pool q
  pub pinned :
      (j : ℕ)
      → j < pool.capacity
      → (pool.slots j).loaded ≡ true
      → (pool.slots j).pin_count ≢ 0
      → ((pool'.slots j).page ≡ (pool.slots j).page)
        × ((pool'.slots j).page_id ≡ (pool.slots j).page_id)
        × ((pool'.slots j).loaded ≡ true)

-- Page `pid` is in the slot of the result, and all else is kept.
abbrev pub Brought : BufferPool → ℕ → BufferPool × ℕ → Type 0
Brought pool pid (p, k) = Keeps pool p × (k < pool.capacity) × (holds (p.slots k) pid ≡ true)

IsFree-not_pinned :
    (pool : BufferPool) (v j : ℕ)
    → IsFree (pool.slots v)
    → (pool.slots j).loaded ≡ true
    → (pool.slots j).pin_count ≢ 0
    → j ≢ v
IsFree-not_pinned pool v j (inl f) l p e =
    let l' : (pool.slots v).loaded ≡ true = subst (λ n. (pool.slots n).loaded ≡ true) e l in cc
IsFree-not_pinned pool v j (inr f) l p e = p (subst (λ n. (pool.slots n).pin_count ≡ 0) (sym e) f)

abbrev written : BufferPool → ℕ → Option File
written pool v = write_back pool.file (pool.slots v) ((pool.slots v).loaded && (pool.slots v).dirty)

fill_slot-Brought :
    (pool : BufferPool) (pid v : ℕ) (file : File)
    → IsPool pool
    → find_slot pool pid ≡ none
    → v < pool.capacity
    → IsFree (pool.slots v)
    → written pool v ≡ some file
    → Brought pool pid (fill_slot pool file v (file_read_page file pid) pid, v)
fill_slot-Brought pool pid v file inv gone lt free wrote = (
  record {
    inv = fill_slot-IsPool pool pid v file page inv gone lt wrote refl;
    capacity = refl;
    page_size = refl;
    same_view = λ q. elim (ℕ_discrete q pid) [
      | yes e ↦ subst (λ n. view after n ≡ view pool n) (sym e) own
      | no ne ↦ fill_slot-view pool pid v file page inv gone lt wrote refl q ne
    ];
    pinned = λ j hj l p.
        let old : after.slots j ≡ pool.slots j =
          slot_old pool pid v file page inv gone lt wrote refl j
            (IsFree-not_pinned pool v j free l p) in
        (
          ap (λ (s : Slot). s.page) old,
          ap (λ (s : Slot). s.page_id) old,
          ap (λ (s : Slot). s.loaded) old ∙ l,
        );
  },
  lt,
  here pool pid v file page inv gone lt wrote refl,
)
  where
    page : Buffer
    page = file_read_page file pid

    after : BufferPool
    after = fill_slot pool file v page pid

    own : view after pid ≡ view pool pid
    own =
        fill_slot-view_self pool pid v file page inv gone lt wrote refl
        ∙ write_back-other pool pid v file gone lt wrote
        ∙ sym (view-absent pool pid (find_slot-none pool pid gone))

load_into-Brought :
    (pool : BufferPool) (pid v : ℕ) (r : BufferPool × ℕ)
    → IsPool pool
    → find_slot pool pid ≡ none
    → v < pool.capacity
    → IsFree (pool.slots v)
    → load_into pool pid v ≡ some r
    → Brought pool pid r
unfolding load_into
load_into-Brought pool pid v r inv gone lt free h = go (written pool v) refl
  where
    go : (w : Option File) → written pool v ≡ w → Brought pool pid r
    go none e = let h' : none ≡ some r = rw (e, load_into) at h in absurd (cc)
    go (some file) e =
        let h' : some (fill_slot pool file v (file_read_page file pid) pid, v) ≡ some r =
          rw (e, load_into) at h in
        subst (Brought pool pid) (some-injective _ _ h')
          (fill_slot-Brought pool pid v file inv gone lt free e)

pub Keeps-refl : (pool : BufferPool) → IsPool pool → Keeps pool pool
Keeps-refl pool inv = record {
  inv = inv;
  capacity = refl;
  page_size = refl;
  same_view = λ q. refl;
  pinned = λ j hj l p. (refl, refl, l);
}

pub ensure_loaded-Brought :
    (pool : BufferPool) (pid : ℕ) (r : BufferPool × ℕ)
    → IsPool pool
    → ensure_loaded pool pid ≡ some r
    → Brought pool pid r
unfolding ensure_loaded
ensure_loaded-Brought pool pid r inv h = elim (find_slot-cases pool pid) [
  | inl (k, e) ↦
      let h' : some (pool, k) ≡ some r = rw (e, ensure_loaded) at h in
      let (lt, found) = find_slot-some pool pid k e in
      subst (Brought pool pid) (some-injective _ _ h') (Keeps-refl pool inv, lt, found)
  | inr e ↦ go e (find_eviction_candidate pool) refl
]
  where
    go :
        find_slot pool pid ≡ none
        → (c : Option ℕ) → find_eviction_candidate pool ≡ c
        → Brought pool pid r
    go e none f = let h' : none ≡ some r = rw (e, f, ensure_loaded) at h in absurd (cc)
    go e (some v) f =
        let h' : load_into pool pid v ≡ some r = rw (e, f, ensure_loaded) at h in
        let (lt, free) = find_eviction_candidate-IsFree pool v f in
        load_into-Brought pool pid v r inv e lt free h'
