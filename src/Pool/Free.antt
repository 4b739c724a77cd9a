-- ===== src/Pool/Free.antt =====
-- What `garry_pool_free_page` of src/buffer_pool.c changes: the page that it frees, and no other.
use garry.Base.{
  ℕ, ◌<◌, ◌≡◌, ◌≢◌, refl, sym, ◌∙◌, ap, subst, Option, none, some, true, false, ◌==◌, ◌&&◌, arith,
  inl, inr, Bool-cases, ==_refl, ne→==,
}
use native.Mathlib.Decide.{ℕ_discrete}
use garry.Base.Buffer.{Buffer}
use garry.Base.Word.{slt}
use garry.Endian.{write_int32}
use garry.Pool.{
  File, Slot, BufferPool, holds, set_slot, ensure_loaded, write_back, find_slot, file_read_page,
}
use garry.Pool.Find.{
  IsPool, view, view-here, view-absent, find_slot-some, find_slot-none, find_slot-cases,
}
use garry.Pool.Load.{write_back-read}
use garry.Pool.Pins.{ensure_loaded-Brought}
use garry.Pool.Change.{dirty_slot, changed-IsPool, changed-view}
use garry.Pool.Space.{evict_page, pool_free_page}

-- The pool stays well formed, and shows every page but `pid` as before.
pub record OnlyAt (pool : BufferPool) (pid : ℕ) (pool' : BufferPool) : Type 0 where
  pub inv : IsPool pool'
  pub others : (q : ℕ) → q ≢ pid → view pool' q ≡ view pool q

holds-id : (s : Slot) (p q : ℕ) → holds s p ≡ true → holds s q ≡ true → q ≡ p
holds-id s p q hp hq = ground arith

-- Slot `k`, which holds page `pid`, emptied, over a file that reads the same but for `pid`.
module _ (pool : BufferPool) (pid k : ℕ) (file : File) (gone : Slot) (inv : IsPool pool)
    (lt : k < pool.capacity) (here : holds (pool.slots k) pid ≡ true)
    (unloaded : gone.loaded ≡ false)
    (same : (q : ℕ) → q ≢ pid → file_read_page file q ≡ file_read_page pool.file q) where
  abbrev emptied : BufferPool
  emptied = record pool { file = file; slots = set_slot pool.slots k gone }

  slot_other : (j : ℕ) → j ≢ k → emptied.slots j ≡ pool.slots j
  slot_other j ne = rw (ne→== j k ne) refl

  holds_here : (q : ℕ) → holds (emptied.slots k) q ≡ false
  holds_here q = rw (==_refl k, unloaded) refl

  holds_old :
      (j q : ℕ)
      → holds (emptied.slots j) q ≡ true
      → (j ≢ k) × (emptied.slots j ≡ pool.slots j) × (holds (pool.slots j) q ≡ true)
  holds_old j q at_j = elim (ℕ_discrete j k) [
    | yes e ↦
        let no_slot = holds_here q in
        let at_k : holds (emptied.slots k) q ≡ true =
          subst (λ n. holds (emptied.slots n) q ≡ true) e at_j in
        absurd (cc)
    | no ne ↦ (ne, slot_other j ne, subst (λ (s : Slot). holds s q ≡ true) (slot_other j ne) at_j)
  ]

  emptied-OnlyAt : OnlyAt pool pid emptied
  emptied-OnlyAt = record { inv = inv'; others = others }
    where
      inv' : IsPool emptied
      inv' = record {
        unique = λ i j q hi hj at_i at_j.
            inv.unique i j q hi hj (holds_old i q at_i).2 (holds_old j q at_j).2;
        clean = λ i q hi at_i d.
            let (ne, old, at) = holds_old i q at_i in
            same q (λ e.
              ne (
                inv.unique i k q hi lt at
                  (subst (λ n. holds (pool.slots k) n ≡ true) (sym e) here)))
            ∙ inv.clean i q hi at (sym (ap (λ (s : Slot). s.dirty) old) ∙ d)
            ∙ sym (ap (λ (s : Slot). s.page) old);
      }

      others : (q : ℕ) → q ≢ pid → view emptied q ≡ view pool q
      others q ne = elim (find_slot-cases pool q) [
        | inl (j, e) ↦
            let (hj, at) = find_slot-some pool q j e in
            let apart : j ≢ k = λ f. ne (
              holds-id (pool.slots k) pid q here
                (subst (λ n. holds (pool.slots n) q ≡ true) f at)) in
            let old = slot_other j apart in
            view-here emptied q j inv'.unique hj
              (subst (λ (s : Slot). holds s q ≡ true) (sym old) at)
            ∙ ap (λ (s : Slot). s.page) old
            ∙ sym (view-here pool q j inv.unique hj at)
        | inr e ↦
            view-absent emptied q (λ j hj. elim (ℕ_discrete j k) [
              | yes f ↦ subst (λ n. holds (emptied.slots n) q ≡ false) (sym f) (holds_here q)
              | no f ↦
                  subst (λ (s : Slot). holds s q ≡ false) (sym (slot_other j f))
                    (find_slot-none pool q e j hj)
            ])
            ∙ same q ne
            ∙ sym (view-absent pool q (find_slot-none pool q e))
      ]

abbrev evicted_file : File → Option File → File
evicted_file file r = elim r [ none ↦ file | some written ↦ written ]

evicted_file-same :
    (file : File) (s : Slot) (pid q : ℕ)
    → holds s pid ≡ true
    → q ≢ pid
    → file_read_page (evicted_file file (write_back file s s.dirty)) q ≡ file_read_page file q
evicted_file-same file s pid q here ne = go (write_back file s s.dirty) refl
  where
    other : (s.dirty && q == s.page_id) ≡ false
    other = ground arith

    go :
        (r : Option File)
        → write_back file s s.dirty ≡ r
        → file_read_page (evicted_file file r) q ≡ file_read_page file q
    go none e = refl
    go (some written) e = write_back-read file s s.dirty written q e ∙ rw other refl

evict_page-OnlyAt :
    (pool : BufferPool) (pid : ℕ) → IsPool pool → OnlyAt pool pid (evict_page pool pid)
unfolding evict_page
evict_page-OnlyAt pool pid inv = elim (find_slot-cases pool pid) [
  | inl (k, e) ↦
      let (lt, here) = find_slot-some pool pid k e in
      let s : Slot = pool.slots k in
      rw (e, evict_page)
        (emptied-OnlyAt pool pid k (evicted_file pool.file (write_back pool.file s s.dirty))
          (record s { loaded = false; pin_count = 0; dirty = false }) inv lt here refl
          (λ q ne. evicted_file-same pool.file s pid q here ne))
  | inr e ↦ rw (e, evict_page) (record { inv = inv; others = λ q ne. refl })
]

view_head :
    (pool : BufferPool) (h q : ℕ) → view (record pool { free_list_head = h }) q ≡ view pool q
unfolding view find_slot
view_head pool h q = refl

with_head :
    (pool : BufferPool) (pid h : ℕ) (pool' : BufferPool)
    → OnlyAt pool pid pool'
    → OnlyAt pool pid (record pool' { free_list_head = h })
with_head pool pid h pool' only = record {
  inv = record { unique = only.inv.unique; clean = only.inv.clean };
  others = λ q ne. view_head pool' h q ∙ only.others q ne;
}

-- Freeing a page keeps the pool well formed, and every other page as the pool showed it.
pub free_page-OnlyAt :
    (pool : BufferPool) (pid : ℕ) → IsPool pool → OnlyAt pool pid (pool_free_page pool pid)
unfolding pool_free_page
free_page-OnlyAt pool pid inv = elim (Bool-cases (slt pid 0)) [
  | inl e ↦ rw e (record { inv = inv; others = λ q ne. refl })
  | inr e ↦ rw e (go (ensure_loaded (evict_page pool pid) pid) refl)
]
  where
    evicted : OnlyAt pool pid (evict_page pool pid)
    evicted = evict_page-OnlyAt pool pid inv

    freed : Option (BufferPool × ℕ) → BufferPool
    freed r = elim r [
      | none ↦ record (evict_page pool pid) { free_list_head = pid }
      | some (loaded, idx) ↦ record loaded {
        free_list_head = pid;
        slots = set_slot loaded.slots idx (record (loaded.slots idx) {
          page = write_int32 (loaded.slots idx).page 0 loaded.free_list_head;
          dirty = true;
        });
      }
    ]

    go :
        (r : Option (BufferPool × ℕ))
        → ensure_loaded (evict_page pool pid) pid ≡ r
        → OnlyAt pool pid (freed r)
    go none e = with_head pool pid pid (evict_page pool pid) evicted
    go (some (loaded, idx)) e =
        let (keeps, lt, here) =
          ensure_loaded-Brought (evict_page pool pid) pid (loaded, idx) evicted.inv e in
        let page : Buffer = write_int32 (loaded.slots idx).page 0 loaded.free_list_head in
        let lt' : idx < loaded.capacity = subst (λ n. idx < n) (sym keeps.capacity) lt in
        with_head pool pid pid (dirty_slot loaded idx page) (record {
          inv = changed-IsPool loaded pid idx page keeps.inv lt' here;
          others = λ q ne.
              changed-view loaded pid idx page keeps.inv lt' here q
              ∙ rw (ne→== q pid ne) refl
              ∙ keeps.same_view q
              ∙ evicted.others q ne;
        })
