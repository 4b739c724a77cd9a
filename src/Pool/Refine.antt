-- ===== src/Pool/Refine.antt =====
-- The pool as a store of pages: every call but a write leaves the store alone, and a page that is
-- pinned, written, marked dirty and released is changed there and nowhere else.
use garry.Base.{
  ℕ, ◌<◌, ◌≡◌, ◌≢◌, refl, sym, ◌∙◌, subst, Option, none, some, true, false, arith, inl, inr,
  Bool-cases, ==_refl, ne→==,
}
use mathlib.Core.Option.{some-injective}
use native.Mathlib.Decide.{ℕ_discrete}
use garry.Base.Word.{add32, slt}
use garry.Pool.{
  Slot, BufferPool, holds, set_slot, ensure_loaded, pin_slot, pool_pin_page, at_page, unpin,
  pool_release_page, pool_mark_dirty, pool_try_pin,
}
use garry.Pool.Find.{
  IsPool, view, view-here, view-absent, find_slot-some, find_slot-none, find_slot-cases,
}
use garry.Pool.Pins.{Brought, ensure_loaded-Brought, Keeps-refl}

-- A change of slot `i` that leaves its page there, and does not make it clean.
module _ (pool : BufferPool) (i access : ℕ) (s : Slot) (page : s.page ≡ (pool.slots i).page)
    (page_id : s.page_id ≡ (pool.slots i).page_id) (loaded : s.loaded ≡ (pool.slots i).loaded)
    (dirty : s.dirty ≡ false → (pool.slots i).dirty ≡ false) where
  abbrev touched : BufferPool
  touched = record pool { access_counter = access; slots = set_slot pool.slots i s }

  same_page : (j : ℕ) → (touched.slots j).page ≡ (pool.slots j).page
  same_page j = elim (ℕ_discrete j i) [
    | yes e ↦ rw (e, ==_refl i) page
    | no ne ↦ rw (ne→== j i ne) refl
  ]

  same_holds : (j q : ℕ) → holds (touched.slots j) q ≡ holds (pool.slots j) q
  same_holds j q = elim (ℕ_discrete j i) [
    | yes e ↦ rw (e, ==_refl i, page_id, loaded) refl
    | no ne ↦ rw (ne→== j i ne) refl
  ]

  same_clean : (j : ℕ) → (touched.slots j).dirty ≡ false → (pool.slots j).dirty ≡ false
  same_clean j = elim (ℕ_discrete j i) [
    | yes e ↦ rw (e, ==_refl i) dirty
    | no ne ↦ rw (ne→== j i ne) (λ d. d)
  ]

  touched-IsPool : IsPool pool → IsPool touched
  touched-IsPool inv = record {
    unique = λ j k q hj hk at_j at_k.
        inv.unique j k q hj hk (sym (same_holds j q) ∙ at_j) (sym (same_holds k q) ∙ at_k);
    clean = λ j q hj at_j d.
        inv.clean j q hj (sym (same_holds j q) ∙ at_j) (same_clean j d) ∙ sym (same_page j);
  }

  touched-view : IsPool pool → (q : ℕ) → view touched q ≡ view pool q
  touched-view inv q = elim (find_slot-cases pool q) [
    | inl (k, e) ↦
        let (hk, found) = find_slot-some pool q k e in
        view-here touched q k (touched-IsPool inv).unique hk (same_holds k q ∙ found)
        ∙ same_page k
        ∙ sym (view-here pool q k inv.unique hk found)
    | inr e ↦
        view-absent touched q (λ j hj. same_holds j q ∙ find_slot-none pool q e j hj)
        ∙ sym (view-absent pool q (find_slot-none pool q e))
  ]

-- A call of `at_page` with such a change keeps the invariant and the store.
at_page-same :
    (pool : BufferPool) (pid : ℕ) (change : Slot → Slot)
    → ((s : Slot)
        → ((change s).page ≡ s.page)
          × ((change s).page_id ≡ s.page_id)
          × ((change s).loaded ≡ s.loaded)
          × ((change s).dirty ≡ false → s.dirty ≡ false))
    → IsPool pool
    → IsPool (at_page pool pid change) × ((q : ℕ) → view (at_page pool pid change) q ≡ view pool q)
at_page-same pool pid change same inv = elim (Bool-cases (slt pid 0)) [
  | inl e ↦ rw e (inv, λ q. refl)
  | inr e ↦ elim (find_slot-cases pool pid) [
    | inl (k, f) ↦
        let h = same (pool.slots k) in
        rw (e, f)
          (
            touched-IsPool pool k pool.access_counter (change (pool.slots k)) h.0 h.1 h.2 h.3 inv,
            touched-view pool k pool.access_counter (change (pool.slots k)) h.0 h.1 h.2 h.3 inv,
          )
    | inr f ↦ rw (e, f) (inv, λ q. refl)
  ]
]

pub release_page-page_size :
    (pool : BufferPool) (pid : ℕ) → (pool_release_page pool pid).page_size ≡ pool.page_size
unfolding pool_release_page
release_page-page_size pool pid = elim (Bool-cases (slt pid 0)) [
  | inl e ↦ rw e refl
  | inr e ↦ elim (find_slot-cases pool pid) [ inl (k, f) ↦ rw (e, f) refl | inr f ↦ rw (e, f) refl ]
]

-- `garry_pool_release_page` and `garry_pool_mark_dirty` keep the pool well formed and show the same
-- page under every id as before.
pub release_page-view :
    (pool : BufferPool) (pid : ℕ)
    → IsPool pool
    → IsPool (pool_release_page pool pid)
      × ((q : ℕ) → view (pool_release_page pool pid) q ≡ view pool q)
unfolding pool_release_page unpin
release_page-view pool pid inv = at_page-same pool pid unpin (λ s. ground arith) inv

pub mark_dirty-view :
    (pool : BufferPool) (pid : ℕ)
    → IsPool pool
    → IsPool (pool_mark_dirty pool pid)
      × ((q : ℕ) → view (pool_mark_dirty pool pid) q ≡ view pool q)
unfolding pool_mark_dirty
mark_dirty-view pool pid inv =
    at_page-same pool pid (λ s. record s { dirty = true }) (λ s. (refl, refl, refl, λ d. cc)) inv

-- A page of the pool, with the slot `i` that it is in: the store is that of `pool`, and the slots
-- that `pool` had pinned still hold their pages.
pub record Pinned (pool : BufferPool) (pid : ℕ) (pool' : BufferPool) (i : ℕ) : Type 0 where
  pub inv : IsPool pool'
  pub same_view : (q : ℕ) → view pool' q ≡ view pool q
  pub page_size : pool'.page_size ≡ pool.page_size
  pub slot : i < pool'.capacity
  pub here : holds (pool'.slots i) pid ≡ true
  pub page : (pool'.slots i).page ≡ view pool pid
  pub others :
      (j : ℕ)
      → j < pool.capacity
      → (pool.slots j).loaded ≡ true
      → (pool.slots j).pin_count ≢ 0
      → ((pool'.slots j).page ≡ (pool.slots j).page)
        × ((pool'.slots j).page_id ≡ (pool.slots j).page_id)
        × ((pool'.slots j).loaded ≡ true)

pub pin_slot-Pinned :
    (pool : BufferPool) (pid : ℕ) (p : BufferPool) (i : ℕ)
    → Brought pool pid (p, i)
    → Pinned pool pid (pin_slot p i) i
unfolding pin_slot
pin_slot-Pinned pool pid p i (keeps, lt, found) = record {
  inv = inv;
  same_view = λ q. view_lem q ∙ keeps.same_view q;
  page_size = keeps.page_size;
  slot = omega (arith, keeps.capacity);
  here = here;
  page =
      sym (
        view-here (touched p i access s refl refl refl (λ d. d)) pid i inv.unique
          (omega (arith, keeps.capacity)) here)
      ∙ view_lem pid
      ∙ keeps.same_view pid;
  others = λ j hj l pins.
      let (a, b, c) = keeps.pinned j hj l pins in
      (
        same_page p i access s refl refl refl (λ d. d) j ∙ a,
        elim (ℕ_discrete j i) [
          | yes e ↦
              rw (e, ==_refl i) (subst (λ n. (p.slots n).page_id ≡ (pool.slots n).page_id) e b)
          | no ne ↦ rw (ne→== j i ne) b
        ],
        elim (ℕ_discrete j i) [
          | yes e ↦ rw (e, ==_refl i) (subst (λ n. (p.slots n).loaded ≡ true) e c)
          | no ne ↦ rw (ne→== j i ne) c
        ],
      );
}
  where
    access : ℕ
    access = add32 p.access_counter 1

    s : Slot
    s = record (p.slots i) { pin_count = add32 (p.slots i).pin_count 1; last_access = access }

    inv : IsPool (touched p i access s refl refl refl (λ d. d))
    inv = touched-IsPool p i access s refl refl refl (λ d. d) keeps.inv

    view_lem : (q : ℕ) → view (touched p i access s refl refl refl (λ d. d)) q ≡ view p q
    view_lem = touched-view p i access s refl refl refl (λ d. d) keeps.inv

    here : holds ((touched p i access s refl refl refl (λ d. d)).slots i) pid ≡ true
    here = same_holds p i access s refl refl refl (λ d. d) i pid ∙ found

-- The slot that `garry_pool_pin_page` returns holds the page that the pool showed under the id. The
-- pool stays well formed, shows the same page under every id, and no pinned page is evicted.
pub pin_page-Pinned :
    (pool : BufferPool) (pid : ℕ) (pool' : BufferPool) (i : ℕ)
    → IsPool pool
    → pool_pin_page pool pid ≡ some (pool', i)
    → Pinned pool pid pool' i
unfolding pool_pin_page
pin_page-Pinned pool pid pool' i inv h = elim (Bool-cases (slt pid 0)) [
  | inl e ↦
      let h' : ◌≡◌ {A = Option (BufferPool × ℕ)} none (some (pool', i)) = rw e at h in absurd (cc)
  | inr e ↦ go e (ensure_loaded pool pid) refl
]
  where
    go :
        slt pid 0 ≡ false
        → (r : Option (BufferPool × ℕ)) → ensure_loaded pool pid ≡ r
        → Pinned pool pid pool' i
    go e none f =
        let h' : ◌≡◌ {A = Option (BufferPool × ℕ)} none (some (pool', i)) = rw (e, f) at h in
        absurd (cc)
    go e (some (p, k)) f =
        let h' : some (pin_slot p k, k) ≡ some (pool', i) = rw (e, f) at h in
        subst (λ (r : BufferPool × ℕ). Pinned pool pid r.0 r.1)
          (some-injective (pin_slot p k, k) (pool', i) h')
          (pin_slot-Pinned pool pid p k (ensure_loaded-Brought pool pid (p, k) inv f))

pub try_pin-Pinned :
    (pool : BufferPool) (pid : ℕ) (pool' : BufferPool) (i : ℕ)
    → IsPool pool
    → pool_try_pin pool pid ≡ some (pool', i)
    → Pinned pool pid pool' i
unfolding pool_try_pin
try_pin-Pinned pool pid pool' i inv h = elim (Bool-cases (slt pid 0)) [
  | inl e ↦
      let h' : ◌≡◌ {A = Option (BufferPool × ℕ)} none (some (pool', i)) = rw e at h in absurd (cc)
  | inr e ↦ elim (find_slot-cases pool pid) [
    | inr f ↦
        let h' : ◌≡◌ {A = Option (BufferPool × ℕ)} none (some (pool', i)) =
          rw (e, f, pool_try_pin) at h in
        absurd (cc)
    | inl (k, f) ↦
        let h' : some (pin_slot pool k, k) ≡ some (pool', i) = rw (e, f, pool_try_pin) at h in
        let (lt, found) = find_slot-some pool pid k f in
        subst (λ (r : BufferPool × ℕ). Pinned pool pid r.0 r.1) (some-injective _ _ h')
          (pin_slot-Pinned pool pid pool k (Keeps-refl pool inv, lt, found))
  ]
]
