-- ===== src/Pool/Change.antt =====
-- A page that is pinned, changed through the pointer, marked dirty and released: the pool as a store
-- of pages.
use garry.Base.{
  ℕ, ◌<◌, ◌≡◌, ◌≢◌, refl, sym, ◌∙◌, ap, subst, Option, none, some, true, false, ◌==◌, if◌then◌else◌,
  arith, inl, inr, Bool-cases, ==_refl, ne→==,
}
use mathlib.Core.Option.{some-injective}
use mathlib.Core.Path.{fun_ext}
use native.Mathlib.Decide.{ℕ_discrete}
use garry.Base.Buffer.{Buffer}
use garry.Base.Word.{slt}
use garry.Pool.{
  Slot, BufferPool, holds, set_slot, pool_pin_page, pool_mark_dirty, pool_release_page,
}
use garry.Pool.Find.{
  IsPool, IsUnique, view, view-here, view-absent, find_slot-some, find_slot-none, find_slot-cases,
  find_slot-here,
}
use garry.Pool.Refine.{pin_page-Pinned, release_page-view}

-- The write through the pointer to the page of slot `i`.
abbrev pub write_page : BufferPool → ℕ → (Buffer → Buffer) → BufferPool
write_page pool i change = record pool {
  slots = set_slot pool.slots i (record (pool.slots i) { page = change (pool.slots i).page });
}

-- The calls a client makes to change page `pid`; `none` if the page cannot be pinned.
unfoldable pub change_page : BufferPool → ℕ → (Buffer → Buffer) → Option BufferPool
change_page pool pid change = elim (pool_pin_page pool pid) [
  | none ↦ none
  | some (pinned, i) ↦
      some (pool_release_page (pool_mark_dirty (write_page pinned i change) pid) pid)
]

abbrev pub dirty_slot : BufferPool → ℕ → Buffer → BufferPool
dirty_slot pool i page = record pool {
  slots = set_slot pool.slots i (record (pool.slots i) { page = page; dirty = true });
}

-- Slot `i`, which holds page `pid`, with another page in it, and dirty.
module _ (pool : BufferPool) (pid i : ℕ) (page : Buffer) (inv : IsPool pool)
    (lt : i < pool.capacity) (here : holds (pool.slots i) pid ≡ true) where
  abbrev changed : BufferPool
  changed = dirty_slot pool i page

  holds_same : (j q : ℕ) → holds (changed.slots j) q ≡ holds (pool.slots j) q
  holds_same j q = elim (ℕ_discrete j i) [
    | yes e ↦ rw (e, ==_refl i) refl
    | no ne ↦ rw (ne→== j i ne) refl
  ]

  page_other : (j : ℕ) → j ≢ i → (changed.slots j).page ≡ (pool.slots j).page
  page_other j ne = rw (ne→== j i ne) refl

  dirty_other : (j : ℕ) → j ≢ i → (changed.slots j).dirty ≡ (pool.slots j).dirty
  dirty_other j ne = rw (ne→== j i ne) refl

  page_here : (changed.slots i).page ≡ page
  page_here = rw (==_refl i) refl

  dirty_here : (j : ℕ) → j ≡ i → (changed.slots j).dirty ≡ true
  dirty_here j e = rw (e, ==_refl i) refl

  pub changed-IsPool : IsPool changed
  changed-IsPool = record {
    unique = λ j k q hj hk at_j at_k.
        inv.unique j k q hj hk (sym (holds_same j q) ∙ at_j) (sym (holds_same k q) ∙ at_k);
    clean = λ j q hj at_j d. elim (ℕ_discrete j i) [
      | yes e ↦ let no : (changed.slots j).dirty ≡ true = dirty_here j e in absurd (cc)
      | no ne ↦
          inv.clean j q hj (sym (holds_same j q) ∙ at_j) (sym (dirty_other j ne) ∙ d)
          ∙ sym (page_other j ne)
    ];
  }

  pub changed-view : (q : ℕ) → view changed q ≡ (if q == pid then page else view pool q)
  changed-view q = elim (find_slot-cases pool q) [
    | inl (k, e) ↦
        let (hk, found) = find_slot-some pool q k e in
        view-here changed q k changed-IsPool.unique hk (holds_same k q ∙ found)
        ∙ elim (ℕ_discrete k i) [
          | yes f ↦
              let at_i : holds (pool.slots i) q ≡ true =
                subst (λ n. holds (pool.slots n) q ≡ true) f found in
              let own : (q == pid) ≡ true = ground arith in
              rw own (subst (λ n. (changed.slots n).page ≡ page) (sym f) page_here)
          | no f ↦
              let other : (q == pid) ≡ false = ne→== q pid (λ same. f (
                inv.unique k i pid hk lt (subst (λ n. holds (pool.slots k) n ≡ true) same found)
                  here)) in
              rw other (page_other k f ∙ sym (view-here pool q k inv.unique hk found))
        ]
    | inr e ↦
        let no_slot : holds (pool.slots i) q ≡ false = find_slot-none pool q e i lt in
        let other : (q == pid) ≡ false = ground arith in
        view-absent changed q (λ j hj. holds_same j q ∙ find_slot-none pool q e j hj)
        ∙ rw other (sym (view-absent pool q (find_slot-none pool q e)))
  ]

pin_page-positive :
    (pool : BufferPool) (pid : ℕ) (r : BufferPool × ℕ)
    → pool_pin_page pool pid ≡ some r
    → slt pid 0 ≡ false
unfolding pool_pin_page
pin_page-positive pool pid r h = elim (Bool-cases (slt pid 0)) [
  | inl e ↦ let h' : none ≡ some r = rw e at h in absurd (cc)
  | inr e ↦ e
]

write_page-holds :
    (pool : BufferPool) (i : ℕ) (change : Buffer → Buffer) (j q : ℕ)
    → holds ((write_page pool i change).slots j) q ≡ holds (pool.slots j) q
write_page-holds pool i change j q = elim (ℕ_discrete j i) [
  | yes e ↦ rw (e, ==_refl i) refl
  | no ne ↦ rw (ne→== j i ne) refl
]

-- The slot after the write and the mark.
dirty-write_page :
    (pool : BufferPool) (pid i : ℕ) (change : Buffer → Buffer)
    → IsPool pool
    → i < pool.capacity
    → holds (pool.slots i) pid ≡ true
    → slt pid 0 ≡ false
    → pool_mark_dirty (write_page pool i change) pid
      ≡ dirty_slot pool i (change (pool.slots i).page)
unfolding pool_mark_dirty
dirty-write_page pool pid i change inv lt here positive =
    let u : IsUnique (write_page pool i change) = λ j k q hj hk at_j at_k.
      inv.unique j k q hj hk (sym (write_page-holds pool i change j q) ∙ at_j)
        (sym (write_page-holds pool i change k q) ∙ at_k) in
    let same : holds ((write_page pool i change).slots i) pid ≡ true = rw (==_refl i) here in
    rw (positive, find_slot-here (write_page pool i change) pid i u lt same)
      (ap (λ (s : ℕ → Slot). record pool { slots = s })
        (fun_ext λ j. elim (ℕ_discrete j i) [
          | yes e ↦ rw (e, ==_refl i) refl
          | no ne ↦ rw (ne→== j i ne) refl
        ]))

-- A page that is pinned, changed, marked dirty and released: the pool stays well formed, and shows
-- the changed page under that id and the same page as before under every other id.
pub change_page-view :
    (pool : BufferPool) (pid : ℕ) (change : Buffer → Buffer) (pool' : BufferPool)
    → IsPool pool
    → change_page pool pid change ≡ some pool'
    → IsPool pool'
      × ((q : ℕ) → view pool' q ≡ (if q == pid then change (view pool pid) else view pool q))
unfolding change_page
change_page-view pool pid change pool' inv h = go (pool_pin_page pool pid) refl
  where
    go :
        (r : Option (BufferPool × ℕ))
        → pool_pin_page pool pid ≡ r
        → IsPool pool'
          × ((q : ℕ) → view pool' q ≡ (if q == pid then change (view pool pid) else view pool q))
    go none e = let h' : none ≡ some pool' = rw (e, change_page) at h in absurd (cc)
    go (some (p, i)) e =
        let h' : some (pool_release_page (pool_mark_dirty (write_page p i change) pid) pid)
            ≡ some pool' =
          rw (e, change_page) at h in
        let pinned = pin_page-Pinned pool pid p i inv e in
        let page : Buffer = change (p.slots i).page in
        let mid : pool_mark_dirty (write_page p i change) pid ≡ dirty_slot p i page =
          dirty-write_page p pid i change pinned.inv pinned.slot pinned.here
            (pin_page-positive pool pid (p, i) e) in
        let inv' : IsPool (dirty_slot p i page) =
          changed-IsPool p pid i page pinned.inv pinned.slot pinned.here in
        let (inv2, view2) = release_page-view (dirty_slot p i page) pid inv' in
        let end : pool_release_page (dirty_slot p i page) pid ≡ pool' =
          sym (ap (λ n. pool_release_page n pid) mid) ∙ some-injective _ _ h' in
        subst
          (λ (n : BufferPool).
            IsPool n
            × ((q : ℕ) → view n q ≡ (if q == pid then change (view pool pid) else view pool q)))
          end
          (
            inv2,
            λ q.
                view2 q
                ∙ changed-view p pid i page pinned.inv pinned.slot pinned.here q
                ∙ rw (pinned.page, pinned.same_view q) refl,
          )
