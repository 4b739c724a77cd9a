-- ===== src/Pool/Allocate.antt =====
-- The pages that `garry_pool_allocate` gives away.
use garry.Base.{
  ℕ, ◌<◌, ◌≡◌, ◌≢◌, refl, sym, ◌∙◌, ap, subst, Option, none, some, true, false, ◌&&◌, inl, inr,
  Bool-cases, ==_refl, ne→==,
}
use mathlib.Core.Option.{some-injective}
use garry.Base.Word.{add32, slt}
use garry.Pool.{
  File, BufferPool, zero_page, holds, fill_slot, find_slot, find_eviction_candidate, write_back,
  file_read_page,
}
use garry.Pool.Find.{IsPool, IsUnique, view, find_slot-some}
use garry.Pool.Load.{fill_slot-IsPool, fill_slot-view, fill_slot-view_self}
use garry.Pool.Pins.{find_eviction_candidate-IsFree, write_back-other}
use garry.Pool.Space.{take_slot, next_free, allocate_free, allocate_new, pool_allocate}

-- A page that is not loaded is not dirty.
abbrev pub IsTidy : BufferPool → Type 0
IsTidy pool =
    (i : ℕ) → i < pool.capacity → (pool.slots i).loaded ≡ false → (pool.slots i).dirty ≡ false

-- What a call that gives away the new page `pid` leaves: the page is empty, and every other page is
-- as it was.
pub record Allocated (pool : BufferPool) (pid : ℕ) (pool' : BufferPool) : Type 0 where
  pub inv : IsPool pool'
  pub empty : view pool' pid ≡ zero_page
  pub others : (q : ℕ) → q ≢ pid → view pool' q ≡ view pool q
  pub next : pool'.next_page ≡ add32 pid 1

view_next : (pool : BufferPool) (n q : ℕ) → view (record pool { next_page = n }) q ≡ view pool q
unfolding view find_slot
view_next pool n q = refl

fill_slot-Allocated :
    (pool : BufferPool) (v pid : ℕ) (file : File)
    → IsPool pool
    → find_slot pool pid ≡ none
    → v < pool.capacity
    → file_read_page pool.file pid ≡ zero_page
    → write_back pool.file (pool.slots v) ((pool.slots v).loaded && (pool.slots v).dirty)
      ≡ some file
    → Allocated pool pid (record (fill_slot pool file v zero_page pid) { next_page = add32 pid 1 })
fill_slot-Allocated pool v pid file inv gone lt blank wrote =
    let content : file_read_page file pid ≡ zero_page =
      write_back-other pool pid v file gone lt wrote ∙ blank in
    let i = fill_slot-IsPool pool pid v file zero_page inv gone lt wrote content in
    record {
      inv = record { unique = i.unique; clean = i.clean };
      empty =
          view_next (fill_slot pool file v zero_page pid) (add32 pid 1) pid
          ∙ fill_slot-view_self pool pid v file zero_page inv gone lt wrote content;
      others = λ q ne.
          view_next (fill_slot pool file v zero_page pid) (add32 pid 1) q
          ∙ fill_slot-view pool pid v file zero_page inv gone lt wrote content q ne;
      next = refl;
    }

take_slot-Allocated :
    (pool : BufferPool) (v pid : ℕ) (r : BufferPool × ℕ)
    → IsPool pool
    → IsTidy pool
    → find_slot pool pid ≡ none
    → v < pool.capacity
    → file_read_page pool.file pid ≡ zero_page
    → take_slot pool v pid ≡ some r
    → (r.1 ≡ pid) × Allocated pool pid (record r.0 { next_page = add32 pid 1 })
unfolding take_slot
take_slot-Allocated pool v pid r inv tidy gone lt blank h =
    go (write_back pool.file (pool.slots v) (pool.slots v).dirty) refl
  where
    needed : (pool.slots v).dirty ≡ ((pool.slots v).loaded && (pool.slots v).dirty)
    needed = elim (Bool-cases (pool.slots v).loaded) [
      | inl e ↦ rw e refl
      | inr e ↦ rw (e, tidy v lt e) refl
    ]

    go :
        (w : Option File)
        → write_back pool.file (pool.slots v) (pool.slots v).dirty ≡ w
        → (r.1 ≡ pid) × Allocated pool pid (record r.0 { next_page = add32 pid 1 })
    go none e = let h' : none ≡ some r = rw (e, take_slot) at h in absurd (cc)
    go (some file) e =
        let h' : some (fill_slot pool file v zero_page pid, pid) ≡ some r =
          rw (e, take_slot) at h in
        let wrote : write_back pool.file (pool.slots v)
              ((pool.slots v).loaded && (pool.slots v).dirty)
            ≡ some file =
          subst (λ b. write_back pool.file (pool.slots v) b ≡ some file) needed e in
        let filled = fill_slot-Allocated pool v pid file inv gone lt blank wrote in
        subst
          (λ (r : BufferPool × ℕ).
            (r.1 ≡ pid) × Allocated pool pid (record r.0 { next_page = add32 pid 1 }))
          (some-injective _ _ h') (refl, filled)

-- The end of `allocate_new`, after the slot is taken.
abbrev new_result : BufferPool → Option (BufferPool × ℕ) → BufferPool × Option ℕ
new_result pool r = elim r [
  | none ↦ (pool, none)
  | some (pool', pid) ↦ (record pool' { next_page = add32 pool.next_page 1 }, some pid)
]

-- With an empty free list `garry_pool_allocate` gives away the page `next_page`, which is empty in
-- the pool then, and every other page is as it was. The page must not be loaded before, must be empty
-- in the file, and a slot without a page must not be dirty.
pub allocate-Allocated :
    (pool : BufferPool) (pool' : BufferPool) (pid : ℕ)
    → IsPool pool
    → IsTidy pool
    → slt pool.free_list_head 0 ≡ true
    → find_slot pool pool.next_page ≡ none
    → file_read_page pool.file pool.next_page ≡ zero_page
    → pool_allocate pool ≡ (pool', some pid)
    → (pid ≡ pool.next_page) × Allocated pool pid pool'
unfolding pool_allocate allocate_new
allocate-Allocated pool pool' pid inv tidy no_free gone blank h =
    go (find_eviction_candidate pool) refl (rw no_free at h)
  where
    taken :
        (v : ℕ)
        → v < pool.capacity
        → (r : Option (BufferPool × ℕ)) → take_slot pool v pool.next_page ≡ r
        → new_result pool r ≡ (pool', some pid)
        → (pid ≡ pool.next_page) × Allocated pool pid pool'
    taken v lt none e h' =
        let no : none ≡ some pid = ap (λ (x : BufferPool × Option ℕ). x.1) h' in absurd (cc)
    taken v lt (some (p, n)) e h' =
        let (own, all) =
          take_slot-Allocated pool v pool.next_page (p, n) inv tidy gone lt blank e in
        let id : n ≡ pid = some-injective _ _ (ap (λ (x : BufferPool × Option ℕ). x.1) h') in
        let same : record p { next_page = add32 pool.next_page 1 } ≡ pool' =
          ap (λ (x : BufferPool × Option ℕ). x.0) h' in
        let at_pid : pool.next_page ≡ pid = sym own ∙ id in
        (
          sym at_pid,
          subst (λ n. Allocated pool n pool') at_pid
              (subst (λ x. Allocated pool pool.next_page x) same all),
        )

    go :
        (c : Option ℕ)
        → find_eviction_candidate pool ≡ c
        → allocate_new pool ≡ (pool', some pid)
        → (pid ≡ pool.next_page) × Allocated pool pid pool'
    go none e h' =
        let no : new_result pool none ≡ (pool', some pid) = rw (e, allocate_new) at h' in
        let no' : none ≡ some pid = ap (λ (x : BufferPool × Option ℕ). x.1) no in absurd (cc)
    go (some v) e h' = elim (Bool-cases (slt pool.next_page 0)) [
      | inl f ↦
          let no : new_result pool none ≡ (pool', some pid) = rw (e, f, allocate_new) at h' in
          let no' : none ≡ some pid = ap (λ (x : BufferPool × Option ℕ). x.1) no in absurd (cc)
      | inr f ↦
          taken v (find_eviction_candidate-IsFree pool v e).0 (take_slot pool v pool.next_page) refl
            (rw (e, f, allocate_new) at h')
    ]

abbrev free_result : BufferPool → Option (BufferPool × ℕ) → BufferPool × Option ℕ
free_result pool r = elim r [ none ↦ (pool, none) | some (pool', pid) ↦ (pool', some pid) ]

abbrev moved : BufferPool → BufferPool
moved pool = record pool { free_list_head = next_free pool }

candidate_moved :
    (pool : BufferPool) → find_eviction_candidate (moved pool) ≡ find_eviction_candidate pool
unfolding find_eviction_candidate
candidate_moved pool = refl

-- The pool that a call gives which takes the slot `v` for the head of the free list.
allocate_free-some :
    (pool : BufferPool) (v : ℕ) (pool' : BufferPool) (pid : ℕ)
    → find_eviction_candidate pool ≡ some v
    → allocate_free pool ≡ (pool', some pid)
    → (file : File) × (fill_slot (moved pool) file v zero_page pool.free_list_head ≡ pool')
      × (pool.free_list_head ≡ pid)
unfolding allocate_free take_slot
allocate_free-some pool v pool' pid at_v h =
    go (write_back pool.file (pool.slots v) (pool.slots v).dirty) refl
  where
    candidate : find_eviction_candidate (moved pool) ≡ some v
    candidate = candidate_moved pool ∙ at_v

    h' : free_result (moved pool) (take_slot (moved pool) v pool.free_list_head) ≡ (pool', some pid)
    h' = rw (candidate, allocate_free) at h

    go :
        (w : Option File)
        → write_back pool.file (pool.slots v) (pool.slots v).dirty ≡ w
        → (file : File) × (fill_slot (moved pool) file v zero_page pool.free_list_head ≡ pool')
          × (pool.free_list_head ≡ pid)
    go none e =
        let no : free_result (moved pool) none ≡ (pool', some pid) = rw (e, take_slot) at h' in
        let no' : none ≡ some pid = ap (λ (x : BufferPool × Option ℕ). x.1) no in absurd (cc)
    go (some file) e =
        let after : BufferPool = fill_slot (moved pool) file v zero_page pool.free_list_head in
        let yes : free_result (moved pool) (some (after, pool.free_list_head)) ≡ (pool', some pid) =
          rw (e, take_slot) at h' in
        (
          file,
          ap (λ (x : BufferPool × Option ℕ). x.0) yes,
          some-injective _ _ (ap (λ (x : BufferPool × Option ℕ). x.1) yes),
        )

-- A free page that is still loaded, as after `garry_pool_free_page`, and that is not in the slot the
-- eviction takes, is in two slots of the pool after `garry_pool_allocate` has given it away.
pub allocate_duplicates :
    (pool : BufferPool) (k v pid : ℕ) (pool' : BufferPool)
    → slt pool.free_list_head 0 ≡ false
    → find_slot pool pool.free_list_head ≡ some k
    → find_eviction_candidate pool ≡ some v
    → k ≢ v
    → pool_allocate pool ≡ (pool', some pid)
    → (pid ≡ pool.free_list_head)
      × (holds (pool'.slots k) pid ≡ true)
      × (holds (pool'.slots v) pid ≡ true)
      × ¬ IsUnique pool'
unfolding pool_allocate
allocate_duplicates pool k v pid pool' listed at_k at_v ne h =
    let h' : allocate_free pool ≡ (pool', some pid) = rw listed at h in
    let (file, same, id) = allocate_free-some pool v pool' pid at_v h' in
    let head : ℕ = pool.free_list_head in
    let after : BufferPool = fill_slot (moved pool) file v zero_page head in
    let at_new : holds (after.slots v) head ≡ true = rw (==_refl v, ==_refl head) refl in
    let at_old : holds (after.slots k) head ≡ true =
      rw (ne→== k v ne) (find_slot-some pool head k at_k).1 in
    subst
      (λ n.
        (n ≡ head)
        × (holds (pool'.slots k) n ≡ true)
        × (holds (pool'.slots v) n ≡ true)
        × ¬ IsUnique pool')
      id
      (subst
        (λ (p : BufferPool).
          (head ≡ head)
          × (holds (p.slots k) head ≡ true)
          × (holds (p.slots v) head ≡ true)
          × ¬ IsUnique p)
        same
        (
          refl,
          at_old,
          at_new,
          λ u. ne (
              u k v head (find_slot-some pool head k at_k).0
                (find_eviction_candidate-IsFree pool v at_v).0 at_old at_new),
        ))
