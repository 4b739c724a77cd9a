-- ===== src/Pool/Flush.antt =====
-- After a flush of the whole pool the file holds what the pool shows.
mod Write
use garry.Base.{
  ℕ, zero, suc, ◌+◌, ◌≤◌, ◌<◌, ◌≡◌, ◌≢◌, refl, sym, ◌∙◌, ap, subst, Option, none, some, Bool, true,
  false, ◌&&◌, ◌==◌, if◌then◌else◌, arith, inl, inr, Bool-cases, ==_refl, ne→==,
}
use mathlib.Core.Option.{some-injective}
use native.Mathlib.Decide.{ℕ_discrete}
use garry.Base.Buffer.{Buffer}
use garry.Pool.{
  File, Slot, BufferPool, holds, set_slot, file_read_page, file_write_page, write_back,
}
use garry.Pool.Find.{
  IsPool, IsUnique, view, view-here, view-absent, find_slot-some, find_slot-none, find_slot-cases,
}
use garry.Pool.Load.{write_back-read}
use garry.Pool.Space.{write_slot, flush_from, pool_flush_all, close_slot, close_from, pool_close}
use garry.Pool.Flush.Write.{
  clean_slot, flushed-IsPool, flushed-view, write_slot-some, file_write_page-writable,
  write_slot-none, clean_slot-clean,
}

-- What the writes of the loaded dirty slots from `i` on leave, and that they end if the file takes
-- every write.
record Flushed (pool : BufferPool) (r : BufferPool × Bool) : Type 0 where
  inv : IsPool r.0
  capacity : r.0.capacity ≡ pool.capacity
  same_view : (q : ℕ) → view r.0 q ≡ view pool q
  clean :
      r.1 ≡ true
      → (j : ℕ) → j < pool.capacity
      → (r.0.slots j).loaded ≡ true
      → (r.0.slots j).dirty ≡ false
  ends : ((q : ℕ) → pool.file.writable q ≡ true) → r.1 ≡ true

flush_from-Flushed :
    (pool : BufferPool) (i rest : ℕ)
    → IsPool pool
    → i + rest ≡ pool.capacity
    → ((j : ℕ) → j < i → (pool.slots j).loaded ≡ true → (pool.slots j).dirty ≡ false)
    → Flushed pool (flush_from pool i rest)
unfolding flush_from
flush_from-Flushed pool i zero inv len below = record {
  inv = inv;
  capacity = refl;
  same_view = λ q. refl;
  clean = λ e j lt l. below j (omega arith) l;
  ends = λ w. refl;
}
flush_from-Flushed pool i (suc rest) inv len below =
    elim (Bool-cases ((pool.slots i).loaded && (pool.slots i).dirty)) [
      | inl e ↦ rw e (go e (write_slot pool i) refl (λ p. flush_from-Flushed p (i + 1) rest))
      | inr e ↦ rw e (
          flush_from-Flushed pool (i + 1) rest inv (omega arith) (λ j lt l. elim (ℕ_discrete j i) [
            | yes f ↦
                let l' : (pool.slots i).loaded ≡ true =
                  subst (λ n. (pool.slots n).loaded ≡ true) f l in
                subst (λ n. (pool.slots n).dirty ≡ false) (sym f) (ground arith)
            | no f ↦ below j (omega (arith, f)) l
          ]))
    ]
  where
    go :
        ((pool.slots i).loaded && (pool.slots i).dirty) ≡ true
        → (w : Option BufferPool) → write_slot pool i ≡ w
        → ((p : BufferPool)
            → IsPool p
            → i + 1 + rest ≡ p.capacity
            → ((j : ℕ) → j < i + 1 → (p.slots j).loaded ≡ true → (p.slots j).dirty ≡ false)
            → Flushed p (flush_from p (i + 1) rest))
        → Flushed pool
            (elim w [ none ↦ (pool, false) | some pool' ↦ flush_from pool' (i + 1) rest ])
    go e none f next = record {
      inv = inv;
      capacity = refl;
      same_view = λ q. refl;
      clean = λ h. absurd (cc);
      ends = λ w.
          let no : pool.file.writable (pool.slots i).page_id ≡ false = write_slot-none pool i f in
          let yes : pool.file.writable (pool.slots i).page_id ≡ true = w (pool.slots i).page_id in
          absurd (cc);
    }
    go e (some p) f next =
        let (file, wrote, same) = write_slot-some pool i p f in
        let lt : i < pool.capacity = omega arith in
        let loaded : (pool.slots i).loaded ≡ true = ground arith in
        subst (λ n. Flushed pool (flush_from n (i + 1) rest)) same
          (let r =
              next (clean_slot pool i file) (flushed-IsPool pool i file inv lt loaded wrote)
                (omega arith) (clean_slot-clean pool i file below) in
            record {
              inv = r.inv;
              capacity = r.capacity;
              same_view = λ q. r.same_view q ∙ flushed-view pool i file inv lt loaded wrote q;
              clean = r.clean;
              ends = λ w. r.ends (λ q.
                  file_write_page-writable pool.file (pool.slots i).page_id (pool.slots i).page file
                    wrote q
                  ∙ w q);
            })

-- `garry_pool_flush_all` keeps the pool well formed and shows the same page under every id. If every
-- write succeeds it runs to its end, and then the file holds, under every id, the page that the pool
-- showed before the call.
pub flush_all-file :
    (pool : BufferPool)
    → IsPool pool
    → IsPool (pool_flush_all pool).0
      × ((q : ℕ) → view (pool_flush_all pool).0 q ≡ view pool q)
      × (((q : ℕ) → pool.file.writable q ≡ true) → (pool_flush_all pool).1 ≡ true)
      × ((pool_flush_all pool).1 ≡ true
          → (q : ℕ) → file_read_page (pool_flush_all pool).0.file q ≡ view pool q)
unfolding pool_flush_all
flush_all-file pool inv =
    let r =
      flush_from-Flushed pool 0 pool.capacity inv (omega arith) (λ j lt l. absurd (omega arith)) in
    let after : BufferPool = (flush_from pool 0 pool.capacity).0 in
    (
      r.inv,
      r.same_view,
      r.ends,
      λ done q. elim (find_slot-cases after q) [
        | inl (k, e) ↦
            let (hk, found) = find_slot-some after q k e in
            let loaded : (after.slots k).loaded ≡ true = ground arith in
            r.inv.clean k q hk found (r.clean done k (omega (arith, r.capacity)) loaded)
            ∙ sym (view-here after q k r.inv.unique hk found)
            ∙ r.same_view q
        | inr e ↦ sym (view-absent after q (find_slot-none after q e)) ∙ r.same_view q
      ],
    )

-- The rest of the flush after a write.
abbrev flush_end : BufferPool → ℕ → ℕ → Option BufferPool → BufferPool × Bool
flush_end pool i rest w = elim w [
  | none ↦ (pool, false)
  | some pool' ↦ flush_from pool' (i + 1) rest
]

close_from-flush_from :
    (pool : BufferPool) (i rest : ℕ)
    → (flush_from pool i rest).1 ≡ true
    → close_from pool i rest ≡ (flush_from pool i rest).0
unfolding close_from flush_from close_slot
close_from-flush_from pool i zero h = refl
close_from-flush_from pool i (suc rest) h =
    elim (Bool-cases ((pool.slots i).loaded && (pool.slots i).dirty)) [
      | inl e ↦
          rw e (go (write_slot pool i) refl (rw e at h) (λ p. close_from-flush_from p (i + 1) rest))
      | inr e ↦ rw e (close_from-flush_from pool (i + 1) rest (rw e at h))
    ]
  where
    go :
        (w : Option BufferPool)
        → write_slot pool i ≡ w
        → (flush_end pool i rest (write_slot pool i)).1 ≡ true
        → ((p : BufferPool)
            → (flush_from p (i + 1) rest).1 ≡ true
            → close_from p (i + 1) rest ≡ (flush_from p (i + 1) rest).0)
        → close_from (close_slot pool i) (i + 1) rest
          ≡ (flush_end pool i rest (write_slot pool i)).0
    go none e h' next = let h2 : false ≡ true = rw e at h' in absurd (cc)
    go (some p) e h' next = rw (e, close_slot) (next p (rw e at h'))

-- If every write succeeds, `garry_pool_close` leaves a file that holds, under every id, the page that
-- the pool showed.
pub close-file :
    (pool : BufferPool)
    → IsPool pool
    → ((q : ℕ) → pool.file.writable q ≡ true)
    → (q : ℕ) → file_read_page (pool_close pool) q ≡ view pool q
unfolding pool_close pool_flush_all
close-file pool inv w q =
    let (inv', same, ends, stored) = flush_all-file pool inv in
    ap (λ (p : BufferPool). file_read_page p.file q)
      (close_from-flush_from pool 0 pool.capacity (ends w))
    ∙ stored (ends w) q
