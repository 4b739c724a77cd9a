-- ===== src/Chain/Prune/Pages.antt =====
-- The overflow pages that the prune of src/version_chain.c frees, and that the pool shows every other
-- page as before.
use garry.Base.{
  ℕ, zero, suc, ◌+◌, ◌≡◌, ◌≢◌, refl, ◌∙◌, subst, List, [], ◌∷◌, ◌++◌, length, Option, none, some,
  false, ltb, not, ◌||◌, if◌then◌else◌, arith, inl, inr, Bool-cases,
}
use mathlib.Core.Option.{some-injective}
use garry.Base.Word.{slt}
use garry.Endian.{read_int32}
use garry.Page.{header_size}
use garry.Pool.{BufferPool, pool_try_pin, pool_release_page}
use garry.Pool.Space.{pool_free_page}
use garry.Pool.Find.{IsPool, view}
use garry.Pool.Refine.{try_pin-Pinned, release_page-view}
use garry.Pool.Free.{free_page-OnlyAt}
use garry.Chain.{entry_header_size, entry_is_overflow, entry_head}
use garry.Chain.Prune.{is_listed, overflow_free, free_record}

-- The pages that `garry_overflow_free` frees, from `pid` on.
unfoldable pub freed_pages : ℕ → BufferPool → ℕ → List ℕ
freed_pages zero pool pid = []
freed_pages (suc fuel) pool pid = if slt pid 0 then [] else elim (pool_try_pin pool pid) [
  | none ↦ []
  | some (pinned, i) ↦
      pid
      ∷ freed_pages fuel (pool_free_page (pool_release_page pinned pid) pid)
          (read_int32 (pinned.slots i).page header_size)
]

-- The pool is well formed, and shows every page that is not listed as before.
pub record OnlyListed (pool : BufferPool) (pages : List ℕ) (pool' : BufferPool) : Type 0 where
  pub inv : IsPool pool'
  pub others : (q : ℕ) → is_listed pages q ≡ false → view pool' q ≡ view pool q

OnlyListed-same : (pool : BufferPool) (pages : List ℕ) → IsPool pool → OnlyListed pool pages pool
OnlyListed-same pool pages inv = record { inv = inv; others = λ q h. refl }

listed_tail :
    (pid q : ℕ) (pages : List ℕ)
    → is_listed (pid ∷ pages) q ≡ false
    → (q ≢ pid) × (is_listed pages q ≡ false)
unfolding is_listed
listed_tail pid q pages h = ground arith

-- One page freed, and then more of them.
OnlyListed-step :
    (pool pinned pool' : BufferPool) (pid i : ℕ) (pages : List ℕ)
    → IsPool pool
    → pool_try_pin pool pid ≡ some (pinned, i)
    → (IsPool (pool_free_page (pool_release_page pinned pid) pid)
        → OnlyListed (pool_free_page (pool_release_page pinned pid) pid) pages pool')
    → OnlyListed pool (pid ∷ pages) pool'
OnlyListed-step pool pinned pool' pid i pages inv e more =
    let pin = try_pin-Pinned pool pid pinned i inv e in
    let (inv1, view1) = release_page-view pinned pid pin.inv in
    let free = free_page-OnlyAt (pool_release_page pinned pid) pid inv1 in
    let rest = more free.inv in
    record {
      inv = rest.inv;
      others = λ q h.
          let (ne, out) = listed_tail pid q pages h in
          rest.others q out ∙ free.others q ne ∙ view1 q ∙ pin.same_view q;
    }

OnlyListed-ended :
    (pool pool' : BufferPool) (pages : List ℕ)
    → IsPool pool
    → some pool ≡ some pool'
    → OnlyListed pool pages pool'
OnlyListed-ended pool pool' pages inv h =
    subst (OnlyListed pool pages) (some-injective pool pool' h) (OnlyListed-same pool pages inv)

overflow_free-OnlyListed :
    (fuel : ℕ) (pool : BufferPool) (pid : ℕ) (pool' : BufferPool)
    → IsPool pool
    → overflow_free fuel pool pid ≡ some pool'
    → OnlyListed pool (freed_pages fuel pool pid) pool'
unfolding overflow_free freed_pages
overflow_free-OnlyListed zero pool pid pool' inv h = elim (Bool-cases (slt pid 0)) [
  | inl e ↦ OnlyListed-ended pool pool' [] inv (rw e at h)
  | inr e ↦ let h' : none ≡ some pool' = rw e at h in absurd (cc)
]
overflow_free-OnlyListed (suc fuel) pool pid pool' inv h = elim (Bool-cases (slt pid 0)) [
  | inl e ↦ rw e (OnlyListed-ended pool pool' [] inv (rw e at h))
  | inr e ↦ rw e (
      go (pool_try_pin pool pid) refl
        (λ p next inv' h'. overflow_free-OnlyListed fuel p next pool' inv' h') (rw e at h))
]
  where
    go :
        (r : Option (BufferPool × ℕ))
        → pool_try_pin pool pid ≡ r
        → ((p : BufferPool) (next : ℕ)
            → IsPool p
            → overflow_free fuel p next ≡ some pool'
            → OnlyListed p (freed_pages fuel p next) pool')
        → elim r as (λ r. Option BufferPool) [
          | none ↦ some pool
          | some (pinned, i) ↦
              overflow_free fuel
                (pool_free_page (pool_release_page pinned pid) pid)
                (read_int32 (pinned.slots i).page header_size)
        ]
          ≡ some pool'
        → OnlyListed pool
            (elim r as (λ r. List ℕ) [
              | none ↦ []
              | some (pinned, i) ↦
                  pid
                  ∷ freed_pages fuel
                      (pool_free_page (pool_release_page pinned pid) pid)
                      (read_int32 (pinned.slots i).page header_size)
            ])
            pool'
    go none e next g = OnlyListed-ended pool pool' [] inv g
    go (some (pinned, i)) e next g = OnlyListed-step pool pinned pool' pid i _ inv e (λ inv'.
        next (pool_free_page (pool_release_page pinned pid) pid)
          (read_int32 (pinned.slots i).page header_size) inv' g)

-- The pages that the prune frees for a record that it drops.
unfoldable pub record_pages : ℕ → BufferPool → List ℕ → List ℕ
record_pages fuel pool rec =
    if ltb (length rec) (entry_header_size + 4) || not (entry_is_overflow rec)
    then []
    else freed_pages fuel pool (entry_head rec)

free_record-OnlyListed :
    (fuel : ℕ) (pool : BufferPool) (rec : List ℕ) (pool' : BufferPool)
    → IsPool pool
    → free_record fuel pool rec ≡ some pool'
    → OnlyListed pool (record_pages fuel pool rec) pool'
unfolding free_record record_pages
free_record-OnlyListed fuel pool rec pool' inv h =
    elim (Bool-cases (ltb (length rec) (entry_header_size + 4) || not (entry_is_overflow rec))) [
      | inl e ↦ rw e (OnlyListed-ended pool pool' [] inv (rw e at h))
      | inr e ↦ rw e (overflow_free-OnlyListed fuel pool (entry_head rec) pool' inv (rw e at h))
    ]

is_listed-append :
    (xs ys : List ℕ) (q : ℕ) → is_listed (xs ++ ys) q ≡ (is_listed xs q || is_listed ys q)
unfolding is_listed
is_listed-append [] ys q = refl
is_listed-append (x ∷ xs) ys q = ground (arith, is_listed-append xs ys q)

OnlyListed-append :
    (pool mid pool' : BufferPool) (xs ys : List ℕ)
    → OnlyListed pool xs mid
    → OnlyListed mid ys pool'
    → OnlyListed pool (xs ++ ys) pool'
OnlyListed-append pool mid pool' xs ys first second = record {
  inv = second.inv;
  others = λ q h.
      let both = is_listed-append xs ys q in
      let out : is_listed ys q ≡ false = ground arith in
      let out' : is_listed xs q ≡ false = ground arith in second.others q out ∙ first.others q out';
}

-- The pool after the overflow pages of the records are freed, one record after the other.
unfoldable pub free_records : ℕ → BufferPool → List (List ℕ) → Option BufferPool
free_records fuel pool [] = some pool
free_records fuel pool (rec ∷ recs) = elim (free_record fuel pool rec) [
  | none ↦ none
  | some pool' ↦ free_records fuel pool' recs
]

-- The pages that are freed then.
unfoldable pub records_pages : ℕ → BufferPool → List (List ℕ) → List ℕ
records_pages fuel pool [] = []
records_pages fuel pool (rec ∷ recs) =
    record_pages fuel pool rec
    ++ elim (free_record fuel pool rec) [ none ↦ [] | some pool' ↦ records_pages fuel pool' recs ]

pub free_records-OnlyListed :
    (fuel : ℕ) (pool : BufferPool) (recs : List (List ℕ)) (pool' : BufferPool)
    → IsPool pool
    → free_records fuel pool recs ≡ some pool'
    → OnlyListed pool (records_pages fuel pool recs) pool'
unfolding free_records records_pages
free_records-OnlyListed fuel pool [] pool' inv h = OnlyListed-ended pool pool' [] inv h
free_records-OnlyListed fuel pool (rec ∷ recs) pool' inv h =
    go (free_record fuel pool rec) refl
      (λ p inv' h'. free_records-OnlyListed fuel p recs pool' inv' h') h
  where
    go :
        (r : Option BufferPool)
        → free_record fuel pool rec ≡ r
        → ((p : BufferPool)
            → IsPool p
            → free_records fuel p recs ≡ some pool'
            → OnlyListed p (records_pages fuel p recs) pool')
        → elim r as (λ r. Option BufferPool) [ none ↦ none | some mid ↦ free_records fuel mid recs ]
          ≡ some pool'
        → OnlyListed pool
            (record_pages fuel pool rec
              ++ elim r as (λ r. List ℕ) [ none ↦ [] | some mid ↦ records_pages fuel mid recs ])
            pool'
    go none e next g = absurd (cc)
    go (some mid) e next g =
        let first = free_record-OnlyListed fuel pool rec mid inv e in
        OnlyListed-append pool mid pool' (record_pages fuel pool rec) (records_pages fuel mid recs)
          first (next mid first.inv g)
