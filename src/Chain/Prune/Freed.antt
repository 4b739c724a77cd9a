-- ===== src/Chain/Prune/Freed.antt =====
-- The prune of src/version_chain.c as a whole: which overflow pages it frees, and what readers get
-- from the page and from the store of pages that it leaves.
use garry.Base.{
  ℕ, zero, suc, ◌+◌, ◌≤◌, ◌<◌, ◌≡◌, ◌⊎◌, refl, sym, ◌∙◌, ap, List, [], ◌∷◌, Option, none, some,
  true, ◌==◌, if◌then◌else◌, arith, inl, inr, Bool-cases, append-nil,
}
use mathlib.Core.Option.{some-injective}
use garry.Base.Buffer.{Buffer}
use garry.Base.Word.{sle}
use garry.Page.{page_record_count}
use garry.Page.Layout.{IsPage, contents, record_at}
use garry.Pool.{BufferPool}
use garry.Chain.{visible_step, entry_value, chain_page_find_visible}
use garry.Chain.Prune.{
  is_listed, keep_record, pruned_page, free_record, free_dropped, chain_page_prune,
}
use garry.Chain.Prune.Page.{kept, page_get_here, keep_slot_here}
use garry.Chain.Prune.Pages.{free_records, records_pages, OnlyListed, free_records-OnlyListed}
use garry.Pool.Find.{IsPool}
use garry.Chain.Prune.Readers.{
  newest, newest-append, find_visible-newest, find_visible-pruned, NoOwn, Answers, keep_last,
  pruned_page_keeps_readers,
}

-- The records that the prune does not keep, from slot `i` on.
unfoldable pub dropped : Buffer → List ℕ → ℕ → ℕ → ℕ → List (List ℕ)
dropped buf active count i zero = []
dropped buf active count i (suc rest) =
    let more = dropped buf active count (i + 1) rest in
    if keep_record active (i + 1 == count) (record_at buf i) then more else record_at buf i ∷ more

-- The second loop of the prune frees for exactly the records that are not kept.
free_dropped-records :
    (fuel : ℕ) (pool : BufferPool) (buf : Buffer) (size : ℕ) (active : List ℕ) (n i rest : ℕ)
    → IsPage buf size n
    → i + rest ≤ n
    → free_dropped fuel pool buf size active n i rest
      ≡ free_records fuel pool (dropped buf active n i rest)
unfolding free_dropped free_records dropped
free_dropped-records fuel pool buf size active n i zero page le = refl
free_dropped-records fuel pool buf size active n i (suc rest) page le =
    elim (Bool-cases (keep_record active (i + 1 == n) (record_at buf i))) [
      | inl e ↦
          rw (keep_slot_here buf size n i n active page (omega arith), e)
            (free_dropped-records fuel pool buf size active n (i + 1) rest page (omega arith))
      | inr e ↦
          rw
            (
              keep_slot_here buf size n i n active page (omega arith),
              e,
              page_get_here buf size n i page (omega arith),
            )
            (go (free_record fuel pool (record_at buf i))
              (λ p. free_dropped-records fuel p buf size active n (i + 1) rest page (omega arith)))
    ]
  where
    go :
        (r : Option BufferPool)
        → ((p : BufferPool)
            → free_dropped fuel p buf size active n (i + 1) rest
              ≡ free_records fuel p (dropped buf active n (i + 1) rest))
        → elim r as (λ r. Option BufferPool) [
          | none ↦ none
          | some pool' ↦ free_dropped fuel pool' buf size active n (i + 1) rest
        ]
          ≡ elim r as (λ r. Option BufferPool) [
            | none ↦ none
            | some pool' ↦ free_records fuel pool' (dropped buf active n (i + 1) rest)
          ]
    go none next = refl
    go (some p) next = next p

module _ (pages pages' : ℕ → Option Buffer) (size snap : ℕ) (active : List ℕ) where
  -- The values of the records that are kept read the same from both stores of pages.
  abbrev pub KeptReadSame : Buffer → ℕ → Type 0
  KeptReadSame buf n =
      (i : ℕ)
      → i < n
      → keep_record active (i + 1 == n) (record_at buf i) ≡ true
      → entry_value pages' size (record_at buf i) ≡ entry_value pages size (record_at buf i)

  visible_step-same :
      (rec : List ℕ) (older : Option (List ℕ))
      → entry_value pages' size rec ≡ entry_value pages size rec
      → visible_step pages' size snap active (some rec) older
        ≡ visible_step pages size snap active (some rec) older
  unfolding visible_step
  visible_step-same rec older e = rw e refl

  kept-same :
      (buf : Buffer) (n k : ℕ)
      → k ≤ n
      → KeptReadSame buf n
      → newest pages' size snap active none (kept buf active n k)
        ≡ newest pages size snap active none (kept buf active n k)
  unfolding kept newest
  kept-same buf n zero le same = refl
  kept-same buf n (suc k) le same =
      let before = kept-same buf n k (omega arith) same in
      elim (Bool-cases (keep_record active (k + 1 == n) (record_at buf k))) [
        | inl e ↦ rw e (
            newest-append pages' size snap active none (kept buf active n k) (record_at buf k ∷ [])
            ∙ ap (visible_step pages' size snap active (some (record_at buf k))) before
            ∙ visible_step-same (record_at buf k) _ (same k (omega arith) e)
            ∙ sym (
                newest-append pages size snap active none (kept buf active n k)
                  (record_at buf k ∷ [])))
        | inr e ↦ rw (e, append-nil) before
      ]

  -- A page of one record at most keeps it.
  kept-few : (buf : Buffer) (n : ℕ) → n ≤ 1 → kept buf active n n ≡ contents buf n
  unfolding kept contents
  kept-few buf zero le = refl
  kept-few buf (suc zero) le = rw (keep_last active (record_at buf 0)) refl
  kept-few buf (suc (suc n)) le = absurd (omega arith)

  -- The answer of the page that the prune leaves is the same over both stores.
  pruned_page-same :
      (buf tmp : Buffer) (n : ℕ)
      → IsPage buf size n
      → KeptReadSame buf n
      → chain_page_find_visible pages' (pruned_page buf size active tmp) size snap active
        ≡ chain_page_find_visible pages (pruned_page buf size active tmp) size snap active
  pruned_page-same buf tmp n page same = elim (Bool-cases (sle n 1)) [
    | inl e ↦
        let few : n ≤ 1 = ground (arith, page.few) in
        let unchanged : pruned_page buf size active tmp ≡ buf =
          unfold pruned_page page_record_count in rw (page.count, e) refl in
        let all = kept-few buf n few in
        rw unchanged (
          find_visible-newest pages' size snap active buf n page
          ∙ ap (newest pages' size snap active none) (sym all)
          ∙ kept-same buf n n (omega arith) same
          ∙ ap (newest pages size snap active none) all
          ∙ sym (find_visible-newest pages size snap active buf n page))
    | inr e ↦
        let many : 2 ≤ n = ground (arith, page.few) in
        find_visible-pruned pages' size snap active buf tmp n page many
        ∙ kept-same buf n n (omega arith) same
        ∙ sym (find_visible-pruned pages size snap active buf tmp n page many)
  ]

dropped-few : (buf : Buffer) (active : List ℕ) (n : ℕ) → n ≤ 1 → dropped buf active n 0 n ≡ []
unfolding dropped
dropped-few buf active zero le = refl
dropped-few buf active (suc zero) le = rw (keep_last active (record_at buf 0)) refl
dropped-few buf active (suc (suc n)) le = absurd (omega arith)

-- The prune frees for the records that it drops, and leaves the pruned page.
prune_result :
    (fuel : ℕ) (pool : BufferPool) (buf : Buffer) (size : ℕ) (active : List ℕ) (tmp : Buffer)
    (n : ℕ) (pool' : BufferPool) (page' : Buffer)
    → IsPage buf size n
    → chain_page_prune fuel pool buf size active tmp ≡ some (pool', page')
    → (free_records fuel pool (dropped buf active n 0 n) ≡ some pool')
      × (pruned_page buf size active tmp ≡ page')
unfolding chain_page_prune page_record_count free_records pruned_page
prune_result fuel pool buf size active tmp n pool' page' page h = elim (Bool-cases (sle n 1)) [
  | inl e ↦
      let few : n ≤ 1 = ground (arith, page.few) in
      let same : some (pool, buf) ≡ some (pool', page') = rw (page.count, e) at h in
      let both : (pool, buf) ≡ (pool', page') = some-injective (pool, buf) (pool', page') same in
      (
        rw (dropped-few buf active n few) (ap (λ (r : BufferPool × Buffer). some r.0) both),
        rw (page.count, e) (ap (λ (r : BufferPool × Buffer). r.1) both),
      )
  | inr e ↦
      go (free_records fuel pool (dropped buf active n 0 n))
        (sym (free_dropped-records fuel pool buf size active n 0 n page (omega arith)))
        (rw (page.count, e) at h)
]
  where
    result : Option BufferPool → Option (BufferPool × Buffer)
    result r = elim r [ none ↦ none | some p ↦ some (p, pruned_page buf size active tmp) ]

    go :
        (r : Option BufferPool)
        → r ≡ free_dropped fuel pool buf size active n 0 n
        → result (free_dropped fuel pool buf size active n 0 n) ≡ some (pool', page')
        → (r ≡ some pool') × (pruned_page buf size active tmp ≡ page')
    go none e g = let h' : result none ≡ some (pool', page') = ap result e ∙ g in absurd (cc)
    go (some p) e g =
        let both = some-injective _ _ (ap result e ∙ g) in
        (
          ap (λ (r : BufferPool × Buffer). some r.0) both,
          ap (λ (r : BufferPool × Buffer). r.1) both,
        )

module _ (pages pages' : ℕ → Option Buffer) (size snap : ℕ) (active : List ℕ) where
  -- When `garry_chain_page_prune` ends, it has freed the overflow pages of exactly the records that it
  -- does not keep, one after the other; the pool is well formed, and shows every page that was not
  -- freed as before. From the page that the prune leaves, over any store of pages from which the
  -- values of the kept records read as before, a reader gets what it got before, if it is one of the
  -- transactions of the snapshot and created none of the records but perhaps the last of the page, or
  -- if the last record answers it whatever the older ones are, as when it can see an inline version
  -- there.
  pub prune_keeps_readers :
      (fuel : ℕ) (pool pool' : BufferPool) (buf page' tmp : Buffer) (n : ℕ)
      → IsPool pool
      → IsPage buf size n
      → chain_page_prune fuel pool buf size active tmp ≡ some (pool', page')
      → KeptReadSame pages pages' size snap active buf n
      → (is_listed active snap ≡ true × NoOwn pages size snap active buf n n)
        ⊎ ((m : ℕ) × (n ≡ suc m) × Answers pages size snap active (record_at buf m))
      → (free_records fuel pool (dropped buf active n 0 n) ≡ some pool')
        × OnlyListed pool (records_pages fuel pool (dropped buf active n 0 n)) pool'
        × (chain_page_find_visible pages' page' size snap active
            ≡ chain_page_find_visible pages buf size snap active)
  prune_keeps_readers fuel pool pool' buf page' tmp n inv page h same reader =
      let (freed, left) = prune_result fuel pool buf size active tmp n pool' page' page h in
      (
        freed,
        free_records-OnlyListed fuel pool (dropped buf active n 0 n) pool' inv freed,
        ap (λ p. chain_page_find_visible pages' p size snap active) (sym left)
            ∙ pruned_page-same pages pages' size snap active buf tmp n page same
            ∙ pruned_page_keeps_readers pages size snap active buf tmp n page reader,
      )
