-- ===== src/Chain/Prune/Loss.antt =====
-- A committed version that the prune of src/version_chain.c drops though later readers need it.
use garry.Base.{
  ℕ, suc, ◌+◌, ◌≤◌, ◌≡◌, refl, ◌∙◌, ap, List, [], ◌∷◌, ◌++◌, length, Option, none, some, Bool, true,
  false, ◌==◌, ◌||◌, arith, append-nil, le→ltb, ==_refl,
}
use garry.Base.Buffer.{Buffer}
use garry.Base.Word.{slt, sle}
use garry.Page.Layout.{IsPage, contents, record_at}
use garry.Chain.{is_visible, visible_step, chain_page_find_visible, entry_created, entry_deleted}
use garry.Chain.Prune.{is_listed, seen_by, keep_record, pruned_page}
use garry.Chain.Prune.Page.{kept}
use garry.Chain.Prune.Readers.{
  newest, newest-append, invisible_step, find_visible-newest, find_visible-pruned, keep_last,
}

-- No transaction of the snapshot sees a version that was created after all of them began.
seen_by-later :
    (snaps active : List ℕ) (created deleted : ℕ)
    → ((s : ℕ) → is_listed snaps s ≡ true → slt s created ≡ true)
    → seen_by snaps active created deleted ≡ false
unfolding seen_by is_listed
seen_by-later [] active created deleted later = refl
seen_by-later (s ∷ snaps) active created deleted later =
    let here : slt s created ≡ true = later s (rw (==_refl s) refl) in
    let more =
      seen_by-later snaps active created deleted (λ t at. later t (rw at (or_true (s == t)))) in
    let order : sle created s ≡ false = ground arith in rw (order, more) refl
  where
    or_true : (b : Bool) → (b || true) ≡ true
    or_true true = refl
    or_true false = refl

dropped :
    (active rec : List ℕ)
    → 8 ≤ length rec
    → ((s : ℕ) → is_listed active s ≡ true → slt s (entry_created rec) ≡ true)
    → keep_record active false rec ≡ false
unfolding keep_record
dropped active rec long later =
    rw
      (
        le→ltb (length rec) 8 long,
        seen_by-later active active (entry_created rec) (entry_deleted rec) later,
      )
      refl

kept_without :
    (buf : Buffer) (active : List ℕ) (m : ℕ)
    → keep_record active false (record_at buf m) ≡ false
    → kept buf active (suc (suc m)) (suc (suc m))
      ≡ kept buf active (suc (suc m)) m ++ (record_at buf (suc m) ∷ [])
unfolding kept
kept_without buf active m drop =
    let middle : (m + 1 == suc (suc m)) ≡ false = ground arith in
    let last : (suc m + 1 == suc (suc m)) ≡ true = ground arith in
    rw (middle, drop, append-nil, last, keep_last active (record_at buf (suc m))) refl

module _ (pages : ℕ → Option Buffer) (size snap : ℕ) (active : List ℕ) where
  -- Where the last record is one that a reader cannot see, as that of a transaction that is rolled
  -- back or not at its end, and the record before it was created after all transactions of the
  -- snapshot began, the prune drops that record: before the prune the reader's answer is that of the
  -- record if it can see it, and afterwards it is that of the older records that are kept.
  pub prune_drops_newest :
      (buf tmp : Buffer) (m : ℕ)
      → IsPage buf size (suc (suc m))
      → is_visible
          (entry_created (record_at buf (suc m)))
          (entry_deleted (record_at buf (suc m)))
          snap
          active
        ≡ false
      → 8 ≤ length (record_at buf m)
      → ((s : ℕ) → is_listed active s ≡ true → slt s (entry_created (record_at buf m)) ≡ true)
      → (chain_page_find_visible pages buf size snap active
          ≡ visible_step pages size snap active
              (some (record_at buf m))
              (newest pages size snap active none (contents buf m)))
        × (chain_page_find_visible pages (pruned_page buf size active tmp) size snap active
            ≡ newest pages size snap active none (kept buf active (suc (suc m)) m))
  unfolding contents newest
  prune_drops_newest buf tmp m page hidden long later = (
    find_visible-newest pages size snap active buf (suc (suc m)) page
        ∙ newest-append pages size snap active none (contents buf m ++ (record_at buf m ∷ []))
            (record_at buf (suc m) ∷ [])
        ∙ invisible_step pages size snap active (record_at buf (suc m)) _ hidden
        ∙ newest-append pages size snap active none (contents buf m) (record_at buf m ∷ []),
    find_visible-pruned pages size snap active buf tmp (suc (suc m)) page (omega arith)
        ∙ ap (newest pages size snap active none)
            (kept_without buf active m (dropped active (record_at buf m) long later))
        ∙ newest-append pages size snap active none (kept buf active (suc (suc m)) m)
            (record_at buf (suc m) ∷ [])
        ∙ invisible_step pages size snap active (record_at buf (suc m)) _ hidden,
  )
