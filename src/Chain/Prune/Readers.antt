-- ===== src/Chain/Prune/Readers.antt =====
-- What the prune of src/version_chain.c changes for the readers.
use garry.Base.{
  ℕ, zero, suc, ◌+◌, ◌≤◌, ◌<◌, ◌≡◌, ◌≢◌, ◌⊎◌, refl, sym, ◌∙◌, ap, ap₂, subst, List, [], ◌∷◌, ◌++◌,
  length, Option, none, some, Bool, true, false, not, ltb, ◌==◌, ◌&&◌, ◌||◌, if◌then◌else◌, arith,
  inl, inr, Bool-cases, append-nil, ==→eq, ==→ne,
}
use garry.Base.Buffer.{Buffer}
use garry.Base.Word.{slt, sle}
use garry.Page.{page_record_count}
use garry.Page.Layout.{IsPage, contents, record_at, page_init-IsPage}
use garry.Chain.{
  is_visible, created_by_other, visible_step, find_visible_below, chain_page_find_visible,
  chain_page_init, entry_created, entry_deleted,
}
use garry.Chain.Prune.{is_listed, seen_by, keep_record, pruned_page}
use garry.Chain.Prune.Page.{kept, page_get_here, copy_kept-Copy}

-- `t` is one of the transactions.
abbrev Among : List ℕ → ℕ → Type 0
Among active t = is_listed active t ≡ true

is_listed-created_by_other :
    (active : List ℕ) (created snap : ℕ)
    → created ≢ snap
    → created_by_other active created snap ≡ is_listed active created
unfolding created_by_other is_listed
is_listed-created_by_other [] created snap ne = refl
is_listed-created_by_other (a ∷ active) created snap ne =
    let more = is_listed-created_by_other active created snap ne in ground arith

pub keep_last : (active rec : List ℕ) → keep_record active true rec ≡ true
unfolding keep_record
keep_last active rec = go (ltb (length rec) 8)
  where
    go :
        (b : Bool)
        → (if b || true
            then true
            else seen_by active active (entry_created rec) (entry_deleted rec))
          ≡ true
    go true = refl
    go false = refl

-- The test of the prune for one transaction.
abbrev sees : List ℕ → ℕ → ℕ → ℕ → Bool
sees active created deleted snap =
    sle created snap
    && (not (not (deleted == 0) && sle deleted snap) && not (is_listed active created))

sees-is_visible :
    (active : List ℕ) (created deleted snap : ℕ)
    → created ≢ snap
    → is_visible created deleted snap active ≡ true
    → sees active created deleted snap ≡ true
unfolding is_visible
sees-is_visible active created deleted snap ne v =
    let other : created_by_other active created snap ≡ is_listed active created =
      is_listed-created_by_other active created snap ne in
    let order : sle created snap ≡ not (slt snap created) = ground arith in rw (order, ← other) v

-- A version that a reader of the snapshot can see, other than its own, is seen by the snapshot.
seen_by-is_visible :
    (snaps active : List ℕ) (created deleted snap : ℕ)
    → is_listed snaps snap ≡ true
    → created ≢ snap
    → is_visible created deleted snap active ≡ true
    → seen_by snaps active created deleted ≡ true
unfolding seen_by is_listed
seen_by-is_visible [] active created deleted snap at ne v = absurd (cc)
seen_by-is_visible (s ∷ snaps) active created deleted snap at ne v = elim (Bool-cases (s == snap)) [
  | inl e ↦
      let same : snap ≡ s = sym (==→eq s snap e) in
      let seen : sees active created deleted s ≡ true =
        subst (λ t. sees active created deleted t ≡ true) same
          (sees-is_visible active created deleted snap ne v) in
      rw seen refl
  | inr e ↦
      let at' : is_listed snaps snap ≡ true = rw e at at in
      let more = seen_by-is_visible snaps active created deleted snap at' ne v in
      rw more (or_true (sees active created deleted s))
]
  where
    or_true : (b : Bool) → (b || true) ≡ true
    or_true true = refl
    or_true false = refl

-- The answer of the records, the newest of which is the last.
unfoldable pub newest :
    (ℕ → Option Buffer) → ℕ → ℕ → List ℕ → Option (List ℕ) → List (List ℕ) → Option (List ℕ)
newest pages size snap active older [] = older
newest pages size snap active older (rec ∷ recs) =
    newest pages size snap active (visible_step pages size snap active (some rec) older) recs

module _ (pages : ℕ → Option Buffer) (size snap : ℕ) (active : List ℕ) where
  pub newest-append :
      (older : Option (List ℕ)) (xs ys : List (List ℕ))
      → newest pages size snap active older (xs ++ ys)
        ≡ newest pages size snap active (newest pages size snap active older xs) ys
  unfolding newest
  newest-append older [] ys = refl
  newest-append older (x ∷ xs) ys =
      newest-append (visible_step pages size snap active (some x) older) xs ys

  -- The search of a page is that of its records.
  find_visible_below-newest :
      (buf : Buffer) (n k : ℕ)
      → IsPage buf size n
      → k ≤ n
      → find_visible_below pages buf size snap active k
        ≡ newest pages size snap active none (contents buf k)
  unfolding find_visible_below contents newest
  find_visible_below-newest buf n zero page le = refl
  find_visible_below-newest buf n (suc k) page le =
      ap₂ (visible_step pages size snap active) (page_get_here buf size n k page (omega arith))
        (find_visible_below-newest buf n k page (omega arith))
      ∙ sym (newest-append none (contents buf k) (record_at buf k ∷ []))

  pub find_visible-newest :
      (buf : Buffer) (n : ℕ)
      → IsPage buf size n
      → chain_page_find_visible pages buf size snap active
        ≡ newest pages size snap active none (contents buf n)
  unfolding chain_page_find_visible page_record_count
  find_visible-newest buf n page =
      rw page.count (find_visible_below-newest buf n n page (omega arith))

  -- A record that the reader cannot see does not answer it.
  pub invisible_step :
      (rec : List ℕ) (older : Option (List ℕ))
      → is_visible (entry_created rec) (entry_deleted rec) snap active ≡ false
      → visible_step pages size snap active (some rec) older ≡ older
  unfolding visible_step
  invisible_step rec older v = rw v (same (ltb (length rec) 14))
    where
      same : (b : Bool) → (if b then older else older) ≡ older
      same true = refl
      same false = refl

  -- A record that is dropped, and that the reader did not create, does not answer the reader.
  dropped_step :
      (rec : List ℕ) (older : Option (List ℕ))
      → is_listed active snap ≡ true
      → entry_created rec ≢ snap
      → keep_record active false rec ≡ false
      → visible_step pages size snap active (some rec) older ≡ older
  unfolding keep_record
  dropped_step rec older at ne drop =
      elim (Bool-cases (is_visible (entry_created rec) (entry_deleted rec) snap active)) [
        | inl v ↦
            let seen : seen_by active active (entry_created rec) (entry_deleted rec) ≡ true =
              seen_by-is_visible active active (entry_created rec) (entry_deleted rec) snap at ne
                v in
            let gone : (if ltb (length rec) 8 || false then true else true) ≡ false =
              rw seen at drop in
            let stays = kept_anyway (ltb (length rec) 8) in absurd (cc)
        | inr v ↦ invisible_step rec older v
      ]
    where
      kept_anyway : (b : Bool) → (if b || false then true else true) ≡ true
      kept_anyway true = refl
      kept_anyway false = refl

  -- The reader created none of the first `k` records but the last of the page.
  abbrev pub NoOwn : Buffer → ℕ → ℕ → Type 0
  NoOwn buf n k = (i : ℕ) → i < k → i + 1 < n → entry_created (record_at buf i) ≢ snap

  kept-newest :
      (buf : Buffer) (n k : ℕ)
      → is_listed active snap ≡ true
      → k ≤ n
      → NoOwn buf n k
      → newest pages size snap active none (kept buf active n k)
        ≡ newest pages size snap active none (contents buf k)
  unfolding kept contents newest
  kept-newest buf n zero at le own = refl
  kept-newest buf n (suc k) at le own =
      let before = kept-newest buf n k at (omega arith) (λ i lt. own i (omega arith)) in
      let all = newest-append none (contents buf k) (record_at buf k ∷ []) in
      elim (Bool-cases (keep_record active (k + 1 == n) (record_at buf k))) [
        | inl e ↦
            rw e (newest-append none (kept buf active n k) (record_at buf k ∷ []))
            ∙ ap (visible_step pages size snap active (some (record_at buf k))) before
            ∙ sym all
        | inr e ↦ elim (Bool-cases (k + 1 == n)) [
          | inl last ↦
              let gone : keep_record active true (record_at buf k) ≡ false = rw last at e in
              let stays = keep_last active (record_at buf k) in absurd (cc)
          | inr mid ↦
              rw (e, append-nil)
                (before
                  ∙ sym (
                      dropped_step (record_at buf k)
                        (newest pages size snap active none (contents buf k)) at
                        (own k (omega arith) (omega (arith, ==→ne (k + 1) n mid))) (rw mid at e))
                  ∙ sym all)
        ]
      ]

  -- The answer of a page after the prune is that of the records that are kept.
  pub find_visible-pruned :
      (buf tmp : Buffer) (n : ℕ)
      → IsPage buf size n
      → 2 ≤ n
      → chain_page_find_visible pages (pruned_page buf size active tmp) size snap active
        ≡ newest pages size snap active none (kept buf active n n)
  unfolding pruned_page page_record_count chain_page_init
  find_visible-pruned buf tmp n page many =
      let empty = page_init-IsPage tmp 4 0 size page.size_min page.size_max in
      let (copied, done, (is_page, same)) =
        copy_kept-Copy buf size n active page n (chain_page_init tmp size) (omega arith) empty in
      let more : sle n 1 ≡ false = ground (arith, page.few) in
      rw (page.count, more, done, pruned_page)
        (find_visible-newest copied (length (kept buf active n n)) is_page
          ∙ ap (newest pages size snap active none) same)

  -- The last record answers the reader whatever stands before it.
  abbrev pub Answers : List ℕ → Type 0
  Answers rec =
      (older : Option (List ℕ))
      → visible_step pages size snap active (some rec) older
        ≡ visible_step pages size snap active (some rec) none

  kept-last :
      (buf : Buffer) (m : ℕ)
      → Answers (record_at buf m)
      → newest pages size snap active none (kept buf active (suc m) (suc m))
        ≡ newest pages size snap active none (contents buf (suc m))
  unfolding kept contents newest
  kept-last buf m answers =
      let last : (m + 1 == suc m) ≡ true = ground arith in
      rw (last, keep_last active (record_at buf m))
        (newest-append none (kept buf active (suc m) m) (record_at buf m ∷ [])
          ∙ answers (newest pages size snap active none (kept buf active (suc m) m))
          ∙ sym (answers (newest pages size snap active none (contents buf m)))
          ∙ sym (newest-append none (contents buf m) (record_at buf m ∷ [])))

  pruned_same :
      (buf tmp : Buffer) (n : ℕ)
      → IsPage buf size n
      → (2 ≤ n
          → newest pages size snap active none (kept buf active n n)
            ≡ newest pages size snap active none (contents buf n))
      → chain_page_find_visible pages (pruned_page buf size active tmp) size snap active
        ≡ chain_page_find_visible pages buf size snap active
  unfolding pruned_page page_record_count
  pruned_same buf tmp n page same = elim (Bool-cases (sle n 1)) [
    | inl e ↦ rw (page.count, e) refl
    | inr e ↦
        let many : 2 ≤ n = ground (arith, page.few) in
        find_visible-pruned buf tmp n page many ∙ same many ∙ sym (find_visible-newest buf n page)
  ]

  -- From the page that the prune leaves, over the same store of pages, a reader gets what it got
  -- before, if it is one of the transactions of the snapshot and created none of the records but
  -- perhaps the last of the page, or if the last record answers it whatever the older ones are.
  pub pruned_page_keeps_readers :
      (buf tmp : Buffer) (n : ℕ)
      → IsPage buf size n
      → (is_listed active snap ≡ true × NoOwn buf n n)
        ⊎ ((m : ℕ) × (n ≡ suc m) × Answers (record_at buf m))
      → chain_page_find_visible pages (pruned_page buf size active tmp) size snap active
        ≡ chain_page_find_visible pages buf size snap active
  pruned_page_keeps_readers buf tmp n page (inl (at, own)) =
      pruned_same buf tmp n page (λ many. kept-newest buf n n at (omega arith) own)
  pruned_page_keeps_readers buf tmp n page (inr (m, e, answers)) =
      pruned_same buf tmp n page (λ many.
        subst
          (λ k.
            newest pages size snap active none (kept buf active k k)
            ≡ newest pages size snap active none (contents buf k))
          (sym e) (kept-last buf m answers))
