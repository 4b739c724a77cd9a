-- ===== src/Chain/Prune/Page.antt =====
-- The page that the prune of src/version_chain.c leaves holds the records that are kept, in order.
use garry.Base.{
  ℕ, zero, suc, ◌+◌, ◌^◌, ◌≤◌, ◌<◌, ◌≡◌, refl, sym, ◌∙◌, ap, subst, List, [], ◌∷◌, ◌++◌, length,
  some, true, ◌==◌, if◌then◌else◌, arith, inl, inr, Bool-cases, length-append, append-nil, lt→ltb,
}
use native.Mathlib.Decide.{ℕ_discrete}
use garry.Base.Buffer.{Buffer}
use garry.Endian.{read_int32}
use garry.Page.{page_get, page_insert, off_free_end}
use garry.Page.Layout.{IsPage, contents, record_at, total, total-snoc}
use garry.Page.Insert.{page_insert_appends, fits}
use garry.Page.Get.{page_get-contents, get_elem?-contents}
use garry.Chain.Prune.{keep_record, keep_slot, copy_kept}

-- The records of the first `k` slots that are kept.
unfoldable pub kept : Buffer → List ℕ → ℕ → ℕ → List (List ℕ)
kept buf active count zero = []
kept buf active count (suc k) =
    kept buf active count k
    ++ (if keep_record active (k + 1 == count) (record_at buf k) then record_at buf k ∷ [] else [])

pub page_get_here :
    (buf : Buffer) (size n i : ℕ)
    → IsPage buf size n
    → i < n
    → page_get buf i size ≡ some (record_at buf i)
page_get_here buf size n i page lt =
    page_get-contents buf size n i page (omega (arith, page.few))
    ∙ get_elem?-contents buf n i
    ∙ rw (lt→ltb i n lt) refl

pub keep_slot_here :
    (buf : Buffer) (size n i count : ℕ) (active : List ℕ)
    → IsPage buf size n
    → i < n
    → keep_slot buf size active count i ≡ keep_record active (i + 1 == count) (record_at buf i)
unfolding keep_slot
keep_slot_here buf size n i count active page lt =
    rw (page_get_here buf size n i page lt, keep_slot) refl

total-kept :
    (buf : Buffer) (active : List ℕ) (count k : ℕ)
    → total (kept buf active count k) ≤ total (contents buf k)
unfolding kept contents
total-kept buf active count zero = omega arith
total-kept buf active count (suc k) =
    elim (Bool-cases (keep_record active (k + 1 == count) (record_at buf k))) [
      | inl e ↦ rw e (
          omega (
            arith,
            total-kept buf active count k,
            total-snoc (contents buf k) (record_at buf k),
            total-snoc (kept buf active count k) (record_at buf k),
          ))
      | inr e ↦
          rw (e, append-nil)
            (omega
              (arith, total-kept buf active count k, total-snoc (contents buf k) (record_at buf k)))
    ]

pub length-kept :
    (buf : Buffer) (active : List ℕ) (count k : ℕ) → length (kept buf active count k) ≤ k
unfolding kept
length-kept buf active count zero = omega arith
length-kept buf active count (suc k) =
    elim (Bool-cases (keep_record active (k + 1 == count) (record_at buf k))) [
      | inl e ↦ rw e (
          omega (
            arith,
            length-kept buf active count k,
            length-append (kept buf active count k) (record_at buf k ∷ []),
          ))
      | inr e ↦ rw (e, append-nil) (omega (arith, length-kept buf active count k))
    ]

total-contents : (buf : Buffer) (k n : ℕ) → k ≤ n → total (contents buf k) ≤ total (contents buf n)
unfolding contents
total-contents buf k zero le =
    let e : k ≡ 0 = omega arith in
    subst (λ m. total (contents buf m) ≤ total []) (sym e) (omega arith)
total-contents buf k (suc n) le = elim (ℕ_discrete k (suc n)) [
  | yes e ↦ subst (λ m. total (contents buf k) ≤ total (contents buf m)) e (omega arith)
  | no ne ↦ omega (
    arith,
    total-contents buf k n (omega (arith, ne)),
    total-snoc (contents buf n) (record_at buf n),
  )
]

module _ (buf : Buffer) (size n : ℕ) (active : List ℕ) (page : IsPage buf size n) where
  -- A page of the records of the first `k` slots that are kept.
  abbrev Copy : ℕ → Buffer → Type 0
  Copy k copied =
      IsPage copied size (length (kept buf active n k))
      × (contents copied (length (kept buf active n k)) ≡ kept buf active n k)

  Copy-step :
      (k : ℕ) (copied : Buffer)
      → k < n
      → Copy k copied
      → keep_record active (k + 1 == n) (record_at buf k) ≡ true
      → (i : ℕ) × (copied' : Buffer) × (page_insert copied (record_at buf k) ≡ some (i, copied'))
        × Copy (suc k) copied'
  unfolding kept fits contents
  Copy-step k copied lt (is_page, same) keep =
      let m : ℕ = length (kept buf active n k) in
      let t = total-kept buf active n k in
      let u = total-contents buf (suc k) n (omega arith) in
      let v = total-snoc (contents buf k) (record_at buf k) in
      let w : total (contents copied m) ≡ total (kept buf active n k) = ap total same in
      let small : length (record_at buf k) < 2 ^ 31 =
        omega (arith, t, u, v, page.packed, page.size_max) in
      let room : fits m (read_int32 copied off_free_end) (length (record_at buf k)) ≡ true =
        ground (
          arith,
          t,
          u,
          v,
          w,
          page.packed,
          page.room,
          page.few,
          is_page.packed,
          length-kept buf active n k,
        ) in
      let (copied', inserted, is_page', same') =
        page_insert_appends is_page (record_at buf k) small room in
      let len : m + 1 ≡ length (kept buf active n k ++ (record_at buf k ∷ [])) =
        omega (arith, length-append (kept buf active n k) (record_at buf k ∷ [])) in
      (
        m,
        copied',
        inserted,
        rw keep (
          subst (λ l. IsPage copied' size l) len is_page',
          subst (λ l. contents copied' l ≡ kept buf active n k ++ (record_at buf k ∷ [])) len
              (same' ∙ ap (λ l. l ++ (record_at buf k ∷ [])) same),
        ),
      )

  pub copy_kept-Copy :
      (k : ℕ) (tmp : Buffer)
      → k ≤ n
      → IsPage tmp size 0
      → (copied : Buffer) × (copy_kept buf size active n k tmp ≡ some copied) × Copy k copied
  unfolding copy_kept kept contents
  copy_kept-Copy zero tmp le empty = (tmp, refl, (empty, refl))
  copy_kept-Copy (suc k) tmp le empty =
      let (copied, done, copy) = copy_kept-Copy k tmp (omega arith) empty in
      let here = page_get_here buf size n k page (omega arith) in
      let slot = keep_slot_here buf size n k n active page (omega arith) in
      elim (Bool-cases (keep_record active (k + 1 == n) (record_at buf k))) [
        | inl e ↦
            let (i, copied', inserted, copy') = Copy-step k copied (omega arith) copy e in
            (copied', rw (done, slot, e, here, inserted, copy_kept) refl, copy')
        | inr e ↦ (copied, rw (done, slot, e, copy_kept) refl, rw (e, append-nil) copy)
      ]
