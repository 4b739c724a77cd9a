-- ===== src/Pool/Load.antt =====
-- Bringing a page into a slot: the victim is written first, and the store that the pool shows is the
-- same as before.
use garry.Base.{
  ℕ, ◌<◌, ◌≡◌, ◌≢◌, refl, sym, ◌∙◌, ap, subst, none, some, Bool, true, false, ◌&&◌, ◌==◌,
  if◌then◌else◌, arith, inl, inr, Bool-cases, ==_refl, ne→==,
}
use mathlib.Core.Option.{some-injective}
use native.Mathlib.Decide.{ℕ_discrete}
use garry.Base.Buffer.{Buffer}
use garry.Base.Word.{add32}
use garry.Pool.{
  File, zero_page, Slot, BufferPool, holds, find_slot, file_read_page, file_write_page, write_back,
  fill_slot, fresh_slot,
}
use garry.Pool.Find.{
  IsPool, IsUnique, view, view-here, view-absent, find_slot-some, find_slot-none, find_slot-cases,
}

abbrev written_file : File → Slot → File
written_file file s = record file {
  pages = λ q. if q == s.page_id then some s.page else file.pages q;
}

read_written :
    (file : File) (s : Slot) (q : ℕ)
    → file_read_page (written_file file s) q
      ≡ (if q == s.page_id then s.page else file_read_page file q)
unfolding file_read_page
read_written file s q = go (q == s.page_id)
  where
    go :
        (b : Bool)
        → elim (if b then some s.page else file.pages q) [ none ↦ zero_page | some page ↦ page ]
          ≡ (if b then s.page else elim (file.pages q) [ none ↦ zero_page | some page ↦ page ])
    go true = refl
    go false = refl

-- What a write of the victim leaves in the file.
pub write_back-read :
    (file : File) (s : Slot) (needed : Bool) (file' : File) (q : ℕ)
    → write_back file s needed ≡ some file'
    → file_read_page file' q ≡ (if needed && q == s.page_id then s.page else file_read_page file q)
unfolding write_back file_write_page file_read_page
write_back-read file s false file' q h = ground arith
write_back-read file s true file' q h = elim (Bool-cases (file.writable s.page_id)) [
  | inl e ↦
      let written : some (written_file file s) ≡ some file' = rw e at h in
      let same : written_file file s ≡ file' = some-injective (written_file file s) file' written in
      subst
        (λ (f : File).
          file_read_page f q ≡ (if q == s.page_id then s.page else file_read_page file q))
        same (read_written file s q)
  | inr e ↦ let h' : none ≡ some file' = rw e at h in cc
]

module _ (pool : BufferPool) (pid v : ℕ) (file : File) (page : Buffer) (inv : IsPool pool)
    (gone : find_slot pool pid ≡ none) (lt : v < pool.capacity)
    (wrote : write_back pool.file (pool.slots v) ((pool.slots v).loaded && (pool.slots v).dirty)
      ≡ some file)
    (content : file_read_page file pid ≡ page) where
  abbrev pub after : BufferPool
  after = fill_slot pool file v page pid

  holds-after :
      (j q : ℕ) → holds (after.slots j) q ≡ (if j == v then pid == q else holds (pool.slots j) q)
  holds-after j q = ground arith

  new_holds : (q : ℕ) → holds (after.slots v) q ≡ true → q ≡ pid
  new_holds q h =
      let h' : (pid == q) ≡ true = sym (holds-after v q ∙ rw (==_refl v) refl) ∙ h in ground arith

  old_holds : (j q : ℕ) → j ≢ v → holds (after.slots j) q ≡ true → holds (pool.slots j) q ≡ true
  old_holds j q ne h = sym (holds-after j q ∙ rw (ne→== j v ne) refl) ∙ h

  nowhere : (j q : ℕ) → j < pool.capacity → holds (pool.slots j) q ≡ true → q ≢ pid
  nowhere j q hi h e =
      let here : holds (pool.slots j) pid ≡ true = subst (λ n. holds (pool.slots j) n ≡ true) e h in
      let not_here : holds (pool.slots j) pid ≡ false = find_slot-none pool pid gone j hi in cc

  pub fill_slot-IsUnique : IsUnique after
  fill_slot-IsUnique i j q hi hj at_i at_j = elim (ℕ_discrete i v) [
    | yes e ↦ elim (ℕ_discrete j v) [
      | yes f ↦ e ∙ sym f
      | no f ↦ absurd (
          nowhere j q hj (old_holds j q f at_j)
            (new_holds q (subst (λ n. holds (after.slots n) q ≡ true) e at_i)))
    ]
    | no e ↦ elim (ℕ_discrete j v) [
      | yes f ↦ absurd (
          nowhere i q hi (old_holds i q e at_i)
            (new_holds q (subst (λ n. holds (after.slots n) q ≡ true) f at_j)))
      | no f ↦ inv.unique i j q hi hj (old_holds i q e at_i) (old_holds j q f at_j)
    ]
  ]

  -- The write of the victim changes what the file holds under the victim's id at most.
  untouched :
      (j q : ℕ)
      → j < pool.capacity
      → j ≢ v
      → holds (pool.slots j) q ≡ true
      → file_read_page file q ≡ file_read_page pool.file q
  untouched j q hj ne h =
      write_back-read pool.file (pool.slots v) ((pool.slots v).loaded && (pool.slots v).dirty) file
        q wrote
      ∙ elim (Bool-cases
          (((pool.slots v).loaded && (pool.slots v).dirty) && q == (pool.slots v).page_id)) [
            | inl e ↦ absurd (ne (inv.unique j v q hj lt h (ground arith)))
            | inr e ↦ rw e refl
          ]

  pub slot_new : (i : ℕ) → i ≡ v → after.slots i ≡ fresh_slot page pid (add32 pool.access_counter 1)
  slot_new i e = rw (e, ==_refl v) refl

  pub slot_old : (i : ℕ) → i ≢ v → after.slots i ≡ pool.slots i
  slot_old i ne = rw (ne→== i v ne) refl

  pub fill_slot-IsPool : IsPool after
  fill_slot-IsPool = record {
    unique = fill_slot-IsUnique;
    clean = λ i q hi at_i d. elim (ℕ_discrete i v) [
      | yes e ↦
          ap (file_read_page file)
            (new_holds q (subst (λ n. holds (after.slots n) q ≡ true) e at_i))
          ∙ content
          ∙ sym (ap (λ (s : Slot). s.page) (slot_new i e))
      | no e ↦
          untouched i q hi e (old_holds i q e at_i)
          ∙ inv.clean i q hi (old_holds i q e at_i)
              (sym (ap (λ (s : Slot). s.dirty) (slot_old i e)) ∙ d)
          ∙ sym (ap (λ (s : Slot). s.page) (slot_old i e))
    ];
  }

  pub here : holds (after.slots v) pid ≡ true
  here = holds-after v pid ∙ rw (==_refl v, ==_refl pid) refl

  pub fill_slot-view_self : view after pid ≡ page
  fill_slot-view_self =
      view-here after pid v fill_slot-IsUnique lt here ∙ ap (λ (s : Slot). s.page) (slot_new v refl)

  abbrev needed : Bool
  needed = (pool.slots v).loaded && (pool.slots v).dirty

  no_longer :
      (q : ℕ)
      → q ≢ pid
      → ((j : ℕ) → j < pool.capacity → j ≢ v → holds (pool.slots j) q ≡ false)
      → view after q ≡ file_read_page file q
  no_longer q ne others = view-absent after q λ j hj. elim (ℕ_discrete j v) [
    | yes e ↦ holds-after j q ∙ rw (e, ==_refl v, ne→== pid q (λ f. ne (sym f))) refl
    | no e ↦ holds-after j q ∙ rw (ne→== j v e) (others j hj e)
  ]

  -- The page of the victim is in the file now.
  victim-view :
      (q : ℕ) → q ≢ pid → holds (pool.slots v) q ≡ true → view after q ≡ (pool.slots v).page
  victim-view q ne h =
      no_longer q ne (λ j hj e. elim (Bool-cases (holds (pool.slots j) q)) [
        | inl f ↦ absurd (e (inv.unique j v q hj lt f h))
        | inr f ↦ f
      ])
      ∙ write_back-read pool.file (pool.slots v) needed file q wrote
      ∙ elim (Bool-cases (pool.slots v).dirty) [
        | inl d ↦
            let on : (needed && q == (pool.slots v).page_id) ≡ true = ground arith in rw on refl
        | inr d ↦
            let off : (needed && q == (pool.slots v).page_id) ≡ false = ground arith in
            rw off (inv.clean v q lt h d)
      ]

  pub fill_slot-view : (q : ℕ) → q ≢ pid → view after q ≡ view pool q
  fill_slot-view q ne = elim (find_slot-cases pool q) [
    | inl (k, e) ↦
        let (hk, found) = find_slot-some pool q k e in
        elim (ℕ_discrete k v) [
          | yes f ↦
              let at_v : holds (pool.slots v) q ≡ true =
                subst (λ n. holds (pool.slots n) q ≡ true) f found in
              victim-view q ne at_v ∙ sym (view-here pool q v inv.unique lt at_v)
          | no f ↦
              view-here after q k fill_slot-IsUnique hk (holds-after k q ∙ rw (ne→== k v f) found)
              ∙ ap (λ (s : Slot). s.page) (slot_old k f)
              ∙ sym (view-here pool q k inv.unique hk found)
        ]
    | inr e ↦
        no_longer q ne (λ j hj f. find_slot-none pool q e j hj)
        ∙ write_back-read pool.file (pool.slots v) needed file q wrote
        ∙ (let not_here : holds (pool.slots v) q ≡ false = find_slot-none pool q e v lt in
            let off : (needed && q == (pool.slots v).page_id) ≡ false = ground arith in
            rw off (sym (view-absent pool q (find_slot-none pool q e))))
  ]
