-- ===== src/Wal/Replay.antt =====
-- Which records of the log the recovery applies.
use garry.Base.{
  ℕ, ◌≡◌, ◌⊎◌, refl, ◌∙◌, ap, Bool, true, false, not, ◌==◌, ◌&&◌, ◌||◌, if◌then◌else◌, List, [],
  ◌∷◌, ◌++◌, arith, inl, inr, Bool-cases, le→ltb, ltb→le, ltb→lt,
}
use garry.Base.Word.{add32, slt}
use garry.Base.Buffer.{Buffer}
use garry.Endian.{read_int32}
use garry.Wal.{kind_off, txid_off}
use garry.Wal.Recovery.{Engine, collect_record, is_committed, replay_record}
use garry.Wal.Passes.{collect_record-skip, collect_list, replay_list, recover_list}

-- A record that commits transaction `t`.
abbrev commits : Buffer → ℕ → Bool
commits rec t = read_int32 rec kind_off == 1 && read_int32 rec txid_off == t

-- The log has a commit of transaction `t`.
unfoldable pub has_commit : List Buffer → ℕ → Bool
has_commit [] t = false
has_commit (rec ∷ recs) t = commits rec t || has_commit recs t

is_committed-append :
    (ts us : List ℕ) (t : ℕ) → is_committed (ts ++ us) t ≡ (is_committed ts t || is_committed us t)
unfolding is_committed
is_committed-append [] us t = refl
is_committed-append (x ∷ ts) us t = ground (arith, is_committed-append ts us t)

collect_record-is_committed :
    (rec : Buffer) (state : List ℕ × ℕ) (t : ℕ)
    → is_committed (collect_record rec state).0 t ≡ (is_committed state.0 t || commits rec t)
unfolding collect_record is_committed
collect_record-is_committed rec state t = elim (Bool-cases (read_int32 rec kind_off == 1)) [
  | inl e ↦ rw e (is_committed-append state.0 (read_int32 rec txid_off ∷ []) t ∙ ground arith)
  | inr e ↦ rw e (ground arith)
]

-- The first pass finds the transactions that the log has a commit of.
collect_list-is_committed :
    (recs : List Buffer) (state : List ℕ × ℕ) (t : ℕ)
    → is_committed (collect_list recs state).0 t ≡ (is_committed state.0 t || has_commit recs t)
unfolding collect_list has_commit collect_record
collect_list-is_committed [] state t = ground arith
collect_list-is_committed (rec ∷ recs) state t =
    let h = collect_list-is_committed recs (collect_record rec state) t in
    let g = collect_record-is_committed rec state t in ground arith

collect_list-skip :
    (xs ys : List Buffer) (rec : Buffer) (state : List ℕ × ℕ)
    → (read_int32 rec kind_off == 1) ≡ false
    → collect_list (xs ++ (rec ∷ ys)) state ≡ collect_list (xs ++ ys) state
unfolding collect_list
collect_list-skip [] ys rec state h = ap (collect_list ys) (collect_record-skip rec state h)
collect_list-skip (x ∷ xs) ys rec state h = collect_list-skip xs ys rec (collect_record x state) h

module _ {E : Type 0} (eng : Engine E) where
  replay_record-uncommitted :
      (committed : List ℕ) (rec : Buffer) (e : E)
      → is_committed committed (read_int32 rec txid_off) ≡ false
      → replay_record eng committed rec e ≡ (e, true)
  unfolding replay_record
  replay_record-uncommitted committed rec e h =
      elim (Bool-cases (not (read_int32 rec kind_off == 0) && not (read_int32 rec kind_off == 4))) [
        | inl k ↦ rw k refl
        | inr k ↦ rw (k, h) refl
      ]

  -- The pass over the records that follow one.
  abbrev after_record : List ℕ → List Buffer → E × Bool → E × Bool
  after_record committed recs (e, ok) = elim ok [
    | false ↦ (e, false)
    | true ↦ replay_list eng committed recs e
  ]

  replay_list-uncommitted :
      (committed : List ℕ) (xs ys : List Buffer) (rec : Buffer) (e : E)
      → is_committed committed (read_int32 rec txid_off) ≡ false
      → replay_list eng committed (xs ++ (rec ∷ ys)) e ≡ replay_list eng committed (xs ++ ys) e
  unfolding replay_list
  replay_list-uncommitted committed [] ys rec e h =
      ap (after_record committed ys) (replay_record-uncommitted committed rec e h)
  replay_list-uncommitted committed (x ∷ xs) ys rec e h =
      go (replay_record eng committed x e) (λ e'. replay_list-uncommitted committed xs ys rec e' h)
    where
      go :
          (r : E × Bool)
          → ((e' : E)
              → replay_list eng committed (xs ++ (rec ∷ ys)) e'
                ≡ replay_list eng committed (xs ++ ys) e')
          → after_record committed (xs ++ (rec ∷ ys)) r ≡ after_record committed (xs ++ ys) r
      go (e', false) next = refl
      go (e', true) next = next e'

  -- A record of a transaction that the log has no commit of is ignored: the recovery gives the same
  -- engine, the same next transaction and the same result with the record and without it.
  pub recover_list-uncommitted :
      (xs ys : List Buffer) (rec : Buffer) (e : E) (next_txid : ℕ)
      → (read_int32 rec kind_off == 1) ≡ false
      → has_commit (xs ++ ys) (read_int32 rec txid_off) ≡ false
      → recover_list eng (xs ++ (rec ∷ ys)) e next_txid ≡ recover_list eng (xs ++ ys) e next_txid
  unfolding recover_list is_committed
  recover_list-uncommitted xs ys rec e next_txid kind none_of =
      let same = collect_list-skip xs ys rec ([], next_txid) kind in
      let state = collect_list (xs ++ ys) ([], next_txid) in
      let absent : is_committed state.0 (read_int32 rec txid_off) ≡ false =
        collect_list-is_committed (xs ++ ys) ([], next_txid) (read_int32 rec txid_off) ∙ none_of in
      ap (finish (xs ++ (rec ∷ ys)) e) same
      ∙ ap (λ (r : E × Bool). (r.0, state.1, r.1))
          (replay_list-uncommitted state.0 xs ys rec e absent)
    where
      finish : List Buffer → E → List ℕ × ℕ → E × ℕ × Bool
      finish recs e (committed, next) =
          let (e', ok) = replay_list eng committed recs e in (e', next, ok)

-- The larger of two numbers in signed order is not below a third that one of them is not below.
slt_larger :
    (x y bound : ℕ)
    → (slt x bound ≡ false) ⊎ (slt y bound ≡ false)
    → slt (if slt x y then y else x) bound ≡ false
slt_larger x y bound h = elim (Bool-cases (slt x y)) [
  | inl c ↦ rw c (above c h)
  | inr c ↦ rw c (below c h)
]
  where
    above : slt x y ≡ true → (slt x bound ≡ false) ⊎ (slt y bound ≡ false) → slt y bound ≡ false
    above c (inl g) = le→ltb _ _ (omega (arith, ltb→lt _ _ c, ltb→le _ _ g))
    above c (inr g) = g

    below : slt x y ≡ false → (slt x bound ≡ false) ⊎ (slt y bound ≡ false) → slt x bound ≡ false
    below c (inl g) = g
    below c (inr g) = le→ltb _ _ (omega (arith, ltb→le _ _ c, ltb→le _ _ g))

collect_record-next :
    (rec : Buffer) (state : List ℕ × ℕ) (bound : ℕ)
    → slt state.1 bound ≡ false
    → slt (collect_record rec state).1 bound ≡ false
unfolding collect_record
collect_record-next rec state bound h = elim (Bool-cases (read_int32 rec kind_off == 1)) [
  | inl c ↦ rw c (slt_larger state.1 (add32 (read_int32 rec txid_off) 1) bound (inl h))
  | inr c ↦ rw c h
]

collect_list-next :
    (recs : List Buffer) (state : List ℕ × ℕ) (bound : ℕ)
    → slt state.1 bound ≡ false
    → slt (collect_list recs state).1 bound ≡ false
unfolding collect_list
collect_list-next [] state bound h = h
collect_list-next (rec ∷ recs) state bound h =
    collect_list-next recs (collect_record rec state) bound (collect_record-next rec state bound h)

-- The next transaction after the first pass is not below the one behind a committed transaction, in
-- signed order.
pub has_commit-next :
    (recs : List Buffer) (state : List ℕ × ℕ) (t : ℕ)
    → has_commit recs t ≡ true
    → slt (collect_list recs state).1 (add32 t 1) ≡ false
unfolding collect_list has_commit collect_record
has_commit-next [] state t h = absurd (cc)
has_commit-next (rec ∷ recs) state t h = elim (Bool-cases (commits rec t)) [
  | inl c ↦ collect_list-next recs (collect_record rec state) (add32 t 1) (own c)
  | inr c ↦ has_commit-next recs (collect_record rec state) t (rw c at h)
]
  where
    own : commits rec t ≡ true → slt (collect_record rec state).1 (add32 t 1) ≡ false
    own c =
        let kind : (read_int32 rec kind_off == 1) ≡ true = ground arith in
        let txid : read_int32 rec txid_off ≡ t = ground arith in
        rw (collect_record, kind, txid)
          (slt_larger state.1 (add32 t 1) (add32 t 1) (inr (le→ltb _ _ (omega arith))))
