-- ===== src/Txn/Status.antt =====
-- Which transactions are active, and whose writes are hidden, after each operation.
use garry.Base.{
  ℕ, ◌+◌, ◌*◌, ◌≤◌, ◌<◌, ◌≡◌, ◌≢◌, List, [], ◌∷◌, ◌++◌, length, Option, none, some, Bool, true,
  false, ◌==◌, ◌&&◌, ◌||◌, ltb, not, if◌then◌else◌, arith, refl,
}
use garry.Txn.{
  TxnInfo, EngineHandle, active, rolled_back, live_count, mvcc_begin, find_txn, remove_active_txn,
  mvcc_commit, mark_rolled_back, mvcc_rollback, txn_is_active,
}
use garry.Txn.Shape.{Ascends, IsEngine, rollback-IsEngine}
use garry.Chain.{created_by_other, is_visible}
use garry.Base.Word.{slt}

-- The ids that `eng->active_txns` holds, as the version chain reads them.
unfoldable pub active_ids : List TxnInfo → List ℕ
active_ids [] = []
active_ids (t ∷ ts) = t.txid ∷ active_ids ts

abbrev pub listed : Option TxnInfo → Bool
listed none = false
listed (some t) = true

-- Whether `txn` is in the list, rolled back or not.
unfoldable pub is_listed : EngineHandle → ℕ → Bool
is_listed eng txn = listed (find_txn eng.active_txns txn)

find_txn-above :
    (lo : ℕ) (ts : List TxnInfo) (hi txn : ℕ) → Ascends lo ts hi → txn < lo → find_txn ts txn ≡ none
unfolding find_txn
find_txn-above lo [] hi txn h lt = refl
find_txn-above lo (t ∷ ts) hi txn h lt = ground (arith, find_txn-above (t.txid + 1) ts hi txn h.1)

find_txn-beyond :
    (lo : ℕ) (ts : List TxnInfo) (hi txn : ℕ) → Ascends lo ts hi → hi ≤ txn → find_txn ts txn ≡ none
unfolding find_txn
find_txn-beyond lo [] hi txn h le = refl
find_txn-beyond lo (t ∷ ts) hi txn h le =
    ground (arith, find_txn-beyond (t.txid + 1) ts hi txn h.1, below (t.txid + 1) ts h.1)
  where
    below : (lo : ℕ) (ts : List TxnInfo) → Ascends lo ts hi → lo ≤ hi
    below lo [] h = h
    below lo (t ∷ ts) h = omega (arith, below (t.txid + 1) ts h.1)

find_txn-remove :
    (lo : ℕ) (ts : List TxnInfo) (hi txn u : ℕ)
    → Ascends lo ts hi
    → find_txn (remove_active_txn ts txn) u ≡ (if u == txn then none else find_txn ts u)
unfolding find_txn remove_active_txn
find_txn-remove lo [] hi txn u h = ground arith
find_txn-remove lo (t ∷ ts) hi txn u h =
    ground
      (arith, find_txn-remove (t.txid + 1) ts hi txn u h.1, find_txn-above (t.txid + 1) ts hi u h.1)

abbrev pub withdrawn : Option TxnInfo → Option TxnInfo
withdrawn none = none
withdrawn (some t) = some (record t { state = rolled_back; modified = [] })

find_txn-mark :
    (ts : List TxnInfo) (txn u : ℕ)
    → find_txn (mark_rolled_back ts txn) u
      ≡ (if u == txn then withdrawn (find_txn ts u) else find_txn ts u)
unfolding find_txn mark_rolled_back
find_txn-mark [] txn u = ground arith
find_txn-mark (t ∷ ts) txn u = ground (arith, find_txn-mark ts txn u)

find_txn-snoc :
    (ts : List TxnInfo) (t : TxnInfo) (u : ℕ)
    → find_txn ts t.txid ≡ none
    → find_txn (ts ++ (t ∷ [])) u ≡ (if u == t.txid then some t else find_txn ts u)
unfolding find_txn
find_txn-snoc [] t u h = ground arith
find_txn-snoc (x ∷ ts) t u h = ground (arith, find_txn-snoc ts t u)

pub next_unknown :
    (eng : EngineHandle) → IsEngine eng → find_txn eng.active_txns eng.next_txid ≡ none
next_unknown eng v =
    find_txn-beyond 1 eng.active_txns eng.next_txid eng.next_txid v.ascends (omega arith)

-- A begin gives the next id, which no transaction had, or -1 and no change if `max_txns`
-- transactions are not rolled back or `64 * max_txns` are listed. The new transaction is active
-- then, and every other one as it was.
pub begin-txn_is_active :
    (eng : EngineHandle) (u : ℕ)
    → IsEngine eng
    → let (eng', result) = mvcc_begin eng in
      let free =
        ltb (live_count eng.active_txns) eng.max_txns
        && ltb (length eng.active_txns) (eng.max_txns * 64) in
      (result ≡ (if free then some eng.next_txid else none))
      × (txn_is_active eng' u ≡ (if free && u == eng.next_txid then true else txn_is_active eng u))
      × (txn_is_active eng eng.next_txid ≡ false)
unfolding mvcc_begin txn_is_active
begin-txn_is_active eng u v =
    let fresh : TxnInfo = record { txid = eng.next_txid; state = active; modified = [] } in
    let unknown : find_txn eng.active_txns eng.next_txid ≡ none = next_unknown eng v in
    ground (arith, unknown, find_txn-snoc eng.active_txns fresh u unknown)

-- After a commit the transaction is no longer listed, active or rolled back as it was; every other
-- transaction is listed and active as before.
pub commit-is_listed :
    (eng : EngineHandle) (txn u : ℕ)
    → IsEngine eng
    → let eng' = (mvcc_commit eng txn).0 in
      (is_listed eng' u ≡ (if u == txn then false else is_listed eng u))
      × (txn_is_active eng' u ≡ (if u == txn then false else txn_is_active eng u))
unfolding mvcc_commit txn_is_active is_listed
commit-is_listed eng txn u v =
    ground (arith, find_txn-remove 1 eng.active_txns eng.next_txid txn u v.ascends)

-- After a rollback the transaction is not active but stays listed if it was; every other
-- transaction is listed and active as before.
pub rollback-is_listed :
    (eng : EngineHandle) (txn u : ℕ)
    → let eng' = mvcc_rollback eng txn in
      (is_listed eng' u ≡ is_listed eng u)
      × (txn_is_active eng' u ≡ (if u == txn then false else txn_is_active eng u))
unfolding mvcc_rollback txn_is_active is_listed
rollback-is_listed eng txn u = ground (arith, find_txn-mark eng.active_txns txn u)

-- The loop of the version chain over the ids finds exactly the listed transactions other than the
-- reader.
created_by_other-active_ids :
    (ts : List TxnInfo) (created snap : ℕ)
    → created_by_other (active_ids ts) created snap
      ≡ (listed (find_txn ts created) && not (created == snap))
unfolding created_by_other active_ids find_txn
created_by_other-active_ids [] created snap = ground arith
created_by_other-active_ids (t ∷ ts) created snap =
    ground (arith, created_by_other-active_ids ts created snap)

-- A version that no one deleted is visible to a reader exactly if its creator's id is not above the
-- reader's, and its creator is the reader itself or is not listed by the engine.
pub is_visible-is_listed :
    (eng : EngineHandle) (created snap : ℕ)
    → is_visible created 0 snap (active_ids eng.active_txns)
      ≡ (not (slt snap created) && (created == snap || not (is_listed eng created)))
unfolding is_visible is_listed
is_visible-is_listed eng created snap =
    ground (arith, created_by_other-active_ids eng.active_txns created snap)

-- A transaction that was rolled back and is committed afterwards becomes visible: no engine call
-- refuses the commit, and every later reader then sees the versions that the rollback hid.
pub commit_after_rollback :
    (eng : EngineHandle) (txn snap : ℕ)
    → IsEngine eng
    → is_listed eng txn ≡ true
    → slt snap txn ≡ false
    → txn ≢ snap
    → (is_visible txn 0 snap (active_ids (mvcc_rollback eng txn).active_txns) ≡ false)
      × (is_visible txn 0 snap (active_ids (mvcc_commit (mvcc_rollback eng txn) txn).0.active_txns)
          ≡ true)
commit_after_rollback eng txn snap v l le ne =
    let undone : EngineHandle = mvcc_rollback eng txn in
    let redone : EngineHandle = (mvcc_commit undone txn).0 in
    ground (
      arith,
      is_visible-is_listed undone txn snap,
      is_visible-is_listed redone txn snap,
      rollback-is_listed eng txn txn,
      commit-is_listed undone txn txn (rollback-IsEngine eng txn v),
    )
