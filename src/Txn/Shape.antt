-- ===== src/Txn/Shape.antt =====
-- The shape of the transaction list: ids ascend below the next id, the arrays do not overflow.
use garry.Base.{
  ℕ, ◌+◌, ◌*◌, ◌^◌, ◌≤◌, ◌<◌, ◌≡◌, List, [], ◌∷◌, ◌++◌, length, All, All-append, arith,
  length-append,
}
use garry.Txn.{
  TxnInfo, EngineHandle, active, live_count, mvcc_begin, remove_active_txn, mvcc_commit,
  mark_rolled_back, mvcc_rollback, note_modified, mvcc_note, max_modified_pages,
}

-- The ids of the list ascend from `lo` on and stay below `hi`.
abbrev pub Ascends : ℕ → List TxnInfo → ℕ → Type 0
Ascends lo [] hi = lo ≤ hi
Ascends lo (t ∷ ts) hi = (lo ≤ t.txid) × Ascends (t.txid + 1) ts hi

abbrev pub FewPages : TxnInfo → Type 0
FewPages t = length t.modified ≤ max_modified_pages

-- At most `max_txns` transactions are not rolled back, the list stays inside the arrays of
-- `64 * max_txns` slots, a number that fits 32 bits with its sign, as the next id does, and no
-- transaction notes more than sixteen pages.
pub record IsEngine (eng : EngineHandle) : Type 0 where
  pub ascends : Ascends 1 eng.active_txns eng.next_txid
  pub live : live_count eng.active_txns ≤ eng.max_txns
  pub slots : length eng.active_txns ≤ eng.max_txns * 64
  pub few_pages : All FewPages eng.active_txns
  pub next_fits : eng.next_txid < 2 ^ 31
  pub slots_fit : eng.max_txns * 64 < 2 ^ 31

Ascends-le : (lo : ℕ) (ts : List TxnInfo) (hi : ℕ) → Ascends lo ts hi → lo ≤ hi
Ascends-le lo [] hi h = h
Ascends-le lo (t ∷ ts) hi h = omega (arith, Ascends-le (t.txid + 1) ts hi h.1)

Ascends-snoc :
    (lo : ℕ) (ts : List TxnInfo) (hi : ℕ) (t : TxnInfo)
    → t.txid ≡ hi
    → Ascends lo ts hi
    → Ascends lo (ts ++ (t ∷ [])) (hi + 1)
Ascends-snoc lo [] hi t e h = omega arith
Ascends-snoc lo (x ∷ ts) hi t e h = (h.0, Ascends-snoc (x.txid + 1) ts hi t e h.1)

Ascends-lower :
    (lo lo' : ℕ) (ts : List TxnInfo) (hi : ℕ) → lo ≤ lo' → Ascends lo' ts hi → Ascends lo ts hi
Ascends-lower lo lo' [] hi le h = omega arith
Ascends-lower lo lo' (t ∷ ts) hi le h = (omega arith, h.1)

Ascends-remove :
    (lo : ℕ) (ts : List TxnInfo) (hi txn : ℕ)
    → Ascends lo ts hi
    → Ascends lo (remove_active_txn ts txn) hi
unfolding remove_active_txn
Ascends-remove lo [] hi txn h = h
Ascends-remove lo (t ∷ ts) hi txn h = ground (
  arith,
  Ascends-remove (t.txid + 1) ts hi txn h.1,
  Ascends-lower lo (t.txid + 1) ts hi (omega arith) h.1,
)

Ascends-mark :
    (lo : ℕ) (ts : List TxnInfo) (hi txn : ℕ)
    → Ascends lo ts hi
    → Ascends lo (mark_rolled_back ts txn) hi
unfolding mark_rolled_back
Ascends-mark lo [] hi txn h = h
Ascends-mark lo (t ∷ ts) hi txn h = ground (arith, Ascends-mark (t.txid + 1) ts hi txn h.1)

Ascends-note :
    (lo : ℕ) (ts : List TxnInfo) (hi txn page : ℕ)
    → Ascends lo ts hi
    → Ascends lo (note_modified ts txn page) hi
unfolding note_modified
Ascends-note lo [] hi txn page h = h
Ascends-note lo (t ∷ ts) hi txn page h =
    ground (arith, Ascends-note (t.txid + 1) ts hi txn page h.1)

live_count-snoc :
    (ts : List TxnInfo) (t : TxnInfo) → live_count (ts ++ (t ∷ [])) ≤ live_count ts + 1
unfolding live_count
live_count-snoc [] t = ground arith
live_count-snoc (x ∷ ts) t = ground (arith, live_count-snoc ts t)

remove_shrinks :
    (ts : List TxnInfo) (txn : ℕ)
    → (live_count (remove_active_txn ts txn) ≤ live_count ts)
      × (length (remove_active_txn ts txn) ≤ length ts)
unfolding live_count remove_active_txn
remove_shrinks [] txn = omega arith
remove_shrinks (t ∷ ts) txn = ground (arith, remove_shrinks ts txn)

pub mark_shrinks :
    (ts : List TxnInfo) (txn : ℕ)
    → (live_count (mark_rolled_back ts txn) ≤ live_count ts)
      × (length (mark_rolled_back ts txn) ≡ length ts)
unfolding live_count mark_rolled_back
mark_shrinks [] txn = omega arith
mark_shrinks (t ∷ ts) txn = ground (arith, mark_shrinks ts txn)

pub note_keeps :
    (ts : List TxnInfo) (txn page : ℕ)
    → (live_count (note_modified ts txn page) ≡ live_count ts)
      × (length (note_modified ts txn page) ≡ length ts)
unfolding live_count note_modified
note_keeps [] txn page = omega arith
note_keeps (t ∷ ts) txn page = ground (arith, note_keeps ts txn page)

FewPages-remove :
    (ts : List TxnInfo) (txn : ℕ) → All FewPages ts → All FewPages (remove_active_txn ts txn)
unfolding remove_active_txn
FewPages-remove [] txn h = tt
FewPages-remove (t ∷ ts) txn h = ground (arith, FewPages-remove ts txn h.1)

FewPages-mark :
    (ts : List TxnInfo) (txn : ℕ) → All FewPages ts → All FewPages (mark_rolled_back ts txn)
unfolding mark_rolled_back
FewPages-mark [] txn h = tt
FewPages-mark (t ∷ ts) txn h = ground (arith, FewPages-mark ts txn h.1)

FewPages-note :
    (ts : List TxnInfo) (txn page : ℕ) → All FewPages ts → All FewPages (note_modified ts txn page)
unfolding note_modified
FewPages-note [] txn page h = tt
FewPages-note (t ∷ ts) txn page h =
    ground (arith, FewPages-note ts txn page h.1, length-append t.modified (page ∷ []))

pub begin-IsEngine :
    (eng : EngineHandle) → IsEngine eng → eng.next_txid + 1 < 2 ^ 31 → IsEngine (mvcc_begin eng).0
unfolding mvcc_begin
begin-IsEngine eng v bound =
    let fresh : TxnInfo = record { txid = eng.next_txid; state = active; modified = [] } in
    ground (
      arith,
      Ascends-snoc 1 eng.active_txns eng.next_txid fresh (omega arith) v.ascends,
      live_count-snoc eng.active_txns fresh,
      length-append eng.active_txns (fresh ∷ []),
      All-append FewPages eng.active_txns (fresh ∷ []) v.few_pages (omega arith),
    )

commit-IsEngine : (eng : EngineHandle) (txn : ℕ) → IsEngine eng → IsEngine (mvcc_commit eng txn).0
unfolding mvcc_commit
commit-IsEngine eng txn v = record {
  ascends = Ascends-remove 1 eng.active_txns eng.next_txid txn v.ascends;
  live = omega (arith, remove_shrinks eng.active_txns txn, v.live);
  slots = omega (arith, remove_shrinks eng.active_txns txn, v.slots);
  few_pages = FewPages-remove eng.active_txns txn v.few_pages;
  next_fits = v.next_fits;
  slots_fit = v.slots_fit;
}

pub rollback-IsEngine :
    (eng : EngineHandle) (txn : ℕ) → IsEngine eng → IsEngine (mvcc_rollback eng txn)
unfolding mvcc_rollback
rollback-IsEngine eng txn v = record {
  ascends = Ascends-mark 1 eng.active_txns eng.next_txid txn v.ascends;
  live = omega (arith, mark_shrinks eng.active_txns txn, v.live);
  slots = omega (arith, mark_shrinks eng.active_txns txn, v.slots);
  few_pages = FewPages-mark eng.active_txns txn v.few_pages;
  next_fits = v.next_fits;
  slots_fit = v.slots_fit;
}

note-IsEngine :
    (eng : EngineHandle) (txn page : ℕ) → IsEngine eng → IsEngine (mvcc_note eng txn page)
unfolding mvcc_note
note-IsEngine eng txn page v = record {
  ascends = Ascends-note 1 eng.active_txns eng.next_txid txn page v.ascends;
  live = omega (arith, note_keeps eng.active_txns txn page, v.live);
  slots = omega (arith, note_keeps eng.active_txns txn page, v.slots);
  few_pages = FewPages-note eng.active_txns txn page v.few_pages;
  next_fits = v.next_fits;
  slots_fit = v.slots_fit;
}

-- What clients do to the transaction list, in any order.
pub data TxnOp : Type 0 where
  begin : TxnOp
  commit rollback : ℕ → TxnOp
  modify : ℕ → ℕ → TxnOp

unfoldable pub step : EngineHandle → TxnOp → EngineHandle
step eng begin = (mvcc_begin eng).0
step eng (commit txn) = (mvcc_commit eng txn).0
step eng (rollback txn) = mvcc_rollback eng txn
step eng (modify txn page) = mvcc_note eng txn page

unfoldable pub run : EngineHandle → List TxnOp → EngineHandle
run eng [] = eng
run eng (op ∷ ops) = run (step eng op) ops

-- How many of the calls are begins.
unfoldable pub begin_count : List TxnOp → ℕ
begin_count [] = 0
begin_count (begin ∷ ops) = begin_count ops + 1
begin_count (commit txn ∷ ops) = begin_count ops
begin_count (rollback txn ∷ ops) = begin_count ops
begin_count (modify txn page ∷ ops) = begin_count ops

begin-next :
    (eng : EngineHandle)
    → eng.next_txid + 1 < 2 ^ 31
    → (mvcc_begin eng).0.next_txid ≤ eng.next_txid + 1
unfolding mvcc_begin
begin-next eng bound = ground arith

-- Every sequence of begins, commits, rollbacks and noted pages whose begins do not take the next id
-- to 2 ^ 31 keeps the invariant: ids ascend and are below the next id, at most `max_txns` transactions
-- are not rolled back, the list fits the `64 * max_txns` slots of its arrays, each transaction notes
-- at most sixteen pages, and the next id and the number of slots are below 2 ^ 31.
pub run-IsEngine :
    (eng : EngineHandle) (ops : List TxnOp)
    → IsEngine eng
    → eng.next_txid + begin_count ops < 2 ^ 31
    → IsEngine (run eng ops)
unfolding run begin_count step
run-IsEngine eng [] v bound = v
run-IsEngine eng (begin ∷ ops) v bound =
    run-IsEngine (mvcc_begin eng).0 ops (begin-IsEngine eng v (omega arith))
      (omega (arith, begin-next eng))
run-IsEngine eng (commit txn ∷ ops) v bound =
    run-IsEngine (mvcc_commit eng txn).0 ops (commit-IsEngine eng txn v)
      (unfold mvcc_commit in omega arith)
run-IsEngine eng (rollback txn ∷ ops) v bound =
    run-IsEngine (mvcc_rollback eng txn) ops (rollback-IsEngine eng txn v)
      (unfold mvcc_rollback in omega arith)
run-IsEngine eng (modify txn page ∷ ops) v bound =
    run-IsEngine (mvcc_note eng txn page) ops (note-IsEngine eng txn page v)
      (unfold mvcc_note in omega arith)
