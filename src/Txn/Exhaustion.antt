-- ===== src/Txn/Exhaustion.antt =====
-- Rolled-back transactions keep their slots, so a long run of rollbacks uses the slots up.
use garry.Base.{ℕ, zero, suc, ◌+◌, ◌*◌, ◌^◌, ◌<◌, ◌≡◌, List, [], ◌∷◌, ◌++◌, length, none, arith}
use garry.Txn.{
  TxnInfo, EngineHandle, live_count, mvcc_begin, mark_rolled_back, mvcc_rollback, find_txn, active,
}
use garry.Txn.Shape.{IsEngine, begin-IsEngine, rollback-IsEngine}
use garry.Txn.Status.{next_unknown}

-- `n` transactions one after the other, each begun and rolled back.
unfoldable pub abandon : ℕ → EngineHandle → EngineHandle
abandon zero eng = eng
abandon (suc n) eng = abandon n (mvcc_rollback (mvcc_begin eng).0 eng.next_txid)

mark_rolled_back-snoc :
    (ts : List TxnInfo) (t : TxnInfo)
    → find_txn ts t.txid ≡ none
    → (live_count (mark_rolled_back (ts ++ (t ∷ [])) t.txid) ≡ live_count ts)
      × (length (mark_rolled_back (ts ++ (t ∷ [])) t.txid) ≡ length ts + 1)
unfolding mark_rolled_back find_txn live_count
mark_rolled_back-snoc [] t h = ground arith
mark_rolled_back-snoc (x ∷ ts) t h = ground (arith, mark_rolled_back-snoc ts t)

abandon_one :
    (eng : EngineHandle)
    → IsEngine eng
    → live_count eng.active_txns < eng.max_txns
    → length eng.active_txns < eng.max_txns * 64
    → eng.next_txid + 1 < 2 ^ 31
    → let eng' = mvcc_rollback (mvcc_begin eng).0 eng.next_txid in
      IsEngine eng'
      × (eng'.max_txns ≡ eng.max_txns)
      × (live_count eng'.active_txns ≡ live_count eng.active_txns)
      × (length eng'.active_txns ≡ length eng.active_txns + 1)
      × (eng'.next_txid ≡ eng.next_txid + 1)
abandon_one eng v live room bound =
    let slots = v.slots_fit in
    let live_fits = v.live in
    let fresh : TxnInfo = record { txid = eng.next_txid; state = active; modified = [] } in
    (
      rollback-IsEngine (mvcc_begin eng).0 eng.next_txid (begin-IsEngine eng v bound),
      unfold mvcc_rollback mvcc_begin in ground arith,
      unfold mvcc_rollback mvcc_begin in
          ground (arith, mark_rolled_back-snoc eng.active_txns fresh (next_unknown eng v)),
      unfold mvcc_rollback mvcc_begin in
          ground (arith, mark_rolled_back-snoc eng.active_txns fresh (next_unknown eng v)),
      unfold mvcc_rollback mvcc_begin in ground arith,
    )

-- When as many transactions have been begun and rolled back as slots were left, no further one can
-- begin, although at every moment at most one of them was active besides those active before. The
-- ids that are given stay below 2 ^ 31.
pub abandon_exhausts :
    (n : ℕ) (eng : EngineHandle)
    → IsEngine eng
    → live_count eng.active_txns < eng.max_txns
    → length eng.active_txns + n ≡ eng.max_txns * 64
    → eng.next_txid + n < 2 ^ 31
    → (mvcc_begin (abandon n eng)).1 ≡ none
unfolding abandon
abandon_exhausts zero eng v live e bound =
    let slots = v.slots_fit in unfold mvcc_begin in ground arith
abandon_exhausts (suc n) eng v live e bound =
    let (v', m, l, k, next) = abandon_one eng v live (omega arith) (omega arith) in
    abandon_exhausts n (mvcc_rollback (mvcc_begin eng).0 eng.next_txid) v' (omega arith)
      (omega arith) (omega arith)
