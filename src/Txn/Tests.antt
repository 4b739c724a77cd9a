-- ===== src/Txn/Tests.antt =====
-- Runs of the transaction list, and its theorems at concrete inputs.
use garry.Base.{◌≡◌, refl, true, false, [], ◌∷◌, none, arith}
use garry.Lock.{create_lock_manager}
use garry.Txn.{
  EngineHandle, active, rolled_back, mvcc_begin, mvcc_commit, mvcc_rollback, live_count, find_txn,
  mark_rolled_back, remove_active_txn,
}
use garry.Txn.Shape.{IsEngine, run, step, begin, commit, rollback, modify, run-IsEngine}
use garry.Txn.Status.{is_listed, active_ids, commit_after_rollback}
use garry.Txn.Exhaustion.{abandon, abandon_exhausts}
use garry.Chain.{is_visible}

abbrev fresh : EngineHandle
fresh = record { next_txid = 1; max_txns = 1; active_txns = []; lock_mgr = create_lock_manager }

-- transaction 1 was rolled back, transaction 2 is active
abbrev busy : EngineHandle
busy = record {
  next_txid = 3;
  max_txns = 4;
  active_txns =
      record { txid = 1; state = rolled_back; modified = [] }
      ∷ record { txid = 2; state = active; modified = 9 ∷ [] }
      ∷ [];
  lock_mgr = create_lock_manager;
}

fresh-IsEngine : IsEngine fresh
unfolding live_count
fresh-IsEngine = omega arith

busy-IsEngine : IsEngine busy
unfolding live_count
busy-IsEngine = omega arith

busy-run : active_ids (run busy (begin ∷ commit 2 ∷ rollback 3 ∷ [])).active_txns ≡ 1 ∷ 3 ∷ []
unfolding run step mvcc_begin mvcc_commit mvcc_rollback active_ids remove_active_txn
    mark_rolled_back
busy-run = refl

run-IsEngine_example : IsEngine (run busy (begin ∷ modify 2 7 ∷ commit 2 ∷ []))
unfolding garry.Txn.Shape.begin_count
run-IsEngine_example =
    run-IsEngine busy (begin ∷ modify 2 7 ∷ commit 2 ∷ []) busy-IsEngine (omega arith)

commit_after_rollback_example :
    (is_visible 2 0 5 (active_ids (mvcc_rollback busy 2).active_txns) ≡ false)
    × (is_visible 2 0 5 (active_ids (mvcc_commit (mvcc_rollback busy 2) 2).0.active_txns) ≡ true)
unfolding is_listed find_txn
commit_after_rollback_example = commit_after_rollback busy 2 5 busy-IsEngine refl refl (omega arith)

-- with one transaction at a time, the sixty-fifth cannot begin
abandon_exhausts_example : (mvcc_begin (abandon 64 fresh)).1 ≡ none
unfolding live_count
abandon_exhausts_example = abandon_exhausts 64 fresh fresh-IsEngine (omega arith) refl (omega arith)
