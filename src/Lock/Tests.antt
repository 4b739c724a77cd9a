-- ===== src/Lock/Tests.antt =====
-- Runs of the lock table, and its theorems at concrete inputs.
use garry.Base.{ℕ, ◌≡◌, refl, true, false, List, [], ◌∷◌, arith}
use garry.Lock.{
  LockManager, shared, exclusive, lock_held, lock_acquire, lock_release, create_lock_manager,
  has_conflict,
}
use garry.Lock.Exclusion.{
  IsConsistent, run, clash, acquire, release, run-IsConsistent, exclusive_grant_excludes,
  lock_upgrade_ignored, with_shared,
}

abbrev cat_key : List ℕ
cat_key = 3 ∷ b'c' ∷ b'a' ∷ b't' ∷ []

abbrev empty : LockManager
empty = record { head = []; count = 0 }

-- transactions 1 and 2 share the key
abbrev sharing : LockManager
sharing = record {
  head =
      record { key = cat_key; txn = 2; mode = shared }
      ∷ record { key = cat_key; txn = 1; mode = shared }
      ∷ [];
  count = 2;
}

empty_lem : create_lock_manager ≡ empty
unfolding create_lock_manager
empty_lem = refl

sharing_lem :
    run empty (acquire true 1 cat_key shared ∷ acquire true 2 cat_key shared ∷ []) ≡ sharing
unfolding run lock_acquire lock_held has_conflict
sharing_lem = refl

refused : lock_acquire true sharing 3 cat_key exclusive ≡ (sharing, false)
unfolding lock_acquire lock_held has_conflict
refused = refl

released : run sharing (release 1 ∷ release 2 ∷ []) ≡ empty
unfolding run lock_release
released = refl

run-IsConsistent_example :
    IsConsistent (run sharing (acquire true 3 cat_key exclusive ∷ release 1 ∷ []))
unfolding clash
run-IsConsistent_example =
    run-IsConsistent sharing (acquire true 3 cat_key exclusive ∷ release 1 ∷ [])
      (record { excludes = ground arith; counted = refl })

exclusive_grant_excludes_example :
    (lock_held empty 2 cat_key ≡ false)
    × (lock_held (lock_acquire true empty 1 cat_key exclusive).0 2 cat_key ≡ false)
unfolding lock_held lock_acquire has_conflict
exclusive_grant_excludes_example =
    exclusive_grant_excludes true empty 1 2 cat_key refl (omega arith) refl

lock_upgrade_ignored_example :
    let (mgr1, first) = lock_acquire true empty 1 cat_key shared in
    let (mgr2, second) = lock_acquire true mgr1 2 cat_key shared in
    let (mgr3, third) = lock_acquire true mgr2 1 cat_key exclusive in
    let (mgr4, fourth) = lock_acquire true mgr3 2 cat_key exclusive in
    (first ≡ true)
    × (second ≡ true)
    × (third ≡ true)
    × (fourth ≡ true)
    × (mgr4 ≡ with_shared empty cat_key 1 2)
    × (lock_acquire true mgr4 3 cat_key exclusive ≡ (mgr4, false))
unfolding lock_held has_conflict
lock_upgrade_ignored_example =
    lock_upgrade_ignored true empty 1 2 3 cat_key (omega arith) (omega arith) (omega arith)
      (omega arith) refl refl refl refl refl
