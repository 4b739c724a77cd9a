-- ===== src/Lock/Exclusion.antt =====
-- Mutual exclusion: an exclusive lock on a key shuts out every other transaction.
use garry.Base.{
  ℕ, ◌+◌, ◌-◌, ◌≤◌, ◌≡◌, ◌≢◌, Bool, true, false, ◌&&◌, ◌||◌, not, List, [], ◌∷◌, length, ◌==◌, All,
  arith, refl,
}
use garry.Lock.{
  LockMode, LockNode, LockManager, shared, exclusive, is_exclusive, same_bytes, lock_held,
  conflict_in, has_conflict, lock_acquire, release_in, lock_release, held_in,
}
use garry.Lock.Held.{same_bytes_refl}

-- Nodes of two transactions on one key are both shared.
unfoldable pub clash : LockNode → LockNode → Bool
unfolding same_bytes
clash p q =
    same_bytes p.key q.key && (not (p.txn == q.txn) && (is_exclusive p.mode || is_exclusive q.mode))

abbrev pub NoClash : LockNode → List LockNode → Type 0
NoClash p = All (λ q. clash q p ≡ false)

abbrev pub Exclusive : List LockNode → Type 0
Exclusive [] = Unit
Exclusive (p ∷ rest) = NoClash p rest × Exclusive rest

-- The manager's invariant: no two nodes clash, and `count` is the number of nodes.
pub record IsConsistent (mgr : LockManager) : Type 0 where
  pub excludes : Exclusive mgr.head
  pub counted : mgr.count ≡ length mgr.head

conflict_in→NoClash :
    (nodes : List LockNode) (t : ℕ) (key : List ℕ) (mode : LockMode)
    → conflict_in nodes t key mode ≡ false
    → NoClash (record { key = key; txn = t; mode = mode }) nodes
unfolding conflict_in clash
conflict_in→NoClash [] t key mode h = tt
conflict_in→NoClash (p ∷ rest) t key mode h = ground (arith, conflict_in→NoClash rest t key mode)

lock_acquire-IsConsistent :
    (allocated : Bool) (mgr : LockManager) (t : ℕ) (key : List ℕ) (mode : LockMode)
    → IsConsistent mgr
    → IsConsistent (lock_acquire allocated mgr t key mode).0
unfolding lock_acquire has_conflict
lock_acquire-IsConsistent allocated mgr t key mode v =
    ground (arith, conflict_in→NoClash mgr.head t key mode)

NoClash-release_in :
    (t : ℕ) (p : LockNode) (nodes : List LockNode) (c : ℕ)
    → NoClash p nodes
    → NoClash p (release_in t nodes c).head
unfolding release_in
NoClash-release_in t p [] c h = tt
NoClash-release_in t p (q ∷ rest) c h =
    ground (arith, NoClash-release_in t p rest (c - 1) h.1, NoClash-release_in t p rest c h.1)

release_in-Exclusive :
    (t : ℕ) (nodes : List LockNode) (c : ℕ)
    → Exclusive nodes
    → Exclusive (release_in t nodes c).head
unfolding release_in
release_in-Exclusive t [] c h = tt
release_in-Exclusive t (p ∷ rest) c h = ground (
  arith,
  release_in-Exclusive t rest (c - 1) h.1,
  release_in-Exclusive t rest c h.1,
  NoClash-release_in t p rest c h.0,
)

release_in-count :
    (t : ℕ) (nodes : List LockNode) (c : ℕ)
    → length nodes ≤ c
    → (release_in t nodes c).count + length nodes ≡ length (release_in t nodes c).head + c
unfolding release_in
release_in-count t [] c h = omega arith
release_in-count t (p ∷ rest) c h =
    ground (arith, release_in-count t rest (c - 1), release_in-count t rest c)

lock_release-IsConsistent :
    (mgr : LockManager) (t : ℕ) → IsConsistent mgr → IsConsistent (lock_release mgr t)
unfolding lock_release
lock_release-IsConsistent mgr t v = record {
  excludes = release_in-Exclusive t mgr.head mgr.count v.excludes;
  counted = omega (arith, release_in-count t mgr.head mgr.count (omega arith), v.counted);
}

-- The calls that transactions make, in any order.
pub data LockOp : Type 0 where
  acquire : Bool → ℕ → List ℕ → LockMode → LockOp
  release : ℕ → LockOp

unfoldable pub run : LockManager → List LockOp → LockManager
run mgr [] = mgr
run mgr (acquire allocated t key mode ∷ ops) = run (lock_acquire allocated mgr t key mode).0 ops
run mgr (release t ∷ ops) = run (lock_release mgr t) ops

-- From a manager that keeps the invariant every sequence of acquisitions and releases keeps it: no
-- two transactions have nodes on one key unless both are shared, and `count` is the number of
-- nodes.
pub run-IsConsistent :
    (mgr : LockManager) (ops : List LockOp) → IsConsistent mgr → IsConsistent (run mgr ops)
unfolding run
run-IsConsistent mgr [] v = v
run-IsConsistent mgr (acquire allocated t key mode ∷ ops) v =
    run-IsConsistent (lock_acquire allocated mgr t key mode).0 ops
      (lock_acquire-IsConsistent allocated mgr t key mode v)
run-IsConsistent mgr (release t ∷ ops) v =
    run-IsConsistent (lock_release mgr t) ops (lock_release-IsConsistent mgr t v)

conflict_in→not_held :
    (nodes : List LockNode) (t u : ℕ) (key : List ℕ)
    → conflict_in nodes t key exclusive ≡ false
    → u ≢ t
    → held_in nodes u key ≡ false
unfolding conflict_in held_in
conflict_in→not_held [] t u key h ne = refl
conflict_in→not_held (p ∷ rest) t u key h ne = ground (arith, conflict_in→not_held rest t u key)

-- When a transaction that does not hold a key is granted it exclusively, no other transaction holds
-- that key, before or after.
pub exclusive_grant_excludes :
    (allocated : Bool) (mgr : LockManager) (t u : ℕ) (key : List ℕ)
    → lock_held mgr t key ≡ false
    → u ≢ t
    → (lock_acquire allocated mgr t key exclusive).1 ≡ true
    → (lock_held mgr u key ≡ false)
      × (lock_held (lock_acquire allocated mgr t key exclusive).0 u key ≡ false)
unfolding lock_acquire has_conflict lock_held
exclusive_grant_excludes allocated mgr t u key free ne e =
    ground (arith, conflict_in→not_held mgr.head t u key)

-- the manager after two shared acquisitions of a key
abbrev pub with_shared : LockManager → List ℕ → ℕ → ℕ → LockManager
with_shared mgr key t u = record {
  head =
      record { key = key; txn = u; mode = shared }
      ∷ record { key = key; txn = t; mode = shared }
      ∷ mgr.head;
  count = mgr.count + 1 + 1;
}

-- Two transactions that hold no lock on a key and may both share it acquire it in shared mode and
-- then in exclusive mode: all four calls are granted, and the table holds two shared locks then,
-- while it refuses the exclusive lock to a third.
pub lock_upgrade_ignored :
    (allocated : Bool) (mgr : LockManager) (t u w : ℕ) (key : List ℕ)
    → length key ≤ 256
    → u ≢ t
    → w ≢ t
    → w ≢ u
    → lock_held mgr t key ≡ false
    → lock_held mgr u key ≡ false
    → lock_held mgr w key ≡ false
    → has_conflict mgr t key shared ≡ false
    → has_conflict mgr u key shared ≡ false
    → let (mgr1, first) = lock_acquire true mgr t key shared in
      let (mgr2, second) = lock_acquire true mgr1 u key shared in
      let (mgr3, third) = lock_acquire allocated mgr2 t key exclusive in
      let (mgr4, fourth) = lock_acquire allocated mgr3 u key exclusive in
      (first ≡ true)
      × (second ≡ true)
      × (third ≡ true)
      × (fourth ≡ true)
      × (mgr4 ≡ with_shared mgr key t u)
      × (lock_acquire allocated mgr4 w key exclusive ≡ (mgr4, false))
unfolding lock_acquire lock_held has_conflict held_in conflict_in
lock_upgrade_ignored allocated mgr t u w key short ut wt wu ht hu hw ct cu =
    ground (arith, same_bytes_refl key)
