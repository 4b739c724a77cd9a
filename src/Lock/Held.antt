-- ===== src/Lock/Held.antt =====
-- Which locks are held after an acquisition and after a release, and the count of the nodes.
use garry.Base.{
  ℕ, ◌-◌, ◌≡◌, Bool, true, false, ◌&&◌, ◌||◌, not, List, [], ◌∷◌, length, leb, ◌==◌, if◌then◌else◌,
  arith, ap₂,
}
use garry.Lock.{
  LockMode, LockNode, LockManager, max_key_size, same_bytes, held_in, lock_held, has_conflict,
  lock_acquire, release_in, lock_release,
}

pub same_bytes_refl : (k : List ℕ) → same_bytes k k ≡ true
unfolding same_bytes
same_bytes_refl [] = ground arith
same_bytes_refl (a ∷ k) = ground (arith, same_bytes_refl k)

pub same_bytes→eq : (j k : List ℕ) → same_bytes j k ≡ true → j ≡ k
unfolding same_bytes
same_bytes→eq [] [] h = ground arith
same_bytes→eq [] (b ∷ k) h = ground arith
same_bytes→eq (a ∷ j) [] h = ground arith
same_bytes→eq (a ∷ j) (b ∷ k) h = ground (arith, same_bytes→eq j k)

held_in-release_in :
    (t : ℕ) (nodes : List LockNode) (c u : ℕ) (key : List ℕ)
    → held_in (release_in t nodes c).head u key ≡ (if u == t then false else held_in nodes u key)
unfolding held_in release_in
held_in-release_in t [] c u key = ground arith
held_in-release_in t (p ∷ rest) c u key =
    ground (arith, held_in-release_in t rest (c - 1) u key, held_in-release_in t rest c u key)

-- After a release exactly the locks of other transactions are held: the lock of `u` on `key` is
-- held then if it was held before and `u` is not the transaction that released.
pub lock_held-lock_release :
    (mgr : LockManager) (t u : ℕ) (key : List ℕ)
    → lock_held (lock_release mgr t) u key ≡ (if u == t then false else lock_held mgr u key)
unfolding lock_held lock_release
lock_held-lock_release mgr t u key = held_in-release_in t mgr.head mgr.count u key

held_in-same :
    (nodes : List LockNode) (t u : ℕ) (key other : List ℕ)
    → t ≡ u
    → same_bytes key other ≡ true
    → held_in nodes t key ≡ held_in nodes u other
held_in-same nodes t u key other e h = ap₂ (held_in nodes) e (same_bytes→eq key other h)

-- The Boolean of an acquisition, on every path.
abbrev pub granted : Bool → LockManager → ℕ → List ℕ → LockMode → Bool
granted allocated mgr t key mode =
    lock_held mgr t key
    || (not (has_conflict mgr t key mode) && (allocated && leb (length key) max_key_size))

-- An acquisition succeeds exactly if the transaction holds the key already, or no other conflicts,
-- a node is allocated and the key has at most 256 bytes. After it the transaction holds the key if
-- it succeeded or held it before, and what any transaction holds on other keys, or another
-- transaction holds on this one, is unchanged.
pub lock_acquire-lock_held :
    (allocated : Bool) (mgr : LockManager) (t : ℕ) (key : List ℕ) (mode : LockMode) (u : ℕ)
    (other : List ℕ)
    → let (mgr', done) = lock_acquire allocated mgr t key mode in
      (done ≡ granted allocated mgr t key mode)
      × (lock_held mgr' u other
          ≡ (lock_held mgr u other || (done && (t == u && same_bytes key other))))
unfolding lock_acquire lock_held
lock_acquire-lock_held allocated mgr t key mode u other =
    ground (arith, held_in-same mgr.head t u key other)
