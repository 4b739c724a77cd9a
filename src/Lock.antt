-- ===== src/Lock.antt =====
-- src/lock_table.c and lock_table.h: shared and exclusive locks on keys, in a linked list.
-- A key with its length is the list of its bytes; the linked list is a list of nodes, newest first.
pub mod Held
pub mod Exclusion
mod Tests
use garry.Base.{
  ℕ, ◌+◌, ◌-◌, Bool, true, false, ◌&&◌, ◌||◌, not, List, [], ◌∷◌, length, ltb, ◌==◌, if◌then◌else◌,
}

pub data LockMode : Type 0 where
  shared exclusive : LockMode

pub record LockNode : Type 0 where
  pub key : List ℕ
  pub txn : ℕ
  pub mode : LockMode

pub record LockManager : Type 0 where
  pub head : List LockNode
  pub count : ℕ

unfoldable pub create_lock_manager : LockManager
create_lock_manager = record { head = []; count = 0 }

-- The test `key_len == klen` and the loop that compares the bytes while `same` holds.
unfoldable pub same_bytes : List ℕ → List ℕ → Bool
same_bytes [] [] = true
same_bytes [] (b ∷ bs) = false
same_bytes (a ∷ as') [] = false
same_bytes (a ∷ as') (b ∷ bs) = a == b && same_bytes as' bs

unfoldable pub held_in : List LockNode → ℕ → List ℕ → Bool
unfolding same_bytes
held_in [] txn key = false
held_in (p ∷ rest) txn key =
    let more = held_in rest txn key in if p.txn == txn && same_bytes p.key key then true else more

unfoldable pub lock_held : LockManager → ℕ → List ℕ → Bool
unfolding held_in
lock_held mgr txn key = held_in mgr.head txn key

abbrev pub is_exclusive : LockMode → Bool
is_exclusive shared = false
is_exclusive exclusive = true

unfoldable pub conflict_in : List LockNode → ℕ → List ℕ → LockMode → Bool
unfolding same_bytes
conflict_in [] txn key mode = false
conflict_in (p ∷ rest) txn key mode =
    let more = conflict_in rest txn key mode in
    if same_bytes p.key key && not (p.txn == txn)
    then (if is_exclusive p.mode || is_exclusive mode then true else more)
    else more

unfoldable pub has_conflict : LockManager → ℕ → List ℕ → LockMode → Bool
unfolding conflict_in
has_conflict mgr txn key mode = conflict_in mgr.head txn key mode

abbrev pub max_key_size : ℕ
max_key_size = 256

-- `allocated` says whether `malloc` gives a node. The Boolean is what goes through `ok`.
unfoldable pub lock_acquire : Bool → LockManager → ℕ → List ℕ → LockMode → LockManager × Bool
lock_acquire allocated mgr txn key mode =
    if lock_held mgr txn key
    then (mgr, true)
    else if has_conflict mgr txn key mode
    then (mgr, false)
    else if not allocated
    then (mgr, false)
    else if ltb max_key_size (length key)
    then (mgr, false)
    else (
      record {
        head = record { key = key; txn = txn; mode = mode } ∷ mgr.head;
        count = mgr.count + 1;
      },
      true,
    )

-- The loop over `pp`: each node of `txn` is unlinked, and `count` goes down by one.
unfoldable pub release_in : ℕ → List LockNode → ℕ → LockManager
release_in txn [] count = record { head = []; count = count }
release_in txn (p ∷ rest) count =
    let without = release_in txn rest (count - 1) in
    let kept = release_in txn rest count in
    if p.txn == txn then without else record { head = p ∷ kept.head; count = kept.count }

unfoldable pub lock_release : LockManager → ℕ → LockManager
unfolding release_in
lock_release mgr txn = release_in txn mgr.head mgr.count
