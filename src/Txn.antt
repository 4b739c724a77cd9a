-- ===== src/Txn.antt =====
-- The transaction list of src/transaction.c: begin, commit, rollback, and the pages that a
-- transaction has modified. `active_txns` and `txn_states` are filled and shifted together, so one
-- list stands for both; its length is `active_count`. The mutex makes each operation one step.
pub mod Shape
pub mod Status
pub mod Exhaustion
mod Tests
use garry.Base.{
  ℕ, zero, suc, ◌+◌, ◌*◌, List, [], ◌∷◌, ◌++◌, length, Option, none, some, Bool, true, false, ◌==◌,
  ltb, not, if◌then◌else◌,
}
use garry.Base.Word.{slt, add32, mul32}
use garry.Lock.{LockManager, lock_release}

pub data TxnState : Type 0 where
  active committed rolled_back : TxnState

-- `modified_pages` up to `modified_count`
pub record TxnInfo : Type 0 where
  pub txid : ℕ
  pub state : TxnState
  pub modified : List ℕ

-- The fields of `garry_engine_handle` that transactions use.
pub record EngineHandle : Type 0 where
  pub next_txid : ℕ
  pub max_txns : ℕ
  pub active_txns : List TxnInfo
  pub lock_mgr : LockManager

-- GARRY_MAX_MODIFIED_PAGES
abbrev pub max_modified_pages : ℕ
max_modified_pages = 16

abbrev pub is_rolled_back : TxnState → Bool
is_rolled_back active = false
is_rolled_back committed = false
is_rolled_back rolled_back = true

-- the loop that counts `active_non_rb`
unfoldable pub live_count : List TxnInfo → ℕ
live_count [] = 0
live_count (t ∷ ts) = (if is_rolled_back t.state then 0 else 1) + live_count ts

-- `none` is the result -1. Numbers are 32-bit patterns, and the sum and the product wrap around; in C
-- they are undefined from 2 ^ 31 on.
unfoldable pub mvcc_begin : EngineHandle → EngineHandle × Option ℕ
unfolding live_count
mvcc_begin eng =
    if not (slt (live_count eng.active_txns) eng.max_txns)
    then (eng, none)
    else if not (slt (length eng.active_txns) (mul32 eng.max_txns 64))
    then (eng, none)
    else (
      record eng {
        next_txid = add32 eng.next_txid 1;
        active_txns =
            eng.active_txns
            ++ (record { txid = eng.next_txid; state = active; modified = [] } ∷ []);
      },
      some eng.next_txid,
    )

-- `find_txn_slot`, with the slot's contents for its index: `none` is -1.
unfoldable pub find_txn : List TxnInfo → ℕ → Option TxnInfo
find_txn [] txn = none
find_txn (t ∷ ts) txn = let more = find_txn ts txn in if t.txid == txn then some t else more

-- The first slot of `txn` is taken out, and those behind it move up.
unfoldable pub remove_active_txn : List TxnInfo → ℕ → List TxnInfo
remove_active_txn [] txn = []
remove_active_txn (t ∷ ts) txn = if t.txid == txn then ts else t ∷ remove_active_txn ts txn

abbrev pub pages_of : Option TxnInfo → List ℕ
pages_of none = []
pages_of (some t) = t.modified

-- The second result is what is flushed then, in order. The slot's state is set to committed just
-- before the slot is removed.
unfoldable pub mvcc_commit : EngineHandle → ℕ → EngineHandle × List ℕ
mvcc_commit eng txn = (
  record eng {
    active_txns = remove_active_txn eng.active_txns txn;
    lock_mgr = lock_release eng.lock_mgr txn;
  },
  pages_of (find_txn eng.active_txns txn),
)

-- what `garry_mvcc_rollback` writes into the first slot of `txn`
unfoldable pub mark_rolled_back : List TxnInfo → ℕ → List TxnInfo
mark_rolled_back [] txn = []
mark_rolled_back (t ∷ ts) txn =
    if t.txid == txn
    then record t { state = rolled_back; modified = [] } ∷ ts
    else t ∷ mark_rolled_back ts txn

unfoldable pub mvcc_rollback : EngineHandle → ℕ → EngineHandle
mvcc_rollback eng txn = record eng {
  active_txns = mark_rolled_back eng.active_txns txn;
  lock_mgr = lock_release eng.lock_mgr txn;
}

abbrev pub is_live : Option TxnInfo → Bool
is_live none = false
is_live (some t) = not (is_rolled_back t.state)

unfoldable pub txn_is_active : EngineHandle → ℕ → Bool
unfolding find_txn
txn_is_active eng txn = is_live (find_txn eng.active_txns txn)

-- The part of `garry_mvcc_set` and `garry_mvcc_delete` behind `if (ok)`: the page is noted for the
-- commit, unless sixteen are noted already.
unfoldable pub note_modified : List TxnInfo → ℕ → ℕ → List TxnInfo
note_modified [] txn page = []
note_modified (t ∷ ts) txn page =
    if t.txid == txn
    then (if ltb (length t.modified) max_modified_pages
        then record t { modified = t.modified ++ (page ∷ []) } ∷ ts
        else t ∷ ts)
    else t ∷ note_modified ts txn page

unfoldable pub mvcc_note : EngineHandle → ℕ → ℕ → EngineHandle
mvcc_note eng txn page = record eng { active_txns = note_modified eng.active_txns txn page }
