-- ===== src/Wal/Recovery.antt =====
-- src/wal_recovery.c and wal_checkpoint.c: the two passes over the log, and its truncation. Allocation
-- succeeds.
use garry.Base.{
  ℕ, zero, suc, Option, none, some, Bool, true, false, not, ◌==◌, if◌then◌else◌, ◌&&◌, ◌||◌, List,
  [], ◌∷◌, ◌++◌,
}
use garry.Base.Buffer.{Buffer, read_bytes}
use garry.Base.Word.{add32, slt}
use garry.Endian.{read_int32}
use garry.Wal.{
  LogFile, WalLog, file_read, file_seek_start, wal_record_size, kind_off, txid_off, klen_off,
  vlen_off, key_off, new_off, new_overflow_flag_off, new_overflow_head_off,
}

abbrev pub max_record_size : ℕ
max_record_size = 16384

-- The parts of the engine that the replay calls. `find` is `garry_leaf_find_search` at the root of
-- the tree, with the chain id that the descriptor holds; `insert` is `garry_btree_insert` of a
-- descriptor of the chain, whose result is not read.
pub record Engine (E : Type 0) : Type 0 where
  pub find : E → List ℕ → Option ℕ
  pub mvcc_delete : E → ℕ → ℕ → E
  pub overflow_value : E → ℕ → ℕ → Option (List ℕ)
  pub next_page : E → ℕ
  pub set_next_page : E → ℕ → E
  pub chain_allocate : E → List ℕ → E × Option ℕ
  pub insert : E → List ℕ → ℕ → E
  pub compression : E → Bool
  pub lz4_compress : List ℕ → Option (List ℕ)
  pub mvcc_set : E → ℕ → ℕ → List ℕ → E × Bool

-- One record of the first pass: the list of committed ids, and `next_txid`.
unfoldable pub collect_record : Buffer → List ℕ × ℕ → List ℕ × ℕ
collect_record rec (committed, next_txid) =
    let txid = read_int32 rec txid_off in
    if read_int32 rec kind_off == 1
    then (
      committed ++ (txid ∷ []),
      if slt next_txid (add32 txid 1) then add32 txid 1 else next_txid,
    )
    else (committed, next_txid)

-- The first loop, `none` if the fuel runs out.
unfoldable pub collect_commits : ℕ → LogFile → List ℕ × ℕ → Option (LogFile × List ℕ × ℕ)
collect_commits zero file state = none
collect_commits (suc fuel) file state =
    let (result, file') = file_read file in
    elim result [
      | none ↦ some (file', state.0, state.1)
      | some rec ↦ collect_commits fuel file' (collect_record rec state)
    ]

-- The search in `committed`.
unfoldable pub is_committed : List ℕ → ℕ → Bool
is_committed [] txid = false
is_committed (t ∷ ts) txid = let more = is_committed ts txid in if t == txid then true else more

module _ {E : Type 0} (eng : Engine E) where
  -- The value of an update, `none` where the record is passed over.
  unfoldable pub replay_value : E → Buffer → Option (List ℕ)
  replay_value e rec =
      let vlen = read_int32 rec vlen_off in
      if slt vlen 0 || slt max_record_size vlen
      then none
      else if not (read_int32 rec new_overflow_flag_off == 0)
      then eng.overflow_value e (read_int32 rec new_overflow_head_off) vlen
      else if slt wal_record_size (add32 new_off vlen)
      then none
      else some (read_bytes rec new_off vlen)

  -- A version of a key that is new in the tree; `false` ends the recovery.
  unfoldable pub replay_apply : E → ℕ → ℕ → List ℕ → E × Bool
  replay_apply e cid txid val =
      if eng.compression e
      then elim (eng.lz4_compress val) [
        | none ↦ (e, false)
        | some compressed ↦ eng.mvcc_set e txid cid compressed
      ]
      else eng.mvcc_set e txid cid val

  unfoldable pub replay_new : E → ℕ → List ℕ → List ℕ → E × Bool
  replay_new e txid key val =
      let (e', result) = eng.chain_allocate e key in
      elim result [
        | none ↦ (e', false)
        | some cid ↦ replay_apply (eng.insert e' key cid) cid txid val
      ]

  -- The chain page of a key that is in the tree is taken.
  unfoldable pub reserve_page : E → ℕ → E
  reserve_page e chain_id =
      if slt (eng.next_page e) (add32 chain_id 1) then eng.set_next_page e (add32 chain_id 1) else e

  unfoldable pub replay_update : E → ℕ → List ℕ → Buffer → E × Bool
  replay_update e txid key rec = elim (replay_value e rec) [
    | none ↦ (e, true)
    | some val ↦ elim (eng.find e key) [
      | some chain_id ↦ (reserve_page e chain_id, true)
      | none ↦ replay_new e txid key val
    ]
  ]

  unfoldable pub replay_delete : E → ℕ → List ℕ → E
  replay_delete e txid key = elim (eng.find e key) [
    | none ↦ e
    | some chain_id ↦ eng.mvcc_delete e txid chain_id
  ]

  -- One record of the second pass.
  unfoldable pub replay_record : List ℕ → Buffer → E → E × Bool
  replay_record committed rec e =
      let kind = read_int32 rec kind_off in
      let txid = read_int32 rec txid_off in
      let klen = read_int32 rec klen_off in
      let key = read_bytes rec key_off klen in
      if not (kind == 0) && not (kind == 4)
      then (e, true)
      else if not (is_committed committed txid)
      then (e, true)
      else if slt klen 0 || slt max_record_size klen
      then (e, true)
      else if slt wal_record_size (add32 key_off klen)
      then (e, true)
      else if kind == 4
      then (replay_delete e txid key, true)
      else replay_update e txid key rec

  -- The second loop.
  unfoldable pub replay : ℕ → LogFile → List ℕ → E → Option (LogFile × E × Bool)
  replay zero file committed e = none
  replay (suc fuel) file committed e =
      let (result, file') = file_read file in
      elim result [
        | none ↦ some (file', e, true)
        | some rec ↦
            let (e', ok) = replay_record committed rec e in
            elim ok [ false ↦ some (file', e', false) | true ↦ replay fuel file' committed e' ]
      ]

  -- The log, the engine with its `next_txid`, and the result; `none` if the fuel runs out.
  unfoldable pub wal_recover : ℕ → WalLog → E → ℕ → Option (WalLog × E × ℕ × Bool)
  wal_recover fuel wal e next_txid =
      if not wal.is_open
      then some (wal, e, next_txid, false)
      else elim (collect_commits fuel (file_seek_start wal.fd) ([], next_txid)) [
        | none ↦ none
        | some (fd, committed, next) ↦ elim (replay fuel (file_seek_start fd) committed e) [
          | none ↦ none
          | some (fd', e', ok) ↦ some (record wal { fd = fd' }, e', next, ok)
        ]
      ]

-- `ftruncate` to no bytes, which leaves the position where it is.
unfoldable pub file_truncate : LogFile → LogFile
file_truncate file = record file { size = 0; bytes = λ j. 0 }

-- The log, the engine after `garry_mvcc_gc` and `garry_pool_flush_all`, and the checkpoint's sequence
-- number; `none` is GARRY_FALSE.
unfoldable pub wal_checkpoint :
    {E : Type 0} → (E → E) → (E → E) → WalLog → E → Option (WalLog × E × ℕ)
wal_checkpoint mvcc_gc pool_flush_all wal e =
    if not wal.is_open
    then none
    else some (
      record wal { fd = file_truncate wal.fd; last_lsn = 0 },
      pool_flush_all (mvcc_gc e),
      wal.last_lsn,
    )
