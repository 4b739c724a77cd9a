-- ===== src/Wal/Tests.antt =====
-- The theorems of the log at concrete logs, over an engine that keeps its versions in a list.
use garry.Base.{
  ℕ, ◌+◌, ◌≡◌, refl, Option, none, some, Bool, true, false, ◌==◌, ◌&&◌, if◌then◌else◌, List, [],
  ◌∷◌, arith, ==_refl,
}
use garry.Base.Buffer.{Buffer, read_bytes}
use garry.Base.Word.{add32, slt}
use garry.Endian.{read_int32}
use garry.Wal.{
  WalRecord, WalLog, LogFile, zeros, record_buffer, make_commit_record, wal_log_append,
  blank_record, update,
}
use garry.Wal.Layout.{IsWalRecord, Holds, record_buffer-Holds}
use garry.Wal.Append.{IsLog, append-IsLog, append_after_torn}
use garry.Wal.Recovery.{
  replay_update, replay_new, replay_apply, Engine, wal_recover, collect_record, is_committed,
  replay_record, replay_value, reserve_page,
}
use garry.Wal.Passes.{replay_list, records, collect_list, recover_list, wal_recover-records}
use garry.Wal.Replay.{has_commit, recover_list-uncommitted, has_commit-next}

record Memory : Type 0 where
  chains : List (List ℕ × ℕ)
  versions : List (ℕ × ℕ × List ℕ)
  page : ℕ

same_key : List ℕ → List ℕ → Bool
same_key [] [] = true
same_key (x ∷ xs) (y ∷ ys) = x == y && same_key xs ys
same_key xs ys = false

same_key_refl : (xs : List ℕ) → same_key xs xs ≡ true
unfolding same_key
same_key_refl [] = refl
same_key_refl (x ∷ xs) = rw (==_refl x) (same_key_refl xs)

find_chain : List (List ℕ × ℕ) → List ℕ → Option ℕ
find_chain [] key = none
find_chain ((k, cid) ∷ chains) key =
    let more = find_chain chains key in if same_key k key then some cid else more

abbrev memory : Engine Memory
memory = record {
  find = λ e key. find_chain e.chains key;
  mvcc_delete = λ e txid cid. e;
  overflow_value = λ e head vlen. none;
  next_page = λ e. e.page;
  set_next_page = λ e page. record e { page = page };
  chain_allocate = λ e key. (record e { page = e.page + 1 }, some e.page);
  insert = λ e key cid. record e { chains = (key, cid) ∷ e.chains };
  compression = λ e. false;
  lz4_compress = λ val. none;
  mvcc_set = λ e txid cid val. (record e { versions = (txid, cid, val) ∷ e.versions }, true);
}

abbrev no_keys : Memory
no_keys = record { chains = []; versions = []; page = 5 }

abbrev set_record : WalRecord
set_record = record (blank_record update 3) { key_len = 1; value_len = 2 }

set_record-IsWalRecord : IsWalRecord set_record
set_record-IsWalRecord = record {
  txid_bound = omega arith;
  key_len_bound = omega arith;
  value_len_bound = omega arith;
  head_bound = omega arith;
}

record_buffer-Holds_example : Holds (record_buffer set_record) set_record
record_buffer-Holds_example = record_buffer-Holds set_record set_record-IsWalRecord

abbrev empty_log : WalLog
empty_log = record {
  fd = record { bytes = zeros; size = 0; position = 0 };
  is_open = true;
  last_lsn = 0;
}

append-IsLog_example :
    IsLog (wal_log_append empty_log set_record 792).0 (set_record ∷ [])
    × ((wal_log_append empty_log set_record 792).1 ≡ some (add32 0 1))
append-IsLog_example =
    append-IsLog empty_log [] set_record
      (record { opened = refl; size = refl; position = refl; logged = tt }) set_record-IsWalRecord

-- Eight bytes of an update, which a crash left.
abbrev torn_log : WalLog
torn_log = record {
  fd = record { bytes = zeros; size = 8; position = 8 };
  is_open = true;
  last_lsn = 0;
}

append_after_torn_example :
    ((wal_log_append torn_log (make_commit_record 3) 792).1 ≡ some (add32 torn_log.last_lsn 1))
    × (collect_list (records (wal_log_append torn_log (make_commit_record 3) 792).0.fd) ([], 1)
        ≡ collect_list (records torn_log.fd) ([], 1))
unfolding read_int32
append_after_torn_example =
    append_after_torn torn_log 0 8 (make_commit_record 3) ([], 1) refl refl refl (omega arith)
      (omega arith) (omega arith)

-- A commit of transaction 7, and updates of the one-byte key 9 by transaction 7.
abbrev commit_7 : Buffer
commit_7 j = if j == 0 then 1 else if j == 4 then 7 else 0

abbrev update_7 : ℕ → Buffer
update_7 x j =
    if j == 4
    then 7
    else if j == 8
    then 1
    else if j == 12
    then 1
    else if j == 16
    then 9
    else if j == 528
    then x
    else 0

abbrev log_7 : WalLog
log_7 = record {
  fd = record { bytes = commit_7; size = 792; position = 0 };
  is_open = true;
  last_lsn = 0;
}

wal_recover-records_example :
    (fd : LogFile) × (wal_recover memory 800 log_7 no_keys 1 ≡ (
      let (e', next, ok) = recover_list memory (records log_7.fd) no_keys 1 in
      some (record log_7 { fd = fd }, e', next, ok)))
    × (fd.bytes ≡ log_7.fd.bytes)
    × (fd.size ≡ log_7.fd.size)
    × ((recover_list memory (records log_7.fd) no_keys 1).2 ≡ true → fd.position ≡ fd.size)
wal_recover-records_example = wal_recover-records memory 800 log_7 no_keys 1 refl (omega arith)

-- The update of a transaction without a commit.
abbrev update_5 : Buffer
update_5 j = if j == 4 then 5 else if j == 8 then 1 else 0

recover_list-uncommitted_example :
    recover_list memory (update_7 4 ∷ update_5 ∷ commit_7 ∷ []) no_keys 1
    ≡ recover_list memory (update_7 4 ∷ commit_7 ∷ []) no_keys 1
unfolding read_int32 has_commit
recover_list-uncommitted_example =
    recover_list-uncommitted memory (update_7 4 ∷ []) (commit_7 ∷ []) update_5 no_keys 1 refl refl

has_commit-next_example :
    slt (collect_list (update_5 ∷ commit_7 ∷ []) ([], 1)).1 (add32 7 1) ≡ false
unfolding read_int32 has_commit
has_commit-next_example = has_commit-next (update_5 ∷ commit_7 ∷ []) ([], 1) 7 refl

-- The second value of the key is not written.
recover_list_lem :
    recover_list memory (update_7 4 ∷ update_7 8 ∷ commit_7 ∷ []) no_keys 1
    ≡ (record { chains = (9 ∷ [], 5) ∷ []; versions = (7, 5, 4 ∷ []) ∷ []; page = 6 }, 8, true)
unfolding recover_list replay_list collect_list replay_record collect_record read_int32 is_committed
    replay_update replay_value find_chain replay_new replay_apply same_key read_bytes reserve_page
recover_list_lem = refl
