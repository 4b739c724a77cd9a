-- ===== src/Wal.antt =====
-- src/wal_record.c, wal_record.h, wal_log.c and wal_log.h: the records of the write-ahead log, and the
-- file that they are appended to. Integers are copied as on a little-endian host.
pub mod Layout
pub mod Recovery
pub mod Append
pub mod Passes
pub mod Replay
pub mod Lost
mod Tests
use garry.Base.{
  ℕ, zero, suc, ◌+◌, ◌-◌, Option, none, some, Bool, true, false, not, ltb, leb, ◌==◌, if◌then◌else◌,
  ◌&&◌, ◌||◌, List, length,
}
use garry.Base.Buffer.{Buffer, copy_in, read_bytes}
use garry.Base.Word.{add32}
use garry.Endian.{write_int32}

pub data WalRecordKind : Type 0 where
  update : WalRecordKind
  commit : WalRecordKind
  abort : WalRecordKind
  checkpoint : WalRecordKind
  delete : WalRecordKind

-- The values of the enum.
unfoldable pub kind_code : WalRecordKind → ℕ
kind_code update = 0
kind_code commit = 1
kind_code abort = 2
kind_code checkpoint = 3
kind_code delete = 4

pub record WalRecord : Type 0 where
  pub kind : WalRecordKind
  pub txid : ℕ
  pub key : Buffer
  pub key_len : ℕ
  pub value_len : ℕ
  pub old_data : Buffer
  pub new_data : Buffer
  pub new_is_overflow : Bool
  pub new_overflow_head : ℕ

abbrev pub wal_record_size : ℕ
wal_record_size = 792

abbrev pub kind_off : ℕ
kind_off = 0

abbrev pub txid_off : ℕ
txid_off = 4

abbrev pub klen_off : ℕ
klen_off = 8

abbrev pub vlen_off : ℕ
vlen_off = 12

abbrev pub key_off : ℕ
key_off = 16

abbrev pub old_off : ℕ
old_off = 272

abbrev pub new_off : ℕ
new_off = 528

abbrev pub new_overflow_flag_off : ℕ
new_overflow_flag_off = 784

abbrev pub new_overflow_head_off : ℕ
new_overflow_head_off = 788

-- sizeof(garry_byte_array)
abbrev pub byte_array_size : ℕ
byte_array_size = 256

abbrev pub zeros : Buffer
zeros j = 0

-- The record after malloc, which succeeds, and memset.
abbrev pub blank_record : WalRecordKind → ℕ → WalRecord
blank_record kind txn = record {
  kind = kind;
  txid = txn;
  key = zeros;
  key_len = 0;
  value_len = 0;
  old_data = zeros;
  new_data = zeros;
  new_is_overflow = false;
  new_overflow_head = 0;
}

unfoldable pub make_commit_record : ℕ → WalRecord
make_commit_record txn = blank_record commit txn

unfoldable pub make_abort_record : ℕ → WalRecord
make_abort_record txn = blank_record abort txn

unfoldable pub make_checkpoint_record : ℕ → WalRecord
make_checkpoint_record txn = blank_record checkpoint txn

unfoldable pub make_delete_record : ℕ → List ℕ → WalRecord
make_delete_record txn key = record (blank_record delete txn) {
  key = copy_in zeros 0 key;
  key_len = length key;
}

-- `overflow_write` is `garry_overflow_write` on the pool, which changes the pool; `none` is NULL.
unfoldable pub make_update_record :
    {P : Type 0} → (P → List ℕ → P × Option ℕ) → P → ℕ → List ℕ → List ℕ → P × Option WalRecord
make_update_record overflow_write pool txn key new_val =
    let rec : WalRecord = record (blank_record update txn) {
      key = copy_in zeros 0 key;
      key_len = length key;
      value_len = length new_val;
    } in
    if leb (length new_val) byte_array_size
    then (pool, some (record rec { new_data = copy_in zeros 0 new_val }))
    else let (pool', result) = overflow_write pool new_val in
      elim result [
        | none ↦ (pool', none)
        | some head ↦
            (pool', some (record rec { new_is_overflow = true; new_overflow_head = head }))
      ]

-- The buffer that `wal_write_record` fills.
unfoldable pub record_buffer : WalRecord → Buffer
record_buffer rec =
    let b0 = write_int32 zeros kind_off (kind_code rec.kind) in
    let b1 = write_int32 b0 txid_off rec.txid in
    let b2 = write_int32 b1 klen_off rec.key_len in
    let b3 = write_int32 b2 vlen_off rec.value_len in
    let b4 = copy_in b3 key_off (read_bytes rec.key 0 byte_array_size) in
    let b5 = copy_in b4 old_off (read_bytes rec.old_data 0 byte_array_size) in
    let b6 = copy_in b5 new_off (read_bytes rec.new_data 0 byte_array_size) in
    let b7 = write_int32 b6 new_overflow_flag_off (if rec.new_is_overflow then 1 else 0) in
    write_int32 b7 new_overflow_head_off rec.new_overflow_head

-- An open file: its bytes, their number, and the position of the next read or write.
pub record LogFile : Type 0 where
  pub bytes : Buffer
  pub size : ℕ
  pub position : ℕ

-- `write` at the position, of which the system takes the first `taken` bytes.
unfoldable pub file_write_bytes : LogFile → Buffer → ℕ → LogFile
file_write_bytes file buf taken = record {
  bytes = λ j.
      if leb file.position j && ltb j (file.position + taken)
      then buf (j - file.position)
      else file.bytes j;
  size = if ltb file.size (file.position + taken) then file.position + taken else file.size;
  position = file.position + taken;
}

-- A `read` of a whole record; `none` for fewer bytes, which are read all the same. A read that fails
-- before the end of the file is not modelled.
unfoldable pub file_read : LogFile → Option Buffer × LogFile
file_read file =
    if leb (file.position + wal_record_size) file.size
    then (
      some (λ j. file.bytes (file.position + j)),
      record file { position = file.position + wal_record_size },
    )
    else (
      none,
      record file { position = if ltb file.position file.size then file.size else file.position },
    )

unfoldable pub file_seek_start : LogFile → LogFile
file_seek_start file = record file { position = 0 }

pub record WalLog : Type 0 where
  pub fd : LogFile
  pub is_open : Bool
  pub last_lsn : ℕ

-- The log over a file that could be opened.
unfoldable pub wal_log_init : LogFile → WalLog
wal_log_init fd = record { fd = fd; is_open = true; last_lsn = 0 }

-- The system takes `taken` bytes of the record.
unfoldable pub wal_write_record : WalLog → WalRecord → ℕ → WalLog × Bool
wal_write_record wal rec taken = (
  record wal { fd = file_write_bytes wal.fd (record_buffer rec) taken },
  taken == wal_record_size,
)

-- `none` is -1.
unfoldable pub wal_log_append : WalLog → WalRecord → ℕ → WalLog × Option ℕ
wal_log_append wal rec taken =
    if not wal.is_open
    then (wal, none)
    else let written = wal_write_record wal rec taken in
      if written.1
      then (record written.0 { last_lsn = add32 wal.last_lsn 1 }, some (add32 wal.last_lsn 1))
      else (written.0, none)

-- A closed log; the sync has no effect on what is read.
unfoldable pub wal_log_close : WalLog → WalLog
wal_log_close wal = if not wal.is_open then wal else record wal { is_open = false }
