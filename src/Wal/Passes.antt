-- ===== src/Wal/Passes.antt =====
-- The loops of the recovery end, and run over the whole records of the file in order.
use garry.Base.{
  ℕ, zero, suc, ◌+◌, ◌*◌, ◌/◌, ◌≤◌, ◌<◌, ◌≡◌, refl, sym, ◌∙◌, ap, subst, Bool, true, false, not,
  leb, ltb, ◌==◌, if◌then◌else◌, List, [], ◌∷◌, arith, Option, none, some,
}
use garry.Base.Buffer.{Buffer}
use garry.Endian.{read_int32}
use garry.Wal.{LogFile, WalLog, file_read, file_seek_start, wal_record_size, kind_off}
use garry.Wal.Recovery.{Engine, collect_record, collect_commits, replay_record, replay, wal_recover}

-- The records that are read from a position on.
unfoldable pub records_at : Buffer → ℕ → ℕ → List Buffer
records_at bytes pos zero = []
records_at bytes pos (suc count) =
    (λ j. bytes (pos + j)) ∷ records_at bytes (pos + wal_record_size) count

-- The whole records of a file.
abbrev pub records : LogFile → List Buffer
records file = records_at file.bytes 0 (file.size / wal_record_size)

unfoldable pub collect_list : List Buffer → List ℕ × ℕ → List ℕ × ℕ
collect_list [] state = state
collect_list (rec ∷ recs) state = collect_list recs (collect_record rec state)

-- A record that is no commit does not enter the first pass.
pub collect_record-skip :
    (rec : Buffer) (state : List ℕ × ℕ)
    → (read_int32 rec kind_off == 1) ≡ false
    → collect_record rec state ≡ state
unfolding collect_record
collect_record-skip rec state h = rw h refl

module _ {E : Type 0} (eng : Engine E) where
  -- The second pass over a list of records, which ends at a failure.
  unfoldable pub replay_list : List ℕ → List Buffer → E → E × Bool
  replay_list committed [] e = (e, true)
  replay_list committed (rec ∷ recs) e =
      let (e', ok) = replay_record eng committed rec e in
      elim ok [ false ↦ (e', false) | true ↦ replay_list committed recs e' ]

  -- The engine, `next_txid` and the result that a log of these records gives.
  unfoldable pub recover_list : List Buffer → E → ℕ → E × ℕ × Bool
  recover_list recs e next_txid =
      let (committed, next) = collect_list recs ([], next_txid) in
      let (e', ok) = replay_list committed recs e in (e', next, ok)

-- The file has room for `count` records from the position on, and for no more.
abbrev Room : LogFile → ℕ → Type 0
Room file count =
    (file.position + wal_record_size * count ≤ file.size)
    × (file.size < file.position + wal_record_size * (count + 1))

abbrev ended : LogFile → LogFile
ended file = record file { position = file.size }

abbrev advanced : LogFile → LogFile
advanced file = record file { position = file.position + wal_record_size }

file_read-last : (file : LogFile) → Room file 0 → file_read file ≡ (none, ended file)
unfolding file_read
file_read-last file (lo, hi) =
    let short : leb (file.position + wal_record_size) file.size ≡ false = ground arith in
    rw short (ap (λ n. (none, record file { position = n })) at_end)
  where
    at_end : (if ltb file.position file.size then file.size else file.position) ≡ file.size
    at_end = ground arith

file_read-next :
    (file : LogFile) (count : ℕ)
    → Room file (suc count)
    → file_read file ≡ (some (λ j. file.bytes (file.position + j)), advanced file)
unfolding file_read
file_read-next file count (lo, hi) =
    let whole : leb (file.position + wal_record_size) file.size ≡ true = ground arith in
    rw whole refl

collect_commits-records :
    (count fuel : ℕ) (file : LogFile) (state : List ℕ × ℕ)
    → Room file count
    → count < fuel
    → collect_commits fuel file state
      ≡ some (
        ended file,
        (collect_list (records_at file.bytes file.position count) state).0,
        (collect_list (records_at file.bytes file.position count) state).1,
      )
unfolding collect_commits collect_list records_at
collect_commits-records count zero file state room lt = absurd (omega arith)
collect_commits-records zero (suc fuel) file state room lt =
    let last = file_read-last file room in
    rw (ap (λ (r : Option Buffer × LogFile). r.0) last, collect_commits)
      (ap (λ (r : Option Buffer × LogFile). some (r.1, state.0, state.1)) last)
collect_commits-records (suc count) (suc fuel) file state room lt =
    let next = file_read-next file count room in
    rw
      (
        ap (λ (r : Option Buffer × LogFile). r.0) next,
        ap (λ (r : Option Buffer × LogFile). r.1) next,
        collect_commits,
      )
      (collect_commits-records count fuel (advanced file)
        (collect_record (λ j. file.bytes (file.position + j)) state)
        (omega (arith, room.0), omega (arith, room.1)) (omega arith))

module _ {E : Type 0} (eng : Engine E) where
  -- The second loop with the result `r`: the file keeps its bytes, and is read to its end if nothing
  -- fails.
  record Replayed (file : LogFile) (out : Option (LogFile × E × Bool)) (r : E × Bool) : Type 0 where
    fd : LogFile
    result : out ≡ some (fd, r.0, r.1)
    bytes : fd.bytes ≡ file.bytes
    size : fd.size ≡ file.size
    at_end : r.1 ≡ true → fd.position ≡ fd.size

  -- A round of the loop after its read.
  abbrev after_read : ℕ → List ℕ → E → Option Buffer × LogFile → Option (LogFile × E × Bool)
  after_read fuel committed e (result, file') = elim result [
    | none ↦ some (file', e, true)
    | some rec ↦
        let (e', ok) = replay_record eng committed rec e in
        elim ok [ false ↦ some (file', e', false) | true ↦ replay eng fuel file' committed e' ]
  ]

  replay-records :
      (count fuel : ℕ) (file : LogFile) (committed : List ℕ) (e : E)
      → Room file count
      → count < fuel
      → Replayed file
          (replay eng fuel file committed e)
          (replay_list eng committed (records_at file.bytes file.position count) e)
  unfolding replay replay_list records_at
  replay-records count zero file committed e room lt = absurd (omega arith)
  replay-records zero (suc fuel) file committed e room lt =
      let last = file_read-last file room in
      record {
        fd = ended file;
        result =
            rw (ap (λ (r : Option Buffer × LogFile). r.0) last, replay)
              (ap (λ (r : Option Buffer × LogFile). some (r.1, e, true)) last);
        bytes = refl;
        size = refl;
        at_end = λ h. refl;
      }
  replay-records (suc count) (suc fuel) file committed e room lt =
      subst
        (λ r.
          Replayed file (after_read fuel committed e r)
            (replay_list eng committed (records_at file.bytes file.position (suc count)) e))
        (sym (file_read-next file count room))
        (go (replay_record eng committed (λ j. file.bytes (file.position + j)) e) (λ e'.
          replay-records count fuel (advanced file) committed e'
            (omega (arith, room.0), omega (arith, room.1)) (omega arith)))
    where
      go :
          (r : E × Bool)
          → ((e' : E)
              → Replayed (advanced file) (replay eng fuel (advanced file) committed e') (
                  replay_list eng committed
                    (records_at file.bytes (file.position + wal_record_size) count)
                    e'))
          → Replayed file
              (elim r.1 [
                | false ↦ some (advanced file, r.0, false)
                | true ↦ replay eng fuel (advanced file) committed r.0
              ])
              (elim r.1 [
                | false ↦ (r.0, false)
                | true ↦
                    replay_list eng committed
                      (records_at file.bytes (file.position + wal_record_size) count)
                      r.0
              ])
      go (e', false) next = record {
        fd = advanced file;
        result = refl;
        bytes = refl;
        size = refl;
        at_end = λ h. absurd (cc);
      }
      go (e', true) next =
          let r = next e' in
          record { fd = r.fd; result = r.result; bytes = r.bytes; size = r.size; at_end = r.at_end }

  -- The recovery of an open log, after each of its passes.
  abbrev after_replay : WalLog → ℕ → Option (LogFile × E × Bool) → Option (WalLog × E × ℕ × Bool)
  after_replay wal next r = elim r [
    | none ↦ none
    | some (fd, e, ok) ↦ some (record wal { fd = fd }, e, next, ok)
  ]

  abbrev after_collect :
      ℕ → WalLog → E → Option (LogFile × List ℕ × ℕ) → Option (WalLog × E × ℕ × Bool)
  after_collect fuel wal e c = elim c [
    | none ↦ none
    | some (fd, committed, next) ↦
        after_replay wal next (replay eng fuel (file_seek_start fd) committed e)
  ]

  abbrev recover_body : ℕ → WalLog → E → ℕ → Option (WalLog × E × ℕ × Bool)
  recover_body fuel wal e next_txid =
      after_collect fuel wal e (collect_commits fuel (file_seek_start wal.fd) ([], next_txid))

  recover_opened :
      (fuel : ℕ) (wal : WalLog) (e : E) (next_txid : ℕ)
      → wal.is_open ≡ true
      → wal_recover eng fuel wal e next_txid ≡ recover_body fuel wal e next_txid
  unfolding wal_recover
  recover_opened fuel wal e next_txid opened =
      subst
        (λ b.
          (if not b then some (wal, e, next_txid, false) else recover_body fuel wal e next_txid)
          ≡ recover_body fuel wal e next_txid)
        (sym opened) refl

  -- With more fuel than the file has bytes the recovery of an open log ends, and its result is that
  -- of the whole records of the file in order. The bytes of the log stay, a torn record at its end
  -- among them, and a recovery that succeeds leaves the position at the end.
  pub wal_recover-records :
      (fuel : ℕ) (wal : WalLog) (e : E) (next_txid : ℕ)
      → wal.is_open ≡ true
      → wal.fd.size < fuel
      → (fd : LogFile) × (wal_recover eng fuel wal e next_txid ≡ (
          let (e', next, ok) = recover_list eng (records wal.fd) e next_txid in
          some (record wal { fd = fd }, e', next, ok)))
        × (fd.bytes ≡ wal.fd.bytes)
        × (fd.size ≡ wal.fd.size)
        × ((recover_list eng (records wal.fd) e next_txid).2 ≡ true → fd.position ≡ fd.size)
  unfolding recover_list file_seek_start
  wal_recover-records fuel wal e next_txid opened lt =
      let count : ℕ = wal.fd.size / wal_record_size in
      let file : LogFile = file_seek_start wal.fd in
      let room : Room file count = (omega arith, omega arith) in
      let state = collect_list (records wal.fd) ([], next_txid) in
      let again : LogFile = file_seek_start (ended file) in
      let r = replay-records count fuel again state.0 e room (omega arith) in
      (
        r.fd,
        recover_opened fuel wal e next_txid opened
            ∙ ap (after_collect fuel wal e)
                (collect_commits-records count fuel file ([], next_txid) room (omega arith))
            ∙ ap (after_replay wal state.1) r.result,
        r.bytes,
        r.size,
        r.at_end,
      )
