-- ===== src/Wal/Append.antt =====
-- What an append leaves in the log, after whole records and after a torn one.
use garry.Base.{
  ℕ, zero, suc, ◌+◌, ◌-◌, ◌*◌, ◌/◌, ◌≤◌, ◌<◌, ◌≡◌, ◌≢◌, refl, sym, ◌∙◌, ap, subst, true, not, leb,
  ltb, ◌==◌, ◌&&◌, if◌then◌else◌, List, [], ◌∷◌, ◌++◌, length, arith, Option, none, some,
  length-append, ne→==,
}
use garry.Base.Word.{add32}
use garry.Base.Buffer.{Buffer, read_bytes-ext}
use garry.Endian.{read_int32}
use garry.Endian.Laws.{read_int32-ext}
use garry.Wal.{
  LogFile, WalLog, WalRecord, file_write_bytes, record_buffer, wal_write_record, wal_log_append,
  kind_off,
}
use garry.Wal.Layout.{IsWalRecord, Holds, record_buffer-Holds}
use garry.Wal.Recovery.{collect_record}
use garry.Wal.Passes.{records, records_at, collect_list, collect_record-skip}

Holds-ext :
    (b c : Buffer) (rec : WalRecord) → ((j : ℕ) → j < 792 → b j ≡ c j) → Holds b rec → Holds c rec
Holds-ext b c rec same h = record {
  kind = int 0 (omega arith) ∙ h.kind;
  txid = int 4 (omega arith) ∙ h.txid;
  key_len = int 8 (omega arith) ∙ h.key_len;
  value_len = int 12 (omega arith) ∙ h.value_len;
  is_overflow = int 784 (omega arith) ∙ h.is_overflow;
  head = int 788 (omega arith) ∙ h.head;
  key = λ n le. read_bytes-ext c b 16 n (λ i lo hi. sym (same i (omega arith))) ∙ h.key n le;
  new_data =
      λ n le. read_bytes-ext c b 528 n (λ i lo hi. sym (same i (omega arith))) ∙ h.new_data n le;
}
  where
    int : (o : ℕ) → o + 4 ≤ 792 → read_int32 c o ≡ read_int32 b o
    int o le = read_int32-ext c b o (λ i lo hi. sym (same i (omega arith)))

-- The records `recs` stand in the buffer one after the other, from `pos` on.
abbrev pub Logged : Buffer → ℕ → List WalRecord → Type 0
Logged bytes pos [] = Unit {0}
Logged bytes pos (rec ∷ recs) = Holds (λ j. bytes (pos + j)) rec × Logged bytes (pos + 792) recs

Logged-ext :
    (b c : Buffer) (pos : ℕ) (recs : List WalRecord)
    → ((j : ℕ) → j < pos + 792 * length recs → b j ≡ c j)
    → Logged b pos recs
    → Logged c pos recs
Logged-ext b c pos [] same h = tt
Logged-ext b c pos (rec ∷ recs) same h = (
  Holds-ext (λ j. b (pos + j)) (λ j. c (pos + j)) rec (λ j lt. same (pos + j) (omega arith)) h.0,
  Logged-ext b c (pos + 792) recs (λ j lt. same j (omega arith)) h.1,
)

Logged-snoc :
    (b : Buffer) (pos : ℕ) (recs : List WalRecord) (rec : WalRecord)
    → Logged b pos recs
    → Holds (λ j. b (pos + 792 * length recs + j)) rec
    → Logged b pos (recs ++ (rec ∷ []))
Logged-snoc b pos [] rec h last =
    let e : pos + 792 * 0 ≡ pos = omega arith in
    (subst (λ p. Holds (λ j. b (p + j)) rec) e last, tt)
Logged-snoc b pos (r ∷ recs) rec h last =
    let e : pos + 792 * length (r ∷ recs) ≡ pos + 792 + 792 * length recs = omega arith in
    (h.0, Logged-snoc b (pos + 792) recs rec h.1 (subst (λ p. Holds (λ j. b (p + j)) rec) e last))

-- An open log of the records `recs`, at its end.
pub record IsLog (wal : WalLog) (recs : List WalRecord) : Type 0 where
  pub opened : wal.is_open ≡ true
  pub size : wal.fd.size ≡ 792 * length recs
  pub position : wal.fd.position ≡ wal.fd.size
  pub logged : Logged wal.fd.bytes 0 recs

written_before :
    (file : LogFile) (buf : Buffer) (taken j : ℕ)
    → j < file.position
    → (file_write_bytes file buf taken).bytes j ≡ file.bytes j
unfolding file_write_bytes
written_before file buf taken j lt = ground arith

written_here :
    (file : LogFile) (buf : Buffer) (taken j : ℕ)
    → j < taken
    → (file_write_bytes file buf taken).bytes (file.position + j) ≡ buf j
unfolding file_write_bytes
written_here file buf taken j lt =
    let inside : (leb file.position (file.position + j)
          && ltb (file.position + j) (file.position + taken))
        ≡ true =
      ground arith in
    let e : file.position + j - file.position ≡ j = omega arith in rw (inside) (ap buf e)

written_size :
    (file : LogFile) (buf : Buffer) (taken : ℕ)
    → file.position ≡ file.size
    → (file_write_bytes file buf taken).size ≡ file.size + taken
unfolding file_write_bytes
written_size file buf taken e = ground arith

written_position :
    (file : LogFile) (buf : Buffer) (taken : ℕ)
    → (file_write_bytes file buf taken).position ≡ file.position + taken
unfolding file_write_bytes
written_position file buf taken = refl

-- The log after `taken` bytes of a record.
abbrev written : WalLog → WalRecord → ℕ → ℕ → WalLog
written wal rec taken lsn = record wal {
  fd = file_write_bytes wal.fd (record_buffer rec) taken;
  last_lsn = lsn;
}

append_opened :
    (wal : WalLog) (rec : WalRecord) (taken : ℕ)
    → wal.is_open ≡ true
    → wal_log_append wal rec taken ≡ (
        if taken == 792
        then (written wal rec taken (add32 wal.last_lsn 1), some (add32 wal.last_lsn 1))
        else (written wal rec taken wal.last_lsn, none))
unfolding wal_log_append wal_write_record
append_opened wal rec taken opened =
    subst (λ b. (if not b then (wal, none) else result) ≡ result) (sym opened) refl
  where
    result : WalLog × Option ℕ
    result =
        if taken == 792
        then (written wal rec taken (add32 wal.last_lsn 1), some (add32 wal.last_lsn 1))
        else (written wal rec taken wal.last_lsn, none)

written-IsLog :
    (wal : WalLog) (recs : List WalRecord) (rec : WalRecord) (lsn : ℕ)
    → IsLog wal recs
    → IsWalRecord rec
    → IsLog (written wal rec 792 lsn) (recs ++ (rec ∷ []))
written-IsLog wal recs rec lsn log ok = record {
  opened = log.opened;
  size =
      written_size wal.fd (record_buffer rec) 792 log.position
      ∙ omega (arith, log.size, length-append recs (rec ∷ []));
  position = end ∙ sym (written_size wal.fd (record_buffer rec) 792 log.position);
  logged =
      Logged-snoc after 0 recs rec
        (Logged-ext wal.fd.bytes after 0 recs
          (λ j lt. sym (
            written_before wal.fd (record_buffer rec) 792 j
              (omega (arith, log.position, log.size))))
          log.logged)
        (Holds-ext (record_buffer rec) (λ j. after (0 + 792 * length recs + j)) rec
          (λ j lt. sym (new j lt)) (record_buffer-Holds rec ok));
}
  where
    after : Buffer
    after = (file_write_bytes wal.fd (record_buffer rec) 792).bytes

    end : (file_write_bytes wal.fd (record_buffer rec) 792).position ≡ wal.fd.size + 792
    end = written_position wal.fd (record_buffer rec) 792 ∙ omega (arith, log.position)

    new : (j : ℕ) → j < 792 → after (0 + 792 * length recs + j) ≡ record_buffer rec j
    new j lt =
        let e : 0 + 792 * length recs + j ≡ wal.fd.position + j =
          omega (arith, log.position, log.size) in
        ap after e ∙ written_here wal.fd (record_buffer rec) 792 j lt

-- `garry_wal_log_append`, when the system takes the whole record: the log has the record behind those
-- it had, and the result is the next sequence number.
pub append-IsLog :
    (wal : WalLog) (recs : List WalRecord) (rec : WalRecord)
    → IsLog wal recs
    → IsWalRecord rec
    → IsLog (wal_log_append wal rec 792).0 (recs ++ (rec ∷ []))
      × ((wal_log_append wal rec 792).1 ≡ some (add32 wal.last_lsn 1))
append-IsLog wal recs rec log ok =
    let e = append_opened wal rec 792 log.opened in
    (
      subst (λ (r : WalLog × Option ℕ). IsLog r.0 (recs ++ (rec ∷ []))) (sym e)
          (written-IsLog wal recs rec (add32 wal.last_lsn 1) log ok),
      ap (λ (r : WalLog × Option ℕ). r.1) e,
    )

collect_record-ext :
    (b c : Buffer) (state : List ℕ × ℕ)
    → ((j : ℕ) → j < 792 → b j ≡ c j)
    → collect_record b state ≡ collect_record c state
unfolding collect_record
collect_record-ext b c state same = rw (int 0 (omega arith), int 4 (omega arith)) refl
  where
    int : (o : ℕ) → o + 4 ≤ 792 → read_int32 b o ≡ read_int32 c o
    int o le = read_int32-ext b c o (λ i lo hi. same i (omega arith))

collect_list-ext :
    (b c : Buffer) (pos count : ℕ) (state : List ℕ × ℕ)
    → ((j : ℕ) → j < pos + 792 * count → b j ≡ c j)
    → collect_list (records_at b pos count) state ≡ collect_list (records_at c pos count) state
unfolding collect_list records_at
collect_list-ext b c pos zero state same = refl
collect_list-ext b c pos (suc count) state same =
    ap (collect_list (records_at b (pos + 792) count)) (
      collect_record-ext (λ j. b (pos + j)) (λ j. c (pos + j)) state
        (λ j lt. same (pos + j) (omega arith)))
    ∙ collect_list-ext b c (pos + 792) count (collect_record (λ j. c (pos + j)) state)
        (λ j lt. same j (omega arith))

-- One record more at the end.
collect_list-snoc :
    (b : Buffer) (pos count : ℕ) (state : List ℕ × ℕ)
    → collect_list (records_at b pos (suc count)) state
      ≡ collect_record
          (λ j. b (pos + 792 * count + j))
          (collect_list (records_at b pos count) state)
unfolding collect_list records_at
collect_list-snoc b pos zero state =
    let e : pos + 792 * 0 ≡ pos = omega arith in
    ap (λ p. collect_record (λ j. b (p + j)) state) (sym e)
collect_list-snoc b pos (suc count) state =
    let e : pos + 792 + 792 * count ≡ pos + 792 * suc count = omega arith in
    collect_list-snoc b (pos + 792) count (collect_record (λ j. b (pos + j)) state)
    ∙ ap
        (λ p.
          collect_record (λ j. b (p + j))
            (collect_list (records_at b (pos + 792) count)
              (collect_record (λ j. b (pos + j)) state)))
        e

-- A log that ends with `t` bytes of a record, after a crash or a failed append, where the first four
-- are there and are not the kind of a commit: the next record is appended in full and reported as
-- appended, but the first pass of a later recovery gives the same committed transactions as before,
-- also if that record is a commit.
pub append_after_torn :
    (wal : WalLog) (n t : ℕ) (rec : WalRecord) (state : List ℕ × ℕ)
    → wal.is_open ≡ true
    → wal.fd.size ≡ 792 * n + t
    → wal.fd.position ≡ wal.fd.size
    → 4 ≤ t
    → t < 792
    → read_int32 (λ j. wal.fd.bytes (792 * n + j)) kind_off ≢ 1
    → ((wal_log_append wal rec 792).1 ≡ some (add32 wal.last_lsn 1))
      × (collect_list (records (wal_log_append wal rec 792).0.fd) state
          ≡ collect_list (records wal.fd) state)
append_after_torn wal n t rec state opened size position lo hi kind =
    let e = append_opened wal rec 792 opened in
    (
      ap (λ (r : WalLog × Option ℕ). r.1) e,
      ap (λ (r : WalLog × Option ℕ). collect_list (records r.0.fd) state) e
          ∙ ap (λ m. collect_list (records_at after 0 m) state) count_after
          ∙ collect_list-snoc after 0 n state
          ∙ collect_record-skip (λ j. after (0 + 792 * n + j))
              (collect_list (records_at after 0 n) state) (ne→== _ _ torn)
          ∙ collect_list-ext after wal.fd.bytes 0 n state (λ j lt. same j (omega arith))
          ∙ ap (λ m. collect_list (records_at wal.fd.bytes 0 m) state) count_before,
    )
  where
    file : LogFile
    file = file_write_bytes wal.fd (record_buffer rec) 792

    after : Buffer
    after = file.bytes

    count_after : file.size / 792 ≡ suc n
    count_after = omega (arith, written_size wal.fd (record_buffer rec) 792 position)

    count_before : n ≡ wal.fd.size / 792
    count_before = omega arith

    same : (j : ℕ) → j < 792 * n + t → after j ≡ wal.fd.bytes j
    same j lt = written_before wal.fd (record_buffer rec) 792 j (omega arith)

    torn : read_int32 (λ j. after (0 + 792 * n + j)) kind_off ≢ 1
    torn h = kind (
        read_int32-ext (λ j. wal.fd.bytes (792 * n + j)) (λ j. after (0 + 792 * n + j)) kind_off
          (λ j le lt.
            let e : 0 + 792 * n + j ≡ 792 * n + j = omega arith in
            sym (ap after e ∙ same (792 * n + j) (omega arith)))
        ∙ h)
