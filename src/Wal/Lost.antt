-- ===== src/Wal/Lost.antt =====
-- What the replay of src/wal_recovery.c does with several updates of a key.
use garry.Base.{ℕ, ◌≡◌, Bool, true, false, ◌||◌, List, some}
use garry.Base.Word.{add32, slt}
use garry.Base.Buffer.{Buffer, read_bytes}
use garry.Endian.{read_int32}
use garry.Wal.{kind_off, txid_off, klen_off, key_off, wal_record_size}
use garry.Wal.Recovery.{Engine, is_committed, max_record_size}
use garry.Wal.Passes.{replay_list}

-- The record is an update of the key by a committed transaction that passes the tests of the replay.
pub record IsUpdateOf (committed key : List ℕ) (rec : Buffer) : Type 0 where
  pub kind : read_int32 rec kind_off ≡ 0
  pub committed_txid : is_committed committed (read_int32 rec txid_off) ≡ true
  pub length_ok :
      (slt (read_int32 rec klen_off) 0 || slt max_record_size (read_int32 rec klen_off)) ≡ false
  pub fits : slt wal_record_size (add32 key_off (read_int32 rec klen_off)) ≡ false
  pub same_key : read_bytes rec key_off (read_int32 rec klen_off) ≡ key

module _ {E : Type 0} (eng : Engine E) where
  -- The key is in the tree with a chain whose page is not to be given out again.
  pub record Known (e : E) (key : List ℕ) : Type 0 where
    pub chain_id : ℕ
    pub found : eng.find e key ≡ some chain_id
    pub reserved : slt (eng.next_page e) (add32 chain_id 1) ≡ false

  -- The pass over the records that follow one.
  abbrev after_record : List ℕ → List Buffer → E × Bool → E × Bool
  after_record committed recs (e, ok) = elim ok [
    | false ↦ (e, false)
    | true ↦ replay_list eng committed recs e
  ]
