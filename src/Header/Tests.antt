-- ===== src/Header/Tests.antt =====
-- The theorems of the database header at the settings of a default database.
use garry.Base.{◌≡◌, arith}
use garry.Base.Buffer.{Buffer}
use garry.Header.{
  EngineSettings, DbHeader, write_db_header, read_db_header, compute_header_checksum,
}
use garry.Header.RoundTrip.{IsWords, read_db_header-write_db_header}

abbrev blank : Buffer
blank j = 0

abbrev default_settings : EngineSettings
default_settings = record {
  page_size = 4096;
  compression = 0;
  max_txns = 4;
  max_versions = 64;
  max_key_size = 256;
  max_subscripts = 16;
  btree_flags = 0;
  pool_size = 256;
  max_record_size = 16384;
}

abbrev default_header : DbHeader
default_header = record {
  magic = 0x5243_5350;
  version = 2;
  page_size = 4096;
  compression = 0;
  root_page = 1;
  free_list_head = 0xffff_ffff;
  total_pages = 1;
  max_txns = 4;
  max_versions = 64;
  max_key_size = 256;
  max_subscripts = 16;
  btree_flags = 0;
  next_txid = 1;
  checksum = 0;
}

default_header-IsWords : IsWords default_header
default_header-IsWords = record {
  magic = omega arith;
  version = omega arith;
  page_size = omega arith;
  compression = omega arith;
  root_page = omega arith;
  free_list_head = omega arith;
  total_pages = omega arith;
  max_txns = omega arith;
  max_versions = omega arith;
  max_key_size = omega arith;
  max_subscripts = omega arith;
  btree_flags = omega arith;
  next_txid = omega arith;
}

read_db_header-write_db_header_example :
    read_db_header (write_db_header blank default_header) ≡ record {
      magic = 0x5243_5350;
      version = 2;
      page_size = 4096;
      compression = 0;
      root_page = 1;
      free_list_head = 0xffff_ffff;
      total_pages = 1;
      max_txns = 4;
      max_versions = 64;
      max_key_size = 256;
      max_subscripts = 16;
      btree_flags = 0;
      next_txid = 1;
      checksum = compute_header_checksum (write_db_header blank default_header);
    }
read_db_header-write_db_header_example =
    read_db_header-write_db_header blank default_header default_header-IsWords
