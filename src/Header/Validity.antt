-- ===== src/Header/Validity.antt =====
-- Which headers the database accepts when it is opened.
use garry.Base.{◌≡◌, true, ◌&&◌, arith}
use garry.Base.Buffer.{Buffer}
use garry.Base.Word.{slt}
use garry.Endian.{read_int32}
use garry.Header.{
  EngineSettings, off_header_checksum, page_size_ok, create_db_header, validate_db_header,
  read_db_header, compute_header_checksum,
}

-- A header created from settings is valid exactly when the page size is a multiple of 512 from 512 to
-- 65536 and the limits on transactions and on versions are positive.
pub validate-create_db_header :
    (settings : EngineSettings)
    → validate_db_header (create_db_header settings) ≡ (
        page_size_ok settings.page_size && (slt 0 settings.max_txns && slt 0 settings.max_versions))
unfolding create_db_header validate_db_header page_size_ok
validate-create_db_header settings = ground arith

-- A page whose stored checksum is not that of its header is not valid when it is read.
pub validate-read_db_header :
    (buf : Buffer)
    → validate_db_header (read_db_header buf) ≡ true
    → read_int32 buf off_header_checksum ≡ compute_header_checksum buf
unfolding read_db_header validate_db_header
validate-read_db_header buf h = ground arith
