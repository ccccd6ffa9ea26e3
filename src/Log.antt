-- ===== src/Log.antt =====
-- db/log_format.h: the format of the log. The writer and the reader are in the modules below.
pub mod Writer
pub mod Reader
pub mod Framing
pub mod Written
pub mod Stream
pub mod RoundTrip
pub mod WholeLog
pub mod Terminates
use mini_leveldb.Base.{ℕ}

pub data RecordType : Type 0 where
  zero_type full_type first_type middle_type last_type : RecordType

abbrev pub type_value : RecordType → ℕ
type_value zero_type = 0
type_value full_type = 1
type_value first_type = 2
type_value middle_type = 3
type_value last_type = 4

abbrev pub max_record_type : ℕ
max_record_type = type_value last_type

abbrev pub block_size : ℕ
block_size = 32768

abbrev pub header_size : ℕ
header_size = 7
