-- ===== src/Log/Framing.antt =====
-- The format of the log as the comments of db/log_format.h and doc/log.md describe it, apart from the
-- code of the writer and of the reader: how a record is cut into fragments at a block offset.
use mini_leveldb.Base.{
  ℕ, ◌+◌, ◌-◌, ◌/◌, ◌%◌, ◌^◌, ◌≤◌, ◌<◌, ◌≡◌, arith, Bool, true, false, List, [], ◌∷◌, ◌++◌,
}
use mini_leveldb.Base.{ltb, if◌then◌else◌, length, take, drop, replicate}
use mini_leveldb.Slice.{Slice}
use mini_leveldb.Coding.{encode_fixed32}
use mini_leveldb.Crc32c.{Checksum, value, mask}
use mini_leveldb.Log.{RecordType, full_type, first_type, middle_type, last_type, type_value}
use mini_leveldb.Log.{block_size, header_size}

-- Where the next header stands, the zeros before it, and the room for data behind it.
abbrev pub start : ℕ → ℕ
start offset = if ltb (block_size - offset) header_size then 0 else offset

abbrev pub trailer : ℕ → Slice
trailer offset =
    if ltb (block_size - offset) header_size then replicate (block_size - offset) 0 else []

abbrev pub room : ℕ → ℕ
room offset = block_size - start offset - header_size

-- A header and a full fragment end with the block.
pub start-room :
    (offset : ℕ) → offset ≤ block_size → start offset + (header_size + room offset) ≡ block_size
start-room offset h = ground arith

-- Checksum, length, type, data.
unfoldable pub record_bytes : Checksum → RecordType → Slice → Slice
record_bytes c t payload =
    encode_fixed32 (mask (value c (type_value t ∷ payload)))
    ++ ((length payload % 256 ∷ length payload / 2 ^ 8 % 256 ∷ type_value t ∷ []) ++ payload)

pub length-record_bytes :
    (c : Checksum) (t : RecordType) (payload : Slice)
    → length (record_bytes c t payload) ≡ header_size + length payload
unfolding record_bytes encode_fixed32
length-record_bytes c t payload = omega arith

-- The type of the last fragment of a record, and of one that more fragments follow: a whole record is
-- full, and otherwise the fragments are the first one, those in the middle, and the last one.
unfoldable pub end_type : (begin : Bool) → RecordType
end_type true = full_type
end_type false = last_type

unfoldable pub part_type : (begin : Bool) → RecordType
part_type true = first_type
part_type false = middle_type

-- `Framed c offset begin record bytes offset'`: from the block offset `offset` on, `bytes` are the
-- fragments of what is left of a record, and the next record starts at `offset'`. All that fits a
-- block goes into one fragment; otherwise a fragment fills the block.
pub data Framed (c : Checksum) : ℕ → Bool → Slice → Slice → ℕ → Type 0 where
  last :
      {offset : ℕ} {begin : Bool} {record' bytes : Slice} {offset' : ℕ}
      → length record' ≤ room offset
      → bytes ≡ trailer offset ++ record_bytes c (end_type begin) record'
      → offset' ≡ start offset + (header_size + length record')
      → Framed c offset begin record' bytes offset'
  more :
      {offset : ℕ} {begin : Bool} {record' bytes rest : Slice} {offset' : ℕ}
      → room offset < length record'
      → bytes
        ≡ (trailer offset ++ record_bytes c (part_type begin) (take (room offset) record')) ++ rest
      → Framed c block_size false (drop (room offset) record') rest offset'
      → Framed c offset begin record' bytes offset'

-- The records of a log, one after the other.
pub data FramedAll (c : Checksum) : ℕ → List Slice → Slice → ℕ → Type 0 where
  none_left :
      {offset : ℕ} {bytes : Slice} {offset' : ℕ}
      → bytes ≡ []
      → offset' ≡ offset
      → FramedAll c offset [] bytes offset'
  one_more :
      {offset middle offset' : ℕ} {record' bytes first rest : Slice} {records : List Slice}
      → bytes ≡ first ++ rest
      → Framed c offset true record' first middle
      → FramedAll c middle records rest offset'
      → FramedAll c offset (record' ∷ records) bytes offset'
