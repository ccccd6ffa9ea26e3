-- ===== src/Log/Writer.antt =====
-- db/log_writer.h and db/log_writer.cc: the log writer, over any file and any checksum.
use mini_leveldb.Base.{ℕ, zero, suc, ◌+◌, ◌-◌, ◌/◌, ◌%◌, ◌^◌, Bool, true, false, ◌&&◌}
use mini_leveldb.Base.{List, [], ◌∷◌, ◌++◌, Option, none, some, ltb, ◌==◌, if◌then◌else◌}
use mini_leveldb.Base.{length, take, drop, get_or, replicate}
use mini_leveldb.Slice.{Slice}
use mini_leveldb.Coding.{encode_fixed32}
use mini_leveldb.Status.{Status, is_ok}
use mini_leveldb.Crc32c.{Checksum, value, mask}
use mini_leveldb.Env.{WritableFile}
use mini_leveldb.Log.{RecordType, full_type, first_type, middle_type, last_type, type_value}
use mini_leveldb.Log.{max_record_type, block_size, header_size}

pub record Writer (F : Type 0) : Type 0 where
  pub dest : F
  pub block_offset : ℕ
  pub type_crc : List ℕ

-- `for (int i = 0; i <= kMaxRecordType; i++)`, from the count of the values still to be stored.
pub type_crc_loop : Checksum → (left i : ℕ) → List ℕ
type_crc_loop c zero i = []
type_crc_loop c (suc left) i = value c (i ∷ []) ∷ type_crc_loop c left (i + 1)

unfoldable pub init_type_crc : Checksum → List ℕ
unfolding type_crc_loop
init_type_crc c = type_crc_loop c (max_record_type + 1) 0

-- The two constructors; the first one starts in an empty file.
unfoldable pub new_writer_at : {F : Type 0} → Checksum → F → ℕ → Writer F
unfolding init_type_crc
new_writer_at c dest dest_length = record {
  dest = dest;
  block_offset = dest_length % block_size;
  type_crc = init_type_crc c;
}

unfoldable pub new_writer : {F : Type 0} → Checksum → F → Writer F
unfolding init_type_crc
new_writer c dest = record { dest = dest; block_offset = 0; type_crc = init_type_crc c }

-- The record type of a fragment: `begin` and `end` say whether it is the first and the last one.
unfoldable pub fragment_type : (begin end : Bool) → RecordType
fragment_type true true = full_type
fragment_type true false = first_type
fragment_type false true = last_type
fragment_type false false = middle_type

module _ {F : Type 0} (crc32c : Checksum) (file : WritableFile F) where
  -- The three writes of `EmitPhysicalRecord`, each made only if those before it succeeded.
  unfoldable pub write_record : Slice → Slice → F → F × Status
  write_record buf payload dest =
      let (dest1, s1) = file.append buf dest in
      let (dest2, s2) = file.append payload dest1 in
      if is_ok s1 then (if is_ok s2 then file.flush dest2 else (dest2, s2)) else (dest1, s1)

  unfoldable pub emit_physical_record : RecordType → Slice → ℕ → Writer F → Writer F × Status
  unfolding write_record
  emit_physical_record t ptr len w =
      let payload = take len ptr in
      let crc = mask (crc32c.extend (get_or w.type_crc (type_value t) 0) payload) in
      let buf = encode_fixed32 crc ++ len % 256 ∷ len / 2 ^ 8 % 256 ∷ type_value t ∷ [] in
      let (dest, s) = write_record buf payload w.dest in
      (record w { dest = dest; block_offset = w.block_offset + (header_size + len) }, s)

  -- The rest of a block that is too short for a header is filled with zeros; the status of that
  -- `Append` is dropped.
  unfoldable pub switch_block : Writer F → Writer F
  switch_block w =
      let leftover = block_size - w.block_offset in
      let (padded, _) = file.append (replicate leftover 0) w.dest in
      if ltb leftover header_size
      then record w { dest = (if ltb 0 leftover then padded else w.dest); block_offset = 0 }
      else w

  -- The do-while loop of `AddRecord`; `none` means that the fuel ran out.
  unfoldable pub add_record_loop : ℕ → Slice → Bool → Writer F → Option (Writer F × Status)
  add_record_loop zero ptr begin w = none
  add_record_loop (suc fuel) ptr begin w =
      let w1 = switch_block w in
      let left = length ptr in
      let avail = block_size - w1.block_offset - header_size in
      let fragment_length = if ltb left avail then left else avail in
      let end = left == fragment_length in
      let (w2, s) = emit_physical_record (fragment_type begin end) ptr fragment_length w1 in
      let rest = add_record_loop fuel (drop fragment_length ptr) false w2 in
      if is_ok s && ltb 0 (left - fragment_length) then rest else some (w2, s)

  -- A round writes a byte at least, but for a first one that finds no room behind the header.
  unfoldable pub add_record : Slice → Writer F → Option (Writer F × Status)
  unfolding add_record_loop
  add_record slice w = add_record_loop (length slice + 2) slice true w
