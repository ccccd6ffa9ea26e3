-- ===== src/Log/Reader.antt =====
-- db/log_reader.h and db/log_reader.cc: the log reader, over any file and any checksum. A field of
-- the state stands for each member; `reports` lists the calls of `Reporter::Corruption` made so far.
use mini_leveldb.Base.{ℕ, zero, suc, ◌+◌, ◌-◌, ◌*◌, ◌%◌, ◌^◌, Bool, true, false, ◌&&◌, not}
use mini_leveldb.Base.{List, [], ◌∷◌, ◌++◌, Option, none, some, ltb, leb, ◌==◌, if◌then◌else◌}
use mini_leveldb.Base.{length, take, drop, get_or, bit_or}
use mini_leveldb.Base.Text.{codes, decimal}
use mini_leveldb.Slice.{Slice}
use mini_leveldb.Coding.{decode_fixed32}
use mini_leveldb.Status.{Status, is_ok, make_corruption}
use mini_leveldb.Crc32c.{Checksum, value, unmask}
use mini_leveldb.Env.{SequentialFile}
use mini_leveldb.Log.{max_record_type, block_size, header_size}
use mini_leveldb.Log.{type_value, zero_type, full_type, first_type, middle_type, last_type}

-- The two results of `ReadPhysicalRecord` beside the record types.
abbrev pub eof_type : ℕ
eof_type = max_record_type + 1

abbrev pub bad_record : ℕ
bad_record = max_record_type + 2

pub record Reader (F : Type 0) : Type 0 where
  pub file : F
  pub has_reporter : Bool
  pub checksum : Bool
  pub buffer : Slice
  pub eof : Bool
  pub last_record_offset : ℕ
  pub end_of_buffer_offset : ℕ
  pub initial_offset : ℕ
  pub resyncing : Bool
  pub reports : List (ℕ × Status)

unfoldable pub new_reader : {F : Type 0} → F → Bool → Bool → ℕ → Reader F
new_reader file has_reporter checksum initial_offset = record {
  file = file;
  has_reporter = has_reporter;
  checksum = checksum;
  buffer = [];
  eof = false;
  last_record_offset = 0;
  end_of_buffer_offset = 0;
  initial_offset = initial_offset;
  resyncing = ltb 0 initial_offset;
  reports = [];
}

-- Subtraction and addition of uint64_t.
abbrev pub sub64 : ℕ → ℕ → ℕ
sub64 a b = (a + 2 ^ 64 - b % 2 ^ 64) % 2 ^ 64

abbrev pub add64 : ℕ → ℕ → ℕ
add64 a b = (a + b) % 2 ^ 64

unfoldable pub report_drop : {F : Type 0} → ℕ → Status → Reader F → Reader F
report_drop bytes reason r =
    let begin = sub64 (sub64 r.end_of_buffer_offset (length r.buffer)) bytes in
    if r.has_reporter && leb r.initial_offset begin
    then record r { reports = r.reports ++ ((bytes, reason) ∷ []) }
    else r

unfoldable pub report_corruption : {F : Type 0} → ℕ → Slice → Reader F → Reader F
unfolding report_drop
report_corruption bytes reason r = report_drop bytes (make_corruption reason []) r

-- What one turn of the loop of `ReadRecord` starts with: its local variables.
pub record Locals : Type 0 where
  pub in_fragmented_record : Bool
  pub scratch : Slice
  pub prospective_record_offset : ℕ
  pub fragment : Slice

-- How a turn ends: the method returns, with the record if there is one, or the loop goes on.
pub data Turn (F : Type 0) : Type 0 where
  returns : Reader F → Option Slice → Turn F
  goes_on : Reader F → Locals → Turn F

-- `const unsigned int type = header[6]`: a char above 127 is negative, and is sign-extended.
abbrev pub char_to_unsigned : ℕ → ℕ
char_to_unsigned b = if ltb b 128 then b else 2 ^ 32 - 256 + b

-- `if (in_fragmented_record) { if (!scratch->empty()) ReportCorruption(...) }`
unfoldable pub report_partial : {F : Type 0} → Locals → Slice → Reader F → Reader F
unfolding report_corruption
report_partial l reason r =
    if l.in_fragmented_record && ltb 0 (length l.scratch)
    then report_corruption (length l.scratch) reason r
    else r

-- The switch of `ReadRecord` on the type of the physical record that was read.
unfoldable pub dispatch : {F : Type 0} → ℕ → ℕ → Locals → Reader F → Turn F
unfolding report_partial report_corruption
dispatch record_type physical_record_offset l r =
    if record_type == type_value full_type
    then returns
        (record (report_partial l (codes "partial record without end(1)") r) {
          last_record_offset = physical_record_offset;
        })
        (some l.fragment)
    else if record_type == type_value first_type
    then goes_on (report_partial l (codes "partial record without end(2)") r) (record {
      in_fragmented_record = true;
      scratch = l.fragment;
      prospective_record_offset = physical_record_offset;
      fragment = l.fragment;
    })
    else if record_type == type_value middle_type
    then (if l.in_fragmented_record
        then goes_on r (record l { scratch = l.scratch ++ l.fragment })
        else goes_on
            (report_corruption (length l.fragment) (codes "missing start of fragmented record(1)")
              r)
            l)
    else if record_type == type_value last_type
    then (if l.in_fragmented_record
        then returns (record r { last_record_offset = l.prospective_record_offset })
            (some (l.scratch ++ l.fragment))
        else goes_on
            (report_corruption (length l.fragment) (codes "missing start of fragmented record(2)")
              r)
            l)
    else if record_type == eof_type
    then returns r none
    else if record_type == bad_record
    then (if l.in_fragmented_record
        then goes_on (report_corruption (length l.scratch) (codes "error in middle of record") r)
            (record l { in_fragmented_record = false; scratch = [] })
        else goes_on r l)
    else goes_on
        (report_corruption
          (length l.fragment + (if l.in_fragmented_record then length l.scratch else 0))
          (take 39 (codes "unknown record type " ++ decimal record_type)) r)
        (record l { in_fragmented_record = false; scratch = [] })

-- `if (resyncing_) { ... }`, and then the switch.
unfoldable pub resync : {F : Type 0} → ℕ → ℕ → Locals → Reader F → Turn F
unfolding dispatch
resync record_type physical_record_offset l r =
    if r.resyncing
    then (if record_type == type_value middle_type
        then goes_on r l
        else if record_type == type_value last_type
        then goes_on (record r { resyncing = false }) l
        else dispatch record_type physical_record_offset l (record r { resyncing = false }))
    else dispatch record_type physical_record_offset l r

-- The local variables before the first turn.
abbrev pub no_locals : Locals
no_locals = record {
  in_fragmented_record = false;
  scratch = [];
  prospective_record_offset = 0;
  fragment = [];
}

-- Where the block that the initial offset falls into begins; the next block if the offset is in a trailer.
unfoldable pub block_start : ℕ → ℕ
block_start initial_offset =
    let offset_in_block = initial_offset % block_size in
    let aligned = sub64 initial_offset offset_in_block in
    if ltb (block_size - 6) offset_in_block then add64 aligned block_size else aligned

module _ {F : Type 0} (crc32c : Checksum) (file : SequentialFile F) where
  unfoldable pub skip_to : ℕ → Reader F → Reader F × Bool
  unfolding report_drop
  skip_to block_start_location r =
      let r1 = record r { end_of_buffer_offset = block_start_location } in
      let (file', skip_status) = file.skip block_start_location r.file in
      if ltb 0 block_start_location
      then (if is_ok skip_status
          then (record r1 { file = file' }, true)
          else (report_drop block_start_location skip_status (record r1 { file = file' }), false))
      else (r1, true)

  unfoldable pub skip_to_initial_block : Reader F → Reader F × Bool
  skip_to_initial_block r = skip_to (block_start r.initial_offset) r

  -- A block is read into the empty buffer; false if the read failed.
  unfoldable pub fill : Reader F → Reader F × Bool
  unfolding report_drop
  fill r =
      let (file', status, bytes) = file.read block_size r.file in
      let r1 = record r {
        file = file';
        buffer = bytes;
        end_of_buffer_offset = add64 r.end_of_buffer_offset (length bytes);
      } in
      if is_ok status
      then (record r1 { eof = (if ltb (length bytes) block_size then true else r.eof) }, true)
      else (
        record (report_drop block_size status (record r1 { buffer = [] })) { eof = true },
        false,
      )

  -- The header is parsed and the record is taken off the buffer, which holds a header at least.
  -- The result is the type and the fragment; a fragment that is not assigned is the earlier one.
  unfoldable pub parse_record : Slice → Reader F → Reader F × ℕ × Slice
  unfolding report_corruption
  parse_record fragment r =
      let header = r.buffer in
      let a = get_or header 4 0 in
      let b = get_or header 5 0 in
      let type = char_to_unsigned (get_or header 6 0) in
      let len = bit_or a (b * 2 ^ 8) in
      let cleared = record r { buffer = [] } in
      let expected_crc = unmask (decode_fixed32 header) in
      let actual_crc = value crc32c (take (1 + len) (drop 6 header)) in
      let r1 = record r { buffer = drop (header_size + len) header } in
      let begin =
        sub64 (sub64 (sub64 r1.end_of_buffer_offset (length r1.buffer)) header_size) len in
      if ltb (length header) (header_size + len)
      then (if r.eof then (cleared, eof_type, fragment) else (
        report_corruption (length header) (codes "bad record length") cleared,
        bad_record,
        fragment,
      ))
      else if (type == type_value zero_type) && (len == 0)
      then (cleared, bad_record, fragment)
      else if r.checksum && not (actual_crc == expected_crc)
      then (
        report_corruption (length header) (codes "checksum mismatch") cleared,
        bad_record,
        fragment,
      )
      else if ltb begin r.initial_offset
      then (r1, bad_record, [])
      else (r1, type, take len (drop header_size header))

  -- The loop of `ReadPhysicalRecord`; `none` means that the fuel ran out.
  unfoldable pub read_physical_loop : ℕ → Slice → Reader F → Option (Reader F × ℕ × Slice)
  read_physical_loop zero fragment r = none
  read_physical_loop (suc fuel) fragment r =
      let (filled, read_ok) = fill r in
      let rest = read_physical_loop fuel fragment filled in
      if ltb (length r.buffer) header_size
      then (if r.eof
          then some (record r { buffer = [] }, eof_type, fragment)
          else if read_ok
          then rest
          else some (filled, eof_type, fragment))
      else some (parse_record fragment r)

  -- The loop turns twice at most: after a read the buffer holds a header, or the file has ended.
  unfoldable pub read_physical_record : Slice → Reader F → Option (Reader F × ℕ × Slice)
  read_physical_record fragment r = read_physical_loop 2 fragment r

  -- One turn of the loop of `ReadRecord`.
  unfoldable pub turn : Locals → Reader F × ℕ × Slice → Turn F
  turn l (r, record_type, fragment) =
      let physical_record_offset =
        sub64 (sub64 (sub64 r.end_of_buffer_offset (length r.buffer)) header_size)
          (length fragment) in
      resync record_type physical_record_offset (record l { fragment = fragment }) r

  unfoldable pub read_record_loop : ℕ → Locals → Reader F → Option (Reader F × Option Slice)
  read_record_loop zero l r = none
  read_record_loop (suc fuel) l r = elim (read_physical_record l.fragment r) [
    | none ↦ none
    | some p ↦ elim (turn l p) [
      | returns r' result ↦ some (r', result)
      | goes_on r' l' ↦ read_record_loop fuel l' r'
    ]
  ]

  -- `ReadRecord`: the record if it returns true, `none` if it returns false.
  unfoldable pub read_record : ℕ → Reader F → Option (Reader F × Option Slice)
  read_record fuel r =
      let (skipped, skip_ok) = skip_to_initial_block r in
      if ltb r.last_record_offset r.initial_offset
      then (if skip_ok then read_record_loop fuel no_locals skipped else some (skipped, none))
      else read_record_loop fuel no_locals r
