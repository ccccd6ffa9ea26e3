-- ===== src/Log/WholeLog.antt =====
-- A log written record by record with db/log_writer.cc, and read from its beginning to its end with
-- db/log_reader.cc.
use mini_leveldb.Base.{ℕ, zero, suc, ◌+◌, ◌≤◌, ◌<◌, ◌≡◌, refl, sym, ap, ◌∙◌, arith}
use mini_leveldb.Base.{Bool, List, [], ◌∷◌, ◌++◌, Option, none, some, if◌then◌else◌}
use mini_leveldb.Base.{length, append_assoc, append-nil, length-append}
use mini_leveldb.Slice.{Slice}
use mini_leveldb.Status.{Status, ok_status, is_ok}
use mini_leveldb.Crc32c.{Checksum}
use mini_leveldb.Env.{WritableFile, IsAppending, SequentialFile, IsStreaming}
use mini_leveldb.Log.{block_size}
use mini_leveldb.Log.Writer.{Writer, new_writer, add_record}
use mini_leveldb.Log.Reader.{Reader, new_reader, read_record_loop, read_record, no_locals}
use mini_leveldb.Log.Framing.{start-room, Framed, last, more, FramedAll, none_left, one_more}
use mini_leveldb.Log.Written.{IsWriter, add_record-Framed}
use mini_leveldb.Log.Stream.{AtStream, not_below_zero}
use mini_leveldb.Log.RoundTrip.{loop-Framed, loop_at_end}

-- A client that adds records in turn, and stops at the first status that is not OK.
unfoldable pub write_all :
    {F : Type 0} → Checksum → WritableFile F → List Slice → Writer F → Option (Writer F × Status)
write_all c file [] w = some (w, ok_status)
write_all c file (x ∷ xs) w = elim (add_record c file x w) [
  | none ↦ none
  | some (w', s) ↦ if is_ok s then write_all c file xs w' else some (w', s)
]

-- A client that reads until `ReadRecord` returns false; `none` means that some fuel ran out, that of
-- this loop or that of a call.
unfoldable pub read_all :
    {F : Type 0} → Checksum → SequentialFile F → ℕ → ℕ → Reader F → Option (Reader F × List Slice)
read_all c file zero fuel r = none
read_all c file (suc calls) fuel r = elim (read_record c file fuel r) [
  | none ↦ none
  | some (r', none) ↦ some (r', [])
  | some (r', some x) ↦ elim (read_all c file calls fuel r') [
    | none ↦ none
    | some (r'', xs) ↦ some (r'', x ∷ xs)
  ]
]

Framed-offset-le :
    {c : Checksum} {offset : ℕ} {begin : Bool} {record' bytes : Slice} {offset' : ℕ}
    → Framed c offset begin record' bytes offset'
    → offset ≤ block_size
    → offset' ≤ block_size
Framed-offset-le {offset = offset} (last fits e end) h = omega (arith, start-room offset h)
Framed-offset-le (more big e next) h = Framed-offset-le next (omega arith)

-- The start of the first block and the end of a block before it frame a record alike.
Framed-first :
    {c : Checksum} {offset : ℕ} {begin : Bool} {record' bytes : Slice} {offset' : ℕ}
    → Framed c offset begin record' bytes offset'
    → offset ≡ 0
    → Framed c block_size begin record' bytes offset'
Framed-first (last fits e end) z = last (rw z at fits) (rw z at e) (rw z at end)
Framed-first (more big e next) z = more (rw z at big) (rw z at e) (rw z at next)

FramedAll-first :
    {c : Checksum} {records : List Slice} {bytes : Slice} {offset' : ℕ} {offset : ℕ}
    → FramedAll c offset records bytes offset'
    → offset ≡ 0
    → (end : ℕ) × FramedAll c block_size records bytes end
FramedAll-first (none_left e o) z = (block_size, none_left e refl)
FramedAll-first {offset' = offset'} (one_more e f rest) z =
    (offset', one_more e (Framed-first f z) rest)

module _ {F : Type 0} (c : Checksum) (file : WritableFile F) (contents : F → Slice)
    (good : IsAppending file contents) where
  -- On a file that never fails, a valid writer adds any list of records: each call returns OK, and
  -- the file grows by a framing of the records from the writer's offset on.
  pub write_all-FramedAll :
      (records : List Slice) (w : Writer F)
      → IsWriter c w
      → (w' : Writer F) × (bytes : Slice) × (write_all c file records w ≡ some (w', ok_status))
        × FramedAll c w.block_offset records bytes w'.block_offset
        × (contents w'.dest ≡ contents w.dest ++ bytes)
        × IsWriter c w'
  unfolding write_all
  write_all-FramedAll [] w iw =
      (w, [], refl, none_left refl refl, sym (append-nil (contents w.dest)), iw)
  write_all-FramedAll (x ∷ xs) w iw =
      let (w1, first, added, framed, grown, iw1) = add_record-Framed c file contents good x w iw in
      let (w2, others, all_added, all_framed, all_grown, iw2) = write_all-FramedAll xs w1 iw1 in
      (
        w2,
        first ++ others,
        rw (added, write_all) all_added,
        one_more refl framed all_framed,
        all_grown
            ∙ ap (λ (t : Slice). t ++ others) grown
            ∙ append_assoc (contents w.dest) first others,
        iw2,
      )

module _ {F : Type 0} (c : Checksum) (file : SequentialFile F) (rest : F → Slice)
    (good : IsStreaming file rest) where
  -- A log that begins with its file is not skipped into.
  read_record-loop :
      (fuel : ℕ) (r : Reader F)
      → r.initial_offset ≡ 0
      → read_record c file fuel r ≡ read_record_loop c file fuel no_locals r
  unfolding read_record
  read_record-loop fuel r h = rw (not_below_zero r.initial_offset h r.last_record_offset)

  -- From a framing of records on, each call returns the next record, and the last one false.
  read_all-FramedAll :
      (calls : ℕ) {offset : ℕ} {records : List Slice} {bytes : Slice} {offset' : ℕ}
      → FramedAll c offset records bytes offset'
      → (fuel : ℕ) (r : Reader F) → offset ≤ block_size
      → length records < calls
      → length bytes < fuel
      → AtStream rest r offset bytes
      → (r' : Reader F) × (read_all c file calls fuel r ≡ some (r', records))
        × (r'.reports ≡ r.reports)
  unfolding read_all
  read_all-FramedAll zero f fuel r ho hc hf at = absurd (omega arith)
  read_all-FramedAll (suc calls) f zero r ho hc hf at = absurd (omega arith)
  read_all-FramedAll (suc calls) {offset} (none_left e o) (suc fuel) r ho hc hf at =
      let (r1, ended, unreported) =
        loop_at_end c file rest good fuel no_locals r offset ho (rw e at at) in
      (r1, rw (read_record-loop (suc fuel) r at.from_start ∙ ended, read_all), unreported)
  read_all-FramedAll (suc calls) {offset}
        (one_more {record' = x} {first = first} {rest = later} e f others) (suc fuel) r ho hc hf
        at =
      let size : length first + length later < suc fuel =
        omega (arith, ap length e, length-append first later) in
      let g =
        loop-Framed c file rest good (suc fuel) f later no_locals r ho (omega arith) refl
          (rw e at at) in
      let (r2, others_read, unreported) =
        read_all-FramedAll calls others (suc fuel) g.after (Framed-offset-le f ho) (omega arith)
          (omega arith) g.at in
      (
        r2,
        rw (read_record-loop (suc fuel) r at.from_start ∙ g.returned, read_all)
            (rw (others_read, read_all)),
        unreported ∙ g.unreported,
      )

-- A log that `AddRecord` wrote into an empty file, with any records in any number, each of any
-- length, is read back: every call of `AddRecord` returns OK, and a reader on the reopened file, from
-- offset 0, with or without checksums and a reporter, returns exactly the records in their order,
-- then false, and reports no corruption. The files never fail, and reopening keeps the bytes; the
-- fuel of each call of `ReadRecord` is more than the length of the file, by any amount.
-- The checksum is any function with the laws of `Checksum`, of which `crc32c`, the software path of
-- `Extend`, is one.
pub log_round_trip :
    {F G : Type 0} (c : Checksum) (out : WritableFile F) (contents : F → Slice)
    → IsAppending out contents
    → (input : SequentialFile G) (rest : G → Slice) → IsStreaming input rest
    → (reopen : F → G) → ((f : F) → rest (reopen f) ≡ contents f)
    → (records : List Slice) (dest : F) (has_reporter checksum : Bool) (extra : ℕ)
    → contents dest ≡ []
    → (w : Writer F) × (r : Reader G) × (write_all c out records (new_writer c dest)
        ≡ some (w, ok_status))
      × (read_all c input
            (suc (length records))
            (suc (extra + length (contents w.dest)))
            (new_reader (reopen w.dest) has_reporter checksum 0)
          ≡ some (r, records))
      × (r.reports ≡ [])
unfolding new_writer new_reader
log_round_trip c out contents appending input rest streaming reopen kept records dest has_reporter
      checksum extra empty =
    let start_writer : IsWriter c (new_writer c dest) = record {
      in_block = omega arith;
      table = refl;
    } in
    let (w, bytes, written, framed, grown, _) =
      write_all-FramedAll c out contents appending records (new_writer c dest) start_writer in
    let same : contents w.dest ≡ bytes = grown ∙ ap (λ (t : Slice). t ++ bytes) empty in
    let (_, framed') = FramedAll-first framed refl in
    let (r, found, unreported) =
      read_all-FramedAll c input rest streaming (suc (length records)) framed'
        (suc (extra + length (contents w.dest)))
        (new_reader (reopen w.dest) has_reporter checksum 0) (omega arith) (omega arith)
        (omega (arith, ap length same))
        (record {
          buffer_lem = refl;
          rest_lem = kept w.dest ∙ same;
          eof_lem = ground arith;
          from_start = refl;
          synced = refl;
        }) in
    (w, r, written, found, unreported)
