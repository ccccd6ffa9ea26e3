-- ===== src/Log/Written.antt =====
-- What `AddRecord` appends to a file that does not fail.
use mini_leveldb.Base.{ℕ, zero, suc, ◌+◌, ◌-◌, ◌/◌, ◌%◌, ◌^◌, ◌≤◌, ◌<◌, ◌≡◌, refl, ap, ◌∙◌, arith}
use mini_leveldb.Base.{Bool, true, false, List, [], ◌∷◌, ◌++◌, Option, some}
use mini_leveldb.Base.{ltb, ◌==◌, if◌then◌else◌, length, take, drop, replicate, get_or}
use mini_leveldb.Base.{length-take, length-drop, append_assoc, append-nil, take_all, ==_refl}
use native.Mathlib.Nat.{le_refl}
use native.Mathlib.Decide.{dec_lt}
use mini_leveldb.Slice.{Slice}
use mini_leveldb.Coding.{encode_fixed32}
use mini_leveldb.Status.{Status, ok_status}
use mini_leveldb.Crc32c.{Checksum, value, mask}
use mini_leveldb.Env.{WritableFile, IsAppending}
use mini_leveldb.Log.{RecordType, zero_type, full_type, first_type, middle_type, last_type}
use mini_leveldb.Log.{type_value, block_size, header_size}
use mini_leveldb.Log.Writer.{Writer, init_type_crc, fragment_type, write_record}
use mini_leveldb.Log.Writer.{emit_physical_record, switch_block, add_record_loop, add_record}
use mini_leveldb.Log.Framing.{start, trailer, room, start-room, record_bytes, end_type, part_type}
use mini_leveldb.Log.Framing.{Framed, last, more}

type_crc-value :
    (c : Checksum) (t : RecordType)
    → get_or (init_type_crc c) (type_value t) 0 ≡ value c (type_value t ∷ [])
unfolding init_type_crc
type_crc-value c zero_type = refl
type_crc-value c full_type = refl
type_crc-value c first_type = refl
type_crc-value c middle_type = refl
type_crc-value c last_type = refl

-- The precomputed checksum of the type, extended by the data, is the checksum of both.
extend-type_crc :
    (c : Checksum) (t : RecordType) (payload : Slice)
    → c.extend (get_or (init_type_crc c) (type_value t) 0) payload
      ≡ value c (type_value t ∷ payload)
unfolding value
extend-type_crc c t payload =
    rw (type_crc-value c t) (c.extend-append 0 (type_value t ∷ []) payload)

-- The writer's types are those of the format.
fragment_type-end : (begin : Bool) → fragment_type begin true ≡ end_type begin
unfolding fragment_type end_type
fragment_type-end true = refl
fragment_type-end false = refl

fragment_type-part : (begin : Bool) → fragment_type begin false ≡ part_type begin
unfolding fragment_type part_type
fragment_type-part true = refl
fragment_type-part false = refl

-- What every writer keeps: its offset lies in a block, and its table is the one of the types.
pub record IsWriter {F : Type 0} (c : Checksum) (w : Writer F) : Type 0 where
  pub in_block : w.block_offset ≤ block_size
  pub table : w.type_crc ≡ init_type_crc c

-- The step from `w` to `w'` appended `bytes` and left the offset at `offset`.
record Appended {F : Type 0} (contents : F → Slice) (w w' : Writer F) (bytes : Slice) (offset : ℕ)
    : Type 0 where
  contents_lem : contents w'.dest ≡ contents w.dest ++ bytes
  offset_lem : w'.block_offset ≡ offset
  table : w'.type_crc ≡ w.type_crc

-- The header and the data that are written are the bytes of the record.
emitted :
    (c : Checksum) (t : RecordType) (payload : Slice) (len : ℕ) (table : List ℕ)
    → table ≡ init_type_crc c
    → length payload ≡ len
    → (encode_fixed32 (mask (c.extend (get_or table (type_value t) 0) payload))
          ++ len % 256 ∷ len / 2 ^ 8 % 256 ∷ type_value t ∷ [])
        ++ payload
      ≡ record_bytes c t payload
unfolding record_bytes
emitted c t payload len table e h =
    rw (e, extend-type_crc c t payload, ← h)
      (append_assoc (encode_fixed32 (mask (value c (type_value t ∷ payload))))
        (length payload % 256 ∷ length payload / 2 ^ 8 % 256 ∷ type_value t ∷ []) payload)

module _ {F : Type 0} (c : Checksum) (file : WritableFile F) (contents : F → Slice)
    (good : IsAppending file contents) where
  switch_block-Appended :
      (w : Writer F)
      → Appended contents w (switch_block c file w) (trailer w.block_offset) (start w.block_offset)
  unfolding switch_block
  switch_block-Appended w = record {
    contents_lem = ground (
      arith,
      good.append_contents (replicate (block_size - w.block_offset) 0) w.dest,
      append-nil (contents w.dest),
    );
    offset_lem = ground arith;
    table = ground arith;
  }

  write_record-ok :
      (buf payload : Slice) (f : F)
      → ((write_record c file buf payload f).1 ≡ ok_status)
        × (contents (write_record c file buf payload f).0 ≡ contents f ++ (buf ++ payload))
  unfolding write_record
  write_record-ok buf payload f =
      let f1 = (file.append buf f).0 in
      let f2 = (file.append payload f1).0 in
      rw (good.append_status buf f, good.append_status payload f1)
        (
          good.flush_status f2,
          good.flush_contents f2
              ∙ good.append_contents payload f1
              ∙ ap (λ (t : Slice). t ++ payload) (good.append_contents buf f)
              ∙ append_assoc (contents f) buf payload,
        )

  emit-Appended :
      (t : RecordType) (ptr : Slice) (len : ℕ) (w : Writer F)
      → w.type_crc ≡ init_type_crc c
      → len ≤ length ptr
      → ((emit_physical_record c file t ptr len w).1 ≡ ok_status)
        × Appended contents w
            (emit_physical_record c file t ptr len w).0
            (record_bytes c t (take len ptr))
            (w.block_offset + (header_size + len))
  unfolding emit_physical_record
  emit-Appended t ptr len w table h =
      let payload = take len ptr in
      let crc = mask (c.extend (get_or w.type_crc (type_value t) 0) payload) in
      let buf = encode_fixed32 crc ++ len % 256 ∷ len / 2 ^ 8 % 256 ∷ type_value t ∷ [] in
      let (status, written) = write_record-ok buf payload w.dest in
      let size : length payload ≡ len = omega (arith, length-take len ptr) in
      let bytes : buf ++ payload ≡ record_bytes c t payload =
        emitted c t payload len w.type_crc table size in
      (
        status,
        record {
          contents_lem = written ∙ ap (λ (d : Slice). contents w.dest ++ d) bytes;
          offset_lem = refl;
          table = refl;
        },
      )

  round_last :
      (fuel : ℕ) (ptr : Slice) (begin : Bool) (w : Writer F)
      → w.type_crc ≡ init_type_crc c
      → length ptr ≤ room w.block_offset
      → add_record_loop c file (suc fuel) ptr begin w
        ≡ some (
          (emit_physical_record c file (end_type begin) ptr (length ptr) (switch_block c file w)).0,
          ok_status,
        )
  unfolding add_record_loop
  round_last fuel ptr begin w table h =
      let w1 = switch_block c file w in
      let switched = switch_block-Appended w in
      let avail = block_size - w1.block_offset - header_size in
      let fragment : (if ltb (length ptr) avail then length ptr else avail) ≡ length ptr =
        rw switched.offset_lem (ground arith) in
      let end : (length ptr == length ptr) ≡ true = ==_refl (length ptr) in
      let finished : ltb 0 (length ptr - length ptr) ≡ false = ground arith in
      let (status, _) =
        emit-Appended (end_type begin) ptr (length ptr) w1 (switched.table ∙ table) (le_refl _) in
      rw (fragment, end, fragment_type-end begin, status, finished)

  round_more :
      (fuel : ℕ) (ptr : Slice) (begin : Bool) (w : Writer F)
      → w.type_crc ≡ init_type_crc c
      → room w.block_offset < length ptr
      → add_record_loop c file (suc fuel) ptr begin w
        ≡ add_record_loop c file fuel
            (drop (room w.block_offset) ptr)
            false
            (emit_physical_record c file
              (part_type begin)
              ptr
              (room w.block_offset)
              (switch_block c file w)).0
  unfolding add_record_loop
  round_more fuel ptr begin w table h =
      let w1 = switch_block c file w in
      let switched = switch_block-Appended w in
      let n = room w.block_offset in
      let avail : block_size - w1.block_offset - header_size ≡ n = rw switched.offset_lem in
      let fragment : (if ltb (length ptr) n then length ptr else n) ≡ n = ground arith in
      let end : (length ptr == n) ≡ false = ground arith in
      let unfinished : ltb 0 (length ptr - n) ≡ true = ground arith in
      let (status, _) =
        emit-Appended (part_type begin) ptr n w1 (switched.table ∙ table) (omega arith) in
      rw (avail, fragment, end, fragment_type-part begin, status, unfinished)

  -- What a run of the loop from `w` leaves: a writer at `w'` that appended a framing of the record.
  record Wrote (w : Writer F) (ptr : Slice) (begin : Bool) (result : Option (Writer F × Status))
      : Type 0 where
    after : Writer F
    bytes : Slice
    returned : result ≡ some (after, ok_status)
    framed : Framed c w.block_offset begin ptr bytes after.block_offset
    appended : contents after.dest ≡ contents w.dest ++ bytes
    writer : IsWriter c after

  two_steps :
      (w w1 w2 : Writer F) (xs ys : Slice) (m n : ℕ)
      → Appended contents w w1 xs m
      → Appended contents w1 w2 ys n
      → Appended contents w w2 (xs ++ ys) n
  two_steps w w1 w2 xs ys m n p q = record {
    contents_lem =
        q.contents_lem
        ∙ ap (λ (t : Slice). t ++ ys) p.contents_lem
        ∙ append_assoc (contents w.dest) xs ys;
    offset_lem = q.offset_lem;
    table = q.table ∙ p.table;
  }

  -- One round: the zeros before the header, and a fragment.
  round-Appended :
      (t : RecordType) (ptr : Slice) (len : ℕ) (w : Writer F)
      → w.type_crc ≡ init_type_crc c
      → len ≤ length ptr
      → Appended contents w
          (emit_physical_record c file t ptr len (switch_block c file w)).0
          (trailer w.block_offset ++ record_bytes c t (take len ptr))
          (start w.block_offset + (header_size + len))
  round-Appended t ptr len w table h =
      let w1 = switch_block c file w in
      let w2 = (emit_physical_record c file t ptr len w1).0 in
      let switched = switch_block-Appended w in
      let (_, emitted') = emit-Appended t ptr len w1 (switched.table ∙ table) h in
      let both =
        two_steps w w1 w2 (trailer w.block_offset) (record_bytes c t (take len ptr))
          (start w.block_offset) (w1.block_offset + (header_size + len)) switched emitted' in
      record {
        contents_lem = both.contents_lem;
        offset_lem = both.offset_lem ∙ ap (λ (n : ℕ). n + (header_size + len)) switched.offset_lem;
        table = both.table;
      }

  -- One round more where the first header leaves no room for data.
  abbrev slack : ℕ → ℕ
  slack offset = if room offset == 0 then 1 else 0

  loop-Wrote :
      (fuel : ℕ) (ptr : Slice) (begin : Bool) (w : Writer F)
      → IsWriter c w
      → length ptr + slack w.block_offset < fuel
      → Wrote w ptr begin (add_record_loop c file fuel ptr begin w)
  loop-Wrote zero ptr begin w iw h = absurd (omega arith)
  loop-Wrote (suc fuel) ptr begin w iw h = elim (dec_lt (room w.block_offset) (length ptr)) [
    | no fits ↦
        let w2 =
          (emit_physical_record c file (end_type begin) ptr (length ptr)
            (switch_block c file w)).0 in
        let step = round-Appended (end_type begin) ptr (length ptr) w iw.table (le_refl _) in
        let all : take (length ptr) ptr ≡ ptr = take_all (length ptr) ptr (le_refl _) in
        record {
          after = w2;
          bytes = trailer w.block_offset ++ record_bytes c (end_type begin) (take (length ptr) ptr);
          returned = round_last fuel ptr begin w iw.table (omega arith);
          framed = last (omega arith) (rw all) step.offset_lem;
          appended = step.contents_lem;
          writer = record {
            in_block = omega (arith, step.offset_lem, start-room w.block_offset iw.in_block);
            table = step.table ∙ iw.table;
          };
        }
    | yes big ↦
        let n = room w.block_offset in
        let w2 = (emit_physical_record c file (part_type begin) ptr n (switch_block c file w)).0 in
        let step = round-Appended (part_type begin) ptr n w iw.table (omega arith) in
        let full : w2.block_offset ≡ block_size =
          step.offset_lem ∙ start-room w.block_offset iw.in_block in
        let rest : Wrote w2 (drop n ptr) false (add_record_loop c file fuel (drop n ptr) false w2) =
          loop-Wrote fuel (drop n ptr) false w2
            (record { in_block = omega arith; table = step.table ∙ iw.table })
            (rw full (ground (arith, length-drop n ptr))) in
        record {
          after = rest.after;
          bytes =
              (trailer w.block_offset ++ record_bytes c (part_type begin) (take n ptr))
              ++ rest.bytes;
          returned = round_more fuel ptr begin w iw.table big ∙ rest.returned;
          framed = more big refl (rw full at rest.framed);
          appended =
              rest.appended
              ∙ ap (λ (t : Slice). t ++ rest.bytes) step.contents_lem
              ∙ append_assoc (contents w.dest)
                  (trailer w.block_offset ++ record_bytes c (part_type begin) (take n ptr))
                  rest.bytes;
          writer = rest.writer;
        }
  ]

-- On a file that never fails and any valid writer, `AddRecord` returns OK within its fuel; what it
-- appends to the file is a framing of the record that begins at the writer's offset in the block,
-- the writer's new offset is where that framing ends, and the writer stays valid.
-- The checksum is any function with the laws of `Checksum`, of which `crc32c`, the software path of
-- `Extend`, is one.
pub add_record-Framed :
    {F : Type 0} (c : Checksum) (file : WritableFile F) (contents : F → Slice)
    (good : IsAppending file contents) (slice : Slice) (w : Writer F)
    → IsWriter c w
    → (w' : Writer F) × (bytes : Slice) × (add_record c file slice w ≡ some (w', ok_status))
      × Framed c w.block_offset true slice bytes w'.block_offset
      × (contents w'.dest ≡ contents w.dest ++ bytes)
      × IsWriter c w'
unfolding add_record
add_record-Framed c file contents good slice w iw =
    let r : Wrote c file contents good w slice true
        (add_record_loop c file (length slice + 2) slice true w) =
      loop-Wrote c file contents good (length slice + 2) slice true w iw (ground arith) in
    (r.after, r.bytes, r.returned, r.framed, r.appended, r.writer)
