-- ===== src/Log/RoundTrip.antt =====
-- db/log_writer.cc against db/log_reader.cc: the reader returns the records that were written.
use mini_leveldb.Base.{ℕ, zero, suc, ◌+◌, ◌≤◌, ◌<◌, ◌≡◌, ◌≢◌, refl, ap, ◌∙◌, arith}
use mini_leveldb.Base.{Bool, true, false, not, [], ◌++◌, Option, none, some}
use mini_leveldb.Base.{length, take, drop, append_assoc}
use mini_leveldb.Base.{length-take, length-append, take-append-drop}
use mini_leveldb.Slice.{Slice}
use native.Mathlib.Nat.{le_refl}
use mini_leveldb.Crc32c.{Checksum}
use mini_leveldb.Env.{SequentialFile, IsStreaming}
use mini_leveldb.Log.{zero_type, type_value, block_size, header_size}
use mini_leveldb.Log.Reader.{
  Reader, Locals, returns, goes_on, eof_type, sub64, turn, resync, dispatch, report_partial,
  read_physical_record, read_record_loop,
}
use mini_leveldb.Log.Framing.{start, trailer, room, start-room, record_bytes, length-record_bytes}
use mini_leveldb.Log.Framing.{end_type, part_type, Framed, last, more}
use mini_leveldb.Log.Stream.{AtStream, read_framed, read_at_end}

end_type-ne-zero : (begin : Bool) → end_type begin ≢ zero_type
unfolding end_type
end_type-ne-zero true e = cc
end_type-ne-zero false e = cc

part_type-ne-zero : (begin : Bool) → part_type begin ≢ zero_type
unfolding part_type
part_type-ne-zero true e = cc
part_type-ne-zero false e = cc

-- What the reader has collected before a fragment.
abbrev pub collected : Bool → Slice → Slice
collected true scratch = []
collected false scratch = scratch

-- The address of the physical record that was just taken off the buffer.
abbrev physical : {F : Type 0} → Reader F → Slice → ℕ
physical r payload =
    sub64 (sub64 (sub64 r.end_of_buffer_offset (length r.buffer)) header_size) (length payload)

module _ {F : Type 0} (c : Checksum) (file : SequentialFile F) where
  -- The last fragment of a record ends the method, with nothing reported.
  turn_last :
      (begin : Bool) (payload : Slice) (l : Locals) (r : Reader F)
      → r.resyncing ≡ false
      → l.in_fragmented_record ≡ not begin
      → (x : ℕ) × (turn c file l (r, type_value (end_type begin), payload)
          ≡ returns
              (record r { last_record_offset = x })
              (some (collected begin l.scratch ++ payload)))
  unfolding turn resync dispatch report_partial end_type
  turn_last true payload l r h k = (physical r payload, simp (h, k))
  turn_last false payload l r h k = (l.prospective_record_offset, simp (h, k))

  -- Any other fragment is collected.
  turn_more :
      (begin : Bool) (payload : Slice) (l : Locals) (r : Reader F)
      → r.resyncing ≡ false
      → l.in_fragmented_record ≡ not begin
      → (l' : Locals) × (turn c file l (r, type_value (part_type begin), payload) ≡ goes_on r l')
        × (l'.in_fragmented_record ≡ true)
        × (l'.scratch ≡ collected begin l.scratch ++ payload)
  unfolding turn resync dispatch report_partial part_type
  turn_more true payload l r h k = (
    record {
      in_fragmented_record = true;
      scratch = payload;
      prospective_record_offset = physical r payload;
      fragment = payload;
    },
    simp (h, k),
    refl,
    refl,
  )
  turn_more false payload l r h k =
      (record l { scratch = l.scratch ++ payload; fragment = payload }, simp (h, k), k, refl)

  turn_at_end :
      (l : Locals) (r : Reader F) (payload : Slice)
      → r.resyncing ≡ false
      → turn c file l (r, eof_type, payload) ≡ returns r none
  unfolding turn resync dispatch
  turn_at_end l r payload h = simp h

  -- A turn that ends the method, and one that does not.
  pub loop_returns :
      (fuel : ℕ) (l : Locals) (r r' : Reader F) (p : Reader F × ℕ × Slice) (result : Option Slice)
      → read_physical_record c file l.fragment r ≡ some p
      → turn c file l p ≡ returns r' result
      → read_record_loop c file (suc fuel) l r ≡ some (r', result)
  unfolding read_record_loop
  loop_returns fuel l r r' p result h k = rw (h, read_record_loop) (rw (k, read_record_loop))

  pub loop_goes_on :
      (fuel : ℕ) (l l' : Locals) (r r' : Reader F) (p : Reader F × ℕ × Slice)
      → read_physical_record c file l.fragment r ≡ some p
      → turn c file l p ≡ goes_on r' l'
      → read_record_loop c file (suc fuel) l r ≡ read_record_loop c file fuel l' r'
  unfolding read_record_loop
  loop_goes_on fuel l l' r r' p h k = rw (h, read_record_loop) (rw (k, read_record_loop))

ends_in_block :
    (offset n : ℕ)
    → offset ≤ block_size
    → n ≤ room offset
    → start offset + (header_size + n) ≤ block_size
ends_in_block offset n h k = omega (arith, start-room offset h)

-- The outcome of a call that returned a record with nothing reported.
pub record Got {F : Type 0} (rest : F → Slice) (r : Reader F)
    (result : Option (Reader F × Option Slice)) (record' : Slice) (offset : ℕ) (stream : Slice)
    : Type 0 where
  pub after : Reader F
  pub returned : result ≡ some (after, some record')
  pub at : AtStream rest after offset stream
  pub unreported : after.reports ≡ r.reports

module _ {F : Type 0} (c : Checksum) (file : SequentialFile F) (rest : F → Slice)
    (good : IsStreaming file rest) where
  -- From a fragment of a framed record on, the loop returns what was collected and the rest of it.
  pub loop-Framed :
      (fuel : ℕ) {offset : ℕ} {begin : Bool} {record' bytes : Slice} {offset' : ℕ}
      → Framed c offset begin record' bytes offset'
      → (tail : Slice) (l : Locals) (r : Reader F) → offset ≤ block_size
      → length bytes < fuel
      → l.in_fragmented_record ≡ not begin
      → AtStream rest r offset (bytes ++ tail)
      → Got rest r
          (read_record_loop c file fuel l r)
          (collected begin l.scratch ++ record')
          offset'
          tail
  loop-Framed zero f tail l r ho hf hb at = absurd (omega arith)
  loop-Framed (suc fuel) {offset} {begin} {record'} (last fits bytes_eq end) tail l r ho hf hb at =
      let payload = record' in
      let t = end_type begin in
      let at' : AtStream rest r offset (trailer offset ++ (record_bytes c t payload ++ tail)) =
        rw (bytes_eq, append_assoc (trailer offset) (record_bytes c t payload) tail) at at in
      let (r1, got, at1, quiet) =
        read_framed c file rest good t payload tail l.fragment r offset (end_type-ne-zero begin) ho
          (ends_in_block offset (length payload) ho fits) at' in
      let (x, turned) = turn_last c file begin payload l r1 at1.synced hb in
      record {
        after = record r1 { last_record_offset = x };
        returned =
            loop_returns c file fuel l r (record r1 { last_record_offset = x })
              (r1, type_value t, payload) (some (collected begin l.scratch ++ payload)) got turned;
        at = rw end (record {
          buffer_lem = at1.buffer_lem;
          rest_lem = at1.rest_lem;
          eof_lem = at1.eof_lem;
          from_start = at1.from_start;
          synced = at1.synced;
        });
        unreported = quiet.reports_lem;
      }
  loop-Framed (suc fuel) {offset} {begin} {record'} (more {rest = later} big bytes_eq next) tail l r
        ho hf hb at =
      let n = room offset in
      let payload = take n record' in
      let size : length payload ≡ n = omega (arith, length-take n record') in
      let t = part_type begin in
      let front = trailer offset ++ record_bytes c t payload in
      let at' : AtStream rest r offset
          (trailer offset ++ (record_bytes c t payload ++ (later ++ tail))) =
        rw
          (
            bytes_eq,
            append_assoc front later tail,
            append_assoc (trailer offset) (record_bytes c t payload) (later ++ tail),
          )
          at at in
      let full : start offset + (header_size + length payload) ≡ block_size =
        rw size (start-room offset ho) in
      let (r1, got, at1, quiet) =
        read_framed c file rest good t payload (later ++ tail) l.fragment r offset
          (part_type-ne-zero begin) ho (omega (arith, full)) at' in
      let (l', turned, fragmented, scratch) = turn_more c file begin payload l r1 at1.synced hb in
      let shorter : length later < fuel = omega (
        arith,
        ap length bytes_eq,
        length-append front later,
        length-append (trailer offset) (record_bytes c t payload),
        length-record_bytes c t payload,
      ) in
      let again =
        loop-Framed fuel next tail l' r1 (le_refl block_size) shorter fragmented (rw full at at1) in
      record {
        after = again.after;
        returned =
            loop_goes_on c file fuel l l' r r1 (r1, type_value t, payload) got turned
            ∙ again.returned
            ∙ ap (λ (x : Slice). some (again.after, some x))
                (ap (λ (x : Slice). x ++ drop n record') scratch
                  ∙ append_assoc (collected begin l.scratch) payload (drop n record')
                  ∙ ap (λ (x : Slice). collected begin l.scratch ++ x)
                      (take-append-drop n record'));
        at = again.at;
        unreported = again.unreported ∙ quiet.reports_lem;
      }

  -- At the end of the stream the loop returns false, with nothing reported.
  pub loop_at_end :
      (fuel : ℕ) (l : Locals) (r : Reader F) (offset : ℕ)
      → offset ≤ block_size
      → AtStream rest r offset []
      → (r' : Reader F) × (read_record_loop c file (suc fuel) l r ≡ some (r', none))
        × (r'.reports ≡ r.reports)
  loop_at_end fuel l r offset ho at =
      let (r1, got, quiet) = read_at_end c file rest good l.fragment r offset ho at in
      (
        r1,
        loop_returns c file fuel l r r1 (r1, eof_type, l.fragment) none got
            (turn_at_end c file l r1 l.fragment (quiet.resyncing_lem ∙ at.synced)),
        quiet.reports_lem,
      )
