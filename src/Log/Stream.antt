-- ===== src/Log/Stream.antt =====
-- The reader of db/log_reader.cc on a file that does not fail: where it stands in the stream of the
-- bytes that are still to be read, and what it makes of a framed record there.
use mini_leveldb.Base.{
  ℕ, suc, ◌+◌, ◌-◌, ◌*◌, ◌/◌, ◌%◌, ◌^◌, ◌≤◌, ◌<◌, ◌≡◌, ◌≢◌, refl, sym, ap, ◌∙◌, arith,
}
use mini_leveldb.Base.{Bool, true, false, ◌&&◌, [], ◌∷◌, ◌++◌, some}
use mini_leveldb.Base.{ltb, ◌==◌, if◌then◌else◌, length, take, drop, replicate, bit_or}
use mini_leveldb.Base.{length-take, length-append, take-append, drop-drop, take_prefix}
use mini_leveldb.Base.{drop_prefix, ==_refl, le→ltb, lt→ltb, min, length-replicate}
use mini_leveldb.Base.Bits.{bit_or_fields}
use mini_leveldb.Slice.{Slice}
use native.Mathlib.Decide.{dec_lt}
use mini_leveldb.Coding.{encode_fixed32, decode_fixed32}
use mini_leveldb.Coding.Fixed.{decode-encode_fixed32}
use mini_leveldb.Crc32c.{Checksum, value, mask, unmask-mask, mask-lt}
use mini_leveldb.Env.{SequentialFile, IsStreaming}
use mini_leveldb.Log.{RecordType, zero_type, full_type, first_type, middle_type, last_type}
use mini_leveldb.Log.{type_value, block_size, header_size}
use mini_leveldb.Log.Reader.{
  Reader, char_to_unsigned, eof_type, parse_record, fill, read_physical_loop,
}
use mini_leveldb.Log.Reader.{read_physical_record}
use mini_leveldb.Log.Framing.{start, trailer, record_bytes, length-record_bytes}

value-lt : (c : Checksum) (bytes : Slice) → value c bytes < 2 ^ 32
unfolding value
value-lt c bytes = c.extend-lt 0 bytes

stored_length : (n : ℕ) → n < 2 ^ 16 → bit_or (n % 256) (n / 2 ^ 8 % 256 * 2 ^ 8) ≡ n
stored_length n h = bit_or_fields 8 (n % 256) (n / 2 ^ 8 % 256) (omega arith) ∙ omega arith

type_char : (t : RecordType) → char_to_unsigned (type_value t) ≡ type_value t
type_char zero_type = refl
type_char full_type = refl
type_char first_type = refl
type_char middle_type = refl
type_char last_type = refl

type_nonzero : (t : RecordType) → t ≢ zero_type → (type_value t == type_value zero_type) ≡ false
type_nonzero zero_type h = absurd (h refl)
type_nonzero full_type h = refl
type_nonzero first_type h = refl
type_nonzero middle_type h = refl
type_nonzero last_type h = refl

and_false : (b : Bool) → (b && false) ≡ false
and_false true = refl
and_false false = refl

pub not_below_zero : (n : ℕ) → n ≡ 0 → (x : ℕ) → ltb x n ≡ false
not_below_zero n h x = ground arith

module _ {F : Type 0} (c : Checksum) (file : SequentialFile F) where
  -- A whole record at the front of the buffer is parsed, whatever follows it.
  parse-record_bytes :
      (t : RecordType) (payload tail fragment : Slice) (r : Reader F)
      → t ≢ zero_type
      → length payload < 2 ^ 16
      → r.initial_offset ≡ 0
      → parse_record c file fragment (record r { buffer = record_bytes c t payload ++ tail })
        ≡ (record r { buffer = tail }, type_value t, payload)
  unfolding parse_record record_bytes encode_fixed32
  parse-record_bytes t payload tail fragment r ht hp h0 =
      let n = length payload in
      let v = value c (type_value t ∷ payload) in
      let whole : Slice = n % 256 ∷ n / 2 ^ 8 % 256 ∷ type_value t ∷ (payload ++ tail) in
      let decoded : decode_fixed32 (encode_fixed32 (mask v) ++ whole) ≡ mask v =
        decode-encode_fixed32 (mask v) whole (mask-lt v) in
      let one : 1 + n ≡ suc n = omega arith in
      let seven : header_size + n ≡ suc (suc (suc (suc (suc (suc (suc n)))))) = omega arith in
      let fits : ltb (suc (suc (suc (suc (suc (suc (suc (length (payload ++ tail)))))))))
            (suc (suc (suc (suc (suc (suc (suc n)))))))
          ≡ false =
        ground (arith, length-append payload tail) in
      rw (
        stored_length n hp,
        decoded,
        unmask-mask v (value-lt c (type_value t ∷ payload)),
        type_char t,
        type_nonzero t ht,
        one,
        seven,
        take_prefix n payload tail refl,
        drop_prefix n payload tail refl,
        ==_refl v,
        fits,
        and_false r.checksum,
        not_below_zero r.initial_offset h0,
      )

short_block : (n k m : ℕ) → k ≡ min m n → (if ltb k m then true else false) ≡ ltb n m
short_block n k m h = ground arith

short_end :
    (offset : ℕ)
    → block_size < offset + header_size
    → (start offset ≡ 0) × (trailer offset ≡ replicate (block_size - offset) 0)
short_end offset h = ground arith

long_end :
    (offset : ℕ)
    → offset + header_size ≤ block_size
    → (start offset ≡ offset) × (trailer offset ≡ [])
long_end offset h = ground arith

-- The reader stands at `offset` in a block (at its end before the first read), and `stream` is still
-- to be read: the buffer holds the part of it in this block, the file has the rest, and the end of
-- the file has been seen if the last block was short. The log is read from its beginning.
pub record AtStream {F : Type 0} (rest : F → Slice) (r : Reader F) (offset : ℕ) (stream : Slice)
    : Type 0 where
  pub buffer_lem : r.buffer ≡ take (block_size - offset) stream
  pub rest_lem : rest r.file ≡ drop (block_size - offset) stream
  pub eof_lem : r.eof ≡ ltb (length stream) (block_size - offset)
  pub from_start : r.initial_offset ≡ 0
  pub synced : r.resyncing ≡ false

-- What reading a physical record, from `r` to `r'`, leaves alone.
pub record Quiet {F : Type 0} (r r' : Reader F) : Type 0 where
  pub reports_lem : r'.reports ≡ r.reports
  pub last_offset : r'.last_record_offset ≡ r.last_record_offset
  pub resyncing_lem : r'.resyncing ≡ r.resyncing

module _ {F : Type 0} (c : Checksum) (file : SequentialFile F) (rest : F → Slice)
    (good : IsStreaming file rest) where
  -- A record that starts where the reader stands, and ends in this block, is parsed.
  parse_here :
      (t : RecordType) (payload more fragment : Slice) (r : Reader F) (offset : ℕ)
      → t ≢ zero_type
      → length payload < 2 ^ 16
      → offset + (header_size + length payload) ≤ block_size
      → AtStream rest r offset (record_bytes c t payload ++ more)
      → (r' : Reader F) × (parse_record c file fragment r ≡ (r', type_value t, payload))
        × AtStream rest r' (offset + (header_size + length payload)) more
        × Quiet r r'
  parse_here t payload more fragment r offset ht hp fits at =
      let n = header_size + length payload in
      let left = block_size - (offset + n) in
      let size : block_size - offset ≡ n + left = omega arith in
      let bytes = record_bytes c t payload in
      let len : length bytes ≡ n = length-record_bytes c t payload in
      let buffered : r.buffer ≡ bytes ++ take left more =
        at.buffer_lem ∙ rw size (take-append n left bytes more len) in
      (
        record r { buffer = take left more },
        ap (λ (b : Slice). parse_record c file fragment (record r { buffer = b })) buffered
            ∙ parse-record_bytes c file t payload (take left more) fragment r ht hp at.from_start,
        record {
          buffer_lem = refl;
          rest_lem =
              at.rest_lem
              ∙ rw size (
                  sym (drop-drop left n (bytes ++ more))
                  ∙ ap (drop left) (drop_prefix n bytes more len));
          eof_lem = at.eof_lem ∙ ground (arith, length-append bytes more);
          from_start = at.from_start;
          synced = at.synced;
        },
        record { reports_lem = refl; last_offset = refl; resyncing_lem = refl },
      )

  -- After a read the reader stands at the start of a block.
  fill_block :
      (r : Reader F) (stream : Slice)
      → r.eof ≡ false
      → r.initial_offset ≡ 0
      → r.resyncing ≡ false
      → rest r.file ≡ stream
      → ((fill c file r).1 ≡ true)
        × AtStream rest (fill c file r).0 0 stream
        × Quiet r (fill c file r).0
  unfolding fill
  fill_block r stream he h0 hs hr =
      let bytes : (file.read block_size r.file).2 ≡ take block_size stream =
        good.read_bytes block_size r.file ∙ ap (take block_size) hr in
      rw (good.read_status block_size r.file) (
        refl,
        record {
          buffer_lem = bytes;
          rest_lem = good.read_rest block_size r.file ∙ ap (drop block_size) hr;
          eof_lem =
              rw (bytes, he)
                (short_block (length stream) (length (take block_size stream)) block_size
                  (length-take block_size stream));
          from_start = h0;
          synced = hs;
        },
        record { reports_lem = refl; last_offset = refl; resyncing_lem = refl },
      )

  length-buffer :
      (r : Reader F) (offset : ℕ) (stream : Slice)
      → AtStream rest r offset stream
      → length r.buffer ≡ min (block_size - offset) (length stream)
  length-buffer r offset stream at =
      ap length at.buffer_lem ∙ length-take (block_size - offset) stream

  -- One turn of the loop of `ReadPhysicalRecord`: a header is there, or the file has ended, or a
  -- block is read.
  turn_parse :
      (fuel : ℕ) (fragment : Slice) (r : Reader F)
      → header_size ≤ length r.buffer
      → read_physical_loop c file (suc fuel) fragment r ≡ some (parse_record c file fragment r)
  unfolding read_physical_loop
  turn_parse fuel fragment r h = rw (le→ltb (length r.buffer) header_size h)

  turn_eof :
      (fuel : ℕ) (fragment : Slice) (r : Reader F)
      → length r.buffer < header_size
      → r.eof ≡ true
      → read_physical_loop c file (suc fuel) fragment r
        ≡ some (record r { buffer = [] }, eof_type, fragment)
  unfolding read_physical_loop
  turn_eof fuel fragment r h e = simp (lt→ltb (length r.buffer) header_size h, e)

  turn_fill :
      (fuel : ℕ) (fragment : Slice) (r : Reader F)
      → length r.buffer < header_size
      → r.eof ≡ false
      → (fill c file r).1 ≡ true
      → read_physical_loop c file (suc fuel) fragment r
        ≡ read_physical_loop c file fuel fragment (fill c file r).0
  unfolding read_physical_loop
  turn_fill fuel fragment r h e ok = simp (lt→ltb (length r.buffer) header_size h, e, ok)

  Quiet-trans : (r r1 r2 : Reader F) → Quiet r r1 → Quiet r1 r2 → Quiet r r2
  Quiet-trans r r1 r2 p q = record {
    reports_lem = q.reports_lem ∙ p.reports_lem;
    last_offset = q.last_offset ∙ p.last_offset;
    resyncing_lem = q.resyncing_lem ∙ p.resyncing_lem;
  }

  -- The stream behind the zeros at the end of a block, with the reader at the start of the next one.
  skip_trailer :
      (fragment : Slice) (fuel : ℕ) (r : Reader F) (offset : ℕ) (zeros stream : Slice)
      → block_size < offset + header_size
      → offset ≤ block_size
      → length zeros ≡ block_size - offset
      → AtStream rest r offset (zeros ++ stream)
      → (r' : Reader F) × (read_physical_loop c file (suc fuel) fragment r
          ≡ read_physical_loop c file fuel fragment r')
        × AtStream rest r' 0 stream
        × Quiet r r'
  skip_trailer fragment fuel r offset zeros stream ho hb len at =
      let open_end : r.eof ≡ false = at.eof_lem ∙ ground (arith, length-append zeros stream) in
      let short : length r.buffer < header_size =
        omega (arith, length-buffer r offset (zeros ++ stream) at) in
      let behind : rest r.file ≡ stream =
        at.rest_lem ∙ drop_prefix (block_size - offset) zeros stream len in
      let (ok, at', quiet) = fill_block r stream open_end at.from_start at.synced behind in
      ((fill c file r).0, turn_fill fuel fragment r short open_end ok, at', quiet)

  holds_header :
      (t : RecordType) (payload more : Slice) (r : Reader F) (offset : ℕ)
      → offset + header_size ≤ block_size
      → AtStream rest r offset (record_bytes c t payload ++ more)
      → header_size ≤ length r.buffer
  holds_header t payload more r offset h at = omega (
    arith,
    length-buffer r offset (record_bytes c t payload ++ more) at,
    length-append (record_bytes c t payload) more,
    length-record_bytes c t payload,
  )

  -- `ReadPhysicalRecord` returns a framed record of the stream, with its type, and then stands
  -- behind it; zeros at the end of a block are passed over.
  pub read_framed :
      (t : RecordType) (payload more fragment : Slice) (r : Reader F) (offset : ℕ)
      → t ≢ zero_type
      → offset ≤ block_size
      → start offset + (header_size + length payload) ≤ block_size
      → AtStream rest r offset (trailer offset ++ (record_bytes c t payload ++ more))
      → (r' : Reader F) × (read_physical_record c file fragment r
          ≡ some (r', type_value t, payload))
        × AtStream rest r' (start offset + (header_size + length payload)) more
        × Quiet r r'
  unfolding read_physical_record
  read_framed t payload more fragment r offset ht ho fits at =
      elim (dec_lt block_size (offset + header_size)) [
        | yes short ↦
            let (no_room, zeros) = short_end offset short in
            let stream = record_bytes c t payload ++ more in
            let at' : AtStream rest r offset (replicate (block_size - offset) 0 ++ stream) =
              rw zeros at at in
            let (r1, turned, at1, quiet1) =
              skip_trailer fragment 1 r offset (replicate (block_size - offset) 0) stream short ho
                (length-replicate (block_size - offset) 0) at' in
            let fits' : 0 + (header_size + length payload) ≤ block_size = rw no_room at fits in
            let (r2, parsed, at2, quiet2) =
              parse_here t payload more fragment r1 0 ht (omega arith) fits' at1 in
            let full = holds_header t payload more r1 0 (omega arith) at1 in
            rw no_room (
              r2,
              turned ∙ turn_parse 0 fragment r1 full ∙ ap some parsed,
              at2,
              Quiet-trans r r1 r2 quiet1 quiet2,
            )
        | no long ↦
            let (here, nothing) = long_end offset (omega arith) in
            let at' : AtStream rest r offset (record_bytes c t payload ++ more) =
              rw nothing at at in
            let fits' : offset + (header_size + length payload) ≤ block_size = rw here at fits in
            let (r2, parsed, at2, quiet2) =
              parse_here t payload more fragment r offset ht (omega arith) fits' at' in
            let full = holds_header t payload more r offset (omega arith) at' in
            rw here (r2, turn_parse 1 fragment r full ∙ ap some parsed, at2, quiet2)
      ]

  -- At the end of the stream `ReadPhysicalRecord` returns the end-of-file value.
  pub read_at_end :
      (fragment : Slice) (r : Reader F) (offset : ℕ)
      → offset ≤ block_size
      → AtStream rest r offset []
      → (r' : Reader F) × (read_physical_record c file fragment r ≡ some (r', eof_type, fragment))
        × Quiet r r'
  unfolding read_physical_record
  read_at_end fragment r offset ho at = elim (dec_lt offset block_size) [
    | yes inside ↦
        let ended : r.eof ≡ true = at.eof_lem ∙ ground arith in
        let empty : length r.buffer < header_size = omega (arith, length-buffer r offset [] at) in
        (
          record r { buffer = [] },
          turn_eof 1 fragment r empty ended,
          record { reports_lem = refl; last_offset = refl; resyncing_lem = refl },
        )
    | no outside ↦
        let (r1, turned, at1, quiet1) =
          skip_trailer fragment 1 r offset [] [] (omega arith) ho (omega arith) at in
        let ended : r1.eof ≡ true = at1.eof_lem in
        let empty : length r1.buffer < header_size = omega (arith, length-buffer r1 0 [] at1) in
        (
          record r1 { buffer = [] },
          turned ∙ turn_eof 0 fragment r1 empty ended,
          record {
            reports_lem = quiet1.reports_lem;
            last_offset = quiet1.last_offset;
            resyncing_lem = quiet1.resyncing_lem;
          },
        )
  ]
