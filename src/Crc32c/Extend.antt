-- ===== src/Crc32c/Extend.antt =====
-- util/crc32c.cc: `Extend` behind its static flag, with the loops that are used where the processor has
-- no instruction for the checksum. Pointers are an address and the bytes from it to the end of the data.
use mini_leveldb.Base.{ℕ, zero, suc, ◌+◌, ◌-◌, ◌*◌, ◌/◌, ◌%◌, ◌^◌, [], ◌∷◌, bit_xor, map}
use mini_leveldb.Base.{leb, if◌then◌else◌, length, take, drop, get_or}
use mini_leveldb.Slice.{Slice}
use mini_leveldb.Coding.{decode_fixed32}
use mini_leveldb.Crc32c.Tables.{
  byte_extension_table, stride_extension_table0, stride_extension_table1, stride_extension_table2,
  stride_extension_table3,
}

abbrev pub crc32_xor : ℕ
crc32_xor = 0xffffffff

-- `RoundUp<4>` of an address.
unfoldable pub round_up : ℕ → ℕ
round_up pointer = (pointer + 3) / 4 * 4

-- STEP1: one byte.
unfoldable pub step1 : (l byte : ℕ) → ℕ
step1 l byte =
    let c = bit_xor (l % 2 ^ 8) byte in bit_xor (get_or byte_extension_table c 0) (l / 2 ^ 8)

unfoldable pub step1_loop : ℕ → Slice → ℕ
step1_loop l [] = l
step1_loop l (byte ∷ p) = step1_loop (step1 l byte) p

-- STEP4: a word of four bytes against one of the partial results.
unfoldable pub step4 : (crc word : ℕ) → ℕ
step4 crc word =
    bit_xor
      (bit_xor
        (bit_xor (bit_xor word (get_or stride_extension_table3 (crc % 2 ^ 8) 0))
          (get_or stride_extension_table2 (crc / 2 ^ 8 % 2 ^ 8) 0))
        (get_or stride_extension_table1 (crc / 2 ^ 16 % 2 ^ 8) 0))
      (get_or stride_extension_table0 (crc / 2 ^ 24) 0)

-- The four partial results.
pub record Strides : Type 0 where
  pub crc0 : ℕ
  pub crc1 : ℕ
  pub crc2 : ℕ
  pub crc3 : ℕ

-- STEP16: a swath of sixteen bytes.
unfoldable pub step16 : Strides → Slice → Strides
unfolding step4
step16 s p = record {
  crc0 = step4 s.crc0 (decode_fixed32 p);
  crc1 = step4 s.crc1 (decode_fixed32 (drop 4 p));
  crc2 = step4 s.crc2 (decode_fixed32 (drop 8 p));
  crc3 = step4 s.crc3 (decode_fixed32 (drop 12 p));
}

-- STEP4W: a word that was loaded, against the checksum.
unfoldable pub table_step : ℕ → ℕ
table_step w = bit_xor (w / 2 ^ 8) (get_or byte_extension_table (w % 2 ^ 8) 0)

unfoldable pub step4w : (l w : ℕ) → ℕ
unfolding table_step
step4w l w = table_step (table_step (table_step (table_step (bit_xor w l))))

-- One swath at a time; each takes sixteen bytes, so as many rounds as there are bytes are enough.
unfoldable pub swath_loop : (fuel : ℕ) → Strides → Slice → Strides × Slice
unfolding step16
swath_loop zero s p = (s, p)
swath_loop (suc fuel) s p =
    let rest = swath_loop fuel (step16 s p) (drop 16 p) in
    if leb 16 (length p) then rest else (s, p)

-- One word at a time, and the partial results change places.
unfoldable pub word_loop : (fuel : ℕ) → Strides → Slice → Strides × Slice
unfolding step4
word_loop zero s p = (s, p)
word_loop (suc fuel) s p =
    let next : Strides = record {
      crc0 = s.crc1;
      crc1 = s.crc2;
      crc2 = s.crc3;
      crc3 = step4 s.crc0 (decode_fixed32 p);
    } in
    let rest = word_loop fuel next (drop 4 p) in if leb 4 (length p) then rest else (s, p)

unfoldable pub combine : Strides → ℕ
unfolding step4w
combine s = step4w (step4w (step4w (step4w 0 s.crc0) s.crc1) s.crc2) s.crc3

-- The block of `Extend` for sixteen bytes or more: the checksum and what is left of the data.
unfoldable pub extend_strides : ℕ → Slice → ℕ × Slice
unfolding swath_loop word_loop combine
extend_strides l p =
    let s : Strides = record {
      crc0 = bit_xor (decode_fixed32 p) l;
      crc1 = decode_fixed32 (drop 4 p);
      crc2 = decode_fixed32 (drop 8 p);
      crc3 = decode_fixed32 (drop 12 p);
    } in
    let (s1, p1) = swath_loop (length p) s (drop 16 p) in
    let (s2, p2) = word_loop (length p1) s1 p1 in (combine s2, p2)

-- `Extend` of the bytes at an address; a uint32_t and uint8_t.
unfoldable pub extend : (address : ℕ) → ℕ → Slice → ℕ
unfolding round_up step1_loop extend_strides
extend address crc bytes =
    let p = map (λ c. c % 2 ^ 8) bytes in
    let l = bit_xor (crc % 2 ^ 32) crc32_xor in
    let x = round_up address in
    let skipped = if leb x (address + length p) then x - address else 0 in
    let l1 = step1_loop l (take skipped p) in
    let p1 = drop skipped p in
    let (l2, p2) = if leb 16 (length p1) then extend_strides l1 p1 else (l1, p1) in
    bit_xor (step1_loop l2 p2) crc32_xor
