-- ===== src/Crc32c/Agrees.antt =====
-- `Extend` of util/crc32c.cc against CRC-32C one binary digit at a time, and its laws.
use mini_leveldb.Base.{ℕ, ◌+◌, ◌-◌, ◌%◌, ◌^◌, ◌≤◌, ◌<◌, ◌≡◌, refl, sym, ap, ◌∙◌, arith}
use mini_leveldb.Base.{[], ◌∷◌, ◌++◌, map, bit_xor, leb, if◌then◌else◌, inl, inr, Bool-cases}
use mini_leveldb.Base.{length, take, drop, All, All-take, All-drop, length-drop, drop-drop}
use mini_leveldb.Base.{take-append-drop}
use mini_leveldb.Base.Xor.{bit_xor_comm, zero-bit_xor, bit_xor-lt, bit_xor_twice}
use mini_leveldb.Slice.{Slice, IsByte}
use mini_leveldb.Coding.{decode_fixed32}
use mini_leveldb.Crc32c.{Checksum}
use mini_leveldb.Crc32c.Extend.{
  Strides, round_up, step1_loop, swath_loop, combine, extend_strides, extend,
}
use mini_leveldb.Crc32c.Bitwise.{digit_steps, byte_loop}
use mini_leveldb.Crc32c.Steps.{word_front, decode_fixed32-lt}
use mini_leveldb.Crc32c.Partial.{
  step1_loop_lem, byte_loop-append, byte_loop-lt, IsWords, Keeps-trans, combine_lem,
  word_loop-Keeps, swath_loop-Keeps,
}

-- The checksum of some bytes, extended by more: each byte goes into the low digits, and eight digits
-- are shifted out. The digits of a checksum are stored inverted.
unfoldable pub bitwise_extend : ℕ → Slice → ℕ
bitwise_extend crc bytes =
    bit_xor (byte_loop (bit_xor (crc % 2 ^ 32) 0xffffffff) (map (λ c. c % 2 ^ 8) bytes)) 0xffffffff

-- The four partial results that are loaded first.
loaded : ℕ → Slice → Strides
loaded l p = record {
  crc0 = bit_xor (decode_fixed32 p) l;
  crc1 = decode_fixed32 (drop 4 p);
  crc2 = decode_fixed32 (drop 8 p);
  crc3 = decode_fixed32 (drop 12 p);
}

module _ (l : ℕ) (p : Slice) (bs : All IsByte p) (h : 16 ≤ length p) where
  loaded-combine : byte_loop (combine (loaded l p)) (drop 16 p) ≡ byte_loop l p
  unfolding loaded
  loaded-combine =
      let w0 = decode_fixed32 p in
      let l1 = digit_steps 32 (bit_xor l w0) in
      let l2 = digit_steps 32 (bit_xor l1 (decode_fixed32 (drop 4 p))) in
      let l3 = digit_steps 32 (bit_xor l2 (decode_fixed32 (drop 8 p))) in
      rw (
        combine_lem (loaded l p),
        zero-bit_xor (bit_xor w0 l),
        bit_xor_comm w0 l,
        word_front l p bs (omega arith),
        word_front l1 (drop 4 p) (All-drop IsByte 4 p bs) (omega (arith, length-drop 4 p)),
        drop-drop 4 4 p,
        word_front l2 (drop 8 p) (All-drop IsByte 8 p bs) (omega (arith, length-drop 8 p)),
        drop-drop 4 8 p,
        word_front l3 (drop 12 p) (All-drop IsByte 12 p bs) (omega (arith, length-drop 12 p)),
        drop-drop 4 12 p,
      )

  loaded-IsWords : l < 2 ^ 32 → IsWords (loaded l p)
  unfolding loaded
  loaded-IsWords k =
      let word = λ (n : ℕ) (e : n ≤ 12).
        decode_fixed32-lt (drop n p) (All-drop IsByte n p bs) (omega (arith, length-drop n p)) in
      record {
        crc0_lt = bit_xor-lt 32 (decode_fixed32 p) l (word 0 (omega arith)) k;
        crc1_lt = word 4 (omega arith);
        crc2_lt = word 8 (omega arith);
        crc3_lt = word 12 (omega arith);
      }

  extend_strides_lem :
      l < 2 ^ 32
      → (byte_loop (extend_strides l p).0 (extend_strides l p).1 ≡ byte_loop l p)
        × All IsByte (extend_strides l p).1
  unfolding extend_strides loaded
  extend_strides_lem k =
      let p0 = drop 16 p in
      let swaths =
        swath_loop-Keeps (length p) (loaded l p) p0 (loaded-IsWords k) (All-drop IsByte 16 p bs) in
      let r = swath_loop (length p) (loaded l p) p0 in
      let both =
        Keeps-trans swaths (word_loop-Keeps (length r.1) r.0 r.1 swaths.words swaths.bytes) in
      (both.same ∙ loaded-combine, both.bytes)

map-IsByte : (bytes : Slice) → All IsByte (map (λ c. c % 2 ^ 8) bytes)
map-IsByte [] = tt
map-IsByte (c ∷ bytes) = (omega arith, map-IsByte bytes)

-- The bytes before the first aligned one, one at a time.
aligned_lem :
    (n l : ℕ) (p : Slice)
    → All IsByte p
    → byte_loop (step1_loop l (take n p)) (drop n p) ≡ byte_loop l p
aligned_lem n l p bs =
    ap (λ (t : ℕ). byte_loop t (drop n p)) (step1_loop_lem l (take n p) (All-take IsByte n p bs))
    ∙ sym (byte_loop-append l (take n p) (drop n p))
    ∙ ap (byte_loop l) (take-append-drop n p)

strides_or_not :
    (l : ℕ) (p : Slice)
    → l < 2 ^ 32
    → All IsByte p
    → let r = if leb 16 (length p) then extend_strides l p else (l, p) in
      step1_loop r.0 r.1 ≡ byte_loop l p
strides_or_not l p k bs = elim (Bool-cases (leb 16 (length p))) [
  | inl more ↦
      let (same, bytes) = extend_strides_lem l p bs (ground (arith, more)) k in
      rw more (step1_loop_lem (extend_strides l p).0 (extend_strides l p).1 bytes ∙ same)
  | inr done ↦ rw done (step1_loop_lem l p bs)
]

-- At every address, on any bytes, and whatever the checksum that it extends, the software path of
-- `Extend` (its tables, the bytes up to the alignment, the swaths and words of the strides and the last
-- bytes) returns the CRC-32C that is computed digit by digit from the polynomial.
pub extend-bitwise :
    (address crc : ℕ) (bytes : Slice) → extend address crc bytes ≡ bitwise_extend crc bytes
unfolding extend bitwise_extend
extend-bitwise address crc bytes =
    let p = map (λ c. c % 2 ^ 8) bytes in
    let bs : All IsByte p = map-IsByte bytes in
    let l = bit_xor (crc % 2 ^ 32) 0xffffffff in
    let small : l < 2 ^ 32 = bit_xor-lt 32 (crc % 2 ^ 32) 0xffffffff (omega arith) (omega arith) in
    let x = round_up address in
    let n = if leb x (address + length p) then x - address else 0 in
    let before : step1_loop l (take n p) ≡ byte_loop l (take n p) =
      step1_loop_lem l (take n p) (All-take IsByte n p bs) in
    let bound : step1_loop l (take n p) < 2 ^ 32 =
      rw before (byte_loop-lt l (take n p) small (All-take IsByte n p bs)) in
    ap (λ (t : ℕ). bit_xor t 0xffffffff)
      (strides_or_not (step1_loop l (take n p)) (drop n p) bound (All-drop IsByte n p bs)
        ∙ aligned_lem n l p bs)

map-append :
    (xs ys : Slice)
    → map (λ c. c % 2 ^ 8) (xs ++ ys) ≡ map (λ c. c % 2 ^ 8) xs ++ map (λ c. c % 2 ^ 8) ys
map-append [] ys = refl
map-append (x ∷ xs) ys = ap (λ (t : Slice). (x % 2 ^ 8) ∷ t) (map-append xs ys)

pub bitwise-lt : (crc : ℕ) (bytes : Slice) → bitwise_extend crc bytes < 2 ^ 32
unfolding bitwise_extend
bitwise-lt crc bytes =
    let l = bit_xor (crc % 2 ^ 32) 0xffffffff in
    let small : l < 2 ^ 32 = bit_xor-lt 32 (crc % 2 ^ 32) 0xffffffff (omega arith) (omega arith) in
    bit_xor-lt 32 (byte_loop l (map (λ c. c % 2 ^ 8) bytes)) 0xffffffff
      (byte_loop-lt l (map (λ c. c % 2 ^ 8) bytes) small (map-IsByte bytes)) (omega arith)

pub bitwise-append :
    (crc : ℕ) (xs ys : Slice)
    → bitwise_extend (bitwise_extend crc xs) ys ≡ bitwise_extend crc (xs ++ ys)
unfolding bitwise_extend
bitwise-append crc xs ys =
    let l = bit_xor (crc % 2 ^ 32) 0xffffffff in
    let mx = map (λ c. c % 2 ^ 8) xs in
    let word : bit_xor (byte_loop l mx) 0xffffffff % 2 ^ 32 ≡ bit_xor (byte_loop l mx) 0xffffffff =
      omega (arith, bitwise-lt crc xs) in
    rw (
      word,
      bit_xor_twice (byte_loop l mx) 0xffffffff,
      map-append xs ys,
      byte_loop-append l mx (map (λ c. c % 2 ^ 8) ys),
    )

-- `Extend` of the bytes at an address, as the checksum of the log.
unfoldable pub crc32c : (address : ℕ) → Checksum
crc32c address = record {
  extend = extend address;
  extend-lt = λ crc bytes. rw (extend-bitwise address crc bytes) (bitwise-lt crc bytes);
  extend-append = λ crc xs ys.
      rw
        (
          extend-bitwise address crc xs,
          extend-bitwise address (bitwise_extend crc xs) ys,
          extend-bitwise address crc (xs ++ ys),
        )
        (bitwise-append crc xs ys);
}
