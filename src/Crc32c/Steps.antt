-- ===== src/Crc32c/Steps.antt =====
-- The steps of util/crc32c.cc that read the tables, in terms of digit steps.
use mini_leveldb.Base.{ℕ, ◌+◌, ◌*◌, ◌/◌, ◌%◌, ◌^◌, ◌≤◌, ◌<◌, ◌≡◌, sym, ap, ◌∙◌, arith}
use mini_leveldb.Base.{[], ◌∷◌, bit_xor, get_or, length, drop, All}
use mini_leveldb.Base.Xor.{bit_xor_comm, bit_xor_assoc, bit_xor-lt, bit_xor_fields}
use mini_leveldb.Slice.{Slice, IsByte}
use mini_leveldb.Coding.{decode_fixed32}
use mini_leveldb.Coding.Fixed.{decode_fixed32-sum}
use mini_leveldb.Crc32c.Tables.{byte_extension_table}
use mini_leveldb.Crc32c.Extend.{step1, step4, table_step, step4w}
use mini_leveldb.Crc32c.Bitwise.{
  digit_steps, digit_steps_linear, digit_steps_add, digit_steps_shift, byte_loop,
}
use mini_leveldb.Crc32c.TableValues.{
  byte_table_value, stride_table0_value, stride_table1_value, stride_table2_value,
  stride_table3_value,
}

-- The low byte goes through the table, and the others are shifted down.
byte_split : (w : ℕ) → digit_steps 8 w ≡ bit_xor (digit_steps 8 (w % 2 ^ 8)) (w / 2 ^ 8)
byte_split w =
    let parts : w ≡ bit_xor (w % 2 ^ 8) (w / 2 ^ 8 * 2 ^ 8) =
      omega (arith, bit_xor_fields 8 (w % 2 ^ 8) (w / 2 ^ 8) (omega arith)) in
    ap (digit_steps 8) parts
    ∙ digit_steps_linear 8 (w % 2 ^ 8) (w / 2 ^ 8 * 2 ^ 8)
    ∙ ap (bit_xor (digit_steps 8 (w % 2 ^ 8))) (digit_steps_shift 8 (w / 2 ^ 8))

byte_entry : (x : ℕ) → x < 256 → get_or byte_extension_table x 0 ≡ digit_steps 8 x
byte_entry x h = let e : x * 2 ^ 0 ≡ x = omega arith in byte_table_value x h ∙ ap (digit_steps 8) e

pub step1_lem : (l b : ℕ) → b < 256 → step1 l b ≡ digit_steps 8 (bit_xor l b)
unfolding step1
step1_lem l b h = rw (
  byte_entry (bit_xor (l % 2 ^ 8) b) (bit_xor-lt 8 (l % 2 ^ 8) b (omega arith) h),
  digit_steps_linear 8 (l % 2 ^ 8) b,
  digit_steps_linear 8 l b,
  byte_split l,
  bit_xor_assoc (digit_steps 8 (l % 2 ^ 8)) (digit_steps 8 b) (l / 2 ^ 8),
  bit_xor_assoc (digit_steps 8 (l % 2 ^ 8)) (l / 2 ^ 8) (digit_steps 8 b),
  bit_xor_comm (l / 2 ^ 8) (digit_steps 8 b),
)

table_step_lem : (w : ℕ) → table_step w ≡ digit_steps 8 w
unfolding table_step
table_step_lem w =
    rw (byte_entry (w % 2 ^ 8) (omega arith), byte_split w)
      (bit_xor_comm (w / 2 ^ 8) (digit_steps 8 (w % 2 ^ 8)))

-- Four bytes are 32 digits.
four_bytes :
    (x : ℕ) → digit_steps 8 (digit_steps 8 (digit_steps 8 (digit_steps 8 x))) ≡ digit_steps 32 x
four_bytes x = sym (
    digit_steps_add 8 24 x
    ∙ digit_steps_add 8 16 (digit_steps 8 x)
    ∙ digit_steps_add 8 8 (digit_steps 8 (digit_steps 8 x)))

pub step4w_lem : (l w : ℕ) → step4w l w ≡ digit_steps 32 (bit_xor l w)
unfolding step4w
step4w_lem l w = rw (
  table_step_lem (bit_xor w l),
  table_step_lem (digit_steps 8 (bit_xor w l)),
  table_step_lem (digit_steps 8 (digit_steps 8 (bit_xor w l))),
  table_step_lem (digit_steps 8 (digit_steps 8 (digit_steps 8 (bit_xor w l)))),
  four_bytes (bit_xor w l),
  bit_xor_comm w l,
)

-- One byte of a word at a time.
low_byte :
    (l a y : ℕ)
    → a < 256
    → digit_steps 8 (bit_xor l (a + y * 2 ^ 8)) ≡ bit_xor (digit_steps 8 (bit_xor l a)) y
low_byte l a y h =
    ap (λ (t : ℕ). digit_steps 8 (bit_xor l t)) (sym (bit_xor_fields 8 a y h))
    ∙ ap (digit_steps 8) (sym (bit_xor_assoc l a (y * 2 ^ 8)))
    ∙ digit_steps_linear 8 (bit_xor l a) (y * 2 ^ 8)
    ∙ ap (bit_xor (digit_steps 8 (bit_xor l a))) (digit_steps_shift 8 y)

-- A word against the checksum is its four bytes.
pub word_front :
    (l : ℕ) (p : Slice)
    → All IsByte p
    → 4 ≤ length p
    → byte_loop l p ≡ byte_loop (digit_steps 32 (bit_xor l (decode_fixed32 p))) (drop 4 p)
unfolding byte_loop
word_front l [] bs h = absurd (omega arith)
word_front l (a ∷ []) bs h = absurd (omega arith)
word_front l (a ∷ b ∷ []) bs h = absurd (omega arith)
word_front l (a ∷ b ∷ c ∷ []) bs h = absurd (omega arith)
word_front l (a ∷ b ∷ c ∷ d ∷ p) (ha, (hb, (hc, (hd, _)))) h =
    let word : decode_fixed32 (a ∷ b ∷ c ∷ d ∷ p) ≡ a + (b + (c + d * 2 ^ 8) * 2 ^ 8) * 2 ^ 8 =
      omega (arith, decode_fixed32-sum a b c d p (ha, (hb, (hc, (hd, tt))))) in
    let l1 = digit_steps 8 (bit_xor l a) in
    let l2 = digit_steps 8 (bit_xor l1 b) in
    rw (
      word,
      ← four_bytes (bit_xor l (a + (b + (c + d * 2 ^ 8) * 2 ^ 8) * 2 ^ 8)),
      low_byte l a (b + (c + d * 2 ^ 8) * 2 ^ 8) ha,
      low_byte l1 b (c + d * 2 ^ 8) hb,
      low_byte l2 c d hc,
    )

pub decode_fixed32-lt : (p : Slice) → All IsByte p → 4 ≤ length p → decode_fixed32 p < 2 ^ 32
decode_fixed32-lt [] bs h = absurd (omega arith)
decode_fixed32-lt (a ∷ []) bs h = absurd (omega arith)
decode_fixed32-lt (a ∷ b ∷ []) bs h = absurd (omega arith)
decode_fixed32-lt (a ∷ b ∷ c ∷ []) bs h = absurd (omega arith)
decode_fixed32-lt (a ∷ b ∷ c ∷ d ∷ p) (ha, (hb, (hc, (hd, _)))) h =
    omega (arith, decode_fixed32-sum a b c d p (ha, (hb, (hc, (hd, tt)))))

-- The four bytes of a partial result, by the tables of the strides, are 128 digits.
stride_split :
    (c : ℕ)
    → digit_steps 128 c
      ≡ bit_xor
          (bit_xor
            (bit_xor
              (digit_steps 128 (c % 2 ^ 8 * 2 ^ 0))
              (digit_steps 128 (c / 2 ^ 8 % 2 ^ 8 * 2 ^ 8)))
            (digit_steps 128 (c / 2 ^ 16 % 2 ^ 8 * 2 ^ 16)))
          (digit_steps 128 (c / 2 ^ 24 * 2 ^ 24))
stride_split c =
    let c0 = c % 2 ^ 8 in
    let c1 = c / 2 ^ 8 % 2 ^ 8 in
    let c2 = c / 2 ^ 16 % 2 ^ 8 in
    let c3 = c / 2 ^ 24 in
    let parts : c
        ≡ bit_xor (bit_xor (bit_xor (c0 * 2 ^ 0) (c1 * 2 ^ 8)) (c2 * 2 ^ 16)) (c3 * 2 ^ 24) =
      rw
        (
          bit_xor_fields 8 (c0 * 2 ^ 0) c1 (omega arith),
          bit_xor_fields 16 (c0 * 2 ^ 0 + c1 * 2 ^ 8) c2 (omega arith),
          bit_xor_fields 24 (c0 * 2 ^ 0 + c1 * 2 ^ 8 + c2 * 2 ^ 16) c3 (omega arith),
        )
        (omega arith) in
    ap (digit_steps 128) parts
    ∙ rw (
      digit_steps_linear 128 (bit_xor (bit_xor (c0 * 2 ^ 0) (c1 * 2 ^ 8)) (c2 * 2 ^ 16))
          (c3 * 2 ^ 24),
      digit_steps_linear 128 (bit_xor (c0 * 2 ^ 0) (c1 * 2 ^ 8)) (c2 * 2 ^ 16),
      digit_steps_linear 128 (c0 * 2 ^ 0) (c1 * 2 ^ 8),
    )

pub step4_lem : (c w : ℕ) → c < 2 ^ 32 → step4 c w ≡ bit_xor w (digit_steps 128 c)
unfolding step4
step4_lem c w h =
    let s3 = digit_steps 128 (c % 2 ^ 8 * 2 ^ 0) in
    let s2 = digit_steps 128 (c / 2 ^ 8 % 2 ^ 8 * 2 ^ 8) in
    let s1 = digit_steps 128 (c / 2 ^ 16 % 2 ^ 8 * 2 ^ 16) in
    let s0 = digit_steps 128 (c / 2 ^ 24 * 2 ^ 24) in
    rw (
      stride_table3_value (c % 2 ^ 8) (omega arith),
      stride_table2_value (c / 2 ^ 8 % 2 ^ 8) (omega arith),
      stride_table1_value (c / 2 ^ 16 % 2 ^ 8) (omega arith),
      stride_table0_value (c / 2 ^ 24) (omega arith),
      stride_split c,
      bit_xor_assoc w s3 s2,
      bit_xor_assoc w (bit_xor s3 s2) s1,
      bit_xor_assoc w (bit_xor (bit_xor s3 s2) s1) s0,
    )
