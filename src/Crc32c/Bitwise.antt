-- ===== src/Crc32c/Bitwise.antt =====
-- CRC-32C one binary digit at a time, apart from the tables and loops of util/crc32c.cc, and the laws of
-- its digit step.
use mini_leveldb.Base.{ℕ, zero, suc, ◌+◌, ◌*◌, ◌/◌, ◌%◌, ◌^◌, ◌<◌, ◌≡◌, refl, ap, ◌∙◌, arith}
use mini_leveldb.Base.{[], ◌∷◌, bit_xor}
use mini_leveldb.Base.Xor.{
  bit_xor_half, bit_xor_parity, zero-bit_xor, bit_xor-zero, bit_xor_self, bit_xor_assoc,
  bit_xor_left_comm, bit_xor-lt,
}
use mini_leveldb.Base.Bits.{two_pow-suc}
use mini_leveldb.Slice.{Slice}

-- The polynomial of CRC-32C, its lowest power in the highest digit.
abbrev pub polynomial : ℕ
polynomial = 0x82f63b78

-- The lowest digit is shifted out, and where it is 1 the polynomial is taken off.
unfoldable pub digit_step : ℕ → ℕ
digit_step x = bit_xor (x / 2) (x % 2 * polynomial)

unfoldable pub digit_steps : ℕ → ℕ → ℕ
unfolding digit_step
digit_steps zero x = x
digit_steps (suc n) x = digit_steps n (digit_step x)

-- The digits of a byte, and of all bytes.
unfoldable pub byte_loop : ℕ → Slice → ℕ
unfolding digit_steps
byte_loop l [] = l
byte_loop l (byte ∷ p) = byte_loop (digit_steps 8 (bit_xor l byte)) p

parity_step : (p q v : ℕ) → p < 2 → q < 2 → (p + q) % 2 * v ≡ bit_xor (p * v) (q * v)
parity_step zero zero v h k = omega (arith, bit_xor_self (0 * v))
parity_step zero (suc zero) v h k =
    let e : 0 * v ≡ 0 = omega arith in rw e (omega (arith, zero-bit_xor (1 * v)))
parity_step (suc zero) zero v h k =
    let e : 0 * v ≡ 0 = omega arith in rw e (omega (arith, bit_xor-zero (1 * v)))
parity_step (suc zero) (suc zero) v h k = omega (arith, bit_xor_self (1 * v))
parity_step zero (suc (suc q)) v h k = absurd (omega arith)
parity_step (suc zero) (suc (suc q)) v h k = absurd (omega arith)
parity_step (suc (suc p)) q v h k = absurd (omega arith)

-- Two sums, term by term.
pub bit_xor_swap :
    (a b c d : ℕ) → bit_xor (bit_xor a b) (bit_xor c d) ≡ bit_xor (bit_xor a c) (bit_xor b d)
bit_xor_swap a b c d =
    rw (bit_xor_assoc a b (bit_xor c d), bit_xor_left_comm b c d, bit_xor_assoc a c (bit_xor b d))

digit_step_linear : (x y : ℕ) → digit_step (bit_xor x y) ≡ bit_xor (digit_step x) (digit_step y)
unfolding digit_step
digit_step_linear x y =
    rw
      (
        bit_xor_half x y,
        bit_xor_parity x y,
        parity_step (x % 2) (y % 2) polynomial (omega arith) (omega arith),
      )
      (bit_xor_swap (x / 2) (y / 2) (x % 2 * polynomial) (y % 2 * polynomial))

pub digit_steps_linear :
    (n x y : ℕ) → digit_steps n (bit_xor x y) ≡ bit_xor (digit_steps n x) (digit_steps n y)
unfolding digit_steps
digit_steps_linear zero x y = refl
digit_steps_linear (suc n) x y =
    ap (digit_steps n) (digit_step_linear x y) ∙ digit_steps_linear n (digit_step x) (digit_step y)

pub digit_steps_add : (m n x : ℕ) → digit_steps (m + n) x ≡ digit_steps n (digit_steps m x)
unfolding digit_steps
digit_steps_add zero n x = let e : 0 + n ≡ n = omega arith in ap (λ (k : ℕ). digit_steps k x) e
digit_steps_add (suc m) n x =
    let e : suc m + n ≡ suc (m + n) = omega arith in
    ap (λ (k : ℕ). digit_steps k x) e ∙ digit_steps_add m n (digit_step x)

digit_step_even : (x : ℕ) → digit_step (2 * x) ≡ x
unfolding digit_step
digit_step_even x =
    let e : 2 * x % 2 ≡ 0 = omega arith in
    let f : 2 * x / 2 ≡ x = omega arith in rw (e, f) (bit_xor-zero x)

-- Low zeros are shifted out.
pub digit_steps_shift : (n x : ℕ) → digit_steps n (x * 2 ^ n) ≡ x
unfolding digit_steps
digit_steps_shift zero x = omega arith
digit_steps_shift (suc n) x =
    ap (digit_steps n) (ap digit_step (two_pow-suc n x) ∙ digit_step_even (x * 2 ^ n))
    ∙ digit_steps_shift n x

pub digit_steps-lt : (n x : ℕ) → x < 2 ^ 32 → digit_steps n x < 2 ^ 32
unfolding digit_steps digit_step
digit_steps-lt zero x h = h
digit_steps-lt (suc n) x h =
    digit_steps-lt n (digit_step x)
      (bit_xor-lt 32 (x / 2) (x % 2 * polynomial) (omega arith) (ground arith))
