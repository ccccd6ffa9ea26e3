-- ===== src/Base/Bits.antt =====
-- The native bit operations as arithmetic, at every width.
use Prim.Native.Nat.{ℕ, zero, suc, ◌+◌, ◌-◌, ◌*◌, ◌/◌, ◌%◌, ◌^◌, ◌≤◌, ◌<◌, min, max}
use Prim.Native.Nat.{bit_and, bit_or, digits, bit_and-bitwise, bit_or-bitwise}
use mathlib.Core.Path.{◌≡◌, refl, ap, ◌∙◌}
use native.Mathlib.Omega.{arith}
use native.Mathlib.Nat.{
  pow-suc, one-le-pow, div-add-mod, mod-lt, mul_comm, div-div-eq-div-mul, mul_left_comm,
}

-- The digit recursion does not depend on its fuel.
module _ (z : ℕ → ℕ) (f : ℕ → ℕ → ℕ) where
  pub digits_enough : (n m a b : ℕ) → a ≤ n → a ≤ m → digits z f n a b ≡ digits z f m a b
  digits_enough zero zero a b p q = refl
  digits_enough zero (suc m) zero b p q = refl
  digits_enough zero (suc m) (suc a) b p q = absurd (omega arith)
  digits_enough (suc n) zero zero b p q = refl
  digits_enough (suc n) zero (suc a) b p q = absurd (omega arith)
  digits_enough (suc n) (suc m) zero b p q = refl
  digits_enough (suc n) (suc m) (suc a) b p q =
      omega (arith, digits_enough n m (suc a / 2) (b / 2) (omega arith) (omega arith))

-- One binary digit at a time.
pub bit_and_digit : (a b : ℕ) → bit_and a b ≡ bit_and (a / 2) (b / 2) * 2 + min (a % 2) (b % 2)
bit_and_digit zero b = omega (arith, bit_and-bitwise 0 b, bit_and-bitwise 0 (b / 2))
bit_and_digit (suc a) b = omega (
  arith,
  bit_and-bitwise (suc a) b,
  bit_and-bitwise (suc a / 2) (b / 2),
  digits_enough (λ y. 0) min a (suc a / 2) (suc a / 2) (b / 2) (omega arith) (omega arith),
)

pub bit_or_digit : (a b : ℕ) → bit_or a b ≡ bit_or (a / 2) (b / 2) * 2 + max (a % 2) (b % 2)
bit_or_digit zero b = omega (arith, bit_or-bitwise 0 b, bit_or-bitwise 0 (b / 2))
bit_or_digit (suc a) b = omega (
  arith,
  bit_or-bitwise (suc a) b,
  bit_or-bitwise (suc a / 2) (b / 2),
  digits_enough (λ y. y) max a (suc a / 2) (suc a / 2) (b / 2) (omega arith) (omega arith),
)

pub zero-bit_or : (b : ℕ) → bit_or 0 b ≡ b
zero-bit_or b = bit_or-bitwise 0 b

bit_or_comm_enough : (n a b : ℕ) → a ≤ n → b ≤ n → bit_or a b ≡ bit_or b a
bit_or_comm_enough n zero zero p q = refl
bit_or_comm_enough zero zero (suc b) p q = absurd (omega arith)
bit_or_comm_enough zero (suc a) b p q = absurd (omega arith)
bit_or_comm_enough (suc n) zero (suc b) p q = omega (
  arith,
  bit_or_digit 0 (suc b),
  bit_or_digit (suc b) 0,
  bit_or_comm_enough n 0 (suc b / 2) (omega arith) (omega arith),
)
bit_or_comm_enough (suc n) (suc a) b p q = omega (
  arith,
  bit_or_digit (suc a) b,
  bit_or_digit b (suc a),
  bit_or_comm_enough n (suc a / 2) (b / 2) (omega arith) (omega arith),
)

pub bit_or_comm : (a b : ℕ) → bit_or a b ≡ bit_or b a
bit_or_comm a b = bit_or_comm_enough (a + b) a b (omega arith) (omega arith)

pub bit_or-zero : (a : ℕ) → bit_or a 0 ≡ a
bit_or-zero a = bit_or_comm a 0 ∙ zero-bit_or a

pub two_pow-suc : (k q : ℕ) → q * 2 ^ suc k ≡ 2 * (q * 2 ^ k)
two_pow-suc k q = omega (arith, ap (λ (t : ℕ). q * t) (pow-suc 2 k))

-- `low | (high << k)` is a sum when `low` has `k` digits.
pub bit_or_fields : (k low high : ℕ) → low < 2 ^ k → bit_or low (high * 2 ^ k) ≡ low + high * 2 ^ k
bit_or_fields zero low high h =
    let e : low ≡ 0 = omega arith in rw e (omega (arith, zero-bit_or (high * 2 ^ 0)))
bit_or_fields (suc k) low high h = ground (
  arith,
  bit_or_digit low (high * 2 ^ suc k),
  two_pow-suc k high,
  pow-suc 2 k,
  bit_or_fields k (low / 2) high (omega (arith, pow-suc 2 k)),
)

pub zero-bit_and : (b : ℕ) → bit_and 0 b ≡ 0
zero-bit_and b = bit_and-bitwise 0 b

bit_and-zero_enough : (n a : ℕ) → a ≤ n → bit_and a 0 ≡ 0
bit_and-zero_enough n zero h = zero-bit_and 0
bit_and-zero_enough zero (suc a) h = absurd (omega arith)
bit_and-zero_enough (suc n) (suc a) h =
    omega (arith, bit_and_digit (suc a) 0, bit_and-zero_enough n (suc a / 2) (omega arith))

pub bit_and-zero : (a : ℕ) → bit_and a 0 ≡ 0
bit_and-zero a = bit_and-zero_enough a a (omega arith)

low_part : (k high low : ℕ) → low < 2 ^ k → bit_and (high * 2 ^ k + low) (2 ^ k - 1) ≡ low
low_part zero high low h = omega (arith, bit_and-zero (high * 2 ^ 0 + low))
low_part (suc k) high low h = ground (
  arith,
  bit_and_digit (high * 2 ^ suc k + low) (2 ^ suc k - 1),
  two_pow-suc k high,
  pow-suc 2 k,
  low_part k high (low / 2) (omega (arith, pow-suc 2 k)),
)

-- A mask of `k` ones is the remainder by `2 ^ k`.
pub bit_and_low : (k a : ℕ) → bit_and a (2 ^ k - 1) ≡ a % 2 ^ k
bit_and_low k a = ground (
  arith,
  div-add-mod a (2 ^ k),
  mod-lt a (one-le-pow k 2 (omega arith)),
  mul_comm (a / 2 ^ k) (2 ^ k),
  low_part k (a / 2 ^ k) (a % 2 ^ k),
)

-- A mask with one 1.
pub bit_and-two_pow : (k a : ℕ) → bit_and a (2 ^ k) ≡ a / 2 ^ k % 2 * 2 ^ k
bit_and-two_pow zero a = omega (arith, bit_and_digit a 1, bit_and-zero (a / 2))
bit_and-two_pow (suc k) a =
    let e : 2 ^ suc k ≡ 2 * 2 ^ k = omega (arith, pow-suc 2 k) in
    let d : a / 2 / 2 ^ k ≡ a / (2 * 2 ^ k) = div-div-eq-div-mul a 2 (2 ^ k) in
    let half : 2 * 2 ^ k / 2 ≡ 2 ^ k = omega arith in
    rw (e, ← d)
      (omega (
        arith,
        bit_and_digit a (2 * 2 ^ k),
        ap (λ (t : ℕ). bit_and (a / 2) t) half,
        bit_and-two_pow k (a / 2),
        mul_left_comm (a / 2 / 2 ^ k % 2) 2 (2 ^ k),
      ))

-- More digits in the first operand, more in the result.
and_or_mono_enough : (n x y m : ℕ) → x ≤ n → y ≤ n → bit_and x m ≤ bit_and (bit_or x y) m
and_or_mono_enough n zero y m p q = omega (arith, zero-bit_and m)
and_or_mono_enough zero (suc x) y m p q = absurd (omega arith)
and_or_mono_enough (suc n) (suc x) y m p q =
    let e : bit_or (suc x) y / 2 ≡ bit_or (suc x / 2) (y / 2) =
      omega (arith, bit_or_digit (suc x) y) in
    let f : bit_and (bit_or (suc x) y / 2) (m / 2) ≡ bit_and (bit_or (suc x / 2) (y / 2)) (m / 2) =
      ap (λ (t : ℕ). bit_and t (m / 2)) e in
    omega (
      arith,
      f,
      bit_or_digit (suc x) y,
      bit_and_digit (suc x) m,
      bit_and_digit (bit_or (suc x) y) m,
      and_or_mono_enough n (suc x / 2) (y / 2) (m / 2) (omega arith) (omega arith),
    )

pub bit_and-le-or : (x y m : ℕ) → bit_and x m ≤ bit_and (bit_or x y) m
bit_and-le-or x y m = and_or_mono_enough (x + y) x y m (omega arith) (omega arith)

bit_and_self_enough : (n x : ℕ) → x ≤ n → bit_and x x ≡ x
bit_and_self_enough n zero h = zero-bit_and 0
bit_and_self_enough zero (suc x) h = absurd (omega arith)
bit_and_self_enough (suc n) (suc x) h =
    omega (arith, bit_and_digit (suc x) (suc x), bit_and_self_enough n (suc x / 2) (omega arith))

pub bit_and_self : (x : ℕ) → bit_and x x ≡ x
bit_and_self x = bit_and_self_enough x x (omega arith)

-- Operands of `k` digits give `k` digits.
pub bit_or-lt : (k a b : ℕ) → a < 2 ^ k → b < 2 ^ k → bit_or a b < 2 ^ k
bit_or-lt zero a b p q = let e : a ≡ 0 = omega arith in rw e (omega (arith, zero-bit_or b))
bit_or-lt (suc k) a b p q = omega (
  arith,
  bit_or_digit a b,
  pow-suc 2 k,
  bit_or-lt k (a / 2) (b / 2) (omega (arith, pow-suc 2 k)) (omega (arith, pow-suc 2 k)),
)

or_even : (v m : ℕ) → bit_or v (2 * m) ≡ bit_or (v / 2) m * 2 + v % 2
or_even v m =
    let half : 2 * m / 2 ≡ m = omega arith in
    omega (arith, bit_or_digit v (2 * m), ap (λ (t : ℕ). bit_or (v / 2) t) half)

or_top_rest : (v : ℕ) → bit_or v 128 ≡ bit_or (v / 128) 1 * 128 + v % 128
or_top_rest v = omega (
  arith,
  or_even v 64,
  or_even (v / 2) 32,
  or_even (v / 2 / 2) 16,
  or_even (v / 2 / 2 / 2) 8,
  or_even (v / 2 / 2 / 2 / 2) 4,
  or_even (v / 2 / 2 / 2 / 2 / 2) 2,
  or_even (v / 2 / 2 / 2 / 2 / 2 / 2) 1,
  ap (λ (t : ℕ). bit_or t 1) seven,
)
  where
    seven : v / 2 / 2 / 2 / 2 / 2 / 2 / 2 ≡ v / 128
    seven = omega arith

-- `(uint8_t)(v | 128)`: the top digit of the byte is set, the seven below are those of `v`.
pub bit_or_top : (v : ℕ) → bit_or v 128 % 256 ≡ v % 128 + 128
bit_or_top v = omega (arith, or_top_rest v, bit_or_digit (v / 128) 1, bit_or-zero (v / 128 / 2))

pub two_pow_positive : (n : ℕ) → 0 < 2 ^ n
two_pow_positive zero = omega arith
two_pow_positive (suc n) = omega (arith, two_pow-suc n, two_pow_positive n)
