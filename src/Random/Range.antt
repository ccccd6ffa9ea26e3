-- ===== src/Random/Range.antt =====
-- The reduction modulo 2^31 - 1 and the ranges of the results.
use mini_leveldb.Base.{ℕ, zero, suc, ◌+◌, ◌-◌, ◌*◌, ◌%◌, ◌^◌, ◌≤◌, ◌<◌, ◌≡◌, ap, arith, bit_and}
use mini_leveldb.Base.Bits.{bit_and_low, two_pow-suc, two_pow_positive}
use native.Mathlib.Nat.{mod-lt, add-suc}
use mini_leveldb.Random.{modulus, factor, new_random, next, skewed, uniform}

-- A seed that `Next` never leaves: neither zero nor the modulus.
abbrev pub IsSeed : ℕ → Type 0
IsSeed seed = (1 ≤ seed) × (seed < modulus)

no_zero : (seed : ℕ) → IsSeed seed → 1 ≤ seed * factor % modulus
no_zero seed h = omega arith

-- On a seed between zero and the modulus, `Next` returns the product with 16807 modulo 2^31 - 1, and
-- that is such a seed again.
pub next-product :
    (seed : ℕ) → IsSeed seed → (next seed ≡ seed * factor % modulus) × IsSeed (next seed)
unfolding next
next-product seed h =
    let low : bit_and (seed * factor) modulus ≡ seed * factor % 2 ^ 31 =
      bit_and_low 31 (seed * factor) in
    rw low (ground (arith, no_zero seed h))

-- The constructor makes a seed between zero and the modulus, whatever number it is given.
pub new_random-IsSeed : (s : ℕ) → IsSeed (new_random s)
unfolding new_random
new_random-IsSeed s =
    let low : bit_and s 0x7fffffff ≡ s % 2 ^ 31 = bit_and_low 31 s in rw low (ground arith)

two_pow_le : (a k : ℕ) → 2 ^ a ≤ 2 ^ (a + k)
two_pow_le a zero = let e : a + 0 ≡ a = omega arith in omega (arith, ap (λ n. 2 ^ n) e)
two_pow_le a (suc k) =
    omega (arith, two_pow_le a k, two_pow-suc (a + k), ap (λ n. 2 ^ n) (add-suc a k))

-- The result of `Skewed` is below 2 to the largest exponent, and the generator keeps a seed.
pub skewed_range :
    (max_log seed : ℕ)
    → IsSeed seed
    → IsSeed (skewed max_log seed).0 × ((skewed max_log seed).1 < 2 ^ max_log)
unfolding skewed uniform
skewed_range max_log seed h =
    let (_, h1) = next-product seed h in
    let (_, h2) = next-product (next seed) h1 in
    let base = next seed % (max_log + 1) in
    let small : base < max_log + 1 = mod-lt (next seed) (omega arith) in
    let below : next (next seed) % 2 ^ base < 2 ^ base =
      mod-lt (next (next seed)) (omega (arith, two_pow_positive base)) in
    let top : 2 ^ base ≤ 2 ^ (base + (max_log - base)) = two_pow_le base (max_log - base) in
    let e : base + (max_log - base) ≡ max_log = omega arith in
    (h2, omega (arith, below, top, ap (λ n. 2 ^ n) e))
