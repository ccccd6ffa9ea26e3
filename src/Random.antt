-- ===== src/Random.antt =====
-- util/random.h: the pseudo-random number generator.
pub mod Range
use mini_leveldb.Base.{
  ℕ, ◌+◌, ◌-◌, ◌*◌, ◌/◌, ◌%◌, ◌^◌, Bool, ◌||◌, bit_and, ltb, ◌==◌, if◌then◌else◌,
}

-- M = 2^31 - 1 and A = 16807 of `Next`; a generator is its seed.
abbrev pub modulus : ℕ
modulus = 2 ^ 31 - 1

abbrev pub factor : ℕ
factor = 16807

unfoldable pub new_random : ℕ → ℕ
new_random s =
    let seed = bit_and s 0x7fffffff in if (seed == 0) || (seed == 2147483647) then 1 else seed

unfoldable pub next : ℕ → ℕ
next seed =
    let product = seed * factor in
    let seed' = (product / 2 ^ 31 + bit_and product modulus) % 2 ^ 32 in
    if ltb modulus seed' then seed' - modulus else seed'

-- The new seed and the result.
unfoldable pub uniform : ℕ → ℕ → ℕ × ℕ
unfolding next
uniform n seed = (next seed, next seed % n)

unfoldable pub one_in : ℕ → ℕ → ℕ × Bool
unfolding next
one_in n seed = (next seed, next seed % n == 0)

unfoldable pub skewed : ℕ → ℕ → ℕ × ℕ
unfolding uniform
skewed max_log seed = let (seed', base) = uniform (max_log + 1) seed in uniform (2 ^ base) seed'
