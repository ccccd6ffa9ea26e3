-- ===== src/Coding/Varint.antt =====
-- What the two varint encoders and `VarintLength` compute, in plain arithmetic.
use mini_leveldb.Base.{ℕ, zero, suc, ◌+◌, ◌/◌, ◌%◌, ◌^◌, ◌≤◌, ◌<◌, ◌≡◌, refl, arith}
use mini_leveldb.Base.{[], ◌∷◌, ltb, if◌then◌else◌, length, All, lt_wf}
use mini_leveldb.Base.Bits.{bit_or_top}
use mini_leveldb.Slice.{Slice, IsByte}
use mini_leveldb.Coding.{encode_varint32, encode_varint64, encode_varint64_loop}
use mini_leveldb.Coding.{varint_length, varint_length_loop}
use mathlib.Core.WellFounded.{Acc}

-- The digits of v in base 128, lowest first, with 128 added to each but the last; at most k + 1.
unfoldable pub base128 : ℕ → ℕ → Slice
base128 zero v = v ∷ []
base128 (suc k) v =
    let rest = base128 k (v / 128) in if ltb v 128 then v ∷ [] else (v % 128 + 128) ∷ rest

-- On every uint32 the five branches of `EncodeVarint32` write the base-128 digits.
pub encode_varint32-base128 : (v : ℕ) → v < 2 ^ 32 → encode_varint32 v ≡ base128 4 v
unfolding encode_varint32 base128
encode_varint32-base128 v h =
    ground (
      arith,
      bit_or_top v,
      bit_or_top (v / 2 ^ 7),
      bit_or_top (v / 2 ^ 14),
      bit_or_top (v / 2 ^ 21),
    )

loop-base128 : (k v : ℕ) (w : Acc ◌<◌ v) → v < 128 ^ suc k → encode_varint64_loop v w ≡ base128 k v
unfolding encode_varint64_loop base128
loop-base128 zero v (Acc.intro _ smaller) h = ground arith
loop-base128 (suc k) v (Acc.intro _ smaller) h =
    grind
      (arith, bit_or_top v, λ (w : Acc ◌<◌ (v / 2 ^ 7)). loop-base128 k (v / 2 ^ 7) w (omega arith))

-- On every uint64 the loop of `EncodeVarint64` writes the base-128 digits, ten at most.
pub encode_varint64-base128 : (v : ℕ) → v < 2 ^ 64 → encode_varint64 v ≡ base128 9 v
unfolding encode_varint64
encode_varint64-base128 v h = loop-base128 9 v (lt_wf.apply v) (omega arith)

length_loop-base128 :
    (k v : ℕ) (w : Acc ◌<◌ v) (len : ℕ)
    → v < 128 ^ suc k
    → varint_length_loop v w len + 1 ≡ len + length (base128 k v)
unfolding varint_length_loop base128
length_loop-base128 zero v (Acc.intro _ smaller) len h = ground arith
length_loop-base128 (suc k) v (Acc.intro _ smaller) len h = grind (
  arith,
  λ (w : Acc ◌<◌ (v / 2 ^ 7)). length_loop-base128 k (v / 2 ^ 7) w (len + 1) (omega arith),
)

pub varint_length-base128 : (v : ℕ) → v < 2 ^ 64 → varint_length v ≡ length (base128 9 v)
unfolding varint_length
varint_length-base128 v h = omega (arith, length_loop-base128 9 v (lt_wf.apply v) 1 (omega arith))

-- More room does not change the digits.
pub base128_room : (k m v : ℕ) → v < 128 ^ suc k → k ≤ m → base128 m v ≡ base128 k v
unfolding base128
base128_room zero zero v h r = refl
base128_room zero (suc m) v h r = ground arith
base128_room (suc k) zero v h r = absurd (omega arith)
base128_room (suc k) (suc m) v h r =
    ground (arith, base128_room k m (v / 128) (omega arith) (omega arith))

pub base128-IsByte : (k v : ℕ) → v < 128 ^ suc k → All IsByte (base128 k v)
unfolding base128
base128-IsByte zero v h = omega arith
base128-IsByte (suc k) v h = ground (arith, base128-IsByte k (v / 128) (omega arith))

pub length-base128 : (k v : ℕ) → (1 ≤ length (base128 k v)) × (length (base128 k v) ≤ k + 1)
unfolding base128
length-base128 zero v = omega arith
length-base128 (suc k) v = ground (arith, length-base128 k (v / 128))

-- For a uint32 the two encoders write the same bytes, as many as `VarintLength` says, at most five.
pub varint32_agrees :
    (v : ℕ)
    → v < 2 ^ 32
    → (encode_varint32 v ≡ encode_varint64 v)
      × (length (encode_varint32 v) ≡ varint_length v)
      × (varint_length v ≤ 5)
varint32_agrees v h =
    let short : base128 9 v ≡ base128 4 v = base128_room 4 9 v (omega arith) (omega arith) in
    ground (
      arith,
      short,
      encode_varint32-base128 v h,
      encode_varint64-base128 v (omega arith),
      varint_length-base128 v (omega arith),
      length-base128 4 v,
    )
