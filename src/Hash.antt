-- ===== src/Hash.antt =====
-- util/hash.cc: the hash of a byte string.
use mini_leveldb.Base.{ℕ, ◌+◌, ◌*◌, ◌/◌, ◌%◌, ◌^◌, [], ◌∷◌, bit_xor, length}
use mini_leveldb.Slice.{Slice}
use mini_leveldb.Coding.{decode_fixed32}

abbrev multiplier : ℕ
multiplier = 0xc6a4a793

-- `h *= m; h ^= (h >> r)`, behind an addition.
unfoldable pub mix : (h r : ℕ) → ℕ
mix h r = let h' = h % 2 ^ 32 * multiplier % 2 ^ 32 in bit_xor h' (h' / 2 ^ r)

-- The last bytes, fewer than four: the switch with its fall-through.
unfoldable pub hash_tail : Slice → ℕ → ℕ
unfolding mix
hash_tail (a ∷ b ∷ c ∷ _) h = mix (h + c * 2 ^ 16 + b * 2 ^ 8 + a) 24
hash_tail (a ∷ b ∷ []) h = mix (h + b * 2 ^ 8 + a) 24
hash_tail (a ∷ []) h = mix (h + a) 24
hash_tail [] h = h

-- `while (data + 4 <= limit)`, and the switch behind it.
unfoldable pub hash_loop : Slice → ℕ → ℕ
unfolding mix hash_tail decode_fixed32
hash_loop (a ∷ b ∷ c ∷ d ∷ data') h =
    hash_loop data' (mix (h + decode_fixed32 (a ∷ b ∷ c ∷ d ∷ [])) 16)
hash_loop data' h = hash_tail data' h

unfoldable pub hash : Slice → ℕ → ℕ
unfolding hash_loop
hash data' seed = hash_loop data' (bit_xor seed (length data' * multiplier % 2 ^ 64) % 2 ^ 32)
