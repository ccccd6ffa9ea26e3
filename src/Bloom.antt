-- ===== src/Bloom.antt =====
-- util/bloom.cc: the Bloom filter policy.
pub mod NoMiss
use mini_leveldb.Base.{
  ℕ, zero, suc, ◌+◌, ◌-◌, ◌*◌, ◌/◌, ◌%◌, ◌^◌, Bool, true, false, List, [], ◌∷◌, ◌++◌,
}
use mini_leveldb.Base.{bit_and, bit_or, ltb, ◌==◌, if◌then◌else◌, length, get_or, set, replicate}
use mini_leveldb.Slice.{Slice}
use mini_leveldb.Hash.{hash}
use mini_leveldb.FilterPolicy.{FilterPolicy}

unfoldable pub bloom_hash : Slice → ℕ
unfolding hash
bloom_hash key = hash key 0xbc9f1d34

-- `bits_per_key * 0.69` cut to an integer, between 1 and 30. The product of doubles and the quotient
-- of integers are the same up to 43, and above both exceed 30.
unfoldable pub probes_for : ℕ → ℕ
probes_for bits_per_key =
    let k = bits_per_key * 69 / 100 in if ltb k 1 then 1 else if ltb 30 k then 30 else k

-- Rotate right 17 bits.
unfoldable pub rotate : ℕ → ℕ
rotate h = bit_or (h / 2 ^ 17) (h * 2 ^ 15 % 2 ^ 32)

-- `array[bitpos / 8] |= (1 << (bitpos % 8))`
unfoldable pub set_bit : Slice → ℕ → Slice
set_bit array bitpos =
    set array (bitpos / 8) (bit_or (get_or array (bitpos / 8) 0) (2 ^ (bitpos % 8)))

-- `(array[bitpos / 8] & (1 << (bitpos % 8))) == 0`
unfoldable pub bit_is_clear : Slice → ℕ → Bool
bit_is_clear array bitpos = bit_and (get_or array (bitpos / 8) 0) (2 ^ (bitpos % 8)) == 0

-- The inner loop of `CreateFilter`, from the count of the probes that are left.
unfoldable pub add_probes : (bits delta : ℕ) → (left h : ℕ) → Slice → Slice
unfolding set_bit
add_probes bits delta zero h array = array
add_probes bits delta (suc left) h array =
    add_probes bits delta left ((h + delta) % 2 ^ 32) (set_bit array (h % bits))

-- The outer loop.
unfoldable pub add_keys : (bits k : ℕ) → List Slice → Slice → Slice
unfolding add_probes bloom_hash rotate
add_keys bits k [] array = array
add_keys bits k (key ∷ keys) array =
    let h = bloom_hash key in add_keys bits k keys (add_probes bits (rotate h) k h array)

-- The number of bytes of the array, from the number of keys.
unfoldable pub filter_bytes : (n bits_per_key : ℕ) → ℕ
filter_bytes n bits_per_key =
    let bits = n * bits_per_key % 2 ^ 64 in
    let bits' = if ltb bits 64 then 64 else bits in (bits' + 7) % 2 ^ 64 / 8

-- The array is filled in its place, behind what the string held and before the count of the probes.
unfoldable pub create_filter : ℕ → List Slice → Slice → Slice
unfolding filter_bytes add_keys probes_for
create_filter bits_per_key keys dst =
    let bytes = filter_bytes (length keys) bits_per_key in
    let k = probes_for bits_per_key in
    dst ++ (add_keys (bytes * 8) k keys (replicate bytes 0) ++ (k ∷ []))

-- The loop of `KeyMayMatch`.
unfoldable pub match_probes : (bits delta : ℕ) → (left h : ℕ) → Slice → Bool
unfolding bit_is_clear
match_probes bits delta zero h array = true
match_probes bits delta (suc left) h array =
    let rest = match_probes bits delta left ((h + delta) % 2 ^ 32) array in
    if bit_is_clear array (h % bits) then false else rest

unfoldable pub key_may_match : Slice → Slice → Bool
unfolding match_probes bloom_hash rotate
key_may_match key bloom_filter =
    let len = length bloom_filter in
    let bits = (len - 1) * 8 in
    let k = get_or bloom_filter (len - 1) 0 in
    let h = bloom_hash key in
    if ltb len 2
    then false
    else if ltb 30 k
    then true
    else match_probes bits (rotate h) k h bloom_filter

unfoldable pub bloom_filter_policy : ℕ → FilterPolicy
unfolding create_filter key_may_match
bloom_filter_policy bits_per_key = record {
  create_filter = create_filter bits_per_key;
  key_may_match = key_may_match;
}
