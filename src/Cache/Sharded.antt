-- ===== src/Cache/Sharded.antt =====
-- util/cache.cc: `ShardedLRUCache`, sixteen shards by the upper bits of the hash.
use mini_leveldb.Base.{ℕ, zero, suc, ◌+◌, ◌-◌, ◌/◌, ◌%◌, ◌^◌, Option, some}
use mini_leveldb.Base.{update}
use mathlib.Core.Option
use mini_leveldb.Slice.{Slice}
use mini_leveldb.Hash.{hash}
use mini_leveldb.Cache.Lru.{
  LruCache, new_lru_cache, set_capacity, insert, lookup, release, erase, prune,
}

abbrev pub num_shard_bits : ℕ
num_shard_bits = 4

abbrev pub num_shards : ℕ
num_shards = 2 ^ num_shard_bits

pub record ShardedLruCache : Type 0 where
  pub shard : ℕ → LruCache
  pub last_id : ℕ

-- The other numbers name no shard.
unfoldable pub new_sharded : ℕ → ShardedLruCache
unfolding new_lru_cache set_capacity
new_sharded capacity =
    let per_shard = (capacity + (num_shards - 1)) % 2 ^ 64 / num_shards in
    record { shard = λ s. set_capacity new_lru_cache per_shard; last_id = 0 }

unfoldable pub hash_slice : Slice → ℕ
unfolding hash
hash_slice s = hash s 0

unfoldable pub shard_of : ℕ → ℕ
shard_of h = h / 2 ^ (32 - num_shard_bits)

abbrev set_shard : ShardedLruCache → ℕ → LruCache → ShardedLruCache
set_shard c s shard = record c { shard = update c.shard s shard }

-- A handle is the number of its shard and its own there.
unfoldable pub sharded_insert :
    ShardedLruCache → Slice → (value charge deleter : ℕ) → Option ((ℕ × ℕ) × ShardedLruCache)
unfolding hash_slice shard_of insert
sharded_insert c key value charge deleter =
    let h = hash_slice key in
    let s = shard_of h in
    Option.map (λ (e, shard). ((s, e), set_shard c s shard))
      (insert (c.shard s) key h value charge deleter)

unfoldable pub sharded_lookup : ShardedLruCache → Slice → Option (ℕ × ℕ) × ShardedLruCache
unfolding hash_slice shard_of lookup
sharded_lookup c key =
    let h = hash_slice key in
    let s = shard_of h in
    let (e, shard) = lookup (c.shard s) key h in (Option.map (λ e. (s, e)) e, set_shard c s shard)

unfoldable pub sharded_release : ShardedLruCache → ℕ × ℕ → ShardedLruCache
unfolding shard_of release
sharded_release c (s, e) =
    let s' = shard_of ((c.shard s).handles e).hash in set_shard c s' (release (c.shard s') e)

unfoldable pub sharded_erase : ShardedLruCache → Slice → ShardedLruCache
unfolding hash_slice shard_of erase
sharded_erase c key =
    let h = hash_slice key in let s = shard_of h in set_shard c s (erase (c.shard s) key h)

unfoldable pub sharded_value : ShardedLruCache → ℕ × ℕ → ℕ
sharded_value c (s, e) = ((c.shard s).handles e).value

unfoldable pub new_id : ShardedLruCache → ℕ × ShardedLruCache
new_id c = let id = (c.last_id + 1) % 2 ^ 64 in (id, record c { last_id = id })

-- The loops over the shards, from the count of the shards left.
unfoldable pub prune_loop : (left s : ℕ) → ShardedLruCache → Option ShardedLruCache
unfolding prune
prune_loop zero s c = some c
prune_loop (suc left) s c =
    Option.bind (prune (c.shard s)) (λ shard. prune_loop left (s + 1) (set_shard c s shard))

unfoldable pub sharded_prune : ShardedLruCache → Option ShardedLruCache
unfolding prune_loop
sharded_prune c = prune_loop num_shards 0 c

unfoldable pub total_charge_loop : (left s total : ℕ) → ShardedLruCache → ℕ
total_charge_loop zero s total c = total
total_charge_loop (suc left) s total c =
    total_charge_loop left (s + 1) ((total + (c.shard s).usage) % 2 ^ 64) c

unfoldable pub total_charge : ShardedLruCache → ℕ
unfolding total_charge_loop
total_charge c = total_charge_loop num_shards 0 0 c
