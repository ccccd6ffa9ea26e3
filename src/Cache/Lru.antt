-- ===== src/Cache/Lru.antt =====
-- util/cache.cc: `LRUCache`, one shard of the cache.
use mini_leveldb.Base.{
  ℕ, zero, suc, ◌+◌, ◌-◌, ◌%◌, ◌^◌, Bool, true, false, not, ◌&&◌, List, [], ◌∷◌, Option, none, some,
}
use mini_leveldb.Base.{update, ltb, ◌==◌, if◌then◌else◌}
use mathlib.Core.Option
use mini_leveldb.Slice.{Slice}
use mini_leveldb.Cache.{
  LruHandle, HandleTable, new_handle_table, table_lookup, table_insert, table_remove,
}

-- The heads of the two rings are handles of their own.
abbrev pub lru : ℕ
lru = 0

abbrev pub in_use : ℕ
in_use = 1

-- `handles` is the memory of the entries, `count` the number of the next one, and `deleted` the calls
-- of deleters, the last one first, each with its deleter, key and value.
pub record LruCache : Type 0 where
  pub capacity : ℕ
  pub usage : ℕ
  pub handles : ℕ → LruHandle
  pub count : ℕ
  pub table : HandleTable
  pub deleted : List (ℕ × Slice × ℕ)

-- The heads point to themselves; no other handle is read before it is written.
abbrev blank : ℕ → LruHandle
blank q = record {
  value = 0;
  deleter = 0;
  next = q;
  prev = q;
  charge = 0;
  in_cache = false;
  refs = 0;
  hash = 0;
  key = [];
}

unfoldable pub new_lru_cache : LruCache
unfolding new_handle_table
new_lru_cache = record {
  capacity = 0;
  usage = 0;
  handles = blank;
  count = 2;
  table = new_handle_table blank;
  deleted = [];
}

unfoldable pub set_capacity : LruCache → ℕ → LruCache
set_capacity c capacity = record c { capacity = capacity }

abbrev pub set_next : (ℕ → LruHandle) → ℕ → ℕ → ℕ → LruHandle
set_next m p q = update m p (record (m p) { next = q })

abbrev pub set_prev : (ℕ → LruHandle) → ℕ → ℕ → ℕ → LruHandle
set_prev m p q = update m p (record (m p) { prev = q })

-- `LRU_Remove`, on the memory of the entries.
unfoldable pub lru_remove : (ℕ → LruHandle) → ℕ → ℕ → LruHandle
lru_remove m e = let m1 = set_prev m (m e).next (m e).prev in set_next m1 (m1 e).prev (m1 e).next

-- `LRU_Append`.
unfoldable pub lru_append : (ℕ → LruHandle) → (list e : ℕ) → ℕ → LruHandle
lru_append m list e =
    let m1 = set_next m e list in
    let m2 = set_prev m1 e (m1 list).prev in
    let m3 = set_next m2 (m2 e).prev e in set_prev m3 (m3 e).next e

unfoldable pub set_refs : (ℕ → LruHandle) → ℕ → ℕ → ℕ → LruHandle
set_refs m e refs = update m e (record (m e) { refs = refs % 2 ^ 32 })

unfoldable pub ref_ : LruCache → ℕ → LruCache
unfolding lru_remove lru_append set_refs
ref_ c e =
    let m = c.handles in
    let moved =
      if ((m e).refs == 1) && (m e).in_cache then lru_append (lru_remove m e) in_use e else m in
    record c { handles = set_refs moved e ((moved e).refs + 1) }

-- The entry is freed behind the call of its deleter: nothing reads it again.
unfoldable pub unref : LruCache → ℕ → LruCache
unfolding lru_remove lru_append set_refs
unref c e =
    let m = set_refs c.handles e ((c.handles e).refs + (2 ^ 32 - 1)) in
    let h = m e in
    if h.refs == 0
    then record c { handles = m; deleted = (h.deleter, h.key, h.value) ∷ c.deleted }
    else if h.in_cache && (h.refs == 1)
    then record c { handles = lru_append (lru_remove m e) lru e }
    else record c { handles = m }

-- The answer of `FinishErase` is whether there is an entry.
unfoldable pub finish_erase : LruCache → Option ℕ → LruCache × Bool
unfolding lru_remove unref
finish_erase c none = (c, false)
finish_erase c (some e) =
    let m1 = lru_remove c.handles e in
    let m2 = update m1 e (record (m1 e) { in_cache = false }) in
    let usage' = (c.usage + (2 ^ 64 - (m2 e).charge % 2 ^ 64)) % 2 ^ 64 in
    (unref (record c { handles = m2; usage = usage' }) e, true)

unfoldable pub erase : LruCache → Slice → ℕ → LruCache
unfolding table_remove finish_erase
erase c key hash =
    let (e, table') = table_remove c.handles c.table key hash in
    (finish_erase (record c { table = table' }) e).0

unfoldable pub lookup_found : LruCache → Option ℕ → Option ℕ × LruCache
unfolding ref_
lookup_found c none = (none, c)
lookup_found c (some e) = (some e, ref_ c e)

unfoldable pub lookup : LruCache → Slice → ℕ → Option ℕ × LruCache
unfolding table_lookup lookup_found
lookup c key hash = lookup_found c (table_lookup c.handles c.table key hash)

unfoldable pub release : LruCache → ℕ → LruCache
unfolding unref
release c handle = unref c handle

-- The body of the loops of `Insert` and `Prune`: the oldest entry is erased.
unfoldable pub evict : LruCache → LruCache
unfolding erase
evict c = let old = c.handles (c.handles lru).next in erase c old.key old.hash

-- The loop of `Insert`, which goes on while there is more than the capacity, and that of `Prune`, which
-- does not look at it; `none` means that the fuel ran out.
unfoldable pub evict_loop : (fuel : ℕ) → (over : ℕ → Bool) → LruCache → Option LruCache
unfolding evict
evict_loop zero over c = none
evict_loop (suc fuel) over c =
    let rest = evict_loop fuel over (evict c) in
    if over c.usage && not ((c.handles lru).next == lru) then rest else some c

unfoldable pub prune : LruCache → Option LruCache
unfolding evict_loop
prune c = evict_loop c.count (λ _. true) c

-- `Insert` of an entry that the cache keeps.
unfoldable pub insert_cached : LruCache → ℕ → LruCache
unfolding lru_append set_refs table_insert finish_erase
insert_cached c e =
    let m1 = set_refs c.handles e ((c.handles e).refs + 1) in
    let m2 = update m1 e (record (m1 e) { in_cache = true }) in
    let m3 = lru_append m2 in_use e in
    let (old, table') = table_insert m3 c.table e in
    (finish_erase
      (record c { handles = m3; usage = (c.usage + (m3 e).charge) % 2 ^ 64; table = table' }) old).0

-- The handle and the cache. Where the capacity is zero, `next` is set for an assertion only.
unfoldable pub insert : LruCache → Slice → (hash value charge deleter : ℕ) → Option (ℕ × LruCache)
unfolding insert_cached evict_loop
insert c key hash value charge deleter =
    let e = c.count in
    let h : LruHandle = record {
      value = value;
      deleter = deleter;
      next = e;
      prev = e;
      charge = charge;
      in_cache = false;
      refs = 1;
      hash = hash;
      key = key;
    } in
    let c1 : LruCache = record c { handles = update c.handles e h; count = e + 1 } in
    let c2 = if ltb 0 c.capacity then insert_cached c1 e else c1 in
    Option.map (λ c3. (e, c3)) (evict_loop c2.count (ltb c2.capacity) c2)

-- The destructor: every entry of the ring `lru_` loses the reference of the cache.
unfoldable pub destroy_loop : (fuel e : ℕ) → LruCache → Option LruCache
unfolding unref
destroy_loop zero e c = none
destroy_loop (suc fuel) e c =
    let next = (c.handles e).next in
    let m = update c.handles e (record (c.handles e) { in_cache = false }) in
    let rest = destroy_loop fuel next (unref (record c { handles = m }) e) in
    if e == lru then some c else rest

unfoldable pub destroy : LruCache → Option LruCache
unfolding destroy_loop
destroy c = destroy_loop c.count (c.handles lru).next c
