-- ===== src/Examples/CacheRuns.antt =====
-- The theorems on the cache at concrete inputs.
use mini_leveldb.Base.{
  ℕ, ◌≤◌, ◌≡◌, ◌≢◌, ◌∙◌, refl, arith, true, List, [], ◌∷◌, none, some, All, if◌then◌else◌,
}
use mini_leveldb.Slice.{Slice}
use mini_leveldb.Cache.{
  LruHandle, HandleTable, new_handle_table, table_lookup, table_insert, table_remove, resize,
}
use mini_leveldb.Cache.Lru.{LruCache, lru_append, lru_remove, prune}
use mini_leveldb.Cache.Evict.{IsIdle}
use mini_leveldb.Cache.Prune.{calls_onto, prune-calls}
use mini_leveldb.Cache.Table.{same_key, same_key_self}
use mini_leveldb.Cache.Buckets.{IsBuckets}
use mini_leveldb.Cache.Map.{
  IsTable, new_handle_table-IsTable, table_insert-table_lookup, table_remove-table_lookup,
}
use mini_leveldb.Cache.Resize.{resize-table_lookup}
use mini_leveldb.Cache.Ring.{IsRing}
use mini_leveldb.Cache.Ring.Moves.{lru_append-IsRing, lru_remove-IsRing}

-- Each entry has its number as its key and hash, and is a ring by itself.
abbrev memory : ℕ → LruHandle
memory q = record {
  value = q;
  deleter = 0;
  next = q;
  prev = q;
  charge = 1;
  in_cache = true;
  refs = 1;
  hash = q;
  key = q ∷ [];
}

abbrev empty : HandleTable
empty = new_handle_table memory

table_insert-table_lookup_example :
    IsTable memory (table_insert memory empty 7).1
    × ((table_insert memory empty 7).0 ≡ table_lookup memory empty (7 ∷ []) 7)
    × ((key : Slice) (hash : ℕ)
        → table_lookup memory (table_insert memory empty 7).1 key hash
          ≡ (if same_key (7 ∷ []) 7 key hash then some 7 else table_lookup memory empty key hash))
unfolding new_handle_table resize
table_insert-table_lookup_example =
    table_insert-table_lookup memory empty 7 (new_handle_table-IsTable memory) (omega arith)

one_entry-IsTable : IsTable memory (table_insert memory empty 7).1
unfolding new_handle_table resize
one_entry-IsTable =
    (table_insert-table_lookup memory empty 7 (new_handle_table-IsTable memory) (omega arith)).0

-- A table with one entry.
abbrev one_entry : HandleTable
one_entry = (table_insert memory empty 7).1

table_remove-table_lookup_example :
    IsTable memory (table_remove memory one_entry (7 ∷ []) 7).1
    × ((table_remove memory one_entry (7 ∷ []) 7).0 ≡ table_lookup memory one_entry (7 ∷ []) 7)
    × ((key : Slice) (hash : ℕ)
        → table_lookup memory (table_remove memory one_entry (7 ∷ []) 7).1 key hash
          ≡ (if same_key (7 ∷ []) 7 key hash then none else table_lookup memory one_entry key hash))
table_remove-table_lookup_example =
    table_remove-table_lookup memory one_entry (7 ∷ []) 7 one_entry-IsTable

resize-table_lookup_example :
    IsBuckets memory (resize memory one_entry).length_ (resize memory one_entry).list
    × (one_entry.elems ≤ (resize memory one_entry).length_)
    × ((key : Slice) (hash : ℕ)
        → table_lookup memory (resize memory one_entry) key hash
          ≡ table_lookup memory one_entry key hash)
resize-table_lookup_example =
    resize-table_lookup memory one_entry one_entry-IsTable.buckets one_entry-IsTable.small

lru_append-IsRing_example :
    IsRing (lru_append memory 0 5) 0 (5 ∷ [])
    × ((s' : ℕ) (ys : List ℕ)
        → IsRing memory s' ys
        → All (λ q. (5 ≢ q) × All (λ y. q ≢ y) (0 ∷ [])) (s' ∷ ys)
        → IsRing (lru_append memory 0 5) s' ys)
lru_append-IsRing_example =
    lru_append-IsRing memory 0 5 (ground arith) [] ((refl, refl), (tt, tt)) tt

lru_remove-IsRing_example :
    IsRing (lru_remove (lru_append memory 0 5) 5) 0 []
    × ((s' : ℕ) (zs : List ℕ)
        → IsRing (lru_append memory 0 5) s' zs
        → All (λ q. All (λ y. q ≢ y) (0 ∷ 5 ∷ [])) (s' ∷ zs)
        → IsRing (lru_remove (lru_append memory 0 5) 5) s' zs)
lru_remove-IsRing_example =
    lru_remove-IsRing (lru_append memory 0 5) 0 5 [] []
      (lru_append-IsRing memory 0 5 (ground arith) [] ((refl, refl), (tt, tt)) tt).0

-- A cache of one entry that no one uses.
abbrev idle_memory : ℕ → LruHandle
idle_memory = lru_append memory 0 5

abbrev idle_cache : LruCache
idle_cache = record {
  capacity = 10;
  usage = 1;
  handles = idle_memory;
  count = 6;
  table = (table_insert idle_memory (new_handle_table idle_memory) 5).1;
  deleted = [];
}

idle_cache-IsIdle : IsIdle idle_cache (5 ∷ [])
unfolding new_handle_table resize lru_append
idle_cache-IsIdle =
    let (table', _, lookups) =
      table_insert-table_lookup idle_memory (new_handle_table idle_memory) 5
        (new_handle_table-IsTable idle_memory) (omega arith) in
    record {
      ring = (lru_append-IsRing memory 0 5 (ground arith) [] ((refl, refl), (tt, tt)) tt).0;
      table_lem = table';
      found = (lookups (5 ∷ []) 5 ∙ rw (same_key_self (5 ∷ []) 5) refl, tt);
      idle = (refl, tt);
      few = omega arith;
    }

prune-calls_example :
    (c' : LruCache) × (prune idle_cache ≡ some c')
    × IsIdle c' []
    × (c'.deleted ≡ calls_onto idle_memory (5 ∷ []) [])
prune-calls_example = prune-calls idle_cache (5 ∷ []) idle_cache-IsIdle
