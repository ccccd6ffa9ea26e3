-- ===== src/Examples/StoreRuns.antt =====
-- The theorems on the memtable, the arena, random numbers and texts at concrete inputs.
use mini_leveldb.Base.{
  ℕ, ◌+◌, ◌*◌, ◌%◌, ◌^◌, ◌≤◌, ◌≡◌, refl, List, [], ◌∷◌, ◌++◌, inl, inr, arith, true, false, not,
  Option, some, length, ltb, ◌==◌, if◌then◌else◌, All,
}
use mini_leveldb.Slice.{Slice}
use mini_leveldb.Status.{ok_status}
use mini_leveldb.Iterator.{CleanupNode, new_iterator, destroy}
use mini_leveldb.Iterator.Cleanup.{register_all, latest_first, destroy-register_all}
use mini_leveldb.Random.{next, factor, modulus}
use mini_leveldb.Random.Range.{IsSeed, next-product}
use mini_leveldb.Logging.{append_number_to, consume_decimal_number}
use mini_leveldb.Logging.Decimal.{
  number_of, consume_decimal_number-number_of, consume-append_number_to,
}
use mini_leveldb.Arena.{Region, new_arena, allocate, allocate_aligned}
use mini_leveldb.Arena.Regions.{
  Apart, IsAllocator, IsArena, new_arena-IsArena, allocate-IsArena, allocate_aligned-IsArena,
}
use mini_leveldb.DbFormat.{new_lookup_key}
use mini_leveldb.MemTable.{entry, get}
use mini_leveldb.MemTable.Lookup.{answer_for, get-entry}
use mini_leveldb.Examples.KeyRuns.{lexicographic, older, older-IsPackable}

next-product_example : (next 301 ≡ 301 * factor % modulus) × IsSeed (next 301)
next-product_example = next-product 301 (omega arith, omega arith)

abbrev forty_two : Slice
forty_two = 52 ∷ 50 ∷ []

-- "42" and a space.
consume_decimal_number-number_of_example : consume_decimal_number (forty_two ++ (32 ∷ [])) 0 ≡ (
    if ltb (number_of forty_two 0) (2 ^ 64)
    then (not (length forty_two == 0), 32 ∷ [], number_of forty_two 0)
    else (false, forty_two ++ (32 ∷ []), 0))
consume_decimal_number-number_of_example =
    consume_decimal_number-number_of forty_two (32 ∷ []) 0 (omega arith) (inl (omega arith))

consume-append_number_to_example :
    consume_decimal_number (append_number_to [] 420 ++ (32 ∷ [])) 7 ≡ (true, 32 ∷ [], 420)
consume-append_number_to_example =
    consume-append_number_to 420 7 (32 ∷ []) (omega arith) (inl (omega arith))

-- New blocks behind all others.
unfoldable ends : List Region → ℕ
ends [] = 1
ends (b ∷ blocks) = b.0 + b.1 + ends blocks

abbrev behind_all : List Region → ℕ → ℕ
behind_all blocks bytes = ends blocks * 8

ends-Apart : (p n : ℕ) (blocks : List Region) → ends blocks ≤ p → All (Apart (p, n)) blocks
unfolding ends
ends-Apart p n [] h = tt
ends-Apart p n (b ∷ blocks) h = (inr (inr (omega arith)), ends-Apart p n blocks (omega arith))

behind_all-IsAllocator : IsAllocator behind_all
behind_all-IsAllocator = record {
  fresh = λ blocks bytes. ends-Apart (ends blocks * 8) bytes blocks (omega arith);
  aligned = λ blocks bytes. omega arith;
}

allocate-IsArena_example :
    IsArena
      (((allocate behind_all 100 new_arena).0, 100) ∷ [])
      (allocate behind_all 100 new_arena).1
allocate-IsArena_example =
    allocate-IsArena behind_all behind_all-IsAllocator 100 [] new_arena new_arena-IsArena
      (omega arith)

allocate_aligned-IsArena_example :
    IsArena
      (((allocate_aligned behind_all 13 new_arena).0, 13) ∷ [])
      (allocate_aligned behind_all 13 new_arena).1
    × ((allocate_aligned behind_all 13 new_arena).0 % 8 ≡ 0)
allocate_aligned-IsArena_example =
    allocate_aligned-IsArena behind_all behind_all-IsAllocator 13 [] new_arena new_arena-IsArena
      (omega arith) (omega arith)

-- A table of one entry.
abbrev one_entry : Slice → Option Slice
one_entry _ = some (entry 5 1 (107 ∷ 49 ∷ []) (118 ∷ []))

get-entry_example :
    get lexicographic one_entry (new_lookup_key (107 ∷ 49 ∷ []) 8) [] ok_status
    ≡ answer_for lexicographic older (118 ∷ []) (107 ∷ 49 ∷ []) [] ok_status
get-entry_example =
    get-entry lexicographic one_entry older (118 ∷ []) (107 ∷ 49 ∷ []) [] 8 ok_status
      older-IsPackable (omega arith) (omega arith) (omega arith) refl

abbrev call : ℕ → CleanupNode
call n = record { function = n; arg1 = 1; arg2 = 2 }

destroy-register_all_example :
    destroy (register_all (call 8 ∷ call 16 ∷ call 24 ∷ []) new_iterator)
    ≡ call 8 ∷ latest_first (call 16 ∷ call 24 ∷ [])
destroy-register_all_example = destroy-register_all (call 8) (call 16 ∷ call 24 ∷ []) (omega arith)
