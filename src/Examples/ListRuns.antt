-- ===== src/Examples/ListRuns.antt =====
-- The theorems on the skip list and on the memtable over it, at concrete inputs.
use mini_leveldb.Base.{
  ℕ, ◌+◌, ◌^◌, ◌<◌, ◌≤◌, ◌≡◌, refl, arith, List, [], ◌∷◌, Option, some, ltb, if◌then◌else◌, length,
}
use mini_leveldb.Slice.{Slice, Sign, less, equal, greater}
use mini_leveldb.Status.{Status}
use mini_leveldb.DbFormat.{new_lookup_key, max_sequence_number}
use mini_leveldb.MemTable.{MemTable, mem_get}
use mini_leveldb.MemTable.Newest.{Write, find_visible}
use mini_leveldb.MemTable.History.{IsLog, add_all}
use mini_leveldb.MemTable.History.Gets.{answer, mem_get-add_all}
use mini_leveldb.SkipList.{
  SkipList, max_levels, new_skip_list, random_height, insert_behind, insert, contains,
  iterator_seek, iterator_seek_to_first, iterator_seek_to_last, iterator_next, iterator_prev,
}
use mini_leveldb.SkipList.Chain.{IsOrder, before, after, last_at}
use mini_leveldb.SkipList.Insert.{random_height_range, insert_behind-IsList}
use mini_leveldb.SkipList.Spec.{
  Holds, sorted_insert, member, new_skip_list-IsList, insert-Holds, contains-member,
}
use mini_leveldb.SkipList.Cursor.{At, step_back, rev_onto, iterator_moves-At}
use mini_leveldb.SkipList.Cursor.Places.{seek_key, last_of, iterator_seek-Places}
use mini_leveldb.Examples.KeyRuns.{
  lexicographic, lexicographic-IsThreeWay, older, newer, older-IsPackable, newer-IsPackable,
}

abbrev by_number : ℕ → ℕ → Sign
by_number a b = if ltb a b then less else if ltb b a then greater else equal

by_number-IsOrder : IsOrder by_number
by_number-IsOrder = record {
  self = λ a. ground arith;
  flip = λ a b. ground arith;
  trans = λ a b c h k. ground arith;
}

random_height_range_example : (0 < (random_height 301).1) × ((random_height 301).1 ≤ max_levels)
random_height_range_example = random_height_range 301

-- A list of one key.
abbrev one : SkipList ℕ
one = insert_behind (new_skip_list 0) 5 (λ _. 0)

one-Holds : Holds by_number one (5 ∷ [])
unfolding new_skip_list before after last_at
one-Holds = (
  _,
  insert_behind-IsList by_number by_number-IsOrder (new_skip_list 0) [] 5 (λ _. 0)
      (new_skip_list-IsList by_number 0) tt (λ l lt. refl),
  refl,
)

one-At : At by_number one [] (5 ∷ []) (some 1)
unfolding new_skip_list before after last_at
one-At = (
  [],
  _,
  insert_behind-IsList by_number by_number-IsOrder (new_skip_list 0) [] 5 (λ _. 0)
      (new_skip_list-IsList by_number 0) tt (λ l lt. refl),
  refl,
  refl,
  refl,
)

insert-Holds_example :
    (list' : SkipList ℕ) × (insert by_number one 3 ≡ some list')
    × Holds by_number list' (sorted_insert by_number 3 (5 ∷ []))
insert-Holds_example =
    insert-Holds by_number by_number-IsOrder one (5 ∷ []) 3 one-Holds (ground arith)

contains-member_example : contains by_number one 5 ≡ some (member by_number 5 (5 ∷ []))
contains-member_example = contains-member by_number by_number-IsOrder one (5 ∷ []) 5 one-Holds

iterator_seek-Places_example :
    ((pos : Option ℕ) × (iterator_seek by_number one 4 ≡ some pos)
      × At by_number one
          (seek_key by_number 4 [] (5 ∷ [])).0
          (seek_key by_number 4 [] (5 ∷ [])).1
          pos)
    × At by_number one [] (5 ∷ []) (iterator_seek_to_first one)
    × ((pos : Option ℕ) × (iterator_seek_to_last one ≡ some pos)
        × At by_number one
            (last_of by_number (rev_onto (5 ∷ []) [])).0
            (last_of by_number (rev_onto (5 ∷ []) [])).1
            pos)
iterator_seek-Places_example =
    iterator_seek-Places by_number by_number-IsOrder one (5 ∷ []) 4 one-Holds

iterator_moves-At_example :
    At by_number one (5 ∷ []) [] (iterator_next one 1)
    × ((pos : Option ℕ) × (iterator_prev by_number one 1 ≡ some pos)
        × At by_number one
            (step_back by_number [] (5 ∷ [])).0
            (step_back by_number [] (5 ∷ [])).1
            pos)
iterator_moves-At_example = iterator_moves-At by_number by_number-IsOrder one [] [] 5 1 one-At

-- A value, and then the deletion of its key.
abbrev two_writes : List Write
two_writes = record { key = newer; value = [] } ∷ record { key = older; value = 118 ∷ [] } ∷ []

two_writes-IsLog : IsLog two_writes
two_writes-IsLog = (
  record { packable = newer-IsPackable; short_key = omega arith; short_value = omega arith },
  (omega arith, tt),
  (
    record { packable = older-IsPackable; short_key = omega arith; short_value = omega arith },
    tt,
    tt,
  ),
)

mem_get-add_all_example :
    (mem : MemTable) × (add_all lexicographic two_writes ≡ some mem)
    × ((u : Slice) (snapshot : ℕ) (value : Slice) (s : Status)
        → length u + 8 < 2 ^ 32
        → snapshot ≤ max_sequence_number
        → mem_get lexicographic mem (new_lookup_key u snapshot) value s
          ≡ some (answer value s (find_visible u snapshot two_writes)))
mem_get-add_all_example =
    mem_get-add_all lexicographic lexicographic-IsThreeWay two_writes two_writes-IsLog
