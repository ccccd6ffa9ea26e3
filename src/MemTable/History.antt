-- ===== src/MemTable/History.antt =====
-- The memtable after a sequence of `Add`s: its skip list, and what `Get` answers.
pub mod Gets
use mini_leveldb.Base.{
  ℕ, ◌+◌, ◌^◌, ◌%◌, ◌<◌, ◌≤◌, ◌≡◌, ◌≢◌, refl, ap, sym, ◌∙◌, inl, inr, arith, Bool, true, false,
  List, [], ◌∷◌, ◌++◌, map, Option, none, some,
}
use mini_leveldb.Base.{
  if◌then◌else◌, length, All, All-both, All-map, Bool-cases, Option-cases, of_some, append-nil,
  length-append, ◌==◌,
}
use mathlib.Core.Option
use mathlib.Core.Path.{subst}
use mini_leveldb.Slice.{Slice, equal, slice_eq}
use mini_leveldb.Coding.{encode_varint32, encode_fixed64, put_fixed64}
use mini_leveldb.Status.{Status, make_not_found}
use mini_leveldb.Comparator.{Comparator, IsThreeWay}
use mini_leveldb.DbFormat.{
  ParsedInternalKey, append_internal_key, new_lookup_key, memtable_key, user_key,
  max_sequence_number, value_type_for_seek, type_value, is_less, pack_sequence_and_type,
}
use mini_leveldb.DbFormat.Keys.{length-encode_fixed64}
use mini_leveldb.DbFormat.KeyOrder.{key_order, key_order-IsKeyOrder, internal_compare-key_order}
use mini_leveldb.MemTable.{
  MemTable, new_mem_table, add, mem_get, entry, entry_at, compare_entries, length_prefixed_slice,
  get, get_found,
}
use mini_leveldb.MemTable.Entries.{length_prefixed_slice-encode_varint32}
use mini_leveldb.MemTable.Lookup.{answer_for, get-entry, entry-key, compare_entries-key_order}
use mini_leveldb.MemTable.EntryOrder.{compare_entries-IsOrder}
use mini_leveldb.MemTable.Newest.{
  Write, IsWrite, visible, find_visible, write_order, lookup_parsed, first_from, only,
  write_order-IsOrder, is_equal-slice_eq, only-first_from, find_visible-sorted_insert,
}
use mini_leveldb.SkipList.Find.{below}
use mini_leveldb.SkipList.Spec.{
  sorted_insert, sorted_insert-All, SortedKeys, sorted_insert-SortedKeys, Holds,
  new_skip_list-Holds, insert-Holds,
}
use mini_leveldb.SkipList.Cursor.{At-iterator_key, first_of}
use mini_leveldb.SkipList.Cursor.Places.{seek_key, iterator_seek-Places}

abbrev pub entry_of : Write → Slice
entry_of w = entry w.key.sequence w.key.type w.key.user_key w.value

-- The writes, the newest one first, in sequence.
abbrev pub IsLog : List Write → Type 0
IsLog [] = Unit {0}
IsLog (w ∷ older) = IsWrite w × All (λ v. v.key.sequence < w.key.sequence) older × IsLog older

map-All {κ} :
    (P : Slice → Type κ) (ws : List Write) → All (λ w. P (entry_of w)) ws → All P (map entry_of ws)
map-All P [] h = tt
map-All P (w ∷ ws) (h, hs) = (h, map-All P ws hs)

pub log-All : (log : List Write) → IsLog log → All IsWrite log
log-All [] h = tt
log-All (w ∷ older) (h, _, hs) = (h, log-All older hs)

module _ (c : Comparator) where
  -- The writes in the order of the table.
  abbrev pub arranged : List Write → List Write
  arranged [] = []
  arranged (w ∷ older) = sorted_insert (write_order c) w (arranged older)

  -- The calls of `Add`, the newest one first, on a new memtable.
  abbrev pub add_all : List Write → Option MemTable
  add_all [] = some new_mem_table
  add_all (w ∷ older) =
      Option.bind (add_all older)
        (λ mem. add c mem w.key.sequence w.key.type w.key.user_key w.value)

  arranged-All {κ} : (P : Write → Type κ) (log : List Write) → All P log → All P (arranged log)
  arranged-All P [] h = tt
  arranged-All P (w ∷ older) (h, hs) =
      sorted_insert-All (write_order c) P w (arranged older) h (arranged-All P older hs)

module _ (c : Comparator) (laws : IsThreeWay c) where
  -- An older write has another key.
  not_equal : (v w : Write) → v.key.sequence < w.key.sequence → write_order c v w ≢ equal
  not_equal v w lt e =
      let o = key_order-IsKeyOrder c laws in
      omega (arith, lt, ap (λ (k : ParsedInternalKey). k.sequence) (o.eq_of_equal v.key w.key e))

  arranged-SortedKeys : (log : List Write) → IsLog log → SortedKeys (write_order c) (arranged c log)
  arranged-SortedKeys [] h = tt
  arranged-SortedKeys (w ∷ older) (_, newer, hs) =
      sorted_insert-SortedKeys (write_order c) (write_order-IsOrder c laws) w (arranged c older)
        (All-map (λ v. v.key.sequence < w.key.sequence) (λ v. write_order c v w ≢ equal)
          (λ v lt. not_equal v w lt) (arranged c older)
          (arranged-All c (λ v. v.key.sequence < w.key.sequence) older newer))
        (arranged-SortedKeys older hs)

  map-sorted_insert :
      (w : Write) (ws : List Write)
      → IsWrite w
      → All IsWrite ws
      → sorted_insert (compare_entries c) (entry_of w) (map entry_of ws)
        ≡ map entry_of (sorted_insert (write_order c) w ws)
  map-sorted_insert w [] h all = refl
  map-sorted_insert w (y ∷ ys) h (hy, all) =
      let same =
        compare_entries-key_order c y.key w.key y.value w.value hy.packable h.packable hy.short_key
          h.short_key in
      elim (Bool-cases (below (write_order c) w y)) [
        | inl e ↦ rw (same, e) (ap (λ t. entry_of y ∷ t) (map-sorted_insert w ys h all))
        | inr e ↦ rw (same, e) refl
      ]

  -- Every `Add` ends, and the table holds the entries of the log.
  pub add_all-Holds :
      (log : List Write)
      → IsLog log
      → (mem : MemTable) × (add_all c log ≡ some mem)
        × Holds (compare_entries c) mem.table (map entry_of (arranged c log))
  unfolding add new_mem_table Option.bind
  add_all-Holds [] h = (new_mem_table, refl, new_skip_list-Holds (compare_entries c) [])
  add_all-Holds (w ∷ older) (h, newer, hs) =
      let (mem, done, holds) = add_all-Holds older hs in
      let writes = arranged-All c IsWrite older (log-All older hs) in
      let apart =
        All-both IsWrite (λ v. v.key.sequence < w.key.sequence)
          (λ v. compare_entries c (entry_of v) (entry_of w) ≢ equal)
          (λ v hv lt e. not_equal v w lt (
            sym (
              compare_entries-key_order c v.key w.key v.value w.value hv.packable h.packable
                hv.short_key h.short_key)
            ∙ e))
          (arranged c older) writes
          (arranged-All c (λ v. v.key.sequence < w.key.sequence) older newer) in
      let (table, inserted, holds') =
        insert-Holds (compare_entries c) (compare_entries-IsOrder c laws) mem.table
          (map entry_of (arranged c older)) (entry_of w) holds
          (map-All (λ k. compare_entries c k (entry_of w) ≢ equal) (arranged c older) apart) in
      (
        record mem { table = table },
        ap (λ o. Option.bind o (λ mem. add c mem w.key.sequence w.key.type w.key.user_key w.value))
              done
            ∙ ap (λ o. Option.map (λ table. record mem { table = table }) o) inserted,
        subst (λ t. Holds (compare_entries c) table t)
            (map-sorted_insert w (arranged c older) h writes) holds',
      )
