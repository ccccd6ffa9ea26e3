-- ===== src/MemTable/History/Gets.antt =====
-- What `Get` answers in a memtable after a sequence of `Add`s.
use mini_leveldb.Base.{
  ℕ, ◌+◌, ◌^◌, ◌%◌, ◌<◌, ◌≤◌, ◌≡◌, refl, ap, sym, ◌∙◌, inl, inr, arith, Bool, true, false, List, [],
  ◌∷◌, ◌++◌, map, Option, none, some,
}
use mini_leveldb.Base.{
  if◌then◌else◌, length, All, Bool-cases, Option-cases, of_some, append-nil, length-append, ◌==◌,
}
use mathlib.Core.Option
use mathlib.Core.Path.{subst}
use mini_leveldb.Slice.{Slice, slice_eq}
use mini_leveldb.Coding.{encode_varint32, encode_fixed64, put_fixed64}
use mini_leveldb.Status.{Status, make_not_found}
use mini_leveldb.Comparator.{Comparator, IsThreeWay}
use mini_leveldb.DbFormat.{
  append_internal_key, new_lookup_key, memtable_key, user_key, max_sequence_number,
  value_type_for_seek, type_value, is_less, pack_sequence_and_type,
}
use mini_leveldb.DbFormat.Keys.{length-encode_fixed64}
use mini_leveldb.DbFormat.KeyOrder.{key_order, internal_compare-key_order}
use mini_leveldb.MemTable.{
  MemTable, mem_get, entry_at, compare_entries, length_prefixed_slice, get, get_found,
}
use mini_leveldb.MemTable.Entries.{length_prefixed_slice-encode_varint32}
use mini_leveldb.MemTable.Lookup.{answer_for, get-entry, entry-key}
use mini_leveldb.MemTable.EntryOrder.{compare_entries-IsOrder}
use mini_leveldb.MemTable.Newest.{
  Write, IsWrite, visible, find_visible, lookup_parsed, first_from, only, is_equal-slice_eq,
  only-first_from, find_visible-sorted_insert,
}
use mini_leveldb.SkipList.Spec.{}
use mini_leveldb.SkipList.Cursor.{At-iterator_key, first_of}
use mini_leveldb.SkipList.Cursor.Places.{seek_key, iterator_seek-Places}
use mini_leveldb.MemTable.History.{
  entry_of, IsLog, arranged, add_all, arranged-All, log-All, arranged-SortedKeys, add_all-Holds,
}

-- What is read of a lookup key's bytes in the table is its internal key.
lookup-key :
    (u : Slice) (snapshot : ℕ)
    → length u + 8 < 2 ^ 32
    → length_prefixed_slice (memtable_key (new_lookup_key u snapshot))
      ≡ append_internal_key []
          (record { user_key = u; sequence = snapshot; type = value_type_for_seek })
unfolding new_lookup_key memtable_key append_internal_key put_fixed64
lookup-key u snapshot h =
    let tag = encode_fixed64 (pack_sequence_and_type snapshot value_type_for_seek) in
    let size : length (u ++ tag) ≡ length u + 8 = omega (
      arith,
      length-append u tag,
      length-encode_fixed64 (pack_sequence_and_type snapshot value_type_for_seek),
    ) in
    ap (λ (t : Slice). length_prefixed_slice (encode_varint32 ((length u + 8) % 2 ^ 32) ++ t))
      (sym (append-nil (u ++ tag)))
    ∙ ap (λ n. length_prefixed_slice (encode_varint32 (n % 2 ^ 32) ++ ((u ++ tag) ++ [])))
        (sym size)
    ∙ length_prefixed_slice-encode_varint32 (u ++ tag) [] (omega (arith, size))

-- An entry and a lookup compare as the write's key and the lookup's.
compare_entries-lookup :
    (c : Comparator) (w : Write) (u : Slice) (snapshot : ℕ)
    → IsWrite w
    → length u + 8 < 2 ^ 32
    → snapshot ≤ max_sequence_number
    → compare_entries c (entry_of w) (memtable_key (new_lookup_key u snapshot))
      ≡ key_order c w.key (lookup_parsed c u snapshot)
unfolding compare_entries
compare_entries-lookup c w u snapshot h hu hs =
    rw (entry-key w.key w.value h.short_key, lookup-key u snapshot hu)
      (internal_compare-key_order c w.key (lookup_parsed c u snapshot) h.packable
        (record { sequence_fits = hs; type_fits = omega arith }))

-- What a lookup answers at the newest write that it may see: the value, a deletion, or nothing.
abbrev pub answer : Slice → Status → Option Write → Bool × Slice × Status
answer value s none = (false, value, s)
answer value s (some w) =
    if w.key.type == type_value then (true, w.value, s) else (true, value, make_not_found [] [])

module _ (c : Comparator) (laws : IsThreeWay c) where
  -- The seek of a lookup among the entries is the search for the first write.
  seek_key-first_from :
      (u : Slice) (snapshot : ℕ) (front : List Slice) (ws : List Write)
      → length u + 8 < 2 ^ 32
      → snapshot ≤ max_sequence_number
      → All IsWrite ws
      → first_of
          (seek_key
            (compare_entries c)
            (memtable_key (new_lookup_key u snapshot))
            front
            (map entry_of ws)).1
        ≡ Option.map entry_of (first_from c u snapshot ws)
  seek_key-first_from u snapshot front [] hu hs all = refl
  seek_key-first_from u snapshot front (y ∷ ys) hu hs (h, all) =
      let same = compare_entries-lookup c y u snapshot h hu hs in
      let on = seek_key-first_from u snapshot (entry_of y ∷ front) ys hu hs all in
      elim (Bool-cases (is_less (key_order c y.key (lookup_parsed c u snapshot)))) [
        | inl e ↦ rw (same, e) on
        | inr e ↦ rw (same, e) refl
      ]

  first_from-IsWrite :
      (u : Slice) (snapshot : ℕ) (ws : List Write) (w : Write)
      → All IsWrite ws
      → first_from c u snapshot ws ≡ some w
      → IsWrite w
  first_from-IsWrite u snapshot [] w all e = cc
  first_from-IsWrite u snapshot (y ∷ ys) w (h, all) e =
      elim (Bool-cases (is_less (key_order c y.key (lookup_parsed c u snapshot)))) [
        | inl b ↦ first_from-IsWrite u snapshot ys w all (rw b at e)
        | inr b ↦ subst IsWrite (of_some y w (rw b at e)) h
      ]

  answer_for-answer :
      (w : Write) (u value : Slice) (s : Status)
      → answer_for c w.key w.value u value s ≡ answer value s (only c u (some w))
  answer_for-answer w u value s =
      let same = is_equal-slice_eq c laws w.key.user_key u in
      elim (Bool-cases (slice_eq w.key.user_key u)) [
        | inl e ↦ rw (same, e) refl
        | inr e ↦ rw (same, e) refl
      ]

  get-answer :
      (seek : Slice → Option Slice) (u value : Slice) (snapshot : ℕ) (s : Status) (ws : List Write)
      → length u + 8 < 2 ^ 32
      → All IsWrite ws
      → seek (memtable_key (new_lookup_key u snapshot))
        ≡ Option.map entry_of (first_from c u snapshot ws)
      → get c seek (new_lookup_key u snapshot) value s
        ≡ answer value s (only c u (first_from c u snapshot ws))
  unfolding get get_found
  get-answer seek u value snapshot s ws hu all h =
      elim (Option-cases (first_from c u snapshot ws)) [
        | inl e ↦
            ap (get_found c (user_key (new_lookup_key u snapshot)) value s)
              (h ∙ ap (λ o. Option.map entry_of o) e)
            ∙ ap (λ o. answer value s (only c u o)) (sym e)
        | inr (w, e) ↦
            let k = first_from-IsWrite u snapshot ws w all e in
            get-entry c seek w.key w.value u value snapshot s k.packable k.short_key k.short_value
              hu (h ∙ ap (λ o. Option.map entry_of o) e)
            ∙ answer_for-answer w u value s
            ∙ ap (λ o. answer value s (only c u o)) (sym e)
      ]

  arranged-find_visible :
      (u : Slice) (snapshot : ℕ) (log : List Write)
      → IsLog log
      → find_visible u snapshot (arranged c log) ≡ find_visible u snapshot log
  arranged-find_visible u snapshot [] h = refl
  arranged-find_visible u snapshot (w ∷ older) (_, newer, hs) =
      find_visible-sorted_insert c laws u snapshot w (arranged c older)
        (arranged-All c (λ v. v.key.sequence < w.key.sequence) older newer)
      ∙ ap (λ o. if visible u snapshot w then some w else o)
          (arranged-find_visible u snapshot older hs)

  -- After calls of `Add` with increasing sequence numbers on a new memtable, all of which end, `Get` ends
  -- for each user key and snapshot, and answers from the newest write of that key that is not newer than
  -- the snapshot: true with its value, true with NotFound where it is a deletion, and false where there
  -- is no such write. The comparator of user keys is three-way: it answers zero exactly on equal keys, as
  -- include/comparator.h documents and as the bytewise comparator of the program does not. The lengths
  -- of keys and values fit 32 bits; sequence numbers and the snapshot have at most 56.
  pub mem_get-add_all :
      (log : List Write)
      → IsLog log
      → (mem : MemTable) × (add_all c log ≡ some mem)
        × ((u : Slice) (snapshot : ℕ) (value : Slice) (s : Status)
            → length u + 8 < 2 ^ 32
            → snapshot ≤ max_sequence_number
            → mem_get c mem (new_lookup_key u snapshot) value s
              ≡ some (answer value s (find_visible u snapshot log)))
  unfolding mem_get entry_at
  mem_get-add_all log h =
      let (mem, done, holds) = add_all-Holds c laws log h in
      let ws = arranged c log in
      let writes = arranged-All c IsWrite log (log-All log h) in
      (
        mem,
        done,
        λ u snapshot value s hu hs.
            let cmp = compare_entries c in
            let target = memtable_key (new_lookup_key u snapshot) in
            let ((pos, found, at), _, _) =
              iterator_seek-Places cmp (compare_entries-IsOrder c laws) mem.table (map entry_of ws)
                target holds in
            let here : entry_at mem.table pos ≡ Option.map entry_of (first_from c u snapshot ws) =
              At-iterator_key cmp mem.table _ _ pos at
              ∙ seek_key-first_from u snapshot [] ws hu hs writes in
            ap
              (λ o.
                Option.map
                  (λ pos.
                    get c (λ target. entry_at mem.table pos) (new_lookup_key u snapshot) value s)
                  o)
              found
            ∙ ap (λ t. some t)
                (get-answer (λ target. entry_at mem.table pos) u value snapshot s ws hu writes here
                  ∙ ap (answer value s) (
                      only-first_from c laws u snapshot ws (arranged-SortedKeys c laws log h) writes
                      ∙ arranged-find_visible u snapshot log h)),
      )
