-- ===== src/Examples/KeyRuns.antt =====
-- The theorems on internal keys, lookup keys and filters at concrete inputs.
use mini_leveldb.Base.{◌≤◌, ◌≡◌, ◌≢◌, refl, [], ◌∷◌, arith, true, some, length}
use mini_leveldb.Slice.{Slice, less, greater}
use mini_leveldb.Slice.Order.{lex, lex_self, lex-equal→eq, lex_flip, lex_trans}
use mini_leveldb.Coding.{get_length_prefixed_slice, decode_fixed64}
use mini_leveldb.Comparator.{Comparator, IsThreeWay, find_shortest_separator, find_short_successor}
use mini_leveldb.Comparator.Separator.{find_shortest_separator-IsSeparator}
use mini_leveldb.FilterPolicy.{NeverMisses}
use mini_leveldb.Bloom.{bloom_filter_policy}
use mini_leveldb.Bloom.NoMiss.{bloom_filter_policy-NeverMisses}
use mini_leveldb.DbFormat.{
  ParsedInternalKey, append_internal_key, parse_internal_key, internal_compare, extract_user_key,
}
use mini_leveldb.DbFormat.{internal_shortest_separator, internal_short_successor}
use mini_leveldb.DbFormat.{
  new_lookup_key, internal_key, user_key, memtable_key, value_type_for_seek,
}
use mini_leveldb.DbFormat.Keys.{IsPackable, parse-append_internal_key, append-parse_internal_key}
use mini_leveldb.DbFormat.KeyOrder.{key_order, internal_compare-key_order}
use mini_leveldb.DbFormat.Shortening.{
  IsShortening, internal_short_successor_bounds, internal_shortest_separator_bounds,
}
use mini_leveldb.DbFormat.Lookup.{new_lookup_key-parts}

-- A comparator that answers zero on equal slices.
abbrev pub lexicographic : Comparator
lexicographic = record {
  compare = lex;
  find_shortest_separator = find_shortest_separator;
  find_short_successor = find_short_successor;
}

pub lexicographic-IsThreeWay : IsThreeWay lexicographic
lexicographic-IsThreeWay = record {
  self = lex_self;
  eq_of_equal = lex-equal→eq;
  flip = lex_flip;
  trans = lex_trans;
}

lexicographic-IsShortening : IsShortening lexicographic
lexicographic-IsShortening = record {
  below_limit = λ start limit h. (find_shortest_separator-IsSeparator start limit h).below_limit;
}

abbrev pub older : ParsedInternalKey
older = record { user_key = 107 ∷ 49 ∷ []; sequence = 5; type = 1 }

abbrev pub newer : ParsedInternalKey
newer = record { user_key = 107 ∷ 49 ∷ []; sequence = 9; type = 0 }

pub older-IsPackable : IsPackable older
older-IsPackable = record { sequence_fits = omega arith; type_fits = omega arith }

pub newer-IsPackable : IsPackable newer
newer-IsPackable = record { sequence_fits = omega arith; type_fits = omega arith }

-- "k1" at sequence number 5.
abbrev encoded : Slice
encoded = 107 ∷ 49 ∷ 1 ∷ 5 ∷ 0 ∷ 0 ∷ 0 ∷ 0 ∷ 0 ∷ 0 ∷ []

-- "m" at sequence number 5.
abbrev limit_key : Slice
limit_key = 109 ∷ 1 ∷ 5 ∷ 0 ∷ 0 ∷ 0 ∷ 0 ∷ 0 ∷ 0 ∷ []

parse-append_internal_key_example :
    parse_internal_key (append_internal_key [] older) newer ≡ (true, older)
parse-append_internal_key_example = parse-append_internal_key older newer older-IsPackable

append-parse_internal_key_example :
    (append_internal_key [] (parse_internal_key encoded newer).1 ≡ encoded)
    × IsPackable (parse_internal_key encoded newer).1
unfolding parse_internal_key decode_fixed64
append-parse_internal_key_example = append-parse_internal_key encoded newer (omega arith) refl

internal_compare-key_order_example :
    internal_compare lexicographic (append_internal_key [] newer) (append_internal_key [] older)
    ≡ key_order lexicographic newer older
internal_compare-key_order_example =
    internal_compare-key_order lexicographic newer older newer-IsPackable older-IsPackable

internal_short_successor_bounds_example :
    (internal_compare lexicographic encoded (internal_short_successor lexicographic encoded)
      ≢ greater)
    × (length (internal_short_successor lexicographic encoded) ≤ 10)
internal_short_successor_bounds_example =
    internal_short_successor_bounds lexicographic lexicographic-IsThreeWay encoded

internal_shortest_separator_bounds_example :
    (internal_compare lexicographic encoded
        (internal_shortest_separator lexicographic encoded limit_key)
      ≢ greater)
    × (internal_compare lexicographic
          (internal_shortest_separator lexicographic encoded limit_key)
          limit_key
        ≡ less)
    × (length (internal_shortest_separator lexicographic encoded limit_key) ≤ 10)
unfolding extract_user_key lex
internal_shortest_separator_bounds_example =
    internal_shortest_separator_bounds lexicographic lexicographic-IsThreeWay
      lexicographic-IsShortening encoded limit_key refl

new_lookup_key-parts_example :
    (internal_key (new_lookup_key (107 ∷ []) 7)
      ≡ append_internal_key []
          (record { user_key = 107 ∷ []; sequence = 7; type = value_type_for_seek }))
    × (user_key (new_lookup_key (107 ∷ []) 7) ≡ 107 ∷ [])
    × (get_length_prefixed_slice (memtable_key (new_lookup_key (107 ∷ []) 7))
        ≡ (some (internal_key (new_lookup_key (107 ∷ []) 7)), []))
    × (length (memtable_key (new_lookup_key (107 ∷ []) 7)) ≤ 14)
new_lookup_key-parts_example = new_lookup_key-parts (107 ∷ []) 7 (omega arith)

bloom_filter_policy-NeverMisses_example : NeverMisses (bloom_filter_policy 10)
bloom_filter_policy-NeverMisses_example = bloom_filter_policy-NeverMisses 10 (omega arith)
