-- ===== src/DbFormat.antt =====
-- db/dbformat.h and db/dbformat.cc: internal keys, their order, and lookup keys.
pub mod Keys
pub mod KeyOrder
pub mod Shortening
pub mod Lookup
use mini_leveldb.Base.{
  ℕ, ◌+◌, ◌-◌, ◌*◌, ◌/◌, ◌%◌, ◌^◌, Bool, true, false, ◌&&◌, [], ◌++◌, map, bit_or, bit_and,
}
use mini_leveldb.Base.{ltb, leb, if◌then◌else◌, length, take, drop}
use mini_leveldb.Slice.{Slice, Sign, less, equal, greater, is_equal}
use mini_leveldb.Coding.{put_fixed64, encode_fixed64, decode_fixed64, encode_varint32}
use mini_leveldb.Comparator.{Comparator}
use mini_leveldb.FilterPolicy.{FilterPolicy}

-- `enum ValueType`: any byte can be cast to it, so it is a number; two of them have names.
abbrev pub type_deletion : ℕ
type_deletion = 0

abbrev pub type_value : ℕ
type_value = 1

abbrev pub value_type_for_seek : ℕ
value_type_for_seek = type_value

abbrev pub max_sequence_number : ℕ
max_sequence_number = 2 ^ 56 - 1

pub record ParsedInternalKey : Type 0 where
  pub user_key : Slice
  pub sequence : ℕ
  pub type : ℕ

unfoldable pub internal_key_encoding_length : ParsedInternalKey → ℕ
internal_key_encoding_length key = length key.user_key + 8

unfoldable pub pack_sequence_and_type : ℕ → ℕ → ℕ
pack_sequence_and_type seq t = bit_or (seq * 2 ^ 8 % 2 ^ 64) t

unfoldable pub append_internal_key : Slice → ParsedInternalKey → Slice
unfolding put_fixed64
append_internal_key result key =
    put_fixed64 (result ++ key.user_key) (pack_sequence_and_type key.sequence key.type)

-- The answer, and what is left in `*result`.
unfoldable pub parse_internal_key : Slice → ParsedInternalKey → Bool × ParsedInternalKey
parse_internal_key internal_key result =
    let n = length internal_key in
    let num = decode_fixed64 (drop (n - 8) internal_key) in
    let c = bit_and num 0xff in
    if ltb n 8 then (false, result) else (
      leb c type_value,
      record { user_key = take (n - 8) internal_key; sequence = num / 2 ^ 8; type = c },
    )

-- On the internal keys, which hold eight bytes at least.
unfoldable pub extract_user_key : Slice → Slice
extract_user_key internal_key = take (length internal_key - 8) internal_key

abbrev pub is_less : Sign → Bool
is_less less = true
is_less _ = false

module _ (user_comparator : Comparator) where
  unfoldable pub internal_compare : Slice → Slice → Sign
  unfolding extract_user_key
  internal_compare akey bkey =
      let r = user_comparator.compare (extract_user_key akey) (extract_user_key bkey) in
      let anum = decode_fixed64 (drop (length akey - 8) akey) in
      let bnum = decode_fixed64 (drop (length bkey - 8) bkey) in
      if is_equal r
      then (if ltb bnum anum then less else if ltb anum bnum then greater else r)
      else r

  -- Both `Find` methods of `InternalKeyComparator` test and replace a key alike, with the string that
  -- the user's comparator left in `tmp`.
  unfoldable pub replace_if_shorter : Slice → Slice → Slice
  unfolding extract_user_key pack_sequence_and_type put_fixed64
  replace_if_shorter key tmp =
      let user_key = extract_user_key key in
      if ltb (length tmp) (length user_key) && is_less (user_comparator.compare user_key tmp)
      then put_fixed64 tmp (pack_sequence_and_type max_sequence_number value_type_for_seek)
      else key

  unfoldable pub internal_shortest_separator : Slice → Slice → Slice
  internal_shortest_separator start limit =
      replace_if_shorter start
        (user_comparator.find_shortest_separator (extract_user_key start) (extract_user_key limit))

  unfoldable pub internal_short_successor : Slice → Slice
  internal_short_successor key =
      replace_if_shorter key (user_comparator.find_short_successor (extract_user_key key))

  unfoldable pub internal_key_comparator : Comparator
  internal_key_comparator = record {
    compare = internal_compare;
    find_shortest_separator = internal_shortest_separator;
    find_short_successor = internal_short_successor;
  }

-- `InternalFilterPolicy`.
unfoldable pub internal_filter_policy : FilterPolicy → FilterPolicy
unfolding extract_user_key
internal_filter_policy user_policy = record {
  create_filter = λ keys dst. user_policy.create_filter (map extract_user_key keys) dst;
  key_may_match = λ key f. user_policy.key_may_match (extract_user_key key) f;
}

-- A lookup key: its array from `start_` to `end_`, and where `kstart_` stands in it.
pub record LookupKey : Type 0 where
  pub bytes : Slice
  pub kstart : ℕ

unfoldable pub new_lookup_key : Slice → ℕ → LookupKey
unfolding pack_sequence_and_type
new_lookup_key user_key s =
    let usize = length user_key in
    let klength = encode_varint32 ((usize + 8) % 2 ^ 32) in
    record {
      bytes =
          klength ++ (user_key ++ encode_fixed64 (pack_sequence_and_type s value_type_for_seek));
      kstart = length klength;
    }

unfoldable pub memtable_key : LookupKey → Slice
memtable_key key = key.bytes

unfoldable pub internal_key : LookupKey → Slice
internal_key key = drop key.kstart key.bytes

unfoldable pub user_key : LookupKey → Slice
user_key key = take (length key.bytes - key.kstart - 8) (drop key.kstart key.bytes)
