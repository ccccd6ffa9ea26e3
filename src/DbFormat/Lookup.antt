-- ===== src/DbFormat/Lookup.antt =====
-- Lookup keys, and the filter policy on internal keys.
use mini_leveldb.Base.{
  ℕ, ◌∷◌, ◌+◌, ◌-◌, ◌%◌, ◌^◌, ◌≤◌, ◌<◌, ◌≡◌, refl, ap, sym, arith, [], ◌++◌, some, length,
}
use mini_leveldb.Base.{length-append, drop_prefix, take_prefix, append-nil}
use mathlib.Core.List.{List, Memᴰ, map}
use mini_leveldb.Slice.{Slice}
use mini_leveldb.Coding.{
  encode_varint32, encode_fixed64, put_length_prefixed_slice, get_length_prefixed_slice,
  put_varint32, put_fixed64,
}
use mini_leveldb.Coding.Varint.{varint32_agrees}
use mini_leveldb.Coding.VarintRoundTrip.{get-put_length_prefixed_slice}
use mini_leveldb.FilterPolicy.{FilterPolicy, NeverMisses}
use mini_leveldb.DbFormat.{
  append_internal_key, extract_user_key, internal_filter_policy, value_type_for_seek,
  pack_sequence_and_type,
}
use mini_leveldb.DbFormat.{new_lookup_key, memtable_key, internal_key, user_key}
use mini_leveldb.DbFormat.Keys.{length-encode_fixed64}

prefixed :
    (u : Slice) (s : ℕ)
    → length u + 8 < 2 ^ 32
    → get_length_prefixed_slice (
        encode_varint32 ((length u + 8) % 2 ^ 32)
        ++ (u ++ encode_fixed64 (pack_sequence_and_type s value_type_for_seek)))
      ≡ (some (u ++ encode_fixed64 (pack_sequence_and_type s value_type_for_seek)), [])
prefixed u s h =
    let tag = encode_fixed64 (pack_sequence_and_type s value_type_for_seek) in
    let size : length (u ++ tag) ≡ length u + 8 = omega (
      arith,
      length-append u tag,
      length-encode_fixed64 (pack_sequence_and_type s value_type_for_seek),
    ) in
    let g = get-put_length_prefixed_slice (u ++ tag) [] (omega (arith, size)) in
    unfold put_length_prefixed_slice put_varint32 in
    rw (sym size, sym (append-nil (encode_varint32 (length (u ++ tag) % 2 ^ 32) ++ (u ++ tag)))) g

-- A lookup key for a user key that leaves room for a 32-bit length: its internal key is the encoding
-- of the user key, the sequence number and the type for seeks, its user key is the one given, its
-- memtable key is the internal key under its length, and its array has as many bytes as the
-- constructor provides at most.
pub new_lookup_key-parts :
    (u : Slice) (s : ℕ)
    → length u + 8 < 2 ^ 32
    → (internal_key (new_lookup_key u s)
        ≡ append_internal_key []
            (record { user_key = u; sequence = s; type = value_type_for_seek }))
      × (user_key (new_lookup_key u s) ≡ u)
      × (get_length_prefixed_slice (memtable_key (new_lookup_key u s))
          ≡ (some (internal_key (new_lookup_key u s)), []))
      × (length (memtable_key (new_lookup_key u s)) ≤ length u + 13)
unfolding new_lookup_key internal_key user_key memtable_key append_internal_key put_fixed64
new_lookup_key-parts u s h =
    let tag = encode_fixed64 (pack_sequence_and_type s value_type_for_seek) in
    let tag_size : length tag ≡ 8 = length-encode_fixed64 _ in
    let size : length (u ++ tag) ≡ length u + 8 = omega (arith, length-append u tag, tag_size) in
    let klength = encode_varint32 ((length u + 8) % 2 ^ 32) in
    let (_, short, bound) = varint32_agrees ((length u + 8) % 2 ^ 32) (omega arith) in
    let all = length-append klength (u ++ tag) in
    let back = drop_prefix (length klength) klength (u ++ tag) refl in
    (
      back,
      rw back (
          take_prefix (length (klength ++ (u ++ tag)) - length klength - 8) u tag
            (omega (arith, all, size))),
      rw back (prefixed u s h),
      omega (arith, all, size, short, bound),
    )

length-map : (f : Slice → Slice) (xs : List Slice) → length (map f xs) ≡ length xs
length-map f [] = refl
length-map f (x ∷ xs) = omega (arith, length-map f xs)

mem-map : (f : Slice → Slice) {x : Slice} {xs : List Slice} → Memᴰ x xs → Memᴰ (f x) (map f xs)
mem-map f (Memᴰ.head e) = Memᴰ.head (ap f e)
mem-map f (Memᴰ.tail m) = Memᴰ.tail (mem-map f m)

-- A filter policy on internal keys misses none of its keys if the user's policy misses none of its.
pub internal_filter_policy-NeverMisses :
    (policy : FilterPolicy) → NeverMisses policy → NeverMisses (internal_filter_policy policy)
unfolding internal_filter_policy
internal_filter_policy-NeverMisses policy h keys dst key few m =
    h (map extract_user_key keys) dst (extract_user_key key)
      (omega (arith, length-map extract_user_key keys)) (mem-map extract_user_key m)
