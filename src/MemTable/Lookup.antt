-- ===== src/MemTable/Lookup.antt =====
-- The order of the entries, and `Get` at an entry that `Add` wrote.
use mini_leveldb.Base.{
  ℕ, ◌+◌, ◌-◌, ◌*◌, ◌%◌, ◌^◌, ◌<◌, ◌≡◌, refl, ap, sym, ◌∙◌, arith, Bool, true, false, [], ◌++◌,
  Option, some,
}
use mini_leveldb.Base.{
  bit_and, ◌==◌, if◌then◌else◌, length, take, drop, append_assoc, length-append, take_prefix,
  drop_prefix, append-nil,
}
use mini_leveldb.Base.Bits.{bit_and_low}
use mini_leveldb.Slice.{Slice, is_equal}
use mini_leveldb.Coding.{put_fixed64, encode_varint32, encode_fixed64, decode_fixed64}
use mini_leveldb.Coding.Fixed.{decode-encode_fixed64}
use mini_leveldb.Status.{Status, make_not_found}
use mini_leveldb.Comparator.{Comparator}
use mini_leveldb.DbFormat.{
  type_value, type_deletion, ParsedInternalKey, append_internal_key, pack_sequence_and_type,
  memtable_key, user_key, new_lookup_key,
}
use mini_leveldb.DbFormat.Keys.{IsPackable, pack-sum, length-encode_fixed64}
use mini_leveldb.DbFormat.KeyOrder.{key_order, internal_compare-key_order}
use mini_leveldb.DbFormat.Lookup.{new_lookup_key-parts}
use mini_leveldb.MemTable.{
  length_prefixed_slice, compare_entries, entry, get_at, get_from, get_found, get, length_at,
}
use mini_leveldb.MemTable.Entries.{
  entry-append_internal_key, length_prefixed_slice-encode_varint32, length_at-encode_varint32,
}

pub length-append_internal_key :
    (k : ParsedInternalKey) → length (append_internal_key [] k) ≡ length k.user_key + 8
unfolding append_internal_key put_fixed64
length-append_internal_key k =
    let tag = pack_sequence_and_type k.sequence k.type in
    omega (arith, length-append k.user_key (encode_fixed64 tag), length-encode_fixed64 tag)

pub entry-key :
    (k : ParsedInternalKey) (value : Slice)
    → length k.user_key + 8 < 2 ^ 32
    → length_prefixed_slice (entry k.sequence k.type k.user_key value) ≡ append_internal_key [] k
entry-key k value h =
    ap length_prefixed_slice (entry-append_internal_key k.sequence k.type k.user_key value)
    ∙ length_prefixed_slice-encode_varint32 (append_internal_key [] k) _
        (omega (arith, length-append_internal_key k))

-- The memtable's comparator orders two entries as their keys: by user key, then by decreasing sequence
-- number, then by decreasing type, whatever the values are; for keys of less than 2^32 - 8 bytes and
-- sequence numbers of at most 56 bits.
pub compare_entries-key_order :
    (c : Comparator) (a b : ParsedInternalKey) (value value' : Slice)
    → IsPackable a
    → IsPackable b
    → length a.user_key + 8 < 2 ^ 32
    → length b.user_key + 8 < 2 ^ 32
    → compare_entries c
        (entry a.sequence a.type a.user_key value)
        (entry b.sequence b.type b.user_key value')
      ≡ key_order c a b
unfolding compare_entries
compare_entries-key_order c a b value value' pa pb ha hb =
    rw (entry-key a value ha, entry-key b value' hb) (internal_compare-key_order c a b pa pb)

-- The answer of `Get` from the key that was found: a value, a deletion, or another user key.
abbrev pub answer_for :
    Comparator → ParsedInternalKey → (stored ukey value : Slice) → Status → Bool × Slice × Status
answer_for c k stored ukey value s =
    if is_equal (c.compare k.user_key ukey)
    then (if k.type == type_value then (true, stored, s) else (true, value, make_not_found [] []))
    else (false, value, s)

-- A packable key has no third type.
two_types :
    (k : ParsedInternalKey) (b : Bool) (stored value : Slice) (s : Status)
    → IsPackable k
    → Path
        (Bool × Slice × Status)
        (if b
          then (if k.type == type_value
              then (true, stored, s)
              else if k.type == type_deletion
              then (true, value, make_not_found [] [])
              else (false, value, s))
          else (false, value, s))
        (if b
          then (if k.type == type_value
              then (true, stored, s)
              else (true, value, make_not_found [] []))
          else (false, value, s))
two_types k b stored value s pk = ground (arith, pk.type_fits)

get_at-answer_for :
    (c : Comparator) (k : ParsedInternalKey) (stored ukey value : Slice) (s : Status)
    → IsPackable k
    → length k.user_key + 8 < 2 ^ 32
    → length stored < 2 ^ 32
    → get_at c
        (length k.user_key + 8)
        (append_internal_key [] k ++ (encode_varint32 (length stored % 2 ^ 32) ++ stored))
        ukey
        value
        s
      ≡ answer_for c k stored ukey value s
unfolding get_at append_internal_key put_fixed64
get_at-answer_for c k stored ukey value s pk hk hs =
    let v = k.type + k.sequence * 2 ^ 8 in
    let packed = pack-sum k.sequence k.type pk.sequence_fits (omega (arith, pk.type_fits)) in
    let fits : v < 2 ^ 64 = omega (arith, pk.sequence_fits, pk.type_fits) in
    let tag = encode_fixed64 v in
    let rest = encode_varint32 (length stored % 2 ^ 32) ++ stored in
    let n = length k.user_key in
    let whole = (k.user_key ++ tag) ++ rest in
    let shape : whole ≡ k.user_key ++ (tag ++ rest) = append_assoc k.user_key tag rest in
    let back : n + 8 - 8 ≡ n = omega arith in
    let size : (n + 8 + (2 ^ 32 - 8)) % 2 ^ 32 ≡ n = omega arith in
    let found : take ((n + 8 + (2 ^ 32 - 8)) % 2 ^ 32) whole ≡ k.user_key =
      rw (size, shape) (take_prefix n k.user_key (tag ++ rest) refl) in
    let decoded : decode_fixed64 (drop (n + 8 - 8) whole) ≡ v =
      rw (back, shape, drop_prefix n k.user_key (tag ++ rest) refl)
        (decode-encode_fixed64 v rest fits) in
    let after : drop (n + 8) whole ≡ rest =
      drop_prefix (n + 8) (k.user_key ++ tag) rest
        (omega (arith, length-append k.user_key tag, length-encode_fixed64 v)) in
    let low : bit_and v 255 ≡ k.type = bit_and_low 8 v ∙ omega (arith, pk.type_fits) in
    let last : length_prefixed_slice rest ≡ stored =
      ap (λ (t : Slice). length_prefixed_slice (encode_varint32 (length stored % 2 ^ 32) ++ t))
        (sym (append-nil stored))
      ∙ length_prefixed_slice-encode_varint32 stored [] hs in
    rw packed (
      rw (found, decoded, after, low, last)
        (two_types k (is_equal (c.compare k.user_key ukey)) stored value s pk))

-- `Get`, where the seek finds an entry that `Add` wrote: if the user's comparator says that its key is
-- the one looked up, `Get` answers true, with the entry's value or, at a deletion, with NotFound;
-- otherwise it answers false and changes nothing. Keys and values have lengths that fit 32 bits, and
-- sequence numbers have 56 bits at most.
pub get-entry :
    (c : Comparator) (seek : Slice → Option Slice) (k : ParsedInternalKey) (stored u value : Slice)
    (snapshot : ℕ) (s : Status)
    → IsPackable k
    → length k.user_key + 8 < 2 ^ 32
    → length stored < 2 ^ 32
    → length u + 8 < 2 ^ 32
    → seek (memtable_key (new_lookup_key u snapshot))
      ≡ some (entry k.sequence k.type k.user_key stored)
    → get c seek (new_lookup_key u snapshot) value s ≡ answer_for c k stored u value s
unfolding get get_found get_from
get-entry c seek k stored u value snapshot s pk hk hs hu found =
    let (_, same, _, _) = new_lookup_key-parts u snapshot hu in
    let ik = append_internal_key [] k in
    let rest = encode_varint32 (length stored % 2 ^ 32) ++ stored in
    let size = length-append_internal_key k in
    let fits : length ik % 2 ^ 32 ≡ length k.user_key + 8 = omega (arith, size) in
    let read : length_at (entry k.sequence k.type k.user_key stored)
        ≡ some (length k.user_key + 8, ik ++ rest) =
      ap length_at (entry-append_internal_key k.sequence k.type k.user_key stored)
      ∙ rw fits (length_at-encode_varint32 (length k.user_key + 8) (ik ++ rest) hk) in
    let ukey = user_key (new_lookup_key u snapshot) in
    ap (get_found c ukey value s) found
    ∙ ap (get_from c ukey value s) read
    ∙ rw same (get_at-answer_for c k stored u value s pk hk hs)
