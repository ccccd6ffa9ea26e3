-- ===== src/DbFormat/Keys.antt =====
-- Internal keys and lookup keys: what is parsed against what was encoded.
use mini_leveldb.Base.{
  ℕ, ◌+◌, ◌-◌, ◌*◌, ◌/◌, ◌%◌, ◌^◌, ◌≤◌, ◌<◌, ◌≡◌, refl, sym, ◌∙◌, arith, true, false, [], ◌∷◌, ◌++◌,
  bit_and,
}
use mini_leveldb.Base.{
  ltb, leb, length, take, drop, All, length-append, length-drop, take_prefix, drop_prefix,
  append-nil, take-append-drop, All-drop,
}
use mini_leveldb.Base.Bits.{bit_or_comm, bit_or_fields, bit_and_low}
use mini_leveldb.Slice.{Slice, IsByte}
use mini_leveldb.Coding.{put_fixed64, encode_fixed64, decode_fixed64}
use mini_leveldb.Coding.Fixed.{decode-encode_fixed64, decode_fixed64-sum}
use mini_leveldb.DbFormat.{
  ParsedInternalKey, pack_sequence_and_type, append_internal_key, parse_internal_key,
  max_sequence_number, type_value,
}

-- What the assertions of `PackSequenceAndType` ask of a key.
pub record IsPackable (key : ParsedInternalKey) : Type 0 where
  pub sequence_fits : key.sequence ≤ max_sequence_number
  pub type_fits : key.type ≤ type_value

-- The tag is the sequence number above the byte of the type.
pub pack-sum :
    (seq t : ℕ)
    → seq ≤ max_sequence_number
    → t < 256
    → pack_sequence_and_type seq t ≡ t + seq * 2 ^ 8
unfolding pack_sequence_and_type
pack-sum seq t h k =
    let fits : seq * 2 ^ 8 % 2 ^ 64 ≡ seq * 2 ^ 8 = omega arith in
    rw (fits, bit_or_comm (seq * 2 ^ 8) t) (bit_or_fields 8 t seq (omega arith))

pub length-encode_fixed64 : (v : ℕ) → length (encode_fixed64 v) ≡ 8
unfolding encode_fixed64
length-encode_fixed64 v = refl

-- The part of a key before its tag, and the tag.
pub front_of : (u tag : Slice) → length tag ≡ 8 → take (length (u ++ tag) - 8) (u ++ tag) ≡ u
front_of u tag h = take_prefix (length (u ++ tag) - 8) u tag (omega (arith, length-append u tag))

pub tag_of : (u tag : Slice) → length tag ≡ 8 → drop (length (u ++ tag) - 8) (u ++ tag) ≡ tag
tag_of u tag h = drop_prefix (length (u ++ tag) - 8) u tag (omega (arith, length-append u tag))

-- The value of the last eight bytes of an encoded key.
pub decode-tag_of :
    (u : Slice) (v : ℕ)
    → v < 2 ^ 64
    → decode_fixed64 (drop (length (u ++ encode_fixed64 v) - 8) (u ++ encode_fixed64 v)) ≡ v
decode-tag_of u v h =
    rw (tag_of u (encode_fixed64 v) (length-encode_fixed64 v), sym (append-nil (encode_fixed64 v)))
      (decode-encode_fixed64 v [] h)

-- What `ParseInternalKey` makes of a user key and a tag.
parse_tagged :
    (u : Slice) (v : ℕ) (result : ParsedInternalKey)
    → v < 2 ^ 64
    → parse_internal_key (u ++ encode_fixed64 v) result
      ≡ (leb (v % 256) type_value, record { user_key = u; sequence = v / 2 ^ 8; type = v % 256 })
unfolding parse_internal_key
parse_tagged u v result h =
    let size : length (u ++ encode_fixed64 v) ≡ length u + 8 =
      omega (arith, length-append u (encode_fixed64 v), length-encode_fixed64 v) in
    let long : ltb (length (u ++ encode_fixed64 v)) 8 ≡ false = ground (arith, size) in
    let low : bit_and v 255 ≡ v % 256 = bit_and_low 8 v in
    rw (long, decode-tag_of u v h, front_of u (encode_fixed64 v) (length-encode_fixed64 v), low)
      refl

-- `ParseInternalKey` reads back every key that `AppendInternalKey` wrote into an empty string, for a
-- sequence number of at most 56 bits and one of the two types, whatever the result held before.
pub parse-append_internal_key :
    (key result : ParsedInternalKey)
    → IsPackable key
    → parse_internal_key (append_internal_key [] key) result ≡ (true, key)
unfolding append_internal_key put_fixed64
parse-append_internal_key key result h =
    let tag = key.type + key.sequence * 2 ^ 8 in
    let fits : tag < 2 ^ 64 = omega (arith, h.sequence_fits, h.type_fits) in
    let e = pack-sum key.sequence key.type h.sequence_fits (omega (arith, h.type_fits)) in
    let ok : leb (tag % 256) type_value ≡ true = ground (arith, h.type_fits) in
    let seq : tag / 2 ^ 8 ≡ key.sequence = omega (arith, h.type_fits) in
    let typ : tag % 256 ≡ key.type = omega (arith, h.type_fits) in
    rw e (parse_tagged key.user_key tag result fits ∙ rw (typ, seq) (ground (arith, h.type_fits)))

-- The bytes of a string of eight.
eight_bytes :
    (s : Slice)
    → length s ≡ 8
    → All IsByte s
    → (encode_fixed64 (decode_fixed64 s) ≡ s) × (decode_fixed64 s < 2 ^ 64)
eight_bytes (a ∷ b ∷ c ∷ d ∷ e ∷ f ∷ g ∷ h ∷ []) z k =
    let v =
      decode_fixed64-sum (a + b * 2 ^ 8 + c * 2 ^ 16 + d * 2 ^ 24) e f g h a b c d [] refl
        (omega arith) in
    rw v (unfold encode_fixed64 in ground arith, omega arith)
eight_bytes _ z k = absurd (omega arith)

-- A string of bytes that has room for a tag ends in one.
split_tag :
    (k : Slice)
    → All IsByte k
    → 8 ≤ length k
    → (u : Slice) × (v : ℕ) × (k ≡ u ++ encode_fixed64 v) × (v < 2 ^ 64)
split_tag k bytes h =
    let n = length k - 8 in
    let (same, fits) =
      eight_bytes (drop n k) (length-drop n k ∙ omega arith) (All-drop IsByte n k bytes) in
    (take n k, decode_fixed64 (drop n k), rw same (sym (take-append-drop n k)), fits)

accepted_long :
    (k : Slice) (result : ParsedInternalKey) → (parse_internal_key k result).0 ≡ true → 8 ≤ length k
unfolding parse_internal_key
accepted_long k result h = ground arith

accepted_tag :
    (u : Slice) (v : ℕ) (result : ParsedInternalKey)
    → v < 2 ^ 64
    → (parse_internal_key (u ++ encode_fixed64 v) result).0 ≡ true
    → (append_internal_key [] (parse_internal_key (u ++ encode_fixed64 v) result).1
        ≡ u ++ encode_fixed64 v)
      × IsPackable (parse_internal_key (u ++ encode_fixed64 v) result).1
unfolding append_internal_key put_fixed64
accepted_tag u v result h accepted =
    let p = parse_tagged u v result h in
    let low : v % 256 ≤ type_value = ground (arith, accepted, p) in
    let packed : pack_sequence_and_type (v / 2 ^ 8) (v % 256) ≡ v =
      pack-sum (v / 2 ^ 8) (v % 256) (omega arith) (omega arith) ∙ omega arith in
    rw (p, packed) (refl, record { sequence_fits = omega arith; type_fits = low })

-- What `ParseInternalKey` accepts is what `AppendInternalKey` writes for the key that it found, and
-- that key is one that the assertions of `PackSequenceAndType` allow; for a string of bytes.
pub append-parse_internal_key :
    (internal_key : Slice) (result : ParsedInternalKey)
    → All IsByte internal_key
    → (parse_internal_key internal_key result).0 ≡ true
    → (append_internal_key [] (parse_internal_key internal_key result).1 ≡ internal_key)
      × IsPackable (parse_internal_key internal_key result).1
append-parse_internal_key internal_key result bytes accepted =
    let long = accepted_long internal_key result accepted in
    let (u, v, e, fits) = split_tag internal_key bytes long in
    rw e (accepted_tag u v result fits (rw e at accepted))
