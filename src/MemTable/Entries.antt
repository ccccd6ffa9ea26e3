-- ===== src/MemTable/Entries.antt =====
-- The entries that `Add` writes, read back.
use mini_leveldb.Base.{
  ℕ, ◌+◌, ◌-◌, ◌*◌, ◌%◌, ◌^◌, ◌<◌, ◌≡◌, refl, ap, sym, ◌∙◌, arith, [], ◌++◌, some,
}
use mini_leveldb.Base.{
  bit_or, length, take, append_assoc, length-append, take-append, take_prefix, drop_prefix,
}
use mini_leveldb.Slice.{Slice}
use mini_leveldb.Coding.{
  put_fixed64, encode_varint32, encode_fixed64, get_varint32_ptr, get_varint32,
}
use mini_leveldb.Coding.Varint.{varint32_agrees}
use mini_leveldb.Coding.VarintRoundTrip.{get-encode_varint32}
use mini_leveldb.DbFormat.{ParsedInternalKey, append_internal_key, pack_sequence_and_type}
use mini_leveldb.DbFormat.Keys.{length-encode_fixed64}
use mini_leveldb.MemTable.{
  behind, slice_behind, length_at, length_prefixed_slice, entry, encoded_len,
}

-- A length that was written is read back.
pub length_at-encode_varint32 :
    (v : ℕ) (rest : Slice) → v < 2 ^ 32 → length_at (encode_varint32 v ++ rest) ≡ some (v, rest)
unfolding length_at get_varint32
length_at-encode_varint32 v rest h =
    let enc = encode_varint32 v in
    let (_, short, bound) = varint32_agrees v h in
    let tail = take (5 - length enc) rest in
    let five : 5 ≡ length enc + (5 - length enc) = omega arith in
    let front : take 5 (enc ++ rest) ≡ enc ++ tail =
      ap (λ k. take k (enc ++ rest)) five
      ∙ take-append (length enc) (5 - length enc) enc rest refl in
    let size : length (take 5 (enc ++ rest)) - length tail ≡ length enc =
      omega (arith, ap length front, length-append enc tail) in
    let read : get_varint32_ptr (take 5 (enc ++ rest)) ≡ some (v, tail) =
      ap get_varint32_ptr front ∙ get-encode_varint32 v tail h in
    ap (behind (enc ++ rest)) read
    ∙ ap (λ (p : Slice). some (v, p))
        (drop_prefix (length (take 5 (enc ++ rest)) - length tail) enc rest (sym size))

-- A slice that was written behind its length is read back.
pub length_prefixed_slice-encode_varint32 :
    (x rest : Slice)
    → length x < 2 ^ 32
    → length_prefixed_slice (encode_varint32 (length x % 2 ^ 32) ++ (x ++ rest)) ≡ x
unfolding length_prefixed_slice slice_behind
length_prefixed_slice-encode_varint32 x rest h =
    let fits : length x % 2 ^ 32 ≡ length x = omega arith in
    rw fits (
      ap slice_behind (length_at-encode_varint32 (length x) (x ++ rest) h)
      ∙ take_prefix (length x) x rest refl)

-- The tag that `Add` packs is that of the key's encoding.
abbrev parsed : (s type : ℕ) → Slice → ParsedInternalKey
parsed s type key = record { user_key = key; sequence = s; type = type }

-- An entry is its internal key under its length, and then its value under its length.
pub entry-append_internal_key :
    (s type : ℕ) (key value : Slice)
    → entry s type key value
      ≡ encode_varint32 (length (append_internal_key [] (parsed s type key)) % 2 ^ 32)
        ++ (append_internal_key [] (parsed s type key)
            ++ (encode_varint32 (length value % 2 ^ 32) ++ value))
unfolding entry append_internal_key put_fixed64 pack_sequence_and_type
entry-append_internal_key s type key value =
    let tag = encode_fixed64 (bit_or (s * 2 ^ 8 % 2 ^ 64) type) in
    let size : length (key ++ tag) ≡ length key + 8 =
      omega
        (arith, length-append key tag, length-encode_fixed64 (bit_or (s * 2 ^ 8 % 2 ^ 64) type)) in
    rw (size, append_assoc key tag (encode_varint32 (length value % 2 ^ 32) ++ value)) refl

-- `Add` fills exactly the bytes that it allocated: what its assertion says, for a key and a value whose
-- lengths fit 32 bits.
pub length-entry :
    (s type : ℕ) (key value : Slice)
    → length key + 8 < 2 ^ 32
    → length value < 2 ^ 32
    → length (entry s type key value) ≡ encoded_len key value
unfolding entry encoded_len
length-entry s type key value hk hv =
    let tag = encode_fixed64 (bit_or (s * 2 ^ 8 % 2 ^ 64) type) in
    let fk : (length key + 8) % 2 ^ 32 ≡ length key + 8 = omega arith in
    let fv : length value % 2 ^ 32 ≡ length value = omega arith in
    let (_, sk, _) = varint32_agrees (length key + 8) hk in
    let (_, sv, _) = varint32_agrees (length value) hv in
    let ek = encode_varint32 (length key + 8) in
    let ev = encode_varint32 (length value) in
    let t8 : length tag ≡ 8 = length-encode_fixed64 (bit_or (s * 2 ^ 8 % 2 ^ 64) type) in
    rw (fk, fv)
      (omega (
        arith,
        sk,
        sv,
        t8,
        length-append ek (key ++ (tag ++ (ev ++ value))),
        length-append key (tag ++ (ev ++ value)),
        length-append tag (ev ++ value),
        length-append ev value,
      ))
