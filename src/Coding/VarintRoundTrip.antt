-- ===== src/Coding/VarintRoundTrip.antt =====
-- Reading a varint, or a length-prefixed slice, returns what was written.
use mini_leveldb.Base.{ℕ, zero, suc, ◌+◌, ◌*◌, ◌/◌, ◌%◌, ◌^◌, ◌≤◌, ◌<◌, ◌≡◌, refl, ap, ◌∙◌, arith}
use mini_leveldb.Base.{[], ◌∷◌, ◌++◌, some, append_assoc, length, All}
use mini_leveldb.Base.{bit_and, bit_or, take_prefix, drop_prefix, length-append}
use mini_leveldb.Base.Bits.{bit_or_fields, bit_and_low, bit_and-two_pow}
use mini_leveldb.Slice.{Slice, IsByte}
use mini_leveldb.Coding.{
  encode_varint32, encode_varint64, get_varint_loop, get_varint32_ptr_fallback, get_varint32_ptr,
  get_varint32, get_varint64, put_length_prefixed_slice, get_length_prefixed_slice,
}
use mini_leveldb.Coding.Varint.{base128, encode_varint32-base128, encode_varint64-base128}
use native.Mathlib.Nat.{div-add-mod, mod-eq_of_lt}
use native.Mathlib.Numerals.{towards_suc}

low_bits : (byte : ℕ) → bit_and byte 127 ≡ byte % 128
low_bits byte = bit_and_low 7 byte

top_bit : (byte : ℕ) → bit_and byte 128 ≡ byte / 128 % 2 * 128
top_bit byte = bit_and-two_pow 7 byte

shift_seven : (s : ℕ) → 2 ^ (s + 7) ≡ 128 * 2 ^ s
shift_seven s = simp towards_suc (omega arith)

-- The lowest digit of u and the others, at bit s.
split_digit : (u s : ℕ) → u * 2 ^ s ≡ u % 128 * 2 ^ s + u / 128 * 2 ^ (s + 7)
split_digit u s = omega (
  arith,
  ap (λ (t : ℕ). t * 2 ^ s) (div-add-mod u 128),
  ap (λ (t : ℕ). u / 128 * t) (shift_seven s),
)

-- A digit joins the result below the next shift.
digit_fits : (result d s : ℕ) → result < 2 ^ s → d < 128 → result + d * 2 ^ s < 2 ^ (s + 7)
digit_fits result d s hr hd = rw (shift_seven s) (grind arith)

or_digit :
    (width shift result d : ℕ)
    → result < 2 ^ shift
    → result + d * 2 ^ shift < 2 ^ width
    → bit_or result (d * 2 ^ shift % 2 ^ width) ≡ result + d * 2 ^ shift
or_digit width shift result d hr fits =
    rw (mod-eq_of_lt {n = d * 2 ^ shift} {m = 2 ^ width} (omega arith))
      (bit_or_fields shift result d hr)

module _ (width last_shift : ℕ) where
  last_digit :
      (byte shift result : ℕ) (rest : Slice)
      → byte < 128
      → shift ≤ last_shift
      → result < 2 ^ shift
      → result + byte * 2 ^ shift < 2 ^ width
      → get_varint_loop width last_shift (byte ∷ rest) shift result
        ≡ some (result + byte * 2 ^ shift, rest)
  unfolding get_varint_loop
  last_digit byte shift result rest hb hs hr fits =
      ground (arith, top_bit byte, or_digit width shift result byte)

  inner_digit :
      (digit shift result : ℕ) (rest : Slice)
      → digit < 128
      → shift ≤ last_shift
      → result < 2 ^ shift
      → result + digit * 2 ^ shift < 2 ^ width
      → get_varint_loop width last_shift ((digit + 128) ∷ rest) shift result
        ≡ get_varint_loop width last_shift rest (shift + 7) (result + digit * 2 ^ shift)
  unfolding get_varint_loop
  inner_digit digit shift result rest hb hs hr fits =
      let low : bit_and (digit + 128) 127 ≡ digit = omega (arith, low_bits (digit + 128)) in
      ground (arith, low, top_bit (digit + 128), or_digit width shift result digit)

  -- `u` is what is still to be read; its lowest digit goes to bit `shift`.
  pub loop-base128 :
      (k u shift result : ℕ) (rest : Slice)
      → u < 128 ^ suc k
      → shift + 7 * k ≤ last_shift
      → result < 2 ^ shift
      → result + u * 2 ^ shift < 2 ^ width
      → get_varint_loop width last_shift (base128 k u ++ rest) shift result
        ≡ some (result + u * 2 ^ shift, rest)
  unfolding base128
  loop-base128 zero u shift result rest hu hs hr fits =
      last_digit u shift result rest (omega arith) (omega arith) hr fits
  loop-base128 (suc k) u shift result rest hu hs hr fits = ground (
    arith,
    split_digit u shift,
    last_digit u shift result rest,
    inner_digit (u % 128) shift result (base128 k (u / 128) ++ rest),
    digit_fits result (u % 128) shift,
    loop-base128 k (u / 128) (shift + 7) (result + u % 128 * 2 ^ shift) rest (omega arith),
  )

abbrev StartsByte : Slice → Type 0
StartsByte [] = Unit
StartsByte (byte ∷ p) = IsByte byte

shortcut : (p : Slice) → StartsByte p → get_varint32_ptr p ≡ get_varint32_ptr_fallback p
unfolding get_varint32_ptr get_varint_loop
shortcut [] h = refl
shortcut (byte ∷ p) h = ground (arith, top_bit byte, or_digit 32 0 0 byte)

StartsByte-base128 : (k v : ℕ) (rest : Slice) → v < 128 ^ suc k → StartsByte (base128 k v ++ rest)
unfolding base128
StartsByte-base128 zero v rest h = omega arith
StartsByte-base128 (suc k) v rest h = ground arith

-- On a byte string the one-byte shortcut of `GetVarint32Ptr` changes nothing: it returns what the
-- fallback loop alone returns.
pub get_varint32_ptr-fallback :
    (p : Slice) → All IsByte p → get_varint32_ptr p ≡ get_varint32_ptr_fallback p
get_varint32_ptr-fallback [] h = shortcut [] tt
get_varint32_ptr-fallback (byte ∷ p) (hb, h) = shortcut (byte ∷ p) hb

-- `GetVarint32` reads back every uint32 that `EncodeVarint32` wrote, and leaves what follows it.
pub get-encode_varint32 :
    (v : ℕ) (rest : Slice) → v < 2 ^ 32 → get_varint32 (encode_varint32 v ++ rest) ≡ some (v, rest)
unfolding get_varint32 get_varint32_ptr_fallback
get-encode_varint32 v rest h = rw (encode_varint32-base128 v h) (
    shortcut (base128 4 v ++ rest) (StartsByte-base128 4 v rest (omega arith))
    ∙ ground (arith, loop-base128 32 28 4 v 0 0 rest))

-- `GetVarint64` reads back every uint64 that `EncodeVarint64` wrote, and leaves what follows it.
pub get-encode_varint64 :
    (v : ℕ) (rest : Slice) → v < 2 ^ 64 → get_varint64 (encode_varint64 v ++ rest) ≡ some (v, rest)
unfolding get_varint64
get-encode_varint64 v rest h =
    rw (encode_varint64-base128 v h) (ground (arith, loop-base128 64 63 9 v 0 0 rest))

-- `GetLengthPrefixedSlice` returns the slice that `PutLengthPrefixedSlice` appended to a string,
-- and leaves what follows it.
pub get-put_length_prefixed_slice :
    (value rest : Slice)
    → length value < 2 ^ 32
    → get_length_prefixed_slice (put_length_prefixed_slice [] value ++ rest) ≡ (some value, rest)
unfolding get_length_prefixed_slice put_length_prefixed_slice
get-put_length_prefixed_slice value rest h =
    let fits : length value % 2 ^ 32 ≡ length value = omega arith in
    rw
      (
        fits,
        append_assoc (encode_varint32 (length value)) value rest,
        get-encode_varint32 (length value) (value ++ rest) h,
      )
      (ground (
        arith,
        length-append value rest,
        take_prefix (length value) value rest,
        drop_prefix (length value) value rest,
      ))
