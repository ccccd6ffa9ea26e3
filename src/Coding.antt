-- ===== src/Coding.antt =====
-- util/coding.h and util/coding.cc: integers and slices as bytes. A write through `dst` or to
-- `*dst` is the list of the bytes written; a read through `p` and `limit` is the list of the bytes
-- between them, and returns what is left of it.
pub mod Fixed
pub mod Varint
pub mod VarintRoundTrip
use mini_leveldb.Base.{
  ℕ, zero, suc, ◌+◌, ◌-◌, ◌*◌, ◌/◌, ◌%◌, ◌^◌, ◌≤◌, ◌<◌, Option, none, some, arith,
}
use mini_leveldb.Base.{List, [], ◌∷◌, ◌++◌, ltb, leb, ◌==◌, if◌then◌else◌, lt_wf}
use mini_leveldb.Base.{length, get_or, take, bit_and, bit_or}
use mini_leveldb.Slice.{Slice, remove_prefix}
use mathlib.Core.Logic.{dite}
use mathlib.Core.WellFounded.{Acc}
use native.Mathlib.Decide.{dec_lt}

-- The casts to uint8_t keep the lowest byte.
unfoldable pub encode_fixed32 : ℕ → Slice
encode_fixed32 value =
    value % 256 ∷ value / 2 ^ 8 % 256 ∷ value / 2 ^ 16 % 256 ∷ value / 2 ^ 24 % 256 ∷ []

unfoldable pub encode_fixed64 : ℕ → Slice
encode_fixed64 value =
    value % 256
    ∷ value / 2 ^ 8 % 256
    ∷ value / 2 ^ 16 % 256
    ∷ value / 2 ^ 24 % 256
    ∷ value / 2 ^ 32 % 256
    ∷ value / 2 ^ 40 % 256
    ∷ value / 2 ^ 48 % 256
    ∷ value / 2 ^ 56 % 256
    ∷ []

-- One byte of the buffer, shifted to its place.
abbrev pub byte_at : Slice → ℕ → ℕ → ℕ
byte_at buffer i shift = get_or buffer i 0 * 2 ^ shift

unfoldable pub decode_fixed32 : Slice → ℕ
decode_fixed32 buffer =
    bit_or (bit_or (bit_or (get_or buffer 0 0) (byte_at buffer 1 8)) (byte_at buffer 2 16))
      (byte_at buffer 3 24)

unfoldable pub decode_fixed64 : Slice → ℕ
unfolding decode_fixed32
decode_fixed64 buffer =
    bit_or
      (bit_or (bit_or (bit_or (decode_fixed32 buffer) (byte_at buffer 4 32)) (byte_at buffer 5 40))
        (byte_at buffer 6 48))
      (byte_at buffer 7 56)

unfoldable pub put_fixed32 : Slice → ℕ → Slice
put_fixed32 dst value = dst ++ encode_fixed32 value

unfoldable pub put_fixed64 : Slice → ℕ → Slice
put_fixed64 dst value = dst ++ encode_fixed64 value

-- `*(ptr++) = v | B` stores the lowest byte of `v | 128`.
abbrev pub more : ℕ → ℕ
more v = bit_or v 128 % 256

unfoldable pub encode_varint32 : ℕ → Slice
encode_varint32 v =
    if ltb v (2 ^ 7)
    then v % 256 ∷ []
    else if ltb v (2 ^ 14)
    then more v ∷ v / 2 ^ 7 % 256 ∷ []
    else if ltb v (2 ^ 21)
    then more v ∷ more (v / 2 ^ 7) ∷ v / 2 ^ 14 % 256 ∷ []
    else if ltb v (2 ^ 28)
    then more v ∷ more (v / 2 ^ 7) ∷ more (v / 2 ^ 14) ∷ v / 2 ^ 21 % 256 ∷ []
    else more v ∷ more (v / 2 ^ 7) ∷ more (v / 2 ^ 14) ∷ more (v / 2 ^ 21) ∷ v / 2 ^ 28 % 256 ∷ []

unfoldable pub put_varint32 : Slice → ℕ → Slice
put_varint32 dst v = dst ++ encode_varint32 v

pub shift_shrinks : (v : ℕ) → 127 < v → v / 2 ^ 7 < v
shift_shrinks v h = omega arith

-- `while (v >= B)` of `EncodeVarint64`; the loop ends since `v >>= 7` makes v smaller.
pub encode_varint64_loop : (v : ℕ) → Acc ◌<◌ v → Slice
encode_varint64_loop v (Acc.intro _ smaller) =
    dite (dec_lt 127 v)
      (λ big. more v ∷ encode_varint64_loop (v / 2 ^ 7) (smaller _ (shift_shrinks v big)))
      (λ _. v % 256 ∷ [])

unfoldable pub encode_varint64 : ℕ → Slice
unfolding encode_varint64_loop lt_wf dec_lt
encode_varint64 v = encode_varint64_loop v (lt_wf.apply v)

unfoldable pub put_varint64 : Slice → ℕ → Slice
put_varint64 dst v = dst ++ encode_varint64 v

unfoldable pub put_length_prefixed_slice : Slice → Slice → Slice
unfolding put_varint32
put_length_prefixed_slice dst value = put_varint32 dst (length value % 2 ^ 32) ++ value

-- `while (v >= 128)` of `VarintLength`, with its counter.
pub varint_length_loop : (v : ℕ) → Acc ◌<◌ v → ℕ → ℕ
varint_length_loop v (Acc.intro _ smaller) len =
    dite (dec_lt 127 v)
      (λ big. varint_length_loop (v / 2 ^ 7) (smaller _ (shift_shrinks v big)) (len + 1)) (λ _. len)

unfoldable pub varint_length : ℕ → ℕ
unfolding varint_length_loop lt_wf dec_lt
varint_length v = varint_length_loop v (lt_wf.apply v) 1

-- The loop of `GetVarint32PtrFallback` and of `GetVarint64Ptr`: they differ in the width of the
-- result and in the last shift, 28 and 63. `none` is the null pointer.
pub get_varint_loop : (width last_shift : ℕ) → Slice → (shift result : ℕ) → Option (ℕ × Slice)
get_varint_loop width last_shift [] shift result = none
get_varint_loop width last_shift (byte ∷ p) shift result =
    let result' = bit_or result (bit_and byte 127 * 2 ^ shift % 2 ^ width) in
    let rest = get_varint_loop width last_shift p (shift + 7) result' in
    if leb shift last_shift
    then (if bit_and byte 128 == 0
        then some (bit_or result (byte * 2 ^ shift % 2 ^ width), p)
        else rest)
    else none

unfoldable pub get_varint32_ptr_fallback : Slice → Option (ℕ × Slice)
unfolding get_varint_loop
get_varint32_ptr_fallback p = get_varint_loop 32 28 p 0 0

-- The inline function tries a single byte first.
unfoldable pub get_varint32_ptr : Slice → Option (ℕ × Slice)
unfolding get_varint32_ptr_fallback
get_varint32_ptr [] = get_varint32_ptr_fallback []
get_varint32_ptr (result ∷ p) =
    if bit_and result 128 == 0 then some (result, p) else get_varint32_ptr_fallback (result ∷ p)

unfoldable pub get_varint64_ptr : Slice → Option (ℕ × Slice)
unfolding get_varint_loop
get_varint64_ptr p = get_varint_loop 64 63 p 0 0

-- `bool GetVarint32(Slice* input, uint32_t* value)`: the value and the advanced input, or false.
unfoldable pub get_varint32 : Slice → Option (ℕ × Slice)
unfolding get_varint32_ptr
get_varint32 input = get_varint32_ptr input

unfoldable pub get_varint64 : Slice → Option (ℕ × Slice)
unfolding get_varint64_ptr
get_varint64 input = get_varint64_ptr input

-- The result slice, or false, and the input as it is left.
pub take_prefixed : Slice → Option (ℕ × Slice) → Option Slice × Slice
unfolding remove_prefix
take_prefixed input none = (none, input)
take_prefixed input (some (len, input')) =
    if leb len (length input')
    then (some (take len input'), remove_prefix len input')
    else (none, input')

unfoldable pub get_length_prefixed_slice : Slice → Option Slice × Slice
unfolding get_varint32 take_prefixed
get_length_prefixed_slice input = take_prefixed input (get_varint32 input)
