-- ===== src/Logging.antt =====
-- util/logging.cc: numbers and byte strings as text.
pub mod Decimal
pub mod Escape
use mini_leveldb.Base.{
  ℕ, ◌+◌, ◌-◌, ◌*◌, ◌/◌, ◌%◌, ◌^◌, Bool, true, false, ◌&&◌, ◌||◌, not, [], ◌∷◌, ◌++◌, Option, none,
  some,
}
use mini_leveldb.Base.{ltb, leb, ◌==◌, if◌then◌else◌}
use mini_leveldb.Base.Text.{decimal}
use mini_leveldb.Slice.{Slice, remove_prefix}

unfoldable pub append_number_to : Slice → ℕ → Slice
unfolding decimal
append_number_to str num = str ++ decimal num

unfoldable pub number_to_string : ℕ → Slice
unfolding append_number_to
number_to_string num = append_number_to [] num

-- A digit of "%02x".
unfoldable pub hex_digit : ℕ → ℕ
hex_digit d = if ltb d 10 then 48 + d else 87 + d

-- A byte of 128 or more is a negative char, so that the test `c >= ' '` fails.
unfoldable pub append_escaped_string_to : Slice → Slice → Slice
unfolding hex_digit
append_escaped_string_to str [] = str
append_escaped_string_to str (c ∷ rest) =
    append_escaped_string_to
      (str
        ++ (if leb 32 c && leb c 126
            then c ∷ []
            else 92 ∷ 120 ∷ hex_digit (c / 16) ∷ hex_digit (c % 16) ∷ []))
      rest

unfoldable pub escape_string : Slice → Slice
unfolding append_escaped_string_to
escape_string value = append_escaped_string_to [] value

abbrev pub max_uint64 : ℕ
max_uint64 = 2 ^ 64 - 1

-- The loop of `ConsumeDecimalNumber`: the value and the count of the digits, or none on overflow.
unfoldable pub consume_loop : Slice → (value digits : ℕ) → Option (ℕ × ℕ)
consume_loop [] value digits = some (value, digits)
consume_loop (ch ∷ rest) value digits =
    let next = consume_loop rest (value * 10 + (ch - 48)) (digits + 1) in
    if ltb ch 48 || ltb 57 ch
    then some (value, digits)
    else if ltb (max_uint64 / 10) value
        || ((value == max_uint64 / 10) && ltb (48 + max_uint64 % 10) ch)
    then none
    else next

-- What the loop left: the answer, `*in` and `*val`.
unfoldable pub finish : Slice → ℕ → Option (ℕ × ℕ) → Bool × Slice × ℕ
unfolding remove_prefix
finish input val none = (false, input, val)
finish input val (some (value, digits)) = (not (digits == 0), remove_prefix digits input, value)

unfoldable pub consume_decimal_number : Slice → ℕ → Bool × Slice × ℕ
unfolding consume_loop finish
consume_decimal_number input val = finish input val (consume_loop input 0 0)
