-- ===== src/Status.antt =====
-- include/status.h and util/status.cc: `state_` is null for OK, and otherwise an array that holds
-- the length of the message (4 bytes, in the little-endian order of the hosts in use), the code and
-- the message.
pub mod Messages
use mini_leveldb.Base.{
  ℕ, ◌+◌, ◌-◌, ◌%◌, ◌^◌, ◌≡◌, Bool, true, false, List, [], ◌∷◌, ◌++◌, Option, none, some,
}
use mini_leveldb.Base.{◌==◌, ltb, if◌then◌else◌, length, take, drop, get_or}
use mini_leveldb.Base.Text.{codes, decimal}
use mini_leveldb.Slice.{Slice}
use mini_leveldb.Coding.{encode_fixed32, decode_fixed32}

pub data Code : Type 0 where
  ok not_found corruption not_supported invalid_argument io_error : Code

abbrev pub code_value : Code → ℕ
code_value ok = 0
code_value not_found = 1
code_value corruption = 2
code_value not_supported = 3
code_value invalid_argument = 4
code_value io_error = 5

pub record Status : Type 0 where
  pub state : Option Slice

abbrev pub ok_status : Status
ok_status = record { state = none }

-- The constructor `Status(Code, const Slice&, const Slice&)`; its lengths are cast to uint32_t.
unfoldable pub make : Code → Slice → Slice → Status
make code msg msg2 =
    let len1 = length msg % 2 ^ 32 in
    let len2 = length msg2 % 2 ^ 32 in
    let size = (len1 + (if len2 == 0 then 0 else 2 + len2)) % 2 ^ 32 in
    let tail = if len2 == 0 then [] else b':' ∷ b' ' ∷ take len2 msg2 in
    record { state = some (encode_fixed32 size ++ code_value code ∷ (take len1 msg ++ tail)) }

abbrev pub make_not_found : Slice → Slice → Status
make_not_found = make not_found

abbrev pub make_corruption : Slice → Slice → Status
make_corruption = make corruption

abbrev pub make_io_error : Slice → Slice → Status
make_io_error = make io_error

abbrev pub is_null : Option Slice → Bool
is_null none = true
is_null (some _) = false

abbrev pub is_ok : Status → Bool
is_ok s = is_null s.state

-- `code()` reads the fifth byte.
unfoldable pub code_of : Status → ℕ
code_of s = elim s.state [ none ↦ 0 | some state ↦ get_or state 4 0 ]

unfoldable pub is_not_found : Status → Bool
unfolding code_of
is_not_found s = code_of s == code_value not_found

unfoldable pub is_corruption : Status → Bool
unfolding code_of
is_corruption s = code_of s == code_value corruption

unfoldable pub is_io_error : Status → Bool
unfolding code_of
is_io_error s = code_of s == code_value io_error

unfoldable pub is_not_supported_error : Status → Bool
unfolding code_of
is_not_supported_error s = code_of s == code_value not_supported

unfoldable pub is_invalid_argument : Status → Bool
unfolding code_of
is_invalid_argument s = code_of s == code_value invalid_argument

-- "%d" of the code byte, which is a signed char.
pub print_code : ℕ → Slice
print_code c = if ltb c 128 then decimal c else b'-' ∷ decimal (256 - c)

-- The switch of `ToString`; its default prints into a buffer of 30 bytes, one of them the final 0.
pub type_text : ℕ → Slice
unfolding print_code
type_text c =
    if c == 0
    then codes "OK"
    else if c == 1
    then codes "NotFound: "
    else if c == 2
    then codes "Corruption: "
    else if c == 3
    then codes "Not implemented: "
    else if c == 4
    then codes "Invalid argument: "
    else if c == 5
    then codes "IO error: "
    else take 29 (codes "Unknown code(" ++ print_code c ++ codes "): ")

unfoldable pub to_string : Status → Slice
unfolding type_text
to_string s = elim s.state [
  | none ↦ codes "OK"
  | some state ↦ type_text (get_or state 4 0) ++ take (decode_fixed32 state) (drop 5 state)
]

-- `CopyState` copies as many bytes as the stored length says, and the five before them.
pub copy_state : Slice → Slice
copy_state state = let size = decode_fixed32 state in take (size + 5) state

-- The copy constructor and the copy assignment.
unfoldable pub copy : Status → Status
unfolding copy_state
copy rhs = elim rhs.state [
  | none ↦ record { state = none }
  | some state ↦ record { state = some (copy_state state) }
]
