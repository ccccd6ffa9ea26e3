-- ===== src/Status/Messages.antt =====
-- What a status that the constructor made prints, and what a copy of it is.
use mini_leveldb.Base.{ℕ, ◌+◌, ◌%◌, ◌^◌, ◌<◌, ◌≡◌, refl, ap, arith, false, [], ◌∷◌, ◌++◌}
use mini_leveldb.Base.{Option, some, ◌==◌, length}
use mini_leveldb.Base.{length-append, take_all, append-nil}
use native.Mathlib.Nat.{le_refl}
use mini_leveldb.Base.Text.{codes}
use mini_leveldb.Slice.{Slice}
use mini_leveldb.Coding.{encode_fixed32, decode_fixed32}
use mini_leveldb.Coding.Fixed.{decode-encode_fixed32}
use mini_leveldb.Status.{Code, ok, not_found, corruption, not_supported, invalid_argument, io_error}
use mini_leveldb.Status.{code_value, make, to_string, type_text, copy, copy_state, code_of}

-- The text behind the code: the first message, and the second behind ": " if there is one.
abbrev pub message : Slice → Slice → Slice
message msg [] = msg
message msg (x ∷ msg2) = msg ++ (codes ": " ++ (x ∷ msg2))

-- The name of each code, as a reader of the message finds it.
unfoldable pub code_text : Code → Slice
code_text ok = codes "OK"
code_text not_found = codes "NotFound: "
code_text corruption = codes "Corruption: "
code_text not_supported = codes "Not implemented: "
code_text invalid_argument = codes "Invalid argument: "
code_text io_error = codes "IO error: "

type_text-code : (code : Code) → type_text (code_value code) ≡ code_text code
unfolding type_text code_text
type_text-code ok = refl
type_text-code not_found = refl
type_text-code corruption = refl
type_text-code not_supported = refl
type_text-code invalid_argument = refl
type_text-code io_error = refl

message-fits :
    (msg msg2 : Slice) → length msg + length msg2 + 2 < 2 ^ 32 → length (message msg msg2) < 2 ^ 32
message-fits msg [] h = omega arith
message-fits msg (x ∷ msg2) h = omega (arith, length-append msg (codes ": " ++ (x ∷ msg2)))

module _ (c n : ℕ) (payload : Slice) (fits : n < 2 ^ 32) (len : length payload ≡ n) where
  -- The array behind a status: length, code, message.
  stored : Option Slice
  stored = some (encode_fixed32 n ++ c ∷ payload)

  to_string-stored : to_string (record { state = stored }) ≡ type_text c ++ payload
  unfolding to_string stored encode_fixed32
  to_string-stored = ground (arith, decode_encode, take_all n payload (omega arith))
    where
      decode_encode : decode_fixed32 (encode_fixed32 n ++ c ∷ payload) ≡ n
      decode_encode = decode-encode_fixed32 n (c ∷ payload) fits

  copy-stored : copy (record { state = stored }) ≡ record { state = stored }
  unfolding copy copy_state stored encode_fixed32
  copy-stored =
      ap (λ (s : Slice). record { state = some s })
        (rw decode_encode (take_all (n + 5) (encode_fixed32 n ++ c ∷ payload) (omega arith)))
    where
      decode_encode : decode_fixed32 (encode_fixed32 n ++ c ∷ payload) ≡ n
      decode_encode = decode-encode_fixed32 n (c ∷ payload) fits

  code-stored : code_of (record { state = stored }) ≡ c
  unfolding code_of stored encode_fixed32
  code-stored = refl

make-message :
    (code : Code) (msg msg2 : Slice)
    → length msg + length msg2 + 2 < 2 ^ 32
    → make code msg msg2 ≡ record {
      state =
          some (encode_fixed32 (length (message msg msg2)) ++ code_value code ∷ message msg msg2);
    }
unfolding make
make-message code msg [] h =
    let len1 : length msg % 2 ^ 32 ≡ length msg = omega arith in
    rw (len1, take_all (length msg) msg (le_refl _), append-nil msg)
      (ap (λ (n : ℕ). record { state = some (encode_fixed32 n ++ code_value code ∷ msg) })
        (omega arith))
make-message code msg (x ∷ msg2) h =
    let len1 : length msg % 2 ^ 32 ≡ length msg = omega arith in
    let len2 : length (x ∷ msg2) % 2 ^ 32 ≡ length (x ∷ msg2) = omega arith in
    let some_bytes : (length (x ∷ msg2) == 0) ≡ false = ground arith in
    let size : (length msg + (2 + length (x ∷ msg2))) % 2 ^ 32 ≡ length (message msg (x ∷ msg2)) =
      omega (arith, length-append msg (codes ": " ++ (x ∷ msg2))) in
    rw (
      len1,
      len2,
      some_bytes,
      size,
      take_all (length msg) msg (le_refl _),
      take_all (length msg2) msg2 (le_refl _),
    )

-- `ToString` of a status that a constructor made is the name of its code ("OK", and "NotFound: ",
-- "Corruption: ", "Not implemented: ", "Invalid argument: " or "IO error: " for an error), the message
-- and, if there is one, ": " and the second message, for messages whose lengths together fit 32 bits.
pub to_string-make :
    (code : Code) (msg msg2 : Slice)
    → length msg + length msg2 + 2 < 2 ^ 32
    → to_string (make code msg msg2) ≡ code_text code ++ message msg msg2
unfolding stored
to_string-make code msg msg2 h =
    rw (make-message code msg msg2 h, ← type_text-code code)
      (to_string-stored (code_value code) (length (message msg msg2)) (message msg msg2)
        (message-fits msg msg2 h) refl)

-- A copy of a status that a constructor made is that status, and its code is the one it was made
-- with, for messages whose lengths together fit 32 bits.
pub copy-make :
    (code : Code) (msg msg2 : Slice)
    → length msg + length msg2 + 2 < 2 ^ 32
    → (copy (make code msg msg2) ≡ make code msg msg2)
      × (code_of (make code msg msg2) ≡ code_value code)
unfolding stored
copy-make code msg msg2 h =
    let m = message msg msg2 in
    let fits : length m < 2 ^ 32 = message-fits msg msg2 h in
    rw (make-message code msg msg2 h) (
      copy-stored (code_value code) (length m) m fits refl,
      code-stored (code_value code) (length m) m fits refl,
    )
