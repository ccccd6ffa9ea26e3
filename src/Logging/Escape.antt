-- ===== src/Logging/Escape.antt =====
-- What escaping leaves of a byte string.
use mini_leveldb.Base.{
  ℕ, ◌/◌, ◌%◌, ◌≤◌, arith, [], ◌∷◌, ◌++◌, All, All-append, ◌&&◌, leb, Bool-cases, inl, inr,
}
use mini_leveldb.Slice.{Slice, IsByte}
use mini_leveldb.Logging.{hex_digit, append_escaped_string_to, escape_string}

abbrev pub IsPrintable : ℕ → Type 0
IsPrintable c = (32 ≤ c) × (c ≤ 126)

hex_digit-IsPrintable : (d : ℕ) → d ≤ 15 → IsPrintable (hex_digit d)
unfolding hex_digit
hex_digit-IsPrintable d h = ground arith

escaped-IsPrintable :
    (str value : Slice)
    → All IsPrintable str
    → All IsByte value
    → All IsPrintable (append_escaped_string_to str value)
unfolding append_escaped_string_to
escaped-IsPrintable str [] h bytes = h
escaped-IsPrintable str (c ∷ rest) h (b, bytes) = elim (Bool-cases (leb 32 c && leb c 126)) [
  | inl plain ↦ rw plain (
      escaped-IsPrintable (str ++ (c ∷ [])) rest
        (All-append IsPrintable str (c ∷ []) h (ground (arith, plain))) bytes)
  | inr special ↦
      let text = 92 ∷ 120 ∷ hex_digit (c / 16) ∷ hex_digit (c % 16) ∷ [] in
      let high = hex_digit-IsPrintable (c / 16) (omega arith) in
      let low = hex_digit-IsPrintable (c % 16) (omega arith) in
      rw special (
        escaped-IsPrintable (str ++ text) rest
          (All-append IsPrintable str text h (omega arith, (omega arith, (high, (low, tt))))) bytes)
]

-- `EscapeString` turns every byte string into printable ASCII characters.
pub escape_string-IsPrintable :
    (value : Slice) → All IsByte value → All IsPrintable (escape_string value)
unfolding escape_string
escape_string-IsPrintable value bytes = escaped-IsPrintable [] value tt bytes
