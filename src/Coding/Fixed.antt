-- ===== src/Coding/Fixed.antt =====
-- The fixed-width codec: round trips both ways.
use mini_leveldb.Base.{ℕ, ◌+◌, ◌*◌, ◌/◌, ◌%◌, ◌^◌, ◌<◌, ◌≡◌, arith, [], ◌∷◌, ◌++◌, All}
use mini_leveldb.Base.{◌∙◌}
use mini_leveldb.Base.Bits.{bit_or_fields}
use mini_leveldb.Slice.{Slice, IsByte}
use mini_leveldb.Coding.{encode_fixed32, encode_fixed64, decode_fixed32, decode_fixed64}

-- The `|` of the shifted bytes is their sum.
pub decode_fixed32-sum :
    (a b c d : ℕ) (rest : Slice)
    → All IsByte (a ∷ b ∷ c ∷ d ∷ [])
    → decode_fixed32 (a ∷ b ∷ c ∷ d ∷ rest) ≡ a + b * 2 ^ 8 + c * 2 ^ 16 + d * 2 ^ 24
unfolding decode_fixed32
decode_fixed32-sum a b c d rest h = rw (
  bit_or_fields 8 a b (omega arith),
  bit_or_fields 16 (a + b * 2 ^ 8) c (omega arith),
  bit_or_fields 24 (a + b * 2 ^ 8 + c * 2 ^ 16) d (omega arith),
)

pub decode_fixed64-sum :
    (low a b c d e f g h : ℕ) (rest : Slice)
    → low ≡ e + f * 2 ^ 8 + g * 2 ^ 16 + h * 2 ^ 24
    → All IsByte (e ∷ f ∷ g ∷ h ∷ a ∷ b ∷ c ∷ d ∷ [])
    → decode_fixed64 (e ∷ f ∷ g ∷ h ∷ a ∷ b ∷ c ∷ d ∷ rest)
      ≡ low + a * 2 ^ 32 + b * 2 ^ 40 + c * 2 ^ 48 + d * 2 ^ 56
decode_fixed64-sum low a b c d e f g h rest le k =
    let first : decode_fixed32 (e ∷ f ∷ g ∷ h ∷ a ∷ b ∷ c ∷ d ∷ rest) ≡ low =
      decode_fixed32-sum e f g h (a ∷ b ∷ c ∷ d ∷ rest) (omega arith) ∙ omega arith in
    unfold decode_fixed64 in
    rw (
      first,
      bit_or_fields 32 low a (omega arith),
      bit_or_fields 40 (low + a * 2 ^ 32) b (omega arith),
      bit_or_fields 48 (low + a * 2 ^ 32 + b * 2 ^ 40) c (omega arith),
      bit_or_fields 56 (low + a * 2 ^ 32 + b * 2 ^ 40 + c * 2 ^ 48) d (omega arith),
    )

-- Decoding four encoded bytes, whatever follows them, returns the 32-bit value.
pub decode-encode_fixed32 :
    (v : ℕ) (rest : Slice) → v < 2 ^ 32 → decode_fixed32 (encode_fixed32 v ++ rest) ≡ v
unfolding encode_fixed32
decode-encode_fixed32 v rest h =
    decode_fixed32-sum (v % 256) (v / 2 ^ 8 % 256) (v / 2 ^ 16 % 256) (v / 2 ^ 24 % 256) rest
      (omega arith)
    ∙ omega arith

-- Decoding eight encoded bytes, whatever follows them, returns the 64-bit value.
pub decode-encode_fixed64 :
    (v : ℕ) (rest : Slice) → v < 2 ^ 64 → decode_fixed64 (encode_fixed64 v ++ rest) ≡ v
unfolding encode_fixed64
decode-encode_fixed64 v rest h =
    decode_fixed64-sum (v % 2 ^ 32) (v / 2 ^ 32 % 256) (v / 2 ^ 40 % 256) (v / 2 ^ 48 % 256)
      (v / 2 ^ 56 % 256) (v % 256) (v / 2 ^ 8 % 256) (v / 2 ^ 16 % 256) (v / 2 ^ 24 % 256) rest
      (omega arith) (omega arith)
    ∙ omega arith

-- Encoding the value of four bytes returns the bytes.
pub encode-decode_fixed32 :
    (a b c d : ℕ)
    → All IsByte (a ∷ b ∷ c ∷ d ∷ [])
    → encode_fixed32 (decode_fixed32 (a ∷ b ∷ c ∷ d ∷ [])) ≡ a ∷ b ∷ c ∷ d ∷ []
unfolding encode_fixed32
encode-decode_fixed32 a b c d h = ground (arith, decode_fixed32-sum a b c d [] h)

pub encode_fixed32-IsByte : (v : ℕ) → All IsByte (encode_fixed32 v)
unfolding encode_fixed32
encode_fixed32-IsByte v = omega arith

pub encode_fixed64-IsByte : (v : ℕ) → All IsByte (encode_fixed64 v)
unfolding encode_fixed64
encode_fixed64-IsByte v = omega arith
