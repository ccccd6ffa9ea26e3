-- ===== src/Logging/Decimal.antt =====
-- `ConsumeDecimalNumber` against the value of a string of digits.
use mini_leveldb.Base.{
  ℕ, zero, suc, ◌+◌, ◌-◌, ◌*◌, ◌/◌, ◌%◌, ◌^◌, ◌≤◌, ◌<◌, ◌≡◌, ◌⊎◌, inl, inr, refl, ◌∙◌, arith, lt_wf,
}
use mini_leveldb.Base.{true, false, not, [], ◌∷◌, ◌++◌, none, some, ltb, ◌==◌, if◌then◌else◌}
use mini_leveldb.Base.{length, All, All-append, drop_prefix, Bool-cases, length-append}
use mathlib.Core.WellFounded.{Acc}
use native.Mathlib.Decide.{dec_lt}
use mini_leveldb.Base.Text.{decimal, decimal_loop, decimal_loop_step, decimal_loop_last}
use mini_leveldb.Slice.{Slice, remove_prefix}
use mini_leveldb.Logging.{
  append_number_to, consume_loop, finish, consume_decimal_number, max_uint64,
}

abbrev pub IsDigit : ℕ → Type 0
IsDigit c = (48 ≤ c) × (c ≤ 57)

-- The number that digits continue.
unfoldable pub number_of : Slice → ℕ → ℕ
number_of [] value = value
number_of (c ∷ cs) value = number_of cs (value * 10 + (c - 48))

-- No digit comes next.
abbrev pub EndsDigits : Slice → Type 0
EndsDigits [] = Unit {0}
EndsDigits (c ∷ _) = (c < 48) ⊎ (57 < c)

number_of_grows : (ds : Slice) (value : ℕ) → value ≤ number_of ds value
unfolding number_of
number_of_grows [] value = omega arith
number_of_grows (c ∷ cs) value = omega (arith, number_of_grows cs (value * 10 + (c - 48)))

reorder : (a b : ℕ) → a + 1 + b ≡ a + suc b
reorder a b = omega arith

-- A digit that makes the value too large, and one that does not.
loop_over :
    (c : ℕ) (rest : Slice) (value digits : ℕ)
    → 48 ≤ c
    → c ≤ 57
    → value ≤ max_uint64
    → max_uint64 < value * 10 + (c - 48)
    → consume_loop (c ∷ rest) value digits ≡ none
unfolding consume_loop
loop_over c rest value digits lo hi v over = ground arith

loop_on :
    (c : ℕ) (rest : Slice) (value digits : ℕ)
    → 48 ≤ c
    → c ≤ 57
    → value ≤ max_uint64
    → value * 10 + (c - 48) ≤ max_uint64
    → consume_loop (c ∷ rest) value digits ≡ consume_loop rest (value * 10 + (c - 48)) (digits + 1)
unfolding consume_loop
loop_on c rest value digits lo hi v fits = ground arith

-- The loop on digits that something else follows.
loop-number_of :
    (ds rest : Slice) (value digits : ℕ)
    → All IsDigit ds
    → EndsDigits rest
    → value ≤ max_uint64
    → consume_loop (ds ++ rest) value digits ≡ (
        if ltb (number_of ds value) (2 ^ 64)
        then some (number_of ds value, digits + length ds)
        else none)
unfolding consume_loop number_of
loop-number_of [] [] value digits h e v = ground arith
loop-number_of [] (c ∷ rest) value digits h e v = ground arith
loop-number_of (c ∷ cs) rest value digits ((lo, hi), h) e v =
    let next = value * 10 + (c - 48) in
    let grows = number_of_grows cs next in
    elim (dec_lt max_uint64 next) [
      | yes over ↦
          rw (loop_over c (cs ++ rest) value digits lo hi v over) (ground (arith, over, grows))
      | no fits ↦ rw (loop_on c (cs ++ rest) value digits lo hi v (omega (arith, fits))) (
          loop-number_of cs rest next (digits + 1) h e (omega (arith, fits))
          ∙ rw (reorder digits (length cs)) refl)
    ]

-- On a string of digits, of any number of them, followed by the end of the input or by another byte,
-- `ConsumeDecimalNumber` returns the number and takes the digits off the input if the number fits 64
-- bits, and false and changes nothing otherwise; without a digit it returns false.
pub consume_decimal_number-number_of :
    (ds rest : Slice) (val : ℕ)
    → All IsDigit ds
    → EndsDigits rest
    → consume_decimal_number (ds ++ rest) val ≡ (
        if ltb (number_of ds 0) (2 ^ 64)
        then (not (length ds == 0), rest, number_of ds 0)
        else (false, ds ++ rest, val))
unfolding consume_decimal_number finish remove_prefix
consume_decimal_number-number_of ds rest val h e =
    let loop = loop-number_of ds rest 0 0 h e (omega arith) in
    let count : 0 + length ds ≡ length ds = omega arith in
    elim (Bool-cases (ltb (number_of ds 0) (2 ^ 64))) [
      | inl fits ↦ rw (loop, fits, count) (rw (drop_prefix (length ds) ds rest refl) refl)
      | inr over ↦ rw (loop, over) refl
    ]

number_of_snoc :
    (ds : Slice) (d value : ℕ)
    → number_of (ds ++ (d ∷ [])) value ≡ number_of ds value * 10 + (d - 48)
unfolding number_of
number_of_snoc [] d value = refl
number_of_snoc (c ∷ cs) d value = number_of_snoc cs d (value * 10 + (c - 48))

-- What `snprintf` prints for a number.
record Prints (ds : Slice) (n : ℕ) : Type 0 where
  digits : All IsDigit ds
  nonempty : 0 < length ds
  value : number_of ds 0 ≡ n

-- The fuel bounds the depth of the proof only.
loop-Prints : (fuel n : ℕ) (a : Acc ◌<◌ n) → n < fuel → Prints (decimal_loop n a) n
loop-Prints zero n a h = absurd (omega arith)
loop-Prints (suc fuel) n a h = elim (dec_lt 9 n) [
  | no small ↦ rw (decimal_loop_last n a (omega (arith, small))) (record {
    digits = omega (arith, small);
    nonempty = omega arith;
    value = unfold number_of in omega arith;
  })
  | yes big ↦
      let (a', e) = decimal_loop_step n a big in
      let ds = decimal_loop (n / 10) a' in
      let last = 48 + n % 10 in
      let p = loop-Prints fuel (n / 10) a' (omega arith) in
      rw e (record {
        digits = All-append IsDigit ds (last ∷ []) p.digits (omega arith);
        nonempty = omega (arith, length-append ds (last ∷ []));
        value = omega (arith, number_of_snoc ds last 0, p.value);
      })
]

decimal-Prints : (n : ℕ) → Prints (decimal n) n
unfolding decimal
decimal-Prints n = loop-Prints (suc n) n (lt_wf.apply n) (omega arith)

-- What `AppendNumberTo` printed behind a string is read back: for a uint64, followed by the end of the
-- input or by a byte that is no digit, `ConsumeDecimalNumber` returns true, the number, and what follows.
pub consume-append_number_to :
    (n val : ℕ) (rest : Slice)
    → n < 2 ^ 64
    → EndsDigits rest
    → consume_decimal_number (append_number_to [] n ++ rest) val ≡ (true, rest, n)
unfolding append_number_to
consume-append_number_to n val rest h e =
    let p = decimal-Prints n in
    consume_decimal_number-number_of (decimal n) rest val p.digits e
    ∙ rw p.value (ground (arith, p.nonempty))
