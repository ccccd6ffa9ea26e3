-- ===== src/Base/Text.antt =====
-- Text literals as bytes, and the decimal and hexadecimal digits that `snprintf` prints.
use Prim.Native.Nat.{ℕ, ◌+◌, ◌/◌, ◌%◌, ◌<◌, ◌≤◌}
use Prim.Native.Char.{code}
use Prim.Native.String.{String}
use mathlib.Core.List.{List, [], ◌∷◌, ◌++◌}
use mathlib.Core.Logic.{dite}
use mathlib.Core.Path.{◌≡◌, refl}
use mathlib.Core.WellFounded.{Acc}
use native.Mathlib.Decide.{dec_lt}
use native.Mathlib.Omega.{arith}
use mini_leveldb.Base.Order.{lt_wf}

abbrev pub codes : String → List ℕ
codes String.[] = []
codes (String.◌∷◌ c s) = code c ∷ codes s

tenth_shrinks : (n : ℕ) → 9 < n → n / 10 < n
tenth_shrinks n h = omega arith

pub decimal_loop : (n : ℕ) → Acc ◌<◌ n → List ℕ
unfolding tenth_shrinks
decimal_loop n (Acc.intro _ smaller) =
    dite (dec_lt 9 n)
      (λ big. decimal_loop (n / 10) (smaller _ (tenth_shrinks n big)) ++ ((48 + n % 10) ∷ []))
      (λ _. (48 + n) ∷ [])

-- "%llu" and "%d" of a number that is not negative.
unfoldable pub decimal : ℕ → List ℕ
unfolding decimal_loop lt_wf dec_lt
decimal n = decimal_loop n (lt_wf.apply n)

-- One turn of the loop, with more digits to come and with the last one.
pub decimal_loop_step :
    (n : ℕ) (a : Acc ◌<◌ n)
    → 9 < n
    → (a' : Acc ◌<◌ (n / 10)) × (decimal_loop n a
        ≡ decimal_loop (n / 10) a' ++ ((48 + n % 10) ∷ []))
unfolding decimal_loop
decimal_loop_step n (Acc.intro _ smaller) h = go (dec_lt 9 n)
  where
    go :
        (d : Dec (9 < n))
        → (a' : Acc ◌<◌ (n / 10)) × (dite d
              (λ big.
                decimal_loop (n / 10) (smaller _ (tenth_shrinks n big)) ++ ((48 + n % 10) ∷ []))
              (λ _. (48 + n) ∷ [])
            ≡ decimal_loop (n / 10) a' ++ ((48 + n % 10) ∷ []))
    go (yes big) = (smaller (n / 10) (tenth_shrinks n big), refl)
    go (no small) = absurd (small h)

pub decimal_loop_last : (n : ℕ) (a : Acc ◌<◌ n) → n ≤ 9 → decimal_loop n a ≡ (48 + n) ∷ []
unfolding decimal_loop
decimal_loop_last n (Acc.intro _ smaller) h = ground arith
