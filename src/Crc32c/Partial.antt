-- ===== src/Crc32c/Partial.antt =====
-- util/crc32c.cc: what the partial results of the strides stand for, and what their loops keep.
use mini_leveldb.Base.{ℕ, zero, suc, ◌^◌, ◌≤◌, ◌<◌, ◌≡◌, refl, sym, ap, ◌∙◌, arith}
use mini_leveldb.Base.{[], ◌∷◌, ◌++◌, bit_xor, leb, inl, inr, Bool-cases}
use mini_leveldb.Base.{length, drop, All, All-drop, length-drop, drop-drop}
use mini_leveldb.Base.Xor.{bit_xor_comm, bit_xor_assoc, bit_xor_left_comm, zero-bit_xor, bit_xor-lt}
use mini_leveldb.Slice.{Slice, IsByte}
use mini_leveldb.Coding.{decode_fixed32}
use mini_leveldb.Crc32c.Extend.{Strides, step1_loop, step4, step16, swath_loop, word_loop, combine}
use mini_leveldb.Crc32c.Bitwise.{
  digit_steps, digit_steps_linear, digit_steps_add, digit_steps-lt, byte_loop,
}
use mini_leveldb.Crc32c.Steps.{step1_lem, step4_lem, step4w_lem, word_front, decode_fixed32-lt}

pub step1_loop_lem : (l : ℕ) (p : Slice) → All IsByte p → step1_loop l p ≡ byte_loop l p
unfolding step1_loop byte_loop
step1_loop_lem l [] bs = refl
step1_loop_lem l (b ∷ p) (hb, bs) =
    ap (λ (t : ℕ). step1_loop t p) (step1_lem l b hb)
    ∙ step1_loop_lem (digit_steps 8 (bit_xor l b)) p bs

pub byte_loop-append :
    (l : ℕ) (xs ys : Slice) → byte_loop l (xs ++ ys) ≡ byte_loop (byte_loop l xs) ys
unfolding byte_loop
byte_loop-append l [] ys = refl
byte_loop-append l (b ∷ xs) ys = byte_loop-append (digit_steps 8 (bit_xor l b)) xs ys

pub byte_loop-lt : (l : ℕ) (p : Slice) → l < 2 ^ 32 → All IsByte p → byte_loop l p < 2 ^ 32
unfolding byte_loop
byte_loop-lt l [] h bs = h
byte_loop-lt l (b ∷ p) h (hb, bs) =
    byte_loop-lt (digit_steps 8 (bit_xor l b)) p
      (digit_steps-lt 8 (bit_xor l b) (bit_xor-lt 32 l b h (omega arith))) bs

pub record IsWords (s : Strides) : Type 0 where
  pub crc0_lt : s.crc0 < 2 ^ 32
  pub crc1_lt : s.crc1 < 2 ^ 32
  pub crc2_lt : s.crc2 < 2 ^ 32
  pub crc3_lt : s.crc3 < 2 ^ 32

-- A word goes into the first partial result, which then becomes the last.
abbrev turn_strides : Strides → ℕ → Strides
turn_strides s w = record { crc0 = s.crc1; crc1 = s.crc2; crc2 = s.crc3; crc3 = step4 s.crc0 w }

turn_strides-IsWords : (s : Strides) (w : ℕ) → IsWords s → w < 2 ^ 32 → IsWords (turn_strides s w)
turn_strides-IsWords s w h k = record {
  crc0_lt = h.crc1_lt;
  crc1_lt = h.crc2_lt;
  crc2_lt = h.crc3_lt;
  crc3_lt =
      rw (step4_lem s.crc0 w h.crc0_lt)
        (bit_xor-lt 32 w (digit_steps 128 s.crc0) k (digit_steps-lt 128 s.crc0 h.crc0_lt));
}

pub combine_lem :
    (s : Strides)
    → combine s
      ≡ digit_steps 32 (
          bit_xor
            (digit_steps 32 (
              bit_xor (digit_steps 32 (bit_xor (digit_steps 32 (bit_xor 0 s.crc0)) s.crc1)) s.crc2))
            s.crc3)
unfolding combine
combine_lem s = rw (
  step4w_lem 0 s.crc0,
  step4w_lem (digit_steps 32 (bit_xor 0 s.crc0)) s.crc1,
  step4w_lem (digit_steps 32 (bit_xor (digit_steps 32 (bit_xor 0 s.crc0)) s.crc1)) s.crc2,
  step4w_lem
      (digit_steps 32
        (bit_xor (digit_steps 32 (bit_xor (digit_steps 32 (bit_xor 0 s.crc0)) s.crc1)) s.crc2))
      s.crc3,
)

-- The partial results, each as many digits down as its place says.
combine_sum :
    (s : Strides)
    → combine s
      ≡ bit_xor
          (bit_xor
            (bit_xor (digit_steps 128 s.crc0) (digit_steps 96 s.crc1))
            (digit_steps 64 s.crc2))
          (digit_steps 32 s.crc3)
combine_sum s =
    combine_lem s
    ∙ rw (
      zero-bit_xor s.crc0,
      digit_steps_linear 32 (digit_steps 32 s.crc0) s.crc1,
      ← digit_steps_add 32 32 s.crc0,
      digit_steps_linear 32 (bit_xor (digit_steps 64 s.crc0) (digit_steps 32 s.crc1)) s.crc2,
      digit_steps_linear 32 (digit_steps 64 s.crc0) (digit_steps 32 s.crc1),
      ← digit_steps_add 64 32 s.crc0,
      ← digit_steps_add 32 32 s.crc1,
      digit_steps_linear 32
          (bit_xor (bit_xor (digit_steps 96 s.crc0) (digit_steps 64 s.crc1))
            (digit_steps 32 s.crc2))
          s.crc3,
      digit_steps_linear 32 (bit_xor (digit_steps 96 s.crc0) (digit_steps 64 s.crc1))
          (digit_steps 32 s.crc2),
      digit_steps_linear 32 (digit_steps 96 s.crc0) (digit_steps 64 s.crc1),
      ← digit_steps_add 96 32 s.crc0,
      ← digit_steps_add 64 32 s.crc1,
      ← digit_steps_add 32 32 s.crc2,
    )

to_front :
    (a b c d e : ℕ)
    → bit_xor (bit_xor (bit_xor b c) d) (bit_xor e a)
      ≡ bit_xor (bit_xor (bit_xor (bit_xor a b) c) d) e
to_front a b c d e = rw (
  bit_xor_assoc a b c,
  bit_xor_assoc a (bit_xor b c) d,
  bit_xor_assoc a (bit_xor (bit_xor b c) d) e,
  bit_xor_left_comm (bit_xor (bit_xor b c) d) e a,
  bit_xor_comm (bit_xor (bit_xor b c) d) a,
  bit_xor_left_comm e a (bit_xor (bit_xor b c) d),
  bit_xor_comm e (bit_xor (bit_xor b c) d),
)

-- A word in the first partial result is a word after all that the partial results stand for.
combine-turn_strides :
    (s : Strides) (w : ℕ)
    → s.crc0 < 2 ^ 32
    → combine (turn_strides s w) ≡ digit_steps 32 (bit_xor (combine s) w)
combine-turn_strides s w h =
    rw
      (
        combine_sum (turn_strides s w),
        combine_sum s,
        step4_lem s.crc0 w h,
        digit_steps_linear 32 w (digit_steps 128 s.crc0),
        digit_steps_linear 32
            (bit_xor
              (bit_xor (bit_xor (digit_steps 128 s.crc0) (digit_steps 96 s.crc1))
                (digit_steps 64 s.crc2))
              (digit_steps 32 s.crc3))
            w,
        digit_steps_linear 32
            (bit_xor (bit_xor (digit_steps 128 s.crc0) (digit_steps 96 s.crc1))
              (digit_steps 64 s.crc2))
            (digit_steps 32 s.crc3),
        digit_steps_linear 32 (bit_xor (digit_steps 128 s.crc0) (digit_steps 96 s.crc1))
            (digit_steps 64 s.crc2),
        digit_steps_linear 32 (digit_steps 128 s.crc0) (digit_steps 96 s.crc1),
        ← digit_steps_add 96 32 s.crc1,
        ← digit_steps_add 64 32 s.crc2,
        ← digit_steps_add 32 32 s.crc3,
      )
      (to_front (digit_steps 32 (digit_steps 128 s.crc0)) (digit_steps 128 s.crc1)
        (digit_steps 96 s.crc2) (digit_steps 64 s.crc3) (digit_steps 32 w))

-- What a loop of `extend_strides` keeps of the partial results `s` and the bytes `p` in `r`.
pub record Keeps (s : Strides) (p : Slice) (r : Strides × Slice) : Type 0 where
  pub same : byte_loop (combine r.0) r.1 ≡ byte_loop (combine s) p
  pub words : IsWords r.0
  pub bytes : All IsByte r.1

turn_strides-Keeps :
    (s : Strides) (p : Slice)
    → IsWords s
    → All IsByte p
    → 4 ≤ length p
    → Keeps s p (turn_strides s (decode_fixed32 p), drop 4 p)
turn_strides-Keeps s p ws bs h = record {
  same =
      ap (λ (t : ℕ). byte_loop t (drop 4 p)) (combine-turn_strides s (decode_fixed32 p) ws.crc0_lt)
      ∙ sym (word_front (combine s) p bs h);
  words = turn_strides-IsWords s (decode_fixed32 p) ws (decode_fixed32-lt p bs h);
  bytes = All-drop IsByte 4 p bs;
}

pub Keeps-trans :
    {s s' : Strides} {p p' : Slice} {r : Strides × Slice}
    → Keeps s p (s', p')
    → Keeps s' p' r
    → Keeps s p r
Keeps-trans k l = record { same = l.same ∙ k.same; words = l.words; bytes = l.bytes }

pub word_loop-Keeps :
    (fuel : ℕ) (s : Strides) (p : Slice) → IsWords s → All IsByte p → Keeps s p (word_loop fuel s p)
unfolding word_loop
word_loop-Keeps zero s p ws bs = record { same = refl; words = ws; bytes = bs }
word_loop-Keeps (suc fuel) s p ws bs = elim (Bool-cases (leb 4 (length p))) [
  | inl more ↦
      let k = turn_strides-Keeps s p ws bs (ground (arith, more)) in
      rw more (Keeps-trans k (word_loop-Keeps fuel _ _ k.words k.bytes))
  | inr done ↦ rw done (record { same = refl; words = ws; bytes = bs })
]

-- Sixteen bytes are four words, one for each partial result.
step16-Keeps :
    (s : Strides) (p : Slice)
    → IsWords s
    → All IsByte p
    → 16 ≤ length p
    → Keeps s p (step16 s p, drop 16 p)
unfolding step16
step16-Keeps s p ws bs h =
    let rest = λ (n : ℕ). All-drop IsByte n p bs in
    let s1 : Strides = turn_strides s (decode_fixed32 p) in
    let s2 : Strides = turn_strides s1 (decode_fixed32 (drop 4 p)) in
    let s3 : Strides = turn_strides s2 (decode_fixed32 (drop 8 p)) in
    let k1 = turn_strides-Keeps s p ws bs (omega arith) in
    let k2 = turn_strides-Keeps s1 (drop 4 p) k1.words (rest 4) (omega (arith, length-drop 4 p)) in
    let k3 = turn_strides-Keeps s2 (drop 8 p) k2.words (rest 8) (omega (arith, length-drop 8 p)) in
    let k4 =
      turn_strides-Keeps s3 (drop 12 p) k3.words (rest 12) (omega (arith, length-drop 12 p)) in
    Keeps-trans k1 (
      Keeps-trans (rw (drop-drop 4 4 p) at k2)
        (Keeps-trans (rw (drop-drop 4 8 p) at k3) (rw (drop-drop 4 12 p) at k4)))

pub swath_loop-Keeps :
    (fuel : ℕ) (s : Strides) (p : Slice)
    → IsWords s
    → All IsByte p
    → Keeps s p (swath_loop fuel s p)
unfolding swath_loop
swath_loop-Keeps zero s p ws bs = record { same = refl; words = ws; bytes = bs }
swath_loop-Keeps (suc fuel) s p ws bs = elim (Bool-cases (leb 16 (length p))) [
  | inl more ↦
      let k = step16-Keeps s p ws bs (ground (arith, more)) in
      rw more (Keeps-trans k (swath_loop-Keeps fuel _ _ k.words k.bytes))
  | inr done ↦ rw done (record { same = refl; words = ws; bytes = bs })
]
