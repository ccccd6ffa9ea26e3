-- ===== src/Slice/Order.antt =====
-- `Slice::compare`, `operator==` and `starts_with` against the lexicographic order.
use mini_leveldb.Base.{◌≡◌, ◌↔◌, refl, true}
use mini_leveldb.Base.{[], ◌∷◌, ◌++◌, arith, ltb, if◌then◌else◌}
use mini_leveldb.Slice.{Slice, Sign, less, equal, greater, memcmp}
use mini_leveldb.Slice.{starts_with, slice_eq, compare}

-- The three-way lexicographic order on byte strings, a prefix before its extensions.
unfoldable pub lex : Slice → Slice → Sign
lex [] [] = equal
lex [] (y ∷ ys) = less
lex (x ∷ xs) [] = greater
lex (x ∷ xs) (y ∷ ys) =
    let rest = lex xs ys in if ltb x y then less else if ltb y x then greater else rest

pub lex_self : (a : Slice) → lex a a ≡ equal
unfolding lex
lex_self [] = refl
lex_self (x ∷ xs) = ground (arith, lex_self xs)

pub lex-equal→eq : (a b : Slice) → lex a b ≡ equal → a ≡ b
unfolding lex
lex-equal→eq [] [] h = refl
lex-equal→eq [] (y ∷ ys) h = cc
lex-equal→eq (x ∷ xs) [] h = cc
lex-equal→eq (x ∷ xs) (y ∷ ys) h = ground (arith, lex-equal→eq xs ys)

abbrev pub flip_sign : Sign → Sign
flip_sign less = greater
flip_sign equal = equal
flip_sign greater = less

pub lex_flip : (a b : Slice) → lex b a ≡ flip_sign (lex a b)
unfolding lex
lex_flip [] [] = refl
lex_flip [] (y ∷ ys) = refl
lex_flip (x ∷ xs) [] = refl
lex_flip (x ∷ xs) (y ∷ ys) = ground (arith, lex_flip xs ys)

pub lex_trans : (a b c : Slice) → lex a b ≡ less → lex b c ≡ less → lex a c ≡ less
unfolding lex
lex_trans [] [] c h k = cc
lex_trans [] (y ∷ ys) [] h k = cc
lex_trans [] (y ∷ ys) (z ∷ zs) h k = refl
lex_trans (x ∷ xs) [] c h k = cc
lex_trans (x ∷ xs) (y ∷ ys) [] h k = cc
lex_trans (x ∷ xs) (y ∷ ys) (z ∷ zs) h k = ground (arith, lex_trans xs ys zs)

-- A sign with the zero result replaced by +1.
abbrev pub never_equal : Sign → Sign
never_equal equal = greater
never_equal less = less
never_equal greater = greater

-- `Slice::compare` is the lexicographic order, except that it answers +1 on equal slices.
pub compare-lex : (a b : Slice) → compare a b ≡ never_equal (lex a b)
unfolding compare memcmp lex
compare-lex [] [] = refl
compare-lex [] (y ∷ ys) = ground arith
compare-lex (x ∷ xs) [] = ground arith
compare-lex (x ∷ xs) (y ∷ ys) = ground (arith, compare-lex xs ys)

slice_eq→eq : (x y : Slice) → slice_eq x y ≡ true → x ≡ y
unfolding slice_eq
slice_eq→eq [] [] h = refl
slice_eq→eq [] (y ∷ ys) h = ground arith
slice_eq→eq (x ∷ xs) [] h = ground arith
slice_eq→eq (x ∷ xs) (y ∷ ys) h = ground (arith, slice_eq→eq xs ys)

slice_eq_self : (x : Slice) → slice_eq x x ≡ true
unfolding slice_eq
slice_eq_self [] = refl
slice_eq_self (x ∷ xs) = ground (arith, slice_eq_self xs)

-- `operator==` on slices decides equality of the byte strings.
pub slice_eq_iff : (x y : Slice) → (slice_eq x y ≡ true) ↔ (x ≡ y)
slice_eq_iff x y = (slice_eq→eq x y, λ e. rw e (slice_eq_self y))

starts_with→prefix : (s x : Slice) → starts_with s x ≡ true → (rest : Slice) × (s ≡ x ++ rest)
unfolding starts_with
starts_with→prefix s [] h = (s, refl)
starts_with→prefix [] (y ∷ ys) h = absurd (ground arith)
starts_with→prefix (x ∷ xs) (y ∷ ys) h =
    let (rest, e) = starts_with→prefix xs ys (ground arith) in (rest, ground arith)

prefix→starts_with : (x rest : Slice) → starts_with (x ++ rest) x ≡ true
unfolding starts_with
prefix→starts_with [] [] = ground arith
prefix→starts_with [] (y ∷ ys) = ground arith
prefix→starts_with (x ∷ xs) rest = ground (arith, prefix→starts_with xs rest)

-- `starts_with` answers true exactly when the slice is the other one followed by some bytes.
pub starts_with_iff : (s x : Slice) → (starts_with s x ≡ true) ↔ ((rest : Slice) × (s ≡ x ++ rest))
starts_with_iff s x = (starts_with→prefix s x, λ (rest, e). rw e (prefix→starts_with x rest))
