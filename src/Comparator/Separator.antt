-- ===== src/Comparator/Separator.antt =====
-- The two methods of the bytewise comparator that shorten keys, against the lexicographic order.
use mini_leveldb.Base.{ℕ, suc, ◌+◌, ◌<◌, ◌≤◌, ◌≡◌, ◌≢◌, ◌&&◌}
use mini_leveldb.Base.{[], ◌∷◌, arith, ltb, ◌==◌, if◌then◌else◌, length, All}
use mini_leveldb.Base.{inl, inr, ◌⊎◌, Bool-cases}
use mini_leveldb.Slice.{Slice, IsByte, less, greater}
use mini_leveldb.Slice.Order.{lex, lex_self}
use mini_leveldb.Comparator.{diff_loop, raise_at, find_shortest_separator, find_short_successor}

diff_loop_from : (s l : Slice) (n : ℕ) → diff_loop s l n ≡ n + diff_loop s l 0
unfolding diff_loop
diff_loop_from [] l n = omega arith
diff_loop_from (x ∷ xs) [] n = omega arith
diff_loop_from (x ∷ xs) (y ∷ ys) n =
    ground (arith, diff_loop_from xs ys (n + 1), diff_loop_from xs ys (0 + 1))

diff_loop-cons : (x : ℕ) (s l : Slice) → diff_loop (x ∷ s) (x ∷ l) 0 ≡ suc (diff_loop s l 0)
unfolding diff_loop
diff_loop-cons x s l = ground (arith, diff_loop_from s l (0 + 1))

raise_at-cons :
    (x : ℕ) (s l : Slice) (d : ℕ) → raise_at (x ∷ s) (x ∷ l) (suc d) ≡ x ∷ raise_at s l d
unfolding raise_at
raise_at-cons x s l d = ground arith

-- A common first byte is kept, and the rest is treated alike.
separator-cons :
    (x : ℕ) (s l : Slice)
    → find_shortest_separator (x ∷ s) (x ∷ l) ≡ x ∷ find_shortest_separator s l
unfolding find_shortest_separator
separator-cons x s l = rw (diff_loop-cons x s l) (raise_at-cons x s l (diff_loop s l 0))

-- Where the first bytes differ, the loop stops at once.
separator_first :
    (x y : ℕ) (s l : Slice)
    → x < y
    → find_shortest_separator (x ∷ s) (y ∷ l)
      ≡ (if ltb x 0xff && ltb (x + 1) y then (x + 1) ∷ [] else x ∷ s)
unfolding find_shortest_separator
separator_first x y s l h = ground arith

lex-cons : (x : ℕ) (s l : Slice) → lex (x ∷ s) (x ∷ l) ≡ lex s l
unfolding lex
lex-cons x s l = ground arith

-- What the comment on `FindShortestSeparator` asks of a result, and that it does not grow.
pub record IsSeparator (start limit result : Slice) : Type 0 where
  pub from_start : lex start result ≢ greater
  pub below_limit : lex result limit ≡ less
  pub no_longer : length result ≤ length start

IsSeparator-cons : (x : ℕ) (s l r : Slice) → IsSeparator s l r → IsSeparator (x ∷ s) (x ∷ l) (x ∷ r)
IsSeparator-cons x s l r h = record {
  from_start = rw (lex-cons x s r) h.from_start;
  below_limit = rw (lex-cons x r l) h.below_limit;
  no_longer = omega (arith, h.no_longer);
}

IsSeparator-first :
    (x y : ℕ) (s l : Slice)
    → x < y
    → IsSeparator (x ∷ s) (y ∷ l) (if ltb x 0xff && ltb (x + 1) y then (x + 1) ∷ [] else x ∷ s)
IsSeparator-first x y s l h = record {
  from_start = unfold lex in ground (arith, lex_self s);
  below_limit = unfold lex in ground arith;
  no_longer = ground arith;
}

less_heads :
    (x y : ℕ) (s l : Slice) → lex (x ∷ s) (y ∷ l) ≡ less → (x < y) ⊎ ((x ≡ y) × (lex s l ≡ less))
unfolding lex
less_heads x y s l h = ground arith

-- For start below limit the separator is at least start, below limit, and no longer than start.
pub find_shortest_separator-IsSeparator :
    (start limit : Slice)
    → lex start limit ≡ less
    → IsSeparator start limit (find_shortest_separator start limit)
find_shortest_separator-IsSeparator [] [] h = absurd (unfold lex in cc)
find_shortest_separator-IsSeparator [] (y ∷ l) h = record {
  from_start = unfold lex find_shortest_separator in ground arith;
  below_limit = unfold lex find_shortest_separator in ground arith;
  no_longer = unfold find_shortest_separator in ground arith;
}
find_shortest_separator-IsSeparator (x ∷ s) [] h = absurd (unfold lex in cc)
find_shortest_separator-IsSeparator (x ∷ s) (y ∷ l) h = elim (less_heads x y s l h) [
  | inl lt ↦ rw (separator_first x y s l lt) (IsSeparator-first x y s l lt)
  | inr (e, lt) ↦
      rw (e, separator-cons y s l)
        (IsSeparator-cons y s l (find_shortest_separator s l)
          (find_shortest_separator-IsSeparator s l lt))
]

-- The short successor is at least the key, no longer than the key, and still a byte string.
pub successor_bounds :
    (key : Slice)
    → All IsByte key
    → (lex key (find_short_successor key) ≢ greater)
      × (length (find_short_successor key) ≤ length key)
      × All IsByte (find_short_successor key)
unfolding lex find_short_successor
successor_bounds [] h = (λ e. cc, omega arith, tt)
successor_bounds (x ∷ xs) (b, h) = elim (Bool-cases (x == 0xff)) [
  | inl e ↦ rw e (ground (arith, successor_bounds xs h))
  | inr e ↦ rw e (ground arith)
]
