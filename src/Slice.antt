-- ===== src/Slice.antt =====
-- include/slice.h: a slice is the list of the bytes that it points at, each below 256.
pub mod Order
use mini_leveldb.Base.{ℕ, zero, suc, ◌<◌, ◌≡◌, refl, Bool, true, false, ◌&&◌, List, [], ◌∷◌}
use mini_leveldb.Base.{ltb, leb, ◌==◌, if◌then◌else◌, length, drop}

abbrev pub Slice : Type 0
Slice = List ℕ

abbrev pub IsByte : ℕ → Type 0
IsByte b = b < 256

-- The sign of the int that a three-way comparison returns.
pub data Sign : Type 0 where
  less equal greater : Sign

-- memcmp on the first n bytes of two buffers that hold as many.
unfoldable pub memcmp : Slice → Slice → ℕ → Sign
memcmp (x ∷ xs) (y ∷ ys) (suc n) =
    let rest = memcmp xs ys n in if ltb x y then less else if ltb y x then greater else rest
memcmp _ _ _ = equal

abbrev pub is_equal : Sign → Bool
is_equal equal = true
is_equal _ = false

unfoldable pub remove_prefix : ℕ → Slice → Slice
remove_prefix n s = drop n s

unfoldable pub starts_with : Slice → Slice → Bool
unfolding memcmp
starts_with s x = leb (length x) (length s) && is_equal (memcmp s x (length x))

unfoldable pub slice_eq : Slice → Slice → Bool
unfolding memcmp
slice_eq x y = (length x == length y) && is_equal (memcmp x y (length x))

-- What `Slice::compare` does with a zero result of memcmp.
abbrev by_size : Sign → ℕ → ℕ → Sign
by_size equal m n = if ltb m n then less else greater
by_size less m n = less
by_size greater m n = greater

unfoldable pub compare : Slice → Slice → Sign
unfolding memcmp
compare a b =
    let min_size = if ltb (length b) (length a) then length b else length a in
    by_size (memcmp a b min_size) (length a) (length b)
