-- ===== src/Comparator.antt =====
-- include/comparator.h and util/comparator.cc: the comparator interface and the bytewise comparator.
pub mod Separator
use mini_leveldb.Base.{ℕ, zero, suc, ◌+◌, ◌-◌, ◌≡◌, Bool, true, false, ◌&&◌, List, [], ◌∷◌, min}
use mini_leveldb.Base.{ltb, leb, ◌==◌, if◌then◌else◌, length, get_or, set, take, not}
use mini_leveldb.Slice.{Slice, Sign, equal, less, greater}
use mini_leveldb.Slice.Order.{flip_sign}
use mini_leveldb.Slice

-- The abstract class `Comparator`; both `Find` methods return the string that they leave behind.
pub record Comparator : Type 0 where
  pub compare : Slice → Slice → Sign
  pub find_shortest_separator : Slice → Slice → Slice
  pub find_short_successor : Slice → Slice

-- What the comment on `Comparator::Compare` promises: a total order that answers zero exactly on
-- equal slices.
pub record IsThreeWay (c : Comparator) : Type 0 where
  pub self : (a : Slice) → c.compare a a ≡ equal
  pub eq_of_equal : (a b : Slice) → c.compare a b ≡ equal → a ≡ b
  pub flip : (a b : Slice) → c.compare b a ≡ flip_sign (c.compare a b)
  pub trans : (a b d : Slice) → c.compare a b ≡ less → c.compare b d ≡ less → c.compare a d ≡ less

-- The loop that finds the length of the common prefix: it stops at the end of either string.
pub diff_loop : Slice → Slice → ℕ → ℕ
diff_loop (x ∷ xs) (y ∷ ys) diff_index =
    let rest = diff_loop xs ys (diff_index + 1) in if x == y then rest else diff_index
diff_loop _ _ diff_index = diff_index

-- What follows the loop: the byte at the difference is raised, and the string is cut behind it.
pub raise_at : Slice → Slice → ℕ → Slice
raise_at start limit diff_index =
    let min_length = min (length start) (length limit) in
    if leb min_length diff_index
    then start
    else let diff_byte = get_or start diff_index 0 in
      if ltb diff_byte 0xff && ltb (diff_byte + 1) (get_or limit diff_index 0)
      then take (suc diff_index) (set start diff_index (diff_byte + 1))
      else start

pub find_shortest_separator : Slice → Slice → Slice
unfolding diff_loop raise_at
find_shortest_separator start limit = raise_at start limit (diff_loop start limit 0)

-- The loop keeps the bytes before its index, and cuts the string behind the byte that it raises.
pub find_short_successor : Slice → Slice
find_short_successor [] = []
find_short_successor (byte ∷ rest) =
    let rest' = find_short_successor rest in
    if not (byte == 0xff) then (byte + 1) ∷ [] else byte ∷ rest'

unfoldable pub bytewise_comparator : Comparator
unfolding find_shortest_separator find_short_successor
bytewise_comparator = record {
  compare = Slice.compare;
  find_shortest_separator = find_shortest_separator;
  find_short_successor = find_short_successor;
}
