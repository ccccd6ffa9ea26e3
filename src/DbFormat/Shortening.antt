-- ===== src/DbFormat/Shortening.antt =====
-- The shortening of internal keys, over any comparator of user keys.
use mini_leveldb.Base.{◌+◌, ◌-◌, ◌≤◌, ◌<◌, ◌≡◌, ◌≢◌, refl, ◌⊎◌, arith, false, ◌&&◌, inl, inr}
use mini_leveldb.Base.{ltb, length, length-append, Bool-cases, length-take}
use mini_leveldb.Slice.{Slice, Sign, less, equal, greater, is_equal}
use mini_leveldb.Coding.{put_fixed64, encode_fixed64}
use mini_leveldb.Comparator.{Comparator, IsThreeWay}
use mini_leveldb.DbFormat.{
  pack_sequence_and_type, extract_user_key, internal_compare, is_less, replace_if_shorter,
  internal_shortest_separator, internal_short_successor, max_sequence_number, type_value,
}
use mini_leveldb.DbFormat.Keys.{length-encode_fixed64, front_of}

-- What `FindShortestSeparator` of the user's comparator promises beyond its guard.
pub record IsShortening (c : Comparator) : Type 0 where
  pub below_limit :
      (start limit : Slice)
      → c.compare start limit ≡ less
      → c.compare (c.find_shortest_separator start limit) limit ≡ less

-- Where the user keys differ, they alone decide.
differs :
    (c : Comparator) (a b : Slice) (s : Sign)
    → c.compare (extract_user_key a) (extract_user_key b) ≡ s
    → is_equal s ≡ false
    → internal_compare c a b ≡ s
unfolding internal_compare
differs c a b s h n = rw (h, n) refl

shorter :
    (key tmp : Slice) → length tmp < length (extract_user_key key) → length tmp + 8 ≤ length key
unfolding extract_user_key
shorter key tmp h = omega (arith, length-take (length key - 8) key)

module _ (c : Comparator) where
  -- Either the key is kept, or the replacement has the shorter and larger user key.
  replaced :
      (key tmp : Slice)
      → (replace_if_shorter c key tmp ≡ key)
        ⊎ ((extract_user_key (replace_if_shorter c key tmp) ≡ tmp)
            × (c.compare (extract_user_key key) tmp ≡ less)
            × (length (replace_if_shorter c key tmp) ≤ length key))
  unfolding replace_if_shorter extract_user_key put_fixed64
  replaced key tmp =
      let tag = pack_sequence_and_type max_sequence_number type_value in
      elim (Bool-cases (
        ltb (length tmp) (length (extract_user_key key))
        && is_less (c.compare (extract_user_key key) tmp))) [
          | inr kept ↦ inl (rw kept refl)
          | inl made ↦ rw made (
              inr (
                front_of tmp (encode_fixed64 tag) (length-encode_fixed64 tag),
                ground (arith, made),
                omega (
                  arith,
                  length-append tmp (encode_fixed64 tag),
                  length-encode_fixed64 tag,
                  shorter key tmp (ground (arith, made)),
                ),
              ))
        ]

  self_compare : IsThreeWay c → (a : Slice) → internal_compare c a a ≡ equal
  unfolding internal_compare
  self_compare laws a = rw (laws.self (extract_user_key a)) (ground arith)

  -- `FindShortSuccessor` of the internal comparator returns a key that is at least the one given, and
  -- no longer, whatever the user's comparator makes of the user key; over a three-way comparator.
  pub internal_short_successor_bounds :
      IsThreeWay c
      → (key : Slice)
      → (internal_compare c key (internal_short_successor c key) ≢ greater)
        × (length (internal_short_successor c key) ≤ length key)
  unfolding internal_short_successor
  internal_short_successor_bounds laws key =
      elim (replaced key (c.find_short_successor (extract_user_key key))) [
        | inl kept ↦ rw kept (ground (arith, self_compare laws key))
        | inr (front, larger, size) ↦ (
          ground (
            arith,
            differs c key (replace_if_shorter c key (c.find_short_successor (extract_user_key key)))
                less (rw front larger) refl,
          ),
          size,
        )
      ]

  -- For a start whose user key is below that of the limit, `FindShortestSeparator` of the internal
  -- comparator returns a key that is at least the start, below the limit, and no longer than the
  -- start: what its assertions say; over a three-way comparator that keeps its own promise.
  pub internal_shortest_separator_bounds :
      IsThreeWay c
      → IsShortening c
      → (start limit : Slice) → c.compare (extract_user_key start) (extract_user_key limit) ≡ less
      → (internal_compare c start (internal_shortest_separator c start limit) ≢ greater)
        × (internal_compare c (internal_shortest_separator c start limit) limit ≡ less)
        × (length (internal_shortest_separator c start limit) ≤ length start)
  unfolding internal_shortest_separator
  internal_shortest_separator_bounds laws promise start limit h =
      let tmp = c.find_shortest_separator (extract_user_key start) (extract_user_key limit) in
      let r = replace_if_shorter c start tmp in
      elim (replaced start tmp) [
        | inl kept ↦ rw kept (
          ground (arith, self_compare laws start),
          differs c start limit less h refl,
          omega arith,
        )
        | inr (front, larger, size) ↦ (
          ground (arith, differs c start r less (rw front larger) refl),
          differs c r limit less
              (rw front (promise.below_limit (extract_user_key start) (extract_user_key limit) h))
              refl,
          size,
        )
      ]
