-- ===== src/Bloom/NoMiss.antt =====
-- A Bloom filter against the keys that it was made of.
use mini_leveldb.Base.{get_or-set_same}
use mini_leveldb.Base.{
  ℕ, zero, suc, ◌+◌, ◌-◌, ◌*◌, ◌/◌, ◌%◌, ◌^◌, ◌≤◌, ◌<◌, ◌≡◌, refl, sym, ◌∙◌, arith, inl, inr,
}
use mini_leveldb.Base.{true, false, List, [], ◌∷◌, ◌++◌, bit_and, bit_or, ltb, if◌then◌else◌}
use mini_leveldb.Base.{
  length, get_or, set, replicate, length-set, length-replicate, length-append, drop_prefix,
  Bool-cases, le→ltb,
}
use mini_leveldb.Base.Bits.{
  bit_and-le-or, bit_or_comm, bit_and_self, zero-bit_and, two_pow_positive,
}
use native.Mathlib.Nat.{mod-lt}
use mathlib.Core.List.{Memᴰ}
use mini_leveldb.Slice.{Slice}
use mini_leveldb.FilterPolicy.{NeverMisses}
use mini_leveldb.Bloom.{
  bloom_hash, probes_for, rotate, set_bit, bit_is_clear, add_probes, add_keys, filter_bytes,
  create_filter, match_probes, key_may_match, bloom_filter_policy,
}

-- Some bit of `m` is set in the byte.
abbrev Meets : ℕ → ℕ → Type 0
Meets x m = 0 < bit_and x m

Meets-bit_or : (x y m : ℕ) → Meets x m → Meets (bit_or x y) m
Meets-bit_or x y m h = omega (arith, bit_and-le-or x y m)

bit_or-Meets : (x m : ℕ) → 0 < m → Meets (bit_or x m) m
bit_or-Meets x m h = rw (bit_or_comm x m) (omega (arith, bit_and-le-or m x m, bit_and_self m))

-- Setting more bits of one byte clears none of any byte.
or_into :
    (xs : Slice) (i j y m : ℕ)
    → Meets (get_or xs j 0) m
    → Meets (get_or (set xs i (bit_or (get_or xs i 0) y)) j 0) m
or_into [] i j y m h = h
or_into (x ∷ xs) zero zero y m h = Meets-bit_or x y m h
or_into (x ∷ xs) zero (suc j) y m h = h
or_into (x ∷ xs) (suc i) zero y m h = h
or_into (x ∷ xs) (suc i) (suc j) y m h = or_into xs i j y m h

-- The bit at a position is set.
abbrev HasBit : Slice → ℕ → Type 0
HasBit array bitpos = Meets (get_or array (bitpos / 8) 0) (2 ^ (bitpos % 8))

HasBit→clear : (array : Slice) (p : ℕ) → HasBit array p → bit_is_clear array p ≡ false
unfolding bit_is_clear
HasBit→clear array p h = ground arith

clear→HasBit : (array : Slice) (p : ℕ) → bit_is_clear array p ≡ false → HasBit array p
unfolding bit_is_clear
clear→HasBit array p h = ground arith

-- Every bit of the first array is set in the second.
abbrev Grows : Slice → Slice → Type 0
Grows a b = (q : ℕ) → HasBit a q → HasBit b q

set_bit-Grows : (array : Slice) (p : ℕ) → Grows array (set_bit array p)
unfolding set_bit
set_bit-Grows array p q h = or_into array (p / 8) (q / 8) (2 ^ (p % 8)) (2 ^ (q % 8)) h

set_bit-HasBit : (array : Slice) (p : ℕ) → p < length array * 8 → HasBit (set_bit array p) p
unfolding set_bit
set_bit-HasBit array p h =
    rw
      (get_or-set_same array (p / 8) (bit_or (get_or array (p / 8) 0) (2 ^ (p % 8))) 0
        (omega arith))
      (bit_or-Meets (get_or array (p / 8) 0) (2 ^ (p % 8)) (two_pow_positive (p % 8)))

length-set_bit : (array : Slice) (p : ℕ) → length (set_bit array p) ≡ length array
unfolding set_bit
length-set_bit array p = length-set array _ _

-- The array is followed by the count of the probes.
append-Grows : (array ys : Slice) → Grows array (array ++ ys)
append-Grows array ys q h = at_byte array ys (q / 8) (2 ^ (q % 8)) h
  where
    at_byte : (xs ys : Slice) (i m : ℕ) → Meets (get_or xs i 0) m → Meets (get_or (xs ++ ys) i 0) m
    at_byte [] ys i m h = absurd (omega (arith, zero-bit_and m))
    at_byte (x ∷ xs) ys zero m h = h
    at_byte (x ∷ xs) ys (suc i) m h = at_byte xs ys i m h

module _ (bits delta : ℕ) where
  add_probes-Grows : (left h : ℕ) (array : Slice) → Grows array (add_probes bits delta left h array)
  unfolding add_probes
  add_probes-Grows zero h array q b = b
  add_probes-Grows (suc left) h array q b =
      add_probes-Grows left ((h + delta) % 2 ^ 32) (set_bit array (h % bits)) q
        (set_bit-Grows array (h % bits) q b)

  length-add_probes :
      (left h : ℕ) (array : Slice) → length (add_probes bits delta left h array) ≡ length array
  unfolding add_probes
  length-add_probes zero h array = refl
  length-add_probes (suc left) h array =
      length-add_probes left ((h + delta) % 2 ^ 32) (set_bit array (h % bits))
      ∙ length-set_bit array (h % bits)

  -- What matches an array matches one with more bits.
  match_probes_grow :
      (left h : ℕ) (a b : Slice)
      → Grows a b
      → match_probes bits delta left h a ≡ true
      → match_probes bits delta left h b ≡ true
  unfolding match_probes
  match_probes_grow zero h a b g e = refl
  match_probes_grow (suc left) h a b g e = elim (Bool-cases (bit_is_clear a (h % bits))) [
    | inl clear ↦ absurd (ground (arith, e, clear))
    | inr found ↦
        let kept = HasBit→clear b (h % bits) (g (h % bits) (clear→HasBit a (h % bits) found)) in
        rw kept (match_probes_grow left ((h + delta) % 2 ^ 32) a b g (rw found at e))
  ]

  -- The probes that were added match.
  match-add_probes :
      (left h : ℕ) (array : Slice)
      → 0 < bits
      → bits ≡ length array * 8
      → match_probes bits delta left h (add_probes bits delta left h array) ≡ true
  unfolding match_probes add_probes
  match-add_probes zero h array pos size = refl
  match-add_probes (suc left) h array pos size =
      let p = h % bits in
      let h' = (h + delta) % 2 ^ 32 in
      let a = set_bit array p in
      let own =
        add_probes-Grows left h' a p (set_bit-HasBit array p (omega (arith, mod-lt h pos))) in
      rw (HasBit→clear (add_probes bits delta left h' a) p own)
        (match-add_probes left h' a pos (omega (arith, length-set_bit array p)))

module _ (bits k : ℕ) where
  add_keys-Grows : (keys : List Slice) (array : Slice) → Grows array (add_keys bits k keys array)
  unfolding add_keys
  add_keys-Grows [] array q h = h
  add_keys-Grows (key ∷ keys) array q h =
      add_keys-Grows keys (add_probes bits (rotate (bloom_hash key)) k (bloom_hash key) array) q
        (add_probes-Grows bits (rotate (bloom_hash key)) k (bloom_hash key) array q h)

  length-add_keys :
      (keys : List Slice) (array : Slice) → length (add_keys bits k keys array) ≡ length array
  unfolding add_keys
  length-add_keys [] array = refl
  length-add_keys (key ∷ keys) array =
      length-add_keys keys (add_probes bits (rotate (bloom_hash key)) k (bloom_hash key) array)
      ∙ length-add_probes bits (rotate (bloom_hash key)) k (bloom_hash key) array

  -- Every key that was added matches the array that is left.
  match-add_keys :
      {key : Slice} {keys : List Slice}
      → Memᴰ key keys
      → (array : Slice) → 0 < bits
      → bits ≡ length array * 8
      → match_probes bits (rotate (bloom_hash key)) k (bloom_hash key) (add_keys bits k keys array)
        ≡ true
  unfolding add_keys
  match-add_keys {key} (Memᴰ.head {x = x} {xs = keys} e) array pos size =
      let h = bloom_hash x in
      let added = add_probes bits (rotate h) k h array in
      rw e (
        match_probes_grow bits (rotate h) k h added (add_keys bits k keys added)
          (add_keys-Grows keys added) (match-add_probes bits (rotate h) k h array pos size))
  match-add_keys (Memᴰ.tail {x = x} m) array pos size =
      let h = bloom_hash x in
      match-add_keys m (add_probes bits (rotate h) k h array) pos
        (size ∙ omega (arith, length-add_probes bits (rotate h) k h array))

probes_for_bound : (bits_per_key : ℕ) → probes_for bits_per_key ≤ 30
unfolding probes_for
probes_for_bound bits_per_key = ground arith

-- For ints the sizes do not wrap, and the filter has eight bytes at least.
filter_bytes_positive :
    (n bits_per_key : ℕ) → n < 2 ^ 31 → bits_per_key < 2 ^ 31 → 8 ≤ filter_bytes n bits_per_key
unfolding filter_bytes
filter_bytes_positive n bits_per_key h k = no_wrap (n * bits_per_key) (grind arith)
  where
    no_wrap :
        (x : ℕ)
        → x < 2 ^ 62
        → 8 ≤ ((if ltb (x % 2 ^ 64) 64 then 64 else x % 2 ^ 64) + 7) % 2 ^ 64 / 8
    no_wrap x small = ground arith

get_or_last : (xs : Slice) (v : ℕ) → get_or (xs ++ (v ∷ [])) (length xs) 0 ≡ v
get_or_last [] v = refl
get_or_last (x ∷ xs) v = get_or_last xs v

-- `KeyMayMatch` on an array and the count of its probes.
answer :
    (key array : Slice) (k bytes : ℕ)
    → length array ≡ bytes
    → 1 ≤ bytes
    → k ≤ 30
    → match_probes (bytes * 8) (rotate (bloom_hash key)) k (bloom_hash key) (array ++ (k ∷ []))
      ≡ true
    → key_may_match key (array ++ (k ∷ [])) ≡ true
unfolding key_may_match
answer key array k bytes size pos few h =
    let len = length-append array (k ∷ []) in
    let front : length (array ++ (k ∷ [])) - 1 ≡ bytes = omega (arith, len, size) in
    let last : get_or (array ++ (k ∷ [])) bytes 0 ≡ k = rw (sym size) (get_or_last array k) in
    rw
      (
        front,
        last,
        h,
        le→ltb (length (array ++ (k ∷ []))) 2 (omega (arith, len, size)),
        le→ltb 30 k few,
      )
      refl

-- The Bloom filter policy answers true to every key that its filter was made of: no false negatives,
-- for every number of bits per key that an int can hold.
pub bloom_filter_policy-NeverMisses :
    (bits_per_key : ℕ) → bits_per_key < 2 ^ 31 → NeverMisses (bloom_filter_policy bits_per_key)
unfolding bloom_filter_policy create_filter key_may_match
bloom_filter_policy-NeverMisses bits_per_key hb keys dst key few m =
    let bytes = filter_bytes (length keys) bits_per_key in
    let k = probes_for bits_per_key in
    let empty : Slice = replicate bytes 0 in
    let sized : length empty ≡ bytes = length-replicate {A = ℕ} bytes 0 in
    let array = add_keys (bytes * 8) k keys empty in
    let positive = filter_bytes_positive (length keys) bits_per_key few hb in
    let size : length array ≡ bytes = length-add_keys (bytes * 8) k keys empty ∙ sized in
    let matched = match-add_keys (bytes * 8) k m empty (omega arith) (omega (arith, sized)) in
    let h = bloom_hash key in
    let whole =
      match_probes_grow (bytes * 8) (rotate h) k h array (array ++ (k ∷ []))
        (append-Grows array (k ∷ [])) matched in
    rw (drop_prefix (length dst) dst (array ++ (k ∷ [])) refl)
      (answer key array k bytes size (omega arith) (probes_for_bound bits_per_key) whole)
