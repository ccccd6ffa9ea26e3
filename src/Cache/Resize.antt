-- ===== src/Cache/Resize.antt =====
-- `Resize`: the new table finds what the old one did.
use mini_leveldb.Base.{
  ℕ, zero, suc, ◌+◌, ◌*◌, ◌%◌, ◌^◌, ◌<◌, ◌≤◌, ◌≡◌, refl, sym, ap, ◌∙◌, ◌⊎◌, inl, inr, arith, true,
  false, List, [], ◌∷◌, ◌++◌, none, some,
}
use mini_leveldb.Base.{
  lt→ltb, le→ltb, if◌then◌else◌, All, All-map, All-both, length, get_or, set, replicate, Bool-cases,
  get_or-replicate,
}
use mini_leveldb.Base.Bits.{two_pow-suc}
use mathlib.Core.Path.{subst}
use native.Mathlib.Decide.{dec_lt}
use mini_leveldb.Slice.{Slice}
use mini_leveldb.Cache.{
  LruHandle, HandleTable, is_entry, find_in, bucket_of, grow_length, move_bucket, move_buckets,
  resize, table_lookup,
}
use mini_leveldb.Cache.Table.{same_key, same_key→eq, same_key_sym, Unique}
use mini_leveldb.Cache.Buckets.{
  IsBuckets, lookup_in, set-lookup_in, set-IsBuckets, bucket_range, replicate-IsBuckets,
}
use mini_leveldb.Cache.Flat.{or_else, or_none, flat, PlacedFrom, find_in-flat, flat-Unique, others}

-- The loop of `Resize` ends at a power of two that is at least the number of entries, without a wrap.
pub grow_length_lem :
    (rounds bits elems : ℕ)
    → 31 ≤ rounds + bits
    → bits ≤ 31
    → elems ≤ 2 ^ 31
    → (bits' : ℕ) × (grow_length rounds (2 ^ bits) elems ≡ 2 ^ bits') × (elems ≤ 2 ^ bits')
unfolding grow_length
grow_length_lem zero bits elems r b e = let top : bits ≡ 31 = omega arith in (bits, refl, rw top e)
grow_length_lem (suc rounds) bits elems r b e = elim (dec_lt (2 ^ bits) elems) [
  | yes lt ↦ elim (dec_lt bits 31) [
    | yes room ↦
        let (bits', h, k) = grow_length_lem rounds (bits + 1) elems (omega arith) (omega arith) e in
        let fits : 2 ^ bits * 2 % 2 ^ 32 ≡ 2 ^ (bits + 1) = doubled bits lt in
        (bits', rw (lt→ltb (2 ^ bits) elems lt) (ap (λ x. grow_length rounds x elems) fits ∙ h), k)
    | no full ↦
        let top : bits ≡ 31 = omega arith in absurd (omega (arith, lt, e, ap (λ b. 2 ^ b) top))
  ]
  | no ge ↦ (bits, rw (le→ltb (2 ^ bits) elems (omega arith)) refl, omega arith)
]
  where
    doubled : (bits : ℕ) → 2 ^ bits < elems → 2 ^ bits * 2 % 2 ^ 32 ≡ 2 ^ (bits + 1)
    doubled bits lt =
        let next : bits + 1 ≡ suc bits = omega arith in
        omega (arith, lt, e, two_pow-suc bits, ap (λ b. 2 ^ b) next)

module _ (m : ℕ → LruHandle) (n : ℕ) where
  abbrev push : ℕ → List (List ℕ) → List (List ℕ)
  push x list = let i = bucket_of n (m x).hash in set list i (x ∷ get_or list i [])

  pub in_range :
      (list : List (List ℕ)) (hash : ℕ) → IsBuckets m n list → bucket_of n hash < length list
  in_range list hash w =
      let r = bucket_range w.bits hash in
      omega (arith, r, w.counted, w.sized, ap (λ k. bucket_of k hash) w.sized)

  push-lookup_in :
      (x : ℕ) (list : List (List ℕ)) (key : Slice) (hash : ℕ)
      → IsBuckets m n list
      → lookup_in m n (push x list) key hash
        ≡ (if same_key (m x).key (m x).hash key hash then some x else lookup_in m n list key hash)
  unfolding find_in is_entry
  push-lookup_in x list key hash w =
      set-lookup_in m n list (m x).key (m x).hash (x ∷ get_or list (bucket_of n (m x).hash) [])
        (some x) (in_range list (m x).hash w) key hash (λ key hash. refl)

  push-IsBuckets :
      (x : ℕ) (list : List (List ℕ))
      → IsBuckets m n list
      → lookup_in m n list (m x).key (m x).hash ≡ none
      → IsBuckets m n (push x list)
  push-IsBuckets x list w h =
      set-IsBuckets m n list (bucket_of n (m x).hash) _ (in_range list (m x).hash w) w
        (refl, w.placed (bucket_of n (m x).hash)) (h, w.unique (bucket_of n (m x).hash))

  -- The buckets after the moves of some entries, none of which was there.
  move_bucket-lookup_in :
      (xs : List ℕ) (list : List (List ℕ))
      → Unique m xs
      → All (λ y. lookup_in m n list (m y).key (m y).hash ≡ none) xs
      → IsBuckets m n list
      → IsBuckets m n (move_bucket m n xs list)
        × ((key : Slice) (hash : ℕ)
            → lookup_in m n (move_bucket m n xs list) key hash
              ≡ or_else (find_in m key hash xs) (lookup_in m n list key hash))
  unfolding move_bucket find_in is_entry
  move_bucket-lookup_in [] list u all w = (w, λ key hash. refl)
  move_bucket-lookup_in (x ∷ xs) list (first, u) (h, all) w =
      let fresh =
        All-both (λ y. same_key (m y).key (m y).hash (m x).key (m x).hash ≡ false)
          (λ y. lookup_in m n list (m y).key (m y).hash ≡ none)
          (λ y. lookup_in m n (push x list) (m y).key (m y).hash ≡ none)
          (λ y differ missing.
            let turned = same_key_sym (m x).key (m x).hash (m y).key (m y).hash ∙ differ in
            push-lookup_in x list (m y).key (m y).hash w ∙ rw turned missing)
          xs (others m (m x).key (m x).hash xs first) all in
      let (w', found) =
        move_bucket-lookup_in xs (push x list) u fresh (push-IsBuckets x list w h) in
      (
        w',
        λ key hash.
            found key hash
            ∙ ap (or_else (find_in m key hash xs)) (push-lookup_in x list key hash w)
            ∙ swapped key hash (Bool-cases (same_key (m x).key (m x).hash key hash)),
      )
    where
      swapped :
          (key : Slice) (hash : ℕ)
          → (same_key (m x).key (m x).hash key hash ≡ true)
            ⊎ (same_key (m x).key (m x).hash key hash ≡ false)
          → or_else (find_in m key hash xs) (
              if same_key (m x).key (m x).hash key hash
              then some x
              else lookup_in m n list key hash)
            ≡ or_else
                (if same_key (m x).key (m x).hash key hash then some x else find_in m key hash xs)
                (lookup_in m n list key hash)
      swapped key hash (inl s) =
          let (eh, ek) = same_key→eq (m x).key (m x).hash key hash s in
          let missing : find_in m key hash xs ≡ none =
            ap (λ (k : Slice). find_in m k hash xs) ek
            ∙ ap (λ y. find_in m (m x).key y xs) (sym eh)
            ∙ first in
          rw s (ap (λ o. or_else o (some x)) missing)
      swapped key hash (inr d) = rw d refl

  move_bucket-append :
      (b c : List ℕ) (list : List (List ℕ))
      → move_bucket m n (b ++ c) list ≡ move_bucket m n c (move_bucket m n b list)
  unfolding move_bucket
  move_bucket-append [] c list = refl
  move_bucket-append (x ∷ xs) c list = move_bucket-append xs c (push x list)

  pub move_buckets-flat :
      (bs list : List (List ℕ)) → move_buckets m n bs list ≡ move_bucket m n (flat bs) list
  unfolding move_bucket move_buckets
  move_buckets-flat [] list = refl
  move_buckets-flat (b ∷ bs) list =
      move_buckets-flat bs (move_bucket m n b list) ∙ sym (move_bucket-append b (flat bs) list)

everywhere {κ} : (P : ℕ → Type κ) → ((x : ℕ) → P x) → (xs : List ℕ) → All P xs
everywhere P f [] = tt
everywhere P f (x ∷ xs) = (f x, everywhere P f xs)

empty_bucket :
    (m : ℕ → LruHandle) (key : Slice) (hash : ℕ) (b : List ℕ) → b ≡ [] → find_in m key hash b ≡ none
unfolding find_in
empty_bucket m key hash b e = ap (find_in m key hash) e

-- `Resize` of a well-formed table of at most 2^31 entries makes a well-formed table of at least as many
-- buckets as entries, which finds the same entries.
pub resize-table_lookup :
    (m : ℕ → LruHandle) (t : HandleTable)
    → IsBuckets m t.length_ t.list
    → t.elems ≤ 2 ^ 31
    → IsBuckets m (resize m t).length_ (resize m t).list
      × (t.elems ≤ (resize m t).length_)
      × ((key : Slice) (hash : ℕ)
          → table_lookup m (resize m t) key hash ≡ table_lookup m t key hash)
unfolding resize table_lookup
resize-table_lookup m t w e =
    let (bits, grown, enough) = grow_length_lem 32 2 t.elems (omega arith) (omega arith) e in
    let n = grow_length 32 4 t.elems in
    let empty = replicate-IsBuckets m n bits grown in
    let from_0 : PlacedFrom m t.length_ 0 t.list = λ q.
      All-map (λ h. bucket_of t.length_ (m h).hash ≡ q)
        (λ h. bucket_of t.length_ (m h).hash ≡ 0 + q) (λ h e. omega (arith, e)) (get_or t.list q [])
        (w.placed q) in
    let nothing : (key : Slice) (hash : ℕ) → lookup_in m n (replicate n []) key hash ≡ none =
      λ key hash. empty_bucket m key hash _ (get_or-replicate n (bucket_of n hash) []) in
    let (w', found) =
      move_bucket-lookup_in m n (flat t.list) (replicate n [])
        (flat-Unique m t.length_ 0 t.list from_0 w.unique)
        (everywhere (λ y. lookup_in m n (replicate n []) (m y).key (m y).hash ≡ none)
          (λ y. nothing (m y).key (m y).hash) (flat t.list))
        empty in
    let same = move_buckets-flat m n t.list (replicate n []) in
    (
      subst (IsBuckets m n) (sym same) w',
      omega (arith, enough, grown),
      λ key hash.
          ap (λ l. lookup_in m n l key hash) same
          ∙ found key hash
          ∙ ap (or_else (find_in m key hash (flat t.list))) (nothing key hash)
          ∙ or_none (find_in m key hash (flat t.list))
          ∙ find_in-flat m t.length_ 0 (bucket_of t.length_ hash) key hash t.list from_0
              (omega arith),
    )
