-- ===== src/Cache/Buckets.antt =====
-- The buckets of the hash table: a well-formed list of them, and a change of one of them.
use mini_leveldb.Base.{ℕ, ◌^◌, ◌<◌, ◌≡◌, ◌≢◌, refl, sym, ap, ◌∙◌, inl, inr, arith, List, [], Option}
use mini_leveldb.Base.{
  ◌==◌, if◌then◌else◌, All, length, get_or, set, replicate, Bool-cases, length-set,
  length-replicate, get_or-set_same, get_or-set_other, get_or-replicate,
}
use mini_leveldb.Base.Bits.{bit_and_low, two_pow_positive}
use native.Mathlib.Nat.{mod-lt}
use mathlib.Core.Path.{subst}
use mini_leveldb.Slice.{Slice}
use mini_leveldb.Cache.{LruHandle, find_in, bucket_of}
use mini_leveldb.Cache.Table.{same_key, same_key→eq, Unique}

-- There are 2^bits buckets, each entry is in the one of its hash, and no two are the same.
pub record IsBuckets (m : ℕ → LruHandle) (n : ℕ) (list : List (List ℕ)) : Type 0 where
  pub bits : ℕ
  pub sized : n ≡ 2 ^ bits
  pub counted : length list ≡ n
  pub placed : (i : ℕ) → All (λ h. bucket_of n (m h).hash ≡ i) (get_or list i [])
  pub unique : (i : ℕ) → Unique m (get_or list i [])

pub bucket_range : (bits hash : ℕ) → bucket_of (2 ^ bits) hash < 2 ^ bits
unfolding bucket_of
bucket_range bits hash = omega (arith, bit_and_low bits hash, mod-lt hash (two_pow_positive bits))

module _ (m : ℕ → LruHandle) (n : ℕ) where
  abbrev pub lookup_in : List (List ℕ) → Slice → ℕ → Option ℕ
  lookup_in list key hash = find_in m key hash (get_or list (bucket_of n hash) [])

  -- A change of the bucket of a key that changes what is found for that key only.
  pub set-lookup_in :
      (list : List (List ℕ)) (key' : Slice) (hash' : ℕ) (chain : List ℕ) (r : Option ℕ)
      → bucket_of n hash' < length list
      → (key : Slice) (hash : ℕ)
      → ((key : Slice) (hash : ℕ)
          → find_in m key hash chain ≡ (
              if same_key key' hash' key hash
              then r
              else find_in m key hash (get_or list (bucket_of n hash') [])))
      → lookup_in (set list (bucket_of n hash') chain) key hash
        ≡ (if same_key key' hash' key hash then r else lookup_in list key hash)
  set-lookup_in list key' hash' chain r low key hash h =
      elim (Bool-cases (bucket_of n hash' == bucket_of n hash)) [
        | inl s ↦
            let e : bucket_of n hash' ≡ bucket_of n hash = ground (arith, s) in
            ap (find_in m key hash) (
              ap (λ j. get_or (set list (bucket_of n hash') chain) j []) (sym e)
              ∙ get_or-set_same list (bucket_of n hash') chain [] low)
            ∙ h key hash
            ∙ ap
                (λ j.
                  if same_key key' hash' key hash then r else find_in m key hash (get_or list j []))
                e
        | inr d ↦
            let differ : bucket_of n hash' ≢ bucket_of n hash = λ e. ground (arith, d, e) in
            ap (find_in m key hash)
              (get_or-set_other list (bucket_of n hash') (bucket_of n hash) chain [] differ)
            ∙ elim (Bool-cases (same_key key' hash' key hash)) [
              | inl s ↦ absurd (differ (ap (bucket_of n) ((same_key→eq key' hash' key hash s).0)))
              | inr f ↦ rw f refl
            ]
      ]

  pub set-IsBuckets :
      (list : List (List ℕ)) (i : ℕ) (chain : List ℕ)
      → i < length list
      → IsBuckets m n list
      → All (λ h. bucket_of n (m h).hash ≡ i) chain
      → Unique m chain
      → IsBuckets m n (set list i chain)
  set-IsBuckets list i chain low w all u = record {
    bits = w.bits;
    sized = w.sized;
    counted = length-set list i chain ∙ w.counted;
    placed = λ j. elim (Bool-cases (i == j)) [
      | inl s ↦
          let e : i ≡ j = ground (arith, s) in
          subst (λ k. All (λ h. bucket_of n (m h).hash ≡ k) (get_or (set list i chain) k [])) e
            (subst (λ b. All (λ h. bucket_of n (m h).hash ≡ i) b)
              (sym (get_or-set_same list i chain [] low)) all)
      | inr d ↦
          subst (λ b. All (λ h. bucket_of n (m h).hash ≡ j) b)
            (sym (get_or-set_other list i j chain [] (λ e. ground (arith, d, e)))) (w.placed j)
    ];
    unique = λ j. elim (Bool-cases (i == j)) [
      | inl s ↦
          let e : i ≡ j = ground (arith, s) in
          subst (λ k. Unique m (get_or (set list i chain) k [])) e
            (subst (Unique m) (sym (get_or-set_same list i chain [] low)) u)
      | inr d ↦
          subst (Unique m) (sym (get_or-set_other list i j chain [] (λ e. ground (arith, d, e))))
            (w.unique j)
    ];
  }

  pub replicate-IsBuckets : (bits : ℕ) → n ≡ 2 ^ bits → IsBuckets m n (replicate n [])
  replicate-IsBuckets bits e = record {
    bits = bits;
    sized = e;
    counted = length-replicate n [];
    placed = λ i.
        subst (λ b. All (λ h. bucket_of n (m h).hash ≡ i) b) (sym (get_or-replicate n i [])) tt;
    unique = λ i. subst (Unique m) (sym (get_or-replicate n i [])) tt;
  }
