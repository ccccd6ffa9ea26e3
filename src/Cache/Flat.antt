-- ===== src/Cache/Flat.antt =====
-- The entries of all the buckets in one list, and the search in it.
use mini_leveldb.Base.{
  ℕ, zero, suc, ◌+◌, ◌<◌, ◌≡◌, ◌≢◌, refl, sym, ap, ◌∙◌, inl, inr, arith, false, List, [], ◌∷◌, ◌++◌,
  Option, none, some,
}
use mini_leveldb.Base.{All, All-map, get_or, Bool-cases}
use mini_leveldb.Slice.{Slice}
use mini_leveldb.Cache.{LruHandle, is_entry, find_in, bucket_of}
use mini_leveldb.Cache.Table.{same_key, same_key→eq, Unique}

abbrev pub or_else : Option ℕ → Option ℕ → Option ℕ
or_else none o = o
or_else (some x) o = some x

pub or_none : (o : Option ℕ) → or_else o none ≡ o
or_none none = refl
or_none (some x) = refl

-- All entries of the table, bucket by bucket.
abbrev pub flat : List (List ℕ) → List ℕ
flat [] = []
flat (b ∷ bs) = b ++ flat bs

module _ (m : ℕ → LruHandle) where
  find_in-append :
      (key : Slice) (hash : ℕ) (b c : List ℕ)
      → find_in m key hash (b ++ c) ≡ or_else (find_in m key hash b) (find_in m key hash c)
  unfolding find_in
  find_in-append key hash [] c = refl
  find_in-append key hash (x ∷ xs) c = elim (Bool-cases (is_entry key hash (m x))) [
    | inl s ↦ rw s refl
    | inr d ↦ rw d (find_in-append key hash xs c)
  ]

  -- Entries of another bucket are passed by.
  find_in-bucket :
      (n i : ℕ) (key : Slice) (hash : ℕ) (b : List ℕ)
      → All (λ h. bucket_of n (m h).hash ≡ i) b
      → bucket_of n hash ≢ i
      → find_in m key hash b ≡ none
  unfolding find_in is_entry
  find_in-bucket n i key hash [] all d = refl
  find_in-bucket n i key hash (x ∷ xs) (h, all) d =
      elim (Bool-cases (same_key (m x).key (m x).hash key hash)) [
        | inl s ↦
            absurd
              (d (ap (bucket_of n) (sym ((same_key→eq (m x).key (m x).hash key hash s).0)) ∙ h))
        | inr f ↦ rw f (find_in-bucket n i key hash xs all d)
      ]

  -- The buckets from number `i` on.
  abbrev pub PlacedFrom : (n i : ℕ) → List (List ℕ) → Type 0
  PlacedFrom n i list = (q : ℕ) → All (λ h. bucket_of n (m h).hash ≡ i + q) (get_or list q [])

  placed_tail :
      (n i : ℕ) (b : List ℕ) (bs : List (List ℕ))
      → PlacedFrom n i (b ∷ bs)
      → PlacedFrom n (i + 1) bs
  placed_tail n i b bs p q =
      All-map (λ h. bucket_of n (m h).hash ≡ i + suc q) (λ h. bucket_of n (m h).hash ≡ (i + 1) + q)
        (λ h e. omega (arith, e)) (get_or bs q []) (p (suc q))

  find_in-flat-none :
      (n i : ℕ) (key : Slice) (hash : ℕ) (list : List (List ℕ))
      → PlacedFrom n i list
      → bucket_of n hash < i
      → find_in m key hash (flat list) ≡ none
  unfolding find_in
  find_in-flat-none n i key hash [] p low = refl
  find_in-flat-none n i key hash (b ∷ bs) p low =
      find_in-append key hash b (flat bs)
      ∙ ap (λ o. or_else o (find_in m key hash (flat bs)))
          (find_in-bucket n (i + 0) key hash b (p 0) (λ e. omega (arith, e)))
      ∙ find_in-flat-none n (i + 1) key hash bs (placed_tail n i b bs p) (omega arith)

  pub find_in-flat :
      (n i j : ℕ) (key : Slice) (hash : ℕ) (list : List (List ℕ))
      → PlacedFrom n i list
      → bucket_of n hash ≡ i + j
      → find_in m key hash (flat list) ≡ find_in m key hash (get_or list j [])
  unfolding find_in
  find_in-flat n i j key hash [] p e = refl
  find_in-flat n i zero key hash (b ∷ bs) p e =
      find_in-append key hash b (flat bs)
      ∙ ap (or_else (find_in m key hash b))
          (find_in-flat-none n (i + 1) key hash bs (placed_tail n i b bs p) (omega (arith, e)))
      ∙ or_none (find_in m key hash b)
  find_in-flat n i (suc j) key hash (b ∷ bs) p e =
      find_in-append key hash b (flat bs)
      ∙ ap (λ o. or_else o (find_in m key hash (flat bs)))
          (find_in-bucket n (i + 0) key hash b (p 0) (λ e'. omega (arith, e, e')))
      ∙ find_in-flat n (i + 1) j key hash bs (placed_tail n i b bs p) (omega (arith, e))

  append-Unique :
      (b c : List ℕ)
      → Unique m b
      → Unique m c
      → All (λ h. find_in m (m h).key (m h).hash c ≡ none) b
      → Unique m (b ++ c)
  append-Unique [] c u v all = v
  append-Unique (x ∷ xs) c (n, u) v (h, all) = (
    find_in-append (m x).key (m x).hash xs c
        ∙ ap (λ o. or_else o (find_in m (m x).key (m x).hash c)) n
        ∙ h,
    append-Unique xs c u v all,
  )

  pub flat-Unique :
      (n i : ℕ) (list : List (List ℕ))
      → PlacedFrom n i list
      → ((q : ℕ) → Unique m (get_or list q []))
      → Unique m (flat list)
  flat-Unique n i [] p u = tt
  flat-Unique n i (b ∷ bs) p u =
      append-Unique b (flat bs) (u 0)
        (flat-Unique n (i + 1) bs (placed_tail n i b bs p) (λ q. u (suc q)))
        (All-map (λ h. bucket_of n (m h).hash ≡ i + 0)
          (λ h. find_in m (m h).key (m h).hash (flat bs) ≡ none)
          (λ h e.
            find_in-flat-none n (i + 1) (m h).key (m h).hash bs (placed_tail n i b bs p)
              (omega (arith, e)))
          b (p 0))

  -- Entries among which one is not found are none of them the same as it.
  pub others :
      (key : Slice) (hash : ℕ) (xs : List ℕ)
      → find_in m key hash xs ≡ none
      → All (λ y. same_key (m y).key (m y).hash key hash ≡ false) xs
  unfolding find_in is_entry
  others key hash [] h = tt
  others key hash (y ∷ ys) h = elim (Bool-cases (same_key (m y).key (m y).hash key hash)) [
    | inl s ↦ cc (rw s at h)
    | inr d ↦ (d, others key hash ys (rw d at h))
  ]
