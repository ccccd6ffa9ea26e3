-- ===== src/SkipList/Cursor.antt =====
-- The iterator of the skip list as a place in the sorted list of its keys.
pub mod Places
use mini_leveldb.Base.{
  ℕ, zero, suc, ◌+◌, ◌-◌, ◌≤◌, ◌<◌, ◌≡◌, ◌≢◌, refl, sym, ap, ◌∙◌, ◌⊎◌, inl, inr, arith, Bool, true,
  false, ◌||◌, List, [], ◌∷◌, ◌++◌, Option, none, some,
}
use mini_leveldb.Base.{
  ltb, ◌==◌, if◌then◌else◌, All, All-map, append-nil, length, Bool-cases, Option-cases, lt→ltb,
}
use mathlib.Core.Path.{subst}
use mathlib.Core.Option
use mini_leveldb.Slice.{Sign, less, equal, greater, is_equal}
use mini_leveldb.SkipList.{
  Node, SkipList, find_greater_or_equal, find_less_than, find_last, unless_head, iterator_key,
  iterator_seek, iterator_next, iterator_prev, iterator_seek_to_first, iterator_seek_to_last,
}
use mini_leveldb.SkipList.Chain.{
  IsOrder, Item, first_at, last_at, Points, Links, Links-Points, before, after, after-All, keys,
}
use mini_leveldb.SkipList.Find.{below, head, Sorted, IsList}
use mini_leveldb.SkipList.Search.{
  all-before, find_greater_or_equal-Found, find_less_than_lem, find_last_lem,
}
use mini_leveldb.SkipList.Placed.{Behind, Links-Behind}
use mini_leveldb.SkipList.Spec.{Holds, ptr_of, first_at-ptr_of}

-- A list in front of another one, its last element first.
abbrev pub rev_onto {ℓ} : {A : Type ℓ} → List A → List A → List A
rev_onto [] c = c
rev_onto (y ∷ b) c = rev_onto b (y ∷ c)

abbrev pub first_of {ℓ} : {A : Type ℓ} → List A → Option A
first_of [] = none
first_of (x ∷ xs) = some x

rev_onto-rev_onto {ℓ} :
    {A : Type ℓ} (r b c : List A) → rev_onto (rev_onto r b) c ≡ rev_onto b (r ++ c)
rev_onto-rev_onto [] b c = refl
rev_onto-rev_onto (y ∷ r) b c = rev_onto-rev_onto r (y ∷ b) c

rev_onto-All {ℓ κ} :
    {A : Type ℓ} (P : A → Type κ) (b c : List A) → All P (rev_onto b c) → All P b × All P c
rev_onto-All P [] c h = (tt, h)
rev_onto-All P (y ∷ b) c h = let (hb, (hy, hc)) = rev_onto-All P b (y ∷ c) h in ((hy, hb), hc)

module _ {K : Type 0} where
  keys-rev_onto : (b c : List (Item K)) → keys (rev_onto b c) ≡ rev_onto (keys b) (keys c)
  keys-rev_onto [] c = refl
  keys-rev_onto (y ∷ b) c = keys-rev_onto b (y ∷ c)

  Links-rev_onto :
      (nodes : ℕ → Node K) (x : Item K) (b c : List (Item K))
      → Links nodes x (rev_onto b c)
      → Behind nodes c
  Links-rev_onto nodes x [] c links = Links-Behind nodes x [] c links
  Links-rev_onto nodes x (y ∷ b) c links =
      let (_, behind) = Links-rev_onto nodes x b (y ∷ c) links in Links-Behind nodes y [] c behind

  -- The last node in front of a place, or an earlier one.
  abbrev top : ℕ → List (Item K) → ℕ
  top w [] = w
  top w (y ∷ b) = y.ptr

  -- Where the nodes in front of a place pass a test, the search comes to the last of them.
  last_at-top :
      (go : K → Bool) (m : ℕ) (b c : List (Item K))
      → All (λ y. go y.key ≡ true) b
      → All (λ y. (0 < y.height) × (y.height ≤ m)) b
      → last_at 0 0 (before go (rev_onto b c)) ≡ last_at 0 (top 0 b) (before go c)
  unfolding before last_at
  last_at-top go m [] c all tall = refl
  last_at-top go m (y ∷ b) c (h, all) ((t, _), tall) =
      last_at-top go m b (y ∷ c) all tall ∙ rw h (rw (lt→ltb 0 y.height t, last_at) refl)

module _ {K : Type 0} (compare : K → K → Sign) where
  -- The iterator stands in the list behind the keys `front`, the nearest one first, and at the first
  -- key of `rest`; it is not valid where that is empty.
  abbrev pub At : SkipList K → (front rest : List K) → Option ℕ → Type 0
  At list front rest pos =
      (b : List (Item K)) × (c : List (Item K)) × IsList compare list (rev_onto b c)
      × (keys b ≡ front)
      × (keys c ≡ rest)
      × (pos ≡ ptr_of c)

  Sorted-rev_onto :
      (b c : List (Item K))
      → Sorted compare (rev_onto b c)
      → Sorted compare c × All (λ y. All (λ z. compare y.key z.key ≡ less) c) b
  Sorted-rev_onto [] c s = (s, tt)
  Sorted-rev_onto (y ∷ b) c s =
      let ((h, s'), all) = Sorted-rev_onto b (y ∷ c) s in (s', (h, tails b all))
    where
      tails :
          (b : List (Item K))
          → All (λ x. All (λ z. compare x.key z.key ≡ less) (y ∷ c)) b
          → All (λ x. All (λ z. compare x.key z.key ≡ less) c) b
      tails [] all = tt
      tails (x ∷ b) ((_, h), all) = (h, tails b all)

  -- `key` of the iterator is the key that it stands at.
  pub At-iterator_key :
      (list : SkipList K) (front rest : List K) (pos : Option ℕ)
      → At list front rest pos
      → Option.map (iterator_key list) pos ≡ first_of rest
  unfolding iterator_key
  At-iterator_key list front rest pos (b, [], h, eb, ec, ep) =
      ap (λ p. Option.map (iterator_key list) p) ep ∙ ap first_of ec
  At-iterator_key list front rest pos (b, y ∷ c, h, eb, ec, ep) =
      let (key, _) = Links-rev_onto list.nodes (head list) b (y ∷ c) h.links in
      ap (λ p. Option.map (iterator_key list) p) ep ∙ ap (λ k. some k) key ∙ ap first_of ec

  -- A step back, which from the first key leads out of the list.
  abbrev pub step_back : (front rest : List K) → List K × List K
  step_back [] rest = (rev_onto rest [], [])
  step_back (k ∷ front) rest = (front, k ∷ rest)

  iterator_next-At :
      (list : SkipList K) (front rest : List K) (k : K) (node : ℕ)
      → At list front (k ∷ rest) (some node)
      → At list (k ∷ front) rest (iterator_next list node)
  unfolding iterator_next
  iterator_next-At list front rest k node (b, [], h, eb, ec, ep) = cc
  iterator_next-At list front rest k node (b, y ∷ c, h, eb, ec, ep) =
      let (_, links) = Links-rev_onto list.nodes (head list) b (y ∷ c) h.links in
      let (_, ((tall, _), heights)) =
        rev_onto-All (λ y. (0 < y.height) × (y.height ≤ list.max_height)) b (y ∷ c) h.heights in
      let here : node ≡ y.ptr = cc in
      (
        y ∷ b,
        c,
        h,
        cc,
        cc,
        ap (λ p. (list.nodes p).next 0) here
            ∙ Links-Points list.nodes y c links 0 tall
            ∙ first_at-ptr_of list.max_height c heights,
      )

  unless_head-top :
      (m : ℕ) (b : List (Item K))
      → All (λ y. (0 < y.ptr) × (y.ptr < m)) b
      → unless_head (some (top 0 b)) ≡ some (ptr_of b)
  unfolding unless_head
  unless_head-top m [] h = refl
  unless_head-top m (y ∷ b) ((h, _), _) = ground (arith, h)

  find_less_than-top :
      IsOrder compare
      → (list : SkipList K) (b c : List (Item K)) (y : Item K)
      → IsList compare list (rev_onto b (y ∷ c))
      → find_less_than compare list y.key ≡ some (top 0 b)
  unfolding before last_at
  find_less_than-top o list b c y h =
      let (_, passed) = Sorted-rev_onto b (y ∷ c) h.sorted in
      let (tall, _) =
        rev_onto-All (λ y. (0 < y.height) × (y.height ≤ list.max_height)) b (y ∷ c) h.heights in
      let all =
        All-map (λ x. All (λ z. compare x.key z.key ≡ less) (y ∷ c))
          (λ x. below compare y.key x.key ≡ true) (λ x q. rw q.0 refl) b passed in
      let stop : below compare y.key y.key ≡ false = rw (o.self y.key) refl in
      find_less_than_lem compare o list (rev_onto b (y ∷ c)) y.key h
      ∙ ap (λ q. some q)
          (last_at-top (below compare y.key) list.max_height b (y ∷ c) all tall
            ∙ rw (stop, before) refl)

  step_back-At :
      (list : SkipList K) (b c : List (Item K)) (front rest : List K)
      → IsList compare list (rev_onto b c)
      → keys b ≡ front
      → keys c ≡ rest
      → At list (step_back front rest).0 (step_back front rest).1 (ptr_of b)
  step_back-At list [] c [] rest h eb ec = (
    rev_onto c [],
    [],
    subst (λ t. IsList compare list t) (sym (rev_onto-rev_onto c [] [] ∙ append-nil c)) h,
    keys-rev_onto c [] ∙ ap (λ t. rev_onto t []) ec,
    refl,
    refl,
  )
  step_back-At list [] c (k ∷ front) rest h eb ec = cc
  step_back-At list (y ∷ b) c [] rest h eb ec = cc
  step_back-At list (y ∷ b) c (k ∷ front) rest h eb ec = (b, y ∷ c, h, cc, cc, refl)

  iterator_prev-At :
      IsOrder compare
      → (list : SkipList K) (front rest : List K) (k : K) (node : ℕ)
      → At list front (k ∷ rest) (some node)
      → (pos : Option ℕ) × (iterator_prev compare list node ≡ some pos)
        × At list (step_back front (k ∷ rest)).0 (step_back front (k ∷ rest)).1 pos
  unfolding iterator_prev
  iterator_prev-At o list front rest k node (b, [], h, eb, ec, ep) = cc
  iterator_prev-At o list front rest k node (b, y ∷ c, h, eb, ec, ep) =
      let (key, _) = Links-rev_onto list.nodes (head list) b (y ∷ c) h.links in
      let here : node ≡ y.ptr = cc in
      let key_here : (list.nodes node).key ≡ y.key = ap (λ p. (list.nodes p).key) here ∙ key in
      let (known, _) = rev_onto-All (λ y. (0 < y.ptr) × (y.ptr < list.count)) b (y ∷ c) h.known in
      (
        ptr_of b,
        ap (λ q. unless_head (find_less_than compare list q)) key_here
            ∙ ap unless_head (find_less_than-top o list b c y h)
            ∙ unless_head-top list.count b known,
        step_back-At list b (y ∷ c) front (k ∷ rest) h eb ec,
      )

  -- From the place of a key, `Next` leads to the place behind it, and `Prev` ends at the key in front,
  -- or, at the first key, out of the list. The list is well formed, and the comparison is a total order.
  pub iterator_moves-At :
      IsOrder compare
      → (list : SkipList K) (front rest : List K) (k : K) (node : ℕ)
      → At list front (k ∷ rest) (some node)
      → At list (k ∷ front) rest (iterator_next list node)
        × ((pos : Option ℕ) × (iterator_prev compare list node ≡ some pos)
            × At list (step_back front (k ∷ rest)).0 (step_back front (k ∷ rest)).1 pos)
  iterator_moves-At o list front rest k node h =
      (iterator_next-At list front rest k node h, iterator_prev-At o list front rest k node h)
