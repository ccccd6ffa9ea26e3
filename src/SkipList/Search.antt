-- ===== src/SkipList/Search.antt =====
-- The searches of a skip list that is well formed: they end, at the node that the keys tell.
use mini_leveldb.Base.{
  ℕ, ◌-◌, ◌<◌, ◌≡◌, refl, ap, ◌∙◌, inl, inr, arith, Bool, true, List, [], ◌∷◌, ◌++◌, some,
}
use mini_leveldb.Base.{ltb, Bool-cases}
use mini_leveldb.Slice.{Sign}
use mini_leveldb.SkipList.{
  no_nodes, Node, SkipList, max_levels, find_greater_or_equal, find_less_than, find_last, enough,
}
use mini_leveldb.SkipList.Chain.{
  IsOrder, Item, first_at, last_at, Links, Links-Points, before, after, Falls, before-after,
}
use mini_leveldb.SkipList.Walk.{walk, Walked, walk-Walked}
use mini_leveldb.SkipList.Find.{
  below, IsList, head, next_of, place, greater_or_equal-walk, less_than-walk, last-walk,
  below-Falls, all-Falls,
}

module _ {K : Type 0} where
  -- The last node of a level in front of a place points behind that place.
  pub last_at-next :
      (nodes : ℕ → Node K) (l w : ℕ) (x : Item K) (b c : List (Item K))
      → Links nodes x (b ++ c)
      → (nodes w).next l ≡ first_at l (b ++ c)
      → (nodes (last_at l w b)).next l ≡ first_at l c
  unfolding first_at last_at
  last_at-next nodes l w x [] c links h = h
  last_at-next nodes l w x (y ∷ ys) c (points, key, links) h = elim (Bool-cases (ltb l y.height)) [
    | inl tall ↦ rw tall (
        last_at-next nodes l y.ptr y ys c links
          (Links-Points nodes y (ys ++ c) links l (ground arith)))
    | inr low ↦ rw low (last_at-next nodes l w y ys c links (h ∙ rw low refl))
  ]

  pub all-before : (r : List (Item K)) → before (λ _. true) r ≡ r
  unfolding before
  all-before [] = refl
  all-before (y ∷ ys) = ap (λ t. y ∷ t) (all-before ys)

module _ {K : Type 0} (compare : K → K → Sign) where
  -- A search from the head with the fuel of the code.
  from_head :
      (list : SkipList K) (chain : List (Item K)) (go : K → Bool)
      → IsList compare list chain
      → Falls go chain
      → Walked go
          (list.max_height - 1)
          0
          chain
          (no_nodes list)
          (walk go (enough list) list.nodes 0 (list.max_height - 1) (no_nodes list))
  from_head list chain go h falls =
      let (low, high) = h.levels in
      walk-Walked go (enough list) list.nodes (head list) (list.max_height - 1) chain
        (no_nodes list) h.links falls (omega (arith, low, high)) (omega (arith, low, h.size))

  -- What `FindGreaterOrEqual` returns, and what it leaves in `prev`.
  abbrev pub Found : SkipList K → List (Item K) → K → Type 0
  Found list chain key =
      (prev : ℕ → ℕ) × (find_greater_or_equal compare list key
        ≡ some (first_at 0 (after (below compare key) chain), prev))
      × ((l : ℕ) → l < list.max_height → prev l ≡ last_at l 0 (before (below compare key) chain))

  pub last_before-next :
      (list : SkipList K) (chain : List (Item K)) (key : K) (l : ℕ)
      → IsList compare list chain
      → l < max_levels
      → (list.nodes (last_at l 0 (before (below compare key) chain))).next l
        ≡ first_at l (after (below compare key) chain)
  last_before-next list chain key l h tall =
      let go = below compare key in
      let whole = before-after go chain in
      let links : Links list.nodes (head list) (before go chain ++ after go chain) =
        rw whole h.links in
      last_at-next list.nodes l 0 (head list) (before go chain) (after go chain) links
        (Links-Points list.nodes (head list) _ links l tall)

  pub find_greater_or_equal-Found :
      IsOrder compare
      → (list : SkipList K) (chain : List (Item K)) (key : K) → IsList compare list chain
      → Found list chain key
  unfolding find_greater_or_equal
  find_greater_or_equal-Found o list chain key h =
      let go = below compare key in
      let (low, high) = h.levels in
      let (prev, e, same, kept) =
        from_head list chain go h (below-Falls compare o key chain h.sorted) in
      let next = last_before-next list chain key 0 h (omega arith) in
      (
        prev,
        greater_or_equal-walk compare (enough list) list.nodes key 0 (list.max_height - 1)
              (no_nodes list)
            ∙ ap (next_of list.nodes) e
            ∙ ap (λ t. some (t, prev)) next,
        λ l lt. same l (omega (arith, low, lt)),
      )

  pub find_less_than_lem :
      IsOrder compare
      → (list : SkipList K) (chain : List (Item K)) (key : K) → IsList compare list chain
      → find_less_than compare list key ≡ some (last_at 0 0 (before (below compare key) chain))
  unfolding find_less_than
  find_less_than_lem o list chain key h =
      let (prev, e, _, _) =
        from_head list chain (below compare key) h (below-Falls compare o key chain h.sorted) in
      less_than-walk compare (enough list) list.nodes key 0 (list.max_height - 1) (no_nodes list)
      ∙ ap place e

  pub find_last_lem :
      (list : SkipList K) (chain : List (Item K))
      → IsList compare list chain
      → find_last list ≡ some (last_at 0 0 chain)
  unfolding find_last
  find_last_lem list chain h =
      let (prev, e, _, _) = from_head list chain (λ _. true) h (all-Falls chain) in
      last-walk compare (enough list) list.nodes 0 (list.max_height - 1) (no_nodes list)
      ∙ ap place e
      ∙ ap (λ t. some (last_at 0 0 t)) (all-before chain)
