-- ===== src/SkipList/Spec.antt =====
-- The skip list as a sorted list of its keys: the constructor, `Insert` and `Contains`.
use mini_leveldb.Base.{
  ℕ, ◌≤◌, ◌<◌, ◌≡◌, ◌≢◌, refl, sym, ap, ◌∙◌, inl, inr, arith, Bool, false, ◌||◌, List, [], ◌∷◌,
  ◌++◌, Option, none, some,
}
use mini_leveldb.Base.{if◌then◌else◌, All, All-map, Bool-cases, lt→ltb}
use mathlib.Core.Path.{subst}
use mini_leveldb.Slice.{Sign, less, equal, is_equal}
use mini_leveldb.SkipList.{
  SkipList, random_height, insert_behind, insert, insert_found, contains, contains_found,
  new_skip_list,
}
use mini_leveldb.SkipList.Chain.{
  IsOrder, Item, first_at, Links, before, after, keys, before-after, after-All,
}
use mini_leveldb.SkipList.Find.{below, head, Sorted, IsList}
use mini_leveldb.SkipList.Search.{find_greater_or_equal-Found}
use mini_leveldb.SkipList.Insert.{above, insert_behind-IsList}
use mini_leveldb.SkipList.Placed.{placed, Behind, Links-Behind}

module _ {K : Type 0} where
  -- The keys of a chain, and a claim about all of them.
  keys-All {κ} :
      (P : K → Type κ) (chain : List (Item K)) → All P (keys chain) → All (λ y. P y.key) chain
  keys-All P [] h = tt
  keys-All P (y ∷ ys) (h, hs) = (h, keys-All P ys hs)

  -- The pointer to the first of these nodes.
  abbrev pub ptr_of : List (Item K) → Option ℕ
  ptr_of [] = none
  ptr_of (y ∷ ys) = some y.ptr

  pub first_at-ptr_of :
      (m : ℕ) (c : List (Item K))
      → All (λ y. (0 < y.height) × (y.height ≤ m)) c
      → first_at 0 c ≡ ptr_of c
  unfolding first_at
  first_at-ptr_of m [] h = refl
  first_at-ptr_of m (y ∷ ys) ((h, _), _) = ground (arith, h)

module _ {K : Type 0} (compare : K → K → Sign) where
  -- A key in front of the first one that is not below it.
  abbrev pub sorted_insert : K → List K → List K
  sorted_insert key [] = key ∷ []
  sorted_insert key (k ∷ ks) =
      let rest = sorted_insert key ks in if below compare key k then k ∷ rest else key ∷ k ∷ ks

  abbrev pub member : K → List K → Bool
  member key [] = false
  member key (k ∷ ks) = is_equal (compare key k) || member key ks

  -- The list is well formed, and these are its keys in order.
  abbrev pub Holds : SkipList K → List K → Type 0
  Holds list ks = (chain : List (Item K)) × IsList compare list chain × (keys chain ≡ ks)

  keys-placed :
      (n : Item K) (chain : List (Item K))
      → keys (placed (below compare n.key) n chain) ≡ sorted_insert n.key (keys chain)
  unfolding before after
  keys-placed n [] = refl
  keys-placed n (y ∷ ys) = elim (Bool-cases (below compare n.key y.key)) [
    | inl e ↦ rw e (ap (λ t. y.key ∷ t) (keys-placed n ys))
    | inr e ↦ rw e refl
  ]

  -- A new list is well formed and holds no key.
  pub new_skip_list-IsList : (zero_key : K) → IsList compare (new_skip_list zero_key) []
  unfolding new_skip_list first_at
  new_skip_list-IsList zero_key = record {
    links = λ l lt. refl;
    sorted = tt;
    distinct = tt;
    known = tt;
    heights = tt;
    levels = (omega arith, omega arith);
    size = refl;
  }

  pub new_skip_list-Holds : (zero_key : K) → Holds (new_skip_list zero_key) []
  new_skip_list-Holds zero_key = ([], new_skip_list-IsList zero_key, refl)

  -- `Insert` of a key that equals none of the list's ends with a well-formed list that holds the keys
  -- of the old one with the new key at its place, whatever heights the random numbers give.
  -- The comparison is a total order.
  pub insert-Holds :
      IsOrder compare
      → (list : SkipList K) (ks : List K) (key : K) → Holds list ks
      → All (λ k. compare k key ≢ equal) ks
      → (list' : SkipList K) × (insert compare list key ≡ some list')
        × Holds list' (sorted_insert key ks)
  unfolding insert insert_found
  insert-Holds o list ks key (chain, h, e) fresh =
      let fresh_chain =
        keys-All (λ k. compare k key ≢ equal) chain
          (subst (λ t. All (λ k. compare k key ≢ equal) t) (sym e) fresh) in
      let (prev, found, last) = find_greater_or_equal-Found compare o list chain key h in
      let n : Item K = record {
        ptr = list.count;
        height = (random_height list.rnd).1;
        key = key;
      } in
      (
        insert_behind list key prev,
        ap (insert_found compare list key) found,
        (
          placed (below compare key) n chain,
          insert_behind-IsList compare o list chain key prev h fresh_chain last,
          keys-placed n chain ∙ ap (sorted_insert key) e,
        ),
      )

  -- A key is in a sorted list just if it is the first one that is not below it.
  member-above :
      IsOrder compare
      → (key y : K) (ys : List (Item K)) → compare key y ≡ less
      → All (λ z. compare y z.key ≡ less) ys
      → member key (keys ys) ≡ false
  member-above o key y [] lt h = refl
  member-above o key y (z ∷ zs) lt (h, hs) =
      let below_z = o.trans key y z.key lt h in
      let e : is_equal (compare key z.key) ≡ false = rw below_z refl in
      rw e (member-above o key y zs lt hs)

  abbrev starts_with : K → List (Item K) → Bool
  starts_with key [] = false
  starts_with key (y ∷ ys) = is_equal (compare key y.key)

  starts_with-member :
      IsOrder compare
      → (key : K) (chain : List (Item K)) → Sorted compare chain
      → starts_with key (after (below compare key) chain) ≡ member key (keys chain)
  unfolding after
  starts_with-member o key [] s = refl
  starts_with-member o key (y ∷ ys) (h, s) = elim (Bool-cases (below compare key y.key)) [
    | inl e ↦
        let n : is_equal (compare key y.key) ≡ false = ground (arith, e, o.flip y.key key) in
        rw e (rw n (starts_with-member o key ys s))
    | inr e ↦ rw e (elim (Bool-cases (is_equal (compare key y.key))) [
      | inl k ↦ rw k refl
      | inr k ↦
          let lt : compare key y.key ≡ less = ground (arith, e, k, o.flip y.key key) in
          rw k (sym (member-above o key y.key ys lt h))
    ])
  ]

  contains_found-starts_with :
      (list : SkipList K) (key : K) (m : ℕ) (c : List (Item K)) (prev : ℕ → ℕ)
      → All (λ y. (0 < y.height) × (y.height ≤ m)) c
      → Behind list.nodes c
      → contains_found compare list key (some (first_at 0 c, prev)) ≡ some (starts_with key c)
  unfolding contains_found first_at
  contains_found-starts_with list key m [] prev h b = refl
  contains_found-starts_with list key m (y ∷ ys) prev ((h, _), _) (e, _) =
      rw (lt→ltb 0 y.height h) (ap (λ k. some (is_equal (compare key k))) e)

  -- `Contains` of a well-formed list ends, and tells whether the list holds a key that equals the one
  -- asked for. The comparison is a total order.
  pub contains-member :
      IsOrder compare
      → (list : SkipList K) (ks : List K) (key : K) → Holds list ks
      → contains compare list key ≡ some (member key ks)
  unfolding contains
  contains-member o list ks key (chain, h, e) =
      let go = below compare key in
      let (prev, found, _) = find_greater_or_equal-Found compare o list chain key h in
      let whole = before-after go chain in
      let links : Links list.nodes (head list) (before go chain ++ after go chain) =
        rw whole h.links in
      ap (contains_found compare list key) found
      ∙ contains_found-starts_with list key list.max_height (after go chain) prev
          (after-All (λ y. (0 < y.height) × (y.height ≤ list.max_height)) go chain h.heights)
          (Links-Behind list.nodes (head list) (before go chain) (after go chain) links)
      ∙ ap (λ b. some b) (starts_with-member o key chain h.sorted)
      ∙ ap (λ t. some (member key t)) e

  -- The abstract list stays sorted.
  abbrev pub SortedKeys : List K → Type 0
  SortedKeys [] = Unit {0}
  SortedKeys (k ∷ ks) = All (λ j. compare k j ≡ less) ks × SortedKeys ks

  pub sorted_insert-All {κ} :
      (P : K → Type κ) (key : K) (ks : List K) → P key → All P ks → All P (sorted_insert key ks)
  sorted_insert-All P key [] h all = (h, tt)
  sorted_insert-All P key (k ∷ ks) h (p, all) = elim (Bool-cases (below compare key k)) [
    | inl e ↦ rw e (p, sorted_insert-All P key ks h all)
    | inr e ↦ rw e (h, (p, all))
  ]

  pub sorted_insert-SortedKeys :
      IsOrder compare
      → (key : K) (ks : List K) → All (λ k. compare k key ≢ equal) ks
      → SortedKeys ks
      → SortedKeys (sorted_insert key ks)
  sorted_insert-SortedKeys o key [] fresh s = (tt, tt)
  sorted_insert-SortedKeys o key (k ∷ ks) (f, fresh) (h, s) =
      elim (Bool-cases (below compare key k)) [
        | inl e ↦ rw e (
          sorted_insert-All (λ j. compare k j ≡ less) key ks (ground (arith, e)) h,
          sorted_insert-SortedKeys o key ks fresh s,
        )
        | inr e ↦
            let lt = above compare o k key e f in
            rw e (
              (
                lt,
                All-map (λ j. compare k j ≡ less) (λ j. compare key j ≡ less)
                    (λ j. o.trans key k j lt) ks h,
              ),
              (h, s),
            )
      ]
