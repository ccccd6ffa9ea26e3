-- ===== src/SkipList/Find.antt =====
-- What the three searches of the skip list find.
use mini_leveldb.Base.{
  ℕ, zero, suc, ◌-◌, ◌≤◌, ◌<◌, ◌≡◌, ◌≢◌, refl, sym, ap, ◌∙◌, inl, inr, arith, Bool, true, false,
  not, List, [], ◌∷◌, Option, none, some,
}
use mini_leveldb.Base.{◌==◌, if◌then◌else◌, All, length, Option-cases}
use mini_leveldb.Slice.{Sign, less}
use mini_leveldb.DbFormat.{is_less}
use mini_leveldb.Base.{update}
use mini_leveldb.SkipList.{
  Node, SkipList, max_levels, find_greater_or_equal_loop, find_less_than_loop, find_last_loop,
}
use mini_leveldb.SkipList.Chain.{IsOrder, Item, Links, Falls}
use mini_leveldb.SkipList.Walk.{walk}

-- One round of two loops that agree below and behind.
agree :
    {A B : Type 0} (f : Option A → Option B) (b : Bool) (on down : Option A) (on' down' : Option B)
    → on' ≡ f on
    → down' ≡ f down
    → (if b then on' else down') ≡ f (if b then on else down)
agree f true on down on' down' h k = h
agree f false on down on' down' h k = k

abbrev pub place : Option (ℕ × (ℕ → ℕ)) → Option ℕ
place none = none
place (some (x, prev)) = some x

module _ {K : Type 0} where
  -- No node stands twice.
  abbrev pub Distinct : List (Item K) → Type 0
  Distinct [] = Unit {0}
  Distinct (y ∷ ys) = All (λ z. y.ptr ≢ z.ptr) ys × Distinct ys

  abbrev pub head : SkipList K → Item K
  head list = record { ptr = 0; height = max_levels; key = (list.nodes 0).key }

  pub all-Falls : (chain : List (Item K)) → Falls (λ _. true) chain
  all-Falls [] = tt
  all-Falls (y ∷ ys) = (λ e. cc, all-Falls ys)

  -- Each loop is the walk, and reads its result off the walk's.
  abbrev pub next_of : (ℕ → Node K) → Option (ℕ × (ℕ → ℕ)) → Option (Option ℕ × (ℕ → ℕ))
  next_of nodes none = none
  next_of nodes (some (x, prev)) = some ((nodes x).next 0, prev)

module _ {K : Type 0} (compare : K → K → Sign) where
  -- The keys below a key.
  abbrev pub below : K → K → Bool
  below key k = is_less (compare k key)

  -- Each key is less than all behind it.
  abbrev pub Sorted : List (Item K) → Type 0
  Sorted [] = Unit {0}
  Sorted (y ∷ ys) = All (λ z. compare y.key z.key ≡ less) ys × Sorted ys

  -- The list has just these nodes behind its head, in this order.
  pub record IsList (list : SkipList K) (chain : List (Item K)) : Type 0 where
    pub links : Links list.nodes (head list) chain
    pub sorted : Sorted chain
    pub distinct : Distinct chain
    pub known : All (λ y. (0 < y.ptr) × (y.ptr < list.count)) chain
    pub heights : All (λ y. (0 < y.height) × (y.height ≤ list.max_height)) chain
    pub levels : (0 < list.max_height) × (list.max_height ≤ max_levels)
    pub size : list.count ≡ suc (length chain)

  -- A key above one that is not below `key` is not below `key`.
  pub refuses :
      IsOrder compare
      → (key y : K) (ys : List (Item K)) → All (λ z. compare y z.key ≡ less) ys
      → below key y ≡ false
      → All (λ z. below key z.key ≡ false) ys
  refuses o key y [] h n = tt
  refuses o key y (z ∷ zs) (lt, h) n =
      (ground (arith, n, lt, o.trans y z.key key), refuses o key y zs h n)

  pub below-Falls :
      IsOrder compare → (key : K) (chain : List (Item K)) → Sorted chain → Falls (below key) chain
  below-Falls o key [] h = tt
  below-Falls o key (y ∷ ys) (h, s) = (refuses o key y.key ys h, below-Falls o key ys s)

  pub greater_or_equal-walk :
      (fuel : ℕ) (nodes : ℕ → Node K) (key : K) (x level : ℕ) (prev : ℕ → ℕ)
      → find_greater_or_equal_loop compare fuel nodes key x level prev
        ≡ next_of nodes (walk (below key) fuel nodes x level prev)
  unfolding find_greater_or_equal_loop walk
  greater_or_equal-walk zero nodes key x level prev = refl
  greater_or_equal-walk (suc fuel) nodes key x level prev =
      let down = greater_or_equal-walk fuel nodes key x (level - 1) (update prev level x) in
      let stop = stop_greater nodes x level (update prev level x) _ _ down in
      elim (Option-cases ((nodes x).next level)) [
        | inl e ↦ rw (e, find_greater_or_equal_loop, walk) (stop none e)
        | inr (p, e) ↦
            rw (e, find_greater_or_equal_loop, walk)
              (agree (next_of nodes) (below key (nodes p).key) _ _ _ _
                (greater_or_equal-walk fuel nodes key p level prev) (stop (some p) e))
      ]
    where
      stop_greater :
          (nodes : ℕ → Node K) (x level : ℕ) (prev : ℕ → ℕ) (down : Option (ℕ × (ℕ → ℕ)))
          (down' : Option (Option ℕ × (ℕ → ℕ)))
          → down' ≡ next_of nodes down
          → (next : Option ℕ) → (nodes x).next level ≡ next
          → (if level == 0 then some (next, prev) else down')
            ≡ next_of nodes (if level == 0 then some (x, prev) else down)
      stop_greater nodes x zero prev down down' h next e = ap (λ t. some (t, prev)) (sym e)
      stop_greater nodes x (suc level) prev down down' h next e =
          let deeper : (suc level == 0) ≡ false = ground arith in rw deeper h

  pub less_than-walk :
      (fuel : ℕ) (nodes : ℕ → Node K) (key : K) (x level : ℕ) (prev : ℕ → ℕ)
      → find_less_than_loop compare fuel nodes key x level
        ≡ place (walk (below key) fuel nodes x level prev)
  unfolding find_less_than_loop walk
  less_than-walk zero nodes key x level prev = refl
  less_than-walk (suc fuel) nodes key x level prev =
      let down = less_than-walk fuel nodes key x (level - 1) (update prev level x) in
      let stop = agree place (level == 0) (some (x, update prev level x)) _ (some x) _ refl down in
      elim (Option-cases ((nodes x).next level)) [
        | inl e ↦ rw (e, find_less_than_loop, walk) stop
        | inr (p, e) ↦
            rw (e, find_less_than_loop, walk)
              (flip_test (below key (nodes p).key) _ _
                ∙ agree place (below key (nodes p).key) _ _ _ _
                    (less_than-walk fuel nodes key p level prev) stop)
      ]
    where
      flip_test : (b : Bool) (s t : Option ℕ) → (if not b then s else t) ≡ (if b then t else s)
      flip_test true s t = refl
      flip_test false s t = refl

  pub last-walk :
      (fuel : ℕ) (nodes : ℕ → Node K) (x level : ℕ) (prev : ℕ → ℕ)
      → find_last_loop fuel nodes x level ≡ place (walk (λ _. true) fuel nodes x level prev)
  unfolding find_last_loop walk
  last-walk zero nodes x level prev = refl
  last-walk (suc fuel) nodes x level prev =
      let down = last-walk fuel nodes x (level - 1) (update prev level x) in
      elim (Option-cases ((nodes x).next level)) [
        | inl e ↦
            rw (e, find_last_loop, walk)
              (agree place (level == 0) (some (x, update prev level x)) _ (some x) _ refl down)
        | inr (p, e) ↦ rw (e, find_last_loop, walk) (last-walk fuel nodes p level prev)
      ]
