-- ===== src/SkipList/Chain.antt =====
-- The nodes of a skip list as one list in the order of level 0, and the pointers that it asks for.
use mini_leveldb.Base.{
  ℕ, ◌≤◌, ◌<◌, ◌≡◌, refl, arith, Bool, false, List, [], ◌∷◌, ◌++◌, Option, none, some,
}
use mini_leveldb.Base.{ltb, if◌then◌else◌, All, Bool-cases, inl, inr}
use mini_leveldb.Slice.{Sign, less, equal}
use mini_leveldb.Slice.Order.{flip_sign}
use mini_leveldb.SkipList.{Node}

-- The laws of a total order that answers zero for equal keys.
pub record IsOrder {K : Type 0} (compare : K → K → Sign) : Type 0 where
  pub self : (a : K) → compare a a ≡ equal
  pub flip : (a b : K) → compare b a ≡ flip_sign (compare a b)
  pub trans : (a b c : K) → compare a b ≡ less → compare b c ≡ less → compare a c ≡ less

-- A node with its height and its key.
pub record Item (K : Type 0) : Type 0 where
  pub ptr : ℕ
  pub height : ℕ
  pub key : K

module _ {K : Type 0} where
  -- The first node of a level, as a pointer.
  unfoldable pub first_at : ℕ → List (Item K) → Option ℕ
  first_at l [] = none
  first_at l (y ∷ ys) = if ltb l y.height then some y.ptr else first_at l ys

  -- The last node of a level, behind an earlier one.
  unfoldable pub last_at : ℕ → ℕ → List (Item K) → ℕ
  last_at l x [] = x
  last_at l x (y ∷ ys) = last_at l (if ltb l y.height then y.ptr else x) ys

  -- The pointers of a node lead to the first nodes behind it.
  abbrev pub Points : (ℕ → Node K) → Item K → List (Item K) → Type 0
  Points nodes x r = (l : ℕ) → l < x.height → (nodes x.ptr).next l ≡ first_at l r

  -- So do those of all nodes behind it, which hold their keys.
  abbrev pub Links : (ℕ → Node K) → Item K → List (Item K) → Type 0
  Links nodes x [] = Points nodes x []
  Links nodes x (y ∷ ys) = Points nodes x (y ∷ ys) × ((nodes y.ptr).key ≡ y.key) × Links nodes y ys

  pub Links-Points :
      (nodes : ℕ → Node K) (x : Item K) (r : List (Item K)) → Links nodes x r → Points nodes x r
  Links-Points nodes x [] h = h
  Links-Points nodes x (y ∷ ys) (h, _, _) = h

  abbrev pub keys : List (Item K) → List K
  keys [] = []
  keys (y ∷ ys) = y.key ∷ keys ys

  -- The nodes up to the first one that a test refuses, and the others.
  unfoldable pub before : (K → Bool) → List (Item K) → List (Item K)
  before go [] = []
  before go (y ∷ ys) = let rest = before go ys in if go y.key then y ∷ rest else []

  unfoldable pub after : (K → Bool) → List (Item K) → List (Item K)
  after go [] = []
  after go (y ∷ ys) = let rest = after go ys in if go y.key then rest else y ∷ ys

  -- What a test refuses, it refuses from there on.
  abbrev pub Falls : (K → Bool) → List (Item K) → Type 0
  Falls go [] = Unit {0}
  Falls go (y ∷ ys) = (go y.key ≡ false → All (λ z. go z.key ≡ false) ys) × Falls go ys

  pub before-after : (go : K → Bool) (r : List (Item K)) → before go r ++ after go r ≡ r
  unfolding before after
  before-after go [] = refl
  before-after go (y ∷ ys) = ground (arith, before-after go ys)

  pub first_at-append :
      (l : ℕ) (b c : List (Item K)) → first_at l b ≡ none → first_at l (b ++ c) ≡ first_at l c
  unfolding first_at
  first_at-append l [] c h = refl
  first_at-append l (y ∷ ys) c h = ground (arith, first_at-append l ys c)

  pub first_at-append_some :
      (l p : ℕ) (b c : List (Item K)) → first_at l b ≡ some p → first_at l (b ++ c) ≡ some p
  unfolding first_at
  first_at-append_some l p [] c h = cc
  first_at-append_some l p (y ∷ ys) c h = ground (arith, first_at-append_some l p ys c)

  pub last_at-none : (l x : ℕ) (b : List (Item K)) → first_at l b ≡ none → last_at l x b ≡ x
  unfolding first_at last_at
  last_at-none l x [] h = refl
  last_at-none l x (y ∷ ys) h = ground (arith, last_at-none l x ys)

  pub last_at-append :
      (l x : ℕ) (b c : List (Item K)) → last_at l x (b ++ c) ≡ last_at l (last_at l x b) c
  unfolding last_at
  last_at-append l x [] c = refl
  last_at-append l x (y ∷ ys) c = last_at-append l (if ltb l y.height then y.ptr else x) ys c

  pub last_at-low :
      (l w m : ℕ) (b : List (Item K)) → All (λ z. z.height ≤ m) b → m ≤ l → last_at l w b ≡ w
  unfolding last_at
  last_at-low l w m [] all le = refl
  last_at-low l w m (y ∷ ys) (h, all) le =
      let low : ltb l y.height ≡ false = ground (arith, h, le) in
      rw low (last_at-low l w m ys all le)

  pub before-All {κ} :
      (P : Item K → Type κ) (go : K → Bool) (r : List (Item K)) → All P r → All P (before go r)
  unfolding before
  before-All P go [] all = tt
  before-All P go (y ∷ ys) (h, all) = elim (Bool-cases (go y.key)) [
    | inl e ↦ rw e (h, before-All P go ys all)
    | inr e ↦ rw e tt
  ]

  pub after-All {κ} :
      (P : Item K → Type κ) (go : K → Bool) (r : List (Item K)) → All P r → All P (after go r)
  unfolding after
  after-All P go [] all = tt
  after-All P go (y ∷ ys) (h, all) = elim (Bool-cases (go y.key)) [
    | inl e ↦ rw e (after-All P go ys all)
    | inr e ↦ rw e (h, all)
  ]
