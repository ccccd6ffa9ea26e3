-- ===== src/SkipList/Placed/Separate.antt =====
-- The nodes in front of a place, apart from those behind it.
use mini_leveldb.Base.{ℕ, ◌≡◌, ◌≢◌, sym, ap, ◌∙◌, inl, inr, arith, Bool, List, [], ◌∷◌}
use mini_leveldb.Base.{ltb, if◌then◌else◌, All, All-both, Bool-cases}
use mini_leveldb.SkipList.{Node}
use mini_leveldb.SkipList.Chain.{Item, last_at, Links, before, after, before-All}
use mini_leveldb.SkipList.Find.{Distinct}
use mini_leveldb.SkipList.Placed.{placed, placed-All, Apart}

module _ {K : Type 0} where
  pub Distinct-Apart :
      (y : Item K) (b : List (Item K)) → All (λ t. y.ptr ≢ t.ptr) b → Distinct b → Apart y b
  Distinct-Apart y [] h d = tt
  Distinct-Apart y (z ∷ zs) h (k, d) = (h, Distinct-Apart z zs k d)

  pub before-Distinct : (go : K → Bool) (r : List (Item K)) → Distinct r → Distinct (before go r)
  unfolding before
  before-Distinct go [] d = tt
  before-Distinct go (y ∷ ys) (h, d) = elim (Bool-cases (go y.key)) [
    | inl e ↦ rw e (before-All (λ t. y.ptr ≢ t.ptr) go ys h, before-Distinct go ys d)
    | inr e ↦ rw e tt
  ]

  pub placed-Distinct :
      (go : K → Bool) (n : Item K) (r : List (Item K))
      → All (λ t. n.ptr ≢ t.ptr) r
      → Distinct r
      → Distinct (placed go n r)
  unfolding before after
  placed-Distinct go n [] h d = (tt, tt)
  placed-Distinct go n (y ∷ ys) (h, hs) (k, d) = elim (Bool-cases (go y.key)) [
    | inl e ↦
        rw e
          (placed-All (λ t. y.ptr ≢ t.ptr) go n ys (λ q. h (sym q)) k, placed-Distinct go n ys hs d)
    | inr e ↦ rw e ((h, hs), (k, d))
  ]

  -- The last nodes in front of the place stand not behind it.
  pub last_at-apart :
      (go : K → Bool) (r : List (Item K)) (w : ℕ → ℕ)
      → All (λ z. (l : ℕ) → w l ≢ z.ptr) r
      → Distinct r
      → All (λ z. (l : ℕ) → last_at l (w l) (before go r) ≢ z.ptr) (after go r)
  unfolding before after last_at
  last_at-apart go [] w h d = tt
  last_at-apart go (y ∷ ys) w (h, hs) (k, d) = elim (Bool-cases (go y.key)) [
    | inl e ↦ rw e (
        last_at-apart go ys (λ l. if ltb l y.height then y.ptr else w l)
          (All-both (λ z. y.ptr ≢ z.ptr) (λ z. (l : ℕ) → w l ≢ z.ptr) _
            (λ z a b l. ground (arith, a, b l)) ys k hs)
          d)
    | inr e ↦ rw e (h, hs)
  ]

  -- Memory that is the same at the nodes of a chain.
  pub same-Links :
      (nodes nodes' : ℕ → Node K) (y : Item K) (r : List (Item K))
      → nodes' y.ptr ≡ nodes y.ptr
      → All (λ z. nodes' z.ptr ≡ nodes z.ptr) r
      → Links nodes y r
      → Links nodes' y r
  same-Links nodes nodes' y [] e all links = λ l lt. ap (λ n. n.next l) e ∙ links l lt
  same-Links nodes nodes' y (z ∷ zs) e (e', all) (points, key, links) = (
    λ l lt. ap (λ n. n.next l) e ∙ points l lt,
    ap (λ n. n.key) e' ∙ key,
    same-Links nodes nodes' z zs e' all links,
  )

  -- The key of the head does not count.
  pub head-Links :
      (nodes : ℕ → Node K) (ptr height : ℕ) (k k' : K) (r : List (Item K))
      → Links nodes (record { ptr = ptr; height = height; key = k }) r
      → Links nodes (record { ptr = ptr; height = height; key = k' }) r
  head-Links nodes ptr height k k' [] links = links
  head-Links nodes ptr height k k' (z ∷ zs) links = links
