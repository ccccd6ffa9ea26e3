-- ===== src/SkipList/Placed.antt =====
-- A node that is put at its place among the nodes of a skip list, and the pointers that lead to it.
pub mod Separate
use mini_leveldb.Base.{
  ℕ, zero, suc, ◌+◌, ◌-◌, ◌≤◌, ◌<◌, ◌≡◌, ◌≢◌, refl, sym, ap, ◌∙◌, ◌⊎◌, inl, inr, arith, Bool, true,
  false, List, [], ◌∷◌, ◌++◌, Option, none, some,
}
use mini_leveldb.Base.{
  ltb, ◌==◌, if◌then◌else◌, All, All-both, length, Bool-cases, Option-cases, lt→ltb, le→ltb,
  ==_refl,
}
use native.Mathlib.Decide.{dec_lt}
use mathlib.Core.Path.{subst}
use mini_leveldb.SkipList.{Node}
use mini_leveldb.SkipList.Chain.{
  Item, first_at, last_at, Points, Links, Links-Points, before, after, before-after, before-All,
  after-All, first_at-append, first_at-append_some, last_at-none,
}
use mini_leveldb.SkipList.Find.{Distinct}
use mini_leveldb.SkipList.Links.{Relinked}

module _ {K : Type 0} where
  abbrev pub placed : (K → Bool) → Item K → List (Item K) → List (Item K)
  placed go n chain = before go chain ++ (n ∷ after go chain)

  pub placed-All {κ} :
      (P : Item K → Type κ) (go : K → Bool) (n : Item K) (chain : List (Item K))
      → P n
      → All P chain
      → All P (placed go n chain)
  unfolding before after
  placed-All P go n [] h all = (h, tt)
  placed-All P go n (y ∷ ys) h (p, all) = elim (Bool-cases (go y.key)) [
    | inl e ↦ rw e (p, placed-All P go n ys h all)
    | inr e ↦ rw e (h, (p, all))
  ]

  pub length-placed :
      (go : K → Bool) (n : Item K) (chain : List (Item K))
      → length (placed go n chain) ≡ suc (length chain)
  unfolding before after
  length-placed go n [] = refl
  length-placed go n (y ∷ ys) = elim (Bool-cases (go y.key)) [
    | inl e ↦ rw e (ap suc (length-placed go n ys))
    | inr e ↦ rw e refl
  ]

  -- A node that is not tall enough is passed over.
  first_at-pass :
      (l : ℕ) (n : Item K) (b c : List (Item K))
      → n.height ≤ l
      → first_at l (b ++ (n ∷ c)) ≡ first_at l (b ++ c)
  unfolding first_at
  first_at-pass l n [] c le = rw (le→ltb l n.height le) refl
  first_at-pass l n (y ∷ ys) c le =
      ap (λ t. if ltb l y.height then some y.ptr else t) (first_at-pass l n ys c le)

  first_at-here :
      (l : ℕ) (n : Item K) (c : List (Item K)) → l < n.height → first_at l (n ∷ c) ≡ some n.ptr
  unfolding first_at
  first_at-here l n c lt = rw (lt→ltb l n.height lt) refl

  -- A node that is none of these is not the last of them.
  pub last_at-other :
      (l w q : ℕ) (b : List (Item K)) → w ≢ q → All (λ z. q ≢ z.ptr) b → last_at l w b ≢ q
  unfolding last_at
  last_at-other l w q [] h all = h
  last_at-other l w q (y ∷ ys) h (apart, all) =
      last_at-other l (if ltb l y.height then y.ptr else w) q ys (ground (arith, h, apart)) all

  last_at-some :
      (l w q p : ℕ) (b : List (Item K))
      → first_at l b ≡ some p
      → All (λ z. q ≢ z.ptr) b
      → last_at l w b ≢ q
  unfolding first_at last_at
  last_at-some l w q p [] h all = cc
  last_at-some l w q p (y ∷ ys) h (apart, all) = elim (Bool-cases (ltb l y.height)) [
    | inl tall ↦ rw tall (last_at-other l y.ptr q ys (λ e. apart (sym e)) all)
    | inr low ↦ rw low (last_at-some l w q p ys (rw low at h) all)
  ]

  -- No node stands twice from a node on.
  abbrev pub Apart : Item K → List (Item K) → Type 0
  Apart y [] = Unit {0}
  Apart y (z ∷ zs) = All (λ t. y.ptr ≢ t.ptr) (z ∷ zs) × Apart z zs

  -- The pointers of the nodes themselves, without those that lead to them.
  abbrev pub Behind : (ℕ → Node K) → List (Item K) → Type 0
  Behind nodes [] = Unit {0}
  Behind nodes (z ∷ zs) = ((nodes z.ptr).key ≡ z.key) × Links nodes z zs

  pub Links-Behind :
      (nodes : ℕ → Node K) (y : Item K) (b c : List (Item K))
      → Links nodes y (b ++ c)
      → Behind nodes c
  Links-Behind nodes y [] [] h = tt
  Links-Behind nodes y [] (z ∷ zs) (_, key, links) = (key, links)
  Links-Behind nodes y (z ∷ zs) c (_, _, links) = Links-Behind nodes z zs c links

  module _ {nodes nodes' : ℕ → Node K} (n : Item K) (prev : ℕ → ℕ)
      (r : Relinked nodes nodes' 0 n.height n.ptr prev) where
    -- The nodes behind the place keep their pointers.
    kept-Points :
        (y : Item K) (c : List (Item K))
        → n.ptr ≢ y.ptr
        → ((l : ℕ) → l < n.height → prev l ≢ y.ptr)
        → Points nodes y c
        → Points nodes' y c
    kept-Points y c h k p l lt = elim (dec_lt l n.height) [
      | yes tall ↦ r.other y.ptr l h (k l tall) ∙ p l lt
      | no low ↦ r.outside y.ptr l (inr (omega arith)) ∙ p l lt
    ]

    pub kept-Links :
        (y : Item K) (c : List (Item K))
        → Points nodes' y c
        → Behind nodes c
        → All (λ z. (n.ptr ≢ z.ptr) × ((l : ℕ) → l < n.height → prev l ≢ z.ptr)) c
        → Links nodes' y c
    kept-Links y [] points links all = points
    kept-Links y (z ∷ zs) points (key, links) ((h, k), all) = (
      points,
      r.same_key z.ptr ∙ key,
      kept-Links z zs (kept-Points z zs h k (Links-Points nodes z zs links))
          (Links-Behind nodes z [] zs links) all,
    )

    -- The node in front of the place, at one level.
    placed-pointer :
        (y : Item K) (b c : List (Item K)) (p l : ℕ)
        → (nodes y.ptr).next l ≡ first_at l (b ++ c)
        → (l < n.height → prev l ≡ last_at l p b)
        → p ≡ y.ptr
        → n.ptr ≢ y.ptr
        → All (λ z. y.ptr ≢ z.ptr) b
        → (nodes' y.ptr).next l ≡ first_at l (b ++ (n ∷ c))
    placed-pointer y b c p l h last here fresh apart = elim (dec_lt l n.height) [
      | no above ↦
          r.outside y.ptr l (inr (omega arith)) ∙ h ∙ sym (first_at-pass l n b c (omega arith))
      | yes tall ↦ elim (Option-cases (first_at l b)) [
        | inl e ↦
            ap (λ q. (nodes' q).next l) (sym (last tall ∙ last_at-none l p b e ∙ here))
            ∙ r.to_new l (omega arith) (omega arith)
            ∙ sym (first_at-here l n c tall)
            ∙ sym (first_at-append l b (n ∷ c) e)
        | inr (q, e) ↦
            r.other y.ptr l fresh (λ d. last_at-some l p y.ptr q b e apart (sym (last tall) ∙ d))
            ∙ h
            ∙ first_at-append_some l q b c e
            ∙ sym (first_at-append_some l q b (n ∷ c) e)
      ]
    ]

    pub placed-Links :
        (y : Item K) (b c : List (Item K)) (p : ℕ → ℕ)
        → Links nodes y (b ++ c)
        → ((l : ℕ) → l < n.height → prev l ≡ last_at l (p l) b)
        → ((l : ℕ) → l < y.height → p l ≡ y.ptr)
        → n.ptr ≢ y.ptr
        → All (λ z. n.ptr ≢ z.ptr) b
        → Apart y b
        → (nodes' n.ptr).key ≡ n.key
        → Links nodes' n c
        → Links nodes' y (b ++ (n ∷ c))
    unfolding last_at
    placed-Links y [] c p links last here fresh freshes apart key behind = (
      λ l lt.
          placed-pointer y [] c (p l) l (Links-Points nodes y c links l lt) (last l) (here l lt)
            fresh tt,
      key,
      behind,
    )
    placed-Links y (z ∷ zs) c p (points, key_z, links) last here fresh (fresh_z, freshes)
          (apart, aparts) key behind =
        (
          λ l lt.
              placed-pointer y (z ∷ zs) c (p l) l (points l lt) (last l) (here l lt) fresh apart,
          r.same_key z.ptr ∙ key_z,
          placed-Links z zs c (λ l. if ltb l z.height then z.ptr else p l) links last
              (λ l lt. rw (lt→ltb l z.height lt) refl) fresh_z freshes aparts key behind,
        )
