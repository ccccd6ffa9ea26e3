-- ===== src/Cache/Ring.antt =====
-- The two rings of `LRUCache`: circular doubly-linked lists behind a head that is no entry.
pub mod Moves
use mini_leveldb.Base.{
  ℕ, zero, suc, ◌+◌, ◌≡◌, ◌≢◌, refl, sym, ap, ◌∙◌, inl, inr, arith, Bool, true, false, List, [],
  ◌∷◌, ◌++◌,
}
use mini_leveldb.Base.{update, ◌==◌, ==_refl, if◌then◌else◌, All, All-map, All-append, Bool-cases}
use mini_leveldb.Cache.{LruHandle}
use mini_leveldb.Cache.Lru.{lru_remove, lru_append, set_next, set_prev}

differ : (a b : ℕ) → a ≢ b → (a == b) ≡ false
differ a b h = ground (arith, h)

-- From one node to another by way of some nodes, there and back.
abbrev pub Linked : (ℕ → LruHandle) → (a : ℕ) → List ℕ → (z : ℕ) → Type 0
Linked m a [] z = ((m a).next ≡ z) × ((m z).prev ≡ a)
Linked m a (x ∷ xs) z = ((m a).next ≡ x) × ((m x).prev ≡ a) × Linked m x xs z

abbrev pub Pairwise : List ℕ → Type 0
Pairwise [] = Unit {0}
Pairwise (x ∷ xs) = All (λ y. x ≢ y) xs × Pairwise xs

-- The ring behind a head holds just these entries, the oldest one first.
abbrev pub IsRing : (ℕ → LruHandle) → (s : ℕ) → List ℕ → Type 0
IsRing m s xs = Linked m s xs s × Pairwise (s ∷ xs)

update-same : (m : ℕ → LruHandle) (p : ℕ) (h : LruHandle) → update m p h p ≡ h
update-same m p h = rw (==_refl p) refl

set_next-next :
    (m : ℕ → LruHandle) (p v q : ℕ) → (set_next m p v q).next ≡ (if p == q then v else (m q).next)
set_next-next m p v q = elim (Bool-cases (p == q)) [ inl e ↦ rw e refl | inr e ↦ rw e refl ]

set_next-prev : (m : ℕ → LruHandle) (p v q : ℕ) → (set_next m p v q).prev ≡ (m q).prev
set_next-prev m p v q = elim (Bool-cases (p == q)) [
  | inl e ↦ let s : p ≡ q = ground (arith, e) in rw e (ap (λ t. (m t).prev) s)
  | inr e ↦ rw e refl
]

set_prev-prev :
    (m : ℕ → LruHandle) (p v q : ℕ) → (set_prev m p v q).prev ≡ (if p == q then v else (m q).prev)
set_prev-prev m p v q = elim (Bool-cases (p == q)) [ inl e ↦ rw e refl | inr e ↦ rw e refl ]

set_prev-next : (m : ℕ → LruHandle) (p v q : ℕ) → (set_prev m p v q).next ≡ (m q).next
set_prev-next m p v q = elim (Bool-cases (p == q)) [
  | inl e ↦ let s : p ≡ q = ground (arith, e) in rw e (ap (λ t. (m t).next) s)
  | inr e ↦ rw e refl
]

-- The pointers behind `LRU_Remove`.
remove-next :
    (m : ℕ → LruHandle) (e q : ℕ)
    → (lru_remove m e q).next ≡ (if (m e).prev == q then (m e).next else (m q).next)
unfolding lru_remove
remove-next m e q =
    let m1 = set_prev m (m e).next (m e).prev in
    let back : (m1 e).prev ≡ (m e).prev =
      set_prev-prev m (m e).next (m e).prev e ∙ either (((m e).next) == e) in
    set_next-next m1 (m1 e).prev (m1 e).next q
    ∙ rw (back, set_prev-next m (m e).next (m e).prev e, set_prev-next m (m e).next (m e).prev q)
        refl
  where
    either : (b : Bool) → (if b then (m e).prev else (m e).prev) ≡ (m e).prev
    either true = refl
    either false = refl

remove-prev :
    (m : ℕ → LruHandle) (e q : ℕ)
    → (lru_remove m e q).prev ≡ (if (m e).next == q then (m e).prev else (m q).prev)
unfolding lru_remove
remove-prev m e q =
    let m1 = set_prev m (m e).next (m e).prev in
    set_next-prev m1 (m1 e).prev (m1 e).next q ∙ set_prev-prev m (m e).next (m e).prev q

-- The pointers behind `LRU_Append` of an entry that is not in the ring.
append-next :
    (m : ℕ → LruHandle) (s e q : ℕ)
    → e ≢ s
    → (lru_append m s e q).next ≡ (if (m s).prev == q then e else if e == q then s else (m q).next)
unfolding lru_append
append-next m s e q d =
    let m1 = set_next m e s in
    let m2 = set_prev m1 e (m1 s).prev in
    let m3 = set_next m2 (m2 e).prev e in
    let last : (m2 e).prev ≡ (m s).prev =
      set_prev-prev m1 e (m1 s).prev e ∙ rw (==_refl e) (set_next-prev m e s s) in
    set_prev-next m3 (m3 e).next e q
    ∙ set_next-next m2 (m2 e).prev e q
    ∙ ap (λ p. if p == q then e else (m2 q).next) last
    ∙ ap (λ t. if (m s).prev == q then e else t)
        (set_prev-next m1 e (m1 s).prev q ∙ set_next-next m e s q)

append-prev :
    (m : ℕ → LruHandle) (s e q : ℕ)
    → e ≢ s
    → (m s).prev ≢ e
    → (lru_append m s e q).prev ≡ (if s == q then e else if e == q then (m s).prev else (m q).prev)
unfolding lru_append
append-prev m s e q d out =
    let m1 = set_next m e s in
    let m2 = set_prev m1 e (m1 s).prev in
    let m3 = set_next m2 (m2 e).prev e in
    let last : (m2 e).prev ≡ (m s).prev =
      set_prev-prev m1 e (m1 s).prev e ∙ rw (==_refl e) (set_next-prev m e s s) in
    let head_ : (m3 e).next ≡ s =
      set_next-next m2 (m2 e).prev e e
      ∙ ap (λ p. if p == e then e else (m2 e).next) last
      ∙ rw (differ (m s).prev e out)
          (set_prev-next m1 e (m1 s).prev e ∙ set_next-next m e s e ∙ rw (==_refl e) refl) in
    set_prev-prev m3 (m3 e).next e q
    ∙ ap (λ p. if p == q then e else (m3 q).prev) head_
    ∙ ap (λ t. if s == q then e else t)
        (set_next-prev m2 (m2 e).prev e q
          ∙ set_prev-prev m1 e (m1 s).prev q
          ∙ ap (λ t. if e == q then t else (m1 q).prev) (set_next-prev m e s s)
          ∙ ap (λ t. if e == q then (m s).prev else t) (set_next-prev m e s q))
