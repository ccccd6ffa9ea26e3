-- ===== src/Cache/Prune.antt =====
-- The loops of `Prune` and `Insert` that evict: they end, and give up the oldest entries first.
use mini_leveldb.Base.{
  ℕ, zero, suc, ◌<◌, ◌≡◌, refl, sym, ap, ◌∙◌, ◌⊎◌, inl, inr, arith, Bool, true, false, not, ◌&&◌,
  List, [], ◌∷◌, ◌++◌, some,
}
use mini_leveldb.Base.{◌==◌, length, append-nil, Bool-cases}
use mathlib.Core.Path.{subst}
use mini_leveldb.Slice.{Slice}
use mini_leveldb.Cache.{LruHandle}
use mini_leveldb.Cache.Lru.{lru, LruCache, evict, evict_loop, prune}
use mini_leveldb.Cache.Evict.{IsIdle, call_of, evict-Evicts}

-- The calls of the deleters of some entries, one after the other, behind earlier calls.
abbrev pub calls_onto : (ℕ → LruHandle) → List ℕ → List (ℕ × Slice × ℕ) → List (ℕ × Slice × ℕ)
calls_onto m [] calls = calls
calls_onto m (x ∷ xs) calls = calls_onto m xs (call_of m x ∷ calls)

calls_onto-same :
    (m m' : ℕ → LruHandle) (xs : List ℕ) (calls : List (ℕ × Slice × ℕ))
    → ((q : ℕ) → call_of m' q ≡ call_of m q)
    → calls_onto m' xs calls ≡ calls_onto m xs calls
calls_onto-same m m' [] calls h = refl
calls_onto-same m m' (x ∷ xs) calls h =
    ap (λ t. calls_onto m' xs (t ∷ calls)) (h x) ∙ calls_onto-same m m' xs (call_of m x ∷ calls) h

-- What a loop that evicts leaves: the oldest entries are gone, with calls of their deleters in order,
-- and either there is no cause to go on or there is no entry left.
abbrev pub Evicted : (over : ℕ → Bool) → LruCache → List ℕ → LruCache → Type 0
Evicted over c xs c' =
    (gone : List ℕ) × (left : List ℕ) × (xs ≡ gone ++ left)
    × IsIdle c' left
    × (c'.deleted ≡ calls_onto c.handles gone c.deleted)
    × (c'.capacity ≡ c.capacity)
    × ((over c'.usage ≡ false) ⊎ (left ≡ []))

pub evict_loop-Evicted :
    (fuel : ℕ) (over : ℕ → Bool) (c : LruCache) (xs : List ℕ)
    → IsIdle c xs
    → length xs < fuel
    → (c' : LruCache) × (evict_loop fuel over c ≡ some c') × Evicted over c xs c'
unfolding evict_loop
evict_loop-Evicted zero over c xs h f = absurd (omega arith)
evict_loop-Evicted (suc fuel) over c [] h f =
    let empty : (c.handles lru).next ≡ lru = h.ring.0.0 in
    let stop : (over c.usage && not ((c.handles lru).next == lru)) ≡ false =
      ground (arith, empty) in
    (c, rw (stop, evict_loop) refl, ([], [], refl, h, refl, refl, inr refl))
evict_loop-Evicted (suc fuel) over c (x ∷ xs) h f = elim (Bool-cases (over c.usage)) [
  | inr enough ↦ (c, rw (enough, evict_loop) refl, ([], x ∷ xs, refl, h, refl, refl, inl enough))
  | inl more ↦
      let (oldest, _, _) = h.ring.0 in
      let (apart, _) = h.ring.1 in
      let go : (over c.usage && not ((c.handles lru).next == lru)) ≡ true =
        ground (arith, more, oldest, apart.0) in
      let (h', deleted, capacity, calls) = evict-Evicts c x xs h in
      let (c', e, (gone, left, whole, idle, called, same, end)) =
        evict_loop-Evicted fuel over (evict c) xs h' (omega arith) in
      (
        c',
        rw (go, evict_loop) e,
        (
          x ∷ gone,
          left,
          ap (λ t. x ∷ t) whole,
          idle,
          called
              ∙ calls_onto-same c.handles (evict c).handles gone (evict c).deleted calls
              ∙ ap (calls_onto c.handles gone) deleted,
          same ∙ capacity,
          end,
        ),
      )
]

-- `Prune` of a shard whose idle entries are in their ring and in the table ends with no idle entry left,
-- and has called the deleter of each of them, the oldest first.
pub prune-calls :
    (c : LruCache) (xs : List ℕ)
    → IsIdle c xs
    → (c' : LruCache) × (prune c ≡ some c')
      × IsIdle c' []
      × (c'.deleted ≡ calls_onto c.handles xs c.deleted)
unfolding prune
prune-calls c xs h =
    let (c', e, (gone, left, whole, idle, called, _, end)) =
      evict_loop-Evicted c.count (λ _. true) c xs h h.few in
    elim end [
      | inl never ↦ absurd (ground (arith, never))
      | inr none_left ↦
          let all : xs ≡ gone = whole ∙ ap (λ t. gone ++ t) none_left ∙ append-nil gone in
          (
            c',
            e,
            subst (IsIdle c') none_left idle,
            called ∙ ap (λ t. calls_onto c.handles t c.deleted) (sym all),
          )
    ]
