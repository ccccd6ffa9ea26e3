-- ===== src/Cache/Evict.antt =====
-- Eviction of one entry: the oldest of those that no one uses.
use mini_leveldb.Base.{
  ℕ, ◌+◌, ◌-◌, ◌%◌, ◌^◌, ◌<◌, ◌≡◌, ◌≢◌, refl, sym, ap, ◌∙◌, inl, inr, arith, true, false, List, [],
  ◌∷◌, Option, none, some,
}
use mini_leveldb.Base.{update, of_some, ◌==◌, if◌then◌else◌, All, All-both, length, Bool-cases}
use mathlib.Core.Path.{subst}
use mini_leveldb.Slice.{Slice}
use mini_leveldb.Cache.{LruHandle, table_lookup, table_remove}
use mini_leveldb.Cache.Lru.{lru, LruCache, lru_remove, set_refs, unref, finish_erase, erase, evict}
use mini_leveldb.Cache.Table.{same_key, same_key→eq}
use mini_leveldb.Cache.Map.{IsTable, table_remove-table_lookup}
use mini_leveldb.Cache.SameKeys.{SameKeys, IsTable-SameKeys, table_lookup-SameKeys}
use mini_leveldb.Cache.Ring.{IsRing}
use mini_leveldb.Cache.Ring.Moves.{lru_remove-IsRing, kept-Linked}
use mini_leveldb.Cache.Erased.{erased, erased-unseen, erased-pointers, erased-refs, erased-no_refs}

-- The entries that no one uses, the oldest one first: they are in their ring, the table finds them, and
-- the only reference to each is that of the cache.
pub record IsIdle (c : LruCache) (xs : List ℕ) : Type 0 where
  pub ring : IsRing c.handles lru xs
  pub table_lem : IsTable c.handles c.table
  pub found :
      All (λ x. table_lookup c.handles c.table (c.handles x).key (c.handles x).hash ≡ some x) xs
  pub idle : All (λ x. (c.handles x).refs ≡ 1) xs
  pub few : length xs < c.count

-- The call of the deleter of an entry.
abbrev pub call_of : (ℕ → LruHandle) → ℕ → ℕ × Slice × ℕ
call_of m x = ((m x).deleter, (m x).key, (m x).value)

-- The state behind the eviction of an entry.
abbrev evicted : LruCache → ℕ → ℕ → LruCache
evicted c x usage' = record c {
  handles = erased c.handles x;
  usage = usage';
  table = (table_remove c.handles c.table (c.handles x).key (c.handles x).hash).1;
  deleted = call_of (erased c.handles x) x ∷ c.deleted;
}

unref-last :
    (c : LruCache) (e : ℕ)
    → (set_refs c.handles e ((c.handles e).refs + (2 ^ 32 - 1)) e).refs ≡ 0
    → unref c e ≡ record c {
      handles = set_refs c.handles e ((c.handles e).refs + (2 ^ 32 - 1));
      deleted = call_of (set_refs c.handles e ((c.handles e).refs + (2 ^ 32 - 1))) e ∷ c.deleted;
    }
unfolding unref
unref-last c e h =
    let b : ((set_refs c.handles e ((c.handles e).refs + (2 ^ 32 - 1)) e).refs == 0) ≡ true =
      ground (arith, h) in
    rw b refl

erase-evicted :
    (c : LruCache) (x : ℕ)
    → IsTable c.handles c.table
    → table_lookup c.handles c.table (c.handles x).key (c.handles x).hash ≡ some x
    → (c.handles x).refs ≡ 1
    → (usage' : ℕ) × (erase c (c.handles x).key (c.handles x).hash ≡ evicted c x usage')
unfolding erase finish_erase
erase-evicted c x w found one =
    let key = (c.handles x).key in
    let hash = (c.handles x).hash in
    let (_, same, _) = table_remove-table_lookup c.handles c.table key hash w in
    let c1 : LruCache = record c { table = (table_remove c.handles c.table key hash).1 } in
    let m1 = lru_remove c.handles x in
    let m2 = update m1 x (record (m1 x) { in_cache = false }) in
    let usage' = (c.usage + (2 ^ 64 - (m2 x).charge % 2 ^ 64)) % 2 ^ 64 in
    (
      usage',
      ap (λ o. (finish_erase c1 o).0) (same ∙ found)
          ∙ unref-last (record c1 { handles = m2; usage = usage' }) x
              (erased-no_refs c.handles x one),
    )

-- What the eviction of the oldest idle entry makes of a cache: the others stay, and its deleter is called.
abbrev pub Evicts : LruCache → ℕ → List ℕ → LruCache → Type 0
Evicts c x xs c' =
    IsIdle c' xs
    × (c'.deleted ≡ call_of c.handles x ∷ c.deleted)
    × (c'.capacity ≡ c.capacity)
    × ((q : ℕ) → call_of c'.handles q ≡ call_of c.handles q)

evicted-Evicts :
    (c : LruCache) (x : ℕ) (xs : List ℕ) (usage' : ℕ)
    → IsIdle c (x ∷ xs)
    → Evicts c x xs (evicted c x usage')
evicted-Evicts c x xs usage' h =
    let m = c.handles in
    let m' = erased m x in
    let key = (m x).key in
    let hash = (m x).hash in
    let (found_x, found) = h.found in
    let (one, idle) = h.idle in
    let (links, (s_apart, (x_apart, p))) = h.ring in
    let (table', _, lookups) = table_remove-table_lookup m c.table key hash h.table_lem in
    let after = (table_remove m c.table key hash).1 in
    let same : SameKeys m m' = λ q. (
      erased-unseen (λ h. h.hash) m x q (λ h v. refl) (λ h v. refl) (λ h v. refl) (λ h v. refl),
      erased-unseen (λ h. h.key) m x q (λ h v. refl) (λ h v. refl) (λ h v. refl) (λ h v. refl),
    ) in
    let calls : (q : ℕ) → call_of m' q ≡ call_of m q = λ q.
      erased-unseen (λ h. (h.deleter, h.key, h.value)) m x q (λ h v. refl) (λ h v. refl)
        (λ h v. refl) (λ h v. refl) in
    let ((links', p'), _) = lru_remove-IsRing m lru x [] xs h.ring in
    (
      record {
        ring = (
          kept-Linked (lru_remove m x) m' lru xs lru ((erased-pointers m x lru).0)
              ((erased-pointers m x lru).1) (everywhere _ (λ q. erased-pointers m x q) xs) links',
          p',
        );
        table_lem = IsTable-SameKeys m m' same _ table';
        found =
            All-both (λ y. x ≢ y) (λ y. table_lookup m c.table (m y).key (m y).hash ≡ some y) _
              (λ y d f.
                ap (λ (k : Slice). table_lookup m' after k (m' y).hash) ((same y).1)
                ∙ ap (table_lookup m' after (m y).key) ((same y).0)
                ∙ table_lookup-SameKeys m m' same after (m y).key (m y).hash
                ∙ lookups (m y).key (m y).hash
                ∙ keeps y d f)
              xs x_apart found;
        idle =
            All-both (λ y. x ≢ y) (λ y. (m y).refs ≡ 1) (λ y. (m' y).refs ≡ 1)
              (λ y d r. erased-refs m x y d ∙ r) xs x_apart idle;
        few = omega (arith, h.few);
      },
      ap (λ t. t ∷ c.deleted) (calls x),
      refl,
      calls,
    )
  where
    keeps :
        (y : ℕ)
        → x ≢ y
        → table_lookup c.handles c.table (c.handles y).key (c.handles y).hash ≡ some y
        → (if same_key (c.handles x).key (c.handles x).hash (c.handles y).key (c.handles y).hash
            then none
            else table_lookup c.handles c.table (c.handles y).key (c.handles y).hash)
          ≡ some y
    keeps y d f =
        elim (Bool-cases
          (same_key (c.handles x).key (c.handles x).hash (c.handles y).key (c.handles y).hash)) [
            | inl s ↦
                let (eh, ek) =
                  same_key→eq (c.handles x).key (c.handles x).hash (c.handles y).key
                    (c.handles y).hash s in
                let both : Path (Option ℕ) (some x) (some y) =
                  sym (h.found.0)
                  ∙ ap (λ (k : Slice). table_lookup c.handles c.table k (c.handles x).hash) (sym ek)
                  ∙ ap (table_lookup c.handles c.table (c.handles y).key) eh
                  ∙ f in
                absurd (d (of_some x y both))
            | inr n ↦ rw n f
          ]

    everywhere : (P : ℕ → Type 0) → ((x : ℕ) → P x) → (xs : List ℕ) → All P xs
    everywhere P f [] = tt
    everywhere P f (x ∷ xs) = (f x, everywhere P f xs)

pub evict-Evicts :
    (c : LruCache) (x : ℕ) (xs : List ℕ) → IsIdle c (x ∷ xs) → Evicts c x xs (evict c)
unfolding evict
evict-Evicts c x xs h =
    let (oldest, _, _) = h.ring.0 in
    let (usage', e) = erase-evicted c x h.table_lem (h.found.0) (h.idle.0) in
    subst (Evicts c x xs) (sym (ap (λ y. erase c (c.handles y).key (c.handles y).hash) oldest ∙ e))
      (evicted-Evicts c x xs usage' h)
