-- ===== src/Cache/SameKeys.antt =====
-- Memory in which the keys and hashes stay: the hash table finds the same in it.
use mini_leveldb.Base.{ℕ, ◌≡◌, refl, ap, ◌∙◌, List, [], ◌∷◌, some}
use mini_leveldb.Base.{if◌then◌else◌, All-map, get_or}
use mini_leveldb.Slice.{Slice}
use mini_leveldb.Cache.{LruHandle, HandleTable, is_entry, find_in, bucket_of, table_lookup}
use mini_leveldb.Cache.Table.{same_key, Unique}
use mini_leveldb.Cache.Map.{IsTable}

abbrev pub SameKeys : (m m' : ℕ → LruHandle) → Type 0
SameKeys m m' = (q : ℕ) → ((m' q).hash ≡ (m q).hash) × ((m' q).key ≡ (m q).key)

module _ (m m' : ℕ → LruHandle) (same : SameKeys m m') where
  find_in-SameKeys :
      (key : Slice) (hash : ℕ) (b : List ℕ) → find_in m' key hash b ≡ find_in m key hash b
  unfolding find_in is_entry
  find_in-SameKeys key hash [] = refl
  find_in-SameKeys key hash (x ∷ xs) =
      let (eh, ek) = same x in
      ap (λ t. if same_key (m' x).key (m' x).hash key hash then some x else t)
        (find_in-SameKeys key hash xs)
      ∙ ap (λ n. if same_key (m' x).key n key hash then some x else find_in m key hash xs) eh
      ∙ ap (λ (k : Slice). if same_key k (m x).hash key hash then some x else find_in m key hash xs)
          ek

  Unique-SameKeys : (b : List ℕ) → Unique m b → Unique m' b
  Unique-SameKeys [] u = tt
  Unique-SameKeys (x ∷ xs) (n, u) =
      let (eh, ek) = same x in
      (
        find_in-SameKeys (m' x).key (m' x).hash xs
            ∙ ap (λ y. find_in m (m' x).key y xs) eh
            ∙ ap (λ (k : Slice). find_in m k (m x).hash xs) ek
            ∙ n,
        Unique-SameKeys xs u,
      )

  pub IsTable-SameKeys : (t : HandleTable) → IsTable m t → IsTable m' t
  IsTable-SameKeys t w = record {
    buckets = record {
      bits = w.buckets.bits;
      sized = w.buckets.sized;
      counted = w.buckets.counted;
      placed = λ i.
          All-map (λ h. bucket_of t.length_ (m h).hash ≡ i)
            (λ h. bucket_of t.length_ (m' h).hash ≡ i)
            (λ h e. ap (bucket_of t.length_) ((same h).0) ∙ e) (get_or t.list i [])
            (w.buckets.placed i);
      unique = λ i. Unique-SameKeys (get_or t.list i []) (w.buckets.unique i);
    };
    small = w.small;
    counted = w.counted;
  }

  pub table_lookup-SameKeys :
      (t : HandleTable) (key : Slice) (hash : ℕ)
      → table_lookup m' t key hash ≡ table_lookup m t key hash
  unfolding table_lookup
  table_lookup-SameKeys t key hash =
      find_in-SameKeys key hash (get_or t.list (bucket_of t.length_ hash) [])
