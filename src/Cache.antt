-- ===== src/Cache.antt =====
-- util/cache.cc: the entries of the cache and the hash table that finds them.
pub mod Table
pub mod Buckets
pub mod Flat
pub mod Resize
pub mod Count
pub mod Map
pub mod Lru
pub mod Ring
pub mod SameKeys
pub mod Erased
pub mod Evict
pub mod Prune
pub mod Sharded
use mini_leveldb.Base.{
  ℕ, zero, suc, ◌+◌, ◌-◌, ◌*◌, ◌%◌, ◌^◌, Bool, true, false, ◌&&◌, List, [], ◌∷◌, Option, none, some,
}
use mini_leveldb.Base.{update, bit_and, ltb, ◌==◌, if◌then◌else◌, get_or, set, replicate}
use mini_leveldb.Slice.{Slice, slice_eq}

-- `LRUHandle`, named by a number. The value and the deleter are pointers, which the cache only hands
-- on; the chain of `next_hash` pointers that starts in a bucket is kept as the list of its members.
pub record LruHandle : Type 0 where
  pub value : ℕ
  pub deleter : ℕ
  pub next : ℕ
  pub prev : ℕ
  pub charge : ℕ
  pub in_cache : Bool
  pub refs : ℕ
  pub hash : ℕ
  pub key : Slice

-- `HandleTable`: `length_`, `elems_` and the buckets of `list_`.
pub record HandleTable : Type 0 where
  pub length_ : ℕ
  pub elems : ℕ
  pub list : List (List ℕ)

-- The test that ends the loop of `FindPointer`.
unfoldable pub is_entry : Slice → ℕ → LruHandle → Bool
is_entry key hash h = (h.hash == hash) && slice_eq key h.key

-- What `FindPointer` finds in a bucket.
unfoldable pub find_in : (ℕ → LruHandle) → Slice → ℕ → List ℕ → Option ℕ
unfolding is_entry
find_in handles key hash [] = none
find_in handles key hash (h ∷ hs) =
    let rest = find_in handles key hash hs in if is_entry key hash (handles h) then some h else rest

-- `*ptr = h` behind it: the entry is replaced, or the new one stands at the end.
unfoldable pub put_in : (ℕ → LruHandle) → Slice → ℕ → ℕ → List ℕ → List ℕ
unfolding is_entry
put_in handles key hash e [] = e ∷ []
put_in handles key hash e (h ∷ hs) =
    let rest = put_in handles key hash e hs in
    if is_entry key hash (handles h) then e ∷ hs else h ∷ rest

-- `*ptr = result->next_hash`.
unfoldable pub take_out : (ℕ → LruHandle) → Slice → ℕ → List ℕ → List ℕ
unfolding is_entry
take_out handles key hash [] = []
take_out handles key hash (h ∷ hs) =
    let rest = take_out handles key hash hs in
    if is_entry key hash (handles h) then hs else h ∷ rest

unfoldable pub bucket_of : (length hash : ℕ) → ℕ
bucket_of length hash = bit_and hash (length - 1)

-- `while (new_length < elems_)`: a uint32 is doubled 32 times at most.
unfoldable pub grow_length : (rounds new_length elems : ℕ) → ℕ
grow_length zero new_length elems = new_length
grow_length (suc rounds) new_length elems =
    let more = grow_length rounds (new_length * 2 % 2 ^ 32) elems in
    if ltb new_length elems then more else new_length

-- The loop of `Resize` over a bucket: each entry goes to the front of its new bucket.
unfoldable pub move_bucket :
    (ℕ → LruHandle) → (new_length : ℕ) → List ℕ → List (List ℕ) → List (List ℕ)
unfolding bucket_of
move_bucket handles new_length [] new_list = new_list
move_bucket handles new_length (h ∷ hs) new_list =
    let i = bucket_of new_length (handles h).hash in
    move_bucket handles new_length hs (set new_list i (h ∷ get_or new_list i []))

unfoldable pub move_buckets :
    (ℕ → LruHandle) → (new_length : ℕ) → List (List ℕ) → List (List ℕ) → List (List ℕ)
unfolding move_bucket
move_buckets handles new_length [] new_list = new_list
move_buckets handles new_length (b ∷ bs) new_list =
    move_buckets handles new_length bs (move_bucket handles new_length b new_list)

unfoldable pub resize : (ℕ → LruHandle) → HandleTable → HandleTable
unfolding grow_length move_buckets
resize handles t =
    let new_length = grow_length 32 4 t.elems in
    record {
      length_ = new_length;
      elems = t.elems;
      list = move_buckets handles new_length t.list (replicate new_length []);
    }

unfoldable pub new_handle_table : (ℕ → LruHandle) → HandleTable
unfolding resize
new_handle_table handles = resize handles (record { length_ = 0; elems = 0; list = [] })

unfoldable pub table_lookup : (ℕ → LruHandle) → HandleTable → Slice → ℕ → Option ℕ
unfolding find_in bucket_of
table_lookup handles t key hash =
    find_in handles key hash (get_or t.list (bucket_of t.length_ hash) [])

-- `Insert` behind the replacement, which found `old`.
unfoldable pub count_insert : (ℕ → LruHandle) → HandleTable → (old : Option ℕ) → HandleTable
unfolding resize
count_insert handles t (some old) = t
count_insert handles t none =
    let t1 : HandleTable = record t { elems = (t.elems + 1) % 2 ^ 32 } in
    if ltb t.length_ t1.elems then resize handles t1 else t1

-- The old entry and the table.
unfoldable pub table_insert : (ℕ → LruHandle) → HandleTable → ℕ → Option ℕ × HandleTable
unfolding table_lookup put_in bucket_of count_insert
table_insert handles t e =
    let h = handles e in
    let i = bucket_of t.length_ h.hash in
    let old = table_lookup handles t h.key h.hash in
    let list' = set t.list i (put_in handles h.key h.hash e (get_or t.list i [])) in
    (old, count_insert handles (record t { list = list' }) old)

unfoldable pub count_remove : HandleTable → (result : Option ℕ) → HandleTable
count_remove t none = t
count_remove t (some result) = record t { elems = (t.elems + (2 ^ 32 - 1)) % 2 ^ 32 }

unfoldable pub table_remove : (ℕ → LruHandle) → HandleTable → Slice → ℕ → Option ℕ × HandleTable
unfolding table_lookup take_out bucket_of count_remove
table_remove handles t key hash =
    let i = bucket_of t.length_ hash in
    let result = table_lookup handles t key hash in
    let list' = set t.list i (take_out handles key hash (get_or t.list i [])) in
    (result, count_remove (record t { list = list' }) result)
