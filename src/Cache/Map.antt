-- ===== src/Cache/Map.antt =====
-- `HandleTable::Insert` and `Remove` as those of a map from keys with their hashes.
use mini_leveldb.Base.{
  ℕ, ◌+◌, ◌%◌, ◌^◌, ◌<◌, ◌≤◌, ◌≡◌, refl, ◌∙◌, arith, Bool, true, false, [], Option, none, some,
}
use mini_leveldb.Base.{sym, length, ltb, if◌then◌else◌, get_or, set}
use mini_leveldb.Slice.{Slice}
use mini_leveldb.Cache.{
  LruHandle, HandleTable, new_handle_table, grow_length, move_buckets, put_in, take_out, bucket_of,
  table_lookup, table_insert, count_insert, table_remove, count_remove, resize,
}
use mini_leveldb.Cache.Table.{
  same_key, find_in-put_in, put_in-Unique, put_in-All, find_in-take_out, take_out-Unique,
  take_out-All,
}
use mini_leveldb.Cache.Buckets.{IsBuckets, set-lookup_in, set-IsBuckets, replicate-IsBuckets}
use mini_leveldb.Cache.Resize.{in_range, resize-table_lookup}
use mini_leveldb.Cache.Flat.{flat}
use mini_leveldb.Cache.Count.{
  one_unless, one_if, length-flat-set, length-put_in, length-take_out, length-resize,
}

-- The table is well formed, and its count is the number of its entries, and no more than 2^31.
pub record IsTable (m : ℕ → LruHandle) (t : HandleTable) : Type 0 where
  pub buckets : IsBuckets m t.length_ t.list
  pub small : t.elems ≤ 2 ^ 31
  pub counted : t.elems ≡ length (flat t.list)

pub new_handle_table-IsTable : (m : ℕ → LruHandle) → IsTable m (new_handle_table m)
unfolding new_handle_table resize grow_length move_buckets
new_handle_table-IsTable m = record {
  buckets = replicate-IsBuckets m 4 2 (omega arith);
  small = omega arith;
  counted = refl;
}

module _ (m : ℕ → LruHandle) where
  -- Two tables find the same.
  abbrev Agree : HandleTable → HandleTable → Type 0
  Agree t t' = (key : Slice) (hash : ℕ) → table_lookup m t' key hash ≡ table_lookup m t key hash

  resize_if :
      (b : Bool) (t : HandleTable)
      → IsBuckets m t.length_ t.list
      → t.elems ≤ 2 ^ 31
      → t.elems ≡ length (flat t.list)
      → IsBuckets m (if b then resize m t else t).length_ (if b then resize m t else t).list
        × ((if b then resize m t else t).elems ≤ 2 ^ 31)
        × ((if b then resize m t else t).elems ≡ length (flat (if b then resize m t else t).list))
        × Agree t (if b then resize m t else t)
  unfolding resize
  resize_if true t w e k =
      let (w', _, same) = resize-table_lookup m t w e in
      (w', e, k ∙ sym (length-resize m t e), same)
  resize_if false t w e k = (w, e, k, λ key hash. refl)

  count_insert-Agree :
      (t : HandleTable) (old : Option ℕ)
      → IsBuckets m t.length_ t.list
      → t.elems < 2 ^ 31
      → length (flat t.list) ≡ t.elems + one_unless old
      → IsTable m (count_insert m t old) × Agree t (count_insert m t old)
  unfolding count_insert table_lookup
  count_insert-Agree t (some old) w e k = (
    record { buckets = w; small = omega (arith, k); counted = omega (arith, k) },
    λ key hash. refl,
  )
  count_insert-Agree t none w e k =
      let t1 : HandleTable = record t { elems = (t.elems + 1) % 2 ^ 32 } in
      let (w', e', k', same) =
        resize_if (ltb t.length_ t1.elems) t1 w (omega arith) (omega (arith, k)) in
      (record { buckets = w'; small = e'; counted = k' }, same)

  -- `Insert` of an entry keeps the table well formed, its count the number of its entries, whether it
  -- grows or not, and returns what was found
  -- for its key and hash; from then on the entry is found for them, and for all others what was found
  -- before. The table has less than 2^31 entries.
  pub table_insert-table_lookup :
      (t : HandleTable) (e : ℕ)
      → IsTable m t
      → t.elems < 2 ^ 31
      → IsTable m (table_insert m t e).1
        × ((table_insert m t e).0 ≡ table_lookup m t (m e).key (m e).hash)
        × ((key : Slice) (hash : ℕ)
            → table_lookup m (table_insert m t e).1 key hash ≡ (
                if same_key (m e).key (m e).hash key hash
                then some e
                else table_lookup m t key hash))
  unfolding table_insert table_lookup
  table_insert-table_lookup t e w few =
      let n = t.length_ in
      let i = bucket_of n (m e).hash in
      let chain = put_in m (m e).key (m e).hash e (get_or t.list i []) in
      let low = in_range m n t.list (m e).hash w.buckets in
      let t1 : HandleTable = record t { list = set t.list i chain } in
      let w1 =
        set-IsBuckets m n t.list i chain low w.buckets
          (put_in-All m _ (m e).key (m e).hash e _ refl (w.buckets.placed i))
          (put_in-Unique m e _ (w.buckets.unique i)) in
      let (w2, same) = count_insert-Agree t1 (table_lookup m t (m e).key (m e).hash) w1 few (
        omega (
          arith,
          w.counted,
          length-flat-set t.list i chain low,
          length-put_in m (m e).key (m e).hash e (get_or t.list i []),
        )) in
      (
        w2,
        refl,
        λ key hash.
            same key hash
            ∙ set-lookup_in m n t.list (m e).key (m e).hash chain (some e) low key hash
                (λ key hash. find_in-put_in m key hash e (get_or t.list i [])),
      )

  -- `Remove` keeps the table well formed, its count the number of its entries, and returns what was found for the key and hash; from then on
  -- nothing is found for them, and for all others what was found before.
  pub table_remove-table_lookup :
      (t : HandleTable) (key : Slice) (hash : ℕ)
      → IsTable m t
      → IsTable m (table_remove m t key hash).1
        × ((table_remove m t key hash).0 ≡ table_lookup m t key hash)
        × ((key' : Slice) (hash' : ℕ)
            → table_lookup m (table_remove m t key hash).1 key' hash'
              ≡ (if same_key key hash key' hash' then none else table_lookup m t key' hash'))
  unfolding table_remove table_lookup
  table_remove-table_lookup t key hash w =
      let n = t.length_ in
      let i = bucket_of n hash in
      let chain = take_out m key hash (get_or t.list i []) in
      let low = in_range m n t.list hash w.buckets in
      let t1 : HandleTable = record t { list = set t.list i chain } in
      let w1 =
        set-IsBuckets m n t.list i chain low w.buckets
          (take_out-All m _ key hash _ (w.buckets.placed i))
          (take_out-Unique m key hash _ (w.buckets.unique i)) in
      let (w2, same) = count_remove-Agree t1 (table_lookup m t key hash) w1 w.small (
        omega (
          arith,
          w.counted,
          length-flat-set t.list i chain low,
          length-take_out m key hash (get_or t.list i []),
        )) in
      (
        w2,
        refl,
        λ key' hash'.
            same key' hash'
            ∙ set-lookup_in m n t.list key hash chain none low key' hash' (λ key' hash'.
              find_in-take_out m key' key hash' hash (get_or t.list i []) (w.buckets.unique i)),
      )
    where
      count_remove-Agree :
          (t : HandleTable) (result : Option ℕ)
          → IsBuckets m t.length_ t.list
          → t.elems ≤ 2 ^ 31
          → length (flat t.list) + one_if result ≡ t.elems
          → IsTable m (count_remove t result) × Agree t (count_remove t result)
      count_remove-Agree t none w e k =
          (record { buckets = w; small = e; counted = omega (arith, k) }, λ key hash. refl)
      count_remove-Agree t (some r) w e k = (
        record { buckets = w; small = omega (arith, k); counted = omega (arith, k) },
        λ key hash. refl,
      )
