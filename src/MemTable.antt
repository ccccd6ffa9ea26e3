-- ===== src/MemTable.antt =====
-- db/memtable.h and db/memtable.cc: the entries of the memtable, its table, `Add` and `Get`.
pub mod Entries
pub mod Lookup
pub mod EntryOrder
pub mod Newest
pub mod History
use mini_leveldb.Base.{ℕ, ◌+◌, ◌-◌, ◌*◌, ◌%◌, ◌^◌, Bool, true, false, [], ◌++◌, Option, none, some}
use mathlib.Core.Option
use mini_leveldb.Base.{leb, bit_and, bit_or, ◌==◌, if◌then◌else◌, length, take, drop}
use mini_leveldb.Slice.{Slice, Sign, is_equal}
use mini_leveldb.Coding.{
  encode_varint32, varint_length, encode_fixed64, decode_fixed64, get_varint32_ptr, put_varint32,
}
use mini_leveldb.Status.{Status, make_not_found}
use mini_leveldb.Comparator.{Comparator}
use mini_leveldb.SkipList.{SkipList, new_skip_list, insert, iterator_key, iterator_seek}
use mini_leveldb.DbFormat.{
  type_value, type_deletion, internal_compare, LookupKey, memtable_key, user_key,
}

-- `GetVarint32Ptr(p, p + 5, &len)`: the length and what stands behind it.
unfoldable pub behind : Slice → Option (ℕ × Slice) → Option (ℕ × Slice)
behind p none = none
behind p (some (len, left)) = some (len, drop (length (take 5 p) - length left) p)

unfoldable pub length_at : Slice → Option (ℕ × Slice)
unfolding get_varint32_ptr behind
length_at p = behind p (get_varint32_ptr (take 5 p))

-- `GetLengthPrefixedSlice`; the code assumes that the data is not corrupted.
unfoldable pub slice_behind : Option (ℕ × Slice) → Slice
slice_behind none = []
slice_behind (some (len, p)) = take len p

unfoldable pub length_prefixed_slice : Slice → Slice
unfolding length_at slice_behind
length_prefixed_slice data' = slice_behind (length_at data')

-- `MemTable::KeyComparator`.
unfoldable pub compare_entries : Comparator → Slice → Slice → Sign
unfolding length_prefixed_slice internal_compare
compare_entries c aptr bptr =
    internal_compare c (length_prefixed_slice aptr) (length_prefixed_slice bptr)

-- `EncodeKey`: the scratch string that it leaves.
unfoldable pub encode_key : Slice → Slice
unfolding put_varint32
encode_key target = put_varint32 [] (length target % 2 ^ 32) ++ target

-- The buffer that `MemTable::Add` fills and inserts into the table, and the length that it allocates.
unfoldable pub entry : (s type : ℕ) → (key value : Slice) → Slice
entry s type key value =
    encode_varint32 ((length key + 8) % 2 ^ 32)
    ++ (key
        ++ (encode_fixed64 (bit_or (s * 2 ^ 8 % 2 ^ 64) type)
            ++ (encode_varint32 (length value % 2 ^ 32) ++ value)))

unfoldable pub encoded_len : (key value : Slice) → ℕ
encoded_len key value =
    let internal_key_size = length key + 8 in
    varint_length internal_key_size
    + internal_key_size
    + varint_length (length value)
    + length value

-- What `Get` makes of the key of an entry: the answer, `*value` and `*s`.
unfoldable pub get_at :
    Comparator → (key_length : ℕ) → (key_ptr ukey value : Slice) → Status → Bool × Slice × Status
unfolding length_prefixed_slice
get_at c key_length key_ptr ukey value s =
    let tag = decode_fixed64 (drop (key_length - 8) key_ptr) in
    let t = bit_and tag 0xff in
    if is_equal (c.compare (take ((key_length + (2 ^ 32 - 8)) % 2 ^ 32) key_ptr) ukey)
    then (if t == type_value
        then (true, length_prefixed_slice (drop key_length key_ptr), s)
        else if t == type_deletion
        then (true, value, make_not_found [] [])
        else (false, value, s))
    else (false, value, s)

unfoldable pub get_from :
    Comparator → (ukey value : Slice) → Status → Option (ℕ × Slice) → Bool × Slice × Status
unfolding get_at
get_from c ukey value s none = (false, value, s)
get_from c ukey value s (some (key_length, key_ptr)) = get_at c key_length key_ptr ukey value s

unfoldable pub get_found :
    Comparator → (ukey value : Slice) → Status → Option Slice → Bool × Slice × Status
unfolding length_at get_from
get_found c ukey value s none = (false, value, s)
get_found c ukey value s (some e) = get_from c ukey value s (length_at e)

-- `MemTable::Get`, from the seek that finds an entry of the table.
unfoldable pub get :
    Comparator → (Slice → Option Slice) → LookupKey → Slice → Status → Bool × Slice × Status
unfolding get_found
get c seek key value s = get_found c (user_key key) value s (seek (memtable_key key))

-- `MemTableIterator::value`: what stands behind the key of an entry.
unfoldable pub value_behind : Option (ℕ × Slice) → Slice
unfolding length_prefixed_slice
value_behind none = []
value_behind (some (len, p)) = length_prefixed_slice (drop len p)

unfoldable pub entry_value : Slice → Slice
unfolding length_at value_behind
entry_value e = value_behind (length_at e)

-- The count of the references, and the table, whose keys are pointers to the bytes of entries; the
-- arena holds the memory of both.
pub record MemTable : Type 0 where
  pub refs : ℕ
  pub table : SkipList Slice

unfoldable pub new_mem_table : MemTable
unfolding new_skip_list
new_mem_table = record { refs = 0; table = new_skip_list [] }

unfoldable pub ref_ : MemTable → MemTable
ref_ mem = record mem { refs = mem.refs + 1 }

-- `none` is a memtable that was deleted.
unfoldable pub unref : MemTable → Option MemTable
unref mem = if leb (mem.refs - 1) 0 then none else some (record mem { refs = mem.refs - 1 })

-- `none` means here and below that a search of the table did not end.
unfoldable pub add : Comparator → MemTable → (s type : ℕ) → (key value : Slice) → Option MemTable
unfolding entry compare_entries insert
add c mem s type key value =
    Option.map (λ table. record mem { table = table })
      (insert (compare_entries c) mem.table (entry s type key value))

-- The entry at an iterator of the table.
unfoldable pub entry_at : SkipList Slice → Option ℕ → Option Slice
unfolding iterator_key
entry_at table pos = Option.map (iterator_key table) pos

-- `MemTable::Get` in the table.
unfoldable pub mem_get :
    Comparator → MemTable → LookupKey → Slice → Status → Option (Bool × Slice × Status)
unfolding get entry_at compare_entries iterator_seek
mem_get c mem key value s =
    Option.map (λ pos. get c (λ target. entry_at mem.table pos) key value s)
      (iterator_seek (compare_entries c) mem.table (memtable_key key))

-- `MemTableIterator::Seek`.
unfoldable pub mem_seek : Comparator → MemTable → Slice → Option (Option ℕ)
unfolding encode_key compare_entries iterator_seek
mem_seek c mem k = iterator_seek (compare_entries c) mem.table (encode_key k)
