-- ===== src/FilterPolicy.antt =====
-- include/filter_policy.h: the interface of the filter policies.
use mini_leveldb.Base.{◌<◌, ◌^◌, ◌≡◌, List, Bool, true, drop, length}
use mathlib.Core.List.{Memᴰ}
use mini_leveldb.Slice.{Slice}

-- `CreateFilter` appends the filter of some keys to a string; `KeyMayMatch` asks a filter for a key.
pub record FilterPolicy : Type 0 where
  pub create_filter : List Slice → Slice → Slice
  pub key_may_match : Slice → Slice → Bool

-- What the comment on `KeyMayMatch` asks of every policy: the filter that was appended for some keys
-- answers true to each of them. The number of keys is an int.
abbrev pub NeverMisses : FilterPolicy → Type 0
NeverMisses policy =
    (keys : List Slice) (dst key : Slice)
    → length keys < 2 ^ 31
    → Memᴰ key keys
    → policy.key_may_match key (drop (length dst) (policy.create_filter keys dst)) ≡ true
