-- ===== src/MemTable/EntryOrder.antt =====
-- The comparator of the memtable as a total order of byte strings, which the skip list asks for.
use mini_leveldb.Base.{ℕ, ◌-◌, ◌≡◌, ap, sym, ◌∙◌, arith}
use mini_leveldb.Base.{ltb, if◌then◌else◌, length, drop}
use mini_leveldb.Slice.{Slice, Sign, less, equal, greater, is_equal}
use mini_leveldb.Slice.Order.{flip_sign}
use mini_leveldb.Coding.{decode_fixed64}
use mini_leveldb.Comparator.{Comparator, IsThreeWay}
use mini_leveldb.DbFormat.{extract_user_key, internal_compare}
use mini_leveldb.DbFormat.KeyOrder.{then_by, descending, then_by_trans, flip-then_by}
use mini_leveldb.MemTable.{length_prefixed_slice, compare_entries}
use mini_leveldb.SkipList.Chain.{IsOrder}

abbrev tag_of : Slice → ℕ
tag_of k = decode_fixed64 (drop (length k - 8) k)

with_tags :
    (r : Sign) (m n : ℕ)
    → (if is_equal r then (if ltb n m then less else if ltb m n then greater else r) else r)
      ≡ then_by r (descending m n)
with_tags r m n = ground arith

internal_compare-then_by :
    (c : Comparator) (a b : Slice)
    → internal_compare c a b
      ≡ then_by
          (c.compare (extract_user_key a) (extract_user_key b))
          (descending (tag_of a) (tag_of b))
unfolding internal_compare
internal_compare-then_by c a b =
    with_tags (c.compare (extract_user_key a) (extract_user_key b)) (tag_of a) (tag_of b)

descending_self : (m : ℕ) → descending m m ≡ equal
descending_self m = ground arith

descending_flip : (m n : ℕ) → descending n m ≡ flip_sign (descending m n)
descending_flip m n = ground arith

descending_trans :
    (m n k : ℕ) → descending m n ≡ less → descending n k ≡ less → descending m k ≡ less
descending_trans m n k h h' = ground arith

internal_compare-IsOrder : (c : Comparator) → IsThreeWay c → IsOrder (internal_compare c)
internal_compare-IsOrder c laws = record {
  self = λ a.
      internal_compare-then_by c a a
      ∙ rw (laws.self (extract_user_key a)) (descending_self (tag_of a));
  flip = λ a b.
      internal_compare-then_by c b a
      ∙ rw
          (
            laws.flip (extract_user_key a) (extract_user_key b),
            descending_flip (tag_of a) (tag_of b),
          )
          (sym (
            flip-then_by (c.compare (extract_user_key a) (extract_user_key b))
              (descending (tag_of a) (tag_of b))))
      ∙ ap flip_sign (sym (internal_compare-then_by c a b));
  trans = λ a b d h k.
      internal_compare-then_by c a d
      ∙ then_by_trans c laws (extract_user_key a) (extract_user_key b) (extract_user_key d) _ _ _
          (descending_trans (tag_of a) (tag_of b) (tag_of d))
          (sym (internal_compare-then_by c a b) ∙ h) (sym (internal_compare-then_by c b d) ∙ k);
}

-- Over a three-way comparator of user keys, the memtable's comparator is a total order of all byte
-- strings, of entries and of what a lookup puts in their place.
pub compare_entries-IsOrder : (c : Comparator) → IsThreeWay c → IsOrder (compare_entries c)
unfolding compare_entries
compare_entries-IsOrder c laws =
    let o = internal_compare-IsOrder c laws in
    record {
      self = λ a. o.self (length_prefixed_slice a);
      flip = λ a b. o.flip (length_prefixed_slice a) (length_prefixed_slice b);
      trans = λ a b d.
          o.trans (length_prefixed_slice a) (length_prefixed_slice b) (length_prefixed_slice d);
    }
