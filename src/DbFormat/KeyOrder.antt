-- ===== src/DbFormat/KeyOrder.antt =====
-- The order of internal keys, and the shortening of them, over any comparator of user keys.
use mini_leveldb.Base.{
  ℕ, ◌+◌, ◌*◌, ◌^◌, ◌<◌, ◌≡◌, refl, ap, sym, ◌∙◌, ◌⊎◌, arith, [], ◌++◌, inl, inr,
}
use mini_leveldb.Base.{ltb, if◌then◌else◌}
use mini_leveldb.Slice.{Slice, Sign, less, equal, greater}
use mini_leveldb.Slice.Order.{flip_sign}
use mini_leveldb.Coding.{put_fixed64, encode_fixed64}
use mini_leveldb.Comparator.{Comparator, IsThreeWay}
use mini_leveldb.DbFormat.{
  ParsedInternalKey, append_internal_key, extract_user_key, internal_compare,
}
use mini_leveldb.DbFormat.Keys.{
  IsPackable, pack-sum, length-encode_fixed64, front_of, decode-tag_of,
}

-- The second sign where the first one is zero.
abbrev pub then_by : Sign → Sign → Sign
then_by equal s = s
then_by less _ = less
then_by greater _ = greater

-- Larger numbers first.
abbrev pub descending : ℕ → ℕ → Sign
descending m n = if ltb n m then less else if ltb m n then greater else equal

-- User keys in the user's order; for one user key the newest entry first, and of one sequence number
-- the higher type first.
unfoldable pub key_order : Comparator → ParsedInternalKey → ParsedInternalKey → Sign
key_order c a b =
    then_by (c.compare a.user_key b.user_key)
      (then_by (descending a.sequence b.sequence) (descending a.type b.type))

-- The comparison of two keys whose tags are known.
compare_tagged :
    (c : Comparator) (x y : Slice) (v w : ℕ)
    → v < 2 ^ 64
    → w < 2 ^ 64
    → internal_compare c (x ++ encode_fixed64 v) (y ++ encode_fixed64 w)
      ≡ then_by (c.compare x y) (descending v w)
unfolding internal_compare extract_user_key
compare_tagged c x y v w hv hw =
    rw
      (
        decode-tag_of x v hv,
        decode-tag_of y w hw,
        front_of x (encode_fixed64 v) (length-encode_fixed64 v),
        front_of y (encode_fixed64 w) (length-encode_fixed64 w),
      )
      (ground arith)

descending_tags :
    (s t s' t' : ℕ)
    → t < 256
    → t' < 256
    → descending (t + s * 2 ^ 8) (t' + s' * 2 ^ 8) ≡ then_by (descending s s') (descending t t')
descending_tags s t s' t' h h' = ground arith

-- `InternalKeyComparator::Compare` orders two encoded keys by user key in the order of the user's
-- comparator, then by decreasing sequence number, then by decreasing type; for sequence numbers of
-- at most 56 bits.
pub internal_compare-key_order :
    (c : Comparator) (a b : ParsedInternalKey)
    → IsPackable a
    → IsPackable b
    → internal_compare c (append_internal_key [] a) (append_internal_key [] b) ≡ key_order c a b
unfolding append_internal_key put_fixed64 key_order
internal_compare-key_order c a b ha hb =
    rw
      (
        pack-sum a.sequence a.type ha.sequence_fits (omega (arith, ha.type_fits)),
        pack-sum b.sequence b.type hb.sequence_fits (omega (arith, hb.type_fits)),
      )
      (compare_tagged c a.user_key b.user_key (a.type + a.sequence * 2 ^ 8)
          (b.type + b.sequence * 2 ^ 8) (omega (arith, ha.sequence_fits, ha.type_fits))
          (omega (arith, hb.sequence_fits, hb.type_fits))
        ∙ ap (then_by (c.compare a.user_key b.user_key)) (
            descending_tags a.sequence a.type b.sequence b.type (omega (arith, ha.type_fits))
              (omega (arith, hb.type_fits))))

-- The laws of a total order that answers zero exactly on equal keys.
pub record IsKeyOrder (order : ParsedInternalKey → ParsedInternalKey → Sign) : Type 0 where
  pub self : (a : ParsedInternalKey) → order a a ≡ equal
  pub eq_of_equal : (a b : ParsedInternalKey) → order a b ≡ equal → a ≡ b
  pub flip : (a b : ParsedInternalKey) → order b a ≡ flip_sign (order a b)
  pub trans : (a b d : ParsedInternalKey) → order a b ≡ less → order b d ≡ less → order a d ≡ less

pub flip-then_by : (s t : Sign) → flip_sign (then_by s t) ≡ then_by (flip_sign s) (flip_sign t)
flip-then_by less t = refl
flip-then_by equal t = refl
flip-then_by greater t = refl

then_by-equal : (s t : Sign) → then_by s t ≡ equal → (s ≡ equal) × (t ≡ equal)
then_by-equal s t h = ground arith

then_by-less : (s t : Sign) → then_by s t ≡ less → (s ≡ less) ⊎ ((s ≡ equal) × (t ≡ less))
then_by-less s t h = ground arith

-- The order of two entries of one user key.
abbrev newest_first : (s t s' t' : ℕ) → Sign
newest_first s t s' t' = then_by (descending s s') (descending t t')

newest_first_flip : (s t s' t' : ℕ) → newest_first s' t' s t ≡ flip_sign (newest_first s t s' t')
newest_first_flip s t s' t' = ground arith

newest_first_equal : (s t s' t' : ℕ) → newest_first s t s' t' ≡ equal → (s ≡ s') × (t ≡ t')
newest_first_equal s t s' t' h = ground arith

newest_first_trans :
    (s t s' t' s'' t'' : ℕ)
    → newest_first s t s' t' ≡ less
    → newest_first s' t' s'' t'' ≡ less
    → newest_first s t s'' t'' ≡ less
newest_first_trans s t s' t' s'' t'' h k = ground arith

same_key :
    {u u' : Slice} {s s' t t' : ℕ}
    → u ≡ u'
    → (s ≡ s') × (t ≡ t')
    → Path ParsedInternalKey
        (record { user_key = u; sequence = s; type = t })
        (record { user_key = u'; sequence = s'; type = t' })
same_key e (f, g) = rw (e, f, g) refl

-- Transitivity of a three-way order, with zero in the place of the first or the second sign.
module _ (c : Comparator) (laws : IsThreeWay c) where
  trans_first :
      (x y z : Slice) (t : Sign)
      → c.compare x y ≡ less
      → (c.compare y z ≡ less) ⊎ ((c.compare y z ≡ equal) × (t ≡ less))
      → c.compare x z ≡ less
  trans_first x y z t h (inl k) = laws.trans x y z h k
  trans_first x y z t h (inr (k, _)) = rw (sym (laws.eq_of_equal y z k)) h

  pub then_by_trans :
      (x y z : Slice) (s t u : Sign)
      → (s ≡ less → t ≡ less → u ≡ less)
      → then_by (c.compare x y) s ≡ less
      → then_by (c.compare y z) t ≡ less
      → then_by (c.compare x z) u ≡ less
  then_by_trans x y z s t u both h k =
      let second = then_by-less (c.compare y z) t k in
      elim (then_by-less (c.compare x y) s h) [
        | inl lt ↦ rw (trans_first x y z t lt second) refl
        | inr (e, age) ↦
            let moved : c.compare x z ≡ c.compare y z =
              ap (λ (w : Slice). c.compare w z) (laws.eq_of_equal x y e) in
            elim second [
              | inl lt ↦ rw (moved ∙ lt) refl
              | inr (e', age') ↦ rw (moved ∙ e') (both age age')
            ]
      ]

-- Over a three-way comparator of user keys, the order of internal keys is a total order that answers
-- zero exactly on equal keys.
pub key_order-IsKeyOrder : (c : Comparator) → IsThreeWay c → IsKeyOrder (key_order c)
unfolding key_order
key_order-IsKeyOrder c laws = record {
  self = λ a. rw (laws.self a.user_key) (ground arith);
  eq_of_equal = λ a b h.
      let (e, age) = then_by-equal (c.compare a.user_key b.user_key) _ h in
      same_key (laws.eq_of_equal a.user_key b.user_key e)
        (newest_first_equal a.sequence a.type b.sequence b.type age);
  flip = λ a b.
      rw (laws.flip a.user_key b.user_key, newest_first_flip a.sequence a.type b.sequence b.type)
        (sym (
          flip-then_by (c.compare a.user_key b.user_key)
            (newest_first a.sequence a.type b.sequence b.type)));
  trans = λ a b d.
      then_by_trans c laws a.user_key b.user_key d.user_key _ _ _
        (newest_first_trans a.sequence a.type b.sequence b.type d.sequence d.type);
}
