-- ===== src/MemTable/Newest.antt =====
-- Writes in the order of the memtable, and the newest one that a lookup may see.
use mini_leveldb.Base.{
  ℕ, ◌+◌, ◌^◌, ◌<◌, ◌≤◌, ◌≡◌, ◌≢◌, refl, ap, sym, ◌∙◌, inl, inr, arith, ◌⊎◌, not, Bool, true, false,
  ◌&&◌, List, [], ◌∷◌, Option, none, some,
}
use mini_leveldb.Base.{leb, if◌then◌else◌, length, All, Bool-cases}
use mini_leveldb.Slice.{Slice, Sign, less, equal, greater, is_equal, slice_eq}
use mini_leveldb.Slice.Order.{slice_eq_iff}
use mini_leveldb.Comparator.{Comparator, IsThreeWay}
use mini_leveldb.DbFormat.{ParsedInternalKey, is_less, value_type_for_seek}
use mini_leveldb.DbFormat.Keys.{IsPackable}
use mini_leveldb.DbFormat.KeyOrder.{key_order, key_order-IsKeyOrder, then_by, descending}
use mini_leveldb.SkipList.Chain.{IsOrder}
use mini_leveldb.SkipList.Find.{below}
use mini_leveldb.SkipList.Spec.{sorted_insert, SortedKeys}

-- One call of `Add`.
pub record Write : Type 0 where
  pub key : ParsedInternalKey
  pub value : Slice

-- Its key and value have lengths that fit 32 bits, and its sequence number 56.
pub record IsWrite (w : Write) : Type 0 where
  pub packable : IsPackable w.key
  pub short_key : length w.key.user_key + 8 < 2 ^ 32
  pub short_value : length w.value < 2 ^ 32

-- A lookup of a user key at a snapshot may see a write of that key that is not newer.
abbrev pub visible : Slice → ℕ → Write → Bool
visible u snapshot w = slice_eq w.key.user_key u && leb w.key.sequence snapshot

-- The first write that it may see.
abbrev pub find_visible : Slice → ℕ → List Write → Option Write
find_visible u snapshot [] = none
find_visible u snapshot (w ∷ ws) =
    let rest = find_visible u snapshot ws in if visible u snapshot w then some w else rest

module _ (c : Comparator) where
  abbrev pub write_order : Write → Write → Sign
  write_order a b = key_order c a.key b.key

  abbrev pub lookup_parsed : Slice → ℕ → ParsedInternalKey
  lookup_parsed u snapshot = record {
    user_key = u;
    sequence = snapshot;
    type = value_type_for_seek;
  }

  -- The first write that is not below a lookup.
  abbrev pub first_from : Slice → ℕ → List Write → Option Write
  first_from u snapshot [] = none
  first_from u snapshot (w ∷ ws) =
      let rest = first_from u snapshot ws in
      if is_less (key_order c w.key (lookup_parsed u snapshot)) then rest else some w

  abbrev pub only : Slice → Option Write → Option Write
  only u none = none
  only u (some w) = if slice_eq w.key.user_key u then some w else none

  pub write_order-IsOrder : IsThreeWay c → IsOrder write_order
  write_order-IsOrder laws =
      let o = key_order-IsKeyOrder c laws in
      record {
        self = λ a. o.self a.key;
        flip = λ a b. o.flip a.key b.key;
        trans = λ a b d. o.trans a.key b.key d.key;
      }

  module _ (laws : IsThreeWay c) where
    pub is_equal-slice_eq : (a u : Slice) → is_equal (c.compare a u) ≡ slice_eq a u
    is_equal-slice_eq a u = elim (Bool-cases (slice_eq a u)) [
      | inl e ↦
          let (to, _) = slice_eq_iff a u in
          let same : c.compare a u ≡ equal =
            ap (λ (x : Slice). c.compare x u) (to e) ∙ laws.self u in
          rw same (sym e)
      | inr e ↦
          let (_, from) = slice_eq_iff a u in
          let apart : c.compare a u ≢ equal =
            λ h. ground (arith, e, from (laws.eq_of_equal a u h)) in
          ground (arith, e, apart)
    ]

    -- The comparison of two writes where the first user keys are known to be equal or not.
    same_user :
        (a b : ParsedInternalKey)
        → slice_eq a.user_key b.user_key ≡ true
        → key_order c a b ≡ then_by (descending a.sequence b.sequence) (descending a.type b.type)
    unfolding key_order
    same_user a b e =
        let same : c.compare a.user_key b.user_key ≡ equal =
          ground (arith, is_equal-slice_eq a.user_key b.user_key, e) in
        rw same refl

    greater_first :
        (a b : ParsedInternalKey)
        → c.compare a.user_key b.user_key ≡ greater
        → key_order c a b ≢ less
    unfolding key_order
    greater_first a b g l = ground (arith, g, l)

    less_first :
        (a b : ParsedInternalKey) → c.compare a.user_key b.user_key ≡ less → key_order c a b ≡ less
    unfolding key_order
    less_first a b h = rw h refl

    -- A write behind one of a greater user key is of a greater user key.
    no_visible :
        (u : Slice) (snapshot : ℕ) (y : Write) (ws : List Write)
        → c.compare y.key.user_key u ≡ greater
        → All (λ z. write_order y z ≡ less) ws
        → find_visible u snapshot ws ≡ none
    no_visible u snapshot y [] h all = refl
    no_visible u snapshot y (z ∷ zs) h (lt, all) =
        let other : slice_eq z.key.user_key u ≡ false =
          elim (Bool-cases (slice_eq z.key.user_key u)) [
            | inl e ↦
                let (to, _) = slice_eq_iff z.key.user_key u in
                let above : c.compare y.key.user_key z.key.user_key ≡ greater =
                  ap (λ (x : Slice). c.compare y.key.user_key x) (to e) ∙ h in
                absurd (greater_first y.key z.key above lt)
            | inr e ↦ e
          ] in
        rw other (no_visible u snapshot y zs h all)

    tag_order :
        (m n t : ℕ) → t ≤ 1 → is_less (then_by (descending m n) (descending t 1)) ≡ not (leb m n)
    tag_order m n t h = ground arith

    -- The first write that is not below a lookup answers it, if it has the user key that is looked up.
    pub only-first_from :
        (u : Slice) (snapshot : ℕ) (ws : List Write)
        → SortedKeys write_order ws
        → All IsWrite ws
        → only u (first_from u snapshot ws) ≡ find_visible u snapshot ws
    only-first_from u snapshot [] s all = refl
    only-first_from u snapshot (y ∷ ys) (h, s) (p, all) =
        let rest = only-first_from u snapshot ys s all in
        let t = lookup_parsed u snapshot in
        elim (Bool-cases (slice_eq y.key.user_key u)) [
          | inl e ↦
              let test : is_less (key_order c y.key t) ≡ not (leb y.key.sequence snapshot) =
                ap is_less (same_user y.key t e)
                ∙ tag_order y.key.sequence snapshot y.key.type p.packable.type_fits in
              elim (Bool-cases (leb y.key.sequence snapshot)) [
                | inl old ↦ rw (test, old, e) refl
                | inr new ↦ rw (test, new, e) rest
              ]
          | inr e ↦ elim (sign_cases (c.compare y.key.user_key u)) [
            | inl lt ↦ rw (less_first y.key t lt, e) rest
            | inr (inl eq) ↦ absurd (ground (arith, is_equal-slice_eq y.key.user_key u, eq, e))
            | inr (inr gt) ↦
                let stop : is_less (key_order c y.key t) ≡ false =
                  ground (arith, greater_first y.key t gt) in
                rw (stop, e) (sym (no_visible u snapshot y ys gt h))
          ]
        ]
      where
        sign_cases : (s : Sign) → (s ≡ less) ⊎ ((s ≡ equal) ⊎ (s ≡ greater))
        sign_cases less = inl refl
        sign_cases equal = inr (inl refl)
        sign_cases greater = inr (inr refl)

    -- Of two writes that a lookup may see, the one in front is newer.
    newer_first :
        (u : Slice) (snapshot : ℕ) (y w : Write)
        → visible u snapshot y ≡ true
        → visible u snapshot w ≡ true
        → write_order y w ≡ less
        → w.key.sequence ≤ y.key.sequence
    newer_first u snapshot y w v v' h =
        let (to, _) = slice_eq_iff y.key.user_key u in
        let (to', _) = slice_eq_iff w.key.user_key u in
        let e : y.key.user_key ≡ w.key.user_key =
          to (ground (arith, v)) ∙ sym (to' (ground (arith, v'))) in
        let (_, from) = slice_eq_iff y.key.user_key w.key.user_key in
        let tags = sym (same_user y.key w.key (from e)) ∙ h in ground (arith, tags)

    -- A new write that is newer than all the others comes first.
    pub find_visible-sorted_insert :
        (u : Slice) (snapshot : ℕ) (w : Write) (ws : List Write)
        → All (λ v. v.key.sequence < w.key.sequence) ws
        → find_visible u snapshot (sorted_insert write_order w ws)
          ≡ find_visible u snapshot (w ∷ ws)
    find_visible-sorted_insert u snapshot w [] all = refl
    find_visible-sorted_insert u snapshot w (y ∷ ys) (h, all) =
        let rest = find_visible-sorted_insert u snapshot w ys all in
        elim (Bool-cases (below write_order w y)) [
          | inl e ↦ rw e (
              rw rest (
                both (visible u snapshot y) (visible u snapshot w) _ _ _ (λ v v'.
                  absurd (omega (arith, h, newer_first u snapshot y w v v' (of_less _ e))))))
          | inr e ↦ rw e refl
        ]
      where
        of_less : (s : Sign) → is_less s ≡ true → s ≡ less
        of_less s h = ground arith

        both :
            (b b' : Bool) (x x' x'' : Option Write)
            → (b ≡ true → b' ≡ true → x ≡ x')
            → (if b then x else if b' then x' else x'') ≡ (if b' then x' else if b then x else x'')
        both true true x x' x'' h = h refl refl
        both true false x x' x'' h = refl
        both false true x x' x'' h = refl
        both false false x x' x'' h = refl
