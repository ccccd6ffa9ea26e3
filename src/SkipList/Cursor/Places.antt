-- ===== src/SkipList/Cursor/Places.antt =====
-- The three ways to place an iterator: `Seek`, `SeekToFirst` and `SeekToLast`.
use mini_leveldb.Base.{
  ℕ, ◌≤◌, ◌<◌, ◌≡◌, refl, sym, ap, ◌∙◌, inl, inr, arith, true, List, [], ◌∷◌, Option, some,
}
use mini_leveldb.Base.{if◌then◌else◌, All, append-nil, Bool-cases}
use mathlib.Core.Path.{subst}
use mathlib.Core.Option
use mini_leveldb.Slice.{Sign}
use mini_leveldb.SkipList.{
  SkipList, unless_head, iterator_seek, iterator_seek_to_first, iterator_seek_to_last,
}
use mini_leveldb.SkipList.Chain.{
  IsOrder, Item, first_at, last_at, Links-Points, before, after, after-All, keys,
}
use mini_leveldb.SkipList.Find.{below, head, IsList}
use mini_leveldb.SkipList.Search.{all-before, find_greater_or_equal-Found, find_last_lem}
use mini_leveldb.SkipList.Spec.{Holds, ptr_of, first_at-ptr_of}
use mini_leveldb.SkipList.Cursor.{
  rev_onto, rev_onto-rev_onto, rev_onto-All, keys-rev_onto, top, last_at-top, At, unless_head-top,
}

module _ {K : Type 0} (compare : K → K → Sign) where
  -- The first key that is not below another one.
  abbrev pub seek_key : K → (front rest : List K) → List K × List K
  seek_key key front [] = (front, [])
  seek_key key front (k ∷ rest) =
      let on = seek_key key (k ∷ front) rest in
      if below compare key k then on else (front, k ∷ rest)

  -- The last key, from the keys in reverse.
  abbrev pub last_of : List K → List K × List K
  last_of [] = ([], [])
  last_of (k ∷ front) = (front, k ∷ [])

  seek_key-after :
      (key : K) (b r : List (Item K))
      → (b' : List (Item K)) × (rev_onto b' (after (below compare key) r) ≡ rev_onto b r)
        × (keys b' ≡ (seek_key key (keys b) (keys r)).0)
        × (keys (after (below compare key) r) ≡ (seek_key key (keys b) (keys r)).1)
  unfolding after
  seek_key-after key b [] = (b, refl, refl, refl)
  seek_key-after key b (y ∷ ys) = elim (Bool-cases (below compare key y.key)) [
    | inl e ↦ rw e (seek_key-after key (y ∷ b) ys)
    | inr e ↦ rw e (b, refl, refl, refl)
  ]

  iterator_seek-At :
      IsOrder compare
      → (list : SkipList K) (ks : List K) (key : K) → Holds compare list ks
      → (pos : Option ℕ) × (iterator_seek compare list key ≡ some pos)
        × At compare list (seek_key key [] ks).0 (seek_key key [] ks).1 pos
  unfolding iterator_seek
  iterator_seek-At o list ks key (chain, h, e) =
      let c = after (below compare key) chain in
      let (prev, found, _) = find_greater_or_equal-Found compare o list chain key h in
      let (b, whole, front, rest) = seek_key-after key [] chain in
      (
        first_at 0 c,
        ap (λ t. Option.map (λ f. f.0) t) found,
        (
          b,
          c,
          subst (λ t. IsList compare list t) (sym whole) h,
          front ∙ ap (λ t. (seek_key key [] t).0) e,
          rest ∙ ap (λ t. (seek_key key [] t).1) e,
          first_at-ptr_of list.max_height c (after-All _ (below compare key) chain h.heights),
        ),
      )

  iterator_seek_to_first-At :
      (list : SkipList K) (ks : List K)
      → Holds compare list ks
      → At compare list [] ks (iterator_seek_to_first list)
  unfolding iterator_seek_to_first
  iterator_seek_to_first-At list ks (chain, h, e) =
      let (low, high) = h.levels in
      (
        [],
        chain,
        h,
        refl,
        e,
        Links-Points list.nodes (head list) chain h.links 0 (omega arith)
            ∙ first_at-ptr_of list.max_height chain h.heights,
      )

  last_of-At :
      (list : SkipList K) (b : List (Item K)) (ks : List K)
      → IsList compare list (rev_onto b [])
      → keys b ≡ ks
      → At compare list (last_of ks).0 (last_of ks).1 (ptr_of b)
  last_of-At list [] [] h e = ([], [], h, refl, refl, refl)
  last_of-At list [] (k ∷ front) h e = cc
  last_of-At list (y ∷ b) [] h e = cc
  last_of-At list (y ∷ b) (k ∷ front) h e = (b, y ∷ [], h, cc, cc, refl)

  iterator_seek_to_last-At :
      (list : SkipList K) (ks : List K)
      → Holds compare list ks
      → (pos : Option ℕ) × (iterator_seek_to_last list ≡ some pos)
        × At compare list (last_of (rev_onto ks [])).0 (last_of (rev_onto ks [])).1 pos
  unfolding iterator_seek_to_last last_at before
  iterator_seek_to_last-At list ks (chain, h, e) =
      let b = rev_onto chain [] in
      let back : rev_onto b [] ≡ chain = rev_onto-rev_onto chain [] [] ∙ append-nil chain in
      let h' : IsList compare list (rev_onto b []) =
        subst (λ t. IsList compare list t) (sym back) h in
      let (tall, _) =
        rev_onto-All (λ y. (0 < y.height) × (y.height ≤ list.max_height)) b [] h'.heights in
      let (known, _) = rev_onto-All (λ y. (0 < y.ptr) × (y.ptr < list.count)) b [] h'.known in
      let at_end : last_at 0 0 (rev_onto b []) ≡ top 0 b =
        ap (last_at 0 0) (sym (all-before (rev_onto b [])))
        ∙ last_at-top (λ _. true) list.max_height b [] (always b) tall in
      (
        ptr_of b,
        ap unless_head (find_last_lem compare list (rev_onto b []) h' ∙ ap (λ q. some q) at_end)
            ∙ unless_head-top compare list.count b known,
        last_of-At list b (rev_onto ks []) h' (keys-rev_onto chain [] ∙ ap (λ t. rev_onto t []) e),
      )
    where
      always : (b : List (Item K)) → All (λ y. true ≡ true) b
      always [] = tt
      always (y ∷ b) = (refl, always b)

  -- The three ways to place an iterator end: `Seek` at the first key that is not below the target,
  -- `SeekToFirst` at the first key and `SeekToLast` at the last one; where there is no such key, the
  -- iterator is not valid. The list is well formed, and the comparison is a total order.
  pub iterator_seek-Places :
      IsOrder compare
      → (list : SkipList K) (ks : List K) (target : K) → Holds compare list ks
      → ((pos : Option ℕ) × (iterator_seek compare list target ≡ some pos)
          × At compare list (seek_key target [] ks).0 (seek_key target [] ks).1 pos)
        × At compare list [] ks (iterator_seek_to_first list)
        × ((pos : Option ℕ) × (iterator_seek_to_last list ≡ some pos)
            × At compare list (last_of (rev_onto ks [])).0 (last_of (rev_onto ks [])).1 pos)
  iterator_seek-Places o list ks target h = (
    iterator_seek-At o list ks target h,
    iterator_seek_to_first-At list ks h,
    iterator_seek_to_last-At list ks h,
  )
