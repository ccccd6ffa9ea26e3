-- ===== src/SkipList/Insert.antt =====
-- `Insert`: it ends, the list stays well formed, and the key is put at its place.
use mini_leveldb.Base.{
  ℕ, zero, suc, ◌+◌, ◌-◌, ◌≤◌, ◌<◌, ◌≡◌, ◌≢◌, refl, sym, ap, ◌∙◌, inl, inr, arith, Bool, false,
  List, [], ◌∷◌, ◌++◌, none,
}
use mini_leveldb.Base.{ltb, ◌==◌, if◌then◌else◌, All, All-both, All-map, Bool-cases, ==_refl}
use mini_leveldb.Slice.{Sign, less, equal}
use mini_leveldb.Random.{one_in}
use mini_leveldb.Base.{update}
use mini_leveldb.SkipList.{
  Node, SkipList, max_levels, random_height_loop, random_height, raise_prev, insert_behind,
}
use mini_leveldb.SkipList.Chain.{
  IsOrder, Item, last_at, Links, Links-Points, before, after, before-after, before-All, after-All,
  last_at-low,
}
use mini_leveldb.SkipList.Find.{below, head, Sorted, Distinct, IsList}
use mini_leveldb.SkipList.Search.{last_at-next}
use mini_leveldb.SkipList.Links.{Relinked, link_loop-Relinked}
use mini_leveldb.SkipList.Placed.{
  placed, placed-All, length-placed, placed-Links, kept-Links, Links-Behind, last_at-other,
}
use mini_leveldb.SkipList.Placed.Separate.{
  placed-Distinct, Distinct-Apart, before-Distinct, last_at-apart, same-Links, head-Links,
}

random_height_loop_range :
    (left height seed : ℕ)
    → (height ≤ (random_height_loop left height seed).1)
      × ((random_height_loop left height seed).1 ≤ height + left)
unfolding random_height_loop
random_height_loop_range zero height seed = (omega arith, omega arith)
random_height_loop_range (suc left) height seed =
    ground (arith, random_height_loop_range left (height + 1) (one_in 4 seed).0)

-- `RandomHeight` returns a height from 1 to 12, whatever the seed is.
pub random_height_range :
    (seed : ℕ) → (0 < (random_height seed).1) × ((random_height seed).1 ≤ max_levels)
unfolding random_height
random_height_range seed =
    let (low, high) = random_height_loop_range (max_levels - 1) 1 seed in
    (omega (arith, low), omega (arith, high))

raised_height :
    (m height : ℕ)
    → m ≤ max_levels
    → height ≤ max_levels
    → (m ≤ (if ltb m height then height else m))
      × (height ≤ (if ltb m height then height else m))
      × ((if ltb m height then height else m) ≤ max_levels)
raised_height m height h k = ground arith

module _ {K : Type 0} where
  -- The loop links a new node in, given the nodes in front of its place.
  Relinked-Links :
      (nodes nodes' : ℕ → Node K) (n : Item K) (top : K) (go : K → Bool) (chain : List (Item K))
      (prev : ℕ → ℕ)
      → Relinked nodes nodes' 0 n.height n.ptr prev
      → ((l : ℕ) → l < n.height → prev l ≡ last_at l 0 (before go chain))
      → Links nodes (record { ptr = 0; height = max_levels; key = top }) chain
      → (nodes n.ptr).key ≡ n.key
      → 0 < n.ptr
      → n.height ≤ max_levels
      → All (λ z. n.ptr ≢ z.ptr) chain
      → All (λ z. 0 ≢ z.ptr) chain
      → Distinct chain
      → Links nodes' (record { ptr = 0; height = max_levels; key = top }) (placed go n chain)
  Relinked-Links nodes nodes' n top go chain prev r last links key pos low fresh apart distinct =
      let top_item : Item K = record { ptr = 0; height = max_levels; key = top } in
      let b = before go chain in
      let c = after go chain in
      let whole = before-after go chain in
      let split : Links nodes top_item (b ++ c) = rw whole links in
      let behind_lem =
        All-both (λ z. n.ptr ≢ z.ptr) (λ z. (l : ℕ) → last_at l 0 b ≢ z.ptr)
          (λ z. (n.ptr ≢ z.ptr) × ((l : ℕ) → l < n.height → prev l ≢ z.ptr))
          (λ z f a. (f, λ l lt e. a l (sym (last l lt) ∙ e))) c
          (after-All (λ z. n.ptr ≢ z.ptr) go chain fresh)
          (last_at-apart go chain (λ _. 0)
            (All-map (λ z. 0 ≢ z.ptr) (λ z. (l : ℕ) → 0 ≢ z.ptr) (λ z h l. h) chain apart)
            distinct) in
      let behind =
        kept-Links n prev r n c
          (λ l lt.
            r.from_new l (omega arith) (omega arith)
            ∙ ap (λ q. (nodes q).next l) (last l lt)
            ∙ last_at-next nodes l 0 top_item b c split
                (Links-Points nodes top_item (b ++ c) split l (omega (arith, low))))
          (Links-Behind nodes top_item b c split) behind_lem in
      placed-Links n prev r top_item b c (λ _. 0) split last (λ l lt. refl) (omega (arith, pos))
        (before-All (λ z. n.ptr ≢ z.ptr) go chain fresh)
        (Distinct-Apart top_item b (before-All (λ z. 0 ≢ z.ptr) go chain apart)
          (before-Distinct go chain distinct))
        (r.same_key n.ptr ∙ key) behind

module _ {K : Type 0} (compare : K → K → Sign) where
  -- A key that is not below another, nor equal to it, is above it.
  pub above :
      IsOrder compare
      → (a b : K) → below compare b a ≡ false
      → compare a b ≢ equal
      → compare b a ≡ less
  above o a b h k = ground (arith, o.flip a b, h, k)

  pub placed-Sorted :
      IsOrder compare
      → (n : Item K) (chain : List (Item K)) → All (λ y. compare y.key n.key ≢ equal) chain
      → Sorted compare chain
      → Sorted compare (placed (below compare n.key) n chain)
  unfolding before after
  placed-Sorted o n [] fresh s = (tt, tt)
  placed-Sorted o n (y ∷ ys) (f, fresh) (h, s) = elim (Bool-cases (below compare n.key y.key)) [
    | inl e ↦ rw e (
      placed-All (λ z. compare y.key z.key ≡ less) (below compare n.key) n ys (ground (arith, e)) h,
      placed-Sorted o n ys fresh s,
    )
    | inr e ↦
        let lt = above o y.key n.key e f in
        rw e (
          (
            lt,
            All-map (λ z. compare y.key z.key ≡ less) (λ z. compare n.key z.key ≡ less)
                (λ z. o.trans n.key y.key z.key lt) ys h,
          ),
          (h, s),
        )
  ]

  -- The nodes in front of a new node, at all the levels, the new ones included.
  raise_prev_lem :
      (m height : ℕ) (prev : ℕ → ℕ) (b : List (Item K))
      → All (λ z. z.height ≤ m) b
      → ((l : ℕ) → l < m → prev l ≡ last_at l 0 b)
      → (l : ℕ) → l < height
      → raise_prev m height prev l ≡ last_at l 0 b
  unfolding raise_prev
  raise_prev_lem m height prev b low last l lt = ground (arith, lt, last l, last_at-low l 0 m b low)

  pub insert_behind-IsList :
      IsOrder compare
      → (list : SkipList K) (chain : List (Item K)) (key : K) (prev : ℕ → ℕ)
      → IsList compare list chain
      → All (λ y. compare y.key key ≢ equal) chain
      → ((l : ℕ) → l < list.max_height → prev l ≡ last_at l 0 (before (below compare key) chain))
      → IsList compare (insert_behind list key prev) (
          placed
            (below compare key)
            (record { ptr = list.count; height = (random_height list.rnd).1; key = key })
            chain)
  unfolding insert_behind
  insert_behind-IsList o list chain key prev h fresh last =
      let height = (random_height list.rnd).1 in
      let (height_low, height_high) = random_height_range list.rnd in
      let (low, high) = h.levels in
      let (above_old, above_new, within) = raised_height list.max_height height high height_high in
      let x = list.count in
      let n : Item K = record { ptr = x; height = height; key = key } in
      let go = below compare key in
      let nodes1 = update list.nodes x (record { key = key; next = λ _. none }) in
      let raised = raise_prev list.max_height height prev in
      let short = All-map _ (λ z. z.height ≤ list.max_height) (λ z h. h.1) chain h.heights in
      let last' =
        raise_prev_lem list.max_height height prev (before go chain)
          (before-All (λ z. z.height ≤ list.max_height) go chain short) last in
      let others = All-map _ (λ z. x ≢ z.ptr) (λ z h e. omega (arith, h.1, e)) chain h.known in
      let behind_head = All-map _ (λ z. 0 ≢ z.ptr) (λ z h e. omega (arith, h.0, e)) chain h.known in
      let apart : (l : ℕ) → 0 ≤ l → l < 0 + height → raised l ≢ x = λ l le lt e.
        last_at-other l 0 x (before go chain) (λ e'. omega (arith, e', h.size))
          (before-All (λ z. x ≢ z.ptr) go chain others) (sym (last' l (omega arith)) ∙ e) in
      let r = link_loop-Relinked height 0 x raised nodes1 apart in
      let old : (q : ℕ) → x ≢ q → nodes1 q ≡ list.nodes q =
        λ q d. let e : (x == q) ≡ false = ground (arith, d) in rw e refl in
      let links1 =
        same-Links list.nodes nodes1 (head list) chain (old 0 (λ e. omega (arith, e, h.size)))
          (All-map _ (λ z. nodes1 z.ptr ≡ list.nodes z.ptr) (λ z d. old z.ptr d) chain others)
          h.links in
      let new_key : (nodes1 x).key ≡ key = rw (==_refl x) refl in
      let links2 =
        Relinked-Links nodes1 _ n _ go chain raised r last' links1 new_key (omega (arith, h.size))
          height_high others behind_head h.distinct in
      record {
        links = head-Links _ 0 max_levels _ _ _ links2;
        sorted = placed-Sorted o n chain fresh h.sorted;
        distinct = placed-Distinct go n chain others h.distinct;
        known =
            placed-All (λ y. (0 < y.ptr) × (y.ptr < x + 1)) go n chain
              (omega (arith, h.size), omega arith)
              (All-map _ (λ y. (0 < y.ptr) × (y.ptr < x + 1)) (λ z k. (k.0, omega (arith, k.1)))
                chain h.known);
        heights =
            placed-All _ go n chain (height_low, above_new)
              (All-map _ _ (λ z k. (k.0, omega (arith, k.1, above_old))) chain h.heights);
        levels = (omega (arith, low, above_old), within);
        size = omega (arith, h.size, length-placed go n chain);
      }
