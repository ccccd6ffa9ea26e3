-- ===== src/SkipList/Links.antt =====
-- What the loop of `Insert` makes of the pointers, and that a new node is linked into all its levels.
use mini_leveldb.Base.{
  ℕ, zero, suc, ◌+◌, ◌≤◌, ◌<◌, ◌≡◌, ◌≢◌, refl, ap, ◌∙◌, ◌⊎◌, inl, inr, arith, false, Option, some,
}
use mini_leveldb.Base.{◌==◌, Bool-cases, ==_refl}
use native.Mathlib.Decide.{dec_lt}
use mini_leveldb.SkipList.{Node, set_next, link_loop}

distinct-== : (a b : ℕ) → a ≢ b → (a == b) ≡ false
distinct-== a b h = ground (arith, h)

module _ {K : Type 0} where
  set_next-same :
      (nodes : ℕ → Node K) (x n : ℕ) (y : Option ℕ) → (set_next x n y nodes x).next n ≡ y
  set_next-same nodes x n y = rw (==_refl x) (rw (==_refl n) refl)

  set_next-other :
      (nodes : ℕ → Node K) (x n q m : ℕ) (y : Option ℕ)
      → (x ≡ q → n ≢ m)
      → (set_next x n y nodes q).next m ≡ (nodes q).next m
  set_next-other nodes x n q m y h = elim (Bool-cases (x == q)) [
    | inl e ↦
        let same : x ≡ q = ground (arith, e) in
        let apart = distinct-== n m (h same) in rw e (rw apart (ap (λ t. (nodes t).next m) same))
    | inr e ↦ rw e refl
  ]

  set_next-key :
      (nodes : ℕ → Node K) (x n q : ℕ) (y : Option ℕ) → (set_next x n y nodes q).key ≡ (nodes q).key
  set_next-key nodes x n q y = elim (Bool-cases (x == q)) [
    | inl e ↦ let same : x ≡ q = ground (arith, e) in rw e (ap (λ t. (nodes t).key) same)
    | inr e ↦ rw e refl
  ]

  -- The pointers after the linking of a node into the levels from `i` to `i + left`.
  pub record Relinked (nodes nodes' : ℕ → Node K) (i left x : ℕ) (prev : ℕ → ℕ) : Type 0 where
    pub same_key : (q : ℕ) → (nodes' q).key ≡ (nodes q).key
    pub from_new : (l : ℕ) → i ≤ l → l < i + left → (nodes' x).next l ≡ (nodes (prev l)).next l
    pub to_new : (l : ℕ) → i ≤ l → l < i + left → (nodes' (prev l)).next l ≡ some x
    pub outside : (q l : ℕ) → (l < i) ⊎ (i + left ≤ l) → (nodes' q).next l ≡ (nodes q).next l
    pub other : (q l : ℕ) → x ≢ q → prev l ≢ q → (nodes' q).next l ≡ (nodes q).next l

  -- One level, and the levels above it.
  Relinked-step :
      (nodes nodes1 nodes2 nodes' : ℕ → Node K) (i left x : ℕ) (prev : ℕ → ℕ)
      → prev i ≢ x
      → nodes1 ≡ set_next x i ((nodes (prev i)).next i) nodes
      → nodes2 ≡ set_next (prev i) i (some x) nodes1
      → Relinked nodes2 nodes' (i + 1) left x prev
      → Relinked nodes nodes' i (suc left) x prev
  Relinked-step nodes nodes1 nodes2 nodes' i left x prev apart e1 e2 r =
      let y = (nodes (prev i)).next i in
      let elsewhere : (q l : ℕ) → i ≢ l → (nodes2 q).next l ≡ (nodes q).next l = λ q l h.
        ap (λ (n : ℕ → Node K). (n q).next l) e2
        ∙ set_next-other nodes1 (prev i) i q l (some x) (λ e. h)
        ∙ ap (λ (n : ℕ → Node K). (n q).next l) e1
        ∙ set_next-other nodes x i q l y (λ e. h) in
      let both : (q l : ℕ) → x ≢ q → prev i ≢ q → (nodes2 q).next l ≡ (nodes q).next l = λ q l h k.
        ap (λ (n : ℕ → Node K). (n q).next l) e2
        ∙ set_next-other nodes1 (prev i) i q l (some x) (λ e. absurd (k e))
        ∙ ap (λ (n : ℕ → Node K). (n q).next l) e1
        ∙ set_next-other nodes x i q l y (λ e. absurd (h e)) in
      let new_here : (nodes' x).next i ≡ y =
        r.outside x i (inl (omega arith))
        ∙ ap (λ (n : ℕ → Node K). (n x).next i) e2
        ∙ set_next-other nodes1 (prev i) i x i (some x) (λ e. absurd (apart e))
        ∙ ap (λ (n : ℕ → Node K). (n x).next i) e1
        ∙ set_next-same nodes x i y in
      let prev_here : (nodes' (prev i)).next i ≡ some x =
        r.outside (prev i) i (inl (omega arith))
        ∙ ap (λ (n : ℕ → Node K). (n (prev i)).next i) e2
        ∙ set_next-same nodes1 (prev i) i (some x) in
      record {
        same_key = λ q.
            r.same_key q
            ∙ ap (λ (n : ℕ → Node K). (n q).key) e2
            ∙ set_next-key nodes1 (prev i) i q (some x)
            ∙ ap (λ (n : ℕ → Node K). (n q).key) e1
            ∙ set_next-key nodes x i q y;
        from_new = λ l le lt. elim (dec_lt i l) [
          | yes up ↦ r.from_new l (omega arith) (omega arith) ∙ elsewhere (prev l) l (omega arith)
          | no down ↦ let z : l ≡ i = omega arith in rw z new_here
        ];
        to_new = λ l le lt. elim (dec_lt i l) [
          | yes up ↦ r.to_new l (omega arith) (omega arith)
          | no down ↦ let z : l ≡ i = omega arith in rw z prev_here
        ];
        outside = λ q l h. r.outside q l (ground (arith, h)) ∙ elsewhere q l (ground (arith, h));
        other = λ q l h k. r.other q l h k ∙ elim (dec_lt i l) [
          | yes up ↦ elsewhere q l (omega arith)
          | no not_up ↦ elim (dec_lt l i) [
            | yes down ↦ elsewhere q l (omega arith)
            | no not_down ↦ let z : l ≡ i = omega arith in both q l h (ground (arith, k, ap prev z))
          ]
        ];
      }

  pub link_loop-Relinked :
      (left i x : ℕ) (prev : ℕ → ℕ) (nodes : ℕ → Node K)
      → ((l : ℕ) → i ≤ l → l < i + left → prev l ≢ x)
      → Relinked nodes (link_loop left i x prev nodes) i left x prev
  unfolding link_loop
  link_loop-Relinked zero i x prev nodes apart = record {
    same_key = λ q. refl;
    from_new = λ l le lt. absurd (omega arith);
    to_new = λ l le lt. absurd (omega arith);
    outside = λ q l h. refl;
    other = λ q l h k. refl;
  }
  link_loop-Relinked (suc left) i x prev nodes apart =
      let nodes1 = set_next x i ((nodes (prev i)).next i) nodes in
      let nodes2 = set_next (prev i) i (some x) nodes1 in
      Relinked-step nodes nodes1 nodes2 _ i left x prev (apart i (omega arith) (omega arith)) refl
        refl
        (link_loop-Relinked left (i + 1) x prev nodes2
          (λ l le lt. apart l (omega arith) (omega arith)))
