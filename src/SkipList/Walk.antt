-- ===== src/SkipList/Walk.antt =====
-- The search that the loops of the skip list have in common, for any test of the keys to pass by.
use mini_leveldb.Base.{
  ℕ, zero, suc, ◌+◌, ◌-◌, ◌≤◌, ◌<◌, ◌≡◌, refl, sym, ap, ◌∙◌, inl, inr, arith, Bool, true, false,
  List, [], ◌∷◌, Option, none, some,
}
use mini_leveldb.Base.{ltb, ◌==◌, if◌then◌else◌, All, length, Bool-cases, Option-cases}
use mathlib.Core.Path.{subst}
use native.Mathlib.Decide.{dec_lt}
use mini_leveldb.Base.{update}
use mini_leveldb.SkipList.{Node}
use mini_leveldb.SkipList.Chain.{Item, first_at, last_at, Links, Links-Points, before, Falls}

passed : (a b : Bool) → b ≡ true → (a ≡ false → b ≡ false) → a ≡ true
passed true b h k = refl
passed false b h k = absurd (ground (arith, k refl))

module _ {K : Type 0} where
  unfoldable pub walk :
      (K → Bool) → (fuel : ℕ) → (ℕ → Node K) → (x level : ℕ) → (ℕ → ℕ) → Option (ℕ × (ℕ → ℕ))
  walk go zero nodes x level prev = none
  walk go (suc fuel) nodes x level prev =
      let down = walk go fuel nodes x (level - 1) (update prev level x) in
      let stop = if level == 0 then some (x, update prev level x) else down in
      elim ((nodes x).next level) [
        | none ↦ stop
        | some next ↦
            let on = walk go fuel nodes next level prev in if go (nodes next).key then on else stop
      ]

  -- The next node of a level, and what lies behind it.
  pub record NextAt (go : K → Bool) (nodes : ℕ → Node K) (l p : ℕ) (r : List (Item K))
      : Type 0 where
    pub item : Item K
    pub rest : List (Item K)
    pub ptr_lem : item.ptr ≡ p
    pub tall : l < item.height
    pub key_lem : (nodes p).key ≡ item.key
    pub links : Links nodes item rest
    pub falls : Falls go rest
    pub shorter : length rest < length r
    pub refused : All (λ z. go z.key ≡ false) r → go item.key ≡ false
    pub on :
        go item.key ≡ true
        → (m : ℕ) → m ≤ l
        → (w : ℕ) → last_at m w (before go r) ≡ last_at m p (before go rest)
    pub stay : go item.key ≡ false → (w : ℕ) → last_at l w (before go r) ≡ w

  next_at :
      (go : K → Bool) (nodes : ℕ → Node K) (l p : ℕ) (x : Item K) (r : List (Item K))
      → Links nodes x r
      → Falls go r
      → first_at l r ≡ some p
      → NextAt go nodes l p r
  unfolding first_at before last_at
  next_at go nodes l p x [] links falls h = cc
  next_at go nodes l p x (z ∷ zs) (points, key_z, links) (falls_z, falls) h =
      elim (Bool-cases (ltb l z.height)) [
        | inl tall ↦
            let e : z.ptr ≡ p = ground (arith, h, tall) in
            record {
              item = z;
              rest = zs;
              ptr_lem = e;
              tall = ground arith;
              key_lem = rw (← e) key_z;
              links = links;
              falls = falls;
              shorter = omega arith;
              refused = λ (h, _). h;
              on = λ g m le w.
                  let t : ltb m z.height ≡ true = ground (arith, tall, le) in
                  rw g (rw (t, last_at) (ap (λ q. last_at m q (before go zs)) e));
              stay = λ g w. rw g refl;
            }
        | inr low ↦
            let n = next_at go nodes l p z zs links falls (rw low at h) in
            record {
              item = n.item;
              rest = n.rest;
              ptr_lem = n.ptr_lem;
              tall = n.tall;
              key_lem = n.key_lem;
              links = n.links;
              falls = n.falls;
              shorter = omega (arith, n.shorter);
              refused = λ (_, h). n.refused h;
              on = λ g m le w.
                  let gz : go z.key ≡ true =
                    passed (go z.key) (go n.item.key) g (λ f. n.refused (falls_z f)) in
                  rw gz (n.on g m le (if ltb m z.height then z.ptr else w));
              stay = λ g w. elim (Bool-cases (go z.key)) [
                | inl gz ↦ rw gz (rw (low, last_at) (n.stay g w))
                | inr gz ↦ rw gz refl
              ];
            }
      ]

  none_stays :
      (go : K → Bool) (l w : ℕ) (r : List (Item K))
      → first_at l r ≡ none
      → last_at l w (before go r) ≡ w
  unfolding first_at before last_at
  none_stays go l w [] h = refl
  none_stays go l w (z ∷ zs) h = ground (arith, none_stays go l w zs)

  -- The outcome of a search from a node, at a level and those below.
  abbrev pub Walked :
      (go : K → Bool)
      → (level x : ℕ) → (r : List (Item K)) → (prev : ℕ → ℕ) → Option (ℕ × (ℕ → ℕ))
      → Type 0
  Walked go level x r prev out =
      (prev' : ℕ → ℕ) × (out ≡ some (last_at 0 x (before go r), prev'))
      × ((l : ℕ) → l ≤ level → prev' l ≡ last_at l x (before go r))
      × ((l : ℕ) → level < l → prev' l ≡ prev l)

  -- A search that does not go on at its level, given the search one level lower.
  stop_Walked :
      (go : K → Bool) (level x : ℕ) (r : List (Item K)) (prev : ℕ → ℕ) (down : Option (ℕ × (ℕ → ℕ)))
      → last_at level x (before go r) ≡ x
      → (0 < level → Walked go (level - 1) x r (update prev level x) down)
      → Walked go level x r prev (if level == 0 then some (x, update prev level x) else down)
  stop_Walked go zero x r prev down stays lower = (
    update prev zero x,
    ap (λ q. some (q, update prev zero x)) (sym stays),
    λ l le. let z : l ≡ 0 = omega arith in rw z (sym stays),
    λ l lt. ground (arith, lt),
  )
  stop_Walked go (suc level) x r prev down stays lower =
      let (prev', e, same, kept) = lower (omega arith) in
      let deeper : (suc level == 0) ≡ false = ground arith in
      (
        prev',
        rw deeper e,
        λ l le. elim (dec_lt level l) [
          | yes above ↦
              let z : l ≡ suc level = omega arith in
              rw z (kept (suc level) (omega arith) ∙ (ground (arith, stays)))
          | no below ↦ same l (omega arith)
        ],
        λ l lt. kept l (omega arith) ∙ ground (arith, lt),
      )

  -- Going on at a level changes no outcome.
  Walked-on :
      (go : K → Bool) (level p x : ℕ) (rest r : List (Item K)) (prev : ℕ → ℕ)
      (out : Option (ℕ × (ℕ → ℕ)))
      → ((m : ℕ) → m ≤ level → (w : ℕ) → last_at m w (before go r) ≡ last_at m p (before go rest))
      → Walked go level p rest prev out
      → Walked go level x r prev out
  Walked-on go level p x rest r prev out moved (prev', e, same, kept) = (
    prev',
    e ∙ ap (λ q. some (q, prev')) (sym (moved 0 (omega arith) x)),
    λ l le. same l le ∙ sym (moved l le x),
    kept,
  )

  pub walk-Walked :
      (go : K → Bool) (fuel : ℕ) (nodes : ℕ → Node K) (x : Item K) (level : ℕ) (r : List (Item K))
      (prev : ℕ → ℕ)
      → Links nodes x r
      → Falls go r
      → level < x.height
      → length r + level < fuel
      → Walked go level x.ptr r prev (walk go fuel nodes x.ptr level prev)
  unfolding walk
  walk-Walked go zero nodes x level r prev links falls tall f = absurd (omega arith)
  walk-Walked go (suc fuel) nodes x level r prev links falls tall f =
      let next = Links-Points nodes x r links level tall in
      let lower = λ (pos : 0 < level).
        walk-Walked go fuel nodes x (level - 1) r (update prev level x.ptr) links falls
          (omega arith) (omega arith) in
      elim (Option-cases (first_at level r)) [
        | inl e ↦
            rw (next ∙ e, walk)
              (stop_Walked go level x.ptr r prev _ (none_stays go level x.ptr r e) lower)
        | inr (p, e) ↦
            let n = next_at go nodes level p x r links falls e in
            elim (Bool-cases (go n.item.key)) [
              | inl g ↦
                  let ih : Walked go level n.item.ptr n.rest prev
                      (walk go fuel nodes n.item.ptr level prev) =
                    walk-Walked go fuel nodes n.item level n.rest prev n.links n.falls n.tall
                      (omega (arith, n.shorter)) in
                  let here =
                    subst (λ q. Walked go level q n.rest prev (walk go fuel nodes q level prev))
                      n.ptr_lem ih in
                  let test : go (nodes p).key ≡ true = ap go n.key_lem ∙ g in
                  rw (next ∙ e, walk)
                    (rw test (Walked-on go level p x.ptr n.rest r prev _ (n.on g) here))
              | inr g ↦
                  let test : go (nodes p).key ≡ false = ap go n.key_lem ∙ g in
                  rw (next ∙ e, walk)
                    (rw test (stop_Walked go level x.ptr r prev _ (n.stay g x.ptr) lower))
            ]
      ]
