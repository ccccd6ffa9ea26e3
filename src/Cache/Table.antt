-- ===== src/Cache/Table.antt =====
-- The hash table of the cache as a map from keys with their hashes to entries.
use mini_leveldb.Base.{
  ℕ, ◌≡◌, refl, sym, ap, ◌∙◌, ◌⊎◌, inl, inr, arith, Bool, true, false, ◌&&◌, List, [], ◌∷◌, Option,
  none, some,
}
use mini_leveldb.Base.{◌==◌, ==_refl, if◌then◌else◌, All, Bool-cases}
use mini_leveldb.Slice.{Slice, slice_eq}
use mini_leveldb.Slice.Order.{slice_eq_iff}
use mini_leveldb.Cache.{LruHandle, is_entry, find_in, put_in, take_out}

-- Two pairs of a key and a hash are the same.
abbrev pub same_key : (key : Slice) (hash : ℕ) (key' : Slice) (hash' : ℕ) → Bool
same_key key hash key' hash' = (hash == hash') && slice_eq key' key

pub same_key→eq :
    (key : Slice) (hash : ℕ) (key' : Slice) (hash' : ℕ)
    → same_key key hash key' hash' ≡ true
    → (hash ≡ hash') × (key' ≡ key)
same_key→eq key hash key' hash' h =
    let (to, _) = slice_eq_iff key' key in (ground (arith, h), to (ground (arith, h)))

pub same_key_self : (key : Slice) (hash : ℕ) → same_key key hash key hash ≡ true
same_key_self key hash =
    let (_, from) = slice_eq_iff key key in
    let e = from refl in let e' = ==_refl hash in ground (arith, e, e')

-- A test that holds of one pair and another one holds of the two.
pub same_key_trans :
    (k : Slice) (h : ℕ) (k' : Slice) (h' : ℕ) (k'' : Slice) (h'' : ℕ)
    → same_key k h k' h' ≡ true
    → same_key k h k'' h'' ≡ same_key k' h' k'' h''
same_key_trans k h k' h' k'' h'' e =
    let (eh, ek) = same_key→eq k h k' h' e in
    ap (λ n. same_key k n k'' h'') eh ∙ ap (λ (x : Slice). same_key x h' k'' h'') (sym ek)

pub same_key_sym :
    (k : Slice) (h : ℕ) (k' : Slice) (h' : ℕ) → same_key k h k' h' ≡ same_key k' h' k h
same_key_sym k h k' h' = elim (Bool-cases (same_key k h k' h')) [
  | inl e ↦ e ∙ sym (sym (same_key_trans k h k' h' k h e) ∙ same_key_self k h)
  | inr e ↦ elim (Bool-cases (same_key k' h' k h)) [
    | inl e' ↦ sym (same_key_trans k' h' k h k' h' e') ∙ same_key_self k' h' ∙ sym e'
    | inr e' ↦ e ∙ sym e'
  ]
]

-- Two pairs that differ are not both the same as a third one.
apart :
    (k : Slice) (h : ℕ) (k1 : Slice) (h1 : ℕ) (k2 : Slice) (h2 : ℕ)
    → same_key k1 h1 k2 h2 ≡ false
    → same_key k1 h1 k h ≡ true
    → same_key k2 h2 k h ≡ false
apart k h k1 h1 k2 h2 differ first = elim (Bool-cases (same_key k2 h2 k h)) [
  | inl second ↦
      let turned : same_key k h k2 h2 ≡ true = same_key_sym k h k2 h2 ∙ second in
      absurd (ground (arith, differ, same_key_trans k1 h1 k h k2 h2 first, turned))
  | inr n ↦ n
]

module _ (m : ℕ → LruHandle) where
  -- No two entries of a bucket have the same key and hash.
  abbrev pub Unique : List ℕ → Type 0
  Unique [] = Unit {0}
  Unique (h ∷ hs) = (find_in m (m h).key (m h).hash hs ≡ none) × Unique hs

  -- Tests of which at most one holds may be made in any order.
  two_tests :
      (b b' : Bool) (x x' x'' : Option ℕ)
      → (b ≡ true → b' ≡ false)
      → (if b then x else if b' then x' else x'') ≡ (if b' then x' else if b then x else x'')
  two_tests true true x x' x'' h = absurd (ground (arith, h refl))
  two_tests true false x x' x'' h = refl
  two_tests false true x x' x'' h = refl
  two_tests false false x x' x'' h = refl

  pub find_in-put_in :
      (key : Slice) (hash e : ℕ) (chain : List ℕ)
      → find_in m key hash (put_in m (m e).key (m e).hash e chain)
        ≡ (if same_key (m e).key (m e).hash key hash then some e else find_in m key hash chain)
  unfolding find_in put_in is_entry
  find_in-put_in key hash e [] = refl
  find_in-put_in key hash e (h ∷ hs) =
      elim (Bool-cases (same_key (m h).key (m h).hash (m e).key (m e).hash)) [
        | inl s ↦
            let turn = same_key_trans (m h).key (m h).hash (m e).key (m e).hash key hash s in
            rw s (
              replaced (same_key (m e).key (m e).hash key hash) _ turn (some e) (some h)
                (find_in m key hash hs))
        | inr n ↦ rw n (
            ap (λ t. if same_key (m h).key (m h).hash key hash then some h else t)
              (find_in-put_in key hash e hs)
            ∙ two_tests _ _ (some h) (some e) (find_in m key hash hs)
                (apart key hash (m h).key (m h).hash (m e).key (m e).hash n))
      ]
    where
      replaced :
          (b b' : Bool)
          → b' ≡ b
          → (x x' x'' : Option ℕ)
          → (if b then x else x'') ≡ (if b then x else if b' then x' else x'')
      replaced true b' h x x' x'' = refl
      replaced false b' h x x' x'' = rw h refl

  pub put_in-Unique :
      (e : ℕ) (chain : List ℕ) → Unique chain → Unique (put_in m (m e).key (m e).hash e chain)
  unfolding put_in is_entry find_in
  put_in-Unique e [] u = (refl, tt)
  put_in-Unique e (h ∷ hs) (n, u) =
      elim (Bool-cases (same_key (m h).key (m h).hash (m e).key (m e).hash)) [
        | inl s ↦
            let (eh, ek) = same_key→eq (m h).key (m h).hash (m e).key (m e).hash s in
            rw s (
              ap (λ (k : Slice). find_in m k (m e).hash hs) ek
                  ∙ ap (λ x. find_in m (m h).key x hs) (sym eh)
                  ∙ n,
              u,
            )
        | inr d ↦
            let other : same_key (m e).key (m e).hash (m h).key (m h).hash ≡ false =
              same_key_sym (m e).key (m e).hash (m h).key (m h).hash ∙ d in
            rw d (find_in-put_in (m h).key (m h).hash e hs ∙ rw other n, put_in-Unique e hs u)
      ]

  pub put_in-All {κ} :
      (P : ℕ → Type κ) (key : Slice) (hash e : ℕ) (chain : List ℕ)
      → P e
      → All P chain
      → All P (put_in m key hash e chain)
  unfolding put_in
  put_in-All P key hash e [] p all = (p, tt)
  put_in-All P key hash e (h ∷ hs) p (q, all) = elim (Bool-cases (is_entry key hash (m h))) [
    | inl s ↦ rw s (p, all)
    | inr d ↦ rw d (q, put_in-All P key hash e hs p all)
  ]

  pub find_in-take_out :
      (key key' : Slice) (hash hash' : ℕ) (chain : List ℕ)
      → Unique chain
      → find_in m key hash (take_out m key' hash' chain)
        ≡ (if same_key key' hash' key hash then none else find_in m key hash chain)
  unfolding find_in take_out is_entry
  find_in-take_out key key' hash hash' [] u = same_none (same_key key' hash' key hash)
    where
      same_none : (b : Bool) → Path (Option ℕ) none (if b then none else none)
      same_none true = refl
      same_none false = refl
  find_in-take_out key key' hash hash' (x ∷ xs) (n, u) =
      elim (Bool-cases (same_key (m x).key (m x).hash key' hash')) [
        | inl s ↦ rw s (taken s (Bool-cases (same_key key' hash' key hash)))
        | inr d ↦
            rw (d, find_in)
              (ap (λ t. if same_key (m x).key (m x).hash key hash then some x else t)
                  (find_in-take_out key key' hash hash' xs u)
                ∙ two_tests _ _ (some x) none (find_in m key hash xs)
                    (apart key hash (m x).key (m x).hash key' hash' d))
      ]
    where
      taken :
          same_key (m x).key (m x).hash key' hash' ≡ true
          → (same_key key' hash' key hash ≡ true) ⊎ (same_key key' hash' key hash ≡ false)
          → find_in m key hash xs ≡ (
              if same_key key' hash' key hash
              then none
              else if same_key (m x).key (m x).hash key hash
              then some x
              else find_in m key hash xs)
      taken s (inl e) =
          let (eh, ek) =
            same_key→eq (m x).key (m x).hash key hash
              (same_key_trans (m x).key (m x).hash key' hash' key hash s ∙ e) in
          rw e (
            ap (λ (k : Slice). find_in m k hash xs) ek
            ∙ ap (λ y. find_in m (m x).key y xs) (sym eh)
            ∙ n)
      taken s (inr e) =
          let e' = same_key_trans (m x).key (m x).hash key' hash' key hash s ∙ e in rw (e, e') refl

  pub take_out-Unique :
      (key : Slice) (hash : ℕ) (chain : List ℕ) → Unique chain → Unique (take_out m key hash chain)
  unfolding take_out is_entry
  take_out-Unique key hash [] u = tt
  take_out-Unique key hash (x ∷ xs) (n, u) =
      elim (Bool-cases (same_key (m x).key (m x).hash key hash)) [
        | inl s ↦ rw s u
        | inr d ↦ rw d (
          find_in-take_out (m x).key key (m x).hash hash xs u
              ∙ keep_none (same_key key hash (m x).key (m x).hash) n,
          take_out-Unique key hash xs u,
        )
      ]
    where
      keep_none : (b : Bool) {o : Option ℕ} → o ≡ none → (if b then none else o) ≡ none
      keep_none true h = refl
      keep_none false h = h

  pub take_out-All {κ} :
      (P : ℕ → Type κ) (key : Slice) (hash : ℕ) (chain : List ℕ)
      → All P chain
      → All P (take_out m key hash chain)
  unfolding take_out
  take_out-All P key hash [] all = tt
  take_out-All P key hash (h ∷ hs) (q, all) = elim (Bool-cases (is_entry key hash (m h))) [
    | inl s ↦ rw s all
    | inr d ↦ rw d (q, take_out-All P key hash hs all)
  ]
