-- ===== src/Cache/Erased.antt =====
-- The memory behind the removal of an entry that no one uses.
use mini_leveldb.Base.{ℕ, ◌+◌, ◌-◌, ◌%◌, ◌^◌, ◌≡◌, ◌≢◌, refl, ap, ◌∙◌, inl, inr, arith, Bool, false}
use mini_leveldb.Base.{update, ◌==◌, ==_refl, Bool-cases}
use mini_leveldb.Cache.{LruHandle}
use mini_leveldb.Cache.Lru.{lru_remove, set_refs, set_prev}

-- A write that a reading does not see.
update-unseen :
    {A : Type 0} (f : LruHandle → A) (m : ℕ → LruHandle) (p : ℕ) (h : LruHandle) (q : ℕ)
    → f h ≡ f (m p)
    → f (update m p h q) ≡ f (m q)
update-unseen f m p h q e = elim (Bool-cases (p == q)) [
  | inl s ↦ let t : p ≡ q = ground (arith, s) in rw s (e ∙ ap (λ r. f (m r)) t)
  | inr d ↦ rw d refl
]

update-elsewhere :
    (m : ℕ → LruHandle) (p : ℕ) (h : LruHandle) (q : ℕ) → p ≢ q → update m p h q ≡ m q
update-elsewhere m p h q d = let e : (p == q) ≡ false = ground (arith, d) in rw e refl

update-here : (m : ℕ → LruHandle) (p : ℕ) (h : LruHandle) → update m p h p ≡ h
update-here m p h = rw (==_refl p) refl

-- `LRU_Remove` is not seen but at the pointers.
lru_remove-unseen :
    {A : Type 0} (f : LruHandle → A) (m : ℕ → LruHandle) (e q : ℕ)
    → ((h : LruHandle) (v : ℕ) → f (record h { next = v }) ≡ f h)
    → ((h : LruHandle) (v : ℕ) → f (record h { prev = v }) ≡ f h)
    → f (lru_remove m e q) ≡ f (m q)
unfolding lru_remove
lru_remove-unseen f m e q n p =
    let m1 = set_prev m (m e).next (m e).prev in
    update-unseen f m1 (m1 e).prev _ q (n (m1 (m1 e).prev) (m1 e).next)
    ∙ update-unseen f m (m e).next _ q (p (m (m e).next) (m e).prev)

-- The memory behind the removal of an entry that had one reference.
abbrev pub erased : (ℕ → LruHandle) → ℕ → ℕ → LruHandle
erased m x =
    let m1 = lru_remove m x in
    let m2 = update m1 x (record (m1 x) { in_cache = false }) in
    set_refs m2 x ((m2 x).refs + (2 ^ 32 - 1))

pub erased-unseen :
    {A : Type 0} (f : LruHandle → A) (m : ℕ → LruHandle) (x q : ℕ)
    → ((h : LruHandle) (v : ℕ) → f (record h { next = v }) ≡ f h)
    → ((h : LruHandle) (v : ℕ) → f (record h { prev = v }) ≡ f h)
    → ((h : LruHandle) (v : Bool) → f (record h { in_cache = v }) ≡ f h)
    → ((h : LruHandle) (v : ℕ) → f (record h { refs = v }) ≡ f h)
    → f (erased m x q) ≡ f (m q)
unfolding set_refs
erased-unseen f m x q n p i r =
    let m1 = lru_remove m x in
    let m2 = update m1 x (record (m1 x) { in_cache = false }) in
    update-unseen f m2 x _ q (r (m2 x) (((m2 x).refs + (2 ^ 32 - 1)) % 2 ^ 32))
    ∙ update-unseen f m1 x _ q (i (m1 x) false)
    ∙ lru_remove-unseen f m x q n p

pub erased-pointers :
    (m : ℕ → LruHandle) (x q : ℕ)
    → ((erased m x q).next ≡ (lru_remove m x q).next)
      × ((erased m x q).prev ≡ (lru_remove m x q).prev)
unfolding set_refs
erased-pointers m x q =
    let m1 = lru_remove m x in
    let m2 = update m1 x (record (m1 x) { in_cache = false }) in
    (
      update-unseen (λ h. h.next) m2 x _ q refl ∙ update-unseen (λ h. h.next) m1 x _ q refl,
      update-unseen (λ h. h.prev) m2 x _ q refl ∙ update-unseen (λ h. h.prev) m1 x _ q refl,
    )

-- Another entry keeps its references.
pub erased-refs : (m : ℕ → LruHandle) (x q : ℕ) → x ≢ q → (erased m x q).refs ≡ (m q).refs
unfolding set_refs
erased-refs m x q d =
    let m1 = lru_remove m x in
    let m2 = update m1 x (record (m1 x) { in_cache = false }) in
    ap (λ (h : LruHandle). h.refs) (update-elsewhere m2 x _ q d)
    ∙ ap (λ (h : LruHandle). h.refs) (update-elsewhere m1 x _ q d)
    ∙ lru_remove-unseen (λ h. h.refs) m x q (λ h v. refl) (λ h v. refl)

-- The entry itself has none left.
pub erased-no_refs : (m : ℕ → LruHandle) (x : ℕ) → (m x).refs ≡ 1 → (erased m x x).refs ≡ 0
unfolding set_refs
erased-no_refs m x one =
    let m1 = lru_remove m x in
    let m2 = update m1 x (record (m1 x) { in_cache = false }) in
    let before : (m2 x).refs ≡ 1 =
      update-unseen (λ h. h.refs) m1 x _ x refl
      ∙ lru_remove-unseen (λ h. h.refs) m x x (λ h v. refl) (λ h v. refl)
      ∙ one in
    ap (λ (h : LruHandle). h.refs) (update-here m2 x _) ∙ omega (arith, before)
