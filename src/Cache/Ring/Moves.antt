-- ===== src/Cache/Ring/Moves.antt =====
-- `LRU_Remove` and `LRU_Append` on the rings: one entry leaves or joins, and other rings stay.
use mini_leveldb.Base.{ℕ, ◌≡◌, ◌≢◌, refl, sym, ◌∙◌, List, [], ◌∷◌, ◌++◌}
use mini_leveldb.Base.{==_refl, All, All-map, All-both}
use mini_leveldb.Cache.{LruHandle}
use mini_leveldb.Cache.Lru.{lru_remove, lru_append}
use mini_leveldb.Cache.Ring.{
  differ, Linked, Pairwise, IsRing, remove-next, remove-prev, append-next, append-prev,
}

-- Memory with the same pointers at the nodes of a chain.
pub kept-Linked :
    (m m' : ℕ → LruHandle) (a : ℕ) (xs : List ℕ) (z : ℕ)
    → (m' a).next ≡ (m a).next
    → (m' z).prev ≡ (m z).prev
    → All (λ q. ((m' q).next ≡ (m q).next) × ((m' q).prev ≡ (m q).prev)) xs
    → Linked m a xs z
    → Linked m' a xs z
kept-Linked m m' a [] z n p all (h, k) = (n ∙ h, p ∙ k)
kept-Linked m m' a (x ∷ xs) z n p ((nx, px), all) (h, k, l) =
    (n ∙ h, px ∙ k, kept-Linked m m' x xs z nx p all l)

-- The node in front of the end is one of the chain.
prev_last :
    (m : ℕ → LruHandle) (q a : ℕ) (xs : List ℕ) (z : ℕ)
    → Linked m a xs z
    → All (λ y. q ≢ y) (a ∷ xs)
    → q ≢ (m z).prev
prev_last m q a [] z (h, k) (n, _) = λ e. n (e ∙ k)
prev_last m q a (x ∷ xs) z (_, _, l) (_, all) = prev_last m q x xs z l all

-- So are the two neighbours of an entry, but for the end.
prev_inside :
    (m : ℕ → LruHandle) (q a e : ℕ) (xs ys : List ℕ) (z : ℕ)
    → Linked m a (xs ++ (e ∷ ys)) z
    → q ≢ a
    → All (λ y. q ≢ y) (xs ++ (e ∷ ys))
    → q ≢ (m e).prev
prev_inside m q a e [] ys z (_, k, _) n all = λ h. n (h ∙ k)
prev_inside m q a e (x ∷ xs) ys z (_, _, l) n (n', all) = prev_inside m q x e xs ys z l n' all

next_inside :
    (m : ℕ → LruHandle) (q a e : ℕ) (xs ys : List ℕ) (z : ℕ)
    → Linked m a (xs ++ (e ∷ ys)) z
    → q ≢ z
    → All (λ y. q ≢ y) (xs ++ (e ∷ ys))
    → q ≢ (m e).next
next_inside m q a e [] [] z (_, _, (h, _)) n all = λ t. n (t ∙ h)
next_inside m q a e [] (y ∷ ys) z (_, _, (h, _, _)) n (_, (ny, all)) = λ t. ny (t ∙ h)
next_inside m q a e (x ∷ xs) ys z (_, _, l) n (_, all) = next_inside m q x e xs ys z l n all

module _ (m : ℕ → LruHandle) (s e : ℕ) (d : e ≢ s) where
  append-Linked :
      (a : ℕ) (xs : List ℕ)
      → Linked m a xs s
      → e ≢ a
      → All (λ q. e ≢ q) xs
      → All (λ q. s ≢ q) xs
      → Pairwise (a ∷ xs)
      → Linked (lru_append m s e) a (xs ++ (e ∷ [])) s
  append-Linked a [] (h, k) na ne ns p =
      let out : (m s).prev ≢ e = λ t. na (sym t ∙ k) in
      (
        append-next m s e a d ∙ rw k (rw (==_refl a) refl),
        append-prev m s e e d out ∙ rw (differ s e (λ t. d (sym t))) (rw (==_refl e) k),
        (
          append-next m s e e d ∙ rw (differ (m s).prev e out) (rw (==_refl e) refl),
          append-prev m s e s d out ∙ rw (==_refl s) refl,
        ),
      )
  append-Linked a (x ∷ xs) (h, k, l) na (nx, ne) (sx, ns) (apart, p) =
      let out : (m s).prev ≢ e = λ t. prev_last m e x xs s l (nx, ne) (sym t) in
      let inside : (m s).prev ≢ a = λ t. prev_last m a x xs s l apart (sym t) in
      (
        append-next m s e a d ∙ rw (differ (m s).prev a inside, differ e a na) h,
        append-prev m s e x d out ∙ rw (differ s x sx, differ e x nx) k,
        append-Linked x xs l nx ne ns p,
      )

  snoc-Pairwise : (xs : List ℕ) → Pairwise xs → All (λ q. e ≢ q) xs → Pairwise (xs ++ (e ∷ []))
  snoc-Pairwise [] p all = (tt, tt)
  snoc-Pairwise (x ∷ xs) (apart, p) (n, all) = (snoc-All x xs apart n, snoc-Pairwise xs p all)
    where
      snoc-All :
          (x : ℕ) (xs : List ℕ) → All (λ y. x ≢ y) xs → e ≢ x → All (λ y. x ≢ y) (xs ++ (e ∷ []))
      snoc-All x [] h n = (λ t. n (sym t), tt)
      snoc-All x (y ∷ ys) (h, hs) n = (h, snoc-All x ys hs n)

  append-kept :
      (q : ℕ) (xs : List ℕ)
      → Linked m s xs s
      → e ≢ q
      → All (λ y. q ≢ y) (s ∷ xs)
      → All (λ y. e ≢ y) (s ∷ xs)
      → ((lru_append m s e q).next ≡ (m q).next) × ((lru_append m s e q).prev ≡ (m q).prev)
  append-kept q xs l n (ns, all) fresh =
      let out : (m s).prev ≢ e = λ t. prev_last m e s xs s l fresh (sym t) in
      let other : (m s).prev ≢ q = λ t. prev_last m q s xs s l (ns, all) (sym t) in
      (
        append-next m s e q d ∙ rw (differ (m s).prev q other, differ e q n) refl,
        append-prev m s e q d out ∙ rw (differ s q (λ t. ns (sym t)), differ e q n) refl,
      )

  -- `LRU_Append` of an entry that is not in a ring makes it the newest one of the ring, and leaves
  -- every other ring as it is.
  pub lru_append-IsRing :
      (xs : List ℕ)
      → IsRing m s xs
      → All (λ q. e ≢ q) xs
      → IsRing (lru_append m s e) s (xs ++ (e ∷ []))
        × ((s' : ℕ) (ys : List ℕ)
            → IsRing m s' ys
            → All (λ q. (e ≢ q) × All (λ y. q ≢ y) (s ∷ xs)) (s' ∷ ys)
            → IsRing (lru_append m s e) s' ys)
  lru_append-IsRing xs (l, (apart, p)) fresh = (
    (append-Linked s xs l d fresh apart (apart, p), snoc-Pairwise (s ∷ xs) (apart, p) (d, fresh)),
    λ s' ys (l', p') ((n, o), others).
        let (next_s, prev_s) = append-kept s' xs l n o (d, fresh) in
        (
          kept-Linked m (lru_append m s e) s' ys s' next_s prev_s
              (All-map (λ q. (e ≢ q) × All (λ y. q ≢ y) (s ∷ xs)) _
                (λ q (n, o). append-kept q xs l n o (d, fresh)) ys others)
              l',
          p',
        ),
  )

-- A list without one of its elements.
without-All {κ} :
    (P : ℕ → Type κ) (xs : List ℕ) (e : ℕ) (ys : List ℕ)
    → All P (xs ++ (e ∷ ys))
    → P e × All P (xs ++ ys)
without-All P [] e ys (h, all) = (h, all)
without-All P (x ∷ xs) e ys (h, all) = let (he, rest) = without-All P xs e ys all in (he, (h, rest))

without-Pairwise :
    (xs : List ℕ) (e : ℕ) (ys : List ℕ) → Pairwise (xs ++ (e ∷ ys)) → Pairwise (xs ++ ys)
without-Pairwise [] e ys (_, p) = p
without-Pairwise (x ∷ xs) e ys (apart, p) =
    ((without-All (λ y. x ≢ y) xs e ys apart).1, without-Pairwise xs e ys p)

module _ (m : ℕ → LruHandle) (e z : ℕ) where
  remove-kept :
      (q : ℕ)
      → q ≢ (m e).prev
      → q ≢ (m e).next
      → ((lru_remove m e q).next ≡ (m q).next) × ((lru_remove m e q).prev ≡ (m q).prev)
  remove-kept q p n = (
    remove-next m e q ∙ rw (differ (m e).prev q (λ t. p (sym t))) refl,
    remove-prev m e q ∙ rw (differ (m e).next q (λ t. n (sym t))) refl,
  )

  remove-Linked :
      (a : ℕ) (xs ys : List ℕ)
      → Linked m a (xs ++ (e ∷ ys)) z
      → Pairwise (a ∷ (xs ++ (e ∷ ys)))
      → All (λ q. z ≢ q) (xs ++ (e ∷ ys))
      → Linked (lru_remove m e) a (xs ++ ys) z
  remove-Linked a [] [] (h, k, (he, kz)) p n =
      (remove-next m e a ∙ rw k (rw (==_refl a) he), remove-prev m e z ∙ rw he (rw (==_refl z) k))
  remove-Linked a [] (y ∷ ys) (h, k, (he, ky, l)) ((_, (ay, apart)), (_, (y_apart, _)))
        (_, (zy, n)) =
      (
        remove-next m e a ∙ rw k (rw (==_refl a) he),
        remove-prev m e y ∙ rw he (rw (==_refl y) k),
        kept-Linked m (lru_remove m e) y ys z (remove-next m e y ∙ rw k (rw (differ a y ay) refl))
            (remove-prev m e z ∙ rw he (rw (differ y z (λ t. zy (sym t))) refl))
            (All-both (λ q. a ≢ q) (λ q. y ≢ q) _
              (λ q qa qy. remove-kept q (λ t. qa (sym (t ∙ k))) (λ t. qy (sym (t ∙ he)))) ys apart
              y_apart)
            l,
      )
  remove-Linked a (x ∷ xs) ys (h, k, l) ((ax, apart), (x_apart, p)) (zx, n) =
      let out : (m e).prev ≢ a = λ t. prev_inside m a x e xs ys z l ax apart (sym t) in
      let out' : (m e).next ≢ x =
        λ t. next_inside m x x e xs ys z l (λ t. zx (sym t)) x_apart (sym t) in
      (
        remove-next m e a ∙ rw (differ (m e).prev a out) h,
        remove-prev m e x ∙ rw (differ (m e).next x out') k,
        remove-Linked x xs ys l (x_apart, p) n,
      )

-- `LRU_Remove` takes an entry out of the ring in which it is, and leaves every other ring as it is.
pub lru_remove-IsRing :
    (m : ℕ → LruHandle) (s e : ℕ) (xs ys : List ℕ)
    → IsRing m s (xs ++ (e ∷ ys))
    → IsRing (lru_remove m e) s (xs ++ ys)
      × ((s' : ℕ) (zs : List ℕ)
          → IsRing m s' zs
          → All (λ q. All (λ y. q ≢ y) (s ∷ (xs ++ (e ∷ ys)))) (s' ∷ zs)
          → IsRing (lru_remove m e) s' zs)
lru_remove-IsRing m s e xs ys (l, (apart, p)) =
    let kept : (q : ℕ)
        → All (λ y. q ≢ y) (s ∷ (xs ++ (e ∷ ys)))
        → ((lru_remove m e q).next ≡ (m q).next) × ((lru_remove m e q).prev ≡ (m q).prev) =
      λ q (n, all).
        remove-kept m e s q (prev_inside m q s e xs ys s l n all)
          (next_inside m q s e xs ys s l n all) in
    (
      (remove-Linked m e s s xs ys l (apart, p) apart, without-Pairwise (s ∷ xs) e ys (apart, p)),
      λ s' zs (l', p') (here, others).
          let (next_s, prev_s) = kept s' here in
          (
            kept-Linked m (lru_remove m e) s' zs s' next_s prev_s
                (All-map (λ q. All (λ y. q ≢ y) (s ∷ (xs ++ (e ∷ ys)))) _ kept zs others) l',
            p',
          ),
    )
