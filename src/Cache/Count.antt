-- ===== src/Cache/Count.antt =====
-- The number of entries in the buckets of the hash table, under each of its operations.
use mini_leveldb.Base.{
  ℕ, zero, suc, ◌+◌, ◌^◌, ◌<◌, ◌≤◌, ◌≡◌, refl, ap, ◌∙◌, inl, inr, arith, List, [], ◌∷◌, Option,
  none, some,
}
use mini_leveldb.Base.{length, length-append, length-set, length-replicate, get_or, set, replicate}
use mini_leveldb.Base.{Bool-cases}
use mini_leveldb.Slice.{Slice}
use mini_leveldb.Cache.{
  LruHandle, HandleTable, is_entry, find_in, put_in, take_out, bucket_of, grow_length, move_bucket,
  resize,
}
use mini_leveldb.Cache.Buckets.{bucket_range}
use mini_leveldb.Cache.Flat.{flat}
use mini_leveldb.Cache.Resize.{grow_length_lem, move_buckets-flat}

-- One entry more, or as many.
abbrev pub one_unless : Option ℕ → ℕ
one_unless none = 1
one_unless (some _) = 0

-- One entry, or none.
abbrev pub one_if : Option ℕ → ℕ
one_if none = 0
one_if (some _) = 1

pub length-flat-set :
    (list : List (List ℕ)) (i : ℕ) (chain : List ℕ)
    → i < length list
    → length (flat (set list i chain)) + length (get_or list i [])
      ≡ length (flat list) + length chain
length-flat-set [] i chain h = absurd (omega arith)
length-flat-set (b ∷ bs) zero chain h =
    omega (arith, length-append chain (flat bs), length-append b (flat bs))
length-flat-set (b ∷ bs) (suc i) chain h = omega (
  arith,
  length-append b (flat (set bs i chain)),
  length-append b (flat bs),
  length-flat-set bs i chain (omega arith),
)

module _ (m : ℕ → LruHandle) (key : Slice) (hash : ℕ) where
  pub length-put_in :
      (e : ℕ) (b : List ℕ)
      → length (put_in m key hash e b) ≡ length b + one_unless (find_in m key hash b)
  unfolding put_in find_in
  length-put_in e [] = omega arith
  length-put_in e (h ∷ hs) = elim (Bool-cases (is_entry key hash (m h))) [
    | inl s ↦ rw s (omega arith)
    | inr d ↦ rw d (omega (arith, length-put_in e hs))
  ]

  pub length-take_out :
      (b : List ℕ) → length (take_out m key hash b) + one_if (find_in m key hash b) ≡ length b
  unfolding take_out find_in
  length-take_out [] = refl
  length-take_out (h ∷ hs) = elim (Bool-cases (is_entry key hash (m h))) [
    | inl s ↦ rw s (omega arith)
    | inr d ↦ rw d (omega (arith, length-take_out hs))
  ]

flat-replicate : (n : ℕ) → length (flat (replicate n [])) ≡ 0
flat-replicate zero = refl
flat-replicate (suc n) = flat-replicate n

length-move_bucket :
    (m : ℕ → LruHandle) (n bits : ℕ)
    → n ≡ 2 ^ bits
    → (b : List ℕ) (list : List (List ℕ)) → length list ≡ n
    → length (flat (move_bucket m n b list)) ≡ length b + length (flat list)
unfolding move_bucket
length-move_bucket m n bits e [] list h = omega arith
length-move_bucket m n bits e (x ∷ xs) list h =
    let i = bucket_of n (m x).hash in
    let low : i < n = rw e (bucket_range bits (m x).hash) in
    omega (
      arith,
      length-move_bucket m n bits e xs (set list i (x ∷ get_or list i []))
          (length-set list i (x ∷ get_or list i []) ∙ h),
      length-flat-set list i (x ∷ get_or list i []) (omega arith),
    )

-- `Resize` keeps the number of entries.
pub length-resize :
    (m : ℕ → LruHandle) (t : HandleTable)
    → t.elems ≤ 2 ^ 31
    → length (flat (resize m t).list) ≡ length (flat t.list)
unfolding resize
length-resize m t e =
    let n = grow_length 32 4 t.elems in
    let (bits, grown, _) = grow_length_lem 32 2 t.elems (omega arith) (omega arith) e in
    omega (
      arith,
      ap (λ l. length (flat l)) (move_buckets-flat m n t.list (replicate n [])),
      length-move_bucket m n bits grown (flat t.list) (replicate n []) (length-replicate n []),
      flat-replicate n,
    )
