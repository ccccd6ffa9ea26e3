-- ===== src/Arena/Regions.antt =====
-- The regions that an arena has given out.
use mini_leveldb.Base.{
  ℕ, ◌+◌, ◌-◌, ◌/◌, ◌%◌, ◌^◌, ◌≤◌, ◌<◌, ◌≡◌, ◌⊎◌, inl, inr, refl, arith, List, [], ◌∷◌, All,
  Bool-cases, bit_and, ltb, leb, ◌==◌, if◌then◌else◌,
}
use mini_leveldb.Base.Bits.{bit_and_low}
use mini_leveldb.Arena.{
  Region, Arena, new_arena, arena_block_size, allocate_new_block, cut, allocate_fallback, allocate,
  allocate_aligned,
}

-- Two regions have no byte in common.
abbrev pub Apart : Region → Region → Type 0
Apart r s = (r.1 ≡ 0) ⊎ ((r.0 + r.1 ≤ s.0) ⊎ (s.0 + s.1 ≤ r.0))

-- A region lies in one of the blocks.
pub data Within (r : Region) : List Region → Type 0 where
  here :
      {b : Region} {blocks : List Region}
      → b.0 ≤ r.0
      → r.0 + r.1 ≤ b.0 + b.1
      → Within r (b ∷ blocks)
  there : {b : Region} {blocks : List Region} → Within r blocks → Within r (b ∷ blocks)

-- No two of the regions have a byte in common.
pub data AllApart : List Region → Type 0 where
  none_given : AllApart []
  one_given :
      {r : Region} {given : List Region}
      → All (Apart r) given
      → AllApart given
      → AllApart (r ∷ given)

-- `operator new[]` returns memory that lies in no block that is alive, at a multiple of eight.
pub record IsAllocator (new_chars : List Region → ℕ → ℕ) : Type 0 where
  pub fresh :
      (blocks : List Region) (bytes : ℕ) → All (Apart (new_chars blocks bytes, bytes)) blocks
  pub aligned : (blocks : List Region) (bytes : ℕ) → new_chars blocks bytes % 8 ≡ 0

-- The regions that were given out lie in the blocks, apart from each other and from the free bytes, and
-- the free bytes lie in a block.
pub record IsArena (given : List Region) (a : Arena) : Type 0 where
  pub inside : All (λ r. Within r a.blocks) given
  pub apart : AllApart given
  pub unused : All (λ r. Apart (a.alloc_ptr, a.alloc_bytes_remaining) r) given
  pub free_inside :
      (a.alloc_bytes_remaining ≡ 0) ⊎ Within (a.alloc_ptr, a.alloc_bytes_remaining) a.blocks

All-map :
    {P Q : Region → Type 0} → ((r : Region) → P r → Q r) → (rs : List Region) → All P rs → All Q rs
All-map f [] h = tt
All-map f (r ∷ rs) (p, h) = (f r p, All-map f rs h)

Apart-part : (p n q m : ℕ) (r : Region) → q ≤ p → p + n ≤ q + m → Apart (q, m) r → Apart (p, n) r
Apart-part p n q m r lo hi (inl z) = inl (omega arith)
Apart-part p n q m r lo hi (inr (inl h)) = inr (inl (omega arith))
Apart-part p n q m r lo hi (inr (inr h)) = inr (inr (omega arith))

-- What is apart from every block is apart from what lies in one, both ways.
Apart-Within :
    (s : Region) {r : Region} {blocks : List Region}
    → Within r blocks
    → All (Apart s) blocks
    → Apart s r
Apart-Within s (here lo hi) (a, _) = ground (arith, a, lo, hi)
Apart-Within s (there w) (_, h) = Apart-Within s w h

Apart-flip : (s r : Region) → Apart s r → (r.1 ≡ 0) ⊎ (0 < s.1) → Apart r s
Apart-flip s r a h = ground arith

Within-part :
    (p n q m : ℕ) {blocks : List Region}
    → q ≤ p
    → p + n ≤ q + m
    → Within (q, m) blocks
    → Within (p, n) blocks
Within-part p n q m lo hi (here lo' hi') = here (omega arith) (omega arith)
Within-part p n q m lo hi (there w) = there (Within-part p n q m lo hi w)

-- An arena that has been given no region.
pub new_arena-IsArena : IsArena [] new_arena
unfolding new_arena
new_arena-IsArena = record { inside = tt; apart = none_given; unused = tt; free_inside = inl refl }

-- A part of the free bytes is given out.
cut-IsArena :
    (slop needed bytes : ℕ) (given : List Region) (a : Arena)
    → IsArena given a
    → 0 < bytes
    → needed ≡ bytes + slop
    → bytes + slop ≤ a.alloc_bytes_remaining
    → IsArena (((cut slop needed a).0, bytes) ∷ given) (cut slop needed a).1
unfolding cut
cut-IsArena slop needed bytes given a h pos same room =
    let p = a.alloc_ptr in
    let n = a.alloc_bytes_remaining in
    let whole : Within (p, n) a.blocks = elim h.free_inside [
      | inl z ↦ absurd (omega arith)
      | inr w ↦ w
    ] in
    record {
      inside = (Within-part (p + slop) bytes p n (omega arith) (omega arith) whole, h.inside);
      apart =
          one_given
            (All-map (λ r. Apart-part (p + slop) bytes p n r (omega arith) (omega arith)) given
              h.unused)
            h.apart;
      unused = (
        inr (inr (omega arith)),
        All-map (λ r. Apart-part (p + needed) (n - needed) p n r (omega arith) (omega arith)) given
            h.unused,
      );
      free_inside =
          inr (Within-part (p + needed) (n - needed) p n (omega arith) (omega arith) whole);
    }

module _ (new_chars : List Region → ℕ → ℕ) (good : IsAllocator new_chars) where
  -- A new block is apart from all that lies in the blocks before it.
  fresh-All :
      (bytes : ℕ) (blocks given : List Region)
      → All (λ r. Within r blocks) given
      → All (Apart (new_chars blocks bytes, bytes)) given
  fresh-All bytes blocks given h =
      All-map (λ r w. Apart-Within (new_chars blocks bytes, bytes) w (good.fresh blocks bytes))
        given h

  -- A whole new block is given out.
  new_block-IsArena :
      (bytes : ℕ) (given : List Region) (a : Arena)
      → IsArena given a
      → 0 < bytes
      → IsArena
          (((allocate_new_block new_chars bytes a).0, bytes) ∷ given)
          (allocate_new_block new_chars bytes a).1
  unfolding allocate_new_block
  new_block-IsArena bytes given a h pos =
      let new : Region = (new_chars a.blocks bytes, bytes) in
      let free : Region = (a.alloc_ptr, a.alloc_bytes_remaining) in
      record {
        inside = (here (omega arith) (omega arith), All-map (λ r w. there w) given h.inside);
        apart = one_given (fresh-All bytes a.blocks given h.inside) h.apart;
        unused = (
          elim h.free_inside [
            | inl z ↦ inl z
            | inr w ↦ Apart-flip new free (Apart-Within new w (good.fresh a.blocks bytes)) (inr pos)
          ],
          h.unused,
        );
        free_inside = elim h.free_inside [ inl z ↦ inl z | inr w ↦ inr (there w) ];
      }

  -- A new block of the usual size takes the place of the free bytes.
  fallback-IsArena :
      (bytes : ℕ) (given : List Region) (a : Arena)
      → IsArena given a
      → 0 < bytes
      → IsArena
          (((allocate_fallback new_chars bytes a).0, bytes) ∷ given)
          (allocate_fallback new_chars bytes a).1
  unfolding allocate_fallback allocate_new_block
  fallback-IsArena bytes given a h pos = elim (Bool-cases (ltb (arena_block_size / 4) bytes)) [
    | inl big ↦ rw big (new_block-IsArena bytes given a h pos)
    | inr small ↦
        let block = new_chars a.blocks arena_block_size in
        let opened : IsArena given (record a {
          alloc_ptr = block;
          alloc_bytes_remaining = arena_block_size;
          blocks = (block, arena_block_size) ∷ a.blocks;
          memory_usage = a.memory_usage + (arena_block_size + 8);
        }) =
          record {
            inside = All-map (λ r w. there w) given h.inside;
            apart = h.apart;
            unused = fresh-All arena_block_size a.blocks given h.inside;
            free_inside = inr (here (omega arith) (omega arith));
          } in
        rw small
          (cut-IsArena 0 bytes bytes given _ opened pos (omega arith) (ground (arith, small)))
  ]

  -- For a number of bytes that is not zero, `Allocate` returns a region of that many bytes that lies in
  -- a block and has no byte in common with any region that was given out before, and leaves an arena of
  -- which the same can be said again; memory from `operator new` lies in no block that is alive.
  pub allocate-IsArena :
      (bytes : ℕ) (given : List Region) (a : Arena)
      → IsArena given a
      → 0 < bytes
      → IsArena (((allocate new_chars bytes a).0, bytes) ∷ given) (allocate new_chars bytes a).1
  unfolding allocate
  allocate-IsArena bytes given a h pos = elim (Bool-cases (leb bytes a.alloc_bytes_remaining)) [
    | inl fits ↦
        rw fits (cut-IsArena 0 bytes bytes given a h pos (omega arith) (ground (arith, fits)))
    | inr full ↦ rw full (fallback-IsArena bytes given a h pos)
  ]

  fallback_aligned : (bytes : ℕ) (a : Arena) → (allocate_fallback new_chars bytes a).0 % 8 ≡ 0
  unfolding allocate_fallback allocate_new_block cut
  fallback_aligned bytes a =
      ground (arith, good.aligned a.blocks bytes, good.aligned a.blocks arena_block_size)

  -- For a number of bytes to which the slop can be added in 64 bits, `AllocateAligned` promises the
  -- same as `Allocate`, and an address that is a multiple of eight.
  pub allocate_aligned-IsArena :
      (bytes : ℕ) (given : List Region) (a : Arena)
      → IsArena given a
      → 0 < bytes
      → bytes + 7 < 2 ^ 64
      → IsArena
          (((allocate_aligned new_chars bytes a).0, bytes) ∷ given)
          (allocate_aligned new_chars bytes a).1
        × ((allocate_aligned new_chars bytes a).0 % 8 ≡ 0)
  unfolding allocate_aligned
  allocate_aligned-IsArena bytes given a h pos small =
      let low : bit_and a.alloc_ptr 7 ≡ a.alloc_ptr % 8 = bit_and_low 3 a.alloc_ptr in
      let current_mod = bit_and a.alloc_ptr 7 in
      let slop = if current_mod == 0 then 0 else 8 - current_mod in
      let even : (a.alloc_ptr + slop) % 8 ≡ 0 = ground (arith, low) in
      let same : (bytes + slop) % 2 ^ 64 ≡ bytes + slop = ground (arith, low) in
      elim (Bool-cases (leb ((bytes + slop) % 2 ^ 64) a.alloc_bytes_remaining)) [
        | inl fits ↦ rw fits (
          cut-IsArena slop ((bytes + slop) % 2 ^ 64) bytes given a h pos same
              (ground (arith, fits)),
          unfold cut in even,
        )
        | inr full ↦ rw full (fallback-IsArena bytes given a h pos, fallback_aligned bytes a)
      ]
