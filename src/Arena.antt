-- ===== src/Arena.antt =====
-- util/arena.h and util/arena.cc: the arena allocator, over addresses that are numbers.
pub mod Regions
use mini_leveldb.Base.{
  ℕ, ◌+◌, ◌-◌, ◌*◌, ◌/◌, ◌%◌, ◌^◌, List, [], ◌∷◌, ◌++◌, bit_and, ltb, leb, ◌==◌, if◌then◌else◌,
}

-- An address and a number of bytes behind it.
abbrev pub Region : Type 0
Region = ℕ × ℕ

pub record Arena : Type 0 where
  pub alloc_ptr : ℕ
  pub alloc_bytes_remaining : ℕ
  pub blocks : List Region
  pub memory_usage : ℕ

abbrev pub arena_block_size : ℕ
arena_block_size = 4096

unfoldable pub new_arena : Arena
new_arena = record { alloc_ptr = 0; alloc_bytes_remaining = 0; blocks = []; memory_usage = 0 }

-- The bytes that are needed are cut off the front of the block; the result stands behind the slop.
unfoldable pub cut : (slop needed : ℕ) → Arena → ℕ × Arena
cut slop needed a = (
  a.alloc_ptr + slop,
  record a {
    alloc_ptr = a.alloc_ptr + needed;
    alloc_bytes_remaining = a.alloc_bytes_remaining - needed;
  },
)

-- `operator new[]`: the address of a new block of a number of bytes, beside the blocks that are alive.
module _ (new_chars : List Region → ℕ → ℕ) where
  -- The block and the arena; a pointer has eight bytes.
  unfoldable pub allocate_new_block : ℕ → Arena → ℕ × Arena
  allocate_new_block block_bytes a =
      let result = new_chars a.blocks block_bytes in
      (
        result,
        record a {
          blocks = (result, block_bytes) ∷ a.blocks;
          memory_usage = a.memory_usage + (block_bytes + 8);
        },
      )

  unfoldable pub allocate_fallback : ℕ → Arena → ℕ × Arena
  unfolding allocate_new_block cut
  allocate_fallback bytes a =
      let (block, a1) = allocate_new_block arena_block_size a in
      if ltb (arena_block_size / 4) bytes
      then allocate_new_block bytes a
      else cut 0 bytes (record a1 { alloc_ptr = block; alloc_bytes_remaining = arena_block_size })

  unfoldable pub allocate : ℕ → Arena → ℕ × Arena
  unfolding allocate_fallback cut
  allocate bytes a =
      if leb bytes a.alloc_bytes_remaining then cut 0 bytes a else allocate_fallback bytes a

  unfoldable pub allocate_aligned : ℕ → Arena → ℕ × Arena
  unfolding allocate_fallback cut
  allocate_aligned bytes a =
      let current_mod = bit_and a.alloc_ptr 7 in
      let slop = if current_mod == 0 then 0 else 8 - current_mod in
      let needed = (bytes + slop) % 2 ^ 64 in
      if leb needed a.alloc_bytes_remaining then cut slop needed a else allocate_fallback bytes a
