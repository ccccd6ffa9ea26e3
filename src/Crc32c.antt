-- ===== src/Crc32c.antt =====
-- util/crc32c.h: the mask under which a checksum is stored, and the interface of the checksum that
-- the log uses.
pub mod Tables
pub mod Extend
pub mod TableValues
pub mod Steps
pub mod Partial
pub mod Agrees
pub mod Bitwise
use mini_leveldb.Base.{ℕ, ◌+◌, ◌-◌, ◌*◌, ◌/◌, ◌%◌, ◌^◌, ◌<◌, ◌≡◌, ◌++◌, arith, bit_or}
use mini_leveldb.Base.Bits.{bit_or_fields}
use mini_leveldb.Slice.{Slice}

abbrev pub mask_delta : ℕ
mask_delta = 0xa282ead8

-- Rotate right by 15 bits and add a constant, in 32 bits.
unfoldable pub mask : ℕ → ℕ
mask crc = (bit_or (crc / 2 ^ 15) (crc * 2 ^ 17 % 2 ^ 32) + mask_delta) % 2 ^ 32

unfoldable pub unmask : ℕ → ℕ
unmask masked_crc =
    let rot = (masked_crc + 2 ^ 32 - mask_delta) % 2 ^ 32 in
    bit_or (rot / 2 ^ 17) (rot * 2 ^ 15 % 2 ^ 32)

rotate_right :
    (crc : ℕ)
    → crc < 2 ^ 32
    → bit_or (crc / 2 ^ 15) (crc * 2 ^ 17 % 2 ^ 32) ≡ crc / 2 ^ 15 + crc % 2 ^ 15 * 2 ^ 17
rotate_right crc h =
    let e : crc * 2 ^ 17 % 2 ^ 32 ≡ crc % 2 ^ 15 * 2 ^ 17 = omega arith in
    rw e (bit_or_fields 17 (crc / 2 ^ 15) (crc % 2 ^ 15) (omega arith))

rotate_left :
    (rot : ℕ)
    → rot < 2 ^ 32
    → bit_or (rot / 2 ^ 17) (rot * 2 ^ 15 % 2 ^ 32) ≡ rot / 2 ^ 17 + rot % 2 ^ 17 * 2 ^ 15
rotate_left rot h =
    let e : rot * 2 ^ 15 % 2 ^ 32 ≡ rot % 2 ^ 17 * 2 ^ 15 = omega arith in
    rw e (bit_or_fields 15 (rot / 2 ^ 17) (rot % 2 ^ 17) (omega arith))

-- `Unmask` undoes `Mask` on every 32-bit checksum.
pub unmask-mask : (crc : ℕ) → crc < 2 ^ 32 → unmask (mask crc) ≡ crc
unfolding mask unmask
unmask-mask crc h =
    let masked = (crc / 2 ^ 15 + crc % 2 ^ 15 * 2 ^ 17 + mask_delta) % 2 ^ 32 in
    rw (rotate_right crc h, rotate_left ((masked + 2 ^ 32 - mask_delta) % 2 ^ 32) (omega arith))
      (omega arith)

pub mask-lt : (crc : ℕ) → mask crc < 2 ^ 32
unfolding mask
mask-lt crc = omega arith

-- What the log uses of the checksum: `Extend`, and its laws. A checksum of no bytes extended by
-- bytes is their checksum (`Value`), and extending twice is extending by both.
pub record Checksum : Type 0 where
  pub extend : ℕ → Slice → ℕ
  pub extend-lt : (crc : ℕ) (bytes : Slice) → extend crc bytes < 2 ^ 32
  pub extend-append : (crc : ℕ) (xs ys : Slice) → extend (extend crc xs) ys ≡ extend crc (xs ++ ys)

unfoldable pub value : Checksum → Slice → ℕ
value c bytes = c.extend 0 bytes
