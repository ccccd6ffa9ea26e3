-- ===== src/Base/Stores.antt =====
-- Memory as a function of addresses.
use Prim.Native.Nat.{ℕ}
use mini_leveldb.Base.Tests.{◌==◌, if◌then◌else◌}

-- A function with a new value at one argument: memory after a write.
abbrev pub update {ℓ} : {A : Type ℓ} → (ℕ → A) → ℕ → A → ℕ → A
update f p v q = if p == q then v else f q
