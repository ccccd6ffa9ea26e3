-- ===== src/Env.antt =====
-- include/env.h: the abstract files that the log reads and writes, over a type of file states.
use mini_leveldb.Base.{ℕ, ◌≡◌, ◌++◌, take, drop}
use mini_leveldb.Slice.{Slice}
use mini_leveldb.Status.{Status, ok_status}

-- `Append` and `Flush` of `WritableFile`, each with the state that it leaves.
pub record WritableFile (F : Type 0) : Type 0 where
  pub append : Slice → F → F × Status
  pub flush : F → F × Status

-- `Read` and `Skip` of `SequentialFile`; `Read` also returns the bytes that it read.
pub record SequentialFile (F : Type 0) : Type 0 where
  pub read : ℕ → F → F × Status × Slice
  pub skip : ℕ → F → F × Status

-- A file that never fails, on which each `Append` adds its bytes at the end.
pub record IsAppending {F : Type 0} (file : WritableFile F) (contents : F → Slice) : Type 0 where
  pub append_status : (d : Slice) (f : F) → (file.append d f).1 ≡ ok_status
  pub append_contents : (d : Slice) (f : F) → contents (file.append d f).0 ≡ contents f ++ d
  pub flush_status : (f : F) → (file.flush f).1 ≡ ok_status
  pub flush_contents : (f : F) → contents (file.flush f).0 ≡ contents f

-- A file that never fails, on which each `Read` takes as many bytes as it is asked for, or all that
-- are left.
pub record IsStreaming {F : Type 0} (file : SequentialFile F) (rest : F → Slice) : Type 0 where
  pub read_status : (n : ℕ) (f : F) → (file.read n f).1 ≡ ok_status
  pub read_bytes : (n : ℕ) (f : F) → (file.read n f).2 ≡ take n (rest f)
  pub read_rest : (n : ℕ) (f : F) → rest (file.read n f).0 ≡ drop n (rest f)
  pub skip_status : (n : ℕ) (f : F) → (file.skip n f).1 ≡ ok_status
  pub skip_rest : (n : ℕ) (f : F) → rest (file.skip n f).0 ≡ drop n (rest f)
