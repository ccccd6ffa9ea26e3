-- ===== src/Examples/FileRuns.antt =====
-- The theorems on the buffered file at a concrete system, which writes a byte at a time.
use mini_leveldb.Base.{ℕ, ◌≡◌, refl, inl, arith, [], ◌∷◌, ◌++◌, none, some}
use mini_leveldb.Slice.{Slice}
use mini_leveldb.Status.{ok_status}
use mini_leveldb.PosixFile.{System, WriteResult, wrote, PosixWritableFile, append, flush}
use mini_leveldb.PosixFile.Written.{IsWriting, Appends, append-Appends, flush-written, contents}

abbrev written_bytes : Slice → Slice
written_bytes d = d

abbrev never : Slice → ℕ
never d = 0

abbrev byte_by_byte : System Slice
byte_by_byte = record {
  write = first;
  close = λ d. (d, none);
  strerror = λ n. [];
  enoent = 2;
  eintr = 4;
}
  where
    first : Slice → Slice → Slice × WriteResult
    first [] d = (d, wrote 0)
    first (x ∷ xs) d = (d ++ (x ∷ []), wrote 1)

byte_by_byte-IsWriting : IsWriting byte_by_byte written_bytes never
byte_by_byte-IsWriting = record {
  some_bytes = λ x xs d. inl (1, refl, omega arith, refl, omega arith);
}

abbrev a_file : PosixWritableFile Slice
a_file = record { buf = 97 ∷ []; fd = 98 ∷ []; filename = 99 ∷ [] }

append-Appends_example :
    Appends byte_by_byte written_bytes never byte_by_byte-IsWriting
      (contents byte_by_byte written_bytes never byte_by_byte-IsWriting a_file ++ (100 ∷ 101 ∷ []))
      0
      (append byte_by_byte 70000 a_file (100 ∷ 101 ∷ []))
append-Appends_example =
    append-Appends byte_by_byte written_bytes never byte_by_byte-IsWriting 70000 a_file
      (100 ∷ 101 ∷ []) (omega arith) (omega arith)

flush-written_example :
    (file' : PosixWritableFile Slice) × (flush byte_by_byte 9 a_file ≡ some (file', ok_status))
    × (written_bytes file'.fd
        ≡ contents byte_by_byte written_bytes never byte_by_byte-IsWriting a_file)
    × (file'.buf ≡ [])
flush-written_example =
    flush-written byte_by_byte written_bytes never byte_by_byte-IsWriting 9 a_file (omega arith)
