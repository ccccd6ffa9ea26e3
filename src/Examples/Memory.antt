-- ===== src/Examples/Memory.antt =====
-- A file that is a byte string in memory.
use mini_leveldb.Base.{refl, ◌++◌, take, drop}
use mini_leveldb.Slice.{Slice}
use mini_leveldb.Status.{ok_status}
use mini_leveldb.Env.{WritableFile, IsAppending, SequentialFile, IsStreaming}

abbrev pub memory_output : WritableFile Slice
memory_output = record { append = λ d f. (f ++ d, ok_status); flush = λ f. (f, ok_status) }

abbrev pub memory_input : SequentialFile Slice
memory_input = record {
  read = λ n f. (drop n f, ok_status, take n f);
  skip = λ n f. (drop n f, ok_status);
}

pub memory_output-IsAppending : IsAppending memory_output (λ f. f)
memory_output-IsAppending = record {
  append_status = λ d f. refl;
  append_contents = λ d f. refl;
  flush_status = λ f. refl;
  flush_contents = λ f. refl;
}

pub memory_input-IsStreaming : IsStreaming memory_input (λ f. f)
memory_input-IsStreaming = record {
  read_status = λ n f. refl;
  read_bytes = λ n f. refl;
  read_rest = λ n f. refl;
  skip_status = λ n f. refl;
  skip_rest = λ n f. refl;
}
