-- ===== src/Examples/LogRuns.antt =====
-- The theorems on the log at concrete files and records.
use mini_leveldb.Base.{
  ℕ, zero, ◌+◌, ◌≡◌, refl, [], ◌∷◌, ◌++◌, arith, true, Option, some, suc, length,
}
use mini_leveldb.Slice.{Slice}
use mini_leveldb.Status.{ok_status}
use mini_leveldb.Log.Writer.{Writer, new_writer, add_record}
use mini_leveldb.Log.Framing.{Framed}
use mini_leveldb.Log.Written.{IsWriter, add_record-Framed}
use mini_leveldb.Log.Reader.{Reader, new_reader, read_record}
use mini_leveldb.Log.WholeLog.{write_all, read_all, log_round_trip}
use mini_leveldb.Log.Terminates.{read_record_total}
use mini_leveldb.Examples.Memory.{memory_output, memory_output-IsAppending}
use mini_leveldb.Examples.Memory.{memory_input, memory_input-IsStreaming}
use mini_leveldb.Crc32c.Extend.{extend, step1, step4, table_step}
use mini_leveldb.Coding.{decode_fixed32}
use mini_leveldb.Crc32c.Tables.{
  byte_extension_table, stride_extension_table0, stride_extension_table1, stride_extension_table2,
  stride_extension_table3,
}
use mini_leveldb.Crc32c.Bitwise.{byte_loop}
use mini_leveldb.Crc32c.Agrees.{bitwise_extend, extend-bitwise, crc32c}

abbrev garbage : Slice
garbage = 9 ∷ 9 ∷ 9 ∷ 9 ∷ 1 ∷ 0 ∷ 1 ∷ 5 ∷ 6 ∷ []

abbrev up_to : ℕ → Slice
up_to zero = []
up_to (suc n) = up_to n ++ (n ∷ [])

abbrev empty_log : Writer Slice
empty_log = new_writer (crc32c 0) []

abbrev on_garbage : Reader Slice
on_garbage = new_reader garbage true true 3

add_record-Framed_example :
    (w' : Writer Slice) × (bytes : Slice) × (add_record (crc32c 0) memory_output garbage empty_log
      ≡ some (w', ok_status))
    × Framed (crc32c 0) 0 true garbage bytes w'.block_offset
    × (w'.dest ≡ [] ++ bytes)
    × IsWriter (crc32c 0) w'
unfolding new_writer
add_record-Framed_example =
    add_record-Framed (crc32c 0) memory_output (λ f. f) memory_output-IsAppending garbage empty_log
      (record { in_block = omega arith; table = refl })

log_round_trip_example :
    (w : Writer Slice) × (r : Reader Slice) × (write_all
        (crc32c 0)
        memory_output
        (garbage ∷ [] ∷ (1 ∷ []) ∷ [])
        empty_log
      ≡ some (w, ok_status))
    × (read_all (crc32c 0) memory_input 4 (suc (5 + length w.dest)) (new_reader w.dest true true 0)
        ≡ some (r, garbage ∷ [] ∷ (1 ∷ []) ∷ []))
    × (r.reports ≡ [])
log_round_trip_example =
    log_round_trip (crc32c 0) memory_output (λ f. f) memory_output-IsAppending memory_input (λ f. f)
      memory_input-IsStreaming (λ f. f) (λ f. refl) (garbage ∷ [] ∷ (1 ∷ []) ∷ []) [] true true 5
      refl

read_record_total_example :
    (out : Reader Slice × Option Slice) × (read_record (crc32c 0) memory_input 10 on_garbage
      ≡ some out)
read_record_total_example =
    read_record_total (crc32c 0) memory_input (λ f. f) memory_input-IsStreaming 10 on_garbage
      (unfold new_reader in omega arith)

-- The bytes "123456789", at an odd address.
extend-bitwise_example :
    extend 3 0 (49 ∷ 50 ∷ 51 ∷ 52 ∷ 53 ∷ 54 ∷ 55 ∷ 56 ∷ 57 ∷ [])
    ≡ bitwise_extend 0 (49 ∷ 50 ∷ 51 ∷ 52 ∷ 53 ∷ 54 ∷ 55 ∷ 56 ∷ 57 ∷ [])
extend-bitwise_example = extend-bitwise 3 0 (49 ∷ 50 ∷ 51 ∷ 52 ∷ 53 ∷ 54 ∷ 55 ∷ 56 ∷ 57 ∷ [])

-- The published check value of CRC-32C, and a run through the swaths and words of the strides.
bitwise_extend_check :
    bitwise_extend 0 (49 ∷ 50 ∷ 51 ∷ 52 ∷ 53 ∷ 54 ∷ 55 ∷ 56 ∷ 57 ∷ []) ≡ 0xe3069283
unfolding bitwise_extend byte_loop
bitwise_extend_check = refl

extend_runs : extend 1 0 (up_to 60) ≡ 0x3f69148b
unfolding extend step1 step4 table_step byte_extension_table stride_extension_table0
    stride_extension_table1 stride_extension_table2 stride_extension_table3 decode_fixed32
extend_runs = refl
