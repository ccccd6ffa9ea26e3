-- ===== src/PosixFile.antt =====
-- util/env_posix.cc: the buffered file `PosixWritableFile`, over the calls of the operating system.
pub mod Written
use mini_leveldb.Base.{
  ℕ, zero, suc, ◌+◌, ◌-◌, Bool, true, false, List, [], ◌∷◌, ◌++◌, Option, none, some, min,
}
use mini_leveldb.Base.{ltb, ◌==◌, if◌then◌else◌, length, take, drop}
use mathlib.Core.Option
use mini_leveldb.Slice.{Slice}
use mini_leveldb.Status.{Status, ok_status, is_ok, make_io_error, make_not_found}

-- `kWritableFileBufferSize`.
abbrev pub buffer_size : ℕ
buffer_size = 65536

-- What `::write` returns: a number of bytes, or -1 with a value of `errno`.
pub data WriteResult : Type 0 where
  wrote : ℕ → WriteResult
  failed : ℕ → WriteResult

-- The operating system as the file sees it: `D` is the state of the descriptor, and `close` has the
-- value of `errno` where it fails.
pub record System (D : Type 0) : Type 0 where
  pub write : Slice → D → D × WriteResult
  pub close : D → D × Option ℕ
  pub strerror : ℕ → Slice
  pub enoent : ℕ
  pub eintr : ℕ

-- `buf_` up to `pos_`, and the descriptor.
pub record PosixWritableFile (D : Type 0) : Type 0 where
  pub buf : Slice
  pub fd : D
  pub filename : Slice

module _ {D : Type 0} (sys : System D) where
  unfoldable pub posix_error : Slice → ℕ → Status
  posix_error context error_number =
      if error_number == sys.enoent
      then make_not_found context (sys.strerror error_number)
      else make_io_error context (sys.strerror error_number)

  -- The loop of `WriteUnbuffered`; `none` means that the fuel ran out.
  unfoldable pub write_unbuffered : (fuel : ℕ) → (filename data' : Slice) → D → Option (D × Status)
  unfolding posix_error
  write_unbuffered zero filename data' fd = none
  write_unbuffered (suc fuel) filename [] fd = some (fd, ok_status)
  write_unbuffered (suc fuel) filename (x ∷ xs) fd =
      let (fd', result) = sys.write (x ∷ xs) fd in
      elim result [
        | failed e ↦
            let again = write_unbuffered fuel filename (x ∷ xs) fd' in
            if e == sys.eintr then again else some (fd', posix_error filename e)
        | wrote n ↦ write_unbuffered fuel filename (drop n (x ∷ xs)) fd'
      ]

  unfoldable pub flush_buffer :
      (fuel : ℕ) → PosixWritableFile D → Option (PosixWritableFile D × Status)
  unfolding write_unbuffered
  flush_buffer fuel file =
      Option.map (λ (fd, status). (record file { buf = []; fd = fd }, status))
        (write_unbuffered fuel file.filename file.buf file.fd)

  -- `Append` behind the flush of a full buffer.
  unfoldable pub append_rest :
      (fuel : ℕ)
      → (write_data : Slice) → Option (PosixWritableFile D × Status)
      → Option (PosixWritableFile D × Status)
  unfolding write_unbuffered
  append_rest fuel write_data none = none
  append_rest fuel write_data (some (file, status)) =
      let direct =
        Option.map (λ (fd, status). (record file { fd = fd }, status))
          (write_unbuffered fuel file.filename write_data file.fd) in
      if is_ok status
      then (if ltb (length write_data) buffer_size
          then some (record file { buf = write_data }, ok_status)
          else direct)
      else some (file, status)

  unfoldable pub append :
      (fuel : ℕ) → PosixWritableFile D → Slice → Option (PosixWritableFile D × Status)
  unfolding flush_buffer append_rest
  append fuel file data' =
      let copy_size = min (length data') (buffer_size - length file.buf) in
      let full : PosixWritableFile D = record file { buf = file.buf ++ take copy_size data' } in
      let write_data = drop copy_size data' in
      let flushed = append_rest fuel write_data (flush_buffer fuel full) in
      if length write_data == 0 then some (full, ok_status) else flushed

  unfoldable pub flush : (fuel : ℕ) → PosixWritableFile D → Option (PosixWritableFile D × Status)
  unfolding flush_buffer
  flush fuel file = flush_buffer fuel file

  -- The status of `Close`; the descriptor is -1 from there on.
  unfoldable pub close_status : Slice → Status → D × Option ℕ → D × Status
  unfolding posix_error
  close_status filename status (fd, none) = (fd, status)
  close_status filename status (fd, some e) =
      (fd, if is_ok status then posix_error filename e else status)

  unfoldable pub close : (fuel : ℕ) → PosixWritableFile D → Option (D × Status)
  unfolding flush_buffer close_status
  close fuel file =
      Option.map (λ (file', status). close_status file.filename status (sys.close file'.fd))
        (flush_buffer fuel file)
