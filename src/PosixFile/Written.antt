-- ===== src/PosixFile/Written.antt =====
-- A file on a system that writes some bytes or is interrupted: all bytes are written, in order.
use mini_leveldb.Base.{
  ℕ, zero, suc, ◌+◌, ◌-◌, ◌≡◌, ◌<◌, ◌≤◌, refl, sym, ap, ◌∙◌, ◌⊎◌, inl, inr, arith, [], ◌∷◌, ◌++◌,
  Option, some, min,
}
use mini_leveldb.Base.{
  ltb, ◌==◌, length, take, drop, take-append-drop, length-drop, length-take, length-append,
  append_assoc, append-nil, Bool-cases, ==_refl,
}
use mathlib.Core.Option
use mini_leveldb.Slice.{Slice}
use mini_leveldb.Status.{Status, ok_status}
use mini_leveldb.PosixFile.{
  buffer_size, wrote, failed, System, PosixWritableFile, write_unbuffered, flush_buffer,
  append_rest, append, flush,
}

-- What `write` is documented to do with a buffer of some bytes: it writes a beginning of it, or fails.
-- The only failure is an interruption, of which there is a number to come.
pub record IsWriting {D : Type 0} (sys : System D) (written : D → Slice) (interruptions : D → ℕ)
    : Type 0 where
  pub some_bytes :
      (x : ℕ) (xs : Slice) (d : D)
      → ((n : ℕ) × ((sys.write (x ∷ xs) d).1 ≡ wrote n)
          × (1 ≤ n)
          × (written (sys.write (x ∷ xs) d).0 ≡ written d ++ take n (x ∷ xs))
          × (interruptions (sys.write (x ∷ xs) d).0 ≤ interruptions d))
        ⊎ (((sys.write (x ∷ xs) d).1 ≡ failed sys.eintr)
            × (written (sys.write (x ∷ xs) d).0 ≡ written d)
            × (interruptions (sys.write (x ∷ xs) d).0 < interruptions d))

module _ {D : Type 0} (sys : System D) (written : D → Slice) (interruptions : D → ℕ)
    (w : IsWriting sys written interruptions) where
  abbrev Writes : Slice → D → Option (D × Status) → Type 0
  Writes data' d out =
      (d' : D) × (out ≡ some (d', ok_status))
      × (written d' ≡ written d ++ data')
      × (interruptions d' ≤ interruptions d)

  write_unbuffered-Writes :
      (fuel : ℕ) (filename data' : Slice) (d : D)
      → length data' + interruptions d < fuel
      → Writes data' d (write_unbuffered sys fuel filename data' d)
  unfolding write_unbuffered
  write_unbuffered-Writes zero filename data' d f = absurd (omega arith)
  write_unbuffered-Writes (suc fuel) filename [] d f =
      (d, refl, sym (append-nil (written d)), omega arith)
  write_unbuffered-Writes (suc fuel) filename (x ∷ xs) d f = elim (w.some_bytes x xs d) [
    | inl (n, e, pos, bytes, fewer) ↦
        let next = (sys.write (x ∷ xs) d).0 in
        let (d', r, all, less) =
          write_unbuffered-Writes fuel filename (drop n (x ∷ xs)) next
            (omega (arith, f, pos, fewer, length-drop n (x ∷ xs))) in
        (
          d',
          rw (e, write_unbuffered) r,
          all
              ∙ ap (λ (t : Slice). t ++ drop n (x ∷ xs)) bytes
              ∙ append_assoc (written d) (take n (x ∷ xs)) (drop n (x ∷ xs))
              ∙ ap (λ (t : Slice). written d ++ t) (take-append-drop n (x ∷ xs)),
          omega (arith, less, fewer),
        )
    | inr (e, bytes, fewer) ↦
        let next = (sys.write (x ∷ xs) d).0 in
        let (d', r, all, less) =
          write_unbuffered-Writes fuel filename (x ∷ xs) next (omega (arith, f, fewer)) in
        (
          d',
          rw (e, write_unbuffered) (rw (==_refl sys.eintr) r),
          all ∙ ap (λ (t : Slice). t ++ (x ∷ xs)) bytes,
          omega (arith, less, fewer),
        )
  ]

  -- Descriptor and buffer together.
  abbrev pub contents : PosixWritableFile D → Slice
  contents file = written file.fd ++ file.buf

  flush_buffer-Writes :
      (fuel : ℕ) (file : PosixWritableFile D)
      → length file.buf + interruptions file.fd < fuel
      → (d' : D) × (flush_buffer sys fuel file
          ≡ some (record file { buf = []; fd = d' }, ok_status))
        × (written d' ≡ contents file)
        × (interruptions d' ≤ interruptions file.fd)
  unfolding flush_buffer
  flush_buffer-Writes fuel file f =
      let (d', e, all, fewer) = write_unbuffered-Writes fuel file.filename file.buf file.fd f in
      (
        d',
        ap (λ o. Option.map (λ (fd, status). (record file { buf = []; fd = fd }, status)) o) e,
        all,
        fewer,
      )

  -- The outcome of an `Append` of some bytes to a file with these contents.
  abbrev pub Appends : Slice → ℕ → Option (PosixWritableFile D × Status) → Type 0
  Appends all limit out =
      (file' : PosixWritableFile D) × (out ≡ some (file', ok_status))
      × (contents file' ≡ all)
      × (length file'.buf ≤ buffer_size)
      × (interruptions file'.fd ≤ limit)

  append_rest-Appends :
      (fuel : ℕ) (file : PosixWritableFile D) (data' : Slice)
      → file.buf ≡ []
      → length data' + interruptions file.fd < fuel
      → Appends
          (written file.fd ++ data')
          (interruptions file.fd)
          (append_rest sys fuel data' (some (file, ok_status)))
  unfolding append_rest
  append_rest-Appends fuel file data' empty f = elim (Bool-cases (ltb (length data') buffer_size)) [
    | inl small ↦ (record file { buf = data' }, rw small refl, refl, ground arith, omega arith)
    | inr large ↦
        let (d', e, all, fewer) = write_unbuffered-Writes fuel file.filename data' file.fd f in
        (
          record file { fd = d' },
          rw large (ap (λ o. Option.map (λ (fd, status). (record file { fd = fd }, status)) o) e),
          ap (λ (t : Slice). written d' ++ t) empty ∙ append-nil (written d') ∙ all,
          let none_left : length file.buf ≡ 0 = ap length empty in omega (arith, none_left),
          fewer,
        )
  ]

  -- `Append` on a system that writes at least a byte of a buffer or is interrupted, and is interrupted a
  -- finite number of times: given a turn for each byte and interruption, it returns OK, and the bytes are
  -- at the end of what is in the file and the buffer, which does not overflow.
  pub append-Appends :
      (fuel : ℕ) (file : PosixWritableFile D) (data' : Slice)
      → length file.buf ≤ buffer_size
      → length data' + buffer_size + interruptions file.fd < fuel
      → Appends (contents file ++ data') (interruptions file.fd) (append sys fuel file data')
  unfolding append
  append-Appends fuel file data' fits f =
      let n = min (length data') (buffer_size - length file.buf) in
      let full : PosixWritableFile D = record file { buf = file.buf ++ take n data' } in
      let rest = drop n data' in
      let in_buf : length (file.buf ++ take n data') ≤ buffer_size =
        omega (arith, length-append file.buf (take n data'), length-take n data', fits) in
      let whole : contents full ++ rest ≡ contents file ++ data' =
        ap (λ (t : Slice). t ++ rest) (sym (append_assoc (written file.fd) file.buf (take n data')))
        ∙ append_assoc (contents file) (take n data') rest
        ∙ ap (λ (t : Slice). contents file ++ t) (take-append-drop n data') in
      elim (Bool-cases (length rest == 0)) [
        | inl done ↦
            let empty = no_bytes rest (ground (arith, done)) in
            (
              full,
              rw done refl,
              sym (append-nil (contents full))
                  ∙ ap (λ (t : Slice). contents full ++ t) (sym empty)
                  ∙ whole,
              in_buf,
              omega arith,
            )
        | inr more ↦
            let (d', e, all, fewer) = flush_buffer-Writes fuel full (omega (arith, in_buf, f)) in
            let (file', r, bytes, ok, less) =
              append_rest-Appends fuel (record full { buf = []; fd = d' }) rest refl
                (omega (arith, f, fewer, length-drop n data')) in
            (
              file',
              rw more (ap (append_rest sys fuel rest) e ∙ r),
              bytes ∙ ap (λ (t : Slice). t ++ rest) all ∙ whole,
              ok,
              omega (arith, less, fewer),
            )
      ]
    where
      no_bytes : (xs : Slice) → length xs ≡ 0 → xs ≡ []
      no_bytes [] h = refl
      no_bytes (x ∷ xs) h = absurd (omega (arith, h))

  -- `Flush` on such a system: given as many turns, it returns OK with all bytes written and none buffered.
  pub flush-written :
      (fuel : ℕ) (file : PosixWritableFile D)
      → length file.buf + interruptions file.fd < fuel
      → (file' : PosixWritableFile D) × (flush sys fuel file ≡ some (file', ok_status))
        × (written file'.fd ≡ contents file)
        × (file'.buf ≡ [])
  unfolding flush
  flush-written fuel file f =
      let (d', e, all, _) = flush_buffer-Writes fuel file f in
      (record file { buf = []; fd = d' }, e, all, refl)
