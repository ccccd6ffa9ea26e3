-- ===== src/Log/Terminates.antt =====
-- db/log_reader.cc ends on every file, whatever its bytes are.
use mini_leveldb.Base.{ℕ, zero, suc, ◌+◌, ◌≤◌, ◌<◌, ◌≡◌, ◌≢◌, refl, ap, ◌∙◌, ◌⊎◌, inl, inr, arith}
use mini_leveldb.Base.{Bool, true, false, [], Option, none, some}
use mini_leveldb.Base.{ltb, ◌==◌, if◌then◌else◌, length, Bool-cases, length-take, length-drop}
use mini_leveldb.Slice.{Slice}
use mathlib.Core.Path.{subst}
use mini_leveldb.Base.{of_some}
use mini_leveldb.Log.RoundTrip.{loop_returns, loop_goes_on}
use mini_leveldb.Status.{Status, is_ok}
use mini_leveldb.Crc32c.{Checksum}
use mini_leveldb.Env.{SequentialFile, IsStreaming}
use mini_leveldb.Log.{block_size, header_size, type_value}
use mini_leveldb.Log.{full_type, first_type, middle_type, last_type}
use mini_leveldb.Log.Reader.{
  Reader, Locals, Turn, returns, goes_on, eof_type, bad_record, report_drop, report_corruption,
  report_partial, dispatch, resync, fill, parse_record, read_physical_loop, read_physical_record,
  turn, read_record_loop, read_record, no_locals, skip_to, block_start, skip_to_initial_block,
}

-- Reporting changes neither the buffer nor the file.
report_drop-buffer :
    {F : Type 0} (n : ℕ) (reason : Status) (r : Reader F)
    → ((report_drop n reason r).buffer ≡ r.buffer) × ((report_drop n reason r).file ≡ r.file)
unfolding report_drop
report_drop-buffer n reason r = ground arith

report_corruption-buffer :
    {F : Type 0} (n : ℕ) (reason : Slice) (r : Reader F)
    → ((report_corruption n reason r).buffer ≡ r.buffer)
      × ((report_corruption n reason r).file ≡ r.file)
unfolding report_corruption
report_corruption-buffer n reason r = report_drop-buffer n _ r

report_partial-buffer :
    {F : Type 0} (l : Locals) (reason : Slice) (r : Reader F)
    → ((report_partial l reason r).buffer ≡ r.buffer) × ((report_partial l reason r).file ≡ r.file)
unfolding report_partial
report_partial-buffer l reason r =
    ground (arith, report_corruption-buffer (length l.scratch) reason r)

short_block : (n : ℕ) (b : Bool) → n < header_size → (if ltb n block_size then true else b) ≡ true
short_block n b h = ground arith

module _ {F : Type 0} (c : Checksum) (file : SequentialFile F) where
  -- A read that leaves less than a header has met the end of the file, or has failed.
  fill_short :
      (r : Reader F) → length (fill c file r).0.buffer < header_size → (fill c file r).0.eof ≡ true
  unfolding fill
  fill_short r k = elim (Bool-cases (is_ok (file.read block_size r.file).1)) [
    | inl e ↦ rw e (short_block (length (file.read block_size r.file).2) r.eof (rw e at k))
    | inr e ↦ rw e
  ]

  -- Two turns of the loop of `ReadPhysicalRecord` are enough, on any file and in any state.
  pub read_physical_record_total :
      (fragment : Slice) (r : Reader F)
      → (p : Reader F × ℕ × Slice) × (read_physical_record c file fragment r ≡ some p)
  unfolding read_physical_record read_physical_loop
  read_physical_record_total fragment r = elim (Bool-cases (ltb (length r.buffer) header_size)) [
    | inr full ↦ (parse_record c file fragment r, simp full)
    | inl short ↦ elim (Bool-cases r.eof) [
      | inl ended ↦ ((record r { buffer = [] }, eof_type, fragment), simp (short, ended))
      | inr open_end ↦ elim (Bool-cases (fill c file r).1) [
        | inr failed ↦ (((fill c file r).0, eof_type, fragment), simp (short, open_end, failed))
        | inl filled ↦ elim (Bool-cases (ltb (length (fill c file r).0.buffer) header_size)) [
          | inr full ↦
              (parse_record c file fragment (fill c file r).0, simp (short, open_end, filled, full))
          | inl still_short ↦
              let ended = fill_short r (ground arith) in
              (
                (record (fill c file r).0 { buffer = [] }, eof_type, fragment),
                simp (short, open_end, filled, still_short, ended),
              )
        ]
      ]
    ]
  ]

  -- Parsing takes a header's bytes at least, and leaves the file alone.
  parse_record_shorter :
      (fragment : Slice) (r : Reader F)
      → header_size ≤ length r.buffer
      → (length (parse_record c file fragment r).0.buffer < length r.buffer)
        × ((parse_record c file fragment r).0.file ≡ r.file)
  unfolding parse_record
  parse_record_shorter fragment r h = grind (arith, report_corruption-buffer, length-drop)

-- The bytes that are still to be read.
abbrev unread : {F : Type 0} → (F → Slice) → Reader F → ℕ
unread rest r = length r.buffer + length (rest r.file)

-- The turn ends the method, or reads on from where the physical record left the reader.
data EndsOrKeeps {F : Type 0} (rest : F → Slice) (record_type n : ℕ) : Turn F → Type 0 where
  ends : {r : Reader F} {result : Option Slice} → EndsOrKeeps rest record_type n (returns r result)
  keeps :
      {r : Reader F} {l : Locals}
      → record_type ≢ eof_type
      → unread rest r ≡ n
      → EndsOrKeeps rest record_type n (goes_on r l)

module _ {F : Type 0} (rest : F → Slice) where
  EndsOrKeeps-if :
      {record_type n : ℕ} (b : Bool) {s t : Turn F}
      → (b ≡ true → EndsOrKeeps rest record_type n s)
      → (b ≡ false → EndsOrKeeps rest record_type n t)
      → EndsOrKeeps rest record_type n (if b then s else t)
  EndsOrKeeps-if true hs ht = hs refl
  EndsOrKeeps-if false hs ht = ht refl

  corruption-unread :
      (n : ℕ) (reason : Slice) (r : Reader F)
      → unread rest (report_corruption n reason r) ≡ unread rest r
  corruption-unread n reason r = let (b, f) = report_corruption-buffer n reason r in rw (b, f)

  partial-unread :
      (l : Locals) (reason : Slice) (r : Reader F)
      → unread rest (report_partial l reason r) ≡ unread rest r
  partial-unread l reason r = let (b, f) = report_partial-buffer l reason r in rw (b, f)

  dispatch-EndsOrKeeps :
      (record_type offset : ℕ) (l : Locals) (r : Reader F)
      → EndsOrKeeps rest record_type (unread rest r) (dispatch record_type offset l r)
  unfolding dispatch
  dispatch-EndsOrKeeps record_type offset l r =
      EndsOrKeeps-if (record_type == type_value full_type) (λ _. ends)
        λ _.
          EndsOrKeeps-if (record_type == type_value first_type)
            (λ e. keeps (ground arith) (partial-unread l _ r))
            λ _.
              EndsOrKeeps-if (record_type == type_value middle_type)
                (λ e.
                  EndsOrKeeps-if l.in_fragmented_record (λ _. keeps (ground arith) refl)
                    (λ _. keeps (ground arith) (corruption-unread _ _ r)))
                λ _.
                  EndsOrKeeps-if (record_type == type_value last_type)
                    (λ e.
                      EndsOrKeeps-if l.in_fragmented_record (λ _. ends)
                        (λ _. keeps (ground arith) (corruption-unread _ _ r)))
                    λ _.
                      EndsOrKeeps-if (record_type == eof_type) (λ _. ends)
                        λ not_eof.
                          EndsOrKeeps-if (record_type == bad_record)
                            (λ e.
                              EndsOrKeeps-if l.in_fragmented_record
                                (λ _. keeps (ground arith) (corruption-unread _ _ r))
                                (λ _. keeps (ground arith) refl))
                            (λ _. keeps (ground arith) (corruption-unread _ _ r))

  resync-EndsOrKeeps :
      (record_type offset : ℕ) (l : Locals) (r : Reader F)
      → EndsOrKeeps rest record_type (unread rest r) (resync record_type offset l r)
  unfolding resync
  resync-EndsOrKeeps record_type offset l r =
      EndsOrKeeps-if r.resyncing
        (λ _.
          EndsOrKeeps-if (record_type == type_value middle_type) (λ e. keeps (ground arith) refl)
            λ _.
              EndsOrKeeps-if (record_type == type_value last_type) (λ e. keeps (ground arith) refl)
                (λ _. dispatch-EndsOrKeeps record_type offset l (record r { resyncing = false })))
        (λ _. dispatch-EndsOrKeeps record_type offset l r)

module _ {F : Type 0} (c : Checksum) (file : SequentialFile F) (rest : F → Slice)
    (good : IsStreaming file rest) where
  -- A read moves bytes from the file to the buffer, where less than a header was left.
  fill-unread : (r : Reader F) → unread rest (fill c file r).0 ≤ unread rest r
  unfolding fill
  fill-unread r = rw (good.read_status block_size r.file) (
      omega (
        arith,
        ap length (good.read_bytes block_size r.file),
        ap length (good.read_rest block_size r.file),
        length-take block_size (rest r.file),
        length-drop block_size (rest r.file),
      ))

  fill_ok : (r : Reader F) → (fill c file r).1 ≡ true
  unfolding fill
  fill_ok r = rw (good.read_status block_size r.file)

  -- A physical record takes bytes off, or the end of the file is met.
  Shorter : Reader F → Reader F × ℕ × Slice → Type 0
  Shorter r p = (p.1 ≡ eof_type) ⊎ (unread rest p.0 < unread rest r)

  parse-Shorter :
      (fragment : Slice) (r : Reader F)
      → header_size ≤ length r.buffer
      → Shorter r (parse_record c file fragment r)
  unfolding Shorter
  parse-Shorter fragment r h =
      let (shorter, same) = parse_record_shorter c file fragment r h in
      inr (omega (arith, ap (λ (f : F). length (rest f)) same))

  Shorter-fill :
      (r : Reader F) (p : Reader F × ℕ × Slice) → Shorter (fill c file r).0 p → Shorter r p
  unfolding Shorter
  Shorter-fill r p (inl e) = inl e
  Shorter-fill r p (inr h) = inr (omega (arith, fill-unread r))

  loop-Shorter :
      (fuel : ℕ) (fragment : Slice) (r : Reader F) {p : Reader F × ℕ × Slice}
      → read_physical_loop c file fuel fragment r ≡ some p
      → Shorter r p
  unfolding read_physical_loop
  loop-Shorter zero fragment r h = cc
  loop-Shorter (suc fuel) fragment r {p} h = elim (Bool-cases (ltb (length r.buffer) header_size)) [
    | inr full ↦
        let e : some (parse_record c file fragment r) ≡ some p = simp full at h in
        subst (Shorter r) (of_some _ p e) (parse-Shorter fragment r (ground arith))
    | inl short ↦ elim (Bool-cases r.eof) [
      | inl ended ↦
          let e : some (record r { buffer = []; eof = true }, eof_type, fragment) ≡ some p =
            simp (short, ended) at h in
          subst (Shorter r) (of_some _ p e) (unfold Shorter in inl refl)
      | inr open_end ↦
          let e : read_physical_loop c file fuel fragment (fill c file r).0 ≡ some p =
            simp (short, open_end, fill_ok r) at h in
          Shorter-fill r p (loop-Shorter fuel fragment (fill c file r).0 e)
    ]
  ]

  step :
      (l : Locals) (r : Reader F) (p : Reader F × ℕ × Slice)
      → EndsOrKeeps rest p.1 (unread rest p.0) (turn c file l p)
  unfolding turn
  step l r (r1, record_type, fragment) = resync-EndsOrKeeps rest record_type _ _ r1

  abbrev Ended : Option (Reader F × Option Slice) → Type 0
  Ended result = (out : Reader F × Option Slice) × (result ≡ some out)

  -- One turn: it ends the loop, or leaves fewer bytes to the turns that follow.
  turn-Ended :
      (fuel : ℕ) (l : Locals) (r : Reader F)
      → unread rest r < suc fuel
      → ((l' : Locals) (r' : Reader F)
          → unread rest r' < fuel
          → Ended (read_record_loop c file fuel l' r'))
      → (p : Reader F × ℕ × Slice) → read_physical_record c file l.fragment r ≡ some p
      → (t : Turn F) → turn c file l p ≡ t
      → EndsOrKeeps rest p.1 (unread rest p.0) t
      → Ended (read_record_loop c file (suc fuel) l r)
  unfolding read_physical_record Shorter
  turn-Ended fuel l r h later p got (returns r' result) turned e =
      ((r', result), loop_returns c file fuel l r r' p result got turned)
  turn-Ended fuel l r h later p got (goes_on r' l') turned (keeps not_eof same) =
      let fewer : unread rest r' < fuel = elim (loop-Shorter 2 l.fragment r got) [
        | inl e ↦ absurd (not_eof e)
        | inr shorter ↦ omega (arith, same)
      ] in
      let (out, ended) = later l' r' fewer in
      (out, loop_goes_on c file fuel l l' r r' p got turned ∙ ended)

  -- The loop of `ReadRecord` ends within as many turns as there are bytes left, and one more.
  read_record_loop_total :
      (fuel : ℕ) (l : Locals) (r : Reader F)
      → unread rest r < fuel
      → Ended (read_record_loop c file fuel l r)
  read_record_loop_total zero l r h = absurd (omega arith)
  read_record_loop_total (suc fuel) l r h =
      let (p, got) = read_physical_record_total c file l.fragment r in
      turn-Ended fuel l r h (read_record_loop_total fuel) p got (turn c file l p) refl (step l r p)

  skip_to-unread : (n : ℕ) (r : Reader F) → unread rest (skip_to c file n r).0 ≤ unread rest r
  unfolding skip_to
  skip_to-unread n r =
      let ok = good.skip_status n r.file in
      let left = ap length (good.skip_rest n r.file) ∙ length-drop n (rest r.file) in
      elim (Bool-cases (ltb 0 n)) [
        | inl above ↦ simp (above, ok) (omega (arith, left))
        | inr below ↦ simp below (omega arith)
      ]

  skip-unread : (r : Reader F) → unread rest (skip_to_initial_block c file r).0 ≤ unread rest r
  unfolding skip_to_initial_block
  skip-unread r = skip_to-unread (block_start r.initial_offset) r

-- On a file that never fails, whatever its bytes and the reader's state and options are, `ReadRecord`
-- returns: fuel above the number of bytes in the buffer and in the rest of the file is enough.
-- The checksum is any function with the laws of `Checksum`, of which `crc32c`, the software path of
-- `Extend`, is one.
pub read_record_total :
    {F : Type 0} (c : Checksum) (file : SequentialFile F) (rest : F → Slice)
    → IsStreaming file rest
    → (fuel : ℕ) (r : Reader F) → length r.buffer + length (rest r.file) < fuel
    → (out : Reader F × Option Slice) × (read_record c file fuel r ≡ some out)
unfolding read_record
read_record_total c file rest good fuel r h =
    elim (Bool-cases (ltb r.last_record_offset r.initial_offset)) [
      | inr at_start ↦ rw at_start (read_record_loop_total c file rest good fuel no_locals r h)
      | inl behind ↦ elim (Bool-cases (skip_to_initial_block c file r).1) [
        | inl skipped ↦
            simp (behind, skipped)
              (read_record_loop_total c file rest good fuel no_locals
                (skip_to_initial_block c file r).0 (omega (arith, skip-unread c file rest good r)))
        | inr failed ↦ (((skip_to_initial_block c file r).0, none), simp (behind, failed))
      ]
    ]
