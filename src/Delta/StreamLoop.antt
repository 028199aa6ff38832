-- ===== src/Delta/StreamLoop.antt =====
-- `ReaderFromDelta` yields what `patchDelta` writes.
use go_git.Prelude.{
  ℕ, zero, suc, ◌+◌, ◌-◌, ◌*◌, ◌^◌, ◌<◌, ◌≤◌, arith, ◌≡◌, refl, ap, ap₂, ltb→lt, ◌∙◌, bit_or, none,
  some, List, [], ◌∷◌, ◌++◌, Bool, true, false, ◌||◌, ltb, if◌then◌else◌, length, take, drop,
  length-drop, drop-drop, inl, inr, Bool-cases,
}
use go_git.Prelude.Text.{Bytes}
use go_git.Prelude.Result.{Result, ok, err, >>=-eq-ok}
use go_git.Delta.{
  Error, invalid_delta, offsets, sizes, decode_fields, decode_offset, decode_size, invalid_size,
  invalid_offset_size, PatchNext, patch_copy, patch_insert, patch_loop,
}
use go_git.Delta.Validate.{copy_in_range}
use go_git.Delta.Stream.{
  Base, decode_fields_byte_reader, decode_offset_byte_reader, decode_size_byte_reader, Cursor,
  discard_bytes, max_int32, discard_loop, move_to, StreamNext, or_close, stream_copied, stream_copy,
  stream_insert, stream_loop,
}

-- What the slice decoders return, the byte readers return.
decode_fields-reader :
    (fields : List (ℕ × ℕ)) (cmd : ℕ) (delta : Bytes) (acc n : ℕ) (rest : Bytes)
    → decode_fields fields cmd delta acc ≡ ok (n, rest)
    → decode_fields_byte_reader fields cmd delta acc ≡ ok (n, rest)
unfolding decode_fields decode_fields_byte_reader
decode_fields-reader [] cmd delta acc n rest h = h
decode_fields-reader ((mask, shift) ∷ fields) cmd [] acc n rest h =
    ground (arith, decode_fields-reader fields cmd [] acc n rest)
decode_fields-reader ((mask, shift) ∷ fields) cmd (b ∷ delta) acc n rest h = ground (
  arith,
  decode_fields-reader fields cmd (b ∷ delta) acc n rest,
  decode_fields-reader fields cmd delta (bit_or acc (b * 2 ^ shift)) n rest,
)

pub decode_offset-reader :
    (cmd : ℕ) (delta : Bytes) (n : ℕ) (rest : Bytes)
    → decode_offset cmd delta ≡ ok (n, rest)
    → decode_offset_byte_reader cmd delta ≡ ok (n, rest)
unfolding decode_offset decode_offset_byte_reader
decode_offset-reader cmd delta n rest h = decode_fields-reader offsets cmd delta 0 n rest h

pub decode_size-reader :
    (cmd : ℕ) (delta : Bytes) (n : ℕ) (rest : Bytes)
    → decode_size cmd delta ≡ ok (n, rest)
    → decode_size_byte_reader cmd delta ≡ ok (n, rest)
unfolding decode_size decode_size_byte_reader
decode_size-reader cmd delta n rest h =
    let ((sz, rest'), e, k) = >>=-eq-ok (decode_fields sizes cmd delta 0) _ h in
    rw (decode_fields-reader sizes cmd delta 0 sz rest' e) k

discard_bytes-moves :
    (n : ℕ) (rd : Bytes) (pos : ℕ)
    → n ≤ length rd
    → discard_bytes n (rd, pos) ≡ ok (drop n rd, pos + n)
unfolding discard_bytes
discard_bytes-moves n rd pos h = let e : ltb (length rd) n ≡ false = ground arith in rw e

last-moves :
    (discard : ℕ) (rd : Bytes) (pos : ℕ)
    → discard ≤ length rd
    → (if ltb 0 discard then discard_bytes discard (rd, pos) else ok (rd, pos))
      ≡ ok (drop discard rd, pos + discard)
last-moves zero rd pos h = let e : pos ≡ pos + 0 = omega arith in ap (λ t. ok (rd, t)) e
last-moves (suc d) rd pos h =
    let e : ltb 0 (suc d) ≡ true = ground arith in rw e (discard_bytes-moves (suc d) rd pos h)

abbrev moved : Bytes → ℕ → Result Error Cursor
moved rd pos = ok (rd, pos)

-- Two skips, one after the other.
skip_twice :
    (m discard : ℕ) (rd : Bytes) (pos : ℕ)
    → m ≤ discard
    → moved (drop (discard - m) (drop m rd)) (pos + m + (discard - m))
      ≡ moved (drop discard rd) (pos + discard)
skip_twice m discard rd pos h =
    let sum : m + (discard - m) ≡ discard = omega arith in
    let place : pos + m + (discard - m) ≡ pos + discard = omega arith in
    ap₂ moved (drop-drop m (discard - m) rd ∙ ap (λ t. drop t rd) sum) place

-- Skipping `discard` bytes that are there moves the cursor by `discard`.
discard_loop-moves :
    (fuel discard : ℕ) (rd : Bytes) (pos : ℕ)
    → discard < fuel
    → discard ≤ length rd
    → discard_loop fuel discard (rd, pos) ≡ ok (drop discard rd, pos + discard)
unfolding discard_loop
discard_loop-moves zero discard rd pos hf h = absurd (omega arith)
discard_loop-moves (suc fuel) discard rd pos hf h = elim (Bool-cases (ltb max_int32 discard)) [
  | inr small ↦ rw small (last-moves discard rd pos h)
  | inl big ↦
      let more : max_int32 < discard = ltb→lt max_int32 discard big in
      rw big (
        rw (discard_bytes-moves max_int32 rd pos (omega arith)) (
          discard_loop-moves fuel (discard - max_int32) (drop max_int32 rd) (pos + max_int32)
            (omega arith) (omega (arith, length-drop max_int32 rd))
          ∙ skip_twice max_int32 discard rd pos (omega arith)))
]

move_to-moves :
    (base : Base) (offset pos : ℕ)
    → offset ≤ length base.content
    → pos ≤ length base.content
    → move_to base offset (drop pos base.content, pos) ≡ ok (drop offset base.content, offset)
unfolding move_to
move_to-moves base offset pos ho hp = elim (Bool-cases (ltb offset pos)) [
  | inl back ↦ rw back (
      discard_loop-moves (suc offset) offset base.content 0 (omega arith) ho
      ∙ ap (moved (drop offset base.content)) (omega arith))
  | inr on ↦
      let ahead : pos ≤ offset = ground arith in
      let sum : pos + (offset - pos) ≡ offset = omega arith in
      rw on (
        discard_loop-moves (suc (offset - pos)) (offset - pos) (drop pos base.content) pos
          (omega arith) (omega (arith, length-drop pos base.content))
        ∙ ap₂ moved (drop-drop pos (offset - pos) base.content ∙ ap (λ t. drop t base.content) sum)
            sum)
]

-- From a cursor inside the base the goroutine yields what the loop of `patchDelta` writes.
abbrev pub Follows : Base → StreamNext → PatchNext → Type 0
Follows base next p =
    (delta out : Bytes) (pos remaining : ℕ) (t : Bytes)
    → pos ≤ length base.content
    → remaining < 2 ^ 63
    → p delta out remaining ≡ ok t
    → next delta (drop pos base.content, pos) out remaining ≡ (t, none)

module _ (base : Base) (fits : length base.content < 2 ^ 63) (next : StreamNext) (p : PatchNext)
    (follows : Follows base next p) where
  copied-Follows :
      (offset sz : ℕ) (delta out : Bytes) (remaining : ℕ) (t : Bytes)
      → sz ≤ remaining
      → remaining < 2 ^ 63
      → offset + sz ≤ length base.content
      → p delta (out ++ take sz (drop offset base.content)) (remaining - sz) ≡ ok t
      → stream_copied next sz delta out remaining (drop offset base.content, offset) ≡ (t, none)
  unfolding stream_copied
  copied-Follows offset sz delta out remaining t small hr inside h =
      let there : ltb (length (drop offset base.content)) sz ≡ false =
        ground (arith, length-drop offset base.content) in
      rw there (
        rw (drop-drop offset sz base.content)
          (follows delta _ (offset + sz) (remaining - sz) t inside (omega arith) h))

  tested-Follows :
      (offset sz : ℕ) (delta out : Bytes) (pos remaining : ℕ) (t : Bytes) (refused : Bool)
      → (invalid_size sz remaining || invalid_offset_size offset sz (length base.content)) ≡ refused
      → pos ≤ length base.content
      → remaining < 2 ^ 63
      → (if refused
          then err invalid_delta
          else p delta (out ++ take sz (drop offset base.content)) (remaining - sz))
        ≡ ok t
      → (if refused
          then (out, some invalid_delta)
          else or_close out
              (move_to base offset (drop pos base.content, pos))
              λ c'. stream_copied next sz delta out remaining c')
        ≡ (t, none)
  tested-Follows offset sz delta out pos remaining t true e hp hr h = cc
  tested-Follows offset sz delta out pos remaining t false e hp hr h =
      let (small, inside) = copy_in_range offset sz remaining (length base.content) hr fits e in
      rw (move_to-moves base offset pos (omega arith) hp)
        (copied-Follows offset sz delta out remaining t small hr inside h)

  copy-Follows :
      (cmd : ℕ) (delta out : Bytes) (pos remaining : ℕ) (t : Bytes)
      → pos ≤ length base.content
      → remaining < 2 ^ 63
      → patch_copy p base.content cmd delta out (length base.content) remaining ≡ ok t
      → stream_copy next base cmd delta
          (drop pos base.content, pos)
          out
          (length base.content)
          remaining
        ≡ (t, none)
  unfolding patch_copy stream_copy
  copy-Follows cmd delta out pos remaining t hp hr h =
      let ((offset, delta1), e1, h1) = >>=-eq-ok (decode_offset cmd delta) _ h in
      let ((sz, delta2), e2, h2) = >>=-eq-ok (decode_size cmd delta1) _ h1 in
      rw (decode_offset-reader cmd delta offset delta1 e1) (
        rw (decode_size-reader cmd delta1 sz delta2 e2)
          (tested-Follows offset sz delta2 out pos remaining t _ refl hp hr h2))

  insert-Follows :
      (cmd : ℕ) (delta out : Bytes) (pos remaining : ℕ) (t : Bytes)
      → pos ≤ length base.content
      → remaining < 2 ^ 63
      → patch_insert p cmd delta out remaining ≡ ok t
      → stream_insert next cmd delta (drop pos base.content, pos) out remaining ≡ (t, none)
  unfolding patch_insert stream_insert invalid_size
  insert-Follows cmd delta out pos remaining t hp hr h =
      ground (arith, follows (drop cmd delta) (out ++ take cmd delta) pos (remaining - cmd) t)

pub stream_loop-Follows :
    (base : Base) (fuel : ℕ)
    → length base.content < 2 ^ 63
    → Follows base
        (stream_loop fuel base (length base.content))
        (patch_loop fuel base.content (length base.content))
unfolding stream_loop patch_loop
stream_loop-Follows base zero fits delta out pos remaining t hp hr h = cc
stream_loop-Follows base (suc fuel) fits [] out pos remaining t hp hr h = ground arith
stream_loop-Follows base (suc fuel) fits (cmd ∷ delta) out pos remaining t hp hr h =
    let next : StreamNext = stream_loop fuel base (length base.content) in
    let p : PatchNext = patch_loop fuel base.content (length base.content) in
    let ih : Follows base next p = stream_loop-Follows base fuel fits in
    ground (
      arith,
      copy-Follows base fits next p ih cmd delta out pos remaining t hp hr,
      insert-Follows base fits next p ih cmd delta out pos remaining t hp hr,
    )
