-- ===== src/Delta/Stream.antt =====
-- `ReaderFromDelta` of patch_delta.go: the goroutine reads the base through a cursor and writes to
-- a pipe. A reader of a base is the list of the bytes that it has left; opening one does not fail.
use go_git.Prelude.{
  ℕ, zero, suc, ◌+◌, ◌-◌, ◌*◌, ◌^◌, bit_and, bit_or, Option, none, some, List, [], ◌∷◌, ◌++◌, not,
  ◌||◌, ◌==◌, ltb, if◌then◌else◌, length, take, drop,
}
use go_git.Prelude.Text.{Bytes}
use go_git.Prelude.Result.{Result, ok, err, ◌>>=◌}
use go_git.Delta.{
  Error, invalid_delta, delta_cmd, eof, out_of_fuel, min_delta_size, offsets, sizes, max_copy_size,
  decode_delta_size, is_copy_from_src, is_copy_from_delta, invalid_size, invalid_offset_size,
  validate_delta_ops,
}

-- A base object: the size that it reports and the bytes that a reader of it yields.
pub record Base : Type 0 where
  pub size : ℕ
  pub content : Bytes

-- What the reading end of the pipe gets: the bytes written, and the error that closed the pipe.
abbrev pub Output : Type 0
Output = Bytes × Option Error

-- The loops of `decodeOffsetByteReader` and `decodeSizeByteReader`.
unfoldable pub decode_fields_byte_reader : List (ℕ × ℕ) → ℕ → Bytes → ℕ → Result Error (ℕ × Bytes)
decode_fields_byte_reader [] cmd delta acc = ok (acc, delta)
decode_fields_byte_reader ((mask, shift) ∷ fields) cmd [] acc =
    let rest = decode_fields_byte_reader fields cmd [] acc in
    if bit_and cmd mask == 0 then rest else err eof
decode_fields_byte_reader ((mask, shift) ∷ fields) cmd (b ∷ delta) acc =
    let skip = decode_fields_byte_reader fields cmd (b ∷ delta) acc in
    let more = decode_fields_byte_reader fields cmd delta (bit_or acc (b * 2 ^ shift)) in
    if bit_and cmd mask == 0 then skip else more

unfoldable pub decode_offset_byte_reader : ℕ → Bytes → Result Error (ℕ × Bytes)
decode_offset_byte_reader cmd delta = decode_fields_byte_reader offsets cmd delta 0

unfoldable pub decode_size_byte_reader : ℕ → Bytes → Result Error (ℕ × Bytes)
decode_size_byte_reader cmd delta = do
  (sz, rest) ← decode_fields_byte_reader sizes cmd delta 0
  ok ((if sz == 0 then max_copy_size else sz), rest)

-- The cursor: the reader of the base and `basePos`.
abbrev pub Cursor : Type 0
Cursor = Bytes × ℕ

-- `baseBuf.Discard(n)`: it skips `n` bytes or fails.
unfoldable pub discard_bytes : ℕ → Cursor → Result Error Cursor
discard_bytes n (rd, pos) = if ltb (length rd) n then err eof else ok (drop n rd, pos + n)

-- math.MaxInt32
abbrev pub max_int32 : ℕ
max_int32 = 2 ^ 31 - 1

-- The two loops that skip `discard` bytes. The second one ends after a round, since `Discard`
-- skips all that it was asked for where it does not fail.
unfoldable pub discard_loop : ℕ → ℕ → Cursor → Result Error Cursor
discard_loop zero discard c = err out_of_fuel
discard_loop (suc fuel) discard c =
    let more = discard_bytes max_int32 c >>= λ c'. discard_loop fuel (discard - max_int32) c' in
    let last = if ltb 0 discard then discard_bytes discard c else ok c in
    if ltb max_int32 discard then more else last

-- A copy behind the cursor opens the base again.
unfoldable pub move_to : Base → ℕ → Cursor → Result Error Cursor
move_to base offset (rd, pos) =
    if ltb offset pos
    then discard_loop (suc offset) offset (base.content, 0)
    else discard_loop (suc (offset - pos)) (offset - pos) (rd, pos)

-- What the loop does next: with the delta, the cursor, what is written and what is left.
abbrev pub StreamNext : Type 0
StreamNext = Bytes → Cursor → Bytes → ℕ → Output

abbrev pub or_close : {A : Type 0} → Bytes → Result Error A → (A → Output) → Output
or_close out (err e) next = (out, some e)
or_close out (ok a) next = next a

unfoldable pub stream_copied : StreamNext → ℕ → Bytes → Bytes → ℕ → Cursor → Output
stream_copied next sz delta out remaining (rd, pos) =
    if ltb (length rd) sz
    then (out ++ take sz rd, some invalid_delta)
    else next delta (drop sz rd, pos + sz) (out ++ take sz rd) (remaining - sz)

unfoldable pub stream_copy : StreamNext → Base → ℕ → Bytes → Cursor → Bytes → ℕ → ℕ → Output
stream_copy next base cmd delta c out src_sz remaining =
    or_close out (decode_offset_byte_reader cmd delta) λ (offset, delta1).
      or_close out (decode_size_byte_reader cmd delta1) λ (sz, delta2).
        if invalid_size sz remaining || invalid_offset_size offset sz src_sz
        then (out, some invalid_delta)
        else or_close out (move_to base offset c)
            λ c'. stream_copied next sz delta2 out remaining c'

unfoldable pub stream_insert : StreamNext → ℕ → Bytes → Cursor → Bytes → ℕ → Output
stream_insert next cmd delta c out remaining =
    if invalid_size cmd remaining
    then (out, some invalid_delta)
    else if ltb (length delta) cmd
    then (out ++ take cmd delta, some invalid_delta)
    else next (drop cmd delta) c (out ++ take cmd delta) (remaining - cmd)

-- The goroutine's loop and the test after it.
unfoldable pub stream_loop : ℕ → Base → ℕ → Bytes → Cursor → Bytes → ℕ → Output
stream_loop zero base src_sz delta c out remaining = (out, some out_of_fuel)
stream_loop (suc fuel) base src_sz [] c out remaining =
    if remaining == 0 then (out, none) else (out, some invalid_delta)
stream_loop (suc fuel) base src_sz (cmd ∷ delta) c out remaining =
    if remaining == 0
    then (out, some invalid_delta)
    else if is_copy_from_src cmd
    then stream_copy (stream_loop fuel base src_sz) base cmd delta c out src_sz remaining
    else if is_copy_from_delta cmd
    then stream_insert (stream_loop fuel base src_sz) cmd delta c out remaining
    else (out, some delta_cmd)

-- `ReaderFromDelta`, with what is read from the pipe.
unfoldable pub reader_from_delta : Base → Bytes → Result Error Output
reader_from_delta base delta = if ltb (length delta) min_delta_size then err invalid_delta else do
  (src_sz, delta1) ← decode_delta_size delta
  if not (src_sz == base.size) then err invalid_delta else do
    (target_sz, delta2) ← decode_delta_size delta1
    _ ← validate_delta_ops delta2 src_sz target_sz
    ok (stream_loop (length delta2 + 1) base src_sz delta2 (base.content, 0) [] target_sz)
