-- ===== src/Delta/WriterLoop.antt =====
-- `patchDeltaWriter` against `patchDelta`.
use go_git.Prelude.{
  ℕ, zero, suc, ◌+◌, ◌-◌, ◌^◌, ◌<◌, ◌≡◌, refl, sym, ap, ◌∙◌, inl, inr, arith, [], ◌∷◌, ◌++◌, Bool,
  not, ltb, ltb→lt, ◌==◌, if◌then◌else◌, length, take, drop, take_all, Option, some, Bool-cases,
}
use go_git.Prelude.Text.{Bytes}
use go_git.Prelude.Result.{Result, ok, err, ◌>>=◌, >>=-eq-ok}
use go_git.Delta.{
  Error, invalid_delta, decode_offset, decode_size, decode_delta_size, validate_delta_ops,
  PatchNext, patch_copy, patch_insert, patch_loop, patch_delta_into,
}
use go_git.Delta.Validate.{patch_loop-validate, patch_loop-length}
use go_git.Delta.StreamLoop.{decode_offset-reader, decode_size-reader}
use go_git.Delta.Agree.{short_delta, ran, validated-small}
use go_git.Delta.Writer.{
  patch_failed, header_failed, WriterNext, or_fail, write_copy, write_insert, write_rest,
  write_next, writer_loop, Written, hashed, header_fails, write_valid, write_target, is_size,
  write_source, patch_delta_writer,
}

-- Where one succeeds, the other does, with the same bytes.
abbrev Follows : PatchNext → WriterNext → Type 0
Follows p w =
    (delta dst : Bytes) (remaining : ℕ) (out : Bytes)
    → p delta dst remaining ≡ ok out
    → w delta dst remaining ≡ (out, ok tt)

module _ (src : Bytes) (p : PatchNext) (w : WriterNext) (follows : Follows p w) where
  write_copy-Follows :
      (cmd : ℕ)
      → Follows
          (λ delta dst remaining. patch_copy p src cmd delta dst (length src) remaining)
          (λ delta out remaining. write_copy w src (length src) cmd delta out remaining)
  unfolding patch_copy write_copy or_fail
  write_copy-Follows cmd delta dst remaining out h =
      let ((offset, delta1), h1, k1) = >>=-eq-ok (decode_offset cmd delta) _ h in
      let ((sz, delta2), h2, k2) = >>=-eq-ok (decode_size cmd delta1) _ k1 in
      rw (decode_offset-reader cmd delta offset delta1 h1) (
        rw (decode_size-reader cmd delta1 sz delta2 h2) (
          rw (take_all src) (
            ground
              (arith, follows delta2 (dst ++ take sz (drop offset src)) (remaining - sz) out))))

  write_insert-Follows :
      (cmd : ℕ)
      → Follows
          (λ delta dst remaining. patch_insert p cmd delta dst remaining)
          (λ delta out remaining. write_insert w cmd delta out remaining)
  unfolding patch_insert write_insert
  write_insert-Follows cmd delta dst remaining out h =
      ground (arith, follows (drop cmd delta) (dst ++ take cmd delta) (remaining - cmd) out)

writer_loop-Follows :
    (fuel : ℕ) (src : Bytes)
    → Follows
        (λ delta dst remaining. patch_loop fuel src (length src) delta dst remaining)
        (writer_loop fuel src (length src))
unfolding patch_loop writer_loop write_next write_rest
writer_loop-Follows zero src delta dst remaining out h = cc
writer_loop-Follows (suc fuel) src [] dst remaining out h = ground arith
writer_loop-Follows (suc fuel) src (cmd ∷ delta) dst remaining out h =
    let p : PatchNext =
      λ delta dst remaining. patch_loop fuel src (length src) delta dst remaining in
    let w : WriterNext = writer_loop fuel src (length src) in
    let follows : Follows p w = writer_loop-Follows fuel src in
    ground (
      arith,
      write_copy-Follows src p w follows cmd delta dst remaining out,
      write_insert-Follows src p w follows cmd delta dst remaining out,
    )

module _ {H : Type 0} (sum : ℕ → Bytes → H) (header : Option (ℕ → Bool)) where
  -- What the writer makes of the result of `patchDelta`.
  unfoldable pub written_of : Result Error Bytes → Written sum
  written_of (err e) = ([], err (patch_failed e))
  written_of (ok out) =
      if header_fails sum header (length out)
      then ([], err header_failed)
      else (out, ok (length out, sum (length out) out))

  module _ (src : Bytes) (fits : length src < 2 ^ 63) where
    valid_written :
        (delta : Bytes) (target_sz : ℕ) (v : Result Error (Unit {0}))
        → validate_delta_ops delta (length src) target_sz ≡ v
        → write_valid sum header src (length src) delta target_sz v
          ≡ written_of
              (v >>= λ _. patch_loop (length delta + 1) src (length src) delta [] target_sz)
    unfolding write_valid written_of hashed
    valid_written delta target_sz (err e) h = refl
    valid_written delta target_sz (ok u) h =
        let (small, valid) = validated-small delta (length src) target_sz u h in
        let (out, run) =
          ran (patch_loop (length delta + 1) src (length src) delta [] target_sz) u
            (patch_loop-validate (length delta + 1) src (length src) delta [] target_sz ∙ valid) in
        let sized : length out ≡ target_sz =
          omega (
            arith,
            patch_loop-length (length delta + 1) src delta [] target_sz out fits small run,
          ) in
        rw (run) (
          rw (writer_loop-Follows (length delta + 1) src delta [] target_sz out run)
            (rw (sized) refl))

    target_written :
        (r : Result Error (ℕ × Bytes))
        → write_target sum header src (length src) r
          ≡ written_of (
              r >>= λ (target_sz, delta). do
                _ ← validate_delta_ops delta (length src) target_sz
                patch_loop (length delta + 1) src (length src) delta [] target_sz)
    unfolding write_target written_of
    target_written (err e) = refl
    target_written (ok (target_sz, delta)) = valid_written delta target_sz _ refl

    source_written :
        (r : Result Error (ℕ × Bytes))
        → write_source sum header src (some (length src)) r
          ≡ written_of (
              r >>= λ (src_sz, delta1). if not (src_sz == length src) then err invalid_delta else do
                (target_sz, delta2) ← decode_delta_size delta1
                _ ← validate_delta_ops delta2 src_sz target_sz
                patch_loop (length delta2 + 1) src src_sz delta2 [] target_sz)
    unfolding write_source is_size written_of
    source_written (err e) = refl
    source_written (ok (src_sz, delta1)) = elim (Bool-cases (src_sz == length src)) [
      | inr other ↦ rw (other) refl
      | inl equal ↦
          let e : src_sz ≡ length src = ground arith in
          rw (equal) (rw (e) (target_written (decode_delta_size delta1)))
    ]

  -- Over a base below 2^63 bytes of which the size is given, patchDeltaWriter writes what
  -- patchDelta writes and returns its size and hash, or fails with the same error and has written
  -- nothing; where patchDelta succeeds and the header's writer fails for the size, it fails and
  -- has written nothing.
  pub patch_delta_writer-patch :
      (src delta : Bytes)
      → length src < 2 ^ 63
      → patch_delta_writer sum header src (some (length src)) delta
        ≡ written_of (patch_delta_into [] src delta)
  unfolding patch_delta_writer patch_delta_into written_of
  patch_delta_writer-patch src delta fits = elim (Bool-cases (ltb (length delta) 2)) [
    | inl short ↦ rw (short) (sym (ap written_of (short_delta src delta (ltb→lt _ _ short))))
    | inr long ↦ rw (long) (source_written src fits (decode_delta_size delta))
  ]
