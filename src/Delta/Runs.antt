-- ===== src/Delta/Runs.antt =====
-- One operation at a time through the loop of `patchDelta`.
use go_git.Prelude.{
  ℕ, zero, suc, ◌+◌, ◌-◌, ◌^◌, ◌<◌, ◌≤◌, arith, ◌≡◌, refl, ap, ap₂, ◌∙◌, [], ◌∷◌, ◌++◌, true, false,
  ◌||◌, ◌==◌, ltb, length, take, drop, length-append, take-append_left, drop-append_left,
  append_assoc,
}
use go_git.Prelude.Text.{Bytes}
use go_git.Prelude.Bits.{top_bit}
use go_git.Prelude.Result.{ok}
use go_git.Delta.{
  is_copy_from_src, is_copy_from_delta, invalid_size, invalid_offset_size, sum_overflows,
  patch_copy, patch_insert, patch_loop,
}
use go_git.Delta.Encode.{encode_copy_operation}
use go_git.Delta.CopyOp.{copy_command, offset_bytes, size_bytes, encode_copy-shape}
use go_git.Delta.CopyRead.{copy_command-IsCopy, decode_offset-encode, decode_size-encode}

-- With enough fuel the loop ends with `out`.
abbrev pub Runs : Bytes → Bytes → Bytes → ℕ → Bytes → Type 0
Runs src delta dst remaining out =
    (fuel : ℕ) → length delta < fuel → patch_loop fuel src (length src) delta dst remaining ≡ ok out

module _ (src : Bytes) (fits : length src < 2 ^ 63) where
  pub Runs-end : (out : Bytes) → Runs src [] out 0 out
  unfolding patch_loop
  Runs-end out zero h = absurd (omega arith)
  Runs-end out (suc fuel) h = refl

  copy_step :
      (fuel o l : ℕ) (rest dst : Bytes) (remaining : ℕ)
      → o < 2 ^ 32
      → 0 < l
      → l < 2 ^ 24
      → o + l ≤ length src
      → l ≤ remaining
      → patch_loop
          (suc fuel)
          src
          (length src)
          (copy_command o l ∷ (offset_bytes o ++ (size_bytes l ++ rest)))
          dst
          remaining
        ≡ patch_loop fuel src (length src) rest (dst ++ take l (drop o src)) (remaining - l)
  unfolding patch_loop patch_copy
  copy_step fuel o l rest dst remaining ho hl hl' inside room =
      let left : (remaining == 0) ≡ false = ground arith in
      let allowed : (invalid_size l remaining || invalid_offset_size o l (length src)) ≡ false =
        unfold invalid_size invalid_offset_size sum_overflows in ground arith in
      rw left (
        rw (copy_command-IsCopy o l) (
          rw (decode_offset-encode o l (size_bytes l ++ rest) ho)
            (rw (decode_size-encode o l rest hl hl') (rw allowed refl))))

  pub Runs-copy :
      (o l : ℕ) (rest dst : Bytes) (remaining : ℕ) (out : Bytes)
      → o < 2 ^ 32
      → 0 < l
      → l < 2 ^ 24
      → o + l ≤ length src
      → l ≤ remaining
      → Runs src rest (dst ++ take l (drop o src)) (remaining - l) out
      → Runs src (encode_copy_operation o l ++ rest) dst remaining out
  Runs-copy o l rest dst remaining out ho hl hl' inside room next zero h = absurd (omega arith)
  Runs-copy o l rest dst remaining out ho hl hl' inside room next (suc fuel) h =
      let shape : encode_copy_operation o l ++ rest
          ≡ copy_command o l ∷ (offset_bytes o ++ (size_bytes l ++ rest)) =
        ap (λ t. t ++ rest) (encode_copy-shape o l)
        ∙ ap (λ t. copy_command o l ∷ t) (append_assoc (offset_bytes o) (size_bytes l) rest) in
      let shorter : length rest < fuel = omega (
        arith,
        ap length shape,
        length-append (offset_bytes o) (size_bytes l ++ rest),
        length-append (size_bytes l) rest,
      ) in
      ap (λ t. patch_loop (suc fuel) src (length src) t dst remaining) shape
      ∙ copy_step fuel o l rest dst remaining ho hl hl' inside room
      ∙ next fuel shorter

  insert_step :
      (fuel n : ℕ) (piece rest dst : Bytes) (remaining : ℕ)
      → n ≡ length piece
      → 0 < n
      → n < 128
      → n ≤ remaining
      → patch_loop (suc fuel) src (length src) (n ∷ (piece ++ rest)) dst remaining
        ≡ patch_loop fuel src (length src) rest (dst ++ piece) (remaining - n)
  unfolding patch_loop patch_insert
  insert_step fuel n piece rest dst remaining e pos small room =
      let left : (remaining == 0) ≡ false = ground arith in
      let plain : is_copy_from_src n ≡ false =
        unfold is_copy_from_src in ground (arith, top_bit n) in
      let insert : is_copy_from_delta n ≡ true =
        unfold is_copy_from_delta in ground (arith, top_bit n) in
      let fits_target : invalid_size n remaining ≡ false = unfold invalid_size in ground arith in
      let present : ltb (length (piece ++ rest)) n ≡ false =
        ground (arith, length-append piece rest) in
      let first : take n (piece ++ rest) ≡ piece =
        ap (λ t. take t (piece ++ rest)) e ∙ take-append_left piece rest in
      let after : drop n (piece ++ rest) ≡ rest =
        ap (λ t. drop t (piece ++ rest)) e ∙ drop-append_left piece rest in
      rw left (
        rw plain (
          rw insert (
            rw fits_target (
              rw present (
                ap₂ (λ a b. patch_loop fuel src (length src) a (dst ++ b) (remaining - n)) after
                  first)))))

  pub Runs-chunk :
      (n : ℕ) (piece rest dst : Bytes) (remaining : ℕ) (out : Bytes)
      → n ≡ length piece
      → 0 < n
      → n < 128
      → n ≤ remaining
      → Runs src rest (dst ++ piece) (remaining - n) out
      → Runs src (n ∷ (piece ++ rest)) dst remaining out
  Runs-chunk n piece rest dst remaining out e pos small room next zero h = absurd (omega arith)
  Runs-chunk n piece rest dst remaining out e pos small room next (suc fuel) h =
      insert_step fuel n piece rest dst remaining e pos small room
      ∙ next fuel (omega (arith, length-append piece rest))

  pub Runs-subst :
      {delta delta' dst dst' : Bytes} {remaining remaining' : ℕ} {out : Bytes}
      → delta ≡ delta'
      → dst ≡ dst'
      → remaining ≡ remaining'
      → Runs src delta' dst' remaining' out
      → Runs src delta dst remaining out
  Runs-subst e f g r = rw e (rw f (rw g r))
