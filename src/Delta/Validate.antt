-- ===== src/Delta/Validate.antt =====
-- `validateDeltaOps` against the loop of `patchDelta`.
use go_git.Prelude.{
  ℕ, zero, suc, ◌+◌, ◌-◌, ◌^◌, ◌≤◌, ◌<◌, arith, ◌≡◌, refl, [], ◌∷◌, ◌++◌, Bool, true, false, ◌||◌,
  if◌then◌else◌, length, take, drop, length-append, length-take, length-drop, inl, inr,
}
use go_git.Prelude.Text.{Bytes}
use go_git.Prelude.Result.{Result, ok, err, map_ok, Result-cases, >>=-eq-ok}
use go_git.Delta.{
  Error, invalid_delta, invalid_size, invalid_offset_size, sum_overflows, decode_offset,
  decode_size, ValidateNext, PatchNext, validate_copy, validate_insert, validate_loop, patch_copy,
  patch_insert, patch_loop,
}

abbrev pub done : Result Error Bytes → Result Error (Unit {0})
done = map_ok (λ _. tt)

module _ (src : Bytes) (src_sz : ℕ) (p : PatchNext) (v : ValidateNext)
    (same : (delta dst : Bytes) (remaining : ℕ)
      → done (p delta dst remaining) ≡ v delta remaining) where
  patch_copy-validate :
      (cmd : ℕ) (delta dst : Bytes) (remaining : ℕ)
      → done (patch_copy p src cmd delta dst src_sz remaining)
        ≡ validate_copy v cmd delta src_sz remaining
  unfolding patch_copy validate_copy
  patch_copy-validate cmd delta dst remaining = elim (Result-cases (decode_offset cmd delta)) [
    | inr (e, h) ↦ rw h
    | inl ((offset, delta1), h) ↦ rw h (elim (Result-cases (decode_size cmd delta1)) [
      | inr (e, k) ↦ rw k
      | inl ((sz, delta2), k) ↦
          rw k (ground (arith, same delta2 (dst ++ take sz (drop offset src)) (remaining - sz)))
    ])
  ]

  patch_insert-validate :
      (cmd : ℕ) (delta dst : Bytes) (remaining : ℕ)
      → done (patch_insert p cmd delta dst remaining) ≡ validate_insert v cmd delta remaining
  unfolding patch_insert validate_insert
  patch_insert-validate cmd delta dst remaining =
      ground (arith, same (drop cmd delta) (dst ++ take cmd delta) (remaining - cmd))

-- The loop of patchDelta fails exactly where the loop of validateDeltaOps does and with the same
-- error, whatever the base, the destination, the fuel and the size left.
pub patch_loop-validate :
    (fuel : ℕ) (src : Bytes) (src_sz : ℕ) (delta dst : Bytes) (remaining : ℕ)
    → done (patch_loop fuel src src_sz delta dst remaining)
      ≡ validate_loop fuel src_sz delta remaining
unfolding patch_loop validate_loop
patch_loop-validate zero src src_sz delta dst remaining = refl
patch_loop-validate (suc fuel) src src_sz [] dst remaining = ground arith
patch_loop-validate (suc fuel) src src_sz (cmd ∷ delta) dst remaining =
    let same = λ (d e : Bytes) (r : ℕ). patch_loop-validate fuel src src_sz d e r in
    ground (
      arith,
      patch_copy-validate src src_sz (patch_loop fuel src src_sz) (validate_loop fuel src_sz) same
          cmd delta dst remaining,
      patch_insert-validate src src_sz (patch_loop fuel src src_sz) (validate_loop fuel src_sz) same
          cmd delta dst remaining,
    )

-- The two tests of a copy keep it inside the target that is left and inside the base.
pub copy_in_range :
    (offset sz remaining src_sz : ℕ)
    → remaining < 2 ^ 63
    → src_sz < 2 ^ 63
    → (invalid_size sz remaining || invalid_offset_size offset sz src_sz) ≡ false
    → (sz ≤ remaining) × (offset + sz ≤ src_sz)
unfolding invalid_size invalid_offset_size sum_overflows
copy_in_range offset sz remaining src_sz hr hs h = ground arith

pub length-slice :
    (offset sz : ℕ) (src : Bytes)
    → offset + sz ≤ length src
    → length (take sz (drop offset src)) ≡ sz
length-slice offset sz src h =
    omega (arith, length-take sz (drop offset src), length-drop offset src)

abbrev WritesRemaining : PatchNext → Type 0
WritesRemaining p =
    (delta dst : Bytes) (remaining : ℕ) (out : Bytes)
    → remaining < 2 ^ 63
    → p delta dst remaining ≡ ok out
    → length out ≡ length dst + remaining

-- The length of what a successful run wrote.
module _ (src : Bytes) (p : PatchNext) (exact : WritesRemaining p) where
  patch_insert-length :
      (cmd : ℕ) (delta dst : Bytes) (remaining : ℕ) (out : Bytes)
      → remaining < 2 ^ 63
      → patch_insert p cmd delta dst remaining ≡ ok out
      → length out ≡ length dst + remaining
  unfolding patch_insert invalid_size
  patch_insert-length cmd delta dst remaining out fits h = ground (
    arith,
    exact (drop cmd delta) (dst ++ take cmd delta) (remaining - cmd) out,
    length-append dst (take cmd delta),
    length-take cmd delta,
  )

  copied-length :
      (offset sz : ℕ) (delta dst : Bytes) (remaining : ℕ) (out : Bytes) (refused : Bool)
      → (invalid_size sz remaining || invalid_offset_size offset sz (length src)) ≡ refused
      → length src < 2 ^ 63
      → remaining < 2 ^ 63
      → (if refused
          then err invalid_delta
          else p delta (dst ++ take sz (drop offset src)) (remaining - sz))
        ≡ ok out
      → length out ≡ length dst + remaining
  copied-length offset sz delta dst remaining out true e hs hr h = cc
  copied-length offset sz delta dst remaining out false e hs hr h =
      let piece : Bytes = take sz (drop offset src) in
      let (small, inside) = copy_in_range offset sz remaining (length src) hr hs e in
      omega (
        arith,
        exact delta (dst ++ piece) (remaining - sz) out (omega arith) h,
        length-append dst piece,
        length-slice offset sz src inside,
      )

  patch_copy-length :
      (cmd : ℕ) (delta dst : Bytes) (remaining : ℕ) (out : Bytes)
      → length src < 2 ^ 63
      → remaining < 2 ^ 63
      → patch_copy p src cmd delta dst (length src) remaining ≡ ok out
      → length out ≡ length dst + remaining
  unfolding patch_copy
  patch_copy-length cmd delta dst remaining out hs hr h =
      let ((offset, delta1), _, h1) = >>=-eq-ok (decode_offset cmd delta) _ h in
      let ((sz, delta2), _, h2) = >>=-eq-ok (decode_size cmd delta1) _ h1 in
      copied-length offset sz delta2 dst remaining out _ refl hs hr h2

pub patch_loop-length :
    (fuel : ℕ) (src delta dst : Bytes) (remaining : ℕ) (out : Bytes)
    → length src < 2 ^ 63
    → remaining < 2 ^ 63
    → patch_loop fuel src (length src) delta dst remaining ≡ ok out
    → length out ≡ length dst + remaining
unfolding patch_loop
patch_loop-length zero src delta dst remaining out hs hr h = cc
patch_loop-length (suc fuel) src [] dst remaining out hs hr h = ground arith
patch_loop-length (suc fuel) src (cmd ∷ delta) dst remaining out hs hr h =
    let exact =
      λ (d e : Bytes) (r : ℕ) (o : Bytes) (f : r < 2 ^ 63)
          (k : patch_loop fuel src (length src) d e r ≡ ok o).
        patch_loop-length fuel src d e r o hs f k in
    ground (
      arith,
      patch_copy-length src (patch_loop fuel src (length src)) exact cmd delta dst remaining out hs
          hr,
      patch_insert-length src (patch_loop fuel src (length src)) exact cmd delta dst remaining out
          hr,
    )
