-- ===== src/Delta/Apply.antt =====
-- `patchDelta` and `PatchDelta` as a whole.
use go_git.Prelude.{
  ℕ, ◌+◌, ◌^◌, ◌<◌, arith, ◌≡◌, ◌≢◌, refl, sym, ap, ◌∙◌, Bool, true, false, not, ◌==◌,
  if◌then◌else◌, length,
}
use go_git.Prelude.Text.{Bytes}
use go_git.Prelude.Result.{Result, ok, err, ◌>>=◌, >>=-eq-ok, >>=-ne-err}
use go_git.Leb128
use go_git.Leb128.{decode_leb128}
use go_git.Delta.{
  out_of_fuel, invalid_delta, size_of, decode_delta_size, validate_delta_ops, patch_loop,
  patch_delta_into,
}
use go_git.Delta.Validate.{done, patch_loop-validate, patch_loop-length}
use go_git.Delta.Total.{validate_loop-total}

decode_delta_size-ne : (delta : Bytes) → decode_delta_size delta ≢ err out_of_fuel
unfolding decode_delta_size size_of
decode_delta_size-ne delta = by_result (decode_leb128 delta)
  where
    by_result : (r : Result Leb128.Error (ℕ × Bytes)) → size_of r delta ≢ err out_of_fuel
    by_result (err e) p = cc
    by_result (ok (sz, rest)) p = ground arith

patch_loop-ne :
    (src : Bytes) (src_sz : ℕ) (delta dst : Bytes) (remaining : ℕ)
    → patch_loop (length delta + 1) src src_sz delta dst remaining ≢ err out_of_fuel
patch_loop-ne src src_sz delta dst remaining e =
    validate_loop-total (length delta + 1) src_sz delta remaining (omega arith)
      (sym (patch_loop-validate (length delta + 1) src src_sz delta dst remaining) ∙ ap done e)

validate_delta_ops-ne :
    (delta : Bytes) (src_sz target_sz : ℕ)
    → validate_delta_ops delta src_sz target_sz ≢ err out_of_fuel
unfolding validate_delta_ops
validate_delta_ops-ne delta src_sz target_sz e =
    ground (arith, validate_loop-total (length delta + 1) src_sz delta target_sz)

if-ne {ℓ} :
    {A : Type ℓ} {E : Type 0} (b : Bool) (x y : Result E A) (e : E)
    → x ≢ err e
    → y ≢ err e
    → (if b then x else y) ≢ err e
if-ne true x y e hx hy = hx
if-ne false x y e hx hy = hy

-- patchDelta ends on every input, with a result or an error of the program: its loops never run
-- out of the fuel that the length of the delta gives.
pub patch_delta_into-total :
    (dst src delta : Bytes) → patch_delta_into dst src delta ≢ err out_of_fuel
unfolding patch_delta_into
patch_delta_into-total dst src delta =
    >>=-ne-err (decode_delta_size delta) _ out_of_fuel (decode_delta_size-ne delta)
      λ (src_sz, delta1) _.
        if-ne (not (src_sz == length src)) _ _ out_of_fuel (λ p. cc)
          (>>=-ne-err (decode_delta_size delta1) _ out_of_fuel (decode_delta_size-ne delta1)
            λ (target_sz, delta2) _.
              >>=-ne-err (validate_delta_ops delta2 src_sz target_sz) _ out_of_fuel
                (validate_delta_ops-ne delta2 src_sz target_sz)
                λ _ _. patch_loop-ne src src_sz delta2 dst target_sz)

-- What the two sizes of a delta's header say.
abbrev pub Advertises : Bytes → ℕ → ℕ → Type 0
Advertises delta src_sz target_sz =
    (delta1 : Bytes) × (delta2 : Bytes) × (decode_delta_size delta ≡ ok (src_sz, delta1))
    × (decode_delta_size delta1 ≡ ok (target_sz, delta2))

validated-small :
    (delta : Bytes) (src_sz target_sz : ℕ) (u : Unit {0})
    → validate_delta_ops delta src_sz target_sz ≡ ok u
    → target_sz < 2 ^ 63
unfolding validate_delta_ops
validated-small delta src_sz target_sz u h = ground arith

-- Where patchDelta succeeds over a base below 2^63 bytes, the first size of the delta's header is
-- the size of the base, and the destination has grown by exactly the second.
pub patch_delta_into-Advertises :
    (dst src delta out : Bytes)
    → length src < 2 ^ 63
    → patch_delta_into dst src delta ≡ ok out
    → (target_sz : ℕ) × Advertises delta (length src) target_sz
      × (length out ≡ length dst + target_sz)
unfolding patch_delta_into
patch_delta_into-Advertises dst src delta out hs h =
    let ((src_sz, delta1), e1, h1) = >>=-eq-ok (decode_delta_size delta) _ h in
    checked src_sz delta1 e1 (src_sz == length src) refl h1
  where
    checked :
        (src_sz : ℕ) (delta1 : Bytes)
        → decode_delta_size delta ≡ ok (src_sz, delta1)
        → (b : Bool) → (src_sz == length src) ≡ b
        → (if not b then err invalid_delta else do
          (target_sz, delta2) ← decode_delta_size delta1
          _ ← validate_delta_ops delta2 src_sz target_sz
          patch_loop (length delta2 + 1) src src_sz delta2 dst target_sz)
          ≡ ok out
        → (target_sz : ℕ) × Advertises delta (length src) target_sz
          × (length out ≡ length dst + target_sz)
    checked src_sz delta1 e1 false eq k = cc
    checked src_sz delta1 e1 true eq k =
        let same : src_sz ≡ length src = ground arith in
        let ((target_sz, delta2), e2, k1) = >>=-eq-ok (decode_delta_size delta1) _ k in
        let (u, e3, k2) = >>=-eq-ok (validate_delta_ops delta2 src_sz target_sz) _ k1 in
        (
          target_sz,
          (delta1, delta2, e1 ∙ ap (λ t. ok (t, delta1)) same, e2),
          patch_loop-length (length delta2 + 1) src delta2 dst target_sz out hs
              (validated-small delta2 src_sz target_sz u e3)
              (ap (λ t. patch_loop (length delta2 + 1) src t delta2 dst target_sz) (sym same) ∙ k2),
        )
