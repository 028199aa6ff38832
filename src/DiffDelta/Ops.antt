-- ===== src/DiffDelta/Ops.antt =====
-- The operations that the loops of `diffDelta` write, put together.
use go_git.Prelude.{
  ℕ, zero, suc, ◌+◌, ◌-◌, ◌^◌, ◌≤◌, ◌<◌, ◌≡◌, refl, sym, ap, ◌∙◌, inl, inr, arith, List, [], ◌∷◌,
  ◌++◌, append_assoc, append-nil, false, ltb, ◌==◌, length, take, drop, drop-drop,
  take-append-take-drop, All, Bool-cases,
}
use go_git.Prelude.Order.{lt_wf}
use go_git.Prelude.Text.{Bytes}
use go_git.Delta.Encode.{encode_copy_operation, encode_insert_operation}
use go_git.Delta.InsertOp.{insert_loop-append}
use go_git.Delta.RoundTrip.{DeltaOp, copy, insert, apply_ops, IsEncodable, encode_ops}
use go_git.DiffDelta.{copy_loop}

pub encode_insert-append :
    (ibuf buf : Bytes) → encode_insert_operation ibuf buf ≡ buf ++ encode_insert_operation ibuf []
unfolding encode_insert_operation
encode_insert-append ibuf buf = elim (Bool-cases (length ibuf == 0)) [
  | inl empty ↦ rw (empty) (sym (append-nil buf))
  | inr full ↦ rw (full) (insert_loop-append (length ibuf) 0 ibuf buf (lt_wf.apply (length ibuf)))
]

pub encode_ops-append :
    (xs ys : List DeltaOp) → encode_ops (xs ++ ys) ≡ encode_ops xs ++ encode_ops ys
encode_ops-append [] ys = refl
encode_ops-append (copy o l ∷ xs) ys =
    ap (λ t. encode_copy_operation o l ++ t) (encode_ops-append xs ys)
    ∙ sym (append_assoc (encode_copy_operation o l) (encode_ops xs) (encode_ops ys))
encode_ops-append (insert b ∷ xs) ys =
    ap (λ t. encode_insert_operation b [] ++ t) (encode_ops-append xs ys)
    ∙ sym (append_assoc (encode_insert_operation b []) (encode_ops xs) (encode_ops ys))

module _ (src : Bytes) (fits : length src ≤ 2 ^ 32) where
  pub apply_ops-append :
      (xs ys : List DeltaOp) → apply_ops src (xs ++ ys) ≡ apply_ops src xs ++ apply_ops src ys
  apply_ops-append [] ys = refl
  apply_ops-append (copy o l ∷ xs) ys =
      ap (λ t. take l (drop o src) ++ t) (apply_ops-append xs ys)
      ∙ sym (append_assoc (take l (drop o src)) (apply_ops src xs) (apply_ops src ys))
  apply_ops-append (insert b ∷ xs) ys =
      ap (λ t. b ++ t) (apply_ops-append xs ys)
      ∙ sym (append_assoc b (apply_ops src xs) (apply_ops src ys))

  pub Encodable-append :
      (xs ys : List DeltaOp)
      → All (IsEncodable src) xs
      → All (IsEncodable src) ys
      → All (IsEncodable src) (xs ++ ys)
  Encodable-append [] ys hx hy = hy
  Encodable-append (x ∷ xs) ys (h, hx) hy = (h, Encodable-append xs ys hx hy)

  -- Operations that a loop adds to the delta, and what they make.
  abbrev pub Adds : Bytes → Bytes → Bytes → Type 0
  Adds buf buf' made =
      (ops : List DeltaOp) × (buf' ≡ buf ++ encode_ops ops)
      × (apply_ops src ops ≡ made)
      × All (IsEncodable src) ops

  pub copy_loop-Adds :
      (fuel rl o : ℕ) (buf : Bytes)
      → rl < fuel
      → o + rl ≤ length src
      → Adds buf (copy_loop fuel rl o buf) (take rl (drop o src))
  unfolding copy_loop
  copy_loop-Adds zero rl o buf h inside = absurd (omega arith)
  copy_loop-Adds (suc fuel) zero o buf h inside = ([], sym (append-nil buf), refl, tt)
  copy_loop-Adds (suc fuel) (suc n) o buf h inside =
      let more_left : (suc n == 0) ≡ false = ground arith in
      elim (Bool-cases (ltb (suc n) 65536)) [
        | inl small ↦ rw (more_left) (
            rw (small) (
              copy o (suc n) ∷ [],
              ap (λ t. buf ++ t) (sym (append-nil (encode_copy_operation o (suc n)))),
              append-nil (take (suc n) (drop o src)),
              ((omega arith, omega arith, ground arith, inside), tt),
            ))
        | inr large ↦
            let long : 65536 ≤ suc n = ground arith in
            let chunk : Bytes = encode_copy_operation o 65536 in
            let rest : ℕ = suc n - 65536 in
            let (ops, same, made, all) =
              copy_loop-Adds fuel rest (o + 65536) (buf ++ chunk) (omega arith) (omega arith) in
            let sum : 65536 + rest ≡ suc n = omega arith in
            rw (more_left) (
              rw (large) (
                copy o 65536 ∷ ops,
                same ∙ append_assoc buf chunk (encode_ops ops),
                ap (λ t. take 65536 (drop o src) ++ t)
                      (made ∙ ap (take rest) (sym (drop-drop o 65536 src)))
                    ∙ take-append-take-drop 65536 rest (drop o src)
                    ∙ ap (λ t. take t (drop o src)) sum,
                ((omega arith, omega arith, omega arith, omega arith), all),
              ))
      ]
