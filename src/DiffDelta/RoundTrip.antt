-- ===== src/DiffDelta/RoundTrip.antt =====
-- The delta that `diffDelta` makes is applied to its base.
use go_git.Prelude.{
  ◌^◌, ◌≤◌, ◌<◌, ◌≡◌, refl, sym, ap, ◌∙◌, inl, inr, ◌⊎◌, arith, List, [], ◌∷◌, ◌++◌, append_assoc,
  append-nil, false, ◌||◌, ltb, ◌==◌, length, length-append, All, Bool-cases,
}
use go_git.Prelude.Order.{lt_wf}
use go_git.Prelude.Partial.{Returns}
use go_git.Prelude.Text.{Bytes}
use go_git.Prelude.Result.{ok}
use go_git.Leb128.{encode_leb128}
use go_git.Delta.{patch_delta}
use go_git.Delta.Encode.{encode_insert_operation}
use go_git.Delta.RoundTrip.{
  DeltaOp, insert, apply_ops, IsEncodable, encode_ops, delta_of, patch_delta_into-encode,
  encoded_end,
}
use go_git.DeltaIndex.{DeltaIndex}
use go_git.DeltaIndex.Slices.{InRange}
use go_git.DeltaIndex.Init.{init-InRange}
use go_git.DiffDelta.{ready, diff_delta}
use go_git.DiffDelta.Ops.{
  encode_insert-append, encode_ops-append, apply_ops-append, Encodable-append,
}
use go_git.DiffDelta.Rounds.{diff_loop-Rounds}

-- An index that was made for a base: nothing is looked up in a small one.
abbrev pub Fits : Bytes → DeltaIndex → Type 0
Fits src idx = (length src < 16) ⊎ InRange idx

-- An index that is to be made, or one that was made.
abbrev pub Usable : Bytes → DeltaIndex → Type 0
Usable src idx = (length idx.entries ≡ 0) ⊎ Fits src idx

in_range : (src : Bytes) (idx : DeltaIndex) → Fits src idx → 16 ≤ length src → InRange idx
in_range src idx (inl small) large = absurd (omega arith)
in_range src idx (inr range) large = range

Fits-where : (src : Bytes) (idx : DeltaIndex) → (16 ≤ length src → InRange idx) → Fits src idx
Fits-where src idx range = elim (Bool-cases (ltb (length src) 16)) [
  | inl small ↦ inl (ground arith)
  | inr large ↦ inr (range (ground arith))
]

ready-Fits :
    (idx : DeltaIndex) (src : Bytes)
    → length src ≤ 2 ^ 32
    → Usable src idx
    → Returns (Fits src) (ready idx src)
unfolding ready
ready-Fits idx src small usable = elim (Bool-cases (length idx.entries == 0)) [
  | inl empty ↦
      let (idx', made, range) = init-InRange src small in
      rw (empty) (idx', made, Fits-where src idx' range)
  | inr made ↦ elim usable [
    | inl none_made ↦ absurd (ground arith)
    | inr fits ↦ rw (made) (idx, refl, fits)
  ]
]

-- A delta that is written as operations gives the target.
patch_delta-ops :
    (src tgt : Bytes) (ops : List DeltaOp)
    → 0 < length src
    → length src ≤ 2 ^ 32
    → length tgt < 2 ^ 63
    → apply_ops src ops ≡ tgt
    → All (IsEncodable src) ops
    → patch_delta src (delta_of src ops) ≡ ok tgt
unfolding patch_delta
patch_delta-ops src tgt ops pos small fits made all =
    let sizes : Bytes = encode_leb128 (length (apply_ops src ops)) in
    let (some_src, _) = encoded_end (length src) [] (lt_wf.apply (length src)) in
    let (some_tgt, _) =
      encoded_end (length (apply_ops src ops)) [] (lt_wf.apply (length (apply_ops src ops))) in
    let long : (length src == 0) || ltb (length (delta_of src ops)) 2 ≡ false = ground (
      arith,
      length-append (encode_leb128 (length src)) (sizes ++ encode_ops ops),
      length-append sizes (encode_ops ops),
    ) in
    rw (long) (
      patch_delta_into-encode src [] ops (omega arith) (omega (arith, ap length made)) all
      ∙ ap ok made)

-- Over a base of 1 to 2^32 bytes and a target below 2^63 bytes, with an index that has no entries
-- yet or is one that was made for the base, diffDelta does not panic, PatchDelta of the delta that
-- it returns is the target, and the index is then one that was made.
pub patch_delta-diff :
    (index : DeltaIndex) (src tgt : Bytes)
    → 0 < length src
    → length src ≤ 2 ^ 32
    → length tgt < 2 ^ 63
    → Usable src index
    → Returns
        (λ (delta, idx). (patch_delta src delta ≡ ok tgt) × Fits src idx)
        (diff_delta index src tgt)
unfolding diff_delta
patch_delta-diff index src tgt pos small fits usable =
    let (idx, e, made_for) = ready-Fits index src small usable in
    let range : 16 ≤ length src → InRange idx = in_range src idx made_for in
    let head : Bytes = encode_leb128 (length src) ++ encode_leb128 (length tgt) in
    let ((ibuf, buf), e', (ops, same, made, all)) =
      diff_loop-Rounds src small (length tgt) idx tgt 0 [] head range (omega arith) (omega arith) in
    let last : List DeltaOp = insert ibuf ∷ [] in
    let all_ops : List DeltaOp = ops ++ last in
    let target : apply_ops src all_ops ≡ tgt =
      apply_ops-append src small ops last
      ∙ ap (λ t. apply_ops src ops ++ t) (append-nil ibuf)
      ∙ made in
    let written : encode_insert_operation ibuf buf ≡ delta_of src all_ops =
      encode_insert-append ibuf buf
      ∙ ap (λ t. t ++ encode_insert_operation ibuf []) same
      ∙ append_assoc head (encode_ops ops) (encode_insert_operation ibuf [])
      ∙ ap (λ t. head ++ (encode_ops ops ++ t)) (sym (append-nil (encode_insert_operation ibuf [])))
      ∙ ap (λ t. head ++ t) (sym (encode_ops-append ops last))
      ∙ append_assoc (encode_leb128 (length src)) (encode_leb128 (length tgt)) (encode_ops all_ops)
      ∙ ap (λ t. encode_leb128 (length src) ++ (encode_leb128 (length t) ++ encode_ops all_ops))
          (sym target) in
    rw (e) (
      rw (e') (
        (encode_insert_operation ibuf buf, idx),
        refl,
        (
          ap (patch_delta src) written
              ∙ patch_delta-ops src tgt all_ops pos small fits target
                  (Encodable-append src small ops last all (tt, tt)),
          made_for,
        ),
      ))
