-- ===== src/DiffDelta/Rounds.antt =====
-- What the loops of `diffDelta` write: operations that make the target from the base.
use go_git.Prelude.{
  ℕ, zero, suc, ◌+◌, ◌^◌, ◌≤◌, ◌<◌, ◌≡◌, refl, sym, ap, ap₂, ◌∙◌, inl, inr, arith, List, [], ◌∷◌,
  ◌++◌, append_assoc, append-nil, ltb, ◌==◌, length, take, drop, get_or, drop-drop,
  take-append-drop, All, Bool-cases,
}
use go_git.Prelude.Partial.{Returns, Returns-bind}
use go_git.Prelude.Text.{Bytes}
use go_git.Delta.Encode.{encode_insert_operation}
use go_git.Delta.RoundTrip.{DeltaOp, insert, apply_ops, IsEncodable, encode_ops}
use go_git.DeltaIndex.{DeltaIndex, Match, small_source, found, find_match}
use go_git.DiffDelta.{copy_loop, DiffNext, by_match, diff_loop}
use go_git.DeltaIndex.Slices.{InRange}
use go_git.DiffDelta.FindMatch.{IsMatch, find_match-IsMatch}
use go_git.DiffDelta.Ops.{
  encode_insert-append, encode_ops-append, apply_ops-append, Encodable-append, copy_loop-Adds,
}

module _ (src : Bytes) (fits : length src ≤ 2 ^ 32) where
  -- What a round and those after it add, with the bytes that are still to insert.
  abbrev pub Rounds : Bytes → ℕ → Bytes → Bytes → Bytes × Bytes → Type 0
  Rounds tgt i ibuf buf (ibuf', buf') =
      (ops : List DeltaOp) × (buf' ≡ buf ++ encode_ops ops)
      × (apply_ops src ops ++ ibuf' ≡ ibuf ++ drop i tgt)
      × All (IsEncodable src) ops

  drop_step :
      (i : ℕ) (tgt : Bytes) → i < length tgt → drop i tgt ≡ get_or tgt i 0 ∷ drop (suc i) tgt
  drop_step i [] h = absurd (omega arith)
  drop_step zero (c ∷ tgt) h = refl
  drop_step (suc i) (c ∷ tgt) h = drop_step i tgt (omega arith)

  drop_end : (i : ℕ) (tgt : Bytes) → length tgt ≤ i → drop i tgt ≡ []
  drop_end zero [] h = refl
  drop_end zero (c ∷ tgt) h = absurd (omega arith)
  drop_end (suc i) [] h = refl
  drop_end (suc i) (c ∷ tgt) h = drop_end i tgt (omega arith)

  -- The bytes to insert grow by a piece of the target.
  Rounds-kept :
      (tgt : Bytes) (i k : ℕ) (ibuf piece buf : Bytes) (x : Bytes × Bytes)
      → piece ++ drop k tgt ≡ drop i tgt
      → Rounds tgt k (ibuf ++ piece) buf x
      → Rounds tgt i ibuf buf x
  Rounds-kept tgt i k ibuf piece buf (ibuf', buf') e (ops, same, made, all) =
      (ops, same, made ∙ append_assoc ibuf piece (drop k tgt) ∙ ap (λ t. ibuf ++ t) e, all)

  -- They are written before a match, and the match after them.
  Rounds-copied :
      (tgt : Bytes) (i l o : ℕ) (ibuf buf : Bytes) (x : Bytes × Bytes)
      → o + l ≤ length src
      → take l (drop o src) ≡ take l (drop i tgt)
      → Rounds tgt (i + l) [] (copy_loop (suc l) l o (encode_insert_operation ibuf buf)) x
      → Rounds tgt i ibuf buf x
  Rounds-copied tgt i l o ibuf buf (ibuf', buf') inside is_match (ops, same, made, all) =
      let (copies, copied, piece, encodable) =
        copy_loop-Adds src fits (suc l) l o (encode_insert_operation ibuf buf) (omega arith)
          inside in
      let inserted : Bytes = encode_insert_operation ibuf [] in
      let rest : List DeltaOp = copies ++ ops in
      let written : buf' ≡ buf ++ (inserted ++ encode_ops rest) =
        same
        ∙ ap (λ t. t ++ encode_ops ops)
            (copied ∙ ap (λ t. t ++ encode_ops copies) (encode_insert-append ibuf buf))
        ∙ append_assoc (buf ++ inserted) (encode_ops copies) (encode_ops ops)
        ∙ ap (λ t. (buf ++ inserted) ++ t) (sym (encode_ops-append copies ops))
        ∙ append_assoc buf inserted (encode_ops rest) in
      let front : Bytes = take l (drop i tgt) in
      let target : apply_ops src rest ++ ibuf' ≡ drop i tgt =
        ap (λ t. t ++ ibuf') (apply_ops-append src fits copies ops)
        ∙ append_assoc (apply_ops src copies) (apply_ops src ops) ibuf'
        ∙ ap₂ (λ a b. a ++ b) (piece ∙ is_match) (made ∙ sym (drop-drop i l tgt))
        ∙ take-append-drop l (drop i tgt) in
      (
        insert ibuf ∷ rest,
        written,
        append_assoc ibuf (apply_ops src rest) ibuf' ∙ ap (λ t. ibuf ++ t) target,
        (tt, Encodable-append src fits copies ops encodable all),
      )

  module _ (tgt : Bytes) (next : DiffNext) (i : ℕ) where
    -- The rounds after one that goes on at an index.
    abbrev Goes : Type 0
    Goes =
        (k : ℕ) (ibuf buf : Bytes)
        → i < k
        → k ≤ length tgt
        → Returns (Rounds tgt k ibuf buf) (next k ibuf buf)

    by_match-Rounds :
        (ibuf buf : Bytes) (m : Match)
        → Goes
        → i < length tgt
        → IsMatch src tgt i m
        → Returns (Rounds tgt i ibuf buf) (by_match next tgt i ibuf buf m)
    unfolding by_match
    by_match-Rounds ibuf buf small_source goes h is_match =
        ((ibuf ++ drop i tgt, buf), refl, ([], sym (append-nil buf), refl, tt))
    by_match-Rounds ibuf buf (found o l) goes h (in_tgt, long) = elim (Bool-cases (l == 0)) [
      | inl none_found ↦
          let c : Bytes = get_or tgt i 0 ∷ [] in
          let (x, returned, rounds) = goes (suc i) (ibuf ++ c) buf (omega arith) (omega arith) in
          rw (none_found)
            (x, returned, Rounds-kept tgt i (suc i) ibuf c buf x (sym (drop_step i tgt h)) rounds)
      | inr some_found ↦ elim (Bool-cases (ltb l 16)) [
        | inl short ↦
            let piece : Bytes = take l (drop i tgt) in
            let (x, returned, rounds) =
              goes (i + l) (ibuf ++ piece) buf (ground arith) (omega arith) in
            rw (some_found) (
              rw (short) (
                x,
                returned,
                Rounds-kept tgt i (i + l) ibuf piece buf x
                    (ap (λ t. piece ++ t) (sym (drop-drop i l tgt))
                      ∙ take-append-drop l (drop i tgt))
                    rounds,
              ))
        | inr enough ↦
            let sixteen : 16 ≤ l = ground arith in
            let (inside, is_match) = long sixteen in
            let (x, returned, rounds) = goes (i + l) [] _ (omega arith) (omega arith) in
            rw (some_found)
              (rw (enough) (x, returned, Rounds-copied tgt i l o ibuf buf x inside is_match rounds))
      ]
    ]

  pub diff_loop-Rounds :
      (fuel : ℕ) (idx : DeltaIndex) (tgt : Bytes) (i : ℕ) (ibuf buf : Bytes)
      → (16 ≤ length src → InRange idx)
      → i ≤ length tgt
      → length tgt ≤ fuel + i
      → Returns (Rounds tgt i ibuf buf) (diff_loop fuel idx src tgt i ibuf buf)
  unfolding diff_loop
  diff_loop-Rounds zero idx tgt i ibuf buf range h enough =
      let ended : ibuf ++ drop i tgt ≡ ibuf =
        ap (λ t. ibuf ++ t) (drop_end i tgt (omega arith)) ∙ append-nil ibuf in
      ((ibuf, buf), refl, ([], sym (append-nil buf), sym ended, tt))
  diff_loop-Rounds (suc fuel) idx tgt i ibuf buf range h enough =
      elim (Bool-cases (ltb i (length tgt))) [
        | inl more ↦
            let inside : i < length tgt = ground arith in
            rw (more) (
              Returns-bind (find_match idx src tgt i) _ (find_match-IsMatch idx src tgt i h range)
                (λ m is_match.
                  by_match-Rounds tgt (diff_loop fuel idx src tgt) i ibuf buf m
                    (λ k ibuf buf after within.
                      diff_loop-Rounds fuel idx tgt k ibuf buf range within (omega arith))
                    inside is_match))
        | inr done ↦
            let end : length tgt ≤ i = ground arith in
            let ended : ibuf ++ drop i tgt ≡ ibuf =
              ap (λ t. ibuf ++ t) (drop_end i tgt end) ∙ append-nil ibuf in
            rw (done) ((ibuf, buf), refl, ([], sym (append-nil buf), sym ended, tt))
      ]
