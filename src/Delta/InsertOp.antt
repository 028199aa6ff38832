-- ===== src/Delta/InsertOp.antt =====
-- An insert operation of diff_delta.go through the loop of `patchDelta`.
use go_git.Prelude.{
  ℕ, ◌+◌, ◌-◌, ◌^◌, ◌<◌, ◌≤◌, arith, ◌≡◌, refl, sym, ap, ◌∙◌, [], ◌∷◌, ◌++◌, false, ◌==◌, length,
  take, drop, length-take, length-drop, take-append-take-drop, drop-drop, take_all, append_assoc,
  append-nil,
}
use go_git.Prelude.Order.{lt_wf}
use go_git.Prelude.Text.{Bytes}
use go_git.Delta.Encode.{insert_loop, insert_shrinks, encode_insert_operation}
use go_git.Delta.Runs.{Runs, Runs-chunk, Runs-subst}
use mathlib.Core.WellFounded.{Acc, Acc-prop}
use mathlib.Core.Logic.{dif_pos, dif_neg}
use native.Mathlib.Decide.{dec_lt}
use native.Mathlib.Bridge.{le_prop}

insert_loop_last :
    (s o : ℕ) (b buf : Bytes) (w : Acc ◌<◌ s)
    → s < 128
    → insert_loop s o b buf w ≡ buf ++ s ∷ take s (drop o b)
unfolding insert_loop
insert_loop_last s o b buf (Acc.intro _ f) h =
    dif_neg (dec_lt 127 s) (λ p. absurd (omega arith)) _ _
    ∙ ap (λ t. buf ++ t ∷ take s (drop o b)) (omega arith)

insert_loop_more :
    (s o : ℕ) (b buf : Bytes) (w : Acc ◌<◌ s) (u : Acc ◌<◌ (s - 127))
    → 127 < s
    → insert_loop s o b buf w
      ≡ insert_loop (s - 127) (o + 127) b (buf ++ 127 ∷ take 127 (drop o b)) u
unfolding insert_loop
insert_loop_more s o b buf (Acc.intro _ f) u h =
    dif_pos (dec_lt 127 s) le_prop h _ _
    ∙ ap (insert_loop (s - 127) (o + 127) b (buf ++ 127 ∷ take 127 (drop o b)))
        (Acc-prop (f _ (insert_shrinks s h)) u)

pub insert_loop-append :
    (s o : ℕ) (b buf : Bytes) (w : Acc ◌<◌ s)
    → insert_loop s o b buf w ≡ buf ++ insert_loop s o b [] w
insert_loop-append s o b buf (Acc.intro _ f) = elim (dec_lt 127 s) [
  | no h ↦
      insert_loop_last s o b buf _ (omega arith)
      ∙ ap (λ t. buf ++ t) (sym (insert_loop_last s o b [] _ (omega arith)))
  | yes h ↦
      let chunk : Bytes = 127 ∷ take 127 (drop o b) in
      insert_loop_more s o b buf (Acc.intro s f) (f _ (insert_shrinks s h)) h
      ∙ insert_loop-append (s - 127) (o + 127) b (buf ++ chunk) (f _ (insert_shrinks s h))
      ∙ append_assoc buf chunk _
      ∙ ap (λ t. buf ++ t)
          (sym (insert_loop-append (s - 127) (o + 127) b chunk (f _ (insert_shrinks s h))))
      ∙ ap (λ t. buf ++ t)
          (sym (insert_loop_more s o b [] (Acc.intro s f) (f _ (insert_shrinks s h)) h))
]

length-piece : (n o : ℕ) (b : Bytes) → o + n ≤ length b → n ≡ length (take n (drop o b))
length-piece n o b h = omega (arith, length-take n (drop o b), length-drop o b)

module _ (src : Bytes) (fits : length src < 2 ^ 63) where
  Runs-insert_loop :
      (s o : ℕ) (b rest dst : Bytes) (remaining : ℕ) (out : Bytes) (w : Acc ◌<◌ s)
      → 0 < s
      → o + s ≤ length b
      → s ≤ remaining
      → Runs src rest (dst ++ take s (drop o b)) (remaining - s) out
      → Runs src (insert_loop s o b [] w ++ rest) dst remaining out
  Runs-insert_loop s o b rest dst remaining out (Acc.intro _ f) pos inside room next =
      elim (dec_lt 127 s) [
        | no h ↦
            Runs-subst src fits
              (ap (λ t. t ++ rest) (insert_loop_last s o b [] (Acc.intro s f) (omega arith))) refl
              refl
              (Runs-chunk src fits s (take s (drop o b)) rest dst remaining out
                (length-piece s o b inside) pos (omega arith) room next)
        | yes h ↦
            let piece : Bytes = take 127 (drop o b) in
            let tail : Bytes = insert_loop (s - 127) (o + 127) b [] (f _ (insert_shrinks s h)) in
            let shape : insert_loop s o b [] (Acc.intro s f) ++ rest
                ≡ 127 ∷ (piece ++ (tail ++ rest)) =
              ap (λ t. t ++ rest)
                (insert_loop_more s o b [] (Acc.intro s f) (f _ (insert_shrinks s h)) h
                  ∙ insert_loop-append (s - 127) (o + 127) b (127 ∷ piece)
                      (f _ (insert_shrinks s h)))
              ∙ append_assoc (127 ∷ piece) tail rest in
            let joined : (dst ++ piece) ++ take (s - 127) (drop (o + 127) b)
                ≡ dst ++ take s (drop o b) =
              append_assoc dst piece _
              ∙ ap (λ t. dst ++ (piece ++ take (s - 127) t)) (sym (drop-drop o 127 b))
              ∙ ap (λ t. dst ++ t) (take-append-take-drop 127 (s - 127) (drop o b))
              ∙ ap (λ t. dst ++ take t (drop o b)) (omega arith) in
            Runs-subst src fits shape refl refl (
              Runs-chunk src fits 127 piece (tail ++ rest) dst remaining out
                (length-piece 127 o b (omega arith)) (omega arith) (omega arith) (omega arith)
                (Runs-insert_loop (s - 127) (o + 127) b rest (dst ++ piece) (remaining - 127) out
                  (f _ (insert_shrinks s h)) (omega arith) (omega arith) (omega arith)
                  (Runs-subst src fits refl joined (omega arith) next)))
      ]

  pub Runs-insert :
      (b rest dst : Bytes) (remaining : ℕ) (out : Bytes)
      → length b ≤ remaining
      → Runs src rest (dst ++ b) (remaining - length b) out
      → Runs src (encode_insert_operation b [] ++ rest) dst remaining out
  unfolding encode_insert_operation
  Runs-insert [] rest dst remaining out room next =
      Runs-subst src fits refl (sym (append-nil dst)) (omega arith) next
  Runs-insert (x ∷ b) rest dst remaining out room next =
      let pos : (length (x ∷ b) == 0) ≡ false = ground arith in
      rw pos (
        Runs-insert_loop (length (x ∷ b)) 0 (x ∷ b) rest dst remaining out
          (lt_wf.apply (length (x ∷ b))) (omega arith) (omega arith) room
          (Runs-subst src fits refl (ap (λ t. dst ++ t) (take_all (x ∷ b))) refl next))
