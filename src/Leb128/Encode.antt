-- ===== src/Leb128/Encode.antt =====
-- `EncodeLEB128` by its lowest group of seven bits.
use go_git.Prelude.{
  ℕ, ◌+◌, ◌/◌, ◌%◌, ◌<◌, ◌≤◌, bit_and, bit_or, arith, ◌≡◌, sym, ap, ◌∙◌, [], ◌∷◌, ◌++◌,
  append_assoc,
}
use go_git.Prelude.Order.{lt_wf}
use go_git.Prelude.Text.{Bytes}
use go_git.Prelude.Bits.{bit_and_mask, set_top_bit}
use go_git.Leb128.{encode_loop, encode_leb128, shift_shrinks}
use mathlib.Core.WellFounded.{Acc, Acc-prop}
use mathlib.Core.Logic.{dif_pos, dif_neg}
use native.Mathlib.Decide.{dec_lt}
use native.Mathlib.Bridge.{le_prop}

last_byte : (n : ℕ) → bit_and n 127 % 256 ≡ n % 128
last_byte n = ap (λ t. t % 256) (bit_and_mask 7 n) ∙ omega arith

inner_byte : (n : ℕ) → bit_or (bit_and n 127 % 256) 128 ≡ n % 128 + 128
inner_byte n = ap (λ t. bit_or t 128) (last_byte n) ∙ set_top_bit (n % 128) (omega arith)

encode_loop_last :
    (n : ℕ) (out : Bytes) (w : Acc ◌<◌ n) → n < 128 → encode_loop n out w ≡ out ++ (n % 128) ∷ []
unfolding encode_loop
encode_loop_last n out (Acc.intro _ f) h =
    dif_neg (dec_lt 0 (n / 128)) (λ p. absurd (omega arith)) _ _
    ∙ ap (λ t. out ++ t ∷ []) (last_byte n)

encode_loop_more :
    (n : ℕ) (out : Bytes) (w : Acc ◌<◌ n) (u : Acc ◌<◌ (n / 128))
    → 128 ≤ n
    → encode_loop n out w ≡ encode_loop (n / 128) (out ++ (n % 128 + 128) ∷ []) u
unfolding encode_loop
encode_loop_more n out (Acc.intro _ f) u h =
    let more : 0 < n / 128 = omega arith in
    dif_pos (dec_lt 0 (n / 128)) le_prop more _ _
    ∙ ap (λ t. encode_loop (n / 128) (out ++ t ∷ []) (f _ (shift_shrinks n more))) (inner_byte n)
    ∙ ap (encode_loop (n / 128) (out ++ (n % 128 + 128) ∷ []))
        (Acc-prop (f _ (shift_shrinks n more)) u)

encode_loop-append :
    (n : ℕ) (out : Bytes) (w : Acc ◌<◌ n) → encode_loop n out w ≡ out ++ encode_loop n [] w
encode_loop-append n out (Acc.intro _ f) = elim (dec_lt n 128) [
  | yes h ↦ encode_loop_last n out _ h ∙ ap (λ t. out ++ t) (sym (encode_loop_last n [] _ h))
  | no h ↦
      let u : Acc ◌<◌ (n / 128) = lt_wf.apply (n / 128) in
      let big : 128 ≤ n = omega arith in
      let b : Bytes = (n % 128 + 128) ∷ [] in
      encode_loop_more n out _ (f _ (shift_shrinks n (omega arith))) big
      ∙ encode_loop-append (n / 128) (out ++ b) (f _ (shift_shrinks n (omega arith)))
      ∙ append_assoc out b _
      ∙ ap (λ t. out ++ t)
          (sym (encode_loop-append (n / 128) b (f _ (shift_shrinks n (omega arith)))))
      ∙ ap (λ t. out ++ t) (sym (encode_loop_more n [] _ (f _ (shift_shrinks n (omega arith))) big))
]

pub encode_last : (n : ℕ) → n < 128 → encode_leb128 n ≡ n ∷ []
unfolding encode_leb128
encode_last n h = encode_loop_last n [] (lt_wf.apply n) h ∙ ap (λ t. t ∷ []) (omega arith)

pub encode_more : (n : ℕ) → 128 ≤ n → encode_leb128 n ≡ (n % 128 + 128) ∷ encode_leb128 (n / 128)
unfolding encode_leb128
encode_more n h =
    encode_loop_more n [] (lt_wf.apply n) (lt_wf.apply (n / 128)) h
    ∙ encode_loop-append (n / 128) ((n % 128 + 128) ∷ []) (lt_wf.apply (n / 128))
