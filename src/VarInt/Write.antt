-- ===== src/VarInt/Write.antt =====
-- The write loop of utils/binary/write.go, one byte at a time.
use go_git.Prelude.{
  ℕ, ◌+◌, ◌-◌, ◌/◌, ◌%◌, ◌<◌, bit_and, bit_or, arith, ◌≡◌, sym, ap, ◌∙◌, [], ◌∷◌, ◌++◌,
}
use go_git.Prelude.Order.{lt_wf}
use go_git.Prelude.Text.{Bytes}
use go_git.Prelude.Bits.{bit_and_mask, set_top_bit_left}
use go_git.VarInt.{write_loop, write_variable_width_int, shift_shrinks}
use mathlib.Core.WellFounded.{Acc, Acc-prop}
use mathlib.Core.Logic.{dif_pos, dif_neg}
use native.Mathlib.Decide.{dec_lt}
use native.Mathlib.Bridge.{le_prop}

-- The proof of termination does not matter.
write_loop_irrelevant :
    (n : ℕ) (buf : Bytes) (v w : Acc ◌<◌ n) → write_loop n buf v ≡ write_loop n buf w
write_loop_irrelevant n buf v w = ap (write_loop n buf) (Acc-prop v w)

-- The bytes that the loop puts in front of `buf` while `n` is left.
pub write_prefix : ℕ → Bytes → Bytes
write_prefix n buf = write_loop n buf (lt_wf.apply n)

write_loop-zero : (buf : Bytes) (w : Acc ◌<◌ 0) → write_loop 0 buf w ≡ buf
unfolding write_loop
write_loop-zero buf (Acc.intro _ f) = dif_neg (dec_lt 0 0) (omega arith) _ _

write_loop_step :
    (n : ℕ) (buf : Bytes) (w : Acc ◌<◌ n) (u : Acc ◌<◌ ((n - 1) / 128))
    → 0 < n
    → write_loop n buf w ≡ write_loop ((n - 1) / 128) (((n - 1) % 128 + 128) ∷ buf) u
unfolding write_loop
write_loop_step n buf (Acc.intro _ f) u h =
    let low : bit_and (n - 1) 127 ≡ (n - 1) % 128 = bit_and_mask 7 (n - 1) in
    let byte : bit_or 128 (bit_and (n - 1) 127) ≡ (n - 1) % 128 + 128 =
      ap (bit_or 128) low ∙ set_top_bit_left _ (omega arith) in
    dif_pos (dec_lt 0 n) le_prop h _ _
    ∙ ap (λ b. write_loop ((n - 1) / 128) (b ∷ buf) (f _ (shift_shrinks n h))) byte
    ∙ write_loop_irrelevant ((n - 1) / 128) (((n - 1) % 128 + 128) ∷ buf) (f _ (shift_shrinks n h))
        u

pub write_prefix-zero : (buf : Bytes) → write_prefix 0 buf ≡ buf
unfolding write_prefix
write_prefix-zero buf = write_loop-zero buf _

pub write_prefix_step :
    (n : ℕ) (buf : Bytes)
    → 0 < n
    → write_prefix n buf ≡ write_prefix ((n - 1) / 128) (((n - 1) % 128 + 128) ∷ buf)
unfolding write_prefix
write_prefix_step n buf h = write_loop_step n buf _ _ h

write_prefix-append_acc :
    (n : ℕ) (buf rest : Bytes) (w : Acc ◌<◌ n)
    → write_prefix n buf ++ rest ≡ write_prefix n (buf ++ rest)
write_prefix-append_acc n buf rest (Acc.intro _ f) = elim (dec_lt 0 n) [
  | yes h ↦
      ap (λ t. t ++ rest) (write_prefix_step n buf h)
      ∙ write_prefix-append_acc ((n - 1) / 128) _ rest (f _ (shift_shrinks n h))
      ∙ sym (write_prefix_step n (buf ++ rest) h)
  | no h ↦
      let z : n ≡ 0 = omega arith in
      rw z (ap (λ t. t ++ rest) (write_prefix-zero buf) ∙ sym (write_prefix-zero (buf ++ rest)))
]

pub write_prefix-append :
    (n : ℕ) (buf rest : Bytes) → write_prefix n buf ++ rest ≡ write_prefix n (buf ++ rest)
write_prefix-append n buf rest = write_prefix-append_acc n buf rest (lt_wf.apply n)

pub write-prefix : (n : ℕ) → write_variable_width_int n ≡ write_prefix (n / 128) ((n % 128) ∷ [])
unfolding write_variable_width_int write_prefix
write-prefix n = ap (λ b. write_loop (n / 128) (b ∷ []) (lt_wf.apply (n / 128))) (bit_and_mask 7 n)
