-- ===== src/VarInt.antt =====
-- utils/binary/read.go and write.go: Git's offset variable-width integers. A reader is the list
-- of the bytes left; an int64 is its value, which is never negative here.
pub mod Write
pub mod Read
mod Examples
use go_git.Prelude.{
  ℕ, zero, suc, ◌+◌, ◌-◌, ◌*◌, ◌/◌, ◌%◌, ◌^◌, ◌≤◌, ◌<◌, bit_and, bit_or, arith, List, [], ◌∷◌, ◌++◌,
  leb, ◌==◌, if◌then◌else◌,
}
use go_git.Prelude.Order.{lt_wf}
use go_git.Prelude.Text.{Bytes}
use go_git.Prelude.Result.{Result, ok, err}
use mathlib.Core.Logic.{dite}
use mathlib.Core.WellFounded.{Acc}
use native.Mathlib.Decide.{dec_lt}

pub data Error : Type 0 where
  eof : Error
  integer_overflow : Error

abbrev pub IsByte : ℕ → Type 0
IsByte b = b < 256

-- math.MaxInt64
abbrev pub max_int64 : ℕ
max_int64 = 2 ^ 63 - 1

abbrev pub mask_continue : ℕ
mask_continue = 128

abbrev pub mask_length : ℕ
mask_length = 127

-- `(math.MaxInt64-int64(maskLength))>>lengthBits`
abbrev pub limit : ℕ
limit = (max_int64 - mask_length) / 2 ^ 7

-- The loop of `ReadVariableWidthInt`: `c` is the byte last read and `v` the value so far.
pub read_loop : Bytes → ℕ → ℕ → Result Error (ℕ × Bytes)
read_loop [] c v =
    if bit_and c mask_continue == 0
    then ok (v, [])
    else if leb limit v
    then err integer_overflow
    else err eof
read_loop (c' ∷ r) c v =
    let rest = read_loop r c' ((v + 1) * 2 ^ 7 + bit_and c' mask_length) in
    if bit_and c mask_continue == 0
    then ok (v, c' ∷ r)
    else if leb limit v
    then err integer_overflow
    else rest

pub read_variable_width_int : Bytes → Result Error (ℕ × Bytes)
unfolding read_loop
read_variable_width_int [] = err eof
read_variable_width_int (c ∷ r) = read_loop r c (bit_and c mask_length)

shift_shrinks : (n : ℕ) → 0 < n → (n - 1) / 2 ^ 7 < n
shift_shrinks n h = omega arith

-- The loop of `WriteVariableWidthInt`, which puts each byte in front of the buffer.
pub write_loop : (n : ℕ) → Bytes → Acc ◌<◌ n → Bytes
write_loop n buf (Acc.intro _ smaller) =
    dite (dec_lt 0 n)
      (λ more.
        write_loop ((n - 1) / 2 ^ 7) (bit_or 0x80 (bit_and (n - 1) 0x7f) ∷ buf)
          (smaller _ (shift_shrinks n more)))
      (λ _. buf)

pub write_variable_width_int : ℕ → Bytes
unfolding write_loop lt_wf dec_lt
write_variable_width_int n = write_loop (n / 2 ^ 7) (bit_and n 0x7f ∷ []) (lt_wf.apply (n / 2 ^ 7))
