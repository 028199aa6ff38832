-- ===== src/Leb128.antt =====
-- plumbing/format/packfile/util/util.go: LEB128 sizes and the size of a packed object's header.
-- A byte reader is the list of the bytes left. A uint has 64 bits, so `uintBits` is 64.
pub mod Encode
pub mod Decode
pub mod Header
mod Examples
use go_git.Prelude.{
  ℕ, zero, suc, ◌+◌, ◌-◌, ◌*◌, ◌/◌, ◌%◌, ◌^◌, ◌≤◌, ◌<◌, bit_and, bit_or, arith, [], ◌∷◌, ◌++◌, ltb,
  ◌==◌, if◌then◌else◌,
}
use go_git.Prelude.Order.{lt_wf}
use go_git.Prelude.Text.{Bytes}
use go_git.Prelude.Result.{Result, ok, err}
use mathlib.Core.Logic.{dite}
use mathlib.Core.WellFounded.{Acc}
use native.Mathlib.Decide.{dec_lt}

pub data Error : Type 0 where
  eof : Error
  length_overflow : Error

abbrev pub mask_payload : ℕ
mask_payload = 0x7f

abbrev pub mask_continue : ℕ
mask_continue = 0x80

abbrev pub uint_bits : ℕ
uint_bits = 64

-- `num |= (uint(b) & maskPayload) << shift`, with the wrap of a uint.
abbrev pub add_chunk : ℕ → ℕ → ℕ → ℕ
add_chunk num b shift = bit_or num (bit_and b mask_payload * 2 ^ shift % 2 ^ 64)

pub shift_shrinks : (n : ℕ) → 0 < n / 2 ^ 7 → n / 2 ^ 7 < n
shift_shrinks n h = omega arith

-- The loop of `EncodeLEB128`.
pub encode_loop : (num : ℕ) → Bytes → Acc ◌<◌ num → Bytes
encode_loop num out (Acc.intro _ smaller) =
    let b = bit_and num mask_payload % 256 in
    dite (dec_lt 0 (num / 2 ^ 7))
      (λ more.
        encode_loop (num / 2 ^ 7) (out ++ bit_or b mask_continue ∷ [])
          (smaller _ (shift_shrinks num more)))
      (λ _. out ++ b ∷ [])

unfoldable pub encode_leb128 : ℕ → Bytes
unfolding encode_loop lt_wf dec_lt
encode_leb128 num = encode_loop num [] (lt_wf.apply num)

-- The loop of `DecodeLEB128`: `b` is `input[sz]` and the list is what follows it. The last byte
-- of the input ends the number even where it carries the continuation bit.
pub decode_loop : ℕ → Bytes → ℕ → ℕ → Result Error (ℕ × Bytes)
decode_loop b [] num sz =
    if ltb (uint_bits - 7) (sz * 7) then err length_overflow else ok (add_chunk num b (sz * 7), [])
decode_loop b (b' ∷ r) num sz =
    let num' = add_chunk num b (sz * 7) in
    let rest = decode_loop b' r num' (sz + 1) in
    if ltb (uint_bits - 7) (sz * 7)
    then err length_overflow
    else if bit_and b mask_continue == 0
    then ok (num', b' ∷ r)
    else rest

unfoldable pub decode_leb128 : Bytes → Result Error (ℕ × Bytes)
unfolding decode_loop
decode_leb128 [] = ok (0, [])
decode_leb128 (b ∷ r) = decode_loop b r 0 0

-- The loop of `DecodeLEB128FromReader`.
pub reader_loop : Bytes → ℕ → ℕ → Result Error (ℕ × Bytes)
reader_loop [] num sz = if ltb (uint_bits - 7) (sz * 7) then err length_overflow else err eof
reader_loop (b ∷ r) num sz =
    let num' = add_chunk num b (sz * 7) in
    let rest = reader_loop r num' (sz + 1) in
    if ltb (uint_bits - 7) (sz * 7)
    then err length_overflow
    else if bit_and b mask_continue == 0
    then ok (num', r)
    else rest

unfoldable pub decode_leb128_from_reader : Bytes → Result Error (ℕ × Bytes)
unfolding reader_loop
decode_leb128_from_reader input = reader_loop input 0 0

-- The loop of `VariableLengthSize`.
pub size_loop : Bytes → ℕ → ℕ → Result Error (ℕ × Bytes)
size_loop [] size shift = if ltb (64 - 7) shift then err length_overflow else err eof
size_loop (b ∷ r) size shift =
    let size' = add_chunk size b shift in
    let rest = size_loop r size' (shift + 7) in
    if ltb (64 - 7) shift
    then err length_overflow
    else if bit_and b mask_continue == 0
    then ok (size', r)
    else rest

-- `VariableLengthSize` with a reader that is not nil.
unfoldable pub variable_length_size : ℕ → Bytes → Result Error (ℕ × Bytes)
unfolding size_loop
variable_length_size first reader =
    if bit_and first mask_continue == 0
    then ok (bit_and first 0x0f, reader)
    else size_loop reader (bit_and first 0x0f) 4

-- `ObjectType`: the number of the type.
unfoldable pub object_type : ℕ → ℕ
object_type b = bit_and b 112 / 2 ^ 4
