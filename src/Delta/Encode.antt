-- ===== src/Delta/Encode.antt =====
-- plumbing/format/packfile/diff_delta.go: the operations of a delta as bytes.
use go_git.Prelude.{
  ℕ, ◌+◌, ◌-◌, ◌*◌, ◌/◌, ◌%◌, ◌^◌, ◌<◌, bit_and, bit_or, arith, List, [], ◌∷◌, ◌++◌, ◌==◌,
  if◌then◌else◌, length, take, drop,
}
use go_git.Prelude.Order.{lt_wf}
use go_git.Prelude.Text.{Bytes}
use go_git.Delta.{offsets, sizes}
use mathlib.Core.Logic.{dite}
use mathlib.Core.WellFounded.{Acc}
use native.Mathlib.Decide.{dec_lt}

-- A loop of `encodeCopyOperation` over the bytes of a value: the code and the bytes so far.
-- The mask of a byte in the code and its shift are those that the decoder uses.
unfoldable pub encode_fields : List (ℕ × ℕ) → ℕ → ℕ → Bytes → ℕ × Bytes
encode_fields [] value code opcodes = (code, opcodes)
encode_fields ((mask, shift) ∷ fields) value code opcodes =
    let part = bit_and value (0xff * 2 ^ shift) in
    encode_fields fields value (if part == 0 then code else bit_or code mask)
      (if part == 0 then opcodes else opcodes ++ (part / 2 ^ shift % 256) ∷ [])

unfoldable pub encode_copy_operation : ℕ → ℕ → Bytes
encode_copy_operation offset length' =
    let (code, opcodes) = encode_fields offsets offset 0x80 [] in
    let (code', opcodes') = encode_fields sizes length' code opcodes in (code' % 256) ∷ opcodes'

pub insert_shrinks : (s : ℕ) → 127 < s → s - 127 < s
insert_shrinks s h = omega arith

-- The loop of `encodeInsertOperation`: `s` bytes of `b` from `o` on are left.
unfoldable pub insert_loop : (s : ℕ) → ℕ → Bytes → Bytes → Acc ◌<◌ s → Bytes
insert_loop s o b buf (Acc.intro _ smaller) =
    dite (dec_lt 127 s)
      (λ more.
        insert_loop (s - 127) (o + 127) b (buf ++ 127 ∷ take 127 (drop o b))
          (smaller _ (insert_shrinks s more)))
      (λ _. buf ++ (s % 256) ∷ take s (drop o b))

-- What `encodeInsertOperation` leaves in `buf`; it empties `ibuf`.
unfoldable pub encode_insert_operation : Bytes → Bytes → Bytes
encode_insert_operation ibuf buf =
    if length ibuf == 0
    then buf
    else insert_loop (length ibuf) 0 ibuf buf (lt_wf.apply (length ibuf))
