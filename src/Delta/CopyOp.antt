-- ===== src/Delta/CopyOp.antt =====
-- What `encodeCopyOperation` of diff_delta.go writes.
use go_git.Prelude.{
  ℕ, zero, suc, ◌+◌, ◌*◌, ◌/◌, ◌%◌, ◌^◌, ◌<◌, ◌≤◌, bit_and, bit_or, arith, ◌≡◌, refl, sym, ap, ap₂,
  ◌∙◌, List, [], ◌∷◌, ◌++◌, false, ◌==◌, if◌then◌else◌, append_assoc, append-nil,
}
use go_git.Prelude.Text.{Bytes}
use go_git.Prelude.Bits.{bit_and_mask, bit_and_shift}
use go_git.Prelude.Masks.{or_2, or_4, or_8, or_16, or_32, or_64}
use go_git.Delta.{offsets, sizes}
use go_git.Delta.Encode.{encode_fields, encode_copy_operation}
use native.Mathlib.Nat.{mod-eq_of_lt, mul-div_cancel, pow-le-pow_right, mul-le-mul_right}

-- The byte of `value` at a shift, whether it is written, and what is written.
abbrev pub digit : ℕ → ℕ → ℕ
digit value s = value / 2 ^ s % 256

abbrev pub flag : ℕ → ℕ
flag x = if x == 0 then 0 else 1

abbrev pub byte_of : ℕ → Bytes
byte_of x = if x == 0 then [] else x ∷ []

part-digit : (value s : ℕ) → bit_and value (255 * 2 ^ s) ≡ digit value s * 2 ^ s
part-digit value s =
    bit_and_shift s value 255 ∙ ap (λ t. t * 2 ^ s) (bit_and_mask 8 (value / 2 ^ s))

pow_pos : (s : ℕ) → 1 ≤ 2 ^ s
pow_pos s = pow-le-pow_right {n = 2} (omega arith) {i = 0} (omega arith)

pub byte_of-suc : (d : ℕ) → byte_of (suc d) ≡ suc d ∷ []
byte_of-suc d = ground arith

encode_with :
    (d s m : ℕ) (fields : List (ℕ × ℕ)) (value code part : ℕ) (opcodes : Bytes)
    → part ≡ d * 2 ^ s
    → d < 256
    → bit_or code m ≡ code + m
    → encode_fields fields value
        (if part == 0 then code else bit_or code m)
        (if part == 0 then opcodes else opcodes ++ (part / 2 ^ s % 256) ∷ [])
      ≡ encode_fields fields value (code + flag d * m) (opcodes ++ byte_of d)
encode_with zero s m fields value code part opcodes e hd hm =
    let z : part ≡ 0 = omega arith in
    rw z (ap₂ (encode_fields fields value) (omega arith) (sym (append-nil opcodes)))
encode_with (suc d) s m fields value code part opcodes e hd hm =
    let pos : (part == 0) ≡ false =
      ground (arith, pow_pos s, mul-le-mul_right {m = 1} {n = suc d} (2 ^ s)) in
    let low : part / 2 ^ s % 256 ≡ suc d =
      ap (λ t. t / 2 ^ s % 256) e
      ∙ ap (λ t. t % 256) (mul-div_cancel (suc d) (pow_pos s))
      ∙ omega arith in
    let one : code + flag (suc d) * m ≡ code + m = ground arith in
    rw pos (
      ap₂ (encode_fields fields value) (hm ∙ sym one)
        (ap (λ t. opcodes ++ t ∷ []) low ∙ ap (λ t. opcodes ++ t) (sym (byte_of-suc d))))

encode_step :
    (m s : ℕ) (fields : List (ℕ × ℕ)) (value code : ℕ) (opcodes : Bytes)
    → bit_or code m ≡ code + m
    → encode_fields ((m, s) ∷ fields) value code opcodes
      ≡ encode_fields fields value
          (code + flag (digit value s) * m)
          (opcodes ++ byte_of (digit value s))
unfolding encode_fields
encode_step m s fields value code opcodes hm =
    encode_with (digit value s) s m fields value code _ opcodes (part-digit value s) (omega arith)
      hm

-- The code after the bytes of an offset, and after those of a size.
abbrev pub offset_code : ℕ → ℕ
offset_code o =
    128
    + flag (digit o 0) * 1
    + flag (digit o 8) * 2
    + flag (digit o 16) * 4
    + flag (digit o 24) * 8

abbrev pub copy_command : ℕ → ℕ → ℕ
copy_command o l =
    offset_code o + flag (digit l 0) * 16 + flag (digit l 8) * 32 + flag (digit l 16) * 64

abbrev pub offset_bytes : ℕ → Bytes
offset_bytes o =
    byte_of (digit o 0) ++ (byte_of (digit o 8) ++ (byte_of (digit o 16) ++ byte_of (digit o 24)))

abbrev pub size_bytes : ℕ → Bytes
size_bytes l = byte_of (digit l 0) ++ (byte_of (digit l 8) ++ byte_of (digit l 16))

pub flag-le : (x : ℕ) → flag x ≤ 1
flag-le x = ground arith

regroup_four : (a b c d : Bytes) → ((([] ++ a) ++ b) ++ c) ++ d ≡ a ++ (b ++ (c ++ d))
regroup_four a b c d = simp append_assoc

regroup_three : (x a b c : Bytes) → ((x ++ a) ++ b) ++ c ≡ x ++ (a ++ (b ++ c))
regroup_three x a b c = simp append_assoc

-- The bits are set from the lowest up, so each `|=` adds its mask.
set_bits :
    (f0 f1 f2 f3 f4 f5 : ℕ)
    → f0 ≤ 1
    → f1 ≤ 1
    → f2 ≤ 1
    → f3 ≤ 1
    → f4 ≤ 1
    → f5 ≤ 1
    → let c1 = 128 + f0 * 1 in
      let c2 = c1 + f1 * 2 in
      let c3 = c2 + f2 * 4 in
      let c4 = c3 + f3 * 8 in
      let c5 = c4 + f4 * 16 in
      let c6 = c5 + f5 * 32 in
      (bit_or 128 1 ≡ 128 + 1)
      × (bit_or c1 2 ≡ c1 + 2)
      × (bit_or c2 4 ≡ c2 + 4)
      × (bit_or c3 8 ≡ c3 + 8)
      × (bit_or c4 16 ≡ c4 + 16)
      × (bit_or c5 32 ≡ c5 + 32)
      × (bit_or c6 64 ≡ c6 + 64)
set_bits f0 f1 f2 f3 f4 f5 h0 h1 h2 h3 h4 h5 = (
  refl,
  omega (arith, or_2 (128 + f0 * 1) (omega arith)),
  omega (arith, or_4 (128 + f0 * 1 + f1 * 2) (omega arith)),
  omega (arith, or_8 (128 + f0 * 1 + f1 * 2 + f2 * 4) (omega arith)),
  omega (arith, or_16 (128 + f0 * 1 + f1 * 2 + f2 * 4 + f3 * 8) (omega arith)),
  omega (arith, or_32 (128 + f0 * 1 + f1 * 2 + f2 * 4 + f3 * 8 + f4 * 16) (omega arith)),
  omega (arith, or_64 (128 + f0 * 1 + f1 * 2 + f2 * 4 + f3 * 8 + f4 * 16 + f5 * 32) (omega arith)),
)

copy_bits :
    (o l : ℕ)
    → let c1 = 128 + flag (digit o 0) * 1 in
      let c2 = c1 + flag (digit o 8) * 2 in
      let c3 = c2 + flag (digit o 16) * 4 in
      let c4 = c3 + flag (digit o 24) * 8 in
      let c5 = c4 + flag (digit l 0) * 16 in
      let c6 = c5 + flag (digit l 8) * 32 in
      (bit_or 128 1 ≡ 128 + 1)
      × (bit_or c1 2 ≡ c1 + 2)
      × (bit_or c2 4 ≡ c2 + 4)
      × (bit_or c3 8 ≡ c3 + 8)
      × (bit_or c4 16 ≡ c4 + 16)
      × (bit_or c5 32 ≡ c5 + 32)
      × (bit_or c6 64 ≡ c6 + 64)
copy_bits o l =
    set_bits _ _ _ _ _ _ (flag-le (digit o 0)) (flag-le (digit o 8)) (flag-le (digit o 16))
      (flag-le (digit o 24)) (flag-le (digit l 0)) (flag-le (digit l 8))

encode_done :
    (value code : ℕ) (opcodes : Bytes) → encode_fields [] value code opcodes ≡ (code, opcodes)
unfolding encode_fields
encode_done value code opcodes = refl

encode_offset : (o l : ℕ) → encode_fields offsets o 128 [] ≡ (offset_code o, offset_bytes o)
encode_offset o l =
    let (b0, b1, b2, b3, _, _, _) = copy_bits o l in
    encode_step 1 0 _ o 128 [] b0
    ∙ encode_step 2 8 _ o _ _ b1
    ∙ encode_step 4 16 _ o _ _ b2
    ∙ encode_step 8 24 [] o _ _ b3
    ∙ encode_done o _ _
    ∙ ap (λ t. (offset_code o, t))
        (regroup_four (byte_of (digit o 0)) (byte_of (digit o 8)) (byte_of (digit o 16))
          (byte_of (digit o 24)))

encode_size :
    (o l : ℕ) (front : Bytes)
    → encode_fields sizes l (offset_code o) front ≡ (copy_command o l, front ++ size_bytes l)
encode_size o l front =
    let (_, _, _, _, b4, b5, b6) = copy_bits o l in
    encode_step 16 0 _ l (offset_code o) front b4
    ∙ encode_step 32 8 _ l _ _ b5
    ∙ encode_step 64 16 [] l _ _ b6
    ∙ encode_done l _ _
    ∙ ap (λ t. (copy_command o l, t))
        (regroup_three front (byte_of (digit l 0)) (byte_of (digit l 8)) (byte_of (digit l 16)))

flags : (o l : ℕ) → copy_command o l < 256
flags o l = omega (
  arith,
  flag-le (digit o 0),
  flag-le (digit o 8),
  flag-le (digit o 16),
  flag-le (digit o 24),
  flag-le (digit l 0),
  flag-le (digit l 8),
  flag-le (digit l 16),
)

-- What `encodeCopyOperation` writes.
pub encode_copy-shape :
    (o l : ℕ) → encode_copy_operation o l ≡ copy_command o l ∷ (offset_bytes o ++ size_bytes l)
unfolding encode_copy_operation
encode_copy-shape o l = rw (encode_offset o l) (
    rw (encode_size o l (offset_bytes o))
      (ap (λ t. t ∷ (offset_bytes o ++ size_bytes l)) (mod-eq_of_lt (flags o l))))
