-- ===== src/Delta/CopyRead.antt =====
-- The decoder of patch_delta.go reads what the encoder of diff_delta.go writes.
use go_git.Prelude.{
  ℕ, zero, suc, ◌+◌, ◌*◌, ◌^◌, ◌<◌, ◌≤◌, bit_and, bit_or, arith, ◌≡◌, refl, ap, ◌∙◌, List, [], ◌∷◌,
  ◌++◌, true, false, ◌==◌, append_assoc,
}
use go_git.Prelude.Text.{Bytes}
use go_git.Prelude.Bits.{bit_or_disjoint}
use go_git.Prelude.Masks.{and_1, and_2, and_4, and_8, and_16, and_32, and_64, and_128}
use go_git.Prelude.Result.{ok}
use go_git.Delta.{offsets, sizes, decode_fields, decode_offset, decode_size, is_copy_from_src}
use go_git.Delta.CopyOp.{
  digit, flag, byte_of, byte_of-suc, flag-le, copy_command, offset_bytes, size_bytes,
}

-- A field of the decoder, whose byte is present exactly where its bit is set.
decode_step :
    (m s x : ℕ) (fields : List (ℕ × ℕ)) (cmd : ℕ) (rest : Bytes) (acc : ℕ)
    → bit_and cmd m ≡ flag x * m
    → 0 < m
    → acc < 2 ^ s
    → decode_fields ((m, s) ∷ fields) cmd (byte_of x ++ rest) acc
      ≡ decode_fields fields cmd rest (acc + x * 2 ^ s)
unfolding decode_fields
decode_step m s zero fields cmd [] acc hb hm ha =
    let e : acc + 0 * 2 ^ s ≡ acc = omega arith in rw e (ground arith)
decode_step m s zero fields cmd (b ∷ rest) acc hb hm ha =
    let e : acc + 0 * 2 ^ s ≡ acc = omega arith in rw e (ground arith)
decode_step m s (suc x) fields cmd rest acc hb hm ha =
    let set : (bit_and cmd m == 0) ≡ false = ground arith in
    let sum : bit_or acc (suc x * 2 ^ s) ≡ acc + suc x * 2 ^ s = bit_or_disjoint s acc (suc x) ha in
    ap (λ t. decode_fields ((m, s) ∷ fields) cmd (t ++ rest) acc) (byte_of-suc x)
    ∙ rw (set, decode_fields) (ap (decode_fields fields cmd rest) sum)

command_bit :
    (o l : ℕ)
    → let c = copy_command o l in
      (bit_and c 1 ≡ flag (digit o 0) * 1)
      × (bit_and c 2 ≡ flag (digit o 8) * 2)
      × (bit_and c 4 ≡ flag (digit o 16) * 4)
      × (bit_and c 8 ≡ flag (digit o 24) * 8)
      × (bit_and c 16 ≡ flag (digit l 0) * 16)
      × (bit_and c 32 ≡ flag (digit l 8) * 32)
      × (bit_and c 64 ≡ flag (digit l 16) * 64)
      × (bit_and c 128 ≡ 128)
command_bit o l =
    by_flags (flag (digit o 0)) (flag (digit o 8)) (flag (digit o 16)) (flag (digit o 24))
      (flag (digit l 0)) (flag (digit l 8)) (flag (digit l 16)) (flag-le (digit o 0))
      (flag-le (digit o 8)) (flag-le (digit o 16)) (flag-le (digit o 24)) (flag-le (digit l 0))
      (flag-le (digit l 8)) (flag-le (digit l 16))
  where
    by_flags :
        (f0 f1 f2 f3 f4 f5 f6 : ℕ)
        → f0 ≤ 1
        → f1 ≤ 1
        → f2 ≤ 1
        → f3 ≤ 1
        → f4 ≤ 1
        → f5 ≤ 1
        → f6 ≤ 1
        → let c = 128 + f0 * 1 + f1 * 2 + f2 * 4 + f3 * 8 + f4 * 16 + f5 * 32 + f6 * 64 in
          (bit_and c 1 ≡ f0 * 1)
          × (bit_and c 2 ≡ f1 * 2)
          × (bit_and c 4 ≡ f2 * 4)
          × (bit_and c 8 ≡ f3 * 8)
          × (bit_and c 16 ≡ f4 * 16)
          × (bit_and c 32 ≡ f5 * 32)
          × (bit_and c 64 ≡ f6 * 64)
          × (bit_and c 128 ≡ 128)
    by_flags f0 f1 f2 f3 f4 f5 f6 h0 h1 h2 h3 h4 h5 h6 =
        let c : ℕ = 128 + f0 * 1 + f1 * 2 + f2 * 4 + f3 * 8 + f4 * 16 + f5 * 32 + f6 * 64 in
        let small : c < 256 = omega arith in
        (
          omega (arith, and_1 c small),
          omega (arith, and_2 c small),
          omega (arith, and_4 c small),
          omega (arith, and_8 c small),
          omega (arith, and_16 c small),
          omega (arith, and_32 c small),
          omega (arith, and_64 c small),
          omega (arith, and_128 c small),
        )

pub copy_command-IsCopy : (o l : ℕ) → is_copy_from_src (copy_command o l) ≡ true
unfolding is_copy_from_src
copy_command-IsCopy o l = let (_, _, _, _, _, _, _, b7) = command_bit o l in rw b7 refl

decode_done : (cmd acc : ℕ) (rest : Bytes) → decode_fields [] cmd rest acc ≡ ok (acc, rest)
unfolding decode_fields
decode_done cmd acc rest = refl

regroup_offset :
    (a b c d rest : Bytes) → (a ++ (b ++ (c ++ d))) ++ rest ≡ a ++ (b ++ (c ++ (d ++ rest)))
regroup_offset a b c d rest = simp append_assoc

regroup_size : (a b c rest : Bytes) → (a ++ (b ++ c)) ++ rest ≡ a ++ (b ++ (c ++ rest))
regroup_size a b c rest = simp append_assoc

digits_four :
    (o : ℕ)
    → o < 2 ^ 32
    → 0 + digit o 0 * 2 ^ 0 + digit o 8 * 2 ^ 8 + digit o 16 * 2 ^ 16 + digit o 24 * 2 ^ 24 ≡ o
digits_four o h = omega arith

digits_three :
    (l : ℕ) → l < 2 ^ 24 → 0 + digit l 0 * 2 ^ 0 + digit l 8 * 2 ^ 8 + digit l 16 * 2 ^ 16 ≡ l
digits_three l h = omega arith

-- The decoder reads back the offset of a copy operation, and stops before the bytes of the size.
pub decode_offset-encode :
    (o l : ℕ) (rest : Bytes)
    → o < 2 ^ 32
    → decode_offset (copy_command o l) (offset_bytes o ++ rest) ≡ ok (o, rest)
unfolding decode_offset
decode_offset-encode o l rest h =
    let (b0, b1, b2, b3, _, _, _, _) = command_bit o l in
    let c : ℕ = copy_command o l in
    ap (λ t. decode_fields offsets c t 0)
      (regroup_offset (byte_of (digit o 0)) (byte_of (digit o 8)) (byte_of (digit o 16))
        (byte_of (digit o 24)) rest)
    ∙ decode_step 1 0 (digit o 0) _ c _ 0 b0 (omega arith) (omega arith)
    ∙ decode_step 2 8 (digit o 8) _ c _ _ b1 (omega arith) (omega arith)
    ∙ decode_step 4 16 (digit o 16) _ c _ _ b2 (omega arith) (omega arith)
    ∙ decode_step 8 24 (digit o 24) [] c rest _ b3 (omega arith) (omega arith)
    ∙ decode_done c _ rest
    ∙ ap (λ t. ok (t, rest)) (digits_four o h)

pub decode_size-encode :
    (o l : ℕ) (rest : Bytes)
    → 0 < l
    → l < 2 ^ 24
    → decode_size (copy_command o l) (size_bytes l ++ rest) ≡ ok (l, rest)
unfolding decode_size
decode_size-encode o l rest pos h =
    let (_, _, _, _, b4, b5, b6, _) = command_bit o l in
    let c : ℕ = copy_command o l in
    let fields : decode_fields sizes c (size_bytes l ++ rest) 0 ≡ ok (l, rest) =
      ap (λ t. decode_fields sizes c t 0)
        (regroup_size (byte_of (digit l 0)) (byte_of (digit l 8)) (byte_of (digit l 16)) rest)
      ∙ decode_step 16 0 (digit l 0) _ c _ 0 b4 (omega arith) (omega arith)
      ∙ decode_step 32 8 (digit l 8) _ c _ _ b5 (omega arith) (omega arith)
      ∙ decode_step 64 16 (digit l 16) [] c rest _ b6 (omega arith) (omega arith)
      ∙ decode_done c _ rest
      ∙ ap (λ t. ok (t, rest)) (digits_three l h) in
    rw fields (ground arith)
