-- ===== src/Pktline/Length.antt =====
-- The four hexadecimal digits in front of a packet line.
use go_git.Prelude.{
  ℕ, suc, ◌+◌, ◌*◌, ◌/◌, ◌%◌, ◌^◌, ◌<◌, ◌≡◌, refl, ap, ◌∙◌, bit_and, arith, [], ◌∷◌, ◌++◌, false,
  ◌||◌, ltb, ◌==◌, if◌then◌else◌, length,
}
use go_git.Prelude.Bits.{bit_and_mask, bit_and_shift}
use go_git.Prelude.Text.{Bytes}
use go_git.Prelude.Result.{ok, err}
use go_git.Pktline.{
  invalid_pkt_len, max_size, ascii_hex_to_byte, byte_to_ascii_hex, ascii_hex16, hex_digit, hex_loop,
  hex_decode, parse_length,
}

digit-hex : (d : ℕ) → d < 16 → ascii_hex_to_byte (byte_to_ascii_hex d) ≡ ok d
unfolding ascii_hex_to_byte byte_to_ascii_hex
digit-hex d h = ground arith

-- The four bits above the `k` lowest.
nibble : (k n : ℕ) → bit_and n (15 * 2 ^ k) ≡ n / 2 ^ k % 16 * 2 ^ k
nibble k n = bit_and_shift k n 15 ∙ ap (λ t. t * 2 ^ k) (bit_and_mask 4 (n / 2 ^ k))

hex16-digits :
    (n : ℕ)
    → ascii_hex16 n
      ≡ byte_to_ascii_hex (n / 2 ^ 12 % 16)
        ∷ byte_to_ascii_hex (n / 2 ^ 8 % 16)
        ∷ byte_to_ascii_hex (n / 2 ^ 4 % 16)
        ∷ byte_to_ascii_hex (n % 16)
        ∷ []
unfolding ascii_hex16
hex16-digits n =
    let a : bit_and n 0xf000 / 2 ^ 12 ≡ n / 2 ^ 12 % 16 = omega (arith, nibble 12 n) in
    let b : bit_and n 0x0f00 / 2 ^ 8 ≡ n / 2 ^ 8 % 16 = omega (arith, nibble 8 n) in
    let c : bit_and n 0x00f0 / 2 ^ 4 ≡ n / 2 ^ 4 % 16 = omega (arith, nibble 4 n) in
    let d : bit_and n 0x000f ≡ n % 16 = bit_and_mask 4 n in rw (a) (rw (b) (rw (c) (rw (d) refl)))

pub length-hex16 : (n : ℕ) → length (ascii_hex16 n) ≡ 4
unfolding ascii_hex16
length-hex16 n = refl

-- One digit more.
hex_loop_step :
    (i d ret : ℕ) (r : Bytes)
    → d < 16
    → hex_loop (suc i) (byte_to_ascii_hex d ∷ r) ret ≡ hex_loop i r (16 * ret + d)
unfolding hex_loop hex_digit
hex_loop_step i d ret r h = ap (hex_digit (hex_loop i r) ret) (digit-hex d h)

hex_loop_end : (r : Bytes) (ret : ℕ) → hex_loop 0 r ret ≡ ok ret
unfolding hex_loop
hex_loop_end r ret = refl

hex_loop-digits :
    (a b c d : ℕ) (r : Bytes)
    → a < 16
    → b < 16
    → c < 16
    → d < 16
    → hex_loop 4
        (byte_to_ascii_hex a ∷ byte_to_ascii_hex b ∷ byte_to_ascii_hex c ∷ byte_to_ascii_hex d ∷ r)
        0
      ≡ ok (16 * (16 * (16 * (16 * 0 + a) + b) + c) + d)
hex_loop-digits a b c d r ha hb hc hd =
    hex_loop_step 3 a 0 (byte_to_ascii_hex b ∷ byte_to_ascii_hex c ∷ byte_to_ascii_hex d ∷ r) ha
    ∙ hex_loop_step 2 b (16 * 0 + a) (byte_to_ascii_hex c ∷ byte_to_ascii_hex d ∷ r) hb
    ∙ hex_loop_step 1 c (16 * (16 * 0 + a) + b) (byte_to_ascii_hex d ∷ r) hc
    ∙ hex_loop_step 0 d (16 * (16 * (16 * 0 + a) + b) + c) r hd
    ∙ hex_loop_end r (16 * (16 * (16 * (16 * 0 + a) + b) + c) + d)

hex_decode-hex16 : (n : ℕ) (r : Bytes) → n < 65536 → hex_decode (ascii_hex16 n ++ r) ≡ ok n
unfolding hex_decode
hex_decode-hex16 n r h =
    let whole : ltb (suc (suc (suc (suc (length r))))) 4 ≡ false = ground arith in
    rw (hex16-digits n) (
      rw (whole) (
        hex_loop-digits (n / 2 ^ 12 % 16) (n / 2 ^ 8 % 16) (n / 2 ^ 4 % 16) (n % 16) r (omega arith)
          (omega arith) (omega arith) (omega arith)
        ∙ ap ok (omega arith)))

-- ParseLength reads the length that asciiHex16 wrote, below 2^16, whatever follows, and refuses 3
-- and the lengths over MaxSize.
pub parse_length-hex16 :
    (n : ℕ) (r : Bytes)
    → n < 65536
    → parse_length (ascii_hex16 n ++ r)
      ≡ (if n == 3 || ltb max_size n then err invalid_pkt_len else ok n)
unfolding parse_length
parse_length-hex16 n r h = rw (hex_decode-hex16 n r h) (ground arith)
