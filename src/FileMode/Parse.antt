-- ===== src/FileMode/Parse.antt =====
-- Octal modes, read and printed.
use go_git.Prelude.{
  ℕ, zero, suc, ◌+◌, ◌-◌, ◌*◌, ◌/◌, ◌%◌, ◌^◌, ◌≤◌, ◌<◌, ◌≡◌, refl, sym, ap, ◌∙◌, inl, inr, bit_or,
  arith, [], ◌∷◌, true, false, ◌||◌, ltb, ◌==◌, length, Option, none, some, Bool-cases, ltb→lt,
}
use go_git.Prelude.Bits.{bit_or_disjoint, bit_or_comm}
use go_git.Prelude.Text.{Bytes}
use go_git.Prelude.Result.{Result, ok, err}
use native.Mathlib.Nat.{pow-suc}
use go_git.FileMode.{
  Error, max_uint32, parse_octal_loop, parse_octal, new, from_bytes_loop, from_bytes, octal_digits,
  pad_zeros, string,
}

-- Three bits added below.
shift_in : (n d : ℕ) → n ≤ max_uint32 / 8 → d < 8 → bit_or (n * 8 % 2 ^ 32) d ≡ n * 8 + d
shift_in n d hn hd =
    let wide : n * 8 % 2 ^ 32 ≡ n * 2 ^ 3 = omega arith in
    ap (λ t. bit_or t d) wide ∙ bit_or_comm (n * 2 ^ 3) d ∙ bit_or_disjoint 3 d n hd ∙ omega arith

-- One octal digit more.
from_digit :
    (d : ℕ) (b : Bytes) (n : ℕ)
    → d < 8
    → n ≤ max_uint32 / 8
    → from_bytes_loop ((48 + d) ∷ b) n ≡ from_bytes_loop b (n * 8 + d)
unfolding from_bytes_loop
from_digit d b n hd hn =
    let digit : (48 + d) - 48 ≡ d = omega arith in
    let low : ltb (48 + d) 48 ≡ false = ground arith in
    let high : ltb 55 (48 + d) ≡ false = ground arith in
    let fits : ltb (max_uint32 / 8) n ≡ false = ground arith in
    rw (low) (rw (high) (rw (fits) (rw (digit) (ap (from_bytes_loop b) (shift_in n d hn hd)))))

from_digits :
    (fuel n : ℕ) (acc : Bytes)
    → n ≤ max_uint32
    → n < 8 ^ fuel
    → from_bytes_loop (octal_digits fuel n acc) 0 ≡ from_bytes_loop acc n
unfolding octal_digits
from_digits zero n acc h small = ap (from_bytes_loop acc) (omega arith)
from_digits (suc fuel) n acc h small = elim (Bool-cases (ltb n 8)) [
  | inl one ↦
      let d : ℕ = n % 8 in
      let below : n < 8 = ltb→lt n 8 one in
      rw (one)
        (from_digit d acc 0 (omega arith) (omega arith) ∙ ap (from_bytes_loop acc) (omega arith))
  | inr more ↦
      let d : ℕ = n % 8 in
      let power : 8 ^ suc fuel ≡ 8 * 8 ^ fuel = rw pow-suc (omega arith) in
      rw (more) (
        from_digits fuel (n / 8) ((48 + d) ∷ acc) (omega arith) (omega arith)
        ∙ from_digit d acc (n / 8) (omega arith) (omega arith)
        ∙ ap (from_bytes_loop acc) (omega arith))
]

from_none : (m : ℕ) → from_bytes_loop [] m ≡ ok m
unfolding from_bytes_loop
from_none m = refl

from_padded : (k : ℕ) (b : Bytes) → from_bytes_loop (pad_zeros k b) 0 ≡ from_bytes_loop b 0
unfolding pad_zeros
from_padded zero b = refl
from_padded (suc k) b = from_digit 0 (pad_zeros k b) 0 (omega arith) (omega arith) ∙ from_padded k b

-- What FromBytes does on more than no bytes.
from_bytes-suc : (b : Bytes) → 0 < length b → from_bytes b ≡ from_bytes_loop b 0
unfolding from_bytes
from_bytes-suc [] h = absurd (omega arith)
from_bytes-suc (c ∷ b) h = let more : (suc (length b) == 0) ≡ false = ground arith in rw (more) refl

length-pad_zeros : (k : ℕ) (b : Bytes) → length (pad_zeros k b) ≡ k + length b
unfolding pad_zeros
length-pad_zeros zero b = omega arith
length-pad_zeros (suc k) b = omega (arith, length-pad_zeros k b)

-- FromBytes reads back what String printed, for every mode of 32 bits.
pub from_bytes-string : (m : ℕ) → m < 2 ^ 32 → from_bytes (string m) ≡ ok m
unfolding string
from_bytes-string m h =
    let digits : Bytes = octal_digits 11 m [] in
    let seven : 0 < length (pad_zeros (7 - length digits) digits) =
      omega (arith, length-pad_zeros (7 - length digits) digits) in
    from_bytes-suc (pad_zeros (7 - length digits) digits) seven
    ∙ from_padded (7 - length digits) digits
    ∙ from_digits 11 m [] (omega arith) (omega arith)
    ∙ from_none m

-- The value, if there is one.
unfoldable pub value : Result Error ℕ → Option ℕ
value (ok m) = some m
value (err e) = none

loops_agree :
    (s : Bytes) (n : ℕ)
    → n ≤ max_uint32
    → value (parse_octal_loop s n) ≡ value (from_bytes_loop s n)
unfolding value parse_octal_loop from_bytes_loop
loops_agree [] n h = refl
loops_agree (c ∷ s) n h = elim (Bool-cases (ltb c 48 || ltb 55 c)) [
  | inl bad ↦ rw (bad) refl
  | inr digit ↦ elim (Bool-cases (ltb (max_uint32 / 8) n)) [
    | inl wide ↦
        let small : ltb n (2 ^ 64 / 8) ≡ true = ground arith in
        let over : ltb ((n * 8 % 2 ^ 64 + (c - 48)) % 2 ^ 64) (n * 8 % 2 ^ 64)
              || ltb max_uint32 ((n * 8 % 2 ^ 64 + (c - 48)) % 2 ^ 64)
            ≡ true =
          ground arith in
        rw (digit) (rw (wide) (rw (small) (rw (over) refl)))
    | inr fits ↦
        let n1 : ℕ = (n * 8 % 2 ^ 64 + (c - 48)) % 2 ^ 64 in
        let small : ltb n (2 ^ 64 / 8) ≡ true = ground arith in
        let under : ltb n1 (n * 8 % 2 ^ 64) || ltb max_uint32 n1 ≡ false = ground arith in
        let sum : bit_or (n * 8 % 2 ^ 32) (c - 48) ≡ n1 =
          shift_in n (c - 48) (ground arith) (ground arith) ∙ ground arith in
        rw (digit)
          (rw (fits) (rw (small) (rw (under) (rw (sum) (loops_agree s n1 (ground arith))))))
  ]
]

-- New and FromBytes accept the same texts, with the same mode.
pub new-from_bytes : (s : Bytes) → value (new s) ≡ value (from_bytes s)
unfolding value new parse_octal from_bytes
new-from_bytes [] = refl
new-from_bytes (c ∷ s) =
    loops_agree (c ∷ s) 0 (omega arith) ∙ ap value (sym (from_bytes-suc (c ∷ s) (omega arith)))
