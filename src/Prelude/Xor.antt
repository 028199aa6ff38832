-- ===== src/Prelude/Xor.antt =====
-- Bounds on `bit_and`, `bit_or` and `bit_xor`: equal digits from some place on cancel.
use Prim.Native.Nat.{ℕ, zero, suc, ◌*◌, ◌/◌, ◌%◌, ◌^◌, ◌≤◌, ◌<◌, bit_and, bit_or, bit_xor, differ}
use mathlib.Core.Path.{◌≡◌, refl, ap, ap₂, sym, ◌∙◌}
use native.Mathlib.Omega.{arith}
use native.Mathlib.Nat.{pow-suc}
use go_git.Prelude.Digits.{bit_or_step, bit_xor_step, bit_and_step, bit_and-zero}
use go_git.Prelude.Bits.{div_double}

differ_same : (x : ℕ) → differ x x ≡ 0
differ_same zero = refl
differ_same (suc x) = differ_same x

differ_digit : (x y : ℕ) → x < 2 → y < 2 → differ x y ≤ 1
differ_digit zero y hx hy = omega arith
differ_digit (suc zero) zero hx hy = omega arith
differ_digit (suc zero) (suc zero) hx hy = omega arith
differ_digit (suc zero) (suc (suc y)) hx hy = absurd (omega arith)
differ_digit (suc (suc x)) y hx hy = absurd (omega arith)

bit_xor_same : (n x : ℕ) → x ≤ n → bit_xor x x ≡ 0
bit_xor_same zero zero h = refl
bit_xor_same zero (suc x) h = absurd (omega arith)
bit_xor_same (suc n) zero h = refl
bit_xor_same (suc n) (suc x) h = omega (
  arith,
  bit_xor_step (suc x) (suc x),
  differ_same (suc x % 2),
  bit_xor_same n (suc x / 2) (omega arith),
)

pub bit_xor_below : (k x y : ℕ) → x / 2 ^ k ≡ y / 2 ^ k → bit_xor x y < 2 ^ k
bit_xor_below zero x y h =
    let same : y ≡ x = omega arith in
    omega (arith, ap (bit_xor x) same, bit_xor_same x x (omega arith))
bit_xor_below (suc k) x y h =
    let double : 2 ^ suc k ≡ 2 * 2 ^ k = rw pow-suc (omega arith) in
    let halves : x / 2 / 2 ^ k ≡ y / 2 / 2 ^ k = sym (div_double k x) ∙ h ∙ div_double k y in
    omega (
      arith,
      bit_xor_step x y,
      differ_digit (x % 2) (y % 2) (omega arith) (omega arith),
      bit_xor_below k (x / 2) (y / 2) halves,
    )

pub bit_or_below : (k x y : ℕ) → x < 2 ^ k → y < 2 ^ k → bit_or x y < 2 ^ k
bit_or_below zero x y hx hy =
    let zero_x : x ≡ 0 = omega arith in
    let zero_y : y ≡ 0 = omega arith in omega (arith, ap₂ bit_or zero_x zero_y)
bit_or_below (suc k) x y hx hy =
    let double : 2 ^ suc k ≡ 2 * 2 ^ k = rw pow-suc (omega arith) in
    omega (arith, bit_or_step x y, bit_or_below k (x / 2) (y / 2) (omega arith) (omega arith))

bit_and_le_fuel : (n x y : ℕ) → y ≤ n → bit_and x y ≤ y
bit_and_le_fuel zero x zero h = omega (arith, bit_and-zero x)
bit_and_le_fuel zero x (suc y) h = absurd (omega arith)
bit_and_le_fuel (suc n) x zero h = omega (arith, bit_and-zero x)
bit_and_le_fuel (suc n) x (suc y) h =
    omega (arith, bit_and_step x (suc y), bit_and_le_fuel n (x / 2) (suc y / 2) (omega arith))

pub bit_and_le : (x y : ℕ) → bit_and x y ≤ y
bit_and_le x y = bit_and_le_fuel y x y (omega arith)
