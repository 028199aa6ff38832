-- ===== src/Prelude/Digits.antt =====
-- `bit_and` and `bit_or` by the lowest digit: what they stand for is a count of digits, which is
-- forgotten here.
use Prim.Native.Nat.{
  ℕ, zero, suc, ◌+◌, ◌-◌, ◌*◌, ◌/◌, ◌%◌, ◌≤◌, max, min, bit_and, bit_or, bit_xor, digits, differ,
  bit_or-bitwise, bit_xor-bitwise, bit_and-bitwise,
}
use mathlib.Core.Path.{◌≡◌, refl, ap, sym, ◌∙◌}
use native.Mathlib.Omega.{arith}

module _ (z : ℕ → ℕ) (f : ℕ → ℕ → ℕ) where
  -- Once the count covers the number, one more digit changes nothing.
  one_more : (a b n : ℕ) → a ≤ n → digits z f (suc n) a b ≡ digits z f n a b
  one_more zero b zero h = refl
  one_more zero b (suc n) h = refl
  one_more (suc a) b zero h = absurd (omega arith)
  one_more (suc a) b (suc n) h =
      let low : ℕ = f (suc a % 2) (b % 2) in
      ap (λ t. t * 2 + low) (one_more (suc a / 2) (b / 2) n (omega arith))

  many_more : (k a b : ℕ) → digits z f (k + a) a b ≡ digits z f a a b
  many_more zero a b = ap (λ n. digits z f n a b) {x = 0 + a} {y = a} (omega arith)
  many_more (suc k) a b =
      let next : suc k + a ≡ suc (k + a) = omega arith in
      ap (λ n. digits z f n a b) next ∙ one_more a b (k + a) (omega arith) ∙ many_more k a b

  lowest :
      (a b : ℕ)
      → digits z f (suc a) (suc a) b
        ≡ digits z f (suc a / 2) (suc a / 2) (b / 2) * 2 + f (suc a % 2) (b % 2)
  lowest a b =
      let half : ℕ = suc a / 2 in
      let low : ℕ = f (suc a % 2) (b % 2) in
      let spare : (a - half) + half ≡ a = omega arith in
      ap (λ n. digits z f n half (b / 2) * 2 + low) (sym spare)
      ∙ ap (λ t. t * 2 + low) (many_more (a - half) half (b / 2))

pub zero-bit_or : (y : ℕ) → bit_or 0 y ≡ y
zero-bit_or y = bit_or-bitwise 0 y

zero-bit_and : (y : ℕ) → bit_and 0 y ≡ 0
zero-bit_and y = bit_and-bitwise 0 y

pub bit_or_step : (x y : ℕ) → bit_or x y ≡ max (x % 2) (y % 2) + 2 * bit_or (x / 2) (y / 2)
bit_or_step zero y =
    let halves : bit_or 0 (y / 2) ≡ y / 2 = zero-bit_or (y / 2) in zero-bit_or y ∙ omega arith
bit_or_step (suc x) y =
    let tail : bit_or (suc x / 2) (y / 2) ≡ _ = bit_or-bitwise (suc x / 2) (y / 2) in
    bit_or-bitwise (suc x) y ∙ lowest (λ d. d) max x y ∙ omega arith

pub bit_and_step : (x y : ℕ) → bit_and x y ≡ min (x % 2) (y % 2) + 2 * bit_and (x / 2) (y / 2)
bit_and_step zero y =
    let halves : bit_and 0 (y / 2) ≡ 0 = zero-bit_and (y / 2) in zero-bit_and y ∙ omega arith
bit_and_step (suc x) y =
    let tail : bit_and (suc x / 2) (y / 2) ≡ _ = bit_and-bitwise (suc x / 2) (y / 2) in
    bit_and-bitwise (suc x) y ∙ lowest (λ d. 0) min x y ∙ omega arith

pub bit_xor_step : (x y : ℕ) → bit_xor x y ≡ differ (x % 2) (y % 2) + 2 * bit_xor (x / 2) (y / 2)
bit_xor_step zero y =
    let halves : bit_xor 0 (y / 2) ≡ y / 2 = bit_xor-bitwise 0 (y / 2) in
    bit_xor-bitwise 0 y ∙ omega arith
bit_xor_step (suc x) y =
    let tail : bit_xor (suc x / 2) (y / 2) ≡ _ = bit_xor-bitwise (suc x / 2) (y / 2) in
    bit_xor-bitwise (suc x) y ∙ lowest (λ d. d) differ x y ∙ omega arith

-- No digit is left of a number once it is halved often enough.
vanishes : (n a : ℕ) → a ≤ n → bit_and a 0 ≡ 0
vanishes zero a h =
    let none_left : a ≡ 0 = omega arith in ap (λ t. bit_and t 0) none_left ∙ zero-bit_and 0
vanishes (suc n) zero h = zero-bit_and 0
vanishes (suc n) (suc a) h =
    omega (arith, bit_and_step (suc a) 0, vanishes n (suc a / 2) (omega arith))

pub bit_and-zero : (a : ℕ) → bit_and a 0 ≡ 0
bit_and-zero a = vanishes a a (omega arith)
