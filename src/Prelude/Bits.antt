-- ===== src/Prelude/Bits.antt =====
-- Facts about `bit_and` and `bit_or`: laws by the lowest digit, and tables over a byte.
use Prim.Native.Nat.{ℕ, zero, suc, ◌+◌, ◌-◌, ◌*◌, ◌/◌, ◌%◌, ◌^◌, ◌≤◌, ◌<◌, bit_and, bit_or}
use mathlib.Core.Path.{◌≡◌, refl, ap, ap₂, sym, ◌∙◌}
use mathlib.Core.Bool.{Bool, true, ◌&&◌}
use native.Mathlib.Omega.{arith}
use native.Mathlib.Nat.{pow-suc, mul_comm, div-div-eq-div-mul, div-add-mod}
use go_git.Prelude.Tests.{◌==◌}
use go_git.Prelude.Digits.{bit_or_step, zero-bit_or, bit_and_step, bit_and-zero}

-- Whether two functions agree on every value below a bound, by evaluation.
unfoldable pub agree_below : (ℕ → ℕ) → (ℕ → ℕ) → ℕ → Bool
agree_below f g zero = true
agree_below f g (suc n) = (f n == g n) && agree_below f g n

pub agree : (n : ℕ) (f g : ℕ → ℕ) → agree_below f g n ≡ true → (x : ℕ) → x < n → f x ≡ g x
unfolding agree_below
agree zero f g h x below = absurd (omega arith)
agree (suc n) f g h x below = ground (arith, agree n f g (ground arith) x)

pub low_seven : (b : ℕ) → b < 256 → bit_and b 127 ≡ b % 128
unfolding agree_below
low_seven = agree 256 (λ b. bit_and b 127) (λ b. b % 128) refl

pub top_bit : (b : ℕ) → b < 256 → bit_and b 128 ≡ b / 128 * 128
unfolding agree_below
top_bit = agree 256 (λ b. bit_and b 128) (λ b. b / 128 * 128) refl

pub low_four : (b : ℕ) → b < 256 → bit_and b 15 ≡ b % 16
unfolding agree_below
low_four = agree 256 (λ b. bit_and b 15) (λ b. b % 16) refl

pub set_top_bit : (b : ℕ) → b < 128 → bit_or b 128 ≡ b + 128
unfolding agree_below
set_top_bit = agree 128 (λ b. bit_or b 128) (λ b. b + 128) refl

pub set_top_bit_left : (b : ℕ) → b < 128 → bit_or 128 b ≡ b + 128
unfolding agree_below
set_top_bit_left = agree 128 (λ b. bit_or 128 b) (λ b. b + 128) refl

-- `x | (y << k)` is a sum where `x` has only the `k` low bits.
pub bit_or_disjoint : (k x y : ℕ) → x < 2 ^ k → bit_or x (y * 2 ^ k) ≡ x + y * 2 ^ k
bit_or_disjoint zero x y h = omega (arith, zero-bit_or (y * 1), zero_of x h)
  where
    zero_of : (x : ℕ) → x < 1 → bit_or x (y * 1) ≡ bit_or 0 (y * 1)
    zero_of x h = ap (λ t. bit_or t (y * 1)) (omega arith)
bit_or_disjoint (suc k) x y h =
    let e : y * 2 ^ suc k ≡ 2 * (y * 2 ^ k) = rw pow-suc (omega arith) in
    let half : bit_or (x / 2) (y * 2 ^ suc k / 2) ≡ bit_or (x / 2) (y * 2 ^ k) =
      ap (λ t. bit_or (x / 2) t) (omega arith) in
    let d : 2 ^ suc k ≡ 2 * 2 ^ k = rw pow-suc (omega arith) in
    omega (arith, bit_or_step x (y * 2 ^ suc k), half, bit_or_disjoint k (x / 2) y (omega arith))

pub pow_pos : (k : ℕ) → 1 ≤ 2 ^ k
pow_pos zero = omega arith
pow_pos (suc k) = rw pow-suc (omega (arith, pow_pos k))

pub div_double : (k a : ℕ) → a / 2 ^ suc k ≡ a / 2 / 2 ^ k
div_double k a = rw pow-suc (rw (mul_comm (2 ^ k) 2) (sym (div-div-eq-div-mul a 2 (2 ^ k))))

mod_double : (k a : ℕ) → a % 2 ^ suc k ≡ a / 2 % 2 ^ k * 2 + a % 2
mod_double k a =
    let double : 2 ^ suc k ≡ 2 * 2 ^ k = rw pow-suc (omega arith) in
    let q : ℕ = a / 2 / 2 ^ k in
    let e : 2 ^ suc k * (a / 2 ^ suc k) ≡ 2 * (2 ^ k * q) =
      ap (λ t. 2 ^ suc k * t) (div_double k a) ∙ ap (λ t. t * q) double ∙ omega arith in
    omega (arith, div-add-mod a (2 ^ suc k), div-add-mod (a / 2) (2 ^ k), e)

-- A mask of `k` ones keeps the `k` low bits.
pub bit_and_mask : (k a : ℕ) → bit_and a (2 ^ k - 1) ≡ a % 2 ^ k
bit_and_mask zero a = omega (arith, bit_and-zero a)
bit_and_mask (suc k) a =
    let double : 2 ^ suc k ≡ 2 * 2 ^ k = rw pow-suc (omega arith) in
    let halved : (2 ^ suc k - 1) / 2 ≡ 2 ^ k - 1 = omega (arith, pow_pos k) in
    let tail : bit_and (a / 2) ((2 ^ suc k - 1) / 2) ≡ a / 2 % 2 ^ k =
      ap (λ t. bit_and (a / 2) t) halved ∙ bit_and_mask k (a / 2) in
    omega (arith, pow_pos k, bit_and_step a (2 ^ suc k - 1), tail, mod_double k a)

-- A mask shifted up reads the bits above.
pub bit_and_shift : (k a m : ℕ) → bit_and a (m * 2 ^ k) ≡ bit_and (a / 2 ^ k) m * 2 ^ k
bit_and_shift zero a m =
    let e : bit_and a (m * 1) ≡ bit_and (a / 1) m = ap₂ bit_and (omega arith) (omega arith) in
    omega (arith, e)
bit_and_shift (suc k) a m =
    let double : m * 2 ^ suc k ≡ 2 * (m * 2 ^ k) = rw pow-suc (omega arith) in
    let x : ℕ = bit_and (a / 2 ^ suc k) m in
    let raised : x * 2 ^ suc k ≡ 2 * (x * 2 ^ k) = rw pow-suc (omega arith) in
    let tail : bit_and (a / 2) (m * 2 ^ suc k / 2) ≡ x * 2 ^ k =
      ap (λ t. bit_and (a / 2) t) (omega arith)
      ∙ bit_and_shift k (a / 2) m
      ∙ ap (λ t. bit_and t m * 2 ^ k) (sym (div_double k a)) in
    omega (arith, bit_and_step a (m * 2 ^ suc k), tail)

bit_or_comm_fuel : (n a b : ℕ) → a + b ≤ n → bit_or a b ≡ bit_or b a
bit_or_comm_fuel zero a b h = let ha : a ≡ b = omega arith in ap₂ bit_or ha (sym ha)
bit_or_comm_fuel (suc n) zero zero h = refl
bit_or_comm_fuel (suc n) zero (suc b) h = omega (
  arith,
  bit_or_step zero (suc b),
  bit_or_step (suc b) zero,
  bit_or_comm_fuel n 0 (suc b / 2) (omega arith),
)
bit_or_comm_fuel (suc n) (suc a) b h = omega (
  arith,
  bit_or_step (suc a) b,
  bit_or_step b (suc a),
  bit_or_comm_fuel n (suc a / 2) (b / 2) (omega arith),
)

pub bit_or_comm : (a b : ℕ) → bit_or a b ≡ bit_or b a
bit_or_comm a b = bit_or_comm_fuel (a + b) a b (omega arith)

pub type_bits : (b : ℕ) → b < 256 → bit_and b 112 ≡ b / 16 % 8 * 16
unfolding agree_below
type_bits = agree 256 (λ b. bit_and b 112) (λ b. b / 16 % 8 * 16) refl
