-- ===== src/Prelude/Masks.antt =====
-- One bit of a byte, read and set: tables over all bytes.
use go_git.Prelude.Bits.{agree_below, agree}
use Prim.Native.Nat.{ℕ, ◌+◌, ◌-◌, ◌*◌, ◌/◌, ◌%◌, ◌<◌, bit_and, bit_or}
use mathlib.Core.Path.{◌≡◌, refl}

pub and_1 : (b : ℕ) → b < 256 → bit_and b 1 ≡ b / 1 % 2 * 1
unfolding agree_below
and_1 = agree 256 (λ b. bit_and b 1) (λ b. b / 1 % 2 * 1) refl

pub and_2 : (b : ℕ) → b < 256 → bit_and b 2 ≡ b / 2 % 2 * 2
unfolding agree_below
and_2 = agree 256 (λ b. bit_and b 2) (λ b. b / 2 % 2 * 2) refl

pub and_4 : (b : ℕ) → b < 256 → bit_and b 4 ≡ b / 4 % 2 * 4
unfolding agree_below
and_4 = agree 256 (λ b. bit_and b 4) (λ b. b / 4 % 2 * 4) refl

pub and_8 : (b : ℕ) → b < 256 → bit_and b 8 ≡ b / 8 % 2 * 8
unfolding agree_below
and_8 = agree 256 (λ b. bit_and b 8) (λ b. b / 8 % 2 * 8) refl

pub and_16 : (b : ℕ) → b < 256 → bit_and b 16 ≡ b / 16 % 2 * 16
unfolding agree_below
and_16 = agree 256 (λ b. bit_and b 16) (λ b. b / 16 % 2 * 16) refl

pub and_32 : (b : ℕ) → b < 256 → bit_and b 32 ≡ b / 32 % 2 * 32
unfolding agree_below
and_32 = agree 256 (λ b. bit_and b 32) (λ b. b / 32 % 2 * 32) refl

pub and_64 : (b : ℕ) → b < 256 → bit_and b 64 ≡ b / 64 % 2 * 64
unfolding agree_below
and_64 = agree 256 (λ b. bit_and b 64) (λ b. b / 64 % 2 * 64) refl

pub and_128 : (b : ℕ) → b < 256 → bit_and b 128 ≡ b / 128 % 2 * 128
unfolding agree_below
and_128 = agree 256 (λ b. bit_and b 128) (λ b. b / 128 % 2 * 128) refl

pub or_1 : (b : ℕ) → b < 256 → bit_or b 1 ≡ b + (1 - b / 1 % 2) * 1
unfolding agree_below
or_1 = agree 256 (λ b. bit_or b 1) (λ b. b + (1 - b / 1 % 2) * 1) refl

pub or_2 : (b : ℕ) → b < 256 → bit_or b 2 ≡ b + (1 - b / 2 % 2) * 2
unfolding agree_below
or_2 = agree 256 (λ b. bit_or b 2) (λ b. b + (1 - b / 2 % 2) * 2) refl

pub or_4 : (b : ℕ) → b < 256 → bit_or b 4 ≡ b + (1 - b / 4 % 2) * 4
unfolding agree_below
or_4 = agree 256 (λ b. bit_or b 4) (λ b. b + (1 - b / 4 % 2) * 4) refl

pub or_8 : (b : ℕ) → b < 256 → bit_or b 8 ≡ b + (1 - b / 8 % 2) * 8
unfolding agree_below
or_8 = agree 256 (λ b. bit_or b 8) (λ b. b + (1 - b / 8 % 2) * 8) refl

pub or_16 : (b : ℕ) → b < 256 → bit_or b 16 ≡ b + (1 - b / 16 % 2) * 16
unfolding agree_below
or_16 = agree 256 (λ b. bit_or b 16) (λ b. b + (1 - b / 16 % 2) * 16) refl

pub or_32 : (b : ℕ) → b < 256 → bit_or b 32 ≡ b + (1 - b / 32 % 2) * 32
unfolding agree_below
or_32 = agree 256 (λ b. bit_or b 32) (λ b. b + (1 - b / 32 % 2) * 32) refl

pub or_64 : (b : ℕ) → b < 256 → bit_or b 64 ≡ b + (1 - b / 64 % 2) * 64
unfolding agree_below
or_64 = agree 256 (λ b. bit_or b 64) (λ b. b + (1 - b / 64 % 2) * 64) refl
