-- ===== src/Prelude/BitTest.antt =====
-- One bit of a word, tested by a mask: what it is in a union, a cut, a complement and a run of ones.
use Prim.Native.Nat.{
  ℕ, zero, suc, ◌+◌, ◌-◌, ◌*◌, ◌/◌, ◌%◌, ◌^◌, ◌≤◌, ◌<◌, bit_and, bit_or, max, min,
}
use mathlib.Core.Path.{◌≡◌, refl, ap, ap₂, sym, ◌∙◌}
use mathlib.Core.Logic.{◌⊎◌, inl, inr}
use mathlib.Core.Bool.{Bool, true, false, not, ◌&&◌, ◌||◌}
use native.Mathlib.Omega.{arith}
use native.Mathlib.Nat.{pow-suc, zero-div}
use go_git.Prelude.Tests.{◌==◌, leb, Bool-cases}
use go_git.Prelude.Digits.{bit_or_step, bit_and_step}
use go_git.Prelude.Bits.{div_double, pow_pos, bit_and_shift, bit_and_mask}

abbrev pub digit : ℕ → ℕ → ℕ
digit k x = x / 2 ^ k % 2

abbrev pub tested : ℕ → ℕ → Bool
tested w k = not (bit_and w (2 ^ k) == 0)

digit-or : (k x y : ℕ) → digit k (bit_or x y) ≡ max (digit k x) (digit k y)
digit-or zero x y = omega (arith, bit_or_step x y)
digit-or (suc k) x y =
    let half : bit_or x y / 2 ≡ bit_or (x / 2) (y / 2) = omega (arith, bit_or_step x y) in
    rw (div_double k (bit_or x y)) (
      rw (div_double k x)
        (rw (div_double k y) (ap (λ t. t / 2 ^ k % 2) half ∙ digit-or k (x / 2) (y / 2))))

digit-and : (k x y : ℕ) → digit k (bit_and x y) ≡ min (digit k x) (digit k y)
digit-and zero x y = omega (arith, bit_and_step x y)
digit-and (suc k) x y =
    let half : bit_and x y / 2 ≡ bit_and (x / 2) (y / 2) = omega (arith, bit_and_step x y) in
    rw (div_double k (bit_and x y)) (
      rw (div_double k x)
        (rw (div_double k y) (ap (λ t. t / 2 ^ k % 2) half ∙ digit-and k (x / 2) (y / 2))))

digit-complement : (w k x : ℕ) → k < w → x < 2 ^ w → digit k (2 ^ w - 1 - x) ≡ 1 - digit k x
digit-complement zero k x h q = absurd (omega arith)
digit-complement (suc w) zero x h q =
    let double : 2 ^ suc w ≡ 2 * 2 ^ w = rw pow-suc (omega arith) in omega (arith, pow_pos w)
digit-complement (suc w) (suc k) x h q =
    let double : 2 ^ suc w ≡ 2 * 2 ^ w = rw pow-suc (omega arith) in
    let half : (2 ^ suc w - 1 - x) / 2 ≡ 2 ^ w - 1 - x / 2 = omega (arith, pow_pos w) in
    rw (div_double k (2 ^ suc w - 1 - x)) (
      rw (div_double k x)
        (ap (λ t. t / 2 ^ k % 2) half ∙ digit-complement w k (x / 2) (omega arith) (omega arith)))

bit_and-pow : (k x : ℕ) → bit_and x (2 ^ k) ≡ digit k x * 2 ^ k
bit_and-pow k x =
    ap (bit_and x) (omega arith)
    ∙ bit_and_shift k x 1
    ∙ ap (λ t. t * 2 ^ k) (bit_and_mask 1 (x / 2 ^ k))

pub tested-digit : (w k : ℕ) → tested w k ≡ (digit k w == 1)
tested-digit w k = elim (parity (digit k w) (omega arith)) [
  | inl h ↦
      let empty : bit_and w (2 ^ k) ≡ 0 = bit_and-pow k w ∙ ap (λ t. t * 2 ^ k) h ∙ omega arith in
      rw (empty) (rw (h) refl)
  | inr h ↦
      let there : bit_and w (2 ^ k) ≡ 2 ^ k =
        bit_and-pow k w ∙ ap (λ t. t * 2 ^ k) h ∙ omega arith in
      let filled : (2 ^ k == 0) ≡ false = ground (arith, pow_pos k) in
      rw (there) (rw (filled) (rw (h) refl))
]
  where
    parity : (d : ℕ) → d < 2 → (d ≡ 0) ⊎ (d ≡ 1)
    parity zero h = inl refl
    parity (suc zero) h = inr refl
    parity (suc (suc d)) h = absurd (omega arith)

-- Two digits, joined, cut and turned over.
max-digit : (a b : ℕ) → a < 2 → b < 2 → (max a b == 1) ≡ ((a == 1) || (b == 1))
max-digit zero zero ha hb = refl
max-digit zero (suc zero) ha hb = refl
max-digit zero (suc (suc b)) ha hb = absurd (omega arith)
max-digit (suc zero) zero ha hb = refl
max-digit (suc zero) (suc zero) ha hb = refl
max-digit (suc zero) (suc (suc b)) ha hb = absurd (omega arith)
max-digit (suc (suc a)) b ha hb = absurd (omega arith)

min-digit : (a b : ℕ) → a < 2 → b < 2 → (min a b == 1) ≡ ((a == 1) && (b == 1))
min-digit zero zero ha hb = refl
min-digit zero (suc zero) ha hb = refl
min-digit zero (suc (suc b)) ha hb = absurd (omega arith)
min-digit (suc zero) zero ha hb = refl
min-digit (suc zero) (suc zero) ha hb = refl
min-digit (suc zero) (suc (suc b)) ha hb = absurd (omega arith)
min-digit (suc (suc a)) b ha hb = absurd (omega arith)

not-digit : (a : ℕ) → a < 2 → (1 - a == 1) ≡ not (a == 1)
not-digit zero h = refl
not-digit (suc zero) h = refl
not-digit (suc (suc a)) h = absurd (omega arith)

digit-lt : (k x : ℕ) → digit k x < 2
digit-lt k x = omega arith

pub tested-or : (x y k : ℕ) → tested (bit_or x y) k ≡ (tested x k || tested y k)
tested-or x y k =
    tested-digit (bit_or x y) k
    ∙ ap (λ t. t == 1) (digit-or k x y)
    ∙ max-digit (digit k x) (digit k y) (digit-lt k x) (digit-lt k y)
    ∙ ap₂ (λ s t. s || t) (sym (tested-digit x k)) (sym (tested-digit y k))

pub tested-and : (x y k : ℕ) → tested (bit_and x y) k ≡ (tested x k && tested y k)
tested-and x y k =
    tested-digit (bit_and x y) k
    ∙ ap (λ t. t == 1) (digit-and k x y)
    ∙ min-digit (digit k x) (digit k y) (digit-lt k x) (digit-lt k y)
    ∙ ap₂ (λ s t. s && t) (sym (tested-digit x k)) (sym (tested-digit y k))

pub tested-complement :
    (w k x : ℕ) → k < w → x < 2 ^ w → tested (2 ^ w - 1 - x) k ≡ not (tested x k)
tested-complement w k x h q =
    tested-digit (2 ^ w - 1 - x) k
    ∙ ap (λ t. t == 1) (digit-complement w k x h q)
    ∙ not-digit (digit k x) (digit-lt k x)
    ∙ ap not (sym (tested-digit x k))

-- The single bit of a shifted one.
digit-pow : (i k : ℕ) → (digit k (2 ^ i) == 1) ≡ (i == k)
digit-pow zero zero = refl
digit-pow zero (suc k) =
    let none_left : 1 / 2 ^ suc k ≡ 0 = div_double k 1 ∙ zero-div (2 ^ k) in
    rw (none_left) (ground arith)
digit-pow (suc i) zero =
    let even : 2 ^ suc i / 1 % 2 ≡ 0 = rw pow-suc (omega arith) in rw (even) (ground arith)
digit-pow (suc i) (suc k) =
    let half : 2 ^ suc i / 2 ≡ 2 ^ i = rw pow-suc (omega arith) in
    rw (div_double k (2 ^ suc i)) (rw (half) (digit-pow i k ∙ ground arith))

pub tested-one : (i k : ℕ) → tested (2 ^ i) k ≡ (i == k)
tested-one i k = tested-digit (2 ^ i) k ∙ digit-pow i k

pub tested-zero : (k : ℕ) → tested 0 k ≡ false
tested-zero k = tested-digit 0 k ∙ ap (λ t. t % 2 == 1) (zero-div (2 ^ k))

-- A mask of `w` ones.
pub tested-ones : (w k : ℕ) → k < w → tested (2 ^ w - 1) k ≡ true
tested-ones w k h =
    ap (λ t. tested t k) (omega arith)
    ∙ tested-complement w k 0 h (omega (arith, pow_pos w))
    ∙ ap not (tested-zero k)

-- Above the mask there are none.
small-div : (k w : ℕ) → w ≤ k → (2 ^ w - 1) / 2 ^ k ≡ 0
small-div zero w h = let e : w ≡ 0 = omega arith in ap (λ n. (2 ^ n - 1) / 1) e
small-div (suc k) zero h = zero-div (2 ^ suc k)
small-div (suc k) (suc w) h =
    let double : 2 ^ suc w ≡ 2 * 2 ^ w = rw pow-suc (omega arith) in
    let half : (2 ^ suc w - 1) / 2 ≡ 2 ^ w - 1 = omega (arith, pow_pos w) in
    div_double k (2 ^ suc w - 1) ∙ ap (λ t. t / 2 ^ k) half ∙ small-div k w (omega arith)

tested-past : (w k : ℕ) → w ≤ k → tested (2 ^ w - 1) k ≡ false
tested-past w k h = tested-digit (2 ^ w - 1) k ∙ ap (λ t. t % 2 == 1) (small-div k w h)

digit-shift : (a k x : ℕ) → (digit k (x * 2 ^ a) == 1) ≡ (leb a k && (digit (k - a) x == 1))
digit-shift zero k x =
    let same : leb 0 k ≡ true = ground arith in
    rw (same) (ap₂ (λ n m. digit n m == 1) (omega arith) (omega arith))
digit-shift (suc a) zero x =
    let even : x * 2 ^ suc a / 1 % 2 ≡ 0 = rw pow-suc (omega arith) in
    let past : leb (suc a) 0 ≡ false = ground arith in rw (even) (rw (past) refl)
digit-shift (suc a) (suc k) x =
    let half : x * 2 ^ suc a / 2 ≡ x * 2 ^ a = rw pow-suc (omega arith) in
    let order : leb a k ≡ leb (suc a) (suc k) = ground arith in
    let place : k - a ≡ suc k - suc a = omega arith in
    ap (λ t. t % 2 == 1) (div_double k (x * 2 ^ suc a))
    ∙ ap (λ t. digit k t == 1) half
    ∙ digit-shift a k x
    ∙ ap₂ (λ b n. b && (digit n x == 1)) order place

pub tested-shift : (a k x : ℕ) → tested (x * 2 ^ a) k ≡ (leb a k && tested x (k - a))
tested-shift a k x =
    tested-digit (x * 2 ^ a) k
    ∙ digit-shift a k x
    ∙ ap (λ t. leb a k && t) (sym (tested-digit x (k - a)))

digit-div : (m k x : ℕ) → digit k (x / 2 ^ m) ≡ digit (m + k) x
digit-div zero k x = ap₂ digit (omega arith) (omega arith)
digit-div (suc m) k x =
    let place : suc m + k ≡ suc (m + k) = omega arith in
    ap (digit k) (div_double m x)
    ∙ digit-div m k (x / 2)
    ∙ ap (λ t. t % 2) (sym (div_double (m + k) x))
    ∙ ap (λ n. digit n x) (sym place)

pub tested-div : (m k x : ℕ) → tested (x / 2 ^ m) k ≡ tested x (m + k)
tested-div m k x =
    tested-digit (x / 2 ^ m) k ∙ ap (λ t. t == 1) (digit-div m k x) ∙ sym (tested-digit x (m + k))

-- In a word of `w` bits, the ones from the place `a` on.
pub tested-high : (w a k : ℕ) → k < w → tested ((2 ^ w - 1) * 2 ^ a % 2 ^ w) k ≡ leb a k
tested-high w a k h =
    ap (λ t. tested t k) (sym (bit_and_mask w ((2 ^ w - 1) * 2 ^ a)))
    ∙ tested-and ((2 ^ w - 1) * 2 ^ a) (2 ^ w - 1) k
    ∙ rw (tested-ones w k h) (
        rw (tested-shift a k (2 ^ w - 1))
          (rw (tested-ones w (k - a) (omega arith)) (and_true (leb a k))))
  where
    and_true : (b : Bool) → ((b && true) && true) ≡ b
    and_true true = refl
    and_true false = refl

-- The ones up to the place `b`, from the top.
pub tested-low : (w b k : ℕ) → b < w → tested ((2 ^ w - 1) / 2 ^ (w - 1 - b)) k ≡ leb k b
tested-low w b k h = tested-div (w - 1 - b) k (2 ^ w - 1) ∙ elim (Bool-cases (leb k b)) [
  | inl q ↦ tested-ones w (w - 1 - b + k) (ground arith) ∙ sym q
  | inr q ↦ tested-past w (w - 1 - b + k) (ground arith) ∙ sym q
]
