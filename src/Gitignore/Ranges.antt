-- ===== src/Gitignore/Ranges.antt =====
-- The words of a bracket bit by bit, and what adding a range does to them.
use go_git.Prelude.{
  ℕ, zero, suc, ◌+◌, ◌-◌, ◌*◌, ◌/◌, ◌%◌, ◌^◌, ◌<◌, ◌≤◌, ◌≡◌, refl, sym, ap, ap₂, ◌∙◌, arith, inl,
  inr, bit_and, [], ◌∷◌, Bool, true, false, not, ◌||◌, ◌&&◌, ◌==◌, leb, ltb, length, get_or,
  Bool-cases, ==_iff,
}
use mathlib.Core.Bool.{or-false, and-true}
use go_git.Prelude.Bits.{bit_and_mask}
use go_git.Prelude.BitTest.{tested, tested-or, tested-and, tested-ones, tested-high, tested-low}
use go_git.Gitignore.BracketSet.{Words, or_word, range_mask, add_masks, add_range, has}

-- The place of a byte in its word.
pub place : (ch : ℕ) → bit_and ch 63 ≡ ch % 64
place ch = bit_and_mask 6 ch

pub has-tested : (ws : Words) (ch : ℕ) → has ws ch ≡ tested (get_or ws (ch / 64) 0) (ch % 64)
unfolding has
has-tested ws ch = ap (λ k. tested (get_or ws (ch / 64) 0) k) (place ch)

pub length-or_word : (i m : ℕ) (ws : Words) → length (or_word i m ws) ≡ length ws
unfolding or_word
length-or_word i m [] = refl
length-or_word zero m (w ∷ ws) = refl
length-or_word (suc i) m (w ∷ ws) = ap suc (length-or_word i m ws)

pub tested-or_word :
    (i m j k : ℕ) (ws : Words)
    → i < length ws
    → tested (get_or (or_word i m ws) j 0) k
      ≡ (tested (get_or ws j 0) k || ((i == j) && tested m k))
unfolding or_word
tested-or_word i m j k [] h = absurd (omega arith)
tested-or_word zero m zero k (w ∷ ws) h = tested-or w m k
tested-or_word zero m (suc j) k (w ∷ ws) h =
    let apart : (0 == suc j) ≡ false = ground arith in
    rw (apart) (sym (or-false (tested (get_or ws j 0) k)))
tested-or_word (suc i) m zero k (w ∷ ws) h =
    let apart : (suc i == 0) ≡ false = ground arith in rw (apart) (sym (or-false (tested w k)))
tested-or_word (suc i) m (suc j) k (w ∷ ws) h =
    let same : (i == j) ≡ (suc i == suc j) = ground arith in
    tested-or_word i m j k ws (omega arith)
    ∙ ap (λ t. tested (get_or ws j 0) k || (t && tested m k)) same

no_words : (m : Bool) (i j : ℕ) → (leb i j && ltb j (i + 0) && m) ≡ false
no_words true i j = ground arith
no_words false i j = ground arith

-- The mask of the word at hand is the one of the word asked for, where they are one.
same_mask :
    (mask : ℕ → ℕ) (i j k : ℕ) → ((i == j) && tested (mask i) k) ≡ ((i == j) && tested (mask j) k)
same_mask mask i j k = elim (Bool-cases (i == j)) [
  | inl q ↦ rw (q) (ap (λ n. tested (mask n) k) ((==_iff i j).0 q))
  | inr q ↦ rw (q) refl
]

range_step :
    (x m : Bool) (i j n : ℕ)
    → ((x || ((i == j) && m)) || (leb (suc i) j && ltb j (suc i + n) && m))
      ≡ (x || (leb i j && ltb j (i + suc n) && m))
range_step true m i j n = refl
range_step false true i j n = ground arith
range_step false false i j n = ground arith

tested-add_masks :
    (mask : ℕ → ℕ) (n i j k : ℕ) (ws : Words)
    → i + n ≤ length ws
    → tested (get_or (add_masks mask n i ws) j 0) k
      ≡ (tested (get_or ws j 0) k || (leb i j && ltb j (i + n) && tested (mask j) k))
unfolding add_masks
tested-add_masks mask zero i j k ws h =
    sym (or-false (tested (get_or ws j 0) k))
    ∙ ap (λ t. tested (get_or ws j 0) k || t) (sym (no_words (tested (mask j) k) i j))
tested-add_masks mask (suc n) i j k ws h =
    let room : suc i + n ≤ length (or_word i (mask i) ws) =
      omega (arith, length-or_word i (mask i) ws) in
    let later : Bool = leb (suc i) j && ltb j (suc i + n) && tested (mask j) k in
    tested-add_masks mask n (suc i) j k (or_word i (mask i) ws) room
    ∙ ap (λ t. t || later)
        (tested-or_word i (mask i) j k ws (omega arith)
          ∙ ap (λ t. tested (get_or ws j 0) k || t) (same_mask mask i j k))
    ∙ range_step (tested (get_or ws j 0) k) (tested (mask j) k) i j n

tested-range_mask :
    (first last lo hi j k : ℕ)
    → k < 64
    → tested (range_mask first last lo hi j) k
      ≡ ((not (j == first) || leb (lo % 64) k) && (not (j == last) || leb k (hi % 64)))
unfolding range_mask
tested-range_mask first last lo hi j k h = rw (place lo) (
    rw (place hi) (elim (Bool-cases (j == first)) [
      | inl f ↦ elim (Bool-cases (j == last)) [
        | inl l ↦ rw (f) (
            rw (l) (
              tested-and (bit_and all (high_mask (lo % 64))) (low_mask (hi % 64)) k
              ∙ ap₂ (λ s t. s && t) high low))
        | inr l ↦ rw (f) (rw (l) (high ∙ sym (and-true (leb (lo % 64) k))))
      ]
      | inr f ↦ elim (Bool-cases (j == last)) [
        | inl l ↦ rw (f) (rw (l) (cut (low_mask (hi % 64)) ∙ low))
        | inr l ↦ rw (f) (rw (l) (tested-ones 64 k h))
      ]
    ]))
  where
    all : ℕ
    all = 2 ^ 64 - 1

    high_mask : ℕ → ℕ
    high_mask a = (2 ^ 64 - 1) * 2 ^ a % 2 ^ 64

    low_mask : ℕ → ℕ
    low_mask b = (2 ^ 64 - 1) / 2 ^ (63 - b)

    -- Cutting a word to all its bits changes nothing.
    cut : (x : ℕ) → tested (bit_and (2 ^ 64 - 1) x) k ≡ tested x k
    cut x = tested-and (2 ^ 64 - 1) x k ∙ ap (λ b. b && tested x k) (tested-ones 64 k h)

    high : tested (bit_and (2 ^ 64 - 1) ((2 ^ 64 - 1) * 2 ^ (lo % 64) % 2 ^ 64)) k ≡ leb (lo % 64) k
    high = cut ((2 ^ 64 - 1) * 2 ^ (lo % 64) % 2 ^ 64) ∙ tested-high 64 (lo % 64) k h

    low : tested ((2 ^ 64 - 1) / 2 ^ (63 - hi % 64)) k ≡ leb k (hi % 64)
    low = tested-low 64 (hi % 64) k (omega arith)

in_range :
    (lo hi ch : ℕ)
    → lo ≤ hi
    → (leb (lo / 64) (ch / 64)
        && ltb (ch / 64) (lo / 64 + (suc (hi / 64) - lo / 64))
        && ((not (ch / 64 == lo / 64) || leb (lo % 64) (ch % 64))
            && (not (ch / 64 == hi / 64) || leb (ch % 64) (hi % 64))))
      ≡ (leb lo ch && leb ch hi)
in_range lo hi ch h = ground arith

-- Adding a range adds the bytes from its first to its last, and none where they are inverted.
pub has-add_range :
    (lo hi ch : ℕ) (ws : Words)
    → length ws ≡ 4
    → hi < 256
    → has (add_range lo hi ws) ch ≡ (has ws ch || (leb lo ch && leb ch hi))
unfolding add_range
has-add_range lo hi ch ws four byte = elim (Bool-cases (ltb hi lo)) [
  | inl q ↦ rw (q) (
      let outside : (leb lo ch && leb ch hi) ≡ false = ground arith in
      sym (or-false (has ws ch)) ∙ ap (λ t. has ws ch || t) (sym outside))
  | inr q ↦ rw (q) (
      has-tested
        (add_masks (range_mask (lo / 64) (hi / 64) lo hi) (suc (hi / 64) - lo / 64) (lo / 64) ws) ch
      ∙ tested-add_masks (range_mask (lo / 64) (hi / 64) lo hi) (suc (hi / 64) - lo / 64) (lo / 64)
          (ch / 64) (ch % 64) ws (room q)
      ∙ ap₂ (λ s t. s || t) (sym (has-tested ws ch))
          (ap
              (λ t.
                leb (lo / 64) (ch / 64) && ltb (ch / 64) (lo / 64 + (suc (hi / 64) - lo / 64)) && t)
              (tested-range_mask (lo / 64) (hi / 64) lo hi (ch / 64) (ch % 64) (omega arith))
            ∙ in_range lo hi ch (ground arith)))
]
  where
    room : ltb hi lo ≡ false → lo / 64 + (suc (hi / 64) - lo / 64) ≤ length ws
    room q = let order : lo ≤ hi = ground arith in omega arith
