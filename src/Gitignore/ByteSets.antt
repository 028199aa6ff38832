-- ===== src/Gitignore/ByteSets.antt =====
-- The four words of a bracket as a set of bytes: what adding a byte or a range, turning the words
-- over and the tables of the classes do to it.
use go_git.Prelude.{
  ℕ, zero, suc, ◌/◌, ◌%◌, ◌^◌, ◌<◌, ◌≤◌, ◌≡◌, refl, sym, ap, ap₂, ◌∙◌, arith, inl, inr, bit_and, [],
  ◌∷◌, Bool, true, false, not, ◌||◌, ◌&&◌, ◌==◌, leb, ltb, length, get_or, All, Bool-cases, ==_iff,
  if_elim,
}
use mathlib.Core.Bool.{or-false}
use go_git.Prelude.BitTest.{tested, tested-complement, tested-one, tested-zero}
use go_git.Gitignore.BracketSet.{
  Words, no_bytes, or_word, add, add_range, has, complement, class_words,
}
use go_git.Gitignore.Ranges.{place, has-tested, length-or_word, tested-or_word, has-add_range}

has-add :
    (c ch : ℕ) (ws : Words) → length ws ≡ 4 → c < 256 → has (add c ws) ch ≡ (has ws ch || (c == ch))
unfolding add
has-add c ch ws four byte =
    has-tested (or_word (c / 64) (2 ^ bit_and c 63) ws) ch
    ∙ tested-or_word (c / 64) (2 ^ bit_and c 63) (ch / 64) (ch % 64) ws (omega arith)
    ∙ ap₂ (λ s t. s || t) (sym (has-tested ws ch))
        (ap (λ t. (c / 64 == ch / 64) && tested (2 ^ t) (ch % 64)) (place c)
          ∙ ap (λ t. (c / 64 == ch / 64) && t) (tested-one (c % 64) (ch % 64))
          ∙ one_place)
  where
    one_place : ((c / 64 == ch / 64) && (c % 64 == ch % 64)) ≡ (c == ch)
    one_place = ground arith

get_or-complement :
    (ws : Words) (j k : ℕ)
    → All (λ w. w < 2 ^ 64) ws
    → j < length ws
    → k < 64
    → tested (get_or (complement ws) j 0) k ≡ not (tested (get_or ws j 0) k)
unfolding complement
get_or-complement [] j k bounded h q = absurd (omega arith)
get_or-complement (w ∷ ws) zero k (b, bs) h q = tested-complement 64 k w q b
get_or-complement (w ∷ ws) (suc j) k (b, bs) h q = get_or-complement ws j k bs (omega arith) q

has-complement :
    (ch : ℕ) (ws : Words)
    → length ws ≡ 4
    → All (λ w. w < 2 ^ 64) ws
    → ch < 256
    → has (complement ws) ch ≡ not (has ws ch)
has-complement ch ws four bounded byte =
    has-tested (complement ws) ch
    ∙ get_or-complement ws (ch / 64) (ch % 64) bounded (omega arith) (omega arith)
    ∙ ap not (sym (has-tested ws ch))

length-class_words : (is_in : ℕ → Bool) (n : ℕ) → length (class_words is_in n) ≡ 4
unfolding class_words add
length-class_words is_in zero = refl
length-class_words is_in (suc n) =
    if_elim (λ (ws : Words). length ws ≡ 4) (is_in n)
      (length-or_word (n / 64) (2 ^ bit_and n 63) (class_words is_in n)
        ∙ length-class_words is_in n)
      (length-class_words is_in n)

-- A byte more below the bound.
one_below :
    (is_in : ℕ → Bool) (n ch : ℕ)
    → is_in n ≡ true
    → ((ltb ch n && is_in ch) || (n == ch)) ≡ (ltb ch (suc n) && is_in ch)
one_below is_in n ch h = elim (Bool-cases (n == ch)) [
  | inl q ↦
      let here : is_in ch ≡ true = ap is_in (sym ((==_iff n ch).0 q)) ∙ h in
      rw (here) (ground arith)
  | inr q ↦ rw (q) (or-false (ltb ch n && is_in ch) ∙ ap (λ t. t && is_in ch) (ground arith))
]

none_more :
    (is_in : ℕ → Bool) (n ch : ℕ)
    → is_in n ≡ false
    → (ltb ch n && is_in ch) ≡ (ltb ch (suc n) && is_in ch)
none_more is_in n ch h = elim (Bool-cases (n == ch)) [
  | inl q ↦
      let here : is_in ch ≡ false = ap is_in (sym ((==_iff n ch).0 q)) ∙ h in
      rw (here) (ground arith)
  | inr q ↦ ap (λ t. t && is_in ch) (ground arith)
]

has-class_words :
    (is_in : ℕ → Bool) (n ch : ℕ) → n ≤ 256 → has (class_words is_in n) ch ≡ (ltb ch n && is_in ch)
unfolding class_words
has-class_words is_in zero ch h =
    let out : (ltb ch 0) ≡ false = ground arith in
    has-tested no_bytes ch
    ∙ ap (λ w. tested w (ch % 64)) (empty (ch / 64))
    ∙ tested-zero (ch % 64)
    ∙ ap (λ t. t && is_in ch) (sym out)
  where
    empty : (j : ℕ) → get_or no_bytes j 0 ≡ 0
    empty zero = refl
    empty (suc zero) = refl
    empty (suc (suc zero)) = refl
    empty (suc (suc (suc zero))) = refl
    empty (suc (suc (suc (suc j)))) = refl
has-class_words is_in (suc n) ch h = elim (Bool-cases (is_in n)) [
  | inl q ↦ rw (q) (
      has-add n ch (class_words is_in n) (length-class_words is_in n) (omega arith)
      ∙ ap (λ t. t || (n == ch)) (has-class_words is_in n ch (omega arith))
      ∙ one_below is_in n ch q)
  | inr q ↦ rw (q) (has-class_words is_in n ch (omega arith) ∙ none_more is_in n ch q)
]

-- In four words of 64 bits and for any byte: after addRange up to a byte the words hold a byte
-- exactly where they held it or it lies in the range; after add where they held it or it is the
-- one added; complemented where they did not hold it; and the table of a class holds the bytes of
-- the class.
pub has-sets :
    (ws : Words) (lo hi ch : ℕ) (is_in : ℕ → Bool)
    → length ws ≡ 4
    → All (λ w. w < 2 ^ 64) ws
    → hi < 256
    → ch < 256
    → (has (add_range lo hi ws) ch ≡ (has ws ch || (leb lo ch && leb ch hi)))
      × (has (add hi ws) ch ≡ (has ws ch || (hi == ch)))
      × (has (complement ws) ch ≡ not (has ws ch))
      × (has (class_words is_in 256) ch ≡ is_in ch)
has-sets ws lo hi ch is_in four bounded top byte =
    let below : ltb ch 256 ≡ true = ground arith in
    (
      has-add_range lo hi ch ws four top,
      has-add hi ch ws four top,
      has-complement ch ws four bounded byte,
      has-class_words is_in 256 ch (omega arith) ∙ ap (λ t. t && is_in ch) below,
    )
