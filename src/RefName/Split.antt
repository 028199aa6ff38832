-- ===== src/RefName/Split.antt =====
-- The parts of a name between slashes.
use go_git.Prelude.{
  ℕ, ◌≡◌, refl, sym, ap, ap₂, ◌∙◌, inl, inr, arith, List, [], ◌∷◌, ◌++◌, false, ◌||◌, ◌==◌, any,
  some_inj, none-ne-some, none, some, Bool-cases, ==_iff,
}
use go_git.Prelude.Text.{Bytes, codes, cut_prefix, contains}
use go_git.RefName.{slash, push, split, ref_prefix}

abbrev pub backslash : Bytes
backslash = codes "\\"

contains-cons :
    (c : ℕ) (s : Bytes) → contains (c ∷ s) backslash ≡ ((c == 92) || contains s backslash)
contains-cons c s = elim (Bool-cases (c == 92)) [ inl h ↦ rw (h) refl | inr h ↦ rw (h) refl ]

any-push :
    (c : ℕ) (parts : List Bytes)
    → any (λ p. contains p backslash) (push c parts)
      ≡ ((c == 92) || any (λ p. contains p backslash) parts)
unfolding push
any-push c [] = elim (Bool-cases (c == 92)) [ inl h ↦ rw (h) refl | inr h ↦ rw (h) refl ]
any-push c (p ∷ parts) =
    rw (contains-cons c p)
      (elim (Bool-cases (c == 92)) [ inl h ↦ rw (h) refl | inr h ↦ rw (h) refl ])

-- A part holds a backslash exactly where the whole does.
pub any-split : (s : Bytes) → any (λ p. contains p backslash) (split slash s) ≡ contains s backslash
unfolding split
any-split [] = refl
any-split (c ∷ s) = elim (Bool-cases (c == 47)) [
  | inl cut ↦
      let other : (c == 92) ≡ false = ground arith in
      rw (cut) (any-split s ∙ sym (contains-cons c s ∙ rw (other) refl))
  | inr kept ↦ rw (kept) (
      any-push c (split slash s) ∙ ap (λ t. (c == 92) || t) (any-split s) ∙ sym (contains-cons c s))
]

-- What CutPrefix cuts off is the prefix.
pub cut_prefix-append : (p s rest : Bytes) → cut_prefix s p ≡ some rest → s ≡ p ++ rest
cut_prefix-append [] s rest h = some_inj h
cut_prefix-append (d ∷ p) [] rest h = cc
cut_prefix-append (d ∷ p) (c ∷ s) rest h = elim (Bool-cases (c == d)) [
  | inl equal ↦
      let tail : s ≡ p ++ rest = cut_prefix-append p s rest (sym (rw (equal) refl) ∙ h) in
      ap₂ (λ x xs. x ∷ xs) ((==_iff c d).0 equal) tail
  | inr apart ↦
      let missing : cut_prefix (c ∷ s) (d ∷ p) ≡ none = rw (apart) refl in
      absurd (none-ne-some (sym missing ∙ h))
]

pub split-refs : (rest : Bytes) → split slash (ref_prefix ++ rest) ≡ codes "refs" ∷ split slash rest
unfolding split push
split-refs rest = refl
