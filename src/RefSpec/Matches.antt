-- ===== src/RefSpec/Matches.antt =====
-- The names that a refspec with wildcards matches.
use go_git.Prelude.{
  suc, ◌+◌, ◌≡◌, refl, sym, ap, ◌∙◌, inl, inr, arith, [], ◌∷◌, ◌++◌, append_assoc, Bool, true, leb,
  length, take, drop, some, length-append, take-append_left, ◌==◌, Bool-cases,
}
use go_git.Prelude.Text.{Bytes, same, same_refl, has_prefix, has_suffix}
use go_git.RefSpec.{wildcard, match, match_glob}
use go_git.RefSpec.Parts.{
  Free, index-Free, render, IsSource, src-render, is_wildcard-render, drop-middle,
}

has_prefix-append : (p s : Bytes) → has_prefix (p ++ s) p ≡ true
has_prefix-append [] s = refl
has_prefix-append (c ∷ p) s =
    let self : (c == c) ≡ true = ground arith in rw (self) (has_prefix-append p s)

has_suffix-append : (s q : Bytes) → has_suffix (s ++ q) q ≡ true
has_suffix-append [] [] = refl
has_suffix-append [] (c ∷ q) = rw (same_refl (c ∷ q)) refl
has_suffix-append (c ∷ s) q = elim (Bool-cases (same (c ∷ (s ++ q)) q)) [
  | inl h ↦ rw (h) refl
  | inr h ↦ rw (h) (has_suffix-append s q)
]

pub match-render :
    (forced : Bool) (p q b m : Bytes)
    → IsSource forced (p ++ wildcard ∷ q)
    → Free wildcard p
    → match (render forced (p ++ wildcard ∷ q) b) (p ++ (m ++ q)) ≡ some true
unfolding match match_glob
match-render forced p q b m source free =
    let n : Bytes = p ++ (m ++ q) in
    let before : take (length p) (p ++ wildcard ∷ q) ≡ p = take-append_left p (wildcard ∷ q) in
    let after : drop (length p + 1) (p ++ wildcard ∷ q) ≡ q =
      let e : length p + 1 ≡ suc (length p) = omega arith in
      ap (λ k. drop k (p ++ wildcard ∷ q)) e ∙ drop-middle p q wildcard in
    let long : leb (length p + length q) (length (p ++ (m ++ q))) ≡ true =
      ground (arith, length-append p (m ++ q), length-append m q) in
    let ends : has_suffix (p ++ (m ++ q)) q ≡ true =
      ap (λ t. has_suffix t q) (sym (append_assoc p m q)) ∙ has_suffix-append (p ++ m) q in
    rw (is_wildcard-render forced p q b) (
      rw (src-render forced (p ++ wildcard ∷ q) b source) (
        rw (index-Free wildcard p q free) (
          rw (before)
            (rw (after) (rw (long) (rw (has_prefix-append p (m ++ q)) (rw (ends) refl)))))))
