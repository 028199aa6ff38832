-- ===== src/Gitignore/Runs.antt =====
-- What the codes of `dowild` say, and runs of stars in the pattern.
use go_git.Prelude.{
  ℕ, suc, ◌+◌, ◌≡◌, ◌≢◌, refl, sym, ap, ◌∙◌, subst, arith, inl, inr, [], ◌∷◌, Bool, true, false,
  ◌||◌, ◌==◌, drop, drop-drop, some, Bool-cases,
}
use go_git.Prelude.Text.{Bytes}
use go_git.Gitignore.BracketCache.{BracketCache}
use go_git.Gitignore.Cached.{IsValid}
use go_git.Gitignore.Wildmatch.{
  Code, wm_match, wm_no_match, wm_abort_all, wm_abort_to_star_star, Outcome, Next, literal,
  asterisk, kind_of, is_glob_special, count_stars,
}
use go_git.Gitignore.Matches.{
  Matches, Suffix, all_of, behind, Suffix-trans, Matches-nil, asterisk_inv, Matches-asterisk,
}

-- No text left after some bytes of this one matches from `pi` on.
abbrev pub Never : Bytes → ℕ → Bytes → Type 0
Never p pi text = (left : Bytes) → Suffix left text → ¬ Matches p pi left

-- What a code of `dowild` says of the pattern from `pi` on and the text.
abbrev pub Tells : Bytes → ℕ → Bytes → Code → Type 0
Tells p pi text wm_match = Matches p pi text
Tells p pi text wm_no_match = ¬ Matches p pi text
Tells p pi text wm_abort_all = Never p pi text
Tells p pi text wm_abort_to_star_star = ⊥

-- What the code of a star says, with the pattern from `pi` on behind it.
abbrev pub StarTells : Bytes → ℕ → Bytes → Code → Type 0
StarTells p pi text wm_match = (left : Bytes) × Suffix left text × Matches p pi left
StarTells p pi text wm_no_match = ⊥
StarTells p pi text wm_abort_all = Never p pi text
StarTells p pi text wm_abort_to_star_star = ⊥

-- The run ends with a code that says something, and a valid cache.
abbrev pub Ends : Bytes → (Code → Type 0) → Outcome → Type 0
Ends p Says o = (code : Code) × (c : BracketCache) × (o ≡ some (code, c)) × Says code × IsValid p c

-- `next` answers at the position for every text.
abbrev pub Answers : Bytes → Next → ℕ → Type 0
Answers p next pi =
    (start : ℕ) (text : Bytes) (c : BracketCache)
    → IsValid p c
    → Ends p (Tells p pi text) (next start pi text c)

pub or-eq_false : (a b : Bool) → (a || b) ≡ false → (a ≡ false) × (b ≡ false)
or-eq_false false false h = (refl, refl)
or-eq_false false true h = cc
or-eq_false true b h = cc

pub kind-asterisk : (c : ℕ) → (c == 42) ≡ true → kind_of c ≡ asterisk
unfolding kind_of
kind-asterisk c h = ground arith

kind-not_asterisk : (c : ℕ) → (c == 42) ≡ false → kind_of c ≢ asterisk
unfolding kind_of
kind-not_asterisk c h = ground arith

pub kind-literal : (c : ℕ) → is_glob_special c ≡ false → kind_of c ≡ literal
unfolding kind_of is_glob_special
kind-literal c h = ground arith

pub drop-behind :
    (k : ℕ) (p : Bytes) (c : ℕ) (rest : Bytes) → drop k p ≡ c ∷ rest → drop (suc k) p ≡ rest
drop-behind k p c rest h =
    let e : suc k ≡ k + 1 = omega arith in
    ap (λ n. drop n p) e ∙ sym (drop-drop k 1 p) ∙ ap (λ t. drop 1 t) h

pub run_more :
    (c k : ℕ) (rest : Bytes)
    → (c == 42) ≡ true
    → k + count_stars (c ∷ rest) ≡ suc k + count_stars rest
unfolding count_stars
run_more c k rest q = rw (q) (omega arith)

pub run_none : (c k : ℕ) (rest : Bytes) → (c == 42) ≡ false → k + count_stars (c ∷ rest) ≡ k
unfolding count_stars
run_none c k rest q = rw (q) (omega arith)

module _ (p : Bytes) where
  pub Never-behind :
      {pi t : ℕ} {text : Bytes}
      → ¬ Matches p pi (t ∷ text)
      → Never p pi text
      → Never p pi (t ∷ text)
  Never-behind now later left all_of = now
  Never-behind now later left (behind s) = later left s

  pub Never-nil :
      {pi p_ch : ℕ} {rest : Bytes} → drop pi p ≡ p_ch ∷ rest → (p_ch == 42) ≡ false → Never p pi []
  Never-nil {p_ch = p_ch} h q left all_of = Matches-nil p h (kind-not_asterisk p_ch q)

  -- A run of stars takes what one star takes.
  pub run-Matches :
      (rest : Bytes) (k : ℕ) (left text : Bytes)
      → drop k p ≡ rest
      → Suffix left text
      → Matches p (k + count_stars rest) left
      → (between : Bytes) × Suffix between text × Matches p k between
  unfolding count_stars
  run-Matches [] k left text h s m = (left, s, subst (λ n. Matches p n left) (omega arith) m)
  run-Matches (c ∷ rest) k left text h s m = elim (Bool-cases (c == 42)) [
    | inl q ↦
        let m' : Matches p (suc k + count_stars rest) left =
          subst (λ n. Matches p n left) (run_more c k rest q) m in
        let (between, s', m₁) =
          run-Matches rest (suc k) left text (drop-behind k p c rest h) s m' in
        (between, s', Matches-asterisk p (h, kind-asterisk c q) all_of m₁)
    | inr q ↦ (left, s, subst (λ n. Matches p n left) (run_none c k rest q) m)
  ]

  pub Matches-run :
      (rest : Bytes) (k : ℕ) (text : Bytes)
      → drop k p ≡ rest
      → Matches p k text
      → (left : Bytes) × Suffix left text × Matches p (k + count_stars rest) left
  unfolding count_stars
  Matches-run [] k text h m = (text, all_of, subst (λ n. Matches p n text) (omega arith) m)
  Matches-run (c ∷ rest) k text h m = elim (Bool-cases (c == 42)) [
    | inl q ↦
        let (left, s, m₁) = asterisk_inv p (h, kind-asterisk c q) m in
        let (left', s', m₂) = Matches-run rest (suc k) left (drop-behind k p c rest h) m₁ in
        (left', Suffix-trans s' s, subst (λ n. Matches p n left') (sym (run_more c k rest q)) m₂)
    | inr q ↦ (text, all_of, subst (λ n. Matches p n text) (sym (run_none c k rest q)) m)
  ]

  -- Behind a run stands no star.
  pub run_edge :
      (rest : Bytes) (k c : ℕ) (more : Bytes)
      → drop k p ≡ rest
      → drop (k + count_stars rest) p ≡ c ∷ more
      → (c == 42) ≡ false
  unfolding count_stars
  run_edge [] k c more h e =
      let here : drop k p ≡ c ∷ more = ap (λ n. drop n p) (omega arith) ∙ e in cc
  run_edge (d ∷ rest) k c more h e = elim (Bool-cases (d == 42)) [
    | inl q ↦
        run_edge rest (suc k) c more (drop-behind k p d rest h)
          (ap (λ n. drop n p) (sym (run_more d k rest q)) ∙ e)
    | inr q ↦
        let here : drop k p ≡ c ∷ more = ap (λ n. drop n p) (sym (run_none d k rest q)) ∙ e in
        let same : d ≡ c = cc in subst (λ b. (b == 42) ≡ false) same q
  ]
