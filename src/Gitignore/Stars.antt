-- ===== src/Gitignore/Stars.antt =====
-- The '*' case of `dowild`: the loop over the text behind a run of stars.
use go_git.Prelude.{
  ℕ, suc, ◌+◌, ◌<◌, ◌≡◌, refl, sym, ap, ◌∙◌, arith, inl, inr, [], ◌∷◌, Bool, true, false, ◌||◌,
  ◌==◌, drop, some, Bool-cases, ==_iff,
}
use mathlib.Core.Bool.{false≢true}
use go_git.Prelude.Text.{Bytes}
use go_git.Gitignore.{no_flags}
use go_git.Gitignore.BracketCache.{BracketCache}
use go_git.Gitignore.Cached.{IsValid}
use go_git.Gitignore.Wildmatch.{
  Code, wm_match, wm_no_match, wm_abort_all, wm_abort_to_star_star, Outcome, Next, is_glob_special,
  count_stars, after_try, star_loop, behind_stars, double_star, at_star,
}
use go_git.Gitignore.Matches.{
  Matches, done, all_of, behind, Suffix-trans, Suffix-nil, literal_inv, asterisk_inv,
  Matches-asterisk,
}
use go_git.Gitignore.Runs.{
  Tells, StarTells, Ends, Answers, kind-asterisk, kind-literal, or-eq_false, drop-behind,
  Never-behind, Never-nil, run-Matches, Matches-run, run_edge,
}

module _ (p : Bytes) where
  -- A byte of the text from which nothing matches, before a text about which something is known.
  later-StarTells :
      (pi t : ℕ) (text : Bytes)
      → ¬ Matches p pi (t ∷ text)
      → (o : Outcome) → Ends p (StarTells p pi text) o
      → Ends p (StarTells p pi (t ∷ text)) o
  later-StarTells pi t text now o (wm_match, c, e, (left, s, m), v) =
      (wm_match, c, e, (left, behind s, m), v)
  later-StarTells pi t text now o (wm_no_match, c, e, says, v) = absurd says
  later-StarTells pi t text now o (wm_abort_all, c, e, says, v) =
      (wm_abort_all, c, e, Never-behind p now says, v)
  later-StarTells pi t text now o (wm_abort_to_star_star, c, e, says, v) = absurd says

  after_code-StarTells :
      (pi t : ℕ) (text : Bytes) (again : BracketCache → Outcome) (code : Code) (c : BracketCache)
      → Tells p pi (t ∷ text) code
      → IsValid p c
      → ((c : BracketCache) → IsValid p c → Ends p (StarTells p pi text) (again c))
      → Ends p (StarTells p pi (t ∷ text)) (after_try no_flags p true t again (some (code, c)))
  unfolding after_try
  after_code-StarTells pi t text again wm_match c says v next =
      (wm_match, c, refl, (t ∷ text, all_of, says), v)
  after_code-StarTells pi t text again wm_abort_all c says v next = (wm_abort_all, c, refl, says, v)
  after_code-StarTells pi t text again wm_abort_to_star_star c says v next = absurd says
  after_code-StarTells pi t text again wm_no_match c says v next =
      later-StarTells pi t text says (again c) (next c v)

  -- The loop over the text behind a run of stars, at a byte of the pattern that is no star.
  star_loop-StarTells :
      (next : Next) (pi p_ch : ℕ) (rest : Bytes)
      → drop pi p ≡ p_ch ∷ rest
      → (p_ch == 42) ≡ false
      → Answers p next pi
      → (skipping : Bool) (text : Bytes) (c : BracketCache) → IsValid p c
      → Ends p (StarTells p pi text) (star_loop no_flags p next true pi p_ch skipping text c)
  unfolding star_loop
  star_loop-StarTells next pi p_ch rest h q answers true [] c v =
      (wm_abort_all, c, refl, Never-nil p h q, v)
  star_loop-StarTells next pi p_ch rest h q answers false [] c v =
      (wm_abort_all, c, refl, Never-nil p h q, v)
  star_loop-StarTells next pi p_ch rest h q answers skipping (t ∷ text) c v =
      let later : (s : Bool) (d : BracketCache)
          → IsValid p d
          → Ends p (StarTells p pi text) (star_loop no_flags p next true pi p_ch s text d) =
        λ s d w. star_loop-StarTells next pi p_ch rest h q answers s text d w in
      elim (Bool-cases (is_glob_special p_ch || t == p_ch)) [
        | inl found ↦
            let (code, d, e, says, w) = answers pi (t ∷ text) c v in
            rw (found)
              (rw (e) (after_code-StarTells pi t text _ code d says w (λ d w. later false d w)))
        | inr other ↦
            rw (other) (later-StarTells pi t text (skipped t text other) _ (later true c v))
      ]
    where
      skipped :
          (t : ℕ) (text : Bytes)
          → (is_glob_special p_ch || t == p_ch) ≡ false
          → ¬ Matches p pi (t ∷ text)
      skipped t text other m =
          let (plain, differs) = or-eq_false (is_glob_special p_ch) (t == p_ch) other in
          let (same, _) = literal_inv p (h, kind-literal p_ch plain) m in
          false≢true (sym differs ∙ (==_iff t p_ch).1 same)

  behind_stars-StarTells :
      (next : Next) (start pi : ℕ) (rest text : Bytes) (c : BracketCache)
      → drop pi p ≡ rest
      → ((p_ch : ℕ) (more : Bytes) → rest ≡ p_ch ∷ more → (p_ch == 42) ≡ false)
      → ((p_ch : ℕ) (more : Bytes) → rest ≡ p_ch ∷ more → Answers p next pi)
      → IsValid p c
      → Ends p (StarTells p pi text) (behind_stars no_flags p next start true pi rest text c)
  unfolding behind_stars
  behind_stars-StarTells next start pi [] text c h edge answers v =
      (wm_match, c, refl, ([], Suffix-nil text, done h), v)
  behind_stars-StarTells next start pi (p_ch ∷ rest) text c h edge answers v =
      star_loop-StarTells next pi p_ch rest h (edge p_ch rest refl) (answers p_ch rest refl) false
        text c v

  no_run :
      (next : Next) (start k : ℕ) (rest text : Bytes) (c : BracketCache)
      → drop k p ≡ rest
      → behind_stars no_flags p next start true k rest text c
        ≡ behind_stars no_flags p next start true (k + 0) (drop (k + 0) p) text c
  no_run next start k rest text c h =
      let z : k ≡ k + 0 = omega arith in
      ap (λ r. behind_stars no_flags p next start true k r text c) (sym h)
      ∙ ap (λ n. behind_stars no_flags p next start true n (drop n p) text c) z

  -- The case of a star is what follows its run, wherever the run ends.
  at_star-run :
      (next : Next) (start pi : ℕ) (rest text : Bytes) (c : BracketCache)
      → drop (suc pi) p ≡ rest
      → (let k = suc pi + count_stars rest in
          at_star no_flags p next start pi rest text c
          ≡ behind_stars no_flags p next start true k (drop k p) text c)
  unfolding at_star double_star count_stars
  at_star-run next start pi [] text c h = no_run next start (suc pi) [] text c h
  at_star-run next start pi (d ∷ rest) text c h = elim (Bool-cases (d == 42)) [
    | inl q ↦ rw (q) refl
    | inr q ↦ rw (q) (no_run next start (suc pi) (d ∷ rest) text c h)
  ]

  star-Tells :
      (pi s : ℕ) (rest text : Bytes) (code : Code)
      → drop pi p ≡ s ∷ rest
      → (s == 42) ≡ true
      → StarTells p (suc pi + count_stars rest) text code
      → Tells p pi text code
  star-Tells pi s rest text wm_match h q (left, shorter, m) =
      let next = drop-behind pi p s rest h in
      let (between, s', m') = run-Matches p rest (suc pi) left text next shorter m in
      Matches-asterisk p (h, kind-asterisk s q) s' m'
  star-Tells pi s rest text wm_no_match h q says = absurd says
  star-Tells pi s rest text wm_abort_to_star_star h q says = says
  star-Tells pi s rest text wm_abort_all h q says = λ left s' m.
      let (l₁, s₁, m₁) = asterisk_inv p (h, kind-asterisk s q) m in
      let (l₂, s₂, m₂) = Matches-run p rest (suc pi) l₁ (drop-behind pi p s rest h) m₁ in
      says l₂ (Suffix-trans s₂ (Suffix-trans s₁ s')) m₂

  -- The case of a star ends with a code that tells the truth.
  pub at_star-Tells :
      (next : Next) (start pi s : ℕ) (rest text : Bytes) (c : BracketCache)
      → drop pi p ≡ s ∷ rest
      → (s == 42) ≡ true
      → ((k : ℕ) → pi < k → Answers p next k)
      → IsValid p c
      → Ends p (Tells p pi text) (at_star no_flags p next start pi rest text c)
  at_star-Tells next start pi s rest text c h q answers v =
      let k = suc pi + count_stars rest in
      let begun = drop-behind pi p s rest h in
      let (code, d, e, says, w) =
        behind_stars-StarTells next start k (drop k p) text c refl
          (λ p_ch more. run_edge p rest (suc pi) p_ch more begun)
          (λ p_ch more _. answers k (omega arith)) v in
      (
        code,
        d,
        at_star-run next start pi rest text c begun ∙ e,
        star-Tells pi s rest text code h q says,
        w,
      )
