-- ===== src/Gitignore/Decides.antt =====
-- `dowild` and `wildmatch` without flags: what their codes say, round by round.
use go_git.Prelude.{
  ℕ, zero, suc, ◌+◌, ◌-◌, ◌<◌, ◌≡◌, ◌≢◌, ◌↔◌, refl, sym, ap, ◌∙◌, arith, inl, inr, [], ◌∷◌, Bool,
  true, false, not, ◌==◌, if◌then◌else◌, drop, length, length-drop, Option, some, Bool-cases,
  ==_iff,
}
use mathlib.Core.Bool.{false≢true, true≢false}
use go_git.Prelude.Text.{Bytes}
use go_git.Gitignore.{no_flags}
use go_git.Gitignore.BracketSet.{has}
use go_git.Gitignore.ReadBracket.{BracketSet}
use go_git.Gitignore.BracketCache.{BracketCache}
use go_git.Gitignore.Brackets.{end-behind}
use go_git.Gitignore.Cached.{IsValid, Gives, get-Gives}
use go_git.Gitignore.Wildmatch.{
  Code, wm_match, wm_no_match, wm_abort_all, wm_abort_to_star_star, Outcome, Next, Kind, escape,
  question, asterisk, opening, literal, kind_of, at_bracket, at_escape, at_byte, round, dowild,
  code_of, wildmatch,
}
use go_git.Gitignore.Matches.{
  Matches, done, one_literal, one_escaped, any_byte, in_set, Suffix, all_of, Suffix-cons, At,
  Matches-end, Matches-nil, literal_inv, question_inv, opening_inv, escape_inv,
}
use go_git.Gitignore.Runs.{Tells, Ends, Answers, Never-nil}
use go_git.Gitignore.Stars.{at_star-Tells}

module _ (p : Bytes) where
  module _ {pi c : ℕ} {rest : Bytes} (h : drop pi p ≡ c ∷ rest)
      (no_star : kind_of c ≢ asterisk) where
    -- A byte of the text goes to the pattern at hand, the text behind it to the pattern at `k`.
    step-Tells :
        (k t : ℕ) (text : Bytes) (code : Code)
        → (Matches p k text → Matches p pi (t ∷ text))
        → ((u : ℕ) (x : Bytes) → Matches p pi (u ∷ x) → Matches p k x)
        → Tells p k text code
        → Tells p pi (t ∷ text) code
    step-Tells k t text wm_match into back says = into says
    step-Tells k t text wm_no_match into back says = λ m. says (back t text m)
    step-Tells k t text wm_abort_to_star_star into back says = says
    step-Tells k t text wm_abort_all into back says = λ left s m. never left s m
      where
        never : (left : Bytes) → Suffix left (t ∷ text) → ¬ Matches p pi left
        never [] s m = Matches-nil p h no_star m
        never (u ∷ x) s m = says x (Suffix-cons s) (back u x m)

    step-Ends :
        (k t : ℕ) (text : Bytes) (o : Outcome)
        → (Matches p k text → Matches p pi (t ∷ text))
        → ((u : ℕ) (x : Bytes) → Matches p pi (u ∷ x) → Matches p k x)
        → Ends p (Tells p k text) o
        → Ends p (Tells p pi (t ∷ text)) o
    step-Ends k t text o into back (code, d, e, says, v) =
        (code, d, e, step-Tells k t text code into back says, v)

  -- The case of a bracket.
  at_bracket-Tells :
      (next : Next) (start pi c t : ℕ) (rest text : Bytes) (o : Option (BracketSet × BracketCache))
      → At p pi c rest opening
      → ((k : ℕ) → pi < k → Answers p next k)
      → Gives p pi o
      → Ends p (Tells p pi (t ∷ text)) (at_bracket no_flags p next start t text o)
  at_bracket-Tells next start pi c t rest text o (h, n) answers (b, d, e, r, v) =
      rw (e) (elim (Bool-cases b.abort) [
        | inl q ↦ rw (q) (wm_abort_all, d, refl, never q, v)
        | inr q ↦ rw (q) (elim (Bool-cases (has b.accept t)) [
          | inr out ↦
              rw (out)
                (wm_no_match, d, refl, λ m. false≢true (sym out ∙ (opening_inv p (h, n) r m).1), v)
          | inl within ↦ rw (within) (
              step-Ends h no_star (suc b.end) t text _ (λ m. in_set h n r q within m)
                (λ u x m. (opening_inv p (h, n) r m).2)
                (answers (suc b.end) (omega (arith, end-behind p pi b r q)) start text d v))
        ])
      ])
    where
      no_star : kind_of c ≢ asterisk
      no_star k = cc

      never : b.abort ≡ true → (left : Bytes) → Suffix left (t ∷ text) → ¬ Matches p pi left
      never q [] s m = Matches-nil p h no_star m
      never q (u ∷ x) s m = true≢false (sym q ∙ (opening_inv p (h, n) r m).0)

  at_escape-Tells :
      (next : Next) (start pi e t : ℕ) (rest text : Bytes) (c : BracketCache)
      → At p pi e rest escape
      → ((k : ℕ) → pi < k → Answers p next k)
      → IsValid p c
      → Ends p (Tells p pi (t ∷ text)) (at_escape no_flags p next start pi rest t text c)
  at_escape-Tells next start pi e t [] text c (h, n) answers v = (
    wm_no_match,
    c,
    refl,
    λ m.
        let (left, same, _) = escape_inv p (h, n) m in
        (let same' : (let r : Bytes = [] in r) ≡ t ∷ left = same in cc),
    v,
  )
  at_escape-Tells next start pi e t (d ∷ rest) text c (h, n) answers v =
      elim (Bool-cases (t == d)) [
        | inl q ↦ rw (q) (
            step-Ends h (λ k. cc) (pi + 2) t text _
              (λ m. one_escaped (escaped ((==_iff t d).0 q)) n m)
              (λ u x m. (escape_inv p (h, n) m).2) (answers (pi + 2) (omega arith) start text c v))
        | inr q ↦
            rw (q) (wm_no_match, c, refl, λ m. false≢true (sym q ∙ (==_iff t d).1 (byte_is m)), v)
      ]
    where
      escaped : t ≡ d → drop pi p ≡ e ∷ t ∷ rest
      escaped q = cc

      byte_is : Matches p pi (t ∷ text) → t ≡ d
      byte_is m = let (left, same, _) = escape_inv p (h, n) m in cc

  -- The case of a literal.
  literal-Tells :
      (next : Next) (start pi ch t : ℕ) (rest text : Bytes) (c : BracketCache)
      → At p pi ch rest literal
      → ((k : ℕ) → pi < k → Answers p next k)
      → IsValid p c
      → Ends p
          (Tells p pi (t ∷ text))
          (if not (t == ch) then some (wm_no_match, c) else next start (suc pi) text c)
  literal-Tells next start pi ch t rest text c (h, n) answers v = elim (Bool-cases (t == ch)) [
    | inl q ↦ rw (q) (
        step-Ends h (λ k. cc) (suc pi) t text _
          (λ m. one_literal (here ((==_iff t ch).0 q)) (kind ((==_iff t ch).0 q)) m)
          (λ u x m. (literal_inv p (h, n) m).1) (answers (suc pi) (omega arith) start text c v))
    | inr q ↦ rw (q) (
      wm_no_match,
      c,
      refl,
      λ m. false≢true (sym q ∙ (==_iff t ch).1 (literal_inv p (h, n) m).0),
      v,
    )
  ]
    where
      here : t ≡ ch → drop pi p ≡ t ∷ rest
      here q = cc

      kind : t ≡ ch → kind_of t ≡ literal
      kind q = cc

  asterisk→== : (c : ℕ) → kind_of c ≡ asterisk → (c == 42) ≡ true
  unfolding kind_of
  asterisk→== c h = ground arith

  at_byte-Tells :
      (next : Next) (start pi ch t : ℕ) (rest text : Bytes) (c : BracketCache) (k : Kind)
      → At p pi ch rest k
      → ((k : ℕ) → pi < k → Answers p next k)
      → IsValid p c
      → Ends p
          (Tells p pi (t ∷ text))
          (at_byte no_flags p next start pi ch rest t text (t ∷ text) c k)
  unfolding at_byte
  at_byte-Tells next start pi ch t rest text c escape (h, n) answers v =
      at_escape-Tells next start pi ch t rest text c (h, n) answers v
  at_byte-Tells next start pi ch t rest text c question (h, n) answers v =
      step-Ends h (λ k. cc) (suc pi) t text _ (λ m. any_byte h n m)
        (λ u x m. question_inv p (h, n) m) (answers (suc pi) (omega arith) start text c v)
  at_byte-Tells next start pi ch t rest text c asterisk (h, n) answers v =
      at_star-Tells p next start pi ch rest (t ∷ text) c h (asterisk→== ch n) answers v
  at_byte-Tells next start pi ch t rest text c opening (h, n) answers v =
      at_bracket-Tells next start pi ch t rest text _ (h, n) answers (get-Gives p pi c v)
  at_byte-Tells next start pi ch t rest text c literal (h, n) answers v =
      literal-Tells next start pi ch t rest text c (h, n) answers v

  round-Tells :
      (next : Next) (start pi : ℕ) (rest text : Bytes) (c : BracketCache)
      → drop pi p ≡ rest
      → ((ch : ℕ) (more : Bytes) → rest ≡ ch ∷ more → (k : ℕ) → pi < k → Answers p next k)
      → IsValid p c
      → Ends p (Tells p pi text) (round no_flags p next start pi rest text c)
  unfolding round
  round-Tells next start pi [] [] c h answers v = (wm_match, c, refl, done h, v)
  round-Tells next start pi [] (t ∷ text) c h answers v =
      (wm_no_match, c, refl, λ m. (let e : t ∷ text ≡ [] = Matches-end p h m in cc), v)
  round-Tells next start pi (ch ∷ rest) [] c h answers v = elim (Bool-cases (ch == 42)) [
    | inl q ↦ rw (q) (at_star-Tells p next start pi ch rest [] c h q (answers ch rest refl) v)
    | inr q ↦ rw (q) (wm_abort_all, c, refl, Never-nil p h q, v)
  ]
  round-Tells next start pi (ch ∷ rest) (t ∷ text) c h answers v =
      at_byte-Tells next start pi ch t rest text c (kind_of ch) (h, refl) (answers ch rest refl) v

  -- With fuel for what is left of the pattern, `dowild` ends with a code that tells the truth.
  dowild-Answers : (fuel pi : ℕ) → length p - pi < fuel → Answers p (dowild no_flags p fuel) pi
  unfolding dowild
  dowild-Answers zero pi h start text c v = absurd (omega arith)
  dowild-Answers (suc fuel) pi h start text c v =
      round-Tells (dowild no_flags p fuel) start pi (drop pi p) text c refl
        (λ ch more e k after. dowild-Answers fuel k (less ch more e k after)) v
    where
      less :
          (ch : ℕ) (more : Bytes) → drop pi p ≡ ch ∷ more → (k : ℕ) → pi < k → length p - k < fuel
      less ch more e k after = omega (arith, sym (length-drop pi p) ∙ ap length e)

  wildmatch-code :
      (text : Bytes) (o : Outcome)
      → Ends p (Tells p 0 text) o
      → (b : Bool) × (c : BracketCache) × (code_of o ≡ some (b, c))
        × ((b ≡ true) ↔ Matches p 0 text)
        × IsValid p c
  wildmatch-code text o (wm_match, c, e, says, v) =
      (true, c, rw (e) refl, (λ q. says, λ m. refl), v)
  wildmatch-code text o (wm_no_match, c, e, says, v) =
      (false, c, rw (e) refl, (λ q. cc, λ m. absurd (says m)), v)
  wildmatch-code text o (wm_abort_all, c, e, says, v) =
      (false, c, rw (e) refl, (λ q. cc, λ m. absurd (says text all_of m)), v)
  wildmatch-code text o (wm_abort_to_star_star, c, e, says, v) = absurd says

-- With a cache that holds for every bracket the set that reading it gives, wildmatch returns,
-- answers true exactly where the text matches the pattern, whatever the order of the search, and
-- leaves such a cache behind.
pub wildmatch-Matches :
    (p text : Bytes) (brackets : BracketCache)
    → IsValid p brackets
    → (b : Bool) × (after : BracketCache) × (wildmatch p text brackets ≡ some (b, after))
      × ((b ≡ true) ↔ Matches p 0 text)
      × IsValid p after
unfolding wildmatch
wildmatch-Matches p text brackets v =
    wildmatch-code p text _ (dowild-Answers p (suc (length p)) 0 (omega arith) 0 text brackets v)
