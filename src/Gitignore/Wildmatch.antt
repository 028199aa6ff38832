-- ===== src/Gitignore/Wildmatch.antt =====
-- plumbing/format/gitignore/pattern.go: `dowild` and `wildmatch`. The cache of brackets is passed
-- in and returned. A text is what is left of it, and the loop over the pattern has fuel.
use go_git.Prelude.{
  ℕ, zero, suc, ◌+◌, ◌-◌, [], ◌∷◌, Bool, false, true, not, ◌||◌, ◌&&◌, ◌==◌, ltb, if◌then◌else◌,
  get_or, length, drop, Option, none, some,
}
use go_git.Prelude.Text.{Bytes}
use go_git.Gitignore.{Flags, no_flags, fold}
use go_git.Gitignore.BracketSet.{has}
use go_git.Gitignore.ReadBracket.{BracketSet}
use go_git.Gitignore.BracketCache.{BracketCache, get}

pub data Code : Type 0 where
  wm_match : Code
  wm_no_match : Code
  wm_abort_all : Code
  wm_abort_to_star_star : Code

-- The code with the cache after it; `none` is out of fuel.
abbrev pub Outcome : Type 0
Outcome = Option (Code × BracketCache)

-- `dowild` goes on at a position for a text; the first number is its `pStart`.
abbrev pub Next : Type 0
Next = ℕ → ℕ → Bytes → BracketCache → Outcome

-- The cases of the switch over a byte of the pattern.
pub data Kind : Type 0 where
  escape : Kind
  question : Kind
  asterisk : Kind
  opening : Kind
  literal : Kind

unfoldable pub kind_of : ℕ → Kind
kind_of c =
    if c == 92
    then escape
    else if c == 63
    then question
    else if c == 42
    then asterisk
    else if c == 91
    then opening
    else literal

unfoldable pub is_glob_special : ℕ → Bool
is_glob_special c = c == 42 || c == 63 || c == 91 || c == 92

unfoldable pub count_stars : Bytes → ℕ
count_stars [] = 0
count_stars (c ∷ cs) = let rest = count_stars cs in if c == 42 then suc rest else 0

abbrev pub starts_with : ℕ → Bytes → Bool
starts_with b [] = false
starts_with b (c ∷ cs) = c == b

unfoldable pub has_byte : ℕ → Bytes → Bool
has_byte b [] = false
has_byte b (c ∷ cs) = c == b || has_byte b cs

-- The text behind the first '/'.
unfoldable pub after_slash : Bytes → Option Bytes
after_slash [] = none
after_slash (c ∷ cs) = let rest = after_slash cs in if c == 47 then some cs else rest

abbrev abort_of : Bool → Code
abort_of match_slash = if match_slash then wm_abort_all else wm_abort_to_star_star

module _ (flags : Flags) (p : Bytes) where
  -- What the loop over the text makes of the code of a recursive call.
  unfoldable pub after_try : Bool → ℕ → (BracketCache → Outcome) → Outcome → Outcome
  after_try match_slash t_ch again none = none
  after_try match_slash t_ch again (some (wm_match, c)) = some (wm_match, c)
  after_try match_slash t_ch again (some (wm_abort_all, c)) = some (wm_abort_all, c)
  after_try match_slash t_ch again (some (wm_abort_to_star_star, c)) =
      if match_slash then some (wm_abort_to_star_star, c) else again c
  after_try match_slash t_ch again (some (wm_no_match, c)) =
      if not match_slash && t_ch == 47 then some (wm_abort_to_star_star, c) else again c

  -- The loop over the text behind a star; `skipping` while the inner loop looks for a literal.
  unfoldable pub star_loop : Next → Bool → ℕ → ℕ → Bool → Bytes → BracketCache → Outcome
  star_loop next match_slash pi p_ch skipping [] c =
      some (if skipping then abort_of match_slash else wm_abort_all, c)
  star_loop next match_slash pi p_ch skipping (t_ch ∷ text) c =
      let found = is_glob_special p_ch || fold flags t_ch == fold flags p_ch in
      if found
      then after_try match_slash t_ch (λ d. star_loop next match_slash pi p_ch false text d)
          (next pi pi (t_ch ∷ text) c)
      else if not match_slash && t_ch == 47
      then some (wm_abort_to_star_star, c)
      else star_loop next match_slash pi p_ch true text c

  abbrev pub on_from_slash : Next → ℕ → ℕ → BracketCache → Option Bytes → Outcome
  on_from_slash next start pi c none = some (wm_abort_all, c)
  on_from_slash next start pi c (some text) = next start (suc pi) text c

  -- Behind the stars, at what is left of the pattern from `pi` on.
  unfoldable pub behind_stars : Next → ℕ → Bool → ℕ → Bytes → Bytes → BracketCache → Outcome
  behind_stars next start match_slash pi [] text c =
      some (if not match_slash && has_byte 47 text then wm_abort_to_star_star else wm_match, c)
  behind_stars next start match_slash pi (p_ch ∷ rest) text c =
      if not match_slash && p_ch == 47
      then on_from_slash next start pi c (after_slash text)
      else star_loop next match_slash pi p_ch false text c

  -- "**" stands at a boundary: '/' or the start before it, '/' or the end behind it.
  unfoldable pub at_boundary : ℕ → ℕ → Bytes → Bool
  at_boundary start prev behind =
      (ltb prev (start + 2) || get_or p (prev - 2) 0 == 47) && is_edge behind
    where
      is_edge : Bytes → Bool
      is_edge [] = true
      is_edge (c ∷ []) = c == 47
      is_edge (c ∷ d ∷ rest) = c == 47 || c == 92 && d == 47

  abbrev pub unless_match : Outcome → (BracketCache → Outcome) → Outcome
  unless_match none other = none
  unless_match (some (wm_match, c)) other = some (wm_match, c)
  unless_match (some (wm_no_match, c)) other = other c
  unless_match (some (wm_abort_all, c)) other = other c
  unless_match (some (wm_abort_to_star_star, c)) other = other c

  unfoldable pub double_star : Next → ℕ → ℕ → ℕ → Bytes → BracketCache → Outcome
  double_star next start prev pi text c =
      let behind = drop pi p in
      let across : BracketCache → Outcome = λ d. behind_stars next start true pi behind text d in
      if not flags.pathname
      then across c
      else if at_boundary start prev behind
      then if starts_with 47 behind
        then unless_match (next (suc pi) (suc pi) text c) across
        else across c
      else behind_stars next start false pi behind text c

  -- The '*' case; `rest` is the pattern behind the star at `pi`.
  unfoldable pub at_star : Next → ℕ → ℕ → Bytes → Bytes → BracketCache → Outcome
  at_star next start pi rest text c =
      if starts_with 42 rest
      then double_star next start (suc pi) (suc pi + count_stars rest) text c
      else behind_stars next start (not flags.pathname) (suc pi) rest text c

  abbrev pub at_bracket : Next → ℕ → ℕ → Bytes → Option (BracketSet × BracketCache) → Outcome
  at_bracket next start t_ch text none = none
  at_bracket next start t_ch text (some (b, c)) =
      if b.abort
      then some (wm_abort_all, c)
      else if not (has b.accept t_ch)
      then some (wm_no_match, c)
      else next start (suc b.end) text c

  abbrev pub at_escape : Next → ℕ → ℕ → Bytes → ℕ → Bytes → BracketCache → Outcome
  at_escape next start pi [] t_ch text c = some (wm_no_match, c)
  at_escape next start pi (p_ch ∷ rest) t_ch text c =
      if not (t_ch == p_ch) then some (wm_no_match, c) else next start (pi + 2) text c

  -- The switch at the byte `p_ch` of the pattern and the byte `t_ch` of the text, both folded;
  -- `whole` is the text with the byte.
  unfoldable pub at_byte :
      Next → ℕ → ℕ → ℕ → Bytes → ℕ → Bytes → Bytes → BracketCache → Kind → Outcome
  at_byte next start pi p_ch rest t_ch text whole c escape =
      at_escape next start pi rest t_ch text c
  at_byte next start pi p_ch rest t_ch text whole c question =
      if flags.pathname && t_ch == 47 then some (wm_no_match, c) else next start (suc pi) text c
  at_byte next start pi p_ch rest t_ch text whole c asterisk = at_star next start pi rest whole c
  at_byte next start pi p_ch rest t_ch text whole c opening =
      at_bracket next start t_ch text (get flags p pi c)
  at_byte next start pi p_ch rest t_ch text whole c literal =
      if not (t_ch == p_ch) then some (wm_no_match, c) else next start (suc pi) text c

  -- One round of the outer loop, at what is left of the pattern from `pi` on.
  unfoldable pub round : Next → ℕ → ℕ → Bytes → Bytes → BracketCache → Outcome
  round next start pi [] [] c = some (wm_match, c)
  round next start pi [] (t_ch ∷ text) c = some (wm_no_match, c)
  round next start pi (p_ch ∷ rest) [] c =
      if not (p_ch == 42) then some (wm_abort_all, c) else at_star next start pi rest [] c
  round next start pi (p_ch ∷ rest) (t_ch ∷ text) c =
      let ch = fold flags p_ch in
      at_byte next start pi ch rest (fold flags t_ch) text (t_ch ∷ text) c (kind_of ch)

  unfoldable pub dowild : ℕ → Next
  dowild zero start pi text c = none
  dowild (suc fuel) start pi text c =
      round (λ s i t d. dowild fuel s i t d) start pi (drop pi p) text c

abbrev pub code_of : Outcome → Option (Bool × BracketCache)
code_of none = none
code_of (some (wm_match, c)) = some (true, c)
code_of (some (wm_no_match, c)) = some (false, c)
code_of (some (wm_abort_all, c)) = some (false, c)
code_of (some (wm_abort_to_star_star, c)) = some (false, c)

-- `wildmatch`, with the cache after it. Every round moves on in the pattern.
unfoldable pub wildmatch : Bytes → Bytes → BracketCache → Option (Bool × BracketCache)
wildmatch p text brackets = code_of (dowild no_flags p (suc (length p)) 0 0 text brackets)
