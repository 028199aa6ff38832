-- ===== src/Gitignore/Plain.antt =====
-- Patterns with a slash and without "**".
use go_git.Prelude.{
  ◌≡◌, ◌⊎◌, refl, sym, ap, subst, ◌∙◌, inl, inr, List, [], ◌∷◌, Bool, true, false, not, ◌&&◌, some,
  all, ap₂, some_inj,
}
use mathlib.Core.Bool.{false≢true, or-false}
use go_git.Prelude.Text.{Bytes, same}
use go_git.Gitignore.BracketCache.{no_brackets}
use go_git.Gitignore.Matches.{Matches}
use go_git.Gitignore.Decides.{wildmatch-Matches}
use go_git.Gitignore.Pattern.{
  is_empty, zero_to_many_dirs, ended, glob_segment, glob_loop, glob_match,
}
use go_git.Gitignore.Names.{Decides, not-eq_true, and-false}
use go_git.Gitignore.Globs.{
  Segments, nothing, segment, deep, deep_end, deeper, anchored, glob_match-Segments,
}

-- A segment that is neither empty nor "**".
abbrev pub is_plain : Bytes → Bool
is_plain seg = not (is_empty seg) && not (same seg zero_to_many_dirs)

-- The segments take the path, and a rule for directories has a directory.
abbrev pub Covers : Bool → Bool → List Bytes → List Bytes → Type 0
Covers dir_only is_dir segs path =
    (left : List Bytes) × Segments is_dir segs path left
    × ((dir_only && not is_dir && is_empty left) ≡ false)

both_true : (a b : Bool) → (a && b) ≡ true → (a ≡ true) × (b ≡ true)
both_true true true h = (refl, refl)
both_true true false h = cc
both_true false b h = cc

module _ (dir_only is_dir : Bool) where
  -- Such a segment takes the component that it matches.
  segment_inv :
      (seg : Bytes) (segs path left : List Bytes)
      → is_plain seg ≡ true
      → Segments is_dir (seg ∷ segs) path left
      → (e : Bytes) × (rest : List Bytes) × (path ≡ e ∷ rest)
        × Matches seg 0 e
        × Segments is_dir segs rest left
  segment_inv seg segs (e ∷ rest) left h (segment m s) = (e, rest, refl, m, s)
  segment_inv seg (next ∷ segs) path left h (deep s) = cc
  segment_inv seg [] path left h (deep_end q) = cc
  segment_inv seg segs (e ∷ rest) left h (deeper s) = cc

  glob_loop-segment :
      (seg : Bytes) (segs : List Bytes) (e : Bytes) (path : List Bytes) (matched : Bool)
      → is_plain seg ≡ true
      → Matches seg 0 e
      → glob_loop dir_only is_dir false (seg ∷ segs) (e ∷ path) matched false
        ≡ glob_loop dir_only is_dir false segs path
            (not (is_empty path && not (is_empty segs)))
            false
  unfolding glob_loop glob_segment
  glob_loop-segment [] segs e path matched h m = cc
  glob_loop-segment (c ∷ cs) segs e path matched h m =
      let apart : same (c ∷ cs) zero_to_many_dirs ≡ false = not-eq_true _ h in
      let (b, after, eq, iff, w) = wildmatch-Matches (c ∷ cs) e no_brackets (tt, tt) in
      let yes : b ≡ true = iff.1 m in rw (apart) (rw (eq) (rw (yes) refl))

  nothing_inv : (path left : List Bytes) → Segments is_dir [] path left → path ≡ left
  nothing_inv path left nothing = refl

  -- Where such segments take a path, the loop ends with what is left of it.
  glob_loop-ended :
      (seg : Bytes) (segs path left : List Bytes) (matched : Bool)
      → all is_plain (seg ∷ segs) ≡ true
      → Segments is_dir (seg ∷ segs) path left
      → glob_loop dir_only is_dir false (seg ∷ segs) path matched false
        ≡ some (ended left true false)
  unfolding glob_loop
  glob_loop-ended seg [] path left matched h s =
      let (plain, rest) = both_true (is_plain seg) true h in
      let (e, path', eq, m, s') = segment_inv seg [] path left plain s in
      ap (λ x. glob_loop dir_only is_dir false (seg ∷ []) x matched false) eq
      ∙ glob_loop-segment seg [] e path' matched plain m
      ∙ ap₂ (λ x b. some (ended x b false)) (nothing_inv path' left s')
          (and-false true (is_empty path'))
  glob_loop-ended seg (next ∷ segs) path left matched h s =
      let (plain, rest) = both_true (is_plain seg) (all is_plain (next ∷ segs)) h in
      let (e, path', eq, m, s') = segment_inv seg (next ∷ segs) path left plain s in
      ap (λ x. glob_loop dir_only is_dir false (seg ∷ next ∷ segs) x matched false) eq
      ∙ glob_loop-segment seg (next ∷ segs) e path' matched plain m
      ∙ glob_loop-ended next segs path' left _ rest s'

  glob_loop-anchored :
      (pattern : List Bytes) (seg : Bytes) (segs path : List Bytes)
      → anchored pattern ≡ seg ∷ segs
      → glob_loop dir_only is_dir true pattern path false false
        ≡ glob_loop dir_only is_dir false (seg ∷ segs) path false false
  unfolding glob_loop
  glob_loop-anchored [] seg segs path h = cc
  glob_loop-anchored ([] ∷ rest) seg segs path h =
      ap (λ l. glob_loop dir_only is_dir false l path false false) h
  glob_loop-anchored ((c ∷ cs) ∷ rest) seg segs path h =
      ap (λ l. glob_loop dir_only is_dir false l path false false) h

  Covers-true :
      (pattern : List Bytes) (seg : Bytes) (segs path : List Bytes)
      → anchored pattern ≡ seg ∷ segs
      → all is_plain (seg ∷ segs) ≡ true
      → Covers dir_only is_dir (seg ∷ segs) path
      → glob_match dir_only is_dir pattern path ≡ some true
  unfolding glob_match
  Covers-true pattern seg segs path h plain (left, s, dir) =
      let run : glob_loop dir_only is_dir true pattern path false false
          ≡ some (ended left true false) =
        glob_loop-anchored pattern seg segs path h
        ∙ glob_loop-ended seg segs path left false plain s in
      rw (run) (rw (or-false (is_empty left)) (rw (dir) refl))

  -- For a pattern with a slash of which no segment, the empty one in front apart, is empty or
  -- "**", globMatch returns, and answers true exactly where the segments match components of the
  -- path one by one from its start, and, in a rule for directories, the path goes on behind them
  -- or the candidate is a directory.
  pub glob_match-plain :
      (pattern : List Bytes) (seg : Bytes) (segs path : List Bytes)
      → anchored pattern ≡ seg ∷ segs
      → all is_plain (seg ∷ segs) ≡ true
      → Decides (Covers dir_only is_dir (seg ∷ segs) path) (glob_match dir_only is_dir pattern path)
  glob_match-plain pattern seg segs path h plain =
      let (b, e, sound) = glob_match-Segments dir_only is_dir pattern path in
      (
        b,
        e,
        (
          (λ q. covered b q (subst (λ l. (b ≡ false) ⊎ Covers dir_only is_dir l path) h sound)),
          λ c. some_inj (sym e ∙ Covers-true pattern seg segs path h plain c),
        ),
      )
    where
      covered :
          (b : Bool)
          → b ≡ true
          → (b ≡ false) ⊎ Covers dir_only is_dir (seg ∷ segs) path
          → Covers dir_only is_dir (seg ∷ segs) path
      covered b q (inl r) = absurd (false≢true (sym r ∙ q))
      covered b q (inr c) = c
