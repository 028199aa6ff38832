-- ===== src/Gitignore/Examples.antt =====
-- Runs of the matcher of ignore patterns, and the theorems at concrete inputs.
use go_git.Prelude.{
  ◌^◌, ◌≡◌, ◌↔◌, ◌⊎◌, refl, arith, Bool, false, true, not, ◌||◌, ◌&&◌, ◌==◌, leb, some, List, ◌∷◌,
  [],
}
use go_git.Prelude.Text.{Bytes, codes}
use go_git.RefName.{split, push}
use go_git.Gitignore.{is_ascii_digit}
use go_git.Gitignore.BracketSet.{Words, add, add_range, has, complement, class_words}
use go_git.Gitignore.ByteSets.{has-sets}
use go_git.Gitignore.BracketCache.{BracketCache, no_brackets}
use go_git.Gitignore.Cached.{IsValid}
use go_git.Gitignore.Wildmatch.{
  wildmatch, dowild, round, at_byte, at_star, double_star, behind_stars, star_loop, after_try,
  kind_of, count_stars, is_glob_special,
}
use go_git.Gitignore.Matches.{Matches}
use go_git.Gitignore.Decides.{wildmatch-Matches}
use go_git.Gitignore.Pattern.{
  exclude, name_loop, Pattern, parse_pattern, trim_right_spaces, read_stars, below_domain,
  match_pattern, match, match_loop, simple_name_match, glob_match, glob_loop, glob_segment,
  traverse, is_empty,
}
use go_git.Gitignore.Names.{Decides, Named, simple_name_match-Named}
use go_git.Gitignore.Globs.{Segments, anchored, glob_match-Segments}
use go_git.Gitignore.Plain.{Covers, glob_match-plain}
use go_git.Gitignore.Order.{IsSilent, Verdict, last_excludes, match-Verdict}

-- The bytes of the range and its ends, in a set that holds 'a'.
abbrev a_only : Words
a_only = 0 ∷ 2 ^ 33 ∷ 0 ∷ 0 ∷ []

has-sets_example :
    (has (add_range 60 70 a_only) 64 ≡ (has a_only 64 || (leb 60 64 && leb 64 70)))
    × (has (add 70 a_only) 64 ≡ (has a_only 64 || (70 == 64)))
    × (has (complement a_only) 64 ≡ not (has a_only 64))
    × (has (class_words is_ascii_digit 256) 64 ≡ is_ascii_digit 64)
has-sets_example =
    has-sets a_only 60 70 64 is_ascii_digit refl
      (omega arith, (omega arith, (omega arith, (omega arith, tt)))) (omega arith) (omega arith)

abbrev wild : Bytes
wild = codes "a**[^x-z]?\\*"

abbrev text : Bytes
text = codes "abcdq*"

matched : wildmatch (codes "a*b") (codes "acb") no_brackets ≡ some (true, no_brackets)
unfolding wildmatch dowild round at_byte at_star double_star behind_stars star_loop after_try
    kind_of count_stars is_glob_special
matched = refl

wildmatch-Matches_example :
    (b : Bool) × (after : BracketCache) × (wildmatch wild text no_brackets ≡ some (b, after))
    × ((b ≡ true) ↔ Matches wild 0 text)
    × IsValid wild after
wildmatch-Matches_example = wildmatch-Matches wild text no_brackets (tt, tt)

abbrev deep_path : List Bytes
deep_path = codes "a" ∷ codes "x" ∷ codes "a" ∷ codes "b" ∷ []

simple_name_match-Named_example :
    Decides
      (Named (codes "x*") true false deep_path)
      (simple_name_match true false (codes "x*" ∷ []) deep_path)
simple_name_match-Named_example = simple_name_match-Named (codes "x*") [] deep_path true false

glob_match-Segments_example :
    (b : Bool) × (glob_match false false ([] ∷ codes "**" ∷ codes "b" ∷ []) deep_path ≡ some b)
    × ((b ≡ false)
        ⊎ ((left : List Bytes) × Segments false
              (anchored ([] ∷ codes "**" ∷ codes "b" ∷ []))
              deep_path
              left
            × ((false && not false && is_empty left) ≡ false)))
glob_match-Segments_example =
    glob_match-Segments false false ([] ∷ codes "**" ∷ codes "b" ∷ []) deep_path

glob_match-plain_example :
    Decides
      (Covers true false (codes "a" ∷ codes "?" ∷ []) deep_path)
      (glob_match true false ([] ∷ codes "a" ∷ codes "?" ∷ []) deep_path)
glob_match-plain_example =
    glob_match-plain true false ([] ∷ codes "a" ∷ codes "?" ∷ []) (codes "a") (codes "?" ∷ [])
      deep_path refl refl

-- A pattern of another directory, over one of the root.
abbrev elsewhere : Pattern
elsewhere = record {
  domain = codes "other" ∷ [];
  pattern = codes "a" ∷ [];
  inclusion = true;
  dir_only = false;
  is_glob = false;
}

abbrev here : Pattern
here = record elsewhere { domain = []; inclusion = false }

elsewhere-IsSilent : IsSilent (codes "a" ∷ []) false elsewhere
unfolding match_pattern below_domain
elsewhere-IsSilent = refl

match-Verdict_example :
    (match (here ∷ elsewhere ∷ []) (codes "a" ∷ []) false ≡ some true)
    ↔ Verdict (codes "a" ∷ []) false (here ∷ elsewhere ∷ []) true
match-Verdict_example = match-Verdict (codes "a" ∷ []) false (here ∷ elsewhere ∷ []) true

here-excludes : match_pattern here (codes "a" ∷ []) false ≡ some exclude
unfolding match_pattern below_domain simple_name_match name_loop wildmatch dowild round at_byte
    kind_of
here-excludes = refl

-- Behind the pattern that excludes the path stands one that says nothing of it.
here-Verdict : Verdict (codes "a" ∷ []) false (here ∷ elsewhere ∷ []) true
here-Verdict = last_excludes [] here (elsewhere ∷ []) here-excludes (elsewhere-IsSilent, tt)

-- "**/a/b" does not ignore a/x/a/b: "**" passes over nothing, and the second "a" is not tried.
second_place_missed : match (parse_pattern (codes "**/a/b") [] ∷ []) deep_path false ≡ some false
unfolding parse_pattern trim_right_spaces read_stars split push match match_loop match_pattern
    below_domain glob_match glob_loop glob_segment traverse wildmatch dowild round at_byte kind_of
second_place_missed = refl

first_place_found :
    match (parse_pattern (codes "**/a/b") [] ∷ []) (codes "x" ∷ codes "a" ∷ codes "b" ∷ []) false
    ≡ some true
unfolding parse_pattern trim_right_spaces read_stars split push match match_loop match_pattern
    below_domain glob_match glob_loop glob_segment traverse wildmatch dowild round at_byte kind_of
first_place_found = refl
