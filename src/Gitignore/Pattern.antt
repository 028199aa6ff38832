-- ===== src/Gitignore/Pattern.antt =====
-- plumbing/format/gitignore/pattern.go and matcher.go: a line of an ignore file, the two ways in
-- which it matches a path, and the matcher over many of them. `none` is a panic or out of fuel.
use go_git.Prelude.{
  List, [], ◌∷◌, Bool, true, false, not, ◌||◌, ◌&&◌, ◌==◌, ltb, if◌then◌else◌, length, all, drop,
  Option, none, some,
}
use go_git.Prelude.Text.{Bytes, codes, same, has_prefix, has_suffix, contains}
use go_git.Prelude.Partial.{◌>>=◌}
use go_git.RefName.{slash, split}
use go_git.Gitignore.BracketCache.{BracketCache, no_brackets}
use go_git.Gitignore.Wildmatch.{wildmatch}
use mathlib.Core.List.{reverse}

pub data MatchResult : Type 0 where
  no_match : MatchResult
  exclude : MatchResult
  include : MatchResult

pub record Pattern : Type 0 where
  pub domain : List Bytes
  pub pattern : List Bytes
  pub inclusion : Bool
  pub dir_only : Bool
  pub is_glob : Bool

abbrev pub zero_to_many_dirs : Bytes
zero_to_many_dirs = codes "**"

-- TrimRight of spaces, from the end on.
abbrev drop_spaces : Bytes → Bytes
drop_spaces [] = []
drop_spaces (c ∷ cs) = let rest = drop_spaces cs in if c == 32 then rest else c ∷ cs

unfoldable pub trim_right_spaces : Bytes → Bytes
trim_right_spaces s = reverse (drop_spaces (reverse s))

abbrev pub is_empty {ℓ} : {A : Type ℓ} → List A → Bool
is_empty [] = true
is_empty (x ∷ xs) = false

-- A segment of three asterisks or more is "**", but for the last of a rule for directories.
unfoldable pub read_stars : Bool → List Bytes → List Bytes
read_stars dir_only [] = []
read_stars dir_only (seg ∷ segs) =
    let rest = read_stars dir_only segs in
    if dir_only && is_empty segs
    then seg ∷ rest
    else if ltb 2 (length seg) && all (λ c. c == 42) seg
    then zero_to_many_dirs ∷ rest
    else seg ∷ rest

unfoldable pub parse_pattern : Bytes → List Bytes → Pattern
parse_pattern line domain =
    let inclusion = has_prefix line (codes "!") in
    let stripped = if inclusion then drop 1 line else line in
    let p = if has_suffix stripped (codes "\\ ") then stripped else trim_right_spaces stripped in
    let dir_only = has_suffix p (codes "/") in
    let named = if dir_only then reverse (drop 1 (reverse p)) else p in
    record {
      domain = domain;
      pattern = read_stars dir_only (split slash named);
      inclusion = inclusion;
      dir_only = dir_only;
      is_glob = contains named (codes "/");
    }

module _ (dir_only is_dir : Bool) where
  -- The loop of `simpleNameMatch`.
  unfoldable pub name_loop : Bytes → List Bytes → BracketCache → Option Bool
  name_loop first [] brackets = some false
  name_loop first (name ∷ path) brackets = wildmatch first name brackets >>= λ r.
      let rest = name_loop first path r.1 in
      if not r.0 then rest else some (not (dir_only && not is_dir && is_empty path))

  unfoldable pub simple_name_match : List Bytes → List Bytes → Option Bool
  simple_name_match [] path = none
  simple_name_match (first ∷ segs) path = name_loop first path no_brackets

  -- What the loop of `globMatch` leaves: the path behind, `matched` and `trailingStar`; or the
  -- function has returned false.
  pub data Globbed : Type 0 where
    returned_false : Globbed
    ended : List Bytes → Bool → Bool → Globbed

  -- The components that "**" passes over until one matches: the path behind that one.
  unfoldable pub traverse : Bytes → List Bytes → BracketCache → Option (Option (List Bytes))
  traverse seg [] brackets = some none
  traverse seg (e ∷ path) brackets = wildmatch seg e brackets >>= λ r.
      let rest = traverse seg path r.1 in if r.0 then some (some path) else rest

  abbrev pub on_traversed : (List Bytes → Option Globbed) → Option (List Bytes) → Option Globbed
  on_traversed next none = some returned_false
  on_traversed next (some path) = next path

  -- A segment that is neither empty nor "**"; `last` is the segment behind which none is left.
  unfoldable pub glob_segment :
      (List Bytes → Bool → Option Globbed) → Bytes → Bool → Bool → List Bytes → Option Globbed
  glob_segment next seg last can_traverse [] = some returned_false
  glob_segment next seg last can_traverse (e ∷ path) =
      if can_traverse
      then traverse seg (e ∷ path) no_brackets >>= on_traversed (λ left. next left true)
      else wildmatch seg e no_brackets >>= λ r.
          if not r.0 then some returned_false else next path (not (is_empty path && not last))

  -- The loop of `globMatch`; `first` is the segment at index 0.
  unfoldable pub glob_loop : Bool → List Bytes → List Bytes → Bool → Bool → Option Globbed
  glob_loop first [] path matched can_traverse = some (ended path matched false)
  glob_loop first (seg ∷ segs) path matched can_traverse =
      let last = is_empty segs in
      if is_empty seg
      then if not first then some returned_false else glob_loop false segs path matched false
      else if same seg zero_to_many_dirs
      then if last
        then (let below = not (is_empty path) || is_dir in some (ended path below below))
        else glob_loop false segs path matched true
      else glob_segment (λ left now. glob_loop false segs left now false) seg last can_traverse path

  abbrev pub glob_end : Globbed → Bool
  glob_end returned_false = false
  glob_end (ended path matched trailing) =
      if matched && dir_only && not is_dir && (is_empty path || trailing) then false else matched

  unfoldable pub glob_match : List Bytes → List Bytes → Option Bool
  glob_match pattern path = glob_loop true pattern path false false >>= λ g. some (glob_end g)

-- The path behind the domain, where it goes on behind it.
unfoldable pub below_domain : List Bytes → List Bytes → Option (List Bytes)
below_domain [] [] = none
below_domain [] (e ∷ path) = some (e ∷ path)
below_domain (d ∷ domain) [] = none
below_domain (d ∷ domain) (e ∷ path) =
    let rest = below_domain domain path in if same e d then rest else none

abbrev pub matched_as : Bool → Bool → MatchResult
matched_as inclusion matched =
    if not matched then no_match else if inclusion then include else exclude

abbrev pub match_below : Pattern → Bool → Option (List Bytes) → Option MatchResult
match_below p is_dir none = some no_match
match_below p is_dir (some path) =
    (if p.is_glob
      then glob_match p.dir_only is_dir p.pattern path
      else simple_name_match p.dir_only is_dir p.pattern path)
    >>= λ matched. some (matched_as p.inclusion matched)

-- Pattern.Match
unfoldable pub match_pattern : Pattern → List Bytes → Bool → Option MatchResult
match_pattern p path is_dir = match_below p is_dir (below_domain p.domain path)

abbrev pub decide_or : MatchResult → Option Bool → Option Bool
decide_or no_match rest = rest
decide_or exclude rest = some true
decide_or include rest = some false

-- The loop of `Matcher.Match`, over the patterns from the last to the first.
unfoldable pub match_loop : List Pattern → List Bytes → Bool → Option Bool
match_loop [] path is_dir = some false
match_loop (p ∷ ps) path is_dir =
    match_pattern p path is_dir >>= λ r. let rest = match_loop ps path is_dir in decide_or r rest

-- Matcher.Match
unfoldable pub match : List Pattern → List Bytes → Bool → Option Bool
match patterns path is_dir = match_loop (reverse patterns) path is_dir
