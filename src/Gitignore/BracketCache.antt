-- ===== src/Gitignore/BracketCache.antt =====
-- plumbing/format/gitignore/pattern.go: the brackets of one pattern, kept by the offset of their
-- '['. Of the two arrays only the entries below `n` are held, as they are the ones ever read.
use go_git.Prelude.{ℕ, List, [], ◌∷◌, ◌++◌, ◌==◌, ltb, if◌then◌else◌, length, Option, none, some}
use go_git.Prelude.Text.{Bytes}
use go_git.Gitignore.{Flags}
use go_git.Gitignore.ReadBracket.{BracketSet, read_bracket}

abbrev pub Entries : Type 0
Entries = List (ℕ × BracketSet)

pub record BracketCache : Type 0 where
  pub entries : Entries
  pub overflow : Entries

-- A new cache, and one that is reset.
abbrev pub no_brackets : BracketCache
no_brackets = record { entries = []; overflow = [] }

-- `inlineBrackets`
abbrev pub inline_brackets : ℕ
inline_brackets = 4

unfoldable pub find_entry : ℕ → Entries → Option BracketSet
find_entry start [] = none
find_entry start (e ∷ es) =
    let rest = find_entry start es in if e.0 == start then some e.1 else rest

abbrev pub keep_set : ℕ → BracketCache → BracketSet → BracketSet × BracketCache
keep_set start c b =
    if ltb (length c.entries) inline_brackets
    then (b, record c { entries = c.entries ++ (start, b) ∷ [] })
    else (b, record c { overflow = (start, b) ∷ c.overflow })

abbrev pub or_read : ℕ → BracketCache → Option BracketSet → Option (BracketSet × BracketCache)
or_read start c none = none
or_read start c (some b) = some (keep_set start c b)

abbrev pub or_look :
    Option BracketSet
    → BracketCache
    → Option (BracketSet × BracketCache)
    → Option (BracketSet × BracketCache)
or_look none c other = other
or_look (some b) c other = some (b, c)

-- `get`, `none` where reading the bracket runs out of fuel.
unfoldable pub get : Flags → Bytes → ℕ → BracketCache → Option (BracketSet × BracketCache)
get flags p start c =
    or_look (find_entry start c.entries) c
      (or_look (find_entry start c.overflow) c (or_read start c (read_bracket flags p start)))
