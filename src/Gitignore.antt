-- ===== src/Gitignore.antt =====
-- plumbing/format/gitignore: patterns of ignore files, and the matcher of wildcards ported from
-- Git's wildmatch.c. A string is the list of its bytes, and a position in the pattern an index.
pub mod BracketSet
mod Ranges
pub mod ByteSets
pub mod ReadBracket
pub mod BracketCache
pub mod Wildmatch
pub mod Matches
mod Brackets
mod Cached
mod Runs
pub mod Stars
pub mod Decides
pub mod Pattern
pub mod Names
pub mod Globs
pub mod Plain
pub mod Order
mod Examples
use go_git.Prelude.{ℕ, Bool, false, true, ◌||◌, ◌&&◌, ◌==◌, leb, ltb, ◌+◌, if◌then◌else◌}

-- The flags wmCasefold and wmPathname.
pub record Flags : Type 0 where
  pub casefold : Bool
  pub pathname : Bool

-- `flags = 0`, as wildmatch has it.
abbrev pub no_flags : Flags
no_flags = record { casefold = false; pathname = false }

abbrev pub is_ascii_digit : ℕ → Bool
is_ascii_digit ch = leb 48 ch && leb ch 57

abbrev pub is_ascii_upper : ℕ → Bool
is_ascii_upper ch = leb 65 ch && leb ch 90

abbrev pub is_ascii_lower : ℕ → Bool
is_ascii_lower ch = leb 97 ch && leb ch 122

abbrev pub is_ascii_alpha : ℕ → Bool
is_ascii_alpha ch = leb 97 ch && leb ch 122 || leb 65 ch && leb ch 90

abbrev pub is_ascii_punct : ℕ → Bool
is_ascii_punct ch =
    leb 33 ch && leb ch 47
    || leb 58 ch && leb ch 64
    || leb 91 ch && leb ch 96
    || leb 123 ch && leb ch 126

-- A byte in lower case where the flag for it is set; 'a' - 'A' is 32.
abbrev pub fold : Flags → ℕ → ℕ
fold flags ch = if flags.casefold && is_ascii_upper ch then ch + 32 else ch
