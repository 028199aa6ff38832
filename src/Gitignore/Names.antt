-- ===== src/Gitignore/Names.antt =====
-- Patterns without a slash, and the components of a path that they name.
use go_git.Prelude.{
  ◌≡◌, ◌↔◌, refl, List, [], ◌∷◌, Bool, true, false, not, ◌&&◌, if◌then◌else◌, Option, some,
}
use go_git.Prelude.Text.{Bytes}
use go_git.Gitignore.BracketCache.{BracketCache, no_brackets}
use go_git.Gitignore.Cached.{IsValid}
use go_git.Gitignore.Matches.{Matches}
use go_git.Gitignore.Decides.{wildmatch-Matches}
use go_git.Gitignore.Pattern.{is_empty, name_loop, simple_name_match}

-- A component matches, and a rule for directories has a directory there: the candidate is one or
-- the path goes on.
pub data Named (first : Bytes) (dir_only is_dir : Bool) : List Bytes → Type 0 where
  here :
      {name : Bytes} {path : List Bytes}
      → Matches first 0 name
      → (dir_only && not is_dir && is_empty path) ≡ false
      → Named first dir_only is_dir (name ∷ path)
  later :
      {name : Bytes} {path : List Bytes}
      → Named first dir_only is_dir path
      → Named first dir_only is_dir (name ∷ path)

-- The run returns, and says true exactly where `G` holds.
abbrev pub Decides : Type 0 → Option Bool → Type 0
Decides G o = (b : Bool) × (o ≡ some b) × ((b ≡ true) ↔ G)

pub not-eq_true : (b : Bool) → not b ≡ true → b ≡ false
not-eq_true true h = cc
not-eq_true false h = refl

pub and-false : (a b : Bool) → not (a && b && false) ≡ true
and-false true true = refl
and-false true false = refl
and-false false b = refl

module _ (first : Bytes) (dir_only is_dir : Bool) where
  Named-shown :
      (name : Bytes) (path : List Bytes)
      → Named first dir_only is_dir (name ∷ path)
      → not (dir_only && not is_dir && is_empty path) ≡ true
  Named-shown name path (here m q) = rw (q) refl
  Named-shown name (e ∷ path) (later n) = and-false dir_only (not is_dir)
  Named-shown name [] (later n) = elim n [ ]

  step-Decides :
      (name : Bytes) (path : List Bytes) (b : Bool) (rest : Option Bool)
      → (b ≡ true) ↔ Matches first 0 name
      → Decides (Named first dir_only is_dir path) rest
      → Decides
          (Named first dir_only is_dir (name ∷ path))
          (if not b then rest else some (not (dir_only && not is_dir && is_empty path)))
  step-Decides name path false rest named (b, e, iff) =
      (b, e, (λ q. later (iff.0 q), λ n. iff.1 (behind n)))
    where
      behind : Named first dir_only is_dir (name ∷ path) → Named first dir_only is_dir path
      behind (here m q) = (let e : false ≡ true = named.1 m in cc)
      behind (later n) = n
  step-Decides name path true rest named d =
      (_, refl, (λ q. here (named.0 refl) (not-eq_true _ q), Named-shown name path))

  name_loop-Decides :
      (path : List Bytes) (brackets : BracketCache)
      → IsValid first brackets
      → Decides (Named first dir_only is_dir path) (name_loop dir_only is_dir first path brackets)
  unfolding name_loop
  name_loop-Decides [] brackets v = (false, refl, (λ q. cc, λ n. elim n [ ]))
  name_loop-Decides (name ∷ path) brackets v =
      let (b, after, e, iff, w) = wildmatch-Matches first name brackets v in
      rw (e) (step-Decides name path b _ iff (name_loop-Decides path after w))

-- For a pattern with a first segment, simpleNameMatch returns, and answers true exactly where some
-- component of the path matches the segment, and, in a rule for directories, the path goes on
-- behind it or the candidate is a directory.
pub simple_name_match-Named :
    (first : Bytes) (segs path : List Bytes) (dir_only is_dir : Bool)
    → Decides
        (Named first dir_only is_dir path)
        (simple_name_match dir_only is_dir (first ∷ segs) path)
unfolding simple_name_match
simple_name_match-Named first segs path dir_only is_dir =
    name_loop-Decides first dir_only is_dir path no_brackets (tt, tt)
