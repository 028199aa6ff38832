-- ===== src/RefSpec.antt =====
-- config/refspec.go: mappings from references to references. Where Go panics on an index or the
-- bounds of a slice, the result is `none`. The functions of Go's package strings are written out.
pub mod Parts
pub mod Reverse
pub mod Matches
mod Examples
use go_git.Prelude.{
  ℕ, zero, suc, ◌+◌, ◌-◌, List, [], ◌∷◌, ◌++◌, Bool, true, false, not, ◌&&◌, ◌||◌, ltb, leb, ◌==◌,
  if◌then◌else◌, length, take, drop, any, Option, none, some,
}
use go_git.Prelude.Text.{Bytes, codes, same, has_prefix, has_suffix}
use go_git.Prelude.Result.{Result, ok, err}
use go_git.Prelude.Partial.{◌>>=◌}

pub data Error : Type 0 where
  malformed_separator : Error
  malformed_wildcard : Error

abbrev pub wildcard : ℕ
wildcard = 42

abbrev pub force : ℕ
force = 43

abbrev pub separator : ℕ
separator = 58

-- Count, Index, Contains and Cut of a byte, and a slice.
pub count : ℕ → Bytes → ℕ
count c [] = 0
count c (x ∷ s) = let rest = count c s in if x == c then suc rest else rest

pub index_next : Option ℕ → Option ℕ
index_next none = none
index_next (some i) = some (suc i)

pub index : ℕ → Bytes → Option ℕ
index c [] = none
index c (x ∷ s) = let rest = index c s in if x == c then some 0 else index_next rest

pub cut : ℕ → Bytes → Bytes × Bytes
cut c [] = ([], [])
cut c (x ∷ s) = let rest = cut c s in if x == c then ([], s) else (x ∷ rest.0, rest.1)

pub slice : Bytes → ℕ → ℕ → Option Bytes
slice s i j = if leb i j && leb j (length s) then some (take (j - i) (drop i s)) else none

pub validate_at : Bytes → Option ℕ → Result Error (Unit {0})
validate_at spec none = err malformed_separator
validate_at spec (some sep) =
    let ws = count wildcard (take sep spec) in
    let wd = count wildcard (drop (sep + 1) spec) in
    if sep + 1 == length spec
    then err malformed_separator
    else if (ws == wd) && ltb ws 2 && ltb wd 2
    then ok tt
    else err malformed_wildcard

pub validate : Bytes → Result Error (Unit {0})
validate spec =
    if not (count separator spec == 1)
    then err malformed_separator
    else validate_at spec (index separator spec)

pub is_force_update : Bytes → Option Bool
is_force_update [] = none
is_force_update (c ∷ s) = some (c == force)

pub is_delete : Bytes → Option Bool
is_delete [] = none
is_delete (c ∷ s) = some (c == separator)

pub src : Bytes → Option Bytes
src spec = do
  forced ← is_force_update spec
  end ← index separator spec
  slice spec (if forced then 1 else 0) end

pub is_wildcard : Bytes → Bool
is_wildcard spec = any (λ c. c == wildcard) spec

pub match_exact : Bytes → Bytes → Option Bool
match_exact spec name = do s ← src spec; some (same s name)

pub match_glob : Bytes → Bytes → Option Bool
match_glob spec name = do
  s ← src spec
  w ← index wildcard s
  let prefix : Bytes = take w s
  let suffix : Bytes = drop (w + 1) s
  some (
      leb (length prefix + length suffix) (length name)
      && has_prefix name prefix
      && has_suffix name suffix)

pub match : Bytes → Bytes → Option Bool
match spec name = if not (is_wildcard spec) then match_exact spec name else match_glob spec name

pub start_of : Option ℕ → ℕ
start_of none = 0
start_of (some sep) = sep + 1

pub dst_glob : Bytes → Bytes → Bytes → Option Bytes
dst_glob s dst name = do
  ws ← index wildcard s
  let tail : ℕ = length s - (ws + 1)
  matched ← (if ltb (length name) tail then none else slice name ws (length name - tail))
  some ((cut wildcard dst).0 ++ matched ++ (cut wildcard dst).1)

-- `Dst`
pub dst : Bytes → Bytes → Option Bytes
dst spec name = do
  s ← src spec
  let rest : Bytes = drop (start_of (index separator spec)) spec
  if not (is_wildcard spec) then some rest else dst_glob s rest name

pub swapped : Bytes → Bytes × Bytes → Bytes
swapped mark (before, after) = mark ++ (after ++ separator ∷ before)

pub reverse : Bytes → Bytes
reverse [] = swapped [] (cut separator [])
reverse (c ∷ s) =
    if c == force
    then swapped (force ∷ []) (cut separator s)
    else swapped [] (cut separator (c ∷ s))

-- `MatchAny`, which stops at the first that matches.
pub match_any : List Bytes → Bytes → Option Bool
match_any [] name = some false
match_any (spec ∷ specs) name =
    let rest = match_any specs name in
    do matched ← match spec name; if matched then some true else rest
