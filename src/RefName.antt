-- ===== src/RefName.antt =====
-- plumbing/reference.go: the names of references. The functions of Go's package strings that the
-- code calls are written out on bytes.
pub mod Split
pub mod Safe
pub mod Create
mod Examples
use go_git.Prelude.{
  ℕ, zero, suc, List, [], ◌∷◌, ◌++◌, Bool, true, false, not, ◌&&◌, ◌||◌, ltb, ◌==◌, if◌then◌else◌,
  length, any, all, Option, none, some,
}
use go_git.Prelude.Text.{
  Bytes, codes, same, cut_prefix, has_prefix, has_suffix, contains, contains_any,
}
use go_git.Prelude.Result.{Result, ok, err}

pub data Error : Type 0 where
  invalid_reference_name : Bytes → Error

abbrev pub slash : ℕ
slash = 47

abbrev pub ref_prefix : Bytes
ref_prefix = codes "refs/"

abbrev pub ref_head_prefix : Bytes
ref_head_prefix = codes "refs/heads/"

abbrev pub ref_tag_prefix : Bytes
ref_tag_prefix = codes "refs/tags/"

abbrev pub ref_remote_prefix : Bytes
ref_remote_prefix = codes "refs/remotes/"

abbrev pub ref_note_prefix : Bytes
ref_note_prefix = codes "refs/notes/"

pub new_branch_reference_name : Bytes → Bytes
new_branch_reference_name name = ref_head_prefix ++ name

pub new_note_reference_name : Bytes → Bytes
new_note_reference_name name = ref_note_prefix ++ name

pub new_remote_reference_name : Bytes → Bytes → Bytes
new_remote_reference_name remote name = ref_remote_prefix ++ (remote ++ slash ∷ name)

pub new_remote_head_reference_name : Bytes → Bytes
new_remote_head_reference_name remote = ref_remote_prefix ++ (remote ++ slash ∷ codes "HEAD")

pub new_tag_reference_name : Bytes → Bytes
new_tag_reference_name name = ref_tag_prefix ++ name

pub is_branch : Bytes → Bool
is_branch r = has_prefix r ref_head_prefix

pub is_note : Bytes → Bool
is_note r = has_prefix r ref_note_prefix

pub is_remote : Bytes → Bool
is_remote r = has_prefix r ref_remote_prefix

pub is_tag : Bytes → Bool
is_tag r = has_prefix r ref_tag_prefix

pub is_peeled : Bytes → Bool
is_peeled r = has_suffix r (codes "^{}")

pub is_under_refs : Bytes → Bool
is_under_refs r = has_prefix r ref_prefix

-- Split and SplitSeq by a byte.
unfoldable pub push : ℕ → List Bytes → List Bytes
push c [] = (c ∷ []) ∷ []
push c (part ∷ parts) = (c ∷ part) ∷ parts

unfoldable pub split : ℕ → Bytes → List Bytes
split sep [] = [] ∷ []
split sep (c ∷ s) = let rest = split sep s in if c == sep then [] ∷ rest else push c rest

pub is_safe_part : Bytes → Bool
is_safe_part part = not (same part [] || same part (codes ".") || same part (codes ".."))

pub is_upper : ℕ → Bool
is_upper c = not (ltb c 65 || ltb 90 c)

pub is_safe_under : Bytes → Option Bytes → Bool
is_safe_under s (some rest) =
    if same rest [] || contains rest (codes "\\")
    then false
    else all is_safe_part (split slash rest)
is_safe_under s none = all (λ c. is_upper c || c == 95) s

pub is_safe : Bytes → Bool
is_safe s = if same s [] then false else is_safe_under s (cut_prefix s ref_prefix)

abbrev pub irregular_roots : List Bytes
irregular_roots =
    codes "HEAD"
    ∷ codes "AUTO_MERGE"
    ∷ codes "BISECT_EXPECTED_REV"
    ∷ codes "NOTES_MERGE_PARTIAL"
    ∷ codes "NOTES_MERGE_REF"
    ∷ codes "MERGE_AUTOSTASH"
    ∷ []

pub is_root : Bytes → Bool
is_root s =
    if same s []
    then false
    else if not (all (λ c. is_upper c || c == 95 || c == 45) s)
    then false
    else if has_suffix s (codes "_HEAD")
    then true
    else any (same s) irregular_roots

-- `ctrlSeqs`
pub is_control : ℕ → Bool
is_control c = ltb c 32 || c == 127

pub is_bad_part : Bytes → Bool
is_bad_part part =
    has_prefix part (codes ".")
    || contains part (codes "..")
    || any is_control part
    || contains_any part (codes "~^:?*[ \t\n")
    || contains part (codes "@{")
    || contains part (codes "\\")
    || has_suffix part (codes ".lock")

-- The loop of `Validate`.
pub validate_parts : Bytes → List Bytes → Result Error (Unit {0})
validate_parts s [] = ok tt
validate_parts s (part ∷ parts) =
    let rest = validate_parts s parts in
    if length part == 0
    then err (invalid_reference_name s)
    else if is_bad_part part
    then err (invalid_reference_name s)
    else rest

pub validate : Bytes → Result Error (Unit {0})
validate s =
    if length s == 0
    then err (invalid_reference_name s)
    else if same s (codes "HEAD")
    then ok tt
    else if same s (codes "@")
    then err (invalid_reference_name s)
    else if has_suffix s (codes ".")
    then err (invalid_reference_name s)
    else if ltb (length (split slash s)) 2
    then err (invalid_reference_name s)
    else validate_parts s (split slash s)

pub validate_branch_name : Bytes → Result Error (Unit {0})
validate_branch_name name =
    let r = new_branch_reference_name name in
    if has_prefix name (codes "-") || same r (ref_head_prefix ++ codes "HEAD")
    then err (invalid_reference_name r)
    else validate r

pub validate_tag_name : Bytes → Result Error (Unit {0})
validate_tag_name name =
    let r = new_tag_reference_name name in
    if has_prefix name (codes "-") || same name (codes "HEAD")
    then err (invalid_reference_name r)
    else validate r
