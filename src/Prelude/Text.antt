-- ===== src/Prelude/Text.antt =====
-- Go's strings as lists of bytes, and the functions of Go's package `strings` that the code calls.
use Prim.Native.Char.{code}
use Prim.Native.String.{String}
use Prim.Native.Nat.{ℕ, zero, suc}
use mathlib.Core.Path.{◌≡◌, refl, ap₂}
use native.Mathlib.Omega.{arith}
use mathlib.Core.Bool.{Bool, true, false, ◌&&◌, ◌||◌}
use mathlib.Core.Option.{Option, none, some}
use mathlib.Core.List.{List, [], ◌∷◌, map, reverse}
use go_git.Prelude.Lists.{length, any}
use go_git.Prelude.Tests.{◌==◌, if◌then◌else◌}

abbrev pub Bytes : Type 0
Bytes = List ℕ

-- The code points of a literal: its bytes, since the literals are ASCII.
abbrev pub codes : String → Bytes
codes String.[] = []
codes (String.◌∷◌ c s) = code c ∷ codes s

-- HasPrefix, CutPrefix and TrimPrefix
abbrev pub cut_prefix : Bytes → Bytes → Option Bytes
cut_prefix s [] = some s
cut_prefix [] (p ∷ ps) = none
cut_prefix (c ∷ s) (p ∷ ps) = let rest = cut_prefix s ps in if c == p then rest else none

abbrev pub is_some {ℓ} : {A : Type ℓ} → Option A → Bool
is_some none = false
is_some (some a) = true

abbrev pub has_prefix : Bytes → Bytes → Bool
has_prefix s p = is_some (cut_prefix s p)

abbrev or_else : Option Bytes → Option Bytes → Option Bytes
or_else none o = o
or_else (some r) o = some r

-- The rest after the first prefix of a list of them that fits.
abbrev cut_any : List Bytes → Bytes → Option Bytes
cut_any [] s = none
cut_any (p ∷ ps) s = or_else (cut_prefix s p) (cut_any ps s)

-- The UTF-8 encodings of the characters that unicode.IsSpace accepts.
abbrev spaces : List Bytes
spaces =
    (9 ∷ [])
    ∷ (10 ∷ [])
    ∷ (11 ∷ [])
    ∷ (12 ∷ [])
    ∷ (13 ∷ [])
    ∷ (32 ∷ [])
    ∷ (194 ∷ 133 ∷ [])
    ∷ (194 ∷ 160 ∷ [])
    ∷ (225 ∷ 154 ∷ 128 ∷ [])
    ∷ (226 ∷ 128 ∷ 128 ∷ [])
    ∷ (226 ∷ 128 ∷ 129 ∷ [])
    ∷ (226 ∷ 128 ∷ 130 ∷ [])
    ∷ (226 ∷ 128 ∷ 131 ∷ [])
    ∷ (226 ∷ 128 ∷ 132 ∷ [])
    ∷ (226 ∷ 128 ∷ 133 ∷ [])
    ∷ (226 ∷ 128 ∷ 134 ∷ [])
    ∷ (226 ∷ 128 ∷ 135 ∷ [])
    ∷ (226 ∷ 128 ∷ 136 ∷ [])
    ∷ (226 ∷ 128 ∷ 137 ∷ [])
    ∷ (226 ∷ 128 ∷ 138 ∷ [])
    ∷ (226 ∷ 128 ∷ 168 ∷ [])
    ∷ (226 ∷ 128 ∷ 169 ∷ [])
    ∷ (226 ∷ 128 ∷ 175 ∷ [])
    ∷ (226 ∷ 129 ∷ 159 ∷ [])
    ∷ (227 ∷ 128 ∷ 128 ∷ [])
    ∷ []

abbrev trim_next : (Bytes → Bytes) → Bytes → Option Bytes → Bytes
trim_next next s none = s
trim_next next s (some rest) = next rest

abbrev trim_left : List Bytes → ℕ → Bytes → Bytes
trim_left encodings zero s = s
trim_left encodings (suc fuel) s = trim_next (trim_left encodings fuel) s (cut_any encodings s)

-- TrimSpace: each round takes a byte at least.
unfoldable pub trim_space : Bytes → Bytes
trim_space s =
    let left = trim_left spaces (length s) s in
    reverse (trim_left (map reverse spaces) (length left) (reverse left))

-- Equality of strings.
abbrev pub same : Bytes → Bytes → Bool
same [] [] = true
same [] (d ∷ t) = false
same (c ∷ s) [] = false
same (c ∷ s) (d ∷ t) = (c == d) && same s t

pub same_refl : (s : Bytes) → same s s ≡ true
same_refl [] = refl
same_refl (c ∷ s) = ground (arith, same_refl s)

pub same→eq : (s t : Bytes) → same s t ≡ true → s ≡ t
same→eq [] [] h = refl
same→eq [] (d ∷ t) h = cc
same→eq (c ∷ s) [] h = cc
same→eq (c ∷ s) (d ∷ t) h =
    let head : c ≡ d = ground arith in
    let tail : s ≡ t = same→eq s t (ground arith) in ap₂ (λ x xs. x ∷ xs) head tail

-- HasSuffix and Contains
abbrev pub has_suffix : Bytes → Bytes → Bool
has_suffix [] p = same [] p
has_suffix (c ∷ s) p = let rest = has_suffix s p in same (c ∷ s) p || rest

abbrev pub contains : Bytes → Bytes → Bool
contains [] p = has_prefix [] p
contains (c ∷ s) p = let rest = contains s p in has_prefix (c ∷ s) p || rest

-- ContainsAny
abbrev pub contains_any : Bytes → Bytes → Bool
contains_any s chars = any (λ c. any (λ d. c == d) chars) s
