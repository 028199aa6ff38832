-- ===== src/RefName/Safe.antt =====
-- Names that Validate accepts can be turned into paths.
use go_git.Prelude.{
  ◌≡◌, refl, sym, ◌∙◌, inl, inr, arith, List, [], ◌∷◌, ◌++◌, Bool, true, false, ◌||◌, ltb, ◌==◌,
  length, any, all, some, Bool-cases, Option-cases, subst,
}
use go_git.Prelude.Text.{Bytes, codes, cut_prefix, has_prefix, has_suffix, contains, contains_any}
use go_git.Prelude.Result.{ok, err, err-ne-ok}
use go_git.RefName.{
  invalid_reference_name, slash, ref_prefix, split, is_safe_part, is_safe_under, is_safe,
  is_bad_part, is_control, validate_parts, validate, is_under_refs,
}
use go_git.RefName.Split.{backslash, any-split, cut_prefix-append, split-refs}
use mathlib.Core.Bool.{true≢false}

or_left : (a b : Bool) → (a || b) ≡ false → a ≡ false
or_left true b h = h
or_left false b h = refl

or_right : (a b : Bool) → (a || b) ≡ false → b ≡ false
or_right true b h = absurd (true≢false h)
or_right false b h = h

first_and_sixth :
    (a b c d e f g : Bool) → (a || b || c || d || e || f || g) ≡ false → (a ≡ false) × (f ≡ false)
first_and_sixth a b c d e f g h =
    let six : (a || b || c || d || e || f) ≡ false = or_left (a || b || c || d || e || f) g h in
    let five : (a || b || c || d || e) ≡ false = or_left (a || b || c || d || e) f six in
    let three : (a || b || c) ≡ false =
      or_left (a || b || c) d (or_left (a || b || c || d) e five) in
    (or_left a b (or_left (a || b) c three), or_right (a || b || c || d || e) f six)

-- Neither a leading dot nor a backslash is in a part that is not bad.
no_dot_no_backslash :
    (p : Bytes)
    → is_bad_part p ≡ false
    → (has_prefix p (codes ".") ≡ false) × (contains p backslash ≡ false)
unfolding is_bad_part
no_dot_no_backslash p bad =
    first_and_sixth (has_prefix p (codes ".")) (contains p (codes "..")) (any is_control p)
      (contains_any p (codes "~^:?*[ \t\n")) (contains p (codes "@{")) (contains p (codes "\\"))
      (has_suffix p (codes ".lock")) bad

safe_of_good : (p : Bytes) → (length p == 0) ≡ false → is_bad_part p ≡ false → is_safe_part p ≡ true
unfolding is_safe_part
safe_of_good [] h bad = cc
safe_of_good (c ∷ p) h bad =
    let first : has_prefix (c ∷ p) (codes ".") ≡ false = (no_dot_no_backslash (c ∷ p) bad).0 in
    let dot : (c == 46) ≡ false = elim (Bool-cases (c == 46)) [
      | inl is ↦
          let begins : has_prefix (c ∷ p) (codes ".") ≡ true = rw (is) refl in
          absurd (true≢false (sym begins ∙ first))
      | inr other ↦ other
    ] in
    rw (dot) refl

validate_parts-split :
    (s p : Bytes) (ps : List Bytes)
    → validate_parts s (p ∷ ps) ≡ ok tt
    → ((length p == 0) ≡ false) × ((is_bad_part p ≡ false) × (validate_parts s ps ≡ ok tt))
unfolding validate_parts
validate_parts-split s p ps h = elim (Bool-cases (length p == 0)) [
  | inl nothing ↦
      let refused : validate_parts s (p ∷ ps) ≡ err (invalid_reference_name s) =
        rw (nothing) refl in
      absurd (err-ne-ok (sym refused ∙ h))
  | inr some_bytes ↦ elim (Bool-cases (is_bad_part p)) [
    | inl bad ↦
        let refused : validate_parts s (p ∷ ps) ≡ err (invalid_reference_name s) =
          rw (some_bytes) (rw (bad) refl) in
        absurd (err-ne-ok (sym refused ∙ h))
    | inr good ↦
        let on : validate_parts s (p ∷ ps) ≡ validate_parts s ps =
          rw (some_bytes) (rw (good) refl) in
        (some_bytes, (good, sym on ∙ h))
  ]
]

parts_safe :
    (s : Bytes) (ps : List Bytes) → validate_parts s ps ≡ ok tt → all is_safe_part ps ≡ true
parts_safe s [] h = refl
parts_safe s (p ∷ ps) h =
    let (some_bytes, (good, rest)) = validate_parts-split s p ps h in
    rw (safe_of_good p some_bytes good) (parts_safe s ps rest)

parts_plain :
    (s : Bytes) (ps : List Bytes)
    → validate_parts s ps ≡ ok tt
    → any (λ p. contains p backslash) ps ≡ false
parts_plain s [] h = refl
parts_plain s (p ∷ ps) h =
    let (some_bytes, (good, rest)) = validate_parts-split s p ps h in
    rw ((no_dot_no_backslash p good).1) (parts_plain s ps rest)

-- Validate comes to its loop under refs/.
validate-parts :
    (rest : Bytes)
    → validate (ref_prefix ++ rest) ≡ ok tt
    → validate_parts (ref_prefix ++ rest) (codes "refs" ∷ split slash rest) ≡ ok tt
unfolding validate
validate-parts rest h =
    let s : Bytes = ref_prefix ++ rest in
    let parts : List Bytes = codes "refs" ∷ split slash rest in
    let more : (length (ref_prefix ++ rest) == 0) ≡ false = ground arith in
    elim (Bool-cases (has_suffix (ref_prefix ++ rest) (codes "."))) [
      | inl dot ↦
          let refused : validate (ref_prefix ++ rest)
              ≡ err (invalid_reference_name (ref_prefix ++ rest)) =
            rw (more) (rw (dot) refl) in
          absurd (err-ne-ok (sym refused ∙ h))
      | inr no_dot ↦ elim (Bool-cases (ltb (length (codes "refs" ∷ split slash rest)) 2)) [
        | inl one ↦
            let refused : validate (ref_prefix ++ rest)
                ≡ err (invalid_reference_name (ref_prefix ++ rest)) =
              rw (more) (rw (no_dot) (rw (split-refs rest) (rw (one) refl))) in
            absurd (err-ne-ok (sym refused ∙ h))
        | inr several ↦
            let on : validate (ref_prefix ++ rest) ≡ validate_parts s parts =
              rw (more) (rw (no_dot) (rw (split-refs rest) (rw (several) refl))) in
            sym on ∙ h
      ]
    ]

rest_parts :
    (rest : Bytes)
    → validate (ref_prefix ++ rest) ≡ ok tt
    → validate_parts (ref_prefix ++ rest) (split slash rest) ≡ ok tt
rest_parts rest h =
    (validate_parts-split (ref_prefix ++ rest) (codes "refs") (split slash rest)
      (validate-parts rest h)).1.1

no_part : is_safe_part [] ≡ false
unfolding is_safe_part
no_part = refl

safe_under :
    (rest : Bytes)
    → validate (ref_prefix ++ rest) ≡ ok tt
    → is_safe_under (ref_prefix ++ rest) (some rest) ≡ true
unfolding is_safe_under split
safe_under [] h =
    let safe : all is_safe_part (split slash []) ≡ true =
      parts_safe (ref_prefix ++ []) (split slash []) (rest_parts [] h) in
    let unsafe : all is_safe_part (split slash []) ≡ false = rw (no_part) refl in
    absurd (true≢false (sym safe ∙ unsafe))
safe_under (c ∷ rest) h =
    let parts = rest_parts (c ∷ rest) h in
    let plain : contains (c ∷ rest) backslash ≡ false =
      sym (any-split (c ∷ rest))
      ∙ parts_plain (ref_prefix ++ c ∷ rest) (split slash (c ∷ rest)) parts in
    rw (plain) (parts_safe (ref_prefix ++ c ∷ rest) (split slash (c ∷ rest)) parts)

-- A name under refs/ that Validate accepts is safe.
pub validate-safe : (s : Bytes) → validate s ≡ ok tt → is_under_refs s ≡ true → is_safe s ≡ true
unfolding is_under_refs is_safe
validate-safe s h under = elim (Option-cases (cut_prefix s ref_prefix)) [
  | inl other ↦ absurd (true≢false (sym under ∙ rw (other) refl))
  | inr (rest, cut) ↦
      let whole : s ≡ ref_prefix ++ rest = cut_prefix-append ref_prefix s rest cut in
      let safe : is_safe (ref_prefix ++ rest) ≡ true =
        safe_under rest (subst (λ t. validate t ≡ ok tt) whole h) in
      subst (λ t. is_safe t ≡ true) (sym whole) safe
]
