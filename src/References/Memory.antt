-- ===== src/References/Memory.antt =====
-- storage/memory/storage.go: the references in memory, as a ReferenceStorer.
use go_git.Prelude.{
  ℕ, ◌≡◌, refl, sym, ap, ◌∙◌, inl, inr, List, [], ◌∷◌, ◌++◌, true, false, if◌then◌else◌, not,
  length, Option, none, some, Bool-cases,
}
use mathlib.Core.Bool.{true≢false}
use go_git.Prelude.Text.{Bytes, same, same_refl, same→eq}
use go_git.Prelude.Result.{Result, ok, err}
use go_git.References.{
  Reference, ReferenceStorer, Error, reference_not_found, reference_has_changed, find_last,
}

unfoldable pub reference : List Reference → Bytes → Option Reference
reference [] n = none
reference (r ∷ rs) n = if same r.name n then some r else reference rs n

unfoldable pub remove_reference : Bytes → List Reference → List Reference
remove_reference n [] = []
remove_reference n (r ∷ rs) =
    let rest = remove_reference n rs in if same r.name n then rest else r ∷ rest

unfoldable pub set_reference : Reference → List Reference → List Reference
set_reference ref rs = ref ∷ remove_reference ref.name rs

unfoldable pub check_value :
    Reference → Reference → List Reference → Option Reference → Result Error (List Reference)
check_value ref old rs none = err reference_not_found
check_value ref old rs (some tmp) =
    if not (same tmp.hash old.hash) then err reference_has_changed else ok (set_reference ref rs)

-- `CheckAndSetReference`, `none` for nil.
unfoldable pub check_and_set_reference :
    Option Reference → Option Reference → List Reference → Result Error (List Reference)
check_and_set_reference none old rs = ok rs
check_and_set_reference (some ref) none rs = ok (set_reference ref rs)
check_and_set_reference (some ref) (some old) rs = check_value ref old rs (reference rs ref.name)

-- One of the orders in which Go may walk the map: the reference set last comes last.
unfoldable pub iter_references : List Reference → List Reference
iter_references [] = []
iter_references (r ∷ rs) = iter_references rs ++ r ∷ []

pub count_loose_refs : List Reference → ℕ
count_loose_refs rs = length rs

-- Of two names that differ, at most one is `n`.
pub same-ne : (a b n : Bytes) → same a b ≡ false → same a n ≡ true → same b n ≡ false
same-ne a b n apart h = elim (Bool-cases (same b n)) [
  | inr other ↦ other
  | inl both ↦
      let equal : a ≡ b = same→eq a n h ∙ sym (same→eq b n both) in
      absurd (true≢false (sym (same_refl b) ∙ ap (λ t. same t b) (sym equal) ∙ apart))
]

pub reference-remove :
    (m : Bytes) (rs : List Reference) (n : Bytes)
    → reference (remove_reference m rs) n ≡ (if same m n then none else reference rs n)
unfolding reference remove_reference
reference-remove m [] n = elim (Bool-cases (same m n)) [ inl h ↦ rw (h) refl | inr h ↦ rw (h) refl ]
reference-remove m (r ∷ rs) n = elim (Bool-cases (same r.name m)) [
  | inl removed ↦
      let named : same r.name n ≡ same m n = ap (λ t. same t n) (same→eq r.name m removed) in
      rw (removed) (
        reference-remove m rs n ∙ elim (Bool-cases (same m n)) [
          | inl h ↦ rw (h) refl
          | inr h ↦ rw (h) (rw (named ∙ h) refl)
        ])
  | inr kept ↦ elim (Bool-cases (same r.name n)) [
    | inl h ↦ rw (kept) (rw (h) (rw (same-ne r.name m n kept h) refl))
    | inr h ↦ rw (kept) (rw (h) (reference-remove m rs n))
  ]
]

pub reference-set :
    (r : Reference) (rs : List Reference) (n : Bytes)
    → reference (set_reference r rs) n ≡ (if same r.name n then some r else reference rs n)
unfolding reference set_reference
reference-set r rs n = elim (Bool-cases (same r.name n)) [
  | inl h ↦ rw (h) refl
  | inr h ↦ rw (h) (reference-remove r.name rs n ∙ rw (h) refl)
]

find_last-snoc :
    (n : Bytes) (rs : List Reference) (r : Reference)
    → find_last n (rs ++ r ∷ []) ≡ (if same r.name n then some r else find_last n rs)
unfolding find_last
find_last-snoc n [] r = refl
find_last-snoc n (x ∷ rs) r = elim (Bool-cases (same r.name n)) [
  | inl h ↦ rw (find_last-snoc n rs r) (rw (h) refl)
  | inr h ↦ rw (find_last-snoc n rs r) (rw (h) refl)
]

pub find_last-iter :
    (rs : List Reference) (n : Bytes) → find_last n (iter_references rs) ≡ reference rs n
unfolding find_last reference iter_references
find_last-iter [] n = refl
find_last-iter (r ∷ rs) n =
    find_last-snoc n (iter_references rs) r
    ∙ ap (λ t. if same r.name n then some r else t) (find_last-iter rs n)

unfoldable pub memory : ReferenceStorer (List Reference)
memory = record {
  set_reference = set_reference;
  reference = reference;
  iter_references = iter_references;
  remove_reference = remove_reference;
  reference-set = reference-set;
  reference-remove = reference-remove;
  find_last-iter = find_last-iter;
}
