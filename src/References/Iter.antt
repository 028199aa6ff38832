-- ===== src/References/Iter.antt =====
-- storage/transactional/reference.go: `IterReferences`, the references of a transaction.
use go_git.Prelude.{
  ◌≡◌, refl, sym, ap, ap₂, ◌∙◌, inl, inr, List, [], ◌∷◌, ◌++◌, Bool, true, false, ◌||◌,
  if◌then◌else◌, Option, none, some, Bool-cases,
}
use mathlib.Core.Bool.{or-true, or-false}
use go_git.Prelude.Text.{Bytes, same, same→eq}
use go_git.References.{Reference, ReferenceStorer}
use go_git.References.Transaction.{Storage, has_name, or_else, reference}

-- What a loop of `IterReferences` leaves behind: the references it took and the names seen.
pub record Gathered : Type 0 where
  pub refs : List Reference
  pub seen : List Bytes

abbrev with_ref : Bool → Reference → Gathered → Gathered
with_ref true ref g = g
with_ref false ref g = record { refs = ref ∷ g.refs; seen = g.seen }

abbrev next_seen : Bool → Bytes → List Bytes → List Bytes
next_seen true n s = s
next_seen false n s = n ∷ s

-- The body of both loops: a name that is deleted or seen is passed over.
unfoldable pub gather : List Bytes → List Bytes → List Reference → Gathered
gather deleted seen [] = record { refs = []; seen = seen }
gather deleted seen (ref ∷ rest) =
    let skip = has_name ref.name deleted || has_name ref.name seen in
    with_ref skip ref (gather deleted (next_seen skip ref.name seen) rest)

module _ {B T : Type 0} (bs : ReferenceStorer B) (ts : ReferenceStorer T) where
  unfoldable pub iter_references : Storage B T → List Reference
  iter_references r =
      let temporal = gather r.deleted [] (ts.iter_references r.temporal) in
      let base = gather r.deleted temporal.seen (bs.iter_references r.base) in
      base.refs ++ temporal.refs

-- All references of a list with a name.
unfoldable pub named : Bytes → List Reference → List Reference
named n [] = []
named n (r ∷ rs) = let rest = named n rs in if same r.name n then r ∷ rest else rest

abbrev pub listed : Option Reference → List Reference
listed none = []
listed (some r) = r ∷ []

abbrev pub first_one : List Reference → List Reference
first_one [] = []
first_one (r ∷ rs) = r ∷ []

abbrev any_of : List Reference → Bool
any_of [] = false
any_of (r ∷ rs) = true

named-append : (n : Bytes) (xs ys : List Reference) → named n (xs ++ ys) ≡ named n xs ++ named n ys
unfolding named
named-append n [] ys = refl
named-append n (x ∷ xs) ys = elim (Bool-cases (same x.name n)) [
  | inl h ↦ rw (h) (rw (named-append n xs ys) refl)
  | inr h ↦ rw (h) (named-append n xs ys)
]

-- A name that is deleted or was seen is not taken; of any other the first reference is.
named-gather :
    (n : Bytes) (d s : List Bytes) (rs : List Reference) (out : Bool)
    → (has_name n d || has_name n s) ≡ out
    → named n (gather d s rs).refs ≡ (if out then [] else first_one (named n rs))
unfolding named gather has_name
named-gather n d s [] true h = refl
named-gather n d s [] false h = refl
named-gather n d s (r ∷ rs) out h = elim (Bool-cases (has_name r.name d || has_name r.name s)) [
  | inl skip ↦ elim (Bool-cases (same r.name n)) [
    | inl h₁ ↦
        let gone : out ≡ true =
          sym h ∙ ap (λ m. has_name m d || has_name m s) (sym (same→eq r.name n h₁)) ∙ skip in
        rw (skip) (named-gather n d s rs out h ∙ rw (gone) refl)
    | inr h₁ ↦ rw (skip) (rw (h₁) (named-gather n d s rs out h))
  ]
  | inr keep ↦ elim (Bool-cases (same r.name n)) [
    | inl h₁ ↦
        let there : out ≡ false =
          sym h ∙ ap (λ m. has_name m d || has_name m s) (sym (same→eq r.name n h₁)) ∙ keep in
        rw (keep) (
          rw (h₁) (
            rw (there) (
              ap (λ t. r ∷ t)
                (named-gather n d (r.name ∷ s) rs true (rw (h₁) (or-true (has_name n d)))))))
    | inr h₁ ↦ rw (keep) (rw (h₁) (named-gather n d (r.name ∷ s) rs out (rw (h₁) h)))
  ]
]

-- A loop has seen the names that it started with and those that it met and that are not deleted.
has_name-seen :
    (n : Bytes) (d s : List Bytes) (rs : List Reference)
    → has_name n d ≡ false
    → has_name n (gather d s rs).seen ≡ (has_name n s || any_of (named n rs))
unfolding named gather has_name
has_name-seen n d s [] h = sym (or-false (has_name n s))
has_name-seen n d s (r ∷ rs) h = elim (Bool-cases (has_name r.name d || has_name r.name s)) [
  | inl skip ↦ elim (Bool-cases (same r.name n)) [
    | inl h₁ ↦
        let met : has_name n s ≡ true =
          ap (λ t. t || has_name n s) (sym h)
          ∙ ap (λ m. has_name m d || has_name m s) (sym (same→eq r.name n h₁))
          ∙ skip in
        rw (skip) (has_name-seen n d s rs h ∙ rw (met) refl)
    | inr h₁ ↦ rw (skip) (rw (h₁) (has_name-seen n d s rs h))
  ]
  | inr keep ↦ elim (Bool-cases (same r.name n)) [
    | inl h₁ ↦
        rw (keep) (has_name-seen n d (r.name ∷ s) rs h ∙ rw (h₁) (sym (or-true (has_name n s))))
    | inr h₁ ↦ rw (keep) (has_name-seen n d (r.name ∷ s) rs h ∙ rw (h₁) refl)
  ]
]

listed-or_else :
    (t b : Option Reference)
    → (if any_of (listed t) then [] else first_one (listed b)) ++ first_one (listed t)
      ≡ listed (or_else t b)
listed-or_else none none = refl
listed-or_else none (some r) = refl
listed-or_else (some t) b = refl

module _ {B T : Type 0} (bs : ReferenceStorer B) (ts : ReferenceStorer T) where
  -- Where the iterators of both storers yield the references under a name as Reference of the
  -- storer finds them, once or not at all, IterReferences of the transaction yields them as
  -- Reference of the transaction does: the temporal one over that of the base, and none once the
  -- name is deleted.
  pub named-iter_references :
      (r : Storage B T) (n : Bytes)
      → named n (ts.iter_references r.temporal) ≡ listed (ts.reference r.temporal n)
      → named n (bs.iter_references r.base) ≡ listed (bs.reference r.base n)
      → named n (iter_references bs ts r) ≡ listed (reference bs ts r n)
  unfolding iter_references reference has_name
  named-iter_references r n ht hb =
      let d = r.deleted in
      let temporal = ts.iter_references r.temporal in
      let base = bs.iter_references r.base in
      let seen = (gather d [] temporal).seen in
      named-append n (gather d seen base).refs (gather d [] temporal).refs
      ∙ elim (Bool-cases (has_name n d)) [
        | inl gone ↦
            ap₂ (λ xs ys. xs ++ ys) (named-gather n d seen base true (rw (gone) refl))
              (named-gather n d [] temporal true (rw (gone) refl))
            ∙ rw (gone) refl
        | inr kept ↦
            ap₂ (λ xs ys. xs ++ ys)
              (named-gather n d seen base (any_of (named n temporal))
                (rw (kept) (has_name-seen n d [] temporal kept)))
              (named-gather n d [] temporal false (rw (kept) refl))
            ∙ rw (kept) (
                rw (ht)
                  (rw (hb) (listed-or_else (ts.reference r.temporal n) (bs.reference r.base n))))
      ]
