-- ===== src/Cache/Names.antt =====
-- The elements of the list, by number, and the objects that they hold.
use go_git.Prelude.{
  ℕ, ◌+◌, ◌≤◌, ◌≡◌, refl, sym, ap, ◌∙◌, inl, inr, arith, List, [], ◌∷◌, ◌++◌, map, Bool, true,
  false, ◌||◌, ◌==◌, All, length, Option, none, some, Bool-cases, Option-cases, some_inj, ==_iff,
}
use go_git.Prelude.Text.{Bytes, same}
use go_git.Cache.{Object, set_value, remove, with_first, back}
use go_git.Cache.Keep.{total, without, find}

abbrev pub has : ℕ → List ℕ → Bool
has i [] = false
has i (j ∷ js) = (i == j) || has i js

abbrev pub Fresh : ℕ → List ℕ → Type 0
Fresh i js = has i js ≡ false

abbrev pub Distinct : List ℕ → Type 0
Distinct [] = Unit
Distinct (j ∷ js) = Fresh j js × Distinct js

pub remove-Fresh : (i : ℕ) (js : List ℕ) → Fresh i (remove i js)
unfolding remove
remove-Fresh i [] = refl
remove-Fresh i (j ∷ js) = ground (arith, remove-Fresh i js)

-- Removing an element leaves the others.
pub has-remove : (k i : ℕ) (js : List ℕ) → (k == i) ≡ false → has k (remove i js) ≡ has k js
unfolding remove
has-remove k i [] h = refl
has-remove k i (j ∷ js) h = ground (arith, has-remove k i js)

pub has_of_remove : (k i : ℕ) (js : List ℕ) → has k (remove i js) ≡ true → has k js ≡ true
unfolding remove
has_of_remove k i [] h = h
has_of_remove k i (j ∷ js) h = ground (arith, has_of_remove k i js)

pub remove-Distinct : (i : ℕ) (js : List ℕ) → Distinct js → Distinct (remove i js)
unfolding remove
remove-Distinct i [] h = tt
remove-Distinct i (j ∷ js) (fresh, rest) = elim (Bool-cases (i == j)) [
  | inl same_one ↦ rw same_one (remove-Distinct i js rest)
  | inr other ↦
      let apart : (j == i) ≡ false = ground arith in
      rw other (has-remove j i js apart ∙ fresh, remove-Distinct i js rest)
]

pub remove-All : (P : ℕ → Type 0) (i : ℕ) (js : List ℕ) → All P js → All P (remove i js)
unfolding remove
remove-All P i [] h = tt
remove-All P i (j ∷ js) (p, rest) = elim (Bool-cases (i == j)) [
  | inl same_one ↦ rw same_one (remove-All P i js rest)
  | inr other ↦ rw other (p, remove-All P i js rest)
]

pub map-set_value :
    (values : ℕ → Object) (i : ℕ) (obj : Object) (js : List ℕ)
    → Fresh i js
    → map (set_value values i obj) js ≡ map values js
map-set_value values i obj [] h = refl
map-set_value values i obj (j ∷ js) h =
    let head : (i == j) ≡ false = ground arith in
    let tail : has i js ≡ false = ground arith in
    rw (map-set_value values i obj js tail) (rw head refl)

pub remove_absent : (i : ℕ) (js : List ℕ) → has i js ≡ false → remove i js ≡ js
unfolding remove
remove_absent i [] h = refl
remove_absent i (j ∷ js) h =
    let head : (i == j) ≡ false = ground arith in
    let tail : has i js ≡ false = ground arith in rw head (rw (remove_absent i js tail) refl)

-- The size of one element and of the rest.
pub total-remove :
    (values : ℕ → Object) (i : ℕ) (js : List ℕ)
    → has i js ≡ true
    → Distinct js
    → total (map values js) ≡ (values i).size + total (map values (remove i js))
unfolding total remove
total-remove values i [] h d = cc
total-remove values i (j ∷ js) h (fresh, d) = elim (Bool-cases (i == j)) [
  | inl same_one ↦
      let e : i ≡ j = (==_iff i j).0 same_one in
      let absent : has i js ≡ false = rw e fresh in
      rw same_one (rw (remove_absent i js absent) (rw e refl))
  | inr other ↦
      let there : has i js ≡ true = ground arith in
      rw other (omega (arith, total-remove values i js there d))
]

-- Where the elements under a hash are those with a number.
module _ (values : ℕ → Object) (h : Bytes) (i : ℕ) where
  abbrev pub Only : List ℕ → Type 0
  Only js = (j : ℕ) → has j js ≡ true → same (values j).hash h ≡ (i == j)

  Only-tail : (j : ℕ) (js : List ℕ) → Only (j ∷ js) → Only js
  Only-tail j js only k there = only k (ground arith)

  Only-head : (j : ℕ) (js : List ℕ) → Only (j ∷ js) → same (values j).hash h ≡ (i == j)
  Only-head j js only = only j (ground arith)

  pub map-remove : (js : List ℕ) → Only js → map values (remove i js) ≡ without h (map values js)
  unfolding remove without
  map-remove [] only = refl
  map-remove (j ∷ js) only = elim (Bool-cases (i == j)) [
    | inl one ↦ rw one (rw (Only-head j js only ∙ one) (map-remove js (Only-tail j js only)))
    | inr other ↦ rw other (
        rw (Only-head j js only ∙ other)
          (ap (λ t. values j ∷ t) (map-remove js (Only-tail j js only))))
  ]

  pub find-Only :
      (js : List ℕ) → has i js ≡ true → Only js → find h (map values js) ≡ some (values i)
  unfolding find
  find-Only [] there only = cc
  find-Only (j ∷ js) there only = elim (Bool-cases (i == j)) [
    | inl one ↦
        rw (Only-head j js only ∙ one) (ap (λ k. some (values k)) (sym ((==_iff i j).0 one)))
    | inr other ↦
        let later : has i js ≡ true = ground arith in
        rw (Only-head j js only ∙ other) (find-Only js later (Only-tail j js only))
  ]

-- No element is under the hash.
module _ (values : ℕ → Object) (h : Bytes) where
  abbrev pub Unnamed : List ℕ → Type 0
  Unnamed js = (j : ℕ) → has j js ≡ true → same (values j).hash h ≡ false

  Unnamed-tail : (j : ℕ) (js : List ℕ) → Unnamed (j ∷ js) → Unnamed js
  Unnamed-tail j js none_named k there = none_named k (ground arith)

  pub find-Unnamed : (js : List ℕ) → Unnamed js → find h (map values js) ≡ none
  unfolding find
  find-Unnamed [] none_named = refl
  find-Unnamed (j ∷ js) none_named =
      let head : same (values j).hash h ≡ false = none_named j (ground arith) in
      rw head (find-Unnamed js (Unnamed-tail j js none_named))

-- The last element.
pub back-none : (js : List ℕ) → back js ≡ none → js ≡ []
unfolding back with_first
back-none [] h = refl
back-none (j ∷ js) h = absurd (with_first-ne-none j (back js) h)
  where
    with_first-ne-none : (j : ℕ) (o : Option (List ℕ × ℕ)) → with_first j o ≡ none → ⊥
    with_first-ne-none j none h = cc
    with_first-ne-none j (some p) h = cc

pub back-some : (js rest : List ℕ) (last : ℕ) → back js ≡ some (rest, last) → js ≡ rest ++ last ∷ []
unfolding back with_first
back-some [] rest last h = cc
back-some (j ∷ js) rest last h = elim (Option-cases (back js)) [
  | inl alone ↦
      ap (λ t. j ∷ t) (back-none js alone)
      ∙ ap (λ p. p.0 ++ p.1 ∷ []) (some_inj (sym (ap (with_first j) alone) ∙ h))
  | inr ((rest', last'), more) ↦
      ap (λ t. j ∷ t) (back-some js rest' last' more)
      ∙ ap (λ p. p.0 ++ p.1 ∷ []) (some_inj (sym (ap (with_first j) more) ∙ h))
]

pub has-append : (k : ℕ) (js ks : List ℕ) → has k (js ++ ks) ≡ (has k js || has k ks)
has-append k [] ks = refl
has-append k (j ∷ js) ks = ground (arith, has-append k js ks)

pub Distinct-init :
    (js : List ℕ) (last : ℕ) → Distinct (js ++ last ∷ []) → Distinct js × Fresh last js
Distinct-init [] last d = (tt, refl)
Distinct-init (j ∷ js) last (fresh, d) =
    let (rest, apart) = Distinct-init js last d in
    let split : (has j js || has j (last ∷ [])) ≡ false =
      sym (has-append j js (last ∷ [])) ∙ fresh in
    let f : has j js ≡ false = ground arith in
    let g : (last == j) ≡ false = ground arith in ((f, rest), ground arith)

pub All-init : (P : ℕ → Type 0) (js : List ℕ) (last : ℕ) → All P (js ++ last ∷ []) → All P js
All-init P [] last h = tt
All-init P (j ∷ js) last (p, h) = (p, All-init P js last h)

pub length-remove : (i : ℕ) (js : List ℕ) → length (remove i js) ≤ length js
unfolding remove
length-remove i [] = omega arith
length-remove i (j ∷ js) = ground (arith, length-remove i js)
