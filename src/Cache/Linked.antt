-- ===== src/Cache/Linked.antt =====
-- How the map and the list stay together when an element comes, moves or goes.
use go_git.Prelude.{
  ℕ, ◌<◌, ◌≡◌, refl, suc, sym, ap, subst, ◌∙◌, inl, inr, arith, List, [], ◌∷◌, ◌++◌, true, false,
  ◌||◌, ◌==◌, All, Option, none, some, Bool-cases, some_inj, none-ne-some, ==_iff,
}
use go_git.Prelude.Text.{Bytes, same, same_refl, same→eq}
use go_git.Cache.{Object, set_value, set_element, remove}
use go_git.Cache.Names.{
  has, Fresh, Distinct, Only, Unnamed, remove-Fresh, has-remove, has_of_remove, remove-Distinct,
  remove-All, Distinct-init, All-init, has-append,
}
use mathlib.Core.Bool.{true≢false}
use go_git.Cache.IsValid.{TableT, IsLinked}

set_element-hit :
    (table : TableT) (h k : Bytes) (o : Option ℕ) → same h k ≡ true → set_element table h o k ≡ o
set_element-hit table h k o e = rw e refl

set_element-miss :
    (table : TableT) (h k : Bytes) (o : Option ℕ)
    → same h k ≡ false
    → set_element table h o k ≡ table k
set_element-miss table h k o e = rw e refl

pub set_value-hit :
    (values : ℕ → Object) (i j : ℕ) (obj : Object)
    → (i == j) ≡ true
    → set_value values i obj j ≡ obj
set_value-hit values i j obj e = rw e refl

pub set_value-miss :
    (values : ℕ → Object) (i j : ℕ) (obj : Object)
    → (i == j) ≡ false
    → set_value values i obj j ≡ values j
set_value-miss values i j obj e = rw e refl

-- A number that is not in the list differs from one that is.
Fresh-ne : (n j : ℕ) (ll : List ℕ) → Fresh n ll → has j ll ≡ true → (n == j) ≡ false
Fresh-ne n j ll fresh there = elim (Bool-cases (n == j)) [
  | inr other ↦ other
  | inl one ↦
      absurd (true≢false (sym there ∙ ap (λ k. has k ll) (sym ((==_iff n j).0 one)) ∙ fresh))
]

==_refl_of : (i j : ℕ) → i ≡ j → (j == i) ≡ true
==_refl_of i j e = ground arith

All-at : (n i : ℕ) (ll : List ℕ) → has i ll ≡ true → All (λ k. k < n) ll → i < n
All-at n i [] h a = cc
All-at n i (j ∷ js) h (p, a) = elim (Bool-cases (i == j)) [
  | inl one ↦ ground arith
  | inr other ↦ All-at n i js (ground arith) a
]

All-mono : (n : ℕ) (ll : List ℕ) → All (λ k. k < n) ll → All (λ k. k < suc n) ll
All-mono n [] a = tt
All-mono n (j ∷ js) (p, a) = (omega arith, All-mono n js a)

pub All-Fresh : (n : ℕ) (ll : List ℕ) → All (λ k. k < n) ll → Fresh n ll
All-Fresh n [] a = refl
All-Fresh n (j ∷ js) (p, a) = ground (arith, All-Fresh n js a)

has_of_front :
    (i j : ℕ) (ll : List ℕ) → has i ll ≡ true → has j (i ∷ remove i ll) ≡ true → has j ll ≡ true
has_of_front i j ll there h = elim (Bool-cases (j == i)) [
  | inl one ↦ ap (λ k. has k ll) ((==_iff j i).0 one) ∙ there
  | inr other ↦ has_of_remove j i ll (ground arith)
]

module _ (ll : List ℕ) (values : ℕ → Object) (table : TableT) (next : ℕ)
    (linked : IsLinked ll values table next) where
  open linked use {distinct, listed, named, mapped, below}

  -- The element in the map is the one with the hash.
  pub IsLinked-Only : (h : Bytes) (i : ℕ) → table h ≡ some i → Only values h i ll
  IsLinked-Only h i found j there = elim (Bool-cases (i == j)) [
    | inl one ↦
        let e : (values j).hash ≡ h =
          ap (λ k. (values k).hash) (sym ((==_iff i j).0 one)) ∙ named h i found in
        rw one (rw e (same_refl h))
    | inr other ↦ elim (Bool-cases (same (values j).hash h)) [
      | inr apart ↦ apart ∙ sym other
      | inl equal ↦
          let e : i ≡ j =
            some_inj
              (sym found ∙ ap table (sym (same→eq (values j).hash h equal)) ∙ mapped j there) in
          absurd (true≢false (sym ((==_iff i j).1 e) ∙ other))
    ]
  ]

  pub IsLinked-Unnamed : (h : Bytes) → table h ≡ none → Unnamed values h ll
  IsLinked-Unnamed h absent j there = elim (Bool-cases (same (values j).hash h)) [
    | inr apart ↦ apart
    | inl equal ↦ absurd (
        none-ne-some
          (sym absent ∙ ap table (sym (same→eq (values j).hash h equal)) ∙ mapped j there))
  ]

  -- An element goes to the front, and the hashes stay.
  pub IsLinked-front :
      (i : ℕ) (values' : ℕ → Object)
      → has i ll ≡ true
      → ((j : ℕ) → (values' j).hash ≡ (values j).hash)
      → IsLinked (i ∷ remove i ll) values' table next
  IsLinked-front i values' there same_hash = record {
    distinct = (remove-Fresh i ll, remove-Distinct i ll distinct);
    listed = λ h j found. elim (Bool-cases (j == i)) [
      | inl one ↦ rw one refl
      | inr other ↦ rw other (has-remove j i ll other ∙ listed h j found)
    ];
    named = λ h j found. same_hash j ∙ named h j found;
    mapped = λ j h. ap table (same_hash j) ∙ mapped j (has_of_front i j ll there h);
    below = (All-at next i ll there below, remove-All (λ k. k < next) i ll below);
  }

  hash_absent :
      (h : Bytes) (j : ℕ)
      → table h ≡ none
      → table (values j).hash ≡ some j
      → same h (values j).hash ≡ false
  hash_absent h j absent there = elim (Bool-cases (same h (values j).hash)) [
    | inr apart ↦ apart
    | inl equal ↦
        absurd (none-ne-some (sym absent ∙ ap table (same→eq h (values j).hash equal) ∙ there))
  ]

  -- A new element comes to the front, under a hash that was not in the map.
  pub IsLinked-new :
      (obj : Object)
      → table obj.hash ≡ none
      → IsLinked
          (next ∷ ll)
          (set_value values next obj)
          (set_element table obj.hash (some next))
          (suc next)
  IsLinked-new obj absent = record {
    distinct = (All-Fresh next ll below, distinct);
    listed = λ h j found. elim (Bool-cases (same obj.hash h)) [
      | inl here ↦
          let e : next ≡ j =
            some_inj (sym (set_element-hit table obj.hash h (some next) here) ∙ found) in
          rw (==_refl_of next j e) refl
      | inr there ↦
          let in_list : has j ll ≡ true =
            listed h j (sym (set_element-miss table obj.hash h (some next) there) ∙ found) in
          ground arith
    ];
    named = λ h j found. elim (Bool-cases (same obj.hash h)) [
      | inl here ↦
          let e : next ≡ j =
            some_inj (sym (set_element-hit table obj.hash h (some next) here) ∙ found) in
          ap (λ x. x.hash) (set_value-hit values next j obj ((==_iff next j).1 e))
          ∙ same→eq obj.hash h here
      | inr there ↦
          let found' : table h ≡ some j =
            sym (set_element-miss table obj.hash h (some next) there) ∙ found in
          ap (λ x. x.hash)
            (set_value-miss values next j obj
              (Fresh-ne next j ll (All-Fresh next ll below) (listed h j found')))
          ∙ named h j found'
    ];
    mapped = λ j h. elim (Bool-cases (next == j)) [
      | inl one ↦
          ap (λ x. set_element table obj.hash (some next) x.hash)
            (set_value-hit values next j obj one)
          ∙ set_element-hit table obj.hash obj.hash (some next) (same_refl obj.hash)
          ∙ ap some ((==_iff next j).0 one)
      | inr other ↦
          let in_list : has j ll ≡ true = ground arith in
          let apart : same obj.hash (values j).hash ≡ false =
            hash_absent obj.hash j absent (mapped j in_list) in
          ap (λ x. set_element table obj.hash (some next) x.hash)
            (set_value-miss values next j obj other)
          ∙ set_element-miss table obj.hash (values j).hash (some next) apart
          ∙ mapped j in_list
    ];
    below = (omega arith, All-mono next ll below);
  }

  in_rest :
      (rest : List ℕ) (last : ℕ)
      → ll ≡ rest ++ last ∷ []
      → (h : Bytes) (j : ℕ) → table h ≡ some j
      → same (values last).hash h ≡ false
      → has j rest ≡ true
  in_rest rest last split h j found other = elim (Bool-cases (j == last)) [
    | inl one ↦
        let e : (values last).hash ≡ h =
          ap (λ k. (values k).hash) (sym ((==_iff j last).0 one)) ∙ named h j found in
        absurd (true≢false (sym (ap (λ t. same t h) e ∙ same_refl h) ∙ other))
    | inr apart ↦
        let there : (has j rest || has j (last ∷ [])) ≡ true =
          sym (has-append j rest (last ∷ [])) ∙ sym (ap (has j) split) ∙ listed h j found in
        ground arith
  ]

  not_last :
      (rest : List ℕ) (last : ℕ)
      → ll ≡ rest ++ last ∷ []
      → (j : ℕ) → has j rest ≡ true
      → has j ll ≡ true
      → same (values last).hash (values j).hash ≡ false
  not_last rest last split j h in_list =
      elim (Bool-cases (same (values last).hash (values j).hash)) [
        | inr apart ↦ apart
        | inl equal ↦
            let last_in : has last ll ≡ true =
              ap (has last) split ∙ has-append last rest (last ∷ []) ∙ ground arith in
            let e : last ≡ j = some_inj (
              sym (mapped last last_in)
              ∙ ap table (same→eq (values last).hash (values j).hash equal)
              ∙ mapped j in_list) in
            let fresh : Fresh last rest =
              (Distinct-init rest last (subst Distinct split distinct)).1 in
            absurd (true≢false (sym (ap (λ k. has k rest) e ∙ h) ∙ fresh))
      ]

  -- The last element goes, from the map too.
  pub IsLinked-drop :
      (rest : List ℕ) (last : ℕ)
      → ll ≡ rest ++ last ∷ []
      → IsLinked rest values (set_element table (values last).hash none) next
  IsLinked-drop rest last split = record {
    distinct = (Distinct-init rest last (subst Distinct split distinct)).0;
    listed = λ h j found. elim (Bool-cases (same (values last).hash h)) [
      | inl gone ↦
          absurd (none-ne-some (sym (set_element-hit table (values last).hash h none gone) ∙ found))
      | inr other ↦
          let found' : table h ≡ some j =
            sym (set_element-miss table (values last).hash h none other) ∙ found in
          in_rest rest last split h j found' other
    ];
    named = λ h j found. elim (Bool-cases (same (values last).hash h)) [
      | inl gone ↦
          absurd (none-ne-some (sym (set_element-hit table (values last).hash h none gone) ∙ found))
      | inr other ↦ named h j (sym (set_element-miss table (values last).hash h none other) ∙ found)
    ];
    mapped = λ j h.
        let in_list : has j ll ≡ true =
          ap (has j) split ∙ has-append j rest (last ∷ []) ∙ ap (λ b. b || has j (last ∷ [])) h in
        set_element-miss table (values last).hash (values j).hash none
          (not_last rest last split j h in_list)
        ∙ mapped j in_list;
    below = All-init (λ k. k < next) rest last (subst (All (λ k. k < next)) split below);
  }
