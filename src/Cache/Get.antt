-- ===== src/Cache/Get.antt =====
-- Get and Clear against the list of objects.
use go_git.Prelude.{
  ◌^◌, ◌<◌, ◌≡◌, refl, sym, ap, subst, ◌∙◌, inl, inr, arith, List, [], ◌∷◌, map, true, Option, none,
  some, Option-cases,
}
use go_git.Prelude.Text.{Bytes}
use go_git.Cache.{Object, ObjectLru, remove, get_at, get, element, clear}
use go_git.Cache.Keep.{total, without, find}
use go_git.Cache.Names.{has, total-remove, map-remove, find-Only, find-Unnamed}
use go_git.Cache.IsValid.{view, TableT, IsLinked, ValidAt, IsValid}
use go_git.Cache.Linked.{IsLinked-Only, IsLinked-Unnamed, IsLinked-front}

-- An object that is found comes first.
unfoldable pub get_front : Bytes → List Object → List Object
get_front h xs = first (find h xs)
  where
    first : Option Object → List Object
    first none = xs
    first (some x) = x ∷ without h xs

abbrev Got : Bytes → ObjectLru → Option Object × ObjectLru → Type 0
Got h c r = (r.0 ≡ find h (view c)) × IsValid r.1 × (view r.1 ≡ get_front h (view c))

Got-none : (h : Bytes) (c : ObjectLru) → IsValid c → find h (view c) ≡ none → Got h c (none, c)
unfolding get_front
Got-none h c valid absent = (sym absent, valid, sym (rw absent refl))

get_table :
    (h : Bytes) (c : ObjectLru) (table : TableT)
    → c.cache ≡ some table
    → c.max_size < 2 ^ 62
    → ValidAt c (some table)
    → Got h c (get_at c (table h))
unfolding get_at get_front total
get_table h c table has_table small (linked, sized, fits) = elim (Option-cases (table h)) [
  | inl absent ↦ rw absent (
      Got-none h c
        (record {
          small = small;
          at_table = subst (ValidAt c) (sym has_table) (linked, sized, fits);
        })
        (find-Unnamed c.values h c.ll
          (IsLinked-Unnamed c.ll c.values table c.next linked h absent)))
  | inr (i, found) ↦
      let there : has i c.ll ≡ true = linked.listed h i found in
      let only = IsLinked-Only c.ll c.values table c.next linked h i found in
      let known : find h (view c) ≡ some (c.values i) = find-Only c.values h i c.ll there only in
      let c' : ObjectLru = record c { ll = i ∷ remove i c.ll } in
      let moved : view c' ≡ c.values i ∷ without h (view c) =
        ap (λ t. c.values i ∷ t) (map-remove c.values h i c.ll only) in
      let same_total : total (view c') ≡ total (view c) =
        sym (total-remove c.values i c.ll there linked.distinct) in
      let linked' : IsLinked c'.ll c.values table c.next =
        IsLinked-front c.ll c.values table c.next linked i c.values there (λ j. refl) in
      rw found (
        sym known,
        record {
          small = small;
          at_table =
              subst (ValidAt c') (sym has_table) (linked', sized ∙ sym same_total, omega arith);
        },
        moved ∙ sym (rw known refl),
      )
]

get_cache :
    (h : Bytes) (c : ObjectLru) (o : Option TableT)
    → c.cache ≡ o
    → c.max_size < 2 ^ 62
    → ValidAt c o
    → Got h c (get_at c (element o h))
unfolding element get_at find
get_cache h c none no_table small (empty, zero_size) =
    Got-none h c
      (record { small = small; at_table = subst (ValidAt c) (sym no_table) (empty, zero_size) })
      (ap (λ t. find h (map c.values t)) empty)
get_cache h c (some table) has_table small at = get_table h c table has_table small at

pub get-IsValid : (h : Bytes) (c : ObjectLru) → IsValid c → Got h c (get h c)
unfolding get
get-IsValid h c valid = get_cache h c c.cache refl valid.small valid.at_table

pub clear-IsValid : (c : ObjectLru) → IsValid c → IsValid (clear c) × (view (clear c) ≡ [])
unfolding clear
clear-IsValid c valid = (record { small = valid.small; at_table = (refl, refl) }, refl)
