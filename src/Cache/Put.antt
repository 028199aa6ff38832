-- ===== src/Cache/Put.antt =====
-- Put, Get and Clear against a list of objects that knows no elements and no map.
use go_git.Prelude.{
  ℕ, suc, ◌+◌, ◌^◌, ◌<◌, ◌≡◌, refl, sym, ap, ap₂, ==_iff, subst, ◌∙◌, inl, inr, arith, List, [],
  ◌∷◌, map, true, false, Option, none, some, none-ne-some, Bool-cases, Option-cases, length,
  if◌then◌else◌, ltb, ◌==◌,
}
use go_git.Prelude.Text.{is_some}
use go_git.Cache.{
  Object, ObjectLru, set_value, set_element, add64, sub64, gt64, remove, put_sized, put_at,
  put_open, put, evict,
}
use go_git.Cache.Keep.{total, keep, without, find, total-keep}
use go_git.Cache.Names.{
  has, remove-Fresh, map-set_value, total-remove, map-remove, find-Only, find-Unnamed,
}
use go_git.Cache.IsValid.{view, TableT, IsLinked, ValidAt, IsValid}
use go_git.Cache.Linked.{
  IsLinked-Only, IsLinked-Unnamed, IsLinked-front, IsLinked-new, All-Fresh, set_value-hit,
  set_value-miss,
}
use mathlib.Core.Bool.{true≢false}
use go_git.Cache.Evict.{Evicted, evict-Evicted}

-- What Put does to the objects: the new one comes first, in the place of one of the same hash, and
-- then the most recent stay that fit; a new hash whose object cannot fit changes nothing.
unfoldable pub put_front : ℕ → Object → List Object → List Object
put_front max obj xs =
    if is_some (find obj.hash xs)
    then keep max (obj ∷ without obj.hash xs)
    else if ltb max obj.size
    then xs
    else keep max (obj ∷ xs)

gt64_of : (a b : ℕ) → a < 2 ^ 63 → b < 2 ^ 63 → gt64 a b ≡ ltb b a
gt64_of a b ha hb = ground arith

total-cons : (x : Object) (xs : List Object) → total (x ∷ xs) ≡ x.size + total xs
unfolding total
total-cons x xs = refl

-- A Value replaced by one of the same hash.
same_hash :
    (values : ℕ → Object) (i : ℕ) (obj : Object)
    → (values i).hash ≡ obj.hash
    → (j : ℕ) → (set_value values i obj j).hash ≡ (values j).hash
same_hash values i obj e j = elim (Bool-cases (i == j)) [
  | inl one ↦
      ap (λ x. x.hash) (set_value-hit values i j obj one)
      ∙ sym e
      ∙ ap (λ k. (values k).hash) ((==_iff i j).0 one)
  | inr other ↦ ap (λ x. x.hash) (set_value-miss values i j obj other)
]

IsValid-of :
    (c r : ObjectLru)
    → c.max_size < 2 ^ 62
    → Evicted c r
    → IsValid r × (view r ≡ keep c.max_size (view c)) × (r.max_size ≡ c.max_size)
IsValid-of c r small e =
    let at : ValidAt r (some e.table) = (
      e.linked,
      e.sized,
      omega (arith, ap total e.kept, e.same_max, total-keep c.max_size (view c)),
    ) in
    (
      record {
        small = subst (λ m. m < 2 ^ 62) (sym e.same_max) small;
        at_table = subst (ValidAt r) (sym e.has_table) at;
      },
      e.kept,
      e.same_max,
    )

put-found :
    (obj : Object) (c : ObjectLru) (table : TableT) (i : ℕ)
    → c.max_size < 2 ^ 62
    → obj.size < 2 ^ 62
    → ValidAt c (some table)
    → table obj.hash ≡ some i
    → let r : ObjectLru = put_at obj c table (some i) in
      IsValid r × (view r ≡ put_front c.max_size obj (view c)) × (r.max_size ≡ c.max_size)
unfolding put_at put_sized put_front
put-found obj c table i small small_obj (linked, sized, fits) found =
    let old : Object = c.values i in
    let there : has i c.ll ≡ true = linked.listed obj.hash i found in
    let values' : ℕ → Object = set_value c.values i obj in
    let rest : List Object = map c.values (remove i c.ll) in
    let c3 : ObjectLru = record c {
      ll = i ∷ remove i c.ll;
      values = values';
      actual_size = add64 c.actual_size (sub64 obj.size (c.values i).size);
    } in
    let hit : set_value c.values i obj i ≡ obj =
      set_value-hit c.values i i obj ((==_iff i i).1 refl) in
    let others : map (set_value c.values i obj) (remove i c.ll) ≡ map c.values (remove i c.ll) =
      map-set_value c.values i obj (remove i c.ll) (remove-Fresh i c.ll) in
    let moved : view c3 ≡ obj ∷ rest = ap₂ (λ x xs. x ∷ xs) hit others in
    let viewed : view c3 ≡ obj ∷ without obj.hash (view c) =
      moved
      ∙ ap (λ t. obj ∷ t)
          (map-remove c.values obj.hash i c.ll
            (IsLinked-Only c.ll c.values table c.next linked obj.hash i found)) in
    let parts : total (view c) ≡ (c.values i).size + total (map c.values (remove i c.ll)) =
      total-remove c.values i c.ll there linked.distinct in
    let whole : total (view c3) ≡ obj.size + total (map c.values (remove i c.ll)) =
      ap total moved ∙ total-cons obj rest in
    let sized3 : add64 c.actual_size (sub64 obj.size (c.values i).size) ≡ total (view c3) =
      omega arith in
    let linked3 : IsLinked (i ∷ remove i c.ll) values' table c.next =
      IsLinked-front c.ll c.values table c.next linked i values' there
        (same_hash c.values i obj (linked.named obj.hash i found)) in
    let (valid, kept, max) = IsValid-of c3 (evict (suc (length c3.ll)) c3 table) small (
      evict-Evicted (suc (length c3.ll)) c3 table (omega arith) linked3 sized3 (omega arith)
        small) in
    let known : is_some (find obj.hash (view c)) ≡ true = ap is_some (
      find-Only c.values obj.hash i c.ll there
        (IsLinked-Only c.ll c.values table c.next linked obj.hash i found)) in
    (valid, kept ∙ ap (keep c.max_size) viewed ∙ sym (rw known refl), max)

put-absent :
    (obj : Object) (c : ObjectLru) (table : TableT)
    → c.max_size < 2 ^ 62
    → obj.size < 2 ^ 62
    → ValidAt c (some table)
    → table obj.hash ≡ none
    → let r : ObjectLru = put_at obj c table none in
      IsValid r × (view r ≡ put_front c.max_size obj (view c)) × (r.max_size ≡ c.max_size)
unfolding put_at put_sized put_front
put-absent obj c table small small_obj (linked, sized, fits) absent =
    let unknown : is_some (find obj.hash (view c)) ≡ false = ap is_some (
      find-Unnamed c.values obj.hash c.ll
        (IsLinked-Unnamed c.ll c.values table c.next linked obj.hash absent)) in
    let test : gt64 obj.size c.max_size ≡ ltb c.max_size obj.size =
      gt64_of obj.size c.max_size (omega arith) (omega arith) in
    elim (Bool-cases (ltb c.max_size obj.size)) [
      | inl large ↦ rw (test ∙ large) (
        record { small = small; at_table = (linked, sized, fits) },
        sym (rw unknown (rw large refl)),
        refl,
      )
      | inr room ↦
          let c3 : ObjectLru = record c {
            ll = c.next ∷ c.ll;
            values = set_value c.values c.next obj;
            next = suc c.next;
            actual_size = add64 c.actual_size obj.size;
          } in
          let table3 : TableT = set_element table obj.hash (some c.next) in
          let hit : set_value c.values c.next obj c.next ≡ obj =
            set_value-hit c.values c.next c.next obj ((==_iff c.next c.next).1 refl) in
          let others : map (set_value c.values c.next obj) c.ll ≡ map c.values c.ll =
            map-set_value c.values c.next obj c.ll (All-Fresh c.next c.ll linked.below) in
          let viewed : view c3 ≡ obj ∷ view c = ap₂ (λ x xs. x ∷ xs) hit others in
          let whole : total (view c3) ≡ obj.size + total (view c) =
            ap total viewed ∙ total-cons obj (view c) in
          let sized3 : add64 c.actual_size obj.size ≡ total (view c3) = omega arith in
          let (valid, kept, max) = IsValid-of c3 (evict (suc (length c3.ll)) c3 table3) small (
            evict-Evicted (suc (length c3.ll)) c3 table3 (omega arith)
              (IsLinked-new c.ll c.values table c.next linked obj absent) sized3 (omega arith)
              small) in
          rw (test ∙ room)
            (valid, kept ∙ ap (keep c.max_size) viewed ∙ sym (rw unknown (rw room refl)), max)
    ]

no_elements : (values : ℕ → Object) (next : ℕ) → IsLinked [] values (λ _. none) next
no_elements values next = record {
  distinct = tt;
  listed = λ h i found. absurd (none-ne-some found);
  named = λ h i found. absurd (none-ne-some found);
  mapped = λ i there. absurd (true≢false (sym there));
  below = tt;
}

put_open-IsValid :
    (obj : Object) (c : ObjectLru) (o : Option TableT)
    → c.max_size < 2 ^ 62
    → obj.size < 2 ^ 62
    → ValidAt c o
    → let r : ObjectLru = put_open obj c o in
      IsValid r × (view r ≡ put_front c.max_size obj (view c)) × (r.max_size ≡ c.max_size)
unfolding put_open total
put_open-IsValid obj c none small small_obj (empty, zero_size) =
    let c0 : ObjectLru = record c { actual_size = 0; ll = [] } in
    let (valid, kept, max) =
      put-absent obj c0 (λ _. none) small small_obj (no_elements c.values c.next, refl, omega arith)
        refl in
    (valid, kept ∙ ap (put_front c.max_size obj) (sym (ap (map c.values) empty)), max)
put_open-IsValid obj c (some table) small small_obj at = elim (Option-cases (table obj.hash)) [
  | inl absent ↦ rw absent (put-absent obj c table small small_obj at absent)
  | inr (i, found) ↦ rw found (put-found obj c table i small small_obj at found)
]

-- A valid cache takes any object of less than 2^62 bytes.
pub put-IsValid :
    (obj : Object) (c : ObjectLru)
    → IsValid c
    → obj.size < 2 ^ 62
    → IsValid (put obj c)
      × (view (put obj c) ≡ put_front c.max_size obj (view c))
      × ((put obj c).max_size ≡ c.max_size)
unfolding put
put-IsValid obj c valid small_obj =
    put_open-IsValid obj c c.cache valid.small small_obj valid.at_table
