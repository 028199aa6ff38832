-- ===== src/Cache/Evict.antt =====
-- The loop that drops the least recent objects until the rest fits.
use go_git.Prelude.{
  ℕ, zero, suc, ◌+◌, ◌-◌, ◌^◌, ◌≤◌, ◌<◌, ◌≡◌, refl, sym, ap, subst, ◌∙◌, inl, inr, arith, List, [],
  ◌∷◌, ◌++◌, map, true, false, none, some, Bool-cases, Option-cases, length, length-append,
}
use go_git.Cache.{Object, ObjectLru, set_element, sub64, gt64, back, evict_back, evict}
use go_git.Cache.Keep.{total, keep, keep_all, keep-snoc, total-append}
use go_git.Cache.Names.{back-none, back-some}
use go_git.Cache.IsValid.{view, TableT, IsLinked}
use go_git.Cache.Linked.{IsLinked-drop}

-- What the loop makes of a state: the same elements, fewer of them, with a map that fits.
pub record Evicted (c : ObjectLru) (r : ObjectLru) : Type 0 where
  pub table : TableT
  pub has_table : r.cache ≡ some table
  pub linked : IsLinked r.ll r.values table r.next
  pub sized : r.actual_size ≡ total (view r)
  pub kept : view r ≡ keep c.max_size (view c)
  pub same_max : r.max_size ≡ c.max_size

map-snoc :
    (values : ℕ → Object) (js : List ℕ) (last : ℕ)
    → map values (js ++ last ∷ []) ≡ map values js ++ values last ∷ []
map-snoc values [] last = refl
map-snoc values (j ∷ js) last = ap (λ t. values j ∷ t) (map-snoc values js last)

total_nil : total [] ≡ 0
unfolding total
total_nil = refl

total-snoc : (xs : List Object) (x : Object) → total (xs ++ x ∷ []) ≡ total xs + x.size
unfolding total
total-snoc xs x = total-append xs (x ∷ []) ∙ omega arith

gt64-lt : (a b : ℕ) → a < 2 ^ 63 → b < 2 ^ 63 → gt64 a b ≡ true → b < a
gt64-lt a b ha hb h = ground arith

gt64-le : (a b : ℕ) → a < 2 ^ 63 → b < 2 ^ 63 → gt64 a b ≡ false → a ≤ b
gt64-le a b ha hb h = ground arith

sub64_eq : (a b : ℕ) → a < 2 ^ 63 → b ≤ a → sub64 a b ≡ a - b
sub64_eq a b ha hb = omega arith

-- One object fewer at the end, while the objects are too large together.
Evicted-snoc :
    (c c' r : ObjectLru) (x : Object)
    → view c ≡ view c' ++ x ∷ []
    → c'.max_size ≡ c.max_size
    → c.max_size < total (view c)
    → Evicted c' r
    → Evicted c r
Evicted-snoc c c' r x split same_max over e = record {
  table = e.table;
  has_table = e.has_table;
  linked = e.linked;
  sized = e.sized;
  kept =
      e.kept
      ∙ ap (λ m. keep m (view c')) same_max
      ∙ sym (keep-snoc c.max_size (view c') x (subst (λ v. c.max_size < total v) split over))
      ∙ ap (keep c.max_size) (sym split);
  same_max = e.same_max ∙ same_max;
}

pub evict-Evicted :
    (fuel : ℕ) (c : ObjectLru) (table : TableT)
    → length c.ll < fuel
    → IsLinked c.ll c.values table c.next
    → c.actual_size ≡ total (view c)
    → total (view c) < 2 ^ 63
    → c.max_size < 2 ^ 62
    → Evicted c (evict fuel c table)
unfolding evict evict_back
evict-Evicted zero c table h linked sized small small_max = absurd (omega arith)
evict-Evicted (suc fuel) c table h linked sized small small_max =
    elim (Bool-cases (gt64 c.actual_size c.max_size)) [
      | inr fits ↦
          let le : total (view c) ≤ c.max_size =
            omega (arith, gt64-le c.actual_size c.max_size (omega arith) (omega arith) fits) in
          rw fits (record {
            table = table;
            has_table = refl;
            linked = linked;
            sized = sized;
            kept = sym (keep_all c.max_size (view c) le);
            same_max = refl;
          })
      | inl over ↦ elim (Option-cases (back c.ll)) [
        | inl nothing ↦
            let empty : total (view c) ≡ 0 =
              ap (λ t. total (map c.values t)) (back-none c.ll nothing) ∙ total_nil in
            let too_large : c.max_size < c.actual_size =
              gt64-lt c.actual_size c.max_size (omega arith) (omega arith) over in
            absurd (omega arith)
        | inr ((rest, last), found) ↦
            let split : c.ll ≡ rest ++ last ∷ [] = back-some c.ll rest last found in
            let x : Object = c.values last in
            let c' : ObjectLru = record c {
              ll = rest;
              actual_size = sub64 c.actual_size (c.values last).size;
            } in
            let whole : view c ≡ map c.values rest ++ x ∷ [] =
              ap (map c.values) split ∙ map-snoc c.values rest last in
            let sum : total (view c) ≡ total (map c.values rest) + (c.values last).size =
              ap total whole ∙ total-snoc (map c.values rest) (c.values last) in
            let left : sub64 c.actual_size (c.values last).size ≡ total (map c.values rest) =
              omega arith in
            let shorter : length c.ll ≡ length rest + 1 =
              ap length split ∙ length-append rest (last ∷ []) in
            let too_large : c.max_size < c.actual_size =
              gt64-lt c.actual_size c.max_size (omega arith) (omega arith) over in
            rw over (
              rw found (
                Evicted-snoc c c' (evict fuel c' (set_element table (c.values last).hash none)) x
                  whole refl (omega arith)
                  (evict-Evicted fuel c' (set_element table (c.values last).hash none) (omega arith)
                    (IsLinked-drop c.ll c.values table c.next linked rest last split) left
                    (omega arith) small_max)))
      ]
    ]
