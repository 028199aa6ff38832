-- ===== src/Cache/Keep.antt =====
-- What a cache of a bounded size keeps, by itself: the most recent objects that fit together.
use go_git.Prelude.{
  ℕ, ◌+◌, ◌-◌, ◌≤◌, ◌<◌, ◌≡◌, refl, arith, List, [], ◌∷◌, ◌++◌, leb, if◌then◌else◌, Option, none,
  some,
}
use go_git.Prelude.Text.{Bytes, same}
use go_git.Cache.{Object}

unfoldable pub total : List Object → ℕ
total [] = 0
total (x ∷ xs) = x.size + total xs

-- The objects from the front on, up to the first that exceeds the size left.
unfoldable pub keep : ℕ → List Object → List Object
keep room [] = []
keep room (x ∷ xs) = if leb x.size room then x ∷ keep (room - x.size) xs else []

-- Another object under the hash, or the one found under it.
unfoldable pub without : Bytes → List Object → List Object
without h [] = []
without h (x ∷ xs) = let rest = without h xs in if same x.hash h then rest else x ∷ rest

unfoldable pub find : Bytes → List Object → Option Object
find h [] = none
find h (x ∷ xs) = if same x.hash h then some x else find h xs

pub total-keep : (room : ℕ) (xs : List Object) → total (keep room xs) ≤ room
unfolding total keep
total-keep room [] = omega arith
total-keep room (x ∷ xs) = ground (arith, total-keep (room - x.size) xs)

pub keep_all : (room : ℕ) (xs : List Object) → total xs ≤ room → keep room xs ≡ xs
unfolding total keep
keep_all room [] h = refl
keep_all room (x ∷ xs) h = ground (arith, keep_all (room - x.size) xs)

pub total-append : (xs ys : List Object) → total (xs ++ ys) ≡ total xs + total ys
unfolding total
total-append [] ys = omega arith
total-append (x ∷ xs) ys = omega (arith, total-append xs ys)

-- An object too many at the end is not kept.
pub keep-snoc :
    (room : ℕ) (xs : List Object) (x : Object)
    → room < total (xs ++ x ∷ [])
    → keep room (xs ++ x ∷ []) ≡ keep room xs
unfolding total keep
keep-snoc room [] x h = ground arith
keep-snoc room (y ∷ xs) x h = ground (arith, keep-snoc (room - y.size) xs x)
