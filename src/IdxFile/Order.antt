-- ===== src/IdxFile/Order.antt =====
-- The order of names: strict, and one of less, equal and greater.
use go_git.Prelude.{◌≡◌, refl, arith, [], ◌∷◌, true, false}
use go_git.Prelude.Text.{Bytes, same}
use go_git.IdxFile.{less}

pub less_trans : (x y z : Bytes) → less x y ≡ true → less y z ≡ true → less x z ≡ true
unfolding less
less_trans [] [] z h k = cc
less_trans [] (b ∷ y) [] h k = cc
less_trans [] (b ∷ y) (c ∷ z) h k = refl
less_trans (a ∷ x) [] z h k = cc
less_trans (a ∷ x) (b ∷ y) [] h k = cc
less_trans (a ∷ x) (b ∷ y) (c ∷ z) h k = ground (arith, less_trans x y z)

pub less_irrefl : (x : Bytes) → less x x ≡ false
unfolding less
less_irrefl [] = refl
less_irrefl (a ∷ x) = ground (arith, less_irrefl x)

pub less_total : (x y : Bytes) → less x y ≡ false → same x y ≡ false → less y x ≡ true
unfolding less
less_total [] [] h k = cc
less_total [] (b ∷ y) h k = cc
less_total (a ∷ x) [] h k = refl
less_total (a ∷ x) (b ∷ y) h k = ground (arith, less_total x y)
