-- ===== src/Prelude/Partial.antt =====
-- Go code that may panic on an index: an Option, with `do`.
use mathlib.Core.Path.{◌≡◌, ap, ◌∙◌}
use mathlib.Core.Option.{Option, none, some}
use mathlib.Core.List.{List, [], ◌∷◌}
use Prim.Native.Nat.{ℕ, zero, suc, ◌<◌}
use native.Mathlib.Omega.{arith}
use go_git.Prelude.Lists.{length}

infixl 5 ◌>>=◌
abbrev pub ◌>>=◌ {ℓ κ} : {A : Type ℓ} {B : Type κ} → Option A → (A → Option B) → Option B
none >>= f = none
some a >>= f = f a

module _ {ℓ κ} {A : Type ℓ} where
  -- Nothing panics, and what is returned has a property.
  abbrev pub Returns : (A → Type κ) → Option A → Type (ℓ ⊔ κ)
  Returns P o = (a : A) × (o ≡ some a) × P a

pub Returns-bind {ℓ κ μ ν} :
    {A : Type ℓ} {B : Type κ} {P : A → Type μ} {Q : B → Type ν} (o : Option A) (f : A → Option B)
    → Returns P o
    → ((a : A) → P a → Returns Q (f a))
    → Returns Q (o >>= f)
Returns-bind o f (a, e, p) next = let (b, e', q) = next a p in (b, ap (λ t. t >>= f) e ∙ e', q)

-- The element at an index of a slice.
unfoldable pub get_elem? {ℓ} : {A : Type ℓ} → List A → ℕ → Option A
get_elem? [] i = none
get_elem? (x ∷ xs) zero = some x
get_elem? (x ∷ xs) (suc i) = get_elem? xs i

-- An index that gives an element lies in the slice.
pub get_elem?-in_range {ℓ} :
    {A : Type ℓ} (xs : List A) (i : ℕ) (x : A) → get_elem? xs i ≡ some x → i < length xs
unfolding get_elem?
get_elem?-in_range [] i x h = cc
get_elem?-in_range (y ∷ ys) zero x h = omega arith
get_elem?-in_range (y ∷ ys) (suc i) x h = omega (arith, get_elem?-in_range ys i x h)
