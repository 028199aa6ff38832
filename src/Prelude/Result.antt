-- ===== src/Prelude/Result.antt =====
-- Go's pair (value, error): a value or an error of the component's own type.
use mathlib.Core.Path.{◌≡◌, refl}
use mathlib.Core.Logic.{◌⊎◌, ◌≢◌, inl, inr}

pub data Result {ℓ} (E : Type 0) (A : Type ℓ) : Type ℓ where
  ok : A → Result E A
  err : E → Result E A

infixl 5 ◌>>=◌
abbrev pub ◌>>=◌ {ℓ κ} :
    {E : Type 0} {A : Type ℓ} {B : Type κ} → Result E A → (A → Result E B) → Result E B
ok a >>= f = f a
err e >>= f = err e

module _ {ℓ κ} {E : Type 0} {A : Type ℓ} {B : Type κ} where
  -- Both steps succeed, the first with some value that the second turns into `b`.
  abbrev pub Ran : Result E A → (A → Result E B) → B → Type (ℓ ⊔ κ)
  Ran m f b = (a : A) × (m ≡ ok a) × (f a ≡ ok b)

  pub >>=-eq-ok : (m : Result E A) (f : A → Result E B) {b : B} → (m >>= f) ≡ ok b → Ran m f b
  >>=-eq-ok (err e) f h = cc
  >>=-eq-ok (ok a) f h = (a, refl, h)

module _ {E : Type 0} where
  pub err-ne-ok {ℓ} : {A : Type ℓ} {e : E} {a : A} → (let r : Result E A = err e in r) ≢ ok a
  err-ne-ok h = cc

  pub ok_inj {ℓ} : {A : Type ℓ} {a b : A} → (let r : Result E A = ok a in r) ≡ ok b → a ≡ b
  ok_inj h = cc

  -- The result with its value mapped.
  abbrev pub map_ok {ℓ κ} : {A : Type ℓ} {B : Type κ} → (A → B) → Result E A → Result E B
  map_ok f (ok a) = ok (f a)
  map_ok f (err e) = err e

  -- To split on a computed result and keep the equation.
  pub Result-cases {ℓ} :
      {A : Type ℓ} (r : Result E A) → ((a : A) × (r ≡ ok a)) ⊎ ((e : E) × (r ≡ err e))
  Result-cases (ok a) = inl (a, refl)
  Result-cases (err e) = inr (e, refl)

  -- A bind fails with `e` only where one of its two steps does.
  pub >>=-ne-err {ℓ κ} :
      {A : Type ℓ} {B : Type κ} (m : Result E A) (f : A → Result E B) (e : E)
      → m ≢ err e
      → ((a : A) → m ≡ ok a → f a ≢ err e)
      → (m >>= f) ≢ err e
  >>=-ne-err (ok a) f e hm hf = hf a refl
  >>=-ne-err (err x) f e hm hf = λ p. hm (cc)
