-- ===== src/DeltaIndex/Slices.antt =====
-- Elements of slices that are in range: no panic.
use go_git.Prelude.{
  ℕ, zero, suc, ◌<◌, ◌≡◌, refl, ap, inl, inr, ◌⊎◌, arith, List, [], ◌∷◌, length, get_or, some, All,
}
use go_git.Prelude.Partial.{◌>>=◌, Returns, get_elem?}
use go_git.DeltaIndex.{DeltaIndex, set_elem, zeros}

-- An index whose mask is in its table, and whose table is in its entries.
abbrev pub InRange : DeltaIndex → Type 0
InRange idx = (idx.mask < length idx.table) × All (λ e. e < length idx.entries) idx.table

pub get_elem?-All {κ} :
    (P : ℕ → Type κ) (xs : List ℕ) (i : ℕ) → All P xs → i < length xs → Returns P (get_elem? xs i)
unfolding get_elem?
get_elem?-All P [] i all inside = absurd (omega arith)
get_elem?-All P (x ∷ xs) zero (px, all) inside = (x, refl, px)
get_elem?-All P (x ∷ xs) (suc i) (px, all) inside = get_elem?-All P xs i all (omega arith)

-- In range, the element is the one that get_or gives.
pub get_elem?-get_or :
    (xs : List ℕ) (i : ℕ) → i < length xs → Returns (λ x. x ≡ get_or xs i 0) (get_elem? xs i)
unfolding get_elem?
get_elem?-get_or [] i inside = absurd (omega arith)
get_elem?-get_or (x ∷ xs) zero inside = (x, refl, refl)
get_elem?-get_or (x ∷ xs) (suc i) inside = get_elem?-get_or xs i (omega arith)

pub All-get_or {κ} :
    (P : ℕ → Type κ) (xs : List ℕ) (i : ℕ) → All P xs → i < length xs → P (get_or xs i 0)
All-get_or P [] i all inside = absurd (omega arith)
All-get_or P (x ∷ xs) zero (px, all) inside = px
All-get_or P (x ∷ xs) (suc i) (px, all) inside = All-get_or P xs i all (omega arith)

pub All-imp {κ μ} :
    (P : ℕ → Type κ) (Q : ℕ → Type μ) (xs : List ℕ) → ((x : ℕ) → P x → Q x) → All P xs → All Q xs
All-imp P Q [] imp all = tt
All-imp P Q (x ∷ xs) imp (px, all) = (imp x px, All-imp P Q xs imp all)

-- Setting an element in range keeps the length, and what all elements have.
pub set_elem-All {κ} :
    (P : ℕ → Type κ) (xs : List ℕ) (i v : ℕ)
    → All P xs
    → P v
    → i < length xs
    → Returns (λ ys. (length ys ≡ length xs) × All P ys) (set_elem xs i v)
unfolding set_elem
set_elem-All P [] i v all pv inside = absurd (omega arith)
set_elem-All P (x ∷ xs) zero v (px, all) pv inside = (v ∷ xs, refl, (refl, (pv, all)))
set_elem-All P (x ∷ xs) (suc i) v (px, all) pv inside =
    let (ys, e, (same, all')) = set_elem-All P xs i v all pv (omega arith) in
    (x ∷ ys, ap (λ o. o >>= λ t. some (x ∷ t)) e, (ap suc same, (px, all')))

-- The links after some were cut.
abbrev pub Shorter : List ℕ → List ℕ → Type 0
Shorter next next' = (i : ℕ) → (get_or next' i 0 ≡ get_or next i 0) ⊎ (get_or next' i 0 ≡ 0)

pub set_elem-Shorter :
    (xs : List ℕ) (i : ℕ)
    → i < length xs
    → Returns
        (λ ys. (length ys ≡ length xs) × Shorter xs ys × (get_or ys i 0 ≡ 0))
        (set_elem xs i 0)
unfolding set_elem
set_elem-Shorter [] i inside = absurd (omega arith)
set_elem-Shorter (x ∷ xs) zero inside = (0 ∷ xs, refl, (refl, cut, refl))
  where
    cut : Shorter (x ∷ xs) (0 ∷ xs)
    cut zero = inr refl
    cut (suc j) = inl refl
set_elem-Shorter (x ∷ xs) (suc i) inside =
    let (ys, e, (same, shorter, is_zero)) = set_elem-Shorter xs i (omega arith) in
    (x ∷ ys, ap (λ o. o >>= λ t. some (x ∷ t)) e, (ap suc same, behind ys shorter, is_zero))
  where
    behind : (ys : List ℕ) → Shorter xs ys → Shorter (x ∷ xs) (x ∷ ys)
    behind ys shorter zero = inl refl
    behind ys shorter (suc j) = shorter j

pub length-zeros : (n : ℕ) → length (zeros n) ≡ n
unfolding zeros
length-zeros zero = refl
length-zeros (suc n) = ap suc (length-zeros n)

pub zeros-All {κ} : (P : ℕ → Type κ) (n : ℕ) → P 0 → All P (zeros n)
unfolding zeros
zeros-All P zero p = tt
zeros-All P (suc n) p = (p, zeros-All P n p)
