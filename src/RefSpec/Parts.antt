-- ===== src/RefSpec/Parts.antt =====
-- A refspec put together, and its parts found again.
use go_git.Prelude.{
  ℕ, suc, ◌+◌, ◌-◌, ◌≡◌, refl, ap, ◌∙◌, inl, inr, arith, [], ◌∷◌, ◌++◌, append_assoc, Bool, true,
  false, leb, ◌==◌, length, take, drop, All, some, Bool-cases, length-append, take-append_left,
  drop-append_left, any,
}
use go_git.Prelude.Text.{Bytes}
use go_git.RefSpec.{
  wildcard, force, separator, index_next, index, cut, slice, is_force_update, src, swapped, reverse,
  is_wildcard,
}

-- The byte is nowhere in the string.
abbrev pub Free : ℕ → Bytes → Type 0
Free c s = All (λ x. (x == c) ≡ false) s

pub index-Free : (c : ℕ) (a b : Bytes) → Free c a → index c (a ++ c ∷ b) ≡ some (length a)
unfolding index index_next
index-Free c [] b free = let self : (c == c) ≡ true = ground arith in rw (self) refl
index-Free c (x ∷ a) b (other, free) = rw (other) (rw (index-Free c a b free) refl)

pub cut-Free : (c : ℕ) (a b : Bytes) → Free c a → cut c (a ++ c ∷ b) ≡ (a, b)
unfolding cut
cut-Free c [] b free = let self : (c == c) ≡ true = ground arith in rw (self) refl
cut-Free c (x ∷ a) b (other, free) = rw (other) (rw (cut-Free c a b free) refl)

-- The middle of three.
pub slice-append :
    (i j : ℕ) (a m b : Bytes)
    → i ≡ length a
    → j ≡ length a + length m
    → slice (a ++ (m ++ b)) i j ≡ some m
unfolding slice
slice-append i j a m b hi hj =
    let up : leb i j ≡ true = ground arith in
    let in_range : leb j (length (a ++ (m ++ b))) ≡ true =
      ground (arith, length-append a (m ++ b), length-append m b) in
    let middle : take (j - i) (drop i (a ++ (m ++ b))) ≡ m =
      ap (λ t. take (j - i) (drop t (a ++ (m ++ b)))) hi
      ∙ ap (take (j - i)) (drop-append_left a (m ++ b))
      ∙ ap (λ t. take t (m ++ b)) (let e : j - i ≡ length m = omega arith in e)
      ∙ take-append_left m b in
    rw (up) (rw (in_range) (rw (middle) refl))

-- A refspec of a source and a destination, forced or not.
unfoldable pub render : Bool → Bytes → Bytes → Bytes
render true a b = force ∷ (a ++ separator ∷ b)
render false a b = a ++ separator ∷ b

-- A source without a separator, and without a leading + where it is not forced.
abbrev pub IsSource : Bool → Bytes → Type 0
IsSource true a = Free separator a
IsSource false [] = Unit
IsSource false (c ∷ a) = ((c == force) ≡ false) × Free separator (c ∷ a)

-- The two sides of a refspec and of its reverse.
pub reverse-render :
    (forced : Bool) (a b : Bytes)
    → IsSource forced a
    → reverse (render forced a b) ≡ render forced b a
unfolding reverse render swapped
reverse-render true a b free = rw (cut-Free separator a b free) refl
reverse-render false [] b free = rw (cut-Free separator [] b tt) refl
reverse-render false (c ∷ a) b (plain, free) =
    rw (plain) (rw (cut-Free separator (c ∷ a) b free) refl)

index-skip : (s : Bytes) → index separator (force ∷ s) ≡ index_next (index separator s)
unfolding index
index-skip s = refl

-- Where the separator stands in a refspec.
abbrev pub separator_of : Bool → Bytes → ℕ
separator_of true a = suc (length a)
separator_of false a = length a

pub index-render :
    (forced : Bool) (a b : Bytes)
    → IsSource forced a
    → index separator (render forced a b) ≡ some (separator_of forced a)
unfolding render index_next
index-render true a b free =
    index-skip (a ++ separator ∷ b) ∙ rw (index-Free separator a b free) refl
index-render false [] b free = index-Free separator [] b tt
index-render false (c ∷ a) b (plain, free) = index-Free separator (c ∷ a) b free

pub src-render :
    (forced : Bool) (a b : Bytes) → IsSource forced a → src (render forced a b) ≡ some a
unfolding src is_force_update render
src-render true a b free =
    rw (index-render true a b free)
      (slice-append 1 (suc (length a)) (force ∷ []) a (separator ∷ b) refl (omega arith))
src-render false [] b free =
    rw (index-render false [] b free) (slice-append 0 0 [] [] (separator ∷ b) refl refl)
src-render false (c ∷ a) b (plain, free) =
    rw (index-render false (c ∷ a) b (plain, free))
      (rw (plain) (slice-append 0 (length (c ∷ a)) [] (c ∷ a) (separator ∷ b) refl (omega arith)))

pub drop-middle : (a b : Bytes) (c : ℕ) → drop (suc (length a)) (a ++ c ∷ b) ≡ b
drop-middle [] b c = refl
drop-middle (x ∷ a) b c = drop-middle a b c

pub drop-render :
    (forced : Bool) (a b : Bytes) → drop (separator_of forced a + 1) (render forced a b) ≡ b
unfolding render
drop-render true a b =
    ap (λ n. drop n (force ∷ (a ++ separator ∷ b)))
      (let e : suc (length a) + 1 ≡ suc (suc (length a)) = omega arith in e)
    ∙ drop-middle a b separator
drop-render false a b =
    ap (λ n. drop n (a ++ separator ∷ b)) (let e : length a + 1 ≡ suc (length a) = omega arith in e)
    ∙ drop-middle a b separator

any-wildcard : (p q : Bytes) → any (λ c. c == wildcard) (p ++ wildcard ∷ q) ≡ true
any-wildcard [] q = refl
any-wildcard (c ∷ p) q = elim (Bool-cases (c == wildcard)) [
  | inl h ↦ rw (h) refl
  | inr h ↦ rw (h) (any-wildcard p q)
]

pub is_wildcard-render :
    (forced : Bool) (p q b : Bytes) → is_wildcard (render forced (p ++ wildcard ∷ q) b) ≡ true
unfolding is_wildcard render
is_wildcard-render true p q b =
    ap (any (λ c. c == wildcard)) (append_assoc p (wildcard ∷ q) (separator ∷ b))
    ∙ any-wildcard p (q ++ separator ∷ b)
is_wildcard-render false p q b =
    ap (any (λ c. c == wildcard)) (append_assoc p (wildcard ∷ q) (separator ∷ b))
    ∙ any-wildcard p (q ++ separator ∷ b)
