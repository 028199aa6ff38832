-- ===== src/DiffDelta/FindMatch.antt =====
-- What `findMatch` finds: over an index in range it returns, and a match is one.
use go_git.Prelude.{
  ℕ, zero, suc, ◌+◌, ◌≤◌, ◌<◌, ◌≡◌, refl, ap₂, inl, inr, bit_and, arith, [], ◌∷◌, ltb, ◌==◌, length,
  take, drop, length-drop, Bool-cases,
}
use go_git.Prelude.Partial.{Returns, Returns-bind, get_elem?}
use go_git.Prelude.Text.{Bytes}
use go_git.Prelude.Xor.{bit_and_le}
use go_git.DeltaIndex.{
  DeltaIndex, common, match_length, Match, small_source, found, match_entry, find_match, hash_block,
}
use go_git.DeltaIndex.Slices.{InRange, get_elem?-All, get_elem?-get_or}
use go_git.DeltaIndex.Hash.{hash_block-Hashed}

-- A match that is copied is one: the bytes of the target lie in the base.
abbrev pub IsMatch : Bytes → Bytes → ℕ → Match → Type 0
IsMatch src tgt i small_source = Unit {0}
IsMatch src tgt i (found offset l) =
    (i + l ≤ length tgt)
    × (16 ≤ l → (offset + l ≤ length src) × (take l (drop offset src) ≡ take l (drop i tgt)))

-- The common front of two slices.
common_front :
    (xs ys : Bytes)
    → (common xs ys ≤ length xs)
      × (common xs ys ≤ length ys)
      × (take (common xs ys) xs ≡ take (common xs ys) ys)
unfolding common
common_front [] ys = (omega arith, omega arith, refl)
common_front (x ∷ xs) [] = (omega arith, omega arith, refl)
common_front (x ∷ xs) (y ∷ ys) = elim (Bool-cases (x == y)) [
  | inl same ↦
      let (in_xs, in_ys, front) = common_front xs ys in
      let equal : x ≡ y = ground arith in
      rw (same) (omega arith, omega arith, ap₂ (λ a t. a ∷ t) equal front)
  | inr differs ↦ rw (differs) (omega arith, omega arith, refl)
]

match_length-IsMatch :
    (src tgt : Bytes) (i offset : ℕ)
    → i ≤ length tgt
    → IsMatch src tgt i (found offset (match_length src tgt i offset))
unfolding match_length
match_length-IsMatch src tgt i offset h =
    let (in_src, in_tgt, front) = common_front (drop offset src) (drop i tgt) in
    (omega (arith, length-drop i tgt), λ long. (omega (arith, length-drop offset src), front))

match_entry-IsMatch :
    (idx : DeltaIndex) (src tgt : Bytes) (i e : ℕ)
    → i ≤ length tgt
    → e < length idx.entries
    → Returns (IsMatch src tgt i) (match_entry idx src tgt i e)
unfolding match_entry
match_entry-IsMatch idx src tgt i zero h inside =
    (found 0 0, refl, (omega arith, λ long. absurd (omega arith)))
match_entry-IsMatch idx src tgt i (suc e) h inside =
    Returns-bind (get_elem? idx.entries (suc e)) _ (get_elem?-get_or idx.entries (suc e) inside)
      (λ offset _. (_, refl, match_length-IsMatch src tgt i offset h))

pub find_match-IsMatch :
    (idx : DeltaIndex) (src tgt : Bytes) (i : ℕ)
    → i ≤ length tgt
    → (16 ≤ length src → InRange idx)
    → Returns (IsMatch src tgt i) (find_match idx src tgt i)
unfolding find_match
find_match-IsMatch idx src tgt i h range = elim (Bool-cases (ltb (length tgt) (i + 16))) [
  | inl short ↦ rw (short) (_, refl, (omega arith, λ long. absurd (ground arith)))
  | inr long ↦ elim (Bool-cases (ltb (length src) 16)) [
    | inl small ↦ rw (long) (rw (small) (small_source, refl, tt))
    | inr large ↦
        let enough : i + 16 ≤ length tgt = ground arith in
        let big : 16 ≤ length src = ground arith in
        let (mask_in, table_in) = range big in
        rw (long) (
          rw (large) (
            Returns-bind (hash_block tgt i) _ (hash_block-Hashed tgt i enough) (λ h below.
              Returns-bind (get_elem? idx.table (bit_and h idx.mask)) _
                (get_elem?-All (λ e. e < length idx.entries) idx.table (bit_and h idx.mask) table_in
                  (omega (arith, bit_and_le h idx.mask)))
                (λ e inside. match_entry-IsMatch idx src tgt i e (omega arith) inside))))
  ]
]
