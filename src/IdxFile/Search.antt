-- ===== src/IdxFile/Search.antt =====
-- The binary search of a bucket whose names are sorted.
use go_git.Prelude.{
  ℕ, zero, suc, ◌+◌, ◌*◌, ◌/◌, ◌≤◌, ◌<◌, ◌≡◌, ◌≢◌, refl, sym, ap, inl, inr, arith, true, false, ltb,
  leb, ◌==◌, length, take, drop, Option, none, some, Bool-cases,
}
use go_git.Prelude.Partial.{Returns}
use go_git.Prelude.Text.{Bytes, same, same→eq}
use go_git.IdxFile.{less, slice, search_slot, search_half, search_loop, search_bucket}
use go_git.IdxFile.Order.{less_trans, less_irrefl, less_total}
use native.Mathlib.Nat.{mul-le-mul_right}

abbrev pub slot : Bytes → ℕ → ℕ → Bytes
slot names size i = take size (drop (i * size) names)

-- Names of a size, in order.
pub record Sorted (names : Bytes) (size n : ℕ) : Type 0 where
  pub room : length names ≡ n * size
  pub order : (i j : ℕ) → i < j → j < n → less (slot names size i) (slot names size j) ≡ true

-- Where a name is, or that it is nowhere.
abbrev pub Found : Bytes → ℕ → ℕ → Bytes → Option ℕ → Type 0
Found names size n h none = (i : ℕ) → i < n → slot names size i ≢ h
Found names size n h (some i) = (i < n) × (slot names size i ≡ h)

module _ (names : Bytes) (size n : ℕ) (sorted : Sorted names size n) (h : Bytes) where
  slice-slot : (i : ℕ) → i < n → slice names (i * size) size ≡ some (slot names size i)
  unfolding slice
  slice-slot i inside =
      let next : suc i * size ≤ n * size = mul-le-mul_right size (omega arith) in
      let fits : ltb (length names) (i * size + size) ≡ false = ground (arith, sorted.room) in
      rw (fits) refl

  -- What is outside of the half that is left is not the name.
  abbrev Outside : ℕ → ℕ → Type 0
  Outside low high =
      ((i : ℕ) → i < low → less (slot names size i) h ≡ true)
      × ((i : ℕ) → high ≤ i → i < n → less h (slot names size i) ≡ true)

  differs_below : (x : Bytes) → less x h ≡ true → x ≢ h
  differs_below x below e =
      let equal : less x h ≡ less h h = ap (λ t. less t h) e in absurd (cc (less_irrefl h))

  differs_above : (x : Bytes) → less h x ≡ true → x ≢ h
  differs_above x above e =
      let equal : less h x ≡ less h h = ap (less h) e in absurd (cc (less_irrefl h))

  nowhere : (low high : ℕ) → high ≤ low → Outside low high → Found names size n h none
  nowhere low high met (below, above) i inside = elim (Bool-cases (ltb i low)) [
    | inl lower ↦ differs_below (slot names size i) (below i (ground arith))
    | inr upper ↦ differs_above (slot names size i) (above i (ground arith) inside)
  ]

  below_mid :
      (mid high : ℕ)
      → mid < n
      → less h (slot names size mid) ≡ true
      → (i : ℕ) → mid ≤ i
      → i < n
      → less h (slot names size i) ≡ true
  below_mid mid high inside is_less i after inside' = elim (Bool-cases (i == mid)) [
    | inl same_place ↦ let e : i ≡ mid = ground arith in rw (e) is_less
    | inr later ↦
        less_trans h (slot names size mid) (slot names size i) is_less
          (sorted.order mid i (ground arith) inside')
  ]

  above_mid :
      (mid : ℕ)
      → mid < n
      → less (slot names size mid) h ≡ true
      → (i : ℕ) → i < suc mid
      → less (slot names size i) h ≡ true
  above_mid mid inside is_less i before = elim (Bool-cases (i == mid)) [
    | inl same_place ↦ let e : i ≡ mid = ground arith in rw (e) is_less
    | inr earlier ↦
        less_trans (slot names size i) (slot names size mid) h
          (sorted.order i mid (ground arith) inside) is_less
  ]

  -- The search of a half, where there is fuel for each place in it.
  abbrev Searches : ℕ → Type 0
  Searches fuel =
      (low high : ℕ)
      → low < high
      → high ≤ n
      → high ≤ low + fuel
      → Outside low high
      → Returns (Found names size n h) (search_loop fuel names size h low high)

  search_half-Found :
      (fuel low high : ℕ)
      → Searches fuel
      → high ≤ n
      → high ≤ low + fuel
      → Outside low high
      → Returns (Found names size n h) (search_half (search_loop fuel names size h) low high)
  unfolding search_half
  search_half-Found fuel low high search in_n enough outside = elim (Bool-cases (leb high low)) [
    | inl met ↦ rw (met) (none, refl, nowhere low high (ground arith) outside)
    | inr apart ↦ rw (apart) (search low high (ground arith) in_n enough outside)
  ]

  search_loop-Found : (fuel : ℕ) → Searches fuel
  unfolding search_loop search_slot
  search_loop-Found zero low high some_left in_n enough outside = absurd (omega arith)
  search_loop-Found (suc fuel) low high some_left in_n enough (below, above) =
      let mid : ℕ = (low + high) / 2 in
      let here : Bytes = slot names size mid in
      let inside : mid < n = omega arith in
      rw (slice-slot mid inside) (elim (Bool-cases (less h here)) [
        | inl lower ↦ rw (lower) (
            search_half-Found fuel low mid (search_loop-Found fuel) (omega arith) (omega arith)
              (below, below_mid mid high inside lower))
        | inr not_lower ↦ elim (Bool-cases (same h here)) [
          | inl equal ↦
              rw (not_lower) (rw (equal) (some mid, refl, (inside, sym (same→eq h here equal))))
          | inr other ↦
              let upper : less here h ≡ true = less_total h here not_lower other in
              rw (not_lower) (
                rw (other) (
                  search_half-Found fuel (suc mid) high (search_loop-Found fuel) in_n (omega arith)
                    (above_mid mid inside upper, above)))
        ]
      ])

  pub search_bucket-Found : Returns (Found names size n h) (search_bucket names size h n)
  unfolding search_bucket
  search_bucket-Found = elim (Bool-cases (n == 0)) [
    | inl empty ↦ rw (empty) (none, refl, λ i inside. absurd (ground arith))
    | inr full ↦ rw (full) (
        search_loop-Found n 0 n (ground arith) (omega arith) (omega arith)
          (λ i below. absurd (omega arith), λ i above inside. absurd (omega arith)))
  ]
