-- ===== src/Delta/Total.antt =====
-- The fuel of the loops of patch_delta.go is enough, and what a delta that applies looks like.
use go_git.Prelude.{
  ℕ, zero, suc, ◌-◌, ◌*◌, ◌^◌, ◌≤◌, ◌<◌, arith, ◌≢◌, List, [], ◌∷◌, Bool, true, false, ◌||◌, ◌==◌,
  if◌then◌else◌, length, drop, length-drop, bit_and, bit_or, inl, inr, Bool-cases,
}
use go_git.Prelude.Text.{Bytes}
use go_git.Prelude.Result.{Result, ok, err, ◌>>=◌}
use go_git.Delta.{
  Error, out_of_fuel, invalid_delta, decode_offset, decode_size, decode_fields, ValidateNext,
  validate_copy, validate_insert, validate_loop, offsets, sizes, invalid_size, invalid_offset_size,
}

-- A decoder leaves no more than it was given, and fails only with `invalid_delta`.
abbrev Leaves : Bytes → Result Error (ℕ × Bytes) → Type 0
Leaves delta (ok (n, rest)) = length rest ≤ length delta
Leaves delta (err invalid_delta) = Unit {0}
Leaves delta (err _) = ⊥

decode_fields-Leaves :
    (fields : List (ℕ × ℕ)) (cmd : ℕ) (delta : Bytes) (acc n : ℕ)
    → length delta ≤ n
    → Leaves delta (decode_fields fields cmd delta acc)
unfolding decode_fields
decode_fields-Leaves [] cmd delta acc n h = omega arith
decode_fields-Leaves ((mask, shift) ∷ fields) cmd [] acc n h =
    ground (arith, decode_fields-Leaves fields cmd [] acc n)
decode_fields-Leaves ((mask, shift) ∷ fields) cmd (b ∷ delta) acc n h =
    elim (Bool-cases (bit_and cmd mask == 0)) [
      | inl skip ↦ rw skip (decode_fields-Leaves fields cmd (b ∷ delta) acc n h)
      | inr read ↦ rw read (
          weaken delta b _
            (decode_fields-Leaves fields cmd delta (bit_or acc (b * 2 ^ shift)) n (omega arith)))
    ]
  where
    weaken :
        (delta : Bytes) (b : ℕ) (r : Result Error (ℕ × Bytes))
        → Leaves delta r
        → Leaves (b ∷ delta) r
    weaken delta b (ok (m, rest)) h = omega arith
    weaken delta b (err invalid_delta) h = tt
    weaken delta b (err _) h = h

pub decode_offset-Leaves : (cmd : ℕ) (delta : Bytes) → Leaves delta (decode_offset cmd delta)
unfolding decode_offset
decode_offset-Leaves cmd delta =
    decode_fields-Leaves offsets cmd delta 0 (length delta) (omega arith)

pub decode_size-Leaves : (cmd : ℕ) (delta : Bytes) → Leaves delta (decode_size cmd delta)
unfolding decode_size
decode_size-Leaves cmd delta =
    through (decode_fields sizes cmd delta 0)
      (decode_fields-Leaves sizes cmd delta 0 (length delta) (omega arith))
  where
    through :
        (r : Result Error (ℕ × Bytes))
        → Leaves delta r
        → Leaves delta (r >>= λ (sz, rest). ok ((if sz == 0 then 65536 else sz), rest))
    through (ok (m, rest)) h = h
    through (err invalid_delta) h = tt
    through (err _) h = h

module _ (n : ℕ) (next : ValidateNext)
    (total : (delta : Bytes) (remaining : ℕ)
      → length delta ≤ n
      → next delta remaining ≢ err out_of_fuel) where
  validate_copy-total :
      (cmd : ℕ) (delta : Bytes) (src_sz remaining : ℕ)
      → length delta ≤ n
      → validate_copy next cmd delta src_sz remaining ≢ err out_of_fuel
  unfolding validate_copy
  validate_copy-total cmd delta src_sz remaining h =
      first (decode_offset cmd delta) (decode_offset-Leaves cmd delta)
    where
      tested :
          (b : Bool) (d2 : Bytes) (r : ℕ)
          → length d2 ≤ n
          → (if b then err invalid_delta else next d2 r) ≢ err out_of_fuel
      tested true d2 r k = λ e. cc
      tested false d2 r k = total d2 r k

      second :
          (offset : ℕ) (d1 : Bytes) (r : Result Error (ℕ × Bytes))
          → length d1 ≤ n
          → Leaves d1 r
          → (r >>= λ (sz, delta2).
              if invalid_size sz remaining || invalid_offset_size offset sz src_sz
              then err invalid_delta
              else next delta2 (remaining - sz))
            ≢ err out_of_fuel
      second offset d1 (ok (sz, d2)) k l = tested _ d2 (remaining - sz) (omega arith)
      second offset d1 (err invalid_delta) k l = λ e. cc
      second offset d1 (err _) k l = absurd l

      first :
          (r : Result Error (ℕ × Bytes))
          → Leaves delta r
          → (r >>= λ (offset, d1). do
            (sz, d2) ← decode_size cmd d1
            if invalid_size sz remaining || invalid_offset_size offset sz src_sz
                then err invalid_delta
                else next d2 (remaining - sz))
            ≢ err out_of_fuel
      first (ok (offset, d1)) l = second offset d1 _ (omega arith) (decode_size-Leaves cmd d1)
      first (err invalid_delta) l = λ e. cc
      first (err _) l = absurd l

  validate_insert-total :
      (cmd : ℕ) (delta : Bytes) (remaining : ℕ)
      → length delta ≤ n
      → validate_insert next cmd delta remaining ≢ err out_of_fuel
  unfolding validate_insert
  validate_insert-total cmd delta remaining h e =
      ground (arith, total (drop cmd delta) (remaining - cmd), length-drop cmd delta)

-- With fuel above the length of the delta the check ends by itself.
pub validate_loop-total :
    (fuel src_sz : ℕ) (delta : Bytes) (remaining : ℕ)
    → length delta < fuel
    → validate_loop fuel src_sz delta remaining ≢ err out_of_fuel
unfolding validate_loop
validate_loop-total zero src_sz delta remaining h e = absurd (omega arith)
validate_loop-total (suc fuel) src_sz [] remaining h e = ground arith
validate_loop-total (suc fuel) src_sz (cmd ∷ delta) remaining h e =
    let total = λ (d : Bytes) (r : ℕ) (k : length d ≤ length delta).
      validate_loop-total fuel src_sz d r (omega arith) in
    ground (
      arith,
      validate_copy-total (length delta) (validate_loop fuel src_sz) total cmd delta src_sz
          remaining (omega arith),
      validate_insert-total (length delta) (validate_loop fuel src_sz) total cmd delta remaining
          (omega arith),
    )
