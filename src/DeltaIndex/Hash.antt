-- ===== src/DeltaIndex/Hash.antt =====
-- `hashBlock` never reads past its table: the hash stays below 2^31, since the entries at odd
-- places, and no others, have the top bit.
use go_git.Prelude.{
  ℕ, zero, suc, ◌+◌, ◌*◌, ◌/◌, ◌%◌, ◌^◌, ◌≤◌, ◌<◌, ◌≡◌, refl, sym, ap, ◌∙◌, bit_or, arith, List, [],
  ◌∷◌, Bool, true, false, ◌&&◌, ltb, ◌==◌, length, take, drop, length-take, length-drop, Option,
  some,
}
use go_git.Prelude.Partial.{◌>>=◌, get_elem?}
use go_git.Prelude.Text.{Bytes}
use go_git.Prelude.Bits.{bit_or_disjoint, bit_or_comm}
use go_git.Prelude.Xor.{bit_xor_below, bit_or_below}
use go_git.DeltaIndex.{hash_byte, hash_bytes, hash_window, hash_block}
use go_git.DeltaIndex.HashTable.{t}
use Prim.Native.Nat.{bit_xor}

-- Whether the top bit of the entries alternates, from an entry of the number n on.
unfoldable parities : ℕ → List ℕ → Bool
parities n [] = true
parities n (x ∷ xs) = (x / 2 ^ 31 == n % 2) && parities (suc n) xs

abbrev Entry : List ℕ → ℕ → ℕ → Type 0
Entry xs i parity = (x : ℕ) × (get_elem? xs i ≡ some x) × (x / 2 ^ 31 ≡ parity)

Entry-parities :
    (n i : ℕ) (xs : List ℕ) → parities n xs ≡ true → i < length xs → Entry xs i ((n + i) % 2)
unfolding parities get_elem?
Entry-parities n i [] h inside = absurd (omega arith)
Entry-parities n zero (x ∷ xs) h inside = (x, refl, ground arith)
Entry-parities n (suc i) (x ∷ xs) h inside =
    let (y, found, parity) = Entry-parities (suc n) i xs (ground arith) (omega arith) in
    (y, found, omega arith)

t-Entry : (i : ℕ) → i < 256 → Entry t i (i % 2)
unfolding parities t
t-Entry i inside =
    let (x, found, parity) = Entry-parities 0 i t refl inside in (x, found, omega arith)

-- A hash that has no top bit.
abbrev Hashed : Option ℕ → Type 0
Hashed o = (h : ℕ) × (o ≡ some h) × (h < 2 ^ 31)

shifted : (hash b : ℕ) → bit_or (hash * 2 ^ 8 % 2 ^ 32) (b % 256) / 2 ^ 31 ≡ hash / 2 ^ 23 % 2
shifted hash b =
    let low : hash * 2 ^ 8 % 2 ^ 32 ≡ hash % 2 ^ 24 * 2 ^ 8 = omega arith in
    let sum : bit_or (hash * 2 ^ 8 % 2 ^ 32) (b % 256) ≡ b % 256 + hash % 2 ^ 24 * 2 ^ 8 =
      bit_or_comm (hash * 2 ^ 8 % 2 ^ 32) (b % 256)
      ∙ ap (bit_or (b % 256)) low
      ∙ bit_or_disjoint 8 (b % 256) (hash % 2 ^ 24) (omega arith) in
    omega arith

hash_byte-Hashed : (hash b : ℕ) → hash < 2 ^ 31 → Hashed (hash_byte hash b)
unfolding hash_byte
hash_byte-Hashed hash b below =
    let (x, found, parity) = t-Entry (hash / 2 ^ 23) (omega arith) in
    let shift : ℕ = bit_or (hash * 2 ^ 8 % 2 ^ 32) (b % 256) in
    (
      bit_xor shift x,
      ap (λ o. o >>= λ y. some (bit_xor shift y)) found,
      bit_xor_below 31 shift x (shifted hash b ∙ sym parity),
    )

hash_bytes-Hashed : (hash : ℕ) (bs : Bytes) → hash < 2 ^ 31 → Hashed (hash_bytes hash bs)
unfolding hash_bytes
hash_bytes-Hashed hash [] below = (hash, refl, below)
hash_bytes-Hashed hash (b ∷ bs) below =
    let (h, hashed, h_below) = hash_byte-Hashed hash b below in
    rw (hashed) (hash_bytes-Hashed h bs h_below)

hash_window-Hashed : (bs : Bytes) → length bs ≡ 16 → Hashed (hash_window bs)
unfolding hash_window
hash_window-Hashed (b0 ∷ b1 ∷ b2 ∷ b3 ∷ bs) sized =
    let start : ℕ =
      bit_or (bit_or (bit_or (b0 % 256 * 2 ^ 24) (b1 % 256 * 2 ^ 16)) (b2 % 256 * 2 ^ 8))
        (b3 % 256) in
    let below : start < 2 ^ 32 =
      bit_or_below 32 _ _
        (bit_or_below 32 _ _ (bit_or_below 32 _ _ (omega arith) (omega arith)) (omega arith))
        (omega arith) in
    let (x, found, parity) = t-Entry (start / 2 ^ 31) (omega arith) in
    rw (found) (hash_bytes-Hashed (bit_xor start x) bs (bit_xor_below 31 start x (omega arith)))
hash_window-Hashed [] sized = absurd (omega arith)
hash_window-Hashed (b0 ∷ []) sized = absurd (omega arith)
hash_window-Hashed (b0 ∷ b1 ∷ []) sized = absurd (omega arith)
hash_window-Hashed (b0 ∷ b1 ∷ b2 ∷ []) sized = absurd (omega arith)

pub hash_block-Hashed :
    (raw : Bytes) (ptr : ℕ)
    → ptr + 16 ≤ length raw
    → (h : ℕ) × (hash_block raw ptr ≡ some h) × (h < 2 ^ 31)
unfolding hash_block
hash_block-Hashed raw ptr fits =
    let within : ltb (length raw) (ptr + 16) ≡ false = ground arith in
    rw (within) (
      hash_window-Hashed (take 16 (drop ptr raw))
        (omega (arith, length-take 16 (drop ptr raw), length-drop ptr raw)))
