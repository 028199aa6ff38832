-- ===== src/DeltaIndex/Scan.antt =====
-- The scanner of a base ends in a table of chains whose links are in range.
use go_git.Prelude.{
  ℕ, zero, suc, ◌+◌, ◌-◌, ◌*◌, ◌/◌, ◌%◌, ◌^◌, ◌≤◌, ◌<◌, ◌≡◌, refl, ap, ◌∙◌, inl, inr, bit_and,
  arith, List, [], ◌∷◌, Bool, true, false, not, ◌&&◌, ◌||◌, ltb, leb, ◌==◌, length, some, All,
  Bool-cases,
}
use go_git.Prelude.Partial.{◌>>=◌, Returns, Returns-bind, get_elem?}
use go_git.Prelude.Text.{Bytes}
use go_git.Prelude.Bits.{pow_pos}
use go_git.Prelude.Xor.{bit_and_le}
use go_git.DeltaIndex.{hash_block}
use go_git.DeltaIndex.HashTable.{len8tab}
use go_git.DeltaIndex.Build.{
  DeltaIndexScanner, leading_zeros, table_size, scan_block, scan_from, scan, scan_blocks,
}
use go_git.DeltaIndex.Hash.{hash_block-Hashed}
use go_git.DeltaIndex.Slices.{get_elem?-All, All-imp, set_elem-All, length-zeros, zeros-All}

-- A scanner with room for some blocks: the heads and links are numbers of entries there are.
pub record Linked (blocks : ℕ) (s : DeltaIndexScanner) : Type 0 where
  pub counted : s.count ≤ blocks
  pub entries_room : length s.entries ≡ blocks + 1
  pub next_room : length s.next ≡ blocks + 1
  pub mask_in : s.mask < length s.table
  pub heads : All (λ e. e ≤ s.count) s.table
  pub links : All (λ e. e ≤ s.count) s.next

-- One block: an entry moves, or one is added.
scan_block-Linked :
    (blocks : ℕ) (s : DeltaIndexScanner) (last_hash key ptr t_idx head : ℕ)
    → Linked blocks s
    → s.count < blocks
    → t_idx < length s.table
    → head ≤ s.count
    → Returns
        (λ s'. Linked blocks s' × (s'.count ≤ s.count + 1))
        (scan_block s last_hash key ptr t_idx head)
unfolding scan_block
scan_block-Linked blocks s last_hash key ptr t_idx head linked room in_table in_entries =
    elim (Bool-cases (not (head == 0) && last_hash == key)) [
      | inl again ↦
          let (entries, e, (same, _)) =
            set_elem-All (λ x. Unit {0}) s.entries head ptr (trivial s.entries) tt
              (omega (arith, linked.entries_room)) in
          rw (again) (
            record s { entries = entries },
            ap (λ o. o >>= λ t. some (record s { entries = t })) e,
            (
              record {
                counted = linked.counted;
                entries_room = same ∙ linked.entries_room;
                next_room = linked.next_room;
                mask_in = linked.mask_in;
                heads = linked.heads;
                links = linked.links;
              },
              omega arith,
            ),
          )
      | inr fresh ↦
          let c : ℕ = suc s.count in
          let (entries, e, (same, _)) =
            set_elem-All (λ x. Unit {0}) s.entries c ptr (trivial s.entries) tt
              (omega (arith, linked.entries_room)) in
          let (next, e', (same', links)) =
            set_elem-All (λ x. x ≤ c) s.next c head
              (All-imp (λ x. x ≤ s.count) (λ x. x ≤ c) s.next (λ x h. omega arith) linked.links)
              (omega arith) (omega (arith, linked.next_room)) in
          let (table, e'', (same'', heads)) =
            set_elem-All (λ x. x ≤ c) s.table t_idx c
              (All-imp (λ x. x ≤ s.count) (λ x. x ≤ c) s.table (λ x h. omega arith) linked.heads)
              (omega arith) in_table in
          rw (fresh) (
            rw (e) (
              rw (e') (
                rw (e'') (
                  record s { table = table; entries = entries; next = next; count = c },
                  refl,
                  (
                    record {
                      counted = omega arith;
                      entries_room = same ∙ linked.entries_room;
                      next_room = same' ∙ linked.next_room;
                      mask_in = omega (arith, linked.mask_in);
                      heads = heads;
                      links = links;
                    },
                    omega arith,
                  ),
                ))))
    ]
  where
    trivial : (xs : List ℕ) → All (λ x. Unit {0}) xs
    trivial [] = tt
    trivial (x ∷ xs) = (tt, trivial xs)

scan_from-Linked :
    (fuel blocks : ℕ) (buf : Bytes) (s : DeltaIndexScanner) (last_hash ptr : ℕ)
    → Linked blocks s
    → s.count + fuel ≤ blocks
    → ptr + 16 ≤ length buf
    → Returns (Linked blocks) (scan_from fuel buf s last_hash ptr)
unfolding scan_from
scan_from-Linked zero blocks buf s last_hash ptr linked room inside = (s, refl, linked)
scan_from-Linked (suc fuel) blocks buf s last_hash ptr linked room inside =
    Returns-bind (hash_block buf ptr) _ (hash_block-Hashed buf ptr inside) (λ key below.
      let t_idx : ℕ = bit_and key s.mask in
      let in_table : t_idx < length s.table =
        omega (arith, bit_and_le key s.mask, linked.mask_in) in
      Returns-bind (get_elem? s.table t_idx) _
        (get_elem?-All (λ e. e ≤ s.count) s.table t_idx linked.heads in_table)
        (λ head in_entries.
          Returns-bind (scan_block s last_hash key ptr t_idx head) _
            (scan_block-Linked blocks s last_hash key ptr t_idx head linked (omega arith) in_table
              in_entries)
            (λ s' step. elim (Bool-cases (ltb ptr 16)) [
              | inl last ↦ rw (last) (s', refl, step.0)
              | inr more ↦
                  let (linked', counted) = step in
                  let above : 16 ≤ ptr = ground arith in
                  rw (more) (
                    scan_from-Linked fuel blocks buf s' key (ptr - 16) linked' (omega arith)
                      (omega arith))
            ])))

-- The bits of a byte, from an entry of the table on: none of zero, and eight at most.
unfoldable bits_from : ℕ → List ℕ → Bool
bits_from n [] = true
bits_from n (l ∷ ls) = leb l 8 && (leb 1 l || n == 0) && bits_from (suc n) ls

abbrev Bits : ℕ → ℕ → Type 0
Bits n l = (l ≤ 8) × (0 < n → 0 < l)

bits_from-Returns :
    (n i : ℕ) (ls : List ℕ)
    → bits_from n ls ≡ true
    → i < length ls
    → Returns (Bits (n + i)) (get_elem? ls i)
unfolding bits_from get_elem?
bits_from-Returns n i [] h inside = absurd (omega arith)
bits_from-Returns n zero (l ∷ ls) h inside = (l, refl, (ground arith, λ pos. ground arith))
bits_from-Returns n (suc i) (l ∷ ls) h inside =
    let (m, e, (small, pos)) = bits_from-Returns (suc n) i ls (ground arith) (omega arith) in
    (m, e, (small, λ p. pos (omega arith)))

len8tab-Returns : (i : ℕ) → i < 256 → Returns (Bits i) (get_elem? len8tab i)
unfolding bits_from len8tab
len8tab-Returns i inside =
    let (l, e, (small, pos)) = bits_from-Returns 0 i len8tab refl inside in
    (l, e, (small, λ p. pos (omega arith)))

leading_zeros-Returns : (x : ℕ) → 0 < x → x < 2 ^ 32 → Returns (λ z. z < 32) (leading_zeros x)
unfolding leading_zeros
leading_zeros-Returns x pos below = elim (Bool-cases (leb (2 ^ 16) x)) [
  | inl high ↦ elim (Bool-cases (leb (2 ^ 8) (x / 2 ^ 16))) [
    | inl higher ↦
        let (l, e, (small, some_bits)) = len8tab-Returns (x / 2 ^ 16 / 2 ^ 8) (omega arith) in
        rw (high) (rw (higher) (rw (e) (_, refl, omega arith)))
    | inr lower ↦
        let (l, e, (small, some_bits)) = len8tab-Returns (x / 2 ^ 16) (ground arith) in
        rw (high) (rw (lower) (rw (e) (_, refl, omega arith)))
  ]
  | inr low ↦ elim (Bool-cases (leb (2 ^ 8) x)) [
    | inl higher ↦
        let below16 : x < 2 ^ 16 = ground arith in
        let (l, e, (small, some_bits)) = len8tab-Returns (x / 2 ^ 8) (omega arith) in
        rw (low) (rw (higher) (rw (e) (_, refl, omega arith)))
    | inr lower ↦
        let (l, e, (small, some_bits)) = len8tab-Returns x (ground arith) in
        rw (low) (rw (lower) (rw (e) (_, refl, omega (arith, some_bits pos))))
  ]
]

-- A table has a place at least.
table_size-Returns :
    (blocks : ℕ) → 0 < blocks → blocks < 2 ^ 32 → Returns (λ sz. 0 < sz) (table_size blocks)
unfolding table_size
table_size-Returns blocks pos below =
    let same : blocks % 2 ^ 32 ≡ blocks = omega arith in
    Returns-bind (leading_zeros (blocks % 2 ^ 32)) _
      (leading_zeros-Returns (blocks % 2 ^ 32) (omega arith) (omega arith))
      (λ z few.
        let some_shift : (32 - z == 0) ≡ false = ground arith in
        let sz : ℕ = 2 ^ (32 - z - 1) in
        rw (some_shift) (elim (Bool-cases (ltb sz blocks)) [
          | inl doubled ↦ rw (doubled) (sz * 2, refl, omega (arith, pow_pos (32 - z - 1)))
          | inr enough ↦ rw (enough) (sz, refl, omega (arith, pow_pos (32 - z - 1)))
        ]))

pub scan_blocks-Linked :
    (buf : Bytes) (size blocks : ℕ)
    → size ≡ blocks * 16
    → size ≤ length buf
    → 0 < blocks
    → blocks < 2 ^ 32
    → Returns (Linked blocks) (scan_blocks buf size blocks)
unfolding scan_blocks scan
scan_blocks-Linked buf size blocks whole inside pos below =
    Returns-bind (table_size blocks) _ (table_size-Returns blocks pos below) (λ sz some_place.
      scan_from-Linked (size / 16) blocks buf _ 0 (size - 16)
        (record {
          counted = omega arith;
          entries_room = length-zeros (blocks + 1);
          next_room = length-zeros (blocks + 1);
          mask_in = omega (arith, length-zeros sz);
          heads = zeros-All (λ e. e ≤ 0) sz (omega arith);
          links = zeros-All (λ e. e ≤ 0) (blocks + 1) (omega arith);
        })
        (omega arith) (omega arith))
