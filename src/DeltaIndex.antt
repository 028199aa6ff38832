-- ===== src/DeltaIndex.antt =====
-- plumbing/format/packfile/delta_index.go: the blocks of a base by their hash, in chains.
-- An index out of range panics, and is `none`. A uint32 has 32 bits.
pub mod HashTable
pub mod Hash
pub mod Build
pub mod Slices
pub mod Scan
pub mod Chains
pub mod CopyChains
pub mod Init
use go_git.Prelude.{
  ℕ, zero, suc, ◌+◌, ◌-◌, ◌*◌, ◌/◌, ◌%◌, ◌^◌, bit_and, bit_or, List, [], ◌∷◌, Bool, true, false,
  not, ◌&&◌, ltb, leb, ◌==◌, if◌then◌else◌, length, take, drop, Option, none, some, map,
}
use go_git.Prelude.Partial.{◌>>=◌, get_elem?}
use go_git.Prelude.Text.{Bytes}
use Prim.Native.Nat.{bit_xor}
use go_git.DeltaIndex.HashTable.{t}

-- A slice with an element replaced.
unfoldable pub set_elem : List ℕ → ℕ → ℕ → Option (List ℕ)
set_elem [] i v = none
set_elem (x ∷ xs) zero v = some (v ∷ xs)
set_elem (x ∷ xs) (suc i) v = do rest ← set_elem xs i v; some (x ∷ rest)

unfoldable pub zeros : ℕ → List ℕ
zeros zero = []
zeros (suc n) = 0 ∷ zeros n

abbrev pub blksz : ℕ
blksz = 16

abbrev pub max_chain_length : ℕ
max_chain_length = 64

-- One round of the hash: a byte is shifted in.
unfoldable pub hash_byte : ℕ → ℕ → Option ℕ
hash_byte hash b = do
  x ← get_elem? t (hash / 2 ^ 23)
  some (bit_xor (bit_or (hash * 2 ^ 8 % 2 ^ 32) (b % 256)) x)

unfoldable pub hash_bytes : ℕ → Bytes → Option ℕ
hash_bytes hash [] = some hash
hash_bytes hash (b ∷ bs) = do hash' ← hash_byte hash b; hash_bytes hash' bs

-- The first four bytes are one number.
unfoldable pub hash_window : Bytes → Option ℕ
hash_window (b0 ∷ b1 ∷ b2 ∷ b3 ∷ bs) =
    let hash =
      bit_or (bit_or (bit_or (b0 % 256 * 2 ^ 24) (b1 % 256 * 2 ^ 16)) (b2 % 256 * 2 ^ 8))
        (b3 % 256) in
    do x ← get_elem? t (hash / 2 ^ 31); hash_bytes (bit_xor hash x) bs
hash_window bs = none

-- `hashBlock`, over the sixteen bytes from an index on.
unfoldable pub hash_block : Bytes → ℕ → Option ℕ
hash_block raw ptr =
    if ltb (length raw) (ptr + 16) then none else hash_window (take 16 (drop ptr raw))

pub record DeltaIndex : Type 0 where
  pub table : List ℕ
  pub entries : List ℕ
  pub mask : ℕ

-- new(deltaIndex)
abbrev pub empty_index : DeltaIndex
empty_index = record { table = []; entries = []; mask = 0 }

-- The loop of `matchLength`, over the bytes from the two indices on.
unfoldable pub common : Bytes → Bytes → ℕ
common [] bs = 0
common (a ∷ more) [] = 0
common (a ∷ more) (b ∷ bs) = let l = common more bs in if a == b then suc l else 0

unfoldable pub match_length : Bytes → Bytes → ℕ → ℕ → ℕ
match_length src tgt otgt osrc = common (drop osrc src) (drop otgt tgt)

-- An offset and a length, or the length -1.
pub data Match : Type 0 where
  small_source : Match
  found : ℕ → ℕ → Match

-- The entry of a chain, 0 where there is none.
unfoldable pub match_entry : DeltaIndex → Bytes → Bytes → ℕ → ℕ → Option Match
match_entry idx src tgt tgt_offset zero = some (found 0 0)
match_entry idx src tgt tgt_offset (suc e) = do
  src_offset ← get_elem? idx.entries (suc e)
  some (found src_offset (match_length src tgt tgt_offset src_offset))

unfoldable pub find_match : DeltaIndex → Bytes → Bytes → ℕ → Option Match
find_match idx src tgt tgt_offset =
    if ltb (length tgt) (tgt_offset + 16)
    then some (found 0 (length tgt - tgt_offset))
    else if ltb (length src) blksz
    then some small_source
    else do
      h ← hash_block tgt tgt_offset
      e ← get_elem? idx.table (bit_and h idx.mask)
      match_entry idx src tgt tgt_offset e
