-- ===== src/IdxFile.antt =====
-- plumbing/format/idxfile/idxfile.go: the index of a packfile in memory.
-- A panic is `none`. A hash is the list of its bytes, and an int64 the residue that its bits are.
-- The mutex is left out.
pub mod Order
pub mod Search
pub mod Lookup
mod Examples
use go_git.Prelude.{
  ℕ, zero, suc, ◌+◌, ◌-◌, ◌*◌, ◌/◌, ◌%◌, ◌^◌, bit_and, List, [], ◌∷◌, Bool, true, false, not, ◌&&◌,
  ◌||◌, ltb, leb, ◌==◌, if◌then◌else◌, length, take, drop, Option, none, some,
}
use go_git.Prelude.Partial.{◌>>=◌, get_elem?}
use go_git.Prelude.Result.{Result, ok, err}
use go_git.Prelude.Text.{Bytes, same}

pub data Error : Type 0 where
  object_not_found : Error
  malformed_idx_file : Error

-- `none` in the mapping is noMapping.
pub record MemoryIndex : Type 0 where
  pub fanout : List ℕ
  pub fanout_mapping : List (Option ℕ)
  pub names : List Bytes
  pub offset32 : List Bytes
  pub crc32 : List Bytes
  pub offset64 : Bytes
  pub offset_hash : Option (ℕ → Option Bytes)
  pub object_id_size : ℕ

-- bytes.Compare is negative.
unfoldable pub less : Bytes → Bytes → Bool
less [] [] = false
less [] (b ∷ ys) = true
less (a ∷ xs) [] = false
less (a ∷ xs) (b ∷ ys) = ltb a b || (a == b) && less xs ys

-- A slice of some bytes from an offset on.
unfoldable pub slice : Bytes → ℕ → ℕ → Option Bytes
slice bytes offset n =
    if ltb (length bytes) (offset + n) then none else some (take n (drop offset bytes))

unfoldable pub big_endian : ℕ → Bytes → ℕ
big_endian n [] = n
big_endian n (b ∷ bs) = big_endian (n * 2 ^ 8 + b % 256) bs

unfoldable pub id_size : MemoryIndex → ℕ
id_size idx = if not (idx.object_id_size == 0) then idx.object_id_size else 20

-- What the loop does with the half that is left.
abbrev pub SearchNext : Type 0
SearchNext = ℕ → ℕ → Option (Option ℕ)

unfoldable pub search_slot : SearchNext → Bytes → ℕ → ℕ → ℕ → Bytes → Option (Option ℕ)
search_slot next h low mid high slot =
    let lower = next low mid in
    let upper = next (suc mid) high in
    if less h slot then lower else if same h slot then some (some mid) else upper

unfoldable pub search_half : SearchNext → ℕ → ℕ → Option (Option ℕ)
search_half next low high = let more = next low high in if leb high low then some none else more

-- The loop of `findHashIndex`.
unfoldable pub search_loop : ℕ → Bytes → ℕ → Bytes → ℕ → ℕ → Option (Option ℕ)
search_loop zero names size h low high = none
search_loop (suc fuel) names size h low high = do
  slot ← slice names ((low + high) / 2 * size) size
  search_slot (search_half (search_loop fuel names size h)) h low ((low + high) / 2) high slot

-- Each round halves what is left.
unfoldable pub search_bucket : Bytes → ℕ → Bytes → ℕ → Option (Option ℕ)
search_bucket names size h high =
    let found = search_loop high names size h 0 high in if high == 0 then some none else found

unfoldable pub in_bucket : MemoryIndex → Bytes → Option ℕ → Option (Option ℕ)
in_bucket idx h none = some none
in_bucket idx h (some k) =
    let search = (do
      names ← get_elem? idx.names k
      offsets ← get_elem? idx.offset32 k
      search_bucket names (id_size idx) h (length offsets / 4)) in
    if leb (length idx.names) k then some none else search

-- The bucket of a hash.
unfoldable pub bucket_of : MemoryIndex → Bytes → Option (Option ℕ)
bucket_of idx h = do first ← get_elem? h 0; get_elem? idx.fanout_mapping first

unfoldable pub find_hash_index : MemoryIndex → Bytes → Option (Option ℕ)
find_hash_index idx h = do k ← bucket_of idx h; in_bucket idx h k

unfoldable pub is_mapped : Option ℕ → Bool
is_mapped none = false
is_mapped (some k) = true

unfoldable pub may_contain : MemoryIndex → Bytes → Option Bool
may_contain idx h = do k ← bucket_of idx h; some (is_mapped k)

unfoldable pub contains : MemoryIndex → Bytes → Option Bool
contains idx h = do i ← find_hash_index idx h; some (is_mapped i)

-- An offset of 31 bits, or the place of one of 64 bits.
unfoldable pub offset_of : MemoryIndex → ℕ → Option (Result Error ℕ)
offset_of idx ofs =
    let offset = 8 * (ofs % 2 ^ 31) in
    let wide = (do bytes ← slice idx.offset64 offset 8; some (ok (big_endian 0 bytes))) in
    if not (bit_and ofs (2 ^ 31) == 0)
    then (if ltb (length idx.offset64) 8 || ltb (length idx.offset64 - 8) offset
        then some (err malformed_idx_file)
        else wide)
    else some (ok ofs)

unfoldable pub get_offset : MemoryIndex → ℕ → ℕ → Option (Result Error ℕ)
get_offset idx first_level second_level = do
  offsets ← get_elem? idx.offset32 first_level
  bytes ← slice offsets (second_level * 4) 4
  offset_of idx (big_endian 0 bytes)

-- The offset is saved for reverse lookup.
unfoldable pub with_hash : Option (ℕ → Option Bytes) → ℕ → Bytes → ℕ → Option Bytes
with_hash none offset h o = if offset == o then some h else none
with_hash (some hashes) offset h o = if offset == o then some h else hashes o

unfoldable pub save_offset : MemoryIndex → Bytes → Result Error ℕ → Result Error ℕ × MemoryIndex
save_offset idx h (err e) = (err e, idx)
save_offset idx h (ok offset) =
    (ok offset, record idx { offset_hash = some (with_hash idx.offset_hash offset h) })

unfoldable pub offset_at :
    MemoryIndex → Bytes → Option ℕ → Option ℕ → Option (Result Error ℕ × MemoryIndex)
offset_at idx h k none = some (err object_not_found, idx)
offset_at idx h none (some i) = none
offset_at idx h (some k) (some i) = do offset ← get_offset idx k i; some (save_offset idx h offset)

-- The table of the mapping has 256 places, so that its length is no guard.
unfoldable pub find_offset : MemoryIndex → Bytes → Option (Result Error ℕ × MemoryIndex)
find_offset idx h = do k ← bucket_of idx h; i ← find_hash_index idx h; offset_at idx h k i

unfoldable pub get_crc32 : MemoryIndex → ℕ → ℕ → Option ℕ
get_crc32 idx first_level second_level = do
  sums ← get_elem? idx.crc32 first_level
  bytes ← slice sums (second_level * 4) 4
  some (big_endian 0 bytes)

unfoldable pub crc32_at : MemoryIndex → Option ℕ → Option ℕ → Option (Result Error ℕ)
crc32_at idx k none = some (err object_not_found)
crc32_at idx none (some i) = none
crc32_at idx (some k) (some i) = do sum ← get_crc32 idx k i; some (ok sum)

unfoldable pub find_crc32 : MemoryIndex → Bytes → Option (Result Error ℕ)
find_crc32 idx h = do k ← bucket_of idx h; i ← find_hash_index idx h; crc32_at idx k i

-- `Count`
unfoldable pub count : MemoryIndex → Option ℕ
count idx = get_elem? idx.fanout 255
