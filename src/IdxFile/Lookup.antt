-- ===== src/IdxFile/Lookup.antt =====
-- The lookups of an index agree: on a name that a bucket holds, and on one that none does.
use go_git.Prelude.{ℕ, ◌+◌, ◌*◌, ◌≤◌, ◌≡◌, refl, [], ◌∷◌, true, false, length, some, none-ne-some}
use go_git.Prelude.Partial.{get_elem?, Returns}
use go_git.Prelude.Text.{Bytes}
use go_git.Prelude.Result.{ok, err}
use go_git.IdxFile.{
  object_not_found, MemoryIndex, id_size, bucket_of, may_contain, contains, get_offset, save_offset,
  find_offset, get_crc32, find_crc32,
}
use go_git.IdxFile.Search.{slot, Sorted}

-- A bucket: its names in order, and as many offsets and checksums.
pub record Bucket (idx : MemoryIndex) (k : ℕ) : Type 0 where
  pub names : Bytes
  pub offsets : Bytes
  pub sums : Bytes
  pub n : ℕ
  pub has_names : get_elem? idx.names k ≡ some names
  pub has_offsets : get_elem? idx.offset32 k ≡ some offsets
  pub has_sums : get_elem? idx.crc32 k ≡ some sums
  pub offsets_room : length offsets ≡ n * 4
  pub sums_room : length sums ≡ n * 4
  pub sorted : Sorted names (id_size idx) n

-- Every bucket that is mapped is there.
abbrev pub IsWellFormed : MemoryIndex → Type 0
IsWellFormed idx = (first k : ℕ) → get_elem? idx.fanout_mapping first ≡ some (some k) → Bucket idx k

-- The name in the i-th place of the bucket k is h, whose first byte leads there.
abbrev pub IsEntry : MemoryIndex → Bytes → ℕ → ℕ → Type 0
IsEntry idx h k i =
    (bucket_of idx h ≡ some (some k))
    × (names : Bytes) × (get_elem? idx.names k ≡ some names)
    × (i * id_size idx + id_size idx ≤ length names)
    × (slot names (id_size idx) i ≡ h)

module _ (idx : MemoryIndex) (h : Bytes) where
  abbrev pub Present : Type 0
  Present =
      (k : ℕ) × (i : ℕ) × IsEntry idx h k i
      × (may_contain idx h ≡ some true)
      × (contains idx h ≡ some true)
      × Returns (λ offset. find_offset idx h ≡ some (save_offset idx h offset)) (get_offset idx k i)
      × Returns (λ sum. find_crc32 idx h ≡ some (ok sum)) (get_crc32 idx k i)

  abbrev pub Absent : Type 0
  Absent =
      ((k i : ℕ) → ¬ IsEntry idx h k i)
      × (contains idx h ≡ some false)
      × (find_offset idx h ≡ some (err object_not_found, idx))
      × (find_crc32 idx h ≡ some (err object_not_found))

first_byte :
    (idx : MemoryIndex) (h : Bytes) (k : ℕ)
    → bucket_of idx h ≡ some (some k)
    → (first : ℕ) × (get_elem? h 0 ≡ some first)
      × (get_elem? idx.fanout_mapping first ≡ some (some k))
unfolding bucket_of get_elem?
first_byte idx [] k mapped = absurd (none-ne-some mapped)
first_byte idx (b ∷ h) k mapped = (b, refl, mapped)
