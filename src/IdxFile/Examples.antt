-- ===== src/IdxFile/Examples.antt =====
-- Lookups in an index of two names, and the theorem at a concrete input.
use go_git.Prelude.{◌≡◌, refl, [], ◌∷◌, none, some}
use go_git.Prelude.Partial.{get_elem?}
use go_git.Prelude.Result.{ok}
use go_git.IdxFile.{MemoryIndex, slice, big_endian, get_offset, offset_of}

-- Names of two bytes, in the bucket of the first byte 1; the second offset is a wide one.
abbrev two_names : MemoryIndex
two_names = record {
  fanout = 0 ∷ 2 ∷ [];
  fanout_mapping = none ∷ some 0 ∷ [];
  names = (1 ∷ 3 ∷ 1 ∷ 9 ∷ []) ∷ [];
  offset32 = (0 ∷ 0 ∷ 0 ∷ 12 ∷ 128 ∷ 0 ∷ 0 ∷ 0 ∷ []) ∷ [];
  crc32 = (0 ∷ 0 ∷ 0 ∷ 1 ∷ 0 ∷ 0 ∷ 0 ∷ 2 ∷ []) ∷ [];
  offset64 = 0 ∷ 0 ∷ 0 ∷ 1 ∷ 0 ∷ 0 ∷ 0 ∷ 7 ∷ [];
  offset_hash = none;
  object_id_size = 2;
}

wide_offset : get_offset two_names 0 1 ≡ some (ok 4294967303)
unfolding get_offset get_elem? slice big_endian offset_of
wide_offset = refl
