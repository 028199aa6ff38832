-- ===== src/Delta/Writer.antt =====
-- plumbing/format/packfile/patch_delta.go: `patchDeltaWriter`, which applies a delta to a base that is
-- read at offsets and hashes what it writes. The hash of an object's size and content is a parameter,
-- the type being fixed; the writer takes every byte, and the header's may fail.
use go_git.Prelude.{
  ℕ, zero, suc, ◌+◌, ◌-◌, [], ◌∷◌, ◌++◌, Bool, not, ◌||◌, ltb, ◌==◌, if◌then◌else◌, length, take,
  drop, Option, none, some,
}
use go_git.Prelude.Text.{Bytes}
use go_git.Prelude.Result.{Result, ok, err}
use go_git.Delta.{
  Error, invalid_delta, delta_cmd, out_of_fuel, min_delta_size, is_copy_from_src,
  is_copy_from_delta, invalid_size, invalid_offset_size, decode_delta_size, validate_delta_ops,
}
use go_git.Delta.Stream.{decode_offset_byte_reader, decode_size_byte_reader}

pub data WriteError : Type 0 where
  patch_failed : Error → WriteError
  header_failed : WriteError

-- What was written, and how a loop or a step ended.
abbrev pub Progress : Type 0
Progress = Bytes × Result Error (Unit {0})

abbrev pub WriterNext : Type 0
WriterNext = Bytes → Bytes → ℕ → Progress

unfoldable pub or_fail : {A : Type 0} → Bytes → Result Error A → (A → Progress) → Progress
or_fail out (err e) next = (out, err e)
or_fail out (ok a) next = next a

-- A copy reads the section of the base that its size bounds.
unfoldable pub write_copy : WriterNext → Bytes → ℕ → ℕ → Bytes → Bytes → ℕ → Progress
write_copy next base src_sz cmd delta out remaining =
    or_fail out (decode_offset_byte_reader cmd delta) λ (offset, delta1).
      or_fail out (decode_size_byte_reader cmd delta1) λ (sz, delta2).
        if invalid_size sz remaining || invalid_offset_size offset sz src_sz
        then (out, err invalid_delta)
        else next delta2 (out ++ take sz (drop offset (take src_sz base))) (remaining - sz)

-- Where the delta is too short for it, an insert copies what there is.
unfoldable pub write_insert : WriterNext → ℕ → Bytes → Bytes → ℕ → Progress
write_insert next cmd delta out remaining =
    if invalid_size cmd remaining
    then (out, err invalid_delta)
    else next (drop cmd delta) (out ++ take cmd delta) (remaining - cmd)

unfoldable pub write_rest : Bytes → Bytes → Progress
write_rest [] out = (out, ok tt)
write_rest (b ∷ delta) out = (out, err invalid_delta)

unfoldable pub write_next : WriterNext → Bytes → ℕ → Bytes → Bytes → ℕ → Progress
write_next next base src_sz [] out remaining = (out, err invalid_delta)
write_next next base src_sz (cmd ∷ delta) out remaining =
    if is_copy_from_src cmd
    then write_copy next base src_sz cmd delta out remaining
    else if is_copy_from_delta cmd
    then write_insert next cmd delta out remaining
    else (out, err delta_cmd)

-- The loop and the test after it. A round takes a byte of the delta.
unfoldable pub writer_loop : ℕ → Bytes → ℕ → WriterNext
writer_loop zero base src_sz delta out remaining = (out, err out_of_fuel)
writer_loop (suc fuel) base src_sz delta out remaining =
    if remaining == 0
    then write_rest delta out
    else write_next (writer_loop fuel base src_sz) base src_sz delta out remaining

module _ {H : Type 0} (sum : ℕ → Bytes → H) where
  -- What the destination was given, and the size and the hash or an error.
  abbrev pub Written : Type 0
  Written = Bytes × Result WriteError (ℕ × H)

  unfoldable pub hashed : ℕ → Progress → Written
  hashed target_sz (out, err e) = (out, err (patch_failed e))
  hashed target_sz (out, ok _) = (out, ok (target_sz, sum target_sz out))

  -- The header's writer, if there is one, and whether it fails for a size.
  unfoldable pub header_fails : Option (ℕ → Bool) → ℕ → Bool
  header_fails none target_sz = Bool.false
  header_fails (some fails) target_sz = fails target_sz

  unfoldable pub write_valid :
      Option (ℕ → Bool) → Bytes → ℕ → Bytes → ℕ → Result Error (Unit {0}) → Written
  write_valid header base src_sz delta target_sz (err e) = ([], err (patch_failed e))
  write_valid header base src_sz delta target_sz (ok _) =
      if header_fails header target_sz
      then ([], err header_failed)
      else hashed target_sz (writer_loop (length delta + 1) base src_sz delta [] target_sz)

  unfoldable pub write_target : Option (ℕ → Bool) → Bytes → ℕ → Result Error (ℕ × Bytes) → Written
  write_target header base src_sz (err e) = ([], err (patch_failed e))
  write_target header base src_sz (ok (target_sz, delta)) =
      write_valid header base src_sz delta target_sz (validate_delta_ops delta src_sz target_sz)

  -- `baseSz` is none where it is negative.
  unfoldable pub is_size : ℕ → Option ℕ → Bool
  is_size src_sz none = Bool.false
  is_size src_sz (some base_sz) = src_sz == base_sz

  unfoldable pub write_source :
      Option (ℕ → Bool) → Bytes → Option ℕ → Result Error (ℕ × Bytes) → Written
  write_source header base base_sz (err e) = ([], err (patch_failed e))
  write_source header base base_sz (ok (src_sz, delta)) =
      if not (is_size src_sz base_sz)
      then ([], err (patch_failed invalid_delta))
      else write_target header base src_sz (decode_delta_size delta)

  unfoldable pub patch_delta_writer : Option (ℕ → Bool) → Bytes → Option ℕ → Bytes → Written
  patch_delta_writer header base base_sz delta =
      if ltb (length delta) min_delta_size
      then ([], err (patch_failed invalid_delta))
      else write_source header base base_sz (decode_delta_size delta)
