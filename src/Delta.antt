-- ===== src/Delta.antt =====
-- plumbing/format/packfile/patch_delta.go: applying a delta to a base.
-- A slice is the list of its bytes, and a `bytes.Buffer` that is written is the list written.
-- A uint has 64 bits. `out_of_fuel` is the model's own: no loop reaches it.
pub mod Validate
pub mod Total
pub mod Apply
pub mod Stream
pub mod StreamLoop
pub mod Agree
pub mod Writer
pub mod WriterLoop
pub mod Encode
pub mod CopyOp
pub mod CopyRead
pub mod Runs
pub mod InsertOp
pub mod RoundTrip
mod Examples
use go_git.Prelude.{
  ℕ, zero, suc, ◌+◌, ◌-◌, ◌*◌, ◌/◌, ◌%◌, ◌^◌, bit_and, bit_or, List, [], ◌∷◌, ◌++◌, Bool, not, ◌&&◌,
  ◌||◌, ltb, ◌==◌, if◌then◌else◌, length, take, drop, get_or,
}
use go_git.Prelude.Text.{Bytes}
use go_git.Prelude.Result.{Result, ok, err, ◌>>=◌}
use go_git.Leb128
use go_git.Leb128.{decode_leb128}

-- `size_overflow` is ErrInvalidDelta wrapped round ErrLengthOverflow.
pub data Error : Type 0 where
  invalid_delta : Error
  delta_cmd : Error
  size_overflow : Error
  eof : Error
  out_of_fuel : Error

abbrev pub mask_continue : ℕ
mask_continue = 0x80

abbrev pub min_delta_size : ℕ
min_delta_size = 2

-- 64 * 1024
abbrev pub max_copy_size : ℕ
max_copy_size = 65536

abbrev pub max_int : ℕ
max_int = 2 ^ 63 - 1

-- The masks and shifts of the bytes of an offset and of a size.
abbrev pub offsets : List (ℕ × ℕ)
offsets = (0x01, 0) ∷ (0x02, 8) ∷ (0x04, 16) ∷ (0x08, 24) ∷ []

abbrev pub sizes : List (ℕ × ℕ)
sizes = (0x10, 0) ∷ (0x20, 8) ∷ (0x40, 16) ∷ []

pub is_copy_from_src : ℕ → Bool
is_copy_from_src cmd = not (bit_and cmd mask_continue == 0)

pub is_copy_from_delta : ℕ → Bool
is_copy_from_delta cmd = bit_and cmd mask_continue == 0 && not (cmd == 0)

pub size_of : Result Leb128.Error (ℕ × Bytes) → Bytes → Result Error (ℕ × Bytes)
size_of (err e) delta = err size_overflow
size_of (ok (sz, rest)) delta =
    let consumed = length delta - length rest in
    if consumed == 0 || not (bit_and (get_or delta (consumed - 1) 0) mask_continue == 0)
    then err invalid_delta
    else ok (sz, rest)

pub decode_delta_size : Bytes → Result Error (ℕ × Bytes)
decode_delta_size delta = size_of (decode_leb128 delta) delta

-- The loops of `decodeOffset` and `decodeSize`, over the fields that are left.
pub decode_fields : List (ℕ × ℕ) → ℕ → Bytes → ℕ → Result Error (ℕ × Bytes)
decode_fields [] cmd delta acc = ok (acc, delta)
decode_fields ((mask, shift) ∷ fields) cmd [] acc =
    let rest = decode_fields fields cmd [] acc in
    if bit_and cmd mask == 0 then rest else err invalid_delta
decode_fields ((mask, shift) ∷ fields) cmd (b ∷ delta) acc =
    let skip = decode_fields fields cmd (b ∷ delta) acc in
    let more = decode_fields fields cmd delta (bit_or acc (b * 2 ^ shift)) in
    if bit_and cmd mask == 0 then skip else more

pub decode_offset : ℕ → Bytes → Result Error (ℕ × Bytes)
decode_offset cmd delta = decode_fields offsets cmd delta 0

pub decode_size : ℕ → Bytes → Result Error (ℕ × Bytes)
decode_size cmd delta = do
  (sz, rest) ← decode_fields sizes cmd delta 0
  ok ((if sz == 0 then max_copy_size else sz), rest)

pub invalid_size : ℕ → ℕ → Bool
invalid_size sz remaining = ltb remaining sz

pub sum_overflows : ℕ → ℕ → Bool
sum_overflows a b = ltb ((a + b) % 2 ^ 64) a

pub invalid_offset_size : ℕ → ℕ → ℕ → Bool
invalid_offset_size offset sz src_sz =
    sum_overflows offset sz || ltb src_sz ((offset + sz) % 2 ^ 64)

-- What a loop does next: with the delta and the target size that are left.
abbrev pub ValidateNext : Type 0
ValidateNext = Bytes → ℕ → Result Error (Unit {0})

pub validate_copy : ValidateNext → ℕ → Bytes → ℕ → ℕ → Result Error (Unit {0})
validate_copy next cmd delta src_sz remaining = do
  (offset, delta1) ← decode_offset cmd delta
  (sz, delta2) ← decode_size cmd delta1
  if invalid_size sz remaining || invalid_offset_size offset sz src_sz
      then err invalid_delta
      else next delta2 (remaining - sz)

pub validate_insert : ValidateNext → ℕ → Bytes → ℕ → Result Error (Unit {0})
validate_insert next cmd delta remaining =
    if invalid_size cmd remaining
    then err invalid_delta
    else if ltb (length delta) cmd
    then err invalid_delta
    else next (drop cmd delta) (remaining - cmd)

-- The loop of `validateDeltaOps` and the test after it.
pub validate_loop : ℕ → ℕ → Bytes → ℕ → Result Error (Unit {0})
validate_loop zero src_sz delta remaining = err out_of_fuel
validate_loop (suc fuel) src_sz [] remaining = if remaining == 0 then ok tt else err invalid_delta
validate_loop (suc fuel) src_sz (cmd ∷ delta) remaining =
    if remaining == 0
    then err invalid_delta
    else if is_copy_from_src cmd
    then validate_copy (validate_loop fuel src_sz) cmd delta src_sz remaining
    else if is_copy_from_delta cmd
    then validate_insert (validate_loop fuel src_sz) cmd delta remaining
    else err delta_cmd

-- Each round takes a byte of the delta at least.
pub validate_delta_ops : Bytes → ℕ → ℕ → Result Error (Unit {0})
validate_delta_ops delta src_sz target_sz =
    if ltb max_int target_sz
    then err invalid_delta
    else validate_loop (length delta + 1) src_sz delta target_sz

abbrev pub PatchNext : Type 0
PatchNext = Bytes → Bytes → ℕ → Result Error Bytes

-- The copy of a base shorter than `src_sz`, where Go would panic, is cut off: patchDelta, the only
-- caller, has found them equal.
pub patch_copy : PatchNext → Bytes → ℕ → Bytes → Bytes → ℕ → ℕ → Result Error Bytes
patch_copy next src cmd delta dst src_sz remaining = do
  (offset, delta1) ← decode_offset cmd delta
  (sz, delta2) ← decode_size cmd delta1
  if invalid_size sz remaining || invalid_offset_size offset sz src_sz
      then err invalid_delta
      else next delta2 (dst ++ take sz (drop offset src)) (remaining - sz)

pub patch_insert : PatchNext → ℕ → Bytes → Bytes → ℕ → Result Error Bytes
patch_insert next cmd delta dst remaining =
    if invalid_size cmd remaining
    then err invalid_delta
    else if ltb (length delta) cmd
    then err invalid_delta
    else next (drop cmd delta) (dst ++ take cmd delta) (remaining - cmd)

-- The loop of `patchDelta` and the test after it: the base, the delta left, what is written.
pub patch_loop : ℕ → Bytes → ℕ → Bytes → Bytes → ℕ → Result Error Bytes
patch_loop zero src src_sz delta dst remaining = err out_of_fuel
patch_loop (suc fuel) src src_sz [] dst remaining =
    if remaining == 0 then ok dst else err invalid_delta
patch_loop (suc fuel) src src_sz (cmd ∷ delta) dst remaining =
    if remaining == 0
    then err invalid_delta
    else if is_copy_from_src cmd
    then patch_copy (patch_loop fuel src src_sz) src cmd delta dst src_sz remaining
    else if is_copy_from_delta cmd
    then patch_insert (patch_loop fuel src src_sz) cmd delta dst remaining
    else err delta_cmd

-- `patchDelta`: what `dst` holds at the end.
pub patch_delta_into : Bytes → Bytes → Bytes → Result Error Bytes
patch_delta_into dst src delta = do
  (src_sz, delta1) ← decode_delta_size delta
  if not (src_sz == length src) then err invalid_delta else do
    (target_sz, delta2) ← decode_delta_size delta1
    _ ← validate_delta_ops delta2 src_sz target_sz
    patch_loop (length delta2 + 1) src src_sz delta2 dst target_sz

-- `PatchDelta`
unfoldable pub patch_delta : Bytes → Bytes → Result Error Bytes
patch_delta src delta =
    if length src == 0 || ltb (length delta) min_delta_size
    then err invalid_delta
    else patch_delta_into [] src delta
