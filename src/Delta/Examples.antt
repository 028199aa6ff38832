-- ===== src/Delta/Examples.antt =====
-- Runs of the delta routines, and the theorems at concrete inputs.
use go_git.Prelude.{Bool, Option, some, ◌==◌, ℕ, ◌+◌, ◌≡◌, ◌≢◌, refl, arith, List, [], ◌∷◌}
use go_git.Prelude.Text.{Bytes, codes}
use go_git.Prelude.Result.{ok, err, map_ok}
use go_git.Leb128.{decode_leb128}
use go_git.Delta.{
  invalid_delta, delta_cmd, out_of_fuel, is_copy_from_src, is_copy_from_delta, size_of,
  decode_delta_size, decode_fields, decode_offset, decode_size, invalid_size, sum_overflows,
  invalid_offset_size, validate_copy, validate_insert, validate_loop, validate_delta_ops,
  patch_copy, patch_insert, patch_loop, patch_delta_into, patch_delta,
}
use go_git.Delta.Validate.{done, patch_loop-validate}
use go_git.Delta.Apply.{Advertises, patch_delta_into-total, patch_delta_into-Advertises}
use go_git.Delta.Encode.{encode_copy_operation, encode_fields}
use go_git.Delta.RoundTrip.{DeltaOp, copy, insert, delta_of, patch_delta_into-encode}
use go_git.Delta.Stream.{Base, reader_from_delta}
use go_git.Delta.Agree.{closed, reader_from_delta-patch}
use go_git.Delta.Writer.{patch_delta_writer}
use go_git.Delta.WriterLoop.{written_of, patch_delta_writer-patch}

abbrev hello : Bytes
hello = codes "hello world"

abbrev base : Base
base = record { size = 11; content = hello }

-- Copy "world", insert ", ", copy "hello".
abbrev swap_words : List DeltaOp
swap_words = copy 6 5 ∷ insert (codes ", ") ∷ copy 0 5 ∷ []

abbrev swap_delta : Bytes
swap_delta = 11 ∷ 12 ∷ 0x91 ∷ 6 ∷ 5 ∷ 2 ∷ 44 ∷ 32 ∷ 0x90 ∷ 5 ∷ []

swap_runs : patch_delta_into [] hello swap_delta ≡ ok (codes "world, hello")
unfolding patch_delta_into decode_delta_size size_of decode_leb128 validate_delta_ops validate_loop
    validate_copy validate_insert patch_loop patch_copy patch_insert is_copy_from_src
    is_copy_from_delta decode_offset decode_size decode_fields invalid_size invalid_offset_size
    sum_overflows
swap_runs = refl

copy_bytes : encode_copy_operation 6 5 ≡ 0x91 ∷ 6 ∷ 5 ∷ []
unfolding encode_copy_operation encode_fields
copy_bytes = refl

-- A delta that promises more than its operations build.
short_of_target : patch_delta hello (11 ∷ 12 ∷ 0x91 ∷ 6 ∷ 5 ∷ []) ≡ err invalid_delta
unfolding patch_delta patch_delta_into decode_delta_size size_of decode_leb128 validate_delta_ops
    validate_loop validate_copy validate_insert is_copy_from_src is_copy_from_delta decode_offset
    decode_size decode_fields invalid_size invalid_offset_size sum_overflows
short_of_target = refl

zero_command : patch_delta hello (11 ∷ 1 ∷ 0 ∷ []) ≡ err delta_cmd
unfolding patch_delta patch_delta_into decode_delta_size size_of decode_leb128 validate_delta_ops
    validate_loop is_copy_from_src is_copy_from_delta
zero_command = refl

patch_loop-validate_example :
    done (patch_loop 2 hello 11 (0x91 ∷ 6 ∷ 5 ∷ []) [] 5) ≡ validate_loop 2 11 (0x91 ∷ 6 ∷ 5 ∷ []) 5
patch_loop-validate_example = patch_loop-validate 2 hello 11 (0x91 ∷ 6 ∷ 5 ∷ []) [] 5

patch_delta_into-total_example : patch_delta_into [] hello swap_delta ≢ err out_of_fuel
patch_delta_into-total_example = patch_delta_into-total [] hello swap_delta

patch_delta_into-Advertises_example :
    (target_sz : ℕ) × Advertises swap_delta 11 target_sz × (12 ≡ 0 + target_sz)
patch_delta_into-Advertises_example =
    patch_delta_into-Advertises [] hello swap_delta (codes "world, hello") (omega arith) swap_runs

patch_delta_into-encode_example :
    patch_delta_into [] hello (delta_of hello swap_words) ≡ ok (codes "world, hello")
patch_delta_into-encode_example =
    patch_delta_into-encode hello [] swap_words (omega arith) (omega arith) (omega arith)

reader_from_delta-patch_example :
    reader_from_delta base swap_delta ≡ map_ok closed (patch_delta_into [] hello swap_delta)
reader_from_delta-patch_example = reader_from_delta-patch base swap_delta refl (omega arith)

-- A hash that keeps what it is of, and a header that cannot be written for a size of five.
abbrev kept : ℕ → Bytes → ℕ × Bytes
kept size content = (size, content)

abbrev fails_at_five : Option (ℕ → Bool)
fails_at_five = some (λ size. size == 5)

patch_delta_writer-patch_example :
    patch_delta_writer kept fails_at_five (codes "abc") (some 3) (3 ∷ 5 ∷ 144 ∷ 3 ∷ 2 ∷ codes "de")
    ≡ written_of kept fails_at_five
        (patch_delta_into [] (codes "abc") (3 ∷ 5 ∷ 144 ∷ 3 ∷ 2 ∷ codes "de"))
patch_delta_writer-patch_example =
    patch_delta_writer-patch kept fails_at_five (codes "abc") (3 ∷ 5 ∷ 144 ∷ 3 ∷ 2 ∷ codes "de")
      (omega arith)
