-- ===== src/Leb128/Examples.antt =====
-- Runs of the LEB128 routines, and the theorems at concrete inputs.
use go_git.Prelude.{◌^◌, ◌≡◌, refl, arith, [], ◌∷◌, ◌++◌}
use go_git.Prelude.Result.{ok, err}
use go_git.Leb128.{
  eof, length_overflow, encode_leb128, decode_leb128, decode_leb128_from_reader,
  variable_length_size,
}
use go_git.Leb128.Decode.{decode_leb128-encode, decode_leb128_from_reader-encode_wide}
use go_git.Leb128.Header.{entry_head, Reads, entry_head-Reads}

encode_300 : encode_leb128 300 ≡ 0xac ∷ 0x02 ∷ []
unfolding encode_leb128
encode_300 = refl

-- A number that the input cuts short decodes to its partial value from a slice only.
decode_cut : decode_leb128 (0xac ∷ []) ≡ ok (44, [])
unfolding decode_leb128
decode_cut = refl

reader_cut : decode_leb128_from_reader (0xac ∷ []) ≡ err eof
unfolding decode_leb128_from_reader
reader_cut = refl

size_two_bytes : variable_length_size 0xb5 (0x01 ∷ 7 ∷ []) ≡ ok (21, 7 ∷ [])
unfolding variable_length_size
size_two_bytes = refl

head_blob : entry_head 3 21 ≡ 0xb5 ∷ 0x01 ∷ []
unfolding entry_head
head_blob = refl

decode_leb128-encode_example : decode_leb128 (encode_leb128 300 ++ 9 ∷ []) ≡ ok (300, 9 ∷ [])
decode_leb128-encode_example = decode_leb128-encode 300 (9 ∷ []) (omega arith)

decode_leb128_from_reader-encode_wide_example :
    decode_leb128_from_reader (encode_leb128 (2 ^ 63) ++ []) ≡ err length_overflow
decode_leb128_from_reader-encode_wide_example =
    decode_leb128_from_reader-encode_wide (2 ^ 63) [] (omega arith)

entry_head-Reads_example : Reads 3 21 (entry_head 3 21) (9 ∷ [])
entry_head-Reads_example = entry_head-Reads 3 21 (9 ∷ []) (omega arith) (omega arith)
