-- ===== src/VarInt/Examples.antt =====
-- Runs of the reader and the writer of utils/binary, and the theorems at concrete inputs.
use go_git.Prelude.{◌^◌, ◌<◌, ◌≡◌, refl, arith, [], ◌∷◌, ◌++◌}
use go_git.Prelude.Result.{ok, err}
use go_git.VarInt.{integer_overflow, eof, read_variable_width_int, write_variable_width_int}
use go_git.VarInt.Read.{read-write, write-read}

write_358 : write_variable_width_int 358 ≡ 0x81 ∷ 0x66 ∷ []
unfolding write_variable_width_int
write_358 = refl

read_two : read_variable_width_int (0x80 ∷ 0x00 ∷ 9 ∷ []) ≡ ok (128, 9 ∷ [])
unfolding read_variable_width_int
read_two = refl

read_cut : read_variable_width_int (0x80 ∷ []) ≡ err eof
unfolding read_variable_width_int
read_cut = refl

read_too_wide :
    read_variable_width_int
      (0xff ∷ 0xff ∷ 0xff ∷ 0xff ∷ 0xff ∷ 0xff ∷ 0xff ∷ 0xff ∷ 0xff ∷ 0xff ∷ [])
    ≡ err integer_overflow
unfolding read_variable_width_int
read_too_wide = refl

read-write_example :
    read_variable_width_int (write_variable_width_int 358 ++ 7 ∷ []) ≡ ok (358, 7 ∷ [])
read-write_example = read-write 358 (7 ∷ []) (omega arith)

write-read_example :
    (0x80 ∷ 0x00 ∷ 9 ∷ [] ≡ write_variable_width_int 128 ++ 9 ∷ []) × (128 < 2 ^ 63)
write-read_example = write-read (0x80 ∷ 0x00 ∷ 9 ∷ []) 128 (9 ∷ []) (omega arith) read_two
