-- ===== src/FileMode.antt =====
-- plumbing/filemode/filemode.go: the modes of tree entries. A FileMode and an os.FileMode are
-- their 32-bit values. ParseUint of Go's strconv and the verb %o of its fmt are written out for
-- the base that the code asks for.
pub mod Parse
pub mod Canonical
mod Examples
use go_git.Prelude.{
  ℕ, zero, suc, ◌+◌, ◌-◌, ◌*◌, ◌/◌, ◌%◌, ◌^◌, bit_and, bit_or, List, [], ◌∷◌, ◌++◌, Bool, true,
  false, not, ◌&&◌, ◌||◌, ltb, ◌==◌, if◌then◌else◌, length,
}
use go_git.Prelude.Text.{Bytes}
use go_git.Prelude.Result.{Result, ok, err, ◌>>=◌}

pub data Error : Type 0 where
  empty_mode : Error
  invalid_octal : ℕ → Error
  wider_than_32_bits : Error
  no_equivalent : ℕ → Error
  malformed : ℕ → Error
  syntax : Error
  range : Error

abbrev pub empty : ℕ
empty = 0

abbrev pub dir : ℕ
dir = 0o040000

abbrev pub regular : ℕ
regular = 0o100644

abbrev pub deprecated : ℕ
deprecated = 0o100664

abbrev pub executable : ℕ
executable = 0o100755

abbrev pub symlink : ℕ
symlink = 0o120000

abbrev pub submodule : ℕ
submodule = 0o160000

abbrev pub max_uint32 : ℕ
max_uint32 = 2 ^ 32 - 1

-- The loop of ParseUint(s, 8, 32): its first test is for a wrap of the 64-bit accumulator.
pub parse_octal_loop : Bytes → ℕ → Result Error ℕ
parse_octal_loop [] n = ok n
parse_octal_loop (c ∷ s) n =
    let n8 = (n * 8) % 2 ^ 64 in
    let n1 = (n8 + (c - 48)) % 2 ^ 64 in
    let rest = parse_octal_loop s n1 in
    if ltb c 48 || ltb 55 c
    then err syntax
    else if not (ltb n (2 ^ 64 / 8))
    then err range
    else if ltb n1 n8 || ltb max_uint32 n1
    then err range
    else rest

pub parse_octal : Bytes → Result Error ℕ
parse_octal [] = err syntax
parse_octal (c ∷ s) = parse_octal_loop (c ∷ s) 0

-- `New`
pub new : Bytes → Result Error ℕ
new s = parse_octal s

pub from_bytes_loop : Bytes → ℕ → Result Error ℕ
from_bytes_loop [] mode = ok mode
from_bytes_loop (c ∷ b) mode =
    let rest = from_bytes_loop b (bit_or (mode * 8 % 2 ^ 32) (c - 48)) in
    if ltb c 48 || ltb 55 c
    then err (invalid_octal c)
    else if ltb (max_uint32 / 8) mode
    then err wider_than_32_bits
    else rest

pub from_bytes : Bytes → Result Error ℕ
from_bytes b = if length b == 0 then err empty_mode else from_bytes_loop b 0

-- The digits of a number in base 8 in front of `acc`: eleven are enough for 32 bits.
pub octal_digits : ℕ → ℕ → Bytes → Bytes
octal_digits zero n acc = acc
octal_digits (suc fuel) n acc =
    let more = octal_digits fuel (n / 8) ((48 + n % 8) ∷ acc) in
    if ltb n 8 then (48 + n % 8) ∷ acc else more

pub pad_zeros : ℕ → Bytes → Bytes
pad_zeros zero s = s
pad_zeros (suc k) s = 48 ∷ pad_zeros k s

-- `String`, the format %07o
pub string : ℕ → Bytes
string m = let digits = octal_digits 11 m [] in pad_zeros (7 - length digits) digits

-- `Bytes`, the format of PutUint32
pub bytes : ℕ → Bytes
bytes m = m % 256 ∷ m / 2 ^ 8 % 256 ∷ m / 2 ^ 16 % 256 ∷ m / 2 ^ 24 % 256 ∷ []

pub is_malformed : ℕ → Bool
is_malformed m =
    not (m == dir)
    && not (m == regular)
    && not (m == deprecated)
    && not (m == executable)
    && not (m == symlink)
    && not (m == submodule)

pub is_regular : ℕ → Bool
is_regular m = m == regular || m == deprecated

pub is_file : ℕ → Bool
is_file m = m == regular || m == deprecated || m == executable || m == symlink

pub canonical : ℕ → ℕ
canonical m =
    let kind = bit_and m 0o170000 in
    if kind == 0o100000
    then (if not (bit_and m 0o100 == 0) then executable else regular)
    else if kind == 0o120000
    then symlink
    else if kind == 0o040000
    then dir
    else submodule

-- The bits of Go's os.FileMode.
abbrev pub mode_dir : ℕ
mode_dir = 2 ^ 31

abbrev pub mode_temporary : ℕ
mode_temporary = 2 ^ 28

abbrev pub mode_symlink : ℕ
mode_symlink = 2 ^ 27

abbrev pub mode_char_device : ℕ
mode_char_device = 2 ^ 21

abbrev pub mode_perm : ℕ
mode_perm = 0o777

-- ModeDir, ModeSymlink, ModeNamedPipe, ModeSocket, ModeDevice, ModeCharDevice, ModeIrregular
abbrev pub mode_type : ℕ
mode_type = 2 ^ 31 + 2 ^ 27 + 2 ^ 25 + 2 ^ 24 + 2 ^ 26 + 2 ^ 21 + 2 ^ 19

pub is_set_char_device : ℕ → Bool
is_set_char_device m = not (bit_and m mode_char_device == 0)

pub is_set_temporary : ℕ → Bool
is_set_temporary m = not (bit_and m mode_temporary == 0)

pub is_set_user_executable : ℕ → Bool
is_set_user_executable m = not (bit_and m 0o100 == 0)

pub is_set_symlink : ℕ → Bool
is_set_symlink m = not (bit_and m mode_symlink == 0)

pub new_from_os_file_mode : ℕ → Result Error ℕ
new_from_os_file_mode m =
    if bit_and m mode_type == 0
    then (if is_set_temporary m
        then err (no_equivalent m)
        else if is_set_char_device m
        then err (no_equivalent m)
        else if is_set_user_executable m
        then ok executable
        else ok regular)
    else if not (bit_and m mode_dir == 0)
    then ok dir
    else if is_set_symlink m
    then ok symlink
    else err (no_equivalent m)

pub to_os_file_mode : ℕ → Result Error ℕ
to_os_file_mode m =
    if m == dir
    then ok (bit_or mode_perm mode_dir)
    else if m == submodule
    then ok (bit_or mode_perm mode_dir)
    else if m == regular
    then ok 0o644
    else if m == deprecated
    then ok 0o644
    else if m == executable
    then ok 0o755
    else if m == symlink
    then ok (bit_or mode_perm mode_symlink)
    else err (malformed m)
