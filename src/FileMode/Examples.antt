-- ===== src/FileMode/Examples.antt =====
-- Runs of plumbing/filemode, and the theorems at concrete inputs.
use go_git.Prelude.{◌≡◌, refl, arith, false, true, [], ◌∷◌}
use go_git.Prelude.Text.{codes}
use go_git.Prelude.Result.{ok, err}
use go_git.FileMode.{
  regular, deprecated, dir, is_malformed, canonical, is_file, is_regular, from_bytes, string, bytes,
  invalid_octal, wider_than_32_bits, empty_mode, to_os_file_mode, malformed, octal_digits,
  pad_zeros, from_bytes_loop,
}
use go_git.FileMode.Parse.{from_bytes-string}
use go_git.FileMode.Canonical.{canonical-canonical}

string-regular : string regular ≡ codes "0100644"
unfolding string octal_digits pad_zeros
string-regular = refl

from_padded_dir : from_bytes (codes "040000") ≡ ok dir
unfolding from_bytes from_bytes_loop
from_padded_dir = refl

from_nine : from_bytes (codes "109") ≡ err (invalid_octal 57)
unfolding from_bytes from_bytes_loop
from_nine = refl

from_wide : from_bytes (codes "40000000000") ≡ err wider_than_32_bits
unfolding from_bytes from_bytes_loop
from_wide = refl

from_nothing : from_bytes [] ≡ err empty_mode
unfolding from_bytes
from_nothing = refl

bytes-regular : bytes regular ≡ 0xa4 ∷ 0x81 ∷ 0 ∷ 0 ∷ []
unfolding bytes
bytes-regular = refl

files : (is_file deprecated ≡ true) × (is_regular 0o100755 ≡ false)
unfolding is_file is_regular
files = (refl, refl)

os_of_nothing : to_os_file_mode 0 ≡ err (malformed 0)
unfolding to_os_file_mode
os_of_nothing = refl

from_bytes-string_example : from_bytes (string 0o100755) ≡ ok 0o100755
from_bytes-string_example = from_bytes-string 0o100755 (omega arith)

canonical-canonical_example :
    (is_malformed (canonical 0o100011) ≡ false)
    × (canonical (canonical 0o100011) ≡ canonical 0o100011)
canonical-canonical_example = canonical-canonical 0o100011
