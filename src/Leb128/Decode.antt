-- ===== src/Leb128/Decode.antt =====
-- `DecodeLEB128` and `DecodeLEB128FromReader` against `EncodeLEB128` and one another.
use go_git.Prelude.{
  ℕ, zero, suc, ◌+◌, ◌*◌, ◌/◌, ◌%◌, ◌^◌, ◌<◌, ◌≤◌, bit_or, arith, ◌≡◌, refl, ap, ◌∙◌, [], ◌∷◌, ◌++◌,
}
use go_git.Prelude.Text.{Bytes}
use go_git.Prelude.Result.{ok, err}
use go_git.Prelude.Bits.{low_seven, top_bit, bit_or_disjoint}
use go_git.Leb128.{
  length_overflow, add_chunk, encode_leb128, decode_loop, decode_leb128, size_loop, reader_loop,
  decode_leb128_from_reader,
}
use go_git.Leb128.Encode.{encode_last, encode_more}
use native.Mathlib.Numerals.{towards_suc}
use native.Mathlib.Decide.{dec_lt}
use native.Mathlib.Nat.{pow-suc, pow-le-pow_right, mul-le-mul_right, div-add-mod', mod-eq_of_lt}

-- Seven bits added above the `s` low ones.
add_chunk_sum :
    (num b s : ℕ)
    → num < 2 ^ s
    → b < 256
    → b % 128 * 2 ^ s < 2 ^ 64
    → add_chunk num b s ≡ num + b % 128 * 2 ^ s
add_chunk_sum num b s hn hb fits =
    ap (λ t. bit_or num (t * 2 ^ s % 2 ^ 64)) (low_seven b hb)
    ∙ ap (bit_or num) (mod-eq_of_lt fits)
    ∙ bit_or_disjoint s num (b % 128) hn

size_loop_last :
    (b : ℕ) (r : Bytes) (num s : ℕ)
    → b < 128
    → s ≤ 57
    → size_loop (b ∷ r) num s ≡ ok (add_chunk num b s, r)
unfolding size_loop
size_loop_last b r num s hb hs = ground (arith, top_bit b)

size_loop_more :
    (b : ℕ) (r : Bytes) (num s : ℕ)
    → 128 ≤ b
    → b < 256
    → s ≤ 57
    → size_loop (b ∷ r) num s ≡ size_loop r (add_chunk num b s) (s + 7)
unfolding size_loop
size_loop_more b r num s lo hi hs = ground (arith, top_bit b)

-- No byte is taken past a shift of 57.
size_loop_full : (r : Bytes) (num s : ℕ) → 57 < s → size_loop r num s ≡ err length_overflow
unfolding size_loop
size_loop_full [] num s h = ground arith
size_loop_full (b ∷ r) num s h = ground arith

pow_seven : (s : ℕ) → 2 ^ (s + 7) ≡ 128 * 2 ^ s
pow_seven s = simp towards_suc (omega arith)

pow_bound : (s : ℕ) → s ≤ 57 → 2 ^ s ≤ 2 ^ 57
pow_bound s h = pow-le-pow_right (omega arith) h

chunk_bound : (x p : ℕ) → x < 128 → x * p ≤ 127 * p
chunk_bound x p h = mul-le-mul_right p (omega arith)

chunk_sum :
    (s num b : ℕ) → s ≤ 57 → num < 2 ^ s → b < 256 → add_chunk num b s ≡ num + b % 128 * 2 ^ s
chunk_sum s num b hs hn hb =
    add_chunk_sum num b s hn hb
      (omega (arith, pow_bound s hs, chunk_bound (b % 128) (2 ^ s) (omega arith)))

chunk_room : (s num x : ℕ) → num < 2 ^ s → x < 128 → num + x * 2 ^ s < 2 ^ (s + 7)
chunk_room s num x hn hx = omega (arith, pow_seven s, chunk_bound x (2 ^ s) hx)

chunk_split : (s n : ℕ) → n * 2 ^ s ≡ n % 128 * 2 ^ s + n / 128 * 2 ^ (s + 7)
chunk_split s n = omega (
  arith,
  ap (λ (t : ℕ). t * 2 ^ s) (div-add-mod' n 128),
  ap (λ (t : ℕ). n / 128 * t) (pow_seven s),
)

div_small : (n k : ℕ) → n < 128 ^ suc (suc k) → n / 128 < 128 ^ suc k
div_small n k h =
    let e : 128 ^ suc (suc k) ≡ 128 ^ suc k * 128 = pow-suc 128 (suc k) in omega (arith, e)

div_large : (n k : ℕ) → 128 ^ suc (suc k) ≤ n → 128 ^ suc k ≤ n / 128
div_large n k h =
    let e : 128 ^ suc (suc k) ≡ 128 ^ suc k * 128 = pow-suc 128 (suc k) in omega (arith, e)

size_loop_ends :
    (s n num : ℕ) (rest : Bytes)
    → s ≤ 57
    → n < 128
    → num < 2 ^ s
    → size_loop (encode_leb128 n ++ rest) num s ≡ ok (num + n * 2 ^ s, rest)
size_loop_ends s n num rest hs hn hnum =
    ap (λ t. size_loop (t ++ rest) num s) (encode_last n hn)
    ∙ size_loop_last n rest num s hn hs
    ∙ ap (λ t. ok (t, rest)) (chunk_sum s num n hs hnum (omega arith))
    ∙ ap (λ t. ok (num + t * 2 ^ s, rest)) (omega arith)

-- `k` groups are still to come after this one, at most, and there is room for them.
pub size_loop-encode :
    (k s n num : ℕ) (rest : Bytes)
    → s + 7 * k ≤ 57
    → n < 128 ^ suc k
    → num < 2 ^ s
    → size_loop (encode_leb128 n ++ rest) num s ≡ ok (num + n * 2 ^ s, rest)
size_loop-encode zero s n num rest hk hn hnum =
    size_loop_ends s n num rest (omega arith) (omega arith) hnum
size_loop-encode (suc k) s n num rest hk hn hnum = elim (dec_lt n 128) [
  | yes h ↦ size_loop_ends s n num rest (omega arith) h hnum
  | no h ↦
      let b : ℕ = n % 128 + 128 in
      let num' : ℕ = num + n % 128 * 2 ^ s in
      let tail : Bytes = encode_leb128 (n / 128) ++ rest in
      let low : b % 128 ≡ n % 128 = omega arith in
      let chunk : add_chunk num b s ≡ num' =
        chunk_sum s num b (omega arith) hnum (omega arith) ∙ ap (λ t. num + t * 2 ^ s) low in
      ap (λ t. size_loop (t ++ rest) num s) (encode_more n (omega arith))
      ∙ size_loop_more b tail num s (omega arith) (omega arith) (omega arith)
      ∙ ap (λ t. size_loop tail t (s + 7)) chunk
      ∙ size_loop-encode k (s + 7) (n / 128) num' rest (omega arith) (div_small n k hn)
          (chunk_room s num (n % 128) hnum (omega arith))
      ∙ ap (λ t. ok (t, rest)) (omega (arith, chunk_split s n))
]

at_least : (k n : ℕ) → 128 ^ suc k ≤ n → 128 ≤ n
at_least zero n h = omega arith
at_least (suc k) n h = omega (arith, at_least k (n / 128) (div_large n k h))

-- More groups than there is room for are refused.
pub size_loop-encode_wide :
    (k s n num : ℕ) (rest : Bytes)
    → s + 7 * k ≤ 57
    → 57 < s + 7 * suc k
    → 128 ^ suc k ≤ n
    → size_loop (encode_leb128 n ++ rest) num s ≡ err length_overflow
size_loop-encode_wide zero s n num rest hk hk' hn =
    ap (λ t. size_loop (t ++ rest) num s) (encode_more n (omega arith))
    ∙ size_loop_more (n % 128 + 128) (encode_leb128 (n / 128) ++ rest) num s (omega arith)
        (omega arith) (omega arith)
    ∙ size_loop_full _ _ (s + 7) (omega arith)
size_loop-encode_wide (suc k) s n num rest hk hk' hn =
    ap (λ t. size_loop (t ++ rest) num s) (encode_more n (at_least (suc k) n hn))
    ∙ size_loop_more (n % 128 + 128) (encode_leb128 (n / 128) ++ rest) num s (omega arith)
        (omega arith) (omega arith)
    ∙ size_loop-encode_wide k (s + 7) (n / 128) _ rest (omega arith) (omega arith)
        (div_large n k hn)

-- `DecodeLEB128FromReader` runs the loop of `VariableLengthSize` from shift 0.
reader_loop-size_loop :
    (src : Bytes) (num sz : ℕ) → reader_loop src num sz ≡ size_loop src num (sz * 7)
unfolding reader_loop size_loop
reader_loop-size_loop [] num sz = refl
reader_loop-size_loop (b ∷ r) num sz =
    let e : (sz + 1) * 7 ≡ sz * 7 + 7 = omega arith in
    rw (reader_loop-size_loop r (add_chunk num b (sz * 7)) (sz + 1), e) refl

pub from_reader-size_loop : (src : Bytes) → decode_leb128_from_reader src ≡ size_loop src 0 0
unfolding decode_leb128_from_reader
from_reader-size_loop src = reader_loop-size_loop src 0 0

-- The reader reads back every size below 2^63, and leaves what follows it.
pub decode_leb128_from_reader-encode :
    (n : ℕ) (rest : Bytes)
    → n < 2 ^ 63
    → decode_leb128_from_reader (encode_leb128 n ++ rest) ≡ ok (n, rest)
decode_leb128_from_reader-encode n rest h =
    from_reader-size_loop _
    ∙ size_loop-encode 8 0 n 0 rest (omega arith) (omega arith) (omega arith)
    ∙ ap (λ t. ok (t, rest)) (omega arith)

-- What the reader returns, the slice decoder returns.
pub decode_loop-reader_loop :
    (b : ℕ) (r : Bytes) (num sz n : ℕ) (rest : Bytes)
    → reader_loop (b ∷ r) num sz ≡ ok (n, rest)
    → decode_loop b r num sz ≡ ok (n, rest)
unfolding decode_loop reader_loop
decode_loop-reader_loop b [] num sz n rest h = ground arith
decode_loop-reader_loop b (b' ∷ r) num sz n rest h =
    ground (arith, decode_loop-reader_loop b' r (add_chunk num b (sz * 7)) (sz + 1) n rest)

pub decode_leb128-reader :
    (src : Bytes) (n : ℕ) (rest : Bytes)
    → decode_leb128_from_reader src ≡ ok (n, rest)
    → decode_leb128 src ≡ ok (n, rest)
unfolding decode_leb128 decode_leb128_from_reader
decode_leb128-reader [] n rest h = unfold reader_loop in cc
decode_leb128-reader (b ∷ r) n rest h = decode_loop-reader_loop b r 0 0 n rest h

-- DecodeLEB128 returns every size below 2^63 that EncodeLEB128 wrote, and leaves the bytes that
-- follow it.
pub decode_leb128-encode :
    (n : ℕ) (rest : Bytes) → n < 2 ^ 63 → decode_leb128 (encode_leb128 n ++ rest) ≡ ok (n, rest)
decode_leb128-encode n rest h =
    decode_leb128-reader _ n rest (decode_leb128_from_reader-encode n rest h)

-- DecodeLEB128FromReader answers ErrLengthOverflow on what EncodeLEB128 writes for every size from
-- 2^63 on.
pub decode_leb128_from_reader-encode_wide :
    (n : ℕ) (rest : Bytes)
    → 2 ^ 63 ≤ n
    → decode_leb128_from_reader (encode_leb128 n ++ rest) ≡ err length_overflow
decode_leb128_from_reader-encode_wide n rest h =
    from_reader-size_loop _
    ∙ size_loop-encode_wide 8 0 n 0 rest (omega arith) (omega arith) (omega arith)
