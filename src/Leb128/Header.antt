-- ===== src/Leb128/Header.antt =====
-- The header of a packed object: `entryHead` of plumbing/format/packfile/encoder.go writes what
-- `ObjectType` and `VariableLengthSize` read.
use go_git.Prelude.{
  ℕ, zero, suc, ◌+◌, ◌*◌, ◌/◌, ◌%◌, ◌^◌, ◌<◌, ◌≤◌, bit_and, bit_or, arith, ◌≡◌, sym, ap, ◌∙◌, [],
  ◌∷◌, ◌++◌, append_assoc,
}
use go_git.Prelude.Order.{lt_wf}
use go_git.Prelude.Text.{Bytes}
use go_git.Prelude.Result.{ok}
use go_git.Prelude.Bits.{
  bit_and_mask, set_top_bit, bit_or_disjoint, top_bit, low_four, bit_or_comm, type_bits,
}
use go_git.Leb128.{variable_length_size, object_type, encode_leb128, size_loop}
use go_git.Leb128.Encode.{encode_last, encode_more}
use go_git.Leb128.Decode.{size_loop-encode}
use mathlib.Core.WellFounded.{Acc, Acc-prop}
use mathlib.Core.Logic.{dite, dif_pos, dif_neg}
use native.Mathlib.Decide.{dec_lt}
use native.Mathlib.Bridge.{le_prop}

pub next_shrinks : (n : ℕ) → 0 < n → n / 2 ^ 7 < n
next_shrinks n h = omega arith

-- The loop of `entryHead` over the size that is left, the byte in hand and the header so far.
pub head_loop : (size : ℕ) → ℕ → Bytes → Acc ◌<◌ size → Bytes
head_loop size c header (Acc.intro _ smaller) =
    dite (dec_lt 0 size)
      (λ more.
        head_loop (size / 2 ^ 7) (bit_and size 127) (header ++ (bit_or c 128 % 256) ∷ [])
          (smaller _ (next_shrinks size more)))
      (λ _. header ++ (c % 256) ∷ [])

-- `entryHead` for the number of a type and a size that is not negative.
unfoldable pub entry_head : ℕ → ℕ → Bytes
unfolding head_loop lt_wf dec_lt
entry_head type_num size =
    head_loop (size / 2 ^ 4) (bit_or (type_num * 2 ^ 4) (bit_and size 15)) []
      (lt_wf.apply (size / 2 ^ 4))

head_loop-zero :
    (c : ℕ) (header : Bytes) (w : Acc ◌<◌ 0) → c < 128 → head_loop 0 c header w ≡ header ++ c ∷ []
unfolding head_loop
head_loop-zero c header (Acc.intro _ f) h =
    dif_neg (dec_lt 0 0) (omega arith) _ _ ∙ ap (λ t. header ++ t ∷ []) (omega arith)

head_loop_step :
    (n c : ℕ) (header : Bytes) (w : Acc ◌<◌ n) (u : Acc ◌<◌ (n / 128))
    → 0 < n
    → c < 128
    → head_loop n c header w ≡ head_loop (n / 128) (n % 128) (header ++ (c + 128) ∷ []) u
unfolding head_loop
head_loop_step n c header (Acc.intro _ f) u h hc =
    let byte : bit_or c 128 % 256 ≡ c + 128 = ap (λ t. t % 256) (set_top_bit c hc) ∙ omega arith in
    let next : Acc ◌<◌ (n / 128) = f _ (next_shrinks n h) in
    dif_pos (dec_lt 0 n) le_prop h _ _
    ∙ ap (λ t. head_loop (n / 128) t (header ++ (bit_or c 128 % 256) ∷ []) next) (bit_and_mask 7 n)
    ∙ ap (λ t. head_loop (n / 128) (n % 128) (header ++ t ∷ []) next) byte
    ∙ ap (head_loop (n / 128) (n % 128) (header ++ (c + 128) ∷ [])) (Acc-prop next u)

head_loop_small :
    (n c : ℕ) (header : Bytes) (u : Acc ◌<◌ (n / 128))
    → n < 128
    → head_loop (n / 128) (n % 128) (header ++ (c + 128) ∷ []) u
      ≡ header ++ (c + 128) ∷ encode_leb128 n
head_loop_small n c header u h =
    at_zero (n / 128) u (omega arith)
    ∙ append_assoc header ((c + 128) ∷ []) ((n % 128) ∷ [])
    ∙ ap (λ t. header ++ (c + 128) ∷ t ∷ []) (omega arith)
    ∙ ap (λ t. header ++ (c + 128) ∷ t) (sym (encode_last n h))
  where
    at_zero :
        (m : ℕ) (u : Acc ◌<◌ m)
        → m ≡ 0
        → head_loop m (n % 128) (header ++ (c + 128) ∷ []) u
          ≡ (header ++ (c + 128) ∷ []) ++ (n % 128) ∷ []
    at_zero zero u e = head_loop-zero (n % 128) _ u (omega arith)
    at_zero (suc m) u e = absurd (omega arith)

head_loop-encode :
    (n c : ℕ) (header : Bytes) (w : Acc ◌<◌ n)
    → 0 < n
    → c < 128
    → head_loop n c header w ≡ header ++ (c + 128) ∷ encode_leb128 n
head_loop-encode n c header (Acc.intro _ f) h hc =
    let next : Acc ◌<◌ (n / 128) = f _ (next_shrinks n h) in
    let front : Bytes = header ++ (c + 128) ∷ [] in
    head_loop_step n c header (Acc.intro n f) next h hc ∙ elim (dec_lt n 128) [
      | yes small ↦ head_loop_small n c header next small
      | no large ↦
          head_loop-encode (n / 128) (n % 128) front (f _ (next_shrinks n h)) (omega arith)
            (omega arith)
          ∙ append_assoc header ((c + 128) ∷ []) _
          ∙ ap (λ t. header ++ (c + 128) ∷ t) (sym (encode_more n (omega arith)))
    ]

-- The byte in hand at the start: the type over the four low bits of the size.
first_byte : ℕ → ℕ → ℕ
first_byte type_num size = size % 16 + type_num * 16

first-byte :
    (type_num size : ℕ) → bit_or (type_num * 16) (bit_and size 15) ≡ first_byte type_num size
unfolding first_byte
first-byte type_num size =
    ap (bit_or (type_num * 16)) (bit_and_mask 4 size)
    ∙ bit_or_comm (type_num * 16) (size % 16)
    ∙ bit_or_disjoint 4 (size % 16) type_num (omega arith)

-- What the header reads back as: a first byte with the type, and the size.
abbrev pub Reads : ℕ → ℕ → Bytes → Bytes → Type 0
Reads type_num size header rest =
    (first : ℕ) × (more : Bytes) × (header ≡ first ∷ more)
    × (object_type first ≡ type_num)
    × (variable_length_size first (more ++ rest) ≡ ok (size, rest))

object_type_of : (b t : ℕ) → b < 256 → b / 16 % 8 ≡ t → object_type b ≡ t
unfolding object_type
object_type_of b t hb e = ap (λ x. x / 16) (type_bits b hb) ∙ omega arith

size_short :
    (first : ℕ) (rest : Bytes)
    → first < 128
    → variable_length_size first rest ≡ ok (first % 16, rest)
unfolding variable_length_size
size_short first rest h = ground (arith, top_bit first, low_four first)

size_long :
    (first : ℕ) (rest : Bytes)
    → 128 ≤ first
    → first < 256
    → variable_length_size first rest ≡ size_loop rest (first % 16) 4
unfolding variable_length_size
size_long first rest lo hi = ground (arith, top_bit first, low_four first)

header_short :
    (type_num size : ℕ) (rest : Bytes)
    → type_num < 8
    → size < 16
    → Reads type_num size (entry_head type_num size) rest
unfolding entry_head first_byte
header_short type_num size rest ht hs =
    let first : ℕ = first_byte type_num size in
    (
      first,
      [],
      head_at_zero (size / 16) (lt_wf.apply (size / 16)) (omega arith)
          ∙ ap (λ t. t ∷ []) (first-byte type_num size),
      object_type_of first type_num (omega arith) (omega arith),
      size_short first rest (omega arith) ∙ ap (λ t. ok (t, rest)) (omega arith),
    )
  where
    head_at_zero :
        (m : ℕ) (w : Acc ◌<◌ m)
        → m ≡ 0
        → head_loop m (bit_or (type_num * 16) (bit_and size 15)) [] w
          ≡ bit_or (type_num * 16) (bit_and size 15) ∷ []
    head_at_zero zero w e = head_loop-zero _ [] w (omega (arith, first-byte type_num size))
    head_at_zero (suc m) w e = absurd (omega arith)

header_long :
    (type_num size : ℕ) (rest : Bytes)
    → type_num < 8
    → 16 ≤ size
    → size < 2 ^ 60
    → Reads type_num size (entry_head type_num size) rest
unfolding entry_head first_byte
header_long type_num size rest ht lo hi =
    let first : ℕ = first_byte type_num size in
    let tail : Bytes = encode_leb128 (size / 16) in
    (
      first + 128,
      tail,
      head_loop-encode (size / 16) _ [] (lt_wf.apply (size / 16)) (omega arith)
            (omega (arith, first-byte type_num size))
          ∙ ap (λ t. (t + 128) ∷ tail) (first-byte type_num size),
      object_type_of (first + 128) type_num (omega arith) (omega arith),
      size_long (first + 128) (tail ++ rest) (omega arith) (omega arith)
          ∙ size_loop-encode 7 4 (size / 16) ((first + 128) % 16) rest (omega arith) (omega arith)
              (omega arith)
          ∙ ap (λ t. ok (t, rest)) (omega arith),
    )

-- The header that entryHead writes for a type below 8 and a size below 2^60 is a first byte from
-- which ObjectType returns the type, and more bytes after which VariableLengthSize returns the
-- size and leaves what follows.
pub entry_head-Reads :
    (type_num size : ℕ) (rest : Bytes)
    → type_num < 8
    → size < 2 ^ 60
    → Reads type_num size (entry_head type_num size) rest
entry_head-Reads type_num size rest ht hs = elim (dec_lt size 16) [
  | yes h ↦ header_short type_num size rest ht h
  | no h ↦ header_long type_num size rest ht (omega arith) hs
]
