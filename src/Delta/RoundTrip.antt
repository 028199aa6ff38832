-- ===== src/Delta/RoundTrip.antt =====
-- A delta made of the encoder's operations applies to what the operations describe.
use go_git.Prelude.{
  ℕ, suc, ◌+◌, ◌-◌, ◌/◌, ◌%◌, ◌^◌, ◌<◌, ◌≤◌, bit_and, arith, ◌≡◌, refl, sym, ap, ◌∙◌, List, [], ◌∷◌,
  ◌++◌, false, not, ◌||◌, ◌==◌, ltb, if◌then◌else◌, length, take, drop, get_or, length-append,
  append_assoc, append-nil, All,
}
use go_git.Prelude.Order.{lt_wf}
use go_git.Prelude.Text.{Bytes}
use go_git.Prelude.Bits.{top_bit}
use go_git.Prelude.Result.{Result, ok, err}
use go_git.Leb128.{encode_leb128}
use go_git.Leb128.Encode.{encode_last, encode_more}
use go_git.Leb128.Decode.{decode_leb128-encode}
use go_git.Delta.{
  Error, invalid_delta, size_of, decode_delta_size, validate_delta_ops, patch_loop,
  patch_delta_into,
}
use go_git.Delta.Validate.{done, patch_loop-validate, length-slice}
use go_git.Delta.Encode.{encode_copy_operation, encode_insert_operation}
use go_git.Delta.Runs.{Runs, Runs-end, Runs-copy, Runs-subst}
use go_git.Delta.InsertOp.{Runs-insert}
use mathlib.Core.WellFounded.{Acc}
use native.Mathlib.Decide.{dec_lt}

-- The last byte of an encoded size has its top bit clear.
pub encoded_end :
    (n : ℕ) (rest : Bytes) (w : Acc ◌<◌ n)
    → (1 ≤ length (encode_leb128 n))
      × (get_or (encode_leb128 n ++ rest) (length (encode_leb128 n) - 1) 0 < 128)
encoded_end n rest (Acc.intro _ f) = elim (dec_lt n 128) [
  | yes h ↦ rw (encode_last n h) (omega arith, h)
  | no h ↦ rw (encode_more n (omega arith)) (
    omega arith,
    later (encode_leb128 (n / 128)) (encoded_end (n / 128) rest (f _ (omega arith))),
  )
]
  where
    later :
        (bs : Bytes)
        → (1 ≤ length bs) × (get_or (bs ++ rest) (length bs - 1) 0 < 128)
        → get_or ((n % 128 + 128) ∷ (bs ++ rest)) (suc (length bs) - 1) 0 < 128
    later [] (h, k) = absurd (omega arith)
    later (b ∷ bs) (h, k) =
        let e : suc (length (b ∷ bs)) - 1 ≡ suc (length (b ∷ bs) - 1) = omega arith in rw e k

abbrev refused : Result Error (ℕ × Bytes)
refused = err invalid_delta

pub decode_delta_size-encode :
    (n : ℕ) (rest : Bytes) → n < 2 ^ 63 → decode_delta_size (encode_leb128 n ++ rest) ≡ ok (n, rest)
unfolding decode_delta_size size_of
decode_delta_size-encode n rest h =
    let (some_byte, last) = encoded_end n rest (lt_wf.apply n) in
    let taken : length (encode_leb128 n ++ rest) - length rest ≡ length (encode_leb128 n) =
      omega (arith, length-append (encode_leb128 n) rest) in
    let delta : Bytes = encode_leb128 n ++ rest in
    rw (decode_leb128-encode n rest h) (
      accepted delta (length delta - length rest) (omega arith)
        (ap (λ t. get_or delta (t - 1) 0) taken) last)
  where
    accepted :
        (delta : Bytes) (consumed : ℕ)
        → 1 ≤ consumed
        → get_or delta (consumed - 1) 0
          ≡ get_or (encode_leb128 n ++ rest) (length (encode_leb128 n) - 1) 0
        → get_or (encode_leb128 n ++ rest) (length (encode_leb128 n) - 1) 0 < 128
        → (if consumed == 0 || not (bit_and (get_or delta (consumed - 1) 0) 128 == 0)
            then refused
            else ok (n, rest))
          ≡ ok (n, rest)
    accepted delta consumed pos e small = ground (arith, top_bit (get_or delta (consumed - 1) 0))

-- The operations of a delta, what each writes, and when the format can hold it.
pub data DeltaOp : Type 0 where
  copy : ℕ → ℕ → DeltaOp
  insert : Bytes → DeltaOp

abbrev pub op_result : Bytes → DeltaOp → Bytes
op_result src (copy offset l) = take l (drop offset src)
op_result src (insert b) = b

abbrev pub apply_ops : Bytes → List DeltaOp → Bytes
apply_ops src [] = []
apply_ops src (op ∷ ops) = op_result src op ++ apply_ops src ops

abbrev pub IsEncodable : Bytes → DeltaOp → Type 0
IsEncodable src (copy offset l) =
    (offset < 2 ^ 32) × (0 < l) × (l < 2 ^ 24) × (offset + l ≤ length src)
IsEncodable src (insert b) = Unit {0}

abbrev pub encode_op : DeltaOp → Bytes
encode_op (copy offset l) = encode_copy_operation offset l
encode_op (insert b) = encode_insert_operation b []

abbrev pub encode_ops : List DeltaOp → Bytes
encode_ops [] = []
encode_ops (op ∷ ops) = encode_op op ++ encode_ops ops

-- A whole delta: the two sizes and the operations.
abbrev pub delta_of : Bytes → List DeltaOp → Bytes
delta_of src ops =
    encode_leb128 (length src) ++ (encode_leb128 (length (apply_ops src ops)) ++ encode_ops ops)

module _ (src : Bytes) (fits : length src < 2 ^ 63) where
  Runs-ops :
      (ops : List DeltaOp) (dst : Bytes)
      → All (IsEncodable src) ops
      → Runs src (encode_ops ops) dst (length (apply_ops src ops)) (dst ++ apply_ops src ops)
  Runs-ops [] dst h =
      Runs-subst src fits refl (sym (append-nil dst)) refl (Runs-end src fits (dst ++ []))
  Runs-ops (copy o l ∷ ops) dst ((ho, hl, hl', inside), h) =
      let piece : Bytes = take l (drop o src) in
      let rest : Bytes = apply_ops src ops in
      let sizes = length-append piece rest in
      let size = length-slice o l src inside in
      rw (← append_assoc dst piece rest) (
        Runs-copy src fits o l (encode_ops ops) dst (length (piece ++ rest)) _ ho hl hl' inside
          (omega arith)
          (Runs-subst src fits refl refl (omega arith) (Runs-ops ops (dst ++ piece) h)))
  Runs-ops (insert b ∷ ops) dst (_, h) =
      let rest : Bytes = apply_ops src ops in
      let sizes = length-append b rest in
      rw (← append_assoc dst b rest) (
        Runs-insert src fits b (encode_ops ops) dst (length (b ++ rest)) _ (omega arith)
          (Runs-subst src fits refl refl (omega arith) (Runs-ops ops (dst ++ b) h)))

validated :
    (delta src dst : Bytes) (src_sz target_sz : ℕ) (out : Bytes)
    → target_sz < 2 ^ 63
    → patch_loop (length delta + 1) src src_sz delta dst target_sz ≡ ok out
    → validate_delta_ops delta src_sz target_sz ≡ ok tt
unfolding validate_delta_ops
validated delta src dst src_sz target_sz out ht run =
    let small : ltb (2 ^ 63 - 1) target_sz ≡ false = ground arith in
    rw small
      (sym (patch_loop-validate (length delta + 1) src src_sz delta dst target_sz) ∙ ap done run)

-- Applying, to a base below 2^63 bytes, the delta that holds the two sizes and the encoded copy
-- and insert operations of a list appends to the destination exactly the bytes that the operations
-- describe, where every copy lies in the base, has an offset below 2^32 and a size from 1 to 2^24
-- - 1, and the target is below 2^63 bytes.
pub patch_delta_into-encode :
    (src dst : Bytes) (ops : List DeltaOp)
    → length src < 2 ^ 63
    → length (apply_ops src ops) < 2 ^ 63
    → All (IsEncodable src) ops
    → patch_delta_into dst src (delta_of src ops) ≡ ok (dst ++ apply_ops src ops)
unfolding patch_delta_into
patch_delta_into-encode src dst ops hs ht h =
    let target : ℕ = length (apply_ops src ops) in
    let same : not (length src == length src) ≡ false = ground arith in
    let run = Runs-ops src hs ops dst h (length (encode_ops ops) + 1) (omega arith) in
    rw (decode_delta_size-encode (length src) (encode_leb128 target ++ encode_ops ops) hs) (
      rw same (
        rw (decode_delta_size-encode target (encode_ops ops) ht)
          (rw (validated (encode_ops ops) src dst (length src) target _ ht run) run)))
