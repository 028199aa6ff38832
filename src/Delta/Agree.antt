-- ===== src/Delta/Agree.antt =====
-- `ReaderFromDelta` and `patchDelta` as wholes agree.
use go_git.Prelude.{
  ℕ, ◌+◌, ◌^◌, ◌<◌, arith, ◌≡◌, refl, sym, ap, ◌∙◌, none, [], ◌∷◌, Bool, true, false, not, ◌==◌,
  ltb, if◌then◌else◌, length, inl, inr, Bool-cases, ◌⊎◌, ltb→lt, bit_and,
}
use go_git.Prelude.Text.{Bytes}
use go_git.Prelude.Result.{Result, ok, err, ◌>>=◌, map_ok, Result-cases}
use go_git.Leb128.{decode_leb128, add_chunk}
use go_git.Delta.{
  Error, invalid_delta, size_of, decode_delta_size, validate_delta_ops, validate_loop, patch_loop,
  patch_delta_into,
}
use go_git.Delta.Validate.{done, patch_loop-validate}
use go_git.Delta.Stream.{Base, Output, stream_loop, reader_from_delta}
use go_git.Delta.StreamLoop.{stream_loop-Follows}

-- The pipe is closed without an error after all of `t`.
abbrev pub closed : Bytes → Output
closed t = (t, none)

size-empty : decode_delta_size [] ≡ err invalid_delta
unfolding decode_delta_size size_of decode_leb128
size-empty = refl

abbrev one_size : ℕ → Result Error (ℕ × Bytes)
one_size n = ok (n, [])

size-one :
    (b : ℕ)
    → (decode_delta_size (b ∷ []) ≡ err invalid_delta)
      ⊎ ((n : ℕ) × (decode_delta_size (b ∷ []) ≡ one_size n))
unfolding decode_delta_size size_of decode_leb128
size-one b = elim (Bool-cases (bit_and b 128 == 0)) [
  | inl end ↦ inr (add_chunk 0 b 0, rw end refl)
  | inr more ↦ inl (rw more refl)
]

-- A delta of less than two bytes has no room for two sizes.
pub short_delta :
    (src delta : Bytes) → length delta < 2 → patch_delta_into [] src delta ≡ err invalid_delta
unfolding patch_delta_into
short_delta src [] h = rw size-empty
short_delta src (b ∷ []) h = elim (size-one b) [
  | inl e ↦ rw e
  | inr (n, e) ↦ rw e (elim (Bool-cases (n == length src)) [
    | inl same ↦ rw same (rw size-empty)
    | inr other ↦ rw other
  ])
]
short_delta src (b ∷ c ∷ r) h = absurd (omega arith)

pub ran : (r : Result Error Bytes) (u : Unit {0}) → done r ≡ ok u → (t : Bytes) × (r ≡ ok t)
ran (ok t) u h = (t, refl)
ran (err e) u h = cc

pub validated-small :
    (delta : Bytes) (src_sz target_sz : ℕ) (u : Unit {0})
    → validate_delta_ops delta src_sz target_sz ≡ ok u
    → (target_sz < 2 ^ 63) × (validate_loop (length delta + 1) src_sz delta target_sz ≡ ok u)
unfolding validate_delta_ops
validated-small delta src_sz target_sz u h = ground arith

module _ (base : Base) (fits : length base.content < 2 ^ 63) where
  streamed :
      (delta : Bytes) (target_sz : ℕ) (u : Unit {0})
      → validate_delta_ops delta (length base.content) target_sz ≡ ok u
      → ok (
          stream_loop
            (length delta + 1)
            base
            (length base.content)
            delta
            (base.content, 0)
            []
            target_sz)
        ≡ map_ok closed
            (patch_loop (length delta + 1) base.content (length base.content) delta [] target_sz)
  streamed delta target_sz u h =
      let (small, checked) = validated-small delta (length base.content) target_sz u h in
      let (t, run) =
        ran (patch_loop (length delta + 1) base.content (length base.content) delta [] target_sz) u
          (patch_loop-validate (length delta + 1) base.content (length base.content) delta []
              target_sz
            ∙ checked) in
      rw run (
        ap ok (
          stream_loop-Follows base (length delta + 1) fits delta [] 0 target_sz t (omega arith)
            small run))

  after_sizes :
      (delta : Bytes) (src_sz : ℕ) (same : Bool)
      → (src_sz == length base.content) ≡ same
      → (if not same then err invalid_delta else do
        (target_sz, delta2) ← decode_delta_size delta
        _ ← validate_delta_ops delta2 src_sz target_sz
        ok (stream_loop (length delta2 + 1) base src_sz delta2 (base.content, 0) [] target_sz))
        ≡ map_ok closed (
            if not same then err invalid_delta else do
              (target_sz, delta2) ← decode_delta_size delta
              _ ← validate_delta_ops delta2 src_sz target_sz
              patch_loop (length delta2 + 1) base.content src_sz delta2 [] target_sz)
  after_sizes delta src_sz false e = refl
  after_sizes delta src_sz true e = elim (Result-cases (decode_delta_size delta)) [
    | inr (x, k) ↦ rw k
    | inl ((target_sz, delta2), k) ↦
        rw k (elim (Result-cases (validate_delta_ops delta2 src_sz target_sz)) [
          | inr (x, v) ↦ rw v
          | inl (u, v) ↦
              let is : src_sz ≡ length base.content = ground arith in
              rw v (rw is (streamed delta2 target_sz u (rw is at v)))
        ])
  ]

-- Where the base reports its true size, below 2^63, reading from ReaderFromDelta yields all that
-- patchDelta writes and then a close without an error, or ReaderFromDelta is refused with the
-- error that patchDelta has.
pub reader_from_delta-patch :
    (base : Base) (delta : Bytes)
    → base.size ≡ length base.content
    → length base.content < 2 ^ 63
    → reader_from_delta base delta ≡ map_ok closed (patch_delta_into [] base.content delta)
unfolding reader_from_delta patch_delta_into
reader_from_delta-patch base delta honest fits = elim (Bool-cases (ltb (length delta) 2)) [
  | inl short ↦
      rw short (sym (ap (map_ok closed) (short_delta base.content delta (ltb→lt _ _ short))))
  | inr long ↦ rw long (elim (Result-cases (decode_delta_size delta)) [
    | inr (x, k) ↦ rw k
    | inl ((src_sz, delta1), k) ↦
        let e : (src_sz == base.size) ≡ (src_sz == length base.content) =
          ap (λ t. src_sz == t) honest in
        rw k (rw e (after_sizes base fits delta1 src_sz _ refl))
  ])
]
