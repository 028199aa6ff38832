-- ===== src/VarInt/Read.antt =====
-- The reader against the writer: round trip, range and canonicity.
use go_git.Prelude.{
  ℕ, ◌+◌, ◌-◌, ◌*◌, ◌/◌, ◌%◌, ◌^◌, ◌≤◌, ◌<◌, arith, ◌≡◌, ◌≢◌, sym, ap, ◌∙◌, [], ◌∷◌, ◌++◌, All,
}
use go_git.Prelude.Order.{lt_wf}
use go_git.Prelude.Text.{Bytes}
use go_git.Prelude.Result.{Result, ok}
use go_git.Prelude.Bits.{low_seven, top_bit}
use go_git.VarInt.{
  Error, IsByte, limit, read_loop, read_variable_width_int, write_variable_width_int, shift_shrinks,
}
use go_git.VarInt.Write.{
  write_prefix, write_prefix-zero, write_prefix_step, write_prefix-append, write-prefix,
}
use mathlib.Core.WellFounded.{Acc}
use native.Mathlib.Decide.{dec_lt}
use native.Mathlib.Nat.{zero-add}

-- A byte with the top bit clear ends the number.
read_loop_last : (r : Bytes) (c v : ℕ) → c < 128 → read_loop r c v ≡ ok (v, r)
unfolding read_loop
read_loop_last [] c v h = ground (arith, top_bit c)
read_loop_last (x ∷ r) c v h = ground (arith, top_bit c)

-- A byte with the top bit set over `v` below the limit takes one more byte.
read_loop_more :
    (r : Bytes) (c x v : ℕ)
    → 128 ≤ c
    → c < 256
    → v < limit
    → x < 256
    → read_loop (x ∷ r) c v ≡ read_loop r x ((v + 1) * 128 + x % 128)
unfolding read_loop
read_loop_more r c x v lo hi hv hx = ground (arith, top_bit c, low_seven x)

read-first :
    (r : Bytes) (c : ℕ) → c < 256 → read_variable_width_int (c ∷ r) ≡ read_loop r c (c % 128)
unfolding read_variable_width_int
read-first r c h = ap (read_loop r c) (low_seven c h)

-- After the bytes in front of `x` the reader holds `n * 128`, and has read `x`.
read-write_prefix :
    (n x : ℕ) (buf : Bytes) (w : Acc ◌<◌ n)
    → n ≤ limit
    → x < 256
    → read_variable_width_int (write_prefix n (x ∷ buf)) ≡ read_loop buf x (n * 128 + x % 128)
read-write_prefix n x buf (Acc.intro _ f) hn hx = elim (dec_lt 0 n) [
  | yes h ↦
      ap read_variable_width_int (write_prefix_step n (x ∷ buf) h)
      ∙ read-write_prefix ((n - 1) / 128) ((n - 1) % 128 + 128) (x ∷ buf) (f _ (shift_shrinks n h))
          (omega arith) (omega arith)
      ∙ ap (read_loop (x ∷ buf) ((n - 1) % 128 + 128)) (omega arith)
      ∙ read_loop_more buf ((n - 1) % 128 + 128) x (n - 1) (omega arith) (omega arith) (omega arith)
          hx
      ∙ ap (λ t. read_loop buf x (t * 128 + x % 128)) (omega arith)
  | no h ↦
      let z : n ≡ 0 = omega arith in
      rw z (
        ap read_variable_width_int (write_prefix-zero (x ∷ buf))
        ∙ read-first buf x hx
        ∙ ap (read_loop buf x) (sym (zero-add (x % 128))))
]

-- ReadVariableWidthInt returns every number below 2^63 that WriteVariableWidthInt wrote, and
-- leaves the bytes that follow it.
pub read-write :
    (n : ℕ) (rest : Bytes)
    → n < 2 ^ 63
    → read_variable_width_int (write_variable_width_int n ++ rest) ≡ ok (n, rest)
read-write n rest h =
    ap (λ t. read_variable_width_int (t ++ rest)) (write-prefix n)
    ∙ ap read_variable_width_int (write_prefix-append (n / 128) ((n % 128) ∷ []) rest)
    ∙ read-write_prefix (n / 128) (n % 128) rest (lt_wf.apply _) (omega arith) (omega arith)
    ∙ read_loop_last rest (n % 128) (n / 128 * 128 + n % 128 % 128) (omega arith)
    ∙ ap (λ t. ok (t, rest)) (omega arith)

-- What a successful read took: `mid`, which with the byte in hand the writer writes for `n`.
abbrev Took : Bytes → ℕ → ℕ → ℕ → Bytes → Type 0
Took r c v n rest =
    (mid : Bytes) × (r ≡ mid ++ rest)
    × (write_prefix (v / 128) (c ∷ mid) ≡ write_variable_width_int n)
    × (n < 2 ^ 63)

abbrev pair_ok : ℕ → Bytes → Result Error (ℕ × Bytes)
pair_ok v r = ok (v, r)

read_loop_stops :
    (r : Bytes) (c v n : ℕ) (rest : Bytes)
    → c < 128
    → v < 2 ^ 63
    → v % 128 ≡ c
    → read_loop r c v ≡ ok (n, rest)
    → Took r c v n rest
read_loop_stops r c v n rest hc hv same e =
    let same_pair : pair_ok v r ≡ pair_ok n rest = sym (read_loop_last r c v hc) ∙ e in
    let hn : v ≡ n = ground arith in
    let hr : r ≡ rest = ground arith in
    let low : c ≡ n % 128 = omega arith in
    (
      [],
      hr,
      ap (λ t. write_prefix (t / 128) (c ∷ [])) hn
          ∙ ap (λ t. write_prefix (n / 128) (t ∷ [])) low
          ∙ sym (write-prefix n),
      omega arith,
    )

-- The limit was not reached where one more byte was read.
read_loop_below :
    (r : Bytes) (c x v n : ℕ) (rest : Bytes)
    → 128 ≤ c
    → c < 256
    → read_loop (x ∷ r) c v ≡ ok (n, rest)
    → v < limit
unfolding read_loop
read_loop_below r c x v n rest lo hi e = ground (arith, top_bit c)

read_loop_needs : (c v n : ℕ) (rest : Bytes) → 128 ≤ c → c < 256 → read_loop [] c v ≢ ok (n, rest)
unfolding read_loop
read_loop_needs c v n rest lo hi e = ground (arith, top_bit c)

read_loop_takes :
    (r : Bytes) (c v n : ℕ) (rest : Bytes)
    → All IsByte r
    → c < 256
    → v < 2 ^ 63
    → v % 128 ≡ c % 128
    → read_loop r c v ≡ ok (n, rest)
    → Took r c v n rest
read_loop_takes [] c v n rest hr hc hv same e = elim (dec_lt c 128) [
  | yes h ↦ read_loop_stops [] c v n rest h hv (omega arith) e
  | no h ↦ absurd (read_loop_needs c v n rest (omega arith) hc e)
]
read_loop_takes (x ∷ r) c v n rest hr hc hv same e = elim (dec_lt c 128) [
  | yes h ↦ read_loop_stops (x ∷ r) c v n rest h hv (omega arith) e
  | no h ↦
      let below : v < limit = read_loop_below r c x v n rest (omega arith) hc e in
      let e' : read_loop r x ((v + 1) * 128 + x % 128) ≡ ok (n, rest) =
        sym (read_loop_more r c x v (omega arith) hc below hr.0) ∙ e in
      let (mid, split, wrote, fits) =
        read_loop_takes r x ((v + 1) * 128 + x % 128) n rest hr.1 hr.0 (omega arith) (omega arith)
          e' in
      let up : v + 1 ≡ ((v + 1) * 128 + x % 128) / 128 = omega arith in
      let here : c ≡ (v + 1 - 1) % 128 + 128 = omega arith in
      (
        x ∷ mid,
        ap (λ t. x ∷ t) split,
        ap (λ t. write_prefix (t / 128) (c ∷ x ∷ mid)) (omega arith)
            ∙ ap (λ t. write_prefix ((v + 1 - 1) / 128) (t ∷ x ∷ mid)) here
            ∙ sym (write_prefix_step (v + 1) (x ∷ mid) (omega arith))
            ∙ ap (λ t. write_prefix t (x ∷ mid)) up
            ∙ wrote,
        fits,
      )
]

-- Bytes that ReadVariableWidthInt accepts are those that WriteVariableWidthInt writes for the
-- number returned, followed by the rest, and that number is below 2^63: no number has two
-- encodings.
pub write-read :
    (src : Bytes) (n : ℕ) (rest : Bytes)
    → All IsByte src
    → read_variable_width_int src ≡ ok (n, rest)
    → (src ≡ write_variable_width_int n ++ rest) × (n < 2 ^ 63)
write-read [] n rest h e = absurd (unfold read_variable_width_int in cc)
write-read (c ∷ r) n rest h e =
    let (mid, split, wrote, fits) =
      read_loop_takes r c (c % 128) n rest h.1 h.0 (omega arith) (omega arith)
        (sym (read-first r c h.0) ∙ e) in
    let whole : c ∷ mid ≡ write_variable_width_int n =
      sym (write_prefix-zero (c ∷ mid))
      ∙ ap (λ t. write_prefix t (c ∷ mid)) (omega arith)
      ∙ wrote in
    (ap (λ t. c ∷ t) split ∙ ap (λ t. t ++ rest) whole, fits)
