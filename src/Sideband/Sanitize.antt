-- ===== src/Sideband/Sanitize.antt =====
-- What `sanitize` lets through to a terminal.
use go_git.Prelude.{
  ℕ, zero, suc, ◌+◌, ◌%◌, ◌≤◌, ◌<◌, ◌≡◌, refl, sym, ap, ap₂, ◌∙◌, inl, inr, ◌⊎◌, arith, [], ◌∷◌,
  ◌++◌, append_assoc, Bool, true, false, not, ◌&&◌, ◌||◌, ltb, leb, ◌==◌, length, get_or, drop,
  length-append, All, Bool-cases,
}
use go_git.Prelude.Text.{Bytes}
use go_git.Sideband.{
  color_loop, color_sequence_len, is_kept, caret, masked, sanitize_from, sanitize,
}

-- A digit, a colon or a semicolon.
abbrev pub IsColor : ℕ → Type 0
IsColor c = (leb 48 c && leb c 57 || c == 58 || c == 59) ≡ true

abbrev pub color : Bytes → Bytes
color params = 27 ∷ 91 ∷ (params ++ 109 ∷ [])

-- A tab, a line feed, a carriage return where it is kept, or no control byte.
abbrev pub IsPlain : Bool → ℕ → Type 0
IsPlain keep_cr c =
    (c ≡ 9) ⊎ (c ≡ 10) ⊎ ((c ≡ 13) × (keep_cr ≡ true)) ⊎ ((32 ≤ c) × ((c == 127) ≡ false))

-- Plain bytes, and escape sequences that set a color.
pub data Clean (keep_cr : Bool) : Bytes → Type 0 where
  nothing : Clean keep_cr []
  plain : (c : ℕ) (rest : Bytes) → IsPlain keep_cr c → Clean keep_cr rest → Clean keep_cr (c ∷ rest)
  colored :
      (params rest : Bytes)
      → All IsColor params
      → Clean keep_cr rest
      → Clean keep_cr (color params ++ rest)

IsPlain-kept : (keep_cr : Bool) (c : ℕ) → is_kept keep_cr c ≡ true → IsPlain keep_cr c
unfolding is_kept
IsPlain-kept keep_cr c h = ground arith

kept-IsPlain : (keep_cr : Bool) (c : ℕ) → IsPlain keep_cr c → is_kept keep_cr c ≡ true
unfolding is_kept
kept-IsPlain keep_cr c h = ground arith

-- A control byte is below 32, or DEL.
control : (keep_cr : Bool) (c : ℕ) → is_kept keep_cr c ≡ false → (c < 32) ⊎ (c ≡ 127)
unfolding is_kept
control keep_cr c h = ground arith

caret-Clean :
    (keep_cr : Bool) (c : ℕ) (rest : Bytes)
    → is_kept keep_cr c ≡ false
    → Clean keep_cr rest
    → Clean keep_cr (caret c ++ rest)
unfolding caret
caret-Clean keep_cr c rest h clean = elim (Bool-cases (c == 127)) [
  | inl del ↦ rw (del) (plain 94 _ (ground arith) (plain 63 rest (ground arith) clean))
  | inr other ↦
      let low : c < 32 = elim (control keep_cr c h) [
        | inl low ↦ low
        | inr del ↦ absurd (ground arith)
      ] in
      rw (other) (plain 94 _ (ground arith) (plain ((c + 64) % 256) rest (ground arith) clean))
]

-- Where a color sequence ends.
abbrev Ends : ℕ → Bytes → ℕ → Type 0
Ends i b n =
    (params : Bytes) × (rest : Bytes) × All IsColor params
    × (b ≡ params ++ (109 ∷ rest))
    × (n ≡ i + length params + 1)

color_loop-Ends : (i : ℕ) (b : Bytes) (n : ℕ) → color_loop i b ≡ suc n → Ends i b (suc n)
unfolding color_loop
color_loop-Ends i [] n h = absurd (omega arith)
color_loop-Ends i (c ∷ b) n h = elim (Bool-cases (c == 109)) [
  | inl final ↦
      let is_m : c ≡ 109 = ground arith in
      let last : suc i ≡ suc n = ground arith in ([], b, tt, ap (λ t. t ∷ b) is_m, omega arith)
  | inr other ↦ elim (Bool-cases (leb 48 c && leb c 57 || c == 58 || c == 59)) [
    | inl color ↦
        let (params, rest, all, split, sized) = color_loop-Ends (suc i) b n (ground arith) in
        (c ∷ params, rest, (color, all), ap (λ t. c ∷ t) split, omega arith)
    | inr none_color ↦ absurd (ground arith)
  ]
]

color_loop-params :
    (i : ℕ) (params rest : Bytes)
    → All IsColor params
    → color_loop i (params ++ (109 ∷ rest)) ≡ i + length params + 1
unfolding color_loop
color_loop-params i [] rest all = omega arith
color_loop-params i (c ∷ params) rest (color, all) =
    let other : (c == 109) ≡ false = ground arith in
    rw (other) (rw (color) (omega (arith, color_loop-params (suc i) params rest all)))

-- Bytes of a color sequence are copied.
sanitize_from-append :
    (keep_cr : Bool) (xs rest : Bytes)
    → sanitize_from keep_cr (length xs) (xs ++ rest) ≡ xs ++ sanitize_from keep_cr 0 rest
unfolding sanitize_from
sanitize_from-append keep_cr [] rest = refl
sanitize_from-append keep_cr (x ∷ xs) rest = ap (λ t. x ∷ t) (sanitize_from-append keep_cr xs rest)

-- A byte that starts a color sequence starts one that ends.
abbrev Starts : Bytes → ℕ → Type 0
Starts b n =
    (params : Bytes) × (rest : Bytes) × All IsColor params
    × (b ≡ color params ++ rest)
    × (suc n ≡ length (color params))

color_sequence_len-Starts :
    (c : ℕ) (b : Bytes) (n : ℕ) → color_sequence_len (c ∷ b) ≡ suc n → Starts (c ∷ b) n
unfolding color_sequence_len
color_sequence_len-Starts c [] n h = absurd (omega arith)
color_sequence_len-Starts c (d ∷ []) n h = absurd (omega arith)
color_sequence_len-Starts c (d ∷ e ∷ b) n h = elim (Bool-cases (not (c == 27) || not (d == 91))) [
  | inl other ↦ absurd (ground arith)
  | inr escape ↦
      let is_escape : c ≡ 27 = ground arith in
      let is_bracket : d ≡ 91 = ground arith in
      let looped : color_loop 2 (e ∷ b) ≡ suc n = ground arith in
      let (params, rest, all, split, sized) = color_loop-Ends 2 (e ∷ b) n looped in
      (
        params,
        rest,
        all,
        ap₂ (λ x y. x ∷ y ∷ e ∷ b) is_escape is_bracket
            ∙ ap (λ t. 27 ∷ 91 ∷ t) (split ∙ sym (append_assoc params (109 ∷ []) rest)),
        omega (arith, length-append params (109 ∷ [])),
      )
]

color_sequence_len-color :
    (params rest : Bytes)
    → All IsColor params
    → color_sequence_len (color params ++ rest) ≡ length (color params)
unfolding color_sequence_len
color_sequence_len-color params rest all =
    let b : Bytes = params ++ 109 ∷ [] in
    let enough : ltb (length (color params ++ rest)) 3 ≡ false =
      ground (arith, length-append b rest, length-append params (109 ∷ [])) in
    rw (enough) (
      ap (color_loop 2) (append_assoc params (109 ∷ []) rest)
      ∙ color_loop-params 2 params rest all
      ∙ omega (arith, length-append params (109 ∷ [])))

escape_control : (keep_cr : Bool) → is_kept keep_cr 27 ≡ false
unfolding is_kept
escape_control keep_cr = refl

-- The escape sequence at the front stays.
color_kept :
    (keep_cr : Bool) (c : ℕ) (message params rest : Bytes) (n : ℕ)
    → c ∷ message ≡ color params ++ rest
    → suc n ≡ length (color params)
    → c ∷ sanitize_from keep_cr n message ≡ color params ++ sanitize_from keep_cr 0 rest
color_kept keep_cr c message params rest n split sized =
    let first : c ≡ 27 = ap (λ t. get_or t 0 0) split in
    let others : message ≡ (91 ∷ (params ++ 109 ∷ [])) ++ rest = ap (drop 1) split in
    let count : n ≡ length (91 ∷ (params ++ 109 ∷ [])) = omega arith in
    ap₂ (λ x t. x ∷ t) first
      (ap₂ (sanitize_from keep_cr) count others
        ∙ sanitize_from-append keep_cr (91 ∷ (params ++ 109 ∷ [])) rest)

-- The result, with the fuel of an induction on what is left.
sanitize_from-Clean :
    (fuel : ℕ) (keep_cr : Bool) (message : Bytes)
    → length message < fuel
    → Clean keep_cr (sanitize_from keep_cr 0 message)
unfolding sanitize_from masked
sanitize_from-Clean zero keep_cr message h = absurd (omega arith)
sanitize_from-Clean (suc fuel) keep_cr [] h = nothing
sanitize_from-Clean (suc fuel) keep_cr (c ∷ message) h =
    let shorter = sanitize_from-Clean fuel keep_cr in
    elim (Bool-cases (is_kept keep_cr c)) [
      | inl kept ↦
          rw (kept) (plain c _ (IsPlain-kept keep_cr c kept) (shorter message (omega arith)))
      | inr masks ↦ rw (masks) (by_sequence shorter masks (color_sequence_len (c ∷ message)) refl)
    ]
  where
    by_sequence :
        ((rest : Bytes) → length rest < fuel → Clean keep_cr (sanitize_from keep_cr 0 rest))
        → is_kept keep_cr c ≡ false
        → (n : ℕ) → color_sequence_len (c ∷ message) ≡ n
        → Clean keep_cr (masked (λ n. sanitize_from keep_cr n message) c n)
    by_sequence shorter masks zero e = caret-Clean keep_cr c _ masks (shorter message (omega arith))
    by_sequence shorter masks (suc n) e =
        let (params, rest, all, split, sized) = color_sequence_len-Starts c message n e in
        let measured : length (c ∷ message) ≡ length (color params ++ rest) = ap length split in
        rw (color_kept keep_cr c message params rest n split sized)
          (colored params _ all (shorter rest (omega (arith, length-append (color params) rest))))

sanitize_from-identity :
    (keep_cr : Bool) (message : Bytes)
    → Clean keep_cr message
    → sanitize_from keep_cr 0 message ≡ message
unfolding sanitize_from masked
sanitize_from-identity keep_cr _ nothing = refl
sanitize_from-identity keep_cr _ (plain c rest is_plain clean) =
    rw (kept-IsPlain keep_cr c is_plain)
      (ap (λ t. c ∷ t) (sanitize_from-identity keep_cr rest clean))
sanitize_from-identity keep_cr _ (colored params rest all clean) = rw (escape_control keep_cr) (
    rw (color_sequence_len-color params rest all) (
      color_kept keep_cr 27 _ params rest _ refl refl
      ∙ ap (λ t. color params ++ t) (sanitize_from-identity keep_cr rest clean)))

-- The result of sanitize holds tabs, line feeds, bytes that are no control bytes and escape
-- sequences that set a color, a carriage return only where it is to be kept, and nothing else; a
-- message that holds nothing else is returned unchanged.
pub sanitize-Clean :
    (message clean : Bytes) (keep_cr : Bool)
    → Clean keep_cr clean
    → Clean keep_cr (sanitize message keep_cr) × (sanitize clean keep_cr ≡ clean)
unfolding sanitize
sanitize-Clean message clean keep_cr is_clean = (
  sanitize_from-Clean (suc (length message)) keep_cr message (omega arith),
  sanitize_from-identity keep_cr clean is_clean,
)
