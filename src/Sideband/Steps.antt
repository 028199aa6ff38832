-- ===== src/Sideband/Steps.antt =====
-- One round of a read: what of the next data is read, and what is pending.
use go_git.Prelude.{
  ℕ, zero, suc, ◌-◌, ◌≤◌, ◌≡◌, refl, sym, ap, ◌∙◌, inl, inr, ◌⊎◌, arith, List, [], ◌∷◌, ◌++◌,
  append_assoc, append-nil, false, ltb, leb, if◌then◌else◌, length, take, drop, length-append,
  length-take, take-append-drop, Option, none, some, Bool-cases,
}
use go_git.Prelude.Text.{Bytes}
use go_git.Sideband.{DemuxError, eof, Demuxer, DemuxRead, keep_pending}
use go_git.Sideband.Carries.{Logged, Holds, Gives}

pub drop_short : (n : ℕ) (xs : Bytes) → length xs ≤ n → drop n xs ≡ []
drop_short zero [] h = refl
drop_short zero (x ∷ xs) h = absurd (omega arith)
drop_short (suc n) [] h = refl
drop_short (suc n) (x ∷ xs) h = drop_short n xs (omega arith)

pub take_short : (n : ℕ) (xs : Bytes) → length xs ≤ n → take n xs ≡ xs
take_short n xs h =
    sym (append-nil (take n xs))
    ∙ ap (λ t. take n xs ++ t) (sym (drop_short n xs h))
    ∙ take-append-drop n xs

pub take_past :
    (n : ℕ) (xs ys : Bytes) → length xs ≤ n → take n (xs ++ ys) ≡ xs ++ take (n - length xs) ys
take_past n [] ys h = ap (λ t. take t ys) (omega arith)
take_past zero (x ∷ xs) ys h = absurd (omega arith)
take_past (suc n) (x ∷ xs) ys h =
    let e : n - length xs ≡ suc n - length (x ∷ xs) = omega arith in
    ap (λ t. x ∷ t) (take_past n xs ys (omega arith)) ∙ ap (λ t. x ∷ (xs ++ take t ys)) e

pub drop_past :
    (n : ℕ) (xs ys : Bytes) → length xs ≤ n → drop n (xs ++ ys) ≡ drop (n - length xs) ys
drop_past n [] ys h = ap (λ t. drop t ys) (omega arith)
drop_past zero (x ∷ xs) ys h = absurd (omega arith)
drop_past (suc n) (x ∷ xs) ys h =
    let e : n - length xs ≡ suc n - length (x ∷ xs) = omega arith in
    drop_past n xs ys (omega arith) ∙ ap (λ t. drop t ys) e

-- The error of a read: none while there is data enough.
unfoldable pub end_of : ℕ → Bytes → Option DemuxError
end_of req content = if leb req (length content) then none else some eof

pub end_of-past :
    (n : ℕ) (xs ys : Bytes) → length xs ≤ n → end_of (n - length xs) ys ≡ end_of n (xs ++ ys)
unfolding end_of
end_of-past n xs ys h =
    let same : leb (n - length xs) (length ys) ≡ leb n (length (xs ++ ys)) =
      ground (arith, length-append xs ys) in
    rw (same) refl

-- A round reads a front of the data, no longer than what is wanted; or there is none left.
abbrev pub Step : Option (List Bytes) → ℕ → Bytes → DemuxRead → Type 0
Step written wanted content x =
    ((x.failure ≡ none)
      × (later : Bytes) × (content ≡ x.data_read ++ later)
      × (length x.data_read ≤ wanted)
      × Holds written x.after later)
    ⊎ ((x.failure ≡ some eof)
        × (x.data_read ≡ [])
        × (content ≡ [])
        × Holds written x.after []
        × Logged x.after.progress [] written)

module _ (written : Option (List Bytes)) where
  with_pending :
      (d : Demuxer) (more later : Bytes)
      → d.pending ≡ []
      → Holds written d later
      → Holds written (record d { pending = more }) (more ++ later)
  with_pending d more later no_pending holds = record {
    rest = holds.rest;
    ahead = holds.ahead;
    messages = holds.messages;
    reader = holds.reader;
    buffer = holds.buffer;
    split = ap (λ t. more ++ t) (holds.split ∙ ap (λ t. t ++ holds.ahead) no_pending);
    carries = holds.carries;
    logged = holds.logged;
  }

  pub keep_pending-Step :
      (wanted : ℕ) (content : Bytes) (x : DemuxRead)
      → Gives written content x
      → Step written wanted content (keep_pending wanted x)
  unfolding keep_pending
  keep_pending-Step wanted content x (inl (fine, no_pending, later, split, holds)) =
      elim (Bool-cases (ltb wanted (length x.data_read))) [
        | inl more ↦ rw (more) (
            inl (
              fine,
              drop wanted x.data_read ++ later,
              split
                  ∙ ap (λ t. t ++ later) (sym (take-append-drop wanted x.data_read))
                  ∙ append_assoc (take wanted x.data_read) (drop wanted x.data_read) later,
              omega (arith, length-take wanted x.data_read),
              with_pending x.after (drop wanted x.data_read) later no_pending holds,
            ))
        | inr all ↦
            let short : length x.data_read ≤ wanted = ground arith in
            rw (all) (
              inl (
                fine,
                later,
                split ∙ ap (λ t. t ++ later) (sym (take_short wanted x.data_read short)),
                omega (arith, length-take wanted x.data_read),
                holds,
              ))
      ]
  keep_pending-Step wanted content x (inr (ends, no_data, no_content, no_pending, holds, logged)) =
      let none_over : ltb wanted (length x.data_read) ≡ false = ground (arith, ap length no_data) in
      rw (none_over) (
        inr (
          ends,
          take_short wanted x.data_read (omega (arith, ap length no_data)) ∙ no_data,
          no_content,
          holds,
          logged,
        ))
