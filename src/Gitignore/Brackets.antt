-- ===== src/Gitignore/Brackets.antt =====
-- How far `readBracket` gets in the pattern.
use go_git.Prelude.{
  ℕ, zero, suc, ◌+◌, ◌-◌, ◌≤◌, ◌<◌, ◌≡◌, refl, sym, ap, ◌∙◌, arith, inl, inr, [], ◌∷◌, Bool, true,
  false, not, ◌||◌, ◌&&◌, ◌==◌, leb, ltb, length, drop, get_or, Option, none, some, Bool-cases,
  Option-cases, if_elim, some_inj, subst,
}
use go_git.Prelude.Text.{Bytes}
use go_git.Prelude.Partial.{get_elem?, get_elem?-in_range}
use go_git.Gitignore.{Flags, no_flags}
use go_git.Gitignore.BracketSet.{Words, add, no_bytes}
use go_git.Gitignore.ReadBracket.{
  BracketSet, Member, malformed, member, find_close, range_to, escaped_end, range_member,
  with_class, class_member, escaped_member, read_member, at_next, after_member, read_loop, finish,
  read_from, read_opened, read_bracket, close_from, is_byte,
}

find_close-le : (cs : Bytes) (i : ℕ) → i ≤ find_close cs i
unfolding find_close
find_close-le [] i = omega arith
find_close-le (c ∷ cs) i =
    if_elim (λ r. i ≤ r) (c == 93) (omega arith) (omega (arith, find_close-le cs (suc i)))

-- A bracket that is not malformed ends behind the position that it was read from.
abbrev pub Reads : ℕ → Option BracketSet → Type 0
Reads pi o = (b : BracketSet) × (o ≡ some b) × (b.abort ≡ false → pi < b.end)

-- The next position is no earlier.
abbrev Onward : ℕ → Member → Type 0
Onward pi (malformed accept) = Unit
Onward pi (member pi' ch close accept) = pi ≤ pi'

module _ (flags : Flags) (p : Bytes) where
  escaped_end-Onward :
      (at prev close pi : ℕ) (accept : Words) (next : Option ℕ)
      → at ≤ pi
      → Onward at (escaped_end flags p prev close pi accept next)
  unfolding range_to
  escaped_end-Onward at prev close pi accept none h = tt
  escaped_end-Onward at prev close pi accept (some ch) h = h

  with_class-Onward :
      (at close : ℕ) (accept : Words) (class : Option Words)
      → at ≤ close
      → Onward at (with_class flags p close accept class)
  with_class-Onward at close accept none h = tt
  with_class-Onward at close accept (some class) h = h

  escaped_member-Onward :
      (at pi close : ℕ) (accept : Words) (next : Option ℕ)
      → at ≤ pi
      → Onward at (escaped_member flags p pi close accept next)
  escaped_member-Onward at pi close accept none h = tt
  escaped_member-Onward at pi close accept (some ch) h = h

  range_member-Onward :
      (at prev close pi : ℕ) (accept : Words)
      → at ≤ pi
      → Onward at (range_member flags p prev close pi accept)
  unfolding range_member range_to
  range_member-Onward at prev close pi accept h =
      if_elim (Onward at) (get_or p pi 0 == 92)
        (escaped_end-Onward at prev close (suc pi) accept (get_elem? p (suc pi)) (omega arith)) h

  class_member-Onward :
      (pi close : ℕ) (accept : Words)
      → pi ≤ close
      → Onward pi (class_member flags p pi close accept)
  unfolding class_member
  class_member-Onward pi close accept h = if_elim (Onward pi) (leb (length p) close) tt (
      if_elim (Onward pi) (ltb close (suc (pi + 2)) || not (get_or p (close - 1) 0 == 58))
        (omega arith) (with_class-Onward pi close accept _ h))

  close_from-le : (s close : ℕ) → s ≤ close_from flags p s close
  unfolding close_from
  close_from-le s close = elim (Bool-cases (ltb close s)) [
    | inl h ↦ rw (h) (find_close-le (drop s p) s)
    | inr h ↦ rw (h) (ground arith)
  ]

  read_member-Onward :
      (pi ch prev close : ℕ) (accept : Words)
      → Onward pi (read_member flags p pi ch prev close accept)
  unfolding read_member
  read_member-Onward pi ch prev close accept =
      let next = get_elem? p (suc pi) in
      if_elim (Onward pi) (ch == 92)
        (escaped_member-Onward pi (suc pi) close accept next (omega arith))
        (if_elim (Onward pi)
          (ch == 45 && not (prev == 0) && is_byte flags p (λ c. not (c == 93)) next)
          (range_member-Onward pi prev close (suc pi) accept (omega arith))
          (if_elim (Onward pi) (ch == 91 && is_byte flags p (λ c. c == 58) next)
            {y = member pi ch close (add ch accept)}
            (class_member-Onward pi (close_from flags p (pi + 2) close) accept
              (omega (arith, close_from-le (pi + 2) close)))
            (omega arith)))

  at_next-Reads :
      (at pi ch close : ℕ) (accept : Words) (again : ℕ → ℕ → ℕ → ℕ → Words → Option BracketSet)
      → at ≤ pi
      → ((c : ℕ) → suc pi < length p → Reads (suc pi) (again (suc pi) c ch close accept))
      → Reads at (at_next flags p pi ch close accept again (get_elem? p (suc pi)))
  at_next-Reads at pi ch close accept again h next = elim (Option-cases (get_elem? p (suc pi))) [
    | inl e ↦ rw (e) (_, refl, λ q. cc)
    | inr (c, e) ↦ rw (e) (elim (Bool-cases (c == 93)) [
      | inl q ↦ rw (q) (_, refl, λ q. omega arith)
      | inr q ↦ rw (q) (
          let (b, r, ends) = next c (get_elem?-in_range p (suc pi) c e) in
          (b, r, λ g. omega (arith, ends g)))
    ])
  ]

  after_member-Reads :
      (pi : ℕ) (m : Member) (again : ℕ → ℕ → ℕ → ℕ → Words → Option BracketSet)
      → Onward pi m
      → ((pi' ch prev close : ℕ) (accept : Words)
          → pi < pi'
          → pi' < length p
          → Reads pi' (again pi' ch prev close accept))
      → Reads pi (after_member flags p m again)
  after_member-Reads pi (malformed accept) again h next = (_, refl, λ q. cc)
  after_member-Reads pi (member pi' ch close accept) again h next =
      at_next-Reads pi pi' ch close accept again h
        (λ c q. next (suc pi') c ch close accept (omega arith) q)

  read_loop-Reads :
      (fuel pi ch prev close : ℕ) (accept : Words)
      → length p < fuel + pi
      → pi < length p
      → Reads pi (read_loop flags p fuel pi ch prev close accept)
  unfolding read_loop
  read_loop-Reads zero pi ch prev close accept h q = absurd (omega arith)
  read_loop-Reads (suc fuel) pi ch prev close accept h q =
      after_member-Reads pi (read_member flags p pi ch prev close accept) _
        (read_member-Onward pi ch prev close accept)
        (λ pi' ch' prev' close' accept' l m.
          read_loop-Reads fuel pi' ch' prev' close' accept' (omega arith) m)

  finish-Reads :
      (negated : Bool) (pi : ℕ) (o : Option BracketSet)
      → Reads pi o
      → Reads pi (finish flags p negated o)
  finish-Reads negated pi none (b, e, ends) = cc
  finish-Reads negated pi (some x) (b, e, ends) = elim (Bool-cases x.abort) [
    | inl h ↦ rw (h) (_, refl, λ q. cc)
    | inr h ↦ rw (h) (
      _,
      refl,
      λ q.
          subst (λ y. pi < y.end) (sym (some_inj e))
            (ends (ap (λ y. y.abort) (sym (some_inj e)) ∙ h)),
    )
  ]

  read_from-Reads :
      (negated : Bool) (start pi : ℕ) (next : Option ℕ)
      → start < pi
      → get_elem? p pi ≡ next
      → Reads start (read_from flags p negated pi next)
  read_from-Reads negated start pi none h e = (_, refl, λ q. cc)
  read_from-Reads negated start pi (some ch) h e = finish-Reads negated start _ (
      let (b, r, ends) =
        read_loop-Reads (length p) pi ch 0 0 no_bytes (omega arith)
          (get_elem?-in_range p pi ch e) in
      (b, r, λ g. omega (arith, ends g)))

  read_opened-Reads :
      (start : ℕ) (next : Option ℕ)
      → get_elem? p (start + 1) ≡ next
      → Reads start (read_opened flags p start next)
  read_opened-Reads start none e = (_, refl, λ q. cc)
  read_opened-Reads start (some ch) e =
      if_elim (Reads start) (ch == 94 || ch == 33)
        (read_from-Reads true start (start + 2) _ (omega arith) refl)
        (read_from-Reads false start (start + 1) (some ch) (omega arith) e)

  -- Reading a bracket ends, behind its opening.
  pub read_bracket-Reads : (start : ℕ) → Reads start (read_bracket flags p start)
  unfolding read_bracket
  read_bracket-Reads start = read_opened-Reads start _ refl

pub end-behind :
    (p : Bytes) (start : ℕ) (b : BracketSet)
    → read_bracket no_flags p start ≡ some b
    → b.abort ≡ false
    → start < b.end
end-behind p start b e h =
    let (b', e', ends) = read_bracket-Reads no_flags p start in
    let same : b' ≡ b = some_inj (sym e' ∙ e) in
    subst (λ x. start < x.end) same (ends (ap (λ x. x.abort) same ∙ h))
