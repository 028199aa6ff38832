-- ===== src/DeltaIndex/Chains.antt =====
-- Chains are counted, and cut at their maximum.
use go_git.Prelude.{
  ℕ, zero, suc, ◌+◌, ◌≤◌, ◌<◌, ◌≡◌, refl, sym, subst, ◌∙◌, inl, inr, ◌⊎◌, arith, List, [], ◌∷◌,
  ◌==◌, length, get_or, All, Bool-cases, some_inj,
}
use go_git.Prelude.Partial.{Returns}
use go_git.DeltaIndex.Build.{count_chain, count_entries}
use go_git.DeltaIndex.Slices.{Shorter, get_elem?-get_or, All-get_or, set_elem-Shorter, set_elem-All}

-- A chain ends within some entries.
abbrev pub EndsIn : ℕ → List ℕ → ℕ → Type 0
EndsIn zero next h = 0 < 0
EndsIn (suc n) next h = (get_or next h 0 ≡ 0) ⊎ EndsIn n next (get_or next h 0)

EndsIn-Shorter :
    (n : ℕ) (next next' : List ℕ) (h : ℕ) → Shorter next next' → EndsIn n next h → EndsIn n next' h
EndsIn-Shorter zero next next' h shorter ends = ends
EndsIn-Shorter (suc n) next next' h shorter ends = elim (shorter h) [
  | inr cut ↦ inl cut
  | inl same ↦ elim ends [
    | inl last ↦ inl (same ∙ last)
    | inr more ↦ inr (
        subst (EndsIn n next') (sym same)
          (EndsIn-Shorter n next next' (get_or next h 0) shorter more))
  ]
]

pub EndsIn-pos : (n : ℕ) (next : List ℕ) (h : ℕ) → EndsIn n next h → 0 < n
EndsIn-pos zero next h ends = ends
EndsIn-pos (suc n) next h ends = omega arith

-- The links that are left of some are in range.
abbrev Cut : ℕ → List ℕ → List ℕ → Type 0
Cut bound next next' =
    Shorter next next' × (length next' ≡ length next) × All (λ e. e < bound) next'

pub every : (xs : List ℕ) → All (λ x. Unit {0}) xs
every [] = tt
every (x ∷ xs) = (tt, every xs)

-- A link, or a cut.
linked_on :
    (n h h' : ℕ) (next next' : List ℕ)
    → h' ≡ get_or next h 0
    → (get_or next' h 0 ≡ get_or next h 0) ⊎ (get_or next' h 0 ≡ 0)
    → EndsIn n next' h'
    → EndsIn (suc n) next' h
linked_on n h h' next next' linked (inl same) ends =
    inr (subst (EndsIn n next') (linked ∙ sym same) ends)
linked_on n h h' next next' linked (inr cut) ends = inl cut

Cut-trans : (bound : ℕ) (a b c : List ℕ) → Cut bound a b → Cut bound b c → Cut bound a c
Cut-trans bound a b c (first, same, _) (second, same', links) = (both, same' ∙ same, links)
  where
    both : Shorter a c
    both i = elim (second i) [
      | inr cut ↦ inr cut
      | inl kept ↦ elim (first i) [ inl kept' ↦ inl (kept ∙ kept') | inr cut ↦ inr (kept ∙ cut) ]
    ]

-- The chains of a table, of a number of entries together.
unfoldable pub Sized : List ℕ → List ℕ → ℕ → Type 0
Sized next [] cnt = cnt ≡ 0
Sized next (zero ∷ table) cnt = Sized next table cnt
Sized next (suc h ∷ table) cnt =
    (n : ℕ) × (m : ℕ) × (cnt ≡ n + m) × (n ≤ 64) × EndsIn n next (suc h) × Sized next table m

module _ (bound : ℕ) (some_room : 0 < bound) where
  -- A chain from an entry, counted from a size on.
  count_chain-EndsIn :
      (fuel : ℕ) (next : List ℕ) (h size : ℕ)
      → size + fuel ≡ 64
      → 0 < fuel
      → length next ≡ bound
      → All (λ e. e < bound) next
      → h < bound
      → Returns
          (λ (size', next').
            (n : ℕ) × (size' ≡ size + n) × (n ≤ fuel) × EndsIn n next' h × Cut bound next next')
          (count_chain fuel next h size)
  unfolding count_chain
  count_chain-EndsIn zero next h size full pos sized links inside = absurd (omega arith)
  count_chain-EndsIn (suc fuel) next h size full pos sized links inside =
      elim (Bool-cases (suc size == 64)) [
        | inl longest ↦
            let (next', e, (same, shorter, is_cut)) = set_elem-Shorter next h (omega arith) in
            let (next'', e'', (_, links')) =
              set_elem-All (λ x. x < bound) next h 0 links some_room (omega arith) in
            rw (longest) (
              rw (e) (
                (suc size, next'),
                refl,
                (
                  1,
                  omega arith,
                  omega arith,
                  inl is_cut,
                  (shorter, same, subst (All (λ x. x < bound)) (some_inj (sym e'' ∙ e)) links'),
                ),
              ))
        | inr shorter ↦
            let (h', e, linked) = get_elem?-get_or next h (omega arith) in
            let inside' : h' < bound =
              omega (arith, All-get_or (λ x. x < bound) next h links (omega arith)) in
            rw (shorter) (
              rw (e) (elim (Bool-cases (h' == 0)) [
                | inl last ↦ rw (last) (
                  (suc size, next),
                  refl,
                  (1, omega arith, omega arith, inl (ground arith), (λ i. inl refl, refl, links)),
                )
                | inr more ↦
                    let room : 0 < fuel = ground arith in
                    let (x, returned, (n, counted, few, ends, cut)) =
                      count_chain-EndsIn fuel next h' (suc size) (omega arith) room sized links
                        inside' in
                    rw (more) (
                      x,
                      returned,
                      (
                        suc n,
                        omega arith,
                        omega arith,
                        linked_on n h h' next x.1 linked (cut.0 h) ends,
                        cut,
                      ),
                    )
              ]))
      ]

  pub count_entries-Sized :
      (table next : List ℕ)
      → length next ≡ bound
      → All (λ e. e < bound) next
      → All (λ e. e < bound) table
      → Returns
          (λ (cnt, next'). Sized next' table cnt × Cut bound next next')
          (count_entries table next)
  unfolding count_entries Sized
  count_entries-Sized [] next sized links heads =
      ((0, next), refl, (refl, (λ i. inl refl, refl, links)))
  count_entries-Sized (zero ∷ table) next sized links (_, heads) =
      count_entries-Sized table next sized links heads
  count_entries-Sized (suc h ∷ table) next sized links (inside, heads) =
      let ((size, next1), e, (n, counted, few, ends, cut)) =
        count_chain-EndsIn 64 next (suc h) 0 (omega arith) (omega arith) sized links inside in
      let ((cnt, next2), e', (rest, cut')) =
        count_entries-Sized table next1 (cut.1 ∙ sized) (cut.2) heads in
      rw (e) (
        rw (e') (
          (size + cnt, next2),
          refl,
          (
            (n, cnt, omega arith, few, EndsIn-Shorter n next1 next2 (suc h) (cut'.0) ends, rest),
            Cut-trans bound next next1 next2 cut cut',
          ),
        ))
