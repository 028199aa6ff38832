-- ===== src/DeltaIndex/CopyChains.antt =====
-- Chains are copied to the places that were counted.
use go_git.Prelude.{
  ℕ, zero, suc, ◌+◌, ◌≤◌, ◌<◌, ◌≡◌, refl, sym, subst, ap, ◌∙◌, inl, inr, arith, List, [], ◌∷◌, ◌==◌,
  length, All, Bool-cases,
}
use go_git.Prelude.Partial.{Returns}
use go_git.DeltaIndex.Build.{DeltaIndexScanner, copy_chain, copy_entries}
use go_git.DeltaIndex.Slices.{get_elem?-get_or, All-get_or, set_elem-All}
use go_git.DeltaIndex.Chains.{EndsIn, EndsIn-pos, every, Sized}

module _ (bound : ℕ) where
  module _ (scanner : DeltaIndexScanner) (entries_room : length scanner.entries ≡ bound)
      (next_room : length scanner.next ≡ bound) (links : All (λ e. e < bound) scanner.next) where
    copy_chain-Fits :
        (fuel n h : ℕ) (entries : List ℕ) (place : ℕ)
        → n ≤ fuel
        → EndsIn n scanner.next h
        → h < bound
        → place + n ≤ length entries
        → Returns
            (λ (entries', place'). (length entries' ≡ length entries) × (place' ≤ place + n))
            (copy_chain fuel scanner h entries place)
    unfolding copy_chain
    copy_chain-Fits fuel zero h entries place few ends inside room = absurd (omega arith)
    copy_chain-Fits zero (suc n) h entries place few ends inside room = absurd (omega arith)
    copy_chain-Fits (suc fuel) (suc n) h entries place few ends inside room =
        let (offset, e, _) = get_elem?-get_or scanner.entries h (omega arith) in
        let (entries', e', (same, _)) =
          set_elem-All (λ x. Unit {0}) entries place offset (every entries) tt (omega arith) in
        let (h', e'', linked) = get_elem?-get_or scanner.next h (omega arith) in
        let inside' : h' < bound =
          omega (arith, All-get_or (λ x. x < bound) scanner.next h links (omega arith)) in
        rw (e) (
          rw (e') (
            rw (e'') (elim (Bool-cases (h' == 0)) [
              | inl last ↦ rw (last) ((entries', suc place), refl, (same, omega arith))
              | inr more ↦
                  let goes_on : EndsIn n scanner.next h' = elim ends [
                    | inl ended ↦ absurd (ground arith)
                    | inr rest ↦ subst (EndsIn n scanner.next) (sym linked) rest
                  ] in
                  let ((entries'', place'), returned, (same', near)) =
                    copy_chain-Fits fuel n h' entries' (suc place) (omega arith) goes_on inside'
                      (omega arith) in
                  rw (more) ((entries'', place'), returned, (same' ∙ same, omega arith))
            ])))

    pub copy_entries-Fits :
        (table entries : List ℕ) (place cnt : ℕ)
        → Sized scanner.next table cnt
        → All (λ e. e < bound) table
        → 0 < length entries
        → place + cnt ≤ length entries
        → Returns
            (λ (table', entries').
              (length table' ≡ length table)
              × (length entries' ≡ length entries)
              × All (λ e. e < length entries) table')
            (copy_entries scanner table entries place)
    unfolding copy_entries Sized
    copy_entries-Fits [] entries place cnt sized heads pos room =
        (([], entries), refl, (refl, refl, tt))
    copy_entries-Fits (zero ∷ table) entries place cnt sized (_, heads) pos room =
        let ((table', entries'), e, (same, same', all)) =
          copy_entries-Fits table entries place cnt sized heads pos room in
        rw (e) ((0 ∷ table', entries'), refl, (ap suc same, same', (omega arith, all)))
    copy_entries-Fits (suc h ∷ table) entries place cnt (n, m, sum, few, ends, sized)
          (inside, heads) pos room =
        let ((entries1, place1), e, (same, near)) =
          copy_chain-Fits 64 n (suc h) entries place few ends inside (omega arith) in
        let ((table', entries2), e', (same', same'', all)) =
          copy_entries-Fits table entries1 place1 m sized heads (omega arith) (omega arith) in
        rw (e) (
          rw (e') (
            (place ∷ table', entries2),
            refl,
            (
              ap suc same',
              same'' ∙ same,
              (
                omega (arith, EndsIn-pos n scanner.next (suc h) ends),
                subst (λ l. All (λ x. x < l) table') same all,
              ),
            ),
          ))
