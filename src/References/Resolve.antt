-- ===== src/References/Resolve.antt =====
-- plumbing/storer/reference.go: following symbolic references to the reference that they name.
use go_git.Prelude.{
  ℕ, zero, suc, ◌+◌, ◌≤◌, ◌≡◌, refl, sym, ap, ◌∙◌, leb, inl, inr, Bool, true, false, arith,
  if◌then◌else◌, Option, none, some, Bool-cases, Option-cases, subst,
}
use go_git.Prelude.Text.{Bytes}
use go_git.Prelude.Result.{Result, ok, err, ok_inj, err-ne-ok}
use go_git.References.{
  Reference, ReferenceType, invalid_reference, hash_reference, symbolic_reference, ReferenceStorer,
  Error, reference_not_found, max_resolve_recursion,
}

abbrev pub max_recursion : ℕ
max_recursion = 1024

abbrev pub is_symbolic : ReferenceType → Bool
is_symbolic invalid_reference = false
is_symbolic hash_reference = false
is_symbolic symbolic_reference = true

module _ {S : Type 0} (storer : ReferenceStorer S) (s : S) where
  -- What follows from a look at a name, by what is done with the reference there.
  unfoldable pub found_then :
      (Reference → Result Error Reference) → Option Reference → Result Error Reference
  found_then next none = err reference_not_found
  found_then next (some r) = next r

  -- `resolveReference`: `left` is what MaxResolveRecursion + 1 has over the recursion.
  unfoldable pub resolve_loop : ℕ → Reference → Result Error Reference
  resolve_loop zero r = if is_symbolic r.kind then err max_resolve_recursion else ok r
  resolve_loop (suc left) r =
      let next = found_then (resolve_loop left) (storer.reference s r.target) in
      if is_symbolic r.kind then next else ok r

  unfoldable pub resolve_reference : Bytes → Result Error Reference
  resolve_reference n = found_then (resolve_loop (max_recursion + 1)) (storer.reference s n)

  -- A reference leads, over symbolic references in that number, to one that is not symbolic.
  pub data Leads : ℕ → Reference → Reference → Type 0 where
    here : (r : Reference) → is_symbolic r.kind ≡ false → Leads 0 r r
    follow :
        (k : ℕ) (r t last : Reference)
        → is_symbolic r.kind ≡ true
        → storer.reference s r.target ≡ some t
        → Leads k t last
        → Leads (suc k) r last

  resolve_loop-Leads :
      (k left : ℕ) (r last : Reference)
      → Leads k r last
      → resolve_loop left r ≡ (if leb k left then ok last else err max_resolve_recursion)
  unfolding resolve_loop found_then
  resolve_loop-Leads _ zero r _ (here _ settled) = rw (settled) refl
  resolve_loop-Leads _ (suc left) r _ (here _ settled) =
      let room : leb 0 (suc left) ≡ true = ground arith in rw (settled) (rw (room) refl)
  resolve_loop-Leads _ zero r last (follow k _ t _ symbolic found rest) =
      let past : leb (suc k) 0 ≡ false = ground arith in rw (symbolic) (rw (past) refl)
  resolve_loop-Leads _ (suc left) r last (follow k _ t _ symbolic found rest) =
      let same : leb k left ≡ leb (suc k) (suc left) = ground arith in
      rw (symbolic) (
        rw (found) (
          resolve_loop-Leads k left t last rest
          ∙ ap (λ b. if b then ok last else err max_resolve_recursion) same))

  -- Over any storer that keeps the laws of ReferenceStorer, for a name that leads to a reference
  -- over some number of symbolic references, the one under the name included, ResolveReference
  -- returns that reference where they are at most 1025, one more than MaxResolveRecursion, and
  -- ErrMaxResolveRecursion where they are more.
  pub resolve_reference-Leads :
      (n : Bytes) (k : ℕ) (r last : Reference)
      → storer.reference s n ≡ some r
      → Leads k r last
      → resolve_reference n
        ≡ (if leb k (max_recursion + 1) then ok last else err max_resolve_recursion)
  unfolding resolve_reference found_then
  resolve_reference-Leads n k r last found leads =
      rw (found) (resolve_loop-Leads k (max_recursion + 1) r last leads)

  -- How a loop that succeeded got there.
  abbrev Reaches : ℕ → Reference → Reference → Type 0
  Reaches left r last = (k : ℕ) × (k ≤ left) × Leads k r last

  step_back :
      (left : ℕ) (r last : Reference) (o : Option Reference)
      → is_symbolic r.kind ≡ true
      → storer.reference s r.target ≡ o
      → ((t : Reference) → resolve_loop left t ≡ ok last → Reaches left t last)
      → found_then (resolve_loop left) o ≡ ok last
      → Reaches (suc left) r last
  unfolding found_then
  step_back left r last none symbolic found earlier h = absurd (err-ne-ok h)
  step_back left r last (some t) symbolic found earlier h =
      let (k, bound, leads) = earlier t h in
      (suc k, omega arith, follow k r t last symbolic found leads)

  loop_back : (left : ℕ) (r last : Reference) → resolve_loop left r ≡ ok last → Reaches left r last
  unfolding resolve_loop
  loop_back zero r last h = elim (Bool-cases (is_symbolic r.kind)) [
    | inl symbolic ↦
        let stopped : resolve_loop zero r ≡ err max_resolve_recursion = rw (symbolic) refl in
        absurd (err-ne-ok (sym stopped ∙ h))
    | inr settled ↦
        let done : resolve_loop zero r ≡ ok r = rw (settled) refl in
        (0, omega arith, subst (Leads 0 r) (ok_inj (sym done ∙ h)) (here r settled))
  ]
  loop_back (suc left) r last h = elim (Bool-cases (is_symbolic r.kind)) [
    | inl symbolic ↦
        let on : resolve_loop (suc left) r
            ≡ found_then (resolve_loop left) (storer.reference s r.target) =
          rw (symbolic) refl in
        step_back left r last (storer.reference s r.target) symbolic refl
          (λ t. loop_back left t last) (sym on ∙ h)
    | inr settled ↦
        let done : resolve_loop (suc left) r ≡ ok r = rw (settled) refl in
        (0, omega arith, subst (Leads 0 r) (ok_inj (sym done ∙ h)) (here r settled))
  ]

  Leads-settled : (k : ℕ) (r last : Reference) → Leads k r last → is_symbolic last.kind ≡ false
  Leads-settled _ _ _ (here _ settled) = settled
  Leads-settled _ _ _ (follow k r t last symbolic found rest) = Leads-settled k t last rest

  -- Over any storer that keeps the laws of ReferenceStorer, a reference that ResolveReference
  -- returns is not symbolic, and the name leads to it over at most 1025 symbolic references.
  pub Leads-resolve_reference :
      (n : Bytes) (last : Reference)
      → resolve_reference n ≡ ok last
      → (is_symbolic last.kind ≡ false)
        × ((r : Reference) × (storer.reference s n ≡ some r)
            × ((k : ℕ) × (k ≤ max_recursion + 1) × Leads k r last))
  unfolding resolve_reference found_then
  Leads-resolve_reference n last h = elim (Option-cases (storer.reference s n)) [
    | inl nothing ↦
        let missing : resolve_reference n ≡ err reference_not_found = rw (nothing) refl in
        absurd (err-ne-ok (sym missing ∙ h))
    | inr (r, found) ↦
        let looped : resolve_reference n ≡ resolve_loop (max_recursion + 1) r = rw (found) refl in
        let (k, bound, leads) = loop_back (max_recursion + 1) r last (sym looped ∙ h) in
        (Leads-settled k r last leads, (r, found, (k, bound, leads)))
  ]
