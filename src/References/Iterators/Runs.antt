-- ===== src/References/Iterators/Runs.antt =====
-- The references that an iterator yields, and ForEach over them.
use go_git.Prelude.{
  ℕ, zero, suc, ◌≡◌, ◌≢◌, ◌<◌, refl, ◌∙◌, inl, inr, List, [], ◌∷◌, ◌++◌, drop, Bool, if◌then◌else◌,
  Option, none, some, length, Bool-cases, arith,
}
use go_git.Prelude.Partial.{get_elem?}
use go_git.References.{Reference}
use go_git.References.Iterators.{
  IterError, eof, Turn, yielded, failed, ReferenceIter, Visited, err_stop, other, after_next,
  next_filtered, filtered_iter, next_multi, multi_iter, after_callback, for_each,
  ReferenceSliceIter, new_reference_slice_iter, next_slice, slice_iter,
}

-- From `s` the iterator yields the references `rs` one after the other and then fails with `e`.
pub data Yields {I : Type 0} (it : ReferenceIter I) : I → List Reference → IterError → Type 0 where
  ends : (s t : I) (e : IterError) → it.next s ≡ some (failed t e) → Yields it s [] e
  gives :
      (s t : I) (r : Reference) (rs : List Reference) (e : IterError)
      → it.next s ≡ some (yielded t r)
      → Yields it t rs e
      → Yields it s (r ∷ rs) e

unfoldable pub keep : (Reference → Bool) → List Reference → List Reference
keep ff [] = []
keep ff (r ∷ rs) = let rest = keep ff rs in if ff r then r ∷ rest else rest

-- What ForEach is to do with a callback in the state `c`, over references and the error behind
-- them: the state that it leaves the callback in, and the error that it returns, `none` for nil.
pub data Visits {C : Type 0} (cb : C → Reference → C × Option IterError)
    : C → List Reference → IterError → C → Option IterError → Type 0 where
  reaches_end : (c : C) → Visits cb c [] eof c none
  next_fails : (c : C) (e : IterError) → e ≢ eof → Visits cb c [] e c (some e)
  goes_on :
      (c d last : C) (r : Reference) (rs : List Reference) (e : IterError) (out : Option IterError)
      → cb c r ≡ (d, none)
      → Visits cb d rs e last out
      → Visits cb c (r ∷ rs) e last out
  stops :
      (c d : C) (r : Reference) (rs : List Reference) (e : IterError)
      → cb c r ≡ (d, some err_stop)
      → Visits cb c (r ∷ rs) e d none
  callback_fails :
      (c d : C) (r : Reference) (rs : List Reference) (e x : IterError)
      → x ≢ err_stop
      → cb c r ≡ (d, some x)
      → Visits cb c (r ∷ rs) e d (some x)

module _ {I C : Type 0} (it : ReferenceIter I) (cb : C → Reference → C × Option IterError) where
  -- The loop has returned, with its iterator closed, and has done what it is to do.
  abbrev pub Done : C → List Reference → IterError → Option (Visited I C) → Type 0
  Done c rs e o =
      (v : Visited I C) × (o ≡ some v)
      × Visits cb c rs e v.callback v.error
      × ((t : I) × (v.iter ≡ it.close t))

  ended-Done :
      (t : I) (c : C) (e : IterError) (again : I → C → Option (Visited I C))
      → Done c [] e (after_next it cb c (some (failed t e)) again)
  ended-Done t c eof again = (_, refl, reaches_end c, (t, refl))
  ended-Done t c err_stop again = (_, refl, next_fails c err_stop (λ h. cc), (t, refl))
  ended-Done t c (other n) again = (_, refl, next_fails c (other n) (λ h. cc), (t, refl))

  after_callback-Done :
      (t : I) (c : C) (r : Reference) (rs : List Reference) (e : IterError)
      (x : C × Option IterError) (again : I → C → Option (Visited I C))
      → cb c r ≡ x
      → ((d : C) → Done d rs e (again t d))
      → Done c (r ∷ rs) e (after_callback it cb t x again)
  after_callback-Done t c r rs e (d, none) again q next =
      let (v, p, visits, closed) = next d in
      (v, p, goes_on c d v.callback r rs e v.error q visits, closed)
  after_callback-Done t c r rs e (d, some eof) again q next =
      (_, refl, callback_fails c d r rs e eof (λ h. cc) q, (t, refl))
  after_callback-Done t c r rs e (d, some err_stop) again q next =
      (_, refl, stops c d r rs e q, (t, refl))
  after_callback-Done t c r rs e (d, some (other n)) again q next =
      (_, refl, callback_fails c d r rs e (other n) (λ h. cc) q, (t, refl))

  -- Where an iterator yields a list of references and then fails with an error, ForEach returns
  -- once its loop has one round more than the list, with the iterator closed, and has called the
  -- callback on the references in their order until it first returned an error. It returns nil
  -- where that error is ErrStop and the error where it is another; where there was none, it
  -- returns nil if the iterator failed with io.EOF, and else the error of the iterator.
  pub for_each-Visits :
      (fuel : ℕ) (s : I) (rs : List Reference) (e : IterError) (c : C)
      → Yields it s rs e
      → length rs < fuel
      → Done c rs e (for_each it cb fuel s c)
  unfolding for_each
  for_each-Visits zero s rs e c y h = absurd (omega arith)
  for_each-Visits (suc fuel) s [] e c (ends _ t _ p) h =
      rw (p) (ended-Done t c e (λ t d. for_each it cb fuel t d))
  for_each-Visits (suc fuel) s (r ∷ rs) e c (gives _ t _ _ _ p y) h = rw (p) (
      after_callback-Done t c r rs e (cb c r) (λ t d. for_each it cb fuel t d) refl
        (λ d. for_each-Visits fuel t rs e d y (omega arith)))

-- The same, told from the turn that Next returned.
data Starts {I : Type 0} (it : ReferenceIter I) : Turn I → List Reference → IterError → Type 0 where
  at_end : (t : I) (e : IterError) → Starts it (failed t e) [] e
  at_one :
      (t : I) (r : Reference) (rs : List Reference) (e : IterError)
      → Yields it t rs e
      → Starts it (yielded t r) (r ∷ rs) e

Starts-Yields :
    {I : Type 0} (it : ReferenceIter I) (s : I) (x : Turn I) (rs : List Reference) (e : IterError)
    → it.next s ≡ some x
    → Starts it x rs e
    → Yields it s rs e
Starts-Yields it s _ _ e p (at_end t _) = ends s t e p
Starts-Yields it s _ _ e p (at_one t r rs _ y) = gives s t r rs e p y

next_eq-Yields :
    {I : Type 0} (it : ReferenceIter I) (s u : I) (rs : List Reference) (e : IterError)
    → it.next u ≡ it.next s
    → Yields it s rs e
    → Yields it u rs e
next_eq-Yields it s u _ e q (ends _ t _ p) = ends u t e (q ∙ p)
next_eq-Yields it s u _ e q (gives _ t r rs _ p y) = gives u t r rs e (q ∙ p) y

module _ {I : Type 0} (it : ReferenceIter I) (ff : Reference → Bool) where
  next_filtered-Starts :
      (k j : ℕ) (s : I) (rs : List Reference) (e : IterError)
      → Yields it s rs e
      → length rs < k
      → length rs < j
      → (x : Turn I) × (next_filtered it j ff s ≡ some x)
        × Starts (filtered_iter it k ff) x (keep ff rs) e
  unfolding next_filtered filtered_iter keep
  next_filtered-Starts k zero s rs e y hk hj = absurd (omega arith)
  next_filtered-Starts k (suc j) s [] e (ends _ t _ p) hk hj = (failed t e, rw (p) refl, at_end t e)
  next_filtered-Starts k (suc j) s (r ∷ rs) e (gives _ t _ _ _ p y) hk hj =
      elim (Bool-cases (ff r)) [
        | inl h ↦
            let first = next_filtered-Starts k k t rs e y (omega arith) (omega arith) in
            (
              yielded t r,
              rw (p) (rw (h) refl),
              rw (h) (
                  at_one t r (keep ff rs) e (
                    Starts-Yields (filtered_iter it k ff) t first.0 (keep ff rs) e first.1
                      first.2)),
            )
        | inr h ↦ rw (p) (rw (h) (next_filtered-Starts k j t rs e y (omega arith) (omega arith)))
      ]

  -- Where an iterator yields a list of references and then fails with an error, the iterator that
  -- NewReferenceFilteredIter makes of it yields those of the list that the function accepts, in
  -- their order, and then fails with that error; each Next of it returns once its loop has one
  -- round more than the list.
  pub filtered_iter-Yields :
      (k : ℕ) (s : I) (rs : List Reference) (e : IterError)
      → Yields it s rs e
      → length rs < k
      → Yields (filtered_iter it k ff) s (keep ff rs) e
  unfolding filtered_iter
  filtered_iter-Yields k s rs e y h =
      let first = next_filtered-Starts k k s rs e y h h in
      Starts-Yields (filtered_iter it k ff) s first.0 (keep ff rs) e first.1 first.2

-- Where an iterator yields a list and ends with io.EOF, a MultiReferenceIter with it before others
-- yields that list, then what it yields with the others alone, and fails with the error that this
-- ends with.
pub multi_iter-Yields :
    {I : Type 0} (it : ReferenceIter I) (s : I) (is : List I) (rs rest : List Reference)
    (e : IterError)
    → Yields it s rs eof
    → Yields (multi_iter it) is rest e
    → Yields (multi_iter it) (s ∷ is) (rs ++ rest) e
unfolding multi_iter next_multi
multi_iter-Yields it s is [] rest e (ends _ t _ p) z =
    next_eq-Yields (multi_iter it) is (s ∷ is) rest e (rw (p) refl) z
multi_iter-Yields it s is (r ∷ rs) rest e (gives _ t _ _ _ p y) z =
    gives (s ∷ is) (t ∷ is) r (rs ++ rest) e (rw (p) refl) (multi_iter-Yields it t is rs rest e y z)

get_elem?-drop_nil : (n : ℕ) (xs : List Reference) → drop n xs ≡ [] → get_elem? xs n ≡ none
unfolding get_elem?
get_elem?-drop_nil zero [] h = refl
get_elem?-drop_nil zero (x ∷ xs) h = cc
get_elem?-drop_nil (suc n) [] h = refl
get_elem?-drop_nil (suc n) (x ∷ xs) h = get_elem?-drop_nil n xs h

get_elem?-drop_cons :
    (n : ℕ) (xs : List Reference) (r : Reference) (rs : List Reference)
    → drop n xs ≡ r ∷ rs
    → (get_elem? xs n ≡ some r) × (drop (suc n) xs ≡ rs)
unfolding get_elem?
get_elem?-drop_cons zero [] r rs h = cc
get_elem?-drop_cons zero (x ∷ xs) r rs h = (cc, cc)
get_elem?-drop_cons (suc n) [] r rs h = cc
get_elem?-drop_cons (suc n) (x ∷ xs) r rs h = get_elem?-drop_cons n xs r rs h

slice_iter_from-Yields :
    (it : ReferenceSliceIter) (rs : List Reference)
    → drop it.pos it.series ≡ rs
    → Yields slice_iter it rs eof
unfolding slice_iter next_slice
slice_iter_from-Yields it [] h = ends it it eof (rw (get_elem?-drop_nil it.pos it.series h) refl)
slice_iter_from-Yields it (r ∷ rs) h =
    let found = get_elem?-drop_cons it.pos it.series r rs h in
    let onward : ReferenceSliceIter = record it { pos = suc it.pos } in
    gives it onward r rs eof (rw (found.0) refl) (slice_iter_from-Yields onward rs found.1)

-- An iterator of a slice yields the slice.
pub slice_iter-Yields :
    (series : List Reference) → Yields slice_iter (new_reference_slice_iter series) series eof
unfolding new_reference_slice_iter
slice_iter-Yields series = slice_iter_from-Yields (new_reference_slice_iter series) series refl
