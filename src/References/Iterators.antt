-- ===== src/References/Iterators.antt =====
-- plumbing/storer/reference.go: the iterators over references, and ForEach over any of them.
pub mod Runs
mod Examples
use go_git.Prelude.{
  ℕ, zero, suc, ◌≡◌, List, [], ◌∷◌, Bool, if◌then◌else◌, Option, none, some, length,
}
use go_git.Prelude.Partial.{get_elem?}
use go_git.References.{Reference}

-- The errors that the loops tell apart: io.EOF, ErrStop and any other.
pub data IterError : Type 0 where
  eof : IterError
  err_stop : IterError
  other : ℕ → IterError

-- What a call of Next returns, with the iterator after it.
pub data Turn (I : Type 0) : Type 0 where
  yielded : I → Reference → Turn I
  failed : I → IterError → Turn I

-- Next is `none` where the call does not return.
pub record ReferenceIter (I : Type 0) : Type 0 where
  pub next : I → Option (Turn I)
  pub close : I → I

-- ReferenceSliceIter.
pub record ReferenceSliceIter : Type 0 where
  pub series : List Reference
  pub pos : ℕ

unfoldable pub new_reference_slice_iter : List Reference → ReferenceSliceIter
new_reference_slice_iter series = record { series = series; pos = 0 }

-- An index past the end is the test `pos >= len(series)`.
unfoldable pub next_slice : ReferenceSliceIter → Turn ReferenceSliceIter
next_slice it = returned (get_elem? it.series it.pos)
  where
    returned : Option Reference → Turn ReferenceSliceIter
    returned none = failed it eof
    returned (some obj) = yielded (record it { pos = suc it.pos }) obj

unfoldable pub slice_iter : ReferenceIter ReferenceSliceIter
slice_iter = record {
  next = λ it. some (next_slice it);
  close = λ it. record it { pos = length it.series };
}

-- What a call of ForEach leaves behind: the state of its callback, the closed iterator, and its
-- error, `none` for nil.
pub record Visited (I C : Type 0) : Type 0 where
  pub callback : C
  pub iter : I
  pub error : Option IterError

abbrev pub unless_eof : IterError → Option IterError
unless_eof eof = none
unless_eof err_stop = some err_stop
unless_eof (other n) = some (other n)

abbrev pub unless_stop : IterError → Option IterError
unless_stop eof = some eof
unless_stop err_stop = none
unless_stop (other n) = some (other n)

module _ {I : Type 0} (it : ReferenceIter I) where
  -- referenceFilteredIter, whose loop has fuel.
  abbrev pub or_next :
      (Reference → Bool) → Option (Turn I) → (I → Option (Turn I)) → Option (Turn I)
  or_next ff none again = none
  or_next ff (some (failed s e)) again = some (failed s e)
  or_next ff (some (yielded s r)) again = if ff r then some (yielded s r) else again s

  unfoldable pub next_filtered : ℕ → (Reference → Bool) → I → Option (Turn I)
  next_filtered zero ff s = none
  next_filtered (suc fuel) ff s = or_next ff (it.next s) (λ t. next_filtered fuel ff t)

  unfoldable pub filtered_iter : ℕ → (Reference → Bool) → ReferenceIter I
  filtered_iter fuel ff = record { next = next_filtered fuel ff; close = it.close }

  -- MultiReferenceIter.
  abbrev pub or_drop : List I → Option (Turn I) → Option (Turn (List I)) → Option (Turn (List I))
  or_drop is none rest = none
  or_drop is (some (failed i eof)) rest = rest
  or_drop is (some (failed i err_stop)) rest = some (failed (i ∷ is) err_stop)
  or_drop is (some (failed i (other n))) rest = some (failed (i ∷ is) (other n))
  or_drop is (some (yielded i r)) rest = some (yielded (i ∷ is) r)

  unfoldable pub next_multi : List I → Option (Turn (List I))
  next_multi [] = some (failed [] eof)
  next_multi (i ∷ is) = or_drop is (it.next i) (next_multi is)

  unfoldable pub close_all : List I → List I
  close_all [] = []
  close_all (i ∷ is) = it.close i ∷ close_all is

  unfoldable pub multi_iter : ReferenceIter (List I)
  multi_iter = record { next = next_multi; close = close_all }

  -- `forEachReferenceIter`: the callback keeps a state and returns an error, `none` for nil.
  module _ {C : Type 0} (cb : C → Reference → C × Option IterError) where
    abbrev after_callback :
        I → C × Option IterError → (I → C → Option (Visited I C)) → Option (Visited I C)
    after_callback s (c, none) again = again s c
    after_callback s (c, some e) again =
        some (record { callback = c; iter = it.close s; error = unless_stop e })

    abbrev after_next : C → Option (Turn I) → (I → C → Option (Visited I C)) → Option (Visited I C)
    after_next c none again = none
    after_next c (some (failed s e)) again =
        some (record { callback = c; iter = it.close s; error = unless_eof e })
    after_next c (some (yielded s r)) again = after_callback s (cb c r) again

    unfoldable pub for_each : ℕ → I → C → Option (Visited I C)
    for_each zero s c = none
    for_each (suc fuel) s c = after_next c (it.next s) (λ t d. for_each fuel t d)
