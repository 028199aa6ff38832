-- ===== src/References/Iterators/Examples.antt =====
-- Runs of the iterators over references, and the theorems at concrete inputs.
use go_git.Prelude.{ℕ, zero, suc, ◌≡◌, refl, arith, List, [], ◌∷◌, Bool, Option, none, some}
use go_git.Prelude.Text.{codes}
use go_git.Prelude.Partial.{get_elem?}
use go_git.References.{hash_reference, symbolic_reference, Reference}
use go_git.References.Resolve.{is_symbolic}
use go_git.References.Iterators.{
  IterError, Visited, ReferenceSliceIter, eof, err_stop, new_reference_slice_iter, next_slice,
  slice_iter, filtered_iter, next_multi, multi_iter, for_each,
}
use go_git.References.Iterators.Runs.{
  Yields, ends, keep, Done, for_each-Visits, filtered_iter-Yields, slice_iter-Yields,
}

abbrev main : Reference
main = record { kind = hash_reference; name = codes "refs/heads/main"; hash = 1 ∷ []; target = [] }

abbrev head : Reference
head = record { kind = symbolic_reference; name = codes "HEAD"; hash = []; target = main.name }

abbrev tag : Reference
tag = record { kind = hash_reference; name = codes "refs/tags/v1"; hash = 2 ∷ []; target = [] }

abbrev series : List Reference
series = head ∷ main ∷ tag ∷ []

-- Only the references that are symbolic.
abbrev symbolic : Reference → Bool
symbolic r = is_symbolic r.kind

-- Counts the references and stops at the second.
abbrev count_two : ℕ → Reference → ℕ × Option IterError
count_two zero r = (1, none)
count_two (suc n) r = (suc (suc n), some err_stop)

filtered_iter-Yields_example :
    Yields
      (filtered_iter slice_iter 4 symbolic)
      (new_reference_slice_iter series)
      (keep symbolic series)
      eof
filtered_iter-Yields_example =
    filtered_iter-Yields slice_iter symbolic 4 (new_reference_slice_iter series) series eof
      (slice_iter-Yields series) (omega arith)

for_each-Visits_example :
    Done slice_iter count_two 0 series eof
      (for_each slice_iter count_two 4 (new_reference_slice_iter series) 0)
for_each-Visits_example =
    for_each-Visits slice_iter count_two 4 (new_reference_slice_iter series) series eof 0
      (slice_iter-Yields series) (omega arith)

-- What ForEach leaves: the state of the callback and the error.
abbrev left_by : Option (Visited ReferenceSliceIter ℕ) → Option (ℕ × Option IterError)
left_by none = none
left_by (some v) = some (v.callback, v.error)

stopped :
    left_by (for_each slice_iter count_two 4 (new_reference_slice_iter series) 0) ≡ some (2, none)
unfolding for_each slice_iter next_slice new_reference_slice_iter get_elem?
stopped = refl

no_more : Yields (multi_iter slice_iter) [] [] eof
unfolding multi_iter next_multi
no_more = ends [] [] eof refl
