-- ===== src/References/Examples.antt =====
-- Runs of the stores of references, and the theorems at concrete inputs.
use go_git.Prelude.{◌+◌, ◌≤◌, ℕ, ◌≡◌, refl, List, [], ◌∷◌, false, none, some, if◌then◌else◌}
use go_git.Prelude.Text.{codes, same}
use go_git.Prelude.Result.{ok, err}
use go_git.References.{
  hash_reference, symbolic_reference, Reference, new_symbolic_reference, reference_not_found,
  reference_has_changed,
}
use go_git.References.Memory.{
  memory, reference, remove_reference, check_and_set_reference, check_value,
}
use go_git.References.Memory
use go_git.References.Transaction
use go_git.References.Transaction.{
  Storage, new_reference_storage, commit, has_name, delete_name, or_else,
}
use go_git.References.Commit.{Reached-commit, reference-changed, set_step, remove_step, start}
use go_git.References.Iter.{gather, named, listed, named-iter_references}
use go_git.References.Iter
use go_git.References.Resolve.{
  resolve_reference, resolve_reference-Leads, Leads-resolve_reference, Leads, here, follow,
  is_symbolic, max_recursion, resolve_loop, found_then,
}

abbrev one : Reference
one = record { kind = hash_reference; name = codes "refs/heads/one"; hash = 1 ∷ []; target = [] }

abbrev two : Reference
two = record { kind = hash_reference; name = codes "refs/heads/two"; hash = 2 ∷ []; target = [] }

abbrev head : Reference
head = record { kind = symbolic_reference; name = codes "HEAD"; hash = []; target = one.name }

head_made : new_symbolic_reference (codes "HEAD") (codes "refs/heads/one") ≡ head
unfolding new_symbolic_reference
head_made = refl

abbrev refs : List Reference
refs = head ∷ one ∷ []

changed : check_and_set_reference (some one) (some two) refs ≡ err reference_has_changed
unfolding check_and_set_reference check_value reference
changed = refl

-- The value compared is the one under the name of the new reference, not of the old one.
compared_under_new_name :
    check_and_set_reference (some two) (some one) refs ≡ err reference_not_found
unfolding check_and_set_reference check_value reference
compared_under_new_name = refl

abbrev opened : Storage (List Reference) (List Reference)
opened = new_reference_storage memory memory refs []

abbrev removed : Storage (List Reference) (List Reference)
removed = Transaction.remove_reference memory memory one.name opened

abbrev replaced : Storage (List Reference) (List Reference)
replaced = Transaction.set_reference memory memory two removed

Reached-commit_example :
    memory.reference (commit memory memory replaced).base two.name
    ≡ Transaction.reference memory memory replaced two.name
Reached-commit_example =
    Reached-commit memory memory refs [] replaced two.name
      (set_step two removed (remove_step one.name opened start))

reference-changed_example :
    (Transaction.reference memory memory
        (Transaction.set_reference memory memory one removed)
        one.name
      ≡ (if same one.name one.name
          then some one
          else Transaction.reference memory memory removed one.name))
    × (Transaction.reference memory memory
          (Transaction.remove_reference memory memory one.name removed)
          one.name
        ≡ (if same one.name one.name
            then none
            else Transaction.reference memory memory removed one.name))
reference-changed_example = reference-changed memory memory one one.name one.name removed

head-Leads : Leads memory refs 1 head one
unfolding memory reference
head-Leads = follow 0 head one one refl refl (here one refl)

head_found : memory.reference refs head.name ≡ some head
unfolding memory reference
head_found = refl

resolve_reference-Leads_example : resolve_reference memory refs head.name ≡ ok one
resolve_reference-Leads_example =
    resolve_reference-Leads memory refs head.name 1 head one head_found head-Leads

head_resolved : resolve_reference memory refs head.name ≡ ok one
unfolding memory reference resolve_reference found_then resolve_loop
head_resolved = refl

Leads-resolve_reference_example :
    (is_symbolic one.kind ≡ false)
    × ((r : Reference) × (memory.reference refs head.name ≡ some r)
        × ((k : ℕ) × (k ≤ max_recursion + 1) × Leads memory refs k r one))
Leads-resolve_reference_example = Leads-resolve_reference memory refs head.name one head_resolved

-- CheckAndSetReference of a transaction compares with the value in the base, although Reference no
-- longer finds it.
removed_yet_compared :
    (Transaction.reference memory memory removed one.name ≡ none)
    × (Transaction.check_and_set_reference memory memory two (some one) removed
        ≡ ok (Transaction.set_reference memory memory two removed))
unfolding Transaction.reference Transaction.remove_reference new_reference_storage has_name
    Transaction.check_and_set_reference Transaction.check_value memory reference remove_reference
removed_yet_compared = (refl, refl)

-- The base holds an older value under the name of `two`.
abbrev older : Reference
older = record { kind = hash_reference; name = two.name; hash = 9 ∷ []; target = [] }

abbrev over_older : Storage (List Reference) (List Reference)
over_older = record { base = older ∷ refs; temporal = two ∷ []; deleted = one.name ∷ [] }

temporal_two_once :
    named two.name (memory.iter_references over_older.temporal)
    ≡ listed (memory.reference over_older.temporal two.name)
unfolding named memory Memory.iter_references reference
temporal_two_once = refl

base_two_once :
    named two.name (memory.iter_references over_older.base)
    ≡ listed (memory.reference over_older.base two.name)
unfolding named memory Memory.iter_references reference
base_two_once = refl

named-iter_references_example :
    named two.name (Iter.iter_references memory memory over_older)
    ≡ listed (Transaction.reference memory memory over_older two.name)
named-iter_references_example =
    named-iter_references memory memory over_older two.name temporal_two_once base_two_once

all_iterated : Iter.iter_references memory memory over_older ≡ head ∷ two ∷ []
unfolding Iter.iter_references gather has_name memory Memory.iter_references
all_iterated = refl
