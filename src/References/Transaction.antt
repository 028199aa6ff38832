-- ===== src/References/Transaction.antt =====
-- storage/transactional/reference.go: changes kept apart from a base until they are committed.
-- The receivers that Go copies share their maps and stores, so each operation returns the state.
use go_git.Prelude.{
  ◌≡◌, List, [], ◌∷◌, Bool, true, false, ◌||◌, if◌then◌else◌, not, Option, none, some,
}
use go_git.Prelude.Text.{Bytes, same}
use go_git.Prelude.Result.{Result, ok, err}
use go_git.References.{
  Reference, ReferenceStorer, Error, reference_not_found, reference_has_changed,
}

-- The set of names `deleted` is a list.
unfoldable pub has_name : Bytes → List Bytes → Bool
has_name n [] = false
has_name n (d ∷ ds) = same d n || has_name n ds

unfoldable pub delete_name : Bytes → List Bytes → List Bytes
delete_name n [] = []
delete_name n (d ∷ ds) = let rest = delete_name n ds in if same d n then rest else d ∷ rest

pub record Storage (B T : Type 0) : Type 0 where
  pub base : B
  pub temporal : T
  pub deleted : List Bytes

-- The first that is there.
abbrev pub or_else : Option Reference → Option Reference → Option Reference
or_else none o = o
or_else (some r) o = some r

module _ {B T : Type 0} (bs : ReferenceStorer B) (ts : ReferenceStorer T) where
  unfoldable pub new_reference_storage : B → T → Storage B T
  new_reference_storage b t = record { base = b; temporal = t; deleted = [] }

  unfoldable pub set_reference : Reference → Storage B T → Storage B T
  set_reference ref r = record r {
    temporal = ts.set_reference ref r.temporal;
    deleted = delete_name ref.name r.deleted;
  }

  unfoldable pub check_value :
      Reference → Reference → Storage B T → Option Reference → Result Error (Storage B T)
  check_value ref old r none = err reference_not_found
  check_value ref old r (some tmp) =
      if not (same tmp.hash old.hash) then err reference_has_changed else ok (set_reference ref r)

  -- `CheckAndSetReference`, `none` for an `old` that is nil.
  unfoldable pub check_and_set_reference :
      Reference → Option Reference → Storage B T → Result Error (Storage B T)
  check_and_set_reference ref none r = ok (set_reference ref r)
  check_and_set_reference ref (some old) r =
      check_value ref old r
        (or_else (ts.reference r.temporal old.name) (bs.reference r.base old.name))

  unfoldable pub reference : Storage B T → Bytes → Option Reference
  reference r n =
      if has_name n r.deleted
      then none
      else or_else (ts.reference r.temporal n) (bs.reference r.base n)

  unfoldable pub remove_reference : Bytes → Storage B T → Storage B T
  remove_reference n r = record r {
    temporal = ts.remove_reference n r.temporal;
    deleted = n ∷ r.deleted;
  }

  -- The two loops of `Commit`, and `Commit` itself.
  unfoldable pub remove_all : List Bytes → B → B
  remove_all [] b = b
  remove_all (n ∷ ns) b = remove_all ns (bs.remove_reference n b)

  unfoldable pub set_all : List Reference → B → B
  set_all [] b = b
  set_all (ref ∷ refs) b = set_all refs (bs.set_reference ref b)

  unfoldable pub commit : Storage B T → Storage B T
  commit r = record r {
    base = set_all (ts.iter_references r.temporal) (remove_all r.deleted r.base);
  }

  -- No name is both deleted and in the temporal store.
  abbrev pub IsDisjoint : Storage B T → Type 0
  IsDisjoint r = (n : Bytes) → has_name n r.deleted ≡ true → ts.reference r.temporal n ≡ none
