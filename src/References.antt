-- ===== src/References.antt =====
-- The stores of references: plumbing/storer/reference.go, storage/memory/storage.go and
-- storage/transactional/reference.go, over the type Reference of plumbing/reference.go.
-- A map from names to references is the list of its references, at most one to a name.
pub mod Memory
pub mod Transaction
pub mod Commit
pub mod Iter
pub mod Iterators
pub mod Resolve
mod Examples
use go_git.Prelude.{ℕ, ◌≡◌, List, [], ◌∷◌, Bool, if◌then◌else◌, Option, none, some}
use go_git.Prelude.Text.{Bytes, codes, cut_prefix, same}

pub data ReferenceType : Type 0 where
  invalid_reference : ReferenceType
  hash_reference : ReferenceType
  symbolic_reference : ReferenceType

pub record Reference : Type 0 where
  pub kind : ReferenceType
  pub name : Bytes
  pub hash : Bytes
  pub target : Bytes

-- The hash is the zero hash, without bytes, in a symbolic reference.
unfoldable pub new_symbolic_reference : Bytes → Bytes → Reference
new_symbolic_reference n target = record {
  kind = symbolic_reference;
  name = n;
  hash = [];
  target = target;
}

unfoldable pub new_hash_reference : Bytes → Bytes → Reference
new_hash_reference n h = record { kind = hash_reference; name = n; hash = h; target = [] }

pub data Error : Type 0 where
  reference_not_found : Error
  reference_has_changed : Error
  max_resolve_recursion : Error

-- The last reference of a list with a name: what a map holds once the list went into it.
unfoldable pub find_last : Bytes → List Reference → Option Reference
find_last n [] = none
find_last n (r ∷ rs) = later (find_last n rs)
  where
    later : Option Reference → Option Reference
    later none = if same r.name n then some r else none
    later (some found) = some found

-- A ReferenceStorer whose operations do not fail, but for a name that is not there. The laws
-- are what a client may rely on.
pub record ReferenceStorer (S : Type 0) : Type 0 where
  pub set_reference : Reference → S → S
  pub reference : S → Bytes → Option Reference
  pub iter_references : S → List Reference
  pub remove_reference : Bytes → S → S
  pub reference-set :
      (r : Reference) (s : S) (n : Bytes)
      → reference (set_reference r s) n ≡ (if same r.name n then some r else reference s n)
  pub reference-remove :
      (m : Bytes) (s : S) (n : Bytes)
      → reference (remove_reference m s) n ≡ (if same m n then none else reference s n)
  pub find_last-iter : (s : S) (n : Bytes) → find_last n (iter_references s) ≡ reference s n
