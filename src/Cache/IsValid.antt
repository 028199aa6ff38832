-- ===== src/Cache/IsValid.antt =====
-- What holds of a cache between two calls: the map and the list go together, and the size kept
-- is that of the list, within the maximum.
use go_git.Prelude.{ℕ, ◌^◌, ◌≤◌, ◌<◌, ◌≡◌, List, [], map, true, All, Option, none, some}
use go_git.Prelude.Text.{Bytes}
use go_git.Cache.{Object, ObjectLru}
use go_git.Cache.Keep.{total}
use go_git.Cache.Names.{has, Distinct}

-- The objects, the most recent first.
abbrev pub view : ObjectLru → List Object
view c = map c.values c.ll

abbrev pub TableT : Type 0
TableT = Bytes → Option ℕ

-- The map has exactly the elements of the list, each under the hash of its object.
pub record IsLinked (ll : List ℕ) (values : ℕ → Object) (table : TableT) (next : ℕ) : Type 0 where
  pub distinct : Distinct ll
  pub listed : (h : Bytes) (i : ℕ) → table h ≡ some i → has i ll ≡ true
  pub named : (h : Bytes) (i : ℕ) → table h ≡ some i → (values i).hash ≡ h
  pub mapped : (i : ℕ) → has i ll ≡ true → table (values i).hash ≡ some i
  pub below : All (λ i. i < next) ll

abbrev pub ValidAt : ObjectLru → Option TableT → Type 0
ValidAt c none = (c.ll ≡ []) × (c.actual_size ≡ 0)
ValidAt c (some table) =
    IsLinked c.ll c.values table c.next
    × (c.actual_size ≡ total (view c))
    × (total (view c) ≤ c.max_size)

pub record IsValid (c : ObjectLru) : Type 0 where
  pub small : c.max_size < 2 ^ 62
  pub at_table : ValidAt c c.cache
