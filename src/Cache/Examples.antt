-- ===== src/Cache/Examples.antt =====
-- Runs of the object cache, and the theorems at concrete inputs.
use go_git.Prelude.{◌≤◌, ◌≡◌, refl, arith, [], ◌∷◌}
use go_git.Cache.{
  Object, ObjectLru, new_object_lru, put, put_open, put_at, put_sized, evict, evict_back, back,
  with_first, remove, get, get_at, element,
}
use go_git.Cache.Keep.{total, find}
use go_git.Cache.IsValid.{view}
use go_git.Cache.Put.{put_front}
use go_git.Cache.Reached.{Run, start, put_step, Run-view}

abbrev small : Object
small = record { hash = 1 ∷ []; size = 3; content = [] }

abbrev large : Object
large = record { hash = 2 ∷ []; size = 6; content = [] }

abbrev small_grown : Object
small_grown = record { hash = 1 ∷ []; size = 5; content = 9 ∷ [] }

abbrev both : ObjectLru
both = put large (put small (new_object_lru 10))

-- The larger object goes, although it was used last but one, since its room is taken.
grown : view (put small_grown (get (2 ∷ []) both).1) ≡ small_grown ∷ []
unfolding put put_open put_at put_sized evict evict_back back with_first remove get get_at element
    new_object_lru
grown = refl

-- Two objects are dropped for one.
two_dropped :
    view (put (record { hash = 3 ∷ []; size = 9; content = [] }) both)
    ≡ (record { hash = 3 ∷ []; size = 9; content = [] }) ∷ []
unfolding put put_open put_at put_sized evict evict_back back with_first remove new_object_lru
two_dropped = refl

both-Run : Run 10 both (put_front 10 large (put_front 10 small []))
both-Run =
    put_step large (put small (new_object_lru 10)) (put_front 10 small []) (omega arith)
      (put_step small (new_object_lru 10) [] (omega arith) start)

Run-view_example :
    (view both ≡ put_front 10 large (put_front 10 small []))
    × (both.actual_size ≡ total (put_front 10 large (put_front 10 small [])))
    × (total (put_front 10 large (put_front 10 small [])) ≤ 10)
    × ((get (2 ∷ []) both).0 ≡ find (2 ∷ []) (put_front 10 large (put_front 10 small [])))
Run-view_example =
    Run-view 10 both (put_front 10 large (put_front 10 small [])) (2 ∷ []) (omega arith) both-Run
