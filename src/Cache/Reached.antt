-- ===== src/Cache/Reached.antt =====
-- Any sequence of calls, on a cache and on a plain list of objects.
use go_git.Prelude.{ℕ, ◌^◌, ◌≤◌, ◌<◌, ◌≡◌, refl, ap, ◌∙◌, arith, List, [], map, Option, none, some}
use go_git.Prelude.Text.{Bytes}
use go_git.Cache.{Object, ObjectLru, new_object_lru, put, get, get_at, element, clear}
use go_git.Cache.Keep.{total, find}
use go_git.Cache.IsValid.{view, TableT, ValidAt, IsValid}
use go_git.Cache.Put.{put_front, put-IsValid}
use go_git.Cache.Get.{get_front, get-IsValid, clear-IsValid}

-- A cache of a maximum size, and the list that the same calls make of the empty one. No object is
-- of 2^62 bytes or more.
pub data Run (max : ℕ) : ObjectLru → List Object → Type 0 where
  start : Run max (new_object_lru max) []
  put_step :
      (obj : Object) (c : ObjectLru) (xs : List Object)
      → obj.size < 2 ^ 62
      → Run max c xs
      → Run max (put obj c) (put_front max obj xs)
  get_step :
      (h : Bytes) (c : ObjectLru) (xs : List Object)
      → Run max c xs
      → Run max (get h c).1 (get_front h xs)
  clear_step : (c : ObjectLru) (xs : List Object) → Run max c xs → Run max (clear c) []

start-IsValid : (max : ℕ) → max < 2 ^ 62 → IsValid (new_object_lru max)
unfolding new_object_lru
start-IsValid max small = record { small = small; at_table = (refl, refl) }

start_view : (max : ℕ) → (view (new_object_lru max) ≡ []) × ((new_object_lru max).max_size ≡ max)
unfolding new_object_lru
start_view max = (refl, refl)

get_max : (h : Bytes) (c : ObjectLru) → (get h c).1.max_size ≡ c.max_size
unfolding get get_at
get_max h c = at_max (element c.cache h)
  where
    at_max : (o : Option ℕ) → (get_at c o).1.max_size ≡ c.max_size
    at_max none = refl
    at_max (some i) = refl

clear_max : (c : ObjectLru) → (clear c).max_size ≡ c.max_size
unfolding clear
clear_max c = refl

Run-IsValid :
    (max : ℕ) (c : ObjectLru) (xs : List Object)
    → max < 2 ^ 62
    → Run max c xs
    → IsValid c × (view c ≡ xs) × (c.max_size ≡ max)
Run-IsValid max _ _ small start = (start-IsValid max small, (start_view max).0, (start_view max).1)
Run-IsValid max _ _ small (put_step obj c xs small_obj run) =
    let (valid, viewed, bound) = Run-IsValid max c xs small run in
    let (valid', viewed', bound') = put-IsValid obj c valid small_obj in
    (
      valid',
      viewed' ∙ ap (λ t. put_front c.max_size obj t) viewed ∙ ap (λ m. put_front m obj xs) bound,
      bound' ∙ bound,
    )
Run-IsValid max _ _ small (get_step h c xs run) =
    let (valid, viewed, bound) = Run-IsValid max c xs small run in
    let (found, valid', viewed') = get-IsValid h c valid in
    (valid', viewed' ∙ ap (get_front h) viewed, get_max h c ∙ bound)
Run-IsValid max _ _ small (clear_step c xs run) =
    let (valid, viewed, bound) = Run-IsValid max c xs small run in
    let (valid', viewed') = clear-IsValid c valid in (valid', viewed', clear_max c ∙ bound)

-- A valid cache keeps the size of its objects, within its maximum.
valid_size :
    (c : ObjectLru) (o : Option TableT)
    → ValidAt c o
    → (c.actual_size ≡ total (view c)) × (total (view c) ≤ c.max_size)
unfolding total
valid_size c none (empty, zero_size) =
    let nothing : total (view c) ≡ 0 = ap (λ t. total (map c.values t)) empty in
    (omega arith, omega arith)
valid_size c (some table) (linked, sized, fits) = (sized, fits)

-- After any calls of Put, Get and Clear on a new cache whose maximum is below 2^62, with objects
-- below 2^62 bytes, the cache holds, the most recent first, the objects that the same calls leave
-- in a plain list; its size is their sum and within the maximum, and Get finds under any hash what
-- the list has under it.
pub Run-view :
    (max : ℕ) (c : ObjectLru) (xs : List Object) (h : Bytes)
    → max < 2 ^ 62
    → Run max c xs
    → (view c ≡ xs) × (c.actual_size ≡ total xs) × (total xs ≤ max) × ((get h c).0 ≡ find h xs)
Run-view max c xs h small run =
    let (valid, viewed, bound) = Run-IsValid max c xs small run in
    let (sized, fits) = valid_size c c.cache valid.at_table in
    (
      viewed,
      sized ∙ ap total viewed,
      omega (arith, ap total viewed),
      (get-IsValid h c valid).0 ∙ ap (find h) viewed,
    )
