-- ===== src/Cache.antt =====
-- plumbing/cache/object_lru.go: objects kept by their hash, the least recent dropped first.
-- An element of Go's container/list is the number by which `values` holds its Value, so that the
-- list and the map share it; a FileSize is an int64 as the residue that its bits are.
pub mod Keep
pub mod Names
pub mod IsValid
pub mod Linked
pub mod Evict
pub mod Put
pub mod Get
pub mod Reached
mod Examples
use go_git.Prelude.{
  ℕ, zero, suc, ◌+◌, ◌-◌, ◌%◌, ◌^◌, List, [], ◌∷◌, Bool, true, false, ltb, ◌==◌, if◌then◌else◌,
  length, map, Option, none, some,
}
use go_git.Prelude.Text.{Bytes, same}

pub record Object : Type 0 where
  pub hash : Bytes
  pub size : ℕ
  pub content : Bytes

pub record ObjectLru : Type 0 where
  pub max_size : ℕ
  pub actual_size : ℕ
  pub ll : List ℕ
  pub cache : Option (Bytes → Option ℕ)
  pub values : ℕ → Object
  pub next : ℕ

-- 96 MiByte
abbrev pub default_max_size : ℕ
default_max_size = 100663296

-- int64 in 64 bits: `+`, `-` and `>`.
abbrev pub add64 : ℕ → ℕ → ℕ
add64 a b = (a + b) % 2 ^ 64

abbrev pub sub64 : ℕ → ℕ → ℕ
sub64 a b = (a + 2 ^ 64 - b) % 2 ^ 64

abbrev pub gt64 : ℕ → ℕ → Bool
gt64 a b = ltb ((b + 2 ^ 63) % 2 ^ 64) ((a + 2 ^ 63) % 2 ^ 64)

-- Maps as functions: an element's Value, and the element under a hash.
abbrev pub set_value : (ℕ → Object) → ℕ → Object → ℕ → Object
set_value values i obj j = if i == j then obj else values j

abbrev pub set_element : (Bytes → Option ℕ) → Bytes → Option ℕ → Bytes → Option ℕ
set_element cache h o k = if same h k then o else cache k

-- The list without an element, and its last one with those before it.
pub remove : ℕ → List ℕ → List ℕ
remove i [] = []
remove i (j ∷ js) = let rest = remove i js in if i == j then rest else j ∷ rest

pub with_first : ℕ → Option (List ℕ × ℕ) → Option (List ℕ × ℕ)
with_first j none = some ([], j)
with_first j (some (js, last)) = some (j ∷ js, last)

pub back : List ℕ → Option (List ℕ × ℕ)
back [] = none
back (j ∷ js) = with_first j (back js)

unfoldable pub new_object_lru : ℕ → ObjectLru
new_object_lru max_size = record {
  max_size = max_size;
  actual_size = 0;
  ll = [];
  cache = none;
  values = λ _. record { hash = []; size = 0; content = [] };
  next = 0;
}

unfoldable pub new_object_lru_default : ObjectLru
new_object_lru_default = new_object_lru default_max_size

-- The loop of `Put`, with the map that is not nil.
unfoldable pub evict_back :
    (ObjectLru → (Bytes → Option ℕ) → ObjectLru)
    → ObjectLru
    → (Bytes → Option ℕ)
    → Option (List ℕ × ℕ)
    → ObjectLru
evict_back again c cache none = record c { actual_size = 0; cache = some cache }
evict_back again c cache (some (rest, last)) =
    let last_obj = c.values last in
    again (record c { ll = rest; actual_size = sub64 c.actual_size last_obj.size })
      (set_element cache last_obj.hash none)

-- A round takes an element off the list, or is the last.
unfoldable pub evict : ℕ → ObjectLru → (Bytes → Option ℕ) → ObjectLru
evict zero c cache = record c { cache = some cache }
evict (suc fuel) c cache =
    let more = evict_back (evict fuel) c cache (back c.ll) in
    if gt64 c.actual_size c.max_size then more else record c { cache = some cache }

unfoldable pub put_sized : ObjectLru → (Bytes → Option ℕ) → ℕ → ObjectLru
put_sized c cache obj_size =
    evict (suc (length c.ll)) (record c { actual_size = add64 c.actual_size obj_size }) cache

unfoldable pub put_at : Object → ObjectLru → (Bytes → Option ℕ) → Option ℕ → ObjectLru
put_at obj c cache (some ee) =
    put_sized (record c { ll = ee ∷ remove ee c.ll; values = set_value c.values ee obj }) cache
      (sub64 obj.size (c.values ee).size)
put_at obj c cache none =
    if gt64 obj.size c.max_size
    then record c { cache = some cache }
    else put_sized
        (record c { ll = c.next ∷ c.ll; values = set_value c.values c.next obj; next = suc c.next })
        (set_element cache obj.hash (some c.next)) obj.size

unfoldable pub put_open : Object → ObjectLru → Option (Bytes → Option ℕ) → ObjectLru
put_open obj c none = put_at obj (record c { actual_size = 0; ll = [] }) (λ _. none) none
put_open obj c (some cache) = put_at obj c cache (cache obj.hash)

unfoldable pub put : Object → ObjectLru → ObjectLru
put obj c = put_open obj c c.cache

unfoldable pub get_at : ObjectLru → Option ℕ → Option Object × ObjectLru
get_at c none = (none, c)
get_at c (some ee) = (some (c.values ee), record c { ll = ee ∷ remove ee c.ll })

-- A nil map has no elements.
unfoldable pub element : Option (Bytes → Option ℕ) → Bytes → Option ℕ
element none k = none
element (some cache) k = cache k

unfoldable pub get : Bytes → ObjectLru → Option Object × ObjectLru
get k c = get_at c (element c.cache k)

unfoldable pub clear : ObjectLru → ObjectLru
clear c = record c { ll = []; cache = none; actual_size = 0 }
