-- ===== src/Router/Table.antt =====
-- `syncedRoutesTable` of internal/router/table.go: a map and a list of the same entries, evicted by a
-- second-chance scan. An entry of the list is its key with a `Slot`; since a key is never changed,
-- the map's pointer to an element is the element's key, and the map is the list of its keys.
mod Lookups
pub mod Evict
pub mod Set
use spaceship.Base.{
  ℕ, zero, suc, ◌+◌, Bool, true, false, ◌||◌, List, [], ◌∷◌, Option, none, some, Bytes, same,
  lookup, insert, remove, length, leb, ◌==◌, if◌then◌else◌,
}
use spaceship.Router.Egress.{Egress}

pub record Slot : Type 0 where
  pub egress : Egress
  pub referenced : Bool

pub record RoutesTable : Type 0 where
  pub cache : List Bytes
  pub lru_list : List (Bytes × Slot)
  pub max_size : ℕ

abbrev pub max_cache_size : ℕ
max_cache_size = 10000

unfoldable pub new_synced_routes_table : ℕ → RoutesTable
new_synced_routes_table max_size = record {
  cache = [];
  lru_list = [];
  max_size = if max_size == 0 then max_cache_size else max_size;
}

unfoldable pub member : Bytes → List Bytes → Bool
member k [] = false
member k (j ∷ js) = same j k || member k js

unfoldable pub delete : Bytes → List Bytes → List Bytes
delete k [] = []
delete k (j ∷ js) = let rest = delete k js in if same j k then rest else j ∷ rest

-- `List.Back`, with the list in front of it
unfoldable pub back {ℓ} : {A : Type ℓ} → List A → Option (List A × A)
back [] = none
back (x ∷ xs) = elim (back xs) [ none ↦ some ([], x) | some (front, y) ↦ some (x ∷ front, y) ]

abbrev pub unreferenced : Slot → Slot
unreferenced s = record s { referenced = false }

-- The eviction loop: a referenced entry at the back moves to the front with its bit cleared, and
-- the first other entry is removed from both structures. One unit of fuel is one round.
unfoldable pub evict : ℕ → RoutesTable → RoutesTable
evict zero t = t
evict (suc fuel) t = elim (back t.lru_list) [
  | none ↦ t
  | some (front, e) ↦ elim e.1.referenced [
    | true ↦ evict fuel (record t { lru_list = (e.0, unreferenced e.1) ∷ front })
    | false ↦ record t { cache = delete e.0 t.cache; lru_list = front }
  ]
]

-- `MoveToFront`, with the new egress
unfoldable pub move_to_front : Bytes → Egress → List (Bytes × Slot) → List (Bytes × Slot)
move_to_front k egress l = elim (lookup k l) [
  | none ↦ l
  | some s ↦ (k, record s { egress = egress }) ∷ remove k l
]

-- A round of the loop clears a bit or ends the loop, so one round more than there are entries is
-- fuel enough.
unfoldable pub make_room : RoutesTable → RoutesTable
make_room t = if leb t.max_size (length t.lru_list) then evict (length t.lru_list + 1) t else t

unfoldable pub add_new : RoutesTable → Bytes → Egress → RoutesTable
add_new t k egress = record t {
  cache = k ∷ t.cache;
  lru_list = (k, record { egress = egress; referenced = false }) ∷ t.lru_list;
}

unfoldable pub set : RoutesTable → Bytes → Egress → RoutesTable
set t k egress =
    if member k t.cache
    then record t { lru_list = move_to_front k egress t.lru_list }
    else add_new (make_room t) k egress

-- The result is the egress and whether the key was found, with the entry's bit set.
unfoldable pub get : RoutesTable → Bytes → RoutesTable × Option Egress
get t k =
    if member k t.cache
    then (elim (lookup k t.lru_list) [
      | none ↦ (t, none)
      | some s ↦ (
        record t { lru_list = insert k (record s { referenced = true }) t.lru_list },
        some s.egress,
      )
    ])
    else (t, none)

unfoldable pub reset : RoutesTable → RoutesTable
reset t = record t { cache = []; lru_list = [] }
