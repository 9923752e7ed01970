-- ===== src/Router/Table/Set.antt =====
-- `Set` and `Get`: the invariant of the table, and what can be read of it.
use spaceship.Base.{
  ℕ, ◌+◌, ◌≤◌, ◌<◌, ◌≢◌, ◌⊎◌, inl, inr, Bool, true, false, List, [], ◌∷◌, Option, none, some, ◌≡◌,
  refl, arith, Bytes, same, same_iff, same_refl, lookup, insert, IsMap, length, leb, lookup-insert,
  lookup-remove, insert-IsMap, remove-IsMap, length-remove, Bool-cases, Option-cases, if◌then◌else◌,
}
use spaceship.Router.Egress.{Egress}
use spaceship.Router.Table.Evict.{egress_at, marks-le-length, Evicts, evict-Evicts}
use spaceship.Router.Table.Lookups.{member-delete}
use spaceship.Router.Table.{
  RoutesTable, Slot, new_synced_routes_table, member, evict, move_to_front, make_room, add_new, set,
  get, reset,
}

abbrev pub is_some : Option Slot → Bool
is_some none = false
is_some (some s) = true

-- The map and the list hold the same keys, each once, and no more than the table may hold.
pub record IsValid (t : RoutesTable) : Type 0 where
  pub is_map : IsMap t.lru_list
  pub agree : (k : Bytes) → member k t.cache ≡ is_some (lookup k t.lru_list)
  pub bounded : length t.lru_list ≤ t.max_size
  pub positive : 0 < t.max_size

pub new-IsValid : (n : ℕ) → IsValid (new_synced_routes_table n)
unfolding new_synced_routes_table member lookup
new-IsValid n = record {
  is_map = tt;
  agree = λ k. refl;
  bounded = omega arith;
  positive = ground arith;
}

pub reset-IsValid : (t : RoutesTable) → IsValid t → IsValid (reset t)
unfolding reset member lookup
reset-IsValid t v = record {
  is_map = tt;
  agree = λ k. refl;
  bounded = omega arith;
  positive = v.positive;
}

-- A table with a free place, in which other keys read as before or not at all.
record HasRoom (t t' : RoutesTable) : Type 0 where
  is_map : IsMap t'.lru_list
  agree : (k : Bytes) → member k t'.cache ≡ is_some (lookup k t'.lru_list)
  room : length t'.lru_list < t.max_size
  max_size : t'.max_size ≡ t.max_size
  kept :
      (k : Bytes)
      → (egress_at k t'.lru_list ≡ egress_at k t.lru_list) ⊎ (egress_at k t'.lru_list ≡ none)
  absent : (k : Bytes) → lookup k t.lru_list ≡ none → lookup k t'.lru_list ≡ none

Evicts-HasRoom :
    (t t' : RoutesTable) (victim : Bytes) → IsValid t → Evicts t t' victim → HasRoom t t'
unfolding egress_at
Evicts-HasRoom t t' victim v e = record {
  is_map = e.is_map;
  agree = λ k. rw e.cache (
      ground
        (arith, member-delete victim k t.cache, same_iff victim k, v.agree k, e.gone, e.kept k));
  room = omega (arith, e.size, v.bounded);
  max_size = e.max_size;
  kept = λ k. elim (Bool-cases (same victim k)) [
    | inl at ↦ inr (ground (arith, same_iff victim k, e.gone))
    | inr other ↦ inl (e.kept k other)
  ];
  absent = λ k h. elim (Bool-cases (same victim k)) [
    | inl at ↦ ground (arith, same_iff victim k, e.gone)
    | inr other ↦ ground (arith, e.kept k other)
  ];
}

make_room-HasRoom : (t : RoutesTable) → IsValid t → HasRoom t (make_room t)
unfolding make_room
make_room-HasRoom t v = elim (Bool-cases (leb t.max_size (length t.lru_list))) [
  | inr free ↦ rw free (record {
    is_map = v.is_map;
    agree = v.agree;
    room = ground arith;
    max_size = refl;
    kept = λ k. inl refl;
    absent = λ k h. h;
  })
  | inl full ↦
      let nonempty : t.lru_list ≢ [] = λ z. ground (arith, v.positive, z) in
      let (victim, e) =
        evict-Evicts (length t.lru_list + 1) t (omega (arith, marks-le-length t.lru_list)) nonempty
          v.is_map in
      rw full (Evicts-HasRoom t (evict (length t.lru_list + 1) t) victim v e)
]

lookup-move_to_front :
    (k j : Bytes) (egress : Egress) (l : List (Bytes × Slot)) (s : Slot)
    → lookup k l ≡ some s
    → lookup j (move_to_front k egress l)
      ≡ (if same k j then some (record s { egress = egress }) else lookup j l)
unfolding move_to_front lookup
lookup-move_to_front k j egress l s h = ground (arith, lookup-remove k j l, same_iff k j)

move_to_front-IsMap :
    (k : Bytes) (egress : Egress) (l : List (Bytes × Slot))
    → IsMap l
    → IsMap (move_to_front k egress l)
unfolding move_to_front
move_to_front-IsMap k egress l d = elim (Option-cases (lookup k l)) [
  | inl absent ↦ rw (absent, move_to_front) d
  | inr (s, present) ↦
      rw (present, move_to_front)
        (ground (arith, lookup-remove k k l, same_refl k), remove-IsMap k l d)
]

length-move_to_front :
    (k : Bytes) (egress : Egress) (l : List (Bytes × Slot))
    → IsMap l
    → length (move_to_front k egress l) ≡ length l
unfolding move_to_front
length-move_to_front k egress l d = elim (Option-cases (lookup k l)) [
  | inl absent ↦ rw (absent, move_to_front)
  | inr (s, present) ↦ rw (present, move_to_front) (omega (arith, length-remove k l s d present))
]

-- What `Set` leaves to be read.
pub record Sets (t : RoutesTable) (k : Bytes) (egress : Egress) (t' : RoutesTable) : Type 0 where
  pub valid : IsValid t'
  pub stored : egress_at k t'.lru_list ≡ some egress
  pub others :
      (j : Bytes)
      → same k j ≡ false
      → (egress_at j t'.lru_list ≡ egress_at j t.lru_list) ⊎ (egress_at j t'.lru_list ≡ none)

update-Sets :
    (t : RoutesTable) (k : Bytes) (egress : Egress)
    → IsValid t
    → (s : Slot) → lookup k t.lru_list ≡ some s
    → Sets t k egress (record t { lru_list = move_to_front k egress t.lru_list })
update-Sets t k egress v s present =
    let reads = λ (j : Bytes). lookup-move_to_front k j egress t.lru_list s present in
    record {
      valid = record {
        is_map = move_to_front-IsMap k egress t.lru_list v.is_map;
        agree = λ j. ground (arith, reads j, v.agree j, same_iff k j);
        bounded = omega (arith, length-move_to_front k egress t.lru_list v.is_map, v.bounded);
        positive = v.positive;
      };
      stored = unfold egress_at in ground (arith, reads k, same_refl k);
      others = λ j ne. inl (unfold egress_at in ground (arith, reads j));
    }

add_new-Sets :
    (t r : RoutesTable) (k : Bytes) (egress : Egress)
    → IsValid t
    → lookup k t.lru_list ≡ none
    → HasRoom t r
    → Sets t k egress (add_new r k egress)
unfolding add_new member egress_at lookup
add_new-Sets t r k egress v absent h = record {
  valid = record {
    is_map = (h.absent k absent, h.is_map);
    agree = λ j. ground (arith, h.agree j);
    bounded = omega (arith, h.room, h.max_size);
    positive = omega (arith, v.positive, h.max_size);
  };
  stored = ground (arith, same_refl k);
  others = λ j ne. unfold egress_at in rw ne (h.kept j);
}

-- On a table in which the map and the list agree and that is within its size, `Set` keeps that so,
-- evicting or not; the key then reads as the egress that was set, and every other key reads as
-- before or as absent, never as another egress.
pub set-Sets :
    (t : RoutesTable) (k : Bytes) (egress : Egress) → IsValid t → Sets t k egress (set t k egress)
unfolding set
set-Sets t k egress v = elim (Option-cases (lookup k t.lru_list)) [
  | inr (s, present) ↦
      let known : member k t.cache ≡ true = ground (arith, v.agree k) in
      rw known (update-Sets t k egress v s present)
  | inl absent ↦
      let new : member k t.cache ≡ false = ground (arith, v.agree k) in
      rw new (add_new-Sets t (make_room t) k egress v absent (make_room-HasRoom t v))
]

-- What `Get` returns and leaves to be read.
pub record Gets (t : RoutesTable) (k : Bytes) (r : RoutesTable × Option Egress) : Type 0 where
  pub valid : IsValid r.0
  pub result : r.1 ≡ egress_at k t.lru_list
  pub reads : (j : Bytes) → egress_at j r.0.lru_list ≡ egress_at j t.lru_list

length-insert_known :
    (k : Bytes) (v : Slot) (m : List (Bytes × Slot)) (s : Slot)
    → lookup k m ≡ some s
    → length (insert k v m) ≡ length m
unfolding lookup insert
length-insert_known k v [] s h = cc
length-insert_known k v ((i, w) ∷ m) s h = ground (arith, length-insert_known k v m s)

-- On a table in which the map and the list agree and that is within its size, `Get` keeps that so,
-- returns the egress that the list holds for the key, or none, and changes no egress, so that
-- every key reads as before.
pub get-Gets : (t : RoutesTable) (k : Bytes) → IsValid t → Gets t k (get t k)
unfolding get egress_at
get-Gets t k v = elim (Option-cases (lookup k t.lru_list)) [
  | inl absent ↦
      let new : member k t.cache ≡ false = ground (arith, v.agree k) in
      rw new (record { valid = v; result = ground (arith, absent); reads = λ j. refl })
  | inr (s, present) ↦
      let known : member k t.cache ≡ true = ground (arith, v.agree k) in
      let hot = record s { referenced = true } in
      let reads = λ (j : Bytes). lookup-insert k j hot t.lru_list in
      rw (known, present, get)
        (record {
          valid = record {
            is_map = insert-IsMap k hot t.lru_list v.is_map;
            agree = λ j. ground (arith, reads j, v.agree j, same_iff k j);
            bounded = omega (arith, length-insert_known k hot t.lru_list s present, v.bounded);
            positive = v.positive;
          };
          result = ground (arith, present);
          reads = λ j. ground (arith, reads j, same_iff k j);
        })
]
