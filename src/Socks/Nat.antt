-- ===== src/Socks/Nat.antt =====
-- `natTable` of internal/socks/udp.go. An entry is a pointer in the source: `id` is its identity,
-- and `last_seen` is the value of its atomic field. Each method holds the table's mutex throughout.
pub mod Install
use spaceship.Base.{
  ℕ, Bool, true, false, ◌&&◌, List, [], ◌∷◌, map, Option, none, some, Bytes, lookup, insert, remove,
  length, ltb, leb, ◌==◌, if◌then◌else◌,
}

pub record Entry : Type 0 where
  pub id : ℕ
  pub target : Bytes
  pub last_seen : ℕ

abbrev pub Table : Type 0
Table = List (Bytes × Entry)

unfoldable pub load : Table → Bytes → Option Entry
load t key = lookup key t

unfoldable pub store : Table → Bytes → Entry → Table
store t key entry = insert key entry t

-- The loop of `Install` over the table: a strictly older entry replaces the candidate.
unfoldable pub oldest_from : Option (Bytes × Entry) → Table → Option (Bytes × Entry)
oldest_from best [] = best
oldest_from none (e ∷ t) = oldest_from (some e) t
oldest_from (some best) (e ∷ t) =
    oldest_from (some (if ltb e.1.last_seen best.1.last_seen then e else best)) t

pub record Installed : Type 0 where
  pub table : Table
  pub actual : Entry
  pub evicted : Option Entry
  pub installed : Bool

-- The eviction: the table without the oldest entry, and that entry.
unfoldable pub make_room : Table → ℕ → Table × Option Entry
make_room t limit =
    if ltb 0 limit && leb limit (length t)
    then (elim (oldest_from none t) [ none ↦ (t, none) | some old ↦ (remove old.0 t, some old.1) ])
    else (t, none)

unfoldable pub install : Table → Bytes → Entry → ℕ → Installed
install t key entry limit = elim (lookup key t) [
  | some current ↦ record { table = t; actual = current; evicted = none; installed = false }
  | none ↦
      let (room, evicted) = make_room t limit in
      record { table = insert key entry room; actual = entry; evicted = evicted; installed = true }
]

-- The comparison is by pointer; a missing key reads as a nil pointer.
unfoldable pub delete_if : Table → Bytes → Entry → Table × Bool
delete_if t key expected = elim (lookup key t) [
  | none ↦ (t, false)
  | some current ↦ if current.id == expected.id then (remove key t, true) else (t, false)
]

unfoldable pub drain : Table → Table × List Entry
drain t = ([], map (λ e. e.1) t)
