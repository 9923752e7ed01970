-- ===== src/Router/Table/Evict.antt =====
-- The second-chance scan: it ends, removes one entry, and chooses as CLOCK does.
use mathlib.Core.List.{reverse-cons, map-append}
use spaceship.Base.{
  ℕ, zero, suc, ◌+◌, ◌≤◌, ◌<◌, ◌≢◌, true, false, List, [], ◌∷◌, ◌++◌, map, reverse, append_assoc,
  Option, none, some, ◌≡◌, refl, ◌∙◌, subst, arith, Bytes, same, same_iff, lookup, IsMap, length,
  length-append, Bool-cases, Option-cases, inl, inr, if◌then◌else◌, All,
}
use spaceship.Router.Egress.{Egress}
use spaceship.Router.Table.Lookups.{
  lookup-front, lookup-last, front-IsMap, back-eq, back-append, back-none,
}
use spaceship.Router.Table.{RoutesTable, Slot, unreferenced, back, evict, delete}

abbrev pub egress_of : Option Slot → Option Egress
egress_of none = none
egress_of (some s) = some s.egress

unfoldable pub egress_at : Bytes → List (Bytes × Slot) → Option Egress
egress_at k l = egress_of (lookup k l)

-- How many entries are referenced.
unfoldable pub marks : List (Bytes × Slot) → ℕ
marks [] = 0
marks ((k, s) ∷ l) = (if s.referenced then 1 else 0) + marks l

marks-concat :
    (l : List (Bytes × Slot)) (k : Bytes) (s : Slot)
    → marks (l ++ (k, s) ∷ []) ≡ marks l + (if s.referenced then 1 else 0)
unfolding marks
marks-concat [] k s = omega arith
marks-concat ((j, r) ∷ l) k s = omega (arith, marks-concat l k s)

pub marks-le-length : (l : List (Bytes × Slot)) → marks l ≤ length l
unfolding marks
marks-le-length [] = omega arith
marks-le-length ((j, r) ∷ l) = ground (arith, marks-le-length l)

-- One entry, `victim`, is gone from both structures; the others keep their egress.
pub record Evicts (t t' : RoutesTable) (victim : Bytes) : Type 0 where
  pub was : lookup victim t.lru_list ≢ none
  pub gone : lookup victim t'.lru_list ≡ none
  pub kept : (k : Bytes) → same victim k ≡ false → egress_at k t'.lru_list ≡ egress_at k t.lru_list
  pub is_map : IsMap t'.lru_list
  pub size : length t'.lru_list + 1 ≡ length t.lru_list
  pub cache : t'.cache ≡ delete victim t.cache
  pub max_size : t'.max_size ≡ t.max_size

-- A referenced entry moves to the front: nothing can be read of it but its bit.
egress_at-rotate :
    (j k : Bytes) (s : Slot) (front : List (Bytes × Slot))
    → IsMap (front ++ (k, s) ∷ [])
    → egress_at j ((k, unreferenced s) ∷ front) ≡ egress_at j (front ++ (k, s) ∷ [])
unfolding egress_at lookup
egress_at-rotate j k s front d =
    ground (arith, same_iff k j, lookup-front j k s front d, lookup-last k s front d)

rotate-IsMap :
    (k : Bytes) (s s' : Slot) (front : List (Bytes × Slot))
    → IsMap (front ++ (k, s) ∷ [])
    → IsMap ((k, s') ∷ front)
rotate-IsMap k s s' front d =
    (ground (arith, lookup-front k k s front d, same_iff k k), front-IsMap k s front d)

-- Take the last entry off.
taken-Evicts :
    (t : RoutesTable) (k : Bytes) (s : Slot) (front : List (Bytes × Slot))
    → t.lru_list ≡ front ++ (k, s) ∷ []
    → IsMap (front ++ (k, s) ∷ [])
    → Evicts t (record t { cache = delete k t.cache; lru_list = front }) k
unfolding egress_at
taken-Evicts t k s front e d = record {
  was = λ h. ground (arith, e, lookup-last k s front d);
  gone = ground (arith, lookup-front k k s front d, same_iff k k);
  kept = λ j ne. ground (arith, e, lookup-front j k s front d);
  is_map = front-IsMap k s front d;
  size = ground (arith, e, length-append front ((k, s) ∷ []));
  cache = refl;
  max_size = refl;
}

rotated-Evicts :
    (t t' : RoutesTable) (k victim : Bytes) (s : Slot) (front : List (Bytes × Slot))
    → t.lru_list ≡ front ++ (k, s) ∷ []
    → IsMap (front ++ (k, s) ∷ [])
    → Evicts (record t { lru_list = (k, unreferenced s) ∷ front }) t' victim
    → Evicts t t' victim
rotated-Evicts t t' k victim s front e d v = record {
  was = λ h. v.was (
      unfold lookup in
      ground
        (arith, e, lookup-front victim k s front d, lookup-last k s front d, same_iff k victim));
  gone = v.gone;
  kept = λ j ne. ground (arith, e, v.kept j ne, egress_at-rotate j k s front d);
  is_map = v.is_map;
  size = ground (arith, e, v.size, length-append front ((k, s) ∷ []));
  cache = v.cache;
  max_size = v.max_size;
}

-- With more fuel than there are referenced entries, the scan of a table that is not empty and has
-- distinct keys ends by evicting one entry from both the list and the map, and no other entry
-- changes its egress.
pub evict-Evicts :
    (fuel : ℕ) (t : RoutesTable)
    → marks t.lru_list < fuel
    → t.lru_list ≢ []
    → IsMap t.lru_list
    → (victim : Bytes) × Evicts t (evict fuel t) victim
unfolding evict
evict-Evicts zero t h n d = elim h [ ]
evict-Evicts (suc fuel) t h n d = elim (Option-cases (back t.lru_list)) [
  | inl empty ↦ absurd (n (back-none t.lru_list empty))
  | inr ((front, (k, s)), split) ↦
      let e = back-eq t.lru_list front (k, s) split in
      let d' : IsMap (front ++ (k, s) ∷ []) = subst IsMap e d in
      elim (Bool-cases s.referenced) [
        | inr cold ↦ (k, rw (split, cold, evict) (taken-Evicts t k s front e d'))
        | inl hot ↦
            let moved = record t { lru_list = (k, unreferenced s) ∷ front } in
            let (victim, v) =
              evict-Evicts fuel moved (unfold marks in ground (arith, e, marks-concat front k s))
                (λ z. cc) (rotate-IsMap k s (unreferenced s) front d') in
            (
              victim,
              rw (split, hot, evict) (rotated-Evicts t (evict fuel moved) k victim s front e d' v),
            )
      ]
]

abbrev pub clear : Bytes × Slot → Bytes × Slot
clear e = (e.0, unreferenced e.1)

evict_cold :
    (fuel : ℕ) (t : RoutesTable) (front : List (Bytes × Slot)) (k : Bytes) (s : Slot)
    → s.referenced ≡ false
    → evict (suc fuel) (record t { lru_list = front ++ (k, s) ∷ [] })
      ≡ record t { cache = delete k t.cache; lru_list = front }
unfolding evict
evict_cold fuel t front k s cold = rw (back-append front (k, s), cold, evict)

evict_hot :
    (fuel : ℕ) (t : RoutesTable) (front : List (Bytes × Slot)) (k : Bytes) (s : Slot)
    → s.referenced ≡ true
    → evict (suc fuel) (record t { lru_list = front ++ (k, s) ∷ [] })
      ≡ evict fuel (record t { lru_list = (k, unreferenced s) ∷ front })
unfolding evict
evict_hot fuel t front k s hot = rw (back-append front (k, s), hot, evict)

-- Let the list be `xs`, an unreferenced entry, and behind it only referenced ones, and let there
-- be more fuel than there are of those. The entry that goes is the unreferenced one, the nearest
-- to the back. Those behind it move to the front in their order, and have lost their bit; those
-- before it stay as they are.
pub evict-second_chance :
    (fuel : ℕ) (t : RoutesTable) (xs behind : List (Bytes × Slot)) (k : Bytes) (s : Slot)
    → s.referenced ≡ false
    → All (λ e. e.1.referenced ≡ true) behind
    → length behind < fuel
    → evict fuel (record t { lru_list = xs ++ (k, s) ∷ reverse behind })
      ≡ record t { cache = delete k t.cache; lru_list = map clear (reverse behind) ++ xs }
evict-second_chance zero t xs behind k s cold hot h = elim h [ ]
evict-second_chance (suc fuel) t xs [] k s cold hot h = evict_cold fuel t xs k s cold
evict-second_chance (suc fuel) t xs ((j, r) ∷ behind) k s cold hot h =
    rw (reverse-cons (j, r) behind, ← append_assoc xs ((k, s) ∷ reverse behind) ((j, r) ∷ []))
      (evict_hot fuel t (xs ++ (k, s) ∷ reverse behind) j r hot.0
        ∙ evict-second_chance fuel t (clear (j, r) ∷ xs) behind k s cold hot.1 (omega arith)
        ∙ rw (map-append clear (reverse behind) ((j, r) ∷ []), append_assoc))
