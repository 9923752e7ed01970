-- ===== src/Base/Assoc.antt =====
-- Go maps keyed by strings, as lists of pairs; the order stands for the arbitrary order of `range`.
use Prim.Native.Nat.{◌+◌}
use mathlib.Core.Path.{◌≡◌, refl}
use mathlib.Core.List.{List, [], ◌∷◌}
use mathlib.Core.Option.{Option, none, some}
use native.Mathlib.Omega.{arith}
use spaceship.Base.Tests.{if◌then◌else◌}
use spaceship.Base.Lists.{length}
use spaceship.Base.Texts.{Bytes, same, same_iff}

module _ {ℓ} {V : Type ℓ} where
  unfoldable pub lookup : Bytes → List (Bytes × V) → Option V
  lookup k [] = none
  lookup k ((j, v) ∷ m) = if same j k then some v else lookup k m

  -- `m[k] = v`
  unfoldable pub insert : Bytes → V → List (Bytes × V) → List (Bytes × V)
  insert k v [] = (k, v) ∷ []
  insert k v ((j, w) ∷ m) = if same j k then (j, v) ∷ m else (j, w) ∷ insert k v m

  -- `delete(m, k)`
  unfoldable pub remove : Bytes → List (Bytes × V) → List (Bytes × V)
  remove k [] = []
  remove k ((j, w) ∷ m) = let rest = remove k m in if same j k then rest else (j, w) ∷ rest

  -- Each key stands once, as in a Go map.
  abbrev pub IsMap : List (Bytes × V) → Type ℓ
  IsMap [] = Unit
  IsMap ((k, v) ∷ m) = (lookup k m ≡ none) × IsMap m

  pub lookup-insert :
      (k j : Bytes) (v : V) (m : List (Bytes × V))
      → lookup j (insert k v m) ≡ (if same k j then some v else lookup j m)
  unfolding lookup insert
  lookup-insert k j v [] = refl
  lookup-insert k j v ((i, w) ∷ m) =
      ground (arith, same_iff k j, same_iff i k, same_iff i j, lookup-insert k j v m)

  pub lookup-remove :
      (k j : Bytes) (m : List (Bytes × V))
      → lookup j (remove k m) ≡ (if same k j then none else lookup j m)
  unfolding lookup remove
  lookup-remove k j [] = ground arith
  lookup-remove k j ((i, w) ∷ m) =
      ground (arith, same_iff k j, same_iff i k, same_iff i j, lookup-remove k j m)

  pub insert-IsMap : (k : Bytes) (v : V) (m : List (Bytes × V)) → IsMap m → IsMap (insert k v m)
  unfolding lookup insert
  insert-IsMap k v [] h = (refl, tt)
  insert-IsMap k v ((i, w) ∷ m) h =
      ground (arith, same_iff k i, same_iff i k, lookup-insert k i v m, insert-IsMap k v m h.1)

  pub remove-IsMap : (k : Bytes) (m : List (Bytes × V)) → IsMap m → IsMap (remove k m)
  unfolding lookup remove
  remove-IsMap k [] h = tt
  remove-IsMap k ((i, w) ∷ m) h = ground (arith, lookup-remove k i m, remove-IsMap k m h.1)

  pub remove_absent : (k : Bytes) (m : List (Bytes × V)) → lookup k m ≡ none → remove k m ≡ m
  unfolding lookup remove
  remove_absent k [] h = refl
  remove_absent k ((i, w) ∷ m) h = ground (arith, remove_absent k m)

  pub length-insert_new :
      (k : Bytes) (v : V) (m : List (Bytes × V))
      → lookup k m ≡ none
      → length (insert k v m) ≡ length m + 1
  unfolding lookup insert
  length-insert_new k v [] h = omega arith
  length-insert_new k v ((i, w) ∷ m) h = ground (arith, length-insert_new k v m)

  pub length-remove :
      (k : Bytes) (m : List (Bytes × V)) (v : V)
      → IsMap m
      → lookup k m ≡ some v
      → length (remove k m) + 1 ≡ length m
  unfolding lookup remove
  length-remove k [] v d h = cc
  length-remove k ((i, w) ∷ m) v d h =
      ground (arith, same_iff i k, remove_absent k m, length-remove k m v d.1)
