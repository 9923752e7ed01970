-- ===== src/Router/Table/Lookups.antt =====
-- Lookups in a list whose last entry moves, and in the set of keys.
use spaceship.Base.{
  false, List, [], ◌∷◌, ◌++◌, none, some, ◌≡◌, refl, arith, Bytes, same, same_iff, lookup, IsMap,
  Option-cases, inl, inr, if◌then◌else◌,
}
use spaceship.Router.Table.{member, delete, back}

module _ {ℓ} {V : Type ℓ} where
  pub lookup-last :
      (j : Bytes) (v : V) (l : List (Bytes × V))
      → IsMap (l ++ (j, v) ∷ [])
      → lookup j (l ++ (j, v) ∷ []) ≡ some v
  unfolding lookup
  lookup-last j v [] d = ground (arith, same_iff j j)
  lookup-last j v ((i, w) ∷ l) d = ground (arith, same_iff i j, lookup-last j v l d.1)

  -- The last entry, taken off or moved to the front with a new value.
  pub lookup-front :
      (k j : Bytes) (v : V) (l : List (Bytes × V))
      → IsMap (l ++ (j, v) ∷ [])
      → lookup k l ≡ (if same j k then none else lookup k (l ++ (j, v) ∷ []))
  unfolding lookup
  lookup-front k j v [] d = ground arith
  lookup-front k j v ((i, w) ∷ l) d =
      ground (arith, same_iff i k, same_iff j k, lookup-last j v l d.1, lookup-front k j v l d.1)

  pub front-IsMap : (j : Bytes) (v : V) (l : List (Bytes × V)) → IsMap (l ++ (j, v) ∷ []) → IsMap l
  unfolding lookup
  front-IsMap j v [] d = tt
  front-IsMap j v ((i, w) ∷ l) d = ground (arith, front-IsMap j v l d.1, lookup-front i j v l d.1)

  pub back-none : (l : List (Bytes × V)) → back l ≡ none → l ≡ []
  unfolding back
  back-none [] h = refl
  back-none (x ∷ l) h = elim (Option-cases (back l)) [
    | inl e ↦ absurd (ground arith)
    | inr ((f, y), e) ↦ absurd (ground arith)
  ]

  -- What `back` splits off.
  pub back-eq :
      (l front : List (Bytes × V)) (e : Bytes × V) → back l ≡ some (front, e) → l ≡ front ++ e ∷ []
  unfolding back
  back-eq [] front e h = cc
  back-eq (x ∷ l) front e h = elim (Option-cases (back l)) [
    | inl n ↦ ground (arith, back-none l n)
    | inr ((f, y), n) ↦ ground (arith, back-eq l f y n)
  ]

pub back-append {ℓ} : {A : Type ℓ} (l : List A) (e : A) → back (l ++ e ∷ []) ≡ some (l, e)
unfolding back
back-append [] e = refl
back-append (x ∷ l) e = rw (back-append l e, back)

pub member-delete :
    (k j : Bytes) (l : List Bytes)
    → member j (delete k l) ≡ (if same k j then false else member j l)
unfolding member delete
member-delete k j [] = ground arith
member-delete k j (i ∷ l) =
    ground (arith, same_iff k j, same_iff i k, same_iff i j, member-delete k j l)
