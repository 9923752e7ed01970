-- ===== src/Rpc/Pool/Pick.antt =====
-- Which connection `PickLeastLoaded` chooses.
use spaceship.Base.{
  ℕ, ◌≤◌, ◌⊎◌, inl, inr, true, false, List, [], ◌∷◌, Option, none, some, ◌≡◌, refl, arith, All, ltb,
  Bool-cases,
}
use spaceship.Rpc.Pool.{State, ConnWrapper, is_shutdown, pick_from, pick_least_loaded}

abbrev pub In : ConnWrapper → List ConnWrapper → Type 0
In w [] = ⊥
In w (v ∷ vs) = (w ≡ v) ⊎ In w vs

-- Every wrapper that is not shut down has at least the load `n`.
abbrev pub NoneBelow : (ℕ → State) → ℕ → List ConnWrapper → Type 0
NoneBelow states n = All (λ w. is_shutdown (states w.handle) ≡ false → n ≤ w.in_use)

-- No wrapper is chosen exactly if all are shut down; the one chosen is of the list and open, and
-- none that is open has a smaller load.
abbrev pub Picks : (ℕ → State) → List ConnWrapper → Option ConnWrapper → Type 0
Picks states ws none = All (λ w. is_shutdown (states w.handle) ≡ true) ws
Picks states ws (some c) =
    In c ws × (is_shutdown (states c.handle) ≡ false) × NoneBelow states c.in_use ws

-- The loop with a candidate: it ends with one, the candidate or one of the list.
record Ends (states : ℕ → State) (best : ConnWrapper) (ws : List ConnWrapper) (c : ConnWrapper)
    : Type 0 where
  found : pick_from states (some best) ws ≡ some c
  origin : (c ≡ best) ⊎ (In c ws × (is_shutdown (states c.handle) ≡ false))
  le_best : c.in_use ≤ best.in_use
  none_below : NoneBelow states c.in_use ws

pick_from-Ends :
    (states : ℕ → State) (best : ConnWrapper) (ws : List ConnWrapper)
    → (c : ConnWrapper) × Ends states best ws c
unfolding pick_from
pick_from-Ends states best [] =
    (best, record { found = refl; origin = inl refl; le_best = omega arith; none_below = tt })
pick_from-Ends states best (w ∷ ws) = elim (Bool-cases (is_shutdown (states w.handle))) [
  | inl dead ↦
      let (c, e) = pick_from-Ends states best ws in
      (
        c,
        record {
          found = rw dead e.found;
          origin = elim e.origin [ inl o ↦ inl o | inr (i, o) ↦ inr (inr i, o) ];
          le_best = e.le_best;
          none_below = (λ open_one. absurd (ground arith), e.none_below);
        },
      )
  | inr alive ↦ elim (Bool-cases (ltb w.in_use best.in_use)) [
    | inl less ↦
        let (c, e) = pick_from-Ends states w ws in
        (
          c,
          record {
            found = rw (alive, less) e.found;
            origin = elim e.origin [
              | inl o ↦ inr (inl o, rw o alive)
              | inr (i, o) ↦ inr (inr i, o)
            ];
            le_best = ground (arith, e.le_best);
            none_below = (λ _. e.le_best, e.none_below);
          },
        )
    | inr more ↦
        let (c, e) = pick_from-Ends states best ws in
        (
          c,
          record {
            found = rw (alive, more) e.found;
            origin = elim e.origin [ inl o ↦ inl o | inr (i, o) ↦ inr (inr i, o) ];
            le_best = e.le_best;
            none_below = (λ _. ground (arith, e.le_best), e.none_below);
          },
        )
  ]
]

skipped :
    (states : ℕ → State) (w : ConnWrapper) (ws : List ConnWrapper) (o : Option ConnWrapper)
    → Picks states ws o
    → is_shutdown (states w.handle) ≡ true
    → Picks states (w ∷ ws) o
skipped states w ws none p dead = (dead, p)
skipped states w ws (some c) (i, alive, below) dead =
    (inr i, alive, ((λ a. absurd (ground arith)), below))

-- `PickLeastLoaded` gives none exactly if every connection is shut down. Else it gives a connection
-- of the pool that is not shut down, and no other such connection carries less.
pub pick_least_loaded-Picks :
    (states : ℕ → State) (ws : List ConnWrapper) → Picks states ws (pick_least_loaded states ws)
unfolding pick_least_loaded pick_from
pick_least_loaded-Picks states [] = tt
pick_least_loaded-Picks states (w ∷ ws) = elim (Bool-cases (is_shutdown (states w.handle))) [
  | inl dead ↦
      rw dead
        (skipped states w ws (pick_least_loaded states ws) (pick_least_loaded-Picks states ws) dead)
  | inr alive ↦
      let (c, e) = pick_from-Ends states w ws in
      rw (alive, e.found)
        (
          elim e.origin [ inl o ↦ inl o | inr (i, _) ↦ inr i ],
          elim e.origin [ inl o ↦ rw o alive | inr (_, o) ↦ o ],
          ((λ _. e.le_best), e.none_below),
        )
]
