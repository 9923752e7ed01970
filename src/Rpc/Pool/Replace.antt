-- ===== src/Rpc/Pool/Replace.antt =====
-- The replacement of a connection in the pool, `replaceConn` of internal/transport/rpc/client/queue.go.
use spaceship.Base.{
  ℕ, ◌≢◌, ◌⊎◌, inl, inr, true, List, [], ◌∷◌, ◌++◌, Option, none, some, ◌≡◌, refl, sym, ap, arith,
  All, ◌==◌, Bool-cases, Option-cases,
}
use spaceship.Rpc.Pool.{ConnWrapper, ConnQueue, swap, replace_conn}

-- What the loop of `replaceConn` does where it finds the old wrapper.
pub record Swaps (old : ConnWrapper) (handle : ℕ) (ws ws' : List ConnWrapper) : Type 0 where
  pub before : List ConnWrapper
  pub behind : List ConnWrapper
  pub place : ConnWrapper
  pub was : (ws ≡ before ++ place ∷ behind) × (place.handle ≡ old.handle)
  pub now : ws' ≡ before ++ record { handle = handle; id = old.id; in_use = 0 } ∷ behind

swap-Swaps :
    (old : ConnWrapper) (handle : ℕ) (ws ws' : List ConnWrapper)
    → swap old handle ws ≡ some ws'
    → Swaps old handle ws ws'
unfolding swap
swap-Swaps old handle [] ws' h = absurd (ground arith)
swap-Swaps old handle (w ∷ ws) ws' h = elim (Bool-cases (w.handle == old.handle)) [
  | inl here ↦ record {
    before = [];
    behind = ws;
    place = w;
    was = (refl, ground arith);
    now = ground arith;
  }
  | inr other ↦ elim (Option-cases (swap old handle ws)) [
    | inl e ↦ absurd (ground arith)
    | inr (rest, e) ↦
        let s = swap-Swaps old handle ws rest e in
        record {
          before = w ∷ s.before;
          behind = s.behind;
          place = s.place;
          was = (ap (◌∷◌ w) s.was.0, s.was.1);
          now = ground (arith, s.now);
        }
  ]
]

swap-absent :
    (old : ConnWrapper) (handle : ℕ) (ws : List ConnWrapper)
    → swap old handle ws ≡ none
    → All (λ w. w.handle ≢ old.handle) ws
unfolding swap
swap-absent old handle [] h = tt
swap-absent old handle (w ∷ ws) h = elim (Bool-cases (w.handle == old.handle)) [
  | inl here ↦ absurd (ground arith)
  | inr other ↦ (ground arith, swap-absent old handle ws (ground arith))
]

-- The replacement that happened: a place of the old connection holds the new one under the old
-- identifier, and the old connection is the one that is closed.
pub record Replaced (q : ConnQueue) (old : ConnWrapper) (handle : ℕ) (r : ConnQueue × Option ℕ)
    : Type 0 where
  pub swaps : Swaps old handle q.conn r.0.conn
  pub rest : (r.0.size ≡ q.size) × (r.0.is_down ≡ q.is_down)
  pub closed : r.1 ≡ some old.handle

abbrev pub Outcome : ConnQueue → ConnWrapper → ℕ → ConnQueue × Option ℕ → Type 0
Outcome q old handle r =
    ((r ≡ (q, some handle)) × ((q.is_down ≡ true) ⊎ All (λ w. w.handle ≢ old.handle) q.conn))
    ⊎ Replaced q old handle r

-- `replaceConn` with a new connection closes one of the two: the new one, with the pool unchanged,
-- if the pool is shut down or does not hold the old one; else the old one, whose place then holds
-- the new one under the same identifier, while every other place keeps its wrapper.
pub replace_conn-closes :
    (q : ConnQueue) (old : ConnWrapper) (handle : ℕ)
    → Outcome q old handle (replace_conn q old (some handle))
unfolding replace_conn
replace_conn-closes q old handle = elim (Bool-cases q.is_down) [
  | inl down ↦ simp down (inl (refl, inl refl))
  | inr up ↦ elim (Option-cases (swap old handle q.conn)) [
    | inl e ↦ simp (up, e) (inl (refl, inr (swap-absent old handle q.conn e)))
    | inr (ws, e) ↦
        simp (up, e)
          (inr (record {
            swaps = swap-Swaps old handle q.conn ws e;
            rest = (refl, sym up);
            closed = refl;
          }))
  ]
]
