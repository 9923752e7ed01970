-- ===== src/Rpc/Pool/Life.antt =====
-- The pool from `Init` to `Destroy`: its places and the loads.
use spaceship.Base.{
  ℕ, zero, suc, ◌+◌, ◌%◌, ◌<◌, inl, inr, Bool, true, false, List, [], ◌∷◌, ◌++◌, map, append_assoc,
  append-nil, subst, Option, some, ◌≡◌, refl, sym, ◌∙◌, ap, arith, All, length, length-append,
  get_elem?, ◌==◌, Bool-cases, Option-cases,
}
use mathlib.Core.List.{map-append}
use spaceship.Rpc.Pool.Pick.{pick_least_loaded-Picks}
use spaceship.Rpc.Pool.{
  State, ConnWrapper, ConnQueue, Got, pooled, replacing, load_mod, use_once, release_once,
  is_shutdown, pick_least_loaded, update, new_conn_queue, add, dialed, init_loop, init, close_from,
  destroy, get_conn, done,
}

abbrev pub Counts : List ConnWrapper → Type 0
Counts = All (λ w. w.in_use < load_mod)

update-release_use :
    (handle : ℕ) (ws : List ConnWrapper)
    → Counts ws
    → update release_once handle (update use_once handle ws) ≡ ws
unfolding update release_once use_once
update-release_use handle [] h = refl
update-release_use handle (w ∷ ws) h = elim (Bool-cases (w.handle == handle)) [
  | inl here ↦
      let back : ((w.in_use + 1) % load_mod + 4294967295) % load_mod ≡ w.in_use =
        omega (arith, h.0) in
      rw (here, here, back, update-release_use handle ws h.1)
  | inr other ↦ rw (other, other, update-release_use handle ws h.1)
]

abbrev pub Restores : ConnQueue → ConnQueue × Got → Type 0
Restores q (q', pooled handle) = done q' handle ≡ q
Restores q (q', _) = q' ≡ q

-- With counters below 2^32, calling the function that `GetConn` returns with a pooled connection
-- undoes `GetConn`, also where a counter wraps around; with any other outcome `GetConn` has
-- changed nothing.
pub get_conn-done :
    (q : ConnQueue) (states states' : ℕ → State) (dial : Option ℕ)
    → Counts q.conn
    → Restores q (get_conn q states states' dial)
unfolding get_conn
get_conn-done q states states' dial h = elim (Bool-cases (q.size == 0)) [
  | inl none_kept ↦ elim (Option-cases dial) [
    | inl e ↦ rw (none_kept, e) refl
    | inr (c, e) ↦ rw (none_kept, e) refl
  ]
  | inr kept ↦ elim (Bool-cases q.is_down) [
    | inl down ↦ simp (kept, down) refl
    | inr up ↦ elim (Option-cases (pick_least_loaded states q.conn)) [
      | inl e ↦ simp (kept, up, e) refl
      | inr (el, e) ↦ elim (Bool-cases (is_shutdown (states' el.handle))) [
        | inl dead ↦ simp (kept, up, e, dead) refl
        | inr alive ↦
            simp (kept, up, e, alive)
              (unfold done in
                ap (λ ws. record q { conn = ws; is_down = false })
                  (update-release_use el.handle q.conn h)
                ∙ ap (λ down. record q { is_down = down }) (sym up))
      ]
    ]
  ]
]

abbrev pub Used : (ℕ → State) → Got → Type 0
Used states (pooled handle) = is_shutdown (states handle) ≡ false
Used states (replacing w) = ⊥
Used states _ = Unit

-- Where no connection changes its state between the two looks that `GetConn` takes at it, `GetConn`
-- hands out no connection that is shut down, and starts no replacement of one either.
pub get_conn-steady :
    (q : ConnQueue) (states : ℕ → State) (dial : Option ℕ)
    → Used states (get_conn q states states dial).1
unfolding get_conn
get_conn-steady q states dial = elim (Bool-cases (q.size == 0)) [
  | inl none_kept ↦ elim (Option-cases dial) [
    | inl e ↦ rw (none_kept, e) tt
    | inr (c, e) ↦ rw (none_kept, e) tt
  ]
  | inr kept ↦ elim (Bool-cases q.is_down) [
    | inl down ↦ simp (kept, down) tt
    | inr up ↦ elim (Option-cases (pick_least_loaded states q.conn)) [
      | inl e ↦ simp (kept, up, e) tt
      | inr (el, e) ↦
          let (_, alive, _) = rw e at (pick_least_loaded-Picks states q.conn) in
          simp (kept, up, e, alive) refl
    ]
  ]
]

-- The identifiers of a pool's places: 1 and so on.
unfoldable pub places : ℕ → ℕ → List ℕ
places i zero = []
places i (suc n) = suc i ∷ places (suc i) n

abbrev pub ids : List ConnWrapper → List ℕ
ids = map (λ w. w.id)

abbrev pub handles : List ConnWrapper → List ℕ
handles = map (λ w. w.handle)

get_elem?-append :
    (xs : List ConnWrapper) (w : ConnWrapper) (ws : List ConnWrapper)
    → get_elem? (xs ++ w ∷ ws) (length xs) ≡ some w
get_elem?-append [] w ws = refl
get_elem?-append (x ∷ xs) w ws = get_elem?-append xs w ws

-- `Destroy` with as many places as the pool was made for closes the connections of them all.
close_from-all :
    (xs ws : List ConnWrapper) → close_from (xs ++ ws) (length xs) (length ws) ≡ some (handles ws)
unfolding close_from
close_from-all xs [] = refl
close_from-all xs (w ∷ ws) =
    let here = get_elem?-append xs w ws in
    let later = close_from-all (xs ++ w ∷ []) ws in
    ground (arith, append_assoc xs (w ∷ []) ws, length-append xs (w ∷ []))

-- The pool while `Init` fills it.
record Fills (n : ℕ) (q q' : ConnQueue) : Type 0 where
  count : length q'.conn ≡ length q.conn + n
  numbered : ids q'.conn ≡ ids q.conn ++ places (length q.conn) n
  rest : (q'.size ≡ q.size) × (q'.is_down ≡ q.is_down)

init_loop-Fills :
    (n : ℕ) (q q' : ConnQueue) (dials : ℕ → Option ℕ)
    → init_loop n q dials ≡ (q', true)
    → Fills n q q'
unfolding init_loop places add
init_loop-Fills zero q q' dials h =
    subst (Fills 0 q) (ap (λ p. p.0) h) (record {
      count = omega arith;
      numbered = sym (append-nil (ids q.conn));
      rest = (refl, refl);
    })
init_loop-Fills (suc n) q q' dials h = elim (Option-cases (dials (length q.conn))) [
  | inl e ↦
      let failed : ◌≡◌ {A = ConnQueue × Bool} (q, false) (q', true) = rw (e, init_loop) at h in
      absurd (ground arith)
  | inr (c, e) ↦
      let f = init_loop-Fills n (add q (dialed c)) q' dials (rw (e, init_loop) at h) in
      let last = record (dialed c) { id = length q.conn + 1 } ∷ [] in
      let size : length (q.conn ++ last) ≡ suc (length q.conn) =
        omega (arith, length-append q.conn last) in
      record {
        count = omega (arith, f.count, size);
        numbered =
            let one : length q.conn + 1 ≡ suc (length q.conn) = omega arith in
            rw (
              f.numbered,
              size,
              map-append (λ (w : ConnWrapper). w.id) q.conn last,
              append_assoc (ids q.conn) (ids last) (places (suc (length q.conn)) n),
              one,
            );
        rest = f.rest;
      }
]

-- After an `Init` that succeeds the pool has as many connections as it was made for, identified by
-- 1 and so on, and `Destroy` closes each of them: no index is out of range.
destroy-init :
    (n : ℕ) (dials : ℕ → Option ℕ) (q : ConnQueue)
    → init (new_conn_queue n) dials ≡ (q, true)
    → (ids q.conn ≡ places 0 n)
      × ((destroy q).1 ≡ some (handles q.conn))
      × ((destroy q).0.is_down ≡ true)
unfolding init new_conn_queue destroy
destroy-init n dials q h =
    let f = init_loop-Fills n (new_conn_queue n) q dials h in
    let size : q.size ≡ length q.conn = omega (arith, f.rest.0, f.count) in
    (f.numbered, rw size (close_from-all [] q.conn), refl)
