-- ===== src/Tests/Pools.antt =====
-- The gRPC pool at concrete inputs.
use spaceship.Base.{
  ℕ, ◌+◌, ◌==◌, if◌then◌else◌, true, false, List, [], ◌∷◌, Option, some, ◌≡◌, refl,
}
use spaceship.Rpc.Pool.Pick.{Picks, pick_least_loaded-Picks}
use spaceship.Rpc.Pool.{
  State, ConnWrapper, ConnQueue, pick_least_loaded, new_conn_queue, add, init, init_loop,
}

abbrev wrapper : ℕ → ℕ → ConnWrapper
wrapper n load = record { handle = n; id = n; in_use = load }

abbrev wrappers : List ConnWrapper
wrappers = wrapper 1 0 ∷ wrapper 2 5 ∷ wrapper 3 4 ∷ []

-- The first connection is shut down, the others are ready.
abbrev pub states : ℕ → State
states n = if n == 1 then State.shutdown else State.ready

abbrev pub queue : ConnQueue
queue = record { size = 3; conn = wrappers; is_down = false }

pick_least_loaded-Picks_example : Picks states wrappers (pick_least_loaded states wrappers)
pick_least_loaded-Picks_example = pick_least_loaded-Picks states wrappers

abbrev two_places : ConnQueue
two_places = record {
  size = 2;
  conn =
      record { handle = 10; id = 1; in_use = 0 } ∷ record { handle = 11; id = 2; in_use = 0 } ∷ [];
  is_down = false;
}

abbrev dials : ℕ → Option ℕ
dials n = some (n + 10)

two_dialed : init (new_conn_queue 2) dials ≡ (two_places, true)
unfolding init init_loop new_conn_queue add
two_dialed = refl
