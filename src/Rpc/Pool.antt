-- ===== src/Rpc/Pool.antt =====
-- `ConnQueue` and `ConnWrappers` of internal/transport/rpc/client/queue.go and wrapper.go. A wrapper
-- is a pointer in the source: `handle` is its identity. The state of a gRPC connection is gRPC's:
-- it is a function of the handle, and an operation that reads it twice takes two such functions.
-- Texts are lists of pieces, since only the log and the status page read them.
pub mod Pick
pub mod Life
pub mod Replace
use spaceship.Base.{
  ℕ, zero, suc, ◌+◌, ◌%◌, ◌^◌, Bool, true, false, List, [], ◌∷◌, ◌++◌, map, Option, none, some,
  length, get_elem?, ltb, ◌==◌, if◌then◌else◌,
}

-- `connectivity.State`; a further value is unknown.
pub data State : Type 0 where
  idle connecting ready transient_failure shutdown unknown : State

pub record ConnWrapper : Type 0 where
  pub handle : ℕ
  pub id : ℕ
  pub in_use : ℕ

abbrev pub load_mod : ℕ
load_mod = 2 ^ 32

unfoldable pub use_once : ConnWrapper → ConnWrapper
use_once w = record w { in_use = (w.in_use + 1) % load_mod }

-- The counter of 32 bits plus `^uint32(0)`.
unfoldable pub release_once : ConnWrapper → ConnWrapper
release_once w = record w { in_use = (w.in_use + 4294967295) % load_mod }

abbrev pub is_shutdown : State → Bool
is_shutdown shutdown = true
is_shutdown _ = false

abbrev pub less_loaded : ConnWrapper → Option ConnWrapper → Bool
less_loaded c none = true
less_loaded c (some best) = ltb c.in_use best.in_use

-- The loop of `PickLeastLoaded`; `minUsage` is the load of `conn`.
unfoldable pub pick_from : (ℕ → State) → Option ConnWrapper → List ConnWrapper → Option ConnWrapper
pick_from states best [] = best
pick_from states best (c ∷ cs) =
    if is_shutdown (states c.handle)
    then pick_from states best cs
    else pick_from states (if less_loaded c best then some c else best) cs

unfoldable pub pick_least_loaded : (ℕ → State) → List ConnWrapper → Option ConnWrapper
pick_least_loaded states ws = pick_from states none ws

pub record Summary : Type 0 where
  pub total : ℕ
  pub active : ℕ
  pub total_load : ℕ

unfoldable pub add_to_summary : Summary → List ConnWrapper → Summary
add_to_summary s [] = s
add_to_summary s (w ∷ ws) =
    add_to_summary
      (record s {
        active = if ltb 0 w.in_use then s.active + 1 else s.active;
        total_load = (s.total_load + w.in_use) % load_mod;
      })
      ws

unfoldable pub get_summary_stats : List ConnWrapper → Summary
get_summary_stats ws = add_to_summary (record { total = length ws; active = 0; total_load = 0 }) ws

-- `deriveHealthStatus`, its strings as constructors
pub data Health : Type 0 where
  healthy_active healthy_ready healthy_idle still_connecting unhealthy down unknown_health : Health

unfoldable pub derive_health_status : State → ℕ → Health
derive_health_status ready n = if ltb 0 n then healthy_active else healthy_ready
derive_health_status idle n = healthy_idle
derive_health_status connecting n = still_connecting
derive_health_status transient_failure n = unhealthy
derive_health_status shutdown n = down
derive_health_status unknown n = unknown_health

pub record ConnectionDetail : Type 0 where
  pub id : ℕ
  pub load : ℕ
  pub active : Bool
  pub connectivity_state : State
  pub health_status : Health

unfoldable pub detail_of : (ℕ → State) → ConnWrapper → ConnectionDetail
detail_of states w = record {
  id = w.id;
  load = w.in_use;
  active = ltb 0 w.in_use;
  connectivity_state = states w.handle;
  health_status = derive_health_status (states w.handle) w.in_use;
}

unfoldable pub connection_details : (ℕ → State) → List ConnWrapper → List ConnectionDetail
connection_details states ws = map (detail_of states) ws

pub record ConnQueue : Type 0 where
  pub size : ℕ
  pub conn : List ConnWrapper
  pub is_down : Bool

unfoldable pub new_conn_queue : ℕ → ConnQueue
new_conn_queue size = record { size = size; conn = []; is_down = false }

unfoldable pub add : ConnQueue → ConnWrapper → ConnQueue
add q w = record q { conn = q.conn ++ record w { id = length q.conn + 1 } ∷ [] }

-- `Dial` gives the handle of a new connection, or none on an error.
abbrev pub dialed : ℕ → ConnWrapper
dialed handle = record { handle = handle; id = 0; in_use = 0 }

-- The loop of `Init`: each round takes the outcome of its dial; the result is whether all succeeded.
unfoldable pub init_loop : ℕ → ConnQueue → (ℕ → Option ℕ) → ConnQueue × Bool
init_loop zero q dials = (q, true)
init_loop (suc n) q dials = elim (dials (length q.conn)) [
  | none ↦ (q, false)
  | some handle ↦ init_loop n (add q (dialed handle)) dials
]

unfoldable pub init : ConnQueue → (ℕ → Option ℕ) → ConnQueue × Bool
init q dials = init_loop q.size q dials

-- The loop of `Destroy`, over the first `n` places from `i` on: the handles that it closes, or none
-- where an index is out of range and the program panics.
unfoldable pub close_from : List ConnWrapper → ℕ → ℕ → Option (List ℕ)
close_from ws i zero = some []
close_from ws i (suc n) =
    let rest = close_from ws (suc i) n in
    elim (get_elem? ws i) [
      | none ↦ none
      | some w ↦ elim rest [ none ↦ none | some closed ↦ some (w.handle ∷ closed) ]
    ]

unfoldable pub destroy : ConnQueue → ConnQueue × Option (List ℕ)
destroy q = (record q { is_down = true }, close_from q.conn 0 q.size)

-- A call of a wrapper's method through the pointer changes the wrapper in the pool.
unfoldable pub update : (ConnWrapper → ConnWrapper) → ℕ → List ConnWrapper → List ConnWrapper
update f handle [] = []
update f handle (w ∷ ws) =
    let rest = update f handle ws in if w.handle == handle then f w ∷ rest else w ∷ rest

pub data Got : Type 0 where
  pooled outside : ℕ → Got
  dial_failed queue_down none_available : Got
  -- the connection was shut down, and a goroutine is to replace it
  replacing : ConnWrapper → Got

-- `GetConn`, which reads the states when it picks and once more behind the lock; `dial` is the
-- outcome of the dial outside the pool.
unfoldable pub get_conn :
    ConnQueue → (states states' : ℕ → State) → (dial : Option ℕ) → ConnQueue × Got
get_conn q states states' dial =
    if q.size == 0
    then (q, elim dial [ none ↦ dial_failed | some handle ↦ outside handle ])
    else if q.is_down
    then (q, queue_down)
    else elim (pick_least_loaded states q.conn) [
      | none ↦ (q, none_available)
      | some el ↦
          if is_shutdown (states' el.handle)
          then (q, replacing el)
          else (record q { conn = update use_once el.handle q.conn }, pooled el.handle)
    ]

-- The function that `GetConn` returns with a pooled connection.
unfoldable pub done : ConnQueue → ℕ → ConnQueue
done q handle = record q { conn = update release_once handle q.conn }

-- The loop of `replaceConn`: the first wrapper that is the old one is replaced; none if there is none.
unfoldable pub swap : ConnWrapper → ℕ → List ConnWrapper → Option (List ConnWrapper)
swap old handle [] = none
swap old handle (w ∷ ws) =
    let rest = swap old handle ws in
    if w.handle == old.handle
    then some (record { handle = handle; id = old.id; in_use = 0 } ∷ ws)
    else (elim rest [ none ↦ none | some swapped ↦ some (w ∷ swapped) ])

-- `replaceConn`, with the handle that it closes.
unfoldable pub replace_conn : ConnQueue → ConnWrapper → Option ℕ → ConnQueue × Option ℕ
replace_conn q old none = (q, none)
replace_conn q old (some handle) =
    if q.is_down then (q, some handle) else elim (swap old handle q.conn) [
      | none ↦ (q, some handle)
      | some ws ↦ (record q { conn = ws }, some old.handle)
    ]

unfoldable pub get_connection_summary : ConnQueue → Summary
get_connection_summary q =
    if q.is_down then record { total = 0; active = 0; total_load = 0 } else get_summary_stats q.conn

unfoldable pub get_connection_details : ConnQueue → (ℕ → State) → List ConnectionDetail
get_connection_details q states = if q.is_down then [] else connection_details states q.conn
