-- ===== src/Management.antt =====
-- The management server, internal/management/server.go. `net.SplitHostPort`, `net.ParseIP` with
-- `IsLoopback`, `strings.EqualFold` and the patterns of `http.ServeMux` are parameters. The speeds are
-- floating-point numbers and left out.
pub mod Local
use spaceship.Base.{
  ℕ, Bool, true, false, not, ◌&&◌, ◌||◌, List, Option, none, some, Bytes, codes, same, Result, ok,
  err, if◌then◌else◌,
}
use spaceship.Rpc.Pool.{
  State, ConnectionDetail, ConnQueue, Summary, get_connection_summary, get_connection_details,
}
use spaceship.Transport.Stats.{Stats}

pub data Page : Type 0 where
  stats_page health_page : Page

pub record Request : Type 0 where
  pub remote_addr : Bytes
  pub host : Bytes
  pub method : Bytes
  pub path : Bytes

-- `host_of` gives the host of a text that splits; `is_loopback` is whether a text is the literal of a
-- loopback IP; `page_of` is none where the multiplexer answers itself, as for an unknown path.
pub record NetLib : Type 0 where
  pub host_of : Bytes → Option Bytes
  pub is_loopback : Bytes → Bool
  pub equal_fold : Bytes → Bytes → Bool
  pub page_of : Request → Option Page

pub record StatsResponse : Type 0 where
  pub tx_total_bytes : ℕ
  pub rx_total_bytes : ℕ
  pub pool_total : ℕ
  pub pool_active : ℕ
  pub pool_load : ℕ
  pub connections : List ConnectionDetail

pub data Response : Type 0 where
  forbidden method_not_allowed health_ok other_answer : Response
  stats_json : StatsResponse → Response

-- What the handlers read: the counters, the pool if there is one, and gRPC's states. The pool is read
-- twice, under a lock each time; `summed` is what the first read finds, the loads included, and
-- `listed` what the second does.
pub record World : Type 0 where
  pub stats : Stats
  pub summed : Option ConnQueue
  pub listed : Option ConnQueue
  pub states : ℕ → State

-- `GetConnectionSummary` and `GetConnectionDetails` of the client.
unfoldable pub connection_summary : Option ConnQueue → Summary
connection_summary none = record { total = 0; active = 0; total_load = 0 }
connection_summary (some q) = get_connection_summary q

unfoldable pub connection_details : Option ConnQueue → (ℕ → State) → List ConnectionDetail
connection_details none states = List.[]
connection_details (some q) states = get_connection_details q states

unfoldable pub handle_stats : World → Request → Response
handle_stats w r =
    if not (same r.method (codes "GET"))
    then method_not_allowed
    else let s = connection_summary w.summed in
      stats_json (record {
        tx_total_bytes = w.stats.tx;
        rx_total_bytes = w.stats.rx;
        pool_total = s.total;
        pool_active = s.active;
        pool_load = s.total_load;
        connections = connection_details w.listed w.states;
      })

unfoldable pub handle_health : Request → Response
handle_health r = if not (same r.method (codes "GET")) then method_not_allowed else health_ok

module _ (lib : NetLib) where
  open lib use {host_of, is_loopback, equal_fold, page_of}

  abbrev pub bare_host : Bytes → Bytes
  bare_host text = elim (host_of text) [ none ↦ text | some host ↦ host ]

  unfoldable pub ip_is_loopback : Bytes → Bool
  ip_is_loopback hostport = is_loopback (bare_host hostport)

  unfoldable pub host_header_allowed : Bytes → Bool
  host_header_allowed host =
      equal_fold (bare_host host) (codes "localhost") || is_loopback (bare_host host)

  unfoldable pub serve_page : World → Request → Option Page → Response
  serve_page w r none = other_answer
  serve_page w r (some stats_page) = handle_stats w r
  serve_page w r (some health_page) = handle_health r

  unfoldable pub loopback_guard : (Request → Response) → Request → Response
  loopback_guard next r =
      if not (ip_is_loopback r.remote_addr)
      then forbidden
      else if not (host_header_allowed r.host)
      then forbidden
      else next r

  unfoldable pub handler : World → Request → Response
  handler w = loopback_guard (λ r. serve_page w r (page_of r))

  pub data StartError : Type 0 where
    not_loopback listen_failed : StartError

  -- `Start` up to the serving: the address that is listened on.
  unfoldable pub start : (Bytes → Bool) → Bytes → Result StartError Bytes
  start listen addr =
      if not (ip_is_loopback addr)
      then err not_loopback
      else if listen addr
      then ok addr
      else err listen_failed
