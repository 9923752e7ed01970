-- ===== src/Router/State.antt =====
-- The live route table, internal/router/cache.go and internal/router/routes.go. The package's
-- variables are a record, and each function is one critical section under `routesMu`; a nil route
-- pointer is `none`. `proxy_up` is whether `rpcClient.New` finds a connection.
pub mod Coherent
pub mod Versions
use spaceship.Base.{
  ℕ, suc, ◌+◌, ◌%◌, ◌^◌, Bool, true, false, ◌||◌, List, [], ◌∷◌, ◌++◌, Option, none, some, Bytes,
  ◌==◌, if◌then◌else◌, Result, ok, err, ◌>>=◌, map,
}
use spaceship.Hosts.{is_empty, normalize_host}
use spaceship.Router.Egress.{
  Egress, Error, Transport, supports_udp, get_transport, route_nil, route_not_found,
}
use spaceship.Router.Route.{Lib, Route, MatchType, no_cache, generate_cache, route_match}
use spaceship.Router.Table.{RoutesTable, set, get, reset, new_synced_routes_table, max_cache_size}

abbrev pub version_mod : ℕ
version_mod = 2 ^ 64

unfoldable pub normalize_route_key : Bytes → Bytes
normalize_route_key dst = let key = normalize_host dst in if is_empty key then dst else key

module _ (lib : Lib) where
  abbrev pub Routes : Type 0
  Routes = List (Option (Route lib))

  unfoldable pub clone_route : Option (Route lib) → Option (Route lib)
  clone_route none = none
  clone_route (some r) = some (record r { cache = no_cache lib })

  unfoldable pub clone_routes : Routes → Routes
  clone_routes = map clone_route

  -- `Routes.GenerateCache`
  unfoldable pub generate_routes : Routes → Result Error Routes
  generate_routes [] = ok []
  generate_routes (none ∷ rs) = err route_nil
  generate_routes (some r ∷ rs) = do
    r' ← generate_cache lib r
    rs' ← generate_routes rs
    ok (some r' ∷ rs')

  unfoldable pub prepare_routes : Routes → Result Error Routes
  prepare_routes routes = generate_routes (clone_routes routes)

  pub record Router : Type 0 where
    pub routes : Routes
    pub version : ℕ
    pub table : RoutesTable

  unfoldable pub start : Router
  start = record { routes = []; version = 0; table = new_synced_routes_table max_cache_size }

  -- New routes, a new version and an empty table.
  unfoldable pub replace : Router → Routes → Router
  replace s routes = record {
    routes = routes;
    version = (s.version + 1) % version_mod;
    table = reset s.table;
  }

  -- The loop of `Routes.GetRoute`: the destination of the first route that matches.
  unfoldable pub first_match : Routes → Bytes → Result Error Egress
  first_match [] key = err route_not_found
  first_match (none ∷ rs) key = err route_nil
  first_match (some r ∷ rs) key =
      if route_match lib r key then ok r.destination else first_match rs key

  unfoldable pub set_routes : Router → Routes → Router × Result Error (Unit {0})
  set_routes s r = elim (prepare_routes r) [
    | err e ↦ (s, err e)
    | ok prepared ↦ (replace s prepared, ok tt)
  ]

  unfoldable pub add_to_first_route : Router → Option (Route lib) → Router × Result Error (Unit {0})
  add_to_first_route s r = elim (prepare_routes (r ∷ [])) [
    | err e ↦ (s, err e)
    | ok prepared ↦ (replace s (prepared ++ s.routes), ok tt)
  ]

  unfoldable pub add_to_last_route : Router → Option (Route lib) → Router × Result Error (Unit {0})
  add_to_last_route s r = elim (prepare_routes (r ∷ [])) [
    | err e ↦ (s, err e)
    | ok prepared ↦ (replace s (s.routes ++ prepared), ok tt)
  ]

  -- `Routes.GetRoute`: a match is cached under its key.
  unfoldable pub look_up : Router → Bool → Bytes → Router × Result Error Transport
  look_up s proxy_up dst =
      let key = normalize_route_key dst in
      elim (first_match s.routes key) [
        | err e ↦ (s, err e)
        | ok egress ↦ (record s { table = set s.table key egress }, get_transport proxy_up egress)
      ]

  -- `GetRoute`: the table first. The lookup sets the entry's bit, found or not.
  unfoldable pub get_route : Router → Bool → Bytes → Router × Result Error Transport
  get_route s proxy_up dst =
      let key = normalize_route_key dst in
      let (table, found) = get s.table key in
      elim found [
        | some egress ↦ (record s { table = table }, get_transport proxy_up egress)
        | none ↦ look_up (record s { table = table }) proxy_up key
      ]

  unfoldable pub any_udp : Routes → Bool
  any_udp [] = false
  any_udp (none ∷ rs) = any_udp rs
  any_udp (some r ∷ rs) = supports_udp r.destination || any_udp rs

  unfoldable pub any_route_supports_udp : Router → Bool
  any_route_supports_udp s = any_udp s.routes

  -- The last part of a round of `GenerateCache`: the routes built from a snapshot are installed if
  -- the version is still the snapshot's; the result is whether they were.
  unfoldable pub commit : Router → ℕ → Routes → Router × Bool
  commit s version snapshot =
      if version == s.version then (replace s snapshot, true) else (s, false)
