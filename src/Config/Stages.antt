-- ===== src/Config/Stages.antt =====
-- The parts of `Apply`.
use spaceship.Base.{
  ℕ, ◌*◌, Bool, true, false, not, ◌||◌, [], ◌∷◌, Option, none, some, codes, ltb, if◌then◌else◌,
  Result, ok, err,
}
use spaceship.Config.Logging.{set_mode}
use spaceship.Config.Resolver.{set_resolver}
use spaceship.Config.{
  ℤ, pos, negsuc, Role, client, server, other, Udp, MixedConfig, Error, invalid_role, idle_negative,
  idle_too_long, dns_not_implemented, buffer_too_large, udp_negative, uuid_empty, proxy_invalid,
  routes_invalid, Program, Machine, max_transport_buffer_size, max_idle_timeout_seconds, Stage,
  run_all,
}
use spaceship.Hosts.{is_empty}
use spaceship.Router.Egress.{Egress}
use spaceship.Router.Route.{Lib, Route, MatchType, no_cache}
use spaceship.Router.State.{Routes, clone_route, set_routes}
use spaceship.Socks.Opening.{UdpSettings, set_udp_settings}
use spaceship.Transport.Settings.{
  second, set_buffer_size, enable_ipv6, disable_ipv6, set_idle_timeout,
}

abbrev pub done : {lib : Lib} → Program lib → Program lib × Result Error (Unit {0})
done p = (p, ok tt)

abbrev pub fails : {lib : Lib} → Program lib → Error → Program lib × Result Error (Unit {0})
fails p e = (p, err e)

abbrev pub is_negative : ℤ → Bool
is_negative (pos n) = false
is_negative (negsuc n) = true

-- A number that is not negative.
abbrev pub to_nat : ℤ → ℕ
to_nat (pos n) = n
to_nat (negsuc n) = 0

unfoldable pub is_known : Role → Bool
is_known client = true
is_known server = true
is_known (other _) = false

unfoldable pub any_negative : Udp → Bool
any_negative u =
    is_negative u.max_associations
    || (is_negative u.max_associations_per_client
        || (is_negative u.max_nat_entries
            || (is_negative u.max_nat_entries_total || is_negative u.max_nat_entries_per_client)))

unfoldable pub udp_is_negative : Option Udp → Bool
udp_is_negative none = false
udp_is_negative (some u) = any_negative u

abbrev pub is_client : Role → Bool
is_client client = true
is_client server = false
is_client (other _) = false

-- An absent section is the zero settings.
unfoldable pub udp_settings : Option Udp → UdpSettings
udp_settings none = record {
  disable = false;
  max_associations = 0;
  max_associations_per_client = 0;
  max_nat_entries = 0;
  max_nat_entries_global = 0;
  max_nat_entries_per_client = 0;
}
udp_settings (some u) = record {
  disable = u.disable;
  max_associations = to_nat u.max_associations;
  max_associations_per_client = to_nat u.max_associations_per_client;
  max_nat_entries = to_nat u.max_nat_entries;
  max_nat_entries_global = to_nat u.max_nat_entries_total;
  max_nat_entries_per_client = to_nat u.max_nat_entries_per_client;
}

module _ (lib : Lib) (machine : Machine) (c : MixedConfig lib) where
  unfoldable pub check_role : Stage lib
  check_role p = if is_known c.role then done p else fails p invalid_role

  unfoldable pub applies_idle_timeout : Bool
  applies_idle_timeout = not c.decoded_from_json || c.idle_timeout_set

  unfoldable pub check_idle_timeout : Stage lib
  check_idle_timeout p =
      if not applies_idle_timeout
      then done p
      else if is_negative c.idle_timeout
      then fails p idle_negative
      else if ltb max_idle_timeout_seconds (to_nat c.idle_timeout)
      then fails p idle_too_long
      else done p

  unfoldable pub set_log : Stage lib
  set_log p = done (record p { logger = set_mode machine.opens p.logger c.log_mode })

  unfoldable pub set_dns : Stage lib
  set_dns p = elim c.dns [
    | none ↦ done p
    | some d ↦ elim (set_resolver p.resolver d) [
      | none ↦ fails p dns_not_implemented
      | some r ↦ done (record p { resolver = r })
    ]
  ]

  unfoldable pub set_buffer : Stage lib
  set_buffer p =
      if not (ltb 0 c.buffer)
      then done p
      else if ltb max_transport_buffer_size (c.buffer * 1024)
      then fails p buffer_too_large
      else done (record p { settings = set_buffer_size p.settings c.buffer })

  unfoldable pub set_udp : Stage lib
  set_udp p =
      if udp_is_negative c.udp
      then fails p udp_negative
      else done (record p { udp_config = set_udp_settings (udp_settings c.udp) })

  unfoldable pub set_path : Stage lib
  set_path p = if is_empty c.path then done p else done (record p { service_name = c.path })

  unfoldable pub set_user : Stage lib
  set_user p =
      if not (is_client c.role)
      then done p
      else if is_empty c.uuid
      then fails p uuid_empty
      else done (record p { user_id = c.uuid })

  unfoldable pub set_forward : Stage lib
  set_forward p =
      if is_empty c.forward
      then done p
      else if machine.loads_proxy c.forward
      then done (record p { forward_proxy = some c.forward })
      else fails p proxy_invalid

  -- `RouteClientDefault`, `RouteServerDefault` and `RouteBlockIPv6` of internal/router/route.go.
  unfoldable pub default_route : Egress → Route lib
  default_route egress = record {
    sources = [];
    ext = [];
    destination = egress;
    match_type = MatchType.default;
    cache = no_cache lib;
  }

  unfoldable pub route_block_ipv6 : Route lib
  route_block_ipv6 = record {
    sources = codes "::/0" ∷ [];
    ext = [];
    destination = Egress.block;
    match_type = MatchType.cidr;
    cache = no_cache lib;
  }

  unfoldable pub base_routes : Routes lib
  base_routes = elim c.routes [
    | [] ↦
        clone_route lib
          (some (default_route (if is_client c.role then Egress.proxy else Egress.direct)))
        ∷ []
    | _ ∷ _ ↦ c.routes
  ]

  unfoldable pub all_routes : Routes lib
  all_routes = if c.ipv6 then base_routes else some route_block_ipv6 ∷ base_routes

  unfoldable pub install_routes : Stage lib
  install_routes p =
      let (router, r) = set_routes lib p.router all_routes in
      elim r [
        | err e ↦ fails (record p { router = router }) (routes_invalid e)
        | ok _ ↦ done (record p { router = router })
      ]

  -- The parts behind the routes do not fail.
  unfoldable pub set_ipv6 : Stage lib
  set_ipv6 p =
      done
        (record p { settings = if c.ipv6 then enable_ipv6 p.settings else disable_ipv6 p.settings })

  unfoldable pub set_idle : Stage lib
  set_idle p =
      if applies_idle_timeout
      then done
          (record p { settings = set_idle_timeout p.settings (to_nat c.idle_timeout * second) })
      else done p

  unfoldable pub apply : Stage lib
  apply = run_all (
      check_role ∷ check_idle_timeout ∷ set_log ∷ set_dns ∷ set_buffer ∷ set_udp ∷ set_path
      ∷ set_user ∷ set_forward ∷ install_routes ∷ set_ipv6 ∷ set_idle ∷ [])
