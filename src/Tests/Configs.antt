-- ===== src/Tests/Configs.antt =====
-- Configurations at concrete inputs.
use spaceship.Base.{
  true, false, [], none, some, ◌≡◌, refl, Bytes, codes, same, ok, err, if◌then◌else◌,
}
use spaceship.Config.Applied.{apply-blocks_ipv6}
use spaceship.Config.Logging.{stdout}
use spaceship.Config.Careful.{Keeps}
use spaceship.Config.Rejected.{apply-Keeps}
use spaceship.Config.Stages.{
  is_known, apply, check_role, applies_idle_timeout, check_idle_timeout, set_log, set_dns,
  set_buffer, udp_is_negative, set_udp, set_path, set_user, set_forward, default_route,
  route_block_ipv6, base_routes, all_routes, install_routes, set_ipv6, set_idle, udp_settings,
}
use spaceship.Config.{MixedConfig, Role, client, pos, Program, Machine, invalid_role, run_all}
use spaceship.Hosts.{
  normalize_host, to_lower, is_space, trim_space, trim_left, trim_right, is_dot, lower,
}
use spaceship.Router.Egress.{blocked}
use spaceship.Router.Route.{Lib, all_sources, cache_of, parse_prefixes, generate_cache}
use spaceship.Router.State.Coherent.{start-IsCoherent}
use spaceship.Router.State.{
  start, get_route, normalize_route_key, clone_route, clone_routes, generate_routes, prepare_routes,
  set_routes,
}
use spaceship.Socks.Opening.{set_udp_settings}
use spaceship.Transport.Settings.{default_settings}

-- The one address is `::1`, and each prefix has it.
abbrev pub lib : Lib
lib = record {
  Regexp = Bytes;
  Prefix = Bytes;
  Addr = Bytes;
  compile = some;
  match_string = same;
  parse_prefix = some;
  parse_addr = λ s. if same s (codes "::1") then some s else none;
  contains = λ p a. true;
  read_lines = λ _. none;
}

abbrev pub machine : Machine
machine = record { opens = λ _. true; loads_proxy = λ _. true }

abbrev pub program : Program lib
program = record {
  logger = record { output = stdout; log_file = none };
  resolver = none;
  settings = default_settings;
  udp_config = set_udp_settings (udp_settings none);
  service_name = codes "proxy.Proxy";
  user_id = [];
  forward_proxy = none;
  router = start lib;
}

abbrev pub config_of : Role → MixedConfig lib
config_of role = record {
  role = role;
  dns = none;
  log_mode = [];
  decoded_from_json = true;
  idle_timeout_set = false;
  uuid = codes "u";
  routes = [];
  idle_timeout = pos 0;
  udp = none;
  path = [];
  buffer = 64;
  ipv6 = false;
  forward = [];
}

config_refused :
    (apply lib machine (config_of (Role.other (codes "x"))) program).1 ≡ err invalid_role
unfolding apply run_all check_role is_known
config_refused = refl

apply-Keeps_example :
    Keeps program (apply lib machine (config_of (Role.other (codes "x"))) program).0
apply-Keeps_example =
    apply-Keeps lib machine (config_of (Role.other (codes "x"))) program invalid_role config_refused

config_applied : (apply lib machine (config_of client) program).1 ≡ ok tt
unfolding apply run_all check_role is_known check_idle_timeout applies_idle_timeout set_log set_dns
    set_buffer set_udp udp_is_negative set_path set_user set_forward install_routes set_routes
    prepare_routes generate_routes clone_routes clone_route generate_cache all_sources cache_of
    parse_prefixes trim_space trim_left trim_right is_space all_routes base_routes default_route
    route_block_ipv6 set_ipv6 set_idle
config_applied = refl

loopback : normalize_route_key (codes "::1") ≡ codes "::1"
unfolding normalize_route_key normalize_host trim_space trim_left trim_right is_space is_dot
    to_lower lower
loopback = refl

loopback_address : lib.parse_addr (codes "::1") ≡ some (codes "::1")
unfolding same
loopback_address = refl

apply-blocks_ipv6_example :
    (get_route lib (apply lib machine (config_of client) program).0.router true (codes "::1")).1
    ≡ err blocked
apply-blocks_ipv6_example =
    apply-blocks_ipv6 lib machine (config_of client) (codes "::/0") program (codes "::1")
      (codes "::1") true refl loopback_address refl loopback refl (start-IsCoherent lib)
      config_applied
