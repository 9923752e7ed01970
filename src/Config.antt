-- ===== src/Config.antt =====
-- `MixedConfig.Apply` of pkg/config/config.go: the variables of the program that it sets, as one
-- state, and its parts in order.
pub mod Logging
pub mod Resolver
pub mod Stages
pub mod Careful
pub mod Rejected
pub mod Applied
pub mod Users
pub mod Buffer
use spaceship.Base.{
  ℕ, ◌*◌, ◌-◌, ◌/◌, ◌^◌, Bool, true, false, not, ◌&&◌, ◌||◌, List, [], ◌∷◌, ◌++◌, Option, none,
  some, Bytes, codes, ltb, if◌then◌else◌, Result, ok, err,
}
use spaceship.Config.Logging.{Logger}
use spaceship.Config.Resolver.{Dns}
use spaceship.Router.Egress.{Error as RouteError}
use spaceship.Router.Route.{Lib}
use spaceship.Router.State.{Router, Routes}
use spaceship.Socks.Opening.{UdpConfig}
use spaceship.Transport.Settings.{Settings}

pub data ℤ : Type 0 where
  pos negsuc : ℕ → ℤ

pub data Role : Type 0 where
  client server : Role
  other : Bytes → Role

-- The section `udp` of the client.
pub record Udp : Type 0 where
  pub disable : Bool
  pub max_associations : ℤ
  pub max_associations_per_client : ℤ
  pub max_nat_entries : ℤ
  pub max_nat_entries_total : ℤ
  pub max_nat_entries_per_client : ℤ

-- The fields that `Apply` reads, those of `Client` and `Server` among them.
pub record MixedConfig (lib : Lib) : Type 0 where
  pub role : Role
  pub dns : Option Dns
  pub log_mode : Bytes
  pub decoded_from_json : Bool
  pub idle_timeout_set : Bool
  pub uuid : Bytes
  pub routes : Routes lib
  pub idle_timeout : ℤ
  pub udp : Option Udp
  pub path : Bytes
  pub buffer : ℕ
  pub ipv6 : Bool
  pub forward : Bytes

pub data Error : Type 0 where
  invalid_role idle_negative idle_too_long dns_not_implemented buffer_too_large : Error
  udp_negative uuid_empty proxy_invalid : Error
  routes_invalid : RouteError → Error

-- The variables of the packages that are set: the logger, the resolver, the transports' settings, the
-- UDP settings of SOCKS, the service name, the client's id, the forward proxy, and the router.
pub record Program (lib : Lib) : Type 0 where
  pub logger : Logger
  pub resolver : Option Dns
  pub settings : Settings
  pub udp_config : UdpConfig
  pub service_name : Bytes
  pub user_id : Bytes
  pub forward_proxy : Option Bytes
  pub router : Router lib

-- `os.OpenFile` for the log, and whether `utils.LoadProxy` takes an address.
pub record Machine : Type 0 where
  pub opens : Bytes → Bool
  pub loads_proxy : Bytes → Bool

abbrev pub max_transport_buffer_size : ℕ
max_transport_buffer_size = 4 * 1024 * 1024 - 1024

abbrev pub max_idle_timeout_seconds : ℕ
max_idle_timeout_seconds = 9_223_372_036

-- A part changes the program, and may fail.
abbrev pub Stage : Lib → Type 0
Stage lib = Program lib → Program lib × Result Error (Unit {0})

unfoldable pub run_all : {lib : Lib} → List (Stage lib) → Stage lib
run_all [] p = (p, ok tt)
run_all (f ∷ fs) p = let (p', r) = f p in elim r [ err e ↦ (p', err e) | ok _ ↦ run_all fs p' ]
