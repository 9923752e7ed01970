-- ===== src/Launching.antt =====
-- The launcher, api/launcher.go with api/stopper.go: what a configuration starts, and what the
-- launch returns. `uuid.Parse` is a parameter, as are the variables that `Init` takes (`Setup`).
pub mod Guarded
use spaceship.Base.{
  ℕ, Bool, true, false, not, ◌==◌, List, [], ◌∷◌, ◌++◌, Option, none, some, Bytes, codes, insert,
  Result, ok, err, if◌then◌else◌,
}
use spaceship.Config.Stages.{apply}
use spaceship.Config.{MixedConfig, Program, Machine, Role, client, server, other}
use spaceship.Hosts.{is_empty}
use spaceship.Http.Basic.{cut_colon}
use spaceship.Router.Route.{Lib}
use spaceship.Rpc.Client.Setup.{Vars, Credential, SetupError, init_client, destroy_client}
use spaceship.Socks.Auth.{Credentials}

-- The fields that the launcher reads, beside those that `Apply` does.
pub record Launch : Type 0 where
  pub mux : ℕ
  pub uuid : Bytes
  pub basic_auth : List Bytes
  pub listen : Bytes
  pub listen_socks : Bytes
  pub listen_socks_unix : Bytes
  pub listen_http : Bytes
  pub listen_dns : Bytes
  pub block_ipv6_dns : Bool

-- A service with the address that it listens on; a nil map of credentials is the empty list.
pub data Service : Type 0 where
  socks_service : (network addr : Bytes) → Credentials → Service
  http_service : (addr : Bytes) → Credentials → Service
  dns_service : (addr : Bytes) → (block_ipv6 : Bool) → Service
  rpc_service : (addr : Bytes) → Service

pub data LaunchError : Type 0 where
  invalid_uuid init_failed basic_auth_format unrecognized_role : LaunchError
  apply_failed server_failed process_failed : LaunchError

-- The map of `basic_auth`, entry by entry.
unfoldable pub add_credentials : Credentials → List Bytes → Option Credentials
add_credentials creds [] = some creds
add_credentials creds (s ∷ ss) = elim (cut_colon s) [
  | none ↦ none
  | some (user, password) ↦ add_credentials (insert user password creds) ss
]

unfoldable pub parse_credentials : List Bytes → Option Credentials
unfolding add_credentials
parse_credentials ss = add_credentials [] ss

-- A name that is no path is one of Linux's abstract sockets.
unfoldable pub unix_address : Bytes → Bytes
unix_address [] = []
unix_address (c ∷ cs) = if c == b'/' then c ∷ cs else 0 ∷ c ∷ cs

abbrev pub if_given : Bytes → Service → List Service
if_given addr s = if is_empty addr then [] else s ∷ []

unfoldable pub services_of : Launch → Credentials → List Service
unfolding unix_address
services_of l creds =
    if_given l.listen_socks (socks_service (codes "tcp") l.listen_socks creds)
    ++ (if_given l.listen_socks_unix
          (socks_service (codes "unix") (unix_address l.listen_socks_unix) creds)
        ++ (if_given l.listen_http (http_service l.listen_http creds)
            ++ if_given l.listen_dns (dns_service l.listen_dns l.block_ipv6_dns)))

-- What the group of services ends with: the first error, if any.
pub data Ended : Type 0 where
  no_failure signal_arrived context_canceled service_failed : Ended

unfoldable pub launch_result : Ended → Result LaunchError (Unit {0})
launch_result no_failure = ok tt
launch_result signal_arrived = ok tt
launch_result context_canceled = ok tt
launch_result service_failed = err process_failed

-- What is started, and what is returned then.
abbrev pub Launched : Type 0
Launched = List Service × Result LaunchError (Unit {0})

unfoldable pub start_services : Launch → Option Credentials → Ended → Launched
start_services l none ended = ([], err basic_auth_format)
start_services l (some creds) ended = (services_of l creds, launch_result ended)

-- `launchClient`: the variables of the client and the connections closed at its end, where the pool is
-- destroyed; and what it starts and returns. `dials` gives the handles of the pool's connections.
unfoldable pub launch_client :
    (parses : Bytes → Bool)
    → Launch
    → Vars
    → Result SetupError Credential
    → (dials : ℕ → Option ℕ) → Ended
    → Vars × Option (List ℕ) × Launched
launch_client parses l v credential dials ended =
    if not (parses l.uuid)
    then (v, some [], ([], err invalid_uuid))
    else let (v', inited) = init_client v credential l.mux dials in
      let (last, closed) = destroy_client v' in
      elim inited [
        | err _ ↦ (last, closed, ([], err init_failed))
        | ok _ ↦ (last, closed, start_services l (parse_credentials l.basic_auth) ended)
      ]

-- `launchServer`; `created` is whether `NewServer` succeeds.
unfoldable pub launch_server : Launch → (created : Bool) → Ended → Launched
launch_server l created ended =
    if created then (rpc_service l.listen ∷ [], launch_result ended) else ([], err server_failed)

module _ (lib : Lib) (machine : Machine) where
  -- The mode of the log that `skipInternalLogging` puts in the configuration.
  unfoldable pub with_mode : Bool → MixedConfig lib → MixedConfig lib
  with_mode skips c = if skips then record c { log_mode = codes "skip" } else c

  -- What `Launch` is given beside the configuration.
  pub record Given : Type 0 where
    pub parses : Bytes → Bool
    pub vars : Vars
    pub credential : Result SetupError Credential
    pub dials : ℕ → Option ℕ
    pub created : Bool
    pub ended : Ended

  unfoldable pub launch_role : Launch → Given → Role → Launched
  launch_role l g client = (launch_client g.parses l g.vars g.credential g.dials g.ended).2
  launch_role l g server = launch_server l g.created g.ended
  launch_role l g (other r) = ([], err unrecognized_role)

  -- `Launch`, with the program's variables that `Apply` leaves.
  unfoldable pub launch :
      (skips : Bool) → MixedConfig lib → Launch → Given → Program lib → Program lib × Launched
  unfolding with_mode launch_role
  launch skips c l g p =
      let (p', r) = apply lib machine (with_mode skips c) p in
      elim r [ err _ ↦ (p', ([], err apply_failed)) | ok _ ↦ (p', launch_role l g c.role) ]
