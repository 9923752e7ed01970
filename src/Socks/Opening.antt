-- ===== src/Socks/Opening.antt =====
-- The settings of the UDP relays and the opening of one, internal/socks/udp.go: `SetUDPSettings`,
-- `udpConfig`, `udpClientKey`, `relayBindAddress` and `NewUDPRelay`. Go's text of an IP and the
-- operating system's answer to a listen are parameters.
pub mod Grants
use spaceship.Base.{
  ℕ, Bool, true, false, not, ◌&&◌, ◌||◌, List, [], Option, none, some, Bytes, codes, if◌then◌else◌,
  Result, ok, err,
}
use spaceship.Hosts.{is_empty}
use spaceship.Net.{to4, is_unspecified}
use spaceship.Socks.Errors.{Error, association_limit, listen_error, udp_disabled}
use spaceship.Socks.Limiter.{Limiter, count, new_udp_resource_limiter, acquire, release}
use spaceship.Socks.Relay.{Relay, not_closing, or_default, default_max_nat_entries}

-- A number that is not positive is 0 here: the code tells only positive numbers apart.
pub record UdpSettings : Type 0 where
  pub disable : Bool
  pub max_associations : ℕ
  pub max_associations_per_client : ℕ
  pub max_nat_entries : ℕ
  pub max_nat_entries_global : ℕ
  pub max_nat_entries_per_client : ℕ

-- The package's variables.
pub record UdpConfig : Type 0 where
  pub udp_disabled : Bool
  pub udp_max_nat : ℕ
  pub udp_association_limiter : Limiter
  pub udp_nat_limiter : Limiter

unfoldable pub set_udp_settings : UdpSettings → UdpConfig
set_udp_settings s = record {
  udp_disabled = s.disable;
  udp_max_nat = or_default s.max_nat_entries default_max_nat_entries;
  udp_association_limiter =
      new_udp_resource_limiter (or_default s.max_associations 64)
        (or_default s.max_associations_per_client 8);
  udp_nat_limiter =
      new_udp_resource_limiter (or_default s.max_nat_entries_global 512)
        (or_default s.max_nat_entries_per_client 256);
}

pub data Network : Type 0 where
  udp4 udp6 : Network

module _ (ip_text : Bytes → Bytes) where
  unfoldable pub udp_client_key : Bytes → Bytes
  udp_client_key ip =
      if is_empty ip || is_unspecified ip
      then codes "unknown"
      else elim (to4 ip) [ some v4 ↦ ip_text v4 | none ↦ ip_text ip ]

  -- The network and the host; the port is 0.
  unfoldable pub relay_bind_address : Bytes → Network × Bytes
  relay_bind_address local_ip =
      if not (is_empty local_ip) && not (is_unspecified local_ip)
      then elim (to4 local_ip) [
        | some _ ↦ (udp4, ip_text local_ip)
        | none ↦ (udp6, ip_text local_ip)
      ]
      else (udp4, codes "127.0.0.1")

  abbrev pub relay_of : Bytes → Option Limiter → Limiter → ℕ → Relay
  relay_of client_key associations nat max_nat = record {
    table = [];
    done = false;
    client_key = client_key;
    max_nat_entries = or_default max_nat default_max_nat_entries;
    nat_limiter = some nat;
    association_limiter = associations;
    association_held = true;
    live = [];
    next = 0;
    dialed = [];
    closing = not_closing;
    installed = [];
    serving = [];
    others = count nat client_key;
  }

  -- `newUDPRelayWithListener`, with the association limiter that it leaves behind.
  unfoldable pub new_udp_relay_with_listener :
      Bytes
      → Bytes
      → Limiter
      → Limiter
      → ℕ
      → (Network × Bytes → Bool)
      → Option Limiter × Result Error Relay
  new_udp_relay_with_listener client_ip local_ip associations nat max_nat listen =
      let client_key = udp_client_key client_ip in
      let (l, granted) = acquire (some associations) client_key in
      if not granted
      then (l, err association_limit)
      else if not (listen (relay_bind_address local_ip))
      then (release l client_key, err listen_error)
      else (l, ok (relay_of client_key l nat max_nat))

  unfoldable pub new_udp_relay :
      UdpConfig → Bytes → Bytes → (Network × Bytes → Bool) → Option Limiter × Result Error Relay
  new_udp_relay config client_ip local_ip listen =
      if config.udp_disabled
      then (some config.udp_association_limiter, err udp_disabled)
      else new_udp_relay_with_listener client_ip local_ip config.udp_association_limiter
          config.udp_nat_limiter config.udp_max_nat listen
