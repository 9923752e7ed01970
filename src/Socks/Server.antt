-- ===== src/Socks/Server.antt =====
-- A client connection from its first byte on: `ServeConn` of internal/socks/socks.go and the handlers
-- of internal/socks/request.go. What the router, the transports and the UDP relay answer are the
-- records `Connects` and `Associates`; the bytes that a transport copies are not modelled.
pub mod Gate
pub mod Replies
use spaceship.Base.{
  ℕ, Bool, true, false, not, ◌&&◌, ◌||◌, List, [], ◌∷◌, Option, none, some, Bytes, ◌==◌,
  if◌then◌else◌, Result, ok, err,
}
use spaceship.Hosts.{is_empty}
use spaceship.Net.{is_unspecified}
use spaceship.Socks.Auth.{AuthContext, Credentials, authenticate, socks5_version}
use spaceship.Socks.Errors.{
  Error, unsupported_version, unsupported_command, unrecognized_addr_type, illegal_request,
  dial_error, udp_disabled, unusable_address,
}
use spaceship.Socks.Header.{AddrSpec, of_ip}
use spaceship.Socks.Request.{
  Request, new_request, send_reply, success_reply, server_failure, rule_failure,
  network_unreachable, command_not_supported, addr_type_not_supported,
}
use spaceship.Socks.Wire.{Conn, M, ◌>>=◌, ◌>>◌, return, throw, check, read_byte, write}

-- What comes over the channel `localAddr`, split and parsed: the channel is closed or the text is
-- empty, the text does not split, or an IP (empty if it does not parse) and a port.
pub data LocalAddr : Type 0 where
  closed unsplit : LocalAddr
  bound : Bytes → ℕ → LocalAddr

pub record Connects : Type 0 where
  pub routed : Bool
  pub local : LocalAddr

-- `NewUDPRelay`: an error, or the address that the relay is bound to.
pub data RelayResult : Type 0 where
  refused : Error → RelayResult
  listening : Bytes → ℕ → RelayResult

pub record Associates : Type 0 where
  pub disabled : Bool
  pub udp_routed : Bool
  pub relay : RelayResult
  pub local_ip : Bytes

-- The second goroutine of `handleConnect`.
unfoldable pub announce : LocalAddr → M (Unit {0})
announce closed = send_reply network_unreachable none >> throw dial_error
announce unsplit = throw dial_error
announce (bound ip port) =
    send_reply success_reply (some (record { fqdn = []; ip = ip; port = port }))

-- An error of the group is logged, and the handler returns nil.
unfoldable pub logged : M (Unit {0}) → M (Unit {0})
logged m c = ((m c).0, ok tt)

unfoldable pub handle_connect : Connects → M (Unit {0})
handle_connect o = if not o.routed then send_reply rule_failure none else logged (announce o.local)

unfoldable pub handle_bind : M (Unit {0})
handle_bind = send_reply command_not_supported none

abbrev pub is_disabled : Error → Bool
is_disabled udp_disabled = true
is_disabled _ = false

abbrev pub no_address : Bytes → Bool
no_address ip = is_empty ip || is_unspecified ip

-- The address of the reply: the client's side of the connection stands in for an unspecified one.
unfoldable pub bind_ip : Bytes → Bytes → Bytes
bind_ip ip local_ip = if is_unspecified ip && not (is_empty local_ip) then local_ip else ip

unfoldable pub report_relay : RelayResult → Bytes → M (Unit {0})
report_relay (refused e) local_ip = do
  send_reply (if is_disabled e then command_not_supported else server_failure) none
  throw e
report_relay (listening ip port) local_ip =
    if no_address (bind_ip ip local_ip)
    then send_reply server_failure none >> throw unusable_address
    else send_reply success_reply
        (some (record { fqdn = []; ip = bind_ip ip local_ip; port = port }))

unfoldable pub handle_associate : Associates → M (Unit {0})
handle_associate o =
    if o.disabled || not o.udp_routed
    then send_reply command_not_supported none
    else report_relay o.relay o.local_ip

unfoldable pub handle_request : Connects → Associates → AuthContext → Request → M (Unit {0})
handle_request connects associates ctx req =
    if req.command == 1
    then handle_connect connects
    else if req.command == 2
    then handle_bind
    else if req.command == 3
    then handle_associate associates
    else (send_reply command_not_supported none >> throw unsupported_command)

abbrev pub Handler : Type 0
Handler = AuthContext → Request → M (Unit {0})

-- `NewRequest` with the reply to an address type that is not recognized.
abbrev pub explain : Error → M Request
explain unrecognized_addr_type =
    send_reply addr_type_not_supported none >> throw unrecognized_addr_type
explain e = throw e

unfoldable pub read_request : M Request
read_request c =
    let (c', r) = new_request c in elim r [ ok req ↦ (c', ok req) | err e ↦ explain e c' ]

module _ (digest : Bytes → Bytes) (creds : Credentials) (remote_ok : Bool) (handle : Handler) where
  -- `remote_ok` is whether the peer's port is a port.
  unfoldable pub serve_request : AuthContext → M (Unit {0})
  serve_request ctx = read_request >>= λ req. check remote_ok illegal_request >> handle ctx req

  unfoldable pub serve_version : ℕ → M (Unit {0})
  serve_version version =
      check (version == socks5_version) unsupported_version
      >> (authenticate digest creds >>= serve_request)

  unfoldable pub serve_conn : M (Unit {0})
  serve_conn = read_byte >>= serve_version
