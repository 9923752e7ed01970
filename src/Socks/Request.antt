-- ===== src/Socks/Request.antt =====
-- The requests and replies of internal/socks/request.go on the wire.
pub mod Reply
use spaceship.Base.{
  ℕ, ◌+◌, ◌*◌, ◌/◌, ◌%◌, Bool, true, false, List, [], ◌∷◌, ◌++◌, Option, none, some, Bytes, ◌==◌,
  if◌then◌else◌, Result, ok, err,
}
use spaceship.Net.{to4, to16}
use spaceship.Socks.Auth.{socks5_version}
use spaceship.Socks.Errors.{
  Error, byte_at, unrecognized_addr_type, unsupported_version, invalid_address,
}
use spaceship.Socks.Header.{
  AddrSpec, of_ip, of_fqdn, ipv4_address, ipv6_address, fqdn_address, port_bytes,
}
use spaceship.Socks.Wire.{Conn, M, ◌>>=◌, ◌>>◌, return, throw, check, read_full, read_byte, write}

abbrev pub success_reply : ℕ
success_reply = 0

abbrev pub server_failure : ℕ
server_failure = 1

abbrev pub rule_failure : ℕ
rule_failure = 2

abbrev pub network_unreachable : ℕ
network_unreachable = 3

abbrev pub command_not_supported : ℕ
command_not_supported = 7

abbrev pub addr_type_not_supported : ℕ
addr_type_not_supported = 8

abbrev pub with_port : AddrSpec → Bytes → AddrSpec
with_port d port = record d { port = (byte_at port 0 * 256 + byte_at port 1) % 65536 }

-- The address behind its type byte, and then the port.
unfoldable pub read_port : AddrSpec → M AddrSpec
read_port d = do port ← read_full 2; return (with_port d port)

unfoldable pub read_ip : Bytes → M AddrSpec
read_ip ip = read_port (of_ip ip)

unfoldable pub read_name : Bytes → M AddrSpec
read_name name = read_port (of_fqdn name)

unfoldable pub read_body : ℕ → M AddrSpec
read_body atyp =
    if atyp == ipv4_address
    then read_full 4 >>= read_ip
    else if atyp == ipv6_address
    then read_full 16 >>= read_ip
    else if atyp == fqdn_address
    then (do addr_len ← read_byte; read_full addr_len >>= read_name)
    else throw unrecognized_addr_type

unfoldable pub read_addr_spec : M AddrSpec
read_addr_spec = read_byte >>= read_body

-- `RemoteAddr` and `AuthContext` are set by `ServeConn`.
pub record Request : Type 0 where
  pub version : ℕ
  pub command : ℕ
  pub dest_addr : AddrSpec

unfoldable pub read_dest : Bytes → M Request
read_dest header = do
  check (byte_at header 0 == socks5_version) unsupported_version
  dest ← read_addr_spec
  return (record { version = socks5_version; command = byte_at header 1; dest_addr = dest })

unfoldable pub new_request : M Request
new_request = read_full 3 >>= read_dest

abbrev pub reply_of : ℕ → ℕ → Bytes → ℕ → Bytes
reply_of resp atyp body port = socks5_version ∷ resp ∷ 0 ∷ atyp ∷ (body ++ port_bytes port)

-- The message of `sendReply`.
unfoldable pub reply_bytes : ℕ → Option AddrSpec → Result Error Bytes
reply_bytes resp none = ok (reply_of resp ipv4_address (0 ∷ 0 ∷ 0 ∷ 0 ∷ []) 0)
reply_bytes resp (some addr) = elim (to4 addr.ip) [
  | some v4 ↦ ok (reply_of resp ipv4_address v4 addr.port)
  | none ↦ elim (to16 addr.ip) [
    | some v6 ↦ ok (reply_of resp ipv6_address v6 addr.port)
    | none ↦ err invalid_address
  ]
]

unfoldable pub send_reply : ℕ → Option AddrSpec → M (Unit {0})
send_reply resp addr = elim (reply_bytes resp addr) [ ok msg ↦ write msg | err e ↦ throw e ]
