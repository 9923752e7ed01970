-- ===== src/Socks/Header.antt =====
-- `ParseUDPHeader` and `MarshalUDPHeader` of internal/socks/udp.go.
pub mod Parse
pub mod RoundTrip
use spaceship.Base.{
  ℕ, ◌+◌, ◌*◌, ◌/◌, ◌%◌, Bool, true, false, not, ◌&&◌, ◌||◌, List, [], ◌∷◌, ◌++◌, Option, none,
  some, Bytes, length, leb, ltb, ◌==◌, if◌then◌else◌, Result, ok, err, ◌>>=◌, ◌>>◌, guard,
}
use spaceship.Net.{to4, to16}
use spaceship.Socks.Errors.{
  Error, at, slice, malformed, unrecognized_addr_type, fqdn_too_long, nil_address, invalid_address,
}

-- `AddrSpec` of internal/socks/request.go; a nil IP is the empty slice.
pub record AddrSpec : Type 0 where
  pub fqdn : Bytes
  pub ip : Bytes
  pub port : ℕ

abbrev pub ipv4_address : ℕ
ipv4_address = 1

abbrev pub fqdn_address : ℕ
fqdn_address = 3

abbrev pub ipv6_address : ℕ
ipv6_address = 4

-- RSV(2) + FRAG(1) + ATYP(1) + LEN(1) + FQDN(255) + PORT(2)
abbrev pub udp_max_header_len : ℕ
udp_max_header_len = 262

pub record UdpHeader : Type 0 where
  pub frag : ℕ
  pub addr : AddrSpec
  pub data_offset : ℕ

abbrev pub of_ip : Bytes → AddrSpec
of_ip ip = record { fqdn = []; ip = ip; port = 0 }

abbrev pub of_fqdn : Bytes → AddrSpec
of_fqdn name = record { fqdn = name; ip = []; port = 0 }

-- The `switch` on the address type: the address and the offset behind it.
unfoldable pub parse_addr : Bytes → ℕ → ℕ → Result Error (AddrSpec × ℕ)
parse_addr buf atyp off =
    if atyp == ipv4_address
    then (do
      guard (leb (off + 4 + 2) (length buf)) malformed
      ip ← slice buf off (off + 4)
      ok (of_ip ip, off + 4))
    else if atyp == ipv6_address
    then (do
      guard (leb (off + 16 + 2) (length buf)) malformed
      ip ← slice buf off (off + 16)
      ok (of_ip ip, off + 16))
    else if atyp == fqdn_address
    then (do
      guard (leb (off + 1) (length buf)) malformed
      fqdn_len ← at buf off
      guard (leb (off + 1 + fqdn_len + 2) (length buf)) malformed
      fqdn ← slice buf (off + 1) (off + 1 + fqdn_len)
      ok (of_fqdn fqdn, off + 1 + fqdn_len))
    else err unrecognized_addr_type

-- The port behind the address, and the header.
unfoldable pub parse_port : Bytes → ℕ → AddrSpec × ℕ → Result Error UdpHeader
parse_port buf frag (addr, off) = do
  guard (leb (off + 2) (length buf)) malformed
  hi ← at buf off
  lo ← at buf (off + 1)
  ok (record {
    frag = frag;
    addr = record addr { port = (hi * 256 + lo) % 65536 };
    data_offset = off + 2;
  })

unfoldable pub parse_udp_header : Bytes → Result Error UdpHeader
parse_udp_header buf = do
  guard (leb 4 (length buf)) malformed
  rsv0 ← at buf 0
  rsv1 ← at buf 1
  guard (rsv0 == 0 && rsv1 == 0) malformed
  frag ← at buf 2
  atyp ← at buf 3
  parsed ← parse_addr buf atyp 4
  parse_port buf frag parsed

-- The address type and the body of the header, before the port.
unfoldable pub addr_bytes : AddrSpec → Result Error (ℕ × Bytes)
addr_bytes addr = elim (to4 addr.ip) [
  | some v4 ↦ ok (ipv4_address, v4)
  | none ↦ elim (to16 addr.ip) [
    | some v6 ↦ ok (ipv6_address, v6)
    | none ↦
        if not (length addr.fqdn == 0)
        then if ltb 255 (length addr.fqdn)
          then err fqdn_too_long
          else ok (fqdn_address, (length addr.fqdn % 256) ∷ addr.fqdn)
        else err invalid_address
  ]
]

abbrev pub port_bytes : ℕ → Bytes
port_bytes port = (port / 256 % 256) ∷ (port % 256) ∷ []

-- The header of a nil address is an error.
unfoldable pub marshal_udp_header : Option AddrSpec → Result Error Bytes
marshal_udp_header none = err nil_address
marshal_udp_header (some addr) = do
  (atyp, body) ← addr_bytes addr
  ok (0 ∷ 0 ∷ 0 ∷ atyp ∷ (body ++ port_bytes addr.port))
