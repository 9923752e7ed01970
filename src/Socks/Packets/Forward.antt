-- ===== src/Socks/Packets/Forward.antt =====
-- Which datagrams are forwarded, and what of them.
use spaceship.Base.{
  ℕ, ◌<◌, ◌++◌, none, some, ◌≡◌, refl, Bytes, if◌then◌else◌, ok, Bool-cases, inl, inr,
}
use spaceship.Socks.Header.RoundTrip.{canonical, parse-marshal}
use spaceship.Socks.Header.{AddrSpec, marshal_udp_header}
use spaceship.Socks.Packets.{udp_addr, is_stranger, whole, handle_packet}

-- A datagram of a header that `MarshalUDPHeader` built of `a`, its port a 16-bit one, and a
-- payload: from the client it is forwarded, the payload to the canonical form of `a`; from another
-- host it is dropped. Where the client's address is unknown or unspecified, no host is another.
pub handle_packet-marshalled :
    (client_ip ip : Bytes) (port : ℕ) (a : AddrSpec) (payload header : Bytes)
    → a.port < 65536
    → marshal_udp_header (some a) ≡ ok header
    → handle_packet client_ip (udp_addr ip port) (header ++ payload)
      ≡ (if is_stranger client_ip ip then none else some (canonical a, payload))
unfolding handle_packet whole
handle_packet-marshalled client_ip ip port a payload header h m =
    let (parsed, _, rest) = parse-marshal a payload header h m in
    elim (Bool-cases (is_stranger client_ip ip)) [
      | inl strange ↦ rw strange refl
      | inr known ↦ rw (known, parsed, whole, rest) refl
    ]
