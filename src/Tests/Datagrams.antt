-- ===== src/Tests/Datagrams.antt =====
-- Datagrams and the opening of a relay at concrete inputs.
use spaceship.Base.{ℕ, zero, suc, [], ◌∷◌, ◌++◌, some, ◌≡◌, refl, Bytes, codes, length, ok, same}
use spaceship.Net.{to4, ip_equal}
use spaceship.Socks.Header.{AddrSpec, marshal_udp_header, addr_bytes, udp_max_header_len}
use spaceship.Socks.Packets.{
  udp_addr, reverse_packet, source_matches_target, addr_spec_from_net_addr, copy_at, prepend,
  prepend_result,
}

abbrev pub host : Bytes
host = 127 ∷ 0 ∷ 0 ∷ 1 ∷ []

abbrev target : AddrSpec
target = record { fqdn = []; ip = host; port = 53 }

abbrev target_header : Bytes
target_header = 0 ∷ 0 ∷ 0 ∷ 1 ∷ 127 ∷ 0 ∷ 0 ∷ 1 ∷ 0 ∷ 53 ∷ []

marshalled : marshal_udp_header (some target) ≡ ok target_header
unfolding marshal_udp_header addr_bytes to4
marshalled = refl

abbrev pub zeros : ℕ → Bytes
zeros zero = []
zeros (suc n) = 0 ∷ zeros n

abbrev pub reserved : Bytes
reserved = zeros 262

reserved_size : length reserved ≡ udp_max_header_len
reserved_size = refl

sent :
    reverse_packet (reserved ++ (codes "pong" ++ zeros 3)) 4 (udp_addr host 53) (udp_addr host 53)
    ≡ some (target_header ++ codes "pong")
unfolding reverse_packet source_matches_target addr_spec_from_net_addr ip_equal same prepend_result
    prepend copy_at marshal_udp_header addr_bytes to4
sent = refl
