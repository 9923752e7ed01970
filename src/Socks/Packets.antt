-- ===== src/Socks/Packets.antt =====
-- The datagrams of a relay, internal/socks/udp.go: the checks of `handlePacket`, and a round of
-- `reverseRelay` behind its read.
pub mod Forward
pub mod Backward
use spaceship.Base.{
  ℕ, ◌+◌, ◌-◌, Bool, true, false, not, ◌&&◌, ◌||◌, List, ◌++◌, Option, none, some, Bytes, length,
  take, drop, ltb, ◌==◌, if◌then◌else◌, Result, ok, err,
}
use spaceship.Hosts.{is_empty}
use spaceship.Net.{ip_equal, is_unspecified}
use spaceship.Socks.Errors.{Error}
use spaceship.Socks.Header.{
  AddrSpec, UdpHeader, of_ip, of_fqdn, parse_udp_header, marshal_udp_header, udp_max_header_len,
}

-- A `net.Addr`: a UDP address, or one that is known by its text. The text's parts are the host, the
-- host as an IP (empty if it is none) and the port, where the text splits and the port is a number.
pub data NetAddr : Type 0 where
  nil_addr : NetAddr
  udp_addr : Bytes → ℕ → NetAddr
  text_addr : Option (Bytes × Bytes × ℕ) → NetAddr

abbrev pub udp_max_packet_size : ℕ
udp_max_packet_size = 65535

-- The source is another host than the client.
unfoldable pub is_stranger : Bytes → Bytes → Bool
is_stranger client_ip ip =
    not (is_empty client_ip) && not (is_unspecified client_ip) && not (ip_equal client_ip ip)

-- The target and the payload of a datagram that is not fragmented.
unfoldable pub whole : Bytes → Result Error UdpHeader → Option (AddrSpec × Bytes)
whole buf (err e) = none
whole buf (ok h) = if h.frag == 0 then some (h.addr, drop h.data_offset buf) else none

-- The target and the payload that `handlePacket` forwards, or none where it drops the datagram.
unfoldable pub handle_packet : Bytes → NetAddr → Bytes → Option (AddrSpec × Bytes)
handle_packet client_ip (udp_addr ip port) buf =
    if is_stranger client_ip ip then none else whole buf (parse_udp_header buf)
handle_packet client_ip _ buf = none

unfoldable pub source_matches_target : NetAddr → NetAddr → Bool
source_matches_target (udp_addr ip port) (udp_addr target_ip target_port) =
    port == target_port && ip_equal ip target_ip
source_matches_target _ _ = true

unfoldable pub addr_spec_from_net_addr : NetAddr → Option AddrSpec
addr_spec_from_net_addr nil_addr = none
addr_spec_from_net_addr (udp_addr ip port) =
    if ltb 65535 port then none else some (record (of_ip ip) { port = port })
addr_spec_from_net_addr (text_addr none) = none
addr_spec_from_net_addr (text_addr (some (host, ip, port))) =
    if ltb 65535 port
    then none
    else if is_empty ip
    then some (record (of_fqdn host) { port = port })
    else some (record (of_ip ip) { port = port })

-- `copy(buf[at:], bytes)` where the bytes fit
unfoldable pub copy_at : Bytes → ℕ → Bytes → Bytes
copy_at buf at bytes = take at buf ++ (bytes ++ drop (at + length bytes) buf)

-- The header is written in front of the payload, and the two are sent as one slice.
unfoldable pub prepend : Bytes → ℕ → Bytes → Option Bytes
prepend buf n header =
    if ltb udp_max_packet_size (length header + n)
    then none
    else let start = udp_max_header_len - length header in
      some (drop start (take (udp_max_header_len + n) (copy_at buf start header)))

unfoldable pub prepend_result : Bytes → ℕ → Result Error Bytes → Option Bytes
prepend_result buf n (err e) = none
prepend_result buf n (ok header) = prepend buf n header

-- What is sent to the client for `n` bytes that were read from `source` behind the reserved bytes of
-- the buffer; none where the datagram is dropped.
unfoldable pub reverse_packet : Bytes → ℕ → (source target : NetAddr) → Option Bytes
reverse_packet buf n source target =
    if not (source_matches_target source target)
    then none
    else elim (addr_spec_from_net_addr source) [
      | none ↦ none
      | some addr ↦ prepend_result buf n (marshal_udp_header (some addr))
    ]
