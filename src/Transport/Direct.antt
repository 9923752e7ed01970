-- ===== src/Transport/Direct.antt =====
-- The transports that open connections of their own: internal/transport/direct/direct.go,
-- forward/forward.go and blackhole/blackhole.go. The dials and the resolution of addresses are the
-- `net` package's, or the upstream dialer's, and parameters. `LocalAddr` of a connection is known by
-- its text.
pub mod Packets
use spaceship.Base.{
  ℕ, Bool, true, false, not, ◌&&◌, ◌||◌, List, [], ◌∷◌, ◌++◌, Option, none, some, Bytes, codes,
  same, Result, ok, err, length, ◌==◌, if◌then◌else◌,
}
use spaceship.Hosts.{is_empty}
use spaceship.Net.{to4, is_unspecified}
use spaceship.Transport.Settings.{Settings, dial_network}
use spaceship.Transport.Session.{Error, end_of_file, canceled, dial_failed, Session, session_result}
use spaceship.Transport.Stats.{Stats, add_rx}

-- A dial gives the local address of the connection.
abbrev pub Dialer : Type 0
Dialer = Bytes → Bytes → Option Bytes

-- `Direct.Dial`
unfoldable pub direct_dial : Settings → Dialer → Dialer
direct_dial settings net network addr = net (dial_network settings network) addr

-- `Forward.Dial`: the dialer that was attached, if any.
unfoldable pub forward_dial : Option Dialer → Dialer
forward_dial none network addr = none
forward_dial (some dialer) network addr = dialer network addr

-- What `Proxy` tells on `localAddr`, and what it returns. `last` is the session once its goroutines
-- have returned.
unfoldable pub proxy : Settings → Dialer → Bytes → Session → List Bytes × Option Error
proxy settings dial addr last = elim (dial settings.network addr) [
  | none ↦ ([], some dial_failed)
  | some local ↦ (local ∷ [], session_result last)
]

-- A UDP address: the IP, which is empty for nil, and the port.
abbrev pub UdpAddr : Type 0
UdpAddr = Bytes × ℕ

pub data PacketError : Type 0 where
  unresolved invalid_target ipv6_disabled packet_dial_failed : PacketError

-- The network that is dialed, where the target can be.
unfoldable pub packet_network : Settings → Bytes → UdpAddr → Result PacketError Bytes
packet_network settings network (ip, port) =
    if is_empty ip || (is_unspecified ip || port == 0)
    then err invalid_target
    else let v4 = same network (codes "udp4") || (elim (to4 ip) [ none ↦ false | some _ ↦ true ]) in
      if v4
      then ok (codes "udp4")
      else if settings.prefer_ipv4
      then err ipv6_disabled
      else ok (codes "udp6")

-- A connected socket: the network that it was dialed on, and its peer.
pub record PacketConn : Type 0 where
  pub network : Bytes
  pub remote : UdpAddr

module _ (resolve : Bytes → Bytes → Option UdpAddr) (dial_udp : Bytes → UdpAddr → Bool) where
  unfoldable pub dial_packet_target :
      Settings → Bytes → Bytes → Result PacketError (PacketConn × UdpAddr)
  dial_packet_target settings network addr =
      let network' = dial_network settings network in
      elim (resolve network' addr) [
        | none ↦ err unresolved
        | some target ↦ elim (packet_network settings network' target) [
          | err e ↦ err e
          | ok dialed ↦
              if dial_udp dialed target
              then ok (record { network = dialed; remote = target }, target)
              else err packet_dial_failed
        ]
      ]

  -- `DialPacket`
  unfoldable pub dial_packet : Settings → Bytes → Bytes → Result PacketError PacketConn
  dial_packet settings network addr = elim (dial_packet_target settings network addr) [
    | err e ↦ err e
    | ok (conn, _) ↦ ok conn
  ]

-- `ReadFrom` and `WriteTo` of a connected socket: the peer is the source, and the address given is not
-- read.
unfoldable pub read_from : PacketConn → Result Error Bytes → Result Error Bytes × UdpAddr
read_from c answer = (answer, c.remote)

unfoldable pub write_to : PacketConn → Bytes → UdpAddr → UdpAddr × Bytes
write_to c payload addr = (c.remote, payload)

-- The black hole: a dial fails; a session tells an address of its own and reads to the end. A read is
-- its number of bytes and its error.
unfoldable pub blackhole_dial : Dialer
blackhole_dial network addr = none

unfoldable pub drain : Stats → List (ℕ × Option Error) → Stats × Option (Option Error)
drain stats [] = (stats, none)
drain stats ((n, e) ∷ reads) =
    let counted = if n == 0 then stats else add_rx stats n in
    let rest = drain counted reads in
    elim e [
      | none ↦ rest
      | some end_of_file ↦ (counted, some none)
      | some x ↦ (counted, some (some x))
    ]
