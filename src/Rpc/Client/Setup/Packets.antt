-- ===== src/Rpc/Client/Setup/Packets.antt =====
-- A packet connection from its dial to the server's socket.
use spaceship.Base.{
  Bool, true, false, List, [], ◌∷◌, none, Bool-cases, inl, inr, Bytes, codes, same, ◌≡◌, refl, ap,
  ◌∙◌, arith, ok, err,
}
use spaceship.Rpc.Client.Setup.{
  Send, sent, refused, too_late, send_handshake, PacketError, is_packet_network, packet_handshake,
  dial_packet,
}
use spaceship.Rpc.Messages.{Header, udp, SrcMessage, src_header}
use spaceship.Rpc.Server.Forward.{split_legacy_scheme, resolve_target, is_udp_network}
use spaceship.Transport.Settings.{Settings, dial_network}

dial_network-udp : (s : Settings) → is_udp_network (dial_network s (codes "udp")) ≡ true
unfolding dial_network is_udp_network same
dial_network-udp s = elim (Bool-cases s.prefer_ipv4) [
  | inl e ↦ rw (e, dial_network) refl
  | inr e ↦ rw (e, dial_network) refl
]

header_target :
    (settings : Settings) (addr : Bytes)
    → split_legacy_scheme addr ≡ none
    → resolve_target settings (record { addr = addr; network = udp })
      ≡ (dial_network settings (codes "udp"), addr)
unfolding resolve_target
header_target settings addr h = rw (h, resolve_target) refl

dial_packet-sends :
    (streams : Bool) (send : Send) (network addr : Bytes) (ms : List SrcMessage)
    → (dial_packet streams send network addr).result ≡ ok ms
    → ((dial_packet streams send network addr).canceled ≡ false) × (ms ≡ packet_handshake addr ∷ [])
unfolding dial_packet send_handshake
dial_packet-sends streams sent network addr ms h = ground arith
dial_packet-sends streams refused network addr ms h = ground arith
dial_packet-sends streams too_late network addr ms h = ground arith

dial_packet-gives_up :
    (streams : Bool) (send : Send) (network addr : Bytes) (e : PacketError)
    → (dial_packet streams send network addr).result ≡ err e
    → is_packet_network network ≡ true
    → (dial_packet streams send network addr).canceled ≡ true
unfolding dial_packet send_handshake
dial_packet-gives_up streams sent network addr e h k = ground arith
dial_packet-gives_up streams refused network addr e h k = ground arith
dial_packet-gives_up streams too_late network addr e h k = ground arith

-- A packet connection that is opened to an address without a scheme: its stream is not canceled, and
-- the server has been sent one message, a header for which it resolves a UDP network and this very
-- address. Where a packet network was asked for and the dial fails, the context of its stream is
-- canceled, also where the send of the header came too late.
pub dial_packet-opens :
    (settings : Settings) (streams : Bool) (send : Send) (network addr : Bytes)
    → split_legacy_scheme addr ≡ none
    → ((sent_messages : List SrcMessage)
        → (dial_packet streams send network addr).result ≡ ok sent_messages
        → ((dial_packet streams send network addr).canceled ≡ false)
          × ((h : Header) × (sent_messages ≡ src_header h ∷ [])
              × (is_udp_network (resolve_target settings h).0 ≡ true)
              × ((resolve_target settings h).1 ≡ addr)))
      × ((e : PacketError)
          → (dial_packet streams send network addr).result ≡ err e
          → is_packet_network network ≡ true
          → (dial_packet streams send network addr).canceled ≡ true)
dial_packet-opens settings streams send network addr plain =
    let t = header_target settings addr plain in
    let u = dial_network-udp settings in
    (
      λ ms h. (
        (dial_packet-sends streams send network addr ms h).0,
        (
          record { addr = addr; network = udp },
          (dial_packet-sends streams send network addr ms h).1,
          ap (λ x. is_udp_network x.0) t ∙ u,
          ap (λ x. x.1) t,
        ),
      ),
      λ e h k. dial_packet-gives_up streams send network addr e h k,
    )
