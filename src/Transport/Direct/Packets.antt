-- ===== src/Transport/Direct/Packets.antt =====
-- The sockets that the direct transport opens for datagrams.
use spaceship.Base.{
  ℕ, Bool, false, Option, none, some, Bytes, codes, same, same_iff, ok, ◌≡◌, ◌≢◌, ◌⊎◌, inl, inr,
  sym, subst, ap, ◌∙◌, arith, Bool-cases, Option-cases, Result-cases,
}
use spaceship.Hosts.{is_empty}
use spaceship.Net.{to4, is_unspecified}
use spaceship.Transport.Direct.{UdpAddr, PacketConn, packet_network, dial_packet_target}
use spaceship.Transport.Settings.{Settings, dial_network}

-- A network on which a target is dialed.
record Fits (settings : Settings) (asked : Bytes) (target : UdpAddr) (network : Bytes)
    : Type 0 where
  given : is_empty target.0 ≡ false
  specified : is_unspecified target.0 ≡ false
  port : target.1 ≢ 0
  family :
      ((network ≡ codes "udp4")
        × ((asked ≡ codes "udp4") ⊎ ((v4 : Bytes) × (to4 target.0 ≡ some v4))))
      ⊎ ((network ≡ codes "udp6")
          × (to4 target.0 ≡ none)
          × (asked ≢ codes "udp4")
          × (settings.prefer_ipv4 ≡ false))

packet_network-Fits :
    (settings : Settings) (network : Bytes) (ip : Bytes) (port : ℕ) (dialed : Bytes)
    → packet_network settings network (ip, port) ≡ ok dialed
    → Fits settings network (ip, port) dialed
unfolding packet_network
packet_network-Fits settings network ip port dialed h = record {
  given = ground arith;
  specified = ground arith;
  port = ground arith;
  family = elim (Option-cases (to4 ip)) [
    | inr (v, e) ↦ inl (ground arith, inr (v, e))
    | inl e ↦ elim (Bool-cases (same network (codes "udp4"))) [
      | inl k ↦ inl (ground arith, inl ((same_iff network (codes "udp4")).0 k))
      | inr k ↦ inr (
        ground arith,
        e,
        (λ n. absurd (let l = (same_iff network (codes "udp4")).1 n in cc)),
        ground arith,
      )
    ]
  ];
}

module _ (resolve : Bytes → Bytes → Option UdpAddr) (dial_udp : Bytes → UdpAddr → Bool) where
  -- A socket that the direct transport opens for datagrams is connected to the address that it
  -- returns, which is the one that the resolver gave. That address has an IP, not an unspecified one,
  -- and a port. The socket is of IPv4 only where the address has an IPv4 form or the resolver was asked
  -- for that family alone, and of IPv6 only where the address has no such form, the resolver was not
  -- asked for IPv4 alone, and IPv6 is not disabled.
  pub dial_packet_target-Fits :
      (settings : Settings) (network addr : Bytes) (c : PacketConn) (target : UdpAddr)
      → dial_packet_target resolve dial_udp settings network addr ≡ ok (c, target)
      → (c.remote ≡ target)
        × (resolve (dial_network settings network) addr ≡ some target)
        × (is_empty target.0 ≡ false)
        × (is_unspecified target.0 ≡ false)
        × (target.1 ≢ 0)
        × (((c.network ≡ codes "udp4")
              × ((dial_network settings network ≡ codes "udp4")
                  ⊎ ((v4 : Bytes) × (to4 target.0 ≡ some v4))))
            ⊎ ((c.network ≡ codes "udp6")
                × (to4 target.0 ≡ none)
                × (dial_network settings network ≢ codes "udp4")
                × (settings.prefer_ipv4 ≡ false)))
  unfolding dial_packet_target
  dial_packet_target-Fits settings network addr c target h =
      elim (Option-cases (resolve (dial_network settings network) addr)) [
        | inl e ↦ absurd (ground arith)
        | inr (t, e) ↦
            elim (Result-cases (packet_network settings (dial_network settings network) t)) [
              | inr (x, k) ↦ absurd (ground arith)
              | inl (n, k) ↦
                  let fits =
                    packet_network-Fits settings (dial_network settings network) t.0 t.1 n k in
                  let same_target : t ≡ target = ground arith in
                  let same_network : c.network ≡ n = ground arith in
                  let f =
                    subst (λ x. Fits settings (dial_network settings network) target x)
                      (sym same_network)
                      (subst (λ x. Fits settings (dial_network settings network) x n) same_target
                        fits) in
                  (
                    ground arith,
                    e ∙ ap (λ x. some x) same_target,
                    f.given,
                    f.specified,
                    f.port,
                    f.family,
                  )
            ]
      ]
