-- ===== src/Socks/Dialing/Owned.antt =====
-- Who owns a connection once the dial has returned.
use spaceship.Base.{
  ℕ, Bool, true, false, if◌then◌else◌, List, [], ◌∷◌, ◌++◌, Option, none, some, ◌≡◌, refl, ok, err,
}
use spaceship.Socks.Dialing.{
  Offers, target_dialer, packet_dialer, neither, Outcome, closing, with_target, with_domain,
  dial_packet_target, dial_failed,
}
use spaceship.Socks.Packets.{NetAddr, nil_addr, text_addr, udp_addr}

-- The connection that a dialer answered with.
abbrev pub opened : Offers → Option ℕ
opened (target_dialer d) = d.conn
opened (packet_dialer d) = d.conn
opened neither = none

-- The connections that were closed, and the one that is returned.
abbrev pub accounted : Outcome → List ℕ
accounted (ok (c, target), closed) = closed ++ c ∷ []
accounted (err e, closed) = closed

with_target-accounted : (c : Option ℕ) (t : NetAddr) → accounted (with_target c t) ≡ closing c
unfolding with_target
with_target-accounted none t = refl
with_target-accounted (some c) nil_addr = refl
with_target-accounted (some c) (udp_addr ip port) = refl
with_target-accounted (some c) (text_addr parts) = refl

with_domain-accounted : (c : Option ℕ) (t : NetAddr) → accounted (with_domain c t) ≡ closing c
unfolding with_domain
with_domain-accounted none t = refl
with_domain-accounted (some c) t = refl

accounted_if :
    (failed : Bool) (c : Option ℕ) (o : Outcome)
    → accounted o ≡ closing c
    → accounted (if failed then (err dial_failed, closing c) else o) ≡ closing c
accounted_if true c o h = refl
accounted_if false c o h = h

-- Each connection that a transport's dialer answers with is either returned or closed, once, also
-- where the dialer answers with an error or with a nil target; and nothing else is closed.
pub dial_packet_target-accounted :
    (o : Offers) (domain : NetAddr) → accounted (dial_packet_target o domain) ≡ closing (opened o)
unfolding dial_packet_target
dial_packet_target-accounted neither domain = refl
dial_packet_target-accounted (target_dialer d) domain =
    accounted_if d.failed d.conn (with_target d.conn d.target)
      (with_target-accounted d.conn d.target)
dial_packet_target-accounted (packet_dialer d) domain =
    accounted_if d.failed d.conn (with_domain d.conn domain) (with_domain-accounted d.conn domain)
