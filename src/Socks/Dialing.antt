-- ===== src/Socks/Dialing.antt =====
-- The connection of a flow, internal/socks/udp.go: `dialPacketTarget` and `natKey`, and the loop of
-- `reverseRelay`. What a transport's dialer answers is a parameter, and so is the split of an
-- address's text.
pub mod Owned
pub mod Returns
use spaceship.Base.{
  ℕ, ◌+◌, ◌*◌, not, ◌-◌, Bool, true, false, List, [], ◌∷◌, ◌++◌, Option, none, some, Bytes, codes,
  lookup, ltb, ◌==◌, ◌&&◌, if◌then◌else◌, Result, ok, err,
}
use spaceship.Socks.Nat.{Entry, Table, load}
use spaceship.Socks.Packets.{NetAddr, nil_addr, text_addr, udp_addr, reverse_packet}
use spaceship.Transport.Stats.{Stats, add_rx, add_tx}

-- A dialer may answer with a connection and an error both. A connection is a number, which stands for
-- the pointer.
pub record Dialed : Type 0 where
  pub conn : Option ℕ
  pub target : NetAddr
  pub failed : Bool

-- What a transport offers for datagrams: `PacketTargetDialer`, `PacketDialer`, or neither.
pub data Offers : Type 0 where
  target_dialer packet_dialer : Dialed → Offers
  neither : Offers

pub data DialError : Type 0 where
  dial_failed nil_connection nil_target no_udp : DialError

-- The closing of a connection that is there.
abbrev pub closing : Option ℕ → List ℕ
closing none = []
closing (some c) = c ∷ []

abbrev pub Outcome : Type 0
Outcome = Result DialError (ℕ × NetAddr) × List ℕ

-- The connection of a target dialer, and of the dialer of a transport that resolves names itself.
unfoldable pub with_target : Option ℕ → NetAddr → Outcome
with_target none target = (err nil_connection, [])
with_target (some c) nil_addr = (err nil_target, c ∷ [])
with_target (some c) (udp_addr ip port) = (ok (c, udp_addr ip port), [])
with_target (some c) (text_addr parts) = (ok (c, text_addr parts), [])

unfoldable pub with_domain : Option ℕ → NetAddr → Outcome
with_domain none target = (err nil_connection, [])
with_domain (some c) target = (ok (c, target), [])

-- The result, and the connections that are closed on the way. `domain_addr` is the address whose text
-- is the target.
unfoldable pub dial_packet_target : Offers → NetAddr → Outcome
unfolding with_target with_domain
dial_packet_target neither domain_addr = (err no_udp, [])
dial_packet_target (target_dialer d) domain_addr =
    if d.failed then (err dial_failed, closing d.conn) else with_target d.conn d.target
dial_packet_target (packet_dialer d) domain_addr =
    if d.failed then (err dial_failed, closing d.conn) else with_domain d.conn domain_addr

-- A client's address is its text, or nil.
unfoldable pub nat_key : Option Bytes → Bytes → Bytes
nat_key none target = target
nat_key (some client) target = client ++ (codes "|" ++ target)

-- A round of the reverse relay: `n` bytes from a source, read behind the reserved bytes of the
-- buffer, with what the write to the client answers; or an error of the read. `done` is the relay's
-- channel, and `table` the flows, when the error is handled.
pub data Written : Type 0 where
  wrote : ℕ → Written
  client_closed write_failed : Written

pub data Round : Type 0 where
  datagram : (buf : Bytes) → ℕ → NetAddr → Written → Round
  timed_out : (done : Bool) (table : Table) (now : ℕ) → Round
  read_failed : Round

abbrev pub udp_idle_timeout : ℕ
udp_idle_timeout = 2 * 60 * 1_000_000_000

-- The write of `handlePacket` to the target went well: the flow is seen at `now`, and the bytes count.
unfoldable pub touch : ℕ → ℕ → Table → Table
touch id now [] = []
touch id now ((key, e) ∷ t) =
    (key, (if e.id == id then record e { last_seen = now } else e)) ∷ touch id now t

unfoldable pub forward_payload : Table → Stats → Entry → ℕ → Option ℕ → Table × Stats
forward_payload t stats e now none = (t, stats)
forward_payload t stats e now (some n) = (touch e.id now t, add_tx stats n)

-- A timeout of the read: the flow stays if it is still the one in the table and was seen lately.
unfoldable pub is_kept : Entry → Bytes → Table → ℕ → Bool
is_kept entry key t now = elim (load t key) [
  | none ↦ false
  | some current ↦ current.id == entry.id && ltb (now - current.last_seen) udp_idle_timeout
]

-- What a round sends to the client, whether the loop goes on, and the counters; what it stores is
-- `seen_round`, and a timeout is given the table as it is by then.
unfoldable pub reverse_round : Entry → Bytes → NetAddr → Stats → Round → Option Bytes × Bool × Stats
reverse_round entry key target stats (datagram buf n source written) =
    elim (reverse_packet buf n source target) [
      | none ↦ (none, true, stats)
      | some bytes ↦ elim written [
        | wrote k ↦ (some bytes, true, add_rx stats k)
        | client_closed ↦ (none, false, stats)
        | write_failed ↦ (none, true, stats)
      ]
    ]
reverse_round entry key target stats (timed_out done t now) =
    (none, not done && is_kept entry key t now, stats)
reverse_round entry key target stats read_failed = (none, false, stats)

-- What a round stores: a datagram that passes the checks marks the flow as seen at `now`, where the
-- table still holds it.
unfoldable pub seen_round : Entry → Bytes → NetAddr → ℕ → Round → Table → Table
unfolding touch
seen_round entry key target now (datagram buf n source written) t =
    elim (reverse_packet buf n source target) [
      | none ↦ t
      | some bytes ↦ elim (load t key) [
        | none ↦ t
        | some current ↦ if current.id == entry.id then touch entry.id now t else t
      ]
    ]
seen_round entry key target now (timed_out done table later) t = t
seen_round entry key target now read_failed t = t

abbrev pub with_sent : Option Bytes → List Bytes → List Bytes
with_sent none bs = bs
with_sent (some b) bs = b ∷ bs

-- The loop over its rounds: what the client is sent, whether it has ended, and the counters.
unfoldable pub reverse_loop :
    Entry → Bytes → NetAddr → Stats → List Round → List Bytes × Bool × Stats
reverse_loop entry key target stats [] = ([], false, stats)
reverse_loop entry key target stats (r ∷ rs) =
    let (sent, goes_on, stats') = reverse_round entry key target stats r in
    let (more, ended, last) = reverse_loop entry key target stats' rs in
    if goes_on then (with_sent sent more, ended, last) else ([], true, stats')
