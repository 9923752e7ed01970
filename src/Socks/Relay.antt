-- ===== src/Socks/Relay.antt =====
-- The flows of one `UDPRelay` of internal/socks/udp.go: `getOrCreateNAT`, the end of
-- `reverseRelay`, `natEntry.Close` and `UDPRelay.Close`. The goroutines that serve the datagrams
-- interleave between the critical sections, so each critical section is an operation of its own.
pub mod Ids
pub mod Steps
mod Opens
mod Installs
mod Ends
pub mod NoLeak
pub mod Drains
use spaceship.Base.{
  ℕ, ◌+◌, ◌-◌, Bool, true, false, not, ◌&&◌, List, [], ◌∷◌, Option, none, some, Bytes, lookup, same,
  ◌==◌, if◌then◌else◌,
}
use spaceship.Socks.Errors.{Error, err_closed, route_error, udp_unsupported, nat_limit, dial_error}
use spaceship.Socks.Limiter.{Limiter, acquire, release}
use spaceship.Socks.Nat.{Entry, Table, load, install, delete_if, drain}

-- A number in a list of entry identities, and the list without it.
unfoldable pub has : ℕ → List ℕ → Bool
has i [] = false
has i (j ∷ js) = if j == i then true else has i js

unfoldable pub without : ℕ → List ℕ → List ℕ
without i [] = []
without i (j ∷ js) = let rest = without i js in if j == i then rest else j ∷ rest

abbrev pub Flow : Type 0
Flow = Bytes × Entry

-- A goroutine leaves one of the stages below: its key and entry are taken off the list.
unfoldable pub leave : Flow → List Flow → List Flow
leave f [] = []
leave f (g ∷ gs) = if same g.0 f.0 && g.1.id == f.1.id then gs else g ∷ leave f gs

-- `Close` has not begun; it has closed `done`; it has drained the table and has these entries left to
-- close; it is over.
pub data Closing : Type 0 where
  not_closing closing_done : Closing
  closing_entries : List Entry → Closing
  has_closed : Closing

-- `nat_limiter` is the limiter that is in use: the field, or that of `udpLimiters` where the field is
-- nil.
pub record Relay : Type 0 where
  -- the fields of the source
  pub table : Table
  pub done : Bool
  pub client_key : Bytes
  pub max_nat_entries : ℕ
  pub nat_limiter : Option Limiter
  pub association_limiter : Option Limiter
  pub association_held : Bool
  -- the entries on which `Close` has not run, and the next identity
  pub live : List ℕ
  pub next : ℕ
  -- how far `Close` has come
  pub closing : Closing
  -- the goroutines between two critical sections: behind the dial, and behind `Install`; and those of
  -- `reverseRelay`
  pub dialed : List Flow
  pub installed : List Flow
  pub serving : List Flow
  -- what the client's other relays hold at the limiter
  pub others : ℕ

-- `orDefault` with `defaultMaxNATEntries`
unfoldable pub or_default : ℕ → ℕ → ℕ
or_default v fallback = if v == 0 then fallback else v

abbrev pub default_max_nat_entries : ℕ
default_max_nat_entries = 64

-- `natEntry.Close`: the first call closes the connection and the route and gives the grant back.
unfoldable pub close_entry : Relay → Entry → Relay
close_entry r e =
    if has e.id r.live
    then record r { live = without e.id r.live; nat_limiter = release r.nat_limiter r.client_key }
    else r

-- What the router and the dialer answer.
pub record Outcome : Type 0 where
  pub routed : Bool
  pub packet_dialer : Bool
  pub dialed : Bool

pub data Reply : Type 0 where
  found created : Entry → Reply
  failed : Error → Reply

-- The grant, the dial and the new entry, whose `lastSeen` is `now`.
unfoldable pub reserve_flow : Relay → Bytes → Bytes → Bool → ℕ → Relay × Reply
reserve_flow r key target dialed now =
    let (l, granted) = acquire r.nat_limiter r.client_key in
    if not granted
    then (record r { nat_limiter = l }, failed nat_limit)
    else if not dialed
    then (record r { nat_limiter = release l r.client_key }, failed dial_error)
    else let entry : Entry = record { id = r.next; target = target; last_seen = now } in
      (
        record r {
          nat_limiter = l;
          live = r.next ∷ r.live;
          next = r.next + 1;
          dialed = (key, entry) ∷ r.dialed;
        },
        created entry,
      )

-- `getOrCreateNAT` up to the dial. The load is made again behind the singleflight barrier; here
-- the two are one.
unfoldable pub open_flow : Relay → Bytes → Bytes → Outcome → ℕ → Relay × Reply
open_flow r key target o now = if r.done then (r, failed err_closed) else elim (load r.table key) [
  | some entry ↦ (r, found entry)
  | none ↦
      if not o.routed
      then (r, failed route_error)
      else if not o.packet_dialer
      then (r, failed udp_unsupported)
      else reserve_flow r key target o.dialed now
]

unfoldable pub close_evicted : Relay → Option Entry → Relay
close_evicted r none = r
close_evicted r (some old) = close_entry r old

-- `Install`, the eviction, and the entry of a concurrent dial that came second.
unfoldable pub install_flow : Relay → Flow → Relay × Reply
install_flow r (key, entry) =
    let i = install r.table key entry (or_default r.max_nat_entries default_max_nat_entries) in
    let stored = record r { table = i.table; dialed = leave (key, entry) r.dialed } in
    let evicted = close_evicted stored i.evicted in
    if i.installed
    then (record evicted { installed = (key, entry) ∷ evicted.installed }, created entry)
    else (close_entry evicted entry, found i.actual)

-- The second look at `done`, behind `Install`.
unfoldable pub recheck_flow : Relay → Flow → Relay × Reply
recheck_flow r (key, entry) =
    let left = record r { installed = leave (key, entry) r.installed } in
    if r.done
    then (
      close_entry (record left { table = (delete_if r.table key entry).0 }) entry,
      failed err_closed,
    )
    else (record left { serving = (key, entry) ∷ left.serving }, created entry)

-- The deferred calls of `reverseRelay`, behind which its goroutine ends.
unfoldable pub finish_flow : Relay → Flow → Relay
finish_flow r (key, entry) =
    let closed = close_entry r entry in
    record closed {
      table = (delete_if closed.table key entry).0;
      serving = leave (key, entry) closed.serving;
    }

-- `UDPRelay.Close` in its stages. The first call closes `done`; `once` has run exactly if it is.
unfoldable pub close_done : Relay → Relay
close_done r = if r.done then r else record r { done = true; closing = closing_done }

unfoldable pub drain_table : Relay → Relay
drain_table r = record r { table = []; closing = closing_entries (drain r.table).1 }

unfoldable pub close_next : Relay → Entry → List Entry → Relay
close_next r e es = record (close_entry r e) { closing = closing_entries es }

unfoldable pub release_association : Relay → Relay
release_association r =
    if r.association_held
    then record r {
      association_limiter = release r.association_limiter r.client_key;
      association_held = false;
      closing = has_closed;
    }
    else record r { closing = has_closed }

-- Another relay takes a grant, or gives one back, at the limiter.
unfoldable pub take_elsewhere : Relay → Bytes → Relay
take_elsewhere r client = record r {
  nat_limiter = (acquire r.nat_limiter client).0;
  others = if same client r.client_key then r.others + 1 else r.others;
}

unfoldable pub give_elsewhere : Relay → Bytes → Relay
give_elsewhere r client = record r {
  nat_limiter = release r.nat_limiter client;
  others = if same client r.client_key then r.others - 1 else r.others;
}
