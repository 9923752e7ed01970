-- ===== src/Tests/Relays.antt =====
-- The UDP relay and its limiter at concrete inputs.
use spaceship.Base.{
  ℕ, inl, true, false, List, [], ◌∷◌, none, some, ◌≡◌, refl, Bytes, codes, same, lookup, insert,
  IsMap,
}
use spaceship.Socks.Limiter.Bounds.{new-IsValid}
use spaceship.Socks.Limiter.Holders.{take_grant, give_back, Tracks, run, run-Tracks}
use spaceship.Socks.Limiter.{
  Limiter, new_udp_resource_limiter, acquire, raise, count, release, lower,
}
use spaceship.Socks.Nat.Install.{InstallsNew, install-InstallsNew}
use spaceship.Socks.Nat.{Entry, Table, install, make_room, load, drain, delete_if}
use spaceship.Socks.Relay.Drains.{IsAtRest, closed-drains}
use spaceship.Socks.Relay.NoLeak.{IsFresh, closed-no_leak}
use spaceship.Socks.Relay.Steps.{
  Reach, here, next, dial, install as install_step, recheck, shuts, drains, closes, releases, takes,
}
use spaceship.Socks.Relay.{
  Relay, Flow, Outcome, not_closing, has_closed, open_flow, reserve_flow, install_flow,
  recheck_flow, close_done, drain_table, close_next, release_association, take_elsewhere,
  close_entry, leave, has, without, close_evicted, or_default,
}

abbrev client : Bytes
client = codes "10.0.0.1"

abbrev limiter : Limiter
limiter = new_udp_resource_limiter 4 2

run-Tracks_example :
    (l : Limiter) × (hs : List Bytes) × (run
        (some limiter, [])
        (take_grant client ∷ take_grant client ∷ take_grant client ∷ give_back client ∷ [])
      ≡ (some l, hs))
    × Tracks l hs
run-Tracks_example =
    run-Tracks 4 2
      (take_grant client ∷ take_grant client ∷ take_grant client ∷ give_back client ∷ [])

abbrev entry : ℕ → ℕ → Entry
entry n seen = record { id = n; target = client; last_seen = seen }

abbrev key : ℕ → Bytes
key n = n ∷ []

abbrev table : Table
table = (key 1, entry 1 50) ∷ (key 2, entry 2 20) ∷ []

table-IsMap : IsMap table
unfolding lookup same
table-IsMap = (refl, (refl, tt))

absent : lookup (key 3) table ≡ none
unfolding lookup same
absent = refl

install-InstallsNew_example :
    InstallsNew table (key 3) (entry 3 60) 2 (install table (key 3) (entry 3 60) 2)
install-InstallsNew_example = install-InstallsNew table (key 3) (entry 3 60) 2 table-IsMap absent

abbrev relay : Relay
relay = record {
  table = [];
  done = false;
  client_key = client;
  max_nat_entries = 2;
  nat_limiter = some limiter;
  association_limiter = none;
  association_held = false;
  live = [];
  next = 0;
  closing = not_closing;
  dialed = [];
  installed = [];
  serving = [];
  others = 0;
}

relay-IsFresh : IsFresh relay limiter
unfolding lookup new_udp_resource_limiter
relay-IsFresh = record {
  table = refl;
  live = refl;
  closing = refl;
  unclosed = refl;
  dialed = refl;
  installed = refl;
  limiter = refl;
  counted = refl;
}

abbrev flow : Flow
flow = (key 1, record { id = 0; target = client; last_seen = 5 })

abbrev outcome : Outcome
outcome = record { routed = true; packet_dialer = true; dialed = true }

-- Another relay of the client takes a grant, and a flow is dialed.
abbrev shared_relay : Relay
shared_relay = take_elsewhere relay client

abbrev dialed_relay : Relay
dialed_relay = (open_flow shared_relay (key 1) client outcome 5).0

-- The flow is installed between the two stages of the relay's closing, and looked at again when it
-- has been drained.
abbrev closing_relay : Relay
closing_relay = close_done dialed_relay

abbrev installed_relay : Relay
installed_relay = (install_flow closing_relay flow).0

abbrev drained_relay : Relay
drained_relay = drain_table installed_relay

abbrev emptied_relay : Relay
emptied_relay = close_next drained_relay flow.1 []

abbrev closed_relay : Relay
closed_relay = release_association emptied_relay

abbrev last_relay : Relay
last_relay = (recheck_flow closed_relay flow).0

closing_reached : Reach relay closing_relay
unfolding acquire raise lookup insert same new_udp_resource_limiter
closing_reached = next (next (next here (takes client refl)) (dial (key 1) client outcome 5)) shuts

last_reached : Reach relay last_relay
unfolding open_flow reserve_flow install_flow recheck_flow close_done drain_table close_next
    release_association take_elsewhere close_entry leave acquire raise load lookup insert install
    make_room same has without new_udp_resource_limiter drain close_evicted or_default release lower
    delete_if
last_reached =
    next
      (next
        (next (next (next closing_reached (install_step flow (inl refl))) (drains refl))
          (closes flow.1 [] refl))
        (releases refl))
      (recheck flow (inl refl))

last_quiet :
    (last_relay.closing ≡ has_closed) × (last_relay.dialed ≡ []) × (last_relay.installed ≡ [])
unfolding open_flow reserve_flow install_flow recheck_flow close_done drain_table close_next
    release_association take_elsewhere close_entry leave acquire raise load lookup insert install
    make_room same has without new_udp_resource_limiter drain close_evicted or_default release lower
    delete_if
last_quiet = (refl, refl, refl)

closed-no_leak_example :
    (last_relay.live ≡ [])
    × ((l : Limiter)
        → last_relay.nat_limiter ≡ some l
        → count l last_relay.client_key ≡ last_relay.others)
closed-no_leak_example =
    closed-no_leak relay last_relay limiter relay-IsFresh (new-IsValid 4 2) last_reached
      last_quiet.0 last_quiet.1 last_quiet.2

closing_is_done : closing_relay.done ≡ true
unfolding open_flow reserve_flow install_flow recheck_flow close_done drain_table close_next
    release_association take_elsewhere close_entry leave acquire raise load lookup insert install
    make_room same has without new_udp_resource_limiter drain close_evicted or_default release lower
    delete_if
closing_is_done = refl

closed-drains_example :
    (t : Relay) × Reach closing_relay t
    × IsAtRest t
    × (t.live ≡ [])
    × ((l : Limiter) → t.nat_limiter ≡ some l → count l t.client_key ≡ t.others)
closed-drains_example =
    closed-drains relay closing_relay limiter relay-IsFresh (new-IsValid 4 2) closing_reached
      closing_is_done
