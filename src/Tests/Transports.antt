-- ===== src/Tests/Transports.antt =====
-- Sessions, sockets, the loops of a UDP relay and the status page at concrete inputs.
use spaceship.Base.{
  ◌+◌, ◌-◌, ◌≤◌, ◌⊎◌, true, false, [], ◌∷◌, ◌++◌, Bytes, codes, none, some, ◌≡◌, ◌≢◌, refl, arith,
  length, drop, ok, All, same,
}
use spaceship.Hosts.{is_empty}
use spaceship.Indicator.Screen.{render-write}
use spaceship.Indicator.{
  Indicator, terminal_size, trim_newline, split_lines, render, write, blank_lines,
}
use spaceship.Net.{to4, is_unspecified, ip_equal}
use spaceship.Socks.Dialing.Owned.{opened, accounted, dial_packet_target-accounted}
use spaceship.Socks.Dialing.Returns.{reached, counted, reverse_loop-in_order}
use spaceship.Socks.Dialing.{
  Offers, target_dialer, dial_packet_target, closing, Round, datagram, wrote, write_failed,
  read_failed, reverse_loop,
}
use spaceship.Socks.Jobs.Drained.{Merges, run-drains}
use spaceship.Socks.Jobs.{
  Job, Run, start_run, dispatch, take_job, stopped, reads, stops, takes, handled, leaves, Reach,
  here, next, udp_job_queue_size,
}
use spaceship.Socks.Nat.{Entry}
use spaceship.Socks.Packets.{NetAddr, nil_addr, udp_addr}
use spaceship.Tests.Datagrams.{host, reserved, zeros}
use spaceship.Transport.Direct as Direct
use spaceship.Transport.Direct.Packets as Packets
use spaceship.Transport.Direct.{UdpAddr, packet_network}
use spaceship.Transport.Session as Session
use spaceship.Transport.Session.{Error, open_session, upload_returns, download_returns}
use spaceship.Transport.Settings.{default_settings, dial_network}
use spaceship.Transport.Stats.{Stats}

abbrev stats : Stats
stats = record { tx = 5; rx = 7 }

abbrev uploading : Session.Session
uploading = record (open_session true stats) { sent = [] ++ codes "get" }

abbrev exchanging : Session.Session
exchanging = record uploading { received = [] ++ codes "page" }

abbrev finished : Session.Session
finished = download_returns (upload_returns exchanging none) none

-- The jobs of a relay with one worker.
abbrev job : Job
job = (codes "a", nil_addr)

abbrev heard : Run
heard = dispatch start_run job

abbrev taking : Run
taking = take_job heard job []

abbrev ending : Run
ending = record taking { reader = stopped false }

abbrev drained : Run
drained = record (record ending { busy = 0 }) { gone = 0 + 1 }

drained-Reach : Reach 1 start_run drained
unfolding start_run dispatch take_job
drained-Reach =
    next
      (next
        (next (next (next here (reads job refl)) (takes job [] (omega arith) refl))
          (stops false refl))
        (handled 0 refl))
      (leaves false (omega arith) refl refl)

run-drains_example :
    (length drained.jobs ≤ udp_job_queue_size)
    × (drained.busy ≤ 1)
    × Merges (drained.taken ++ drained.jobs) drained.dropped drained.received
    × (drained.gone ≡ 1
        → (drained.busy ≡ 0) × Merges drained.taken drained.dropped drained.received)
run-drains_example = run-drains 1 drained (omega arith) drained-Reach

abbrev entry : Entry
entry = record { id = 1; target = codes "t"; last_seen = 0 }

abbrev source : NetAddr
source = udp_addr host 53

-- A datagram that reaches the client, and one that does not.
abbrev arrives : Round
arrives = datagram (reserved ++ (codes "pong" ++ zeros 3)) 4 source (wrote 14)

abbrev lost : Round
lost = datagram [] 0 nil_addr write_failed

reverse_loop-in_order_example :
    reverse_loop entry (codes "k") source stats ((arrives ∷ lost ∷ []) ++ read_failed ∷ lost ∷ [])
    ≡ (
      reached entry (codes "k") source (arrives ∷ lost ∷ []),
      true,
      counted entry (codes "k") source stats (arrives ∷ lost ∷ []),
    )
reverse_loop-in_order_example =
    reverse_loop-in_order entry (codes "k") source stats (arrives ∷ lost ∷ []) (lost ∷ [])
      read_failed (refl, (refl, tt)) refl

abbrev answers : Offers
answers = target_dialer (record { conn = some 3; target = nil_addr; failed = false })

dial_packet_target-accounted_example :
    accounted (dial_packet_target answers nil_addr) ≡ closing (opened answers)
dial_packet_target-accounted_example = dial_packet_target-accounted answers nil_addr

abbrev peer : UdpAddr
peer = (9 ∷ 9 ∷ 9 ∷ 9 ∷ [], 53)

abbrev socket : Direct.PacketConn
socket = record { network = codes "udp4"; remote = peer }

dialed :
    Direct.dial_packet_target
      (λ network addr. some peer)
      (λ network addr. true)
      default_settings
      (codes "udp")
      (codes "dns")
    ≡ ok (socket, peer)
unfolding Direct.dial_packet_target packet_network default_settings dial_network is_unspecified to4
    same ip_equal
dialed = refl

dial_packet_target-Fits_example :
    (socket.remote ≡ peer)
    × (some peer ≡ some peer)
    × (is_empty peer.0 ≡ false)
    × (is_unspecified peer.0 ≡ false)
    × (peer.1 ≢ 0)
    × (((socket.network ≡ codes "udp4")
          × ((dial_network default_settings (codes "udp") ≡ codes "udp4")
              ⊎ ((v4 : Bytes) × (to4 peer.0 ≡ some v4))))
        ⊎ ((socket.network ≡ codes "udp6")
            × (to4 peer.0 ≡ none)
            × (dial_network default_settings (codes "udp") ≢ codes "udp4")
            × (default_settings.prefer_ipv4 ≡ false)))
dial_packet_target-Fits_example =
    Packets.dial_packet_target-Fits (λ network addr. some peer) (λ network addr. true)
      default_settings (codes "udp") (codes "dns") socket peer dialed

abbrev screen : Indicator
screen = record {
  status_line = codes "up";
  log_buffer = codes "one" ∷ [];
  max_logs = 2;
  resize_open = true;
}

abbrev logged : Bytes
logged = codes "two" ++ 10 ∷ []

render-write_example :
    let logs = screen.log_buffer ++ split_lines (trim_newline logged) in
    let newest = drop (length logs - screen.max_logs) logs in
    (length (render (write screen logged).0 none).0 ≡ screen.max_logs + 1)
    × (All (λ l. length l ≤ (terminal_size none).0) newest
        → (render (write screen logged).0 none).0
          ≡ newest ++ blank_lines (screen.max_logs + 1 - length newest))
render-write_example = render-write screen logged none
