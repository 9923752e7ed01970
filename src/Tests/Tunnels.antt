-- ===== src/Tests/Tunnels.antt =====
-- A proxied stream at concrete inputs.
use spaceship.Base.{
  ℕ, ◌+◌, ◌%◌, ◌≡◌, refl, arith, List, [], ◌∷◌, ◌++◌, map, some, Bytes, codes, same, length, false,
  true, ◌≤◌, ◌⊎◌, ok, err,
}
use spaceship.Rpc.Client.Deadline.Safe.{deadline-safe}
use spaceship.Rpc.Client.Deadline.{
  Deadline, is_closed_chan, make_pipe_deadline, fire, callback, close_cancel, may_set, stop_timer,
  renew, set, future, zero, Reach, here, next, sets, expires, calls,
}
use spaceship.Rpc.Client.Packet.{received}
use spaceship.Rpc.Client.Forward.{Session, receive_loop, send_loop}
use spaceship.Rpc.Messages.{accept_message, eof_message, end_of_file, canceled, conn_closed}
use spaceship.Rpc.Server.Forward.{download_loop, upload_loop, is_udp_network}
use spaceship.Rpc.Tunnel.{chunk, last_chunk, take_all, flatten}
use spaceship.Rpc.Tunnel.Datagrams.{Reads, written, datagrams-both_ways}
use spaceship.Rpc.Tunnel.Download.{download_loop-receive_loop}
use spaceship.Rpc.Tunnel.Upload.{send_loop-upload_loop}
use spaceship.Transport.Stats.{count_mod}

abbrev no_stats : Session
no_stats = record {
  written = [];
  local_addr = [];
  addr_closed = false;
  statistic = record { tx = 0; rx = 0 };
  global_stats = record { tx = 5; rx = 7 };
}

abbrev net : Bytes
net = codes "tcp"

net-tcp : is_udp_network net ≡ false
unfolding is_udp_network same
net-tcp = refl

abbrev chunks : List Bytes
chunks = (1 ∷ 2 ∷ []) ∷ (3 ∷ []) ∷ []

download_loop-receive_loop_example :
    let (sent, x) = download_loop net (map chunk chunks ++ last_chunk (4 ∷ []) end_of_file ∷ []) in
    let (t, r) =
      receive_loop take_all no_stats
        (map ok (accept_message (codes "a:1") ∷ sent ++ eof_message ∷ [])) in
    let all = flatten (chunks ++ (4 ∷ []) ∷ []) in
    (x ≡ some end_of_file)
    × (r ≡ some end_of_file)
    × (t.written ≡ all)
    × (t.local_addr ≡ codes "a:1" ∷ [])
    × (t.statistic.rx ≡ (0 + length all) % count_mod)
download_loop-receive_loop_example =
    download_loop-receive_loop net (codes "a:1") chunks (4 ∷ []) end_of_file no_stats net-tcp
      (omega arith)

send_loop-upload_loop_example :
    let (t, sent, x) =
      send_loop no_stats (map chunk chunks ++ last_chunk (4 ∷ []) end_of_file ∷ []) in
    (x ≡ some end_of_file)
    × (upload_loop net take_all (map ok sent ++ err canceled ∷ []) ≡ (chunks, some canceled))
    × (t.statistic.tx ≡ (0 + length (flatten chunks)) % count_mod)
send_loop-upload_loop_example =
    send_loop-upload_loop net chunks (4 ∷ []) end_of_file canceled no_stats (refl, (refl, tt))
      (omega arith)

abbrev udp_net : Bytes
udp_net = codes "udp"

udp_net-udp : is_udp_network udp_net ≡ true
unfolding is_udp_network same
udp_net-udp = refl

datagrams-both_ways_example :
    let (sent, x) =
      download_loop udp_net (map chunk ([] ∷ chunks) ++ last_chunk [] end_of_file ∷ []) in
    (x ≡ some end_of_file)
    × Reads 2
        (map (λ m. received (ok m)) (accept_message (codes "a:1") ∷ sent ++ eof_message ∷ []))
        ([] ∷ chunks)
        conn_closed
    × (upload_loop udp_net take_all (map ok (written ([] ∷ chunks)) ++ err canceled ∷ [])
        ≡ ([] ∷ chunks, some canceled))
datagrams-both_ways_example =
    datagrams-both_ways udp_net (codes "a:1") 2 ([] ∷ chunks) ([] ∷ chunks) end_of_file canceled
      udp_net-udp (omega arith, ((omega arith), ((omega arith), tt)))

-- A deadline in the future that expires, is waited for and is then lifted.
abbrev waited : Deadline
waited = callback (fire (set make_pipe_deadline future)) 0

abbrev lifted : Deadline
lifted = set waited zero

lifted_reached : Reach make_pipe_deadline lifted
unfolding set stop_timer may_set renew is_closed_chan make_pipe_deadline fire callback close_cancel
lifted_reached =
    next (next (next (next here (sets future refl)) (expires refl)) (calls 0 refl)) (sets zero refl)

deadline-safe_example :
    (lifted.crashed ≡ false)
    × (may_set lifted ≡ false → lifted.callbacks ≡ 1)
    × (may_set lifted ≡ true → lifted.callbacks ≡ 0)
    × ((c : ℕ) → c ≤ lifted.cancel → (c ≡ lifted.cancel) ⊎ (is_closed_chan c lifted.closed ≡ true))
deadline-safe_example = deadline-safe lifted lifted_reached
