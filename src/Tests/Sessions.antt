-- ===== src/Tests/Sessions.antt =====
-- A session of the server at concrete inputs.
use spaceship.Base.{
  ◌≤◌, List, [], ◌∷◌, ◌++◌, map, none, some, ◌≡◌, refl, Bytes, codes, same, true, false, Result, ok,
  err, if◌then◌else◌, length, ◌⊎◌,
}
use spaceship.Config.Users.{User, MatchMap, new_users_match_map, match_list, match_map}
use spaceship.Hosts.{is_empty}
use spaceship.Rpc.Server.Access.{
  AuthError, missing_user_id, unknown_user, attach_user, intercept, intercept-users,
}
use spaceship.Rpc.Client.Stream.Addresses.{stream-addresses}
use spaceship.Rpc.Client.Stream.{
  Stream, start, receive_round, take_address, address_of, fits, receives, takes,
  Reach as StreamReach, here as here_step, next as next_step,
}
use spaceship.Rpc.Client.Forward.{
  copy_target_to_src, accepted_message, receive_loop, Session as ClientSession,
}
use spaceship.Rpc.Messages.{src_header, tcp, eof_message, accept_message, end_of_file}
use spaceship.Rpc.Server.Forward.{
  is_udp_network, resolve_target, split_legacy_scheme, has_prefix, copy_target_to_client,
  worth_sending,
}
use spaceship.Rpc.Server.Session.Transcript.{session-Shape}
use spaceship.Rpc.Server.Session.Invariant.{Shape}
use spaceship.Rpc.Server.Session.{
  Outside, Session, new_forwarder, begin_upload, after_handshake, handshake, dial_target,
  begin_download, download_round, download_returns, Reach, here, next, begin, acknowledge, receive,
  proxy, waiting, running,
}
use spaceship.Rpc.Tunnel.Whole.{Received, session-Received}
use spaceship.Rpc.Tunnel.{take_all, last_chunk}
use spaceship.Transport.Settings.{default_settings, dial_network}

abbrev outside : Outside
outside = record {
  Route = Bytes;
  settings = default_settings;
  split_host_port = λ addr. some (addr, []);
  get_route = λ host. some host;
  dial = λ route network addr. some (codes "l:1");
}

abbrev begun : Session
begun =
    begin_upload outside new_forwarder
      (ok (src_header (record { addr = codes "a:80"; network = tcp }))) true

begun_reached : Reach outside new_forwarder begun
unfolding new_forwarder
begun_reached =
    next here (begin (ok (src_header (record { addr = codes "a:80"; network = tcp }))) true refl)

abbrev accepted_session : Session
accepted_session = record begun {
  ack_ready = false;
  download = running;
  sent = accept_message (codes "l:1") ∷ [];
}

begun_accepts :
    (begun.ack_ready ≡ true)
    × (begun.download ≡ waiting)
    × (begin_download begun none ≡ some accepted_session)
unfolding begin_upload new_forwarder handshake dial_target after_handshake resolve_target
    split_legacy_scheme has_prefix same begin_download
begun_accepts = (refl, refl, refl)

abbrev over : Session
over = download_round accepted_session (last_chunk (7 ∷ []) end_of_file)

over_reached : Reach outside new_forwarder over
over_reached =
    next
      (next begun_reached
        (acknowledge none accepted_session begun_accepts.1 begun_accepts.0 begun_accepts.2))
      (receive (last_chunk (7 ∷ []) end_of_file) refl)

over_ends : (is_udp_network over.network ≡ false) × (proxy over ≡ over.sent ++ eof_message ∷ [])
unfolding begin_upload new_forwarder handshake dial_target after_handshake resolve_target
    split_legacy_scheme has_prefix same download_round download_returns copy_target_to_client
    worth_sending proxy dial_network is_udp_network default_settings
over_ends = (refl, refl)

session-Shape_example : Shape over
session-Shape_example = session-Shape outside over over_reached

abbrev client : ClientSession
client = record {
  written = [];
  local_addr = [];
  addr_closed = false;
  statistic = record { tx = 0; rx = 0 };
  global_stats = record { tx = 0; rx = 0 };
}

session-Received_example : Received over client (receive_loop take_all client (map ok (proxy over)))
session-Received_example = session-Received outside over client over_reached over_ends.0 over_ends.1

abbrev us : List User
us = record { uuid = codes "u" } ∷ []

intercept-users_example :
    (m : MatchMap) × (new_users_match_map (map some us) ≡ some m)
    × ((id : Bytes) → match_list (map some us) id ≡ some (match_map m id))
    × ((id : Bytes) (handler : Bytes → Result AuthError Bytes)
        → intercept (match_map m) (some (attach_user id [])) handler ≡ (
            if is_empty id
            then err missing_user_id
            else if match_map m id
            then handler id
            else err unknown_user))
intercept-users_example = intercept-users us

-- The client hears one address and passes it on.
abbrev stream : Stream
stream =
    take_address (receive_round take_all (start client) (accept_message (codes "l:1")))
      (codes "l:1") []

stream_reached : StreamReach (start client) (codes "l:1" ∷ []) stream
unfolding start receive_round copy_target_to_src accepted_message address_of fits
stream_reached =
    next_step (next_step here_step (receives take_all (accept_message (codes "l:1")) refl refl))
      (takes (codes "l:1") [] refl refl)

stream-addresses_example :
    (stream.taken ++ stream.forward.local_addr ≡ codes "l:1" ∷ [])
    × ((stream.given ≡ []) ⊎ (stream.given ≡ stream.taken))
    × (length stream.taken ≤ 1)
    × (length (codes "l:1" ∷ []) ≤ 2)
stream-addresses_example = stream-addresses client (codes "l:1" ∷ []) stream refl stream_reached
