-- ===== src/Rpc/Server/Session.antt =====
-- The session of a stream on the server: the handshake, the two directions as they wait for each
-- other in `CopyClientToTarget` and `CopyTargetToClient` of internal/transport/rpc/server/forwarder.go,
-- and `Proxy` of internal/transport/rpc/server/server.go. The router and the dialer are parameters.
pub mod Invariant
pub mod Downloads
pub mod Handshakes
pub mod Transcript
use spaceship.Base.{
  Bool, true, false, List, [], ◌∷◌, ◌++◌, Option, none, some, Bytes, ◌≡◌, Result, ok, err,
  if◌then◌else◌,
}
use spaceship.Rpc.Client.Forward.{Read, Writer}
use spaceship.Rpc.Messages.{
  SrcMessage, src_header, src_payload, src_empty, DstMessage, accept_message, error_message,
  eof_message, Error, canceled, rpc_canceled, invalid_message, invalid_address, route_error,
  dial_error, ack_failed,
}
use spaceship.Rpc.Server.Forward.{resolve_target, copy_client_to_target, copy_target_to_client}
use spaceship.Transport.Settings.{Settings}

-- `split_host_port` is `net.SplitHostPort`, `get_route` is `router.GetRoute`, and `dial` is the
-- `Dial` of a route, which gives the local address of a connection.
pub record Outside : Type 1 where
  pub Route : Type 0
  pub settings : Settings
  pub split_host_port : Bytes → Option (Bytes × Bytes)
  pub get_route : Bytes → Option Route
  pub dial : Route → Bytes → Bytes → Option Bytes

-- How far a direction is.
pub data Side : Type 0 where
  waiting running : Side
  returned : Error → Side

-- `conn` is the local address of the connection to the target. `ack_ready` and `ack_closed` are the
-- channel `Ack`; `failed` is the first error of the group; `sent` is what the client is sent.
pub record Session : Type 0 where
  pub conn : Option Bytes
  pub conn_closed : Bool
  pub target : Bytes
  pub network : Bytes
  pub ack_ready : Bool
  pub ack_closed : Bool
  pub upload : Side
  pub download : Side
  pub failed : Option Error
  pub sent : List DstMessage

unfoldable pub new_forwarder : Session
new_forwarder = record {
  conn = none;
  conn_closed = false;
  target = [];
  network = [];
  ack_ready = false;
  ack_closed = false;
  upload = waiting;
  download = waiting;
  failed = none;
  sent = [];
}

abbrev pub first : Option Error → Error → Option Error
first none e = some e
first (some e) _ = some e

-- A direction returns to the group; the upload closes `Ack`.
unfoldable pub upload_returns : Session → Error → Session
upload_returns s e = record s { upload = returned e; ack_closed = true; failed = first s.failed e }

unfoldable pub download_returns : Session → Error → Session
download_returns s e = record s { download = returned e; failed = first s.failed e }

unfoldable pub close : Session → Session
close s = record s { conn_closed = true }

-- What is dialed, and what is sent where that fails.
unfoldable pub dial_target : Session → Option Bytes → Bool → Session × Result Error (Unit {0})
dial_target s none error_sent =
    (record s { sent = s.sent ++ (if error_sent then error_message ∷ [] else []) }, err dial_error)
dial_target s (some local) error_sent = (record s { conn = some local }, ok tt)

unfoldable pub handshake :
    Outside → Session → Result Error SrcMessage → Bool → Session × Result Error (Unit {0})
handshake out s (err e) error_sent = (s, err e)
handshake out s (ok (src_payload _)) error_sent = (s, err invalid_message)
handshake out s (ok src_empty) error_sent = (s, err invalid_message)
handshake out s (ok (src_header h)) error_sent =
    let (network, addr) = resolve_target out.settings h in
    let s' = record s { network = network; target = addr } in
    elim (out.split_host_port addr) [
      | none ↦ (s', err invalid_address)
      | some (host, _) ↦ elim (out.get_route host) [
        | none ↦ (s', err route_error)
        | some route ↦ dial_target s' (out.dial route network addr) error_sent
      ]
    ]

-- The upload up to its loop.
unfoldable pub after_handshake : Session → Result Error (Unit {0}) → Session
after_handshake s (err e) = upload_returns s e
after_handshake s (ok _) = record s { ack_ready = true; upload = running }

unfoldable pub begin_upload : Outside → Session → Result Error SrcMessage → Bool → Session
begin_upload out s request error_sent =
    let (s', r) = handshake out s request error_sent in after_handshake s' r

-- A round of the upload's loop.
unfoldable pub upload_round : Session → Writer → Result Error SrcMessage → Session
upload_round s writer (err e) = upload_returns s e
upload_round s writer (ok msg) = elim (copy_client_to_target s.network writer msg).1 [
  | err e ↦ upload_returns s e
  | ok _ ↦ s
]

-- The download takes the token of `Ack` and sends the address of the connection; it is `none` where
-- there is no connection to ask.
unfoldable pub begin_download : Session → Option Error → Option Session
begin_download s failed = elim s.conn [
  | none ↦ none
  | some local ↦ elim failed [
    | some e ↦ some (download_returns (record s { ack_ready = false }) e)
    | none ↦ some (record s {
      ack_ready = false;
      download = running;
      sent = s.sent ++ accept_message local ∷ [];
    })
  ]
]

-- A round of the download's loop.
unfoldable pub download_round : Session → Read → Session
download_round s r =
    let (sent, e) = copy_target_to_client s.network r in
    let s' = record s { sent = s.sent ++ sent } in
    elim e [ none ↦ s' | some x ↦ download_returns s' x ]

-- The steps of the two directions and of the one that closes the connection when the context ends.
pub data Step (out : Outside) (s : Session) : Session → Type 0 where
  begin :
      (request : Result Error SrcMessage) (error_sent : Bool)
      → s.upload ≡ waiting
      → Step out s (begin_upload out s request error_sent)
  forward :
      (writer : Writer) (msg : Result Error SrcMessage)
      → s.upload ≡ running
      → Step out s (upload_round s writer msg)
  stop_upload : (e : Error) → s.upload ≡ running → Step out s (upload_returns (close s) e)
  acknowledge :
      (failed : Option Error) (t : Session)
      → s.download ≡ waiting
      → s.ack_ready ≡ true
      → begin_download s failed ≡ some t
      → Step out s t
  refuse :
      s.download ≡ waiting
      → s.ack_ready ≡ false
      → s.ack_closed ≡ true
      → Step out s (download_returns s ack_failed)
  stop_download : (e : Error) → s.download ≡ waiting → Step out s (download_returns s e)
  receive : (r : Read) → s.download ≡ running → Step out s (download_round s r)
  interrupt : Step out s (close s)

pub data Reach (out : Outside) (s : Session) : Session → Type 0 where
  here : Reach out s s
  next : {t u : Session} → Reach out s t → Step out t u → Reach out s u

-- What the client is sent in all, once both directions have returned.
unfoldable pub proxy : Session → List DstMessage
proxy s = elim s.failed [ some rpc_canceled ↦ s.sent | _ ↦ s.sent ++ eof_message ∷ [] ]
