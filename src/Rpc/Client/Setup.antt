-- ===== src/Rpc/Client/Setup.antt =====
-- The client's variables and its transport: internal/transport/rpc/client/client.go up to `Proxy`, and
-- handshake.go. Certificates, files and the streams of gRPC are parameters.
pub mod Packets
use spaceship.Base.{
  ℕ, Bool, true, false, not, ◌&&◌, List, [], ◌∷◌, Option, none, some, Bytes, codes, same, Result,
  ok, err, if◌then◌else◌,
}
use spaceship.Rpc.Messages.{SrcMessage, src_header, udp, tcp, Header}
use spaceship.Rpc.Pool.{
  State, ConnQueue, Got, pooled, outside, dial_failed, queue_down, none_available, replacing,
  Summary, new_conn_queue, init, destroy, get_conn, done, ConnWrapper, replace_conn,
}

-- `uuidVal` and `queueVal`.
pub record Vars : Type 0 where
  pub uuid : Bytes
  pub queue : Option ConnQueue

pub data SetupError : Type 0 where
  no_certificates certificate_unread certificate_refused pool_failed : SetupError
  not_initialized no_connection : SetupError

unfoldable pub set_uuid : Vars → Bytes → Vars
set_uuid v uid = record v { uuid = uid }

-- `read` is a file's content, and `append` whether certificates are found in it.
unfoldable pub load_certificate_authorities :
    (Bytes → Option Bytes) → (Bytes → Bool) → List Bytes → Result SetupError (Unit {0})
load_certificate_authorities read append [] = ok tt
load_certificate_authorities read append (path ∷ paths) =
    let rest = load_certificate_authorities read append paths in
    elim (read path) [
      | none ↦ err certificate_unread
      | some cert ↦ if append cert then rest else err certificate_refused
    ]

pub data Credential : Type 0 where
  insecure : Credential
  tls_credential : (server_name : Bytes) → Credential

-- `system_pool` is whether the system's certificates can be copied.
unfoldable pub setup_grpc_credential :
    (read : Bytes → Option Bytes)
    → (append : Bytes → Bool) → (system_pool : Bool) → (tls : Bool) → (host_name : Bytes)
    → (custom_ca : List Bytes) → Result SetupError Credential
setup_grpc_credential read append system_pool false host_name custom_ca = ok insecure
setup_grpc_credential read append false true host_name [] = err no_certificates
setup_grpc_credential read append system_pool true host_name custom_ca =
    elim (load_certificate_authorities read append custom_ca) [
      | err e ↦ err e
      | ok _ ↦ ok (tls_credential host_name)
    ]

-- `Init`; `dials` gives the handle of each connection of the pool, and `mux` is their number.
unfoldable pub init_client :
    Vars → Result SetupError Credential → ℕ → (ℕ → Option ℕ) → Vars × Result SetupError (Unit {0})
init_client v (err e) mux dials = (v, err e)
init_client v (ok credential) mux dials =
    let (q, whole) = init (new_conn_queue mux) dials in
    if whole then (record v { queue = some q }, ok tt) else (v, err pool_failed)

-- `Destroy`, with the handles that it closes; none is a panic.
unfoldable pub destroy_client : Vars → Vars × Option (List ℕ)
destroy_client v =
    (record v { queue = none }, elim v.queue [ none ↦ some [] | some q ↦ (destroy q).1 ])

-- A client holds a connection of the pool, or one of its own.
pub data Lease : Type 0 where
  from_pool of_its_own : ℕ → Lease

unfoldable pub lease_of : Got → Result SetupError Lease
lease_of (pooled handle) = ok (from_pool handle)
lease_of (outside handle) = ok (of_its_own handle)
lease_of dial_failed = err no_connection
lease_of queue_down = err no_connection
lease_of none_available = err no_connection
lease_of (replacing w) = err no_connection

-- The connection that a goroutine is to replace, if `GetConn` started one.
abbrev pub replacement_of : Got → Option ConnWrapper
replacement_of (pooled handle) = none
replacement_of (outside handle) = none
replacement_of dial_failed = none
replacement_of queue_down = none
replacement_of none_available = none
replacement_of (replacing w) = some w

-- `New`, with the queue that it reads.
unfoldable pub lease_from :
    Vars
    → (states states' : ℕ → State) → (dial : Option ℕ) → Option ConnQueue
    → Vars × Result SetupError Lease × Option ConnWrapper
unfolding lease_of
lease_from v states states' dial none = (v, err not_initialized, none)
lease_from v states states' dial (some q) =
    let (q', got) = get_conn q states states' dial in
    (record v { queue = some q' }, lease_of got, replacement_of got)

unfoldable pub new_client :
    Vars
    → (states states' : ℕ → State) → (dial : Option ℕ)
    → Vars × Result SetupError Lease × Option ConnWrapper
unfolding lease_from
new_client v states states' dial = lease_from v states states' dial v.queue

abbrev pub closed_one : Option ℕ → List ℕ
closed_one none = []
closed_one (some handle) = handle ∷ []

-- The goroutine of `replaceConn` from its start to its end, with the outcome of its dial: the variables
-- and the handles that it closes.
unfoldable pub settle : Vars → Option ConnWrapper → (redial : Option ℕ) → Vars × List ℕ
settle v none redial = (v, [])
settle v (some old) redial = elim v.queue [
  | none ↦ (v, [])
  | some q ↦
      let (q', closed) = replace_conn q old redial in
      (record v { queue = some q' }, closed_one closed)
]

-- `Client.Close`, with the handles that it closes. The queue may have been destroyed before.
unfoldable pub close_client : Vars → Lease → Vars × List ℕ
close_client v (of_its_own handle) = (v, handle ∷ [])
close_client v (from_pool handle) =
    (elim v.queue [ none ↦ v | some q ↦ record v { queue = some (done q handle) } ], [])

-- What becomes of the send of a handshake: it answers, or the timer fires first.
pub data Send : Type 0 where
  sent : Send
  refused : Send
  too_late : Send

-- `sendHandshake`: whether it succeeds, and whether it cancels the stream.
unfoldable pub send_handshake : Send → Bool × Bool
send_handshake sent = (true, false)
send_handshake refused = (false, false)
send_handshake too_late = (false, true)

pub data PacketError : Type 0 where
  unsupported_network no_stream handshake_failed : PacketError

-- A packet connection, by what it has been sent.
pub record Opened : Type 0 where
  pub result : Result PacketError (List SrcMessage)
  pub canceled : Bool

unfoldable pub is_packet_network : Bytes → Bool
is_packet_network network =
    if same network (codes "udp")
    then true
    else if same network (codes "udp4")
    then true
    else same network (codes "udp6")

abbrev pub packet_handshake : Bytes → SrcMessage
packet_handshake addr = src_header (record { addr = addr; network = udp })

-- `DialPacket`
unfoldable pub dial_packet : (streams : Bool) → Send → Bytes → Bytes → Opened
unfolding send_handshake
dial_packet streams send network addr =
    if not (is_packet_network network)
    then record { result = err unsupported_network; canceled = false }
    else if not streams
    then record { result = err no_stream; canceled = true }
    else if (send_handshake send).0
    then record { result = ok (packet_handshake addr ∷ []); canceled = (send_handshake send).1 }
    else record { result = err handshake_failed; canceled = true }
