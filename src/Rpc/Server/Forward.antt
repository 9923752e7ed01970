-- ===== src/Rpc/Server/Forward.antt =====
-- `Forwarder` of internal/transport/rpc/server/forwarder.go: the target of a session, and one round
-- of each direction. What the target's connection answers is a parameter.
use spaceship.Base.{
  Bool, true, false, not, ◌&&◌, ◌||◌, List, [], ◌∷◌, ◌++◌, Option, none, some, Bytes, codes, same,
  length, take, drop, ltb, if◌then◌else◌, Result, ok, err,
}
use spaceship.Rpc.Client.Forward.{no_bytes, Read, Writer}
use spaceship.Rpc.Messages.{
  Network, tcp, udp, Header, SrcMessage, src_payload, DstMessage, data_message, Error, end_of_file,
  short_write, invalid_message,
}
use spaceship.Transport.Settings.{Settings, dial_network}

-- `strings.HasPrefix`
unfoldable pub has_prefix : Bytes → Bytes → Bool
has_prefix prefix s = same (take (length prefix) s) prefix

-- The network and the address of an address with a scheme.
unfoldable pub split_legacy_scheme : Bytes → Option (Bytes × Bytes)
split_legacy_scheme raw =
    if has_prefix (codes "udp://") raw
    then some (codes "udp", drop 6 raw)
    else if has_prefix (codes "tcp://") raw
    then some (codes "tcp", drop 6 raw)
    else none

abbrev pub network_of : Settings → Network → Bytes
network_of s udp = dial_network s (codes "udp")
network_of s tcp = dial_network s s.network

unfoldable pub resolve_target : Settings → Header → Bytes × Bytes
resolve_target s h = elim (split_legacy_scheme h.addr) [
  | some (net, addr) ↦ (dial_network s net, addr)
  | none ↦ (network_of s h.network, h.addr)
]

unfoldable pub is_udp_network : Bytes → Bool
is_udp_network net = same net (codes "udp") || (same net (codes "udp4") || same net (codes "udp6"))

abbrev pub is_none : Option Error → Bool
is_none none = true
is_none (some e) = false

-- A read is sent on before its error is looked at; an empty one only if it is a datagram.
unfoldable pub worth_sending : Bytes → Read → Bool
worth_sending net r = not (no_bytes r.bytes) || (is_none r.failed && is_udp_network net)

-- A round of the download, with the messages that it sends.
unfoldable pub copy_target_to_client : Bytes → Read → List DstMessage × Option Error
copy_target_to_client net r =
    if worth_sending net r
    then (elim r.send_failed [
      | some e ↦ ([], some e)
      | none ↦ (data_message r.bytes ∷ [], r.failed)
    ])
    else ([], r.failed)

-- The loop of `CopyTargetToClient` behind the accept message.
unfoldable pub download_loop : Bytes → List Read → List DstMessage × Option Error
download_loop net [] = ([], none)
download_loop net (r ∷ rs) =
    let (sent, e) = copy_target_to_client net r in
    elim e [
      | some x ↦ (sent, some x)
      | none ↦ let (later, x) = download_loop net rs in (sent ++ later, x)
    ]

-- A round of the upload: what is written to the target, one list for each write, and the result.
unfoldable pub write_all : Writer → Bytes → List Bytes × Result Error (Unit {0})
write_all writer payload =
    let (n, failed) = writer payload in
    (
      take n payload ∷ [],
      if ltb n (length payload)
          then err short_write
          else elim failed [ some e ↦ err e | none ↦ ok tt ],
    )

unfoldable pub write_datagram : Writer → Bytes → List Bytes × Result Error (Unit {0})
write_datagram writer payload =
    let (n, failed) = writer payload in
    (payload ∷ [], elim failed [ some e ↦ err e | none ↦ ok tt ])

unfoldable pub copy_client_to_target :
    Bytes → Writer → SrcMessage → List Bytes × Result Error (Unit {0})
copy_client_to_target net writer (src_payload payload) =
    if no_bytes payload
    then if is_udp_network net then write_datagram writer payload else ([], err end_of_file)
    else write_all writer payload
copy_client_to_target net writer _ = ([], err invalid_message)

-- The loop of `CopyClientToTarget` behind the handshake, over what `RecvMsg` gives.
unfoldable pub upload_loop :
    Bytes → Writer → List (Result Error SrcMessage) → List Bytes × Option Error
upload_loop net writer [] = ([], none)
upload_loop net writer (err e ∷ rest) = ([], some e)
upload_loop net writer (ok msg ∷ rest) =
    let (out, r) = copy_client_to_target net writer msg in
    elim r [
      | err e ↦ (out, some e)
      | ok _ ↦ let (later, x) = upload_loop net writer rest in (out ++ later, x)
    ]
