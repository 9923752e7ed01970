-- ===== src/Rpc/Tunnel/Datagrams.antt =====
-- Datagrams between the packet connection of the client and a UDP target.
use spaceship.Base.{
  ℕ, ◌≤◌, min, true, false, List, [], ◌∷◌, ◌++◌, map, none, some, ◌≡◌, refl, ap, ◌∙◌, arith, Bytes,
  length, ltb, ok, err, All,
}
use spaceship.Rpc.Client.Packet.{
  Wakeup, received, deliver, get_payload, read_from, free, finished, write_to,
}
use spaceship.Rpc.Messages.{
  SrcMessage, src_payload, accept_message, data_message, eof_message, Error, conn_closed,
}
use spaceship.Rpc.Server.Forward.{
  is_udp_network, worth_sending, copy_target_to_client, download_loop, write_datagram,
  copy_client_to_target, upload_loop,
}
use spaceship.Rpc.Tunnel.Upload.{upload_loop-step, write_all-takes}
use spaceship.Rpc.Tunnel.{take_all, chunk, last_chunk, take-length}

-- Reads of the packet connection, one after the other: datagrams, and at last an error.
pub data Reads (size : ℕ) : List Wakeup → List Bytes → Error → Type 0 where
  stop :
      (ws : List Wakeup) (e : Error) (rest : List Wakeup)
      → read_from size ws ≡ some (([], some e), rest)
      → Reads size ws [] e
  more :
      (ws : List Wakeup) (d : Bytes) (ds : List Bytes) (e : Error) (rest : List Wakeup)
      → read_from size ws ≡ some ((d, none), rest)
      → Reads size rest ds e
      → Reads size ws (d ∷ ds) e

-- The server passes every datagram on, an empty one too.
copy_target_to_client-datagram :
    (net : Bytes) (d : Bytes)
    → is_udp_network net ≡ true
    → copy_target_to_client net (chunk d) ≡ (data_message d ∷ [], none)
unfolding copy_target_to_client worth_sending
copy_target_to_client-datagram net [] h = rw h refl
copy_target_to_client-datagram net (x ∷ d) h = refl

download_loop-step :
    (net : Bytes) (d : Bytes) (rs : List _)
    → is_udp_network net ≡ true
    → download_loop net (chunk d ∷ rs)
      ≡ (data_message d ∷ (download_loop net rs).0, (download_loop net rs).1)
unfolding download_loop
download_loop-step net d rs h = simp (copy_target_to_client-datagram net d h, download_loop)

download_loop-datagrams :
    (net : Bytes) (ds : List Bytes) (e : Error)
    → is_udp_network net ≡ true
    → download_loop net (map chunk ds ++ last_chunk [] e ∷ []) ≡ (map data_message ds, some e)
unfolding download_loop copy_target_to_client worth_sending
download_loop-datagrams net [] e h = refl
download_loop-datagrams net (d ∷ ds) e h =
    download_loop-step net d (map chunk ds ++ last_chunk [] e ∷ []) h
    ∙ ap (λ t. (data_message d ∷ t.0, t.1)) (download_loop-datagrams net ds e h)

deliver-fits : (size : ℕ) (d : Bytes) → length d ≤ size → deliver size d ≡ (d, none)
unfolding deliver
deliver-fits size [] h = refl
deliver-fits size (x ∷ d) h =
    let fits : min size (length (x ∷ d)) ≡ length (x ∷ d) = omega arith in
    let enough : ltb (length (x ∷ d)) (length (x ∷ d)) ≡ false = ground arith in
    rw (fits, enough, take-length (x ∷ d)) refl

Reads-datagrams :
    (size : ℕ) (ds : List Bytes)
    → All (λ d. length d ≤ size) ds
    → Reads size
        (map (λ m. received (ok m)) (map data_message ds ++ eof_message ∷ []))
        ds
        conn_closed
unfolding read_from get_payload
Reads-datagrams size [] h = stop _ conn_closed [] refl
Reads-datagrams size (d ∷ ds) (h, hs) =
    let rest = map (λ m. received (ok m)) (map data_message ds ++ eof_message ∷ []) in
    more _ d ds conn_closed rest (ap (λ x. some (x, rest)) (deliver-fits size d h))
      (Reads-datagrams size ds hs)

-- The accept message is passed over.
Reads-accept :
    (size : ℕ) (addr : Bytes) (ws : List Wakeup) (ds : List Bytes) (e : Error)
    → Reads size ws ds e
    → Reads size (received (ok (accept_message addr)) ∷ ws) ds e
unfolding read_from
Reads-accept size addr ws ds e (stop _ _ rest h) = stop _ e rest h
Reads-accept size addr ws ds e (more _ d ds' _ rest h r) = more _ d ds' e rest h r

-- Each write of the packet connection is one message.
abbrev pub written : List Bytes → List SrcMessage
written [] = []
written (d ∷ ds) = (write_to d free (finished none false false)).sent ++ written ds

write_datagram-takes : (d : Bytes) → write_datagram take_all d ≡ (d ∷ [], ok tt)
unfolding write_datagram
write_datagram-takes d = refl

writes_one :
    (net : Bytes) (d : Bytes)
    → is_udp_network net ≡ true
    → copy_client_to_target net take_all (src_payload d) ≡ (d ∷ [], ok tt)
unfolding copy_client_to_target write_datagram
writes_one net [] h = rw h refl
writes_one net (x ∷ d) h = write_all-takes (x ∷ d)

upload_loop-datagrams :
    (net : Bytes) (ds : List Bytes) (f : Error)
    → is_udp_network net ≡ true
    → upload_loop net take_all (map ok (written ds) ++ err f ∷ []) ≡ (ds, some f)
unfolding upload_loop write_to
upload_loop-datagrams net [] f h = refl
upload_loop-datagrams net (d ∷ ds) f h =
    upload_loop-step net (src_payload d) (d ∷ []) (map ok (written ds) ++ err f ∷ [])
      (writes_one net d h)
    ∙ ap (λ t. (d ∷ t.0, t.1)) (upload_loop-datagrams net ds f h)

-- Datagrams to a UDP target and from it keep their bounds, empty ones too: each write of the
-- packet connection is one write to a target that takes everything, and each read of the target is
-- one read of the connection with a buffer that is large enough, until the session's end closes
-- the connection. The accept message is no datagram.
pub datagrams-both_ways :
    (net addr : Bytes) (size : ℕ) (ds us : List Bytes) (e f : Error)
    → is_udp_network net ≡ true
    → All (λ d. length d ≤ size) ds
    → let (sent, x) = download_loop net (map chunk ds ++ last_chunk [] e ∷ []) in
      (x ≡ some e)
      × Reads size
          (map (λ m. received (ok m)) (accept_message addr ∷ sent ++ eof_message ∷ []))
          ds
          conn_closed
      × (upload_loop net take_all (map ok (written us) ++ err f ∷ []) ≡ (us, some f))
datagrams-both_ways net addr size ds us e f udp fit = rw (download_loop-datagrams net ds e udp) (
  refl,
  Reads-accept size addr _ ds conn_closed (Reads-datagrams size ds fit),
  upload_loop-datagrams net us f udp,
)
