-- ===== src/Rpc/Client/Stream.antt =====
-- A stream of the client: the three goroutines of `Start` of internal/transport/rpc/client/forwarder.go,
-- and `Proxy` of internal/transport/rpc/client/client.go. The channel `localAddr` buffers one address.
pub mod Addresses
pub mod Rounds
use spaceship.Base.{
  Bool, true, false, not, ◌&&◌, if◌then◌else◌, List, [], ◌∷◌, ◌++◌, Option, none, some, Bytes, ◌≡◌,
  Result, ok, err,
}
use spaceship.Rpc.Client.Forward.{
  Session, Writer, Read, copy_target_to_src, copy_src_to_target, received_error,
}
use spaceship.Rpc.Messages.{
  DstMessage, Status, session, accepted, eof, error, other, DstBody, dst_header, dst_payload,
  dst_empty, Error, end_of_file, canceled, ack_timeout, server_rejected,
}

-- A goroutine runs or has returned.
pub data Side : Type 0 where
  running : Side
  returned : Option Error → Side

-- `failed` is the first error of the group, `taken` is what the acknowledgement took from the channel,
-- and `given` is what the caller's channel was sent.
pub record Stream : Type 0 where
  pub forward : Session
  pub receiver : Side
  pub sender : Side
  pub ack : Side
  pub failed : Option Error
  pub taken : List Bytes
  pub given : List Bytes

unfoldable pub start : Session → Stream
start f = record {
  forward = f;
  receiver = running;
  sender = running;
  ack = running;
  failed = none;
  taken = [];
  given = [];
}

abbrev pub first : Option Error → Error → Option Error
first none e = some e
first (some e) _ = some e

unfoldable pub receiver_fails : Stream → Error → Stream
receiver_fails s e = record s { receiver = returned (some e); failed = first s.failed e }

unfoldable pub sender_fails : Stream → Error → Stream
sender_fails s e = record s { sender = returned (some e); failed = first s.failed e }

unfoldable pub ack_fails : Stream → Error → Stream
ack_fails s e = record s { ack = returned (some e); failed = first s.failed e }

-- The address of an accept message.
unfoldable pub address_of : DstBody → List Bytes
address_of (dst_header addr) = addr ∷ []
address_of (dst_payload _) = []
address_of dst_empty = []

abbrev pub offered : Status → DstBody → List Bytes
offered accepted body = address_of body
offered session body = []
offered error body = []
offered eof body = []
offered (other n) body = []

abbrev pub is_free : List Bytes → Bool
is_free [] = true
is_free (_ ∷ _) = false

-- A message with an address is taken in only while the channel is free.
unfoldable pub fits : Stream → DstMessage → Bool
fits s msg = if is_free (offered msg.status msg.body) then true else is_free s.forward.local_addr

unfoldable pub receive_round : Writer → Stream → DstMessage → Stream
receive_round writer s msg =
    let (f, r) = copy_target_to_src writer s.forward msg in
    let s' = record s { forward = f } in elim r [ ok _ ↦ s' | err e ↦ receiver_fails s' e ]

unfoldable pub send_round : Stream → Read → Stream
send_round s r =
    let (f, sent, e) = copy_src_to_target s.forward r in
    let s' = record s { forward = f } in elim e [ none ↦ s' | some x ↦ sender_fails s' x ]

-- The acknowledgement is taken from the channel and passed on.
unfoldable pub take_address : Stream → Bytes → List Bytes → Stream
take_address s addr rest = record s {
  forward = record s.forward { local_addr = rest };
  ack = returned none;
  taken = s.taken ++ addr ∷ [];
  given = s.given ++ addr ∷ [];
}

-- The context is canceled before the caller takes the address.
unfoldable pub drop_address : Stream → Bytes → List Bytes → Error → Stream
drop_address s addr rest e = record s {
  forward = record s.forward { local_addr = rest };
  ack = returned (some e);
  failed = first s.failed e;
  taken = s.taken ++ addr ∷ [];
}

-- The steps of the three goroutines, with the addresses that they take in from the stream.
pub data Step (s : Stream) : List Bytes → Stream → Type 0 where
  receives :
      (writer : Writer) (msg : DstMessage)
      → s.receiver ≡ running
      → fits s msg ≡ true
      → Step s (offered msg.status msg.body) (receive_round writer s msg)
  breaks : (e : Error) → s.receiver ≡ running → Step s [] (receiver_fails s (received_error e))
  sends : (r : Read) → s.sender ≡ running → Step s [] (send_round s r)
  stops : (e : Error) → s.sender ≡ running → Step s [] (sender_fails s e)
  takes :
      (addr : Bytes) (rest : List Bytes)
      → s.ack ≡ running
      → s.forward.local_addr ≡ addr ∷ rest
      → Step s [] (take_address s addr rest)
  drops :
      (addr : Bytes) (rest : List Bytes) (e : Error)
      → s.ack ≡ running
      → s.forward.local_addr ≡ addr ∷ rest
      → Step s [] (drop_address s addr rest e)
  rejects :
      s.ack ≡ running
      → s.forward.local_addr ≡ []
      → s.forward.addr_closed ≡ true
      → Step s [] (ack_fails s server_rejected)
  times_out : s.ack ≡ running → Step s [] (ack_fails s ack_timeout)
  cancels : (e : Error) → s.ack ≡ running → Step s [] (ack_fails s e)

-- The addresses heard on the way are in order.
pub data Reach (s : Stream) : List Bytes → Stream → Type 0 where
  here : Reach s [] s
  next :
      {heard : List Bytes} {t : Stream} {more : List Bytes} {u : Stream}
      → Reach s heard t
      → Step t more u
      → Reach s (heard ++ more) u

-- What `Start` returns once all have returned, and `Proxy` then.
abbrev pub start_result : Option Error → Option Error
start_result (some end_of_file) = none
start_result e = e

abbrev pub proxy_result : Option Error → Option Error
proxy_result failed = elim (start_result failed) [ some canceled ↦ none | e ↦ e ]
