-- ===== src/Rpc/Client/Packet.antt =====
-- `StreamPacketConn` of internal/transport/rpc/client/packet_conn.go: `ReadFrom` and `WriteTo` over
-- what wakes their `select`s.
use spaceship.Base.{
  ℕ, Bool, true, false, List, [], ◌∷◌, Option, none, some, Bytes, length, take, ltb, min,
  if◌then◌else◌, Result, ok, err,
}
use spaceship.Rpc.Client.Forward.{no_bytes}
use spaceship.Rpc.Messages.{
  SrcMessage, src_payload, DstMessage, DstBody, dst_header, dst_payload, dst_empty, session, error,
  accepted, eof, other, Error, end_of_file, canceled, conn_closed, deadline_exceeded, short_buffer,
  error_status,
}

-- What a `select` of `ReadFrom` takes: the end of the context, the deadline, the closed channel of
-- the read loop, or what that loop received.
pub data Wakeup : Type 0 where
  context_done deadline_passed channel_closed : Wakeup
  received : Result Error DstMessage → Wakeup

-- `GetPayload`
unfoldable pub get_payload : DstBody → Bytes
get_payload (dst_payload payload) = payload
get_payload (dst_header _) = []
get_payload dst_empty = []

-- What is copied to the caller's buffer of a size, and the error beside it.
abbrev pub Datagram : Type 0
Datagram = Bytes × Option Error

unfoldable pub deliver : ℕ → Bytes → Datagram
deliver size payload =
    if no_bytes payload
    then ([], none)
    else let n = min size (length payload) in
      if ltb n (length payload) then (take n payload, some short_buffer) else (take n payload, none)

abbrev pub receive_error : Error → Error
receive_error end_of_file = conn_closed
receive_error canceled = conn_closed
receive_error e = e

-- A read takes what it needs of the wakeups; it is `none` while it waits.
unfoldable pub read_from : ℕ → List Wakeup → Option (Datagram × List Wakeup)
read_from size [] = none
read_from size (context_done ∷ rest) = some (([], some conn_closed), rest)
read_from size (deadline_passed ∷ rest) = some (([], some deadline_exceeded), rest)
read_from size (channel_closed ∷ rest) = some (([], some conn_closed), rest)
read_from size (received (err e) ∷ rest) = some (([], some (receive_error e)), rest)
read_from size (received (ok msg) ∷ rest) =
    let later = read_from size rest in
    elim msg.status [
      | accepted ↦ later
      | session ↦ some (deliver size (get_payload msg.body), rest)
      | eof ↦ some (([], some conn_closed), rest)
      | error ↦ some (([], some error_status), rest)
      | other _ ↦ some (([], some error_status), rest)
    ]

-- What `WriteTo` finds before it sends, and what ends its wait for the send: its result, with what
-- has come by then, or the end of the context or the deadline.
pub data Ready : Type 0 where
  free context_over deadline_over : Ready

pub data Sending : Type 0 where
  finished : (failed : Option Error) (late ended : Bool) → Sending
  context_ended deadline_ended : Sending

abbrev pub is_canceled : Error → Bool
is_canceled canceled = true
is_canceled _ = false

-- The error of a send that has failed.
unfoldable pub send_error : Error → Bool → Bool → Error
send_error e late ended =
    if late
    then deadline_exceeded
    else if ended
    then conn_closed
    else if is_canceled e
    then conn_closed
    else e

-- The message that is handed to the stream, the result, and whether the stream is canceled.
pub record Written : Type 0 where
  pub sent : List SrcMessage
  pub result : Result Error ℕ
  pub canceled_stream : Bool

unfoldable pub write_to : Bytes → Ready → Sending → Written
write_to p context_over sending = record {
  sent = [];
  result = err conn_closed;
  canceled_stream = false;
}
write_to p deadline_over sending = record {
  sent = [];
  result = err deadline_exceeded;
  canceled_stream = false;
}
write_to p free (finished none d c) = record {
  sent = src_payload p ∷ [];
  result = ok (length p);
  canceled_stream = false;
}
write_to p free (finished (some e) d c) = record {
  sent = src_payload p ∷ [];
  result = err (send_error e d c);
  canceled_stream = false;
}
write_to p free context_ended = record {
  sent = src_payload p ∷ [];
  result = err conn_closed;
  canceled_stream = false;
}
write_to p free deadline_ended = record {
  sent = src_payload p ∷ [];
  result = err deadline_exceeded;
  canceled_stream = true;
}
