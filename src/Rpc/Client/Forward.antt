-- ===== src/Rpc/Client/Forward.antt =====
-- `Forwarder` of internal/transport/rpc/client/forwarder.go: one round of each direction, and the
-- loop of the download. What the caller's reader and writer answer is a parameter.
use spaceship.Base.{
  ℕ, Bool, true, false, ◌||◌, List, [], ◌∷◌, ◌++◌, Option, none, some, Bytes, length, take, ltb,
  ◌==◌, if◌then◌else◌, Result, ok, err,
}
use spaceship.Rpc.Messages.{
  SrcMessage, src_payload, DstMessage, DstBody, dst_header, dst_payload, Status, session, error,
  accepted, eof, other, Error, end_of_file, unavailable, short_write, invalid_message,
  invalid_payload, server_error, unknown_status,
}
use spaceship.Transport.Stats.{Stats, add_tx, add_rx}

-- How many bytes a writer takes, and its error.
abbrev pub Writer : Type 0
Writer = Bytes → ℕ × Option Error

-- The session: what was written to the caller, the channel `localAddr`, and the two counters.
pub record Session : Type 0 where
  pub written : Bytes
  pub local_addr : List Bytes
  pub addr_closed : Bool
  pub statistic : Stats
  pub global_stats : Stats

unfoldable pub count_tx : Session → ℕ → Session
count_tx s n =
    if n == 0
    then s
    else record s { statistic = add_tx s.statistic n; global_stats = add_tx s.global_stats n }

unfoldable pub count_rx : Session → ℕ → Session
count_rx s n =
    if n == 0
    then s
    else record s { statistic = add_rx s.statistic n; global_stats = add_rx s.global_stats n }

-- The payload is written; less than all of it is an error.
unfoldable pub write_payload : Writer → Session → Bytes → Session × Result Error (Unit {0})
write_payload writer s payload =
    let (n, failed) = writer payload in
    let s' = record s { written = s.written ++ take n payload } in
    elim failed [
      | some e ↦ (s', err e)
      | none ↦
          if n == 0 || ltb n (length payload) then (s', err short_write) else (count_rx s' n, ok tt)
    ]

abbrev pub no_bytes : Bytes → Bool
no_bytes [] = true
no_bytes (_ ∷ _) = false

unfoldable pub session_message : Writer → Session → DstBody → Session × Result Error (Unit {0})
session_message writer s (dst_payload payload) =
    if no_bytes payload then (s, err invalid_payload) else write_payload writer s payload
session_message writer s _ = (s, err invalid_message)

unfoldable pub accepted_message : Session → DstBody → Session × Result Error (Unit {0})
accepted_message s (dst_header addr) = (record s { local_addr = s.local_addr ++ addr ∷ [] }, ok tt)
accepted_message s _ = (s, err invalid_message)

abbrev pub on_status : Writer → Session → Status → DstBody → Session × Result Error (Unit {0})
on_status writer s session body = session_message writer s body
on_status writer s accepted body = accepted_message s body
on_status writer s eof body = (s, err end_of_file)
on_status writer s error body = (record s { addr_closed = true }, err server_error)
on_status writer s (other n) body = (s, err unknown_status)

unfoldable pub copy_target_to_src :
    Writer → Session → DstMessage → Session × Result Error (Unit {0})
copy_target_to_src writer s msg = on_status writer s msg.status msg.body

-- A transport that breaks down ends the stream.
abbrev pub received_error : Error → Error
received_error unavailable = end_of_file
received_error e = e

-- The loop of `CopyTargetToSRC` over what `RecvMsg` gives; no error means that it still waits.
unfoldable pub receive_loop :
    Writer → Session → List (Result Error DstMessage) → Session × Option Error
receive_loop writer s [] = (s, none)
receive_loop writer s (err e ∷ rest) = (s, some (received_error e))
receive_loop writer s (ok msg ∷ rest) =
    let (s', r) = copy_target_to_src writer s msg in
    elim r [ ok _ ↦ receive_loop writer s' rest | err e ↦ (s', some e) ]

-- What a read of the source gives, and whether sending what it gave succeeds.
pub record Read : Type 0 where
  pub bytes : Bytes
  pub failed : Option Error
  pub send_failed : Option Error

-- A round of the upload, with the messages that it sends.
unfoldable pub copy_src_to_target : Session → Read → Session × List SrcMessage × Option Error
copy_src_to_target s r = elim r.failed [
  | some e ↦ (s, [], some e)
  | none ↦ if no_bytes r.bytes then (s, [], some invalid_payload) else elim r.send_failed [
    | some e ↦ (s, [], some e)
    | none ↦ (count_tx s (length r.bytes), src_payload r.bytes ∷ [], none)
  ]
]

-- The loop of `CopySRCtoTarget`.
unfoldable pub send_loop : Session → List Read → Session × List SrcMessage × Option Error
send_loop s [] = (s, [], none)
send_loop s (r ∷ rs) =
    let (s', sent, e) = copy_src_to_target s r in
    elim e [
      | some x ↦ (s', sent, some x)
      | none ↦ let (t, later, x) = send_loop s' rs in (t, sent ++ later, x)
    ]
