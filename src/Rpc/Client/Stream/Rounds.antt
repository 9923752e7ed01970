-- ===== src/Rpc/Client/Stream/Rounds.antt =====
-- What the rounds of a client's stream do to its addresses.
use spaceship.Base.{
  ℕ, Bool-cases, Option-cases, Result-cases, inl, inr, ◌++◌, append-nil, Bytes, ◌≡◌, refl, sym, ◌∙◌,
  length, ltb, ◌==◌, ◌||◌,
}
use spaceship.Rpc.Client.Forward.{
  Session, Writer, Read, count_rx, count_tx, write_payload, session_message, accepted_message,
  on_status, copy_target_to_src, copy_src_to_target, no_bytes,
}
use spaceship.Rpc.Client.Stream.{
  Stream, receiver_fails, sender_fails, address_of, offered, receive_round, send_round,
}
use spaceship.Rpc.Messages.{
  DstMessage, Status, session, accepted, eof, error, other, DstBody, dst_header, dst_payload,
  dst_empty,
}

-- A round of the forwarder adds the offered address to the channel and no other.
count_rx-local_addr : (s : Session) (n : ℕ) → (count_rx s n).local_addr ≡ s.local_addr
unfolding count_rx
count_rx-local_addr s n = elim (Bool-cases (n == 0)) [ inl e ↦ rw e refl | inr e ↦ rw e refl ]

count_tx-local_addr : (s : Session) (n : ℕ) → (count_tx s n).local_addr ≡ s.local_addr
unfolding count_tx
count_tx-local_addr s n = elim (Bool-cases (n == 0)) [ inl e ↦ rw e refl | inr e ↦ rw e refl ]

write_payload-local_addr :
    (writer : Writer) (s : Session) (p : Bytes)
    → (write_payload writer s p).0.local_addr ≡ s.local_addr
unfolding write_payload
write_payload-local_addr writer s p = elim (Option-cases (writer p).1) [
  | inr (e, k) ↦ rw (k, write_payload) refl
  | inl k ↦ elim (Bool-cases ((writer p).0 == 0 || ltb (writer p).0 (length p))) [
    | inl b ↦ rw (k, b, write_payload) refl
    | inr b ↦ rw (k, b, write_payload) (count_rx-local_addr _ (writer p).0)
  ]
]

on_status-local_addr :
    (writer : Writer) (s : Session) (st : Status) (body : DstBody)
    → (on_status writer s st body).0.local_addr ≡ s.local_addr ++ offered st body
unfolding session_message accepted_message address_of
on_status-local_addr writer s session (dst_payload p) = elim (Bool-cases (no_bytes p)) [
  | inl e ↦ rw e (sym (append-nil s.local_addr))
  | inr e ↦ rw e (write_payload-local_addr writer s p ∙ sym (append-nil s.local_addr))
]
on_status-local_addr writer s session (dst_header a) = sym (append-nil s.local_addr)
on_status-local_addr writer s session dst_empty = sym (append-nil s.local_addr)
on_status-local_addr writer s accepted (dst_payload p) = sym (append-nil s.local_addr)
on_status-local_addr writer s accepted (dst_header a) = refl
on_status-local_addr writer s accepted dst_empty = sym (append-nil s.local_addr)
on_status-local_addr writer s eof body = sym (append-nil s.local_addr)
on_status-local_addr writer s error body = sym (append-nil s.local_addr)
on_status-local_addr writer s (other n) body = sym (append-nil s.local_addr)

on_read : (s : Session) (r : Read) → (copy_src_to_target s r).0.local_addr ≡ s.local_addr
unfolding copy_src_to_target
on_read s r = elim (Option-cases r.failed) [
  | inr (e, k) ↦ rw (k, copy_src_to_target) refl
  | inl k ↦ elim (Bool-cases (no_bytes r.bytes)) [
    | inl b ↦ rw (k, b, copy_src_to_target) refl
    | inr b ↦ elim (Option-cases r.send_failed) [
      | inr (e, m) ↦ rw (k, b, m, copy_src_to_target) refl
      | inl m ↦ rw (k, b, m, copy_src_to_target) (count_tx-local_addr s (length r.bytes))
    ]
  ]
]

pub receive_round-local_addr :
    (writer : Writer) (s : Stream) (msg : DstMessage)
    → (receive_round writer s msg).forward.local_addr
      ≡ s.forward.local_addr ++ offered msg.status msg.body
unfolding receive_round receiver_fails copy_target_to_src
receive_round-local_addr writer s msg =
    elim (Result-cases (copy_target_to_src writer s.forward msg).1) [
      | inl (u, e) ↦
          rw (e, receive_round) (on_status-local_addr writer s.forward msg.status msg.body)
      | inr (x, e) ↦
          rw (e, receive_round) (on_status-local_addr writer s.forward msg.status msg.body)
    ]

pub receive_round-rest :
    (writer : Writer) (s : Stream) (msg : DstMessage)
    → ((receive_round writer s msg).taken ≡ s.taken)
      × ((receive_round writer s msg).given ≡ s.given)
      × ((receive_round writer s msg).ack ≡ s.ack)
unfolding receive_round receiver_fails
receive_round-rest writer s msg = elim (Result-cases (copy_target_to_src writer s.forward msg).1) [
  | inl (u, e) ↦ rw (e, receive_round) (refl, refl, refl)
  | inr (x, e) ↦ rw (e, receive_round) (refl, refl, refl)
]

pub send_round-rest :
    (s : Stream) (r : Read)
    → ((send_round s r).taken ≡ s.taken)
      × ((send_round s r).given ≡ s.given)
      × ((send_round s r).ack ≡ s.ack)
      × ((send_round s r).forward.local_addr ≡ s.forward.local_addr)
unfolding send_round sender_fails
send_round-rest s r = elim (Option-cases (copy_src_to_target s.forward r).2) [
  | inl e ↦ rw (e, send_round) (refl, refl, refl, on_read s.forward r)
  | inr (x, e) ↦ rw (e, send_round) (refl, refl, refl, on_read s.forward r)
]
