-- ===== src/Rpc/Tunnel/Whole.antt =====
-- A session of the server, in any order of its steps, as the client receives it.
use spaceship.Base.{
  false, inl, inr, List, [], ◌∷◌, ◌++◌, map, Option, none, some, ◌≡◌, refl, sym, ap, ◌∙◌, subst,
  Bytes, ok, All,
}
use spaceship.Rpc.Client.Forward.{
  no_bytes, receive_loop, copy_target_to_src, Session as ClientSession,
}
use spaceship.Rpc.Messages.{
  DstMessage, Error, accept_message, error_message, eof_message, data_message, end_of_file,
  server_error,
}
use spaceship.Rpc.Server.Forward.{is_udp_network}
use spaceship.Rpc.Server.Session.Transcript.{session-Shape}
use spaceship.Rpc.Server.Session.Invariant.{Talks}
use spaceship.Rpc.Server.Session.{Outside, Session, new_forwarder, Reach, proxy}
use spaceship.Rpc.Tunnel.Download.{receive_loop-session, got_all-written}
use spaceship.Rpc.Tunnel.{take_all, flatten, non_empty}

-- What the client has of a session: an end where the server has sent nothing, an error where it has
-- sent that alone, or all the data that the server has sent, with the address.
pub data Received (s : Session) (c : ClientSession) (out : ClientSession × Option Error)
    : Type 0 where
  nothing : s.sent ≡ [] → out.1 ≡ some end_of_file → out.0 ≡ c → Received s c out
  rejected :
      s.sent ≡ error_message ∷ []
      → out.1 ≡ some server_error
      → out.0.written ≡ c.written
      → s.conn ≡ none
      → Received s c out
  tunneled :
      (local : Bytes) (chunks : List Bytes)
      → s.conn ≡ some local
      → s.sent ≡ accept_message local ∷ map data_message chunks
      → out.1 ≡ some end_of_file
      → out.0.written ≡ c.written ++ flatten chunks
      → out.0.local_addr ≡ c.local_addr ++ local ∷ []
      → Received s c out

non_empty-full : (bs : List Bytes) → All (λ b. no_bytes b ≡ false) bs → non_empty bs ≡ bs
unfolding non_empty
non_empty-full [] h = refl
non_empty-full ([] ∷ bs) (h, hs) = cc
non_empty-full ((x ∷ b) ∷ bs) (h, hs) = ap (λ r. (x ∷ b) ∷ r) (non_empty-full bs hs)

module _ (s : Session) (c : ClientSession) where
  abbrev out : List DstMessage → ClientSession × Option Error
  out messages = receive_loop take_all c (map ok (messages ++ eof_message ∷ []))

  out-nothing : s.sent ≡ [] → Received s c (out [])
  unfolding receive_loop copy_target_to_src
  out-nothing h = nothing h refl refl

  out-rejected :
      s.sent ≡ error_message ∷ [] → s.conn ≡ none → Received s c (out (error_message ∷ []))
  unfolding receive_loop copy_target_to_src
  out-rejected h e = rejected h refl refl e

  out-tunneled : Talks s → is_udp_network s.network ≡ false → Received s c (out s.sent)
  out-tunneled t tcp =
      let full = non_empty-full t.chunks (t.full tcp) in
      let messages = t.sent ∙ ap (λ x. accept_message t.local ∷ map data_message x) (sym full) in
      let whole = ap out messages ∙ receive_loop-session c t.local t.chunks in
      let (written, address) =
        got_all-written (record c { local_addr = c.local_addr ++ t.local ∷ [] })
          (non_empty t.chunks) in
      tunneled t.local t.chunks t.conn t.sent (ap (λ x. x.1) whole)
        (ap (λ x. x.0.written) whole ∙ written ∙ ap (λ x. c.written ++ flatten x) full)
        (ap (λ x. x.0.local_addr) whole ∙ address)

-- Whatever the order of the steps, a client that receives a session of a TCP target up to its
-- closing status, its writer taking everything: where the server has sent nothing before it, ends with
-- the end of the file, unchanged; where it has sent an error, which is all then, and it has no
-- connection, ends with the server's error and has written nothing; and else ends with the end of the
-- file, has the address that the server sent, and has written exactly the data that it sent, in order.
pub session-Received :
    (o : Outside) (s : Session) (c : ClientSession)
    → Reach o new_forwarder s
    → is_udp_network s.network ≡ false
    → proxy s ≡ s.sent ++ eof_message ∷ []
    → Received s c (receive_loop take_all c (map ok (proxy s)))
session-Received o s c p tcp ends =
    subst (λ x. Received s c (receive_loop take_all c (map ok x))) (sym ends)
      (elim (session-Shape o s p) [
        | inl e ↦ subst (λ x. Received s c (out s c x)) (sym e) (out-nothing s c e)
        | inr (inl (e, n)) ↦ subst (λ x. Received s c (out s c x)) (sym e) (out-rejected s c e n)
        | inr (inr t) ↦ out-tunneled s c t tcp
      ])
