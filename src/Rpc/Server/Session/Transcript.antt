-- ===== src/Rpc/Server/Session/Transcript.antt =====
-- What the client is sent, in any order of the steps.
use spaceship.Base.{true, false, inl, inr, [], ◌∷◌, ◌++◌, Option, none, some, ◌≡◌, refl}
use spaceship.Rpc.Messages.{accept_message, Error}
use spaceship.Rpc.Server.Session.{
  Outside, Session, running, new_forwarder, download_returns, close, begin_download, Step, begin,
  forward, stop_upload, acknowledge, refuse, stop_download, receive, interrupt, Reach, here, next,
}
use spaceship.Rpc.Server.Session.Invariant.{
  Shape, Inv, upload_returns-Inv, download_returns-Inv, close-Inv, upload_round-Inv,
}
use spaceship.Rpc.Server.Session.Downloads.{
  Quiet-of, taken, begun_download, begin_download-Inv, download_round-Inv,
}
use spaceship.Rpc.Server.Session.Handshakes.{begin_upload-Inv}

Step-Inv : (out : Outside) (s t : Session) → Step out s t → Inv s → Inv t
Step-Inv out s t (begin request error_sent h) v = begin_upload-Inv out s request error_sent h v
Step-Inv out s t (forward w m h) v = upload_round-Inv s w m v
Step-Inv out s t (stop_upload e h) v = upload_returns-Inv (close s) e (close-Inv s v)
Step-Inv out s t (acknowledge failed _ h ready k) v = begin_download-Inv s t failed ready k v
Step-Inv out s t (refuse h ready closed) v = download_returns-Inv s _ v
Step-Inv out s t (stop_download e h) v = download_returns-Inv s e v
Step-Inv out s t (receive r h) v = download_round-Inv s r h v
Step-Inv out s t interrupt v = close-Inv s v

start-Inv : Inv new_forwarder
unfolding new_forwarder
start-Inv =
    inl (record { sent = refl; still = λ h. cc; ready = λ h. cc; fresh = λ h. (refl, refl) })

Reach-Inv : (out : Outside) (s : Session) → Reach out new_forwarder s → Inv s
Reach-Inv out s here = start-Inv
Reach-Inv out s (next {t} p st) = Step-Inv out t s st (Reach-Inv out t p)

-- In whatever order the steps of a session come, the client is sent nothing, or one error where no
-- connection was made, or one accept message with the address of the connection and then data,
-- which for a TCP target has no empty message.
pub session-Shape : (out : Outside) (s : Session) → Reach out new_forwarder s → Shape s
session-Shape out s p = elim (Reach-Inv out s p) [
  | inl q ↦ inl q.sent
  | inr (inl f) ↦ inr (inl (f.sent, f.conn))
  | inr (inr b) ↦ inr (inr b.talks)
]

-- Wherever a token of `Ack` waits, there is a connection: the download never asks a nil one for its
-- address.
session-begin_download :
    (out : Outside) (s : Session) (failed : Option Error)
    → Reach out new_forwarder s
    → s.ack_ready ≡ true
    → (t : Session) × (begin_download s failed ≡ some t)
session-begin_download out s (some x) p ready =
    let (local, e) = (Quiet-of s ready (Reach-Inv out s p)).ready ready in
    (download_returns (taken s) x, begun_download s local e (some x))
session-begin_download out s none p ready =
    let (local, e) = (Quiet-of s ready (Reach-Inv out s p)).ready ready in
    (
      record s {
        ack_ready = false;
        download = running;
        sent = s.sent ++ accept_message local ∷ [];
      },
      begun_download s local e none,
    )
