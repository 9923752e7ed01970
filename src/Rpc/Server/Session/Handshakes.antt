-- ===== src/Rpc/Server/Session/Handshakes.antt =====
-- The handshake keeps the invariant.
use spaceship.Base.{
  Bool, true, false, Option-cases, inl, inr, [], ◌∷◌, ◌++◌, Option, none, some, Bytes, ◌≡◌, refl,
  ap, Result, ok, err,
}
use spaceship.Rpc.Messages.{error_message, Error, SrcMessage, src_header, src_payload, src_empty}
use spaceship.Rpc.Server.Forward.{resolve_target}
use spaceship.Rpc.Server.Session.{
  Outside, Session, waiting, upload_returns, dial_target, handshake, after_handshake, begin_upload,
}
use spaceship.Rpc.Server.Session.Invariant.{Inv, upload_returns-Inv, Quiet}

-- The handshake.
abbrev pub aimed : Session → Bytes → Bytes → Session
aimed s network target = record s { network = network; target = target }

pub upload_fails :
    (s : Session)
    → Quiet s
    → s.upload ≡ waiting
    → (network target : Bytes) (e : Error) → Inv (after_handshake (aimed s network target) (err e))
unfolding upload_returns after_handshake
upload_fails s q h network target e =
    inl (record { sent = q.sent; still = q.still; ready = q.ready; fresh = λ k. cc })

pub dial_target-Inv :
    (s : Session)
    → Quiet s
    → s.upload ≡ waiting
    → (network target : Bytes) (found : Option Bytes) (error_sent : Bool)
    → let (t, r) = dial_target (aimed s network target) found error_sent in
      Inv (after_handshake t r)
unfolding dial_target after_handshake upload_returns
dial_target-Inv s q h network target (some local) error_sent =
    inl (record { sent = q.sent; still = q.still; ready = λ k. (local, refl); fresh = λ k. cc })
dial_target-Inv s q h network target none true = inr (
    inl (record {
      sent = ap (λ x. x ++ error_message ∷ []) q.sent;
      conn = (q.fresh h).0;
      still = q.still;
      ready = (q.fresh h).1;
      begun = λ k. cc;
    }))
dial_target-Inv s q h network target none false =
    inl (record {
      sent = ap (λ x. x ++ []) q.sent;
      still = q.still;
      ready = q.ready;
      fresh = λ k. cc;
    })

pub begin_upload-Inv :
    (out : Outside) (s : Session) (request : Result Error SrcMessage) (error_sent : Bool)
    → s.upload ≡ waiting
    → Inv s
    → Inv (begin_upload out s request error_sent)
unfolding begin_upload handshake after_handshake
begin_upload-Inv out s request error_sent h (inr (inl f)) = absurd (f.begun h)
begin_upload-Inv out s request error_sent h (inr (inr b)) = absurd (b.begun h)
begin_upload-Inv out s (err e) error_sent h (inl q) = upload_returns-Inv s e (inl q)
begin_upload-Inv out s (ok (src_payload b)) error_sent h (inl q) = upload_returns-Inv s _ (inl q)
begin_upload-Inv out s (ok src_empty) error_sent h (inl q) = upload_returns-Inv s _ (inl q)
begin_upload-Inv out s (ok (src_header a)) error_sent h (inl q) =
    let (network, addr) = resolve_target out.settings a in
    elim (Option-cases (out.split_host_port addr)) [
      | inl n ↦ rw (n, begin_upload, handshake) (upload_fails s q h network addr _)
      | inr ((host, port), n) ↦ elim (Option-cases (out.get_route host)) [
        | inl k ↦ rw (n, begin_upload, handshake, k) (upload_fails s q h network addr _)
        | inr (route, k) ↦
            rw (n, begin_upload, handshake, k)
              (dial_target-Inv s q h network addr (out.dial route network addr) error_sent)
      ]
    ]
