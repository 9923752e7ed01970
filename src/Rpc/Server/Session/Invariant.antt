-- ===== src/Rpc/Server/Session/Invariant.antt =====
-- The invariant of a session, and the steps that do not touch what it looks at.
use spaceship.Base.{
  true, false, Result-cases, inl, inr, ◌⊎◌, List, [], ◌∷◌, map, none, some, Bytes, ◌≡◌, refl, sym,
  ap, ◌∙◌, Result, ok, err, All,
}
use spaceship.Rpc.Client.Forward.{Writer, no_bytes}
use spaceship.Rpc.Messages.{accept_message, error_message, data_message, Error, SrcMessage}
use spaceship.Rpc.Server.Forward.{is_udp_network, copy_client_to_target}
use spaceship.Rpc.Server.Session.{
  Session, waiting, running, upload_returns, download_returns, close, upload_round,
}

-- A session in which nothing is sent, one whose dial has failed, and one behind its accept message.
-- Of a TCP target, no message is empty.
pub record Talks (s : Session) : Type 0 where
  pub local : Bytes
  pub chunks : List Bytes
  pub sent : s.sent ≡ accept_message local ∷ map data_message chunks
  pub conn : s.conn ≡ some local
  pub full : is_udp_network s.network ≡ false → All (λ b. no_bytes b ≡ false) chunks

abbrev pub Shape : Session → Type 0
Shape s = (s.sent ≡ []) ⊎ ((s.sent ≡ error_message ∷ []) × (s.conn ≡ none)) ⊎ Talks s

-- The invariant of each kind of session.
pub record Quiet (s : Session) : Type 0 where
  pub sent : s.sent ≡ []
  pub still : (s.download ≡ running) → ⊥
  pub ready : s.ack_ready ≡ true → (local : Bytes) × (s.conn ≡ some local)
  pub fresh : (s.upload ≡ waiting) → (s.conn ≡ none) × (s.ack_ready ≡ false)

pub record Refused (s : Session) : Type 0 where
  pub sent : s.sent ≡ error_message ∷ []
  pub conn : s.conn ≡ none
  pub still : (s.download ≡ running) → ⊥
  pub ready : s.ack_ready ≡ false
  pub begun : (s.upload ≡ waiting) → ⊥

pub record Busy (s : Session) : Type 0 where
  pub talks : Talks s
  pub ready : s.ack_ready ≡ false
  pub begun : (s.upload ≡ waiting) → ⊥

abbrev pub Inv : Session → Type 0
Inv s = Quiet s ⊎ Refused s ⊎ Busy s

-- What the invariant looks at.
pub record Alike (s t : Session) : Type 0 where
  pub sent : t.sent ≡ s.sent
  pub conn : t.conn ≡ s.conn
  pub ready : t.ack_ready ≡ s.ack_ready
  pub network : t.network ≡ s.network
  pub upload : (t.upload ≡ waiting) → s.upload ≡ waiting
  pub download : (t.download ≡ running) → s.download ≡ running

pub Talks-Alike : (s t : Session) → Alike s t → Talks s → Talks t
Talks-Alike s t a v = record {
  local = v.local;
  chunks = v.chunks;
  sent = a.sent ∙ v.sent;
  conn = a.conn ∙ v.conn;
  full = λ h. v.full (ap is_udp_network (sym a.network) ∙ h);
}

pub Inv-Alike : (s t : Session) → Alike s t → Inv s → Inv t
Inv-Alike s t a (inl q) = inl (record {
  sent = a.sent ∙ q.sent;
  still = λ h. q.still (a.download h);
  ready = λ h. let (local, e) = q.ready (sym a.ready ∙ h) in (local, a.conn ∙ e);
  fresh = λ h. let (c, r) = q.fresh (a.upload h) in (a.conn ∙ c, a.ready ∙ r);
})
Inv-Alike s t a (inr (inl f)) = inr (
    inl (record {
      sent = a.sent ∙ f.sent;
      conn = a.conn ∙ f.conn;
      still = λ h. f.still (a.download h);
      ready = a.ready ∙ f.ready;
      begun = λ h. f.begun (a.upload h);
    }))
Inv-Alike s t a (inr (inr b)) = inr (
    inr (record {
      talks = Talks-Alike s t a b.talks;
      ready = a.ready ∙ b.ready;
      begun = λ h. b.begun (a.upload h);
    }))

pub upload_returns-Inv : (s : Session) (e : Error) → Inv s → Inv (upload_returns s e)
unfolding upload_returns
upload_returns-Inv s e v =
    Inv-Alike s (upload_returns s e)
      (record {
        sent = refl;
        conn = refl;
        ready = refl;
        network = refl;
        upload = λ h. cc;
        download = λ h. h;
      })
      v

pub download_returns-Inv : (s : Session) (e : Error) → Inv s → Inv (download_returns s e)
unfolding download_returns
download_returns-Inv s e v =
    Inv-Alike s (download_returns s e)
      (record {
        sent = refl;
        conn = refl;
        ready = refl;
        network = refl;
        upload = λ h. h;
        download = λ h. cc;
      })
      v

pub close-Inv : (s : Session) → Inv s → Inv (close s)
unfolding close
close-Inv s v =
    Inv-Alike s (close s)
      (record {
        sent = refl;
        conn = refl;
        ready = refl;
        network = refl;
        upload = λ h. h;
        download = λ h. h;
      })
      v

pub upload_round-Inv :
    (s : Session) (w : Writer) (m : Result Error SrcMessage) → Inv s → Inv (upload_round s w m)
unfolding upload_round
upload_round-Inv s w (err e) v = upload_returns-Inv s e v
upload_round-Inv s w (ok m) v = elim (Result-cases (copy_client_to_target s.network w m).1) [
  | inl (_, e) ↦ rw (e, upload_round) v
  | inr (x, e) ↦ rw (e, upload_round) (upload_returns-Inv s x v)
]
