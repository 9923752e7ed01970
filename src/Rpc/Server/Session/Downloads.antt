-- ===== src/Rpc/Server/Session/Downloads.antt =====
-- The steps of the download keep the invariant.
use spaceship.Base.{
  true, false, Bool-cases, Option-cases, inl, inr, List, [], ◌∷◌, ◌++◌, map, map-append, Option,
  none, some, Bytes, ◌≡◌, refl, sym, ap, ◌∙◌, subst, All, All-append, arith,
}
use spaceship.Rpc.Client.Forward.{Read, no_bytes}
use spaceship.Rpc.Messages.{DstMessage, accept_message, data_message, Error}
use spaceship.Rpc.Server.Forward.{is_udp_network, copy_target_to_client, worth_sending}
use spaceship.Rpc.Server.Session.{
  Session, running, download_returns, begin_download, download_round,
}
use spaceship.Rpc.Server.Session.Invariant.{Inv, download_returns-Inv, Quiet, Busy}

-- Only a quiet session has a token.
pub Quiet-of : (s : Session) → s.ack_ready ≡ true → Inv s → Quiet s
Quiet-of s ready (inl q) = q
Quiet-of s ready (inr (inl f)) = let r = f.ready in cc
Quiet-of s ready (inr (inr b)) = let r = b.ready in cc

abbrev pub taken : Session → Session
taken s = record s { ack_ready = false }

pub taken-Quiet : (s : Session) → Quiet s → Quiet (taken s)
taken-Quiet s q = record {
  sent = q.sent;
  still = q.still;
  ready = λ h. cc;
  fresh = λ h. ((q.fresh h).0, refl);
}

pub begun_download :
    (s : Session) (local : Bytes)
    → s.conn ≡ some local
    → (failed : Option Error)
    → begin_download s failed ≡ (elim failed [
      | some e ↦ some (download_returns (taken s) e)
      | none ↦ some (record s {
        ack_ready = false;
        download = running;
        sent = s.sent ++ accept_message local ∷ [];
      })
    ])
unfolding begin_download
begun_download s local e failed = simp (e, begin_download)

pub accepted-Busy :
    (s : Session) (local : Bytes)
    → s.conn ≡ some local
    → s.ack_ready ≡ true
    → Quiet s
    → Busy (record s {
      ack_ready = false;
      download = running;
      sent = s.sent ++ accept_message local ∷ [];
    })
accepted-Busy s local e ready q = record {
  talks = record {
    local = local;
    chunks = [];
    sent = ap (λ x. x ++ accept_message local ∷ []) q.sent;
    conn = e;
    full = λ h. tt;
  };
  ready = refl;
  begun = λ h. let r = (q.fresh h).1 in cc;
}

-- The download begins with a token, so only in a quiet session.
pub begin_download-Inv :
    (s t : Session) (failed : Option Error)
    → s.ack_ready ≡ true
    → begin_download s failed ≡ some t
    → Inv s
    → Inv t
begin_download-Inv s t (some x) ready h v =
    let q = Quiet-of s ready v in
    let (local, e) = q.ready ready in
    let k = sym (begun_download s local e (some x)) ∙ h in
    let same_session : download_returns (taken s) x ≡ t = cc in
    subst Inv same_session (download_returns-Inv (taken s) x (inl (taken-Quiet s q)))
begin_download-Inv s t none ready h v =
    let q = Quiet-of s ready v in
    let (local, e) = q.ready ready in
    let k = sym (begun_download s local e none) ∙ h in
    let same_session : record s {
      ack_ready = false;
      download = running;
      sent = s.sent ++ accept_message local ∷ [];
    }
        ≡ t =
      cc in
    subst Inv same_session (inr (inr (accepted-Busy s local e ready q)))

-- What a round of the download sends has a byte, for a TCP target.
pub worth_sending-byte :
    (net : Bytes) (r : Read)
    → worth_sending net r ≡ true
    → is_udp_network net ≡ false
    → no_bytes r.bytes ≡ false
unfolding worth_sending
worth_sending-byte net r h k = ground arith

abbrev pub Sends : Bytes → List DstMessage → Type 0
Sends net out =
    (cs : List Bytes) × (out ≡ map data_message cs)
    × (is_udp_network net ≡ false → All (λ b. no_bytes b ≡ false) cs)

pub copy_target_to_client-Sends :
    (net : Bytes) (r : Read) → Sends net (copy_target_to_client net r).0
unfolding copy_target_to_client
copy_target_to_client-Sends net r = elim (Bool-cases (worth_sending net r)) [
  | inr e ↦ rw (e, copy_target_to_client) ([], refl, (λ h. tt))
  | inl e ↦ elim (Option-cases r.send_failed) [
    | inl n ↦
        rw (e, n, copy_target_to_client)
          (r.bytes ∷ [], refl, (λ h. (worth_sending-byte net r e h, tt)))
    | inr (x, n) ↦ rw (e, n, copy_target_to_client) ([], refl, (λ h. tt))
  ]
]

pub sending-Busy :
    (s : Session) (out : List DstMessage)
    → Sends s.network out
    → Busy s
    → Busy (record s { sent = s.sent ++ out })
sending-Busy s out (cs, e, full) b = record {
  talks = record {
    local = b.talks.local;
    chunks = b.talks.chunks ++ cs;
    sent =
        ap (λ x. x ++ out) b.talks.sent
        ∙ ap (λ x. accept_message b.talks.local ∷ map data_message b.talks.chunks ++ x) e
        ∙ ap (λ x. accept_message b.talks.local ∷ x)
            (sym (map-append data_message b.talks.chunks cs));
    conn = b.talks.conn;
    full = λ h. All-append (λ x. no_bytes x ≡ false) b.talks.chunks cs (b.talks.full h) (full h);
  };
  ready = b.ready;
  begun = b.begun;
}

pub download_round-Inv :
    (s : Session) (r : Read) → s.download ≡ running → Inv s → Inv (download_round s r)
unfolding download_round
download_round-Inv s r h (inl q) = absurd (q.still h)
download_round-Inv s r h (inr (inl f)) = absurd (f.still h)
download_round-Inv s r h (inr (inr b)) =
    let sends = copy_target_to_client-Sends s.network r in
    let b' = sending-Busy s (copy_target_to_client s.network r).0 sends b in
    elim (Option-cases (copy_target_to_client s.network r).1) [
      | inl n ↦ rw (n, download_round) (inr (inr b'))
      | inr (x, n) ↦ rw (n, download_round) (download_returns-Inv _ x (inr (inr b')))
    ]
