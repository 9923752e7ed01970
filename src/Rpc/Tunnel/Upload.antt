-- ===== src/Rpc/Tunnel/Upload.antt =====
-- From the caller of the client to the target.
use spaceship.Base.{
  ℕ, ◌+◌, ◌%◌, ◌<◌, false, Bool-cases, inl, inr, ==_iff, List, [], ◌∷◌, ◌++◌, map, some, ◌≡◌, refl,
  sym, ap, subst, ◌∙◌, arith, Bytes, length, length-append, All, Result, ok, err, ◌==◌, ltb,
}
use spaceship.Rpc.Client.Forward.{Session, no_bytes, copy_src_to_target, send_loop, count_tx}
use spaceship.Rpc.Messages.{SrcMessage, src_payload, Error}
use spaceship.Rpc.Server.Forward.{write_all, copy_client_to_target, upload_loop}
use spaceship.Rpc.Tunnel.{take_all, chunk, last_chunk, flatten, take-length}
use spaceship.Transport.Stats.{add_tx, count_mod, count_zero, count_sum, count_below}

abbrev pub HasByte : Bytes → Type 0
HasByte b = no_bytes b ≡ false

sent_all : Session → List Bytes → Session
sent_all s [] = s
sent_all s (b ∷ bs) = sent_all (count_tx s (length b)) bs

send_loop-chunks :
    (s : Session) (bs : List Bytes) (b : Bytes) (e : Error)
    → All HasByte bs
    → send_loop s (map chunk bs ++ last_chunk b e ∷ [])
      ≡ (sent_all s bs, map src_payload bs, some e)
unfolding send_loop copy_src_to_target sent_all
send_loop-chunks s [] b e h = refl
send_loop-chunks s ([] ∷ bs) b e (h, hs) = cc
send_loop-chunks s ((x ∷ a) ∷ bs) b e (h, hs) =
    ap (λ t. (t.0, src_payload (x ∷ a) ∷ t.1, t.2))
      (send_loop-chunks (count_tx s (length (x ∷ a))) bs b e hs)

whole : (n : ℕ) → ltb n n ≡ false
whole n = ground arith

pub write_all-takes : (b : Bytes) → write_all take_all b ≡ (b ∷ [], ok tt)
unfolding write_all
write_all-takes b = rw (take-length b, whole (length b)) refl

pub upload_loop-step :
    (net : Bytes) (msg : SrcMessage) (out : List Bytes) (rest : List (Result Error SrcMessage))
    → copy_client_to_target net take_all msg ≡ (out, ok tt)
    → upload_loop net take_all (ok msg ∷ rest)
      ≡ (out ++ (upload_loop net take_all rest).0, (upload_loop net take_all rest).1)
unfolding upload_loop
upload_loop-step net msg out rest e = simp (e, upload_loop)

upload_loop-chunks :
    (net : Bytes) (bs : List Bytes) (e : Error)
    → All HasByte bs
    → upload_loop net take_all (map ok (map src_payload bs) ++ err e ∷ []) ≡ (bs, some e)
unfolding copy_client_to_target upload_loop
upload_loop-chunks net [] e h = refl
upload_loop-chunks net ([] ∷ bs) e (h, hs) = cc
upload_loop-chunks net ((x ∷ b) ∷ bs) e (h, hs) =
    upload_loop-step net (src_payload (x ∷ b)) ((x ∷ b) ∷ [])
      (map ok (map src_payload bs) ++ err e ∷ []) (write_all-takes (x ∷ b))
    ∙ ap (λ t. ((x ∷ b) ∷ t.0, t.1)) (upload_loop-chunks net bs e hs)

-- The counter behind the chunks.
count_tx-tx :
    (s : Session) (n : ℕ)
    → s.statistic.tx < count_mod
    → (count_tx s n).statistic.tx ≡ (s.statistic.tx + n) % count_mod
unfolding count_tx add_tx
count_tx-tx s n h = elim (Bool-cases (n == 0)) [
  | inl e ↦ rw e (count_zero s.statistic.tx n h ((==_iff n 0).0 e))
  | inr e ↦ rw e refl
]

sent_all-tx :
    (s : Session) (bs : List Bytes)
    → s.statistic.tx < count_mod
    → (sent_all s bs).statistic.tx ≡ (s.statistic.tx + length (flatten bs)) % count_mod
unfolding sent_all flatten
sent_all-tx s [] h = count_zero s.statistic.tx 0 h refl
sent_all-tx s (b ∷ bs) h =
    let one = count_tx-tx s (length b) h in
    let small = subst (λ x. x < count_mod) (sym one) (count_below s.statistic.tx (length b)) in
    sent_all-tx (count_tx s (length b)) bs small
    ∙ ap (λ x. (x + length (flatten bs)) % count_mod) one
    ∙ count_sum s.statistic.tx (length b) (length (flatten bs))
    ∙ ap (λ x. (s.statistic.tx + x) % count_mod) (sym (length-append b (flatten bs)))

-- Reads of the caller that have a byte and no error, up to one with an error: a target that takes
-- everything gets one write for each of them with just its bytes, on any network, and the client's
-- counter, of 64 bits, grows by the bytes modulo 2 ^ 64. What the last read gives together with
-- its error is not sent.
pub send_loop-upload_loop :
    (net : Bytes) (bs : List Bytes) (b : Bytes) (e f : Error) (s : Session)
    → All HasByte bs
    → s.statistic.tx < count_mod
    → let (t, sent, x) = send_loop s (map chunk bs ++ last_chunk b e ∷ []) in
      (x ≡ some e)
      × (upload_loop net take_all (map ok sent ++ err f ∷ []) ≡ (bs, some f))
      × (t.statistic.tx ≡ (s.statistic.tx + length (flatten bs)) % count_mod)
send_loop-upload_loop net bs b e f s some_bytes small =
    rw (send_loop-chunks s bs b e some_bytes)
      (refl, upload_loop-chunks net bs f some_bytes, sent_all-tx s bs small)
