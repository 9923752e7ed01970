-- ===== src/Rpc/Tunnel/Download.antt =====
-- From the target to the caller of the client.
use spaceship.Base.{
  ℕ, suc, map-append, Bool-cases, inl, inr, ==_iff, ◌+◌, ◌%◌, ◌<◌, false, List, [], ◌∷◌, ◌++◌, map,
  append_assoc, append-nil, none, some, ◌≡◌, refl, sym, ap, subst, ◌∙◌, arith, Bytes, length,
  length-append, Result, ok, ◌==◌, ltb, ◌||◌,
}
use spaceship.Rpc.Client.Forward.{
  Read, Session, copy_target_to_src, receive_loop, session_message, write_payload, accepted_message,
  count_rx,
}
use spaceship.Rpc.Messages.{
  DstMessage, data_message, accept_message, eof_message, Error, end_of_file,
}
use spaceship.Rpc.Server.Forward.{
  is_udp_network, worth_sending, copy_target_to_client, download_loop,
}
use spaceship.Rpc.Tunnel.{
  take_all, chunk, last_chunk, flatten, non_empty, flatten-non_empty, take-length,
}
use spaceship.Transport.Stats.{add_rx, count_mod, count_zero, count_sum, count_below}

-- An empty read of a TCP target is passed over.
copy_target_to_client-empty :
    (net : Bytes) → is_udp_network net ≡ false → copy_target_to_client net (chunk []) ≡ ([], none)
unfolding copy_target_to_client worth_sending
copy_target_to_client-empty net h = rw h refl

download_loop-pass :
    (net : Bytes) (r : Read) (rs : List Read)
    → copy_target_to_client net r ≡ ([], none)
    → download_loop net (r ∷ rs) ≡ download_loop net rs
unfolding download_loop
download_loop-pass net r rs e = simp (e, download_loop)

-- What the server sends for the reads of a TCP target.
download_loop-chunks :
    (net : Bytes) (bs : List Bytes) (b : Bytes) (e : Error)
    → is_udp_network net ≡ false
    → download_loop net (map chunk bs ++ last_chunk b e ∷ [])
      ≡ (map data_message (non_empty (bs ++ b ∷ [])), some e)
unfolding download_loop copy_target_to_client worth_sending non_empty
download_loop-chunks net [] [] e h = refl
download_loop-chunks net [] (x ∷ b) e h = refl
download_loop-chunks net ([] ∷ bs) b e h =
    download_loop-pass net (chunk []) (map chunk bs ++ last_chunk b e ∷ [])
      (copy_target_to_client-empty net h)
    ∙ download_loop-chunks net bs b e h
download_loop-chunks net ((x ∷ a) ∷ bs) b e h =
    ap (λ t. (data_message (x ∷ a) ∷ t.0, t.1)) (download_loop-chunks net bs b e h)

-- The session behind the messages of the chunks, and behind one of them.
abbrev got : Session → Bytes → Session
got s b = count_rx (record s { written = s.written ++ b }) (length b)

pub got_all : Session → List Bytes → Session
got_all s [] = s
got_all s (b ∷ bs) = got_all (got s b) bs

whole : (n : ℕ) → (suc n == 0) || ltb (suc n) (suc n) ≡ false
whole n = ground arith

-- A payload that has a byte is written and counted.
write_payload-takes :
    (s : Session) (x : ℕ) (b : Bytes) → write_payload take_all s (x ∷ b) ≡ (got s (x ∷ b), ok tt)
unfolding write_payload
write_payload-takes s x b = rw (whole (length b), take-length b) refl

receive_loop-step :
    (s t : Session) (msg : DstMessage) (rest : List (Result Error DstMessage))
    → copy_target_to_src take_all s msg ≡ (t, ok tt)
    → receive_loop take_all s (ok msg ∷ rest) ≡ receive_loop take_all t rest
unfolding receive_loop
receive_loop-step s t msg rest e = simp (e, receive_loop)

takes-data :
    (s : Session) (x : ℕ) (b : Bytes)
    → copy_target_to_src take_all s (data_message (x ∷ b)) ≡ (got s (x ∷ b), ok tt)
unfolding copy_target_to_src session_message
takes-data s x b = write_payload-takes s x b

receive_loop-data :
    (s : Session) (bs : List Bytes) (rest : List (Result Error DstMessage))
    → receive_loop take_all s (map ok (map data_message (non_empty bs)) ++ rest)
      ≡ receive_loop take_all (got_all s (non_empty bs)) rest
unfolding non_empty got_all
receive_loop-data s [] rest = refl
receive_loop-data s ([] ∷ bs) rest = receive_loop-data s bs rest
receive_loop-data s ((x ∷ b) ∷ bs) rest =
    receive_loop-step s (got s (x ∷ b)) (data_message (x ∷ b))
      (map ok (map data_message (non_empty bs)) ++ rest) (takes-data s x b)
    ∙ receive_loop-data (got s (x ∷ b)) bs rest

-- What the messages leave in the session.
count_rx-rx :
    (s : Session) (n : ℕ)
    → s.statistic.rx < count_mod
    → (count_rx s n).statistic.rx ≡ (s.statistic.rx + n) % count_mod
unfolding count_rx add_rx
count_rx-rx s n h = elim (Bool-cases (n == 0)) [
  | inl e ↦ rw e (count_zero s.statistic.rx n h ((==_iff n 0).0 e))
  | inr e ↦ rw e refl
]

count_rx-written :
    (s : Session) (n : ℕ)
    → ((count_rx s n).written ≡ s.written) × ((count_rx s n).local_addr ≡ s.local_addr)
unfolding count_rx
count_rx-written s n = elim (Bool-cases (n == 0)) [
  | inl e ↦ rw e (refl, refl)
  | inr e ↦ rw e (refl, refl)
]

pub got_all-written :
    (s : Session) (bs : List Bytes)
    → ((got_all s bs).written ≡ s.written ++ flatten bs)
      × ((got_all s bs).local_addr ≡ s.local_addr)
unfolding got_all flatten
got_all-written s [] = (sym (append-nil s.written), refl)
got_all-written s (b ∷ bs) =
    let (w, l) = got_all-written (got s b) bs in
    let (w', l') = count_rx-written (record s { written = s.written ++ b }) (length b) in
    (w ∙ ap (λ x. x ++ flatten bs) w' ∙ append_assoc s.written b (flatten bs), l ∙ l')

got_all-rx :
    (s : Session) (bs : List Bytes)
    → s.statistic.rx < count_mod
    → (got_all s bs).statistic.rx ≡ (s.statistic.rx + length (flatten bs)) % count_mod
unfolding got_all flatten
got_all-rx s [] h = count_zero s.statistic.rx 0 h refl
got_all-rx s (b ∷ bs) h =
    let one = count_rx-rx (record s { written = s.written ++ b }) (length b) h in
    let small = subst (λ x. x < count_mod) (sym one) (count_below s.statistic.rx (length b)) in
    got_all-rx (got s b) bs small
    ∙ ap (λ x. (x + length (flatten bs)) % count_mod) one
    ∙ count_sum s.statistic.rx (length b) (length (flatten bs))
    ∙ ap (λ x. (s.statistic.rx + x) % count_mod) (sym (length-append b (flatten bs)))

-- The messages of a session, from the accept message to the closing one.
pub receive_loop-session :
    (s : Session) (addr : Bytes) (bs : List Bytes)
    → receive_loop take_all s
        (map ok (accept_message addr ∷ map data_message (non_empty bs) ++ eof_message ∷ []))
      ≡ (
        got_all (record s { local_addr = s.local_addr ++ addr ∷ [] }) (non_empty bs),
        some end_of_file,
      )
unfolding receive_loop copy_target_to_src accepted_message
receive_loop-session s addr bs =
    let a = record s { local_addr = s.local_addr ++ addr ∷ [] } in
    ap (receive_loop take_all a)
      (map-append ok (map data_message (non_empty bs)) (eof_message ∷ []))
    ∙ receive_loop-data a bs (ok eof_message ∷ [])

-- What a TCP target gives in any number of reads, the last one together with an error, is behind
-- the accept message and before the closing one: a client whose writer takes everything gets all
-- of it in order and no more, the address, and a regular end, and its counter, of 64 bits, grows
-- by the bytes modulo 2 ^ 64.
pub download_loop-receive_loop :
    (net addr : Bytes) (bs : List Bytes) (b : Bytes) (e : Error) (s : Session)
    → is_udp_network net ≡ false
    → s.statistic.rx < count_mod
    → let (sent, x) = download_loop net (map chunk bs ++ last_chunk b e ∷ []) in
      let (t, r) =
        receive_loop take_all s (map ok (accept_message addr ∷ sent ++ eof_message ∷ [])) in
      let all = flatten (bs ++ b ∷ []) in
      (x ≡ some e)
      × (r ≡ some end_of_file)
      × (t.written ≡ s.written ++ all)
      × (t.local_addr ≡ s.local_addr ++ addr ∷ [])
      × (t.statistic.rx ≡ (s.statistic.rx + length all) % count_mod)
download_loop-receive_loop net addr bs b e s tcp small =
    let cs = bs ++ b ∷ [] in
    let a = record s { local_addr = s.local_addr ++ addr ∷ [] } in
    let (written, address) = got_all-written a (non_empty cs) in
    let same_bytes = flatten-non_empty cs in
    rw (download_loop-chunks net bs b e tcp, receive_loop-session s addr cs)
      (
        refl,
        refl,
        written ∙ ap (λ x. s.written ++ x) same_bytes,
        address,
        got_all-rx a (non_empty cs) small
            ∙ ap (λ x. (s.statistic.rx + length x) % count_mod) same_bytes,
      )
