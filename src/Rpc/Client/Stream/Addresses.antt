-- ===== src/Rpc/Client/Stream/Addresses.antt =====
-- The addresses that a stream takes in and passes on.
use spaceship.Base.{
  ◌≤◌, true, Bool-cases, inl, inr, ◌⊎◌, List, [], ◌∷◌, ◌++◌, append-nil, append_assoc, Bytes, ◌≡◌,
  refl, sym, ap, ◌∙◌, subst, arith, length, length-append,
}
use spaceship.Rpc.Client.Forward.{Session, Writer, received_error}
use spaceship.Rpc.Client.Stream.Rounds.{
  receive_round-local_addr, receive_round-rest, send_round-rest,
}
use spaceship.Rpc.Client.Stream.{
  running, Stream, start, receiver_fails, sender_fails, ack_fails, address_of, offered, is_free,
  fits, receive_round, send_round, take_address, drop_address, Step, receives, breaks, sends, stops,
  takes, drops, rejects, times_out, cancels, Reach, here, next,
}
use spaceship.Rpc.Messages.{
  DstMessage, Status, session, accepted, eof, error, other, DstBody, dst_header, dst_payload,
  dst_empty,
}

abbrev Passed : Stream → Type 0
Passed s = (s.given ≡ []) ⊎ (s.given ≡ s.taken)

Passed-keeps : (s t : Stream) → t.taken ≡ s.taken → t.given ≡ s.given → Passed s → Passed t
Passed-keeps s t k g (inl e) = inl (g ∙ e)
Passed-keeps s t k g (inr e) = inr (g ∙ e ∙ sym k)

Passed-nothing : (s : Stream) → s.taken ≡ [] → Passed s → s.given ≡ []
Passed-nothing s k (inl e) = e
Passed-nothing s k (inr e) = e ∙ k

-- The addresses heard are those taken and then those in the channel, one at most of each; while
-- the acknowledgement is waited for, none has been taken.
record Inv (heard : List Bytes) (s : Stream) : Type 0 where
  order : s.taken ++ s.forward.local_addr ≡ heard
  one_buffered : length s.forward.local_addr ≤ 1
  one_taken : length s.taken ≤ 1
  asks : s.ack ≡ running → s.taken ≡ []
  passed : Passed s

Inv-keeps :
    (heard : List Bytes) (s t : Stream)
    → t.taken ≡ s.taken
    → t.given ≡ s.given
    → t.forward.local_addr ≡ s.forward.local_addr
    → (t.ack ≡ running → s.ack ≡ running)
    → Inv heard s
    → Inv (heard ++ []) t
Inv-keeps heard s t g d l a v = record {
  order =
      ap (λ x. x ++ t.forward.local_addr) g
      ∙ ap (λ x. s.taken ++ x) l
      ∙ v.order
      ∙ sym (append-nil heard);
  one_buffered = subst (λ x. length x ≤ 1) (sym l) v.one_buffered;
  one_taken = subst (λ x. length x ≤ 1) (sym g) v.one_taken;
  asks = λ h. g ∙ v.asks (a h);
  passed = Passed-keeps s t g d v.passed;
}

length-offered : (st : Status) (body : DstBody) → length (offered st body) ≤ 1
unfolding address_of
length-offered accepted (dst_header a) = omega arith
length-offered accepted (dst_payload p) = omega arith
length-offered accepted dst_empty = omega arith
length-offered session body = omega arith
length-offered error body = omega arith
length-offered eof body = omega arith
length-offered (other n) body = omega arith

length-is_free : (l : List Bytes) → is_free l ≡ true → length l ≡ 0
length-is_free [] h = refl
length-is_free (x ∷ l) h = cc

length-fits :
    (s : Stream) (msg : DstMessage)
    → length s.forward.local_addr ≤ 1
    → fits s msg ≡ true
    → length (s.forward.local_addr ++ offered msg.status msg.body) ≤ 1
unfolding fits
length-fits s msg small h =
    let added = length-append s.forward.local_addr (offered msg.status msg.body) in
    let one = length-offered msg.status msg.body in
    elim (Bool-cases (is_free (offered msg.status msg.body))) [
      | inl e ↦ let none_added = length-is_free (offered msg.status msg.body) e in omega arith
      | inr e ↦
          let free : is_free s.forward.local_addr ≡ true =
            (let k : fits s msg ≡ is_free s.forward.local_addr = rw (e, fits) refl in sym k ∙ h) in
          let none_before = length-is_free s.forward.local_addr free in omega arith
    ]

receives-Inv :
    (heard : List Bytes) (writer : Writer) (s : Stream) (msg : DstMessage)
    → fits s msg ≡ true
    → Inv heard s
    → Inv (heard ++ offered msg.status msg.body) (receive_round writer s msg)
receives-Inv heard writer s msg fit v =
    let (g, d, a) = receive_round-rest writer s msg in
    let l = receive_round-local_addr writer s msg in
    record {
      order =
          ap (λ x. x ++ (receive_round writer s msg).forward.local_addr) g
          ∙ ap (λ x. s.taken ++ x) l
          ∙ sym (append_assoc s.taken s.forward.local_addr (offered msg.status msg.body))
          ∙ ap (λ x. x ++ offered msg.status msg.body) v.order;
      one_buffered = subst (λ x. length x ≤ 1) (sym l) (length-fits s msg v.one_buffered fit);
      one_taken = subst (λ x. length x ≤ 1) (sym g) v.one_taken;
      asks = λ h. g ∙ v.asks (sym a ∙ h);
      passed = Passed-keeps s (receive_round writer s msg) g d v.passed;
    }

-- The acknowledgement takes the address in the channel, and then it does not wait any more.
takes-Inv :
    (heard : List Bytes) (s t : Stream) (addr : Bytes) (rest : List Bytes)
    → s.taken ≡ []
    → s.forward.local_addr ≡ addr ∷ rest
    → t.taken ≡ s.taken ++ addr ∷ []
    → t.forward.local_addr ≡ rest
    → (t.ack ≡ running → t.taken ≡ [])
    → Passed t
    → Inv heard s
    → Inv (heard ++ []) t
takes-Inv heard s t addr rest nothing e k l asks passed v =
    let len = ap (λ x. length x) e in
    let small = v.one_buffered in
    let k' : t.taken ≡ addr ∷ [] = k ∙ ap (λ x. x ++ addr ∷ []) nothing in
    record {
      order =
          ap (λ x. x ++ t.forward.local_addr) k'
          ∙ ap (λ x. addr ∷ x) l
          ∙ sym (ap (λ x. x ++ s.forward.local_addr) nothing ∙ e)
          ∙ v.order
          ∙ sym (append-nil heard);
      one_buffered =
          subst (λ x. length x ≤ 1) (sym l)
            (let few : length rest ≤ 0 = omega arith in omega arith);
      one_taken = subst (λ x. length x ≤ 1) (sym k') (omega arith);
      asks = asks;
      passed = passed;
    }

Step-Inv :
    (heard more : List Bytes) (s t : Stream) → Step s more t → Inv heard s → Inv (heard ++ more) t
unfolding receiver_fails sender_fails ack_fails take_address drop_address
Step-Inv heard more s t (receives writer msg r fit) v = receives-Inv heard writer s msg fit v
Step-Inv heard more s t (breaks e r) v =
    Inv-keeps heard s (receiver_fails s (received_error e)) refl refl refl (λ h. h) v
Step-Inv heard more s t (sends r k) v =
    let (g, d, a, l) = send_round-rest s r in
    Inv-keeps heard s (send_round s r) g d l (λ h. sym a ∙ h) v
Step-Inv heard more s t (stops e r) v =
    Inv-keeps heard s (sender_fails s e) refl refl refl (λ h. h) v
Step-Inv heard more s t (takes addr rest r e) v =
    let none_given = Passed-nothing s (v.asks r) v.passed in
    takes-Inv heard s (take_address s addr rest) addr rest (v.asks r) e refl refl (λ h. cc)
      (inr (ap (λ x. x ++ addr ∷ []) (none_given ∙ sym (v.asks r)))) v
Step-Inv heard more s t (drops addr rest x r e) v =
    takes-Inv heard s (drop_address s addr rest x) addr rest (v.asks r) e refl refl (λ h. cc)
      (inl (Passed-nothing s (v.asks r) v.passed)) v
Step-Inv heard more s t (rejects r k c) v =
    Inv-keeps heard s (ack_fails s _) refl refl refl (λ h. cc) v
Step-Inv heard more s t (times_out r) v =
    Inv-keeps heard s (ack_fails s _) refl refl refl (λ h. cc) v
Step-Inv heard more s t (cancels e r) v =
    Inv-keeps heard s (ack_fails s e) refl refl refl (λ h. cc) v

Reach-Inv :
    (f : Session) (heard : List Bytes) (s : Stream)
    → f.local_addr ≡ []
    → Reach (start f) heard s
    → Inv heard s
unfolding start
Reach-Inv f heard s e here = record {
  order = e;
  one_buffered = subst (λ x. length x ≤ 1) (sym e) (omega arith);
  one_taken = omega arith;
  asks = λ h. refl;
  passed = inl refl;
}
Reach-Inv f heard s e (next {heard = before} {t = t} {more = more} p st) =
    Step-Inv before more t s st (Reach-Inv f before t e p)

-- Whatever a server sends, and in any order of the steps of a stream that begins with an empty
-- channel: the addresses heard are those that the acknowledgement took, one at most, followed by
-- those in the channel; the caller is passed nothing, or all that was taken; and two addresses at
-- most are ever heard, so that the receiver never gets past a third.
pub stream-addresses :
    (f : Session) (heard : List Bytes) (s : Stream)
    → f.local_addr ≡ []
    → Reach (start f) heard s
    → (s.taken ++ s.forward.local_addr ≡ heard)
      × ((s.given ≡ []) ⊎ (s.given ≡ s.taken))
      × (length s.taken ≤ 1)
      × (length heard ≤ 2)
stream-addresses f heard s e p =
    let v = Reach-Inv f heard s e p in
    let one = v.one_taken in
    let other_one = v.one_buffered in
    let all = length-append s.taken s.forward.local_addr in
    let total = ap (λ x. length x) v.order in (v.order, v.passed, one, (omega arith))
