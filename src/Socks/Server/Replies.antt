-- ===== src/Socks/Server/Replies.antt =====
-- What a client that asks for an association is told.
use spaceship.Base.{
  ℕ, ◌≢◌, Bool, true, false, not, ◌||◌, [], ◌∷◌, ◌++◌, Option, none, some, ◌≡◌, refl, ap, ◌∙◌,
  arith, Bytes, if◌then◌else◌, Result, ok, err, Bool-cases, Option-cases, inl, inr,
}
use spaceship.Net.{to4, to16}
use spaceship.Socks.Errors.{Error, unusable_address}
use spaceship.Socks.Header.{AddrSpec}
use spaceship.Socks.Request.{
  reply_bytes, reply_of, send_reply, success_reply, server_failure, command_not_supported,
}
use spaceship.Socks.Server.{
  Associates, RelayResult, refused, listening, is_disabled, no_address, bind_ip, report_relay,
  handle_associate,
}
use spaceship.Socks.Wire.{Conn, M, ◌>>◌, throw, write}

-- The address of the success reply: that of a relay that listens, with the IP that the code puts
-- in its place, and a specified one.
abbrev pub Succeeds : Associates → Option AddrSpec → Type 0
Succeeds o addr =
    (o.disabled ≡ false)
    × (o.udp_routed ≡ true)
    × ((ip : Bytes) × (port : ℕ) × (o.relay ≡ listening ip port)
        × (addr ≡ some (record { fqdn = []; ip = bind_ip ip o.local_ip; port = port }))
        × (no_address (bind_ip ip o.local_ip) ≡ false))

-- One reply was written, and nothing else.
pub record Replies (o : Associates) (c : Conn) (r : Conn × Result Error (Unit {0})) : Type 0 where
  pub resp : ℕ
  pub addr : Option AddrSpec
  pub msg : Bytes
  pub bytes : reply_bytes resp addr ≡ ok msg
  pub sent : r.0 ≡ record c { output = c.output ++ msg }
  pub success : resp ≡ success_reply → Succeeds o addr

send_reply-sends :
    (resp : ℕ) (addr : Option AddrSpec) (msg : Bytes) (c : Conn)
    → c.writable ≡ true
    → reply_bytes resp addr ≡ ok msg
    → send_reply resp addr c ≡ (record c { output = c.output ++ msg }, ok tt)
unfolding send_reply write
send_reply-sends resp addr msg c w e = rw (e, send_reply) (simp w refl)

failure-Replies :
    (o : Associates) (resp : ℕ) (c : Conn) (r : Conn × Result Error (Unit {0}))
    → resp ≢ success_reply
    → r.0 ≡ (send_reply resp none c).0
    → c.writable ≡ true
    → Replies o c r
unfolding reply_bytes
failure-Replies o resp c r failing same_conn w = record {
  resp = resp;
  addr = none;
  msg = reply_of resp 1 (0 ∷ 0 ∷ 0 ∷ 0 ∷ []) 0;
  bytes = refl;
  sent =
      same_conn
      ∙ ap (λ p. p.0)
          (send_reply-sends resp none (reply_of resp 1 (0 ∷ 0 ∷ 0 ∷ 0 ∷ []) 0) c w refl);
  success = λ e. absurd (failing e);
}

then_throw :
    (m : M (Unit {0})) (e : Error) (c : Conn) → ((m >> throw {A = Unit {0}} e) c).0 ≡ (m c).0
then_throw m e c = at (m c)
  where
    next : Conn × Result Error (Unit {0}) → Conn × Result Error (Unit {0})
    next p = elim p.1 [ ok x ↦ throw e p.0 | err x ↦ (p.0, err x) ]

    at : (p : Conn × Result Error (Unit {0})) → (next p).0 ≡ p.0
    at (c', ok x) = refl
    at (c', err x) = refl

failing : (b : Bool) → (if b then command_not_supported else server_failure) ≢ success_reply
failing true e = absurd (omega arith)
failing false e = absurd (omega arith)

addressed :
    (resp : ℕ) (a : AddrSpec)
    → to16 a.ip ≢ none
    → (msg : Bytes) × (reply_bytes resp (some a) ≡ ok msg)
unfolding reply_bytes
addressed resp a n = elim (Option-cases (to4 a.ip)) [
  | inr (v4, e) ↦ (reply_of resp 1 v4 a.port, rw (e, reply_bytes) refl)
  | inl none4 ↦ elim (Option-cases (to16 a.ip)) [
    | inr (v6, e) ↦ (reply_of resp 4 v6 a.port, rw (none4, e, reply_bytes) refl)
    | inl none16 ↦ absurd (n none16)
  ]
]

relayed-Replies :
    (o : Associates) (c : Conn)
    → o.disabled ≡ false
    → o.udp_routed ≡ true
    → c.writable ≡ true
    → ((ip : Bytes) (port : ℕ) → o.relay ≡ listening ip port → to16 (bind_ip ip o.local_ip) ≢ none)
    → (relay : RelayResult) → o.relay ≡ relay
    → Replies o c (report_relay relay o.local_ip c)
unfolding report_relay
relayed-Replies o c d u w ips (refused e) known =
    let resp = if is_disabled e then command_not_supported else server_failure in
    failure-Replies o resp c (report_relay (refused e) o.local_ip c) (failing (is_disabled e))
      (then_throw (send_reply resp none) e c) w
relayed-Replies o c d u w ips (listening ip port) known =
    elim (Bool-cases (no_address (bind_ip ip o.local_ip))) [
      | inl unusable ↦ rw unusable (
          failure-Replies o server_failure c
            ((send_reply server_failure none >> throw {A = Unit {0}} unusable_address) c)
            (failing false) (then_throw (send_reply server_failure none) unusable_address c) w)
      | inr usable ↦
          let a : AddrSpec = record { fqdn = []; ip = bind_ip ip o.local_ip; port = port } in
          let (msg, bytes) = addressed success_reply a (ips ip port known) in
          rw usable (record {
            resp = success_reply;
            addr = some a;
            msg = msg;
            bytes = bytes;
            sent = ap (λ p. p.0) (send_reply-sends success_reply (some a) msg c w bytes);
            success = λ _. (d, u, (ip, port, known, refl, usable));
          })
    ]

-- The handler of an associate writes exactly one reply, on a connection that takes it and for a
-- relay whose address is an IPv4 or IPv6 one. The reply reports success only if UDP is enabled, some
-- route supports it, and a relay listens; the reply's address is then a specified one.
pub handle_associate-Replies :
    (o : Associates) (c : Conn)
    → c.writable ≡ true
    → ((ip : Bytes) (port : ℕ) → o.relay ≡ listening ip port → to16 (bind_ip ip o.local_ip) ≢ none)
    → Replies o c (handle_associate o c)
unfolding handle_associate
handle_associate-Replies o c w ips = elim (Bool-cases (o.disabled || not o.udp_routed)) [
  | inl off ↦ rw off (
      failure-Replies o command_not_supported c (send_reply command_not_supported none c)
        (failing true) refl w)
  | inr on ↦ rw on (relayed-Replies o c (ground arith) (ground arith) w ips o.relay refl)
]
