-- ===== src/Socks/Request/Reply.antt =====
-- What a client sends is what the server reads, and what the server replies a client can read.
use spaceship.Base.{
  ℕ, ◌+◌, ◌*◌, ◌/◌, ◌%◌, ◌<◌, true, [], ◌∷◌, ◌++◌, append_assoc, some, ◌≡◌, refl, ◌∙◌, subst, arith,
  Bytes, length, Result, ok, Option-cases, inl, inr,
}
use mathlib.Core.Path.{subst₂}
use spaceship.Net.{to4, to16, length-to4, length-to16}
use spaceship.Socks.Errors.{Error}
use spaceship.Socks.Header.{
  AddrSpec, of_ip, of_fqdn, ipv4_address, ipv6_address, fqdn_address, port_bytes, addr_bytes,
}
use spaceship.Socks.Header.RoundTrip.{canonical}
use spaceship.Socks.Request.{
  with_port, read_port, read_ip, read_name, read_body, read_addr_spec, read_dest, new_request,
  reply_of, reply_bytes,
}
use spaceship.Socks.Wire.{Conn, return, read_full, read_byte, read_full-append, bind-ok}

abbrev pub conn : Bytes → Bytes → Conn
conn input output = record { input = input; output = output; writable = true }

read_port-bytes :
    (d : AddrSpec) (port : ℕ) (rest out : Bytes)
    → port < 65536
    → read_port d (conn (port_bytes port ++ rest) out)
      ≡ (conn rest out, ok (record d { port = port }))
unfolding read_port
read_port-bytes d port rest out h =
    let value : (port / 256 % 256 * 256 + port % 256) % 65536 ≡ port = omega arith in
    bind-ok (read_full 2) (λ p. return (with_port d p)) (conn (port_bytes port ++ rest) out)
      (conn rest out) (port_bytes port)
      (read_full-append (port_bytes port) rest (conn (port_bytes port ++ rest) out) refl)
    ∙ (rw value)

-- The address of a request, as a client writes it.
abbrev pub Encodes : AddrSpec → ℕ → Bytes → Type 0
Encodes d atyp body =
    (port : ℕ) (rest out : Bytes)
    → port < 65536
    → read_body atyp (conn (body ++ (port_bytes port ++ rest)) out)
      ≡ (conn rest out, ok (record d { port = port }))

v4-Encodes : (ip : Bytes) → length ip ≡ 4 → Encodes (of_ip ip) ipv4_address ip
unfolding read_body read_ip
v4-Encodes ip size port rest out h =
    bind-ok (read_full 4) read_ip (conn (ip ++ (port_bytes port ++ rest)) out)
      (conn (port_bytes port ++ rest) out) ip
      (subst
        (λ n.
          read_full n (conn (ip ++ (port_bytes port ++ rest)) out)
          ≡ (conn (port_bytes port ++ rest) out, ok ip))
        size
        (read_full-append ip (port_bytes port ++ rest) (conn (ip ++ (port_bytes port ++ rest)) out)
          refl))
    ∙ read_port-bytes (of_ip ip) port rest out h

v6-Encodes : (ip : Bytes) → length ip ≡ 16 → Encodes (of_ip ip) ipv6_address ip
unfolding read_body read_ip
v6-Encodes ip size port rest out h =
    bind-ok (read_full 16) read_ip (conn (ip ++ (port_bytes port ++ rest)) out)
      (conn (port_bytes port ++ rest) out) ip
      (subst
        (λ n.
          read_full n (conn (ip ++ (port_bytes port ++ rest)) out)
          ≡ (conn (port_bytes port ++ rest) out, ok ip))
        size
        (read_full-append ip (port_bytes port ++ rest) (conn (ip ++ (port_bytes port ++ rest)) out)
          refl))
    ∙ read_port-bytes (of_ip ip) port rest out h

name-Encodes : (name : Bytes) → Encodes (of_fqdn name) fqdn_address (length name ∷ name)
unfolding read_body read_name read_byte
name-Encodes name port rest out h =
    bind-ok (read_full (length name)) read_name (conn (name ++ (port_bytes port ++ rest)) out)
      (conn (port_bytes port ++ rest) out) name
      (read_full-append name (port_bytes port ++ rest)
        (conn (name ++ (port_bytes port ++ rest)) out) refl)
    ∙ read_port-bytes (of_fqdn name) port rest out h

-- The encodings that a header or a reply uses.
record IsEncoded (a : AddrSpec) (atyp : ℕ) (body : Bytes) : Type 0 where
  base : AddrSpec
  encodes : Encodes base atyp body
  result : record base { port = a.port } ≡ canonical a

IsEncoded-of :
    (a base : AddrSpec) (atyp atyp' : ℕ) (body body' : Bytes)
    → Encodes base atyp body
    → record base { port = a.port } ≡ canonical a
    → ◌≡◌ {A = Result Error (ℕ × Bytes)} (ok (atyp, body)) (ok (atyp', body'))
    → IsEncoded a atyp' body'
IsEncoded-of a base atyp atyp' body body' e r h =
    let same_type : atyp ≡ atyp' = ground arith in
    let same_body : body ≡ body' = ground arith in
    record { base = base; encodes = subst₂ (Encodes base) same_type same_body e; result = r }

addr_bytes-IsEncoded :
    (a : AddrSpec) (atyp : ℕ) (body : Bytes)
    → addr_bytes a ≡ ok (atyp, body)
    → IsEncoded a atyp body
unfolding addr_bytes canonical
addr_bytes-IsEncoded a atyp body h = elim (Option-cases (to4 a.ip)) [
  | inr (v4, e) ↦
      IsEncoded-of a (of_ip v4) ipv4_address atyp v4 body (v4-Encodes v4 (length-to4 a.ip e))
        (rw (e, canonical)) (rw (e, addr_bytes) at h)
  | inl none4 ↦ elim (Option-cases (to16 a.ip)) [
    | inr (v6, e) ↦
        IsEncoded-of a (of_ip v6) ipv6_address atyp v6 body (v6-Encodes v6 (length-to16 a.ip e))
          (rw (none4, e, canonical)) (rw (none4, e, addr_bytes) at h)
    | inl none16 ↦
        IsEncoded-of a (of_fqdn a.fqdn) fqdn_address atyp (length a.fqdn ∷ a.fqdn) body
          (name-Encodes a.fqdn) (rw (none4, none16, canonical)) (ground arith)
  ]
]

read_dest-encoded :
    (a : AddrSpec) (command reserved atyp : ℕ) (body rest out : Bytes)
    → a.port < 65536
    → IsEncoded a atyp body
    → read_dest
        (5 ∷ command ∷ reserved ∷ [])
        (conn (atyp ∷ (body ++ (port_bytes a.port ++ rest))) out)
      ≡ (conn rest out, ok (record { version = 5; command = command; dest_addr = canonical a }))
unfolding read_dest read_addr_spec read_byte
read_dest-encoded a command reserved atyp body rest out h e =
    bind-ok (read_body atyp)
      (λ dest. return (record { version = 5; command = command; dest_addr = dest }))
      (conn (body ++ (port_bytes a.port ++ rest)) out) (conn rest out)
      (record e.base { port = a.port }) (e.encodes a.port rest out h)
    ∙ (rw e.result)

-- A request that writes an address with a 16-bit port, type and body as `MarshalUDPHeader` writes
-- them, is read back: its command, the canonical form of its address, and not a byte of what
-- follows.
pub new_request-encoded :
    (a : AddrSpec) (command reserved atyp : ℕ) (body rest out : Bytes)
    → a.port < 65536
    → addr_bytes a ≡ ok (atyp, body)
    → new_request (conn (5 ∷ command ∷ reserved ∷ atyp ∷ (body ++ (port_bytes a.port ++ rest))) out)
      ≡ (conn rest out, ok (record { version = 5; command = command; dest_addr = canonical a }))
unfolding new_request
new_request-encoded a command reserved atyp body rest out h e =
    let later = atyp ∷ (body ++ (port_bytes a.port ++ rest)) in
    bind-ok (read_full 3) read_dest (conn (5 ∷ command ∷ reserved ∷ later) out) (conn later out)
      (5 ∷ command ∷ reserved ∷ [])
      (read_full-append (5 ∷ command ∷ reserved ∷ []) later
        (conn (5 ∷ command ∷ reserved ∷ later) out) refl)
    ∙ read_dest-encoded a command reserved atyp body rest out h (addr_bytes-IsEncoded a atyp body e)

reply-eq :
    (resp : ℕ) (a : AddrSpec) (msg : Bytes)
    → reply_bytes resp (some a) ≡ ok msg
    → (atyp : ℕ) × (body : Bytes) × (addr_bytes a ≡ ok (atyp, body))
      × (msg ≡ reply_of resp atyp body a.port)
unfolding reply_bytes addr_bytes
reply-eq resp a msg h = elim (Option-cases (to4 a.ip)) [
  | inr (v4, e) ↦ (ipv4_address, v4, ground arith, ground arith)
  | inl none4 ↦ elim (Option-cases (to16 a.ip)) [
    | inr (v6, e) ↦ (ipv6_address, v6, ground arith, ground arith)
    | inl none16 ↦ absurd (ground arith)
  ]
]

-- The reply to a request has the layout of a request, with the reply code for the command: for
-- whatever address with a 16-bit port `sendReply` accepts, reading its message gives the code and
-- the address's canonical form, and not a byte of what follows.
new_request-reply :
    (resp : ℕ) (a : AddrSpec) (msg rest out : Bytes)
    → a.port < 65536
    → reply_bytes resp (some a) ≡ ok msg
    → new_request (conn (msg ++ rest) out)
      ≡ (conn rest out, ok (record { version = 5; command = resp; dest_addr = canonical a }))
new_request-reply resp a msg rest out h m =
    let (atyp, body, bytes, shape) = reply-eq resp a msg m in
    rw (shape, append_assoc body (port_bytes a.port) rest)
      (new_request-encoded a resp 0 atyp body rest out h bytes)
