-- ===== src/Socks/Header/RoundTrip.antt =====
-- Parsing a marshalled header.
use spaceship.Base.{
  ℕ, ◌+◌, ◌/◌, ◌%◌, ◌≤◌, ◌<◌, ◌≡◌, arith, [], ◌∷◌, ◌++◌, none, some, Bytes, length, length-append,
  append_assoc, drop, drop-length-append, Bool-cases, Option-cases, inl, inr, Result, ok, err, ltb,
  ◌==◌,
}
use spaceship.Net.{to4, to16, length-to4, length-to16}
use spaceship.Socks.Errors.{Error, at, at-append, at-append_next, slice-append}
use spaceship.Socks.Header.{
  AddrSpec, parse_addr, parse_port, parse_udp_header, addr_bytes, marshal_udp_header, port_bytes,
  udp_max_header_len, of_ip, of_fqdn, ipv4_address, ipv6_address, fqdn_address,
}

-- The fixed bytes in front of the address.
abbrev front : ℕ → Bytes
front atyp = 0 ∷ 0 ∷ 0 ∷ atyp ∷ []

-- A body that the address parser reads back, whatever follows.
abbrev Reads : AddrSpec → ℕ → Bytes → Type 0
Reads a atyp body =
    (rest : Bytes)
    → 2 ≤ length rest
    → parse_addr (0 ∷ 0 ∷ 0 ∷ atyp ∷ (body ++ rest)) atyp 4 ≡ ok (a, 4 + length body)

v4-Reads : (ip : Bytes) → length ip ≡ 4 → Reads (of_ip ip) ipv4_address ip
unfolding parse_addr
v4-Reads ip h rest k =
    ground (arith, slice-append (front ipv4_address) ip rest, length-append ip rest)

v6-Reads : (ip : Bytes) → length ip ≡ 16 → Reads (of_ip ip) ipv6_address ip
unfolding parse_addr
v6-Reads ip h rest k =
    ground (arith, slice-append (front ipv6_address) ip rest, length-append ip rest)

fqdn-Reads :
    (name : Bytes) → length name < 256 → Reads (of_fqdn name) fqdn_address (length name ∷ name)
unfolding parse_addr
fqdn-Reads name h rest k = ground (
  arith,
  at-append (front fqdn_address) (length name) (name ++ rest),
  slice-append (0 ∷ 0 ∷ 0 ∷ fqdn_address ∷ length name ∷ []) name rest,
  length-append name rest,
)

parse_port_front :
    (a : AddrSpec) (atyp : ℕ) (body : Bytes) (port : ℕ) (payload : Bytes)
    → port < 65536
    → parse_port (0 ∷ 0 ∷ 0 ∷ atyp ∷ (body ++ (port_bytes port ++ payload))) 0 (a, 4 + length body)
      ≡ ok (record { frag = 0; addr = record a { port = port }; data_offset = 6 + length body })
unfolding parse_port
parse_port_front a atyp body port payload h = ground (
  arith,
  at-append (0 ∷ 0 ∷ 0 ∷ atyp ∷ body) (port / 256 % 256) (port % 256 ∷ payload),
  at-append_next (0 ∷ 0 ∷ 0 ∷ atyp ∷ body) (port / 256 % 256) (port % 256) payload,
  length-append body (port_bytes port ++ payload),
)

parse-Reads :
    (a : AddrSpec) (atyp : ℕ) (body : Bytes) (port : ℕ) (payload : Bytes)
    → port < 65536
    → Reads a atyp body
    → parse_udp_header (0 ∷ 0 ∷ 0 ∷ atyp ∷ (body ++ (port_bytes port ++ payload)))
      ≡ ok (record { frag = 0; addr = record a { port = port }; data_offset = 6 + length body })
unfolding parse_udp_header at
parse-Reads a atyp body port payload h reads = ground (
  arith,
  reads (port_bytes port ++ payload) (omega arith),
  parse_port_front a atyp body port payload h,
)

-- The address as the header carries it: an IPv4 address in four bytes, an IPv6 address with no
-- name, and a name only where there is no IP.
unfoldable pub canonical : AddrSpec → AddrSpec
canonical a = elim (to4 a.ip) [
  | some v4 ↦ record (of_ip v4) { port = a.port }
  | none ↦ elim (to16 a.ip) [
    | some v6 ↦ record (of_ip v6) { port = a.port }
    | none ↦ record (of_fqdn a.fqdn) { port = a.port }
  ]
]

-- The header's bytes parse back to the address in front of any payload.
abbrev ParsesBack : AddrSpec → Bytes → Result Error Bytes → Type 0
ParsesBack a payload (ok header) =
    (parse_udp_header (header ++ payload)
      ≡ ok (record { frag = 0; addr = a; data_offset = length header }))
    × (length header ≤ udp_max_header_len)
ParsesBack a payload (err e) = Unit

body-ParsesBack :
    (a : AddrSpec) (atyp : ℕ) (body : Bytes) (port : ℕ) (payload : Bytes)
    → port < 65536
    → length body ≤ 256
    → Reads a atyp body
    → ParsesBack
        (record a { port = port })
        payload
        (ok (0 ∷ 0 ∷ 0 ∷ atyp ∷ (body ++ port_bytes port)))
body-ParsesBack a atyp body port payload h k reads = ground (
  arith,
  parse-Reads a atyp body port payload h reads,
  append_assoc body (port_bytes port) payload,
  length-append body (port_bytes port),
)

name-ParsesBack :
    (a : AddrSpec) (payload : Bytes)
    → a.port < 65536
    → to4 a.ip ≡ none
    → to16 a.ip ≡ none
    → ParsesBack (record (of_fqdn a.fqdn) { port = a.port }) payload (marshal_udp_header (some a))
unfolding marshal_udp_header addr_bytes
name-ParsesBack a payload h e4 e16 = elim (Bool-cases (length a.fqdn == 0)) [
  | inl empty ↦ rw (e4, e16, empty, addr_bytes) tt
  | inr named ↦ elim (Bool-cases (ltb 255 (length a.fqdn))) [
    | inl long ↦ rw (e4, e16, named, long, addr_bytes) tt
    | inr short ↦
        let size : length a.fqdn % 256 ≡ length a.fqdn = ground arith in
        rw (e4, e16, named, short, size, addr_bytes)
          (body-ParsesBack _ fqdn_address (length a.fqdn ∷ a.fqdn) a.port payload h (ground arith)
            (fqdn-Reads a.fqdn (ground arith)))
  ]
]

marshal-ParsesBack :
    (a : AddrSpec) (payload : Bytes)
    → a.port < 65536
    → ParsesBack (canonical a) payload (marshal_udp_header (some a))
unfolding canonical
marshal-ParsesBack a payload h = elim (Option-cases (to4 a.ip)) [
  | inr (v4, e) ↦
      unfold marshal_udp_header addr_bytes in
      rw (e, addr_bytes, canonical)
        (body-ParsesBack _ ipv4_address v4 a.port payload h (omega (arith, length-to4 a.ip e))
          (v4-Reads v4 (length-to4 a.ip e)))
  | inl none4 ↦ elim (Option-cases (to16 a.ip)) [
    | inr (v6, e) ↦
        unfold marshal_udp_header addr_bytes in
        rw (none4, e, addr_bytes, canonical)
          (body-ParsesBack _ ipv6_address v6 a.port payload h (omega (arith, length-to16 a.ip e))
            (v6-Reads v6 (length-to16 a.ip e)))
    | inl none16 ↦ rw (none4, none16, canonical) (name-ParsesBack a payload h none4 none16)
  ]
]

-- Every header that `MarshalUDPHeader` builds of an address with a 16-bit port fits the space
-- reserved for it, and in front of any payload it parses back, unfragmented, to the canonical form
-- of the address and to the offset at which the payload starts.
pub parse-marshal :
    (a : AddrSpec) (payload header : Bytes)
    → a.port < 65536
    → marshal_udp_header (some a) ≡ ok header
    → (parse_udp_header (header ++ payload)
        ≡ ok (record { frag = 0; addr = canonical a; data_offset = length header }))
      × (length header ≤ udp_max_header_len)
      × (drop (length header) (header ++ payload) ≡ payload)
parse-marshal a payload header h m =
    let (parsed, size) = rw m at (marshal-ParsesBack a payload h) in
    (parsed, size, drop-length-append header payload)
