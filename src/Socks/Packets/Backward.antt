-- ===== src/Socks/Packets/Backward.antt =====
-- What a client is sent: the header is written in front of the payload within the buffer.
use spaceship.Base.{
  ℕ, ◌+◌, ◌-◌, ◌≤◌, ◌<◌, true, false, ◌++◌, none, some, ◌≡◌, refl, sym, ◌∙◌, ap, subst, arith,
  Bytes, length, take, drop, length-take, length-append, drop-length-append, take-length-append,
  append_assoc, ltb, Result-cases, ok, Bool-cases, Option-cases, inl, inr,
}
use spaceship.Socks.Header.RoundTrip.{canonical, parse-marshal}
use spaceship.Socks.Header.{AddrSpec, parse_udp_header, marshal_udp_header, udp_max_header_len}
use spaceship.Socks.Packets.{
  NetAddr, nil_addr, udp_addr, text_addr, source_matches_target, addr_spec_from_net_addr, copy_at,
  prepend, prepend_result, reverse_packet, udp_max_packet_size,
}

addr_spec-port :
    (addr : NetAddr) (a : AddrSpec) → addr_spec_from_net_addr addr ≡ some a → a.port < 65536
unfolding addr_spec_from_net_addr
addr_spec-port nil_addr a h = absurd (ground arith)
addr_spec-port (udp_addr ip port) a h = ground arith
addr_spec-port (text_addr none) a h = absurd (ground arith)
addr_spec-port (text_addr (some (host, ip, port))) a h = ground arith

-- Taking a prefix of known length, and dropping one.
take_prefix : (n : ℕ) (xs ys : Bytes) → length xs ≡ n → take n (xs ++ ys) ≡ xs
take_prefix n xs ys e = subst (λ k. take k (xs ++ ys) ≡ xs) e (take-length-append xs ys)

drop_prefix : (n : ℕ) (xs ys : Bytes) → length xs ≡ n → drop n (xs ++ ys) ≡ ys
drop_prefix n xs ys e = subst (λ k. drop k (xs ++ ys) ≡ ys) e (drop-length-append xs ys)

-- The slice that is sent is the header and the `n` bytes behind the reserved ones.
copied :
    (reserved payload rest header : Bytes)
    → length reserved ≡ udp_max_header_len
    → length header ≤ udp_max_header_len
    → drop (udp_max_header_len - length header) (
        take
          (udp_max_header_len + length payload)
          (copy_at (reserved ++ (payload ++ rest)) (udp_max_header_len - length header) header))
      ≡ header ++ payload
unfolding copy_at
copied reserved payload rest header size fits =
    let start = udp_max_header_len - length header in
    let buf = reserved ++ (payload ++ rest) in
    let front = take start buf in
    let front_size : length front ≡ start =
      omega (arith, length-take start buf, length-append reserved (payload ++ rest)) in
    let tail : drop (start + length header) buf ≡ payload ++ rest =
      drop_prefix (start + length header) reserved (payload ++ rest) (omega arith) in
    let regroup : front ++ (header ++ (payload ++ rest)) ≡ (front ++ (header ++ payload)) ++ rest =
      rw (append_assoc front (header ++ payload) rest, append_assoc header payload rest) refl in
    let cut : take (udp_max_header_len + length payload) ((front ++ (header ++ payload)) ++ rest)
        ≡ front ++ (header ++ payload) =
      take_prefix (udp_max_header_len + length payload) (front ++ (header ++ payload)) rest (
        omega (
          arith,
          front_size,
          length-append front (header ++ payload),
          length-append header payload,
        )) in
    ap (λ t. drop start (take (udp_max_header_len + length payload) (front ++ (header ++ t)))) tail
    ∙ ap (λ t. drop start (take (udp_max_header_len + length payload) t)) regroup
    ∙ ap (drop start) cut
    ∙ drop_prefix start front (header ++ payload) front_size

-- What the client gets: a datagram of the allowed size that parses to the canonical form of the
-- source's address, with the payload behind its header.
pub record Delivers (a : AddrSpec) (payload out : Bytes) : Type 0 where
  pub header : Bytes
  pub bytes : out ≡ header ++ payload
  pub parsed :
      parse_udp_header out
      ≡ ok (record { frag = 0; addr = canonical a; data_offset = length header })
  pub size : length out ≤ udp_max_packet_size

unwrap : {a b : Bytes} → some a ≡ some b → a ≡ b
unwrap h = cc

prepend-Delivers :
    (reserved payload rest header out : Bytes) (a : AddrSpec)
    → length reserved ≡ udp_max_header_len
    → a.port < 65536
    → marshal_udp_header (some a) ≡ ok header
    → prepend (reserved ++ (payload ++ rest)) (length payload) header ≡ some out
    → Delivers a payload out
unfolding prepend
prepend-Delivers reserved payload rest header out a size port m h =
    let (parsed, fits, _) = parse-marshal a payload header port m in
    let within : ltb udp_max_packet_size (length header + length payload) ≡ false = ground arith in
    let start = udp_max_header_len - length header in
    let slice = drop start (
      take (udp_max_header_len + length payload)
        (copy_at (reserved ++ (payload ++ rest)) start header)) in
    let sent : some slice ≡ some out = rw (within, prepend) at h in
    let e : header ++ payload ≡ out =
      sym (copied reserved payload rest header size fits) ∙ unwrap sent in
    record {
      header = header;
      bytes = sym e;
      parsed = rw⁻¹ e parsed;
      size = rw⁻¹ e (ground (arith, length-append header payload));
    }

-- Whatever `reverseRelay` sends to the client for a datagram that it has read behind the reserved
-- bytes comes from the flow's target, is of the allowed size, and parses to the canonical form of
-- the source's address with the datagram's bytes as its payload: the header that is copied into the
-- reserved bytes overwrites none of them.
pub reverse_packet-Delivers :
    (reserved payload rest out : Bytes) (source target : NetAddr)
    → length reserved ≡ udp_max_header_len
    → reverse_packet (reserved ++ (payload ++ rest)) (length payload) source target ≡ some out
    → (source_matches_target source target ≡ true)
      × ((a : AddrSpec) × (addr_spec_from_net_addr source ≡ some a) × Delivers a payload out)
unfolding reverse_packet prepend_result
reverse_packet-Delivers reserved payload rest out source target size h =
    elim (Bool-cases (source_matches_target source target)) [
      | inr other ↦ absurd (ground arith)
      | inl from ↦ elim (Option-cases (addr_spec_from_net_addr source)) [
        | inl e ↦ absurd (ground arith)
        | inr (a, e) ↦ elim (Result-cases (marshal_udp_header (some a))) [
          | inr (x, m) ↦ absurd (ground arith)
          | inl (header, m) ↦
              let sent : prepend (reserved ++ (payload ++ rest)) (length payload) header
                  ≡ some out =
                rw (from, e, m, reverse_packet, prepend_result) at h in
              (
                from,
                (
                  a,
                  e,
                  prepend-Delivers reserved payload rest header out a size
                      (addr_spec-port source a e) m sent,
                ),
              )
        ]
      ]
    ]
