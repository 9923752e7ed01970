-- ===== src/Socks/Header/Parse.antt =====
-- What `ParseUDPHeader` does with any datagram.
use spaceship.Base.{ℕ, ◌+◌, ◌≤◌, ◌≢◌, arith, Bytes, length, Result, ok, err, ◌>>=◌}
use spaceship.Socks.Errors.{Error, panic, byte_at, at_within, slice_within}
use spaceship.Socks.Header.{AddrSpec, UdpHeader, parse_addr, parse_port, parse_udp_header}

-- No panic, and an address that ends two bytes before the end of the datagram.
abbrev AddrFits : ℕ → Result Error (AddrSpec × ℕ) → Type 0
AddrFits n (ok (a, off)) = off + 2 ≤ n
AddrFits n (err e) = e ≢ panic

abbrev pub HeaderFits : ℕ → Result Error UdpHeader → Type 0
HeaderFits n (ok h) = h.data_offset ≤ n
HeaderFits n (err e) = e ≢ panic

parse_addr-AddrFits : (buf : Bytes) (atyp off : ℕ) → AddrFits (length buf) (parse_addr buf atyp off)
unfolding parse_addr
parse_addr-AddrFits buf atyp off = ground (
  arith,
  slice_within buf off (off + 4),
  slice_within buf off (off + 16),
  at_within buf off,
  slice_within buf (off + 1) (off + 1 + byte_at buf off),
)

parse_port-HeaderFits :
    (buf : Bytes) (frag : ℕ) (r : Result Error (AddrSpec × ℕ))
    → AddrFits (length buf) r
    → HeaderFits (length buf) (r >>= λ p. parse_port buf frag p)
unfolding parse_port
parse_port-HeaderFits buf frag (ok (a, off)) h =
    ground (arith, at_within buf off, at_within buf (off + 1))
parse_port-HeaderFits buf frag (err e) h = h

-- Whatever bytes arrive, the parser never reads outside of them: it returns one of its errors, or
-- a header whose payload offset lies within the datagram.
pub parse-HeaderFits : (buf : Bytes) → HeaderFits (length buf) (parse_udp_header buf)
unfolding parse_udp_header
parse-HeaderFits buf =
    let rest = parse_addr buf (byte_at buf 3) 4 in
    ground (
      arith,
      at_within buf 0,
      at_within buf 1,
      at_within buf 2,
      at_within buf 3,
      parse_port-HeaderFits buf (byte_at buf 2) rest (parse_addr-AddrFits buf (byte_at buf 3) 4),
    )
