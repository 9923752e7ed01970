-- ===== src/Tests/Handshake.antt =====
-- A client's session at concrete inputs.
use spaceship.Base.{
  ◌≤◌, ◌≢◌, true, false, [], ◌∷◌, ◌++◌, some, none, ◌≡◌, refl, ap, arith, ◌==◌, if◌then◌else◌,
  Bytes, codes, same, lookup, length, drop, ok,
}
use spaceship.Net.{to4, to16, is_unspecified, ip_equal}
use spaceship.Socks.Auth.Exchange.{Vouched, authenticate-login, login, conn}
use spaceship.Socks.Auth.{
  socks5_version, AuthContext, Credentials, authenticate, valid, offers, user_pass_auth,
}
use spaceship.Socks.Errors.{eof}
use spaceship.Socks.Header.RoundTrip.{canonical, parse-marshal}
use spaceship.Socks.Header.{
  AddrSpec, addr_bytes, port_bytes, parse_udp_header, marshal_udp_header, udp_max_header_len,
}
use spaceship.Socks.Request.Reply.{new_request-encoded}
use spaceship.Socks.Request.{Request, new_request, reply_bytes}
use spaceship.Socks.Server.Gate.{serve_conn-gate}
use spaceship.Socks.Server.{
  refused, bind_ip, RelayResult, Handler, Connects, Associates, LocalAddr, handle_request,
  serve_conn, listening,
}
use spaceship.Socks.Wire.{Conn, throw}

abbrev site : AddrSpec
site = record { fqdn = codes "a.b"; ip = []; port = 443 }

abbrev site_header : Bytes
site_header = 0 ∷ 0 ∷ 0 ∷ 3 ∷ 3 ∷ b'a' ∷ b'.' ∷ b'b' ∷ 1 ∷ 187 ∷ []

site_bytes : addr_bytes site ≡ ok (3, 3 ∷ codes "a.b")
unfolding addr_bytes to4 to16
site_bytes = refl

site_marshals : marshal_udp_header (some site) ≡ ok site_header
unfolding marshal_udp_header addr_bytes to4 to16
site_marshals = refl

parse-marshal_example :
    (parse_udp_header (site_header ++ codes "ping")
      ≡ ok (record { frag = 0; addr = canonical site; data_offset = 10 }))
    × (10 ≤ udp_max_header_len)
    × (drop 10 (site_header ++ codes "ping") ≡ codes "ping")
parse-marshal_example = parse-marshal site (codes "ping") site_header (omega arith) site_marshals

-- A datagram whose name is cut short.
abbrev cut : Bytes
cut = 0 ∷ 0 ∷ 0 ∷ 3 ∷ 200 ∷ b'a' ∷ []

new_request-encoded_example :
    new_request (record {
      input = 5 ∷ 1 ∷ 0 ∷ 3 ∷ ((3 ∷ codes "a.b") ++ (port_bytes 443 ++ codes "GET"));
      output = [];
      writable = true;
    })
    ≡ (
      record { input = codes "GET"; output = []; writable = true },
      ok (record { version = 5; command = 1; dest_addr = canonical site }),
    )
new_request-encoded_example =
    new_request-encoded site 1 0 3 (3 ∷ codes "a.b") (codes "GET") [] (omega arith) site_bytes

abbrev host : AddrSpec
host = record { fqdn = []; ip = 127 ∷ 0 ∷ 0 ∷ 1 ∷ []; port = 1080 }

abbrev host_reply : Bytes
host_reply = 5 ∷ 0 ∷ 0 ∷ 1 ∷ 127 ∷ 0 ∷ 0 ∷ 1 ∷ 4 ∷ 56 ∷ []

host_replies : reply_bytes 0 (some host) ≡ ok host_reply
unfolding reply_bytes to4
host_replies = refl

abbrev digest : Bytes → Bytes
digest s = s

abbrev creds : Credentials
creds = (codes "u", codes "p") ∷ []

creds_set : length creds ≢ 0
creds_set e = absurd (omega arith)

offers_user : offers user_pass_auth (0 ∷ 2 ∷ []) ≡ true
unfolding offers
offers_user = refl

abbrev logged_in : AuthContext
logged_in = record { method = 2; username = some (codes "u") }

abbrev client : Conn
client = conn digest (login (2 ∷ []) (codes "u") (codes "p") []) []

method_offered : offers user_pass_auth (2 ∷ []) ≡ true
unfolding offers
method_offered = refl

accepted : (authenticate digest creds client).1 ≡ ok logged_in
unfolding valid lookup same
accepted =
    ap (λ p. p.1)
      (authenticate-login digest creds (2 ∷ []) (codes "u") (codes "p") [] [] creds_set
        method_offered)

abbrev connects : Connects
connects = record { routed = true; local = LocalAddr.bound (127 ∷ 0 ∷ 0 ∷ 1 ∷ []) 1080 }

abbrev associates : Associates
associates = record {
  disabled = false;
  udp_routed = true;
  relay = listening (127 ∷ 0 ∷ 0 ∷ 1 ∷ []) 9;
  local_ip = [];
}

-- A handler that fails for a client without a name and a password.
abbrev wary : Handler
wary ctx req c =
    if ctx.method == 2 then handle_request connects associates ctx req c else throw eof c

-- A client that logs in and connects to 127.0.0.1.
abbrev caller : Conn
caller =
    conn digest
      (5 ∷ login (2 ∷ []) (codes "u") (codes "p") (5 ∷ 1 ∷ 0 ∷ 1 ∷ 127 ∷ 0 ∷ 0 ∷ 1 ∷ 0 ∷ 80 ∷ []))
      []

wary-agrees :
    (ctx : AuthContext) (req : Request) (c : Conn) (input : Bytes)
    → caller.input ≡ socks5_version ∷ input
    → Vouched digest creds input ctx
    → handle_request connects associates ctx req c ≡ wary ctx req c
wary-agrees ctx req c input front (_, _, _, _, _, _, (_, _, _, e)) = rw e refl

serve_conn-gate_example :
    serve_conn digest creds true (handle_request connects associates) caller
    ≡ serve_conn digest creds true wary caller
serve_conn-gate_example =
    serve_conn-gate digest creds true (handle_request connects associates) wary caller creds_set
      wary-agrees

abbrev Addressed : RelayResult → Type 0
Addressed (listening ip port) = to16 (bind_ip ip []) ≢ none
Addressed (refused e) = Unit

local_Addressed : Addressed (listening (127 ∷ 0 ∷ 0 ∷ 1 ∷ []) 9)
unfolding to16 bind_ip is_unspecified ip_equal same
local_Addressed h = absurd (ground arith)
