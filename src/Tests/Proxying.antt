-- ===== src/Tests/Proxying.antt =====
-- The HTTP proxy at concrete inputs. Header names are written in their canonical form.
use spaceship.Base.{
  refl, Option, ◌++◌, ◌⊎◌, true, false, [], ◌∷◌, none, some, ◌≡◌, arith, Bytes, codes, same, lookup,
  err,
}
use spaceship.Hosts.{is_empty, trim_space}
use spaceship.Http.Basic.{AddrLib, missing_port}
use spaceship.Http.Connect.Answered.{confirms, refusals, is_named, connect-answers}
use spaceship.Http.Connect.{
  Connect, start_connect, announce, hand_over, relayed, unavailable, leaving, returned, answered,
  proxy_returns, answer_with, conclude, Reach, here, next, hands_over, announces, relays, leaves,
  returns, report,
}
use spaceship.Transport.Session.{Error}
use spaceship.Http.Handlers.Guarded.{Authenticated, handler-guarded}
use spaceship.Http.Handlers.{Site, status, handle, handler}
use spaceship.Http.Headers.Forwarded.{In, write_forward_request-clean}
use spaceship.Http.Headers.{
  HttpLib, Request, split_commas, hop_headers, get, values, write_forward_request,
}
use spaceship.Socks.Auth.{Credentials}

abbrev http : HttpLib
http = record { canonical = λ k. k; equal_fold = same }

abbrev request : Request
request = record {
  method = codes "GET";
  host = codes "a.b";
  request_uri = codes "http://a.b/";
  scheme = codes "http";
  url_host = codes "a.b";
  path = codes "/";
  header = (codes "Connection", codes "X-Mine, Te" ∷ []) ∷ (codes "X-Mine", codes "1" ∷ []) ∷ [];
  transfer_encoding = codes "chunked" ∷ [];
  trailer = [];
  close = false;
}

write_forward_request-clean_example :
    let h = (write_forward_request http request (codes "a.b")).header in
    (values http h (codes "Connection") ≡ codes "close" ∷ [])
    × ((k : Bytes) → In k hop_headers → same (codes "Connection") k ≡ false → lookup k h ≡ none)
    × ((v t : Bytes)
        → In v (values http request.header (codes "Connection"))
        → In t (split_commas v)
        → is_empty (trim_space t) ≡ false
        → same (codes "Connection") (trim_space t) ≡ false
        → lookup (trim_space t) h ≡ none)
    × ((write_forward_request http request (codes "a.b")).transfer_encoding
        ≡ request.transfer_encoding)
    × ((write_forward_request http request (codes "a.b")).trailer ≡ request.trailer)
    × ((write_forward_request http request (codes "a.b")).close ≡ true)
write_forward_request-clean_example = write_forward_request-clean http request (codes "a.b")

abbrev addresses : AddrLib
addresses = record {
  split = λ s. err missing_port;
  atoi = λ s. none;
  join = λ host port. host;
  format = λ n. [];
}

abbrev pub site : Site
site = record {
  Route = Bytes;
  http = http;
  addr = addresses;
  get_route = some;
  hijacks = true;
  decode = some;
  digest = λ b. b;
}

abbrev creds : Credentials
creds = (codes "u", codes "p") ∷ []

handler-guarded_example :
    (handler site creds request ≡ status 407)
    ⊎ (Authenticated site creds (get http request.header (codes "Proxy-Authorization"))
        × (handler site creds request ≡ handle site request))
handler-guarded_example = handler-guarded site creds request (omega arith)

-- A tunnel that is told its address, relays an answer and ends well.
abbrev established_tunnel : Connect
established_tunnel = announce (hand_over start_connect (codes "l")) (codes "l") true

abbrev used_tunnel : Connect
used_tunnel = record established_tunnel {
  written = established_tunnel.written ++ relayed (codes "hi") ∷ [];
}

abbrev left_tunnel : Connect
left_tunnel = record used_tunnel { proxy = leaving none }

abbrev last_tunnel : Connect
last_tunnel = proxy_returns left_tunnel none

last_tunnel-Reach : Reach start_connect last_tunnel
unfolding start_connect hand_over announce answer_with conclude
last_tunnel-Reach =
    next
      (next
        (next
          (next (next here (hands_over (codes "l") refl refl))
            (announces (codes "l") true refl (λ _. refl)))
          (relays (codes "hi") refl refl))
        (leaves none refl))
      (returns none refl)

last_tunnel_sides : (last_tunnel.proxy ≡ returned none) × (last_tunnel.waiter ≡ answered none)
unfolding start_connect hand_over announce answer_with conclude proxy_returns
last_tunnel_sides = (refl, refl)

abbrev no_error : Option Error
no_error = none

connect-answers_example :
    (confirms (report last_tunnel) ≡ 1)
    × (false ≡ false → is_named last_tunnel.local_addr ≡ true)
    × (false ≡ false → no_error ≡ none → report last_tunnel ≡ last_tunnel.written)
    × (false ≡ true
        → false ≡ false
        → last_tunnel.client_closed ≡ false
        → (report last_tunnel ≡ last_tunnel.written ++ unavailable ∷ [])
          × (refusals (report last_tunnel) ≡ 1))
connect-answers_example =
    connect-answers last_tunnel no_error none last_tunnel-Reach last_tunnel_sides.0
      last_tunnel_sides.1
