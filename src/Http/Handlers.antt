-- ===== src/Http/Handlers.antt =====
-- The handlers of internal/http/http.go, up to the call of the transport: what a request is answered
-- or which transport gets which request. The router is a parameter.
pub mod Guarded
use spaceship.Base.{
  ℕ, Bool, true, false, not, ◌&&◌, List, [], ◌∷◌, Option, none, some, Bytes, codes, same, length,
  ltb, if◌then◌else◌, Result, ok, err,
}
use spaceship.Hosts.{is_empty}
use spaceship.Http.Basic.{AddrLib, build_remote_addr, parse_basic_auth}
use spaceship.Http.Headers.{HttpLib, Request, get, write_forward_request, expects_continue}
use spaceship.Socks.Auth.{Credentials, valid}

-- `get_route` is `router.GetRoute`, `hijacks` is whether the connection can be taken over, `decode` is
-- Base64, and `digest` is SHA-256.
pub record Site : Type 1 where
  pub Route : Type 0
  pub http : HttpLib
  pub addr : AddrLib
  pub get_route : Bytes → Option Route
  pub hijacks : Bool
  pub decode : Bytes → Option Bytes
  pub digest : Bytes → Bytes

-- A status; a tunnel to an address; or a request that is forwarded there, before which the client is
-- told to continue or not.
pub data Answer (site : Site) : Type 0 where
  status : ℕ → Answer site
  tunnel : (route : site.Route) (addr : Bytes) → Answer site
  forward : (route : site.Route) (addr : Bytes) (continues : Bool) (request : Request) → Answer site

module _ (site : Site) where
  open site use {Route, http, addr, get_route, hijacks, decode, digest}

  unfoldable pub handle_request : Request → Answer site
  handle_request r = elim (build_remote_addr addr r.host r.scheme) [
    | err _ ↦ status 503
    | ok (host, remote) ↦ elim (get_route host) [
      | none ↦ status 503
      | some route ↦
          if not hijacks
          then status 503
          else forward route remote (expects_continue http r.header)
              (write_forward_request http r host)
    ]
  ]

  -- The target of `CONNECT` has a port.
  unfoldable pub handle_connect : Request → Answer site
  handle_connect r = elim (addr.split r.host) [
    | err _ ↦ status 503
    | ok (host, _) ↦ elim (get_route host) [
      | none ↦ status 503
      | some route ↦
          if not hijacks then status 503 else elim (build_remote_addr addr r.host r.scheme) [
            | err _ ↦ status 503
            | ok (_, remote) ↦ tunnel route remote
          ]
    ]
  ]

  unfoldable pub handle : Request → Answer site
  handle r =
      if is_empty r.url_host
      then status 400
      else if same r.method (codes "CONNECT")
      then handle_connect r
      else handle_request r

  unfoldable pub proxy_auth : Credentials → (Request → Answer site) → Request → Answer site
  proxy_auth creds next r =
      let header = get http r.header (codes "Proxy-Authorization") in
      if is_empty header then status 407 else elim (parse_basic_auth decode header) [
        | none ↦ status 407
        | some (user, pass) ↦ if not (valid digest creds user pass) then status 407 else next r
      ]

  -- The handler that `ListenAndServe` installs.
  unfoldable pub handler : Credentials → Request → Answer site
  handler creds r = if ltb 0 (length creds) then proxy_auth creds handle r else handle r
