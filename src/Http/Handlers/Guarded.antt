-- ===== src/Http/Handlers/Guarded.antt =====
-- What a request gets past the handler.
use spaceship.Base.{
  ◌<◌, true, false, Bool-cases, Option-cases, Result-cases, ◌⊎◌, inl, inr, [], none, some, ◌≡◌,
  refl, sym, ◌∙◌, subst, arith, Bytes, codes, same, same_iff, lookup, length, ltb,
}
use spaceship.Hosts.{is_empty}
use spaceship.Http.Basic.{build_remote_addr, parse_basic_auth}
use spaceship.Http.Handlers.{
  Site, Answer, status, tunnel, forward, handle_request, handle_connect, handle, proxy_auth,
  handler,
}
use spaceship.Http.Headers.Forwarded.{write_forward_request-clean}
use spaceship.Http.Headers.{Request, get, write_forward_request}
use spaceship.Socks.Auth.{Credentials, valid}

module _ (site : Site) where
  -- The header has the name of a user whose stored password has the digest of the one beside it.
  pub record Authenticated (creds : Credentials) (header : Bytes) : Type 0 where
    pub user : Bytes
    pub pass : Bytes
    pub stored : Bytes
    pub parsed : parse_basic_auth site.decode header ≡ some (user, pass)
    pub known : lookup user creds ≡ some stored
    pub agrees : site.digest pass ≡ site.digest stored

  valid-Authenticated :
      (creds : Credentials) (header user pass : Bytes)
      → parse_basic_auth site.decode header ≡ some (user, pass)
      → valid site.digest creds user pass ≡ true
      → Authenticated creds header
  unfolding valid
  valid-Authenticated creds header user pass h v = elim (Option-cases (lookup user creds)) [
    | inl e ↦
        let never : valid site.digest creds user pass ≡ false = rw (e, valid) refl in absurd cc
    | inr (stored, e) ↦
        let digests : valid site.digest creds user pass
            ≡ same (site.digest pass) (site.digest stored) =
          rw (e, valid) refl in
        record {
          user = user;
          pass = pass;
          stored = stored;
          parsed = h;
          known = e;
          agrees = (same_iff (site.digest pass) (site.digest stored)).0 (sym digests ∙ v);
        }
  ]

  -- With credentials, a request is either asked for them, or has the name of a user with a
  -- password of the stored one's digest and is handled.
  pub handler-guarded :
      (creds : Credentials) (r : Request)
      → 0 < length creds
      → (handler site creds r ≡ status 407)
        ⊎ (Authenticated creds (get site.http r.header (codes "Proxy-Authorization"))
            × (handler site creds r ≡ handle site r))
  unfolding handler proxy_auth
  handler-guarded creds r some_creds =
      let on : ltb 0 (length creds) ≡ true = ground arith in
      let header = get site.http r.header (codes "Proxy-Authorization") in
      elim (Bool-cases (is_empty header)) [
        | inl e ↦ inl (rw (on, e) refl)
        | inr e ↦ elim (Option-cases (parse_basic_auth site.decode header)) [
          | inl k ↦ inl (rw (on, e, k) refl)
          | inr ((user, pass), k) ↦ elim (Bool-cases (valid site.digest creds user pass)) [
            | inr v ↦ inl (rw (on, e, k, v) refl)
            | inl v ↦ inr (valid-Authenticated creds header user pass k v, rw (on, e, k, v) refl)
          ]
        ]
      ]

  abbrev pub OnForward : (Request → Type 0) → Answer site → Type 0
  OnForward P (status n) = Unit
  OnForward P (tunnel route addr) = Unit
  OnForward P (forward route addr continues request) = P request

  -- A request in origin form that ends its connection and has no `Proxy-Authorization` in its header
  -- map.
  abbrev pub IsClean : Request → Type 0
  IsClean q =
      (q.url_host ≡ [])
      × (q.scheme ≡ [])
      × (q.close ≡ true)
      × (lookup (site.http.canonical (codes "Proxy-Authorization")) q.header ≡ none)

  -- `canonical` tells the two headers apart.
  abbrev pub TellsApart : Type 0
  TellsApart =
      same (site.http.canonical (codes "Connection"))
        (site.http.canonical (codes "Proxy-Authorization"))
      ≡ false

  forwarded-IsClean :
      TellsApart → (r : Request) (host : Bytes) → IsClean (write_forward_request site.http r host)
  unfolding write_forward_request
  forwarded-IsClean apart r host =
      let clean = write_forward_request-clean site.http r host in
      (
        refl,
        refl,
        refl,
        clean.1 (codes "Proxy-Authorization") (inr (inr (inr (inr (inl refl))))) apart,
      )

  handle_request-IsClean : TellsApart → (r : Request) → OnForward IsClean (handle_request site r)
  unfolding handle_request
  handle_request-IsClean apart r =
      elim (Result-cases (build_remote_addr site.addr r.host r.scheme)) [
        | inr (x, e) ↦ rw (e, handle_request) tt
        | inl ((host, remote), e) ↦ elim (Option-cases (site.get_route host)) [
          | inl k ↦ rw (e, k, handle_request) tt
          | inr (route, k) ↦ elim (Bool-cases site.hijacks) [
            | inl h ↦ rw (e, k, h, handle_request) (forwarded-IsClean apart r host)
            | inr h ↦ rw (e, k, h, handle_request) tt
          ]
        ]
      ]

  handle_connect-IsClean : (r : Request) → OnForward IsClean (handle_connect site r)
  unfolding handle_connect
  handle_connect-IsClean r = elim (Result-cases (site.addr.split r.host)) [
    | inr (x, e) ↦ rw (e, handle_connect) tt
    | inl ((host, port), e) ↦ elim (Option-cases (site.get_route host)) [
      | inl k ↦ rw (e, k, handle_connect) tt
      | inr (route, k) ↦ elim (Bool-cases site.hijacks) [
        | inr h ↦ rw (e, k, h, handle_connect) tt
        | inl h ↦ elim (Result-cases (build_remote_addr site.addr r.host r.scheme)) [
          | inr (x, m) ↦ rw (e, k, h, m, handle_connect) tt
          | inl ((a, remote), m) ↦ rw (e, k, h, m, handle_connect) tt
        ]
      ]
    ]
  ]

  handle-IsClean : TellsApart → (r : Request) → OnForward IsClean (handle site r)
  unfolding handle
  handle-IsClean apart r = elim (Bool-cases (is_empty r.url_host)) [
    | inl e ↦ rw (e, handle) tt
    | inr e ↦ elim (Bool-cases (same r.method (codes "CONNECT"))) [
      | inl k ↦ rw (e, k, handle) (handle_connect-IsClean r)
      | inr k ↦ rw (e, k, handle) (handle_request-IsClean apart r)
    ]
  ]

  -- Whatever the handler forwards, with credentials or without, is in origin form, ends its
  -- connection, and does not have the client's credentials for the proxy; the canonical keys of
  -- the headers `Connection` and `Proxy-Authorization` being two.
  pub handler-forwards :
      TellsApart → (creds : Credentials) (r : Request) → OnForward IsClean (handler site creds r)
  unfolding handler
  handler-forwards apart creds r = elim (Bool-cases (ltb 0 (length creds))) [
    | inr e ↦ rw (e, handler) (handle-IsClean apart r)
    | inl e ↦ elim (handler-guarded creds r (ground arith)) [
      | inl k ↦ subst (OnForward IsClean) (sym k) tt
      | inr (_, k) ↦ subst (OnForward IsClean) (sym k) (handle-IsClean apart r)
    ]
  ]
