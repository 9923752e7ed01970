-- ===== src/Launching/Guarded.antt =====
-- What a client with `basic_auth` starts asks for credentials.
use spaceship.Base.{
  ℕ, ◌<◌, ◌==◌, ==_iff, Bool, Bool-cases, Option-cases, Result-cases, List, [], ◌∷◌, ◌++◌, Option,
  none, some, Bytes, codes, same, same_iff, lookup, insert, lookup-insert, length, ◌≡◌, ◌⊎◌, inl,
  inr, refl, sym, ap, ◌∙◌, subst, arith, All, All-append, Result,
}
use spaceship.Hosts.{is_empty}
use spaceship.Http.Basic.{cut_colon}
use spaceship.Http.Handlers.Guarded.{Authenticated, handler-guarded}
use spaceship.Http.Handlers.{Site, status, handle, handler}
use spaceship.Http.Headers.{Request, get}
use spaceship.Launching.{
  Launch, Service, socks_service, http_service, dns_service, rpc_service, add_credentials,
  parse_credentials, if_given, unix_address, services_of, start_services, launch_client, Ended,
}
use spaceship.Rpc.Client.Setup.{Vars, Credential, SetupError, init_client}
use spaceship.Socks.Auth.{Credentials}

-- An entry of the configuration that gives a user a password.
abbrev pub Gives : Bytes → Bytes → List Bytes → Type 0
Gives user password [] = ⊥
Gives user password (s ∷ ss) = (s ≡ user ++ (codes ":" ++ password)) ⊎ Gives user password ss

cut_colon_lem :
    (s user password : Bytes)
    → cut_colon s ≡ some (user, password)
    → s ≡ user ++ (codes ":" ++ password)
unfolding cut_colon
cut_colon_lem [] user password h = cc
cut_colon_lem (c ∷ s) user password h = elim (Bool-cases (c == b':')) [
  | inl e ↦
      let found : cut_colon (c ∷ s) ≡ some ([], s) = rw (e, cut_colon) refl in
      let user_nil : [] ≡ user = cc in
      let rest : s ≡ password = cc in
      let colon : c ≡ b':' = (==_iff c b':').0 e in
      ap (λ x. x ∷ s) colon
      ∙ ap (λ x. b':' ∷ x) rest
      ∙ ap (λ x. x ++ (codes ":" ++ password)) user_nil
  | inr e ↦ elim (Option-cases (cut_colon s)) [
    | inl k ↦ absurd (let lost : cut_colon (c ∷ s) ≡ none = rw (e, k, cut_colon) refl in cc)
    | inr ((a, b), k) ↦
        let found : cut_colon (c ∷ s) ≡ some (c ∷ a, b) = rw (e, k, cut_colon) refl in
        let longer : c ∷ a ≡ user = cc in
        let rest : b ≡ password = cc in
        ap (λ x. c ∷ x) (cut_colon_lem s a b k)
        ∙ ap (λ x. (c ∷ a) ++ (codes ":" ++ x)) rest
        ∙ ap (λ x. x ++ (codes ":" ++ password)) longer
  ]
]

-- The credentials that a service asks for.
abbrev pub Asks : (Credentials → Type 0) → Service → Type 0
Asks P (socks_service network addr creds) = P creds
Asks P (http_service addr creds) = P creds
Asks P (dns_service addr block) = Unit {0}
Asks P (rpc_service addr) = Unit {0}

-- Every password of a map is one that the entries give.
abbrev From : List Bytes → Credentials → Type 0
From entries creds =
    (user password : Bytes) → lookup user creds ≡ some password → Gives user password entries

insert-From :
    (entries : List Bytes) (creds : Credentials) (user password : Bytes)
    → Gives user password entries
    → From entries creds
    → From entries (insert user password creds)
insert-From entries creds user password given from u p h = elim (Bool-cases (same user u)) [
  | inl e ↦
      let k : some password ≡ some p = sym (lookup-insert user u password creds ∙ rw e refl) ∙ h in
      let same_user = (same_iff user u).0 e in
      subst (λ x. Gives u x entries) (let q : password ≡ p = cc in q)
        (subst (λ x. Gives x password entries) same_user given)
  | inr e ↦ from u p (sym (lookup-insert user u password creds ∙ rw e refl) ∙ h)
]

some_credentials :
    (user password : Bytes) (creds : Credentials) → 0 < length (insert user password creds)
unfolding insert
some_credentials user password [] = omega arith
some_credentials user password ((j, w) ∷ m) = elim (Bool-cases (same j user)) [
  | inl e ↦ rw (e, insert) (omega arith)
  | inr e ↦ rw (e, insert) (omega arith)
]

add_credentials-From :
    (entries : List Bytes) (creds out : Credentials) (ss : List Bytes)
    → ((user password : Bytes) → Gives user password ss → Gives user password entries)
    → From entries creds
    → add_credentials creds ss ≡ some out
    → From entries out
unfolding add_credentials
add_credentials-From entries creds out [] sub from h =
    subst (From entries) (let e : creds ≡ out = cc in e) from
add_credentials-From entries creds out (s ∷ ss) sub from h = elim (Option-cases (cut_colon s)) [
  | inl e ↦
      absurd (let lost : add_credentials creds (s ∷ ss) ≡ none = rw (e, add_credentials) refl in cc)
  | inr ((user, password), e) ↦
      let goes : add_credentials creds (s ∷ ss) ≡ add_credentials (insert user password creds) ss =
        rw (e, add_credentials) refl in
      add_credentials-From entries (insert user password creds) out ss (λ u p g. sub u p (inr g))
        (insert-From entries creds user password
          (sub user password (inl (cut_colon_lem s user password e))) from)
        (sym goes ∙ h)
]

add_credentials-some :
    (creds out : Credentials) (ss : List Bytes)
    → 0 < length creds
    → add_credentials creds ss ≡ some out
    → 0 < length out
unfolding add_credentials
add_credentials-some creds out [] h k = subst (λ x. 0 < length x) (let e : creds ≡ out = cc in e) h
add_credentials-some creds out (s ∷ ss) h k = elim (Option-cases (cut_colon s)) [
  | inl e ↦
      absurd (let lost : add_credentials creds (s ∷ ss) ≡ none = rw (e, add_credentials) refl in cc)
  | inr ((user, password), e) ↦
      let goes : add_credentials creds (s ∷ ss) ≡ add_credentials (insert user password creds) ss =
        rw (e, add_credentials) refl in
      add_credentials-some (insert user password creds) out ss
        (some_credentials user password creds) (sym goes ∙ k)
]

-- A map that a configuration with entries gives: there are users, with passwords of the entries.
abbrev pub Configured : List Bytes → Credentials → Type 0
Configured entries creds = (0 < length creds) × From entries creds

parse_credentials-Configured :
    (s : Bytes) (ss : List Bytes) (creds : Credentials)
    → parse_credentials (s ∷ ss) ≡ some creds
    → Configured (s ∷ ss) creds
unfolding parse_credentials add_credentials lookup
parse_credentials-Configured s ss creds h = (
  elim (Option-cases (cut_colon s)) [
    | inl e ↦
        absurd (let lost : parse_credentials (s ∷ ss) ≡ none = rw (e, add_credentials) refl in cc)
    | inr ((user, password), e) ↦
        let goes : parse_credentials (s ∷ ss) ≡ add_credentials (insert user password []) ss =
          rw (e, add_credentials) refl in
        add_credentials-some (insert user password []) creds ss (some_credentials user password [])
          (sym goes ∙ h)
  ],
  add_credentials-From (s ∷ ss) [] creds (s ∷ ss) (λ u p g. g) (λ u p k. absurd (cc)) h,
)

if_given-Asks :
    (P : Credentials → Type 0) (addr : Bytes) (s : Service)
    → Asks P s
    → All (Asks P) (if_given addr s)
if_given-Asks P addr s h = elim (Bool-cases (is_empty addr)) [
  | inl e ↦ rw (e, if_given) tt
  | inr e ↦ rw (e, if_given) (h, tt)
]

services_of-Asks :
    (l : Launch) (P : Credentials → Type 0) (creds : Credentials)
    → P creds
    → All (Asks P) (services_of l creds)
unfolding services_of
services_of-Asks l P creds h =
    All-append (Asks P) _ _
      (if_given-Asks P l.listen_socks (socks_service (codes "tcp") l.listen_socks creds) h)
      (All-append (Asks P) _ _
        (if_given-Asks P l.listen_socks_unix
          (socks_service (codes "unix") (unix_address l.listen_socks_unix) creds) h)
        (All-append (Asks P) _ _
          (if_given-Asks P l.listen_http (http_service l.listen_http creds) h)
          (if_given-Asks P l.listen_dns (dns_service l.listen_dns l.block_ipv6_dns) tt)))

start_services-Asks :
    (l : Launch) (P : Credentials → Type 0) (o : Option Credentials) (ended : Ended)
    → ((creds : Credentials) → o ≡ some creds → P creds)
    → All (Asks P) (start_services l o ended).0
unfolding start_services
start_services-Asks l P none ended h = tt
start_services-Asks l P (some creds) ended h = services_of-Asks l P creds (h creds refl)

launch_client-Asks :
    (parses : Bytes → Bool) (l : Launch) (v : Vars) (credential : Result SetupError Credential)
    (dials : ℕ → Option ℕ) (ended : Ended) (P : Credentials → Type 0)
    → ((creds : Credentials) → parse_credentials l.basic_auth ≡ some creds → P creds)
    → All (Asks P) (launch_client parses l v credential dials ended).2.0
unfolding launch_client
launch_client-Asks parses l v credential dials ended P h = elim (Bool-cases (parses l.uuid)) [
  | inr e ↦ rw (e, launch_client) tt
  | inl e ↦ elim (Result-cases (init_client v credential l.mux dials).1) [
    | inr (x, k) ↦ rw (e, k, launch_client) tt
    | inl (u, k) ↦
        rw (e, k, launch_client) (start_services-Asks l P (parse_credentials l.basic_auth) ended h)
  ]
]

module _ (site : Site) where
  -- A request to the HTTP front end is refused, or it has a user's name and a password with the digest
  -- of one that the configuration gives this user, and is handled.
  abbrev pub Admits : List Bytes → Credentials → Type 0
  Admits entries creds =
      (r : Request)
      → (handler site creds r ≡ status 407)
        ⊎ ((a : Authenticated site creds (get site.http r.header (codes "Proxy-Authorization")))
            × Gives a.user a.stored entries
            × (handler site creds r ≡ handle site r))

  Configured-Admits :
      (entries : List Bytes) (creds : Credentials) → Configured entries creds → Admits entries creds
  Configured-Admits entries creds (some_users, from) r =
      elim (handler-guarded site creds r some_users) [
        | inl e ↦ inl e
        | inr (a, e) ↦ inr (a, from a.user a.stored a.known, e)
      ]

  -- A client that is launched with entries of `basic_auth` starts no SOCKS and no HTTP service without
  -- credentials, whatever it starts and however it ends: each has users, every password of which is
  -- one that an entry gives that user; and the HTTP handler with them refuses a request with 407, or
  -- handles it, and then it has the name of a user and a password with the digest of such a one.
  pub launch_client-guarded :
      (parses : Bytes → Bool) (l : Launch) (v : Vars) (credential : Result SetupError Credential)
      (dials : ℕ → Option ℕ) (ended : Ended) (entry : Bytes) (entries : List Bytes)
      → l.basic_auth ≡ entry ∷ entries
      → All
          (Asks (λ creds. Configured (entry ∷ entries) creds × Admits (entry ∷ entries) creds))
          (launch_client parses l v credential dials ended).2.0
  launch_client-guarded parses l v credential dials ended entry entries e =
      launch_client-Asks parses l v credential dials ended _ λ creds h.
        let given : parse_credentials (entry ∷ entries) ≡ some creds =
          sym (ap parse_credentials e) ∙ h in
        let c = parse_credentials-Configured entry entries creds given in
        (c, Configured-Admits (entry ∷ entries) creds c)
