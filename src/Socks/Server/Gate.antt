-- ===== src/Socks/Server/Gate.antt =====
-- No request is handled before the client has shown valid credentials, and one that has is.
use spaceship.Base.{
  sym, ◌∙◌, ==_iff, ◌∷◌, ◌≢◌, Bool, ◌≡◌, refl, Bytes, length, ◌==◌, Result, ok, err,
}
use spaceship.Socks.Auth.Exchange.{Vouched, authenticate_sound}
use spaceship.Socks.Auth.{AuthContext, Credentials, authenticate, socks5_version}
use spaceship.Socks.Errors.{Error, illegal_request, unsupported_version}
use spaceship.Socks.Request.{Request}
use spaceship.Socks.Server.{Handler, read_request, serve_request, serve_version, serve_conn}
use spaceship.Socks.Wire.{Conn, M, ◌>>=◌, ◌>>◌, check, read_byte, read_byte-reads, check-holds}

bind_cong :
    {A B : Type 0} (m : M A) (f g : A → M B) (c : Conn)
    → ((a : A) → (m c).1 ≡ ok a → f a (m c).0 ≡ g a (m c).0)
    → (m >>= f) c ≡ (m >>= g) c
bind_cong {A} {B} m f g c h = split (m c) h
  where
    next : (A → M B) → Conn × Result Error A → Conn × Result Error B
    next k p = elim p.1 [ ok x ↦ k x p.0 | err e ↦ (p.0, err e) ]

    split :
        (p : Conn × Result Error A)
        → ((a : A) → p.1 ≡ ok a → f a p.0 ≡ g a p.0)
        → next f p ≡ next g p
    split (c', ok x) h = h x refl
    split (c', err e) h = refl

module _ (digest : Bytes → Bytes) (creds : Credentials) (remote_ok : Bool) where
  -- Take two handlers that agree for every name recorded from a login that stands in the client's own
  -- input: the input begins with the version and a list of methods with that of a user's name and
  -- password, and goes on with a name that has credentials and a password with the digest of the one
  -- that is stored under it. They make the same server: where credentials are set, the handler is
  -- called for no other client, and is told the name that the client has sent.
  pub serve_conn-gate :
      (handle handle' : Handler) (c : Conn)
      → length creds ≢ 0
      → ((ctx : AuthContext) (req : Request) (later : Conn) (input : Bytes)
          → c.input ≡ socks5_version ∷ input
          → Vouched digest creds input ctx
          → handle ctx req later ≡ handle' ctx req later)
      → serve_conn digest creds remote_ok handle c ≡ serve_conn digest creds remote_ok handle' c
  unfolding serve_conn serve_version serve_request
  serve_conn-gate handle handle' c n agree =
      bind_cong read_byte (serve_version digest creds remote_ok handle)
        (serve_version digest creds remote_ok handle') c
        (λ version got.
          let c1 = (read_byte c).0 in
          let ask = check (version == socks5_version) unsupported_version in
          let old : M (Unit {0}) =
            authenticate digest creds >>= serve_request digest creds remote_ok handle in
          let new : M (Unit {0}) =
            authenticate digest creds >>= serve_request digest creds remote_ok handle' in
          let c2 = (ask c1).0 in
          bind_cong ask (λ _. old) (λ _. new) c1
            (λ _ asked.
              let (five, still) =
                check-holds (version == socks5_version) unsupported_version c1 asked in
              let front : c.input ≡ socks5_version ∷ c2.input =
                read_byte-reads c version got
                ∙ (λ i. (==_iff version socks5_version).0 five i ∷ (sym still i).input) in
              bind_cong (authenticate digest creds) (serve_request digest creds remote_ok handle)
                (serve_request digest creds remote_ok handle') c2
                (λ ctx shown.
                  let c3 = (authenticate digest creds c2).0 in
                  bind_cong read_request (λ req. check remote_ok illegal_request >> handle ctx req)
                    (λ req. check remote_ok illegal_request >> handle' ctx req) c3
                    (λ req _.
                      let c4 = (read_request c3).0 in
                      bind_cong (check remote_ok illegal_request) (λ _. handle ctx req)
                        (λ _. handle' ctx req) c4
                        (λ _ _.
                          agree ctx req (check remote_ok illegal_request c4).0 c2.input front
                            (authenticate_sound digest creds c2 ctx n shown))))))
