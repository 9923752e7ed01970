-- ===== src/Socks/Auth/Exchange.antt =====
-- The exchange with a client that follows RFC 1929, and what any exchange that succeeds has shown.
use spaceship.Base.{
  lookup, same_iff, Option-cases, sym, ap, ==_iff, ℕ, ◌≢◌, inl, inr, Bool, true, false, [], ◌∷◌,
  ◌++◌, some, ◌≡◌, refl, ◌∙◌, arith, Bytes, length, ◌==◌, if◌then◌else◌, Result, ok, err,
  Bool-cases,
}
use spaceship.Socks.Errors.{
  Error, byte_at, user_auth_failed, no_supported_auth, unsupported_auth_version,
}
use spaceship.Socks.Auth.{
  AuthContext, Credentials, read_methods, offers, no_acceptable_auth, valid, verdict, check_pass,
  read_pass, read_user, choose_method, authenticate_user, authenticate, user_pass_auth,
  socks5_version, user_auth_version,
}
use spaceship.Socks.Wire.{
  Conn, M, ◌>>=◌, check, read_full, read_byte, write, read_full-append, bind-ok, bind-succeeds,
  read_full-reads, read_byte-reads, check-holds, write-input,
}

-- What a client sends to log in: its methods, then its name and password, each behind its length.
pub login : Bytes → Bytes → Bytes → Bytes → Bytes
login methods user pass rest =
    length methods ∷ (methods ++ (1 ∷ length user ∷ (user ++ (length pass ∷ (pass ++ rest)))))

module _ (digest : Bytes → Bytes) where
  verdict_reply :
      (b : Bool) (user rest out : Bytes)
      → verdict digest b user (record { input = rest; output = out; writable = true }) ≡ (
        record { input = rest; output = out ++ 1 ∷ (if b then 0 else 1) ∷ []; writable = true },
        (if b then ok (record { method = 2; username = some user }) else err user_auth_failed),
      )
  unfolding verdict write
  verdict_reply true user rest out = refl
  verdict_reply false user rest out = refl

  -- The connection of a client that still has `input` to send and was sent `output`.
  abbrev pub conn : Bytes → Bytes → Conn
  conn input output = record { input = input; output = output; writable = true }

  abbrev pub told : Bool → Bytes → Bytes → Bytes → Conn × Result Error AuthContext
  told b user rest out = (
    conn rest (out ++ 1 ∷ (if b then 0 else 1) ∷ []),
    (if b then ok (record { method = 2; username = some user }) else err user_auth_failed),
  )

  authenticate_user-login :
      (creds : Credentials) (user pass rest out : Bytes)
      → authenticate_user digest creds
          (conn (1 ∷ length user ∷ (user ++ (length pass ∷ (pass ++ rest)))) out)
        ≡ told (valid digest creds user pass) user rest (out ++ 5 ∷ 2 ∷ [])
  unfolding authenticate_user read_user read_pass check_pass write read_byte
  authenticate_user-login creds user pass rest out =
      let out' = out ++ 5 ∷ 2 ∷ [] in
      let c1 = conn (1 ∷ length user ∷ (user ++ (length pass ∷ (pass ++ rest)))) out' in
      let c2 = conn (user ++ (length pass ∷ (pass ++ rest))) out' in
      bind-ok (read_full 2) (read_user digest creds) c1 c2 (1 ∷ length user ∷ [])
        (read_full-append (1 ∷ length user ∷ []) (user ++ (length pass ∷ (pass ++ rest))) c1 refl)
      ∙ bind-ok (read_full (length user)) (read_pass digest creds) c2
          (conn (length pass ∷ (pass ++ rest)) out') user
          (read_full-append user (length pass ∷ (pass ++ rest)) c2 refl)
      ∙ bind-ok (read_full (length pass)) (check_pass digest creds user) (conn (pass ++ rest) out')
          (conn rest out') pass (read_full-append pass rest (conn (pass ++ rest) out') refl)
      ∙ verdict_reply (valid digest creds user pass) user rest out'

  -- Where credentials are set and the connection takes what is written, a client that offers the
  -- method and sends a name and a password is told the verdict on them: the server writes its
  -- choice of the method and the status of RFC 1929, reads no byte more, and accepts exactly if
  -- the credentials are valid.
  pub authenticate-login :
      (creds : Credentials) (methods user pass rest out : Bytes)
      → length creds ≢ 0
      → offers user_pass_auth methods ≡ true
      → authenticate digest creds (conn (login methods user pass rest) out)
        ≡ told (valid digest creds user pass) user rest (out ++ 5 ∷ 2 ∷ [])
  unfolding authenticate choose_method read_methods read_byte login
  authenticate-login creds methods user pass rest out n o =
      let later = 1 ∷ length user ∷ (user ++ (length pass ∷ (pass ++ rest))) in
      let some_creds : (length creds == 0) ≡ false = ground arith in
      bind-ok read_methods (choose_method digest creds) (conn (login methods user pass rest) out)
        (conn later out) methods (read_full-append methods later (conn (methods ++ later) out) refl)
      ∙ (rw (some_creds, o) (authenticate_user-login creds user pass rest out))

  verdict_sound :
      (b : Bool) (user : Bytes) (c : Conn) (ctx : AuthContext)
      → (verdict digest b user c).1 ≡ ok ctx
      → (b ≡ true) × (ctx ≡ record { method = 2; username = some user })
  unfolding verdict write
  verdict_sound true user c ctx h = (refl, ground arith)
  verdict_sound false user c ctx h = absurd (ground arith)

  -- The record of a login: a user's name, and a password that has the digest of the user's own.
  abbrev pub Known : Credentials → Bytes → Bytes → AuthContext → Type 0
  Known creds user pass ctx =
      (stored : Bytes) × (lookup user creds ≡ some stored)
      × (digest pass ≡ digest stored)
      × (ctx ≡ record { method = 2; username = some user })

  -- What a client has yet to send starts with a login under a name and a password that are known.
  abbrev pub Vouched : Credentials → Bytes → AuthContext → Type 0
  Vouched creds input ctx =
      (methods : Bytes) × (user : Bytes) × (pass : Bytes) × (rest : Bytes) × (input
        ≡ login methods user pass rest)
      × (offers user_pass_auth methods ≡ true)
      × Known creds user pass ctx

  valid-Known :
      (creds : Credentials) (user pass : Bytes) (ctx : AuthContext)
      → valid digest creds user pass ≡ true
      → ctx ≡ record { method = 2; username = some user }
      → Known creds user pass ctx
  unfolding valid
  valid-Known creds user pass ctx h e = elim (Option-cases (lookup user creds)) [
    | inl k ↦ absurd (ground arith)
    | inr (stored, k) ↦ (stored, k, (same_iff (digest pass) (digest stored)).0 (ground arith), e)
  ]

  read_pass_sound :
      (creds : Credentials) (user : Bytes) (c : Conn) (ctx : AuthContext)
      → (read_pass digest creds user c).1 ≡ ok ctx
      → (pass : Bytes) × (rest : Bytes) × (c.input ≡ length pass ∷ (pass ++ rest))
        × Known creds user pass ctx
  unfolding read_pass check_pass
  read_pass_sound creds user c ctx h =
      let (n, e1, h1) =
        bind-succeeds read_byte (λ n. read_full n >>= check_pass digest creds user) c h in
      let c1 = (read_byte c).0 in
      let (pass, e2, h2) = bind-succeeds (read_full n) (check_pass digest creds user) c1 h1 in
      let (good, e) = verdict_sound (valid digest creds user pass) user (read_full n c1).0 ctx h2 in
      let (front, size) = read_full-reads n c1 pass e2 in
      (
        pass,
        (read_full n c1).0.input,
        read_byte-reads c n (ap (λ p. p.1) e1) ∙ (λ i. sym size i ∷ front i),
        valid-Known creds user pass ctx good e,
      )

  read_user_sound :
      (creds : Credentials) (header : Bytes) (c : Conn) (ctx : AuthContext)
      → (read_user digest creds header c).1 ≡ ok ctx
      → (user : Bytes) × (pass : Bytes) × (rest : Bytes) × (byte_at header 0 ≡ 1)
        × (byte_at header 1 ≡ length user)
        × (c.input ≡ user ++ (length pass ∷ (pass ++ rest)))
        × Known creds user pass ctx
  unfolding read_user
  read_user_sound creds header c ctx h =
      let ask = check (byte_at header 0 == user_auth_version) unsupported_auth_version in
      let body : M AuthContext = read_full (byte_at header 1) >>= read_pass digest creds in
      let (u, e0, h1) = bind-succeeds ask (λ _. body) c h in
      let (version, same_conn) =
        check-holds (byte_at header 0 == user_auth_version) unsupported_auth_version c
          (ap (λ p. p.1) e0) in
      let c1 = (ask c).0 in
      let (user, e1, h2) =
        bind-succeeds (read_full (byte_at header 1)) (read_pass digest creds) c1 h1 in
      let (front, size) = read_full-reads (byte_at header 1) c1 user e1 in
      let (pass, rest, e2, known) =
        read_pass_sound creds user (read_full (byte_at header 1) c1).0 ctx h2 in
      (
        user,
        pass,
        rest,
        (==_iff (byte_at header 0) 1).0 version,
        sym size,
        ap (λ x. x.input) (sym same_conn) ∙ front ∙ ap (λ x. user ++ x) e2,
        known,
      )

  two_bytes :
      (header : Bytes) (a b : ℕ)
      → length header ≡ 2
      → byte_at header 0 ≡ a
      → byte_at header 1 ≡ b
      → header ≡ a ∷ b ∷ []
  two_bytes [] a b h x y = absurd (omega arith)
  two_bytes (p ∷ []) a b h x y = absurd (omega arith)
  two_bytes (p ∷ q ∷ []) a b h x y = λ i. x i ∷ y i ∷ []
  two_bytes (p ∷ q ∷ r ∷ header) a b h x y = absurd (omega arith)

  authenticate_user_sound :
      (creds : Credentials) (c : Conn) (ctx : AuthContext)
      → (authenticate_user digest creds c).1 ≡ ok ctx
      → (user : Bytes) × (pass : Bytes) × (rest : Bytes) × (c.input
          ≡ 1 ∷ length user ∷ (user ++ (length pass ∷ (pass ++ rest))))
        × Known creds user pass ctx
  unfolding authenticate_user
  authenticate_user_sound creds c ctx h =
      let body : M AuthContext = read_full 2 >>= read_user digest creds in
      let choice = socks5_version ∷ user_pass_auth ∷ [] in
      let (_, _, h1) = bind-succeeds (write choice) (λ _. body) c h in
      let c1 = (write choice c).0 in
      let (header, e1, h2) = bind-succeeds (read_full 2) (read_user digest creds) c1 h1 in
      let (front, size) = read_full-reads 2 c1 header e1 in
      let (user, pass, rest, version, len, e2, known) =
        read_user_sound creds header (read_full 2 c1).0 ctx h2 in
      let whole = two_bytes header 1 (length user) size version len in
      (user, pass, rest, sym (write-input choice c) ∙ front ∙ (λ i. whole i ++ e2 i), known)

  read_methods-reads :
      (c : Conn) (methods : Bytes)
      → read_methods c ≡ ((read_methods c).0, ok methods)
      → c.input ≡ length methods ∷ (methods ++ (read_methods c).0.input)
  unfolding read_methods
  read_methods-reads c methods h =
      let (num, e, _) = bind-succeeds read_byte (λ num. read_full num) c (ap (λ p. p.1) h) in
      let c1 = (read_byte c).0 in
      let same_run : read_methods c ≡ read_full num c1 =
        bind-ok read_byte (λ num. read_full num) c c1 num e in
      let (front, size) =
        read_full-reads num c1 methods (sym same_run ∙ h ∙ (λ i. ((same_run i).0, ok methods))) in
      read_byte-reads c num (ap (λ p. p.1) e)
      ∙ (λ i. sym size i ∷ front i)
      ∙ ap (λ p. length methods ∷ (methods ++ p.0.input)) (sym same_run)

  -- Where credentials are set, no client is accepted, whatever it sends and however the exchange is
  -- cut short, unless it sent a login under a name and a password that are known; the name is the one
  -- recorded.
  pub authenticate_sound :
      (creds : Credentials) (c : Conn) (ctx : AuthContext)
      → length creds ≢ 0
      → (authenticate digest creds c).1 ≡ ok ctx
      → Vouched creds c.input ctx
  unfolding authenticate choose_method no_acceptable_auth login
  authenticate_sound creds c ctx n h =
      let (methods, e1, chosen) = bind-succeeds read_methods (choose_method digest creds) c h in
      let front = read_methods-reads c methods e1 in
      let some_creds : (length creds == 0) ≡ false = ground arith in
      elim (Bool-cases (offers user_pass_auth methods)) [
        | inl offered ↦
            let (user, pass, rest, e3, known) =
              authenticate_user_sound creds (read_methods c).0 ctx
                (rw (some_creds, offered) at chosen) in
            (
              methods,
              user,
              pass,
              rest,
              front ∙ ap (λ x. length methods ∷ (methods ++ x)) e3,
              offered,
              known,
            )
        | inr other ↦
            let refused : err no_supported_auth ≡ ok ctx = rw (some_creds, other) at chosen in
            absurd (ground arith)
      ]
