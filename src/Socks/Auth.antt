-- ===== src/Socks/Auth.antt =====
-- The authentication of internal/socks/auth.go, with the credentials of pkg/auth/credentials.go.
-- SHA-256 is the parameter `digest`; a constant-time comparison is a comparison.
pub mod Exchange
use spaceship.Base.{
  ℕ, Bool, true, false, ◌&&◌, ◌||◌, List, [], ◌∷◌, Option, none, some, Bytes, codes, same, lookup,
  length, ◌==◌, if◌then◌else◌, Result, ok, err,
}
use spaceship.Socks.Errors.{
  Error, byte_at, unsupported_auth_version, user_auth_failed, no_supported_auth,
}
use spaceship.Socks.Wire.{Conn, M, ◌>>=◌, ◌>>◌, return, throw, check, read_full, read_byte, write}

abbrev pub socks5_version : ℕ
socks5_version = 5

abbrev pub no_auth : ℕ
no_auth = 0

abbrev pub user_pass_auth : ℕ
user_pass_auth = 2

abbrev pub no_acceptable : ℕ
no_acceptable = 255

abbrev pub user_auth_version : ℕ
user_auth_version = 1

abbrev pub Credentials : Type 0
Credentials = List (Bytes × Bytes)

-- `AuthContext`; the payload holds the user's name.
pub record AuthContext : Type 0 where
  pub method : ℕ
  pub username : Option Bytes

unfoldable pub read_methods : M Bytes
read_methods = do num_methods ← read_byte; read_full num_methods

unfoldable pub offers : ℕ → Bytes → Bool
offers method [] = false
offers method (m ∷ ms) = m == method || offers method ms

unfoldable pub authenticate_none : M AuthContext
authenticate_none = do
  write (socks5_version ∷ no_auth ∷ [])
  return (record { method = no_auth; username = none })

unfoldable pub no_acceptable_auth : M AuthContext
no_acceptable_auth c = (((write (socks5_version ∷ no_acceptable ∷ [])) c).0, err no_supported_auth)

module _ (digest : Bytes → Bytes) where
  abbrev pub invalid_credential_digest : Bytes
  invalid_credential_digest = digest (codes "spaceship-invalid-credential")

  -- `StaticCredentials.Valid`
  unfoldable pub valid : Credentials → Bytes → Bytes → Bool
  valid creds user password = elim (lookup user creds) [
    | none ↦ false && same (digest password) invalid_credential_digest
    | some pass ↦ true && same (digest password) (digest pass)
  ]

  unfoldable pub verdict : Bool → Bytes → M AuthContext
  verdict true user = do
    write (user_auth_version ∷ 0 ∷ [])
    return (record { method = user_pass_auth; username = some user })
  verdict false user = do write (user_auth_version ∷ 1 ∷ []); throw user_auth_failed

  unfoldable pub check_pass : Credentials → Bytes → Bytes → M AuthContext
  check_pass creds user pass = verdict (valid creds user pass) user

  unfoldable pub read_pass : Credentials → Bytes → M AuthContext
  read_pass creds user = do pass_len ← read_byte; read_full pass_len >>= check_pass creds user

  unfoldable pub read_user : Credentials → Bytes → M AuthContext
  read_user creds header = do
    check (byte_at header 0 == user_auth_version) unsupported_auth_version
    read_full (byte_at header 1) >>= read_pass creds

  unfoldable pub authenticate_user : Credentials → M AuthContext
  authenticate_user creds = do
    write (socks5_version ∷ user_pass_auth ∷ [])
    read_full 2 >>= read_user creds

  unfoldable pub choose_method : Credentials → Bytes → M AuthContext
  choose_method creds methods =
      if length creds == 0
      then authenticate_none
      else if offers user_pass_auth methods
      then authenticate_user creds
      else no_acceptable_auth

  unfoldable pub authenticate : Credentials → M AuthContext
  authenticate creds = read_methods >>= choose_method creds
