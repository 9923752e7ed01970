-- ===== src/Socks/Errors.antt =====
-- The errors of internal/socks, and byte slices read by index.
use spaceship.Base.{
  ℕ, suc, ◌-◌, ◌+◌, ◌≤◌, ◌<◌, ◌&&◌, [], ◌∷◌, ◌++◌, Option, none, some, ◌≡◌, refl, arith, Bytes,
  length, take, drop, get_elem?, leb, if◌then◌else◌, Result, ok, err, zero, take-length-append,
  drop-length-append, length-append,
}

-- The sentinel errors of the package, those that it builds with `fmt.Errorf`, the errors of `io`
-- and `net` that it returns, and `panic` for a slice index out of range.
pub data Error : Type 0 where
  eof unexpected_eof err_closed : Error
  unsupported_version unsupported_command : Error
  unrecognized_addr_type malformed fqdn_too_long nil_address invalid_address : Error
  unsupported_auth_version user_auth_failed no_supported_auth illegal_request : Error
  association_limit nat_limit udp_disabled udp_unsupported : Error
  route_error dial_error listen_error write_error unusable_address : Error
  panic : Error

abbrev pub of_option : Option ℕ → Result Error ℕ
of_option (some x) = ok x
of_option none = err panic

-- `buf[i]`
unfoldable pub at : Bytes → ℕ → Result Error ℕ
at buf i = of_option (get_elem? buf i)

-- `buf[lo:hi]`, of which the code asks for `hi <= len(buf)`
unfoldable pub slice : Bytes → ℕ → ℕ → Result Error Bytes
slice buf lo hi =
    if leb lo hi && leb hi (length buf) then ok (take (hi - lo) (drop lo buf)) else err panic

abbrev pub byte_at : Bytes → ℕ → ℕ
byte_at [] i = 0
byte_at (x ∷ xs) zero = x
byte_at (x ∷ xs) (suc i) = byte_at xs i

pub at_within : (buf : Bytes) (i : ℕ) → i < length buf → at buf i ≡ ok (byte_at buf i)
unfolding at
at_within [] i h = elim h [ ]
at_within (x ∷ xs) zero h = refl
at_within (x ∷ xs) (suc i) h = at_within xs i (omega arith)

pub slice_within :
    (buf : Bytes) (lo hi : ℕ)
    → lo ≤ hi
    → hi ≤ length buf
    → slice buf lo hi ≡ ok (take (hi - lo) (drop lo buf))
unfolding slice
slice_within buf lo hi h k = ground arith

pub at-append : (xs : Bytes) (x : ℕ) (ys : Bytes) → at (xs ++ x ∷ ys) (length xs) ≡ ok x
unfolding at
at-append [] x ys = refl
at-append (_ ∷ xs) x ys = at-append xs x ys

pub at-append_next :
    (xs : Bytes) (x y : ℕ) (ys : Bytes) → at (xs ++ x ∷ y ∷ ys) (length xs + 1) ≡ ok y
unfolding at
at-append_next [] x y ys = refl
at-append_next (z ∷ xs) x y ys =
    let e : suc (length xs) + 1 ≡ suc (length xs + 1) = omega arith in
    rw e (at-append_next xs x y ys)

pub slice-append :
    (xs m ys : Bytes) → slice (xs ++ (m ++ ys)) (length xs) (length xs + length m) ≡ ok m
unfolding slice
slice-append xs m ys = ground (
  arith,
  length-append xs (m ++ ys),
  length-append m ys,
  drop-length-append xs (m ++ ys),
  take-length-append m ys,
)
