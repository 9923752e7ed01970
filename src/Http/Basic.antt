-- ===== src/Http/Basic.antt =====
-- `parseBasicAuth` with `EqualFold` of internal/http/lib.go, and `BuildRemoteAddr` of
-- internal/http/utils.go with `SplitHostPort` of internal/utils/net.go. Base64, `net.SplitHostPort`,
-- `net.JoinHostPort` and the conversion of numbers are parameters.
use spaceship.Base.{
  ℕ, Bool, true, false, not, ◌&&◌, ◌||◌, [], ◌∷◌, Option, none, some, Bytes, codes, same, length,
  take, drop, reverse, ltb, ◌==◌, if◌then◌else◌, Result, ok, err,
}
use spaceship.Hosts.{is_empty, lower}
use spaceship.Rpc.Server.Forward.{has_prefix}

-- The loop is behind the comparison of the lengths.
unfoldable pub equal_fold_loop : Bytes → Bytes → Bool
equal_fold_loop [] _ = true
equal_fold_loop (_ ∷ _) [] = true
equal_fold_loop (a ∷ s) (b ∷ t) = if lower a == lower b then equal_fold_loop s t else false

unfoldable pub equal_fold : Bytes → Bytes → Bool
equal_fold s t = if length s == length t then equal_fold_loop s t else false

-- `strings.Cut` at the first colon
unfoldable pub cut_colon : Bytes → Option (Bytes × Bytes)
cut_colon [] = none
cut_colon (c ∷ s) =
    let rest = cut_colon s in
    if c == b':' then some ([], s) else elim rest [ none ↦ none | some (a, b) ↦ some (c ∷ a, b) ]

abbrev pub basic_prefix : Bytes
basic_prefix = codes "Basic "

unfoldable pub parse_basic_auth : (Bytes → Option Bytes) → Bytes → Option (Bytes × Bytes)
parse_basic_auth decode auth =
    if ltb (length auth) (length basic_prefix)
      || not (equal_fold (take (length basic_prefix) auth) basic_prefix)
    then none
    else elim (decode (drop (length basic_prefix) auth)) [ none ↦ none | some cs ↦ cut_colon cs ]

pub data AddrError : Type 0 where
  missing_port invalid_port bad_address not_a_number unknown_scheme : AddrError

-- `split` is `net.SplitHostPort` with its error, `atoi` is `strconv.Atoi` with a negative number as
-- `none` inside, `join` is `net.JoinHostPort`, and `format` is `strconv.FormatUint`.
pub record AddrLib : Type 0 where
  pub split : Bytes → Result AddrError (Bytes × Bytes)
  pub atoi : Bytes → Option (Option ℕ)
  pub join : Bytes → Bytes → Bytes
  pub format : ℕ → Bytes

unfoldable pub port_of : Option (Option ℕ) → Result AddrError ℕ
port_of none = err not_a_number
port_of (some none) = err invalid_port
port_of (some (some port)) = if ltb 65535 port then err invalid_port else ok port

unfoldable pub split_host_port : AddrLib → Bytes → Result AddrError (Bytes × ℕ)
split_host_port lib s = elim (lib.split s) [
  | err e ↦ err e
  | ok (host, sport) ↦ elim (port_of (lib.atoi sport)) [ err e ↦ err e | ok port ↦ ok (host, port) ]
]

unfoldable pub has_suffix : Bytes → Bytes → Bool
has_suffix suffix s = has_prefix (reverse suffix) (reverse s)

-- The brackets of an IPv6 literal are taken off.
unfoldable pub without_brackets : Bytes → Bytes
without_brackets host =
    if has_prefix (codes "[") host && has_suffix (codes "]") host
    then reverse (drop 1 (reverse (drop 1 host)))
    else host

-- `ProtocolPortMap`
unfoldable pub protocol_port : Bytes → Option ℕ
protocol_port scheme =
    if same scheme (codes "http")
    then some 80
    else if same scheme (codes "https")
    then some 443
    else none

unfoldable pub default_port : Bytes → Result AddrError ℕ
default_port scheme =
    if is_empty scheme
    then ok 80
    else elim (protocol_port scheme) [ none ↦ err unknown_scheme | some port ↦ ok port ]

abbrev pub is_missing_port : AddrError → Bool
is_missing_port missing_port = true
is_missing_port _ = false

-- The host, and the address to dial.
unfoldable pub build_remote_addr : AddrLib → Bytes → Bytes → Result AddrError (Bytes × Bytes)
build_remote_addr lib host scheme = elim (split_host_port lib host) [
  | ok (h, port) ↦ ok (h, lib.join h (lib.format port))
  | err e ↦
      if not (is_missing_port e)
      then err e
      else let h = without_brackets host in
        elim (default_port scheme) [
          | err x ↦ err x
          | ok port ↦ ok (h, lib.join h (lib.format port))
        ]
]
