-- ===== src/Router/Route.antt =====
-- `Route` of internal/router/route.go: `GenerateCache` and `Match`. Regular expressions, CIDR
-- prefixes, addresses and the route files come from Go's library and the file system: they are the
-- parameters of `Lib`.
pub mod Domain
pub mod Build
use spaceship.Base.{
  ℕ, zero, suc, ◌+◌, Bool, true, false, not, ◌&&◌, ◌||◌, List, [], ◌∷◌, ◌++◌, Option, none, some,
  Bytes, length, ◌==◌, if◌then◌else◌, Result, ok, err, ◌>>=◌,
}
use spaceship.Hosts.{is_empty, normalize_host, trim_space}
use spaceship.Router.Egress.{
  Egress, Error, cidr_parse_failed, regex_parse_failed, unknown_route_type, ext_failed,
}
use spaceship.Router.Table.{member}

-- `regexp.Compile` and `MatchString`, `netip.ParsePrefix`, `netip.ParseAddr` and `Contains`, and
-- the lines of a file, or none where it cannot be read.
pub record Lib : Type 1 where
  pub Regexp : Type 0
  pub Prefix : Type 0
  pub Addr : Type 0
  pub compile : Bytes → Option Regexp
  pub match_string : Regexp → Bytes → Bool
  pub parse_prefix : Bytes → Option Prefix
  pub parse_addr : Bytes → Option Addr
  pub contains : Prefix → Addr → Bool
  pub read_lines : Bytes → Option (List Bytes)

-- `Type` of internal/router/type.go; `other` is any further string of the configuration.
pub data MatchType : Type 0 where
  exact domain cidr regex default : MatchType
  other : Bytes → MatchType

-- A nil map is `none`.
pub record MatchCache (lib : Lib) : Type 0 where
  pub exact_map : Option (List Bytes)
  pub domain_map : Option (List Bytes)
  pub regexp_list : List lib.Regexp
  pub cidr_list : List lib.Prefix

pub record Route (lib : Lib) : Type 0 where
  pub sources : List Bytes
  pub ext : Bytes
  pub destination : Egress
  pub match_type : MatchType
  pub cache : MatchCache lib

-- The hosts of the sources, as the keys of a map; the empty ones are skipped.
unfoldable pub hosts_of : List Bytes → List Bytes
hosts_of [] = []
hosts_of (src ∷ srcs) =
    let rest = hosts_of srcs in
    let host = normalize_host src in if is_empty host then rest else host ∷ rest

-- The lines of a route file, less the empty ones and the comments.
unfoldable pub is_comment : Bytes → Bool
is_comment [] = true
is_comment (c ∷ s) = c == b'#'

unfoldable pub file_sources : List Bytes → List Bytes
file_sources [] = []
file_sources (l ∷ ls) =
    let rest = file_sources ls in
    let line = trim_space l in if is_comment line then rest else line ∷ rest

-- `strings.IndexByte(candidate, '.')` and the slice behind it
unfoldable pub after_dot : Bytes → Option Bytes
after_dot [] = none
after_dot (c ∷ s) = if c == b'.' then some s else after_dot s

-- The loop over the parent domains. Each round drops at least the dot, so the host's length and
-- one is fuel enough.
unfoldable pub domain_loop : ℕ → List Bytes → Bytes → Bool
domain_loop zero set candidate = false
domain_loop (suc fuel) set candidate =
    if member candidate set
    then true
    else elim (after_dot candidate) [ none ↦ false | some parent ↦ domain_loop fuel set parent ]

module _ (lib : Lib) where
  open lib use {
    Regexp, Prefix, Addr, compile, match_string, parse_prefix, parse_addr, contains, read_lines,
  }

  abbrev pub no_cache : MatchCache lib
  no_cache = record { exact_map = none; domain_map = none; regexp_list = []; cidr_list = [] }

  unfoldable pub parse_prefixes : List Bytes → Result Error (List Prefix)
  parse_prefixes [] = ok []
  parse_prefixes (src ∷ srcs) =
      let rest = parse_prefixes srcs in
      let cidr = trim_space src in
      if is_empty cidr then rest else (elim (parse_prefix cidr) [
        | none ↦ err cidr_parse_failed
        | some p ↦ do ps ← rest; ok (p ∷ ps)
      ])

  unfoldable pub compile_all : List Bytes → Result Error (List Regexp)
  compile_all [] = ok []
  compile_all (src ∷ srcs) =
      let rest = compile_all srcs in
      if is_empty (trim_space src) then rest else (elim (compile src) [
        | none ↦ err regex_parse_failed
        | some p ↦ do ps ← rest; ok (p ∷ ps)
      ])

  unfoldable pub all_sources : Route lib → Result Error (List Bytes)
  all_sources r = if is_empty r.ext then ok r.sources else (elim (read_lines r.ext) [
    | none ↦ err ext_failed
    | some lines ↦ ok (r.sources ++ file_sources lines)
  ])

  -- The `switch` of `GenerateCache`, on caches that have been reset.
  unfoldable pub cache_of : MatchType → List Bytes → Result Error (MatchCache lib)
  cache_of MatchType.default srcs = ok no_cache
  cache_of MatchType.exact srcs = ok (record no_cache { exact_map = some (hosts_of srcs) })
  cache_of MatchType.domain srcs = ok (record no_cache { domain_map = some (hosts_of srcs) })
  cache_of MatchType.cidr srcs = do
    ps ← parse_prefixes srcs
    ok (record no_cache { cidr_list = ps })
  cache_of MatchType.regex srcs = do
    rs ← compile_all srcs
    ok (record no_cache { regexp_list = rs })
  cache_of (MatchType.other name) srcs = err unknown_route_type

  -- A route whose caches fail to build is dropped by every caller, so an error has no route.
  unfoldable pub generate_cache : Route lib → Result Error (Route lib)
  generate_cache r = do
    srcs ← all_sources r
    cache ← cache_of r.match_type srcs
    ok (record r { cache = cache })

  unfoldable pub member_map : Bytes → Option (List Bytes) → Bool
  member_map k none = false
  member_map k (some set) = member k set

  unfoldable pub any_regexp : List Regexp → Bytes → Bool
  any_regexp [] dst = false
  any_regexp (rx ∷ rxs) dst = match_string rx dst || any_regexp rxs dst

  unfoldable pub any_prefix : List Prefix → Addr → Bool
  any_prefix [] addr = false
  any_prefix (p ∷ ps) addr = contains p addr || any_prefix ps addr

  unfoldable pub is_addr : Bytes → Bool
  is_addr s = elim (parse_addr s) [ none ↦ false | some _ ↦ true ]

  unfoldable pub match_domain : Option (List Bytes) → Bytes → Bool
  match_domain map dst =
      let host = normalize_host dst in
      if is_empty host
      then false
      else if is_addr host
      then false
      else (elim map [ none ↦ false | some set ↦ domain_loop (suc (length host)) set host ])

  unfoldable pub match_on : MatchType → MatchCache lib → Bytes → Bool
  match_on MatchType.default c dst = true
  match_on MatchType.exact c dst = member_map (normalize_host dst) c.exact_map
  match_on MatchType.regex c dst = any_regexp c.regexp_list dst
  match_on MatchType.domain c dst = match_domain c.domain_map dst
  match_on MatchType.cidr c dst = elim (parse_addr dst) [
    | none ↦ false
    | some addr ↦ any_prefix c.cidr_list addr
  ]
  match_on (MatchType.other name) c dst = false

  unfoldable pub route_match : Route lib → Bytes → Bool
  route_match r dst = match_on r.match_type r.cache dst
