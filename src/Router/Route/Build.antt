-- ===== src/Router/Route/Build.antt =====
-- What a domain route matches, from its sources on, and that building the caches again is no change.
use spaceship.Base.{
  suc, ◌⊎◌, ◌↔◌, inl, inr, true, false, List, [], ◌∷◌, some, ◌≡◌, refl, sym, ap, ◌∙◌, subst, arith,
  Bytes, same, same_iff, length, Bool-cases, ok, >>=-eq-ok,
}
use spaceship.Hosts.{is_empty, normalize_host}
use spaceship.Router.Route.Domain.{IsWithin, domain_loop_sound, domain_loop_complete}
use spaceship.Router.Route.{
  Lib, Route, MatchCache, MatchType, hosts_of, all_sources, cache_of, generate_cache, is_addr,
  match_domain, match_on, route_match, no_cache,
}
use spaceship.Router.Table.{member}

abbrev pub In : Bytes → List Bytes → Type 0
In x [] = ⊥
In x (y ∷ ys) = (x ≡ y) ⊎ In x ys

-- The normalized, non-empty form of some source.
abbrev pub IsRule : Bytes → List Bytes → Type 0
IsRule rule srcs =
    (src : Bytes) × In src srcs × (normalize_host src ≡ rule) × (is_empty rule ≡ false)

IsRule-cons : (rule src : Bytes) (srcs : List Bytes) → IsRule rule srcs → IsRule rule (src ∷ srcs)
IsRule-cons rule src srcs (s, i, e, n) = (s, inr i, e, n)

member-hosts_of :
    (rule : Bytes) (srcs : List Bytes) → member rule (hosts_of srcs) ≡ true → IsRule rule srcs
unfolding member hosts_of
member-hosts_of rule [] h = absurd (ground arith)
member-hosts_of rule (src ∷ srcs) h = elim (Bool-cases (is_empty (normalize_host src))) [
  | inl skipped ↦ IsRule-cons rule src srcs (member-hosts_of rule srcs (ground arith))
  | inr kept ↦ elim (Bool-cases (same (normalize_host src) rule)) [
    | inl here ↦
        let e = (same_iff (normalize_host src) rule).0 here in
        (src, inl refl, e, subst (λ r. is_empty r ≡ false) e kept)
    | inr later ↦ IsRule-cons rule src srcs (member-hosts_of rule srcs (ground arith))
  ]
]

hosts_of-member :
    (rule src : Bytes) (srcs : List Bytes)
    → In src srcs
    → normalize_host src ≡ rule
    → is_empty rule ≡ false
    → member rule (hosts_of srcs) ≡ true
unfolding member hosts_of
hosts_of-member rule src [] i e n = absurd i
hosts_of-member rule src (s ∷ srcs) (inl i) e n =
    let e' : normalize_host s ≡ rule = ap normalize_host (sym i) ∙ e in
    let kept : is_empty (normalize_host s) ≡ false = subst (λ r. is_empty r ≡ false) (sym e') n in
    rw kept (ground (arith, same_iff (normalize_host s) rule))
hosts_of-member rule src (s ∷ srcs) (inr i) e n =
    ground (arith, hosts_of-member rule src srcs i e n)

module _ (lib : Lib) where
  -- A destination that a domain route built from `srcs` should match.
  abbrev pub ShouldMatch : List Bytes → Bytes → Type 0
  ShouldMatch srcs host =
      (is_empty host ≡ false)
      × (is_addr lib host ≡ false)
      × ((rule : Bytes) × IsRule rule srcs × IsWithin rule host)

  match_domain_sound :
      (srcs : List Bytes) (dst : Bytes)
      → match_domain lib (some (hosts_of srcs)) dst ≡ true
      → ShouldMatch srcs (normalize_host dst)
  unfolding match_domain
  match_domain_sound srcs dst h =
      let host = normalize_host dst in
      let named : is_empty host ≡ false = ground arith in
      let no_ip : is_addr lib host ≡ false = ground arith in
      let (rule, listed, within) =
        domain_loop_sound (suc (length host)) (hosts_of srcs) host (rw (named, no_ip) at h) in
      (named, no_ip, (rule, member-hosts_of rule srcs listed, within))

  match_domain_complete :
      (srcs : List Bytes) (dst : Bytes)
      → ShouldMatch srcs (normalize_host dst)
      → match_domain lib (some (hosts_of srcs)) dst ≡ true
  unfolding match_domain
  match_domain_complete srcs dst (named, no_ip, (rule, (src, i, e, n), within)) =
      rw (named, no_ip)
        (domain_loop_complete (suc (length (normalize_host dst))) (hosts_of srcs)
          (normalize_host dst) rule (omega arith) (hosts_of-member rule src srcs i e n) within)

  -- A domain route whose caches were built from its sources `srcs`, a file's lines included,
  -- matches a destination exactly if its normalized host is not empty and no address, and is one
  -- of the normalized sources or a subdomain of one.
  pub generated-match_iff :
      (r r' : Route lib) (srcs : List Bytes) (dst : Bytes)
      → r.match_type ≡ MatchType.domain
      → all_sources lib r ≡ ok srcs
      → generate_cache lib r ≡ ok r'
      → (route_match lib r' dst ≡ true) ↔ ShouldMatch srcs (normalize_host dst)
  unfolding generate_cache route_match match_on cache_of
  generated-match_iff r r' srcs dst t s g =
      let built : record r { cache = record (no_cache lib) { domain_map = some (hosts_of srcs) } }
          ≡ r' =
        ground arith in
      subst (λ x. (route_match lib x dst ≡ true) ↔ ShouldMatch srcs (normalize_host dst)) built
        (rw t (match_domain_sound srcs dst, match_domain_complete srcs dst))

  all_sources-cache :
      (r : Route lib) (c : MatchCache lib)
      → all_sources lib (record r { cache = c }) ≡ all_sources lib r
  unfolding all_sources
  all_sources-cache r c = refl

  rebuilt :
      (r : Route lib) (srcs : List Bytes) (c : MatchCache lib)
      → all_sources lib r ≡ ok srcs
      → cache_of lib r.match_type srcs ≡ ok c
      → generate_cache lib (record r { cache = c }) ≡ ok (record r { cache = c })
  unfolding generate_cache
  rebuilt r srcs c s k = rw (all_sources-cache r c, s, k, generate_cache)

  -- Building the caches of a route that has been built gives the same route: the sources, a
  -- file's lines among them, are not added twice.
  generate_cache-idempotent :
      (r r' : Route lib) → generate_cache lib r ≡ ok r' → generate_cache lib r' ≡ ok r'
  unfolding generate_cache
  generate_cache-idempotent r r' g =
      let (srcs, s, g') = >>=-eq-ok (all_sources lib r) _ g in
      let (c, k, done) = >>=-eq-ok (cache_of lib r.match_type srcs) _ g' in
      let built : record r { cache = c } ≡ r' = ground arith in
      subst (λ x. generate_cache lib x ≡ ok x) built (rebuilt r srcs c s k)
