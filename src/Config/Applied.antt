-- ===== src/Config/Applied.antt =====
-- A configuration without IPv6 that is applied.
use spaceship.Base.{
  Bool, true, false, Bool-cases, Result-cases, >>=-eq-ok, ◌>>=◌, inl, inr, List, [], ◌∷◌, ◌++◌,
  none, some, ◌≡◌, refl, sym, ap, ◌∙◌, Bytes, codes, ok, err, All,
}
use spaceship.Config.Careful.{Keeps, Keeps-trans, Careful, same_program, run_all-passes}
use spaceship.Config.Rejected.{set_ipv6-Safe, set_idle-Safe, first_parts, first_parts-Careful}
use spaceship.Config.Stages.{
  base_routes, all_routes, route_block_ipv6, install_routes, set_ipv6, set_idle, apply,
  applies_idle_timeout,
}
use spaceship.Config.{MixedConfig, Machine, Program, Stage, run_all, routes_invalid}
use spaceship.Hosts.{trim_space, trim_left, trim_right, is_space}
use spaceship.Router.Egress.{Egress, blocked, get_transport}
use spaceship.Router.Route.{
  Lib, Route, MatchType, generate_cache, cache_of, all_sources, parse_prefixes, route_match,
  match_on, any_prefix,
}
use spaceship.Router.State.Coherent.{IsCoherent, replace-IsCoherent, answer, get_route-answer}
use spaceship.Router.State.{
  Routes, normalize_route_key, clone_route, clone_routes, generate_routes, prepare_routes, replace,
  set_routes, first_match, get_route,
}

-- A run of careful parts that does not fail leaves the rest to run on a program with the same routes.
run_all-Careful :
    {lib : Lib} (fs gs : List (Stage lib)) (p : Program lib)
    → All Careful fs
    → (run_all (fs ++ gs) p).1 ≡ ok tt
    → (q : Program lib) × (run_all (fs ++ gs) p ≡ run_all gs q) × Keeps p q
unfolding run_all
run_all-Careful [] gs p h good = (p, refl, same_program p)
run_all-Careful (f ∷ fs) gs p (h, hs) good = elim (Result-cases (f p).1) [
  | inr (x, k) ↦
      let bad : (run_all (f ∷ (fs ++ gs)) p).1 ≡ err x = rw (k, run_all) refl in absurd cc
  | inl (u, k) ↦
      let step = run_all-passes f (fs ++ gs) p u k in
      let (q, same_run, kept) =
        run_all-Careful fs gs (f p).0 hs (sym (ap (λ r. r.1) step) ∙ good) in
      (q, step ∙ same_run, Keeps-trans (h p) kept)
]

module _ (lib : Lib) (machine : Machine) (c : MixedConfig lib) where
  -- The parts behind the routes leave them.
  set_idle-router : (s : Program lib) → (set_idle lib machine c s).0.router ≡ s.router
  unfolding set_idle
  set_idle-router s = elim (Bool-cases (applies_idle_timeout lib machine c)) [
    | inl e ↦ rw (e, set_idle) refl
    | inr e ↦ rw (e, set_idle) refl
  ]

  last-router :
      (s : Program lib)
      → (run_all (set_ipv6 lib machine c ∷ set_idle lib machine c ∷ []) s).0.router ≡ s.router
  unfolding run_all set_ipv6
  last-router s =
      let t = (set_ipv6 lib machine c s).0 in
      let one =
        run_all-passes (set_ipv6 lib machine c) (set_idle lib machine c ∷ []) s tt
          (set_ipv6-Safe lib machine c s) in
      let two = run_all-passes (set_idle lib machine c) [] t tt (set_idle-Safe lib machine c t) in
      ap (λ r. r.0.router) (one ∙ two) ∙ set_idle-router t

  install-router :
      (p : Program lib)
      → (install_routes lib machine c p).0.router
        ≡ (set_routes lib p.router (all_routes lib machine c)).0
  unfolding install_routes
  install-router p = elim (Result-cases (set_routes lib p.router (all_routes lib machine c)).1) [
    | inl (u, k) ↦ rw (k, install_routes) refl
    | inr (x, k) ↦ rw (k, install_routes) refl
  ]

  installed :
      (p : Program lib)
      → (install_routes lib machine c p).1 ≡ ok tt
      → (rs : Routes lib) × (prepare_routes lib (all_routes lib machine c) ≡ ok rs)
        × ((install_routes lib machine c p).0.router ≡ replace lib p.router rs)
  unfolding install_routes set_routes
  installed p h = elim (Result-cases (prepare_routes lib (all_routes lib machine c))) [
    | inl (rs, k) ↦
        let routed : set_routes lib p.router (all_routes lib machine c)
            ≡ (replace lib p.router rs, ok tt) =
          rw (k, set_routes) refl in
        (rs, k, install-router p ∙ ap (λ r. r.0) routed)
    | inr (e, k) ↦
        let routed : (set_routes lib p.router (all_routes lib machine c)).1 ≡ err e =
          rw (k, set_routes) refl in
        let bad : (install_routes lib machine c p).1 ≡ err (routes_invalid e) =
          rw (routed, install_routes) refl in
        absurd cc
  ]

  -- What is left of a configuration that is applied.
  applied :
      (p : Program lib)
      → (apply lib machine c p).1 ≡ ok tt
      → (rs : Routes lib) × (prepare_routes lib (all_routes lib machine c) ≡ ok rs)
        × ((apply lib machine c p).0.router ≡ replace lib p.router rs)
  unfolding apply run_all
  applied p h =
      let gs =
        install_routes lib machine c ∷ set_ipv6 lib machine c ∷ set_idle lib machine c ∷ [] in
      let (q, same_run, kept) =
        run_all-Careful (first_parts lib machine c) gs p (first_parts-Careful lib machine c) h in
      elim (Result-cases (install_routes lib machine c q).1) [
        | inr (x, k) ↦
            let bad : (run_all gs q).1 ≡ err x = rw (k, run_all) refl in
            let good = sym (ap (λ r. r.1) same_run) ∙ h in absurd cc
        | inl (u, k) ↦
            let (rs, prepared, router) = installed q k in
            let step =
              run_all-passes (install_routes lib machine c)
                (set_ipv6 lib machine c ∷ set_idle lib machine c ∷ []) q u k in
            (
              rs,
              prepared,
              ap (λ r. r.0.router) (same_run ∙ step)
                  ∙ last-router (install_routes lib machine c q).0
                  ∙ router
                  ∙ ap (λ x. replace lib x rs) kept.router,
            )
      ]

module _ (lib : Lib) (machine : Machine) (c : MixedConfig lib) (all : lib.Prefix) where
  abbrev blocking : Route lib
  blocking = record {
    sources = codes "::/0" ∷ [];
    ext = [];
    destination = Egress.block;
    match_type = MatchType.cidr;
    cache = record { exact_map = none; domain_map = none; regexp_list = []; cidr_list = all ∷ [] };
  }

  built :
      lib.parse_prefix (codes "::/0") ≡ some all
      → generate_cache lib (route_block_ipv6 lib machine c) ≡ ok blocking
  unfolding generate_cache all_sources cache_of parse_prefixes trim_space trim_left trim_right
      is_space route_block_ipv6
  built h = rw h refl

  -- Without IPv6 the blocking route is the first one.
  first_route :
      (rs : Routes lib)
      → lib.parse_prefix (codes "::/0") ≡ some all
      → c.ipv6 ≡ false
      → prepare_routes lib (all_routes lib machine c) ≡ ok rs
      → (rest : Routes lib) × (rs ≡ some blocking ∷ rest)
  unfolding prepare_routes clone_routes clone_route generate_routes all_routes route_block_ipv6
  first_route rs h off k =
      let block = route_block_ipv6 lib machine c in
      let routes : all_routes lib machine c ≡ some block ∷ base_routes lib machine c =
        simp (off, all_routes) in
      let k' : generate_routes lib (some block ∷ clone_routes lib (base_routes lib machine c))
          ≡ ok rs =
        ap (prepare_routes lib) (sym routes) ∙ k in
      let (b, made, k2) = >>=-eq-ok (generate_cache lib block) _ k' in
      let (rest, others, k3) =
        >>=-eq-ok (generate_routes lib (clone_routes lib (base_routes lib machine c))) _ k2 in
      let same_block : b ≡ blocking = (let one = built h in cc) in
      (rest, (let e : some b ∷ rest ≡ rs = cc in sym e ∙ ap (λ x. some x ∷ rest) same_block))

  matched :
      (dst : Bytes) (a : lib.Addr) (rest : Routes lib)
      → lib.parse_addr dst ≡ some a
      → lib.contains all a ≡ true
      → first_match lib (some blocking ∷ rest) dst ≡ ok Egress.block
  unfolding first_match route_match match_on any_prefix
  matched dst a rest h k =
      let found : route_match lib blocking dst ≡ true = rw (h, k) refl in rw found refl

  -- Where a configuration without IPv6 is applied to a program whose table is coherent, the router
  -- from then on blocks every destination that is its own key and an address in the prefix `::/0`,
  -- whatever the routes of the configuration are.
  pub apply-blocks_ipv6 :
      (p : Program lib) (dst : Bytes) (a : lib.Addr) (proxy_up : Bool)
      → lib.parse_prefix (codes "::/0") ≡ some all
      → lib.parse_addr dst ≡ some a
      → lib.contains all a ≡ true
      → normalize_route_key dst ≡ dst
      → c.ipv6 ≡ false
      → IsCoherent lib p.router
      → (apply lib machine c p).1 ≡ ok tt
      → (get_route lib (apply lib machine c p).0.router proxy_up dst).1 ≡ err blocked
  unfolding answer replace get_transport
  apply-blocks_ipv6 p dst a proxy_up prefix addr within stable off coherent good =
      let (rs, prepared, router) = applied lib machine c p good in
      let (rest, first) = first_route rs prefix off prepared in
      let now = replace-IsCoherent lib p.router rs coherent in
      let key : normalize_route_key (normalize_route_key dst) ≡ normalize_route_key dst =
        ap normalize_route_key stable in
      ap (λ r. (get_route lib r proxy_up dst).1) router
      ∙ get_route-answer lib (replace lib p.router rs) proxy_up dst now key
      ∙ ap (λ k. first_match lib rs k >>= get_transport proxy_up) stable
      ∙ ap (λ x. first_match lib x dst >>= get_transport proxy_up) first
      ∙ ap (λ x. x >>= get_transport proxy_up) (matched dst a rest addr within)
