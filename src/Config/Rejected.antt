-- ===== src/Config/Rejected.antt =====
-- A configuration that is refused.
use spaceship.Base.{
  ◌*◌, Bool-cases, Result-cases, inl, inr, List, [], ◌∷◌, none, some, ◌≡◌, refl, sym, ap, ◌∙◌, All,
  not, ltb, ok, err,
}
use spaceship.Config.Resolver.{set_resolver}
use spaceship.Config.Stages.{
  is_known, is_negative, applies_idle_timeout, udp_is_negative, is_client, check_role,
  check_idle_timeout, set_log, set_dns, set_buffer, set_udp, set_path, set_user, set_forward,
  all_routes, install_routes, set_ipv6, set_idle, apply, to_nat, done, fails,
}
use spaceship.Config.{
  MixedConfig, Error, Machine, Program, Stage, max_idle_timeout_seconds, max_transport_buffer_size,
  dns_not_implemented,
}
use spaceship.Hosts.{is_empty}
use spaceship.Router.Route.{Lib}
use spaceship.Router.Egress.{Error as RouteError}
use spaceship.Router.State.{Router, Routes, prepare_routes, replace, set_routes}
use spaceship.Transport.Settings.{set_buffer_size}
use spaceship.Config.Careful.{
  same_program, Careful, Guarded, Safe, run_all-Guarded, Outcome, either, Keeps,
}

-- The parts.
module _ (lib : Lib) (machine : Machine) (c : MixedConfig lib) where
  check_role-Careful : Careful (check_role lib machine c)
  unfolding check_role
  check_role-Careful p = either p (is_known c.role) _ _ (same_program p) (same_program p)

  check_idle_timeout-Careful : Careful (check_idle_timeout lib machine c)
  unfolding check_idle_timeout
  check_idle_timeout-Careful p =
      let same = same_program p in
      either p (not (applies_idle_timeout lib machine c)) _ _ same (
        either p (is_negative c.idle_timeout) _ _ same
          (either p (ltb max_idle_timeout_seconds (to_nat c.idle_timeout)) _ _ same same))

  set_log-Careful : Careful (set_log lib machine c)
  unfolding set_log
  set_log-Careful p = record {
    router = refl;
    prefer_ipv4 = refl;
    network = refl;
    idle_timeout = refl;
  }

  set_dns-Careful : Careful (set_dns lib machine c)
  unfolding set_dns
  set_dns-Careful p =
      elim c.dns
        as (λ d.
          Keeps p
            (elim d as (λ _. Outcome lib) [
              | none ↦ done p
              | some d ↦ elim (set_resolver p.resolver d) [
                | none ↦ fails p dns_not_implemented
                | some r ↦ done (record p { resolver = r })
              ]
            ]).0) [
              | none ↦ same_program p
              | some d ↦
                  elim (set_resolver p.resolver d)
                    as (λ o.
                      Keeps p
                        (elim o as (λ _. Outcome lib) [
                          | none ↦ fails p dns_not_implemented
                          | some r ↦ done (record p { resolver = r })
                        ]).0) [
                          | none ↦ same_program p
                          | some r ↦ record {
                            router = refl;
                            prefer_ipv4 = refl;
                            network = refl;
                            idle_timeout = refl;
                          }
                        ]
            ]

  set_buffer-Careful : Careful (set_buffer lib machine c)
  unfolding set_buffer set_buffer_size
  set_buffer-Careful p =
      let same = same_program p in
      either p (not (ltb 0 c.buffer)) _ _ same (
        either p (ltb max_transport_buffer_size (c.buffer * 1024)) _ _ same
          (record { router = refl; prefer_ipv4 = refl; network = refl; idle_timeout = refl }))

  set_udp-Careful : Careful (set_udp lib machine c)
  unfolding set_udp
  set_udp-Careful p =
      either p (udp_is_negative c.udp) _ _ (same_program p)
        (record { router = refl; prefer_ipv4 = refl; network = refl; idle_timeout = refl })

  set_path-Careful : Careful (set_path lib machine c)
  unfolding set_path
  set_path-Careful p =
      either p (is_empty c.path) _ _ (same_program p)
        (record { router = refl; prefer_ipv4 = refl; network = refl; idle_timeout = refl })

  set_user-Careful : Careful (set_user lib machine c)
  unfolding set_user
  set_user-Careful p =
      let same = same_program p in
      either p (not (is_client c.role)) _ _ same (
        either p (is_empty c.uuid) _ _ same
          (record { router = refl; prefer_ipv4 = refl; network = refl; idle_timeout = refl }))

  set_forward-Careful : Careful (set_forward lib machine c)
  unfolding set_forward
  set_forward-Careful p =
      let same = same_program p in
      either p (is_empty c.forward) _ _ same (
        either p (machine.loads_proxy c.forward) _ _
          (record { router = refl; prefer_ipv4 = refl; network = refl; idle_timeout = refl }) same)

  set_routes-keeps :
      (s : Router lib) (rs : Routes lib) (e : RouteError)
      → (set_routes lib s rs).1 ≡ err e
      → (set_routes lib s rs).0 ≡ s
  unfolding set_routes
  set_routes-keeps s rs e h = elim (Result-cases (prepare_routes lib rs)) [
    | inr (x, k) ↦ rw (k, set_routes) refl
    | inl (ps, k) ↦
        let whole : set_routes lib s rs ≡ (replace lib s ps, ok tt) = rw (k, set_routes) refl in
        let both = sym (ap (λ r. r.1) whole) ∙ h in absurd cc
  ]

  install_routes-Guarded : Guarded (install_routes lib machine c)
  unfolding install_routes
  install_routes-Guarded p e h =
      elim (Result-cases (set_routes lib p.router (all_routes lib machine c)).1) [
        | inl (u, k) ↦
            let good : (install_routes lib machine c p).1 ≡ ok tt = rw (k, install_routes) refl in
            absurd cc
        | inr (x, k) ↦
            let kept = set_routes-keeps p.router (all_routes lib machine c) x k in
            rw (k, install_routes)
              (record { router = kept; prefer_ipv4 = refl; network = refl; idle_timeout = refl })
      ]

  pub set_ipv6-Safe : Safe (set_ipv6 lib machine c)
  unfolding set_ipv6
  set_ipv6-Safe p = refl

  pub set_idle-Safe : Safe (set_idle lib machine c)
  unfolding set_idle
  set_idle-Safe p = elim (Bool-cases (applies_idle_timeout lib machine c)) [
    | inl e ↦ rw (e, set_idle) refl
    | inr e ↦ rw (e, set_idle) refl
  ]

  -- The parts before the routes.
  abbrev pub first_parts : List (Stage lib)
  first_parts =
      check_role lib machine c
      ∷ check_idle_timeout lib machine c
      ∷ set_log lib machine c
      ∷ set_dns lib machine c
      ∷ set_buffer lib machine c
      ∷ set_udp lib machine c
      ∷ set_path lib machine c
      ∷ set_user lib machine c
      ∷ set_forward lib machine c
      ∷ []

  pub first_parts-Careful : All Careful first_parts
  first_parts-Careful = (
    check_role-Careful,
    (
      check_idle_timeout-Careful,
      (
        set_log-Careful,
        (
          set_dns-Careful,
          (
            set_buffer-Careful,
            (set_udp-Careful, (set_path-Careful, (set_user-Careful, (set_forward-Careful, tt)))),
          ),
        ),
      ),
    ),
  )

  -- A configuration that `Apply` refuses, whatever for, leaves the routes with their cache, the IPv6
  -- mode, and the idle timeout as they were.
  pub apply-Keeps :
      (p : Program lib) (e : Error)
      → (apply lib machine c p).1 ≡ err e
      → Keeps p (apply lib machine c p).0
  unfolding apply
  apply-Keeps =
      run_all-Guarded first_parts (install_routes lib machine c)
        (set_ipv6 lib machine c ∷ set_idle lib machine c ∷ []) first_parts-Careful
        install_routes-Guarded (set_ipv6-Safe, (set_idle-Safe, tt))
