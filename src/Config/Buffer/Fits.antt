-- ===== src/Config/Buffer/Fits.antt =====
-- A full buffer fits a message, and has a tier of the pool.
use spaceship.Base.{
  ℕ, ◌+◌, ◌≤◌, ◌==◌, ==_iff, ◌⊎◌, ltb, List, [], ◌∷◌, Option-cases, Bool-cases, Result-cases, inl,
  inr, ◌≡◌, refl, sym, subst, ◌∙◌, arith, All,
}
use spaceship.Config.Buffer.{
  max_message_size, message_framing_overhead, insert_size, sort_sizes, compact, tiers,
  payload_buffer_pool,
}
use spaceship.Config.Stages.{
  check_role, check_idle_timeout, set_log, set_dns, set_buffer, set_udp, set_path, set_user,
  set_forward, install_routes, set_ipv6, set_idle, apply, all_routes,
}
use spaceship.Config.{MixedConfig, Program, Machine, Stage, run_all, max_transport_buffer_size}
use spaceship.Config.Resolver.{set_resolver}
use spaceship.Router.Route.{Lib}
use spaceship.Router.State.{set_routes}
use spaceship.Transport.Settings.{
  set_buffer_size, enable_ipv6, disable_ipv6, set_network, set_idle_timeout,
}

abbrev Small : {lib : Lib} → Program lib → Type 0
Small p = p.settings.buffer_size ≤ max_transport_buffer_size

abbrev KeepsSmall : {lib : Lib} → Stage lib → Type 0
KeepsSmall {lib} f = (p : Program lib) → Small p → Small (f p).0

run_all-Small : {lib : Lib} (fs : List (Stage lib)) → All KeepsSmall fs → KeepsSmall (run_all fs)
unfolding run_all
run_all-Small [] h p s = s
run_all-Small (f ∷ fs) (h, hs) p s = elim (Result-cases (f p).1) [
  | inl (u, e) ↦ rw (e, run_all) (run_all-Small fs hs (f p).0 (h p s))
  | inr (x, e) ↦ rw (e, run_all) (h p s)
]

module _ (lib : Lib) (machine : Machine) (c : MixedConfig lib) where
  set_dns-Small : KeepsSmall (set_dns lib machine c)
  unfolding set_dns
  set_dns-Small p h = elim (Option-cases c.dns) [
    | inl e ↦ rw (e, set_dns) h
    | inr (d, e) ↦ elim (Option-cases (set_resolver p.resolver d)) [
      | inl k ↦ rw (e, k, set_dns) h
      | inr (r, k) ↦ rw (e, k, set_dns) h
    ]
  ]

  install_routes-Small : KeepsSmall (install_routes lib machine c)
  unfolding install_routes
  install_routes-Small p h =
      elim (Result-cases (set_routes lib p.router (all_routes lib machine c)).1) [
        | inl (u, e) ↦ rw (e, install_routes) h
        | inr (x, e) ↦ rw (e, install_routes) h
      ]

  check_role-Small : KeepsSmall (check_role lib machine c)
  unfolding check_role
  check_role-Small p h = ground arith

  check_idle_timeout-Small : KeepsSmall (check_idle_timeout lib machine c)
  unfolding check_idle_timeout
  check_idle_timeout-Small p h = ground arith

  set_log-Small : KeepsSmall (set_log lib machine c)
  unfolding set_log
  set_log-Small p h = h

  set_buffer-Small : KeepsSmall (set_buffer lib machine c)
  unfolding set_buffer set_buffer_size
  set_buffer-Small p h = ground arith

  set_udp-Small : KeepsSmall (set_udp lib machine c)
  unfolding set_udp
  set_udp-Small p h = ground arith

  set_path-Small : KeepsSmall (set_path lib machine c)
  unfolding set_path
  set_path-Small p h = ground arith

  set_user-Small : KeepsSmall (set_user lib machine c)
  unfolding set_user
  set_user-Small p h = ground arith

  set_forward-Small : KeepsSmall (set_forward lib machine c)
  unfolding set_forward
  set_forward-Small p h = ground arith

  set_ipv6-Small : KeepsSmall (set_ipv6 lib machine c)
  unfolding set_ipv6 enable_ipv6 disable_ipv6 set_network
  set_ipv6-Small p h = ground arith

  set_idle-Small : KeepsSmall (set_idle lib machine c)
  unfolding set_idle set_idle_timeout
  set_idle-Small p h = ground arith

  apply-Small : KeepsSmall (apply lib machine c)
  unfolding apply
  apply-Small = run_all-Small _ (
    check_role-Small,
    (
      check_idle_timeout-Small,
      (
        set_log-Small,
        (
          set_dns-Small,
          (
            set_buffer-Small,
            (
              set_udp-Small,
              (
                set_path-Small,
                (
                  set_user-Small,
                  (
                    set_forward-Small,
                    (install_routes-Small, (set_ipv6-Small, (set_idle-Small, tt))),
                  ),
                ),
              ),
            ),
          ),
        ),
      ),
    ),
  )

abbrev pub In : ℕ → List ℕ → Type 0
In k [] = ⊥
In k (n ∷ ns) = (k ≡ n) ⊎ In k ns

insert_size_self : (n : ℕ) (ns : List ℕ) → In n (insert_size n ns)
unfolding insert_size
insert_size_self n [] = inl refl
insert_size_self n (m ∷ ms) = elim (Bool-cases (ltb m n)) [
  | inl e ↦ rw (e, insert_size) (inr (insert_size_self n ms))
  | inr e ↦ rw (e, insert_size) (inl refl)
]

insert_size-In : (k n : ℕ) (ns : List ℕ) → In k ns → In k (insert_size n ns)
unfolding insert_size
insert_size-In k n [] h = elim h [ ]
insert_size-In k n (m ∷ ms) h = elim (Bool-cases (ltb m n)) [
  | inl e ↦ rw (e, insert_size) (elim h [ inl x ↦ inl x | inr x ↦ inr (insert_size-In k n ms x) ])
  | inr e ↦ rw (e, insert_size) (inr h)
]

sort_sizes-In : (k : ℕ) (ns : List ℕ) → In k ns → In k (sort_sizes ns)
unfolding sort_sizes
sort_sizes-In k [] h = h
sort_sizes-In k (n ∷ ns) (inl e) =
    subst (λ x. In x (insert_size n (sort_sizes ns))) (sym e) (insert_size_self n (sort_sizes ns))
sort_sizes-In k (n ∷ ns) (inr h) = insert_size-In k n (sort_sizes ns) (sort_sizes-In k ns h)

compact-In : (k : ℕ) (ns : List ℕ) → In k ns → In k (compact ns)
unfolding compact
compact-In k [] h = h
compact-In k (n ∷ []) h = h
compact-In k (n ∷ m ∷ ms) (inl e) = elim (Bool-cases (n == m)) [
  | inl d ↦ rw (d, compact) (compact-In k (m ∷ ms) (inl (e ∙ (==_iff n m).0 d)))
  | inr d ↦ rw (d, compact) (inl e)
]
compact-In k (n ∷ m ∷ ms) (inr h) = elim (Bool-cases (n == m)) [
  | inl d ↦ rw (d, compact) (compact-In k (m ∷ ms) h)
  | inr d ↦ rw (d, compact) (inr (compact-In k (m ∷ ms) h))
]

payload_buffer_pool-In :
    (size : ℕ) → In (size + message_framing_overhead) (payload_buffer_pool size)
unfolding payload_buffer_pool
payload_buffer_pool-In size =
    let full = size + message_framing_overhead in
    compact-In full (sort_sizes (tiers size))
      (sort_sizes-In full (tiers size) (inr (inr (inr (inr (inr (inl refl)))))))

-- Whether `Apply` takes a configuration or refuses it: if a full transport buffer fitted a gRPC message
-- with its framing before, it does so behind it, and the pool of buffers that is then built has a tier of
-- exactly that size.
pub apply-fits :
    (lib : Lib) (machine : Machine) (c : MixedConfig lib) (p : Program lib)
    → p.settings.buffer_size + message_framing_overhead ≤ max_message_size
    → let size = (apply lib machine c p).0.settings.buffer_size + message_framing_overhead in
      (size ≤ max_message_size)
      × In size (payload_buffer_pool (apply lib machine c p).0.settings.buffer_size)
apply-fits lib machine c p h =
    let small = apply-Small lib machine c p (omega arith) in
    (omega arith, payload_buffer_pool-In (apply lib machine c p).0.settings.buffer_size)
