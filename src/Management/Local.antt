-- ===== src/Management/Local.antt =====
-- Who reads the management pages, and what they show.
use spaceship.Base.{
  ℕ, ◌+◌, ◌%◌, ◌<◌, true, List, [], ◌∷◌, map, Option, none, some, codes, same, ltb, ◌≡◌, ◌≢◌, ◌⊎◌,
  inl, inr, refl, sym, ap, ◌∙◌, arith, length, length-map, Bool-cases, if◌then◌else◌,
}
use spaceship.Management.{
  Page, stats_page, health_page, Request, NetLib, StatsResponse, Response, forbidden, stats_json,
  World, connection_summary, connection_details, handle_stats, handle_health, bare_host,
  ip_is_loopback, host_header_allowed, serve_page, loopback_guard, handler,
}
use spaceship.Rpc.Pool.{
  State, ConnWrapper, ConnectionDetail, ConnQueue, Summary, detail_of, add_to_summary,
  get_summary_stats, get_connection_summary, get_connection_details, load_mod,
}
use spaceship.Rpc.Pool as Pool

-- The connections that are shown as active, and their loads in all.
abbrev pub actives : List ConnectionDetail → ℕ
actives [] = 0
actives (d ∷ ds) = (if d.active then 1 else 0) + actives ds

abbrev pub loads : List ConnectionDetail → ℕ
loads [] = 0
loads (d ∷ ds) = d.load + loads ds

-- The numbers of a pool agree with its list.
abbrev pub Agrees : Summary → List ConnectionDetail → Type 0
Agrees s ds = (s.total ≡ length ds) × (s.active ≡ actives ds) × (s.total_load ≡ loads ds % load_mod)

add_to_summary_lem :
    (states : ℕ → State) (s : Summary) (ws : List ConnWrapper)
    → ((add_to_summary s ws).total ≡ s.total)
      × ((add_to_summary s ws).active ≡ s.active + actives (map (detail_of states) ws))
      × (s.total_load < load_mod
          → (add_to_summary s ws).total_load
            ≡ (s.total_load + loads (map (detail_of states) ws)) % load_mod)
unfolding add_to_summary detail_of
add_to_summary_lem states s [] = (refl, omega arith, λ h. omega arith)
add_to_summary_lem states s (w ∷ ws) =
    let next = record s {
      active = if ltb 0 w.in_use then s.active + 1 else s.active;
      total_load = (s.total_load + w.in_use) % load_mod;
    } in
    let (t, a, l) = add_to_summary_lem states next ws in
    (t, ground arith, λ h. let k = l (omega arith) in omega arith)

connection_summary-Agrees :
    (q : Option ConnQueue) (states : ℕ → State)
    → Agrees (connection_summary q) (connection_details q states)
unfolding connection_summary connection_details get_connection_summary get_connection_details
    get_summary_stats Pool.connection_details
connection_summary-Agrees none states = omega arith
connection_summary-Agrees (some q) states = elim (Bool-cases q.is_down) [
  | inl e ↦ rw (e, get_connection_summary, get_connection_details) (omega arith)
  | inr e ↦
      let (t, a, l) =
        add_to_summary_lem states (record { total = length q.conn; active = 0; total_load = 0 })
          q.conn in
      let len = length-map (detail_of states) q.conn in
      rw (e, get_connection_summary, get_connection_details)
        (t ∙ sym len, (let k = a in omega arith), l (omega arith) ∙ omega arith)
]

handle_stats-Agrees :
    (w : World) (r : Request) (s : StatsResponse)
    → handle_stats w r ≡ stats_json s
    → (same r.method (codes "GET") ≡ true)
      × (s.connections ≡ connection_details w.listed w.states)
      × Agrees
          (record { total = s.pool_total; active = s.pool_active; total_load = s.pool_load })
          (connection_details w.summed w.states)
unfolding handle_stats
handle_stats-Agrees w r s h = elim (Bool-cases (same r.method (codes "GET"))) [
  | inr e ↦ absurd (ground arith)
  | inl e ↦
      let (a, b, c) = connection_summary-Agrees w.summed w.states in
      let whole : s.connections ≡ connection_details w.listed w.states = ground arith in
      let total : s.pool_total ≡ (connection_summary w.summed).total = ground arith in
      let active : s.pool_active ≡ (connection_summary w.summed).active = ground arith in
      let load : s.pool_load ≡ (connection_summary w.summed).total_load = ground arith in
      (e, whole, (total ∙ a, active ∙ b, load ∙ c))
]

module _ (lib : NetLib) where
  guarded :
      (next : Request → Response) (r : Request)
      → loopback_guard lib next r ≢ forbidden
      → (lib.is_loopback (bare_host lib r.remote_addr) ≡ true)
        × ((lib.equal_fold (bare_host lib r.host) (codes "localhost") ≡ true)
            ⊎ (lib.is_loopback (bare_host lib r.host) ≡ true))
        × (loopback_guard lib next r ≡ next r)
  unfolding loopback_guard ip_is_loopback host_header_allowed
  guarded next r h = elim (Bool-cases (lib.is_loopback (bare_host lib r.remote_addr))) [
    | inr e ↦ absurd (h (ground arith))
    | inl e ↦ elim (Bool-cases (lib.equal_fold (bare_host lib r.host) (codes "localhost"))) [
      | inl k ↦ (e, inl k, ground arith)
      | inr k ↦ elim (Bool-cases (lib.is_loopback (bare_host lib r.host))) [
        | inl m ↦ (e, inr m, ground arith)
        | inr m ↦ absurd (h (ground arith))
      ]
    ]
  ]

  page_stats :
      (w : World) (r : Request) (page : Option Page) (s : StatsResponse)
      → serve_page lib w r page ≡ stats_json s
      → handle_stats w r ≡ stats_json s
  unfolding serve_page handle_health
  page_stats w r none s h = absurd (cc)
  page_stats w r (some stats_page) s h = h
  page_stats w r (some health_page) s h = absurd (ground arith)

  -- Whoever is answered with anything but a refusal came from a loopback address, and named a loopback
  -- address or localhost as the host. If the answer is the statistics, the method was GET, the list is
  -- that of the second read of the pool, and the totals are the number, the active ones and the loads,
  -- modulo 2 ^ 32, of the connections that the first read found; so that they agree with the list that
  -- is shown if both reads found the same.
  pub handler-local :
      (w : World) (r : Request)
      → handler lib w r ≢ forbidden
      → (lib.is_loopback (bare_host lib r.remote_addr) ≡ true)
        × ((lib.equal_fold (bare_host lib r.host) (codes "localhost") ≡ true)
            ⊎ (lib.is_loopback (bare_host lib r.host) ≡ true))
        × ((s : StatsResponse)
            → handler lib w r ≡ stats_json s
            → (same r.method (codes "GET") ≡ true)
              × (s.connections ≡ connection_details w.listed w.states)
              × Agrees
                  (record {
                    total = s.pool_total;
                    active = s.pool_active;
                    total_load = s.pool_load;
                  })
                  (connection_details w.summed w.states)
              × (w.summed ≡ w.listed
                  → (s.pool_total ≡ length s.connections)
                    × (s.pool_active ≡ actives s.connections)
                    × (s.pool_load ≡ loads s.connections % load_mod)))
  unfolding handler
  handler-local w r h =
      let (a, b, c) = guarded (λ x. serve_page lib w x (lib.page_of x)) r h in
      (
        a,
        b,
        λ s k.
            let (m, listed, agrees) =
              handle_stats-Agrees w r s (page_stats w r (lib.page_of r) s (sym c ∙ k)) in
            (
              m,
              listed,
              agrees,
              λ still.
                  let same_list = listed ∙ sym (ap (λ q. connection_details q w.states) still) in
                  (
                    agrees.0 ∙ sym (ap (λ l. length l) same_list),
                    agrees.1 ∙ sym (ap actives same_list),
                    agrees.2 ∙ sym (ap (λ l. loads l % load_mod) same_list),
                  ),
            ),
      )
