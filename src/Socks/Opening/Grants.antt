-- ===== src/Socks/Opening/Grants.antt =====
-- The grant of an association: taken exactly where a relay is opened, and given back by its `Close`.
use spaceship.Base.{
  [], ℕ, ◌<◌, Bool, true, false, not, Option, none, some, ◌≡◌, refl, arith, Bytes, same_iff,
  if◌then◌else◌, Result, ok, err, Bool-cases, inl, inr,
}
use spaceship.Socks.Errors.{Error, association_limit, listen_error}
use spaceship.Socks.Limiter.Bounds.{
  IsValid, acquire-IsValid, count-raise, count-lower, release_counted,
}
use spaceship.Socks.Limiter.{Limiter, total_full, client_full, raise, acquire, release, count}
use spaceship.Socks.Nat.{drain}
use spaceship.Socks.Opening.{
  UdpConfig, Network, udp_client_key, relay_bind_address, relay_of, new_udp_relay_with_listener,
  new_udp_relay,
}
use spaceship.Socks.Relay.NoLeak.{IsFresh}
use spaceship.Socks.Relay.{Relay, close_done, drain_table, release_association, closing_entries}

-- The limiter counts the same for every client.
abbrev pub SameCounts : Limiter → Option Limiter → Type 0
SameCounts l none = ⊥
SameCounts l (some l') = (c : Bytes) → count l' c ≡ count l c

abbrev pub Grants : Limiter → Bytes → Option Limiter × Bool → Type 0
Grants l client (l', true) = SameCounts l (release l' client)
Grants l client (l', false) = l' ≡ some l

acquire-Grants :
    (l : Limiter) (client : Bytes) → IsValid l → Grants l client (acquire (some l) client)
acquire-Grants l client v =
    let after = acquire-IsValid l client v in
    elim (Bool-cases (total_full l)) [
      | inl e ↦ unfold acquire in rw e refl
      | inr e ↦ elim (Bool-cases (client_full l client)) [
        | inl f ↦ unfold acquire in rw (e, f) refl
        | inr f ↦
            let raised : IsValid (raise l client) = unfold acquire in rw (e, f) at after in
            let held : 0 < count (raise l client) client =
              ground (arith, count-raise l client client, same_iff client client) in
            unfold acquire in
            rw (e, f, release_counted (raise l client) client raised held)
              (λ c. ground (arith, count-lower (raise l client) client c, count-raise l client c))
      ]
    ]

-- `Close` of a relay that has no flows.
abbrev pub closed_unused : Relay → Relay
closed_unused r = release_association (drain_table (close_done r))

-- A relay that was opened is fresh and holds a grant, and its `Close` gives the grant back, once. A
-- relay that was not opened leaves no grant behind.
abbrev pub Opens : Limiter → Option Limiter × Result Error Relay → Type 0
Opens l (l', err e) = SameCounts l l'
Opens l (l', ok r) =
    ((nat : Limiter) × IsFresh r nat)
    × (r.association_held ≡ true)
    × (r.association_limiter ≡ l')
    × ((drain_table (close_done r)).closing ≡ closing_entries [])
    × SameCounts l (closed_unused r).association_limiter
    × (close_done (closed_unused r) ≡ closed_unused r)

opened :
    (ip_text : Bytes → Bytes) (l nat : Limiter) (client : Bytes) (max_nat : ℕ) (l' : Option Limiter)
    → SameCounts l (release l' client)
    → Opens l (l', ok (relay_of ip_text client l' nat max_nat))
unfolding close_done drain_table release_association drain
opened ip_text l nat client max_nat l' h = (
  (
    nat,
    record {
      table = refl;
      live = refl;
      closing = refl;
      unclosed = refl;
      dialed = refl;
      installed = refl;
      limiter = refl;
      counted = refl;
    },
  ),
  refl,
  refl,
  refl,
  h,
  refl,
)

with_listener-Opens :
    (ip_text : Bytes → Bytes) (client_ip local_ip : Bytes) (l nat : Limiter) (max_nat : ℕ)
    (listen : Network × Bytes → Bool)
    → IsValid l
    → Opens l (new_udp_relay_with_listener ip_text client_ip local_ip l nat max_nat listen)
unfolding new_udp_relay_with_listener
with_listener-Opens ip_text client_ip local_ip l nat max_nat listen v =
    by_grant (acquire (some l) (udp_client_key ip_text client_ip))
      (acquire-Grants l (udp_client_key ip_text client_ip) v)
  where
    by_grant :
        (g : Option Limiter × Bool)
        → Grants l (udp_client_key ip_text client_ip) g
        → Opens l (
            if not g.1
            then (g.0, err association_limit)
            else if not (listen (relay_bind_address ip_text local_ip))
            then (release g.0 (udp_client_key ip_text client_ip), err listen_error)
            else (g.0, ok (relay_of ip_text (udp_client_key ip_text client_ip) g.0 nat max_nat)))
    by_grant (l', false) h = rw h (λ c. refl)
    by_grant (l', true) h = elim (Bool-cases (listen (relay_bind_address ip_text local_ip))) [
      | inl up ↦ rw up (opened ip_text l nat (udp_client_key ip_text client_ip) max_nat l' h)
      | inr down ↦ rw down h
    ]

-- `NewUDPRelay` over a valid association limiter takes a grant exactly where it opens a relay: if it
-- fails, for whatever reason, the limiter counts what it did. A relay that it opens has no flows,
-- and its `Close` brings the limiter's counts back to what they were; a second `Close` does nothing.
pub new_udp_relay-Opens :
    (ip_text : Bytes → Bytes) (config : UdpConfig) (client_ip local_ip : Bytes)
    (listen : Network × Bytes → Bool)
    → IsValid config.udp_association_limiter
    → Opens config.udp_association_limiter (new_udp_relay ip_text config client_ip local_ip listen)
unfolding new_udp_relay
new_udp_relay-Opens ip_text config client_ip local_ip listen v =
    elim (Bool-cases config.udp_disabled) [
      | inl off ↦ simp off (λ c. refl)
      | inr on ↦ simp on (
          with_listener-Opens ip_text client_ip local_ip config.udp_association_limiter
            config.udp_nat_limiter config.udp_max_nat listen v)
    ]
