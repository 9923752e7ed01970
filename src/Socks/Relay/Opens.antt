-- ===== src/Socks/Relay/Opens.antt =====
-- `getOrCreateNAT` up to the dial keeps the relay's invariant.
use spaceship.Base.{
  ℕ, suc, ◌+◌, inl, inr, Bool, true, false, ◌∷◌, Option, none, some, ◌≡◌, refl, arith, Bytes,
  lookup, length, ◌==◌, Bool-cases, Option-cases, same_iff,
}
use spaceship.Socks.Limiter.Bounds.{acquire-IsValid, count-raise}
use spaceship.Socks.Limiter.{Limiter, acquire, raise}
use spaceship.Socks.Nat.{load}
use spaceship.Socks.Relay.Ids.{serves}
use spaceship.Socks.Relay.Steps.{Holds, Inv, release-Holds}
use spaceship.Socks.Relay.{Relay, Flow, Outcome, has, reserve_flow, open_flow}

pub acquire_granted :
    (l : Limiter) (c : Bytes)
    → (acquire (some l) c).1 ≡ true
    → (acquire (some l) c).0 ≡ some (raise l c)
unfolding acquire
acquire_granted l c h = ground arith

acquire_refused : (l : Option Limiter) (c : Bytes) → (acquire l c).1 ≡ false → (acquire l c).0 ≡ l
unfolding acquire
acquire_refused none c h = refl
acquire_refused (some l) c h = ground arith

acquire-Holds :
    (others : ℕ) (c : Bytes) (n : ℕ) (l : Option Limiter)
    → (acquire l c).1 ≡ true
    → Holds others c n l
    → Holds others c (n + 1) (acquire l c).0
acquire-Holds others c n none e h = unfold acquire in tt
acquire-Holds others c n (some l) e h =
    let g = acquire_granted l c e in
    rw g (rw g at (acquire-IsValid l c h.0), ground (arith, count-raise l c c, same_iff c c, h.1))

-- A new entry is open, and behind its dial.
created-Inv :
    (others : ℕ) (r : Relay) (f : Flow)
    → f.1.id ≡ r.next
    → (acquire r.nat_limiter r.client_key).1 ≡ true
    → Inv others r
    → Inv others (record r {
      nat_limiter = (acquire r.nat_limiter r.client_key).0;
      live = r.next ∷ r.live;
      next = r.next + 1;
      dialed = f ∷ r.dialed;
    })
unfolding has serves
created-Inv others r f named granted v = record {
  accounts = record {
    distinct = (ground (arith, v.accounts.fresh r.next), v.accounts.distinct);
    fresh = λ i h. ground (arith, v.accounts.fresh i);
    agreed = v.accounts.agreed;
    limiter =
        let e : length r.live + 1 ≡ suc (length r.live) = omega arith in
        rw e at (
          acquire-Holds others r.client_key (length r.live) r.nat_limiter granted
            v.accounts.limiter);
  };
  places = record {
    is_map = v.places.is_map;
    covered = λ i h g. elim (Bool-cases (r.next == i)) [
      | inl new ↦ inl (ground arith)
      | inr old ↦ elim (v.places.covered i (ground arith) g) [
        | inl s ↦ inl (ground arith)
        | inr c ↦ inr c
      ]
    ];
    agrees = v.places.agrees;
    after_drain = v.places.after_drain;
  };
}

reserve-Inv :
    (others : ℕ) (r : Relay) (key target : Bytes) (dialed : Bool) (now : ℕ)
    → Inv others r
    → Inv others (reserve_flow r key target dialed now).0
unfolding reserve_flow
reserve-Inv others r key target dialed now v =
    elim (Bool-cases (acquire r.nat_limiter r.client_key).1) [
      | inr refused ↦ rw (refused, acquire_refused r.nat_limiter r.client_key refused) v
      | inl granted ↦ elim (Bool-cases dialed) [
        | inr failed ↦
            rw (granted, failed)
              (record {
                accounts = record {
                  distinct = v.accounts.distinct;
                  fresh = v.accounts.fresh;
                  agreed = v.accounts.agreed;
                  limiter =
                      release-Holds others r.client_key (length r.live)
                        (acquire r.nat_limiter r.client_key).0
                        (acquire-Holds others r.client_key (length r.live) r.nat_limiter granted
                          v.accounts.limiter);
                };
                places = record {
                  is_map = v.places.is_map;
                  covered = v.places.covered;
                  agrees = v.places.agrees;
                  after_drain = v.places.after_drain;
                };
              })
        | inl reached ↦ rw (granted, reached) (created-Inv others r _ refl granted v)
      ]
    ]

pub open-Inv :
    (others : ℕ) (r : Relay) (key target : Bytes) (o : Outcome) (now : ℕ)
    → Inv others r
    → Inv others (open_flow r key target o now).0
unfolding open_flow load
open-Inv others r key target o now v = elim (Bool-cases r.done) [
  | inl over ↦ simp over v
  | inr running ↦ elim (Option-cases (lookup key r.table)) [
    | inr (e, known) ↦ simp (running, known) v
    | inl new ↦ elim (Bool-cases o.routed) [
      | inr lost ↦ simp (running, new, lost) v
      | inl routed ↦ elim (Bool-cases o.packet_dialer) [
        | inr other ↦ simp (running, new, routed, other) v
        | inl dialer ↦
            simp (running, new, routed, dialer) (reserve-Inv others r key target o.dialed now v)
      ]
    ]
  ]
]
