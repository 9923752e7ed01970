-- ===== src/Socks/Relay/NoLeak.antt =====
-- Every interleaving keeps the relay's invariant, so no flow outlives a closed relay.
use spaceship.Base.{
  ℕ, ◌+◌, ◌-◌, ◌≤◌, ◌<◌, inl, inr, true, false, List, [], ◌∷◌, Option, none, some, Bytes, ◌≡◌, refl,
  ◌∙◌, sym, ap, subst, arith, lookup, length, Bool-cases, same, same_iff, ltb, if◌then◌else◌,
}
use spaceship.Socks.Limiter.Bounds.{
  IsValid, acquire-IsValid, release-IsValid, release_counted, count-raise, count-lower,
}
use spaceship.Socks.Limiter.{Limiter, count, acquire, release}
use spaceship.Socks.Relay.Ids.{serves, serves_at}
use spaceship.Socks.Relay.Steps.{
  Step, dial, install as install_step, recheck, finish, shuts, drains, closes, releases, takes,
  gives, Reach, here, next, Holds, Inv, is_closing, is_drained, left_over,
}
use spaceship.Socks.Relay.Installs.{install-Inv}
use spaceship.Socks.Relay.{Relay, has, not_closing, has_closed, take_elsewhere, give_elsewhere}
use spaceship.Socks.Relay.Opens.{open-Inv, acquire_granted}
use spaceship.Socks.Relay.Ends.{
  recheck-Inv, finish-Inv, close_done-Inv, drain_table-Inv, close_next-Inv, release_association-Inv,
}

settled : (others : ℕ) (s : Relay) → Inv others s → Inv s.others s
settled others s v = subst (λ n. Inv n s) (sym v.accounts.agreed) v

-- Another relay takes or gives a grant: the invariant holds for what the others hold then.
moved :
    (r : Relay) (l : Option Limiter) (n : ℕ)
    → Holds n r.client_key (length r.live) l
    → Inv r.others r
    → Inv n (record r { nat_limiter = l; others = n })
moved r l n h v = record {
  accounts = record {
    distinct = v.accounts.distinct;
    fresh = v.accounts.fresh;
    limiter = h;
    agreed = refl;
  };
  places = record {
    is_map = v.places.is_map;
    covered = v.places.covered;
    agrees = v.places.agrees;
    after_drain = v.places.after_drain;
  };
}

take-Holds :
    (o : ℕ) (c client : Bytes) (n : ℕ) (l : Option Limiter)
    → (acquire l client).1 ≡ true
    → Holds o c n l
    → Holds (if same client c then o + 1 else o) c n (acquire l client).0
take-Holds o c client n none g h = unfold acquire in tt
take-Holds o c client n (some l) g h =
    let e = acquire_granted l client g in
    rw e (rw e at (acquire-IsValid l client h.0), ground (arith, count-raise l client c, h.1))

give-Holds :
    (o : ℕ) (c client : Bytes) (n : ℕ) (l : Option Limiter)
    → (same client c ≡ true → 0 < o)
    → Holds o c n l
    → Holds (if same client c then o - 1 else o) c n (release l client)
give-Holds o c client n none g h = unfold release in tt
give-Holds o c client n (some l) g h = elim (Bool-cases (ltb 0 (count l client))) [
  | inl held ↦
      let e = release_counted l client h.0 (ground arith) in
      rw e (
        rw e at (release-IsValid l client h.0),
        ground (arith, count-lower l client c, same_iff client c, h.1, g),
      )
  | inr nothing ↦
      let e : release (some l) client ≡ some l = unfold release in ground arith in
      rw e (h.0, ground (arith, same_iff client c, h.1, g))
]

pub Step-Inv : {r s : Relay} → Step r s → Inv r.others r → Inv s.others s
unfolding take_elsewhere give_elsewhere
Step-Inv {r} {s} (dial key target o now) v =
    settled r.others s (open-Inv r.others r key target o now v)
Step-Inv {r} {s} (install_step f _) v = settled r.others s (install-Inv r.others r f v)
Step-Inv {r} {s} (recheck f _) v = settled r.others s (recheck-Inv r.others r f v)
Step-Inv {r} {s} (finish f _) v = settled r.others s (finish-Inv r.others r f v)
Step-Inv {r} {s} shuts v = settled r.others s (close_done-Inv r.others r v)
Step-Inv {r} {s} (drains e) v = settled r.others s (drain_table-Inv r.others r e v)
Step-Inv {r} {s} (closes x es e) v = settled r.others s (close_next-Inv r.others r x es e v)
Step-Inv {r} {s} (releases e) v = settled r.others s (release_association-Inv r.others r e v)
Step-Inv {r} {s} (takes client g) v =
    moved r (acquire r.nat_limiter client).0 s.others
      (take-Holds r.others r.client_key client (length r.live) r.nat_limiter g v.accounts.limiter) v
Step-Inv {r} {s} (gives client g) v =
    moved r (release r.nat_limiter client) s.others
      (give-Holds r.others r.client_key client (length r.live) r.nat_limiter g v.accounts.limiter) v

pub Reach-Inv : {r s : Relay} → Inv r.others r → Reach r s → Inv s.others s
Reach-Inv v here = v
Reach-Inv v (next p st) = Step-Inv st (Reach-Inv v p)

-- A relay as `newUDPRelay` returns it, where what its client's other relays hold is counted.
pub record IsFresh (r : Relay) (l : Limiter) : Type 0 where
  pub table : r.table ≡ []
  pub live : r.live ≡ []
  pub closing : r.closing ≡ not_closing
  pub unclosed : r.done ≡ false
  pub dialed : r.dialed ≡ []
  pub installed : r.installed ≡ []
  pub limiter : r.nat_limiter ≡ some l
  pub counted : r.others ≡ count l r.client_key

pub fresh-Inv : (r : Relay) (l : Limiter) → IsFresh r l → IsValid l → Inv r.others r
unfolding has lookup
fresh-Inv r l f v = record {
  accounts = record {
    distinct = rw f.live tt;
    fresh = λ i h. ground (arith, f.live);
    limiter = rw (f.limiter, f.live) (v, (let c = f.counted in omega arith));
    agreed = refl;
  };
  places = record {
    is_map = rw f.table tt;
    covered = λ i h g. absurd (ground (arith, f.live));
    agrees = f.unclosed ∙ sym (ap is_closing f.closing);
    after_drain = λ over k e found. absurd (ground (arith, f.table));
  };
}

no_open : (l : List ℕ) → ((i : ℕ) → has i l ≡ false) → l ≡ []
unfolding has
no_open [] h = refl
no_open (i ∷ l) h = absurd (ground (arith, h i))

nothing_left :
    (others : ℕ) (s : Relay)
    → Inv others s
    → s.closing ≡ has_closed
    → s.dialed ≡ []
    → s.installed ≡ []
    → (i : ℕ) → has i s.live ≡ false
unfolding serves serves_at has
nothing_left others s v over d e i = elim (Bool-cases (has i s.live)) [
  | inr closed ↦ closed
  | inl held ↦ elim (v.places.covered i held (ap (λ c. has i (left_over c)) over)) [
    | inl waits ↦ absurd (ground (arith, d))
    | inr (k, x, found, id) ↦
        absurd (let kept = v.places.after_drain (ap is_drained over) k x found in ground (arith, e))
  ]
]

-- Take a relay as `newUDPRelay` returns it, over a valid limiter, and let its goroutines take their
-- critical sections and `Close` its stages in any order, the close of `done` before the drain of the
-- table and other goroutines in between, while other relays, of this client too, take grants at the
-- limiter and give back what they hold. Once `Close` is over and no goroutine stands behind a dial or
-- behind `Install`, every entry that was ever created has been closed, and the limiter counts for this
-- client exactly what its other relays hold.
pub closed-no_leak :
    (r s : Relay) (l : Limiter)
    → IsFresh r l
    → IsValid l
    → Reach r s
    → s.closing ≡ has_closed
    → s.dialed ≡ []
    → s.installed ≡ []
    → (s.live ≡ []) × ((l' : Limiter) → s.nat_limiter ≡ some l' → count l' s.client_key ≡ s.others)
closed-no_leak r s l f valid p over d i =
    let v = Reach-Inv (fresh-Inv r l f valid) p in
    let empty = no_open s.live (nothing_left s.others s v over d i) in
    (
      empty,
      λ l' e'.
          let h : Holds s.others s.client_key (length s.live) (some l') =
            subst (Holds s.others s.client_key (length s.live)) e' v.accounts.limiter in
          ground (arith, h.1, empty),
    )

-- In every state that such a relay reaches, a positive per-client limit bounds the entries that are
-- open, together with what the client's other relays hold.
pub flows-within :
    (r s : Relay) (l l' : Limiter)
    → IsFresh r l
    → IsValid l
    → Reach r s
    → s.nat_limiter ≡ some l'
    → 0 < l'.max_per_client
    → s.others + length s.live ≤ l'.max_per_client
flows-within r s l l' f valid p e' pos =
    let v = Reach-Inv (fresh-Inv r l f valid) p in
    let h : Holds s.others s.client_key (length s.live) (some l') =
      subst (Holds s.others s.client_key (length s.live)) e' v.accounts.limiter in
    omega (arith, h.1, h.0.client_bound pos s.client_key)
