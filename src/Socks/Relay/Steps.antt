-- ===== src/Socks/Relay/Steps.antt =====
-- The interleavings of a relay's goroutines, and its invariant.
use spaceship.Base.{
  ℕ, ◌+◌, ◌<◌, ◌⊎◌, inl, inr, true, false, List, [], ◌∷◌, Option, none, some, ◌≡◌, arith, Bytes,
  lookup, IsMap, length, ◌==◌, if◌then◌else◌, Bool-cases, same_iff, same, Bool, subst, sym,
}
use spaceship.Socks.Limiter.Bounds.{IsValid, release_counted, release-IsValid, count-lower}
use spaceship.Socks.Limiter.{Limiter, acquire, release, count}
use spaceship.Socks.Nat.{Entry}
use spaceship.Socks.Relay.Ids.{
  Distinct, has-without, without-Distinct, length-without, serves, serves_at,
}
use spaceship.Socks.Relay.{
  Relay, Flow, Outcome, has, without, close_entry, open_flow, install_flow, recheck_flow,
  finish_flow, Closing, not_closing, closing_done, closing_entries, has_closed, close_done,
  drain_table, close_next, release_association, take_elsewhere, give_elsewhere,
}

abbrev pub In : Flow → List Flow → Type 0
In f [] = ⊥
In f (g ∷ gs) = (f ≡ g) ⊎ In f gs

-- One critical section of some goroutine, a stage of `Close`, or another relay at the shared limiter,
-- of this client or of another one: it takes what it is granted, and gives back only what it holds.
pub data Step (r : Relay) : Relay → Type 0 where
  dial : (key target : Bytes) (o : Outcome) (now : ℕ) → Step r (open_flow r key target o now).0
  install : (f : Flow) → In f r.dialed → Step r (install_flow r f).0
  recheck : (f : Flow) → In f r.installed → Step r (recheck_flow r f).0
  finish : (f : Flow) → In f r.serving → Step r (finish_flow r f)
  shuts : Step r (close_done r)
  drains : r.closing ≡ closing_done → Step r (drain_table r)
  closes :
      (e : Entry) (es : List Entry)
      → r.closing ≡ closing_entries (e ∷ es)
      → Step r (close_next r e es)
  releases : r.closing ≡ closing_entries [] → Step r (release_association r)
  takes :
      (client : Bytes) → (acquire r.nat_limiter client).1 ≡ true → Step r (take_elsewhere r client)
  gives :
      (client : Bytes)
      → (same client r.client_key ≡ true → 0 < r.others)
      → Step r (give_elsewhere r client)

pub data Reach (r : Relay) : Relay → Type 0 where
  here : Reach r r
  next : {s t : Relay} → Reach r s → Step s t → Reach r t

-- The limiter counts, for this client, the grants of others and one for each of `n` entries.
abbrev pub Holds : ℕ → Bytes → ℕ → Option Limiter → Type 0
Holds others c n none = Unit
Holds others c n (some l) = IsValid l × (count l c ≡ others + n)

pub record Accounts (others : ℕ) (r : Relay) : Type 0 where
  pub distinct : Distinct r.live
  pub fresh : (i : ℕ) → has i r.live ≡ true → i < r.next
  pub limiter : Holds others r.client_key (length r.live) r.nat_limiter
  pub agreed : r.others ≡ others

-- `Close` has begun; it has drained the table; and what it has left to close.
abbrev pub is_closing : Closing → Bool
is_closing not_closing = false
is_closing closing_done = true
is_closing (closing_entries es) = true
is_closing has_closed = true

abbrev pub is_drained : Closing → Bool
is_drained not_closing = false
is_drained closing_done = false
is_drained (closing_entries es) = true
is_drained has_closed = true

abbrev pub ids : List Entry → List ℕ
ids [] = []
ids (e ∷ es) = e.id ∷ ids es

abbrev pub left_over : Closing → List ℕ
left_over not_closing = []
left_over closing_done = []
left_over (closing_entries es) = ids es
left_over has_closed = []

-- Where an open entry is, but for those of `gone`: behind its dial, or in the table; and once `Close`
-- has drained the table, it holds only what a goroutine is about to look at again.
pub record Places (gone : List ℕ) (r : Relay) : Type 0 where
  pub is_map : IsMap r.table
  pub covered :
      (i : ℕ)
      → has i r.live ≡ true
      → has i gone ≡ false
      → (serves i r.dialed ≡ true)
        ⊎ ((k : Bytes) × (e : Entry) × (lookup k r.table ≡ some e) × (e.id ≡ i))
  pub agrees : r.done ≡ is_closing r.closing
  pub after_drain :
      is_drained r.closing ≡ true
      → (k : Bytes) (e : Entry) → lookup k r.table ≡ some e
      → serves_at k e.id r.installed ≡ true

pub record Inv (others : ℕ) (r : Relay) : Type 0 where
  pub accounts : Accounts others r
  pub places : Places (left_over r.closing) r

pub has-close_entry :
    (r : Relay) (e : Entry) (i : ℕ)
    → has i (close_entry r e).live ≡ (if e.id == i then false else has i r.live)
unfolding close_entry
has-close_entry r e i = ground (arith, has-without i e.id r.live)

pub release-Holds :
    (others : ℕ) (c : Bytes) (n : ℕ) (l : Option Limiter)
    → Holds others c (n + 1) l
    → Holds others c n (release l c)
release-Holds others c n none h = unfold release in tt
release-Holds others c n (some l) h =
    let e = release_counted l c h.0 (omega (arith, h.1)) in
    rw e (rw e at (release-IsValid l c h.0), ground (arith, count-lower l c c, same_iff c c, h.1))

pub close_entry-Accounts :
    (others : ℕ) (r : Relay) (e : Entry) → Accounts others r → Accounts others (close_entry r e)
unfolding close_entry
close_entry-Accounts others r e a = elim (Bool-cases (has e.id r.live)) [
  | inr gone ↦ rw gone a
  | inl held ↦
      let size = length-without e.id r.live a.distinct held in
      rw held (record {
        distinct = without-Distinct e.id r.live a.distinct;
        fresh = λ i h. a.fresh i (ground (arith, has-without i e.id r.live));
        limiter =
            release-Holds others r.client_key (length (without e.id r.live)) r.nat_limiter
              (rw size a.limiter);
        agreed = a.agreed;
      })
]

pub closing-close_entry : (r : Relay) (e : Entry) → (close_entry r e).closing ≡ r.closing
unfolding close_entry
closing-close_entry r e = ground arith

-- What holds for the stage that `Close` had come to holds for the one that it has come to.
pub at_stage :
    (s : Relay) (c : Closing)
    → s.closing ≡ c
    → Places (left_over c) s
    → Places (left_over s.closing) s
at_stage s c e p = subst (λ x. Places (left_over x) s) (sym e) p

pub close_entry-Places :
    (gone : List ℕ) (r : Relay) (e : Entry) → Places (e.id ∷ gone) r → Places gone (close_entry r e)
unfolding close_entry has
close_entry-Places gone r e p = elim (Bool-cases (has e.id r.live)) [
  | inr closed ↦ rw closed (record {
    is_map = p.is_map;
    covered = λ i h g. p.covered i h (ground arith);
    agrees = p.agrees;
    after_drain = p.after_drain;
  })
  | inl held ↦ rw held (record {
    is_map = p.is_map;
    covered =
        λ i h g. let still = has-without i e.id r.live in p.covered i (ground arith) (ground arith);
    agrees = p.agrees;
    after_drain = p.after_drain;
  })
]
