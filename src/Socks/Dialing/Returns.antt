-- ===== src/Socks/Dialing/Returns.antt =====
-- The way back of a flow, over the rounds of its loop.
use spaceship.Base.{
  ℕ, ◌-◌, ◌==◌, Bool, true, false, not, ◌&&◌, List, [], ◌∷◌, ◌++◌, Option, none, some, Bytes, same,
  lookup, ltb, ◌≡◌, refl, ap, ◌∙◌, arith, All, Bool-cases, Option-cases, inl, inr, if◌then◌else◌,
  ==_iff,
}
use spaceship.Socks.Dialing.{
  seen_round, Written, wrote, client_closed, write_failed, Round, datagram, timed_out, read_failed,
  touch, is_kept, udp_idle_timeout, reverse_round, reverse_loop, forward_payload,
}
use spaceship.Socks.Nat.{Entry, Table, load}
use spaceship.Socks.Packets.{NetAddr, reverse_packet}
use spaceship.Transport.Stats.{Stats, add_rx}

module _ (entry : Entry) (key : Bytes) (target : NetAddr) where
  -- What a round is, seen from outside: a datagram that reaches the client, by its bytes and the
  -- number that the write answers.
  abbrev pub reaches : Round → Option (Bytes × ℕ)
  reaches (datagram buf n source (wrote k)) = elim (reverse_packet buf n source target) [
    | none ↦ none
    | some bytes ↦ some (bytes, k)
  ]
  reaches (datagram buf n source client_closed) = none
  reaches (datagram buf n source write_failed) = none
  reaches (timed_out done t now) = none
  reaches read_failed = none

  -- The rounds that end the flow.
  abbrev pub is_last : Round → Bool
  is_last (datagram buf n source (wrote k)) = false
  is_last (datagram buf n source write_failed) = false
  is_last (datagram buf n source client_closed) = elim (reverse_packet buf n source target) [
    | none ↦ false
    | some bytes ↦ true
  ]
  is_last (timed_out done t now) = not (not done && is_kept entry key t now)
  is_last read_failed = true

  abbrev pub reached : List Round → List Bytes
  reached [] = []
  reached (r ∷ rs) = elim (reaches r) [ none ↦ reached rs | some (bytes, k) ↦ bytes ∷ reached rs ]

  abbrev pub counted : Stats → List Round → Stats
  counted stats [] = stats
  counted stats (r ∷ rs) = elim (reaches r) [
    | none ↦ counted stats rs
    | some (bytes, k) ↦ counted (add_rx stats k) rs
  ]

  abbrev after_round : Stats → Option (Bytes × ℕ) → Option Bytes × Bool × Stats
  after_round stats none = (none, true, stats)
  after_round stats (some (bytes, k)) = (some bytes, true, add_rx stats k)

  reverse_round_goes :
      (stats : Stats) (r : Round)
      → is_last r ≡ false
      → reverse_round entry key target stats r ≡ after_round stats (reaches r)
  unfolding reverse_round
  reverse_round_goes stats (datagram buf n source (wrote k)) h =
      elim (Option-cases (reverse_packet buf n source target)) [
        | inl e ↦ rw (e, reverse_round, reaches, after_round) refl
        | inr (b, e) ↦ rw (e, reverse_round, reaches, after_round) refl
      ]
  reverse_round_goes stats (datagram buf n source write_failed) h =
      elim (Option-cases (reverse_packet buf n source target)) [
        | inl e ↦ rw (e, reverse_round, reaches, after_round) refl
        | inr (b, e) ↦ rw (e, reverse_round, reaches, after_round) refl
      ]
  reverse_round_goes stats (datagram buf n source client_closed) h =
      elim (Option-cases (reverse_packet buf n source target)) [
        | inl e ↦ rw (e, reverse_round, reaches, after_round) refl
        | inr (b, e) ↦ absurd (
            let k : is_last (datagram buf n source client_closed) ≡ true = rw (e, is_last) refl in
            cc)
      ]
  reverse_round_goes stats (timed_out done t now) h = ground arith
  reverse_round_goes stats read_failed h = cc

  reverse_round_stops :
      (stats : Stats) (r : Round)
      → is_last r ≡ true
      → reverse_round entry key target stats r ≡ (none, false, stats)
  unfolding reverse_round
  reverse_round_stops stats (datagram buf n source (wrote k)) h = cc
  reverse_round_stops stats (datagram buf n source write_failed) h = cc
  reverse_round_stops stats (datagram buf n source client_closed) h =
      elim (Option-cases (reverse_packet buf n source target)) [
        | inl e ↦ absurd (
            let k : is_last (datagram buf n source client_closed) ≡ false = rw (e, is_last) refl in
            cc)
        | inr (b, e) ↦ rw (e, reverse_round, reaches, after_round) refl
      ]
  reverse_round_stops stats (timed_out done t now) h = ground arith
  reverse_round_stops stats read_failed h = refl

  -- The way back of a flow, for rounds that do not end it, then one that does, and any that would
  -- follow: the client is sent, in order, exactly the datagrams that pass the checks and whose write
  -- succeeds; their bytes are counted, and no others; the loop ends at that round, and reads no more.
  pub reverse_loop-in_order :
      (stats : Stats) (before after : List Round) (end : Round)
      → All (λ r. is_last r ≡ false) before
      → is_last end ≡ true
      → reverse_loop entry key target stats (before ++ end ∷ after)
        ≡ (reached before, true, counted stats before)
  unfolding reverse_loop
  reverse_loop-in_order stats [] after end h last =
      rw (reverse_round_stops stats end last, reverse_loop) refl
  reverse_loop-in_order stats (r ∷ rs) after end (goes, h) last = elim (Option-cases (reaches r)) [
    | inl e ↦
        let rr = reverse_round_goes stats r goes ∙ ap (after_round stats) e in
        rw (rr, e, reached, counted) (reverse_loop-in_order stats rs after end h last)
    | inr ((b, k), e) ↦
        let rr = reverse_round_goes stats r goes ∙ ap (after_round stats) e in
        rw (rr, e, reached, counted)
          (ap (λ x. (b ∷ x.0, x.1, x.2))
            (reverse_loop-in_order (add_rx stats k) rs after end h last))
  ]

abbrev seen_at : ℕ → ℕ → Option Entry → Option Entry
seen_at id now none = none
seen_at id now (some e) = some (if e.id == id then record e { last_seen = now } else e)

load-touch :
    (id now : ℕ) (t : Table) (key : Bytes) → load (touch id now t) key ≡ seen_at id now (load t key)
unfolding load lookup touch
load-touch id now [] key = refl
load-touch id now ((j, e) ∷ t) key = elim (Bool-cases (same j key)) [
  | inl k ↦ rw (k, seen_at) refl
  | inr k ↦ rw (k, seen_at) (load-touch id now t key)
]

is_kept_current :
    (entry current : Entry) (key : Bytes) (t : Table) (now : ℕ)
    → load t key ≡ some current
    → current.id ≡ entry.id
    → is_kept entry key t now ≡ ltb (now - current.last_seen) udp_idle_timeout
unfolding is_kept
is_kept_current entry current key t now e k =
    let own : (current.id == entry.id) ≡ true = (==_iff current.id entry.id).1 k in
    rw (e, is_kept) (rw own refl)

-- Where the flow in the table is the loop's, a payload that was written to the target at `seen` decides
-- what a timeout of the read does that is handled at `now` while the relay is open: the loop goes on
-- exactly if less than two minutes have passed, and the client is sent nothing.
pub reverse_round-forward_payload :
    (entry current : Entry) (key : Bytes) (target : NetAddr) (t : Table) (stats later : Stats)
    (seen now n : ℕ)
    → load t key ≡ some current
    → current.id ≡ entry.id
    → reverse_round entry key target later
        (timed_out false (forward_payload t stats entry seen (some n)).0 now)
      ≡ (none, ltb (now - seen) udp_idle_timeout, later)
unfolding reverse_round forward_payload
reverse_round-forward_payload entry current key target t stats later seen now n h k =
    let own : (current.id == entry.id) ≡ true = (==_iff current.id entry.id).1 k in
    let e : load (touch entry.id seen t) key ≡ some (record current { last_seen = seen }) =
      load-touch entry.id seen t key
      ∙ ap (seen_at entry.id seen) h
      ∙ ap (λ b. some (if b then record current { last_seen = seen } else current)) own in
    ap (λ b. (none, b, later))
      (is_kept_current entry (record current { last_seen = seen }) key (touch entry.id seen t) now e
        k)

-- Where the flow in the table is the loop's, a datagram that passes the checks decides the same: the
-- flow outlives the timeouts of the next two minutes.
seen_round-kept :
    (entry current : Entry) (key : Bytes) (target source : NetAddr) (t : Table) (later : Stats)
    (buf bytes : Bytes) (n seen now : ℕ) (written : Written)
    → reverse_packet buf n source target ≡ some bytes
    → load t key ≡ some current
    → current.id ≡ entry.id
    → reverse_round entry key target later
        (timed_out false (seen_round entry key target seen (datagram buf n source written) t) now)
      ≡ (none, ltb (now - seen) udp_idle_timeout, later)
unfolding reverse_round seen_round
seen_round-kept entry current key target source t later buf bytes n seen now written passes h k =
    let own : (current.id == entry.id) ≡ true = (==_iff current.id entry.id).1 k in
    let stored : seen_round entry key target seen (datagram buf n source written) t
        ≡ touch entry.id seen t =
      rw (passes, h, own, seen_round) refl in
    let e : load (touch entry.id seen t) key ≡ some (record current { last_seen = seen }) =
      load-touch entry.id seen t key
      ∙ ap (seen_at entry.id seen) h
      ∙ ap (λ b. some (if b then record current { last_seen = seen } else current)) own in
    ap (λ x. (none, not false && is_kept entry key x now, later)) stored
    ∙ ap (λ b. (none, b, later))
        (is_kept_current entry (record current { last_seen = seen }) key (touch entry.id seen t) now
          e k)
