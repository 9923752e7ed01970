-- ===== src/Socks/Relay/Drains.antt =====
-- A closed relay comes to rest: its goroutines have critical sections left to take, and once they
-- have taken them every flow is closed.
use spaceship.Base.{
  ap, ℕ, suc, zero, ◌*◌, ◌+◌, ◌<◌, true, List, [], ◌∷◌, Option, none, some, ◌≡◌, refl, arith,
  length, inl, inr, Bool-cases, List-cases, ◌⊎◌, subst, ◌∙◌, sym, same_iff,
}
use spaceship.Socks.Limiter.Bounds.{IsValid}
use spaceship.Socks.Limiter.{Limiter, count}
use spaceship.Socks.Nat.{Entry, install, delete_if, drain}
use spaceship.Socks.Relay.NoLeak.{IsFresh, fresh-Inv, Reach-Inv, closed-no_leak}
use spaceship.Socks.Relay.Steps.{
  Step, In, Reach, here, next, install as install_step, recheck, finish, drains, closes, releases,
  is_closing,
}
use spaceship.Socks.Relay.{
  Relay, Flow, has, leave, close_entry, close_evicted, install_flow, recheck_flow, finish_flow,
  Closing, not_closing, closing_done, closing_entries, has_closed, drain_table, close_next,
  release_association, or_default, default_max_nat_entries,
}

-- How many critical sections the goroutines behind a dial, behind `Install` and of `reverseRelay` have
-- left at most.
pub waiting : Relay → ℕ
waiting r = 3 * length r.dialed + (2 * length r.installed + length r.serving)

length-leave : (f : Flow) (fs : List Flow) → In f fs → length (leave f fs) + 1 ≡ length fs
unfolding leave
length-leave f [] i = elim i [ ]
length-leave f (g ∷ gs) (inl e) = ground (arith, same_iff g.0 f.0)
length-leave f (g ∷ gs) (inr i) = ground (arith, length-leave f gs i)

-- Closing entries leaves the goroutines, the stage of `Close` and the flag alone.
record Keeps (r s : Relay) : Type 0 where
  done : s.done ≡ r.done
  dialed : s.dialed ≡ r.dialed
  installed : s.installed ≡ r.installed
  serving : s.serving ≡ r.serving
  closing : s.closing ≡ r.closing

close_entry-Keeps : (r : Relay) (e : Entry) → Keeps r (close_entry r e)
unfolding close_entry
close_entry-Keeps r e = elim (Bool-cases (has e.id r.live)) [
  | inl held ↦
      rw held
        (record { done = refl; dialed = refl; installed = refl; serving = refl; closing = refl })
  | inr gone ↦
      rw gone
        (record { done = refl; dialed = refl; installed = refl; serving = refl; closing = refl })
]

close_evicted-Keeps : (r : Relay) (o : Option Entry) → Keeps r (close_evicted r o)
unfolding close_evicted
close_evicted-Keeps r none = record {
  done = refl;
  dialed = refl;
  installed = refl;
  serving = refl;
  closing = refl;
}
close_evicted-Keeps r (some old) = close_entry-Keeps r old

-- A critical section that brings the relay closer to rest.
record Nears (r s : Relay) : Type 0 where
  done : s.done ≡ r.done
  closing : s.closing ≡ r.closing
  fewer : waiting s < waiting r

install-Nears : (r : Relay) (f : Flow) → In f r.dialed → Nears r (install_flow r f).0
unfolding install_flow waiting
install-Nears r (key, entry) i =
    let limit = or_default r.max_nat_entries default_max_nat_entries in
    let put = install r.table key entry limit in
    let stored = record r { table = put.table; dialed = leave (key, entry) r.dialed } in
    let kept = close_evicted-Keeps stored put.evicted in
    let closed = close_entry-Keeps (close_evicted stored put.evicted) entry in
    let size = length-leave (key, entry) r.dialed i in
    elim (Bool-cases put.installed) [
      | inl new ↦
          rw (new, install_flow)
            (record {
              done = kept.done;
              closing = kept.closing;
              fewer = ground (arith, kept.dialed, kept.installed, kept.serving);
            })
      | inr second ↦
          rw (second, install_flow)
            (record {
              done = closed.done ∙ kept.done;
              closing = closed.closing ∙ kept.closing;
              fewer = ground (
                arith, closed.dialed, closed.installed, closed.serving, kept.dialed, kept.installed,
                kept.serving,
              );
            })
    ]

recheck-Nears :
    (r : Relay) (f : Flow) → In f r.installed → r.done ≡ true → Nears r (recheck_flow r f).0
unfolding recheck_flow waiting
recheck-Nears r (key, entry) i over =
    let size = length-leave (key, entry) r.installed i in
    let left = record r {
      done = true;
      installed = leave (key, entry) r.installed;
      table = (delete_if r.table key entry).0;
    } in
    let closed = close_entry-Keeps left entry in
    simp (over, recheck_flow)
      (record {
        done = closed.done ∙ sym over;
        closing = closed.closing;
        fewer = ground (arith, closed.dialed, closed.installed, closed.serving);
      })

finish-Nears : (r : Relay) (f : Flow) → In f r.serving → Nears r (finish_flow r f)
unfolding finish_flow waiting
finish-Nears r (key, entry) i =
    let size = length-leave (key, entry) r.serving i in
    let closed = close_entry-Keeps r entry in
    record {
      done = closed.done;
      closing = closed.closing;
      fewer =
          let same_list = ap (λ l. length (leave (key, entry) l)) closed.serving in
          ground (arith, closed.dialed, closed.installed);
    }

before : {r s t : Relay} → Step r s → Reach s t → Reach r t
before st here = next here st
before st (next p last) = next (before st p) last

-- `Close` is over, and no goroutine of the relay has a critical section left.
pub record IsAtRest (s : Relay) : Type 0 where
  pub closing : s.closing ≡ has_closed
  pub dialed : s.dialed ≡ []
  pub installed : s.installed ≡ []
  pub serving : s.serving ≡ []

head_In : (f : Flow) (fs l : List Flow) → l ≡ f ∷ fs → In f l
head_In f fs l e = subst (In f) (sym e) (inl refl)

-- One goroutine that has a section left takes its next one, or there is none.
step_on :
    (r : Relay)
    → r.done ≡ true
    → r.closing ≡ has_closed
    → IsAtRest r ⊎ ((s : Relay) × Step r s × Nears r s)
step_on r over shut = elim (List-cases r.dialed) [
  | inr (f, fs, e) ↦
      let i = head_In f fs r.dialed e in
      inr ((install_flow r f).0, install_step f i, install-Nears r f i)
  | inl d ↦ elim (List-cases r.installed) [
    | inr (f, fs, e) ↦
        let i = head_In f fs r.installed e in
        inr ((recheck_flow r f).0, recheck f i, recheck-Nears r f i over)
    | inl e ↦ elim (List-cases r.serving) [
      | inr (f, fs, k) ↦
          let i = head_In f fs r.serving k in inr (finish_flow r f, finish f i, finish-Nears r f i)
      | inl k ↦ inl (record { closing = shut; dialed = d; installed = e; serving = k })
    ]
  ]
]

comes_to_rest :
    (n : ℕ) (r : Relay)
    → waiting r < n
    → r.done ≡ true
    → r.closing ≡ has_closed
    → (s : Relay) × Reach r s × IsAtRest s
comes_to_rest zero r h over shut = elim h [ ]
comes_to_rest (suc n) r h over shut = elim (step_on r over shut) [
  | inl rest ↦ (r, here, rest)
  | inr (s, st, near) ↦
      let (t, p, rest) =
        comes_to_rest n s (omega (arith, near.fewer)) (near.done ∙ over) (near.closing ∙ shut) in
      (t, before st p, rest)
]

Reach-trans : {r s t : Relay} → Reach r s → Reach s t → Reach r t
Reach-trans p here = p
Reach-trans p (next q last) = next (Reach-trans p q) last

-- `Close` goes through its stages.
abbrev Closed : Relay → Type 0
Closed r = (s : Relay) × Reach r s × (s.done ≡ true) × (s.closing ≡ has_closed)

release_association-over :
    (r : Relay)
    → r.done ≡ true
    → ((release_association r).done ≡ true) × ((release_association r).closing ≡ has_closed)
unfolding release_association
release_association-over r over = elim (Bool-cases r.association_held) [
  | inl e ↦ rw (e, release_association) (over, refl)
  | inr e ↦ rw (e, release_association) (over, refl)
]

closes_entries :
    (es : List Entry) (r : Relay) → r.done ≡ true → r.closing ≡ closing_entries es → Closed r
unfolding close_next
closes_entries [] r over stage =
    let (still, shut) = release_association-over r over in
    (release_association r, next here (releases stage), still, shut)
closes_entries (e ∷ es) r over stage =
    let kept = close_entry-Keeps r e in
    let (s, p, still, shut) = closes_entries es (close_next r e es) (kept.done ∙ over) refl in
    (s, before (closes e es stage) p, still, shut)

closes_down :
    (c : Closing) (r : Relay) → r.closing ≡ c → is_closing c ≡ true → r.done ≡ true → Closed r
unfolding drain_table
closes_down not_closing r stage begun over = absurd (cc)
closes_down closing_done r stage begun over =
    let (s, p, still, shut) = closes_entries (drain r.table).1 (drain_table r) over refl in
    (s, before (drains stage) p, still, shut)
closes_down (closing_entries es) r stage begun over = closes_entries es r over stage
closes_down has_closed r stage begun over = (r, here, over, stage)

-- From every state that a relay reaches once `Close` has closed `done`, `Close` can go through its
-- remaining stages and the goroutines, those of `reverseRelay` included, can take their remaining
-- critical sections: a state is reachable in which `Close` is over and none has one left, and there
-- every entry that was ever created is closed, and the limiter counts for the client exactly what its
-- other relays hold.
pub closed-drains :
    (r s : Relay) (l : Limiter)
    → IsFresh r l
    → IsValid l
    → Reach r s
    → s.done ≡ true
    → (t : Relay) × Reach s t
      × IsAtRest t
      × (t.live ≡ [])
      × ((l' : Limiter) → t.nat_limiter ≡ some l' → count l' t.client_key ≡ t.others)
closed-drains r s l f valid p over =
    let v = Reach-Inv (fresh-Inv r l f valid) p in
    let begun : is_closing s.closing ≡ true = sym v.places.agrees ∙ over in
    let (m, down, still, shut) = closes_down s.closing s refl begun over in
    let (t, q, rest) = comes_to_rest (suc (waiting m)) m (omega arith) still shut in
    let whole = Reach-trans down q in
    let (live, counts) =
      closed-no_leak r t l f valid (Reach-trans p whole) rest.closing rest.dialed rest.installed in
    (t, whole, rest, live, counts)
