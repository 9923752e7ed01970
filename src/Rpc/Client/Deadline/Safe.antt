-- ===== src/Rpc/Client/Deadline/Safe.antt =====
-- The deadline in any order of its steps.
use spaceship.Base.{
  ℕ, ◌+◌, ◌≤◌, ◌<◌, ◌⊎◌, inl, inr, Bool, true, false, List, ◌∷◌, ◌≡◌, refl, sym, subst, ==_iff, ap,
  arith, ◌==◌, Bool-cases, ltb,
}
use spaceship.Rpc.Client.Deadline.{
  Timer, armed, expired, Deadline, is_closed_chan, make_pipe_deadline, close_cancel, fire, callback,
  may_set, stop_timer, renew, When, zero, future, past, set, Step, sets, expires, calls, Reach,
  here, next, off,
}

-- The channels before the current one are closed, and those behind it are not made.
record Ordered (cancel : ℕ) (closed : List ℕ) : Type 0 where
  made : (c : ℕ) → is_closed_chan c closed ≡ true → c ≤ cancel
  old : (c : ℕ) → c < cancel → is_closed_chan c closed ≡ true

Ordered-close : (n : ℕ) (cs : List ℕ) → Ordered n cs → Ordered n (n ∷ cs)
unfolding is_closed_chan
Ordered-close n cs o = record {
  made =
      λ c h. elim (Bool-cases (is_closed_chan c cs)) [ inl e ↦ o.made c e | inr e ↦ ground arith ];
  old = λ c h. let k = o.old c h in ground arith;
}

Ordered-next :
    (n : ℕ) (cs : List ℕ)
    → is_closed_chan n cs ≡ true
    → Ordered n cs
    → Ordered (n + 1) cs × (is_closed_chan (n + 1) cs ≡ false)
Ordered-next n cs h o = (
  record {
    made = λ c k. let b = o.made c k in omega arith;
    old = λ c k. elim (Bool-cases (c == n)) [
      | inl e ↦ subst (λ x. is_closed_chan x cs ≡ true) (sym ((==_iff c n).0 e)) h
      | inr e ↦ o.old c (ground arith)
    ];
  },
  elim (Bool-cases (is_closed_chan (n + 1) cs)) [
    | inr e ↦ e
    | inl e ↦ absurd (let b = o.made (n + 1) e in omega arith)
  ],
)

-- The timer runs, or has fired.
abbrev is_armed : Timer → Bool
is_armed off = false
is_armed armed = true
is_armed expired = false

abbrev has_fired : Timer → Bool
has_fired off = false
has_fired armed = false
has_fired expired = true

record Inv (d : Deadline) : Type 0 where
  calm : d.crashed ≡ false
  ordered : Ordered d.cancel d.closed
  one : d.callbacks ≤ 1
  open_armed : is_armed d.timer ≡ true → is_closed_chan d.cancel d.closed ≡ false
  none_armed : is_armed d.timer ≡ true → d.callbacks ≡ 0
  behind : 0 < d.callbacks → has_fired d.timer ≡ true
  open_behind : 0 < d.callbacks → is_closed_chan d.cancel d.closed ≡ false
  wakes : has_fired d.timer ≡ true → is_closed_chan d.cancel d.closed ≡ false → 0 < d.callbacks

self_closed : (n : ℕ) (cs : List ℕ) → is_closed_chan n (n ∷ cs) ≡ true
unfolding is_closed_chan
self_closed n cs = ground arith

-- A setting that goes on finds no callback left to run.
may_set-Inv : (d : Deadline) → may_set d ≡ true → Inv d → d.callbacks ≡ 0
unfolding may_set
may_set-Inv d h v =
    let a = v.none_armed in
    let b = v.open_behind in
    let c = v.behind in
    let o = v.one in
    elim (Bool-cases (ltb 0 d.callbacks)) [
      | inl e ↦ absurd (let k = c (ground arith) in let n = b (ground arith) in ground arith)
      | inr e ↦ ground arith
    ]

-- The state behind the stop.
record Stopped (d : Deadline) : Type 0 where
  calm : d.crashed ≡ false
  ordered : Ordered d.cancel d.closed
  idle : d.callbacks ≡ 0
  off : d.timer ≡ Timer.off

stop_timer-Stopped : (d : Deadline) → may_set d ≡ true → Inv d → Stopped (stop_timer d)
unfolding stop_timer
stop_timer-Stopped d h v = record {
  calm = v.calm;
  ordered = v.ordered;
  idle = may_set-Inv d h v;
  off = refl;
}

renew-Stopped :
    (d : Deadline)
    → Stopped d
    → Stopped (renew d) × (is_closed_chan (renew d).cancel (renew d).closed ≡ false)
unfolding renew
renew-Stopped d v = elim (Bool-cases (is_closed_chan d.cancel d.closed)) [
  | inr e ↦ rw (e, renew) (v, e)
  | inl e ↦
      let (ordered, still) = Ordered-next d.cancel d.closed e v.ordered in
      rw (e, renew) (record { calm = v.calm; ordered = ordered; idle = v.idle; off = v.off }, still)
]

Stopped-Inv : (d : Deadline) → Stopped d → Inv d
Stopped-Inv d v =
    let e = v.off in
    let n = v.idle in
    record {
      calm = v.calm;
      ordered = v.ordered;
      one = omega arith;
      open_armed = λ h. ground arith;
      none_armed = λ h. n;
      behind = λ h. absurd (omega arith);
      open_behind = λ h. absurd (omega arith);
      wakes = λ h. absurd (ground arith);
    }

set-Inv : (d : Deadline) (w : When) → may_set d ≡ true → Inv d → Inv (set d w)
unfolding set close_cancel
set-Inv d zero h v =
    Stopped-Inv (renew (stop_timer d)) (renew-Stopped (stop_timer d) (stop_timer-Stopped d h v)).0
set-Inv d future h v =
    let (s, still) = renew-Stopped (stop_timer d) (stop_timer-Stopped d h v) in
    let n = s.idle in
    record {
      calm = s.calm;
      ordered = s.ordered;
      one = omega arith;
      open_armed = λ _. still;
      none_armed = λ _. n;
      behind = λ k. absurd (omega arith);
      open_behind = λ k. absurd (omega arith);
      wakes = λ k. cc;
    }
set-Inv d past h v =
    let s = stop_timer-Stopped d h v in
    let d' = stop_timer d in
    elim (Bool-cases (is_closed_chan d'.cancel d'.closed)) [
      | inl e ↦ rw (e, set) (Stopped-Inv d' s)
      | inr e ↦
          rw (e, set, close_cancel)
            (Stopped-Inv (record d' { closed = d'.cancel ∷ d'.closed })
              (record {
                calm = s.calm;
                ordered = Ordered-close d'.cancel d'.closed s.ordered;
                idle = s.idle;
                off = s.off;
              }))
    ]

fire-Inv : (d : Deadline) → d.timer ≡ armed → Inv d → Inv (fire d)
unfolding fire
fire-Inv d h v =
    let running : is_armed d.timer ≡ true = ap is_armed h in
    let n = v.none_armed running in
    let still = v.open_armed running in
    record {
      calm = v.calm;
      ordered = v.ordered;
      one = omega arith;
      open_armed = λ k. cc;
      none_armed = λ k. cc;
      behind = λ k. refl;
      open_behind = λ k. still;
      wakes = λ k o. omega arith;
    }

callback-Inv : (d : Deadline) (n : ℕ) → d.callbacks ≡ n + 1 → Inv d → Inv (callback d n)
unfolding callback close_cancel
callback-Inv d n h v =
    let some_left : 0 < d.callbacks = omega arith in
    let still = v.open_behind some_left in
    let fired = v.behind some_left in
    let one = v.one in
    let shut = self_closed d.cancel d.closed in
    rw (still, callback, close_cancel)
      (record {
        calm = v.calm;
        ordered = Ordered-close d.cancel d.closed v.ordered;
        one = omega arith;
        open_armed = λ k. absurd (ground arith);
        none_armed = λ k. omega arith;
        behind = λ k. fired;
        open_behind = λ k. absurd (omega arith);
        wakes = λ k o. absurd (cc);
      })

Step-Inv : (d e : Deadline) → Step d e → Inv d → Inv e
Step-Inv d e (sets w h) v = set-Inv d w h v
Step-Inv d e (expires h) v = fire-Inv d h v
Step-Inv d e (calls n h) v = callback-Inv d n h v

start-Inv : Inv make_pipe_deadline
unfolding make_pipe_deadline is_closed_chan
start-Inv = Stopped-Inv make_pipe_deadline (record {
  calm = refl;
  ordered = record { made = λ c h. cc; old = λ c h. absurd (omega arith) };
  idle = refl;
  off = refl;
})

Reach-Inv : (d : Deadline) → Reach make_pipe_deadline d → Inv d
Reach-Inv d here = start-Inv
Reach-Inv d (next {e} p st) = Step-Inv e d st (Reach-Inv e p)

-- In any order of settings, expiries and callbacks, which run at any time behind their timer's expiry
-- whatever becomes of the timer: no closed channel is closed again; a setting that has to wait, since
-- the timer has fired and the channel is open, waits for a callback that has yet to run, and one that
-- goes on leaves none behind; and a channel that `wait` has ever given is the current one or is closed.
pub deadline-safe :
    (d : Deadline)
    → Reach make_pipe_deadline d
    → (d.crashed ≡ false)
      × (may_set d ≡ false → d.callbacks ≡ 1)
      × (may_set d ≡ true → d.callbacks ≡ 0)
      × ((c : ℕ) → c ≤ d.cancel → (c ≡ d.cancel) ⊎ (is_closed_chan c d.closed ≡ true))
unfolding may_set
deadline-safe d p =
    let v = Reach-Inv d p in
    (
      v.calm,
      (λ h.
          let o = v.one in
          elim (Bool-cases (is_closed_chan d.cancel d.closed)) [
            | inl e ↦ absurd (ground arith)
            | inr e ↦ (let k = v.wakes (ground arith) e in omega arith)
          ]),
      (λ h. may_set-Inv d h v),
      λ c h. elim (Bool-cases (c == d.cancel)) [
        | inl e ↦ inl ((==_iff c d.cancel).0 e)
        | inr e ↦ inr (v.ordered.old c (ground arith))
      ],
    )
