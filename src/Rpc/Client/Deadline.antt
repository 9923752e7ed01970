-- ===== src/Rpc/Client/Deadline.antt =====
-- `pipeDeadline` of internal/transport/rpc/client/packet_conn.go. Channels are numbered as they are
-- made; the callback of the timer runs at some point behind its expiry, outside the mutex.
pub mod Safe
use spaceship.Base.{
  ℕ, ◌+◌, ◌≤◌, ◌<◌, ◌⊎◌, inl, inr, Bool, true, false, List, [], ◌∷◌, ◌≡◌, refl, arith, ◌==◌, ◌||◌,
  if◌then◌else◌, Bool-cases,
}

-- The field of the timer: nil, or a timer that runs, or one that has fired. A fired timer stays in
-- the field, also when its callback has run.
pub data Timer : Type 0 where
  off armed expired : Timer

-- `callbacks` are the callbacks that timers have started and that have not run yet, whatever the field
-- says by then; `crashed` is the panic of closing a closed channel.
pub record Deadline : Type 0 where
  pub timer : Timer
  pub callbacks : ℕ
  pub cancel : ℕ
  pub closed : List ℕ
  pub crashed : Bool

-- `isClosedChan`
unfoldable pub is_closed_chan : ℕ → List ℕ → Bool
is_closed_chan c [] = false
is_closed_chan c (d ∷ ds) = let rest = is_closed_chan c ds in (c == d) || rest

unfoldable pub make_pipe_deadline : Deadline
make_pipe_deadline = record { timer = off; callbacks = 0; cancel = 0; closed = []; crashed = false }

unfoldable pub close_cancel : Deadline → Deadline
close_cancel d =
    if is_closed_chan d.cancel d.closed
    then record d { crashed = true }
    else record d { closed = d.cancel ∷ d.closed }

-- The timer fires, and the callback runs at some later time.
unfoldable pub fire : Deadline → Deadline
fire d = record d { timer = expired; callbacks = d.callbacks + 1 }

-- The function of the timer, which reads the channel when it runs; `callbacks` others are left.
unfoldable pub callback : Deadline → ℕ → Deadline
callback d callbacks = record (close_cancel d) { callbacks = callbacks }

-- `Stop` answers false for a timer that has fired, and `set` then waits until the channel is closed.
-- This is whether it can go on.
unfoldable pub may_set : Deadline → Bool
may_set d = elim d.timer [ off ↦ true | armed ↦ true | expired ↦ is_closed_chan d.cancel d.closed ]

unfoldable pub stop_timer : Deadline → Deadline
stop_timer d = record d { timer = off }

unfoldable pub renew : Deadline → Deadline
renew d = if is_closed_chan d.cancel d.closed then record d { cancel = d.cancel + 1 } else d

-- The time that `set` gets: zero, one in the future, or one in the past.
pub data When : Type 0 where
  zero future past : When

unfoldable pub set : Deadline → When → Deadline
set d zero = renew (stop_timer d)
set d future = record (renew (stop_timer d)) { timer = armed }
set d past =
    let d' = stop_timer d in if is_closed_chan d'.cancel d'.closed then d' else close_cancel d'

pub data Step (d : Deadline) : Deadline → Type 0 where
  sets : (w : When) → may_set d ≡ true → Step d (set d w)
  expires : d.timer ≡ armed → Step d (fire d)
  calls : (n : ℕ) → d.callbacks ≡ n + 1 → Step d (callback d n)

pub data Reach (d : Deadline) : Deadline → Type 0 where
  here : Reach d d
  next : {e f : Deadline} → Reach d e → Step e f → Reach d f
