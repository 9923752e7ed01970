-- ===== src/Http/Connect/Answered.antt =====
-- What a client of a tunnel has been told once the tunnel is over.
use spaceship.Base.{
  ℕ, ◌+◌, Bool, true, false, not, ◌||◌, List, [], ◌∷◌, ◌++◌, Option, none, some, Bytes, ◌≡◌, refl,
  arith, subst, if◌then◌else◌,
}
use spaceship.Hosts.{is_empty}
use spaceship.Http.Connect.{
  Failure, Piece, established, unavailable, relayed, Proxying, dialing, copying, leaving, returned,
  waiting, told, answered, Waiter, Connect, start_connect, is_failure, conclude, transported,
  hand_over, proxy_returns, answer_with, announce, Step, hands_over, relays, closes, leaves,
  returns, announces, misses, interrupts, Reach, here, next, is_silent, serve_proxy_error, report,
}
use spaceship.Transport.Session.{Error}

abbrev pub confirms : List Piece → ℕ
confirms [] = 0
confirms (established ∷ ps) = 1 + confirms ps
confirms (unavailable ∷ ps) = confirms ps
confirms (relayed chunk ∷ ps) = confirms ps

abbrev pub refusals : List Piece → ℕ
refusals [] = 0
refusals (established ∷ ps) = refusals ps
refusals (unavailable ∷ ps) = 1 + refusals ps
refusals (relayed chunk ∷ ps) = refusals ps

confirms-append : (ps qs : List Piece) → confirms (ps ++ qs) ≡ confirms ps + confirms qs
confirms-append [] qs = omega arith
confirms-append (established ∷ ps) qs = let k = confirms-append ps qs in omega arith
confirms-append (unavailable ∷ ps) qs = confirms-append ps qs
confirms-append (relayed chunk ∷ ps) qs = confirms-append ps qs

refusals-append : (ps qs : List Piece) → refusals (ps ++ qs) ≡ refusals ps + refusals qs
refusals-append [] qs = omega arith
refusals-append (established ∷ ps) qs = refusals-append ps qs
refusals-append (unavailable ∷ ps) qs = let k = refusals-append ps qs in omega arith
refusals-append (relayed chunk ∷ ps) qs = refusals-append ps qs

-- The waiter has confirmed the tunnel; a goroutine has failed.
abbrev has_confirmed : Waiter → Bool
has_confirmed waiting = false
has_confirmed (told addr) = false
has_confirmed (answered e) = not (is_failure e)

abbrev waiter_failed : Waiter → Bool
waiter_failed waiting = false
waiter_failed (told addr) = false
waiter_failed (answered e) = is_failure e

abbrev proxy_failed : Proxying → Bool
proxy_failed dialing = false
proxy_failed copying = false
proxy_failed (leaving e) = false
proxy_failed (returned e) = is_failure (transported e)

-- A failure of the transport that is silent.
abbrev pub is_quiet : Option Error → Bool
is_quiet none = false
is_quiet (some e) = is_silent (Failure.of_transport e)

abbrev proxy_quiet : Proxying → Bool
proxy_quiet dialing = false
proxy_quiet copying = false
proxy_quiet (leaving e) = false
proxy_quiet (returned e) = is_quiet e

abbrev is_quiet_failure : Option Failure → Bool
is_quiet_failure none = false
is_quiet_failure (some f) = is_silent f

-- An address was told that is not empty.
abbrev pub is_named : Option Bytes → Bool
is_named none = false
is_named (some addr) = not (is_empty addr)

abbrev Told : Connect → Waiter → Type 0
Told s waiting = Unit {0}
Told s (told addr) = s.local_addr ≡ some addr
Told s (answered e) = is_failure e ≡ false → is_named s.local_addr ≡ true

record Inv (s : Connect) : Type 0 where
  confirmed : confirms s.written ≡ (if has_confirmed s.waiter then 1 else 0)
  refused : refusals s.written ≡ 0
  addressed : Told s s.waiter
  failing : is_failure s.failed ≡ waiter_failed s.waiter || proxy_failed s.proxy
  quiet : is_quiet_failure s.failed ≡ true → proxy_quiet s.proxy ≡ true

Step-Inv : (s t : Connect) → Step s t → Inv s → Inv t
unfolding hand_over proxy_returns conclude answer_with announce is_silent
Step-Inv s t (hands_over addr p w) v = ground arith
Step-Inv s t (relays chunk p o) v =
    let c = confirms-append s.written (relayed chunk ∷ []) in
    let n = refusals-append s.written (relayed chunk ∷ []) in ground arith
Step-Inv s t (closes p) v = ground arith
Step-Inv s t (leaves e p) v = ground arith
Step-Inv s t (returns e p) v = ground arith
Step-Inv s t (announces addr writes w o) v =
    let c = confirms-append s.written (established ∷ []) in
    let n = refusals-append s.written (established ∷ []) in ground arith
Step-Inv s t (misses w o) v = ground arith
Step-Inv s t interrupts v = ground arith

Reach-Inv : (s : Connect) → Reach start_connect s → Inv s
unfolding start_connect
Reach-Inv s here = ground arith
Reach-Inv s (next {t = t} p st) = Step-Inv t s st (Reach-Inv t p)

-- Once both goroutines of a tunnel have returned, in any order of its steps: the client has been
-- written that the connection is established exactly once if the waiter did not fail, and never if it
-- did; where it did not, the transport has told an address that is not empty. If neither goroutine
-- failed, the client is written nothing more. If the waiter failed, and the transport not just with the
-- end of the file or a cancellation, a client that is still open is written at last, and once, that the
-- service is unavailable.
pub connect-answers :
    (s : Connect) (e : Option Error) (w : Option Failure)
    → Reach start_connect s
    → s.proxy ≡ returned e
    → s.waiter ≡ answered w
    → (confirms (report s) ≡ (if is_failure w then 0 else 1))
      × (is_failure w ≡ false → is_named s.local_addr ≡ true)
      × (is_failure w ≡ false → e ≡ none → report s ≡ s.written)
      × (is_failure w ≡ true
          → is_quiet e ≡ false
          → s.client_closed ≡ false
          → (report s ≡ s.written ++ unavailable ∷ []) × (refusals (report s) ≡ 1))
unfolding report serve_proxy_error
connect-answers s e w p pe we =
    let v = Reach-Inv s p in
    let c = confirms-append s.written (unavailable ∷ []) in
    let c0 = confirms-append s.written [] in
    let n = refusals-append s.written (unavailable ∷ []) in
    let addressed : Told s (answered w) = subst (Told s) we v.addressed in
    (ground arith, addressed, (λ h k. ground arith), λ h k o. (ground arith, ground arith))

-- The transport's bytes may reach the client before it is told that the connection is established: the
-- two goroutines run on their own once the address is handed over.
overtaken :
    (addr chunk : Bytes)
    → is_empty addr ≡ false
    → (s : Connect) × Reach start_connect s
      × (s.written ≡ relayed chunk ∷ established ∷ [])
      × (s.waiter ≡ answered none)
unfolding start_connect hand_over announce answer_with conclude
overtaken addr chunk h =
    let handed = hand_over start_connect addr in
    let early = record handed { written = handed.written ++ relayed chunk ∷ [] } in
    (
      announce early addr true,
      next (next (next here (hands_over addr refl refl)) (relays chunk refl refl))
          (announces addr true refl (λ _. refl)),
      rw (h, announce) refl,
      rw (h, announce) refl,
    )
