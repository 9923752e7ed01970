-- ===== src/Transport/Closing.antt =====
-- Closing: `CloseAll` of internal/transport/copy.go, and the connections that close once, of
-- internal/utils/once_closer.go. A closer is a number, which stands for the pointer.
pub mod Once
use spaceship.Base.{
  ℕ, suc, Bool, true, false, List, [], ◌∷◌, ◌++◌, Option, none, ◌==◌, if◌then◌else◌,
}

-- A value that is passed on: a closer, nil, or a value without `Close`.
pub data Value : Type 0 where
  closer : ℕ → Value
  nil_closer no_closer : Value

unfoldable pub seen_before : ℕ → List ℕ → Bool
seen_before c [] = false
seen_before c (x ∷ xs) = if x == c then true else seen_before c xs

-- The loop, with the closers that it has seen; the result is what it closes, in order.
unfoldable pub close_all_loop : List ℕ → List Value → List ℕ
unfolding seen_before
close_all_loop seen [] = []
close_all_loop seen (closer c ∷ vs) =
    let again = close_all_loop seen vs in
    let first = c ∷ close_all_loop (seen ++ c ∷ []) vs in
    if seen_before c seen then again else first
close_all_loop seen (nil_closer ∷ vs) = close_all_loop seen vs
close_all_loop seen (no_closer ∷ vs) = close_all_loop seen vs

unfoldable pub close_all : List Value → List ℕ
close_all vs = close_all_loop [] vs

-- A connection under a wrapper: `calls` is how often the connection itself was closed, and `answer`
-- what the wrapper keeps of it.
pub record OnceConn : Type 0 where
  pub done : Bool
  pub calls : ℕ
  pub answer : Option ℕ

-- What `OnceNetConn` is given: nil, a connection, or a connection that is wrapped already.
pub data Conn : Type 0 where
  nil_conn : Conn
  bare_conn : Conn
  wrapped_conn : OnceConn → Conn

unfoldable pub once_net_conn : Conn → Conn
once_net_conn nil_conn = nil_conn
once_net_conn bare_conn = wrapped_conn (record { done = false; calls = 0; answer = none })
once_net_conn (wrapped_conn c) = wrapped_conn c

-- `Close`; `outcome` is what the connection's own `Close` would return.
unfoldable pub close_once : OnceConn → Option ℕ → OnceConn × Option ℕ
close_once c outcome =
    if c.done
    then (c, c.answer)
    else (record { done = true; calls = suc c.calls; answer = outcome }, outcome)
