-- ===== src/Http/Connect.antt =====
-- The tunnel of `handleConnect` in internal/http/http.go, once the connection is taken over: the two
-- goroutines of its error group, with `ServeProxyError` of utils.go. What the transport does is a choice
-- of the steps: it tells one address at most, writes to the client, and may close it.
pub mod Answered
use spaceship.Base.{
  ℕ, Bool, true, false, ◌||◌, List, [], ◌∷◌, ◌++◌, Option, none, some, Bytes, ◌≡◌, ◌⊎◌,
  if◌then◌else◌,
}
use spaceship.Hosts.{is_empty}
use spaceship.Transport.Session.{Error, end_of_file, canceled, copy_failed, dial_failed}

pub data Failure : Type 0 where
  handshake_failed write_failed : Failure
  of_transport : Error → Failure

-- What the client is written: the message that the connection is established, bytes of the tunnel, and
-- the message that the service is unavailable.
pub data Piece : Type 0 where
  established unavailable : Piece
  relayed : Bytes → Piece

-- The goroutine that calls the transport. The channel of the address is closed when it leaves.
pub data Proxying : Type 0 where
  dialing copying : Proxying
  leaving returned : Option Error → Proxying

-- The goroutine that waits for the address.
pub data Waiter : Type 0 where
  waiting : Waiter
  told : Bytes → Waiter
  answered : Option Failure → Waiter

-- `local_addr` is the address that the transport has told, `client_closed` says that it has closed the
-- client, and `failed` is the first error of the group.
pub record Connect : Type 0 where
  pub written : List Piece
  pub proxy : Proxying
  pub waiter : Waiter
  pub local_addr : Option Bytes
  pub client_closed : Bool
  pub context_done : Bool
  pub failed : Option Failure

unfoldable pub start_connect : Connect
start_connect = record {
  written = [];
  proxy = dialing;
  waiter = waiting;
  local_addr = none;
  client_closed = false;
  context_done = false;
  failed = none;
}

abbrev pub first_failure : Option Failure → Option Failure → Option Failure
first_failure none e = e
first_failure (some f) e = some f

abbrev pub is_failure : Option Failure → Bool
is_failure none = false
is_failure (some f) = true

-- A goroutine of the group returns.
unfoldable pub conclude : Connect → Option Failure → Connect
conclude s e = record s {
  failed = first_failure s.failed e;
  context_done = s.context_done || is_failure e;
}

abbrev pub transported : Option Error → Option Failure
transported none = none
transported (some e) = some (of_transport e)

unfoldable pub hand_over : Connect → Bytes → Connect
hand_over s addr = record s { proxy = copying; waiter = told addr; local_addr = some addr }

unfoldable pub proxy_returns : Connect → Option Error → Connect
unfolding conclude
proxy_returns s e = conclude (record s { proxy = returned e }) (transported e)

-- The end of the waiter, with an address or where the channel is closed. `writes` is whether the write
-- to the client succeeds.
unfoldable pub answer_with : Connect → Option Failure → Connect
unfolding conclude
answer_with s e = conclude (record s { waiter = answered e }) e

unfoldable pub announce : Connect → Bytes → (writes : Bool) → Connect
unfolding answer_with
announce s addr writes =
    if is_empty addr
    then answer_with s (some handshake_failed)
    else if writes
    then answer_with (record s { written = s.written ++ established ∷ [] }) none
    else answer_with s (some write_failed)

-- The transport is at work, and has not closed the channel.
abbrev pub is_proxying : Proxying → Bool
is_proxying dialing = true
is_proxying copying = true
is_proxying (leaving e) = false
is_proxying (returned e) = false

pub data Step (s : Connect) : Connect → Type 0 where
  hands_over : (addr : Bytes) → s.proxy ≡ dialing → s.waiter ≡ waiting → Step s (hand_over s addr)
  relays :
      (chunk : Bytes)
      → is_proxying s.proxy ≡ true
      → s.client_closed ≡ false
      → Step s (record s { written = s.written ++ relayed chunk ∷ [] })
  closes : is_proxying s.proxy ≡ true → Step s (record s { client_closed = true })
  leaves : (e : Option Error) → is_proxying s.proxy ≡ true → Step s (record s { proxy = leaving e })
  returns : (e : Option Error) → s.proxy ≡ leaving e → Step s (proxy_returns s e)
  announces :
      (addr : Bytes) (writes : Bool)
      → s.waiter ≡ told addr
      → (writes ≡ true → s.client_closed ≡ false)
      → Step s (announce s addr writes)
  misses :
      s.waiter ≡ waiting
      → is_proxying s.proxy ≡ false
      → Step s (answer_with s (some handshake_failed))
  interrupts : Step s (record s { context_done = true })

pub data Reach (s : Connect) : Connect → Type 0 where
  here : Reach s s
  next : {t u : Connect} → Reach s t → Step t u → Reach s u

-- `ServeProxyError` says nothing of the end of the file and of a cancellation.
unfoldable pub is_silent : Failure → Bool
is_silent handshake_failed = false
is_silent write_failed = false
is_silent (of_transport end_of_file) = true
is_silent (of_transport canceled) = true
is_silent (of_transport (copy_failed n)) = false
is_silent (of_transport dial_failed) = false

unfoldable pub serve_proxy_error : Failure → List Piece
serve_proxy_error f = if is_silent f then [] else unavailable ∷ []

-- All that the client has been written when the handler returns.
unfoldable pub report : Connect → List Piece
unfolding serve_proxy_error
report s = elim s.failed [
  | none ↦ s.written
  | some f ↦ if s.client_closed then s.written else s.written ++ serve_proxy_error f
]
