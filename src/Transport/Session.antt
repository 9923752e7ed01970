-- ===== src/Transport/Session.antt =====
-- The session that `Proxy` of internal/transport/direct/direct.go and of
-- internal/transport/forward/forward.go run once a connection is open: the two goroutines of its
-- error group, with `CopyWithContext` of internal/transport/copy.go. `io.CopyBuffer` is seen as the
-- chunks that it copies and the error that it returns, none where the source ended.
pub mod Ends
use spaceship.Base.{
  ℕ, Bool, true, false, ◌++◌, [], Option, none, some, Bytes, ◌≡◌, length, if◌then◌else◌, ◌||◌,
}
use spaceship.Transport.Stats.{Stats, Direction, outward, inward, add}

-- `canceled` is the error of a context that has ended.
pub data Error : Type 0 where
  end_of_file canceled : Error
  copy_failed : ℕ → Error
  dial_failed : Error

pub data Side : Type 0 where
  running : Side
  returned : Option Error → Side

-- `sent` is what the connection was given, and `received` what the caller's writer was given.
-- `session_closed` says that `closeSession` has run, `write_closed` that the connection was closed for
-- writing alone, and `conn_closed` that all of it was closed. `half_closes` is whether the connection
-- has a `CloseWrite`. `canceled` is the session's context, and `interrupted` the caller's.
pub record Session : Type 0 where
  pub sent : Bytes
  pub received : Bytes
  pub stats : Stats
  pub upload : Side
  pub download : Side
  pub half_closes : Bool
  pub write_closed : Bool
  pub conn_closed : Bool
  pub response_done : Bool
  pub context_done : Bool
  pub interrupted : Bool
  pub session_closed : Bool
  pub failed : Option Error

unfoldable pub open_session : (half_closes : Bool) → Stats → Session
open_session half_closes stats = record {
  sent = [];
  received = [];
  stats = stats;
  upload = running;
  download = running;
  half_closes = half_closes;
  write_closed = false;
  conn_closed = false;
  response_done = false;
  context_done = false;
  interrupted = false;
  session_closed = false;
  failed = none;
}

-- The copy went well: no error, or the end of the file.
abbrev pub is_complete : Option Error → Bool
is_complete none = true
is_complete (some end_of_file) = true
is_complete (some canceled) = false
is_complete (some (copy_failed n)) = false
is_complete (some dial_failed) = false

-- The group keeps the first error.
abbrev pub first : Option Error → Option Error → Option Error
first none e = e
first (some x) e = some x

-- `cancel` and `closeSession`.
unfoldable pub tear_down : Session → Session
tear_down s = record s { context_done = true; session_closed = true; conn_closed = true }

-- `CloseWriteOrClose` of the connection.
unfoldable pub close_write_or_close : Session → Session
close_write_or_close s =
    if s.half_closes then record s { write_closed = true } else record s { conn_closed = true }

-- The first goroutine behind its copy.
unfoldable pub end_upload : Session → Option Error → Session
unfolding tear_down close_write_or_close
end_upload s e =
    let left = record s { upload = returned e; failed = first s.failed e } in
    if is_complete e then close_write_or_close left else tear_down left

-- The second goroutine behind its copy.
unfoldable pub end_download : Session → Option Error → Session
unfolding tear_down
end_download s e = tear_down (record s {
  download = returned e;
  failed = first s.failed e;
  response_done = s.response_done || is_complete e;
})

-- `CopyWithContext`: the copied bytes are counted once the copy is over. Where the context has ended,
-- the session is closed (`unblock`), and then the copy is waited for.
unfoldable pub unblock : Session → Session
unblock s = record s { session_closed = true; conn_closed = true }

unfoldable pub copied_out : Session → Session
copied_out s = record s { stats = add s.stats outward (length s.sent) }

unfoldable pub copied_in : Session → Session
copied_in s = record s { stats = add s.stats inward (length s.received) }

unfoldable pub upload_returns : Session → Option Error → Session
upload_returns s e = end_upload (copied_out s) e

unfoldable pub upload_canceled : Session → Session
upload_canceled s = end_upload (copied_out s) (some canceled)

unfoldable pub download_returns : Session → Option Error → Session
download_returns s e = end_download (copied_in s) e

unfoldable pub download_canceled : Session → Session
download_canceled s = end_download (copied_in s) (some canceled)

pub data Step (s : Session) : Session → Type 0 where
  uploads : (chunk : Bytes) → s.upload ≡ running → Step s (record s { sent = s.sent ++ chunk })
  downloads :
      (chunk : Bytes) → s.download ≡ running → Step s (record s { received = s.received ++ chunk })
  upload_ends : (e : Option Error) → s.upload ≡ running → Step s (upload_returns s e)
  upload_unblocks : s.upload ≡ running → s.context_done ≡ true → Step s (unblock s)
  upload_stops :
      s.upload ≡ running
      → s.context_done ≡ true
      → s.session_closed ≡ true
      → Step s (upload_canceled s)
  download_ends : (e : Option Error) → s.download ≡ running → Step s (download_returns s e)
  download_unblocks : s.download ≡ running → s.context_done ≡ true → Step s (unblock s)
  download_stops :
      s.download ≡ running
      → s.context_done ≡ true
      → s.session_closed ≡ true
      → Step s (download_canceled s)
  interrupts : Step s (record s { context_done = true; interrupted = true })

pub data Reach (s : Session) : Session → Type 0 where
  here : Reach s s
  next : {t u : Session} → Reach s t → Step t u → Reach s u

-- What `Proxy` returns once both goroutines have.
unfoldable pub session_result : Session → Option Error
session_result s = if is_complete s.failed then none else if s.response_done then none else s.failed
