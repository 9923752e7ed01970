-- ===== src/Transport/Session/Ends.antt =====
-- How a session ends, in any order of its steps.
use spaceship.Base.{
  ℕ, ◌+◌, ◌<◌, ◌%◌, Bool, true, false, not, Option, none, some, ◌≡◌, length, ◌||◌, ◌&&◌,
}
use spaceship.Transport.Session.{
  Error, end_of_file, canceled, copy_failed, dial_failed, Side, running, returned, Session,
  is_complete,
}
use spaceship.Transport.Stats.{Stats, count_mod}

-- How many bytes of a copy have been counted.
abbrev counted : Side → ℕ → ℕ
counted running n = 0
counted (returned e) n = n

-- A side has returned; with an error that is not the end of the file; and without one.
abbrev pub is_back : Side → Bool
is_back running = false
is_back (returned e) = true

abbrev pub is_broken : Side → Bool
is_broken running = false
is_broken (returned e) = not (is_complete e)

abbrev pub is_whole : Side → Bool
is_whole running = false
is_whole (returned e) = is_complete e

-- What may close the caller's ends: the response is over, the upload failed, or the caller gave up.
abbrev pub is_over : Session → Bool
is_over s = is_back s.download || (is_broken s.upload || s.interrupted)

abbrev is_eof : Option Error → Bool
is_eof none = false
is_eof (some end_of_file) = true
is_eof (some canceled) = false
is_eof (some (copy_failed n)) = false
is_eof (some dial_failed) = false

abbrev is_none : Option Error → Bool
is_none none = true
is_none (some e) = false

abbrev ended_by_eof : Side → Bool
ended_by_eof running = false
ended_by_eof (returned e) = is_eof e

record Counted (start : Stats) (s : Session) : Type 0 where
  tx : s.stats.tx ≡ (start.tx + counted s.upload (length s.sent)) % count_mod
  rx : s.stats.rx ≡ (start.rx + counted s.download (length s.received)) % count_mod

record Judged (s : Session) : Type 0 where
  responded : s.response_done ≡ is_whole s.download
  torn : is_back s.download ≡ true → s.session_closed ≡ true
  kept : s.session_closed ≡ true → is_over s ≡ true
  whole : s.conn_closed ≡ true → is_over s || (not s.half_closes && is_whole s.upload) ≡ true
  halves : s.write_closed ≡ true → s.half_closes && is_whole s.upload ≡ true
  ended : s.context_done ≡ true → is_over s ≡ true
  silent : is_none s.failed ≡ true → is_broken s.upload || is_broken s.download ≡ false
  eof : is_eof s.failed ≡ true → ended_by_eof s.upload || is_whole s.download ≡ true

-- The counters stand at their start, with what the sides that have returned copied.
record Counts (start : Stats) (s : Session) : Type 0 where
  tx_below : s.stats.tx < count_mod
  rx_below : s.stats.rx < count_mod
  counts : Counted start s
