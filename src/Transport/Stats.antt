-- ===== src/Transport/Stats.antt =====
-- The counters of internal/transport/stats.go and those of a session, `Statistic` of
-- internal/transport/rpc/client/forwarder.go. The speeds are floating-point numbers and not modelled.
use spaceship.Base.{ℕ, ◌+◌, ◌<◌, ◌≡◌, arith, ◌%◌, ◌^◌, ◌==◌, if◌then◌else◌}

abbrev pub count_mod : ℕ
count_mod = 2 ^ 64

pub record Stats : Type 0 where
  pub tx : ℕ
  pub rx : ℕ

unfoldable pub add_tx : Stats → ℕ → Stats
add_tx s n = record s { tx = (s.tx + n) % count_mod }

unfoldable pub add_rx : Stats → ℕ → Stats
add_rx s n = record s { rx = (s.rx + n) % count_mod }

pub data Direction : Type 0 where
  outward inward : Direction

-- A number of bytes that is not positive is 0 here.
unfoldable pub add : Stats → Direction → ℕ → Stats
unfolding add_tx add_rx
add s outward n = if n == 0 then s else add_tx s n
add s inward n = if n == 0 then s else add_rx s n

pub count_zero : (a n : ℕ) → a < count_mod → n ≡ 0 → a ≡ (a + n) % count_mod
count_zero a n h e = omega arith

pub count_sum : (a b c : ℕ) → ((a + b) % count_mod + c) % count_mod ≡ (a + (b + c)) % count_mod
count_sum a b c = omega arith

pub count_below : (a b : ℕ) → (a + b) % count_mod < count_mod
count_below a b = omega arith
