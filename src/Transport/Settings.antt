-- ===== src/Transport/Settings.antt =====
-- The variables of internal/transport/common.go with the functions of setter.go: the buffer size,
-- the network to dial, and the two timeouts in nanoseconds.
use spaceship.Base.{ℕ, ◌*◌, Bool, true, false, not, ◌||◌, Bytes, codes, same, if◌then◌else◌}

pub record Settings : Type 0 where
  pub buffer_size : ℕ
  pub network : Bytes
  pub prefer_ipv4 : Bool
  pub idle_timeout : ℕ
  pub dial_timeout : ℕ

abbrev pub second : ℕ
second = 1_000_000_000

-- The values that `init` stores.
unfoldable pub default_settings : Settings
default_settings = record {
  buffer_size = 32 * 1024;
  network = codes "tcp";
  prefer_ipv4 = false;
  idle_timeout = 30 * 60 * second;
  dial_timeout = 3 * 60 * second;
}

unfoldable pub set_buffer_size : Settings → ℕ → Settings
set_buffer_size s size = record s { buffer_size = size * 1024 }

unfoldable pub set_network : Settings → Bytes → Settings
set_network s net = record s { network = net }

unfoldable pub disable_ipv6 : Settings → Settings
unfolding set_network
disable_ipv6 s = record (set_network s (codes "tcp4")) { prefer_ipv4 = true }

unfoldable pub enable_ipv6 : Settings → Settings
unfolding set_network
enable_ipv6 s = record (set_network s (codes "tcp")) { prefer_ipv4 = false }

unfoldable pub set_idle_timeout : Settings → ℕ → Settings
set_idle_timeout s timeout = record s { idle_timeout = timeout }

-- The IPv4 form of a network where IPv6 is disabled.
unfoldable pub dial_network : Settings → Bytes → Bytes
dial_network s net =
    if not s.prefer_ipv4
    then net
    else if same net (codes "tcp") || same net (codes "tcp6")
    then codes "tcp4"
    else if same net (codes "udp") || same net (codes "udp6")
    then codes "udp4"
    else net
