-- ===== src/Socks/Limiter.antt =====
-- `udpResourceLimiter` of internal/socks/udp.go. Its mutex makes each method one atomic step. An
-- `int` limit that is not positive is 0 here: the code only tests whether a limit is positive.
mod Sums
pub mod Bounds
pub mod Holders
use spaceship.Base.{
  ℕ, ◌+◌, ◌-◌, Bool, true, false, ◌&&◌, ◌||◌, List, [], Option, none, some, Bytes, lookup, insert,
  remove, ltb, leb, ◌==◌, if◌then◌else◌,
}

pub record Limiter : Type 0 where
  pub total : ℕ
  pub by_client : List (Bytes × ℕ)
  pub max_total : ℕ
  pub max_per_client : ℕ

unfoldable pub new_udp_resource_limiter : ℕ → ℕ → Limiter
new_udp_resource_limiter max_total max_per_client = record {
  total = 0;
  by_client = [];
  max_total = max_total;
  max_per_client = max_per_client;
}

-- A map read yields 0 at a missing key.
abbrev pub or_zero : Option ℕ → ℕ
or_zero none = 0
or_zero (some n) = n

abbrev pub count_in : Bytes → List (Bytes × ℕ) → ℕ
count_in client m = or_zero (lookup client m)

abbrev pub count : Limiter → Bytes → ℕ
count l client = count_in client l.by_client

-- The guards and the updates of the two methods.
abbrev pub total_full : Limiter → Bool
total_full l = ltb 0 l.max_total && leb l.max_total l.total

abbrev pub client_full : Limiter → Bytes → Bool
client_full l client = ltb 0 l.max_per_client && leb l.max_per_client (count l client)

unfoldable pub raise : Limiter → Bytes → Limiter
raise l client = record l {
  total = l.total + 1;
  by_client = insert client (count l client + 1) l.by_client;
}

unfoldable pub lower : Limiter → Bytes → Limiter
lower l client =
    let lowered = insert client (count l client - 1) l.by_client in
    record l {
      total = l.total - 1;
      by_client = if count_in client lowered == 0 then remove client lowered else lowered;
    }

-- A nil limiter grants everything.
unfoldable pub acquire : Option Limiter → Bytes → Option Limiter × Bool
acquire none client = (none, true)
acquire (some l) client =
    if total_full l
    then (some l, false)
    else if client_full l client
    then (some l, false)
    else (some (raise l client), true)

unfoldable pub release : Option Limiter → Bytes → Option Limiter
release none client = none
release (some l) client =
    if leb (count l client) 0 || leb l.total 0 then some l else some (lower l client)
