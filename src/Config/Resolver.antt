-- ===== src/Config/Resolver.antt =====
-- `DNS` of pkg/dns/dns.go: the resolver's address, and the process-wide resolver. `splits` is whether
-- `net.SplitHostPort` takes an address, and `join` is `net.JoinHostPort`.
use spaceship.Base.{Bool, true, false, [], Option, none, some, Bytes, codes, if◌then◌else◌}

-- `other` is any further string.
pub data DnsType : Type 0 where
  default common : DnsType
  other : Bytes → DnsType

pub record Dns : Type 0 where
  pub dns_type : DnsType
  pub server : Bytes

abbrev pub is_plain : DnsType → Bool
is_plain default = true
is_plain common = true
is_plain (other _) = false

unfoldable pub address : (Bytes → Bool) → (Bytes → Bytes → Bytes) → Dns → Bytes
address splits join d =
    if is_plain d.dns_type
    then if splits d.server then d.server else join d.server (codes "53")
    else []

-- The resolver that queries this address is the default one from now on; `none` is an error.
unfoldable pub set_resolver : Option Dns → Dns → Option (Option Dns)
set_resolver current d = if is_plain d.dns_type then some (some d) else none
