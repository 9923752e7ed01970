-- ===== src/Rpc/Resolution.antt =====
-- A DNS resolution of the client by the server: `DnsResolve` of the client with that of the server as
-- its call of gRPC.
pub mod Blocking
pub mod Agreement
use spaceship.Base.{
  ℕ, Bool, false, List, [], ◌∷◌, Option, none, some, ok, ◌>>=◌, ◌≡◌, ◌==◌, Result, Bytes,
}
use spaceship.Rpc.Client.Resolve.{DnsRequest, Answer, resolve_by}
use spaceship.Rpc.Records.{DnsLib, DnsItem, DnsResult, DnsError, type_aaaa}
use spaceship.Rpc.Server.Resolve.{dns_resolve}

module _ (lib : DnsLib) where
  abbrev pub call : List (Option DnsItem) → Result DnsError (Option (List (Option DnsResult)))
  call items = dns_resolve lib (some items) >>= λ results. ok (some results)

  abbrev pub resolve : List (Option DnsRequest) → Answer lib
  resolve requests = resolve_by lib call requests

  abbrev pub Visible : lib.RR → Type 0
  Visible rr = (lib.rr_type rr == type_aaaa) ≡ false
