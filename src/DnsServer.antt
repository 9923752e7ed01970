-- ===== src/DnsServer.antt =====
-- The DNS front end, internal/dns/dns.go: `ServeDNS`, and how `Start` ends. The call of gRPC, the states
-- of connections and the name server's library are parameters.
pub mod Answers
use spaceship.Base.{ℕ, Bool, List, [], ◌∷◌, map, ◌++◌, Option, none, some, Bytes, Result, ok, err}
use spaceship.Rpc.Client.Resolve.{DnsRequest, resolve_by}
use spaceship.Rpc.Client.Setup.{Vars, Lease, SetupError, new_client, close_client, settle}
use spaceship.Rpc.Pool.{State, ConnWrapper}
use spaceship.Rpc.Records.{DnsLib, DnsItem, DnsResult, DnsError, rcode_server_failure}

pub record Question : Type 0 where
  pub name : Bytes
  pub qtype : ℕ

unfoldable pub request_of : Bool → Question → DnsRequest
request_of block_ipv6_dns q = record {
  fqdn = q.name;
  q_type = q.qtype;
  block_ipv6 = block_ipv6_dns;
}

-- What the pool answers: gRPC's states, read twice, the dial of a connection outside of it, and the
-- dial of the goroutine that replaces a connection.
pub record Pooled : Type 0 where
  pub states : ℕ → State
  pub states' : ℕ → State
  pub dial : Option ℕ
  pub redial : Option ℕ

module _ (lib : DnsLib) where
  -- The answer section and the code of a message.
  abbrev pub Reply : Type 0
  Reply = List lib.RR × ℕ

  unfoldable pub reply_of : List lib.RR × ℕ × Option DnsError → Reply
  reply_of (found, rcode, none) = (found, rcode)
  reply_of (found, rcode, some e) = ([], rcode_server_failure)

  -- `ServeDNS` with the client that it was given, or none: the variables of the client, the message
  -- that is written, and the connections that are closed.
  unfoldable pub serve_with :
      (List (Option DnsItem) → Result DnsError (Option (List (Option DnsResult))))
      → Bool
      → List Question
      → Vars × Result SetupError Lease × Option ConnWrapper
      → Vars × Reply × List ℕ
  serve_with call block_ipv6_dns questions (v, err _, _) = (v, ([], rcode_server_failure), [])
  serve_with call block_ipv6_dns questions (v, ok client, _) =
      let reply =
        reply_of (resolve_by lib call (map (λ q. some (request_of block_ipv6_dns q)) questions)) in
      let (last, closed) = close_client v client in (last, reply, closed)

  -- The variables and the connections that are closed, once `ServeDNS` has returned and a goroutine
  -- that it may have started has run; nothing else uses the pool in between.
  unfoldable pub serve_dns :
      (List (Option DnsItem) → Result DnsError (Option (List (Option DnsResult))))
      → Bool
      → Vars
      → Pooled
      → List Question
      → Vars × Reply × List ℕ
  unfolding serve_with
  serve_dns call block_ipv6_dns v p questions =
      let got = new_client v p.states p.states' p.dial in
      let (v', reply, closed) = serve_with call block_ipv6_dns questions got in
      let (last, others) = settle v' got.2 p.redial in (last, reply, closed ++ others)
