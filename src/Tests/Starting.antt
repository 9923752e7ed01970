-- ===== src/Tests/Starting.antt =====
-- The launcher, the management pages, the DNS front end and the gRPC client at concrete inputs.
use spaceship.Base.{
  Option, ℕ, ◌++◌, ◌%◌, ◌≤◌, ◌+◌, ◌⊎◌, true, false, List, [], ◌∷◌, codes, none, some, ◌≡◌, ◌≢◌,
  refl, arith, length, ok, err, All, same,
}
use spaceship.Config.Buffer.Fits.{In, apply-fits}
use spaceship.Config.Buffer.{max_message_size, message_framing_overhead, payload_buffer_pool}
use spaceship.Config.Stages.{apply}
use spaceship.Config.{client}
use spaceship.DnsServer.Answers.{expected, owned, serve_dns-answers}
use spaceship.DnsServer.{Question, Pooled, serve_dns}
use spaceship.Launching.Guarded.{Asks, Configured, Admits, launch_client-guarded}
use spaceship.Launching.{Launch, no_failure, launch_client}
use spaceship.Management.Local.{Agrees, actives, loads, handler-local}
use spaceship.Management.{
  connection_details, stats_page, Request, NetLib, World, forbidden, stats_json, StatsResponse,
  bare_host, handler, loopback_guard, ip_is_loopback, host_header_allowed, serve_page, handle_stats,
}
use spaceship.Rpc.Client.Setup.Packets.{dial_packet-opens}
use spaceship.Rpc.Client.Setup.{
  Vars, closed_one, insecure, new_client, sent, dial_packet, PacketError, is_packet_network,
}
use spaceship.Rpc.Messages.{SrcMessage, Header, src_header}
use spaceship.Rpc.Pool.Replace.{Outcome}
use spaceship.Rpc.Pool.{ConnWrapper, ConnQueue, load_mod}
use spaceship.Rpc.Resolution.{call}
use spaceship.Rpc.Server.Forward.{split_legacy_scheme, resolve_target, is_udp_network, has_prefix}
use spaceship.Tests.Configs.{lib, machine, program, config_of}
use spaceship.Tests.Pools.{queue, states}
use spaceship.Tests.Proxying.{site}
use spaceship.Tests.Resolving as Resolving
use spaceship.Transport.Settings.{default_settings}

abbrev vars : Vars
vars = record { uuid = codes "u"; queue = some queue }

abbrev questions : List Question
questions = record { name = codes "a.b"; qtype = 1 } ∷ []

abbrev pool : Pooled
pool = record { states = states; states' = states; dial = none; redial = some 9 }

serve_dns-answers_example :
    let got = new_client vars states states none in
    let out = serve_dns Resolving.lib (call Resolving.lib) true vars pool questions in
    (out.1
      ≡ expected Resolving.lib Resolving.lib-Roundtrips Resolving.lib-ShortCodes true questions
          got.1)
    × (got.2 ≡ none → (out.0 ≡ vars) × (out.2 ≡ owned got.1 ++ []))
    × ((q : ConnQueue) (w : ConnWrapper)
        → vars.queue ≡ some q
        → got.2 ≡ some w
        → (pool.redial ≡ none → (out.0 ≡ vars) × (out.2 ≡ owned got.1 ++ []))
          × ((handle : ℕ)
              → pool.redial ≡ some handle
              → (q' : ConnQueue) × (closed : Option ℕ) × Outcome q w handle (q', closed)
                × (out.0 ≡ record vars { queue = some q' })
                × (out.2 ≡ owned got.1 ++ closed_one closed)))
serve_dns-answers_example =
    serve_dns-answers Resolving.lib Resolving.lib-Roundtrips Resolving.lib-ShortCodes true vars pool
      questions ((omega arith), tt) (omega arith, (omega arith, (omega arith, tt)))

abbrev local : NetLib
local = record {
  host_of = λ s. some s;
  is_loopback = same (codes "::1");
  equal_fold = same;
  page_of = λ r. some stats_page;
}

abbrev asked : Request
asked = record {
  remote_addr = codes "::1";
  host = codes "localhost";
  method = codes "GET";
  path = codes "/stats";
}

abbrev world : World
world = record {
  stats = record { tx = 1; rx = 2 };
  summed = some queue;
  listed = some queue;
  states = states;
}

not_refused : handler local world asked ≢ forbidden
unfolding handler loopback_guard ip_is_loopback host_header_allowed serve_page handle_stats same
not_refused h = cc

handler-local_example :
    (local.is_loopback (bare_host local asked.remote_addr) ≡ true)
    × ((local.equal_fold (bare_host local asked.host) (codes "localhost") ≡ true)
        ⊎ (local.is_loopback (bare_host local asked.host) ≡ true))
    × ((s : StatsResponse)
        → handler local world asked ≡ stats_json s
        → (same asked.method (codes "GET") ≡ true)
          × (s.connections ≡ connection_details world.listed world.states)
          × Agrees
              (record { total = s.pool_total; active = s.pool_active; total_load = s.pool_load })
              (connection_details world.summed world.states)
          × (world.summed ≡ world.listed
              → (s.pool_total ≡ length s.connections)
                × (s.pool_active ≡ actives s.connections)
                × (s.pool_load ≡ loads s.connections % load_mod)))
handler-local_example = handler-local local world asked not_refused

default_fits : program.settings.buffer_size + message_framing_overhead ≤ max_message_size
unfolding default_settings
default_fits = omega arith

apply-fits_example :
    let size =
      (apply lib machine (config_of client) program).0.settings.buffer_size
      + message_framing_overhead in
    (size ≤ max_message_size)
    × In size
        (payload_buffer_pool (apply lib machine (config_of client) program).0.settings.buffer_size)
apply-fits_example = apply-fits lib machine (config_of client) program default_fits

plain : split_legacy_scheme (codes "a.b:53") ≡ none
unfolding split_legacy_scheme has_prefix same
plain = refl

dial_packet-opens_example :
    let opened = dial_packet true sent (codes "udp") (codes "a.b:53") in
    ((sent_messages : List SrcMessage)
      → opened.result ≡ ok sent_messages
      → (opened.canceled ≡ false)
        × ((h : Header) × (sent_messages ≡ src_header h ∷ [])
            × (is_udp_network (resolve_target default_settings h).0 ≡ true)
            × ((resolve_target default_settings h).1 ≡ codes "a.b:53")))
    × ((e : PacketError)
        → opened.result ≡ err e
        → is_packet_network (codes "udp") ≡ true
        → opened.canceled ≡ true)
dial_packet-opens_example =
    dial_packet-opens default_settings true sent (codes "udp") (codes "a.b:53") plain

abbrev launched : Launch
launched = record {
  mux = 1;
  uuid = codes "u";
  basic_auth = codes "u:p" ∷ [];
  listen = [];
  listen_socks = codes ":1080";
  listen_socks_unix = [];
  listen_http = codes ":8080";
  listen_dns = [];
  block_ipv6_dns = false;
}

launch_client-guarded_example :
    All
      (Asks (λ creds. Configured (codes "u:p" ∷ []) creds × Admits site (codes "u:p" ∷ []) creds))
      (launch_client (λ uuid. true) launched vars (ok insecure) (λ n. some n) no_failure).2.0
launch_client-guarded_example =
    launch_client-guarded site (λ uuid. true) launched vars (ok insecure) (λ n. some n) no_failure
      (codes "u:p") [] refl
