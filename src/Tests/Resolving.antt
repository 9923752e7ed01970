-- ===== src/Tests/Resolving.antt =====
-- DNS resolutions at concrete inputs: a record is its type, and its wire form has one byte.
use spaceship.Base.{
  ℕ, ◌≡◌, refl, arith, List, [], ◌∷◌, map, Option, none, some, Bytes, codes, true, ok, All,
}
use spaceship.Rpc.Client.Resolve.{DnsRequest}
use spaceship.Rpc.Records.{DnsLib}
use spaceship.Rpc.Resolution.Agreement.{
  Roundtrips, ShortCodes, records_of, code_of, resolve-answers,
}
use spaceship.Rpc.Resolution.Blocking.{KeepsType, resolve-Visible}
use spaceship.Rpc.Resolution.{resolve, Visible}

abbrev of_wire : Bytes → Option ℕ
of_wire [] = none
of_wire (b ∷ _) = some b

-- The name server knows an address of each kind for every name.
abbrev pub lib : DnsLib
lib = record {
  RR = ℕ;
  rr_name = λ rr. [];
  rr_type = λ rr. rr;
  rr_class = λ rr. 1;
  rr_ttl = λ rr. 60;
  pack_rr = λ rr. some (rr ∷ []);
  unpack_rr = of_wire;
  exchange = λ name qtype. ok (some (1 ∷ 28 ∷ [], 0));
}

lib-KeepsType : KeepsType lib
lib-KeepsType rr rr' [] h k = cc
lib-KeepsType rr rr' (b ∷ bs) h k = cc

pub lib-Roundtrips : Roundtrips lib
lib-Roundtrips rr = (rr ∷ [], refl, refl, refl)

pub lib-ShortCodes : ShortCodes lib
lib-ShortCodes name qtype answer rcode h = let e : 0 ≡ rcode = cc in omega arith

abbrev request : ℕ → DnsRequest
request q = record { fqdn = codes "a.b"; q_type = q; block_ipv6 = true }

resolve-Visible_example :
    All (Visible lib) (resolve lib (some (request 28) ∷ some (request 1) ∷ [])).0
resolve-Visible_example =
    resolve-Visible lib lib-KeepsType (some (request 28) ∷ some (request 1) ∷ []) (refl, (refl, tt))

abbrev requests : List DnsRequest
requests = request 28 ∷ request 1 ∷ []

resolve-answers_example :
    resolve lib (map some requests) ≡ (records_of lib requests, code_of lib requests, none)
resolve-answers_example =
    resolve-answers lib lib-Roundtrips lib-ShortCodes requests ((omega arith), ((omega arith), tt))
