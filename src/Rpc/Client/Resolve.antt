-- ===== src/Rpc/Client/Resolve.antt =====
-- `DnsResolve` of internal/transport/rpc/client/client.go. The call of gRPC is a parameter.
use spaceship.Base.{
  ℕ, Bool, ◌&&◌, not, List, [], ◌∷◌, ◌++◌, Option, none, some, Bytes, ltb, ◌==◌, if◌then◌else◌,
  Result, ok, err, ◌>>=◌,
}
use spaceship.Rpc.Records.{
  DnsLib, DnsItem, DnsResult, DnsError, nil_request, nil_response, invalid_code, rpc_failed,
  rcode_success, rcode_format_error, rcode_server_failure, convert_proto_to_rr_slice,
}

pub record DnsRequest : Type 0 where
  pub fqdn : Bytes
  pub q_type : ℕ
  pub block_ipv6 : Bool

unfoldable pub items_of : List (Option DnsRequest) → Result DnsError (List (Option DnsItem))
items_of [] = ok []
items_of (none ∷ rs) = err nil_request
items_of (some r ∷ rs) = do
  items ← items_of rs
  ok (some (record { fqdn = r.fqdn; q_type = r.q_type; block_ipv6 = r.block_ipv6 }) ∷ items)

-- The first code that is not a success stays.
unfoldable pub merge_code : ℕ → ℕ → ℕ
merge_code rcode next =
    if (rcode == rcode_success) && not (next == rcode_success) then next else rcode

module _ (lib : DnsLib) where
  -- The records, the code, and the error.
  abbrev pub Answer : Type 0
  Answer = List lib.RR × ℕ × Option DnsError

  -- The loop, with what it has found so far.
  unfoldable pub decode_results : List lib.RR → ℕ → List (Option DnsResult) → Answer
  decode_results found rcode [] = (found, rcode, none)
  decode_results found rcode (none ∷ rs) = decode_results found rcode rs
  decode_results found rcode (some item ∷ rs) =
      if ltb 15 item.rcode
      then ([], rcode_server_failure, some invalid_code)
      else elim (convert_proto_to_rr_slice lib item.records) [
        | err e ↦ ([], rcode_server_failure, some e)
        | ok records ↦ decode_results (found ++ records) (merge_code rcode item.rcode) rs
      ]

  unfoldable pub decode_dns_response : Option (List (Option DnsResult)) → Answer
  decode_dns_response none = ([], rcode_server_failure, some nil_response)
  decode_dns_response (some results) = decode_results [] rcode_success results

  -- What the call of gRPC answers to the items, a nil response included.
  unfoldable pub resolve_by :
      (List (Option DnsItem) → Result DnsError (Option (List (Option DnsResult))))
      → List (Option DnsRequest)
      → Answer
  resolve_by call [] = ([], rcode_success, none)
  resolve_by call (r ∷ rs) = elim (items_of (r ∷ rs)) [
    | err e ↦ ([], rcode_format_error, some e)
    | ok items ↦ elim (call items) [
      | err _ ↦ ([], rcode_server_failure, some rpc_failed)
      | ok response ↦ decode_dns_response response
    ]
  ]
