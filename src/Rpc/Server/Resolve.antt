-- ===== src/Rpc/Server/Resolve.antt =====
-- `DnsResolve` of internal/transport/rpc/server/server.go, with internal/transport/rpc/server/dns.go.
use spaceship.Base.{
  ℕ, ◌%◌, ◌^◌, Bool, true, false, ◌&&◌, List, [], ◌∷◌, map, Option, none, some, Bytes, ltb, ◌==◌,
  if◌then◌else◌, Result, ok, err,
}
use spaceship.Rpc.Records.{
  DnsLib, DnsItem, DnsResult, DnsError, bad_request, rcode_success, rcode_format_error,
  rcode_server_failure, type_aaaa, convert_rr_slice_to_proto,
}

unfoldable pub safe_uint32_to_uint16 : ℕ → ℕ × Bool
safe_uint32_to_uint16 val = if ltb 65535 val then (0, false) else (val % 2 ^ 16, true)

module _ (lib : DnsLib) where
  unfoldable pub resolve_dns_records : Bytes → ℕ → List lib.RR × ℕ
  resolve_dns_records fqdn qtype = elim (lib.exchange fqdn qtype) [
    | err _ ↦ ([], rcode_server_failure)
    | ok none ↦ ([], rcode_server_failure)
    | ok (some (answer, rcode)) ↦ (answer, rcode)
  ]

  unfoldable pub without_aaaa : List lib.RR → List lib.RR
  without_aaaa [] = []
  without_aaaa (rr ∷ rrs) =
      let rest = without_aaaa rrs in if lib.rr_type rr == type_aaaa then rest else rr ∷ rest

  unfoldable pub with_records : DnsResult → List lib.RR → DnsResult
  with_records result [] = result
  with_records result (rr ∷ rrs) = elim (convert_rr_slice_to_proto lib (map some (rr ∷ rrs))) [
    | err _ ↦ record result { rcode = rcode_server_failure }
    | ok records ↦ record result { records = records }
  ]

  abbrev plain : DnsItem → ℕ → DnsResult
  plain item rcode = record { fqdn = item.fqdn; rcode = rcode; records = [] }

  unfoldable pub resolve_query : DnsItem → ℕ → DnsResult
  resolve_query item qtype =
      if item.block_ipv6 && (qtype == type_aaaa)
      then plain item rcode_success
      else let (found, rcode) = resolve_dns_records item.fqdn qtype in
        with_records (plain item (rcode % 2 ^ 32))
          (if item.block_ipv6 then without_aaaa found else found)

  -- A round of the loop; a nil item has no name.
  unfoldable pub resolve_item : Option DnsItem → DnsResult
  resolve_item none = record { fqdn = []; rcode = rcode_format_error; records = [] }
  resolve_item (some item) =
      let (qtype, fits) = safe_uint32_to_uint16 item.q_type in
      if fits then resolve_query item qtype else plain item rcode_format_error

  -- A nil request is `none`.
  unfoldable pub dns_resolve :
      Option (List (Option DnsItem)) → Result DnsError (List (Option DnsResult))
  dns_resolve none = err bad_request
  dns_resolve (some []) = err bad_request
  dns_resolve (some (item ∷ items)) = ok (map (λ i. some (resolve_item i)) (item ∷ items))
