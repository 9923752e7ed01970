-- ===== src/Rpc/Records.antt =====
-- DNS records as messages, internal/transport/rpc/utils/dns_conversion.go, and the messages of a
-- resolution, from internal/transport/rpc/proto. The package miekg/dns is a parameter.
use spaceship.Base.{
  ℕ, Bool, List, [], ◌∷◌, Option, none, some, Bytes, length, ◌==◌, if◌then◌else◌, Result, ok, err,
  ◌>>=◌,
}

-- `RR` is a record that is not nil. `pack_rr` is `dns.PackRR` into a buffer of `dns.Len` bytes, and
-- `exchange` is `Client.Exchange` of a question for a name and a type: an answer, or nil, with its code.
pub record DnsLib : Type 1 where
  pub RR : Type 0
  pub rr_name : RR → Bytes
  pub rr_type : RR → ℕ
  pub rr_class : RR → ℕ
  pub rr_ttl : RR → ℕ
  pub pack_rr : RR → Option Bytes
  pub unpack_rr : Bytes → Option RR
  pub exchange : Bytes → ℕ → Result ℕ (Option (List RR × ℕ))

pub record RrRecord : Type 0 where
  pub wire_data : Bytes
  pub name : Bytes
  pub rrtype : ℕ
  pub class : ℕ
  pub ttl : ℕ

pub record DnsItem : Type 0 where
  pub fqdn : Bytes
  pub q_type : ℕ
  pub block_ipv6 : Bool

-- A pointer in a slice can be nil.
pub record DnsResult : Type 0 where
  pub fqdn : Bytes
  pub rcode : ℕ
  pub records : List (Option RrRecord)

abbrev pub rcode_success : ℕ
rcode_success = 0

abbrev pub rcode_format_error : ℕ
rcode_format_error = 1

abbrev pub rcode_server_failure : ℕ
rcode_server_failure = 2

abbrev pub type_aaaa : ℕ
type_aaaa = 28

pub data DnsError : Type 0 where
  nil_rr pack_failed nil_record empty_wire unpack_failed : DnsError
  bad_request nil_request nil_response invalid_code rpc_failed : DnsError

module _ (lib : DnsLib) where
  unfoldable pub convert_rr_to_proto : Option lib.RR → Result DnsError RrRecord
  convert_rr_to_proto none = err nil_rr
  convert_rr_to_proto (some rr) = elim (lib.pack_rr rr) [
    | none ↦ err pack_failed
    | some wire ↦ ok (record {
      wire_data = wire;
      name = lib.rr_name rr;
      rrtype = lib.rr_type rr;
      class = lib.rr_class rr;
      ttl = lib.rr_ttl rr;
    })
  ]

  unfoldable pub convert_proto_to_rr : Option RrRecord → Result DnsError lib.RR
  convert_proto_to_rr none = err nil_record
  convert_proto_to_rr (some r) =
      if length r.wire_data == 0
      then err empty_wire
      else elim (lib.unpack_rr r.wire_data) [ none ↦ err unpack_failed | some rr ↦ ok rr ]

  unfoldable pub convert_rr_slice_to_proto :
      List (Option lib.RR) → Result DnsError (List (Option RrRecord))
  convert_rr_slice_to_proto [] = ok []
  convert_rr_slice_to_proto (rr ∷ rrs) = do
    r ← convert_rr_to_proto rr
    rs ← convert_rr_slice_to_proto rrs
    ok (some r ∷ rs)

  unfoldable pub convert_proto_to_rr_slice : List (Option RrRecord) → Result DnsError (List lib.RR)
  convert_proto_to_rr_slice [] = ok []
  convert_proto_to_rr_slice (r ∷ rs) = do
    rr ← convert_proto_to_rr r
    rrs ← convert_proto_to_rr_slice rs
    ok (rr ∷ rrs)
