-- ===== src/Rpc/Resolution/Agreement.antt =====
-- A resolution through the server against the answers of the name server.
use spaceship.Base.{
  ℕ, ◌%◌, ◌^◌, ◌<◌, true, false, Bool-cases, inl, inr, List, [], ◌∷◌, ◌++◌, map, append-nil,
  append_assoc, Option, none, some, Option-cases, Bytes, length, ltb, ◌==◌, ◌≡◌, refl, sym, ap, ◌∙◌,
  subst, arith, if◌then◌else◌, ok, Result-cases, All, ◌&&◌,
}
use spaceship.Rpc.Client.Resolve.{
  DnsRequest, merge_code, items_of, decode_results, decode_dns_response, resolve_by,
}
use spaceship.Rpc.Records.{
  DnsLib, RrRecord, DnsItem, DnsResult, type_aaaa, rcode_success, convert_rr_to_proto,
  convert_proto_to_rr, convert_rr_slice_to_proto, convert_proto_to_rr_slice,
}
use spaceship.Rpc.Resolution.{resolve}
use spaceship.Rpc.Server.Resolve.{
  without_aaaa, with_records, dns_resolve, resolve_query, resolve_item, resolve_dns_records,
  safe_uint32_to_uint16,
}

-- A packed record has bytes, and unpacks to itself.
abbrev pub Roundtrips : DnsLib → Type 0
Roundtrips lib =
    (rr : lib.RR)
    → (wire : Bytes) × (lib.pack_rr rr ≡ some wire)
      × ((length wire == 0) ≡ false)
      × (lib.unpack_rr wire ≡ some rr)

-- An answer without EDNS has a code of four bits.
abbrev pub ShortCodes : DnsLib → Type 0
ShortCodes lib =
    (fqdn : Bytes) (qtype : ℕ) (answer : List lib.RR) (rcode : ℕ)
    → lib.exchange fqdn qtype ≡ ok (some (answer, rcode))
    → rcode < 16

pub first_failure : List ℕ → ℕ
first_failure [] = rcode_success
first_failure (c ∷ cs) = let rest = first_failure cs in if c == rcode_success then rest else c

module _ (lib : DnsLib) where
  -- What a request is to get: nothing where it asks for what it blocks, and else the answer of the
  -- name server, less what it blocks.
  pub answer_to : DnsRequest → List lib.RR × ℕ
  answer_to r =
      if r.block_ipv6 && (r.q_type == type_aaaa)
      then ([], rcode_success)
      else let (found, rcode) = resolve_dns_records lib r.fqdn r.q_type in
        (if r.block_ipv6 then without_aaaa lib found else found, rcode)

  pub records_of : List DnsRequest → List lib.RR
  records_of [] = []
  records_of (r ∷ rs) = (answer_to r).0 ++ records_of rs

  pub code_of : List DnsRequest → ℕ
  code_of rs = first_failure (map (λ r. (answer_to r).1) rs)

-- A type of 16 bits passes the server's check.
passes : (q : ℕ) → q < 2 ^ 16 → safe_uint32_to_uint16 q ≡ (q, true)
unfolding safe_uint32_to_uint16
passes q h = ground arith

module _ (lib : DnsLib) (roundtrips : Roundtrips lib) (short : ShortCodes lib) where
  abbrev record_of : lib.RR → Bytes → RrRecord
  record_of rr wire = record {
    wire_data = wire;
    name = lib.rr_name rr;
    rrtype = lib.rr_type rr;
    class = lib.rr_class rr;
    ttl = lib.rr_ttl rr;
  }

  one_back :
      (rr : lib.RR)
      → (r : RrRecord) × (convert_rr_to_proto lib (some rr) ≡ ok r)
        × (convert_proto_to_rr lib (some r) ≡ ok rr)
  unfolding convert_rr_to_proto convert_proto_to_rr
  one_back rr =
      let (wire, packs, full, unpacks) = roundtrips rr in
      (
        record_of rr wire,
        rw (packs, convert_rr_to_proto) refl,
        rw (full, unpacks, convert_proto_to_rr) refl,
      )

  slice_back :
      (rrs : List lib.RR)
      → (ps : List (Option RrRecord)) × (convert_rr_slice_to_proto lib (map some rrs) ≡ ok ps)
        × (convert_proto_to_rr_slice lib ps ≡ ok rrs)
  unfolding convert_rr_slice_to_proto convert_proto_to_rr_slice
  slice_back [] = ([], refl, refl)
  slice_back (rr ∷ rrs) =
      let (r, to, from) = one_back rr in
      let (ps, e, k) = slice_back rrs in
      (
        some r ∷ ps,
        rw (to, e, convert_rr_slice_to_proto) refl,
        rw (from, k, convert_proto_to_rr_slice) refl,
      )

  abbrev result : Bytes → ℕ → List (Option RrRecord) → DnsResult
  result fqdn rcode ps = record { fqdn = fqdn; rcode = rcode; records = ps }

  with_records_back :
      (fqdn : Bytes) (rcode : ℕ) (rrs : List lib.RR)
      → (ps : List (Option RrRecord)) × (with_records lib (result fqdn rcode []) rrs
          ≡ result fqdn rcode ps)
        × (convert_proto_to_rr_slice lib ps ≡ ok rrs)
  unfolding with_records convert_proto_to_rr_slice
  with_records_back fqdn rcode [] = ([], refl, refl)
  with_records_back fqdn rcode (rr ∷ rrs) =
      let (ps, e, k) = slice_back (rr ∷ rrs) in (ps, rw (e, with_records) refl, k)

  short_code : (fqdn : Bytes) (qtype : ℕ) → (resolve_dns_records lib fqdn qtype).1 < 16
  unfolding resolve_dns_records
  short_code fqdn qtype = elim (Result-cases (lib.exchange fqdn qtype)) [
    | inr (x, e) ↦ rw (e, resolve_dns_records) omega arith
    | inl (o, e) ↦ elim (Option-cases o) [
      | inl n ↦ rw (e, n, resolve_dns_records) omega arith
      | inr ((answer, rcode), n) ↦
          rw (e, n, resolve_dns_records) (short fqdn qtype answer rcode (e ∙ ap ok n))
    ]
  ]

  merge_code_success : (a : ℕ) → merge_code a rcode_success ≡ a
  unfolding merge_code
  merge_code_success a = ground arith

  success-merge_code : (a : ℕ) → merge_code rcode_success a ≡ a
  unfolding merge_code
  success-merge_code a = ground arith

  merge_code_assoc :
      (a c d : ℕ)
      → merge_code (merge_code a c) d ≡ merge_code a (if c == rcode_success then d else c)
  unfolding merge_code
  merge_code_assoc a c d = ground arith

  abbrev item_of : DnsRequest → DnsItem
  item_of r = record { fqdn = r.fqdn; q_type = r.q_type; block_ipv6 = r.block_ipv6 }

  -- What the server makes of a request.
  Serves : DnsRequest → DnsResult → Type 0
  Serves r x =
      (x.rcode ≡ (answer_to lib r).1)
      × (x.rcode < 16)
      × (convert_proto_to_rr_slice lib x.records ≡ ok (answer_to lib r).0)

  small_code : (c : ℕ) → c < 16 → c % 2 ^ 32 ≡ c
  small_code c h = omega arith

  resolve_query-Serves : (r : DnsRequest) → Serves r (resolve_query lib (item_of r) r.q_type)
  unfolding Serves resolve_query answer_to convert_proto_to_rr_slice
  resolve_query-Serves r = elim (Bool-cases (r.block_ipv6 && (r.q_type == type_aaaa))) [
    | inl e ↦ rw (e, resolve_query, answer_to) (refl, (omega arith), refl)
    | inr e ↦
        let (found, rcode) = resolve_dns_records lib r.fqdn r.q_type in
        let wanted = if r.block_ipv6 then without_aaaa lib found else found in
        let (ps, w, k) = with_records_back r.fqdn (rcode % 2 ^ 32) wanted in
        let small = short_code r.fqdn r.q_type in
        let whole_code = small_code rcode small in
        rw (e, resolve_query, answer_to)
          (subst
            (λ x.
              (x.rcode ≡ rcode)
              × (x.rcode < 16)
              × (convert_proto_to_rr_slice lib x.records ≡ ok wanted))
            (sym w) (whole_code, subst (λ c. c < 16) (sym whole_code) small, k))
  ]

  resolve_item-Serves :
      (r : DnsRequest) → r.q_type < 2 ^ 16 → Serves r (resolve_item lib (some (item_of r)))
  unfolding resolve_item
  resolve_item-Serves r h = rw (passes r.q_type h, resolve_item) (resolve_query-Serves r)

  items_of-back :
      (rs : List DnsRequest) → items_of (map some rs) ≡ ok (map (λ r. some (item_of r)) rs)
  unfolding items_of
  items_of-back [] = refl
  items_of-back (r ∷ rs) = rw (items_of-back rs, items_of) refl

  decode_results-back :
      (found : List lib.RR) (rcode : ℕ) (rs : List DnsRequest)
      → All (λ r. r.q_type < 2 ^ 16) rs
      → decode_results lib found rcode
          (map (λ i. some (resolve_item lib i)) (map (λ r. some (item_of r)) rs))
        ≡ (found ++ records_of lib rs, merge_code rcode (code_of lib rs), none)
  unfolding decode_results Serves records_of code_of first_failure
  decode_results-back found rcode [] h = rw (append-nil found, merge_code_success rcode) refl
  decode_results-back found rcode (r ∷ rs) (h, hs) =
      let (code, small, records) = resolve_item-Serves r h in
      let one : ltb 15 (resolve_item lib (some (item_of r))).rcode ≡ false = ground arith in
      rw (one, records, code, decode_results)
        (decode_results-back (found ++ (answer_to lib r).0) (merge_code rcode (answer_to lib r).1)
            rs hs
          ∙ rw
              (
                append_assoc found (answer_to lib r).0 (records_of lib rs),
                merge_code_assoc rcode (answer_to lib r).1 (code_of lib rs),
              )
              refl)

  -- Where records survive packing, the name server's codes have four bits, and the types asked for
  -- have 16, the client gets the records of all the answers in the order of its requests, less the
  -- AAAA records where it blocks them, the first code that is not a success, and no error.
  pub resolve-answers :
      (rs : List DnsRequest)
      → All (λ r. r.q_type < 2 ^ 16) rs
      → resolve lib (map some rs) ≡ (records_of lib rs, code_of lib rs, none)
  unfolding resolve_by dns_resolve decode_dns_response records_of code_of first_failure
  resolve-answers [] h = refl
  resolve-answers (r ∷ rs) h =
      rw (items_of-back (r ∷ rs), resolve_by)
        (decode_results-back [] rcode_success (r ∷ rs) h
          ∙ ap (λ c. (records_of lib (r ∷ rs), c, none))
              (success-merge_code (code_of lib (r ∷ rs))))
