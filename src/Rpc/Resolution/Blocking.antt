-- ===== src/Rpc/Resolution/Blocking.antt =====
-- A client that asks for no AAAA records gets none.
use spaceship.Base.{
  ℕ, true, false, Bool-cases, inl, inr, List, [], ◌∷◌, ◌++◌, map, Option, none, some, Bytes, ltb,
  ◌==◌, ◌≡◌, sym, subst, arith, ok, Result-cases, >>=-eq-ok, All, All-append,
}
use spaceship.Rpc.Client.Resolve.{
  DnsRequest, merge_code, items_of, decode_results, decode_dns_response, resolve_by,
}
use spaceship.Rpc.Records.{
  DnsLib, RrRecord, DnsItem, DnsResult, type_aaaa, rcode_success, rcode_server_failure,
  rcode_format_error, convert_rr_to_proto, convert_proto_to_rr, convert_rr_slice_to_proto,
  convert_proto_to_rr_slice,
}
use spaceship.Rpc.Resolution.{call, resolve, Visible}
use spaceship.Rpc.Server.Resolve.{
  without_aaaa, dns_resolve, with_records, resolve_query, resolve_item, resolve_dns_records,
  safe_uint32_to_uint16,
}

-- Unpacking gives a record of the type that was packed.
abbrev pub KeepsType : DnsLib → Type 0
KeepsType lib =
    (rr rr' : lib.RR) (wire : Bytes)
    → lib.pack_rr rr ≡ some wire
    → lib.unpack_rr wire ≡ some rr'
    → lib.rr_type rr' ≡ lib.rr_type rr

abbrev pub Blocks : Option DnsRequest → Type 0
Blocks none = Unit
Blocks (some r) = r.block_ipv6 ≡ true

module _ (lib : DnsLib) (keeps : KeepsType lib) where
  packed :
      (rr : lib.RR) (r : RrRecord)
      → convert_rr_to_proto lib (some rr) ≡ ok r
      → lib.pack_rr rr ≡ some r.wire_data
  unfolding convert_rr_to_proto
  packed rr r h = ground arith

  unpacked :
      (r : RrRecord) (rr : lib.RR)
      → convert_proto_to_rr lib (some r) ≡ ok rr
      → lib.unpack_rr r.wire_data ≡ some rr
  unfolding convert_proto_to_rr
  unpacked r rr h = ground arith

  one-Visible :
      (rr rr' : lib.RR) (r : RrRecord)
      → convert_rr_to_proto lib (some rr) ≡ ok r
      → convert_proto_to_rr lib (some r) ≡ ok rr'
      → Visible lib rr
      → Visible lib rr'
  one-Visible rr rr' r h h' v =
      subst (λ n. (n == type_aaaa) ≡ false)
        (sym (keeps rr rr' r.wire_data (packed rr r h) (unpacked r rr' h'))) v

  slice-Visible :
      (rrs rrs' : List lib.RR) (rs : List (Option RrRecord))
      → convert_rr_slice_to_proto lib (map some rrs) ≡ ok rs
      → convert_proto_to_rr_slice lib rs ≡ ok rrs'
      → All (Visible lib) rrs
      → All (Visible lib) rrs'
  unfolding convert_rr_slice_to_proto convert_proto_to_rr_slice
  slice-Visible [] rrs' rs h h' v =
      let e : [] ≡ rs = cc in
      let e' = subst (λ x. convert_proto_to_rr_slice lib x ≡ ok rrs') (sym e) h' in
      let none_left : [] ≡ rrs' = cc in subst (All (Visible lib)) none_left tt
  slice-Visible (rr ∷ rrs) rrs' rs h h' (v, vs) =
      let (r, p, h2) = >>=-eq-ok (convert_rr_to_proto lib (some rr)) _ h in
      let (rest, q, h3) = >>=-eq-ok (convert_rr_slice_to_proto lib (map some rrs)) _ h2 in
      let e : some r ∷ rest ≡ rs = cc in
      let e' = subst (λ x. convert_proto_to_rr_slice lib x ≡ ok rrs') (sym e) h' in
      let (rr', p', k2) = >>=-eq-ok (convert_proto_to_rr lib (some r)) _ e' in
      let (rest', q', k3) = >>=-eq-ok (convert_proto_to_rr_slice lib rest) _ k2 in
      let both : rr' ∷ rest' ≡ rrs' = cc in
      subst (All (Visible lib)) both
        (one-Visible rr rr' r p p' v, slice-Visible rrs rest' rest q q' vs)

  without_aaaa-Visible : (rrs : List lib.RR) → All (Visible lib) (without_aaaa lib rrs)
  unfolding without_aaaa
  without_aaaa-Visible [] = tt
  without_aaaa-Visible (rr ∷ rrs) = elim (Bool-cases (lib.rr_type rr == type_aaaa)) [
    | inl e ↦ rw (e, without_aaaa) (without_aaaa-Visible rrs)
    | inr e ↦ rw (e, without_aaaa) (e, without_aaaa-Visible rrs)
  ]

  -- What a result decodes to is visible.
  abbrev IsSafe : Option DnsResult → Type 0
  IsSafe none = Unit
  IsSafe (some r) =
      (rrs : List lib.RR) → convert_proto_to_rr_slice lib r.records ≡ ok rrs → All (Visible lib) rrs

  empty-IsSafe :
      (fqdn : Bytes) (rcode : ℕ)
      → IsSafe (some (record { fqdn = fqdn; rcode = rcode; records = [] }))
  unfolding convert_proto_to_rr_slice
  empty-IsSafe fqdn rcode rrs h =
      let none_left : [] ≡ rrs = cc in subst (All (Visible lib)) none_left tt

  with_records-IsSafe :
      (fqdn : Bytes) (rcode : ℕ) (rrs : List lib.RR)
      → All (Visible lib) rrs
      → IsSafe (some (with_records lib (record { fqdn = fqdn; rcode = rcode; records = [] }) rrs))
  unfolding with_records
  with_records-IsSafe fqdn rcode [] v = empty-IsSafe fqdn rcode
  with_records-IsSafe fqdn rcode (rr ∷ rrs) v =
      elim (Result-cases (convert_rr_slice_to_proto lib (map some (rr ∷ rrs)))) [
        | inl (rs, e) ↦ rw (e, with_records) (λ rrs' h. slice-Visible (rr ∷ rrs) rrs' rs e h v)
        | inr (x, e) ↦ rw (e, with_records) (empty-IsSafe fqdn rcode_server_failure)
      ]

  abbrev blocking : Bytes → ℕ → DnsItem
  blocking fqdn q_type = record { fqdn = fqdn; q_type = q_type; block_ipv6 = true }

  resolve_query-IsSafe :
      (fqdn : Bytes) (q qtype : ℕ) → IsSafe (some (resolve_query lib (blocking fqdn q) qtype))
  unfolding resolve_query
  resolve_query-IsSafe fqdn q qtype = elim (Bool-cases (qtype == type_aaaa)) [
    | inl e ↦ rw (e, resolve_query) (empty-IsSafe fqdn rcode_success)
    | inr e ↦
        rw (e, resolve_query)
          (with_records-IsSafe fqdn _ _
            (without_aaaa-Visible (resolve_dns_records lib fqdn qtype).0))
  ]

  resolve_item-IsSafe :
      (fqdn : Bytes) (q : ℕ) → IsSafe (some (resolve_item lib (some (blocking fqdn q))))
  unfolding resolve_item
  resolve_item-IsSafe fqdn q = elim (Bool-cases (safe_uint32_to_uint16 q).1) [
    | inl e ↦ rw (e, resolve_item) (resolve_query-IsSafe fqdn q (safe_uint32_to_uint16 q).0)
    | inr e ↦ rw (e, resolve_item) (empty-IsSafe fqdn rcode_format_error)
  ]

  decode_results-Visible :
      (found : List lib.RR) (rcode : ℕ) (rs : List (Option DnsResult))
      → All (Visible lib) found
      → All IsSafe rs
      → All (Visible lib) (decode_results lib found rcode rs).0
  unfolding decode_results
  decode_results-Visible found rcode [] v s = v
  decode_results-Visible found rcode (none ∷ rs) v (_, s) =
      decode_results-Visible found rcode rs v s
  decode_results-Visible found rcode (some r ∷ rs) v (safe, s) =
      elim (Bool-cases (ltb 15 r.rcode)) [
        | inl e ↦ rw (e, decode_results) tt
        | inr e ↦ elim (Result-cases (convert_proto_to_rr_slice lib r.records)) [
          | inl (rrs, k) ↦
              rw (e, k, decode_results)
                (decode_results-Visible (found ++ rrs) (merge_code rcode r.rcode) rs
                  (All-append (Visible lib) found rrs v (safe rrs k)) s)
          | inr (x, k) ↦ rw (e, k, decode_results) tt
        ]
      ]

  items_of-IsSafe :
      (requests : List (Option DnsRequest)) (items : List (Option DnsItem))
      → All Blocks requests
      → items_of requests ≡ ok items
      → All IsSafe (map (λ i. some (resolve_item lib i)) items)
  unfolding items_of
  items_of-IsSafe [] items b h =
      let e : [] ≡ items = cc in
      subst (λ x. All IsSafe (map (λ i. some (resolve_item lib i)) x)) e tt
  items_of-IsSafe (none ∷ rs) items b h = cc
  items_of-IsSafe (some r ∷ rs) items (b, bs) h =
      let (rest, k, h2) = >>=-eq-ok (items_of rs) _ h in
      let e : some (record { fqdn = r.fqdn; q_type = r.q_type; block_ipv6 = r.block_ipv6 }) ∷ rest
          ≡ items =
        cc in
      subst (λ x. All IsSafe (map (λ i. some (resolve_item lib i)) x)) e
        (
          subst
              (λ x. IsSafe (
                some (
                  resolve_item lib
                    (some (record { fqdn = r.fqdn; q_type = r.q_type; block_ipv6 = x })))))
              (sym b) (resolve_item-IsSafe r.fqdn r.q_type),
          items_of-IsSafe rs rest bs k,
        )

  resolve_items-Visible :
      (items : List (Option DnsItem))
      → All IsSafe (map (λ i. some (resolve_item lib i)) items)
      → (answer : Option (List (Option DnsResult))) → call lib items ≡ ok answer
      → All (Visible lib) (decode_dns_response lib answer).0
  unfolding dns_resolve decode_dns_response
  resolve_items-Visible [] s answer h = cc
  resolve_items-Visible (i ∷ items) s answer h =
      let e : some (map (λ i. some (resolve_item lib i)) (i ∷ items)) ≡ answer = cc in
      subst (λ x. All (Visible lib) (decode_dns_response lib x).0) e
        (decode_results-Visible [] rcode_success _ tt s)

  -- Where packing keeps the type of a record, a client whose requests all block IPv6 gets no AAAA
  -- record, whatever it asks for, the name server answers, and fails on the way.
  pub resolve-Visible :
      (requests : List (Option DnsRequest))
      → All Blocks requests
      → All (Visible lib) (resolve lib requests).0
  unfolding resolve_by
  resolve-Visible [] b = tt
  resolve-Visible (r ∷ rs) b = elim (Result-cases (items_of (r ∷ rs))) [
    | inr (x, e) ↦ rw (e, resolve_by) tt
    | inl (items, e) ↦ elim (Result-cases (call lib items)) [
      | inr (x, k) ↦ rw (e, k, resolve_by) tt
      | inl (answer, k) ↦
          rw (e, k, resolve_by)
            (resolve_items-Visible items (items_of-IsSafe (r ∷ rs) items b e) answer k)
    ]
  ]
