-- ===== src/Http/Headers/Forwarded.antt =====
-- The header of a forwarded request.
use spaceship.Base.{
  true, false, Bool-cases, ◌⊎◌, inl, inr, List, [], ◌∷◌, none, ◌≡◌, refl, sym, ap, ◌∙◌, subst,
  arith, Bytes, codes, same, same_refl, lookup, lookup-insert, lookup-remove, if◌then◌else◌,
}
use spaceship.Hosts.{is_empty, trim_space}
use spaceship.Http.Headers.{
  Header, HttpLib, split_commas, hop_headers, Request, values, del, set, del_tokens, del_values,
  del_all, remove_hop_headers, expects_continue, write_forward_request,
}

abbrev pub In : Bytes → List Bytes → Type 0
In x [] = ⊥
In x (y ∷ ys) = (x ≡ y) ⊎ In x ys

module _ (lib : HttpLib) where
  abbrev Gone : Bytes → Header → Type 0
  Gone j h = lookup j h ≡ none

  -- A deletion loses no absence.
  del-absent : (h : Header) (k j : Bytes) → Gone j h → Gone j (del lib h k)
  unfolding del
  del-absent h k j e = ground (arith, lookup-remove (lib.canonical k) j h)

  del-Gone : (h : Header) (k : Bytes) → Gone (lib.canonical k) (del lib h k)
  unfolding del
  del-Gone h k =
      ground
        (arith, lookup-remove (lib.canonical k) (lib.canonical k) h, same_refl (lib.canonical k))

  del_all-absent : (ks : List Bytes) (h : Header) (j : Bytes) → Gone j h → Gone j (del_all lib h ks)
  unfolding del_all
  del_all-absent [] h j e = e
  del_all-absent (k ∷ ks) h j e = del_all-absent ks (del lib h k) j (del-absent h k j e)

  del_all-Gone :
      (ks : List Bytes) (h : Header) (k : Bytes)
      → In k ks
      → Gone (lib.canonical k) (del_all lib h ks)
  unfolding del_all
  del_all-Gone [] h k i = elim i [ ]
  del_all-Gone (x ∷ ks) h k (inl e) =
      del_all-absent ks (del lib h x) (lib.canonical k)
        (subst (λ y. Gone (lib.canonical y) (del lib h x)) (sym e) (del-Gone h x))
  del_all-Gone (x ∷ ks) h k (inr i) = del_all-Gone ks (del lib h x) k i

  del_tokens-absent :
      (ts : List Bytes) (h : Header) (j : Bytes) → Gone j h → Gone j (del_tokens lib h ts)
  unfolding del_tokens
  del_tokens-absent [] h j e = e
  del_tokens-absent (t ∷ ts) h j e = elim (Bool-cases (is_empty (trim_space t))) [
    | inl c ↦ rw (c, del_tokens) (del_tokens-absent ts h j e)
    | inr c ↦
        rw (c, del_tokens)
          (del_tokens-absent ts (del lib h (trim_space t)) j (del-absent h (trim_space t) j e))
  ]

  del_tokens-Gone :
      (ts : List Bytes) (h : Header) (t : Bytes)
      → In t ts
      → is_empty (trim_space t) ≡ false
      → Gone (lib.canonical (trim_space t)) (del_tokens lib h ts)
  unfolding del_tokens
  del_tokens-Gone [] h t i c = elim i [ ]
  del_tokens-Gone (x ∷ ts) h t (inl e) c =
      let full : is_empty (trim_space x) ≡ false = ap (λ y. is_empty (trim_space y)) (sym e) ∙ c in
      rw (full, del_tokens)
        (del_tokens-absent ts (del lib h (trim_space x)) (lib.canonical (trim_space t)) (
          subst (λ y. Gone (lib.canonical (trim_space y)) (del lib h (trim_space x))) (sym e)
            (del-Gone h (trim_space x))))
  del_tokens-Gone (x ∷ ts) h t (inr i) c = del_tokens-Gone ts _ t i c

  del_values-absent :
      (vs : List Bytes) (h : Header) (j : Bytes) → Gone j h → Gone j (del_values lib h vs)
  unfolding del_values
  del_values-absent [] h j e = e
  del_values-absent (v ∷ vs) h j e =
      del_values-absent vs (del_tokens lib h (split_commas v)) j
        (del_tokens-absent (split_commas v) h j e)

  del_values-Gone :
      (vs : List Bytes) (h : Header) (v t : Bytes)
      → In v vs
      → In t (split_commas v)
      → is_empty (trim_space t) ≡ false
      → Gone (lib.canonical (trim_space t)) (del_values lib h vs)
  unfolding del_values
  del_values-Gone [] h v t i m c = elim i [ ]
  del_values-Gone (x ∷ vs) h v t (inl e) m c =
      del_values-absent vs (del_tokens lib h (split_commas x)) (lib.canonical (trim_space t))
        (del_tokens-Gone (split_commas x) h t (subst (λ y. In t (split_commas y)) e m) c)
  del_values-Gone (x ∷ vs) h v t (inr i) m c =
      del_values-Gone vs (del_tokens lib h (split_commas x)) v t i m c

  -- A key that is gone from the clean header, other than `Connection`, is gone from the request.
  forwards-Gone :
      (r : Request) (host j : Bytes)
      → same (lib.canonical (codes "Connection")) j ≡ false
      → Gone j (remove_hop_headers lib hop_headers r.header)
      → Gone j (write_forward_request lib r host).header
  unfolding write_forward_request set
  forwards-Gone r host j other e =
      let clean = remove_hop_headers lib hop_headers r.header in
      let kept : Gone j
          (if expects_continue lib clean then del lib clean (codes "Expect") else clean) =
        (elim (Bool-cases (expects_continue lib clean)) [
          | inl c ↦ rw c (del-absent clean (codes "Expect") j e)
          | inr c ↦ rw c e
        ]) in
      rw
        (
          lookup-insert (lib.canonical (codes "Connection")) j (codes "close" ∷ [])
              (if expects_continue lib clean then del lib clean (codes "Expect") else clean),
          other,
        )
        kept

  -- The header map of a forwarded request has `Connection: close`, and apart from the key of that one
  -- no header of the hop-by-hop list and none that a `Connection` header of the incoming request
  -- nominates. The transfer codings and the trailer that stand beside the map, of which `Write` makes
  -- the framing headers, are those of the incoming request, so that a chunked body stays chunked; and
  -- the connection closes behind the request.
  pub write_forward_request-clean :
      (r : Request) (host : Bytes)
      → let h = (write_forward_request lib r host).header in
        (values lib h (codes "Connection") ≡ codes "close" ∷ [])
        × ((k : Bytes)
            → In k hop_headers
            → same (lib.canonical (codes "Connection")) (lib.canonical k) ≡ false
            → lookup (lib.canonical k) h ≡ none)
        × ((v t : Bytes)
            → In v (values lib r.header (codes "Connection"))
            → In t (split_commas v)
            → is_empty (trim_space t) ≡ false
            → same (lib.canonical (codes "Connection")) (lib.canonical (trim_space t)) ≡ false
            → lookup (lib.canonical (trim_space t)) h ≡ none)
        × ((write_forward_request lib r host).transfer_encoding ≡ r.transfer_encoding)
        × ((write_forward_request lib r host).trailer ≡ r.trailer)
        × ((write_forward_request lib r host).close ≡ true)
  unfolding values write_forward_request set remove_hop_headers
  write_forward_request-clean r host =
      let named = values lib r.header (codes "Connection") in
      (
        rw
            (
              lookup-insert (lib.canonical (codes "Connection"))
                  (lib.canonical (codes "Connection")) (codes "close" ∷ []) _,
              same_refl (lib.canonical (codes "Connection")),
            )
            refl,
        λ k i other.
            forwards-Gone r host (lib.canonical k) other
              (del_all-Gone hop_headers (del_values lib r.header named) k i),
        λ v t i m c other. forwards-Gone r host (lib.canonical (trim_space t)) other (
            del_all-absent hop_headers (del_values lib r.header named)
              (lib.canonical (trim_space t)) (del_values-Gone named r.header v t i m c)),
        refl,
        refl,
        refl,
      )
