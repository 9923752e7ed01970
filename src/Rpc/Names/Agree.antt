-- ===== src/Rpc/Names/Agree.antt =====
-- Both ends use the same names.
use spaceship.Base.{
  List, [], ◌∷◌, ◌++◌, map, Bytes, lookup, same, same_iff, Bool-cases, inl, inr, ◌≡◌, refl, sym, ap,
  ◌∙◌,
}
use spaceship.Rpc.Names.{
  ServiceConfig, full_name, dns_resolve_method, proxy_method, initial_config, set_service_name,
  get_method_name, ServiceDesc, register_with_grpc, register_with_server, new_dynamic_proxy_client,
  get_client_method_names,
}

-- The configuration after some calls of `SetServiceName`.
abbrev pub configured : List Bytes → ServiceConfig
configured [] = initial_config
configured (name ∷ names) = set_service_name (configured names) name

-- The paths under which gRPC serves what is registered.
abbrev pub served : ServiceDesc → List Bytes
served d = map (full_name d.service) d.methods ++ map (full_name d.service) d.streams

abbrev of_service : Bytes → ServiceConfig
of_service service = record {
  service_name = service;
  method_names =
      (dns_resolve_method, full_name service dns_resolve_method)
      ∷ ((proxy_method, full_name service proxy_method) ∷ []);
}

get_method_name-known :
    (service method : Bytes)
    → get_method_name (of_service service) method ≡ full_name service method
unfolding get_method_name lookup
get_method_name-known service method = elim (Bool-cases (same dns_resolve_method method)) [
  | inl e ↦
      rw (e, get_method_name, lookup)
        (ap (full_name service) ((same_iff dns_resolve_method method).0 e))
  | inr e ↦ elim (Bool-cases (same proxy_method method)) [
    | inl k ↦
        rw (e, k, get_method_name, lookup)
          (ap (full_name service) ((same_iff proxy_method method).0 k))
    | inr k ↦ rw (e, k, get_method_name, lookup) refl
  ]
]

configured_of : (names : List Bytes) → configured names ≡ of_service (configured names).service_name
unfolding initial_config set_service_name full_name
configured_of [] = refl
configured_of (name ∷ names) = refl

method_names_lem :
    (names : List Bytes) (method : Bytes)
    → get_method_name (configured names) method ≡ full_name (configured names).service_name method
method_names_lem names method =
    ap (λ c. get_method_name c method) (configured_of names)
    ∙ get_method_name-known (configured names).service_name method

-- Whatever names are configured, one after the other: a method's name is looked up as the service's
-- name with the method's; the paths that a client calls are those under which a server serves what it
-- registers, in the same order; and with a last name that was given, these are also the names that
-- the other pair of functions makes of it.
pub configured-agree :
    (names : List Bytes) (name method : Bytes)
    → let c = configured names in
      (get_method_name c method ≡ full_name c.service_name method)
      × (served (register_with_grpc c)
          ≡ (new_dynamic_proxy_client c).dns_resolve ∷ (new_dynamic_proxy_client c).proxy ∷ [])
      × (new_dynamic_proxy_client (configured (name ∷ names)) ≡ get_client_method_names name)
      × (register_with_grpc (configured (name ∷ names)) ≡ register_with_server name)
unfolding register_with_grpc new_dynamic_proxy_client get_client_method_names set_service_name
    register_with_server
configured-agree names name method =
    let dns = method_names_lem names dns_resolve_method in
    let proxy = method_names_lem names proxy_method in
    let last_dns = method_names_lem (name ∷ names) dns_resolve_method in
    let last_proxy = method_names_lem (name ∷ names) proxy_method in
    (
      method_names_lem names method,
      (λ i. sym dns i ∷ (sym proxy i ∷ [])),
      (λ i. record { dns_resolve = last_dns i; proxy = last_proxy i }),
      refl,
    )
