-- ===== src/Rpc/Names.antt =====
-- The names of the gRPC service: internal/transport/rpc/config.go, proto/dynamic_service.go,
-- server/dynamic_server.go and client/dynamic_client.go. The mutex is held throughout each function.
pub mod Agree
use spaceship.Base.{List, [], ◌∷◌, ◌++◌, Option, none, some, Bytes, codes, lookup, if◌then◌else◌}
use spaceship.Hosts.{is_empty}

pub record ServiceConfig : Type 0 where
  pub service_name : Bytes
  pub method_names : List (Bytes × Bytes)

abbrev pub default_service : Bytes
default_service = codes "proxy.Proxy"

-- `fmt.Sprintf("/%s/%s", service, method)`
unfoldable pub full_name : Bytes → Bytes → Bytes
full_name service method = codes "/" ++ (service ++ (codes "/" ++ method))

abbrev pub dns_resolve_method : Bytes
dns_resolve_method = codes "DnsResolve"

abbrev pub proxy_method : Bytes
proxy_method = codes "Proxy"

-- `globalServiceConfig` at the start.
unfoldable pub initial_config : ServiceConfig
initial_config = record {
  service_name = default_service;
  method_names =
      (dns_resolve_method, codes "/proxy.Proxy/DnsResolve")
      ∷ ((proxy_method, codes "/proxy.Proxy/Proxy") ∷ []);
}

abbrev pub or_default_service : Bytes → Bytes
or_default_service name = if is_empty name then default_service else name

unfoldable pub set_service_name : ServiceConfig → Bytes → ServiceConfig
unfolding full_name
set_service_name c name =
    let service = or_default_service name in
    record {
      service_name = service;
      method_names =
          (dns_resolve_method, full_name service dns_resolve_method)
          ∷ ((proxy_method, full_name service proxy_method) ∷ []);
    }

unfoldable pub get_method_name : ServiceConfig → Bytes → Bytes
get_method_name c method = elim (lookup method c.method_names) [
  | some name ↦ name
  | none ↦ full_name c.service_name method
]

-- What a server registers: a service with its methods and its streams.
pub record ServiceDesc : Type 0 where
  pub service : Bytes
  pub methods : List Bytes
  pub streams : List Bytes

-- `RegisterWithGRPC`, and `NewDynamicProxyService` with `RegisterWithServer`.
unfoldable pub register_with_grpc : ServiceConfig → ServiceDesc
register_with_grpc c = record {
  service = c.service_name;
  methods = dns_resolve_method ∷ [];
  streams = proxy_method ∷ [];
}

unfoldable pub register_with_server : Bytes → ServiceDesc
register_with_server name = record {
  service = or_default_service name;
  methods = dns_resolve_method ∷ [];
  streams = proxy_method ∷ [];
}

-- The methods that a client calls: `NewDynamicProxyClient`.
pub record ClientMethodNames : Type 0 where
  pub dns_resolve : Bytes
  pub proxy : Bytes

unfoldable pub new_dynamic_proxy_client : ServiceConfig → ClientMethodNames
new_dynamic_proxy_client c = record {
  dns_resolve = get_method_name c dns_resolve_method;
  proxy = get_method_name c proxy_method;
}

-- `GetClientMethodNames`, and `GetMethodNames` of a `DynamicProxyService`.
unfoldable pub get_client_method_names : Bytes → ClientMethodNames
unfolding full_name
get_client_method_names name = record {
  dns_resolve = full_name (or_default_service name) dns_resolve_method;
  proxy = full_name (or_default_service name) proxy_method;
}
