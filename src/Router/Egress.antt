-- ===== src/Router/Egress.antt =====
-- `Egress` of internal/router/egress.go. A value is a string of the configuration: the names of the
-- source are constructors, and `other` is any further string.
use spaceship.Base.{Bool, true, false, Bytes, Result, ok, err}

pub data Egress : Type 0 where
  unknown direct proxy forward block black_hole : Egress
  other : Bytes → Egress

pub data Error : Type 0 where
  unknown_transport not_implemented blocked proxy_failed : Error
  route_nil route_not_found : Error
  cidr_parse_failed regex_parse_failed unknown_route_type ext_failed : Error

-- The transports of the program, as `GetTransport` makes them.
pub data Transport : Type 0 where
  direct_transport proxy_transport forward_transport black_hole_transport : Transport

unfoldable pub supports_udp : Egress → Bool
supports_udp Egress.direct = true
supports_udp Egress.proxy = true
supports_udp _ = false

-- `proxy_up` is whether `rpcClient.New` finds a pooled connection.
unfoldable pub get_transport : Bool → Egress → Result Error Transport
get_transport proxy_up Egress.unknown = err unknown_transport
get_transport proxy_up Egress.direct = ok direct_transport
get_transport true Egress.proxy = ok proxy_transport
get_transport false Egress.proxy = err proxy_failed
get_transport proxy_up Egress.forward = ok forward_transport
get_transport proxy_up Egress.black_hole = ok black_hole_transport
get_transport proxy_up Egress.block = err blocked
get_transport proxy_up (Egress.other name) = err not_implemented
