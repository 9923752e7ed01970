-- ===== src/Rpc/Messages.antt =====
-- The messages of a proxied stream, from internal/transport/rpc/proto, and the errors of its two ends.
use spaceship.Base.{ℕ, Bytes}

-- A further value of the enumeration is read as TCP.
pub data Network : Type 0 where
  tcp udp : Network

pub record Header : Type 0 where
  pub addr : Bytes
  pub network : Network

-- `ProxySRC`, from the client to the server: a header, a payload, or neither.
pub data SrcMessage : Type 0 where
  src_header : Header → SrcMessage
  src_payload : Bytes → SrcMessage
  src_empty : SrcMessage

pub data Status : Type 0 where
  session error accepted eof : Status
  other : ℕ → Status

pub data DstBody : Type 0 where
  dst_header dst_payload : Bytes → DstBody
  dst_empty : DstBody

-- `ProxyDST`, from the server to the client.
pub record DstMessage : Type 0 where
  pub status : Status
  pub body : DstBody

abbrev pub data_message : Bytes → DstMessage
data_message bytes = record { status = session; body = dst_payload bytes }

abbrev pub accept_message : Bytes → DstMessage
accept_message addr = record { status = accepted; body = dst_header addr }

abbrev pub error_message : DstMessage
error_message = record { status = error; body = dst_empty }

abbrev pub eof_message : DstMessage
eof_message = record { status = eof; body = dst_empty }

-- `end_of_file` is `io.EOF`, `canceled` is `context.Canceled`, and `rpc_canceled` its gRPC status;
-- `failure` is an error of gRPC, of a socket or of a file.
pub data Error : Type 0 where
  end_of_file canceled rpc_canceled unavailable conn_closed deadline_exceeded short_write
        short_buffer :
      Error
  invalid_message invalid_payload server_error unknown_status error_status : Error
  ack_failed ack_timeout server_rejected invalid_address route_error dial_error : Error
  failure : ℕ → Error
