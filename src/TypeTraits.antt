-- ===== src/TypeTraits.antt =====
-- async_grpc/type_traits.h and rpc_service_method_traits.h: the message types of a method, wrapped
-- by Stream where it streams them, decide its type. A type is its name.
pub mod Wrapping
use Prim.Native.String.{String}
use async_flatbuffer_grpc.Prelude.{Bool, true, false, ◌&&◌, Option, none, some, if◌then◌else◌}
use async_flatbuffer_grpc.Api.{
  RpcType, normal_rpc, client_streaming, server_streaming, bidi_streaming,
}

-- A class derived from flatbuffers::Table, any other class but a Stream, or Stream of a type.
pub data MessageType : Type 0 where
  message : String → MessageType
  other_class : String → MessageType
  stream : MessageType → MessageType

-- The class that DEFINE_HANDLER_SIGNATURE defines.
pub record HandlerSignature : Type 0 where
  pub incoming_type : MessageType
  pub outgoing_type : MessageType
  pub method_name : String

-- StripStream
unfoldable pub strip_stream : MessageType → MessageType
strip_stream (stream t) = t
strip_stream t = t

-- RpcType<Incoming, Outgoing>
unfoldable pub rpc_type : MessageType → MessageType → RpcType
rpc_type (stream a) (stream b) = bidi_streaming
rpc_type (stream a) b = client_streaming
rpc_type a (stream b) = server_streaming
rpc_type a b = normal_rpc

-- std::is_base_of<::flatbuffers::Table, T>
unfoldable pub is_table : MessageType → Bool
is_table (message n) = true
is_table _ = false

-- RpcServiceMethodTraits: the types that RpcHandler, Rpc and the clients are made for.
pub record RpcServiceMethodTraits : Type 0 where
  pub name : String
  pub request_type : MessageType
  pub response_type : MessageType
  pub stream_type : RpcType

-- None if one of the two last static_asserts fails. The other three hold of each signature.
unfoldable pub traits : HandlerSignature → Option RpcServiceMethodTraits
traits s =
    let request_type = strip_stream s.incoming_type in
    let response_type = strip_stream s.outgoing_type in
    if is_table request_type && is_table response_type
    then some (record {
      name = s.method_name;
      request_type = request_type;
      response_type = response_type;
      stream_type = rpc_type s.incoming_type s.outgoing_type;
    })
    else none
