-- ===== src/TypeTraits/Wrapping.antt =====
-- async_grpc/type_traits.h and rpc_service_method_traits.h: what the traits of a method say of the two
-- types that it was declared with.
use Prim.Native.String.{String}
use async_flatbuffer_grpc.Prelude.{◌≡◌, refl, subst, true, some}
use async_flatbuffer_grpc.Api.{
  RpcType, normal_rpc, client_streaming, server_streaming, bidi_streaming,
}
use async_flatbuffer_grpc.TypeTraits.{
  MessageType, message, stream, other_class, HandlerSignature, strip_stream, rpc_type, is_table,
  RpcServiceMethodTraits, traits,
}

-- How a method of each type is declared, for the messages it is to have.
abbrev pub incoming : RpcType → MessageType → MessageType
incoming normal_rpc t = t
incoming client_streaming t = stream t
incoming server_streaming t = t
incoming bidi_streaming t = stream t

abbrev pub outgoing : RpcType → MessageType → MessageType
outgoing normal_rpc t = t
outgoing client_streaming t = t
outgoing server_streaming t = stream t
outgoing bidi_streaming t = stream t

abbrev pub declare : RpcServiceMethodTraits → HandlerSignature
declare t = record {
  incoming_type = incoming t.stream_type t.request_type;
  outgoing_type = outgoing t.stream_type t.response_type;
  method_name = t.name;
}

-- A method that is declared as one of a given type for messages that are tables has the traits it was
-- declared for.
pub traits-declare :
    (t : RpcServiceMethodTraits)
    → is_table t.request_type ≡ true
    → is_table t.response_type ≡ true
    → traits (declare t) ≡ some t
unfolding traits strip_stream rpc_type is_table
traits-declare t p q = by_type t.name t.request_type t.response_type t.stream_type p q
  where
    by_type :
        (name : String) (request response : MessageType) (kind : RpcType)
        → is_table request ≡ true
        → is_table response ≡ true
        → let t : RpcServiceMethodTraits = record {
          name = name;
          request_type = request;
          response_type = response;
          stream_type = kind;
        } in
          traits (declare t) ≡ some t
    by_type name (message m) (message n) normal_rpc p q = refl
    by_type name (message m) (message n) client_streaming p q = refl
    by_type name (message m) (message n) server_streaming p q = refl
    by_type name (message m) (message n) bidi_streaming p q = refl
    by_type name (stream m) response kind p q = cc
    by_type name (other_class m) response kind p q = cc
    by_type name (message m) (stream n) kind p q = cc
    by_type name (message m) (other_class n) kind p q = cc

-- What the traits of a signature say of it.
abbrev pub Tells : HandlerSignature → RpcServiceMethodTraits → Type 0
Tells s t = (declare t ≡ s) × (is_table t.request_type ≡ true) × (is_table t.response_type ≡ true)

-- A method that has traits (its types pass the checks at compile time) is declared as one of the type
-- that they name, for the messages that they name, and these are tables.
pub declare-traits :
    (s : HandlerSignature) (t : RpcServiceMethodTraits) → traits s ≡ some t → Tells s t
unfolding traits strip_stream rpc_type is_table
declare-traits s t h = by_types s.method_name s.incoming_type s.outgoing_type h
  where
    told :
        (s : HandlerSignature) (u : RpcServiceMethodTraits)
        → some u ≡ some t
        → Tells s u
        → Tells s t
    told s u e g = let same : u ≡ t = cc e in subst (Tells s) same g

    by_types :
        (name : String) (a b : MessageType)
        → traits (record { incoming_type = a; outgoing_type = b; method_name = name }) ≡ some t
        → Tells (record { incoming_type = a; outgoing_type = b; method_name = name }) t
    by_types name (message m) (message n) h = told _ _ h (refl, refl, refl)
    by_types name (message m) (stream (message n)) h = told _ _ h (refl, refl, refl)
    by_types name (stream (message m)) (message n) h = told _ _ h (refl, refl, refl)
    by_types name (stream (message m)) (stream (message n)) h = told _ _ h (refl, refl, refl)
    by_types name a b h = cc
