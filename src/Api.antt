-- ===== src/Api.antt =====
-- What the server side is built on. gRPC and flatbuffers are third-party code and enter as `Api`;
-- the operations that the framework hands to gRPC are recorded as `GrpcCall`s. The types of
-- async_grpc/rpc_interface.h, events.h, rpc_handler_info.h, and the interface of a handler
-- (async_grpc/rpc_handler.h), which user code implements.
use Prim.Native.String.{String}
use async_flatbuffer_grpc.Prelude.{ℕ, Bool, true, false, Option, List}

-- The message types of the methods of a service, its handlers' state and its shared execution
-- context; ::grpc::Status with Status::OK, and the messages that a default constructor makes.
pub record Api : Type 1 where
  pub Request : Type 0
  pub Response : Type 0
  pub HandlerState : Type 0
  pub Context : Type 0
  pub Status : Type 0
  pub ok_status : Status
  pub empty_request : Request
  pub empty_response : Response

pub data Event : Type 0 where
  new_connection read write_needed write finish done : Event

-- ::grpc::internal::RpcMethod::RpcType
pub data RpcType : Type 0 where
  normal_rpc client_streaming server_streaming bidi_streaming : RpcType

-- Whether two events are the same constant.
abbrev pub event_eq : Event → Event → Bool
event_eq new_connection new_connection = true
event_eq read read = true
event_eq write_needed write_needed = true
event_eq write write = true
event_eq finish finish = true
event_eq done done = true
event_eq _ _ = false

-- The metadata of an operation in flight; `event_queue` is the index of the queue that the pointer
-- of the same name was given at construction. The pointers to the service and to the Rpc are those
-- of the Rpc that holds the event.
pub record CompletionQueueRpcEvent : Type 0 where
  pub event : Event
  pub event_queue : ℕ
  pub ok : Bool
  pub pending : Bool

unfoldable pub new_event : Event → ℕ → CompletionQueueRpcEvent
new_event e q = record { event = e; event_queue = q; ok = false; pending = false }

-- The four gRPC objects of which an Rpc owns one.
pub data Interface : Type 0 where
  response_writer async_reader async_reader_writer async_writer : Interface

module _ (api : Api) where
  -- What a handler does to its Rpc in a callback: Send, or Finish.
  pub data Action : Type 0 where
    send : api.Response → Action
    finish_with : api.Status → Action

  -- A callback of a handler: the new shared context, the handler's new state, its calls in order.
  pub record Effects : Type 0 where
    pub context : api.Context
    pub state : api.HandlerState
    pub actions : List Action

  -- A class derived from RpcHandler. `initialize` is its constructor and Initialize.
  pub record Handler : Type 0 where
    pub initialize : api.Context → Effects
    pub on_request : api.Context → api.HandlerState → api.Request → Effects
    pub on_reads_done : api.Context → api.HandlerState → Effects
    pub on_finish : api.Context → api.HandlerState → Effects

  -- `rpc_factory` makes an Rpc of the handler's class, so that is what it is here.
  pub record RpcHandlerInfo : Type 0 where
    pub rpc_factory : Handler
    pub rpc_type : RpcType
    pub fully_qualified_name : String

  -- If `msg` is not set there is no response body.
  pub record SendItem : Type 0 where
    pub msg : Option api.Response
    pub status : api.Status

  -- An operation handed to gRPC; the number in a request for a method invocation is the method's.
  pub data GrpcOp : Type 0 where
    async_notify_when_done : GrpcOp
    request_async_bidi_streaming : ℕ → GrpcOp
    request_async_client_streaming : ℕ → GrpcOp
    request_async_unary : ℕ → GrpcOp
    request_async_server_streaming : ℕ → GrpcOp
    read_op : GrpcOp
    write_op : api.Response → GrpcOp
    finish_op : api.Response → api.Status → GrpcOp
    finish_with_error : api.Status → GrpcOp
    finish_stream : api.Status → GrpcOp

  -- The gRPC object it is called on (none for the server context), and the event that is its tag.
  pub record GrpcCall : Type 0 where
    pub via : Option Interface
    pub op : GrpcOp
    pub tag : Event
