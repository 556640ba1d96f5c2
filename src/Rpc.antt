-- ===== src/Rpc.antt =====
-- async_grpc/rpc.h, class Rpc: the members that touch the Rpc alone. A member returns the new Rpc
-- with the calls that it made of gRPC, in order, or the fault that stopped it. Members that push
-- to an event queue or run the handler are in Runtime.
pub mod SendQueue
pub mod Life
pub mod Overlap
use async_flatbuffer_grpc.Prelude.{
  ℕ, ◌≡◌, refl, Bool, true, false, not, ◌||◌, Option, none, some, List, [], ◌∷◌, ◌++◌, arith,
  if◌then◌else◌, is_some, Result, ok, fault, fatal, null_pointer, check, ◌>>=◌, ◌>>◌,
}
use async_flatbuffer_grpc.Api.{
  Api, Event, new_connection, read, write_needed, write, finish, done, RpcType, normal_rpc,
  client_streaming, server_streaming, bidi_streaming, CompletionQueueRpcEvent, new_event, Interface,
  response_writer, async_reader, async_reader_writer, async_writer, RpcHandlerInfo, SendItem,
  GrpcOp, GrpcCall, async_notify_when_done, request_async_bidi_streaming,
  request_async_client_streaming, request_async_unary, request_async_server_streaming, read_op,
  write_op, finish_op, finish_with_error, finish_stream,
}

pub record Rpc (api : Api) : Type 0 where
  pub method_index : ℕ
  pub server_completion_queue : ℕ
  pub event_queue : ℕ
  pub rpc_handler_info : RpcHandlerInfo api
  pub new_connection_event : CompletionQueueRpcEvent
  pub read_event : CompletionQueueRpcEvent
  pub write_event : CompletionQueueRpcEvent
  pub finish_event : CompletionQueueRpcEvent
  pub done_event : CompletionQueueRpcEvent
  pub request : api.Request
  pub response : api.Response
  pub handler : Option api.HandlerState
  pub interface : Option Interface
  pub send_queue : List (SendItem api)

-- InitializeReadersAndWriters: which of the four pointers is set.
abbrev pub initialize_readers_and_writers : RpcType → Interface
initialize_readers_and_writers bidi_streaming = async_reader_writer
initialize_readers_and_writers client_streaming = async_reader
initialize_readers_and_writers normal_rpc = response_writer
initialize_readers_and_writers server_streaming = async_writer

-- Dereferences the pointer to the named object.
abbrev pub get_interface : Interface → Option Interface → Result Interface
get_interface response_writer (some response_writer) = ok response_writer
get_interface async_reader (some async_reader) = ok async_reader
get_interface async_reader_writer (some async_reader_writer) = ok async_reader_writer
get_interface async_writer (some async_writer) = ok async_writer
get_interface _ _ = fault null_pointer

async_reader_interface : RpcType → Option Interface → Result Interface
async_reader_interface bidi_streaming i = get_interface async_reader_writer i
async_reader_interface client_streaming i = get_interface async_reader i
async_reader_interface normal_rpc i = fault fatal
async_reader_interface server_streaming i = fault fatal

async_writer_interface : RpcType → Option Interface → Result Interface
async_writer_interface bidi_streaming i = get_interface async_reader_writer i
async_writer_interface client_streaming i = fault fatal
async_writer_interface normal_rpc i = fault fatal
async_writer_interface server_streaming i = get_interface async_writer i

streaming_interface : RpcType → Option Interface → Result Interface
streaming_interface bidi_streaming i = get_interface async_reader_writer i
streaming_interface client_streaming i = get_interface async_reader i
streaming_interface normal_rpc i = get_interface response_writer i
streaming_interface server_streaming i = get_interface async_writer i

abbrev pub is_normal_rpc : RpcType → Bool
is_normal_rpc normal_rpc = true
is_normal_rpc _ = false

abbrev pub is_client_streaming : RpcType → Bool
is_client_streaming client_streaming = true
is_client_streaming _ = false

module _ {api : Api} where
  unfoldable pub make_rpc : ℕ → ℕ → ℕ → RpcHandlerInfo api → Rpc api
  unfolding new_event
  make_rpc method_index server_completion_queue event_queue info = record {
    method_index = method_index;
    server_completion_queue = server_completion_queue;
    event_queue = event_queue;
    rpc_handler_info = info;
    new_connection_event = new_event new_connection event_queue;
    read_event = new_event read event_queue;
    write_event = new_event write event_queue;
    finish_event = new_event finish event_queue;
    done_event = new_event done event_queue;
    request = api.empty_request;
    response = api.empty_response;
    handler = none;
    interface = some (initialize_readers_and_writers info.rpc_type);
    send_queue = [];
  }

  unfoldable pub clone : Rpc api → Rpc api
  unfolding make_rpc
  clone r = make_rpc r.method_index r.server_completion_queue r.event_queue r.rpc_handler_info

  unfoldable pub set_event_queue : ℕ → Rpc api → Rpc api
  set_event_queue q r = record r { event_queue = q }

  unfoldable pub get_rpc_event : Event → Rpc api → Result CompletionQueueRpcEvent
  get_rpc_event new_connection r = ok r.new_connection_event
  get_rpc_event read r = ok r.read_event
  get_rpc_event write_needed r = fault fatal
  get_rpc_event write r = ok r.write_event
  get_rpc_event finish r = ok r.finish_event
  get_rpc_event done r = ok r.done_event

  -- An assignment through the pointer that GetRpcEvent returns.
  unfoldable pub put_rpc_event : Event → CompletionQueueRpcEvent → Rpc api → Rpc api
  put_rpc_event new_connection c r = record r { new_connection_event = c }
  put_rpc_event read c r = record r { read_event = c }
  put_rpc_event write_needed c r = r
  put_rpc_event write c r = record r { write_event = c }
  put_rpc_event finish c r = record r { finish_event = c }
  put_rpc_event done c r = record r { done_event = c }

  unfoldable pub set_rpc_event_state : Event → Bool → Rpc api → Result (Rpc api)
  unfolding get_rpc_event put_rpc_event
  set_rpc_event_state e pending r = do
    c ← get_rpc_event e r
    ok (put_rpc_event e (record c { pending = pending }) r)

  unfoldable pub is_rpc_event_pending : Event → Rpc api → Result Bool
  unfolding get_rpc_event
  is_rpc_event_pending e r = do c ← get_rpc_event e r; ok c.pending

  unfoldable pub is_any_event_pending : Rpc api → Result Bool
  unfolding is_rpc_event_pending
  is_any_event_pending r = do
    d ← is_rpc_event_pending done r
    i ← is_rpc_event_pending read r
    o ← is_rpc_event_pending write r
    f ← is_rpc_event_pending finish r
    ok (d || i || o || f)

  abbrev pub request_async : RpcType → ℕ → GrpcOp api
  request_async bidi_streaming m = request_async_bidi_streaming m
  request_async client_streaming m = request_async_client_streaming m
  request_async normal_rpc m = request_async_unary m
  request_async server_streaming m = request_async_server_streaming m

  unfoldable pub request_next_method_invocation : Rpc api → Result (Rpc api × List (GrpcCall api))
  unfolding set_rpc_event_state streaming_interface
  request_next_method_invocation r = do
    r1 ← set_rpc_event_state done true r
    r2 ← set_rpc_event_state new_connection true r1
    i ← streaming_interface r.rpc_handler_info.rpc_type r.interface
    ok (
      r2,
      record { via = none; op = async_notify_when_done; tag = done }
          ∷ record {
            via = some i;
            op = request_async r.rpc_handler_info.rpc_type r.method_index;
            tag = new_connection;
          }
          ∷ [],
    )

  -- The branch of RequestStreamingReadIfNeeded for the request-streaming types.
  unfoldable pub request_streaming_read : Rpc api → Result (Rpc api × List (GrpcCall api))
  unfolding set_rpc_event_state async_reader_interface
  request_streaming_read r = do
    r1 ← set_rpc_event_state read true r
    i ← async_reader_interface r.rpc_handler_info.rpc_type r.interface
    ok (r1, record { via = some i; op = read_op; tag = read } ∷ [])

  unfoldable pub enqueue_message : SendItem api → Rpc api → Rpc api
  enqueue_message item r = record r { send_queue = r.send_queue ++ item ∷ [] }

  -- Finish on the response writer or on the reader, with the body where there is one.
  finish_unary :
      Interface
      → Option api.Response
      → api.Status
      → Rpc api
      → Result (Rpc api × List (GrpcCall api))
  finish_unary via (some m) status r = do
    i ← get_interface via r.interface
    ok (
      record r { response = m },
      record { via = some i; op = finish_op m status; tag = finish } ∷ [],
    )
  finish_unary via none status r = do
    i ← get_interface via r.interface
    ok (r, record { via = some i; op = finish_with_error status; tag = finish } ∷ [])

  finish_streaming :
      Interface
      → Option api.Response
      → api.Status
      → Rpc api
      → Result (Rpc api × List (GrpcCall api))
  finish_streaming via message status r = do
    check (not (is_some message))
    i ← get_interface via r.interface
    ok (r, record { via = some i; op = finish_stream status; tag = finish } ∷ [])

  finish_by_type :
      RpcType → Option api.Response → api.Status → Rpc api → Result (Rpc api × List (GrpcCall api))
  unfolding finish_unary finish_streaming
  finish_by_type bidi_streaming message status r =
      finish_streaming async_reader_writer message status r
  finish_by_type client_streaming message status r = finish_unary async_reader message status r
  finish_by_type normal_rpc message status r = finish_unary response_writer message status r
  finish_by_type server_streaming message status r = finish_streaming async_writer message status r

  unfoldable pub perform_finish :
      Option api.Response → api.Status → Rpc api → Result (Rpc api × List (GrpcCall api))
  unfolding set_rpc_event_state finish_by_type
  perform_finish message status r = do
    r1 ← set_rpc_event_state finish true r
    finish_by_type r1.rpc_handler_info.rpc_type message status r1

  -- `message.value()` of an empty optional throws.
  write_value : Option api.Response → Rpc api → Result (Rpc api × List (GrpcCall api))
  unfolding async_writer_interface
  write_value none r = fault null_pointer
  write_value (some m) r = do
    i ← async_writer_interface r.rpc_handler_info.rpc_type r.interface
    ok (record r { response = m }, record { via = some i; op = write_op m; tag = write } ∷ [])

  unfoldable pub perform_write :
      Option api.Response → Rpc api → Result (Rpc api × List (GrpcCall api))
  unfolding set_rpc_event_state write_value
  perform_write message r = do
    check (is_some message)
    check (not (is_normal_rpc r.rpc_handler_info.rpc_type))
    check (not (is_client_streaming r.rpc_handler_info.rpc_type))
    r1 ← set_rpc_event_state write true r
    write_value message r1

  -- What HandleSendQueue does with the item that it took from the queue.
  unfoldable pub send_front : SendItem api → Rpc api → Result (Rpc api × List (GrpcCall api))
  unfolding perform_finish perform_write
  send_front item r =
      if not (is_some item.msg)
        || is_normal_rpc r.rpc_handler_info.rpc_type
        || is_client_streaming r.rpc_handler_info.rpc_type
      then perform_finish item.msg item.status r
      else perform_write item.msg r

  -- The scope of the MutexLocker in HandleSendQueue: the item at the front, unless a write or a finish
  -- is under way.
  unfoldable pub take_item :
      List (SendItem api) → Rpc api → Result (Option (SendItem api) × Rpc api)
  unfolding is_rpc_event_pending
  take_item [] r = ok (none, r)
  take_item (item ∷ rest) r = do
    o ← is_rpc_event_pending write r
    f ← is_rpc_event_pending finish r
    if o || f then ok (none, r) else ok (some item, record r { send_queue = rest })

  -- What comes after the scope, without the mutex.
  unfoldable pub send_taken :
      Option (SendItem api) → Rpc api → Result (Rpc api × List (GrpcCall api))
  unfolding send_front
  send_taken none r = ok (r, [])
  send_taken (some item) r = send_front item r

  -- The two in one step. Threads that come between them are in Rpc/Overlap.
  unfoldable pub handle_send_queue : Rpc api → Result (Rpc api × List (GrpcCall api))
  unfolding take_item send_taken
  handle_send_queue r = do taken ← take_item r.send_queue r; send_taken taken.0 taken.1
