-- ===== src/Runtime.antt =====
-- The parts of a running server that its Rpcs share: the Rpcs of a service (async_grpc/rpc.h, class
-- ActiveRpcs), the event queues, the calls made of gRPC, and the members of class Rpc and of
-- RpcHandler's Writer that push to an event queue or run the handler. A pointer to an Rpc is a
-- number; the Rpcs that exist are those that ActiveRpcs owns, so a dereference of any other pointer
-- is a fault, and a weak pointer is alive as long as its Rpc is found. A new Rpc is given an address
-- that no Rpc had before.
use async_flatbuffer_grpc.Prelude.{
  ℕ, Bool, true, false, not, Option, none, some, List, [], ◌∷◌, ◌++◌, map, if◌then◌else◌, is_some,
  Result, ok, fault, Fault, null_pointer, dangling, would_block, check, or_fault, ◌>>=◌, ◌>>◌, find,
  assign, erase, get_elem?, set,
}
use async_flatbuffer_grpc.Api.{
  Api, Event, RpcType, normal_rpc, client_streaming, server_streaming, bidi_streaming, Action, send,
  finish_with, Effects, SendItem, GrpcCall,
}
use async_flatbuffer_grpc.Common.BlockingQueue.{BlockingQueue}
use async_flatbuffer_grpc.Common.BlockingQueue
use async_flatbuffer_grpc.Rpc.{Rpc, enqueue_message, request_streaming_read}

-- What a UniqueEventPtr in an event queue points to: an event that an Rpc stores, which the queue
-- does not own, or an InternalRpcEvent, which is always WRITE_NEEDED and holds a weak pointer.
pub data QueuedEvent : Type 0 where
  completion_queue_event : ℕ → Event → QueuedEvent
  internal_event : ℕ → QueuedEvent

pub record World (api : Api) : Type 0 where
  pub active_rpcs : List (ℕ × Rpc api)
  -- The service's flag.
  pub shutting_down : Bool
  pub event_queues : List (BlockingQueue QueuedEvent)
  pub num_event_threads : ℕ
  pub current_event_queue_id : ℕ
  pub context : api.Context
  -- The address of the next Rpc, and the calls made of gRPC, each with its Rpc.
  pub next_address : ℕ
  pub calls : List (ℕ × GrpcCall api)

module _ {api : Api} where
  -- `*rpc`
  unfoldable pub load : ℕ → World api → Result (Rpc api)
  load p w = or_fault (find p w.active_rpcs) dangling

  unfoldable pub store : ℕ → Rpc api → World api → World api
  store p r w = record w { active_rpcs = assign p r w.active_rpcs }

  -- ActiveRpcs::Add, of an Rpc at address `p`.
  unfoldable pub add : ℕ → Rpc api → World api → Result (World api)
  add p r w = do
    check (not (is_some (find p w.active_rpcs)))
    ok (record w { active_rpcs = (p, r) ∷ w.active_rpcs })

  -- ActiveRpcs::Remove
  unfoldable pub remove : ℕ → World api → World api × Bool
  remove p w =
      if is_some (find p w.active_rpcs)
      then (record w { active_rpcs = erase p w.active_rpcs }, true)
      else (w, false)

  -- ActiveRpcs::GetWeakPtr. The weak pointer is the address.
  unfoldable pub get_weak_ptr : ℕ → World api → Result ℕ
  get_weak_ptr p w = do check (is_some (find p w.active_rpcs)); ok p

  -- ~ActiveRpcs
  unfoldable pub destroy_active_rpcs : World api → Result (Unit {0})
  destroy_active_rpcs w = elim w.active_rpcs [ [] ↦ ok tt | _ ∷ _ ↦ fault Fault.fatal ]

  -- event_queue->Push
  unfoldable pub push_event : ℕ → QueuedEvent → World api → Result (World api)
  push_event i e w = do
    q ← or_fault (get_elem? w.event_queues i) null_pointer
    q' ← or_fault (BlockingQueue.push e q) would_block
    ok (record w { event_queues = set w.event_queues i q' })

  -- A member that changes the Rpc and calls gRPC.
  unfoldable pub update_rpc :
      ℕ → (Rpc api → Result (Rpc api × List (GrpcCall api))) → World api → Result (World api)
  update_rpc p member w = do
    r ← load p w
    result ← member r
    ok (record (store p result.0 w) { calls = w.calls ++ map (λ c. (p, c)) result.1 })

  -- EnqueueMessage, and the WRITE_NEEDED event that follows it.
  unfoldable pub enqueue_and_notify : ℕ → SendItem api → World api → Result (World api)
  enqueue_and_notify p item w = do
    r ← load p w
    let w1 = store p (enqueue_message item r) w
    rpc ← get_weak_ptr p w1
    push_event r.event_queue (internal_event rpc) w1

  -- Rpc::Write
  unfoldable pub rpc_write : ℕ → api.Response → World api → Result (World api)
  rpc_write p message = enqueue_and_notify p (record { msg = some message; status = api.ok_status })

  -- Rpc::Finish
  unfoldable pub rpc_finish : ℕ → api.Status → World api → Result (World api)
  rpc_finish p status = enqueue_and_notify p (record { msg = none; status = status })

  -- RpcHandler::Send and RpcHandler::Finish
  unfoldable pub perform : ℕ → Action api → World api → Result (World api)
  perform p (send message) w = rpc_write p message w
  perform p (finish_with status) w = rpc_finish p status w

  unfoldable pub perform_all : ℕ → List (Action api) → World api → Result (World api)
  perform_all p [] w = ok w
  perform_all p (a ∷ as') w = perform p a w >>= perform_all p as'

  -- A callback returned: the handler's state and the context are new, and its calls were made.
  unfoldable pub run_effects : ℕ → Effects api → World api → Result (World api)
  run_effects p e w = do
    r ← load p w
    perform_all p e.actions
        (record (store p (record r { handler = some e.state }) w) { context = e.context })

  unfoldable pub on_request : ℕ → World api → Result (World api)
  on_request p w = do
    r ← load p w
    h ← or_fault r.handler null_pointer
    run_effects p (r.rpc_handler_info.rpc_factory.on_request w.context h r.request) w

  unfoldable pub on_reads_done : ℕ → World api → Result (World api)
  on_reads_done p w = do
    r ← load p w
    h ← or_fault r.handler null_pointer
    run_effects p (r.rpc_handler_info.rpc_factory.on_reads_done w.context h) w

  unfoldable pub on_finish : ℕ → World api → Result (World api)
  on_finish p w = do
    r ← load p w
    h ← or_fault r.handler null_pointer
    run_effects p (r.rpc_handler_info.rpc_factory.on_finish w.context h) w

  -- Whether gRPC is asked for each request (and not given it with the connection).
  unfoldable pub read_or_handle : RpcType → ℕ → World api → Result (World api)
  read_or_handle bidi_streaming p w = update_rpc p request_streaming_read w
  read_or_handle client_streaming p w = update_rpc p request_streaming_read w
  read_or_handle normal_rpc p w = on_request p w >>= on_reads_done p
  read_or_handle server_streaming p w = on_request p w >>= on_reads_done p

  unfoldable pub request_streaming_read_if_needed : ℕ → World api → Result (World api)
  request_streaming_read_if_needed p w = do
    r ← load p w
    read_or_handle r.rpc_handler_info.rpc_type p w

  -- Makes the handler, unless there is one.
  unfoldable pub initialize_handler :
      Option api.HandlerState → Rpc api → ℕ → World api → Result (World api)
  initialize_handler (some _) r p w = ok w
  initialize_handler none r p w =
      run_effects p (r.rpc_handler_info.rpc_factory.initialize w.context) w

  unfoldable pub on_connection : ℕ → World api → Result (World api)
  on_connection p w = do
    r ← load p w
    w1 ← initialize_handler r.handler r p w
    request_streaming_read_if_needed p w1

  -- RpcHandler::Writer: `lock()` fails once the Rpc is gone, and then the call returns false.
  unfoldable pub writer_call :
      (World api → Result (World api)) → Option (Rpc api) → World api → Result (World api × Bool)
  writer_call call none w = ok (w, false)
  writer_call call (some r) w = do w1 ← call w; ok (w1, true)

  unfoldable pub writer_write : ℕ → api.Response → World api → Result (World api × Bool)
  writer_write p message w = writer_call (rpc_write p message) (find p w.active_rpcs) w

  unfoldable pub writer_writes_done : ℕ → World api → Result (World api × Bool)
  writer_writes_done p w = writer_call (rpc_finish p api.ok_status) (find p w.active_rpcs) w

  unfoldable pub writer_finish : ℕ → api.Status → World api → Result (World api × Bool)
  writer_finish p status w = writer_call (rpc_finish p status) (find p w.active_rpcs) w
