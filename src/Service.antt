-- ===== src/Service.antt =====
-- async_grpc/service.cc (class Service) with the dispatch of async_grpc/events.cc and of
-- Rpc::InternalRpcEvent (async_grpc/rpc.h): what a service does with each event of its Rpcs.
pub mod Tags
pub mod Order
pub mod Wellformed
pub mod Quiet
pub mod Callbacks
pub mod Fine
pub mod Handlers
pub mod Removal
pub mod Adding
pub mod Connection
pub mod Accept
pub mod Serving
pub mod Start
pub mod Lifetimes
pub mod RoundRobin
use Prim.Native.String.{String}
use async_flatbuffer_grpc.Prelude.{
  ℕ, suc, ◌+◌, ◌%◌, ◌≡◌, refl, Bool, true, false, not, Option, none, some, List, [], ◌∷◌, ◌++◌,
  arith, if◌then◌else◌, Result, ok, fault, out_of_range, or_fault, ◌>>=◌, find, get_elem?, length,
  ltb,
}
use async_flatbuffer_grpc.Api.{
  Api, Event, new_connection, read, write_needed, write, finish, done, CompletionQueueRpcEvent,
  RpcHandlerInfo, RpcType,
}
use async_flatbuffer_grpc.Rpc.{
  Rpc, make_rpc, clone, set_event_queue, is_any_event_pending, get_rpc_event, put_rpc_event,
  request_next_method_invocation, handle_send_queue,
}
use async_flatbuffer_grpc.Runtime.{
  World, QueuedEvent, completion_queue_event, internal_event, load, store, add, remove, push_event,
  update_rpc, on_connection, on_request, on_reads_done, on_finish, request_streaming_read_if_needed,
}

module _ {api : Api} where
  -- Server::SelectNextEventQueueRoundRobin (async_grpc/server.cc), which is every service's
  -- `event_queue_selector_`. `at` throws if there is no such event queue.
  unfoldable pub select_next_event_queue : World api → Result (World api × ℕ)
  select_next_event_queue w = do
    let i = (w.current_event_queue_id + 1) % w.num_event_threads
    _ ← or_fault (get_elem? w.event_queues i) out_of_range
    ok (record w { current_event_queue_id = i }, i)

  -- `active_rpcs_.Add(std::move(rpc))->RequestNextMethodInvocation()`
  unfoldable pub add_and_request : Rpc api → World api → Result (World api)
  add_and_request r w = do
    let p = w.next_address
    w1 ← add p r (record w { next_address = suc p })
    update_rpc p request_next_method_invocation w1

  unfoldable pub remove_if_not_pending : ℕ → World api → Result (World api)
  remove_if_not_pending p w = do
    r ← load p w
    pending ← is_any_event_pending r
    ok (if not pending then (remove p w).0 else w)

  -- The part of HandleNewConnection that makes the Rpc for the next connection.
  unfoldable pub renew_rpc : ℕ → World api → Result (World api)
  renew_rpc p w = do
    r ← load p w
    let new_rpc = clone r
    selected ← select_next_event_queue w
    add_and_request (set_event_queue selected.1 new_rpc) selected.0

  unfoldable pub connect_if_ok : ℕ → Bool → World api → Result (World api)
  connect_if_ok p true w = on_connection p w
  connect_if_ok p false w = ok w

  unfoldable pub handle_new_connection : ℕ → Bool → World api → Result (World api)
  handle_new_connection p ok' w =
      if w.shutting_down
      then ok (remove p w).0
      else (connect_if_ok p ok' (if not ok' then (remove p w).0 else w) >>= renew_rpc p)

  unfoldable pub handle_read : ℕ → Bool → World api → Result (World api)
  handle_read p ok' w =
      if ok'
      then (on_request p w >>= request_streaming_read_if_needed p)
      else (on_reads_done p w >>= remove_if_not_pending p)

  -- A write that failed is only logged.
  unfoldable pub handle_write : ℕ → Bool → World api → Result (World api)
  handle_write p ok' w = update_rpc p handle_send_queue w >>= remove_if_not_pending p

  unfoldable pub handle_finish : ℕ → Bool → World api → Result (World api)
  handle_finish p ok' w = on_finish p w >>= remove_if_not_pending p

  unfoldable pub handle_done : ℕ → Bool → World api → Result (World api)
  handle_done p ok' w = remove_if_not_pending p w

  unfoldable pub handle_event : Event → ℕ → Bool → World api → Result (World api)
  handle_event new_connection p ok' w = handle_new_connection p ok' w
  handle_event read p ok' w = handle_read p ok' w
  handle_event write_needed p ok' w = handle_write p ok' w
  handle_event write p ok' w = handle_write p ok' w
  handle_event finish p ok' w = handle_finish p ok' w
  handle_event done p ok' w = handle_done p ok' w

  -- What the constructor of Service gives to AddMethod for a handler.
  abbrev pub rpc_service_method : RpcHandlerInfo api → String × RpcType
  rpc_service_method info = (info.fully_qualified_name, info.rpc_type)

  unfoldable pub stop_serving : World api → World api
  stop_serving w = record w { shutting_down = true }

  -- The body of the inner loop of StartServing, and the two loops.
  unfoldable pub serve_method : ℕ → RpcHandlerInfo api → ℕ → World api → Result (World api)
  serve_method i info completion_queue w = do
    selected ← select_next_event_queue w
    add_and_request (make_rpc i completion_queue selected.1 info) selected.0

  unfoldable pub serve_method_on : ℕ → RpcHandlerInfo api → List ℕ → World api → Result (World api)
  serve_method_on i info [] w = ok w
  serve_method_on i info (q ∷ qs) w = serve_method i info q w >>= serve_method_on i info qs

  unfoldable pub start_serving_from :
      ℕ → List (RpcHandlerInfo api) → List ℕ → World api → Result (World api)
  start_serving_from i [] qs w = ok w
  start_serving_from i (info ∷ infos) qs w =
      serve_method_on i info qs w >>= start_serving_from (suc i) infos qs

  unfoldable pub start_serving : List (RpcHandlerInfo api) → List ℕ → World api → Result (World api)
  start_serving infos completion_queues = start_serving_from 0 infos completion_queues

  -- The body of Server::RunCompletionQueue (async_grpc/server.cc): the tag is an event of an Rpc.
  unfoldable pub complete_event : ℕ → Event → Bool → World api → Result (World api)
  complete_event p e ok' w = do
    r ← load p w
    c ← get_rpc_event e r
    push_event c.event_queue (completion_queue_event p e)
        (store p (put_rpc_event e (record c { ok = ok' }) r) w)

  -- CompletionQueueRpcEvent::Handle
  unfoldable pub handle_completion_queue_event : ℕ → Event → World api → Result (World api)
  handle_completion_queue_event p e w = do
    r ← load p w
    c ← get_rpc_event e r
    handle_event e p c.ok (store p (put_rpc_event e (record c { pending = false }) r) w)

  -- InternalRpcEvent::Handle
  unfoldable pub handle_if_alive : Option (Rpc api) → ℕ → World api → Result (World api)
  handle_if_alive none p w = ok w
  handle_if_alive (some _) p w = handle_event write_needed p true w

  -- `rpc_event->Handle()`
  unfoldable pub handle_queued_event : QueuedEvent → World api → Result (World api)
  handle_queued_event (completion_queue_event p e) w = handle_completion_queue_event p e w
  handle_queued_event (internal_event p) w = handle_if_alive (find p w.active_rpcs) p w
