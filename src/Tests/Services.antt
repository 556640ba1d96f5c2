-- ===== src/Tests/Services.antt =====
-- A running server with two services.
use async_flatbuffer_grpc.Prelude.{
  ◌≡◌, refl, sym, ap, ◌∙◌, subst, true, List, [], ◌∷◌, Result, ok, fault, find, assign, for_each,
}
use async_flatbuffer_grpc.Api.{new_event}
use async_flatbuffer_grpc.Common.BlockingQueue
use async_flatbuffer_grpc.Server.EventQueueThread
use async_flatbuffer_grpc.Server.EventQueueThread.{new_event_queue_thread}
use async_flatbuffer_grpc.Server.CompletionQueueThread
use async_flatbuffer_grpc.Server.CompletionQueueThread.{new_completion_queue_thread}
use async_flatbuffer_grpc.Rpc.{
  make_rpc, clone, set_event_queue, get_rpc_event, put_rpc_event, request_next_method_invocation,
  enqueue_message,
}
use async_flatbuffer_grpc.Runtime.{
  load, store, add, get_weak_ptr, push_event, update_rpc, enqueue_and_notify, rpc_write, rpc_finish,
  perform, perform_all, run_effects, on_request, on_reads_done, read_or_handle,
  request_streaming_read_if_needed, initialize_handler, on_connection,
}
use async_flatbuffer_grpc.Service.{
  select_next_event_queue, add_and_request, renew_rpc, connect_if_ok, handle_new_connection,
  handle_event, serve_method, serve_method_on, start_serving_from, start_serving, complete_event,
  handle_completion_queue_event,
}
use async_flatbuffer_grpc.Server.Steps.{
  Step, message, receive_request, completion, event_loop, Promised,
}
use async_flatbuffer_grpc.Server.Lifecycle.{Server, new_service, serve_services}
use async_flatbuffer_grpc.Server.Lifecycle
use async_flatbuffer_grpc.Server.Services.{
  Running, running, receive_message, at_service, complete_call, dispatch, run_queue_once, take_step,
  take_steps, AllPromised, whole,
}
use async_flatbuffer_grpc.Server.Services.Safety.{SafeRunning, take_steps-Safe}
use async_flatbuffer_grpc.Prelude.{map}
use async_flatbuffer_grpc.Server.Lifecycle.{stop_service}
use async_flatbuffer_grpc.Server.Services.Started.{start_all-Safe}
use async_flatbuffer_grpc.Tests.Samples.{numbers}
use async_flatbuffer_grpc.Tests.Lifecycles.{two_services, two, two-Built}

start_all-Safe_example :
    (s : Server numbers) × (Lifecycle.start two ≡ ok s) × SafeRunning (running 3 s)
start_all-Safe_example = start_all-Safe two_services 2 2 two two-Built

of_result : Result (Server numbers) → Running numbers
of_result (ok s) = running 3 s
of_result (fault why) = running 3 two

begun : Running numbers
begun = of_result (Lifecycle.start two)

begun_lem : (s : Server numbers) → Lifecycle.start two ≡ ok s → running 3 s ≡ begun
unfolding begun of_result
begun_lem s e = sym (ap of_result e)

begun-Safe : SafeRunning begun
begun-Safe = let (s, e, safe) = start_all-Safe_example in subst SafeRunning (begun_lem s e) safe

un_ok : Running numbers → Result (Running numbers) → Running numbers
un_ok s (ok s') = s'
un_ok s (fault why) = s

-- The state after a step that succeeds.
next : Step numbers → Running numbers → Running numbers
unfolding un_ok
next step s = un_ok s (take_step step s)

AllPromised-cons :
    (step : Step numbers) (steps : List (Step numbers)) (s : Running numbers)
    → Promised step (whole s)
    → take_step step s ≡ ok (next step s)
    → AllPromised steps (next step s)
    → AllPromised (step ∷ steps) s
AllPromised-cons step steps s now e later =
    (now, λ s' h. subst (AllPromised steps) (injective (sym e ∙ h)) later)
  where
    injective : {a b : Running numbers} → ok a ≡ ok b → a ≡ b
    injective h = cc

-- gRPC writes the message of, and completes, the request of the second service's first Rpc, whose event queue is the first.
schedule : List (Step numbers)
schedule = message 5 6 ∷ completion 5 true ∷ event_loop 0 ∷ []

schedule_promised : AllPromised schedule begun
unfolding schedule next un_ok begun of_result Lifecycle.start serve_services start_serving
    start_serving_from serve_method_on serve_method select_next_event_queue add_and_request add
    update_rpc load store make_rpc request_next_method_invocation find assign BlockingQueue.new
    new_service for_each EventQueueThread.start CompletionQueueThread.start new_event_queue_thread
    new_completion_queue_thread new_event take_step receive_message receive_request complete_call
    at_service complete_event get_rpc_event put_rpc_event push_event BlockingQueue.push
    BlockingQueue.pop BlockingQueue.pop_with_timeout BlockingQueue.queue_empty_condition
    BlockingQueue.queue_not_full_condition run_queue_once dispatch handle_completion_queue_event
    handle_event handle_new_connection connect_if_ok on_connection initialize_handler run_effects
    perform_all perform rpc_write rpc_finish enqueue_and_notify enqueue_message get_weak_ptr
    on_request on_reads_done request_streaming_read_if_needed read_or_handle renew_rpc clone
    set_event_queue
schedule_promised =
    let s0 = next (message 5 6) begun in
    let s1 = next (completion 5 true) s0 in
    AllPromised-cons (message 5 6) (completion 5 true ∷ event_loop 0 ∷ []) begun tt refl (
      AllPromised-cons (completion 5 true) (event_loop 0 ∷ []) s0 refl refl
        (AllPromised-cons (event_loop 0) [] s1 tt refl tt))

take_steps-Safe_example : (s : Running numbers) × (take_steps schedule begun ≡ ok s) × SafeRunning s
take_steps-Safe_example = take_steps-Safe schedule begun begun-Safe schedule_promised

-- The request is completed, and its event waits in the first queue.
filling_promised : AllPromised (completion 5 true ∷ []) begun
unfolding begun of_result Lifecycle.start serve_services start_serving start_serving_from
    serve_method_on serve_method select_next_event_queue add_and_request add update_rpc load store
    make_rpc request_next_method_invocation find assign BlockingQueue.new new_service for_each
    EventQueueThread.start CompletionQueueThread.start new_event_queue_thread
    new_completion_queue_thread new_event
filling_promised = (refl, λ s h. tt)

filled : (s : Running numbers) × (take_steps (completion 5 true ∷ []) begun ≡ ok s) × SafeRunning s
filled = take_steps-Safe (completion 5 true ∷ []) begun begun-Safe filling_promised

-- Then the services stop.
abbrev stopping : Running numbers
stopping = record filled.0 { services = map (λ x. (x.0, stop_service x.1)) filled.0.services }
