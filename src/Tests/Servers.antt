-- ===== src/Tests/Servers.antt =====
-- The theorems on the server at sample inputs.
use async_flatbuffer_grpc.Prelude.{
  ◌≡◌, refl, sym, ◌∙◌, subst, true, map, List, [], ◌∷◌, Result, ok, fault, find, assign,
}
use async_flatbuffer_grpc.Api.{
  normal_rpc, new_event, GrpcOp, async_notify_when_done, request_async_unary, finish_op,
}
use async_flatbuffer_grpc.Common.BlockingQueue
use async_flatbuffer_grpc.Service.Adding.{requested}
use async_flatbuffer_grpc.Rpc.{
  Rpc, make_rpc, clone, set_event_queue, get_rpc_event, put_rpc_event, is_any_event_pending,
  request_next_method_invocation, enqueue_message, handle_send_queue,
}
use async_flatbuffer_grpc.Runtime.{
  World, load, store, add, get_weak_ptr, push_event, update_rpc, enqueue_and_notify, rpc_write,
  rpc_finish, perform, perform_all, run_effects, on_request, on_reads_done, read_or_handle,
  request_streaming_read_if_needed, initialize_handler, on_connection,
}
use async_flatbuffer_grpc.Service.{
  select_next_event_queue, add_and_request, remove_if_not_pending, renew_rpc, connect_if_ok,
  handle_new_connection, handle_write, handle_event, serve_method, serve_method_on,
  start_serving_from, start_serving, complete_event, handle_completion_queue_event, handle_if_alive,
  handle_queued_event,
}
use async_flatbuffer_grpc.Service.Start.{constructed, start_serving-Safe}
use async_flatbuffer_grpc.Server.Steps.{
  Step, message, run_message, receive_request, completion, event_loop, run_step, run_steps,
  run_completion_queue, handle_popped, run_event_queue, Promised, PromisedAll,
}
use async_flatbuffer_grpc.Server.Steps.Taking.{Safe}
use async_flatbuffer_grpc.Server.Steps.Safety.{run_steps-Safe}
use async_flatbuffer_grpc.Tests.Samples.{numbers, echo_info}

un_ok : {A : Type 0} → A → Result A → A
un_ok d (ok a) = a
un_ok d (fault e) = d

-- Two event threads, one unary method, one completion queue.
started : World numbers
unfolding start_serving start_serving_from serve_method_on serve_method select_next_event_queue
    add_and_request add update_rpc load store constructed make_rpc request_next_method_invocation
    find assign BlockingQueue.new un_ok
started =
    un_ok (constructed 1 7) (start_serving (echo_info normal_rpc ∷ []) (5 ∷ []) (constructed 1 7))

started_lem : start_serving (echo_info normal_rpc ∷ []) (5 ∷ []) (constructed 1 7) ≡ ok started
unfolding started start_serving start_serving_from serve_method_on serve_method
    select_next_event_queue add_and_request add update_rpc load store constructed make_rpc
    request_next_method_invocation find assign BlockingQueue.new un_ok
started_lem = refl

ok-injective : {A : Type 0} {a b : A} → ok a ≡ ok b → a ≡ b
ok-injective h = cc

started-Safe : Safe started
started-Safe =
    let (w, e, s, _, n) =
      start_serving-Safe {api = numbers} 1 7 (echo_info normal_rpc ∷ []) (5 ∷ []) in
    subst Safe (ok-injective (sym e ∙ started_lem)) s

-- The world after a step that succeeds.
next : Step numbers → World numbers → World numbers
unfolding un_ok
next s w = un_ok w (run_step s w)

Promised-cons :
    (s : Step numbers) (ss : List (Step numbers)) (v : World numbers)
    → Promised s v
    → run_step s v ≡ ok (next s v)
    → PromisedAll ss (next s v)
    → PromisedAll (s ∷ ss) v
Promised-cons s ss v now e later =
    (now, λ w' h. subst (PromisedAll ss) (ok-injective (sym e ∙ h)) later)

-- gRPC writes the message of the request and completes it, and it is handled; then the WRITE_NEEDED event and the write.
schedule : List (Step numbers)
schedule = message 1 6 ∷ completion 1 true ∷ event_loop 1 ∷ event_loop 1 ∷ []

schedule_promised : PromisedAll schedule started
unfolding next schedule started start_serving start_serving_from serve_method_on serve_method
    select_next_event_queue add_and_request add update_rpc load store constructed make_rpc
    request_next_method_invocation find assign BlockingQueue.new un_ok run_step run_completion_queue
    run_message receive_request handle_popped run_event_queue complete_event get_rpc_event
    put_rpc_event push_event BlockingQueue.push BlockingQueue.pop BlockingQueue.pop_with_timeout
    BlockingQueue.queue_empty_condition BlockingQueue.queue_not_full_condition handle_queued_event
    handle_completion_queue_event handle_event handle_new_connection connect_if_ok on_connection
    initialize_handler run_effects perform_all perform rpc_write rpc_finish enqueue_and_notify
    enqueue_message get_weak_ptr on_request on_reads_done request_streaming_read_if_needed
    read_or_handle renew_rpc clone set_event_queue new_event handle_if_alive handle_write
    handle_send_queue remove_if_not_pending is_any_event_pending
schedule_promised =
    let w0 = next (message 1 6) started in
    let w1 = next (completion 1 true) w0 in
    let w2 = next (event_loop 1) w1 in
    Promised-cons (message 1 6) (completion 1 true ∷ event_loop 1 ∷ event_loop 1 ∷ []) started tt
      refl
      (Promised-cons (completion 1 true) (event_loop 1 ∷ event_loop 1 ∷ []) w0 refl refl (
        Promised-cons (event_loop 1) (event_loop 1 ∷ []) w1 tt refl
          (Promised-cons (event_loop 1) [] w2 tt refl tt)))

run_steps-Safe_example : (w : World numbers) × (run_steps schedule started ≡ ok w) × Safe w
run_steps-Safe_example = run_steps-Safe schedule started started-Safe schedule_promised

-- What gRPC was asked for by the end: the response is the successor of the message.
asked : List (GrpcOp numbers)
asked = map (λ c. c.1.op) (un_ok started (run_steps schedule started)).calls

asked_lem :
    asked
    ≡ async_notify_when_done ∷ async_notify_when_done ∷ request_async_unary 0 ∷ finish_op 7 0 ∷ []
unfolding asked run_steps schedule started start_serving start_serving_from serve_method_on
    serve_method select_next_event_queue add_and_request add update_rpc load store constructed
    make_rpc request_next_method_invocation find assign BlockingQueue.new un_ok run_step
    run_completion_queue run_message receive_request handle_popped run_event_queue complete_event
    get_rpc_event put_rpc_event push_event BlockingQueue.push BlockingQueue.pop
    BlockingQueue.pop_with_timeout BlockingQueue.queue_empty_condition
    BlockingQueue.queue_not_full_condition handle_queued_event handle_completion_queue_event
    handle_event handle_new_connection connect_if_ok on_connection initialize_handler run_effects
    perform_all perform rpc_write rpc_finish enqueue_and_notify enqueue_message get_weak_ptr
    on_request on_reads_done request_streaming_read_if_needed read_or_handle renew_rpc clone
    set_event_queue new_event handle_if_alive handle_write handle_send_queue remove_if_not_pending
    is_any_event_pending
asked_lem = refl

-- The Rpc that waits for the first connection.
abbrev first_rpc : Rpc numbers
first_rpc = requested (make_rpc 0 5 1 (echo_info normal_rpc))
