-- ===== src/Server/Draining/Handlers.antt =====
-- async_grpc/service.cc: what HandleEvent does to the event queues: no member of a service or of an Rpc
-- puts a completed event into a queue or takes one out.
use async_flatbuffer_grpc.Prelude.{
  ℕ, suc, ◌+◌, ◌%◌, ◌≡◌, refl, sym, ◌∙◌, ap, Bool, true, false, not, Option, none, some, List, [],
  ◌∷◌, ok, Fault, or_fault, ◌>>=◌, >>=-ok, if◌then◌else◌, find, is_some, get_elem?,
}
use async_flatbuffer_grpc.Api.{
  Api, Event, new_connection, read, write_needed, write, finish, done, RpcType, normal_rpc,
  client_streaming, server_streaming, bidi_streaming, Action, send, finish_with, Effects, SendItem,
}
use async_flatbuffer_grpc.Rpc.{
  Rpc, enqueue_message, request_streaming_read, set_event_queue, clone, get_rpc_event,
  put_rpc_event, request_next_method_invocation,
}
use async_flatbuffer_grpc.Runtime.{
  World, completion_queue_event, internal_event, load, store, add, remove, get_weak_ptr,
  enqueue_and_notify, rpc_write, rpc_finish, perform, perform_all, run_effects, on_request,
  on_reads_done, on_finish, read_or_handle, request_streaming_read_if_needed, initialize_handler,
  on_connection,
}
use async_flatbuffer_grpc.Service.{
  select_next_event_queue, add_and_request, remove_if_not_pending, renew_rpc, connect_if_ok,
  handle_new_connection, handle_read, handle_finish, handle_done, handle_event,
  handle_completion_queue_event, handle_if_alive, handle_queued_event,
}
use async_flatbuffer_grpc.Service.Order.{queue_tags}
use async_flatbuffer_grpc.Server.Draining.Tags.{
  Keeps, Keeps-ok, Keeps-after, Keeps-then, Keeps-check, Keeps-with, Keeps-if, push_event-Keeps,
  update_rpc-Keeps,
}
use async_flatbuffer_grpc.Server.Draining.Queues.{
  KeepsQueues, KeepsQueues-Keeps, KeepsQueues-ok, removed_queues, remove_if_not_pending-KeepsQueues,
  handle_write-KeepsQueues,
}

module _ {api : Api} where
  enqueue_and_notify-Keeps :
      (p : ℕ) (item : SendItem api) (v : World api) → Keeps v (enqueue_and_notify p item v)
  unfolding enqueue_and_notify store
  enqueue_and_notify-Keeps p item v = Keeps-after v (load p v) _ (λ r.
      Keeps-after v (get_weak_ptr p (store p (enqueue_message item r) v)) _
        (λ rpc. push_event-Keeps r.event_queue rpc (store p (enqueue_message item r) v)))

  perform-Keeps : (p : ℕ) (a : Action api) (v : World api) → Keeps v (perform p a v)
  unfolding perform rpc_write rpc_finish
  perform-Keeps p (send m) v = enqueue_and_notify-Keeps p _ v
  perform-Keeps p (finish_with s) v = enqueue_and_notify-Keeps p _ v

  perform_all-Keeps :
      (p : ℕ) (as' : List (Action api)) (v : World api) → Keeps v (perform_all p as' v)
  unfolding perform_all
  perform_all-Keeps p [] v = Keeps-ok v v refl
  perform_all-Keeps p (a ∷ as') v =
      Keeps-then v (perform p a v) (perform_all p as') (perform-Keeps p a v)
        (perform_all-Keeps p as')

  run_effects-Keeps : (p : ℕ) (e : Effects api) (v : World api) → Keeps v (run_effects p e v)
  unfolding run_effects store
  run_effects-Keeps p e v = Keeps-after v (load p v) _ (λ r.
      perform_all-Keeps p e.actions
        (record (store p (record r { handler = some e.state }) v) { context = e.context }))

  on_request-Keeps : (p : ℕ) (v : World api) → Keeps v (on_request p v)
  unfolding on_request
  on_request-Keeps p v =
      Keeps-after v (load p v) _ (λ r.
        Keeps-after v (or_fault r.handler Fault.null_pointer) _ (λ h. run_effects-Keeps p _ v))

  on_reads_done-Keeps : (p : ℕ) (v : World api) → Keeps v (on_reads_done p v)
  unfolding on_reads_done
  on_reads_done-Keeps p v =
      Keeps-after v (load p v) _ (λ r.
        Keeps-after v (or_fault r.handler Fault.null_pointer) _ (λ h. run_effects-Keeps p _ v))

  on_finish-Keeps : (p : ℕ) (v : World api) → Keeps v (on_finish p v)
  unfolding on_finish
  on_finish-Keeps p v =
      Keeps-after v (load p v) _ (λ r.
        Keeps-after v (or_fault r.handler Fault.null_pointer) _ (λ h. run_effects-Keeps p _ v))

  read_or_handle-Keeps : (t : RpcType) (p : ℕ) (v : World api) → Keeps v (read_or_handle t p v)
  unfolding read_or_handle
  read_or_handle-Keeps bidi_streaming p v = update_rpc-Keeps p request_streaming_read v
  read_or_handle-Keeps client_streaming p v = update_rpc-Keeps p request_streaming_read v
  read_or_handle-Keeps normal_rpc p v =
      Keeps-then v (on_request p v) _ (on_request-Keeps p v) (on_reads_done-Keeps p)
  read_or_handle-Keeps server_streaming p v =
      Keeps-then v (on_request p v) _ (on_request-Keeps p v) (on_reads_done-Keeps p)

  streaming_read-Keeps : (p : ℕ) (v : World api) → Keeps v (request_streaming_read_if_needed p v)
  unfolding request_streaming_read_if_needed
  streaming_read-Keeps p v =
      Keeps-after v (load p v) _ (λ r. read_or_handle-Keeps r.rpc_handler_info.rpc_type p v)

  initialize_handler-Keeps :
      (h : Option api.HandlerState) (r : Rpc api) (p : ℕ) (v : World api)
      → Keeps v (initialize_handler h r p v)
  unfolding initialize_handler
  initialize_handler-Keeps none r p v = run_effects-Keeps p _ v
  initialize_handler-Keeps (some h) r p v = Keeps-ok v v refl

  on_connection-Keeps : (p : ℕ) (v : World api) → Keeps v (on_connection p v)
  unfolding on_connection
  on_connection-Keeps p v = Keeps-after v (load p v) _ (λ r.
      Keeps-then v (initialize_handler r.handler r p v) _ (initialize_handler-Keeps r.handler r p v)
        (streaming_read-Keeps p))

  remove-Keeps : (p : ℕ) (v : World api) → Keeps v (remove_if_not_pending p v)
  remove-Keeps p v = KeepsQueues-Keeps v _ (remove_if_not_pending-KeepsQueues p v)

  add_and_request-Keeps : (r : Rpc api) (v : World api) → Keeps v (add_and_request r v)
  unfolding add_and_request add
  add_and_request-Keeps r v =
      Keeps-then v (add v.next_address r (record v { next_address = suc v.next_address })) _
        (Keeps-check v (not (is_some (find v.next_address v.active_rpcs))) _ refl)
        (update_rpc-Keeps v.next_address request_next_method_invocation)

  selected_queues :
      (v : World api) (x : World api × ℕ)
      → select_next_event_queue v ≡ ok x
      → queue_tags x.0.event_queues ≡ queue_tags v.event_queues
  unfolding select_next_event_queue
  selected_queues v x e =
      let i = (v.current_event_queue_id + 1) % v.num_event_threads in
      let selected : World api × ℕ = (record v { current_event_queue_id = i }, i) in
      let (q, _, g) =
        >>=-ok (λ q. ok selected) (or_fault (get_elem? v.event_queues i) Fault.out_of_range) e in
      let same : selected ≡ x = cc g in ap (λ y. queue_tags y.0.event_queues) (sym same)

  renew_rpc-Keeps : (p : ℕ) (v : World api) → Keeps v (renew_rpc p v)
  unfolding renew_rpc
  renew_rpc-Keeps p v = Keeps-after v (load p v) _ (λ r.
      Keeps-with v (select_next_event_queue v) _ (selected_queues v)
        (λ x. add_and_request-Keeps (set_event_queue x.1 (clone r)) x.0))

  connect_if_ok-Keeps : (p : ℕ) (b : Bool) (v : World api) → Keeps v (connect_if_ok p b v)
  unfolding connect_if_ok
  connect_if_ok-Keeps p true v = on_connection-Keeps p v
  connect_if_ok-Keeps p false v = Keeps-ok v v refl

  handle_new_connection-Keeps :
      (p : ℕ) (b : Bool) (v : World api) → Keeps v (handle_new_connection p b v)
  unfolding handle_new_connection
  handle_new_connection-Keeps p b v =
      Keeps-if v v.shutting_down _ _ (Keeps-ok v _ (ap queue_tags (removed_queues p v))) (renewed b)
    where
      renewed :
          (b : Bool)
          → Keeps v (connect_if_ok p b (if not b then (remove p v).0 else v) >>= renew_rpc p)
      renewed true =
          Keeps-then v (connect_if_ok p true v) _ (connect_if_ok-Keeps p true v) (renew_rpc-Keeps p)
      renewed false =
          Keeps-then v (connect_if_ok p false (remove p v).0) _
            (λ u e.
              connect_if_ok-Keeps p false (remove p v).0 u e ∙ ap queue_tags (removed_queues p v))
            (renew_rpc-Keeps p)

  handle_read-Keeps : (p : ℕ) (b : Bool) (v : World api) → Keeps v (handle_read p b v)
  unfolding handle_read
  handle_read-Keeps p true v =
      Keeps-then v (on_request p v) _ (on_request-Keeps p v) (streaming_read-Keeps p)
  handle_read-Keeps p false v =
      Keeps-then v (on_reads_done p v) _ (on_reads_done-Keeps p v) (remove-Keeps p)

  handle_event-Keeps :
      (e : Event) (p : ℕ) (b : Bool) (v : World api) → Keeps v (handle_event e p b v)
  unfolding handle_event handle_finish handle_done
  handle_event-Keeps new_connection p b v = handle_new_connection-Keeps p b v
  handle_event-Keeps read p b v = handle_read-Keeps p b v
  handle_event-Keeps write_needed p b v = KeepsQueues-Keeps v _ (handle_write-KeepsQueues p b v)
  handle_event-Keeps write p b v = KeepsQueues-Keeps v _ (handle_write-KeepsQueues p b v)
  handle_event-Keeps finish p b v =
      Keeps-then v (on_finish p v) _ (on_finish-Keeps p v) (remove-Keeps p)
  handle_event-Keeps done p b v = remove-Keeps p v

  -- A completed event that is handled leaves the completed events in the queues as they are.
  pub completed-Keeps :
      (p : ℕ) (e : Event) (v : World api)
      → Keeps v (handle_queued_event (completion_queue_event p e) v)
  unfolding handle_queued_event handle_completion_queue_event store
  completed-Keeps p e v = Keeps-after v (load p v) _ (λ r. Keeps-after v (get_rpc_event e r) _ (λ c.
      handle_event-Keeps e p c.ok (store p (put_rpc_event e (record c { pending = false }) r) v)))

  -- An internal event that is handled leaves the queues as they are.
  pub internal-KeepsQueues :
      (p : ℕ) (v : World api) → KeepsQueues v (handle_queued_event (internal_event p) v)
  unfolding handle_queued_event handle_if_alive handle_event
  internal-KeepsQueues p v = by_rpc (find p v.active_rpcs)
    where
      by_rpc : (o : Option (Rpc api)) → KeepsQueues v (handle_if_alive o p v)
      by_rpc none = KeepsQueues-ok v v refl
      by_rpc (some r) = handle_write-KeepsQueues p true v
