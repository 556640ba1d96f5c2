-- ===== src/Server/Services/Events.antt =====
-- async_grpc/service.cc: an event of an Rpc, handled or completed by the service of the Rpc, does the
-- same whatever other Rpcs there are.
use async_flatbuffer_grpc.Prelude.{
  ℕ, suc, ◌≡◌, Bool, true, false, not, Option, none, List, [], ◌∷◌, ok, ◌>>=◌, assign,
  if◌then◌else◌,
}
use async_flatbuffer_grpc.Api.{
  Api, Event, new_connection, read, write_needed, write, finish, done, RpcHandlerInfo,
}
use async_flatbuffer_grpc.Rpc.{
  Rpc, set_event_queue, clone, get_rpc_event, put_rpc_event, is_any_event_pending,
  handle_send_queue, make_rpc,
}
use async_flatbuffer_grpc.Runtime.{
  completion_queue_event, store, remove, on_request, on_reads_done, on_finish, on_connection,
  update_rpc,
}
use async_flatbuffer_grpc.Service.{
  add_and_request, remove_if_not_pending, renew_rpc, connect_if_ok, handle_new_connection,
  handle_read, handle_write, handle_finish, handle_done, handle_event, complete_event,
  handle_completion_queue_event, serve_method, serve_method_on, start_serving_from, start_serving,
}
use async_flatbuffer_grpc.Server.Steps.{receive_request}
use async_flatbuffer_grpc.Server.Services.Sharing.{
  over, Follows, Restricts, Follows-ok, Follows-after, Follows-then, Follows-if, Follows-load,
  store-Shared, push_event-Restricts, update_rpc-Restricts,
}
use async_flatbuffer_grpc.Server.Services.Members.{
  add_and_request-Restricts, Follows-select, on_request-Restricts, on_reads_done-Restricts,
  on_finish-Restricts, streaming_read-Restricts, on_connection-Restricts, remove-Restricts,
}

module _ {api : Api} (other : ℕ → Option (Rpc api)) where
  module _ (p : ℕ) (mine : other p ≡ none) where
    remove_if_not_pending-Restricts : Restricts other (remove_if_not_pending p)
    unfolding remove_if_not_pending
    remove_if_not_pending-Restricts w rpcs h =
        Follows-load other p mine w rpcs _ _ h
          (λ r. Follows-after other (is_any_event_pending r) _ _ (λ pending. by_Bool (not pending)))
      where
        by_Bool :
            (b : Bool)
            → Follows other
                (ok (if b then (remove p (over rpcs w)).0 else over rpcs w))
                (ok (if b then (remove p w).0 else w))
        by_Bool true = remove-Restricts other p mine w rpcs h
        by_Bool false = Follows-ok other w rpcs h

    renew_rpc-Restricts : Restricts other (renew_rpc p)
    unfolding renew_rpc
    renew_rpc-Restricts w rpcs h = Follows-load other p mine w rpcs _ _ h (λ r.
        Follows-select other w rpcs (λ x. add_and_request (set_event_queue x.1 (clone r)) x.0) h
          (λ i. add_and_request-Restricts other (set_event_queue i (clone r))))

    handle_new_connection-Restricts : (b : Bool) → Restricts other (handle_new_connection p b)
    unfolding handle_new_connection connect_if_ok
    handle_new_connection-Restricts b w rpcs h =
        Follows-if other w.shutting_down _ _ _ _ (remove-Restricts other p mine w rpcs h)
          (renewed b)
      where
        renewed :
            (b : Bool)
            → Follows other
                (connect_if_ok p b (if not b then (remove p (over rpcs w)).0 else over rpcs w)
                  >>= renew_rpc p)
                (connect_if_ok p b (if not b then (remove p w).0 else w) >>= renew_rpc p)
        renewed true =
            Follows-then other (on_connection p (over rpcs w)) (on_connection p w) _
              (on_connection-Restricts other p mine w rpcs h) renew_rpc-Restricts
        renewed false =
            Follows-then other (ok (remove p (over rpcs w)).0) (ok (remove p w).0) _
              (remove-Restricts other p mine w rpcs h) renew_rpc-Restricts

    handle_read-Restricts : (b : Bool) → Restricts other (handle_read p b)
    unfolding handle_read
    handle_read-Restricts true w rpcs h =
        Follows-then other (on_request p (over rpcs w)) (on_request p w) _
          (on_request-Restricts other p mine w rpcs h) (streaming_read-Restricts other p mine)
    handle_read-Restricts false w rpcs h =
        Follows-then other (on_reads_done p (over rpcs w)) (on_reads_done p w) _
          (on_reads_done-Restricts other p mine w rpcs h) remove_if_not_pending-Restricts

    handle_write-Restricts : (b : Bool) → Restricts other (handle_write p b)
    unfolding handle_write
    handle_write-Restricts b w rpcs h =
        Follows-then other (update_rpc p handle_send_queue (over rpcs w))
          (update_rpc p handle_send_queue w) _
          (update_rpc-Restricts other p mine handle_send_queue w rpcs h)
          remove_if_not_pending-Restricts

    handle_finish-Restricts : (b : Bool) → Restricts other (handle_finish p b)
    unfolding handle_finish
    handle_finish-Restricts b w rpcs h =
        Follows-then other (on_finish p (over rpcs w)) (on_finish p w) _
          (on_finish-Restricts other p mine w rpcs h) remove_if_not_pending-Restricts

    pub handle_event-Restricts : (e : Event) (b : Bool) → Restricts other (handle_event e p b)
    unfolding handle_event handle_done
    handle_event-Restricts new_connection b = handle_new_connection-Restricts b
    handle_event-Restricts read b = handle_read-Restricts b
    handle_event-Restricts write_needed b = handle_write-Restricts b
    handle_event-Restricts write b = handle_write-Restricts b
    handle_event-Restricts finish b = handle_finish-Restricts b
    handle_event-Restricts done b = remove_if_not_pending-Restricts

    pub completed-Restricts : (e : Event) → Restricts other (handle_completion_queue_event p e)
    unfolding handle_completion_queue_event store
    completed-Restricts e w rpcs h = Follows-load other p mine w rpcs _ _ h (λ r.
        Follows-after other (get_rpc_event e r) _ _ (λ c.
          let r1 = put_rpc_event e (record c { pending = false }) r in
          handle_event-Restricts e c.ok (store p r1 w) (assign p r1 rpcs)
            (store-Shared other w rpcs h p mine r1)))

    pub receive_request-Restricts : (m : api.Request) → Restricts other (receive_request p m)
    unfolding receive_request store
    receive_request-Restricts m w rpcs h = Follows-load other p mine w rpcs _ _ h (λ r.
        let r1 = record r { request = m } in
        Follows-ok other (store p r1 w) (assign p r1 rpcs) (store-Shared other w rpcs h p mine r1))

    pub complete_event-Restricts : (e : Event) (b : Bool) → Restricts other (complete_event p e b)
    unfolding complete_event store
    complete_event-Restricts e b w rpcs h = Follows-load other p mine w rpcs _ _ h (λ r.
        Follows-after other (get_rpc_event e r) _ _ (λ c.
          let r1 = put_rpc_event e (record c { ok = b }) r in
          push_event-Restricts other p mine c.event_queue (completion_queue_event p e)
            (store p r1 w) (assign p r1 rpcs) (store-Shared other w rpcs h p mine r1)))

  serve_method-Restricts :
      (i : ℕ) (info : RpcHandlerInfo api) (q : ℕ) → Restricts other (serve_method i info q)
  unfolding serve_method
  serve_method-Restricts i info q w rpcs h =
      Follows-select other w rpcs (λ x. add_and_request (make_rpc i q x.1 info) x.0) h
        (λ j. add_and_request-Restricts other (make_rpc i q j info))

  serve_method_on-Restricts :
      (i : ℕ) (info : RpcHandlerInfo api) (qs : List ℕ)
      → Restricts other (serve_method_on i info qs)
  unfolding serve_method_on
  serve_method_on-Restricts i info [] w rpcs h = Follows-ok other w rpcs h
  serve_method_on-Restricts i info (q ∷ qs) w rpcs h =
      Follows-then other (serve_method i info q (over rpcs w)) (serve_method i info q w) _
        (serve_method-Restricts i info q w rpcs h) (serve_method_on-Restricts i info qs)

  serving-Restricts :
      (i : ℕ) (infos : List (RpcHandlerInfo api)) (qs : List ℕ)
      → Restricts other (start_serving_from i infos qs)
  unfolding start_serving_from
  serving-Restricts i [] qs w rpcs h = Follows-ok other w rpcs h
  serving-Restricts i (info ∷ infos) qs w rpcs h =
      Follows-then other (serve_method_on i info qs (over rpcs w)) (serve_method_on i info qs w) _
        (serve_method_on-Restricts i info qs w rpcs h) (serving-Restricts (suc i) infos qs)

  pub start_serving-Restricts :
      (infos : List (RpcHandlerInfo api)) (qs : List ℕ) → Restricts other (start_serving infos qs)
  unfolding start_serving
  start_serving-Restricts infos qs = serving-Restricts 0 infos qs
