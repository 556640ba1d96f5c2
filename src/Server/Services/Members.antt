-- ===== src/Server/Services/Members.antt =====
-- async_grpc/service.cc, rpc.h: each member of a service, run for an Rpc of the service, does the same
-- whatever other Rpcs there are.
use async_flatbuffer_grpc.Prelude.{
  ℕ, suc, ◌+◌, ◌%◌, ◌≡◌, ◌∙◌, inl, inr, Option, Option-cases, none, some, List, [], ◌∷◌, arith,
  Result, ok, Fault, or_fault, ◌>>=◌, find, assign, erase, get_elem?, find-insert,
}
use async_flatbuffer_grpc.Api.{
  Api, RpcType, normal_rpc, client_streaming, server_streaming, bidi_streaming, Action, send,
  finish_with, Effects, SendItem,
}
use async_flatbuffer_grpc.Rpc.{
  Rpc, enqueue_message, request_streaming_read, request_next_method_invocation,
}
use async_flatbuffer_grpc.Runtime.{
  World, internal_event, store, add, remove, get_weak_ptr, enqueue_and_notify, rpc_write,
  rpc_finish, perform, perform_all, run_effects, on_request, on_reads_done, on_finish,
  read_or_handle, request_streaming_read_if_needed, initialize_handler, on_connection,
}
use async_flatbuffer_grpc.Service.{select_next_event_queue, add_and_request}
use async_flatbuffer_grpc.Server.Services.Sharing.{
  Rpcs, over, Shared, Follows, Restricts, Follows-ok, Follows-fault, Follows-after, Follows-then,
  Follows-load, find-own, store-Shared, erase-Shared, push_event-Restricts, update_rpc-Restricts,
}

module _ {api : Api} (other : ℕ → Option (Rpc api)) where
  module _ (q : ℕ) (r : Rpc api) (w : World api) (rpcs : Rpcs api)
      (h : Shared other w.active_rpcs rpcs) (unused : find q rpcs ≡ none) where
    unused-other : other q ≡ none
    unused-other = ground (arith, h q, unused)

    insert-Shared : Shared other ((q, r) ∷ w.active_rpcs) ((q, r) ∷ rpcs)
    insert-Shared p =
        ground (arith, h p, unused-other, find-insert q p r rpcs, find-insert q p r w.active_rpcs)

    add-Follows : Follows other (add q r (over rpcs w)) (add q r w)
    unfolding add
    add-Follows =
        let own : find q w.active_rpcs ≡ none = ground (arith, h q, unused) in
        rw (unused, own)
          (Follows-ok other (record w { active_rpcs = (q, r) ∷ w.active_rpcs }) ((q, r) ∷ rpcs)
            insert-Shared)

  pub add_and_request-Restricts : (r : Rpc api) → Restricts other (add_and_request r)
  unfolding add_and_request
  add_and_request-Restricts r w rpcs h = elim (Option-cases (find w.next_address rpcs)) [
    | inl unused ↦
        let q = w.next_address in
        let w1 = record w { next_address = suc q } in
        Follows-then other (add q r (over rpcs w1)) (add q r w1) _
          (add-Follows q r w1 rpcs h unused)
          (update_rpc-Restricts other q (unused-other q r w1 rpcs h unused)
            request_next_method_invocation)
    | inr (taken, there) ↦ unfold add in rw there (Follows-fault other Fault.check_failed _)
  ]

  -- The next event queue is selected in the same way.
  pub Follows-select :
      (w : World api) (rpcs : Rpcs api) (rest : World api × ℕ → Result (World api))
      → Shared other w.active_rpcs rpcs
      → ((i : ℕ) → Restricts other (λ v. rest (v, i)))
      → Follows other
          (select_next_event_queue (over rpcs w) >>= rest)
          (select_next_event_queue w >>= rest)
  unfolding select_next_event_queue
  Follows-select w rpcs rest h g =
      let i = (w.current_event_queue_id + 1) % w.num_event_threads in
      elim (Option-cases (get_elem? w.event_queues i)) [
        | inl nothing ↦ rw nothing (Follows-fault other Fault.out_of_range _)
        | inr (x, there) ↦ rw there (g i (record w { current_event_queue_id = i }) rpcs h)
      ]

  module _ (p : ℕ) (mine : other p ≡ none) where
    pub enqueue_and_notify-Restricts :
        (item : SendItem api) → Restricts other (enqueue_and_notify p item)
    unfolding enqueue_and_notify store get_weak_ptr
    enqueue_and_notify-Restricts item w rpcs h = Follows-load other p mine w rpcs _ _ h (λ r.
        let w1 = store p (enqueue_message item r) w in
        let rpcs1 = assign p (enqueue_message item r) rpcs in
        let h1 = store-Shared other w rpcs h p mine (enqueue_message item r) in
        rw (find-own other w1 rpcs1 h1 p mine) (
          Follows-after other (get_weak_ptr p w1) _ _ (λ rpc.
            push_event-Restricts other p mine r.event_queue (internal_event rpc) w1 rpcs1 h1)))

    perform-Restricts : (a : Action api) → Restricts other (perform p a)
    unfolding perform rpc_write rpc_finish
    perform-Restricts (send m) = enqueue_and_notify-Restricts _
    perform-Restricts (finish_with s) = enqueue_and_notify-Restricts _

    perform_all-Restricts : (as' : List (Action api)) → Restricts other (perform_all p as')
    unfolding perform_all
    perform_all-Restricts [] w rpcs h = Follows-ok other w rpcs h
    perform_all-Restricts (a ∷ as') w rpcs h =
        Follows-then other (perform p a (over rpcs w)) (perform p a w) _
          (perform-Restricts a w rpcs h) (perform_all-Restricts as')

    run_effects-Restricts : (e : Effects api) → Restricts other (run_effects p e)
    unfolding run_effects store
    run_effects-Restricts e w rpcs h = Follows-load other p mine w rpcs _ _ h (λ r.
        let r1 = record r { handler = some e.state } in
        perform_all-Restricts e.actions (record (store p r1 w) { context = e.context })
          (assign p r1 rpcs) (store-Shared other w rpcs h p mine r1))

    pub on_request-Restricts : Restricts other (on_request p)
    unfolding on_request
    on_request-Restricts w rpcs h = Follows-load other p mine w rpcs _ _ h (λ r.
        Follows-after other (or_fault r.handler Fault.null_pointer) _ _
          (λ x. run_effects-Restricts _ w rpcs h))

    pub on_reads_done-Restricts : Restricts other (on_reads_done p)
    unfolding on_reads_done
    on_reads_done-Restricts w rpcs h = Follows-load other p mine w rpcs _ _ h (λ r.
        Follows-after other (or_fault r.handler Fault.null_pointer) _ _
          (λ x. run_effects-Restricts _ w rpcs h))

    pub on_finish-Restricts : Restricts other (on_finish p)
    unfolding on_finish
    on_finish-Restricts w rpcs h = Follows-load other p mine w rpcs _ _ h (λ r.
        Follows-after other (or_fault r.handler Fault.null_pointer) _ _
          (λ x. run_effects-Restricts _ w rpcs h))

    requested-Restricts : Restricts other (λ w. on_request p w >>= on_reads_done p)
    requested-Restricts w rpcs h =
        Follows-then other (on_request p (over rpcs w)) (on_request p w) _
          (on_request-Restricts w rpcs h) on_reads_done-Restricts

    read_or_handle-Restricts : (t : RpcType) → Restricts other (read_or_handle t p)
    unfolding read_or_handle
    read_or_handle-Restricts bidi_streaming =
        update_rpc-Restricts other p mine request_streaming_read
    read_or_handle-Restricts client_streaming =
        update_rpc-Restricts other p mine request_streaming_read
    read_or_handle-Restricts normal_rpc = requested-Restricts
    read_or_handle-Restricts server_streaming = requested-Restricts

    pub streaming_read-Restricts : Restricts other (request_streaming_read_if_needed p)
    unfolding request_streaming_read_if_needed
    streaming_read-Restricts w rpcs h =
        Follows-load other p mine w rpcs _ _ h
          (λ r. read_or_handle-Restricts r.rpc_handler_info.rpc_type w rpcs h)

    initialize_handler-Restricts :
        (x : Option api.HandlerState) (r : Rpc api) → Restricts other (initialize_handler x r p)
    unfolding initialize_handler
    initialize_handler-Restricts none r w rpcs h = run_effects-Restricts _ w rpcs h
    initialize_handler-Restricts (some x) r w rpcs h = Follows-ok other w rpcs h

    pub on_connection-Restricts : Restricts other (on_connection p)
    unfolding on_connection
    on_connection-Restricts w rpcs h = Follows-load other p mine w rpcs _ _ h (λ r.
        Follows-then other (initialize_handler r.handler r p (over rpcs w))
          (initialize_handler r.handler r p w) _ (initialize_handler-Restricts r.handler r w rpcs h)
          streaming_read-Restricts)

    pub remove-Restricts : Restricts other (λ w. ok (remove p w).0)
    unfolding remove
    remove-Restricts w rpcs h = elim (Option-cases (find p w.active_rpcs)) [
      | inl gone ↦
          let gone' : find p rpcs ≡ none = find-own other w rpcs h p mine ∙ gone in
          rw (gone, gone') (Follows-ok other w rpcs h)
      | inr (r, there) ↦
          let there' : find p rpcs ≡ some r = find-own other w rpcs h p mine ∙ there in
          rw (there, there')
            (Follows-ok other (record w { active_rpcs = erase p w.active_rpcs }) (erase p rpcs)
              (erase-Shared other w rpcs h p mine))
    ]
