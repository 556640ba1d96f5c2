-- ===== src/Service/Connection.antt =====
-- async_grpc/service.cc: StartServing, and HandleNewConnection while the service runs.
use async_flatbuffer_grpc.Prelude.{
  ℕ, ◌+◌, ◌%◌, ◌<◌, ◌≡◌, refl, some, arith, ok, find, length, get_elem?-lt,
}
use async_flatbuffer_grpc.Api.{Api, RpcHandlerInfo}
use async_flatbuffer_grpc.Rpc.{Rpc, make_rpc, clone, set_event_queue}
use async_flatbuffer_grpc.Runtime.{World, load}
use async_flatbuffer_grpc.Service.{
  select_next_event_queue, add_and_request, renew_rpc, serve_method,
}
use async_flatbuffer_grpc.Service.Order.{same-Grown}
use async_flatbuffer_grpc.Service.Wellformed.{Inv}
use async_flatbuffer_grpc.Service.Fine.{Fine, Fine-trans}
use async_flatbuffer_grpc.Service.Adding.{
  New, make_rpc-New, set_event_queue-New, added, add_and_request_lem, added-Fine,
}

module _ {api : Api} where
  -- The index that the round robin comes to next.
  abbrev pub next_queue : World api → ℕ
  next_queue w = (w.current_event_queue_id + 1) % w.num_event_threads

  abbrev pub selected : World api → World api
  selected w = record w { current_event_queue_id = next_queue w }

  pub next_queue-lt : (w : World api) → Inv w → next_queue w < length w.event_queues
  next_queue-lt w v = grind (arith, v.threads, v.some_thread)

  pub select_lem :
      (w : World api) → Inv w → select_next_event_queue w ≡ ok (selected w, next_queue w)
  unfolding select_next_event_queue
  select_lem w v = rw (get_elem?-lt w.event_queues (next_queue w) (next_queue-lt w v)).1 refl

  pub selected-Fine : (w : World api) → Inv w → Fine w (selected w)
  selected-Fine w v = record {
    inv = record {
      threads = v.threads;
      some_thread = v.some_thread;
      infinite = v.infinite;
      fresh = v.fresh;
      rpcs = v.rpcs;
    };
    stopped = refl;
    balanced = λ p e. refl;
    grown = same-Grown w (selected w) refl refl refl;
  }

  -- A new Rpc is added, after a queue was selected.
  add_selected-Fine :
      (r : Rpc api) (w : World api)
      → Inv w
      → New (length w.event_queues) r
      → (w' : World api) × (add_and_request r (selected w) ≡ ok w') × Fine w w'
  add_selected-Fine r w v g =
      let f1 = selected-Fine w v in
      let f2 = added-Fine r (selected w) f1.inv g in
      (
        added r (selected w),
        add_and_request_lem r (selected w) f1.inv g.interface,
        Fine-trans w (selected w) (added r (selected w)) f1 f2,
      )

  pub serve_method-Fine :
      (i : ℕ) (info : RpcHandlerInfo api) (q : ℕ) (w : World api)
      → Inv w
      → (w' : World api) × (serve_method i info q w ≡ ok w') × Fine w w'
  unfolding serve_method
  serve_method-Fine i info q w v =
      let r = make_rpc i q (next_queue w) info in
      let (w', e, f) =
        add_selected-Fine r w v
          (make_rpc-New i q (next_queue w) (length w.event_queues) info (next_queue-lt w v)) in
      (w', rw (select_lem w v) e, f)

  -- The Rpc that takes over from a connected one.
  abbrev pub successor : Rpc api → World api → Rpc api
  successor r w = set_event_queue (next_queue w) (clone r)

  module _ (p : ℕ) (r : Rpc api) (w : World api) (v : Inv w)
      (there : find p w.active_rpcs ≡ some r) where
    successor-New : New (length w.event_queues) (successor r w)
    unfolding clone
    successor-New =
        set_event_queue-New (next_queue w) (length w.event_queues) (clone r) (next_queue-lt w v) (
          make_rpc-New r.method_index r.server_completion_queue r.event_queue
            (length w.event_queues) r.rpc_handler_info (v.rpcs p r there).queue)

    pub renew_rpc_lem : renew_rpc p w ≡ ok (added (successor r w) (selected w))
    unfolding renew_rpc load
    renew_rpc_lem =
        rw (there, select_lem w v)
          (add_and_request_lem (successor r w) (selected w) (selected-Fine w v).inv
            successor-New.interface)

    pub renew_rpc-Fine : (w' : World api) × (renew_rpc p w ≡ ok w') × Fine w w'
    renew_rpc-Fine =
        let f = selected-Fine w v in
        (
          added (successor r w) (selected w),
          renew_rpc_lem,
          Fine-trans w (selected w) (added (successor r w) (selected w)) f
              (added-Fine (successor r w) (selected w) f.inv successor-New),
        )
