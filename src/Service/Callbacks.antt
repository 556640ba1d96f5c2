-- ===== src/Service/Callbacks.antt =====
-- async_grpc/rpc.h and rpc_handler.h: the members that run the handler or send a message never
-- fault while the Rpc is connected, and leave the accounting of tags alone.
use async_flatbuffer_grpc.Prelude.{ℕ, ◌≡◌, refl, some, List, [], ◌∷◌, arith, ok, length}
use async_flatbuffer_grpc.Api.{Api, Action, send, finish_with, Effects}
use async_flatbuffer_grpc.Runtime.{
  World, load, store, rpc_write, rpc_finish, perform, perform_all, run_effects, on_request,
  on_reads_done, on_finish,
}
use async_flatbuffer_grpc.Service.Wellformed.{Good, Inv}
use async_flatbuffer_grpc.Service.Order.{same-Grown}
use async_flatbuffer_grpc.Service.Quiet.{
  Quiet, Quiet-trans, Connected, Quiet-Connected, store-Quiet, enqueue-Quiet,
}

module _ {api : Api} where
  perform-Quiet :
      (p : ℕ) (a : Action api) (w : World api)
      → Inv w
      → Connected p w
      → (w' : World api) × (perform p a w ≡ ok w') × Quiet w w'
  unfolding perform rpc_write rpc_finish
  perform-Quiet p (send m) w v c = enqueue-Quiet p _ w v c
  perform-Quiet p (finish_with s) w v c = enqueue-Quiet p _ w v c

  pub nothing-Quiet : (w : World api) → Inv w → Quiet w w
  nothing-Quiet w v = record {
    inv = v;
    kept = record { stopped = refl; queues = refl; address = refl; alive = λ p. refl };
    same_weight = λ p e. refl;
    same_owed = λ p e. refl;
    grown = same-Grown w w refl refl refl;
  }

  pub perform_all-Quiet :
      (p : ℕ) (as' : List (Action api)) (w : World api)
      → Inv w
      → Connected p w
      → (w' : World api) × (perform_all p as' w ≡ ok w') × Quiet w w'
  unfolding perform_all
  perform_all-Quiet p [] w v c = (w, refl, nothing-Quiet w v)
  perform_all-Quiet p (a ∷ as') w v c =
      let (w1, e1, q1) = perform-Quiet p a w v c in
      let (w2, e2, q2) = perform_all-Quiet p as' w1 q1.inv (Quiet-Connected p w w1 q1 c) in
      (w2, rw e1 e2, Quiet-trans q1 q2)

  -- A new execution context makes no difference.
  pub context-Quiet : (w : World api) (c : api.Context) → Inv w → Quiet w (record w { context = c })
  context-Quiet w c v = record {
    inv = record {
      threads = v.threads;
      some_thread = v.some_thread;
      infinite = v.infinite;
      fresh = v.fresh;
      rpcs = v.rpcs;
    };
    kept = record { stopped = refl; queues = refl; address = refl; alive = λ p. refl };
    same_weight = λ p e. refl;
    same_owed = λ p e. refl;
    grown = same-Grown w (record w { context = c }) refl refl refl;
  }

  pub run_effects-Quiet :
      (p : ℕ) (e : Effects api) (w : World api)
      → Inv w
      → Connected p w
      → (w' : World api) × (run_effects p e w ≡ ok w') × Quiet w w'
  unfolding run_effects load
  run_effects-Quiet p e w v c =
      let r' = record (c.rpc) { handler = some e.state } in
      let g = v.rpcs p c.rpc c.there in
      let g' : Good (length w.event_queues) r' = ground arith in
      let q1 = store-Quiet p c.rpc r' w c.there (λ ev. ground arith) refl v g' in
      let w1 = store p r' w in
      let q2 = context-Quiet w1 e.context q1.inv in
      let q = Quiet-trans q1 q2 in
      let w2 : World api = record w1 { context = e.context } in
      let (w3, e3, q3) = perform_all-Quiet p e.actions w2 q.inv (Quiet-Connected p w w2 q c) in
      (w3, rw c.there e3, Quiet-trans q q3)

  -- The handler of a connected Rpc.
  handler_there :
      (p : ℕ) (w : World api)
      → Inv w
      → (c : Connected p w) → (h : api.HandlerState) × (c.rpc.handler ≡ some h)
  handler_there p w v c = ground (arith, v.rpcs p c.rpc c.there)

  pub on_request-Quiet :
      (p : ℕ) (w : World api)
      → Inv w
      → Connected p w
      → (w' : World api) × (on_request p w ≡ ok w') × Quiet w w'
  unfolding on_request load
  on_request-Quiet p w v c =
      let (h, there) = handler_there p w v c in
      let (w', e, q) =
        run_effects-Quiet p
          (c.rpc.rpc_handler_info.rpc_factory.on_request w.context h c.rpc.request) w v c in
      (w', rw (c.there, there) e, q)

  pub on_reads_done-Quiet :
      (p : ℕ) (w : World api)
      → Inv w
      → Connected p w
      → (w' : World api) × (on_reads_done p w ≡ ok w') × Quiet w w'
  unfolding on_reads_done load
  on_reads_done-Quiet p w v c =
      let (h, there) = handler_there p w v c in
      let (w', e, q) =
        run_effects-Quiet p (c.rpc.rpc_handler_info.rpc_factory.on_reads_done w.context h) w v c in
      (w', rw (c.there, there) e, q)

  pub on_finish-Quiet :
      (p : ℕ) (w : World api)
      → Inv w
      → Connected p w
      → (w' : World api) × (on_finish p w ≡ ok w') × Quiet w w'
  unfolding on_finish load
  on_finish-Quiet p w v c =
      let (h, there) = handler_there p w v c in
      let (w', e, q) =
        run_effects-Quiet p (c.rpc.rpc_handler_info.rpc_factory.on_finish w.context h) w v c in
      (w', rw (c.there, there) e, q)
