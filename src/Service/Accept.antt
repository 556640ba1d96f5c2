-- ===== src/Service/Accept.antt =====
-- async_grpc/service.cc: HandleNewConnection for a connection that was established, while the
-- service runs: the Rpc gets its handler and goes on, and a new Rpc waits for the next connection.
use async_flatbuffer_grpc.Prelude.{
  ℕ, ◌≡◌, refl, sym, ◌∙◌, ap, true, false, Option, none, some, List, arith, ok, ◌>>=◌, find,
  assign-assign, length,
}
use async_flatbuffer_grpc.Api.{Api, new_connection, read, Action, Effects}
use async_flatbuffer_grpc.Rpc.{Rpc}
use async_flatbuffer_grpc.Runtime.{
  World, load, store, on_connection, initialize_handler, run_effects, perform_all,
}
use async_flatbuffer_grpc.Service.{handle_new_connection, connect_if_ok, renew_rpc}
use async_flatbuffer_grpc.Service.Tags.{owed-store}
use async_flatbuffer_grpc.Service.Order.{Grown, Grown-trans, same-Grown, store-Grown}
use async_flatbuffer_grpc.Service.Wellformed.{Good, Inv, store-there, store-Inv}
use async_flatbuffer_grpc.Service.Quiet.{Quiet-there, Connected}
use async_flatbuffer_grpc.Service.Callbacks.{perform_all-Quiet, context-Quiet}
use async_flatbuffer_grpc.Service.Fine.{Fine, Fine-trans, Quiet-Fine}
use async_flatbuffer_grpc.Service.Handlers.{read_if_needed-Served}
use async_flatbuffer_grpc.Service.Connection.{renew_rpc-Fine}

module _ {api : Api} where
  initialize_none :
      (h : Option api.HandlerState) (r : Rpc api) (p : ℕ) (w : World api)
      → h ≡ none
      → initialize_handler h r p w
        ≡ run_effects p (r.rpc_handler_info.rpc_factory.initialize w.context) w
  unfolding initialize_handler
  initialize_none none r p w h = refl
  initialize_none (some s) r p w h = cc

  run_effects_lem :
      (p : ℕ) (r : Rpc api) (e : Effects api) (w : World api)
      → find p w.active_rpcs ≡ some r
      → run_effects p e w
        ≡ perform_all p e.actions
            (record (store p (record r { handler = some e.state }) w) { context = e.context })
  unfolding run_effects load
  run_effects_lem p r e w there = rw there refl

  perform_all_made :
      (p : ℕ) (a b : Rpc api) (acts : List (Action api)) (c : api.Context) (w : World api)
      → perform_all p acts (record (store p b (store p a w)) { context = c })
        ≡ perform_all p acts (record (store p b w) { context = c })
  unfolding store
  perform_all_made p a b acts c w =
      ap (λ m. perform_all p acts (record w { active_rpcs = m; context = c }))
        (assign-assign p a b w.active_rpcs)

  connect_lem :
      (p : ℕ) (v : World api)
      → v.shutting_down ≡ false
      → handle_new_connection p true v ≡ (on_connection p v >>= renew_rpc p)
  unfolding handle_new_connection connect_if_ok
  connect_lem p v running = rw running refl

  -- The Rpc when its NEW_CONNECTION event is handled, and when it has its handler too.
  abbrev pub accepted : Rpc api → Rpc api
  accepted r = record r {
    new_connection_event = record (r.new_connection_event) { pending = false };
  }

  abbrev equipped : api.HandlerState → Rpc api → Rpc api
  equipped h r = record (accepted r) { handler = some h }

  module _ (p : ℕ) (r : Rpc api) (w : World api) (there : find p w.active_rpcs ≡ some r) (v : Inv w)
      (waiting : r.new_connection_event.pending ≡ true) where
    abbrev initial : Effects api
    initial = r.rpc_handler_info.rpc_factory.initialize w.context

    -- The world when the handler was made, and before what it sent.
    abbrev made : World api
    made = record (store p (equipped initial.state r) w) { context = initial.context }

    equipped-Good : Good (length w.event_queues) (equipped initial.state r)
    equipped-Good = ground (arith, v.rpcs p r there)

    stored-Inv : Inv (store p (equipped initial.state r) w)
    stored-Inv = store-Inv p r (equipped initial.state r) w there v equipped-Good

    made-Inv : Inv made
    made-Inv = (context-Quiet (store p (equipped initial.state r) w) initial.context stored-Inv).inv

    made-Grown : Grown (store p (accepted r) w) made
    unfolding store
    made-Grown =
        let u = store p (accepted r) w in
        let twice = store p (equipped initial.state r) u in
        Grown-trans u twice made
          (store-Grown p (accepted r) (equipped initial.state r) u
            (store-there p r (accepted r) w there) refl)
          (same-Grown twice made
            (sym (assign-assign p (accepted r) (equipped initial.state r) w.active_rpcs)) refl refl)

    made-Fine : Fine (store p (accepted r) w) made
    unfolding store
    made-Fine = record {
      inv = made-Inv;
      stopped = refl;
      balanced = λ q e. ground (
        arith,
        owed-store p q e r (accepted r) w there,
        owed-store p q e r (equipped initial.state r) w there,
      );
      grown = made-Grown;
    }

    abbrev made-Connected : Connected p made
    made-Connected = record {
      rpc = equipped initial.state r;
      there = store-there p r (equipped initial.state r) w there;
      connected = refl;
    }

    no_handler : r.handler ≡ none
    no_handler = ground (arith, v.rpcs p r there)

    not_reading : r.read_event.pending ≡ false
    not_reading = ground (arith, v.rpcs p r there)

    initialize_lem :
        initialize_handler r.handler (accepted r) p (store p (accepted r) w)
        ≡ perform_all p initial.actions made
    unfolding store
    initialize_lem =
        initialize_none r.handler (accepted r) p (store p (accepted r) w) no_handler
        ∙ run_effects_lem p (accepted r) initial (store p (accepted r) w)
            (store-there p r (accepted r) w there)
        ∙ perform_all_made p (accepted r) (equipped initial.state r) initial.actions initial.context
            w

    connection-Served :
        (w' : World api) × (on_connection p (store p (accepted r) w) ≡ ok w')
        × Fine (store p (accepted r) w) w'
        × Connected p w'
    unfolding on_connection load
    connection-Served =
        let (w1, e1, q1) = perform_all-Quiet p initial.actions made made-Inv made-Connected in
        let (r', there1, same) =
          Quiet-there p (equipped initial.state r) made w1 q1
            (store-there p r (equipped initial.state r) w there) in
        let c1 : Connected p w1 = record {
          rpc = r';
          there = there1;
          connected = same new_connection;
        } in
        let (w2, e2, s2) = read_if_needed-Served p w1 q1.inv c1 (same read ∙ not_reading) in
        let f = Fine-trans (store p (accepted r) w) made w1 made-Fine (Quiet-Fine made w1 q1) in
        (
          w2,
          rw (store-there p r (accepted r) w there, initialize_lem, e1) e2,
          Fine-trans (store p (accepted r) w) w1 w2 f s2.fine,
          s2.connection,
        )

    -- The whole of HandleNewConnection.
    pub handle_new_connection-Fine :
        w.shutting_down ≡ false
        → (w' : World api) × (handle_new_connection p true (store p (accepted r) w) ≡ ok w')
          × Fine (store p (accepted r) w) w'
    handle_new_connection-Fine running =
        let (w1, e1, f1, c1) = connection-Served in
        let (w2, e2, f2) = renew_rpc-Fine p c1.rpc w1 f1.inv c1.there in
        let on : (store p (accepted r) w).shutting_down ≡ false = unfold store in running in
        (
          w2,
          connect_lem p (store p (accepted r) w) on ∙ rw e1 e2,
          Fine-trans (store p (accepted r) w) w1 w2 f1 f2,
        )
