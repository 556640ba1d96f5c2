-- ===== src/Server/Lifecycle/Stopping.antt =====
-- async_grpc/server.cc: Shutdown, of a server that serves and of one that was shut down before.
use async_flatbuffer_grpc.Prelude.{
  ℕ, suc, ◌≡◌, refl, ap, ◌∙◌, Option-cases, inl, inr, true, false, some, List, [], ◌∷◌, map, arith,
  ok, Fault, length, All, for_each, for_each-All,
}
use async_flatbuffer_grpc.Api.{Api}
use async_flatbuffer_grpc.Server.Thread.{running, joined}
use async_flatbuffer_grpc.Server.EventQueueThread.{EventQueueThread, new_event_queue_thread}
use async_flatbuffer_grpc.Server.EventQueueThread
use async_flatbuffer_grpc.Server.CompletionQueueThread.{CompletionQueueThread}
use async_flatbuffer_grpc.Server.CompletionQueueThread
use async_flatbuffer_grpc.Server.Lifecycle.{
  Server, Service, queues_of, put_queues, shared, serve_services, stop_service,
}
use async_flatbuffer_grpc.Server.Lifecycle
use async_flatbuffer_grpc.Server.Lifecycle.Serving.{handlers}
use async_flatbuffer_grpc.Server.Lifecycle.Phases.{Handlers, Serving, Stopped}
use async_flatbuffer_grpc.Server.Lifecycle.ThreadLists.{Fails, Result-cases, rejoin_Fails}

module _ {api : Api} (hs : Handlers api) (n k : ℕ) where
  pub shutdown-Stopped :
      (s : Server api)
      → Serving hs (suc n) k s
      → (s' : Server api) × (Lifecycle.shutdown s ≡ ok s') × Stopped hs (suc n) k s'
  unfolding Lifecycle.shutdown
  shutdown-Stopped s b =
      let (cts, e1, joined1, n1) =
        for_each-All (CompletionQueueThread.IsThread (some running) false)
          (CompletionQueueThread.IsThread (some joined) true) CompletionQueueThread.shutdown
          CompletionQueueThread.shutdown-IsThread s.completion_queue_threads b.completion_threads in
      let (ets, e2, joined2, n2) =
        for_each-All (EventQueueThread.IsThread (some running))
          (EventQueueThread.IsThread (some joined)) EventQueueThread.shutdown
          EventQueueThread.shutdown-IsThread s.event_queue_threads b.event_threads in
      (
        record s {
          shutting_down = true;
          server = some true;
          services = map (λ e. (e.0, stop_service e.1)) s.services;
          completion_queue_threads = cts;
          event_queue_threads = ets;
        },
        rw (b.server, e1, e2) refl,
        record {
          options = b.options;
          event_threads = joined2;
          event_count = n2 ∙ b.event_count;
          completion_threads = joined1;
          completion_count = n1 ∙ b.completion_count;
          server = refl;
          shut_down = refl;
          services = all_stopped s.services;
          same_handlers = stopped_handlers s.services ∙ b.same_handlers;
        },
      )
    where
      all_stopped :
          (vs : List (List ℕ × Service api))
          → All
              (λ (e : List ℕ × Service api). e.1.shutting_down ≡ true)
              (map (λ e. (e.0, stop_service e.1)) vs)
      all_stopped [] = tt
      all_stopped (v ∷ vs) = (refl, all_stopped vs)

      stopped_handlers :
          (vs : List (List ℕ × Service api))
          → map handlers (map (λ e. (e.0, stop_service e.1)) vs) ≡ map handlers vs
      stopped_handlers [] = refl
      stopped_handlers (v ∷ vs) = ap (λ l. handlers v ∷ l) (stopped_handlers vs)

module _ {api : Api} (n : ℕ) where
  -- A server that is shut down again finds its threads joined.
  pub reshutdown-Fails :
      (s : Server api)
      → length s.event_queue_threads ≡ suc n
      → All (EventQueueThread.IsThread (some joined)) s.event_queue_threads
      → Fails (Lifecycle.shutdown s)
  unfolding Lifecycle.shutdown
  reshutdown-Fails s count threads = elim (Option-cases s.server) [
    | inl null ↦ (Fault.null_pointer, rw null refl)
    | inr (down, there) ↦
        elim (Result-cases (for_each CompletionQueueThread.shutdown s.completion_queue_threads)) [
          | inl (why, e) ↦ (why, rw (there, e) refl)
          | inr (cts, e) ↦
              let (why, f) = rejoin_Fails s.event_queue_threads (omega (arith, count)) threads in
              (why, rw (there, e, f) refl)
        ]
  ]
