-- ===== src/Server/Lifecycle/Starting.antt =====
-- async_grpc/server.cc: Start, of a server that was just built and of one that was started before.
use async_flatbuffer_grpc.Prelude.{
  ℕ, suc, ◌≡◌, refl, sym, ap, ◌∙◌, subst, inl, inr, false, none, some, List, map, arith, ok,
  replicate, length, length-replicate, All, for_each, for_each-All,
}
use async_flatbuffer_grpc.Api.{Api}
use async_flatbuffer_grpc.Common.BlockingQueue.{BlockingQueue}
use async_flatbuffer_grpc.Runtime.{World, QueuedEvent}
use async_flatbuffer_grpc.Service.Tags.{AllInfinite}
use async_flatbuffer_grpc.Server.Thread.{Thread, running}
use async_flatbuffer_grpc.Server.EventQueueThread.{EventQueueThread, new_event_queue_thread}
use async_flatbuffer_grpc.Server.EventQueueThread
use async_flatbuffer_grpc.Server.CompletionQueueThread.{CompletionQueueThread}
use async_flatbuffer_grpc.Server.CompletionQueueThread
use async_flatbuffer_grpc.Server.Lifecycle.{
  Server, Service, queues_of, put_queues, shared, serve_services, stop_service,
}
use async_flatbuffer_grpc.Server.Lifecycle
use async_flatbuffer_grpc.Server.Lifecycle.Serving.{Queues, Serves, serve_services-Served}
use async_flatbuffer_grpc.Server.Lifecycle.Phases.{Handlers, Built, Serving}
use async_flatbuffer_grpc.Server.Lifecycle.ThreadLists.{
  Fails, Result-cases, put_queues-All, length-put_queues, new_threads, new_queues, restart_Fails,
}

module _ {api : Api} (hs : Handlers api) (n k : ℕ) where
  abbrev pub after_start :
      Server api
      → List (List ℕ × Service api)
      → World api
      → List EventQueueThread
      → List CompletionQueueThread
      → Server api
  after_start s vs w event_queue_threads completion_queue_threads = record s {
    server = some false;
    services = vs;
    event_queue_threads = event_queue_threads;
    completion_queue_threads = completion_queue_threads;
    current_event_queue_id = w.current_event_queue_id;
    execution_context = w.context;
    next_address = w.next_address;
    calls = w.calls;
  }

  -- The threads after Start's loops over them.
  pub record Started (qs : List (BlockingQueue QueuedEvent)) (s : Server api) : Type 0 where
    pub event_queue_threads : List EventQueueThread
    pub completion_queue_threads : List CompletionQueueThread
    pub event_loop :
        for_each EventQueueThread.start (put_queues qs s.event_queue_threads)
        ≡ ok event_queue_threads
    pub completion_loop :
        for_each CompletionQueueThread.start s.completion_queue_threads
        ≡ ok completion_queue_threads
    pub event_threads : All (EventQueueThread.IsThread (some running)) event_queue_threads
    pub completion_threads :
        All (CompletionQueueThread.IsThread (some running) false) completion_queue_threads
    pub event_count : length event_queue_threads ≡ suc n
    pub completion_count : length completion_queue_threads ≡ k

  module _ (s : Server api) (b : Built hs (suc n) k s) where
    pub threads-Started : (qs : List (BlockingQueue QueuedEvent)) → Started qs s
    threads-Started qs =
        let waiting =
          subst (All (EventQueueThread.IsThread none)) (sym b.event_threads)
            (new_threads (suc n)) in
        let (ets, e1, running1, n1) =
          for_each-All (EventQueueThread.IsThread none) (EventQueueThread.IsThread (some running))
            EventQueueThread.start EventQueueThread.start-IsThread
            (put_queues qs s.event_queue_threads)
            (put_queues-All none qs s.event_queue_threads waiting) in
        let (cts, e2, running2, n2) =
          for_each-All (CompletionQueueThread.IsThread none false)
            (CompletionQueueThread.IsThread (some running) false) CompletionQueueThread.start
            CompletionQueueThread.start-IsThread s.completion_queue_threads b.completion_threads in
        record {
          event_queue_threads = ets;
          completion_queue_threads = cts;
          event_loop = e1;
          completion_loop = e2;
          event_threads = running1;
          completion_threads = running2;
          event_count =
              n1
              ∙ length-put_queues qs s.event_queue_threads
              ∙ ap length b.event_threads
              ∙ length-replicate (suc n) new_event_queue_thread;
          completion_count = n2 ∙ b.completion_count;
        }

    pub built_queues :
        queues_of s.event_queue_threads ≡ queues_of (replicate (suc n) new_event_queue_thread)
    built_queues = ap queues_of b.event_threads

    pub n_queues : length (queues_of s.event_queue_threads) ≡ suc n
    n_queues = ap length built_queues ∙ (new_queues (suc n)).1

    pub shared-Queues : Queues (shared (suc n) s)
    shared-Queues = record {
      threads = sym n_queues;
      some_thread = omega (arith, n_queues);
      infinite = subst AllInfinite (sym built_queues) (new_queues (suc n)).0;
    }

    pub start-Serving : (s' : Server api) × (Lifecycle.start s ≡ ok s') × Serving hs (suc n) k s'
    unfolding Lifecycle.start
    start-Serving =
        let cqs = map (λ t. t.completion_queue) s.completion_queue_threads in
        let (vs, w, e, served) =
          serve_services-Served cqs s.services (shared (suc n) s) shared-Queues b.services in
        let t = threads-Started w.event_queues in
        (
          after_start s vs w t.event_queue_threads t.completion_queue_threads,
          rw (b.options, e, t.event_loop, t.completion_loop) refl,
          record {
            options = b.options;
            event_threads = t.event_threads;
            event_count = t.event_count;
            completion_threads = t.completion_threads;
            completion_count = t.completion_count;
            server = refl;
            going_on = b.going_on;
            services =
                subst (λ is. All (λ v. Serves is (suc n) v.1) vs) b.completion_queues
                  (subst (λ i. All (λ v. Serves cqs i v.1) vs) n_queues served.serves);
            apart = served.apart;
            same_handlers = served.same_handlers ∙ b.same_handlers;
          },
        )

module _ {api : Api} (n : ℕ) where
  pub restart-Fails :
      (s : Server api) (th : Thread)
      → s.options.num_event_threads ≡ some (suc n)
      → length s.event_queue_threads ≡ suc n
      → All (EventQueueThread.IsThread (some th)) s.event_queue_threads
      → Fails (Lifecycle.start s)
  unfolding Lifecycle.start
  restart-Fails s th options count threads =
      let cqs = map (λ t. t.completion_queue) s.completion_queue_threads in
      elim (Result-cases (serve_services cqs s.services (shared (suc n) s))) [
        | inl (why, e) ↦ (why, rw (options, e) refl)
        | inr ((vs, w), e) ↦
            let ts = put_queues w.event_queues s.event_queue_threads in
            let (why, f) =
              restart_Fails th ts
                (omega (arith, count, length-put_queues w.event_queues s.event_queue_threads))
                (put_queues-All (some th) w.event_queues s.event_queue_threads threads) in
            (why, rw (options, e, f) refl)
      ]
