-- ===== src/Server/Lifecycle/Running.antt =====
-- async_grpc/server.cc: Start of a server with one service leaves a state that the loops of the
-- threads run safely from (Server/Steps).
use async_flatbuffer_grpc.Prelude.{
  ℕ, All, zero, suc, ◌≡◌, refl, sym, ap, ◌∙◌, subst, List, [], ◌∷◌, map, arith, ok, ◌>>=◌, >>=-ok,
  find, length, replicate, for_each,
}
use async_flatbuffer_grpc.Api.{Api, Event}
use async_flatbuffer_grpc.Common.BlockingQueue.{BlockingQueue}
use async_flatbuffer_grpc.Common.BlockingQueue
use async_flatbuffer_grpc.Runtime.{QueuedEvent}
use async_flatbuffer_grpc.Service.Tags.{count_queues}
use async_flatbuffer_grpc.Service.Serving.{start_serving-Adds}
use async_flatbuffer_grpc.Server.EventQueueThread.{EventQueueThread, new_event_queue_thread}
use async_flatbuffer_grpc.Server.EventQueueThread
use async_flatbuffer_grpc.Server.Steps.Taking.{Safe}
use async_flatbuffer_grpc.Server.Steps.Handling.{Safe-Fine}
use async_flatbuffer_grpc.Server.Lifecycle.{
  Server, Service, queues_of, put_queues, shared, enter, leave, serve_services,
}
use async_flatbuffer_grpc.Server.Lifecycle
use async_flatbuffer_grpc.Server.Lifecycle.Serving.{IsNew, enter-Inv, length-map}
use async_flatbuffer_grpc.Server.Lifecycle.Phases.{Handlers, Built}
use async_flatbuffer_grpc.Server.Lifecycle.Starting.{
  after_start, threads-Started, built_queues, shared-Queues,
}

pub queues-put :
    (qs : List (BlockingQueue QueuedEvent)) (ts : List EventQueueThread)
    → length qs ≡ length ts
    → queues_of (put_queues qs ts) ≡ qs
queues-put [] [] h = refl
queues-put [] (t ∷ ts) h = absurd (omega (arith, h))
queues-put (q ∷ qs) [] h = absurd (omega (arith, h))
queues-put (q ∷ qs) (t ∷ ts) h = ap (λ l. q ∷ l) (queues-put qs ts (omega (arith, h)))

start-event_queue :
    (t t' : EventQueueThread) → EventQueueThread.start t ≡ ok t' → t'.event_queue ≡ t.event_queue
unfolding EventQueueThread.start
start-event_queue t t' h = ground (arith, h)

-- A thread keeps its queue when it is started.
pub start_queues :
    (ts ts' : List EventQueueThread)
    → for_each EventQueueThread.start ts ≡ ok ts'
    → queues_of ts' ≡ queues_of ts
unfolding for_each
start_queues [] ts' h = let same : [] ≡ ts' = cc h in ap queues_of (sym same)
start_queues (t ∷ ts) ts' h =
    let (t1, e1, h1) =
      >>=-ok (λ x. for_each EventQueueThread.start ts >>= (λ xs. ok (x ∷ xs)))
        (EventQueueThread.start t) h in
    let (ts1, e2, h2) = >>=-ok (λ xs. ok (t1 ∷ xs)) (for_each EventQueueThread.start ts) h1 in
    let same : t1 ∷ ts1 ≡ ts' = cc h2 in
    ap queues_of (sym same)
    ∙ ap (λ q. q ∷ queues_of ts1) (start-event_queue t t1 e1)
    ∙ ap (λ l. t.event_queue ∷ l) (start_queues ts ts1 e2)

pub new_queues_empty :
    (n p : ℕ) (e : Event) → count_queues p e (queues_of (replicate n new_event_queue_thread)) ≡ 0
unfolding new_event_queue_thread BlockingQueue.new
new_queues_empty zero p e = refl
new_queues_empty (suc n) p e = omega (arith, new_queues_empty n p e)

module _ {api : Api} (hs : Handlers api) (n k : ℕ) (s : Server api) (b : Built hs (suc n) k s) where
  pub entered-Safe : (v : Service api) → IsNew v → Safe (enter v (shared (suc n) s))
  unfolding find
  entered-Safe v new = record {
    inv = enter-Inv v (shared (suc n) s) (shared-Queues hs n k s b) new;
    running = new.serving;
    accounted = λ p e.
        rw (b.calls, new.no_rpc, built_queues hs n k s b)
          (omega (arith, new_queues_empty (suc n) p e));
    ordered = record { ordered = rw new.no_rpc (λ p i r ts e. cc) };
  }

  -- Start of a server with one service and one event thread or more, which was built and whose
  -- context may have been set, succeeds, and the service then has a state that is safe to run from.
  pub start-Safe :
      (name : List ℕ) (v : Service api)
      → s.services ≡ (name, v) ∷ []
      → (s' : Server api) × (v' : Service api) × (Lifecycle.start s ≡ ok s')
        × (s'.services ≡ (name, v') ∷ [])
        × Safe (enter v' (shared (suc n) s'))
  unfolding Lifecycle.start serve_services
  start-Safe name v one =
      let new : IsNew v = (subst (All (λ e. IsNew e.1)) one b.services).0 in
      let cqs = map (λ t. t.completion_queue) s.completion_queue_threads in
      let s0 = entered-Safe v new in
      let (w, e, a) =
        start_serving-Adds (map (λ e. e.1) v.rpc_handler_infos) cqs (enter v (shared (suc n) s))
          s0.inv in
      let t = threads-Started hs n k s b w.event_queues in
      let s' =
        after_start hs n k s ((name, leave v w) ∷ []) w t.event_queue_threads
          t.completion_queue_threads in
      let same_length : length w.event_queues ≡ length s.event_queue_threads =
        ap length a.queues ∙ length-map (λ x. x.event_queue) s.event_queue_threads in
      let queues : queues_of t.event_queue_threads ≡ w.event_queues =
        start_queues (put_queues w.event_queues s.event_queue_threads) t.event_queue_threads
          t.event_loop
        ∙ queues-put w.event_queues s.event_queue_threads same_length in
      let same : enter (leave v w) (shared (suc n) s') ≡ w =
        ap (λ qs. record w { event_queues = qs; num_event_threads = suc n }) queues
        ∙ ap (λ m. record w { num_event_threads = m }) (sym a.threads) in
      (
        s',
        leave v w,
        rw (b.options, one, e, t.event_loop, t.completion_loop) refl,
        refl,
        subst Safe (sym same) (Safe-Fine (enter v (shared (suc n) s)) w s0 a.fine),
      )
