-- ===== src/Server/Services/Started.antt =====
-- async_grpc/server.cc: Start of a server with any number of services leaves a state that the loops of
-- the threads run safely from.
use async_flatbuffer_grpc.Prelude.{
  ℕ, suc, ◌≡◌, refl, sym, ap, ◌∙◌, subst, false, none, List, [], ◌∷◌, ◌++◌, map, ok, arith, find,
  length, All, inl, ◌⊎◌,
}
use async_flatbuffer_grpc.Api.{Api}
use async_flatbuffer_grpc.Runtime.{World}
use async_flatbuffer_grpc.Service.Serving.{start_serving-Adds}
use async_flatbuffer_grpc.Server.Steps.Taking.{Safe}
use async_flatbuffer_grpc.Server.Steps.Handling.{Safe-Fine}
use async_flatbuffer_grpc.Server.Lifecycle.{
  Server, Service, queues_of, put_queues, shared, enter, leave, new_service, serve_services,
}
use async_flatbuffer_grpc.Server.Lifecycle
use async_flatbuffer_grpc.Server.Lifecycle.Serving.{IsNew, length-map}
use async_flatbuffer_grpc.Server.Lifecycle.Phases.{Handlers, Built}
use async_flatbuffer_grpc.Server.Lifecycle.Starting.{after_start, threads-Started}
use async_flatbuffer_grpc.Server.Lifecycle.Running.{queues-put, start_queues, entered-Safe}
use async_flatbuffer_grpc.Server.Services.{all_rpcs, running, whole}
use async_flatbuffer_grpc.Server.Services.Sharing.{Rpcs, over, Shared}
use async_flatbuffer_grpc.Server.Services.Events.{start_serving-Restricts}
use async_flatbuffer_grpc.Server.Services.Whole.{Separate, AllServe, Safe-over, find-append}
use async_flatbuffer_grpc.Server.Services.Safety.{SafeRunning}

module _ {api : Api} where
  -- The state with those Rpcs, of a service that serves.
  abbrev serving_with : Rpcs api → World api → World api
  serving_with rpcs w = record w { active_rpcs = rpcs; shutting_down = false }

  -- The services `vs` and the state after they began to serve, where there were `before` Rpcs.
  record AllStarted (before : Rpcs api) (w : World api) (vs : List (List ℕ × Service api))
      (w' : World api) : Type 0 where
    rpcs : Rpcs api
    safe : Safe (serving_with rpcs w')
    shared_rpcs : Shared (λ p. find p before) (all_rpcs vs) rpcs
    separate : Separate vs
    serve : AllServe vs
    queues : w'.event_queues ≡ w.event_queues
    threads : w'.num_event_threads ≡ w.num_event_threads

  module _ (before first rest rpcs' : Rpcs api) (rpcs : Rpcs api)
      (h : Shared (λ p. find p before) first rpcs) (g : Shared (λ p. find p rpcs) rest rpcs') where
    both-Shared : Shared (λ p. find p before) (first ++ rest) rpcs'
    both-Shared p = ground (arith, h p, g p, find-append p first rest)

    both_apart : (p : ℕ) → (find p first ≡ none) ⊎ (find p rest ≡ none)
    both_apart p = ground (arith, h p, g p)

  listed_once :
      (listed rpcs : Rpcs api)
      → Shared (λ p. find p []) listed rpcs
      → (p : ℕ) → find p rpcs ≡ find p listed
  unfolding find
  listed_once listed rpcs h p = ground (arith, h p)

  serve_services-AllStarted :
      (qs : List ℕ) (vs : List (List ℕ × Service api)) (before : Rpcs api) (w : World api)
      → Safe (serving_with before w)
      → All (λ e. IsNew e.1) vs
      → (vs' : List (List ℕ × Service api)) × (w' : World api) × (serve_services qs vs w
          ≡ ok (vs', w'))
        × AllStarted before w vs' w'
  unfolding serve_services find
  serve_services-AllStarted qs [] before w s new = (
    [],
    w,
    refl,
    record {
      rpcs = before;
      safe = s;
      shared_rpcs = λ p. inl (refl, refl);
      separate = tt;
      serve = tt;
      queues = refl;
      threads = refl;
    },
  )
  serve_services-AllStarted qs ((name, v) ∷ vs) before w s (new, news) =
      let infos = map (λ e. e.1) v.rpc_handler_infos in
      let entered : over before (enter v w) ≡ serving_with before w =
        ap (λ b. record w { active_rpcs = before; shutting_down = b }) new.serving in
      let s1 = subst Safe (sym entered) s in
      let (u, e, adds) = start_serving-Adds infos qs (over before (enter v w)) s1.inv in
      let safe_u = Safe-Fine (over before (enter v w)) u s1 adds.fine in
      let a =
        start_serving-Restricts (λ p. find p before) infos qs (enter v w) before
          (λ p. inl (ap (find p) new.no_rpc, refl)) u e in
      let going : a.own.shutting_down ≡ false =
        ap (λ x. x.shutting_down) (sym a.same) ∙ safe_u.running in
      let safe1 =
        subst (λ b. Safe (record a.own { active_rpcs = a.rpcs; shutting_down = b })) going
          (subst Safe a.same safe_u) in
      let (vs', w', e', t) = serve_services-AllStarted qs vs a.rpcs a.own safe1 news in
      (
        (name, leave v a.own) ∷ vs',
        w',
        rw (a.succeeds, e') refl,
        record {
          rpcs = t.rpcs;
          safe = t.safe;
          shared_rpcs =
              both-Shared before a.own.active_rpcs (all_rpcs vs') t.rpcs a.rpcs a.shared
                t.shared_rpcs;
          separate = (
            both_apart before a.own.active_rpcs (all_rpcs vs') t.rpcs a.rpcs a.shared t.shared_rpcs,
            t.separate,
          );
          serve = (going, t.serve);
          queues = t.queues ∙ ap (λ x. x.event_queues) (sym a.same) ∙ adds.queues;
          threads = t.threads ∙ ap (λ x. x.num_event_threads) (sym a.same) ∙ adds.threads;
        },
      )

module _ {api : Api} (hs : Handlers api) (n k : ℕ) (s : Server api) (b : Built hs (suc n) k s) where
  nothing-Safe : Safe (serving_with [] (shared (suc n) s))
  unfolding new_service
  nothing-Safe =
      entered-Safe hs n k s b (new_service [])
        (record { no_rpc = refl; serving = refl; methods = refl })

  pub start_all-Safe :
      (s' : Server api) × (Lifecycle.start s ≡ ok s') × SafeRunning (running (suc n) s')
  unfolding Lifecycle.start
  start_all-Safe =
      let cqs = map (λ t. t.completion_queue) s.completion_queue_threads in
      let (vs, w, e, a) =
        serve_services-AllStarted cqs s.services [] (shared (suc n) s) nothing-Safe b.services in
      let t = threads-Started hs n k s b w.event_queues in
      let s' = after_start hs n k s vs w t.event_queue_threads t.completion_queue_threads in
      let same_length : length w.event_queues ≡ length s.event_queue_threads =
        ap length a.queues ∙ length-map (λ x. x.event_queue) s.event_queue_threads in
      let queues : queues_of t.event_queue_threads ≡ w.event_queues =
        start_queues (put_queues w.event_queues s.event_queue_threads) t.event_queue_threads
          t.event_loop
        ∙ queues-put w.event_queues s.event_queue_threads same_length in
      let same : whole (running (suc n) s') ≡ serving_with (all_rpcs vs) w =
        ap
          (λ qs. record (serving_with (all_rpcs vs) w) {
            event_queues = qs;
            num_event_threads = suc n;
          })
          queues
        ∙ ap (λ m. record (serving_with (all_rpcs vs) w) { num_event_threads = m })
            (sym a.threads) in
      let listed =
        Safe-over (serving_with [] w) a.rpcs (all_rpcs vs)
          (listed_once (all_rpcs vs) a.rpcs a.shared_rpcs) a.safe in
      (
        s',
        rw (b.options, e, t.event_loop, t.completion_loop) refl,
        record { safe = subst Safe (sym same) listed; separate = a.separate; serve = a.serve },
      )
