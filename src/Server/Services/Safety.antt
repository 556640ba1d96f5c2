-- ===== src/Server/Services/Safety.antt =====
-- async_grpc/server.cc: a running server with any number of services is safe.
use async_flatbuffer_grpc.Prelude.{
  ℕ, ◌≡◌, refl, sym, ap, ◌∙◌, subst, inl, inr, Bool, true, Bool-cases, Option, Option-cases, none,
  some, List, [], ◌∷◌, arith, Result, ok, fault, ◌>>=◌, is_some, find, get_elem?, set,
}
use async_flatbuffer_grpc.Api.{Api, write_needed, SendItem, GrpcCall}
use async_flatbuffer_grpc.Common.BlockingQueue.{BlockingQueue}
use async_flatbuffer_grpc.Common.BlockingQueue
use async_flatbuffer_grpc.Rpc.{Rpc}
use async_flatbuffer_grpc.Runtime.{
  World, QueuedEvent, completion_queue_event, internal_event, load, enqueue_and_notify, writer_call,
  writer_write, writer_writes_done, writer_finish, rpc_write, rpc_finish,
}
use async_flatbuffer_grpc.Service.{
  complete_event, handle_completion_queue_event, handle_event, handle_queued_event, handle_if_alive,
}
use async_flatbuffer_grpc.Server.Steps.{
  Step, message, has_request, receive_request, run_message, completion, event_loop,
  write_from_outside, writes_done_from_outside, finish_from_outside, drop_at, Promised, run_step,
  run_completion_queue, run_event_queue, handle_popped, ignore_result,
}
use async_flatbuffer_grpc.Server.Steps.Taking.{Safe}
use async_flatbuffer_grpc.Server.Steps.Safety.{step-Safe}
use async_flatbuffer_grpc.Server.Services.{
  Running, all_rpcs, at_service, at_service_if_alive, complete_call, receive_message, dispatch,
  run_queue_once, take_step, take_steps, whole, AllPromised,
}
use async_flatbuffer_grpc.Server.Services.Sharing.{over, Restricts}
use async_flatbuffer_grpc.Server.Services.Members.{enqueue_and_notify-Restricts}
use async_flatbuffer_grpc.Server.Services.Events.{
  handle_event-Restricts, completed-Restricts, complete_event-Restricts, receive_request-Restricts,
}
use async_flatbuffer_grpc.Server.Services.Whole.{
  Separate, AllServe, Served, at_service-Served, Safe-over,
}

module _ {api : Api} where
  -- A state between two steps: with all Rpcs together it is safe, every service serves, and no
  -- address is in two services.
  pub record SafeRunning (s : Running api) : Type 0 where
    pub safe : Safe (whole s)
    pub separate : Separate s.services
    pub serve : AllServe s.services

  abbrev pub Runs : Result (Running api) → Type 0
  Runs m = (s' : Running api) × (m ≡ ok s') × SafeRunning s'

  -- The same, with the event queues of the state `u` of all services taken as one.
  abbrev pub RunsAs : World api → Result (Running api) → Type 0
  RunsAs u m =
      (s' : Running api) × (m ≡ ok s') × SafeRunning s' × (s'.world.event_queues ≡ u.event_queues)

  abbrev nothing_else : ℕ → Option (Rpc api)
  nothing_else p = none

  Served-Runs :
      (u : World api) (m : Result (Running api)) → Safe u → Served nothing_else u m → RunsAs u m
  Served-Runs u m safe d =
      let joined = subst Safe d.same safe in
      let listed =
        Safe-over d.after.world d.rpcs (all_rpcs d.after.services) (λ p. ground (arith, d.shared p))
          joined in
      (
        d.after,
        d.succeeds,
        record {
          safe =
              subst
                (λ b.
                  Safe
                    (record (over (all_rpcs d.after.services) d.after.world) { shutting_down = b }))
                listed.running listed;
          separate = d.separate;
          serve = d.serve;
        },
        ap (λ x. x.event_queues) (sym d.same),
      )

  loaded :
      (p : ℕ) (w u : World api) (rest : Rpc api → Result (World api))
      → (load p w >>= rest) ≡ ok u
      → is_some (find p w.active_rpcs) ≡ true
  unfolding load
  loaded p w u rest e = elim (Option-cases (find p w.active_rpcs)) [
    | inl gone ↦ absurd (ground (arith, gone, e))
    | inr (r, there) ↦ rw there refl
  ]

  abbrev with_true : World api → World api × Bool
  with_true w = (w, true)

  called :
      (m : Result (World api)) (u : World api)
      → ignore_result (m >>= (λ w. ok (with_true w))) ≡ ok u
      → m ≡ ok u
  unfolding ignore_result
  called (ok w) u h = h
  called (fault why) u h = cc

  module _ (s : Running api) (separate : Separate s.services) (serve : AllServe s.services)
      (u : World api) (safe : Safe u) where
    at_service-Runs :
        (p : ℕ) (member : World api → Result (World api))
        → ((other : ℕ → Option (Rpc api)) → other p ≡ none → Restricts other member)
        → is_some (find p (all_rpcs s.services)) ≡ true
        → member (whole s) ≡ ok u
        → RunsAs u (at_service p member s.services s.world)
    at_service-Runs p member local has e =
        Served-Runs u (at_service p member s.services s.world) safe (
          at_service-Served p member local s.services nothing_else (all_rpcs s.services) s.world u
            refl has separate serve (λ q. inr (refl, refl)) e safe.running)

    kept : u ≡ whole s → SafeRunning s
    kept same = record { safe = subst Safe same safe; separate = separate; serve = serve }

    pub dispatch-Runs :
        (x : Option QueuedEvent) → handle_popped x (whole s) ≡ ok u → RunsAs u (dispatch x s)
    unfolding dispatch at_service_if_alive handle_popped handle_queued_event handle_if_alive
        handle_completion_queue_event
    dispatch-Runs none e =
        let same : whole s ≡ u = cc e in (s, refl, kept (sym same), ap (λ x. x.event_queues) same)
    dispatch-Runs (some (completion_queue_event p f)) e =
        at_service-Runs p (handle_completion_queue_event p f)
          (λ other mine. completed-Restricts other p mine f) (loaded p (whole s) u _ e) e
    dispatch-Runs (some (internal_event p)) e = elim (Option-cases (find p (all_rpcs s.services))) [
      | inl gone ↦
          let same : whole s ≡ u = cc (e, gone) in
          (s, rw gone refl, kept (sym same), ap (λ x. x.event_queues) same)
      | inr (r, there) ↦
          let e' : handle_event write_needed p true (whole s) ≡ ok u =
            ap (λ o. handle_if_alive o p (whole s)) (sym there) ∙ e in
          let (s', run, safe', queues) =
            at_service-Runs p (handle_event write_needed p true)
              (λ other mine. handle_event-Restricts other p mine write_needed true) (rw there refl)
              e' in
          (s', rw there run, safe', queues)
    ]

    message-Runs :
        (m : api.Request) (o : Option (ℕ × GrpcCall api))
        → SafeRunning s
        → run_message o m (whole s) ≡ ok u
        → Runs (receive_message o m s)
    unfolding receive_message run_message
    message-Runs m none v e = (s, refl, v)
    message-Runs m (some (p, c)) v e = elim (Bool-cases (has_request c.op)) [
      | inl request ↦
          let e' : receive_request p m (whole s) ≡ ok u = cc (e, request) in
          let (s', run, safe', queues) =
            at_service-Runs p (receive_request p m)
              (λ other mine. receive_request-Restricts other p mine m)
              (unfold receive_request in loaded p (whole s) u _ e') e' in
          (s', rw request run, safe')
      | inr other ↦ (s, rw other refl, v)
    ]

    -- A Writer's call, on the Rpc if it is still there.
    outside-Runs :
        (p : ℕ) (item : SendItem api)
        → ignore_result
            (writer_call (enqueue_and_notify p item) (find p (all_rpcs s.services)) (whole s))
          ≡ ok u
        → Runs (at_service_if_alive (find p (all_rpcs s.services)) p (enqueue_and_notify p item) s)
    unfolding ignore_result writer_call at_service_if_alive
    outside-Runs p item e = elim (Option-cases (find p (all_rpcs s.services))) [
      | inl gone ↦ let same : whole s ≡ u = cc (e, gone) in (s, rw gone refl, kept (sym same))
      | inr (r, there) ↦
          let whole_call =
            ignore_result (writer_call (enqueue_and_notify p item) (some r) (whole s)) in
          let e' : whole_call ≡ ok u =
            ap (λ o. ignore_result (writer_call (enqueue_and_notify p item) o (whole s)))
              (sym there)
            ∙ e in
          let (s', run, safe', queues) =
            at_service-Runs p (enqueue_and_notify p item)
              (λ other mine. enqueue_and_notify-Restricts other p mine item) (rw there refl)
              (called (enqueue_and_notify p item (whole s)) u e') in
          (s', rw there run, safe')
    ]

  take_step-Runs :
      (step : Step api) (s : Running api)
      → SafeRunning s
      → Promised step (whole s)
      → Runs (take_step step s)
  unfolding take_step run_step
  take_step-Runs (message n m) s v promised =
      let (u, e, safe) = step-Safe (message n m) (whole s) v.safe promised in
      message-Runs s v.separate v.serve u safe m (get_elem? s.world.calls n) v e
  take_step-Runs (completion n ok') s v promised =
      let (u, e, safe) = step-Safe (completion n ok') (whole s) v.safe promised in
      elim (Option-cases (get_elem? s.world.calls n)) [
        | inl nothing ↦ (s, unfold complete_call in rw nothing refl, v)
        | inr ((p, c), there) ↦
            let at = record s.world { calls = drop_at n s.world.calls } in
            let s1 = record s { world = at } in
            let e' : complete_event p c.tag ok' (whole s1) ≡ ok u =
              unfold run_completion_queue in
              ap (λ o. run_completion_queue o n ok' (whole s)) (sym there) ∙ e in
            let (s', run, safe', queues) =
              at_service-Runs s1 v.separate v.serve u safe p (complete_event p c.tag ok')
                (λ other mine. complete_event-Restricts other p mine c.tag ok')
                (unfold complete_event in loaded p (whole s1) u _ e') e' in
            (s', unfold complete_call in rw there run, safe')
      ]
  take_step-Runs (event_loop i) s v promised =
      let (u, e, safe) = step-Safe (event_loop i) (whole s) v.safe promised in
      elim (Option-cases (get_elem? s.world.event_queues i)) [
        | inl nothing ↦ (s, unfold run_queue_once in rw nothing refl, v)
        | inr (q, there) ↦
            let popped = BlockingQueue.pop_with_timeout q in
            let s1 = record s {
              world = record s.world { event_queues = set s.world.event_queues i popped.1 };
            } in
            let e' : handle_popped popped.0 (whole s1) ≡ ok u =
              unfold run_event_queue in ap (λ o. run_event_queue o i (whole s)) (sym there) ∙ e in
            let (s', run, safe', queues) = dispatch-Runs s1 v.separate v.serve u safe popped.0 e' in
            (s', unfold run_queue_once in rw there run, safe')
      ]
  take_step-Runs (write_from_outside p m) s v promised =
      let (u, e, safe) = step-Safe (write_from_outside p m) (whole s) v.safe promised in
      unfold writer_write in unfold rpc_write in outside-Runs s v.separate v.serve u safe p _ e
  take_step-Runs (writes_done_from_outside p) s v promised =
      let (u, e, safe) = step-Safe (writes_done_from_outside p) (whole s) v.safe promised in
      unfold writer_writes_done in
      unfold rpc_finish in outside-Runs s v.separate v.serve u safe p _ e
  take_step-Runs (finish_from_outside p t) s v promised =
      let (u, e, safe) = step-Safe (finish_from_outside p t) (whole s) v.safe promised in
      unfold writer_finish in unfold rpc_finish in outside-Runs s v.separate v.serve u safe p _ e

  -- From a safe state of a server with any number of services, any schedule of messages, completions, turns of
  -- the event loops in any order, and calls of Writers runs to its end, if gRPC completes a request
  -- for an invocation with `ok`, and DONE of an Rpc only when no such request of it is outstanding,
  -- and a Writer that is used belongs to an Rpc of some service that is connected or gone: no step
  -- follows a pointer to an Rpc that was destroyed or a null pointer, or fails a CHECK. The state at
  -- the end is safe again: all services still serve, no two share an Rpc's address, and their Rpcs,
  -- taken together, account for all tags that are at gRPC and in the queues.
  pub take_steps-Safe :
      (steps : List (Step api)) (s : Running api)
      → SafeRunning s
      → AllPromised steps s
      → (s' : Running api) × (take_steps steps s ≡ ok s') × SafeRunning s'
  unfolding take_steps
  take_steps-Safe [] s v promised = (s, refl, v)
  take_steps-Safe (step ∷ steps) s v promised =
      let (s1, e1, v1) = take_step-Runs step s v promised.0 in
      let (s2, e2, v2) = take_steps-Safe steps s1 v1 (promised.1 s1 e1) in (s2, rw e1 e2, v2)
