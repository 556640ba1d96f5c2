-- ===== src/Server/Services.antt =====
-- async_grpc/server.cc, events.cc: a running server with any number of services, which share its event
-- queues, its context and gRPC. An event goes to the service of its Rpc. The steps are those of
-- Server/Steps.
pub mod Sharing
pub mod Members
pub mod Events
pub mod Whole
pub mod Safety
pub mod Started
pub mod Draining
use async_flatbuffer_grpc.Prelude.{
  ℕ, ◌≡◌, Bool, true, false, Option, none, some, List, [], ◌∷◌, ◌++◌, Result, ok, fault, dangling,
  ◌>>=◌, is_some, find, get_elem?, set, if◌then◌else◌,
}
use async_flatbuffer_grpc.Api.{Api, write_needed, GrpcCall}
use async_flatbuffer_grpc.Common.BlockingQueue.{BlockingQueue}
use async_flatbuffer_grpc.Common.BlockingQueue
use async_flatbuffer_grpc.Rpc.{Rpc}
use async_flatbuffer_grpc.Runtime.{
  World, QueuedEvent, completion_queue_event, internal_event, rpc_write, rpc_finish,
}
use async_flatbuffer_grpc.Service.{complete_event, handle_completion_queue_event, handle_event}
use async_flatbuffer_grpc.Server.Steps.{
  Step, message, has_request, receive_request, completion, event_loop, write_from_outside,
  writes_done_from_outside, finish_from_outside, drop_at, Promised,
}
use async_flatbuffer_grpc.Server.Lifecycle.{Server, Service, shared, enter, leave}

-- The services by their names, and what they share. The World's own Rpcs and flag are those of the
-- service that entered last.
pub record Running (api : Api) : Type 0 where
  pub services : List (List ℕ × Service api)
  pub world : World api

module _ {api : Api} where
  -- The Rpcs of all services.
  abbrev pub all_rpcs : List (List ℕ × Service api) → List (ℕ × Rpc api)
  all_rpcs [] = []
  all_rpcs ((name, v) ∷ vs) = v.active_rpcs ++ all_rpcs vs

  -- The running server that the members of `Server` make up.
  abbrev pub running : ℕ → Server api → Running api
  running num_event_threads s = record { services = s.services; world = shared num_event_threads s }

  -- A call of a member of the service that the Rpc points to. An Rpc that no service has was
  -- destroyed.
  unfoldable pub at_service :
      ℕ
      → (World api → Result (World api))
      → List (List ℕ × Service api)
      → World api
      → Result (Running api)
  at_service p member [] w = fault dangling
  at_service p member ((name, v) ∷ vs) w =
      let later = at_service p member vs w in
      if is_some (find p v.active_rpcs)
      then (do
        w1 ← member (enter v w)
        ok (record { services = (name, leave v w1) ∷ vs; world = w1 }))
      else (do r ← later; ok (record { services = (name, v) ∷ r.services; world = r.world }))

  -- The same through a weak pointer to the Rpc.
  unfoldable pub at_service_if_alive :
      Option (Rpc api) → ℕ → (World api → Result (World api)) → Running api → Result (Running api)
  at_service_if_alive none p member s = ok s
  at_service_if_alive (some r) p member s = at_service p member s.services s.world

  -- gRPC's write of the message of a call.
  unfoldable pub receive_message :
      Option (ℕ × GrpcCall api) → api.Request → Running api → Result (Running api)
  receive_message none m s = ok s
  receive_message (some (p, c)) m s =
      let received = at_service p (receive_request p m) s.services s.world in
      if has_request c.op then received else ok s

  -- The body of the loop of RunCompletionQueue.
  unfoldable pub complete_call :
      Option (ℕ × GrpcCall api) → ℕ → Bool → Running api → Result (Running api)
  complete_call none n ok' s = ok s
  complete_call (some (p, c)) n ok' s =
      at_service p (complete_event p c.tag ok') s.services
        (record s.world { calls = drop_at n s.world.calls })

  -- `if (rpc_event) { rpc_event->Handle(); }`
  unfoldable pub dispatch : Option QueuedEvent → Running api → Result (Running api)
  dispatch none s = ok s
  dispatch (some (completion_queue_event p e)) s =
      at_service p (handle_completion_queue_event p e) s.services s.world
  dispatch (some (internal_event p)) s =
      at_service_if_alive (find p (all_rpcs s.services)) p (handle_event write_needed p true) s

  -- The body of the first loop of RunEventQueue.
  unfoldable pub run_queue_once :
      Option (BlockingQueue QueuedEvent) → ℕ → Running api → Result (Running api)
  run_queue_once none i s = ok s
  run_queue_once (some q) i s =
      let popped = BlockingQueue.pop_with_timeout q in
      dispatch popped.0
        (record s { world = record s.world { event_queues = set s.world.event_queues i popped.1 } })

  unfoldable pub take_step : Step api → Running api → Result (Running api)
  take_step (message n m) s = receive_message (get_elem? s.world.calls n) m s
  take_step (completion n ok') s = complete_call (get_elem? s.world.calls n) n ok' s
  take_step (event_loop i) s = run_queue_once (get_elem? s.world.event_queues i) i s
  take_step (write_from_outside p m) s =
      at_service_if_alive (find p (all_rpcs s.services)) p (rpc_write p m) s
  take_step (writes_done_from_outside p) s =
      at_service_if_alive (find p (all_rpcs s.services)) p (rpc_finish p api.ok_status) s
  take_step (finish_from_outside p status) s =
      at_service_if_alive (find p (all_rpcs s.services)) p (rpc_finish p status) s

  unfoldable pub take_steps : List (Step api) → Running api → Result (Running api)
  take_steps [] s = ok s
  take_steps (step ∷ steps) s = take_step step s >>= take_steps steps

  -- The state as if the server had one service, with all Rpcs.
  abbrev pub whole : Running api → World api
  whole s = record s.world { active_rpcs = all_rpcs s.services; shutting_down = false }

  -- A schedule each step of which the surroundings can take where it comes.
  abbrev pub AllPromised : List (Step api) → Running api → Type 0
  AllPromised [] s = Unit {0}
  AllPromised (step ∷ steps) s =
      Promised step (whole s)
      × ((s' : Running api) → take_step step s ≡ ok s' → AllPromised steps s')
