-- ===== src/Server/Steps.antt =====
-- async_grpc/server.cc: a running server as a sequence of steps. Each step is one turn of a loop: of
-- RunCompletionQueue (gRPC completes one of the calls made of it), of RunEventQueue (an event thread
-- pops an event and handles it), or a call of a Writer's member that a handler gave to other code. A
-- whole turn is one step. gRPC's write of a message into an Rpc is a step as well. The calls of the World are those that gRPC has not completed.
pub mod Taking
pub mod Ordering
pub mod Arriving
pub mod Leaving
pub mod Completing
pub mod Handling
pub mod Dispatching
pub mod Fronts
pub mod Safety
use async_flatbuffer_grpc.Prelude.{
  ℕ, zero, suc, ◌≡◌, Bool, true, false, Option, none, some, List, [], ◌∷◌, Result, ok, ◌>>=◌, find,
  get_elem?, set, if◌then◌else◌,
}
use async_flatbuffer_grpc.Api.{
  Api, Event, new_connection, done, GrpcCall, GrpcOp, request_async_unary,
  request_async_server_streaming, read_op,
}
use async_flatbuffer_grpc.Common.BlockingQueue.{BlockingQueue}
use async_flatbuffer_grpc.Common.BlockingQueue
use async_flatbuffer_grpc.Rpc.{Rpc}
use async_flatbuffer_grpc.Runtime.{
  World, QueuedEvent, completion_queue_event, internal_event, writer_write, writer_writes_done,
  writer_finish, load, store,
}
use async_flatbuffer_grpc.Service.Tags.{count_calls}
use async_flatbuffer_grpc.Service.{complete_event, handle_queued_event}

module _ (api : Api) where
  pub data Step : Type 0 where
    -- gRPC writes the message of the n-th outstanding call into `request_`, before it completes it.
    message : ℕ → api.Request → Step
    -- The n-th outstanding call completes.
    completion : ℕ → Bool → Step
    -- The thread of the i-th event queue.
    event_loop : ℕ → Step
    write_from_outside : ℕ → api.Response → Step
    writes_done_from_outside : ℕ → Step
    finish_from_outside : ℕ → api.Status → Step

-- The list without its n-th element.
abbrev pub drop_at {ℓ} : {A : Type ℓ} → ℕ → List A → List A
drop_at n [] = []
drop_at zero (x ∷ xs) = xs
drop_at (suc n) (x ∷ xs) = x ∷ drop_at n xs

module _ {api : Api} where
  -- The calls that are given the address of `request_`.
  abbrev pub has_request : GrpcOp api → Bool
  has_request (request_async_unary m) = true
  has_request (request_async_server_streaming m) = true
  has_request read_op = true
  has_request _ = false

  unfoldable pub receive_request : ℕ → api.Request → World api → Result (World api)
  receive_request p m w = do r ← load p w; ok (store p (record r { request = m }) w)

  unfoldable pub run_message :
      Option (ℕ × GrpcCall api) → api.Request → World api → Result (World api)
  run_message none m w = ok w
  run_message (some (p, c)) m w = if has_request c.op then receive_request p m w else ok w

  -- The body of the loop of RunCompletionQueue. A message came by steps before.
  unfoldable pub run_completion_queue :
      Option (ℕ × GrpcCall api) → ℕ → Bool → World api → Result (World api)
  run_completion_queue none n ok' w = ok w
  run_completion_queue (some (p, c)) n ok' w =
      complete_event p c.tag ok' (record w { calls = drop_at n w.calls })

  -- `if (rpc_event) { rpc_event->Handle(); }`
  unfoldable pub handle_popped : Option QueuedEvent → World api → Result (World api)
  handle_popped none w = ok w
  handle_popped (some x) w = handle_queued_event x w

  -- The body of the loops of RunEventQueue, for the i-th event queue.
  unfoldable pub run_event_queue :
      Option (BlockingQueue QueuedEvent) → ℕ → World api → Result (World api)
  run_event_queue none i w = ok w
  run_event_queue (some q) i w =
      let popped = BlockingQueue.pop_with_timeout q in
      handle_popped popped.0 (record w { event_queues = set w.event_queues i popped.1 })

  unfoldable pub ignore_result : Result (World api × Bool) → Result (World api)
  ignore_result m = do r ← m; ok r.0

  unfoldable pub run_step : Step api → World api → Result (World api)
  run_step (message n m) w = run_message (get_elem? w.calls n) m w
  run_step (completion n ok') w = run_completion_queue (get_elem? w.calls n) n ok' w
  run_step (event_loop i) w = run_event_queue (get_elem? w.event_queues i) i w
  run_step (write_from_outside p m) w = ignore_result (writer_write p m w)
  run_step (writes_done_from_outside p) w = ignore_result (writer_writes_done p w)
  run_step (finish_from_outside p s) w = ignore_result (writer_finish p s w)

  unfoldable pub run_steps : List (Step api) → World api → Result (World api)
  run_steps [] w = ok w
  run_steps (s ∷ ss) w = run_step s w >>= run_steps ss

  -- What gRPC promises of a call that it completes, while the server runs: a request for a method
  -- invocation completes with `ok`, and AsyncNotifyWhenDone completes only for a call that started,
  -- after the request did.
  abbrev pub CallPromised : Event → ℕ → Bool → World api → Type 0
  CallPromised new_connection p ok' w = ok' ≡ true
  CallPromised done p ok' w = count_calls p new_connection w.calls ≡ 0
  CallPromised _ p ok' w = Unit {0}

  abbrev pub CompletionPromised : Option (ℕ × GrpcCall api) → Bool → World api → Type 0
  CompletionPromised none ok' w = Unit {0}
  CompletionPromised (some (p, c)) ok' w = CallPromised c.tag p ok' w

  -- A Writer comes from a handler, so its Rpc, if it is still there, has one.
  abbrev pub ConnectedIfAlive : Option (Rpc api) → Type 0
  ConnectedIfAlive none = Unit {0}
  ConnectedIfAlive (some r) = r.new_connection_event.pending ≡ false

  -- The steps that the surroundings can take.
  abbrev pub Promised : Step api → World api → Type 0
  Promised (message n m) w = Unit {0}
  Promised (completion n ok') w = CompletionPromised (get_elem? w.calls n) ok' w
  Promised (event_loop i) w = Unit {0}
  Promised (write_from_outside p m) w = ConnectedIfAlive (find p w.active_rpcs)
  Promised (writes_done_from_outside p) w = ConnectedIfAlive (find p w.active_rpcs)
  Promised (finish_from_outside p s) w = ConnectedIfAlive (find p w.active_rpcs)

  -- A schedule each step of which the surroundings can take where it comes.
  abbrev pub PromisedAll : List (Step api) → World api → Type 0
  PromisedAll [] w = Unit {0}
  PromisedAll (s ∷ ss) w =
      Promised s w × ((w' : World api) → run_step s w ≡ ok w' → PromisedAll ss w')
