-- ===== src/Server/Lifecycle/Phases.antt =====
-- async_grpc/server.cc: the phases of a server's life, and which of Start, Shutdown, WaitForShutdown
-- and SetExecutionContext leads from which to which.
use async_flatbuffer_grpc.Prelude.{
  zero, suc, ℕ, ◌≡◌, true, false, Option, none, some, List, [], ◌∷◌, map, Result, ok, fault, Fault,
  ◌>>=◌, ◌>>◌, replicate, length, All,
}
use async_flatbuffer_grpc.Api.{Api, RpcHandlerInfo}
use async_flatbuffer_grpc.Server.Thread.{running, joined}
use async_flatbuffer_grpc.Server.EventQueueThread.{new_event_queue_thread}
use async_flatbuffer_grpc.Server.EventQueueThread
use async_flatbuffer_grpc.Server.CompletionQueueThread
use async_flatbuffer_grpc.Server.Lifecycle.{Server}
use async_flatbuffer_grpc.Server.Lifecycle
use async_flatbuffer_grpc.Server.Lifecycle.Serving.{IsNew, Serves, Apart, handlers}

pub data LifePhase : Type 0 where
  built serving stopped : LifePhase

pub data Operation (api : Api) : Type 0 where
  start_op : Operation api
  shutdown_op : Operation api
  wait_op : Operation api
  set_context_op : api.Context → Operation api

abbrev pub next_of : Option LifePhase → (LifePhase → Option LifePhase) → Option LifePhase
next_of none f = none
next_of (some ph) f = f ph

module _ {api : Api} where
  -- What is promised: a server is started once and then shut down once; the context is set before it
  -- is started; a thread that waits goes on before the start or after the shutdown.
  abbrev pub next_phase : Operation api → LifePhase → Option LifePhase
  next_phase start_op built = some serving
  next_phase shutdown_op serving = some stopped
  next_phase wait_op built = some built
  next_phase wait_op stopped = some stopped
  next_phase (set_context_op c) built = some built
  next_phase _ _ = none

  abbrev pub last_phase : List (Operation api) → LifePhase → Option LifePhase
  last_phase [] ph = some ph
  last_phase (o ∷ os) ph = next_of (next_phase o ph) (last_phase os)

  unfoldable pub run_operation : Operation api → Server api → Result (Server api)
  run_operation start_op s = Lifecycle.start s
  run_operation shutdown_op s = Lifecycle.shutdown s
  run_operation wait_op s = Lifecycle.wait_for_shutdown s >> ok s
  run_operation (set_context_op c) s = Lifecycle.set_execution_context c s

  unfoldable pub run_operations : List (Operation api) → Server api → Result (Server api)
  run_operations [] s = ok s
  run_operations (o ∷ os) s = run_operation o s >>= run_operations os

-- The completion queues that the constructor of Server asked gRPC for, by number.
abbrev pub queue_numbers : ℕ → ℕ → List ℕ
queue_numbers i zero = []
queue_numbers i (suc k) = i ∷ queue_numbers (suc i) k

-- The names of the services with their handlers.
abbrev pub Handlers : Api → Type 0
Handlers api = List (List ℕ × List (List ℕ × RpcHandlerInfo api))

module _ {api : Api} (hs : Handlers api) (n k : ℕ) where
  -- A server with n event threads, k completion queues and the handlers `hs`, before Start.
  pub record Built (s : Server api) : Type 0 where
    pub options : s.options.num_event_threads ≡ some n
    pub event_threads : s.event_queue_threads ≡ replicate n new_event_queue_thread
    pub completion_threads :
        All (CompletionQueueThread.IsThread none false) s.completion_queue_threads
    pub completion_count : length s.completion_queue_threads ≡ k
    pub completion_queues :
        map (λ t. t.completion_queue) s.completion_queue_threads ≡ queue_numbers 0 k
    pub server : s.server ≡ none
    pub calls : s.calls ≡ []
    pub going_on : s.shutting_down ≡ false
    pub services : All (λ e. IsNew e.1) s.services
    pub same_handlers : map handlers s.services ≡ hs

  -- Every thread runs, every service serves on the completion queues, and no Rpc of one service has
  -- the address of an Rpc of another.
  pub record Serving (s : Server api) : Type 0 where
    pub options : s.options.num_event_threads ≡ some n
    pub event_threads : All (EventQueueThread.IsThread (some running)) s.event_queue_threads
    pub event_count : length s.event_queue_threads ≡ n
    pub completion_threads :
        All (CompletionQueueThread.IsThread (some running) false) s.completion_queue_threads
    pub completion_count : length s.completion_queue_threads ≡ k
    pub server : s.server ≡ some false
    pub going_on : s.shutting_down ≡ false
    pub services : All (λ e. Serves (queue_numbers 0 k) n e.1) s.services
    pub apart : Apart s.services
    pub same_handlers : map handlers s.services ≡ hs

  -- Every thread was joined, every completion queue was shut down, and no service serves.
  pub record Stopped (s : Server api) : Type 0 where
    pub options : s.options.num_event_threads ≡ some n
    pub event_threads : All (EventQueueThread.IsThread (some joined)) s.event_queue_threads
    pub event_count : length s.event_queue_threads ≡ n
    pub completion_threads :
        All (CompletionQueueThread.IsThread (some joined) true) s.completion_queue_threads
    pub completion_count : length s.completion_queue_threads ≡ k
    pub server : s.server ≡ some true
    pub shut_down : s.shutting_down ≡ true
    pub services : All (λ e. e.1.shutting_down ≡ true) s.services
    pub same_handlers : map handlers s.services ≡ hs

  abbrev pub InPhase : LifePhase → Server api → Type 0
  InPhase built s = Built s
  InPhase serving s = Serving s
  InPhase stopped s = Stopped s

  -- The code does what the phases promise, and stops with a fault where they promise nothing.
  abbrev pub Agrees : Option LifePhase → Result (Server api) → Type 0
  Agrees none m = (why : Fault) × (m ≡ fault why)
  Agrees (some ph) m = (s : Server api) × (m ≡ ok s) × InPhase ph s
