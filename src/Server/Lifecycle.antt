-- ===== src/Server/Lifecycle.antt =====
-- async_grpc/server.cc, server.h and the constructor of Service (service.cc): a server with all of its
-- services and threads, from Build to its destruction. What the services share while one of them
-- serves (the event queues, the context, the Rpcs' addresses, the calls made of gRPC) is a World, into
-- which a service enters with its own Rpcs and flag.
pub mod Serving
pub mod Phases
pub mod ThreadLists
pub mod Starting
pub mod Stopping
pub mod Operations
pub mod Building
pub mod Running
pub mod Destruction
use Prim.Native.String.{String}
use async_flatbuffer_grpc.Prelude.{
  ℕ, zero, suc, Bool, true, false, not, Option, none, some, List, [], ◌∷◌, ◌++◌, map, Result, ok,
  fault, fatal, uninitialized, null_pointer, would_block, check, or_fault, ◌>>=◌, ◌>>◌, is_some,
  replicate, for_each,
}
use async_flatbuffer_grpc.Api.{Api, RpcHandlerInfo, RpcType, GrpcCall}
use async_flatbuffer_grpc.Common.BlockingQueue.{BlockingQueue}
use async_flatbuffer_grpc.Rpc.{Rpc}
use async_flatbuffer_grpc.Runtime.{World, QueuedEvent, destroy_active_rpcs}
use async_flatbuffer_grpc.Service.{rpc_service_method, start_serving}
use async_flatbuffer_grpc.Server.Builder.{Options, Builder, look_up, emplace}
use async_flatbuffer_grpc.Server.Thread.{Thread, running, joined}
use async_flatbuffer_grpc.Server.EventQueueThread.{EventQueueThread, new_event_queue_thread}
use async_flatbuffer_grpc.Server.EventQueueThread
use async_flatbuffer_grpc.Server.CompletionQueueThread.{
  CompletionQueueThread, new_completion_queue_thread,
}
use async_flatbuffer_grpc.Server.CompletionQueueThread

module _ (api : Api) where
  -- `methods` is what gRPC was given by AddMethod, in order.
  pub record Service : Type 0 where
    pub rpc_handler_infos : List (List ℕ × RpcHandlerInfo api)
    pub methods : List (String × RpcType)
    pub active_rpcs : List (ℕ × Rpc api)
    pub shutting_down : Bool

  -- `server` is the pointer to gRPC's server: none is null, and the Boolean says whether it was shut
  -- down. `registered` is what `server_builder_` was given by RegisterService.
  pub record Server : Type 0 where
    pub options : Options
    pub shutting_down : Bool
    pub registered : List (List ℕ)
    pub server : Option Bool
    pub completion_queue_threads : List CompletionQueueThread
    pub event_queue_threads : List EventQueueThread
    pub current_event_queue_id : ℕ
    pub services : List (List ℕ × Service)
    pub execution_context : api.Context
    pub next_address : ℕ
    pub calls : List (ℕ × GrpcCall api)

-- A new completion queue for each number from the first on.
abbrev pub add_completion_queues : ℕ → ℕ → List CompletionQueueThread
add_completion_queues i zero = []
add_completion_queues i (suc n) = new_completion_queue_thread i ∷ add_completion_queues (suc i) n

abbrev pub queues_of : List EventQueueThread → List (BlockingQueue QueuedEvent)
queues_of ts = map (λ t. t.event_queue) ts

abbrev pub put_queues :
    List (BlockingQueue QueuedEvent) → List EventQueueThread → List EventQueueThread
put_queues [] ts = ts
put_queues qs [] = []
put_queues (q ∷ qs) (t ∷ ts) = record t { event_queue = q } ∷ put_queues qs ts

module _ {api : Api} where
  -- Service::Service
  unfoldable pub new_service : List (List ℕ × RpcHandlerInfo api) → Service api
  new_service infos = record {
    rpc_handler_infos = infos;
    methods = map rpc_service_method (map (λ e. e.1) infos);
    active_rpcs = [];
    shutting_down = false;
  }

  -- The members as the constructor of Server initializes them, with so many threads of either kind.
  abbrev pub empty_server : api.Context → Options → ℕ → ℕ → Server api
  empty_server context options num_event_threads num_grpc_threads = record {
    options = options;
    shutting_down = false;
    registered = [];
    server = none;
    completion_queue_threads = add_completion_queues 0 num_grpc_threads;
    event_queue_threads = replicate num_event_threads new_event_queue_thread;
    current_event_queue_id = 0;
    services = [];
    execution_context = context;
    next_address = 0;
    calls = [];
  }

  -- Server::Server. The context is the null pointer that is there before one is set.
  unfoldable pub new_server : api.Context → Options → Result (Server api)
  new_server null_context options = do
    num_event_threads ← or_fault options.num_event_threads uninitialized
    num_grpc_threads ← or_fault options.num_grpc_threads uninitialized
    ok (empty_server null_context options num_event_threads num_grpc_threads)

  unfoldable pub add_service :
      List ℕ → List (List ℕ × RpcHandlerInfo api) → Server api → Result (Server api)
  add_service name infos s = do
    let services = emplace name (new_service infos) s.services
    check (not (is_some (look_up name s.services)))
    ok (record s { services = services; registered = s.registered ++ name ∷ [] })

  -- The loop of Build.
  unfoldable pub add_services :
      List (List ℕ × List (List ℕ × RpcHandlerInfo api)) → Server api → Result (Server api)
  add_services [] s = ok s
  add_services ((name, infos) ∷ rest) s = add_service name infos s >>= add_services rest

  unfoldable pub build : api.Context → Builder (RpcHandlerInfo api) → Result (Server api)
  build null_context b = do s ← new_server null_context b.options; add_services b.rpc_handlers s

  -- What the services of the server share.
  abbrev pub shared : ℕ → Server api → World api
  shared num_event_threads s = record {
    active_rpcs = [];
    shutting_down = false;
    event_queues = queues_of s.event_queue_threads;
    num_event_threads = num_event_threads;
    current_event_queue_id = s.current_event_queue_id;
    context = s.execution_context;
    next_address = s.next_address;
    calls = s.calls;
  }

  abbrev pub enter : Service api → World api → World api
  enter v w = record w { active_rpcs = v.active_rpcs; shutting_down = v.shutting_down }

  abbrev pub leave : Service api → World api → Service api
  leave v w = record v { active_rpcs = w.active_rpcs; shutting_down = w.shutting_down }

  -- The loop of Start over the services.
  unfoldable pub serve_services :
      List ℕ
      → List (List ℕ × Service api)
      → World api
      → Result (List (List ℕ × Service api) × World api)
  serve_services completion_queues [] w = ok ([], w)
  serve_services completion_queues ((name, v) ∷ rest) w = do
    w1 ← start_serving (map (λ e. e.1) v.rpc_handler_infos) completion_queues (enter v w)
    more ← serve_services completion_queues rest w1
    ok ((name, leave v w1) ∷ more.0, more.1)

  -- BuildAndStart is taken to return a server.
  unfoldable pub start : Server api → Result (Server api)
  start s = do
    n ← or_fault s.options.num_event_threads uninitialized
    served ←
        serve_services (map (λ t. t.completion_queue) s.completion_queue_threads) s.services
          (shared n s)
    let w = served.1
    event_queue_threads ←
        for_each EventQueueThread.start (put_queues w.event_queues s.event_queue_threads)
    completion_queue_threads ← for_each CompletionQueueThread.start s.completion_queue_threads
    ok (record s {
      server = some false;
      services = served.0;
      event_queue_threads = event_queue_threads;
      completion_queue_threads = completion_queue_threads;
      current_event_queue_id = w.current_event_queue_id;
      execution_context = w.context;
      next_address = w.next_address;
      calls = w.calls;
    })

  -- gRPC's Wait returns once the server was shut down.
  unfoldable pub wait_for_shutdown : Server api → Result (Unit {0})
  wait_for_shutdown s = elim s.server [
    | none ↦ ok tt
    | some true ↦ ok tt
    | some false ↦ fault would_block
  ]

  abbrev pub stop_service : Service api → Service api
  stop_service v = record v { shutting_down = true }

  unfoldable pub shutdown : Server api → Result (Server api)
  shutdown s = do
    let services = map (λ e. (e.0, stop_service e.1)) s.services
    _ ← or_fault s.server null_pointer
    completion_queue_threads ← for_each CompletionQueueThread.shutdown s.completion_queue_threads
    event_queue_threads ← for_each EventQueueThread.shutdown s.event_queue_threads
    ok (record s {
      shutting_down = true;
      server = some true;
      services = services;
      completion_queue_threads = completion_queue_threads;
      event_queue_threads = event_queue_threads;
    })

  unfoldable pub set_execution_context : api.Context → Server api → Result (Server api)
  set_execution_context context s = do
    check (not (is_some s.server))
    ok (record s { execution_context = context })
