-- ===== src/Lib.antt =====
-- async_grpc: an asynchronous server, handlers and clients over gRPC with flatbuffers messages.
--
-- The program. A server (async_grpc/server.cc) owns services (service.cc), the threads of gRPC's
-- completion queues and the threads of its event queues. A service keeps its Rpcs in ActiveRpcs
-- (rpc.h). Each Rpc has five events whose addresses are the tags of what it asks of gRPC; when gRPC
-- completes one, the completion queue's thread pushes it to an event queue, and that queue's thread
-- handles it: the service calls members of the Rpc, these call the user's handler, and the handler
-- sends messages, which wait in the Rpc's send queue for the one write that may be outstanding.
-- Clients (client.h, async_client.h) call gRPC, with retries (retry.cc), or a callback.
--
-- Where what is:
--   Common/Mutex           async_grpc/common/mutex.h
--   Common/BlockingQueue   async_grpc/common/blocking_queue.h; with its mutex in Locking
--   Common/Optional        common/optional.h
--   ExecutionContext       execution_context.h; GetContext of server.h and rpc_handler.h
--   Api                    rpc_interface.h, events.h, rpc_handler_info.h; gRPC as a parameter
--   Rpc                    rpc.h, class Rpc: members that touch the Rpc alone
--   Runtime                rpc.h, ActiveRpcs and members that push events or run the handler;
--                          rpc_handler.h
--   Service                service.cc and the dispatch of events.cc
--   Server                 server.cc, server.h: method names, the Builder's options and handlers, and
--                          the loops as steps of a running server
--   Server/Thread, Server/EventQueueThread, Server/CompletionQueueThread
--                          event_queue_thread.cc, completion_queue_thread.cc
--   Server/Lifecycle       server.cc: Build, Start, WaitForShutdown, Shutdown, SetExecutionContext and
--                          the destructor, of a server with any number of services
--   Server/Draining        server.cc: the second loop of RunEventQueue, after the shutdown began
--   Server/Services        server.cc, events.cc: the loops of a running server with any number of
--                          services; its second loop, also after they stopped, in
--                          Services/Draining
--   Server/EventOwnership  rpc_interface.h (EventDeleter), events.cc: who deletes an event
--   Common/Time            common/time.cc
--   Retry                  retry.cc
--   Client, AsyncClient    client.h, async_client.h
--   CompletionQueuePool    completion_queue_pool.cc; its loop over events is in AsyncClient/Dispatching
--   TypeTraits             type_traits.h, rpc_service_method_traits.h
--   Tests                  sample services and clients
--
-- How the code is modelled. State is a record and a member that changes it returns the new record.
-- What makes the code abort or leaves it undefined is a Fault: a failed CHECK, LOG(FATAL), a null
-- pointer, a pointer to an Rpc that ActiveRpcs has destroyed. A pointer to an Rpc is its address, a
-- number; addresses are not used again. A handler, a message and a status are arbitrary: handlers
-- are any functions from the context, their state and the request to a new context and state and
-- the calls of Send and Finish, in order. Asking gRPC for something adds to a log of calls. In a
-- running server a step takes a call out of the log and completes it with `ok` or not; the message
-- of a request or a read is a step before, in which gRPC writes any message into the Rpc's
-- `request_`. A client's response comes with the event of its READ. Threads interleave by whole
-- turns of their loops; HandleSendQueue, which lets go of its mutex halfway, is in Rpc/Overlap as
-- its two halves. What a lock makes of smaller steps is in Common/Mutex: there each access to the
-- guarded state is a step of its thread, and std::mutex and std::condition_variable are as
-- documented, with wake-ups for no reason.
--
-- Fuel and bounds. RetryWithStrategy runs on fuel, one unit for each call of the operation; with a
-- limited strategy one more than its bound is enough. The second loop of RunEventQueue runs on fuel,
-- and some fuel is enough from any state. Every other loop is a recursion on a list.
-- Counters are natural numbers: an `int` count of attempts, or of event threads, would have to pass
-- 2^31 to differ.
--
-- What a running server's schedule is taken to promise: gRPC completes the request for a method
-- invocation with `ok` as long as the service runs, and it completes DONE only once that Rpc's request
-- is completed; a Writer is used after its Rpc was connected. That NEW_CONNECTION is then handled
-- before DONE is proved, from the order of the event queues. A schedule has no StopServing in it:
-- what HandleNewConnection does while the service shuts down is in Service/Lifetimes.
--
-- Services of one server share its event queues, its context and gRPC: Server/Lifecycle keeps that
-- shared part as a World and lets each service enter it with its own Rpcs. Server/Steps is the running
-- server as one service; Server/Services gives each event to the service of its Rpc, and takes over
-- what holds of one service with the Rpcs of all. BuildAndStart is taken to return a server, and a
-- thread that is joined to end.
--
-- Not modelled: what threads do to each other between StopServing and the end of Shutdown, but for
-- HandleNewConnection, and the loop that drains a queue, which runs alone; threads that interleave
-- inside a turn of the event loops, but for HandleSendQueue; tracing, which is compiled out;
-- durations in seconds, which are doubles; make_unique and the names of integer types
-- (common/make_unique.h, port.h), which are the standard library's; tests and test support.
mod Prelude
pub mod Common
pub mod ExecutionContext
pub mod Api
pub mod Rpc
pub mod Runtime
pub mod Service
pub mod Server
pub mod Retry
pub mod Client
pub mod AsyncClient
pub mod CompletionQueuePool
pub mod TypeTraits
pub mod Tests
