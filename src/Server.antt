-- ===== src/Server.antt =====
-- async_grpc/server.cc and server.h: the names of methods, the builder of a server, and the loops of
-- a running server. Tracing is compiled out (BUILD_TRACING is 0).
pub mod MethodName
pub mod Builder
pub mod Thread
pub mod EventQueueThread
pub mod CompletionQueueThread
pub mod Steps
pub mod EventOwnership
pub mod Lifecycle
pub mod Draining
pub mod Services
