-- ===== src/Server/Lifecycle/Operations.antt =====
-- async_grpc/server.cc: Start, Shutdown, WaitForShutdown and SetExecutionContext in each phase of a
-- server's life.
use async_flatbuffer_grpc.Api.{Api}
use async_flatbuffer_grpc.Server.Lifecycle.{
  Server, Service, queues_of, put_queues, shared, serve_services, stop_service,
}
use async_flatbuffer_grpc.Server.Lifecycle
