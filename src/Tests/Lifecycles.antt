-- ===== src/Tests/Lifecycles.antt =====
-- A server with two services, built, started, waited for and shut down.
use async_flatbuffer_grpc.Prelude.{ℕ, ◌≡◌, refl, some, List, [], ◌∷◌, ok}
use async_flatbuffer_grpc.Api.{RpcHandlerInfo, normal_rpc, server_streaming}
use async_flatbuffer_grpc.Server.Builder.{
  Options, default_options, Builder, register_handler, register, emplace, look_up, insert,
  overwrite,
}
use async_flatbuffer_grpc.Server.MethodName.{parse_method_full_name, getline}
use async_flatbuffer_grpc.Server.Builder.Keys.{register_handlers}
use async_flatbuffer_grpc.Server.Lifecycle.{Server, Service, build, empty_server, new_service}
use async_flatbuffer_grpc.Server.Lifecycle.Phases.{
  Handlers, Built, built, Operation, start_op, shutdown_op, wait_op, set_context_op,
}
use async_flatbuffer_grpc.Server.Lifecycle.Building.{
  new_completion_threads, new_completion_queues, new_services-IsNew, build-Built,
}
use async_flatbuffer_grpc.Server.Lifecycle.Destruction.{destroy, destroy_lem}
use async_flatbuffer_grpc.Tests.Samples.{numbers, echo_info}

-- "/b/X", "/a/Y" and "/b/W", registered in this order.
abbrev calls : List (List ℕ × RpcHandlerInfo numbers)
calls =
    (b'/' ∷ b'b' ∷ b'/' ∷ b'X' ∷ [], echo_info normal_rpc)
    ∷ (b'/' ∷ b'a' ∷ b'/' ∷ b'Y' ∷ [], echo_info server_streaming)
    ∷ (b'/' ∷ b'b' ∷ b'/' ∷ b'W' ∷ [], echo_info normal_rpc)
    ∷ []

abbrev options : Options
options = record default_options { num_grpc_threads = some 2; num_event_threads = some 3 }

abbrev builder :
    List (List ℕ × List (List ℕ × RpcHandlerInfo numbers)) → Builder (RpcHandlerInfo numbers)
builder m = record { options = options; rpc_handlers = m }

abbrev pub two_services : Handlers numbers
two_services =
    (b'a' ∷ [], (b'Y' ∷ [], echo_info server_streaming) ∷ [])
    ∷ (b'b' ∷ [], (b'W' ∷ [], echo_info normal_rpc) ∷ (b'X' ∷ [], echo_info normal_rpc) ∷ [])
    ∷ []

registered_calls : register_handlers calls (builder []) ≡ ok (builder two_services)
unfolding register_handlers register_handler parse_method_full_name getline register emplace look_up
    insert overwrite
registered_calls = refl

build-Built_example :
    (s : Server numbers) × (build 0 (builder two_services) ≡ ok s)
    × Built two_services 3 2 s
    × (s.registered ≡ (b'a' ∷ []) ∷ (b'b' ∷ []) ∷ [])
    × (s.options ≡ options)
build-Built_example =
    build-Built 0 3 2 calls (builder []) (builder two_services) refl refl refl registered_calls

abbrev y_service : Service numbers
y_service = new_service ((b'Y' ∷ [], echo_info server_streaming) ∷ [])

abbrev server : List (List ℕ × Service numbers) → Server numbers
server vs = record (empty_server 0 options 3 2) { services = vs }

abbrev pub two : Server numbers
two = server (
    (b'a' ∷ [], y_service)
    ∷ (
      b'b' ∷ [],
      new_service ((b'W' ∷ [], echo_info normal_rpc) ∷ (b'X' ∷ [], echo_info normal_rpc) ∷ []),
    )
    ∷ [])

pub two-Built : Built two_services 3 2 two
unfolding new_service
two-Built = record {
  options = refl;
  event_threads = refl;
  completion_threads = (new_completion_threads 0 2).0;
  completion_count = refl;
  completion_queues = new_completion_queues 0 2;
  server = refl;
  calls = refl;
  going_on = refl;
  services = new_services-IsNew two_services;
  same_handlers = refl;
}

abbrev operations : List (Operation numbers)
operations = set_context_op 5 ∷ wait_op ∷ start_op ∷ shutdown_op ∷ wait_op ∷ []

destroy_lem_example : destroy two ≡ ok tt
destroy_lem_example = destroy_lem two_services 2 2 built two two-Built
