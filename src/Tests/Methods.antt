-- ===== src/Tests/Methods.antt =====
-- A method's traits, a timeout, and calls of the asynchronous clients.
use mathlib.Core.Option
use async_flatbuffer_grpc.Common.Time.{
  pos, whole_milliseconds, from_milliseconds, from_milliseconds_lem,
}
use async_flatbuffer_grpc.TypeTraits.{
  message, other_class, stream, strip_stream, rpc_type, is_table, RpcServiceMethodTraits, traits,
}
use async_flatbuffer_grpc.TypeTraits.Wrapping.{declare, traits-declare, declare-traits}
use async_flatbuffer_grpc.Api.{server_streaming}
use async_flatbuffer_grpc.AsyncClient.{
  finish, create, start_call, finish_op, new_client, unary_write_async,
}
use async_flatbuffer_grpc.AsyncClient.{AsyncClient, Completion, write, stream_write_async, complete}
use async_flatbuffer_grpc.AsyncClient.Invariant.{Inv}
use async_flatbuffer_grpc.AsyncClient.Stream.{write_async-Inv}
use async_flatbuffer_grpc.AsyncClient.Dispatching.{run_queue, alone, events_of, shared_queue}
use async_flatbuffer_grpc.AsyncClient.Unary.{unary_handle_all, answered, unary_notifications}
use async_flatbuffer_grpc.Tests.Samples.{number_client}
use async_flatbuffer_grpc.Prelude.{
  ℕ, List, find, false, subst, Bool-cases, inl, inr, arith, ◌==◌, [], ◌∷◌, ok, ◌≡◌, refl, true,
  some, none,
}

-- The timeout of the event loops.
from_milliseconds_lem_example :
    Option.map whole_milliseconds (from_milliseconds (pos 100)) ≡ some (pos 100)
from_milliseconds_lem_example = from_milliseconds_lem (pos 100)

abbrev echo_traits : RpcServiceMethodTraits
echo_traits = record {
  name = "/echo/Echo";
  request_type = message "EchoRequest";
  response_type = message "EchoResponse";
  stream_type = server_streaming;
}

traits-declare_example :
    traits (record {
      incoming_type = message "EchoRequest";
      outgoing_type = stream (message "EchoResponse");
      method_name = "/echo/Echo";
    })
    ≡ some echo_traits
unfolding is_table
traits-declare_example = traits-declare echo_traits refl refl

declare-traits_example :
    (declare echo_traits ≡ declare echo_traits)
    × (is_table (message "EchoRequest") ≡ true)
    × (is_table (message "EchoResponse") ≡ true)
unfolding traits is_table strip_stream rpc_type
declare-traits_example = declare-traits (declare echo_traits) echo_traits refl

-- A message type that is no table is refused.
refused :
    traits (record {
      incoming_type = stream (other_class "std::string");
      outgoing_type = message "EchoResponse";
      method_name = "/echo/Echo";
    })
    ≡ none
unfolding traits is_table strip_stream rpc_type
refused = refl

unary_notifications_example :
    unary_handle_all
      (finish ∷ [])
      (answered 8 0 (unary_write_async 7 (new_client {api = number_client} true 0)))
    ≡ ok (record (new_client {api = number_client} true 0) {
      started = true;
      asked = create 7 ∷ start_call ∷ finish_op ∷ [];
      response = 8;
      status = 0;
      notified = (0, some 8) ∷ [];
    })
unary_notifications_example = unary_notifications {api = number_client} 0 8 7 0 (finish ∷ [])

abbrev one_call : AsyncClient number_client
one_call = stream_write_async 7 (new_client true 0)

abbrev two_calls : List (ℕ × AsyncClient number_client)
two_calls = (4, one_call) ∷ (9, one_call) ∷ []

abbrev two_events : List (ℕ × Completion number_client)
two_events =
    (9, record { event = write; is_ok = true; message = 0 })
    ∷ (4, record { event = write; is_ok = false; message = 0 })
    ∷ []

two_calls-Inv :
    (p : ℕ) (c : AsyncClient number_client) → find p two_calls ≡ some c → Inv number_client c
unfolding find stream_write_async new_client
two_calls-Inv p c e = elim (Bool-cases (4 == p)) [
  | inl first ↦
      let same : one_call ≡ c = ground (arith, e, first) in
      subst (Inv number_client) same (write_async-Inv number_client 0 7)
  | inr other ↦ elim (Bool-cases (9 == p)) [
    | inl second ↦
        let same : one_call ≡ c = ground (arith, e, other, second) in
        subst (Inv number_client) same (write_async-Inv number_client 0 7)
    | inr neither ↦ absurd (ground (arith, e, other, neither))
  ]
]

shared_queue_example :
    (cs : List (ℕ × AsyncClient number_client)) × (run_queue complete two_events two_calls ≡ ok cs)
    × ((p : ℕ) → find p cs ≡ alone complete (events_of p two_events) (find p two_calls))
unfolding find
shared_queue_example = shared_queue two_events two_calls two_calls-Inv (refl, (refl, tt))
