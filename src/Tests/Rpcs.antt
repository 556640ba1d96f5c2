-- ===== src/Tests/Rpcs.antt =====
-- The theorems on single Rpcs and on the lifetimes of Rpcs, at sample inputs.
use async_flatbuffer_grpc.Prelude.{
  ℕ, ◌≡◌, ◌≢◌, refl, true, false, none, some, List, [], ◌∷◌, ◌++◌, arith, ok, fault, dangling,
  length, ◌*◌, map, ◌≤◌, ◌<◌, ◌>>=◌, ◌⊎◌,
}
use async_flatbuffer_grpc.Api.{async_reader_writer, normal_rpc, bidi_streaming, SendItem, done}
use async_flatbuffer_grpc.Common.BlockingQueue
use async_flatbuffer_grpc.Rpc.{Rpc, make_rpc, handle_send_queue}
use async_flatbuffer_grpc.Rpc.SendQueue.{sent, after_send, handle_send_queue_lem}
use async_flatbuffer_grpc.Rpc.Overlap.{overlapped, in_turn, overlapping_sends}
use async_flatbuffer_grpc.Rpc.Life.{
  Life, Happening, enqueues, write_needed_handled, operation_done, born, live, live_in_order,
}
use async_flatbuffer_grpc.Runtime.{World}
use async_flatbuffer_grpc.Service.{
  start_serving, handle_new_connection, complete_event, stop_serving,
}
use async_flatbuffer_grpc.Service.Serving.{slots}
use async_flatbuffer_grpc.Service.Start.{constructed, constructed-Safe, start_serving-Safe}
use async_flatbuffer_grpc.Service.Lifetimes.{failed_connection-dangling, shutdown-dangling}
use async_flatbuffer_grpc.Service.RoundRobin.{select_times, count, all_selected}
use async_flatbuffer_grpc.Server.Steps.Taking.{Safe}
use async_flatbuffer_grpc.Server.MethodName.{
  slash, parse_method_full_name, HasNoSlash, parse_method_full_name_complete,
  parse_method_full_name_sound,
}
use async_flatbuffer_grpc.Server.Builder.{
  Builder, new_builder, look_up, register_handler, handler_of,
}
use async_flatbuffer_grpc.Server.Builder.Registration.{register_handler_lem}
use async_flatbuffer_grpc.Tests.Samples.{numbers, echo_info}

start_serving-Safe_example :
    (w : World numbers) × (start_serving
        (echo_info normal_rpc ∷ echo_info bidi_streaming ∷ [])
        (5 ∷ 6 ∷ [])
        (constructed 1 7)
      ≡ ok w)
    × Safe w
    × (slots w.active_rpcs ≡ (1, 6) ∷ (1, 5) ∷ (0, 6) ∷ (0, 5) ∷ [])
    × (length w.active_rpcs ≡ 2 * 2)
start_serving-Safe_example =
    start_serving-Safe {api = numbers} 1 7 (echo_info normal_rpc ∷ echo_info bidi_streaming ∷ [])
      (5 ∷ 6 ∷ [])

abbrev sample_rpc : Rpc numbers
sample_rpc = make_rpc 0 5 1 (echo_info bidi_streaming)

abbrev answer : ℕ → SendItem numbers
answer n = record { msg = some n; status = 0 }

abbrev ended : SendItem numbers
ended = record { msg = none; status = 0 }

abbrev loaded : Rpc numbers
loaded = record sample_rpc { send_queue = answer 3 ∷ ended ∷ [] }

loaded-HasInterface : loaded.interface ≡ some async_reader_writer
unfolding make_rpc
loaded-HasInterface = refl

handle_send_queue_lem_example :
    handle_send_queue loaded
    ≡ ok (
      after_send (answer 3) (record loaded { send_queue = ended ∷ [] }),
      sent bidi_streaming (answer 3) ∷ [],
    )
unfolding make_rpc
handle_send_queue_lem_example = handle_send_queue_lem loaded loaded-HasInterface

abbrev crowded : Rpc numbers
crowded = record sample_rpc { send_queue = answer 3 ∷ answer 4 ∷ ended ∷ [] }

-- Two writes are outstanding.
overlapping_sends_example :
    (in_turn crowded ≡ ok (sent bidi_streaming (answer 3) ∷ []))
    × (overlapped crowded
        ≡ ok (sent bidi_streaming (answer 3) ∷ sent bidi_streaming (answer 4) ∷ []))
unfolding make_rpc
overlapping_sends_example =
    overlapping_sends crowded (answer 3) (answer 4) (ended ∷ []) refl refl refl refl

abbrev life : List (Happening numbers)
life =
    enqueues (answer 3)
    ∷ enqueues ended
    ∷ write_needed_handled
    ∷ write_needed_handled
    ∷ operation_done
    ∷ operation_done
    ∷ []

live_in_order_example :
    (t : Life numbers) × (live (born 0 5 1 (echo_info bidi_streaming)) life ≡ ok t)
    × (map (sent bidi_streaming) t.enqueued
        ≡ t.issued ++ map (sent bidi_streaming) t.rpc.send_queue)
    × (length t.outstanding ≤ 1)
live_in_order_example = live_in_order 0 5 1 (echo_info bidi_streaming) life

-- A service with one Rpc, at address 4.
abbrev one_rpc : Rpc numbers → World numbers
one_rpc r = record {
  active_rpcs = (4, r) ∷ [];
  shutting_down = false;
  event_queues = BlockingQueue.new 0 ∷ BlockingQueue.new 0 ∷ [];
  num_event_threads = 2;
  current_event_queue_id = 0;
  context = 0;
  next_address = 5;
  calls = [];
}

failed_connection-dangling_example :
    handle_new_connection 4 false (one_rpc sample_rpc) ≡ fault dangling
failed_connection-dangling_example = failed_connection-dangling 4 (one_rpc sample_rpc) refl

shutdown-dangling_example :
    (handle_new_connection 4 true (stop_serving (one_rpc sample_rpc))
      >>= complete_event 4 done true)
    ≡ fault dangling
unfolding stop_serving
shutdown-dangling_example = shutdown-dangling 4 true true (stop_serving (one_rpc sample_rpc)) refl

abbrev service_name : List ℕ
service_name = b'm' ∷ b'.' ∷ b'S' ∷ []

abbrev method_name : List ℕ
method_name = b'G' ∷ b'o' ∷ []

has_no_slash : HasNoSlash service_name × HasNoSlash method_name
has_no_slash =
    ((ground arith, (ground arith, (ground arith, tt))), (ground arith, (ground arith, tt)))

parse_method_full_name_complete_example :
    parse_method_full_name (slash ∷ service_name ++ slash ∷ method_name)
    ≡ ok (service_name, method_name)
parse_method_full_name_complete_example =
    parse_method_full_name_complete service_name method_name (ground arith) (ground arith)
      has_no_slash.0 has_no_slash.1

parse_method_full_name_sound_example :
    (service_name ≢ [])
    × (method_name ≢ [])
    × HasNoSlash service_name
    × HasNoSlash method_name
    × ((slash ∷ service_name ++ slash ∷ method_name ≡ slash ∷ (service_name ++ slash ∷ method_name))
        ⊎ ((rest : List ℕ) × (slash ∷ service_name ++ slash ∷ method_name
              ≡ slash ∷ (service_name ++ slash ∷ (method_name ++ slash ∷ rest)))))
parse_method_full_name_sound_example =
    parse_method_full_name_sound (slash ∷ service_name ++ slash ∷ method_name) service_name
      method_name
      (parse_method_full_name_complete service_name method_name (ground arith) (ground arith)
        has_no_slash.0 has_no_slash.1)

-- Three event threads.
abbrev three : World numbers
three = constructed {api = numbers} 2 7

all_selected_example :
    (is : List ℕ) × (select_times 3 three ≡ ok (three, is)) × ((i : ℕ) → i < 3 → count i is ≡ 1)
unfolding constructed
all_selected_example = all_selected three (constructed-Safe {api = numbers} 2 7).inv (omega arith)

-- A builder with handler 1 for the method.
abbrev one_handler : Builder ℕ
one_handler = record (new_builder) { rpc_handlers = (service_name, (method_name, 1) ∷ []) ∷ [] }

-- A second handler for the same method.
register_handler_lem_example :
    (b' : Builder ℕ) × (register_handler (slash ∷ service_name ++ slash ∷ method_name) 2 one_handler
      ≡ ok b')
    × (b'.options ≡ one_handler.options)
    × (handler_of service_name method_name b' ≡ some 1)
unfolding look_up
register_handler_lem_example =
    register_handler_lem (slash ∷ service_name ++ slash ∷ method_name) service_name method_name
      service_name method_name 2 one_handler
      (parse_method_full_name_complete service_name method_name (ground arith) (ground arith)
        has_no_slash.0 has_no_slash.1)
