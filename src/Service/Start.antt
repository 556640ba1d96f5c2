-- ===== src/Service/Start.antt =====
-- async_grpc/service.cc: StartServing, from a server that was just constructed.
use mathlib.Core.List.{append-nil}
use async_flatbuffer_grpc.Prelude.{
  sym, ap, ◌∙◌, ℕ, zero, suc, ◌*◌, ◌≡◌, refl, false, List, [], arith, ok, find, length, replicate,
  length-replicate,
}
use async_flatbuffer_grpc.Api.{Api, Event, RpcHandlerInfo}
use async_flatbuffer_grpc.Common.BlockingQueue.{BlockingQueue}
use async_flatbuffer_grpc.Common.BlockingQueue
use async_flatbuffer_grpc.Runtime.{World, QueuedEvent}
use async_flatbuffer_grpc.Service.{start_serving}
use async_flatbuffer_grpc.Service.Tags.{AllInfinite, count_queues}
use async_flatbuffer_grpc.Service.Serving.{
  start_serving-Adds, slots, slots_from, length-slots, length-slots_from,
}
use async_flatbuffer_grpc.Server.Steps.Taking.{Safe}
use async_flatbuffer_grpc.Server.Steps.Handling.{Safe-Fine}

abbrev empty_queue : BlockingQueue QueuedEvent
empty_queue = BlockingQueue.new BlockingQueue.infinite_queue_size

all_infinite : (n : ℕ) → AllInfinite (replicate n empty_queue)
unfolding BlockingQueue.new
all_infinite zero = tt
all_infinite (suc n) = (refl, all_infinite n)

none_queued : (n p : ℕ) (e : Event) → count_queues p e (replicate n empty_queue) ≡ 0
unfolding BlockingQueue.new
none_queued zero p e = refl
none_queued (suc n) p e = omega (arith, none_queued n p e)

module _ {api : Api} where
  -- A server with `suc n` event threads before Start.
  unfoldable pub constructed : ℕ → api.Context → World api
  constructed n context = record {
    active_rpcs = [];
    shutting_down = false;
    event_queues = replicate (suc n) empty_queue;
    num_event_threads = suc n;
    current_event_queue_id = 0;
    context = context;
    next_address = 0;
    calls = [];
  }

  pub constructed-Safe : (n : ℕ) (context : api.Context) → Safe (constructed n context)
  unfolding constructed find
  constructed-Safe n context = record {
    inv = record {
      threads = omega (arith, length-replicate (suc n) empty_queue);
      some_thread = omega arith;
      infinite = all_infinite (suc n);
      fresh = λ p h. refl;
      rpcs = λ p r e. cc;
    };
    running = refl;
    accounted = λ p e. omega (arith, none_queued (suc n) p e);
    ordered = record { ordered = λ p i r ts e. cc };
  }

  -- StartServing on a server that was just constructed, with one event thread or more, succeeds: it
  -- leaves one Rpc for each pair of a method and a completion queue, and a state that is safe to run
  -- from.
  pub start_serving-Safe :
      (n : ℕ) (context : api.Context) (infos : List (RpcHandlerInfo api)) (qs : List ℕ)
      → (w : World api) × (start_serving infos qs (constructed n context) ≡ ok w)
        × Safe w
        × (slots w.active_rpcs ≡ slots_from 0 (length infos) qs)
        × (length w.active_rpcs ≡ length infos * length qs)
  start_serving-Safe n context infos qs =
      let s = constructed-Safe n context in
      let (w, e, a) = start_serving-Adds infos qs (constructed n context) s.inv in
      let pairs : slots w.active_rpcs ≡ slots_from 0 (length infos) qs =
        unfold constructed in a.added_slots ∙ append-nil (slots_from 0 (length infos) qs) in
      (
        w,
        e,
        Safe-Fine (constructed n context) w s a.fine,
        pairs,
        sym (length-slots w.active_rpcs) ∙ ap length pairs ∙ length-slots_from 0 (length infos) qs,
      )
