-- ===== src/Server/Services/Draining.antt =====
-- async_grpc/server.cc: the second loop of RunEventQueue, for a server with any number of services that
-- serve or have stopped. As in Server/Draining it runs on fuel, and no other thread does anything
-- meanwhile.
use async_flatbuffer_grpc.Prelude.{
  ℕ, zero, suc, ◌≡◌, Option, none, some, List, [], Result, ok, fault, get_elem?, set,
}
use async_flatbuffer_grpc.Api.{Api}
use async_flatbuffer_grpc.Common.BlockingQueue.{BlockingQueue}
use async_flatbuffer_grpc.Common.BlockingQueue
use async_flatbuffer_grpc.Rpc.{Rpc}
use async_flatbuffer_grpc.Runtime.{QueuedEvent}
use async_flatbuffer_grpc.Server.Draining.Ends.{waiting}
use async_flatbuffer_grpc.Server.Lifecycle.{Service}
use async_flatbuffer_grpc.Server.Services.{Running, dispatch}

module _ {api : Api} where
  -- The rest of the loop, unless the event's handling aborted.
  abbrev pub continue :
      (Running api → Option (Result (Running api)))
      → Result (Running api)
      → Option (Result (Running api))
  continue rest (fault why) = some (fault why)
  continue rest (ok s) = rest s

  -- `while (UniqueEventPtr rpc_event = ...)`: the null pointer ends the loop.
  abbrev pub drain_event :
      (Running api → Option (Result (Running api)))
      → Option QueuedEvent
      → Running api
      → Option (Result (Running api))
  drain_event rest none s = some (ok s)
  drain_event rest (some x) s = continue rest (dispatch (some x) s)

  abbrev pub drain_shared_queue :
      (Running api → Option (Result (Running api)))
      → Option (BlockingQueue QueuedEvent)
      → ℕ
      → Running api
      → Option (Result (Running api))
  drain_shared_queue rest none i s = some (ok s)
  drain_shared_queue rest (some q) i s =
      let popped = BlockingQueue.pop_with_timeout q in
      drain_event rest popped.0
        (record s { world = record s.world { event_queues = set s.world.event_queues i popped.1 } })

  -- None if the fuel does not last.
  unfoldable pub drain_all : ℕ → ℕ → Running api → Option (Result (Running api))
  drain_all zero i s = none
  drain_all (suc fuel) i s =
      drain_shared_queue (drain_all fuel i) (get_elem? s.world.event_queues i) i s

module _ {api : Api} (i : ℕ) where
  -- The queue is empty, unless the code aborted.
  abbrev pub EmptiedAll : Result (Running api) → Type 0
  EmptiedAll (fault why) = Unit {0}
  EmptiedAll (ok s) = waiting (get_elem? s.world.event_queues i) ≡ []

  abbrev pub EndsAll : Running api → Type 0
  EndsAll s = (fuel : ℕ) × (m : Result (Running api)) × (drain_all fuel i s ≡ some m) × EmptiedAll m

  abbrev without_front : BlockingQueue QueuedEvent → List QueuedEvent → Running api → Running api
  without_front q d s = record s {
    world = record s.world {
      event_queues = set s.world.event_queues i (record { queue_size = q.queue_size; deque = d });
    };
  }
