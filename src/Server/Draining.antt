-- ===== src/Server/Draining.antt =====
-- async_grpc/server.cc: the second loop of RunEventQueue, by which an event thread handles what is
-- left in its queue once the server shuts down. The loop runs on fuel, and no other thread does
-- anything meanwhile.
pub mod Tags
pub mod Queues
pub mod Handlers
pub mod Ends
use async_flatbuffer_grpc.Prelude.{
  ℕ, zero, suc, Option, none, some, Result, ok, fault, get_elem?, set,
}
use async_flatbuffer_grpc.Api.{Api}
use async_flatbuffer_grpc.Common.BlockingQueue.{BlockingQueue}
use async_flatbuffer_grpc.Common.BlockingQueue
use async_flatbuffer_grpc.Runtime.{World, QueuedEvent}
use async_flatbuffer_grpc.Service.{handle_queued_event}

module _ {api : Api} where
  -- The rest of the loop, unless the event's handling aborted.
  abbrev pub go_on :
      (World api → Option (Result (World api))) → Result (World api) → Option (Result (World api))
  go_on rest (fault why) = some (fault why)
  go_on rest (ok w) = rest w

  -- `while (UniqueEventPtr rpc_event = ...)`: the null pointer ends the loop.
  abbrev pub drain_popped :
      (World api → Option (Result (World api)))
      → Option QueuedEvent
      → World api
      → Option (Result (World api))
  drain_popped rest none w = some (ok w)
  drain_popped rest (some x) w = go_on rest (handle_queued_event x w)

  abbrev pub drain_queue :
      (World api → Option (Result (World api)))
      → Option (BlockingQueue QueuedEvent)
      → ℕ
      → World api
      → Option (Result (World api))
  drain_queue rest none i w = some (ok w)
  drain_queue rest (some q) i w =
      let popped = BlockingQueue.pop_with_timeout q in
      drain_popped rest popped.0 (record w { event_queues = set w.event_queues i popped.1 })

  -- None if the fuel does not last.
  unfoldable pub drain : ℕ → ℕ → World api → Option (Result (World api))
  drain zero i w = none
  drain (suc fuel) i w = drain_queue (drain fuel i) (get_elem? w.event_queues i) i w
