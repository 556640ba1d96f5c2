-- ===== src/Server/EventQueueThread.antt =====
-- async_grpc/event_queue_thread.cc and event_queue_thread.h. The runner that a thread is started with
-- is the loop of Server::RunEventQueue.
use async_flatbuffer_grpc.Prelude.{
  ◌≡◌, refl, not, Option, none, some, Result, ok, check, ◌>>=◌, ◌>>◌, is_some,
}
use async_flatbuffer_grpc.Common.BlockingQueue.{BlockingQueue}
use async_flatbuffer_grpc.Common.BlockingQueue
use async_flatbuffer_grpc.Runtime.{QueuedEvent}
use async_flatbuffer_grpc.Server.Thread.{Thread, running, joined, join}

pub record EventQueueThread : Type 0 where
  pub event_queue : BlockingQueue QueuedEvent
  pub thread : Option Thread

unfoldable pub new_event_queue_thread : EventQueueThread
new_event_queue_thread = record {
  event_queue = BlockingQueue.new BlockingQueue.infinite_queue_size;
  thread = none;
}

unfoldable pub start : EventQueueThread → Result EventQueueThread
start t = do check (not (is_some t.thread)); ok (record t { thread = some running })

unfoldable pub shutdown : EventQueueThread → Result EventQueueThread
shutdown t = do thread ← join t.thread; ok (record t { thread = thread })

-- The state of the thread.
abbrev pub IsThread : Option Thread → EventQueueThread → Type 0
IsThread o t = t.thread ≡ o

pub start-IsThread :
    (t : EventQueueThread)
    → IsThread none t
    → (t' : EventQueueThread) × (start t ≡ ok t') × IsThread (some running) t'
unfolding start
start-IsThread t h = (record t { thread = some running }, rw h refl, refl)

pub shutdown-IsThread :
    (t : EventQueueThread)
    → IsThread (some running) t
    → (t' : EventQueueThread) × (shutdown t ≡ ok t') × IsThread (some joined) t'
unfolding shutdown join
shutdown-IsThread t h = (record t { thread = some joined }, rw h refl, refl)
