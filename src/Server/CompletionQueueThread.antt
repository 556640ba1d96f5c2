-- ===== src/Server/CompletionQueueThread.antt =====
-- async_grpc/completion_queue_thread.cc and completion_queue_thread.h. gRPC's completion queue is a
-- pointer, and whether it was shut down. The runner of the thread is the loop of
-- Server::RunCompletionQueue, which ends when the queue is shut down and drained.
use async_flatbuffer_grpc.Prelude.{
  ℕ, ◌≡◌, refl, Bool, true, false, not, Option, none, some, Result, ok, check, ◌>>=◌, ◌>>◌, is_some,
}
use async_flatbuffer_grpc.Server.Thread.{Thread, running, joined, join}

pub record CompletionQueueThread : Type 0 where
  pub completion_queue : ℕ
  pub is_shut_down : Bool
  pub worker_thread : Option Thread

unfoldable pub new_completion_queue_thread : ℕ → CompletionQueueThread
new_completion_queue_thread q = record {
  completion_queue = q;
  is_shut_down = false;
  worker_thread = none;
}

unfoldable pub start : CompletionQueueThread → Result CompletionQueueThread
start t = do check (not (is_some t.worker_thread)); ok (record t { worker_thread = some running })

unfoldable pub shutdown : CompletionQueueThread → Result CompletionQueueThread
shutdown t = do
  thread ← join t.worker_thread
  ok (record t { is_shut_down = true; worker_thread = thread })

-- The state of the thread, and whether the queue was shut down.
abbrev pub IsThread : Option Thread → Bool → CompletionQueueThread → Type 0
IsThread o down t = (t.worker_thread ≡ o) × (t.is_shut_down ≡ down)

pub start-IsThread :
    (t : CompletionQueueThread)
    → IsThread none false t
    → (t' : CompletionQueueThread) × (start t ≡ ok t') × IsThread (some running) false t'
unfolding start
start-IsThread t h = (record t { worker_thread = some running }, rw h.0 refl, (refl, h.1))

pub shutdown-IsThread :
    (t : CompletionQueueThread)
    → IsThread (some running) false t
    → (t' : CompletionQueueThread) × (shutdown t ≡ ok t') × IsThread (some joined) true t'
unfolding shutdown join
shutdown-IsThread t h =
    (record t { is_shut_down = true; worker_thread = some joined }, rw h.0 refl, (refl, refl))
