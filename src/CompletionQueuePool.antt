-- ===== src/CompletionQueuePool.antt =====
-- async_grpc/completion_queue_pool.cc and .h: the pool of the client's completion queues, each with
-- a thread. `rand()` is an argument. The instance is made at the first call.
use async_flatbuffer_grpc.Prelude.{
  ℕ, zero, suc, ◌+◌, ◌%◌, ◌<◌, ◌≡◌, refl, Bool, true, false, not, Option, none, some, List, [], ◌∷◌,
  ◌++◌, arith, if◌then◌else◌, Result, ok, fault, check_failed, out_of_range, check, or_fault, ◌>>=◌,
  ◌>>◌, length, get_elem?, replicate, ltb,
}
pub mod Lifecycle

-- `thread` is whether there is one; it runs until gRPC's queue is shut down.
pub record CompletionQueue : Type 0 where
  pub thread : Bool
  pub is_shut_down : Bool

unfoldable pub new_completion_queue : CompletionQueue
new_completion_queue = record { thread = false; is_shut_down = false }

unfoldable pub start_queue : CompletionQueue → Result CompletionQueue
start_queue q = do check (not q.thread); ok (record q { thread = true })

unfoldable pub shutdown_queue : CompletionQueue → Result CompletionQueue
shutdown_queue q = do check q.thread; ok (record q { is_shut_down = true })

pub record CompletionQueuePool : Type 0 where
  pub initialized : Bool
  pub number_completion_queues : ℕ
  pub completion_queues : List CompletionQueue

-- kDefaultNumberCompletionQueues
abbrev pub default_number_completion_queues : ℕ
default_number_completion_queues = 2

unfoldable pub new_pool : CompletionQueuePool
new_pool = record {
  initialized = false;
  number_completion_queues = default_number_completion_queues;
  completion_queues = [];
}

unfoldable pub set_number_completion_queues : ℕ → CompletionQueuePool → Result CompletionQueuePool
set_number_completion_queues n pool = do
  check (not pool.initialized)
  check (ltb 0 n)
  ok (record pool { number_completion_queues = n })

unfoldable pub start_all : List CompletionQueue → Result (List CompletionQueue)
start_all [] = ok []
start_all (q ∷ qs) = do q' ← start_queue q; qs' ← start_all qs; ok (q' ∷ qs')

unfoldable pub shutdown_all : List CompletionQueue → Result (List CompletionQueue)
shutdown_all [] = ok []
shutdown_all (q ∷ qs) = do q' ← shutdown_queue q; qs' ← shutdown_all qs; ok (q' ∷ qs')

-- vector::resize
unfoldable pub resize : ℕ → List CompletionQueue → List CompletionQueue
resize zero qs = []
resize (suc n) [] = new_completion_queue ∷ resize n []
resize (suc n) (q ∷ qs) = q ∷ resize n qs

unfoldable pub initialize_new : CompletionQueuePool → Result CompletionQueuePool
initialize_new pool = do
  qs ← start_all (resize pool.number_completion_queues pool.completion_queues)
  ok (record pool { completion_queues = qs; initialized = true })

unfoldable pub initialize : CompletionQueuePool → Result CompletionQueuePool
initialize pool = if pool.initialized then ok pool else initialize_new pool

unfoldable pub start : CompletionQueuePool → Result CompletionQueuePool
start pool = initialize pool

-- The queue's position stands for its address.
unfoldable pub get_completion_queue : ℕ → CompletionQueuePool → Result (CompletionQueuePool × ℕ)
get_completion_queue rand pool = do
  pool' ← initialize pool
  let qid = rand % length pool'.completion_queues
  q ← or_fault (get_elem? pool'.completion_queues qid) out_of_range
  ok (pool', qid)

unfoldable pub shutdown : CompletionQueuePool → Result CompletionQueuePool
shutdown pool = do
  _ ← shutdown_all pool.completion_queues
  ok (record pool { completion_queues = []; initialized = false })
