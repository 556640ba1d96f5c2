-- ===== src/Server/Thread.antt =====
-- std::thread behind the unique_ptrs of async_grpc/event_queue_thread.h and completion_queue_thread.h.
use async_flatbuffer_grpc.Prelude.{
  Option, none, some, Result, ok, fault, null_pointer, not_joinable,
}

-- Once joined, a thread is not joinable.
pub data Thread : Type 0 where
  running joined : Thread

-- `thread_->join()`, which throws if the thread is not joinable. It returns once the thread ended.
unfoldable pub join : Option Thread → Result (Option Thread)
join none = fault null_pointer
join (some running) = ok (some joined)
join (some joined) = fault not_joinable
