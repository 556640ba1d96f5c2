-- ===== src/Common.antt =====
-- async_grpc/common: the mutex, the queue and the durations that the rest of the framework uses.
pub mod Mutex
pub mod BlockingQueue
pub mod Optional
pub mod Time
