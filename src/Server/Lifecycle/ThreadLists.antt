-- ===== src/Server/Lifecycle/ThreadLists.antt =====
-- async_grpc/server.cc: the loops of Start and Shutdown over the server's threads.
use async_flatbuffer_grpc.Prelude.{
  ℕ, zero, suc, ◌<◌, ◌≡◌, refl, ap, ◌⊎◌, inl, inr, Option, none, some, List, [], ◌∷◌, Result, ok,
  fault, Fault, replicate, length, All, for_each, for_each_fault,
}
use async_flatbuffer_grpc.Common.BlockingQueue.{BlockingQueue}
use async_flatbuffer_grpc.Common.BlockingQueue
use async_flatbuffer_grpc.Runtime.{QueuedEvent}
use async_flatbuffer_grpc.Service.Tags.{AllInfinite}
use async_flatbuffer_grpc.Server.Thread.{Thread, joined, join}
use async_flatbuffer_grpc.Server.EventQueueThread.{EventQueueThread, new_event_queue_thread}
use async_flatbuffer_grpc.Server.EventQueueThread
use async_flatbuffer_grpc.Server.Lifecycle.{queues_of, put_queues}

-- Code that stops with a fault.
abbrev pub Fails : {A : Type 0} → Result A → Type 0
Fails m = (why : Fault) × (m ≡ fault why)

pub Result-cases : {A : Type 0} (m : Result A) → Fails m ⊎ ((x : A) × (m ≡ ok x))
Result-cases (fault why) = inl (why, refl)
Result-cases (ok x) = inr (x, refl)

pub put_queues-All :
    (o : Option Thread) (qs : List (BlockingQueue QueuedEvent)) (ts : List EventQueueThread)
    → All (EventQueueThread.IsThread o) ts
    → All (EventQueueThread.IsThread o) (put_queues qs ts)
put_queues-All o [] ts h = h
put_queues-All o (q ∷ qs) [] h = h
put_queues-All o (q ∷ qs) (t ∷ ts) (h, hs) = (h, put_queues-All o qs ts hs)

pub length-put_queues :
    (qs : List (BlockingQueue QueuedEvent)) (ts : List EventQueueThread)
    → length (put_queues qs ts) ≡ length ts
length-put_queues [] ts = refl
length-put_queues (q ∷ qs) [] = refl
length-put_queues (q ∷ qs) (t ∷ ts) = ap suc (length-put_queues qs ts)

pub new_threads :
    (n : ℕ) → All (EventQueueThread.IsThread none) (replicate n new_event_queue_thread)
unfolding new_event_queue_thread
new_threads zero = tt
new_threads (suc n) = (refl, new_threads n)

pub new_queues :
    (n : ℕ)
    → AllInfinite (queues_of (replicate n new_event_queue_thread))
      × (length (queues_of (replicate n new_event_queue_thread)) ≡ n)
unfolding new_event_queue_thread BlockingQueue.new
new_queues zero = (tt, refl)
new_queues (suc n) = let (a, l) = new_queues n in ((refl, a), ap suc l)

-- A thread that was started is not started again.
pub restart_Fails :
    (th : Thread) (ts : List EventQueueThread)
    → 0 < length ts
    → All (EventQueueThread.IsThread (some th)) ts
    → Fails (for_each EventQueueThread.start ts)
unfolding EventQueueThread.start
restart_Fails th [] some_thread h = elim some_thread [ ]
restart_Fails th (t ∷ ts) some_thread (h, hs) =
    (Fault.check_failed, for_each_fault EventQueueThread.start _ t ts (rw h refl))

pub rejoin_Fails :
    (ts : List EventQueueThread)
    → 0 < length ts
    → All (EventQueueThread.IsThread (some joined)) ts
    → Fails (for_each EventQueueThread.shutdown ts)
unfolding EventQueueThread.shutdown join
rejoin_Fails [] some_thread h = elim some_thread [ ]
rejoin_Fails (t ∷ ts) some_thread (h, hs) =
    (Fault.not_joinable, for_each_fault EventQueueThread.shutdown _ t ts (rw h refl))
