-- ===== src/Tests/Threads.antt =====
-- Threads that share a queue of size one, and a context.
use async_flatbuffer_grpc.Prelude.{ℕ, ◌+◌, ◌*◌, ◌≡◌, ◌⊎◌, refl, true, some, [], ◌∷◌, map, ok}
use async_flatbuffer_grpc.Common.Mutex.{
  System, Reach, start, later, call, lock, pass, sleep, read, write, unlock,
}
use async_flatbuffer_grpc.Common.Mutex.Invariant.{holds, replay, AreAllowed}
use async_flatbuffer_grpc.Common.Mutex.Serial.{is_owner, unlocked_state, serial}
use async_flatbuffer_grpc.Common.Mutex.Wakeups.{Progress, may_rest, no_lost_wakeup}
use async_flatbuffer_grpc.Common.BlockingQueue
use async_flatbuffer_grpc.Common.BlockingQueue.Fifo.{Call, pushes, pops, Trace, run}
use async_flatbuffer_grpc.Common.BlockingQueue.Fifo
use async_flatbuffer_grpc.Common.BlockingQueue.Locking.{
  scope, calls, InOrder, interleaved-InOrder, no_standoff,
}
use async_flatbuffer_grpc.ExecutionContext.{
  Uses, synchronized, get_context_in_turn, get_context_serial,
}

abbrev Queues : Type 0
Queues = System (Trace ℕ) (Call ℕ)

abbrev empty : Trace ℕ
empty = Fifo.start 1

-- Thread 0 sleeps in Pop; thread 1 fills the queue and has unlocked, but not yet notified; thread 2
-- sleeps in Push.
abbrev both_asleep : (s : Queues) × Reach scope empty s
unfolding BlockingQueue.new Fifo.start BlockingQueue.push_back BlockingQueue.queue_empty_condition
    BlockingQueue.queue_not_full_condition
both_asleep = (
  _,
  later 2
      (later 2
        (later 2
          (later 1
            (later 1
              (later 1
                (later 1
                  (later 1
                    (later 1
                      (later 0 (later 0 (later 0 start (call pops refl)) (lock refl refl))
                        (sleep refl refl))
                      (call (pushes 7) refl))
                    (lock refl refl))
                  (pass refl refl))
                (read refl))
              (write refl))
            (unlock refl))
          (call (pushes 8) refl))
        (lock refl refl))
      (sleep refl refl),
)

serial_example :
    (holds (both_asleep.0.phase 1) ≡ is_owner both_asleep.0.owner 1)
    × AreAllowed scope empty both_asleep.0.log
    × (unlocked_state both_asleep.0 ≡ replay scope empty both_asleep.0.log)
serial_example = serial scope empty both_asleep.0 1 both_asleep.1

no_lost_wakeup_example :
    Progress scope both_asleep.0
    ⊎ (may_rest scope both_asleep.0.shared (both_asleep.0.phase 0) ≡ true)
no_lost_wakeup_example = no_lost_wakeup scope empty both_asleep.0 0 both_asleep.1

interleaved-InOrder_example :
    (unlocked_state both_asleep.0 ≡ run empty (calls both_asleep.0.log))
    × InOrder 1 (unlocked_state both_asleep.0)
interleaved-InOrder_example = interleaved-InOrder 1 both_asleep.0 both_asleep.1

no_standoff_example : Progress scope both_asleep.0
unfolding both_asleep
no_standoff_example =
    no_standoff 1 both_asleep.0 2 0 (pushes 8) pops both_asleep.1 refl refl refl refl

-- Thread 1 doubles the context and adds one to it; it has doubled it when thread 0 waits for the
-- mutex to add ten.
abbrev in_use : (s : System ℕ (Uses ℕ)) × Reach synchronized 5 s
in_use = (
  _,
  later 1
      (later 1
        (later 0
          (later 1
            (later 1 (later 1 start (call ((λ m. m * 2) ∷ (λ m. m + 1) ∷ []) refl))
              (lock refl refl))
            (pass refl refl))
          (call ((λ m. m + 10) ∷ []) refl))
        (read refl))
      (write refl),
)

get_context_serial_example :
    get_context_in_turn 3 (map (λ e. e.op) in_use.0.log) (some (record { class = 3; members = 5 }))
    ≡ ok (some (record { class = 3; members = unlocked_state in_use.0 }))
get_context_serial_example = get_context_serial 3 5 in_use.0 in_use.1
