-- ===== src/Common/BlockingQueue.antt =====
-- async_grpc/common/blocking_queue.h. A call is one step here, under the mutex; Locking takes its
-- accesses apart. A call that waits returns `none` until its condition holds: the thread is asleep.
use async_flatbuffer_grpc.Prelude.{
  ℕ, zero, suc, ◌+◌, ◌≤◌, ◌<◌, ◌≡◌, refl, ◌⊎◌, inl, inr, Bool, true, false, not, ◌||◌, Option, none,
  some, List, [], ◌∷◌, ◌++◌, arith, ltb, ◌==◌, if◌then◌else◌, length, length-append,
}
pub mod Fifo
pub mod Locking

-- The values, the front first.
pub record BlockingQueue {ℓ} (A : Type ℓ) : Type ℓ where
  pub queue_size : ℕ
  pub deque : List A

-- kInfiniteQueueSize
abbrev pub infinite_queue_size : ℕ
infinite_queue_size = 0

module _ {ℓ} {A : Type ℓ} where
  unfoldable pub new : ℕ → BlockingQueue A
  new n = record { queue_size = n; deque = [] }

  abbrev is_empty : List A → Bool
  is_empty [] = true
  is_empty (x ∷ xs) = false

  unfoldable pub queue_empty_condition : BlockingQueue A → Bool
  queue_empty_condition q = is_empty q.deque

  unfoldable pub queue_not_full_condition : BlockingQueue A → Bool
  queue_not_full_condition q =
      q.queue_size == infinite_queue_size || ltb (length q.deque) q.queue_size

  unfoldable pub push_back : BlockingQueue A → A → BlockingQueue A
  push_back q t = record q { deque = q.deque ++ t ∷ [] }

  unfoldable pub push : A → BlockingQueue A → Option (BlockingQueue A)
  unfolding queue_not_full_condition push_back
  push t q = if queue_not_full_condition q then some (push_back q t) else none

  -- The Boolean is the result; a value that does not fit in time is dropped.
  unfoldable pub push_with_timeout : A → BlockingQueue A → BlockingQueue A × Bool
  unfolding queue_not_full_condition push_back
  push_with_timeout t q = if queue_not_full_condition q then (push_back q t, true) else (q, false)

  -- The front of the deque with the queue that is left.
  pop_front : ℕ → List A → Option (A × BlockingQueue A)
  pop_front n [] = none
  pop_front n (t ∷ ts) = some (t, record { queue_size = n; deque = ts })

  unfoldable pub pop : BlockingQueue A → Option (A × BlockingQueue A)
  unfolding pop_front queue_empty_condition
  pop q = if not (queue_empty_condition q) then pop_front q.queue_size q.deque else none

  or_null : BlockingQueue A → Option (A × BlockingQueue A) → Option A × BlockingQueue A
  or_null q none = (none, q)
  or_null q (some (t, rest)) = (some t, rest)

  -- A timeout returns the null pointer.
  unfoldable pub pop_with_timeout : BlockingQueue A → Option A × BlockingQueue A
  unfolding pop or_null
  pop_with_timeout q = or_null q (pop q)

  unfoldable pub front : List A → Option A
  front [] = none
  front (t ∷ ts) = some t

  unfoldable pub peek : BlockingQueue A → Option A
  unfolding front
  peek q = front q.deque

  unfoldable pub size : BlockingQueue A → ℕ
  size q = length q.deque

  -- Whether a thread in WaitUntilEmpty may go on.
  unfoldable pub wait_until_empty : BlockingQueue A → Bool
  unfolding queue_empty_condition
  wait_until_empty q = queue_empty_condition q
