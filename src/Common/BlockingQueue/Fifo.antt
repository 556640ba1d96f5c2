-- ===== src/Common/BlockingQueue/Fifo.antt =====
-- async_grpc/common/blocking_queue.h: over any sequence of calls by any threads the queue is a
-- bounded buffer that is first in, first out.
use mathlib.Core.List.{append_assoc}
use async_flatbuffer_grpc.Prelude.{
  ℕ, ◌≤◌, ◌≡◌, refl, ◌⊎◌, inl, inr, Bool, true, false, Option, none, some, List, [], ◌∷◌, ◌++◌,
  arith, length, length-append,
}
use async_flatbuffer_grpc.Common.BlockingQueue.{
  BlockingQueue, new, push, push_with_timeout, pop, pop_with_timeout, infinite_queue_size,
}

-- A call of a thread, each atomic under the mutex.
pub data Call {ℓ} (A : Type ℓ) : Type ℓ where
  pushes : A → Call A
  pushes_with_timeout : A → Call A
  pops : Call A
  pops_with_timeout : Call A
  peeks sizes waits_until_empty : Call A

-- The queue, with all that was ever accepted and all that was ever handed out, in order.
pub record Trace {ℓ} (A : Type ℓ) : Type ℓ where
  pub queue : BlockingQueue A
  pub accepted : List A
  pub handed_out : List A

module _ {ℓ} {A : Type ℓ} where
  after_push : Trace A → A → Option (BlockingQueue A) → Trace A
  after_push s t none = s
  after_push s t (some q) = record s { queue = q; accepted = s.accepted ++ t ∷ [] }

  after_pop : Trace A → Option (A × BlockingQueue A) → Trace A
  after_pop s none = s
  after_pop s (some (t, q)) = record s { queue = q; handed_out = s.handed_out ++ t ∷ [] }

  after_timed_push : Trace A → A → BlockingQueue A × Bool → Trace A
  after_timed_push s t (q, true) = record s { queue = q; accepted = s.accepted ++ t ∷ [] }
  after_timed_push s t (q, false) = record s { queue = q }

  after_timed_pop : Trace A → Option A × BlockingQueue A → Trace A
  after_timed_pop s (none, q) = record s { queue = q }
  after_timed_pop s (some t, q) = record s { queue = q; handed_out = s.handed_out ++ t ∷ [] }

  unfoldable pub step : Trace A → Call A → Trace A
  unfolding after_push after_pop after_timed_push after_timed_pop
  step s (pushes t) = after_push s t (push t s.queue)
  step s (pushes_with_timeout t) = after_timed_push s t (push_with_timeout t s.queue)
  step s pops = after_pop s (pop s.queue)
  step s pops_with_timeout = after_timed_pop s (pop_with_timeout s.queue)
  step s peeks = s
  step s sizes = s
  step s waits_until_empty = s

  unfoldable pub run : Trace A → List (Call A) → Trace A
  run s [] = s
  run s (c ∷ cs) = run (step s c) cs

  unfoldable pub start : ℕ → Trace A
  start n = record { queue = new n; accepted = []; handed_out = [] }

-- What holds between two calls.
pub record Inv {ℓ} {A : Type ℓ} (n : ℕ) (s : Trace A) : Type ℓ where
  pub in_order : s.accepted ≡ s.handed_out ++ s.queue.deque
  pub same_size : s.queue.queue_size ≡ n
  pub bounded : (n ≡ infinite_queue_size) ⊎ (length s.queue.deque ≤ n)

module _ {ℓ} {A : Type ℓ} where
  -- `pop` splits off the front, and waits on the empty queue only.
  pop-cases :
      (q : BlockingQueue A)
      → ((q.deque ≡ []) × (pop q ≡ none))
        ⊎ ((t : A) × (ts : List A) × (q.deque ≡ t ∷ ts)
            × (pop q ≡ some (t, record q { deque = ts })))
  unfolding pop
  pop-cases q = cases q.queue_size q.deque
    where
      cases :
          (n : ℕ) (d : List A)
          → let r : BlockingQueue A = record { queue_size = n; deque = d } in
            ((d ≡ []) × (pop r ≡ none))
            ⊎ ((t : A) × (ts : List A) × (d ≡ t ∷ ts) × (pop r ≡ some (t, record r { deque = ts })))
      cases n [] = inl (refl, refl)
      cases n (t ∷ ts) = inr (t, ts, refl, refl)

  push-Inv : (n : ℕ) (s : Trace A) (t : A) → Inv n s → Inv n (step s (pushes t))
  unfolding step push
  push-Inv n s t v = ground (
    arith,
    append_assoc s.handed_out s.queue.deque (t ∷ []),
    length-append s.queue.deque (t ∷ []),
  )

  push_with_timeout-Inv :
      (n : ℕ) (s : Trace A) (t : A) → Inv n s → Inv n (step s (pushes_with_timeout t))
  unfolding step push_with_timeout
  push_with_timeout-Inv n s t v = ground (
    arith,
    append_assoc s.handed_out s.queue.deque (t ∷ []),
    length-append s.queue.deque (t ∷ []),
  )

  pop-Inv : (n : ℕ) (s : Trace A) → Inv n s → Inv n (step s pops)
  unfolding step
  pop-Inv n s v = elim (pop-cases s.queue) [
    | inl (d, e) ↦ rw e v
    | inr (t, ts, d, e) ↦ rw e (ground (arith, append_assoc s.handed_out (t ∷ []) ts))
  ]

  pop_with_timeout-Inv : (n : ℕ) (s : Trace A) → Inv n s → Inv n (step s pops_with_timeout)
  unfolding step pop_with_timeout
  pop_with_timeout-Inv n s v = elim (pop-cases s.queue) [
    | inl (d, e) ↦ ground (arith, e)
    | inr (t, ts, d, e) ↦ ground (arith, e, append_assoc s.handed_out (t ∷ []) ts)
  ]

  step-Inv : (n : ℕ) (s : Trace A) (c : Call A) → Inv n s → Inv n (step s c)
  unfolding step
  step-Inv n s (pushes t) v = push-Inv n s t v
  step-Inv n s (pushes_with_timeout t) v = push_with_timeout-Inv n s t v
  step-Inv n s pops v = pop-Inv n s v
  step-Inv n s pops_with_timeout v = pop_with_timeout-Inv n s v
  step-Inv n s peeks v = v
  step-Inv n s sizes v = v
  step-Inv n s waits_until_empty v = v

  run-Inv : (n : ℕ) (s : Trace A) (cs : List (Call A)) → Inv n s → Inv n (run s cs)
  unfolding run
  run-Inv n s [] v = v
  run-Inv n s (c ∷ cs) v = run-Inv n (step s c) cs (step-Inv n s c v)

  start-Inv : (n : ℕ) → Inv {A = A} n (start n)
  unfolding start new
  start-Inv n = ground arith

  -- From a new queue of any size, over any sequence of calls that push and pop, with and without a
  -- timeout: what was accepted is what was handed out, in order, followed by what the queue still
  -- holds, and a queue of finite size never holds more values than its size.
  pub run_in_order :
      (n : ℕ) (cs : List (Call A))
      → let s = run (start n) cs in
        (s.accepted ≡ s.handed_out ++ s.queue.deque)
        × ((n ≡ infinite_queue_size) ⊎ (length s.queue.deque ≤ n))
  run_in_order n cs = let v = run-Inv n (start n) cs (start-Inv n) in (v.in_order, v.bounded)
