-- ===== src/Common/BlockingQueue/Locking.antt =====
-- async_grpc/common/blocking_queue.h with its mutex: each call as the scope of its MutexLocker, one
-- access to the deque at a time, in threads that interleave at every access.
use async_flatbuffer_grpc.Prelude.{
  ℕ, ◌≤◌, ◌≡◌, refl, ◌⊎◌, inl, inr, Bool, true, false, not, none, some, List, [], ◌∷◌, ◌++◌, map,
  arith, length, if◌then◌else◌, ap, ◌∙◌, subst, sym,
}
use async_flatbuffer_grpc.Common.Mutex.{
  Program, done, reads, writes, run_program, Section, Phase, asleep, Entry, System, Reach,
}
use async_flatbuffer_grpc.Common.Mutex.Invariant.{effect, replay, IsAllowed, AreAllowed}
use async_flatbuffer_grpc.Common.Mutex.Serial.{unlocked_state, serial}
use async_flatbuffer_grpc.Common.Mutex.Wakeups.{Progress, may_rest, no_lost_wakeup}
use async_flatbuffer_grpc.Common.BlockingQueue.{
  BlockingQueue, push, push_with_timeout, pop, pop_with_timeout, infinite_queue_size, push_back,
  front, queue_empty_condition, queue_not_full_condition,
}
use async_flatbuffer_grpc.Common.BlockingQueue.Fifo.{
  Call, pushes, pushes_with_timeout, pops, pops_with_timeout, peeks, sizes, waits_until_empty,
  Trace, step, run, start, run_in_order,
}

module _ {ℓ} {A : Type ℓ} where
  -- deque_.push_back(std::move(t))
  abbrev push_back_program : A → Program (Trace A)
  push_back_program t =
      reads (λ s.
        writes (record s { queue = push_back s.queue t; accepted = s.accepted ++ t ∷ [] }) done)

  -- T t = std::move(deque_.front()); the queue is not empty.
  abbrev move_front : Trace A → Trace A
  move_front s = elim (front s.queue.deque) [
    | none ↦ s
    | some t ↦ record s { handed_out = s.handed_out ++ t ∷ [] }
  ]

  abbrev rest : List A → List A
  rest [] = []
  rest (t ∷ ts) = ts

  -- deque_.pop_front()
  abbrev drop_front : Trace A → Trace A
  drop_front s = record s { queue = record s.queue { deque = rest s.queue.deque } }

  abbrev pop_front_program : Program (Trace A)
  pop_front_program = reads (λ s. writes (move_front s) (reads (λ s'. writes (drop_front s') done)))

  abbrev pub scope : Call A → Section (Trace A)
  scope (pushes t) = record {
    predicate = λ s. queue_not_full_condition s.queue;
    timed = false;
    body = λ _. push_back_program t;
  }
  scope (pushes_with_timeout t) = record {
    predicate = λ s. queue_not_full_condition s.queue;
    timed = true;
    body = λ result. if result then push_back_program t else done;
  }
  scope pops = record {
    predicate = λ s. not (queue_empty_condition s.queue);
    timed = false;
    body = λ _. pop_front_program;
  }
  scope pops_with_timeout = record {
    predicate = λ s. not (queue_empty_condition s.queue);
    timed = true;
    body = λ result. if result then pop_front_program else done;
  }
  scope peeks = record { predicate = λ s. true; timed = false; body = λ _. reads (λ s. done) }
  scope sizes = record { predicate = λ s. true; timed = false; body = λ _. reads (λ s. done) }
  scope waits_until_empty = record {
    predicate = λ s. queue_empty_condition s.queue;
    timed = false;
    body = λ _. done;
  }

  pop-effect :
      (n : ℕ) (d accepted handed_out : List A)
      → let q : BlockingQueue A = record { queue_size = n; deque = d } in
        let s : Trace A = record { queue = q; accepted = accepted; handed_out = handed_out } in
        queue_empty_condition q ≡ false
        → (run_program pop_front_program s ≡ step s pops)
          × (run_program pop_front_program s ≡ step s pops_with_timeout)
  unfolding run_program step pop pop_with_timeout queue_empty_condition front
  pop-effect n [] accepted handed_out h = absurd cc
  pop-effect n (t ∷ ts) accepted handed_out h = (refl, refl)

  timeout-effect :
      (n : ℕ) (d accepted handed_out : List A)
      → let q : BlockingQueue A = record { queue_size = n; deque = d } in
        let s : Trace A = record { queue = q; accepted = accepted; handed_out = handed_out } in
        queue_empty_condition q ≡ true → s ≡ step s pops_with_timeout
  unfolding step pop pop_with_timeout queue_empty_condition
  timeout-effect n [] accepted handed_out h = refl
  timeout-effect n (t ∷ ts) accepted handed_out h = absurd cc

  -- The scope of a call, run on its own, is the call as one step.
  effect-step :
      (s : Trace A) (i : ℕ) (c : Call A) (b : Bool)
      → let e : Entry (Call A) = record { thread = i; op = c; result = b } in
        IsAllowed scope s e → effect scope s e ≡ step s c
  unfolding run_program step push queue_not_full_condition push_with_timeout
  effect-step s i (pushes t) true (p, q) = rw p refl
  effect-step s i (pushes t) false (p, q) = absurd cc
  effect-step s i (pushes_with_timeout t) true (p, q) = rw p refl
  effect-step s i (pushes_with_timeout t) false (p, q) = rw p refl
  effect-step s i pops true (p, q) =
      (pop-effect s.queue.queue_size s.queue.deque s.accepted s.handed_out (ground arith)).0
  effect-step s i pops false (p, q) = absurd cc
  effect-step s i pops_with_timeout true (p, q) =
      (pop-effect s.queue.queue_size s.queue.deque s.accepted s.handed_out (ground arith)).1
  effect-step s i pops_with_timeout false (p, q) =
      timeout-effect s.queue.queue_size s.queue.deque s.accepted s.handed_out (ground arith)
  effect-step s i peeks b h = refl
  effect-step s i sizes b h = refl
  effect-step s i waits_until_empty b h = refl

  -- The calls whose waits returned, in order.
  abbrev pub calls : List (Entry (Call A)) → List (Call A)
  calls = map (λ e. e.op)

  replay-run :
      (s : Trace A) (es : List (Entry (Call A)))
      → AreAllowed scope s es
      → replay scope s es ≡ run s (calls es)
  unfolding run
  replay-run s [] h = refl
  replay-run s (e ∷ es) (a, h) =
      replay-run (effect scope s e) es h
      ∙ ap (λ s'. run s' (calls es)) (effect-step s e.thread e.op e.result a)

  -- What was accepted is what was handed out, in order, followed by what the queue holds, and a
  -- queue of finite size holds no more values than its size.
  abbrev pub InOrder : ℕ → Trace A → Type ℓ
  InOrder n t =
      (t.accepted ≡ t.handed_out ++ t.queue.deque)
      × ((n ≡ infinite_queue_size) ⊎ (length t.queue.deque ≤ n))

  -- In every state that threads reach which call a new queue of any size in any interleaving of
  -- their accesses to it: once the owner of the mutex, if there is one, has run the rest of its
  -- scope, the queue and what was accepted and handed out are those of the calls in the mutex's log
  -- run one after the other, each in one step. So what was accepted is what was handed out, in
  -- order, followed by what the queue holds, and a queue of finite size holds no more values than
  -- its size.
  pub interleaved-InOrder :
      (n : ℕ) (s : System (Trace A) (Call A))
      → Reach scope (start n) s
      → let t = unlocked_state s in (t ≡ run (start n) (calls s.log)) × InOrder n t
  interleaved-InOrder n s r =
      let (one, allowed, e) = serial scope (start n) s 0 r in
      let f = e ∙ replay-run (start n) s.log allowed in
      (f, subst (InOrder n) (sym f) (run_in_order n (calls s.log)))

  -- Whether the call waits for a place, or for a value.
  abbrev pub is_push : Call A → Bool
  is_push (pushes t) = true
  is_push (pushes_with_timeout t) = true
  is_push _ = false

  abbrev pub is_pop : Call A → Bool
  is_pop pops = true
  is_pop pops_with_timeout = true
  is_pop _ = false

  push-full :
      (s : Trace A) (c : Call A)
      → is_push c ≡ true
      → may_rest scope s (asleep c) ≡ true
      → queue_not_full_condition s.queue ≡ false
  push-full s (pushes t) p h = ground arith
  push-full s (pushes_with_timeout t) p h = ground arith
  push-full s _ p h = absurd cc

  pop-empty :
      (s : Trace A) (c : Call A)
      → is_pop c ≡ true
      → may_rest scope s (asleep c) ≡ true
      → queue_empty_condition s.queue ≡ true
  pop-empty s pops p h = ground arith
  pop-empty s pops_with_timeout p h = ground arith
  pop-empty s _ p h = absurd cc

  -- No queue is full and empty: the size 0 stands for an infinite one.
  full_empty :
      (q : BlockingQueue A)
      → queue_not_full_condition q ≡ false
      → queue_empty_condition q ≡ true
      → ⊥
  unfolding queue_not_full_condition queue_empty_condition
  full_empty q full empty = ground arith

  abbrev Rests : Trace A → Phase (Trace A) (Call A) → Type 0
  Rests s p = may_rest scope s p ≡ true

  -- A thread that sleeps in Push and one that sleeps in Pop, with or without a timeout, do not wait
  -- for each other: whatever the interleaving, some thread that is neither asleep nor outside of a
  -- call can take its next step.
  pub no_standoff :
      (n : ℕ) (s : System (Trace A) (Call A)) (i j : ℕ) (c d : Call A)
      → Reach scope (start n) s
      → s.phase i ≡ asleep c
      → is_push c ≡ true
      → s.phase j ≡ asleep d
      → is_pop d ≡ true
      → Progress scope s
  no_standoff n s i j c d r ci push dj pop = elim (no_lost_wakeup scope (start n) s i r) [
    | inl go ↦ go
    | inr push_rests ↦ elim (no_lost_wakeup scope (start n) s j r) [
      | inl go ↦ go
      | inr pop_rests ↦
          let full = push-full s.shared c push (subst (Rests s.shared) ci push_rests) in
          let empty = pop-empty s.shared d pop (subst (Rests s.shared) dj pop_rests) in
          absurd (full_empty s.shared.queue full empty)
    ]
  ]
