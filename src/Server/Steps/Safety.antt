-- ===== src/Server/Steps/Safety.antt =====
-- async_grpc/server.cc: a running server is safe. The code aborts if it follows a pointer to a
-- destroyed Rpc, a null pointer, or fails a CHECK; all those are faults of the model.
use async_flatbuffer_grpc.Prelude.{
  ℕ, zero, suc, ◌≡◌, refl, ap, none, some, List, [], ◌∷◌, arith, ok, find, get_elem?, set, Result,
  subst, Option, Option-cases, Bool-cases, length, inl, inr,
}
use async_flatbuffer_grpc.Api.{Api, SendItem, GrpcCall}
use async_flatbuffer_grpc.Common.BlockingQueue.{BlockingQueue}
use async_flatbuffer_grpc.Common.BlockingQueue
use async_flatbuffer_grpc.Runtime.{
  World, QueuedEvent, enqueue_and_notify, writer_call, writer_write, writer_writes_done,
  writer_finish, rpc_write, rpc_finish, load, store,
}
use async_flatbuffer_grpc.Service.Quiet.{Connected, enqueue-Quiet, store-Quiet}
use async_flatbuffer_grpc.Service.Fine.{Quiet-Fine}
use async_flatbuffer_grpc.Service.Wellformed.{Good}
use async_flatbuffer_grpc.Server.Steps.{
  Step, message, completion, event_loop, has_request, receive_request, run_message,
  write_from_outside, writes_done_from_outside, finish_from_outside, run_completion_queue,
  handle_popped, run_event_queue, ignore_result, run_step, run_steps, CompletionPromised,
  ConnectedIfAlive, Promised, PromisedAll,
}
use async_flatbuffer_grpc.Server.Steps.Taking.{Safe, owed-there}
use async_flatbuffer_grpc.Server.Steps.Completing.{call-owed, completion-Safe}
use async_flatbuffer_grpc.Server.Steps.Handling.{Safe-Fine}
use async_flatbuffer_grpc.Server.Steps.Fronts.{front-Safe}

pub set-same {ℓ} :
    {A : Type ℓ} (i : ℕ) (x : A) (xs : List A) → get_elem? xs i ≡ some x → set xs i x ≡ xs
set-same i x [] h = refl
set-same zero x (y ∷ xs) h = ground (arith, h)
set-same (suc i) x (y ∷ xs) h = ap (λ l. y ∷ l) (set-same i x xs h)

module _ {A : Type 0} (q : BlockingQueue A) where
  pub pop-empty : q.deque ≡ [] → BlockingQueue.pop_with_timeout q ≡ (none, q)
  unfolding BlockingQueue.pop_with_timeout BlockingQueue.pop BlockingQueue.queue_empty_condition
  pop-empty h = rw h refl

  pub pop-front :
      (x : A) (xs : List A)
      → q.deque ≡ x ∷ xs
      → BlockingQueue.pop_with_timeout q
        ≡ (some x, record { queue_size = q.queue_size; deque = xs })
  unfolding BlockingQueue.pop_with_timeout BlockingQueue.pop BlockingQueue.queue_empty_condition
  pop-front x xs h = rw h refl

module _ {api : Api} where
  abbrev pub Steps : Result (World api) → Type 0
  Steps m = (w' : World api) × (m ≡ ok w') × Safe w'

  loop-Safe :
      (i : ℕ) (w : World api) (q : BlockingQueue QueuedEvent)
      → Safe w
      → get_elem? w.event_queues i ≡ some q
      → Steps (run_event_queue (some q) i w)
  unfolding run_event_queue handle_popped
  loop-Safe i w q s there = by_deque q.deque refl
    where
      by_deque : (d : List QueuedEvent) → q.deque ≡ d → Steps (run_event_queue (some q) i w)
      by_deque [] h = (w, rw (pop-empty q h, set-same i q w.event_queues there) refl, s)
      by_deque (x ∷ xs) h =
          let (w', e, s') = front-Safe i w s q there x xs h in (w', rw (pop-front q x xs h) e, s')

  message-Safe :
      (n : ℕ) (m : api.Request) (o : Option (ℕ × GrpcCall api)) (w : World api)
      → Safe w
      → get_elem? w.calls n ≡ o
      → Steps (run_message o m w)
  unfolding run_message receive_request load
  message-Safe n m none w s at_grpc = (w, refl, s)
  message-Safe n m (some (p, c)) w s at_grpc = elim (Bool-cases (has_request c.op)) [
    | inl request ↦
        let (r, there, h) = owed-there p c.tag w (call-owed n p c w s at_grpc) in
        let r' = record r { request = m } in
        let g = s.inv.rpcs p r there in
        let g' : Good (length w.event_queues) r' = ground (arith, g) in
        (
          store p r' w,
          rw (request, there) refl,
          Safe-Fine w (store p r' w) s (
              Quiet-Fine w (store p r' w)
                (store-Quiet p r r' w there (λ e. ground arith) refl s.inv g')),
        )
    | inr other ↦ (w, rw other refl, s)
  ]

  outside-Safe :
      (p : ℕ) (item : SendItem api) (w : World api)
      → Safe w
      → ConnectedIfAlive (find p w.active_rpcs)
      → Steps (ignore_result (writer_call (enqueue_and_notify p item) (find p w.active_rpcs) w))
  unfolding writer_call ignore_result
  outside-Safe p item w s connected = elim (Option-cases (find p w.active_rpcs)) [
    | inl gone ↦ (w, rw gone refl, s)
    | inr (r, there) ↦
        let c : Connected p w = record {
          rpc = r;
          there = there;
          connected = subst ConnectedIfAlive there connected;
        } in
        let (w', e, f) = enqueue-Quiet p item w s.inv c in
        (w', rw (there, e) refl, Safe-Fine w w' s (Quiet-Fine w w' f))
  ]

  pub step-Safe :
      (step : Step api) (w : World api) → Safe w → Promised step w → Steps (run_step step w)
  unfolding run_step writer_write writer_writes_done writer_finish rpc_write rpc_finish
  step-Safe (message n m) w s promised = message-Safe n m (get_elem? w.calls n) w s refl
  step-Safe (completion n ok') w s promised = elim (Option-cases (get_elem? w.calls n)) [
    | inl nothing ↦ (w, unfold run_completion_queue in rw nothing refl, s)
    | inr ((p, c), there) ↦
        let kept = subst (λ o. CompletionPromised o ok' w) there promised in
        let (w', e, s') = completion-Safe n p ok' c w s there kept in (w', rw there e, s')
  ]
  step-Safe (event_loop i) w s promised = elim (Option-cases (get_elem? w.event_queues i)) [
    | inl nothing ↦ (w, unfold run_event_queue in rw nothing refl, s)
    | inr (q, there) ↦ let (w', e, s') = loop-Safe i w q s there in (w', rw there e, s')
  ]
  step-Safe (write_from_outside p m) w s promised = outside-Safe p _ w s promised
  step-Safe (writes_done_from_outside p) w s promised = outside-Safe p _ w s promised
  step-Safe (finish_from_outside p t) w s promised = outside-Safe p _ w s promised

  -- From a safe state, any schedule of messages, completions, turns of the event loops in any order, and calls
  -- of Writers runs to its end, if gRPC completes a request for an invocation with `ok`, and DONE of
  -- an Rpc only when no such request of it is outstanding, and a Writer that is used belongs to an Rpc
  -- that is connected or gone: no step follows a pointer to an Rpc that was destroyed or a null
  -- pointer, or fails a CHECK. The state at the end is safe again, so each tag that is at gRPC or in a
  -- queue then belongs to an Rpc that exists and has that event pending, each pending event has its
  -- tag at gRPC or in a queue exactly once, and the DONE of an Rpc that waits for its connection is in
  -- no queue before its NEW_CONNECTION.
  pub run_steps-Safe :
      (steps : List (Step api)) (w : World api)
      → Safe w
      → PromisedAll steps w
      → (w' : World api) × (run_steps steps w ≡ ok w') × Safe w'
  unfolding run_steps
  run_steps-Safe [] w s promised = (w, refl, s)
  run_steps-Safe (step ∷ steps) w s promised =
      let (w1, e1, s1) = step-Safe step w s promised.0 in
      let (w2, e2, s2) = run_steps-Safe steps w1 s1 (promised.1 w1 e1) in (w2, rw e1 e2, s2)
