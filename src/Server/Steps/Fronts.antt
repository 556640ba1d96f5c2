-- ===== src/Server/Steps/Fronts.antt =====
-- async_grpc/server.cc: RunEventQueue, on an event of either kind at the front of its queue.
use async_flatbuffer_grpc.Prelude.{
  ℕ, ◌≡◌, refl, ◌∙◌, true, some, List, [], ◌∷◌, arith, ok, find, get_elem?, set, Bool-cases,
  Option-cases, inl, inr,
}
use async_flatbuffer_grpc.Api.{Api, done}
use async_flatbuffer_grpc.Common.BlockingQueue.{BlockingQueue}
use async_flatbuffer_grpc.Rpc.{Rpc, handle_send_queue}
use async_flatbuffer_grpc.Runtime.{World, QueuedEvent, completion_queue_event, internal_event}
use async_flatbuffer_grpc.Service.{handle_event, handle_queued_event, handle_if_alive, handle_write}
use async_flatbuffer_grpc.Service.Tags.{flag}
use async_flatbuffer_grpc.Service.Wellformed.{Inv}
use async_flatbuffer_grpc.Service.Quiet.{Connected}
use async_flatbuffer_grpc.Service.Fine.{
  Fine, after_update, update_rpc_lem, update-Fine, after_update-there, Pays,
}
use async_flatbuffer_grpc.Service.Removal.{handle_write-Fine, remove_if_not_pending_lem}
use async_flatbuffer_grpc.Server.Steps.Leaving.{internal-Ordered}
use async_flatbuffer_grpc.Server.Steps.Taking.{Safe, count_queues-set}
use async_flatbuffer_grpc.Server.Steps.Handling.{Safe-Fine, popped_queue-Inv}
use async_flatbuffer_grpc.Server.Steps.Dispatching.{event-Safe}

module _ {api : Api} where
  -- WRITE_NEEDED of an Rpc that still waits for its connection changes nothing that matters.
  waiting_write-Fine :
      (p : ℕ) (r : Rpc api) (w : World api)
      → Inv w
      → find p w.active_rpcs ≡ some r
      → r.new_connection_event.pending ≡ true
      → (w' : World api) × (handle_write p true w ≡ ok w') × Fine w w'
  unfolding handle_write
  waiting_write-Fine p r w v there waiting =
      let g = v.rpcs p r there in
      let empty : r.send_queue ≡ [] = ground (arith, g) in
      let nothing : handle_send_queue r ≡ ok (r, []) = unfold handle_send_queue in rw empty refl in
      let busy : flag done r ≡ true = ground (arith, g) in
      let pays : Pays r r [] = λ e. omega arith in
      let there' = after_update-there p r r [] w there pays in
      (
        after_update p r [] w,
        rw (update_rpc_lem p handle_send_queue r r [] w there nothing)
            (remove_if_not_pending_lem p r (after_update p r [] w) there' ∙ rw busy refl),
        update-Fine p r r [] w there pays refl v g,
      )

  write_needed-Safe :
      (p : ℕ) (w : World api)
      → Safe w
      → (w' : World api) × (handle_if_alive (find p w.active_rpcs) p w ≡ ok w') × Safe w'
  unfolding handle_if_alive handle_event
  write_needed-Safe p w s = elim (Option-cases (find p w.active_rpcs)) [
    | inl gone ↦ (w, rw gone refl, s)
    | inr (r, there) ↦ elim (Bool-cases r.new_connection_event.pending) [
      | inl waiting ↦
          let (w', e, f) = waiting_write-Fine p r w s.inv there waiting in
          (w', rw there e, Safe-Fine w w' s f)
      | inr connected ↦
          let c : Connected p w = record { rpc = r; there = there; connected = connected } in
          let (w', e, f) = handle_write-Fine p true w s.inv c in
          (w', rw there e, Safe-Fine w w' s f)
    ]
  ]

  module _ (i : ℕ) (w : World api) (s : Safe w) (q : BlockingQueue QueuedEvent)
      (there : get_elem? w.event_queues i ≡ some q) where
    internal-Safe :
        (p : ℕ) (xs : List QueuedEvent)
        → q.deque ≡ internal_event p ∷ xs
        → Safe (record w {
          event_queues = set w.event_queues i (record { queue_size = q.queue_size; deque = xs });
        })
    internal-Safe p xs front = record {
      inv = popped_queue-Inv i xs q w s.inv there;
      running = s.running;
      accounted = λ p' e. omega (
        arith,
        count_queues-set p' e i q.queue_size (internal_event p) xs q w.event_queues there front,
        s.accounted p' e,
      );
      ordered = internal-Ordered i p xs q w s.ordered there front;
    }

    pub front-Safe :
        (x : QueuedEvent) (xs : List QueuedEvent)
        → q.deque ≡ x ∷ xs
        → (w' : World api) × (handle_queued_event x (record w {
          event_queues = set w.event_queues i (record { queue_size = q.queue_size; deque = xs });
        })
            ≡ ok w')
          × Safe w'
    unfolding handle_queued_event
    front-Safe (completion_queue_event p e) xs front = event-Safe i p w s q xs there e front
    front-Safe (internal_event p) xs front = write_needed-Safe p _ (internal-Safe p xs front)
