-- ===== src/Server/Steps/Dispatching.antt =====
-- async_grpc/events.cc and service.cc: an event at the front of its queue is dispatched.
use async_flatbuffer_grpc.Prelude.{
  ℕ, ◌≤◌, none, ◌≡◌, refl, ◌∙◌, ap, true, false, some, List, ◌∷◌, arith, ok, find, get_elem?,
  length,
}
use async_flatbuffer_grpc.Api.{
  Api, Event, new_connection, read, write_needed, write, finish, done, event_eq,
}
use async_flatbuffer_grpc.Common.BlockingQueue.{BlockingQueue}
use async_flatbuffer_grpc.Rpc.{Rpc, get_rpc_event, put_rpc_event}
use async_flatbuffer_grpc.Runtime.{World, QueuedEvent, completion_queue_event, store}
use async_flatbuffer_grpc.Service.{
  handle_event, handle_completion_queue_event, handle_new_connection,
}
use async_flatbuffer_grpc.Service.Tags.{flag}
use async_flatbuffer_grpc.Service.Accept.{accepted, handle_new_connection-Fine}
use async_flatbuffer_grpc.Service.Wellformed.{find-store}
use async_flatbuffer_grpc.Server.Steps.Leaving.{new_succeeds}
use async_flatbuffer_grpc.Server.Steps.Taking.{Safe, owed-there}
use async_flatbuffer_grpc.Server.Steps.Handling.{
  Fine-Safe, Reset, reset, popped, popped-Inv, is_owed, reset-Accounted, reset-Ordered, handle_lem,
  handled-Safe,
}

module _ {api : Api} where
  module _ (i p : ℕ) (w : World api) (s : Safe w) (q : BlockingQueue QueuedEvent)
      (xs : List QueuedEvent) (there : get_elem? w.event_queues i ≡ some q) where
    accept-Safe :
        (front : q.deque ≡ completion_queue_event p new_connection ∷ xs) (r : Rpc api)
        → find p w.active_rpcs ≡ some r
        → r.new_connection_event.pending ≡ true
        → (w' : World api) × (handle_completion_queue_event p new_connection
              (popped i p new_connection w s q xs there front)
            ≡ ok w')
          × Safe w'
    unfolding handle_event
    accept-Safe front r alive waiting =
        let w0 = popped i p new_connection w s q xs there front in
        let z : Reset (length w.event_queues) new_connection r (accepted r) r.new_connection_event =
          unfold get_rpc_event put_rpc_event in
          (refl, refl, λ f. ground arith, λ connected g. cc (connected, waiting), λ h. cc) in
        let ok' =
          new_succeeds i p new_connection xs q w s.ordered there front r r alive refl waiting in
        let fresh : (q : ℕ)
            → w.next_address ≤ q
            → find q (store p (accepted r) w0).active_rpcs ≡ none =
          λ q h. ground (arith, find-store p r (accepted r) w0 alive q, s.inv.fresh q h, alive) in
        let (w', e1, f1) =
          handle_new_connection-Fine p r w0 alive
            (popped-Inv i p new_connection w s q xs there front) waiting s.running in
        (
          w',
          handle_lem i p new_connection w s q xs there front r (accepted r) r.new_connection_event
                alive z
              ∙ ap (λ b. handle_new_connection p b (store p (accepted r) w0)) ok'
              ∙ e1,
          Fine-Safe (store p (accepted r) w0) w' (unfold store in s.running) (unfold store in fresh)
              (reset-Accounted i p new_connection w s q xs there front r (accepted r)
                r.new_connection_event alive z)
              (reset-Ordered i p new_connection w s q xs there front r (accepted r)
                r.new_connection_event alive z)
              f1,
        )

    other-Safe :
        (e : Event) (front : q.deque ≡ completion_queue_event p e ∷ xs) (r : Rpc api)
        → find p w.active_rpcs ≡ some r
        → flag e r ≡ true
        → event_eq e new_connection ≡ false
        → (w' : World api) × (handle_completion_queue_event p e (popped i p e w s q xs there front)
            ≡ ok w')
          × Safe w'
    other-Safe e front r alive h other =
        let (r', c, z) = reset (length w.event_queues) e r h in
        handled-Safe i p e w s q xs there front r r' c alive z other h

    pub event-Safe :
        (e : Event) (front : q.deque ≡ completion_queue_event p e ∷ xs)
        → (w' : World api) × (handle_completion_queue_event p e (popped i p e w s q xs there front)
            ≡ ok w')
          × Safe w'
    event-Safe e front =
        let (r, alive, h) = owed-there p e w (is_owed i p e w s q xs there front) in
        by_event e front r alive h
      where
        by_event :
            (e : Event) (front : q.deque ≡ completion_queue_event p e ∷ xs) (r : Rpc api)
            → find p w.active_rpcs ≡ some r
            → flag e r ≡ true
            → (w' : World api) × (handle_completion_queue_event p e
                  (popped i p e w s q xs there front)
                ≡ ok w')
              × Safe w'
        by_event new_connection front r alive h = accept-Safe front r alive h
        by_event read front r alive h = other-Safe read front r alive h refl
        by_event write_needed front r alive h = cc
        by_event write front r alive h = other-Safe write front r alive h refl
        by_event finish front r alive h = other-Safe finish front r alive h refl
        by_event done front r alive h = other-Safe done front r alive h refl
