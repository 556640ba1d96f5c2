-- ===== src/Server/Steps/Handling.antt =====
-- async_grpc/server.cc: RunEventQueue, with the dispatch of async_grpc/events.cc, on an event at the
-- front of its queue.
use async_flatbuffer_grpc.Prelude.{
  ℕ, ◌+◌, ◌≤◌, ◌<◌, none, ◌≡◌, refl, sym, ◌∙◌, Bool, true, false, ◌&&◌, some, List, ◌∷◌, arith, ok,
  find, get_elem?, set, length, length-set, ◌==◌, if◌then◌else◌,
}
use async_flatbuffer_grpc.Api.{
  Api, Event, new_connection, read, write_needed, write, finish, done, event_eq,
  CompletionQueueRpcEvent,
}
use async_flatbuffer_grpc.Common.BlockingQueue.{BlockingQueue}
use async_flatbuffer_grpc.Rpc.{Rpc, get_rpc_event, put_rpc_event}
use async_flatbuffer_grpc.Runtime.{World, QueuedEvent, completion_queue_event, store, load}
use async_flatbuffer_grpc.Service.{handle_event, handle_completion_queue_event}
use async_flatbuffer_grpc.Service.Tags.{bit, flag, weight, owed, owed-store}
use async_flatbuffer_grpc.Service.Wellformed.{Good, Inv, store-there, store-Inv}
use async_flatbuffer_grpc.Service.Order.{Ordered, Grown-Ordered}
use async_flatbuffer_grpc.Service.Quiet.{Connected}
use async_flatbuffer_grpc.Service.Fine.{Fine}
use async_flatbuffer_grpc.Service.Removal.{
  handle_write-Fine, handle_finish-Fine, handle_done-Fine, handle_read-Fine,
}
use async_flatbuffer_grpc.Server.Steps.Leaving.{done_connected, popped-Ordered}
use async_flatbuffer_grpc.Server.Steps.Taking.{Safe, count_queues-set, AllInfinite-set}

module _ {api : Api} where
  -- What is true when an event is taken off its queue and its pending flag is reset.
  abbrev pub Accounted : World api → Type 0
  Accounted w = (p : ℕ) (e : Event) → weight p e w ≡ owed p e w

  pub Fine-Safe :
      (v w : World api)
      → v.shutting_down ≡ false
      → ((p : ℕ) → v.next_address ≤ p → find p v.active_rpcs ≡ none)
      → Accounted v
      → Ordered v
      → Fine v w
      → Safe w
  Fine-Safe v w running fresh a o f = record {
    inv = f.inv;
    running = f.stopped ∙ running;
    accounted = λ p e. omega (arith, f.balanced p e, a p e);
    ordered = Grown-Ordered v w fresh a f.grown o;
  }

  pub Safe-Fine : (v w : World api) → Safe v → Fine v w → Safe w
  Safe-Fine v w s f = Fine-Safe v w s.running s.inv.fresh s.accounted s.ordered f

  pub popped_queue-Inv :
      (i : ℕ) (xs : List QueuedEvent) (q : BlockingQueue QueuedEvent) (w : World api)
      → Inv w
      → get_elem? w.event_queues i ≡ some q
      → Inv (record w {
        event_queues = set w.event_queues i (record { queue_size = q.queue_size; deque = xs });
      })
  popped_queue-Inv i xs q w v there = record {
    threads = v.threads ∙ sym same;
    some_thread = omega (arith, same, v.some_thread);
    infinite = AllInfinite-set i xs q w.event_queues there v.infinite;
    fresh = v.fresh;
    rpcs = λ p r e. rw same (v.rpcs p r e);
  }
    where
      same :
          length (set w.event_queues i (record { queue_size = q.queue_size; deque = xs }))
          ≡ length w.event_queues
      same = length-set w.event_queues i _

  -- The Rpc with the pending flag of the event reset.
  abbrev pub Reset : ℕ → Event → Rpc api → Rpc api → CompletionQueueRpcEvent → Type 0
  Reset n e r r' c =
      (get_rpc_event e r ≡ ok c)
      × (put_rpc_event e (record c { pending = false }) r ≡ r')
      × ((f : Event) → flag f r' ≡ (if event_eq e f then false else flag f r))
      × (r.new_connection_event.pending ≡ false → Good n r → Good n r')
      × (event_eq e new_connection ≡ false → r'.new_connection_event ≡ r.new_connection_event)

  pub reset :
      (n : ℕ) (e : Event) (r : Rpc api)
      → flag e r ≡ true
      → (r' : Rpc api) × (c : CompletionQueueRpcEvent) × Reset n e r r' c
  unfolding get_rpc_event put_rpc_event
  reset n new_connection r h = (
    _,
    r.new_connection_event,
    (refl, refl, λ f. ground arith, λ i g. ground (arith, g), λ h. cc),
  )
  reset n read r h =
      (_, r.read_event, (refl, refl, λ f. ground arith, λ i g. ground (arith, g), λ h. refl))
  reset n write_needed r h = cc
  reset n write r h =
      (_, r.write_event, (refl, refl, λ f. ground arith, λ i g. ground (arith, g), λ h. refl))
  reset n finish r h =
      (_, r.finish_event, (refl, refl, λ f. ground arith, λ i g. ground (arith, g), λ h. refl))
  reset n done r h =
      (_, r.done_event, (refl, refl, λ f. ground arith, λ i g. ground (arith, g), λ h. refl))

  -- An event that only a connected Rpc has pending, or DONE, as gRPC promises.
  connected_lem :
      (n : ℕ) (e : Event) (r : Rpc api)
      → event_eq e new_connection ≡ false
      → flag e r ≡ true
      → Good n r
      → (event_eq e done ≡ true → r.new_connection_event.pending ≡ false)
      → r.new_connection_event.pending ≡ false
  connected_lem n new_connection r other h g promised = cc
  connected_lem n read r other h g promised = ground (arith, g)
  connected_lem n write_needed r other h g promised = cc
  connected_lem n write r other h g promised = ground (arith, g)
  connected_lem n finish r other h g promised = ground (arith, g)
  connected_lem n done r other h g promised = promised refl

  handle_connected :
      (p : ℕ) (e : Event) (ok' : Bool) (w : World api)
      → event_eq e new_connection ≡ false
      → Inv w
      → (c : Connected p w) → flag e c.rpc ≡ false
      → (w' : World api) × (handle_event e p ok' w ≡ ok w') × Fine w w'
  unfolding handle_event
  handle_connected p new_connection ok' w other v c h = cc
  handle_connected p read ok' w other v c h = handle_read-Fine p ok' w v c h
  handle_connected p write_needed ok' w other v c h = handle_write-Fine p ok' w v c
  handle_connected p write ok' w other v c h = handle_write-Fine p ok' w v c
  handle_connected p finish ok' w other v c h = handle_finish-Fine p ok' w v c
  handle_connected p done ok' w other v c h = handle_done-Fine p ok' w v c

  module _ (i p : ℕ) (e : Event) (w : World api) (s : Safe w) (q : BlockingQueue QueuedEvent)
      (xs : List QueuedEvent) (there : get_elem? w.event_queues i ≡ some q)
      (front : q.deque ≡ completion_queue_event p e ∷ xs) where
    abbrev pub popped : World api
    popped = record w {
      event_queues = set w.event_queues i (record { queue_size = q.queue_size; deque = xs });
    }

    weight-popped :
        (p' : ℕ) (f : Event) → weight p' f popped + bit (p' == p && event_eq f e) ≡ weight p' f w
    weight-popped p' f = omega (
      arith,
      count_queues-set p' f i q.queue_size (completion_queue_event p e) xs q w.event_queues there
          front,
    )

    pub popped-Inv : Inv popped
    popped-Inv = popped_queue-Inv i xs q w s.inv there

    pub is_owed : 0 < owed p e w
    is_owed = ground (arith, s.accounted p e, weight-popped p e, self e)
      where
        self : (f : Event) → (p == p && event_eq f f) ≡ true
        self f = ground arith

    module _ (r r' : Rpc api) (c : CompletionQueueRpcEvent) (alive : find p w.active_rpcs ≡ some r)
        (z : Reset (length w.event_queues) e r r' c) where
      pub reset-Accounted : Accounted (store p r' popped)
      unfolding store
      reset-Accounted p' f = ground (
        arith,
        weight-popped p' f,
        s.accounted p' f,
        owed-store p p' f r r' popped alive,
        z.2 f,
        alive,
      )

      pub reset-Ordered : Ordered (store p r' popped)
      reset-Ordered =
          popped-Ordered i p e xs q w s.ordered there front r r' alive (z.2 new_connection) z.4

      pub handle_lem :
          handle_completion_queue_event p e popped ≡ handle_event e p c.ok (store p r' popped)
      unfolding handle_completion_queue_event load
      handle_lem = rw (alive, z.0, z.1) refl

      -- An event of a connected Rpc.
      pub handled-Safe :
          event_eq e new_connection ≡ false
          → flag e r ≡ true
          → (w' : World api) × (handle_completion_queue_event p e popped ≡ ok w') × Safe w'
      handled-Safe other h =
          let v = store p r' popped in
          let g = s.inv.rpcs p r alive in
          let connected =
            connected_lem (length w.event_queues) e r other h g
              (done_connected i p e xs q w s.ordered there front r r' alive) in
          let r'-Good : Good (length popped.event_queues) r' =
            rw (length-set w.event_queues i (record { queue_size = q.queue_size; deque = xs }))
              (z.3 connected g) in
          let v-Inv = store-Inv p r r' popped alive popped-Inv r'-Good in
          let c' : Connected p v = record {
            rpc = r';
            there = store-there p r r' popped alive;
            connected = ground (arith, z.2 new_connection, connected, other);
          } in
          let self : (f : Event) → event_eq f f ≡ true = λ f. ground arith in
          let flag' : flag e r' ≡ false = ground (arith, z.2 e, self e) in
          let (w', e1, f1) = handle_connected p e c.ok v other v-Inv c' flag' in
          (
            w',
            handle_lem ∙ e1,
            Fine-Safe v w' (unfold store in s.running) v-Inv.fresh reset-Accounted reset-Ordered f1,
          )
