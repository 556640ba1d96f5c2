-- ===== src/Server/Steps/Completing.antt =====
-- async_grpc/server.cc: RunCompletionQueue, on a tag that gRPC completed.
use async_flatbuffer_grpc.Prelude.{
  ℕ, ◌+◌, ◌<◌, ◌≡◌, refl, Bool, true, ◌&&◌, ◌||◌, if◌then◌else◌, some, [], ◌∷◌, arith, ok, find,
  get_elem?, length, ◌==◌,
}
use async_flatbuffer_grpc.Api.{
  Api, Event, new_connection, read, write_needed, write, finish, done, GrpcCall, event_eq,
  CompletionQueueRpcEvent,
}
use async_flatbuffer_grpc.Rpc.{Rpc, get_rpc_event, put_rpc_event}
use async_flatbuffer_grpc.Runtime.{World, completion_queue_event, store, load}
use async_flatbuffer_grpc.Service.{complete_event}
use async_flatbuffer_grpc.Service.Tags.{
  bit, count_calls, count_queues, flag, weight, owed, owed-store, pushed, push_event_lem,
}
use async_flatbuffer_grpc.Service.Wellformed.{Good, Inv, store-Inv, pushed-Inv, weight-pushed}
use async_flatbuffer_grpc.Service.Order.{Ordered}
use async_flatbuffer_grpc.Server.Steps.{CallPromised, drop_at, run_completion_queue}
use async_flatbuffer_grpc.Server.Steps.Arriving.{arrived-Ordered}
use async_flatbuffer_grpc.Server.Steps.Taking.{Safe, owed-there, count_calls-drop_at}

module _ {api : Api} where
  -- The event of an Rpc that a tag points to, with its result.
  abbrev pub Completed : ℕ → Event → Bool → Rpc api → Rpc api → CompletionQueueRpcEvent → Type 0
  Completed n e ok' r r' c =
      (get_rpc_event e r ≡ ok c)
      × (put_rpc_event e (record c { ok = ok' }) r ≡ r')
      × (c.event_queue < n)
      × Good n r'
      × ((f : Event) → flag f r' ≡ flag f r)
      × (r'.new_connection_event ≡ (
          if event_eq e new_connection
          then record (r.new_connection_event) { ok = ok' }
          else r.new_connection_event))
      × ((event_eq e new_connection || event_eq e done) ≡ true
          → c.event_queue ≡ r.new_connection_event.event_queue)

  completed :
      (n : ℕ) (e : Event) (ok' : Bool) (r : Rpc api)
      → flag e r ≡ true
      → Good n r
      → (r' : Rpc api) × (c : CompletionQueueRpcEvent) × Completed n e ok' r r' c
  unfolding get_rpc_event put_rpc_event
  completed n new_connection ok' r h g = (
    _,
    r.new_connection_event,
    (refl, refl, g.new_connection_queue, ground (arith, g), λ f. ground arith, refl, λ h. refl),
  )
  completed n read ok' r h g = (
    _,
    r.read_event,
    (refl, refl, g.read_queue, ground (arith, g), λ f. ground arith, refl, λ h. cc),
  )
  completed n write_needed ok' r h g = cc
  completed n write ok' r h g = (
    _,
    r.write_event,
    (refl, refl, g.write_queue, ground (arith, g), λ f. ground arith, refl, λ h. cc),
  )
  completed n finish ok' r h g = (
    _,
    r.finish_event,
    (refl, refl, g.finish_queue, ground (arith, g), λ f. ground arith, refl, λ h. cc),
  )
  completed n done ok' r h g = (
    _,
    r.done_event,
    (refl, refl, g.done_queue, ground (arith, g), λ f. ground arith, refl, λ h. g.same_queue),
  )

  -- The two promises on a call that completes.
  new_promised :
      (e : Event) (p : ℕ) (ok' : Bool) (w : World api)
      → CallPromised e p ok' w
      → event_eq e new_connection ≡ true
      → ok' ≡ true
  new_promised e p ok' w h is_new = ground (arith, h)

  done_promised :
      (e : Event) (p : ℕ) (ok' : Bool) (w : World api)
      → CallPromised e p ok' w
      → event_eq e done ≡ true
      → count_calls p new_connection w.calls ≡ 0
  done_promised e p ok' w h is_done = ground (arith, h)

  tag_self : (p : ℕ) (c : GrpcCall api) → count_calls p c.tag ((p, c) ∷ []) ≡ 1
  tag_self p c = self c.tag
    where
      self : (e : Event) → bit (p == p && event_eq e e) + 0 ≡ 1
      self e = ground arith

  -- A call that is at gRPC is one that its Rpc waits for.
  pub call-owed :
      (n p : ℕ) (c : GrpcCall api) (w : World api)
      → Safe w
      → get_elem? w.calls n ≡ some (p, c)
      → 0 < owed p c.tag w
  call-owed n p c w s at_grpc =
      omega (
        arith,
        s.accounted p c.tag,
        count_calls-drop_at p c.tag n p c w.calls at_grpc,
        tag_self p c,
      )

  module _ (n p : ℕ) (ok' : Bool) (c : GrpcCall api) (w : World api) (s : Safe w)
      (at_grpc : get_elem? w.calls n ≡ some (p, c)) (promised : CallPromised c.tag p ok' w) where
    abbrev taken : World api
    taken = record w { calls = drop_at n w.calls }

    taken-Inv : Inv taken
    taken-Inv = record {
      threads = s.inv.threads;
      some_thread = s.inv.some_thread;
      infinite = s.inv.infinite;
      fresh = s.inv.fresh;
      rpcs = s.inv.rpcs;
    }

    taken-Ordered : Ordered taken
    taken-Ordered = record { ordered = s.ordered.ordered }

    module _ (r r' : Rpc api) (ev : CompletionQueueRpcEvent) (there : find p w.active_rpcs ≡ some r)
        (z : Completed (length w.event_queues) c.tag ok' r r' ev) where
      abbrev arrived : World api
      arrived = pushed ev.event_queue (completion_queue_event p c.tag) (store p r' taken)

      complete_event_lem : complete_event p c.tag ok' taken ≡ ok arrived
      unfolding complete_event load
      complete_event_lem =
          let stored = store-Inv p r r' taken there taken-Inv z.3 in
          let inside : ev.event_queue < length (store p r' taken).event_queues =
            unfold store in z.2 in
          rw (there, z.0, z.1)
            (push_event_lem ev.event_queue (completion_queue_event p c.tag) (store p r' taken)
              inside stored.infinite)

      arrived-accounted : (q : ℕ) (e : Event) → weight q e arrived ≡ owed q e arrived
      unfolding store
      arrived-accounted q e = ground (
        arith,
        weight-pushed ev.event_queue (completion_queue_event p c.tag) (store p r' taken) z.2 q e,
        count_calls-drop_at q e n p c w.calls at_grpc,
        s.accounted q e,
        owed-store p q e r r' taken there,
        z.4 e,
        there,
      )

      request_first :
          event_eq c.tag done ≡ true
          → r.new_connection_event.pending ≡ true
          → 0 < count_queues p new_connection w.event_queues
      request_first is_done waiting =
          ground (
            arith,
            s.accounted p new_connection,
            there,
            done_promised c.tag p ok' w promised is_done,
          )

      arrived_in_order : Ordered arrived
      arrived_in_order =
          arrived-Ordered p ev.event_queue c.tag ok' r r' taken there taken-Ordered z.5 z.6
            (new_promised c.tag p ok' w promised) request_first

      arrived-Safe : Safe arrived
      arrived-Safe =
          let stored = store-Inv p r r' taken there taken-Inv z.3 in
          let inside : ev.event_queue < length (store p r' taken).event_queues =
            unfold store in z.2 in
          record {
            inv =
                pushed-Inv ev.event_queue (completion_queue_event p c.tag) (store p r' taken) inside
                  stored;
            running = unfold store in s.running;
            accounted = arrived-accounted;
            ordered = arrived_in_order;
          }

    pub completion-Safe :
        (w' : World api) × (run_completion_queue (some (p, c)) n ok' w ≡ ok w') × Safe w'
    unfolding run_completion_queue
    completion-Safe =
        let (r, there, h) = owed-there p c.tag w (call-owed n p c w s at_grpc) in
        let (r', ev, z) = completed (length w.event_queues) c.tag ok' r h (s.inv.rpcs p r there) in
        (arrived r r' ev there z, complete_event_lem r r' ev there z, arrived-Safe r r' ev there z)
