-- ===== src/Service/Wellformed.antt =====
-- The states of a service (async_grpc/service.cc with its Rpcs and event queues) between two steps.
use async_flatbuffer_grpc.Prelude.{
  ℕ, ◌+◌, ◌<◌, ◌≤◌, ◌≡◌, refl, Bool, true, false, none, some, [], arith, if◌then◌else◌, find,
  find-assign, length, is_some, ◌==◌,
}
use async_flatbuffer_grpc.Api.{Api, Event}
use async_flatbuffer_grpc.Rpc.{Rpc}
use async_flatbuffer_grpc.Rpc.SendQueue.{HasInterface}
use async_flatbuffer_grpc.Runtime.{World, QueuedEvent, store}
use async_flatbuffer_grpc.Service.Tags.{
  flag, bit, weight, owed, owed-store, pushed, AllInfinite, AllInfinite-push_at, length-push_at,
  count_queues-push_at, is_tag,
}

module _ {api : Api} where
  -- An Rpc whose NEW_CONNECTION event is pending has no handler and nothing under way but DONE;
  -- afterwards it has its handler.
  abbrev pub Phase : Bool → Rpc api → Type 0
  Phase true r =
      (r.handler ≡ none)
      × (r.send_queue ≡ [])
      × (r.read_event.pending ≡ false)
      × (r.write_event.pending ≡ false)
      × (r.finish_event.pending ≡ false)
      × (r.done_event.pending ≡ true)
  Phase false r = is_some r.handler ≡ true

  -- Below: the queues that the Rpc and its events point to are among the n event queues.
  pub record Good (n : ℕ) (r : Rpc api) : Type 0 where
    pub interface : HasInterface r
    pub queue : r.event_queue < n
    pub new_connection_queue : r.new_connection_event.event_queue < n
    pub read_queue : r.read_event.event_queue < n
    pub write_queue : r.write_event.event_queue < n
    pub finish_queue : r.finish_event.event_queue < n
    pub done_queue : r.done_event.event_queue < n
    pub same_queue : r.done_event.event_queue ≡ r.new_connection_event.event_queue
    pub phase : Phase r.new_connection_event.pending r

  pub record Inv (w : World api) : Type 0 where
    pub threads : w.num_event_threads ≡ length w.event_queues
    pub some_thread : 0 < length w.event_queues
    pub infinite : AllInfinite w.event_queues
    pub fresh : (p : ℕ) → w.next_address ≤ p → find p w.active_rpcs ≡ none
    pub rpcs :
        (p : ℕ) (r : Rpc api) → find p w.active_rpcs ≡ some r → Good (length w.event_queues) r

  -- The tags that are out are those that are owed, as far as `v` can tell from `w`.
  abbrev pub Balanced : World api → World api → Type 0
  Balanced v w = (p : ℕ) (e : Event) → weight p e w + owed p e v ≡ weight p e v + owed p e w

  pub Balanced-trans : (u v w : World api) → Balanced u v → Balanced v w → Balanced u w
  Balanced-trans u v w g h p e = omega (arith, g p e, h p e)

  -- What is left alone by every step but Add and Remove.
  pub record Kept (v w : World api) : Type 0 where
    pub stopped : w.shutting_down ≡ v.shutting_down
    pub queues : length w.event_queues ≡ length v.event_queues
    pub address : w.next_address ≡ v.next_address
    pub alive : (p : ℕ) → is_some (find p w.active_rpcs) ≡ is_some (find p v.active_rpcs)

  pub Kept-trans : {u v w : World api} → Kept u v → Kept v w → Kept u w
  Kept-trans g h = record {
    stopped = ground (arith, g.stopped, h.stopped);
    queues = omega (arith, g.queues, h.queues);
    address = omega (arith, g.address, h.address);
    alive = λ p. ground (arith, g.alive p, h.alive p);
  }

  module _ (p : ℕ) (r r' : Rpc api) (w : World api) (there : find p w.active_rpcs ≡ some r) where
    pub find-store :
        (q : ℕ)
        → find q (store p r' w).active_rpcs ≡ (if p == q then some r' else find q w.active_rpcs)
    unfolding store
    find-store q = rw (find-assign p q r' w.active_rpcs, there) refl

    pub store-there : find p (store p r' w).active_rpcs ≡ some r'
    store-there = rw (find-store p) (ground arith)

    pub store-Inv : Inv w → Good (length w.event_queues) r' → Inv (store p r' w)
    unfolding store
    store-Inv v g = record {
      threads = v.threads;
      some_thread = v.some_thread;
      infinite = v.infinite;
      fresh = λ q h. ground (arith, find-store q, v.fresh q h, there);
      rpcs = λ q s e. ground (arith, find-store q, v.rpcs q s);
    }

    pub store-Kept : Kept w (store p r' w)
    unfolding store
    store-Kept = record {
      stopped = refl;
      queues = refl;
      address = refl;
      alive = λ q. ground (arith, find-store q, there);
    }

    -- An assignment that changes no pending flag.
    pub store-Balanced : ((e : Event) → flag e r' ≡ flag e r) → Balanced w (store p r' w)
    unfolding store
    store-Balanced same q e = ground (arith, owed-store p q e r r' w there, same e, there)

  module _ (i : ℕ) (x : QueuedEvent) (w : World api) (inside : i < length w.event_queues) where
    pub pushed-Inv : Inv w → Inv (pushed i x w)
    pushed-Inv v = record {
      threads = omega (arith, v.threads, length-push_at i x w.event_queues);
      some_thread = omega (arith, v.some_thread, length-push_at i x w.event_queues);
      infinite = AllInfinite-push_at i x w.event_queues v.infinite;
      fresh = v.fresh;
      rpcs = λ p r e. rw (length-push_at i x w.event_queues) (v.rpcs p r e);
    }

    pub pushed-Kept : Kept w (pushed i x w)
    pushed-Kept = record {
      stopped = refl;
      queues = length-push_at i x w.event_queues;
      address = refl;
      alive = λ p. refl;
    }

    pub weight-pushed :
        (p : ℕ) (e : Event) → weight p e (pushed i x w) ≡ weight p e w + bit (is_tag p e x)
    weight-pushed p e = omega (arith, count_queues-push_at p e i x w.event_queues inside)
