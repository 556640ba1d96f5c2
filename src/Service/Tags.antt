-- ===== src/Service/Tags.antt =====
-- Accounting for the tags that async_grpc/service.cc has out: a tag (an Rpc and one of its events)
-- is out while it is at gRPC or in an event queue, and the event's pending flag says whether it
-- should be.
use async_flatbuffer_grpc.Prelude.{
  ℕ, zero, suc, ◌+◌, ◌<◌, ◌≡◌, refl, Bool, true, false, ◌&&◌, Option, none, some, List, [], ◌∷◌,
  ◌++◌, arith, if◌then◌else◌, ok, find, find-assign, get_elem?, set, length, ◌==◌,
}
use async_flatbuffer_grpc.Api.{
  Api, Event, new_connection, read, write_needed, write, finish, done, event_eq, GrpcCall,
}
use async_flatbuffer_grpc.Common.BlockingQueue.{BlockingQueue}
use async_flatbuffer_grpc.Common.BlockingQueue
use async_flatbuffer_grpc.Rpc.{Rpc}
use async_flatbuffer_grpc.Runtime.{
  World, QueuedEvent, completion_queue_event, internal_event, store, push_event,
}

abbrev pub bit : Bool → ℕ
bit true = 1
bit false = 0

-- How often the tag is in a queue, in all queues.
abbrev pub is_tag : ℕ → Event → QueuedEvent → Bool
is_tag p e (completion_queue_event q f) = p == q && event_eq e f
is_tag p e (internal_event q) = false

abbrev pub count_queue : ℕ → Event → List QueuedEvent → ℕ
count_queue p e [] = 0
count_queue p e (x ∷ xs) = bit (is_tag p e x) + count_queue p e xs

abbrev pub count_queues : ℕ → Event → List (BlockingQueue QueuedEvent) → ℕ
count_queues p e [] = 0
count_queues p e (q ∷ qs) = count_queue p e q.deque + count_queues p e qs

-- All queues are of infinite size.
abbrev pub AllInfinite : List (BlockingQueue QueuedEvent) → Type 0
AllInfinite [] = Unit {0}
AllInfinite (q ∷ qs) = (q.queue_size ≡ 0) × AllInfinite qs

-- The queues with one more event at the end of the i-th.
abbrev pub push_at :
    ℕ → QueuedEvent → List (BlockingQueue QueuedEvent) → List (BlockingQueue QueuedEvent)
push_at i x [] = []
push_at zero x (q ∷ qs) = record q { deque = q.deque ++ x ∷ [] } ∷ qs
push_at (suc i) x (q ∷ qs) = q ∷ push_at i x qs

count_queue-append :
    (p : ℕ) (e : Event) (xs : List QueuedEvent) (x : QueuedEvent)
    → count_queue p e (xs ++ x ∷ []) ≡ count_queue p e xs + bit (is_tag p e x)
count_queue-append p e [] x = omega arith
count_queue-append p e (y ∷ xs) x = omega (arith, count_queue-append p e xs x)

pub count_queues-push_at :
    (p : ℕ) (e : Event) (i : ℕ) (x : QueuedEvent) (qs : List (BlockingQueue QueuedEvent))
    → i < length qs
    → count_queues p e (push_at i x qs) ≡ count_queues p e qs + bit (is_tag p e x)
count_queues-push_at p e i x [] h = elim h [ ]
count_queues-push_at p e zero x (q ∷ qs) h = omega (arith, count_queue-append p e q.deque x)
count_queues-push_at p e (suc i) x (q ∷ qs) h =
    omega (arith, count_queues-push_at p e i x qs (omega arith))

pub length-push_at :
    (i : ℕ) (x : QueuedEvent) (qs : List (BlockingQueue QueuedEvent))
    → length (push_at i x qs) ≡ length qs
length-push_at i x [] = refl
length-push_at zero x (q ∷ qs) = refl
length-push_at (suc i) x (q ∷ qs) = omega (arith, length-push_at i x qs)

pub AllInfinite-push_at :
    (i : ℕ) (x : QueuedEvent) (qs : List (BlockingQueue QueuedEvent))
    → AllInfinite qs
    → AllInfinite (push_at i x qs)
AllInfinite-push_at i x [] h = tt
AllInfinite-push_at zero x (q ∷ qs) h = h
AllInfinite-push_at (suc i) x (q ∷ qs) h = (h.0, AllInfinite-push_at i x qs h.1)

-- The i-th queue is there and takes the event.
push-at :
    (i : ℕ) (x : QueuedEvent) (qs : List (BlockingQueue QueuedEvent))
    → i < length qs
    → AllInfinite qs
    → (q : BlockingQueue QueuedEvent) × (get_elem? qs i ≡ some q)
      × (BlockingQueue.push x q ≡ some (record q { deque = q.deque ++ x ∷ [] }))
      × (set qs i (record q { deque = q.deque ++ x ∷ [] }) ≡ push_at i x qs)
unfolding BlockingQueue.push
push-at i x [] h a = elim h [ ]
push-at zero x (q ∷ qs) h a = (q, refl, ground (arith, a.0), refl)
push-at (suc i) x (q ∷ qs) h a =
    let (r, found, pushed, e) = push-at i x qs (omega arith) a.1 in
    (r, found, pushed, ground (arith, e))

module _ {api : Api} where
  abbrev pub pushed : ℕ → QueuedEvent → World api → World api
  pushed i x w = record w { event_queues = push_at i x w.event_queues }

  pub push_event_lem :
      (i : ℕ) (x : QueuedEvent) (w : World api)
      → i < length w.event_queues
      → AllInfinite w.event_queues
      → push_event i x w ≡ ok (pushed i x w)
  unfolding push_event
  push_event_lem i x w h a =
      let (q, found, took, e) = push-at i x w.event_queues h a in rw (found, took, e) refl

  -- The pending flag of an event. No Rpc stores WRITE_NEEDED.
  abbrev pub flag : Event → Rpc api → Bool
  flag new_connection r = r.new_connection_event.pending
  flag read r = r.read_event.pending
  flag write_needed r = false
  flag write r = r.write_event.pending
  flag finish r = r.finish_event.pending
  flag done r = r.done_event.pending

  abbrev pub count_calls : ℕ → Event → List (ℕ × GrpcCall api) → ℕ
  count_calls p e [] = 0
  count_calls p e ((q, c) ∷ cs) = bit (p == q && event_eq e c.tag) + count_calls p e cs

  pub count_calls-append :
      (p : ℕ) (e : Event) (cs ds : List (ℕ × GrpcCall api))
      → count_calls p e (cs ++ ds) ≡ count_calls p e cs + count_calls p e ds
  count_calls-append p e [] ds = omega arith
  count_calls-append p e ((q, c) ∷ cs) ds = omega (arith, count_calls-append p e cs ds)

  -- How often the tag is out, and how often it should be.
  abbrev pub weight : ℕ → Event → World api → ℕ
  weight p e w = count_queues p e w.event_queues + count_calls p e w.calls

  abbrev pub owed_of : Event → Option (Rpc api) → ℕ
  owed_of e none = 0
  owed_of e (some r) = bit (flag e r)

  abbrev pub owed : ℕ → Event → World api → ℕ
  owed p e w = owed_of e (find p w.active_rpcs)

  pub owed-store :
      (p q : ℕ) (e : Event) (r r' : Rpc api) (w : World api)
      → find p w.active_rpcs ≡ some r
      → owed q e (store p r' w) ≡ (if p == q then bit (flag e r') else owed q e w)
  unfolding store
  owed-store p q e r r' w h = rw (find-assign p q r' w.active_rpcs, h) (ground arith)
