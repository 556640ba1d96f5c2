-- ===== src/Server/Steps/Ordering.antt =====
-- async_grpc/server.cc: how a turn of a loop changes the tags in the queues: one is put at the end of
-- a queue, or the front is taken off.
use async_flatbuffer_grpc.Prelude.{
  ℕ, zero, suc, ◌<◌, ◌≡◌, refl, ap, true, false, ◌&&◌, ◌||◌, some, List, [], ◌∷◌, ◌++◌, arith,
  get_elem?, set, ◌==◌, ◌⊎◌, inl, inr,
}
use async_flatbuffer_grpc.Api.{Event, new_connection, done, event_eq}
use async_flatbuffer_grpc.Common.BlockingQueue.{BlockingQueue}
use async_flatbuffer_grpc.Runtime.{QueuedEvent, completion_queue_event, internal_event}
use async_flatbuffer_grpc.Service.Tags.{count_queue, count_queues, push_at}
use async_flatbuffer_grpc.Service.Order.{tags_of, queue_tags, has_new, in_order}

tags_of-append :
    (xs : List QueuedEvent) (p : ℕ) (e : Event)
    → tags_of (xs ++ completion_queue_event p e ∷ []) ≡ tags_of xs ++ (p, e) ∷ []
tags_of-append [] p e = refl
tags_of-append (completion_queue_event q f ∷ xs) p e =
    ap (λ ts. (q, f) ∷ ts) (tags_of-append xs p e)
tags_of-append (internal_event q ∷ xs) p e = tags_of-append xs p e

-- A queue after a tag was put at the end of the i-th.
pub queue_tags-pushed :
    (i j p : ℕ) (e : Event) (qs : List (BlockingQueue QueuedEvent)) (us : List (ℕ × Event))
    → get_elem? (queue_tags (push_at i (completion_queue_event p e) qs)) j ≡ some us
    → (ts : List (ℕ × Event)) × (get_elem? (queue_tags qs) j ≡ some ts)
      × ((us ≡ ts) ⊎ ((j ≡ i) × (us ≡ ts ++ (p, e) ∷ [])))
queue_tags-pushed i j p e [] us h = cc
queue_tags-pushed zero zero p e (q ∷ qs) us h =
    (tags_of q.deque, refl, inr (refl, ground (arith, h, tags_of-append q.deque p e)))
queue_tags-pushed zero (suc j) p e (q ∷ qs) us h = (us, h, inl refl)
queue_tags-pushed (suc i) zero p e (q ∷ qs) us h = (us, h, inl refl)
queue_tags-pushed (suc i) (suc j) p e (q ∷ qs) us h =
    let (ts, there, cases) = queue_tags-pushed i j p e qs us h in (ts, there, ground (arith, cases))

-- A queue after the front of the i-th was taken off.
pub queue_tags-popped :
    (i j : ℕ) (x : QueuedEvent) (xs : List QueuedEvent) (q : BlockingQueue QueuedEvent)
    (qs : List (BlockingQueue QueuedEvent)) (us : List (ℕ × Event))
    → get_elem? qs i ≡ some q
    → q.deque ≡ x ∷ xs
    → get_elem? (queue_tags (set qs i (record { queue_size = q.queue_size; deque = xs }))) j
      ≡ some us
    → (ts : List (ℕ × Event)) × (get_elem? (queue_tags qs) j ≡ some ts)
      × ((us ≡ ts) ⊎ ((ts ≡ tags_of (x ∷ xs)) × (us ≡ tags_of xs)))
queue_tags-popped i j x xs q [] us there d h = cc
queue_tags-popped zero zero x xs q (q' ∷ qs) us there d h =
    (tags_of q'.deque, refl, inr (ground (arith, there, d), ground (arith, h)))
queue_tags-popped zero (suc j) x xs q (q' ∷ qs) us there d h = (us, h, inl refl)
queue_tags-popped (suc i) zero x xs q (q' ∷ qs) us there d h = (us, h, inl refl)
queue_tags-popped (suc i) (suc j) x xs q (q' ∷ qs) us there d h =
    queue_tags-popped i j x xs q qs us there d h

pub has_new-append :
    (p q : ℕ) (e : Event) (ts : List (ℕ × Event))
    → has_new p (ts ++ (q, e) ∷ []) ≡ (has_new p ts || (q == p && event_eq e new_connection))
has_new-append p q e [] = ground arith
has_new-append p q e ((q', f) ∷ ts) = ground (arith, has_new-append p q e ts)

-- A tag at the end keeps the order, unless it is a DONE with no NEW_CONNECTION before it.
pub in_order-append :
    (p q : ℕ) (e : Event) (ts : List (ℕ × Event))
    → in_order p ts ≡ true
    → ((q == p) && event_eq e done ≡ false) ⊎ (has_new p ts ≡ true)
    → in_order p (ts ++ (q, e) ∷ []) ≡ true
in_order-append p q e [] h c = ground arith
in_order-append p q e ((q', f) ∷ ts) h c = ground (arith, in_order-append p q e ts)

has_new_in :
    (p : ℕ) (xs : List QueuedEvent)
    → 0 < count_queue p new_connection xs
    → has_new p (tags_of xs) ≡ true
has_new_in p [] h = elim h [ ]
has_new_in p (completion_queue_event q e ∷ xs) h = ground (arith, has_new_in p xs)
has_new_in p (internal_event q ∷ xs) h = has_new_in p xs (omega (arith, h))

abbrev SomeNew : ℕ → List (BlockingQueue QueuedEvent) → Type 0
SomeNew p qs =
    (i : ℕ) × (ts : List (ℕ × Event)) × (get_elem? (queue_tags qs) i ≡ some ts)
    × (has_new p ts ≡ true)

by_count :
    (p : ℕ) (q : BlockingQueue QueuedEvent) (qs : List (BlockingQueue QueuedEvent)) (n : ℕ)
    → count_queue p new_connection q.deque ≡ n
    → 0 < count_queues p new_connection (q ∷ qs)
    → (0 < count_queues p new_connection qs → SomeNew p qs)
    → SomeNew p (q ∷ qs)
by_count p q qs zero e h rest =
    let (i, ts, there, found) = rest (omega (arith, h, e)) in (suc i, ts, there, found)
by_count p q qs (suc n) e h rest =
    (0, tags_of q.deque, refl, has_new_in p q.deque (omega (arith, e)))

-- If the NEW_CONNECTION of an Rpc is in some queue, there is such a queue.
pub has_new_there :
    (p : ℕ) (qs : List (BlockingQueue QueuedEvent))
    → 0 < count_queues p new_connection qs
    → (i : ℕ) × (ts : List (ℕ × Event)) × (get_elem? (queue_tags qs) i ≡ some ts)
      × (has_new p ts ≡ true)
has_new_there p [] h = elim h [ ]
has_new_there p (q ∷ qs) h =
    let rest = has_new_there p qs in
    by_count p q qs (count_queue p new_connection q.deque) refl h rest
