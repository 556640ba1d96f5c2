-- ===== src/Server/Steps/Leaving.antt =====
-- async_grpc/server.cc: RunEventQueue keeps the tags of a waiting Rpc in order when it takes an event
-- off a queue.
use async_flatbuffer_grpc.Prelude.{
  ℕ, zero, suc, ◌≡◌, sym, ◌∙◌, ap, subst, true, false, ◌&&◌, some, List, [], ◌∷◌, arith,
  if◌then◌else◌, find, get_elem?, set, ◌==◌, ◌⊎◌, inl, inr, Bool-cases,
}
use async_flatbuffer_grpc.Api.{Api, Event, new_connection, done, event_eq, CompletionQueueRpcEvent}
use async_flatbuffer_grpc.Common.BlockingQueue.{BlockingQueue}
use async_flatbuffer_grpc.Rpc.{Rpc}
use async_flatbuffer_grpc.Runtime.{
  World, QueuedEvent, completion_queue_event, internal_event, store,
}
use async_flatbuffer_grpc.Service.Tags.{flag}
use async_flatbuffer_grpc.Service.Order.{tags_of, queue_tags, InOrder, Ordered}
use async_flatbuffer_grpc.Service.Wellformed.{find-store}
use async_flatbuffer_grpc.Server.Steps.Ordering.{queue_tags-popped}

queue_tags_at :
    (i : ℕ) (q : BlockingQueue QueuedEvent) (qs : List (BlockingQueue QueuedEvent))
    → get_elem? qs i ≡ some q
    → get_elem? (queue_tags qs) i ≡ some (tags_of q.deque)
queue_tags_at i q [] h = cc
queue_tags_at zero q (q' ∷ qs) h = ground (arith, h)
queue_tags_at (suc i) q (q' ∷ qs) h = queue_tags_at i q qs h

-- Without its front, unless that is the Rpc's own NEW_CONNECTION.
InOrder-tail :
    (p q j : ℕ) (e : Event) (c : CompletionQueueRpcEvent) (us : List (ℕ × Event))
    → ((p == q) && event_eq e new_connection) ≡ false
    → InOrder q j c ((p, e) ∷ us)
    → InOrder q j c us
InOrder-tail p q j e c us other (first, second) =
    (ground (arith, first, other), λ h. second (ground (arith, h)))

module _ {api : Api} where
  module _ (i : ℕ) (x : QueuedEvent) (xs : List QueuedEvent) (q : BlockingQueue QueuedEvent)
      (w : World api) (o : Ordered w) (there : get_elem? w.event_queues i ≡ some q)
      (front : q.deque ≡ x ∷ xs) where
    abbrev left : World api
    left = record w {
      event_queues = set w.event_queues i (record { queue_size = q.queue_size; deque = xs });
    }

    pub front_tags : get_elem? (queue_tags w.event_queues) i ≡ some (tags_of (x ∷ xs))
    front_tags = queue_tags_at i q w.event_queues there ∙ ap (λ d. some (tags_of d)) front

  -- A WRITE_NEEDED event has no tag.
  pub internal-Ordered :
      (i p : ℕ) (xs : List QueuedEvent) (q : BlockingQueue QueuedEvent) (w : World api)
      → Ordered w
      → get_elem? w.event_queues i ≡ some q
      → q.deque ≡ internal_event p ∷ xs
      → Ordered (record w {
        event_queues = set w.event_queues i (record { queue_size = q.queue_size; deque = xs });
      })
  internal-Ordered i p xs q w o there front = record {
    ordered = λ p' j s us alive waiting h.
        let (ts, at, cases) =
          queue_tags-popped i j (internal_event p) xs q w.event_queues us there front h in
        let same : us ≡ ts = ground (arith, cases) in
        subst (InOrder p' j s.new_connection_event) (sym same)
          (o.ordered p' j s ts alive waiting at);
  }

  module _ (i p : ℕ) (e : Event) (xs : List QueuedEvent) (q : BlockingQueue QueuedEvent)
      (w : World api) (o : Ordered w) (there : get_elem? w.event_queues i ≡ some q)
      (front : q.deque ≡ completion_queue_event p e ∷ xs) (r r' : Rpc api)
      (alive : find p w.active_rpcs ≡ some r) where
    -- DONE is at the front of a queue only when the Rpc is connected.
    pub done_connected : event_eq e done ≡ true → r.new_connection_event.pending ≡ false
    done_connected is_done = elim (Bool-cases r.new_connection_event.pending) [
      | inl waiting ↦
          let at = front_tags i (completion_queue_event p e) xs q w o there front in
          ground (arith, o.ordered p i r ((p, e) ∷ tags_of xs) alive waiting at, is_done)
      | inr connected ↦ connected
    ]

    pub new_succeeds :
        event_eq e new_connection ≡ true
        → r.new_connection_event.pending ≡ true
        → r.new_connection_event.ok ≡ true
    new_succeeds is_new waiting =
        let at = front_tags i (completion_queue_event p e) xs q w o there front in
        let ordered = o.ordered p i r ((p, e) ∷ tags_of xs) alive waiting at in
        (ordered.1 (ground (arith, is_new))).1

    popped_rest :
        (p' j : ℕ) (c : CompletionQueueRpcEvent) (us ts : List (ℕ × Event))
        → ((p == p') && event_eq e new_connection) ≡ false
        → InOrder p' j c ts
        → (us ≡ ts) ⊎ ((ts ≡ (p, e) ∷ tags_of xs) × (us ≡ tags_of xs))
        → InOrder p' j c us
    popped_rest p' j c us ts other h (inl same_ts) = subst (InOrder p' j c) (sym same_ts) h
    popped_rest p' j c us ts other h (inr (full, rest)) =
        subst (InOrder p' j c) (sym rest)
          (InOrder-tail p p' j e c (tags_of xs) other (subst (InOrder p' j c) full h))

    module _
        (reset : flag new_connection r'
          ≡ (if event_eq e new_connection then false else flag new_connection r))
        (same : event_eq e new_connection ≡ false
          → r'.new_connection_event ≡ r.new_connection_event) where
      popped_self :
          (j : ℕ) (us ts : List (ℕ × Event))
          → r'.new_connection_event.pending ≡ true
          → get_elem? (queue_tags w.event_queues) j ≡ some ts
          → (us ≡ ts) ⊎ ((ts ≡ (p, e) ∷ tags_of xs) × (us ≡ tags_of xs))
          → InOrder p j r'.new_connection_event us
      popped_self j us ts waiting at cases =
          let other : event_eq e new_connection ≡ false = ground (arith, reset, waiting) in
          let waited : r.new_connection_event.pending ≡ true =
            ground (arith, reset, waiting, other) in
          let before = o.ordered p j r ts alive waited at in
          subst (λ c. InOrder p j c us) (sym (same other))
            (popped_rest p j r.new_connection_event us ts (ground (arith, other)) before cases)

      popped_address :
          (p' j : ℕ) (s : Rpc api) (us ts : List (ℕ × Event))
          → s.new_connection_event.pending ≡ true
          → get_elem? (queue_tags w.event_queues) j ≡ some ts
          → (us ≡ ts) ⊎ ((ts ≡ (p, e) ∷ tags_of xs) × (us ≡ tags_of xs))
          → ((p == p') ≡ true) ⊎ ((p == p') ≡ false)
          → (if p == p' then some r' else find p' w.active_rpcs) ≡ some s
          → InOrder p' j s.new_connection_event us
      popped_address p' j s us ts waiting at cases (inl here) found =
          let same_p : p ≡ p' = ground arith in
          let same_s : r' ≡ s = ground arith in
          let waiting' = ap (λ t. t.new_connection_event.pending) same_s ∙ waiting in
          subst (λ k. InOrder k j s.new_connection_event us) same_p
            (subst (λ t. InOrder p j t.new_connection_event us) same_s
              (popped_self j us ts waiting' at cases))
      popped_address p' j s us ts waiting at cases (inr other) found =
          let there' : find p' w.active_rpcs ≡ some s = ground (arith, found) in
          popped_rest p' j s.new_connection_event us ts (ground (arith, other))
            (o.ordered p' j s ts there' waiting at) cases

      pub popped-Ordered : Ordered (
          store p r' (record w {
            event_queues = set w.event_queues i (record { queue_size = q.queue_size; deque = xs });
          }))
      unfolding store
      popped-Ordered = record {
        ordered = λ p' j s us at waiting h.
            let (ts, was, cases) =
              queue_tags-popped i j (completion_queue_event p e) xs q w.event_queues us there front
                h in
            popped_address p' j s us ts waiting was cases (Bool-cases (p == p'))
              (sym (find-store p r r' w alive p') ∙ at);
      }
