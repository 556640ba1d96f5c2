-- ===== src/Service/Order.antt =====
-- async_grpc/service.cc: the order of the tags in the event queues. The NEW_CONNECTION event of an
-- Rpc is to be handled before its DONE event.
use async_flatbuffer_grpc.Prelude.{
  ℕ, zero, suc, ◌≤◌, ◌≡◌, refl, sym, ◌∙◌, ap, Bool, true, false, some, none, List, [], ◌∷◌, ◌++◌,
  arith, if◌then◌else◌, find, get_elem?, ◌==◌, ◌⊎◌, inl, inr, Bool-cases, assign, find-assign,
}
use async_flatbuffer_grpc.Api.{Api, Event, new_connection, done, event_eq, CompletionQueueRpcEvent}
use async_flatbuffer_grpc.Common.BlockingQueue.{BlockingQueue}
use async_flatbuffer_grpc.Rpc.{Rpc}
use async_flatbuffer_grpc.Runtime.{
  World, QueuedEvent, completion_queue_event, internal_event, store,
}
use async_flatbuffer_grpc.Service.Tags.{count_queue, count_queues, push_at, weight, owed}

-- The tags in a queue, and in all queues.
abbrev pub tags_of : List QueuedEvent → List (ℕ × Event)
tags_of [] = []
tags_of (completion_queue_event p e ∷ xs) = (p, e) ∷ tags_of xs
tags_of (internal_event p ∷ xs) = tags_of xs

abbrev pub queue_tags : List (BlockingQueue QueuedEvent) → List (List (ℕ × Event))
queue_tags [] = []
queue_tags (q ∷ qs) = tags_of q.deque ∷ queue_tags qs

-- Whether an Rpc's NEW_CONNECTION is in the queue.
abbrev pub has_new : ℕ → List (ℕ × Event) → Bool
has_new p [] = false
has_new p ((q, e) ∷ ts) =
    let rest = has_new p ts in
    if q == p then (if event_eq e new_connection then true else rest) else rest

-- Whether no DONE of an Rpc is in the queue before its NEW_CONNECTION.
abbrev pub in_order : ℕ → List (ℕ × Event) → Bool
in_order p [] = true
in_order p ((q, e) ∷ ts) =
    let rest = in_order p ts in
    if q == p
    then (if event_eq e new_connection then true else if event_eq e done then false else rest)
    else rest

-- The tags of the i-th queue, for a waiting Rpc with that NEW_CONNECTION event.
abbrev pub InOrder : ℕ → ℕ → CompletionQueueRpcEvent → List (ℕ × Event) → Type 0
InOrder p i c ts =
    (in_order p ts ≡ true) × (has_new p ts ≡ true → (i ≡ c.event_queue) × (c.ok ≡ true))

tags_of-append :
    (xs : List QueuedEvent) (p : ℕ) → tags_of (xs ++ internal_event p ∷ []) ≡ tags_of xs
tags_of-append [] p = refl
tags_of-append (completion_queue_event q e ∷ xs) p = ap (λ ts. (q, e) ∷ ts) (tags_of-append xs p)
tags_of-append (internal_event q ∷ xs) p = tags_of-append xs p

pub queue_tags-push_at :
    (i p : ℕ) (qs : List (BlockingQueue QueuedEvent))
    → queue_tags (push_at i (internal_event p) qs) ≡ queue_tags qs
queue_tags-push_at i p [] = refl
queue_tags-push_at zero p (q ∷ qs) = ap (λ ts. ts ∷ queue_tags qs) (tags_of-append q.deque p)
queue_tags-push_at (suc i) p (q ∷ qs) =
    ap (λ tss. tags_of q.deque ∷ tss) (queue_tags-push_at i p qs)

module _ {api : Api} where
  -- Where an Rpc of a later state comes from: it was there, with the same NEW_CONNECTION event, or it
  -- is new.
  abbrev pub Kin : ℕ → World api → Rpc api → Type 0
  Kin p v r' =
      ((r : Rpc api) × (find p v.active_rpcs ≡ some r)
        × (r'.new_connection_event ≡ r.new_connection_event))
      ⊎ (v.next_address ≤ p)

  -- A step that puts no tag into a queue and takes none out.
  pub record Grown (v w : World api) : Type 0 where
    pub tags : queue_tags w.event_queues ≡ queue_tags v.event_queues
    pub later : v.next_address ≤ w.next_address
    pub kin : (p : ℕ) (r' : Rpc api) → find p w.active_rpcs ≡ some r' → Kin p v r'

  pub same-Grown :
      (v w : World api)
      → w.active_rpcs ≡ v.active_rpcs
      → w.next_address ≡ v.next_address
      → queue_tags w.event_queues ≡ queue_tags v.event_queues
      → Grown v w
  same-Grown v w rpcs address tags = record {
    tags = tags;
    later = omega (arith, address);
    kin = λ p r' e. inl (r', ap (find p) (sym rpcs) ∙ e, refl);
  }

  pub Grown-trans : (u v w : World api) → Grown u v → Grown v w → Grown u w
  Grown-trans u v w g h = record {
    tags = h.tags ∙ g.tags;
    later = omega (arith, g.later, h.later);
    kin = λ p r' e. through p r' (h.kin p r' e);
  }
    where
      before :
          (p : ℕ) (r r' : Rpc api)
          → r'.new_connection_event ≡ r.new_connection_event
          → Kin p u r
          → Kin p u r'
      before p r r' same (inl (s, there, was)) = inl (s, there, same ∙ was)
      before p r r' same (inr new) = inr new

      through : (p : ℕ) (r' : Rpc api) → Kin p v r' → Kin p u r'
      through p r' (inl (r, there, same)) = before p r r' same (g.kin p r there)
      through p r' (inr new) = inr (omega (arith, new, g.later))

  pub store-Grown :
      (p : ℕ) (r r' : Rpc api) (w : World api)
      → find p w.active_rpcs ≡ some r
      → r'.new_connection_event ≡ r.new_connection_event
      → Grown w (store p r' w)
  unfolding store
  store-Grown p r r' w there same = record {
    tags = refl;
    later = omega arith;
    kin = λ q s e. by_address q s (Bool-cases (p == q)) (find-assign p q r' w.active_rpcs) e;
  }
    where
      by_address :
          (q : ℕ) (s : Rpc api)
          → ((p == q) ≡ true) ⊎ ((p == q) ≡ false)
          → find q (assign p r' w.active_rpcs) ≡ (
              if p == q
              then (elim (find p w.active_rpcs) [ none ↦ none | some _ ↦ some r' ])
              else find q w.active_rpcs)
          → find q (assign p r' w.active_rpcs) ≡ some s
          → Kin q w s
      by_address q s (inl here) found e = inl (r, ground (arith, there), ground (arith, same))
      by_address q s (inr other) found e = inl (s, ground arith, refl)

  -- Every Rpc that waits for its connection has its tags in order, and its NEW_CONNECTION, once it is
  -- in a queue, in the right one and with a success.
  pub record Ordered (w : World api) : Type 0 where
    pub ordered :
        (p i : ℕ) (r : Rpc api) (ts : List (ℕ × Event))
        → find p w.active_rpcs ≡ some r
        → r.new_connection_event.pending ≡ true
        → get_elem? (queue_tags w.event_queues) i ≡ some ts
        → InOrder p i r.new_connection_event ts

-- No tag of the Rpc is in any queue.
count-tags_of :
    (p : ℕ) (xs : List QueuedEvent)
    → count_queue p new_connection xs ≡ 0
    → count_queue p done xs ≡ 0
    → (in_order p (tags_of xs) ≡ true) × (has_new p (tags_of xs) ≡ false)
count-tags_of p [] n d = (refl, refl)
count-tags_of p (completion_queue_event q e ∷ xs) n d = ground (arith, count-tags_of p xs)
count-tags_of p (internal_event q ∷ xs) n d =
    count-tags_of p xs (omega (arith, n)) (omega (arith, d))

pub count-queue_tags :
    (p i : ℕ) (ts : List (ℕ × Event)) (qs : List (BlockingQueue QueuedEvent))
    → count_queues p new_connection qs ≡ 0
    → count_queues p done qs ≡ 0
    → get_elem? (queue_tags qs) i ≡ some ts
    → (in_order p ts ≡ true) × (has_new p ts ≡ false)
count-queue_tags p i ts [] n d e = cc
count-queue_tags p zero ts (q ∷ qs) n d e = ground (arith, count-tags_of p q.deque, e)
count-queue_tags p (suc i) ts (q ∷ qs) n d e =
    count-queue_tags p i ts qs (omega (arith, n)) (omega (arith, d)) e

module _ {api : Api} where
  pub Grown-Ordered :
      (v w : World api)
      → ((p : ℕ) → v.next_address ≤ p → find p v.active_rpcs ≡ none)
      → ((p : ℕ) (e : Event) → weight p e v ≡ owed p e v)
      → Grown v w
      → Ordered v
      → Ordered w
  Grown-Ordered v w fresh accounted g o = record {
    ordered = λ p i r ts there waiting at.
        by_kin p i r ts waiting (ap (λ tss. get_elem? tss i) (sym g.tags) ∙ at) (g.kin p r there);
  }
    where
      by_kin :
          (p i : ℕ) (r : Rpc api) (ts : List (ℕ × Event))
          → r.new_connection_event.pending ≡ true
          → get_elem? (queue_tags v.event_queues) i ≡ some ts
          → Kin p v r
          → InOrder p i r.new_connection_event ts
      by_kin p i r ts waiting at (inl (s, was, same)) =
          let (first, second) =
            o.ordered p i s ts was (ap (λ c. c.pending) (sym same) ∙ waiting) at in
          (
            first,
            λ h. (
              (second h).0 ∙ ap (λ c. c.event_queue) (sym same),
              ap (λ c. c.ok) same ∙ (second h).1,
            ),
          )
      by_kin p i r ts waiting at (inr new) =
          let gone = fresh p new in
          let (first, none_there) =
            count-queue_tags p i ts v.event_queues
              (ground (arith, accounted p new_connection, gone))
              (ground (arith, accounted p done, gone)) at in
          (first, λ h. cc (h, none_there))
