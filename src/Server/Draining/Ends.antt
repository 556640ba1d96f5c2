-- ===== src/Server/Draining/Ends.antt =====
-- async_grpc/server.cc: the second loop of RunEventQueue ends. A completed event that is handled may
-- put any number of internal events into the queue, but no completed one, and an internal event puts
-- none.
use async_flatbuffer_grpc.Prelude.{
  Option, ℕ, zero, suc, ◌≤◌, ◌<◌, ◌≡◌, refl, sym, ◌∙◌, ap, subst, none, some, List, [], ◌∷◌, arith,
  Result, ok, fault, Fault, get_elem?, set, length, Option-cases, inl, inr, ◌⊎◌,
}
use async_flatbuffer_grpc.Api.{Api}
use async_flatbuffer_grpc.Common.BlockingQueue.{BlockingQueue}
use async_flatbuffer_grpc.Runtime.{World, QueuedEvent, completion_queue_event, internal_event}
use async_flatbuffer_grpc.Service.{handle_queued_event}
use async_flatbuffer_grpc.Service.Order.{tags_of, queue_tags}
use async_flatbuffer_grpc.Server.Steps.Safety.{set-same, pop-empty, pop-front}
use async_flatbuffer_grpc.Server.Steps.Taking.{Safe}
use async_flatbuffer_grpc.Server.Steps.Fronts.{front-Safe}
use async_flatbuffer_grpc.Server.Draining.{go_on, drain}
use async_flatbuffer_grpc.Server.Draining.Handlers.{completed-Keeps, internal-KeepsQueues}

pub get_elem?-queue_tags :
    (i : ℕ) (q : BlockingQueue QueuedEvent) (qs : List (BlockingQueue QueuedEvent))
    → get_elem? qs i ≡ some q
    → get_elem? (queue_tags qs) i ≡ some (tags_of q.deque)
get_elem?-queue_tags i q [] h = cc
get_elem?-queue_tags zero q (p ∷ qs) h =
    let same : p ≡ q = cc h in ap (λ r. some (tags_of r.deque)) same
get_elem?-queue_tags (suc i) q (p ∷ qs) h = get_elem?-queue_tags i q qs h

pub get_elem?-set {ℓ} :
    {A : Type ℓ} (i : ℕ) (x y : A) (xs : List A)
    → get_elem? xs i ≡ some x
    → get_elem? (set xs i y) i ≡ some y
get_elem?-set i x y [] h = cc
get_elem?-set zero x y (z ∷ xs) h = refl
get_elem?-set (suc i) x y (z ∷ xs) h = get_elem?-set i x y xs h

pub Result-cases {ℓ} :
    {A : Type ℓ} (m : Result A) → ((why : Fault) × (m ≡ fault why)) ⊎ ((x : A) × (m ≡ ok x))
Result-cases (fault why) = inl (why, refl)
Result-cases (ok x) = inr (x, refl)

-- What is in a queue.
abbrev pub waiting : Option (BlockingQueue QueuedEvent) → List QueuedEvent
waiting none = []
waiting (some q) = q.deque

module _ {api : Api} (i : ℕ) where
  -- The queue is empty, unless the code aborted.
  abbrev pub Emptied : Result (World api) → Type 0
  Emptied (fault why) = Unit {0}
  Emptied (ok w) = waiting (get_elem? w.event_queues i) ≡ []

  abbrev pub Ends : World api → Type 0
  Ends w = (fuel : ℕ) × (m : Result (World api)) × (drain fuel i w ≡ some m) × Emptied m

  -- The front of the queue was taken.
  abbrev taken : BlockingQueue QueuedEvent → List QueuedEvent → World api → World api
  taken q d w = record w {
    event_queues = set w.event_queues i (record { queue_size = q.queue_size; deque = d });
  }

  module _ (w : World api) (q : BlockingQueue QueuedEvent)
      (there : get_elem? w.event_queues i ≡ some q) where
    drain_none : q.deque ≡ [] → drain 1 i w ≡ some (ok w)
    unfolding drain
    drain_none h = rw (there, pop-empty q h, set-same i q w.event_queues there) refl

    drain_front :
        (fuel : ℕ) (x : QueuedEvent) (d : List QueuedEvent)
        → q.deque ≡ x ∷ d
        → drain (suc fuel) i w ≡ go_on (drain fuel i) (handle_queued_event x (taken q d w))
    unfolding drain
    drain_front fuel x d h = rw (there, pop-front q x d h) refl

    empty-Ends : q.deque ≡ [] → Ends w
    empty-Ends h = (1, ok w, drain_none h, ap waiting there ∙ h)

    -- If the loop ends after the handling of the event at the front, it ends.
    front-Ends :
        (x : QueuedEvent) (d : List QueuedEvent)
        → q.deque ≡ x ∷ d
        → ((w' : World api) → handle_queued_event x (taken q d w) ≡ ok w' → Ends w')
        → Ends w
    front-Ends x d h rest = elim (Result-cases (handle_queued_event x (taken q d w))) [
      | inl (why, e) ↦ (1, fault why, drain_front 0 x d h ∙ ap (go_on (drain 0 i)) e, tt)
      | inr (w', e) ↦
          let (fuel, m, done, emptied) = rest w' e in
          (suc fuel, m, drain_front fuel x d h ∙ ap (go_on (drain fuel i)) e ∙ done, emptied)
    ]

  absent-Ends : (w : World api) → get_elem? w.event_queues i ≡ none → Ends w
  unfolding drain
  absent-Ends w gone = (1, ok w, rw gone refl, ap waiting gone)

  queue-Ends :
      (c : ℕ) (d : List QueuedEvent) (w : World api) (q : BlockingQueue QueuedEvent)
      → ((w : World api) (q : BlockingQueue QueuedEvent)
          → get_elem? w.event_queues i ≡ some q
          → length (tags_of q.deque) < c
          → Ends w)
      → get_elem? w.event_queues i ≡ some q
      → q.deque ≡ d
      → length (tags_of d) ≤ c
      → Ends w
  queue-Ends c [] w q below there h n = empty-Ends w q there h
  queue-Ends c (internal_event p ∷ d) w q below there h n =
      front-Ends w q there (internal_event p) d h (λ w' e.
        let q' : BlockingQueue QueuedEvent = record { queue_size = q.queue_size; deque = d } in
        queue-Ends c d w' q' below
          (ap (λ qs. get_elem? qs i) (internal-KeepsQueues p (taken q d w) w' e)
            ∙ get_elem?-set i q q' w.event_queues there)
          refl n)
  queue-Ends c (completion_queue_event p e ∷ d) w q below there h n =
      front-Ends w q there (completion_queue_event p e) d h (λ w' g.
        elim (Option-cases (get_elem? w'.event_queues i)) [
          | inl gone ↦ absent-Ends w' gone
          | inr (q2, there2) ↦
              let q' : BlockingQueue QueuedEvent = record {
                queue_size = q.queue_size;
                deque = d;
              } in
              let before =
                get_elem?-queue_tags i q' (taken q d w).event_queues
                  (get_elem?-set i q q' w.event_queues there) in
              let after = get_elem?-queue_tags i q2 w'.event_queues there2 in
              let kept = completed-Keeps p e (taken q d w) w' g in
              let same : some (tags_of q2.deque) ≡ some (tags_of d) =
                sym after ∙ ap (λ tss. get_elem? tss i) kept ∙ before in
              let tags : tags_of q2.deque ≡ tags_of d = cc same in
              below w' q2 there2 (omega (arith, n, ap length tags))
        ])

  -- From states with fewer than `c` completed events in the queue, the loop ends.
  below-Ends :
      (c : ℕ) (w : World api) (q : BlockingQueue QueuedEvent)
      → get_elem? w.event_queues i ≡ some q
      → length (tags_of q.deque) < c
      → Ends w
  below-Ends zero w q there h = elim h [ ]
  below-Ends (suc c) w q there h =
      queue-Ends c q.deque w q (below-Ends c) there refl (omega (arith, h))

  pub drain-Ends :
      (w : World api)
      → (fuel : ℕ) × (m : Result (World api)) × (drain fuel i w ≡ some m) × Emptied m
  drain-Ends w = elim (Option-cases (get_elem? w.event_queues i)) [
    | inl gone ↦ absent-Ends w gone
    | inr (q, there) ↦ below-Ends (suc (length (tags_of q.deque))) w q there (omega arith)
  ]

  by_fuel-Safe :
      (fuel : ℕ) (w : World api) (m : Result (World api))
      → Safe w
      → drain fuel i w ≡ some m
      → (w' : World api) × (m ≡ ok w') × Safe w'
  unfolding drain
  by_fuel-Safe zero w m s e = cc
  by_fuel-Safe (suc fuel) w m s e = elim (Option-cases (get_elem? w.event_queues i)) [
    | inl gone ↦
        let one : drain (suc fuel) i w ≡ some (ok w) = rw gone refl in
        let same : m ≡ ok w = cc (sym e ∙ one) in (w, same, s)
    | inr (q, there) ↦ by_deque q there q.deque refl (by_fuel-Safe fuel)
  ]
    where
      by_deque :
          (q : BlockingQueue QueuedEvent)
          → get_elem? w.event_queues i ≡ some q
          → (d : List QueuedEvent) → q.deque ≡ d
          → ((w1 : World api) (m : Result (World api))
              → Safe w1
              → drain fuel i w1 ≡ some m
              → (w' : World api) × (m ≡ ok w') × Safe w')
          → (w' : World api) × (m ≡ ok w') × Safe w'
      by_deque q there [] h rest =
          let one : drain (suc fuel) i w ≡ some (ok w) =
            rw (there, pop-empty q h, set-same i q w.event_queues there) refl in
          let same : m ≡ ok w = cc (sym e ∙ one) in (w, same, s)
      by_deque q there (x ∷ d) h rest =
          let (w1, e1, s1) = front-Safe i w s q there x d h in
          rest w1 m s1 (sym (drain_front w q there fuel x d h ∙ ap (go_on (drain fuel i)) e1) ∙ e)

  -- From a safe state the second loop of RunEventQueue ends without a fault, in a safe state with
  -- nothing left in its queue.
  pub drain-Safe :
      (w : World api)
      → Safe w
      → (fuel : ℕ) × (w' : World api) × (drain fuel i w ≡ some (ok w')) × Safe w' × Emptied (ok w')
  drain-Safe w s =
      let (fuel, m, e, emptied) = drain-Ends w in
      let (w', same, s') = by_fuel-Safe fuel w m s e in
      (fuel, w', e ∙ ap some same, s', subst Emptied same emptied)
