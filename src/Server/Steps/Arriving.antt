-- ===== src/Server/Steps/Arriving.antt =====
-- async_grpc/server.cc: RunCompletionQueue keeps the tags of a waiting Rpc in order, since gRPC
-- completes AsyncNotifyWhenDone after the request for the invocation, and both go to one queue.
use async_flatbuffer_grpc.Prelude.{
  ℕ, ◌<◌, ◌≡◌, sym, ◌∙◌, ap, subst, Bool, true, false, ◌&&◌, ◌||◌, some, List, [], ◌∷◌, ◌++◌, arith,
  if◌then◌else◌, find, get_elem?, ◌==◌, ◌⊎◌, inl, inr, Bool-cases,
}
use async_flatbuffer_grpc.Api.{Api, Event, new_connection, done, event_eq, CompletionQueueRpcEvent}
use async_flatbuffer_grpc.Rpc.{Rpc}
use async_flatbuffer_grpc.Runtime.{World, completion_queue_event, store}
use async_flatbuffer_grpc.Service.Tags.{pushed, count_queues}
use async_flatbuffer_grpc.Service.Order.{queue_tags, has_new, InOrder, Ordered}
use async_flatbuffer_grpc.Service.Wellformed.{find-store}
use async_flatbuffer_grpc.Server.Steps.Ordering.{
  queue_tags-pushed, has_new-append, in_order-append, has_new_there,
}

module _ {api : Api} where
  module _ (p i : ℕ) (e : Event) (ok' : Bool) (r r' : Rpc api) (w : World api)
      (there : find p w.active_rpcs ≡ some r) (o : Ordered w)
      (new : r'.new_connection_event ≡ (
        if event_eq e new_connection
        then record (r.new_connection_event) { ok = ok' }
        else r.new_connection_event))
      (place : (event_eq e new_connection || event_eq e done) ≡ true
        → i ≡ r.new_connection_event.event_queue)
      (succeeds : event_eq e new_connection ≡ true → ok' ≡ true)
      (after_request : event_eq e done ≡ true
        → r.new_connection_event.pending ≡ true
        → 0 < count_queues p new_connection w.event_queues) where
    waited : r'.new_connection_event.pending ≡ r.new_connection_event.pending
    waited = ground (arith, new)

    -- Before a DONE of a waiting Rpc goes to its queue, the NEW_CONNECTION is there.
    new_first :
        (ts : List (ℕ × Event))
        → event_eq e done ≡ true
        → r.new_connection_event.pending ≡ true
        → get_elem? (queue_tags w.event_queues) i ≡ some ts
        → has_new p ts ≡ true
    new_first ts is_done waiting at =
        let (j, us, at', found) = has_new_there p w.event_queues (after_request is_done waiting) in
        let ordered = o.ordered p j r us there waiting at' in
        let same : j ≡ i = (ordered.1 found).0 ∙ sym (place (ground (arith, is_done))) in
        ground (arith, at, at', same, found)

    arrived_last :
        (ts : List (ℕ × Event))
        → r.new_connection_event.pending ≡ true
        → get_elem? (queue_tags w.event_queues) i ≡ some ts
        → InOrder p i r.new_connection_event ts
        → InOrder p i r'.new_connection_event (ts ++ (p, e) ∷ [])
    arrived_last ts waiting at (first, second) = (
      in_order-append p p e ts first (last_cases (Bool-cases (event_eq e done))),
      λ h. new_cases (Bool-cases (event_eq e new_connection)) h,
    )
      where
        last_cases :
            (event_eq e done ≡ true) ⊎ (event_eq e done ≡ false)
            → ((p == p) && event_eq e done ≡ false) ⊎ (has_new p ts ≡ true)
        last_cases (inl is_done) = inr (new_first ts is_done waiting at)
        last_cases (inr other) = inl (ground (arith, other))

        new_cases :
            (event_eq e new_connection ≡ true) ⊎ (event_eq e new_connection ≡ false)
            → has_new p (ts ++ (p, e) ∷ []) ≡ true
            → (i ≡ r'.new_connection_event.event_queue) × (r'.new_connection_event.ok ≡ true)
        new_cases (inl is_new) h = ground (arith, new, is_new, place, succeeds is_new)
        new_cases (inr other) h =
            let found : has_new p ts ≡ true = ground (arith, has_new-append p p e ts, h, other) in
            let old = second found in ground (arith, new, other, old)

    arrived_elsewhere :
        (j : ℕ) (ts : List (ℕ × Event))
        → InOrder p j r.new_connection_event ts
        → InOrder p j r'.new_connection_event ts
    arrived_elsewhere j ts (first, second) =
        (first, λ h. let old = second h in ground (arith, new, old, succeeds))

    arrived_other :
        (q j : ℕ) (c : CompletionQueueRpcEvent) (ts us : List (ℕ × Event))
        → (p == q) ≡ false
        → InOrder q j c ts
        → (us ≡ ts) ⊎ ((j ≡ i) × (us ≡ ts ++ (p, e) ∷ []))
        → InOrder q j c us
    arrived_other q j c ts us other h (inl same) = subst (InOrder q j c) (sym same) h
    arrived_other q j c ts us other (first, second) (inr (here, more)) =
        subst (InOrder q j c) (sym more) (
          in_order-append q p e ts first (inl (ground (arith, other))),
          λ h. second (ground (arith, has_new-append q p e ts, h, other)),
        )

    arrived_self :
        (j : ℕ) (ts us : List (ℕ × Event))
        → r.new_connection_event.pending ≡ true
        → get_elem? (queue_tags w.event_queues) j ≡ some ts
        → InOrder p j r.new_connection_event ts
        → (us ≡ ts) ⊎ ((j ≡ i) × (us ≡ ts ++ (p, e) ∷ []))
        → InOrder p j r'.new_connection_event us
    arrived_self j ts us waiting at h (inl same) =
        subst (InOrder p j r'.new_connection_event) (sym same) (arrived_elsewhere j ts h)
    arrived_self j ts us waiting at h (inr (here, more)) =
        let at' = subst (λ k. get_elem? (queue_tags w.event_queues) k ≡ some ts) here at in
        let h' = subst (λ k. InOrder p k r.new_connection_event ts) here h in
        subst (InOrder p j r'.new_connection_event) (sym more) (
          subst (λ k. InOrder p k r'.new_connection_event (ts ++ (p, e) ∷ [])) (sym here)
            (arrived_last ts waiting at' h'))

    pub arrived-Ordered : Ordered (pushed i (completion_queue_event p e) (store p r' w))
    unfolding store
    arrived-Ordered = record {
      ordered = λ q j s us at waiting h.
          let (ts, was, cases) = queue_tags-pushed i j p e w.event_queues us h in
          by_address q j s us ts waiting was cases (Bool-cases (p == q))
            (sym (find-store p r r' w there q) ∙ at);
    }
      where
        by_address :
            (q j : ℕ) (s : Rpc api) (us ts : List (ℕ × Event))
            → s.new_connection_event.pending ≡ true
            → get_elem? (queue_tags w.event_queues) j ≡ some ts
            → (us ≡ ts) ⊎ ((j ≡ i) × (us ≡ ts ++ (p, e) ∷ []))
            → ((p == q) ≡ true) ⊎ ((p == q) ≡ false)
            → (if p == q then some r' else find q w.active_rpcs) ≡ some s
            → InOrder q j s.new_connection_event us
        by_address q j s us ts waiting was cases (inl here) found =
            let same_q : p ≡ q = ground arith in
            let same_s : r' ≡ s = ground arith in
            let waiting' : r.new_connection_event.pending ≡ true =
              sym waited ∙ ap (λ t. t.new_connection_event.pending) same_s ∙ waiting in
            subst (λ k. InOrder k j s.new_connection_event us) same_q
              (subst (λ t. InOrder p j t.new_connection_event us) same_s
                (arrived_self j ts us waiting' was (o.ordered p j r ts there waiting' was) cases))
        by_address q j s us ts waiting was cases (inr other) found =
            let there' : find q w.active_rpcs ≡ some s = ground (arith, found) in
            arrived_other q j s.new_connection_event ts us other
              (o.ordered q j s ts there' waiting was) cases
