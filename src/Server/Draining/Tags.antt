-- ===== src/Server/Draining/Tags.antt =====
-- async_grpc/server.cc: code that puts no completed event into an event queue and takes none out.
use async_flatbuffer_grpc.Prelude.{
  ℕ, zero, suc, ◌≡◌, refl, sym, ◌∙◌, ap, Bool-cases, Option, none, some, List, [], ◌∷◌, ◌++◌, arith,
  Result, ok, fault, Fault, check, or_fault, ◌>>=◌, ◌>>◌, >>=-ok, get_elem?, set, if◌then◌else◌,
  inl, inr, true, false, Bool,
}
use async_flatbuffer_grpc.Api.{Api, GrpcCall}
use async_flatbuffer_grpc.Common.BlockingQueue.{BlockingQueue}
use async_flatbuffer_grpc.Common.BlockingQueue
use async_flatbuffer_grpc.Rpc.{Rpc}
use async_flatbuffer_grpc.Runtime.{
  World, QueuedEvent, internal_event, push_event, update_rpc, load, store,
}
use async_flatbuffer_grpc.Service.Tags.{push_at}
use async_flatbuffer_grpc.Service.Order.{queue_tags, queue_tags-push_at}

push-ok :
    (x : QueuedEvent) (q q' : BlockingQueue QueuedEvent)
    → BlockingQueue.push x q ≡ some q'
    → record q { deque = q.deque ++ x ∷ [] } ≡ q'
unfolding BlockingQueue.push
push-ok x q q' e = elim (Bool-cases (BlockingQueue.queue_not_full_condition q)) [
  | inl fits ↦ ground (arith, e, fits)
  | inr full ↦ ground (arith, e, full)
]

set-push_at :
    (i : ℕ) (x : QueuedEvent) (q q' : BlockingQueue QueuedEvent)
    (qs : List (BlockingQueue QueuedEvent))
    → get_elem? qs i ≡ some q
    → record q { deque = q.deque ++ x ∷ [] } ≡ q'
    → set qs i q' ≡ push_at i x qs
set-push_at i x q q' [] h e = refl
set-push_at zero x q q' (p ∷ qs) h e =
    let same : p ≡ q = cc h in
    let put : BlockingQueue QueuedEvent → BlockingQueue QueuedEvent =
      λ r. record r { deque = r.deque ++ x ∷ [] } in
    ap (λ l. l ∷ qs) (sym e ∙ ap put (sym same))
set-push_at (suc i) x q q' (p ∷ qs) h e = ap (λ l. p ∷ l) (set-push_at i x q q' qs h e)

or_fault-ok {a} :
    {X : Type a} (o : Option X) (why : Fault) (x : X) → or_fault o why ≡ ok x → o ≡ some x
or_fault-ok none why x e = cc
or_fault-ok (some y) why x e = let same : y ≡ x = cc e in ap some same

module _ {api : Api} where
  -- Whatever the code makes of `v`, the completed events in the queues are the same, in order.
  abbrev pub Keeps : World api → Result (World api) → Type 0
  Keeps v m = (w : World api) → m ≡ ok w → queue_tags w.event_queues ≡ queue_tags v.event_queues

  pub Keeps-ok :
      (v w : World api) → queue_tags w.event_queues ≡ queue_tags v.event_queues → Keeps v (ok w)
  Keeps-ok v w h u e = let same : w ≡ u = cc e in ap (λ x. queue_tags x.event_queues) (sym same) ∙ h

  pub Keeps-fault : (v : World api) (why : Fault) → Keeps v (fault why)
  Keeps-fault v why u e = cc

  -- After code that changes nothing.
  pub Keeps-after {a} :
      {A : Type a} (v : World api) (first : Result A) (rest : A → Result (World api))
      → ((x : A) → Keeps v (rest x))
      → Keeps v (first >>= rest)
  Keeps-after v first rest h u e = let (x, _, g) = >>=-ok rest first e in h x u g

  pub Keeps-then :
      (v : World api) (first : Result (World api)) (rest : World api → Result (World api))
      → Keeps v first
      → ((w : World api) → Keeps w (rest w))
      → Keeps v (first >>= rest)
  Keeps-then v first rest h g u e = let (w, e1, e2) = >>=-ok rest first e in g w u e2 ∙ h w e1

  pub push_event-Keeps : (i p : ℕ) (v : World api) → Keeps v (push_event i (internal_event p) v)
  unfolding push_event
  push_event-Keeps i p v u e =
      let x = internal_event p in
      let pushed : BlockingQueue QueuedEvent → World api =
        λ q'. record v { event_queues = set v.event_queues i q' } in
      let (q, e1, h1) =
        >>=-ok (λ q. or_fault (BlockingQueue.push x q) Fault.would_block >>= (λ q'. ok (pushed q')))
          (or_fault (get_elem? v.event_queues i) Fault.null_pointer) e in
      let (q', e2, h2) =
        >>=-ok (λ q'. ok (pushed q')) (or_fault (BlockingQueue.push x q) Fault.would_block) h1 in
      let there = or_fault-ok (get_elem? v.event_queues i) Fault.null_pointer q e1 in
      let fits = or_fault-ok (BlockingQueue.push x q) Fault.would_block q' e2 in
      Keeps-ok v (pushed q')
        (ap queue_tags (set-push_at i x q q' v.event_queues there (push-ok x q q' fits))
          ∙ queue_tags-push_at i p v.event_queues)
        u h2

  -- A member that changes its Rpc and calls gRPC.
  pub update_rpc-Keeps :
      (p : ℕ) (member : Rpc api → Result (Rpc api × List (GrpcCall api))) (v : World api)
      → Keeps v (update_rpc p member v)
  unfolding update_rpc store
  update_rpc-Keeps p member v =
      Keeps-after v (load p v) _ (λ r. Keeps-after v (member r) _ (λ m. Keeps-ok v _ refl))

  pub Keeps-check :
      (v : World api) (b : Bool) (w : World api)
      → queue_tags w.event_queues ≡ queue_tags v.event_queues
      → Keeps v (check b >> ok w)
  Keeps-check v true w h = Keeps-ok v w h
  Keeps-check v false w h = Keeps-fault v Fault.check_failed

  -- After code that returns a new state with something else.
  pub Keeps-with {a} :
      {A : Type a} (v : World api) (first : Result (World api × A))
      (rest : World api × A → Result (World api))
      → ((x : World api × A)
          → first ≡ ok x
          → queue_tags x.0.event_queues ≡ queue_tags v.event_queues)
      → ((x : World api × A) → Keeps x.0 (rest x))
      → Keeps v (first >>= rest)
  Keeps-with v first rest h g u e = let (x, e1, e2) = >>=-ok rest first e in g x u e2 ∙ h x e1

  pub Keeps-if :
      (v : World api) (b : Bool) (m n : Result (World api))
      → Keeps v m
      → Keeps v n
      → Keeps v (if b then m else n)
  Keeps-if v true m n h g = h
  Keeps-if v false m n h g = g
