-- ===== src/Server/Steps/Taking.antt =====
-- async_grpc/server.cc: what a turn of RunCompletionQueue or of RunEventQueue takes off: a call that
-- gRPC completed, the event at the front of a queue.
use async_flatbuffer_grpc.Prelude.{
  ℕ, zero, suc, ◌+◌, ◌<◌, ◌≡◌, refl, true, false, Option, none, some, List, [], ◌∷◌, arith, find,
  get_elem?, set,
}
use async_flatbuffer_grpc.Api.{Api, Event, GrpcCall}
use async_flatbuffer_grpc.Common.BlockingQueue.{BlockingQueue}
use async_flatbuffer_grpc.Rpc.{Rpc}
use async_flatbuffer_grpc.Runtime.{World, QueuedEvent}
use async_flatbuffer_grpc.Service.Tags.{
  bit, is_tag, count_queues, count_calls, AllInfinite, flag, weight, owed, owed_of,
}
use async_flatbuffer_grpc.Service.Order.{Ordered}
use async_flatbuffer_grpc.Service.Wellformed.{Inv}
use async_flatbuffer_grpc.Server.Steps.{drop_at}

-- The queues when the front of the i-th was taken.
pub count_queues-set :
    (p : ℕ) (e : Event) (i n : ℕ) (x : QueuedEvent) (xs : List QueuedEvent)
    (q : BlockingQueue QueuedEvent) (qs : List (BlockingQueue QueuedEvent))
    → get_elem? qs i ≡ some q
    → q.deque ≡ x ∷ xs
    → count_queues p e (set qs i (record { queue_size = n; deque = xs })) + bit (is_tag p e x)
      ≡ count_queues p e qs
count_queues-set p e i n x xs q [] h d = cc
count_queues-set p e zero n x xs q (q' ∷ qs) h d =
    let same : q'.deque ≡ x ∷ xs = ground (arith, h, d) in rw same (omega arith)
count_queues-set p e (suc i) n x xs q (q' ∷ qs) h d =
    omega (arith, count_queues-set p e i n x xs q qs h d)

pub AllInfinite-set :
    (i : ℕ) (xs : List QueuedEvent) (q : BlockingQueue QueuedEvent)
    (qs : List (BlockingQueue QueuedEvent))
    → get_elem? qs i ≡ some q
    → AllInfinite qs
    → AllInfinite (set qs i (record { queue_size = q.queue_size; deque = xs }))
AllInfinite-set i xs q [] h a = tt
AllInfinite-set zero xs q (q' ∷ qs) h a = (ground (arith, h, a.0), a.1)
AllInfinite-set (suc i) xs q (q' ∷ qs) h a = (a.0, AllInfinite-set i xs q qs h a.1)

module _ {api : Api} where
  pub count_calls-drop_at :
      (p : ℕ) (e : Event) (n q : ℕ) (c : GrpcCall api) (cs : List (ℕ × GrpcCall api))
      → get_elem? cs n ≡ some (q, c)
      → count_calls p e (drop_at n cs) + count_calls p e ((q, c) ∷ []) ≡ count_calls p e cs
  count_calls-drop_at p e n q c [] h = cc
  count_calls-drop_at p e zero q c (x ∷ cs) h = ground (arith, h)
  count_calls-drop_at p e (suc n) q c (x ∷ cs) h = omega (arith, count_calls-drop_at p e n q c cs h)

  -- A state of a running service between two steps: each tag is out as often as its event is pending.
  pub record Safe (w : World api) : Type 0 where
    pub inv : Inv w
    pub running : w.shutting_down ≡ false
    pub accounted : (p : ℕ) (e : Event) → weight p e w ≡ owed p e w
    pub ordered : Ordered w

  -- A tag that is out belongs to an Rpc that exists and has the event pending.
  pub owed-there :
      (p : ℕ) (e : Event) (w : World api)
      → 0 < owed p e w
      → (r : Rpc api) × (find p w.active_rpcs ≡ some r) × (flag e r ≡ true)
  owed-there p e w h = found (find p w.active_rpcs) refl h
    where
      found :
          (o : Option (Rpc api))
          → find p w.active_rpcs ≡ o
          → 0 < owed_of e o
          → (r : Rpc api) × (find p w.active_rpcs ≡ some r) × (flag e r ≡ true)
      found none eq g = elim g [ ]
      found (some r) eq g = (r, eq, ground arith)
