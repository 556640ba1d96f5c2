-- ===== src/Service/Fine.antt =====
-- async_grpc/service.cc: steps that keep the tags accounted for, and the members of class Rpc that
-- ask something of gRPC.
use async_flatbuffer_grpc.Prelude.{
  ℕ, ◌+◌, ◌≡◌, refl, ◌∙◌, some, List, [], ◌∷◌, ◌++◌, map, arith, if◌then◌else◌, Result, ok, find,
  length, ◌==◌,
}
use async_flatbuffer_grpc.Api.{Api, Event, event_eq, GrpcCall}
use async_flatbuffer_grpc.Rpc.{Rpc}
use async_flatbuffer_grpc.Runtime.{World, load, store, update_rpc}
use async_flatbuffer_grpc.Service.Tags.{bit, flag, owed-store, count_calls, count_calls-append}
use async_flatbuffer_grpc.Service.Order.{Grown, Grown-trans, store-Grown}
use async_flatbuffer_grpc.Service.Wellformed.{
  Good, Inv, Balanced, Balanced-trans, store-there, store-Inv,
}
use async_flatbuffer_grpc.Service.Quiet.{Quiet, Quiet-Balanced}

module _ {api : Api} where
  pub record Fine (v w : World api) : Type 0 where
    pub inv : Inv w
    pub stopped : w.shutting_down ≡ v.shutting_down
    pub balanced : Balanced v w
    pub grown : Grown v w

  pub Quiet-Fine : (v w : World api) → Quiet v w → Fine v w
  Quiet-Fine v w q = record {
    inv = q.inv;
    stopped = q.kept.stopped;
    balanced = Quiet-Balanced v w q;
    grown = q.grown;
  }

  pub Fine-trans : (u v w : World api) → Fine u v → Fine v w → Fine u w
  Fine-trans u v w g h = record {
    inv = h.inv;
    stopped = h.stopped ∙ g.stopped;
    balanced = Balanced-trans u v w g.balanced h.balanced;
    grown = Grown-trans u v w g.grown h.grown;
  }

  -- How often an event is the tag of one of the calls.
  abbrev pub count_tags : Event → List (GrpcCall api) → ℕ
  count_tags e [] = 0
  count_tags e (c ∷ cs) = bit (event_eq e c.tag) + count_tags e cs

  pub count_calls-map :
      (p q : ℕ) (e : Event) (cs : List (GrpcCall api))
      → count_calls q e (map (λ c. (p, c)) cs) ≡ (if p == q then count_tags e cs else 0)
  count_calls-map p q e [] = ground arith
  count_calls-map p q e (c ∷ cs) = ground (arith, count_calls-map p q e cs)

  -- A member that raises a pending flag for each tag that it hands to gRPC, and no other.
  abbrev pub Pays : Rpc api → Rpc api → List (GrpcCall api) → Type 0
  Pays r r' cs = (e : Event) → bit (flag e r) + count_tags e cs ≡ bit (flag e r')

  unfoldable pub after_update : ℕ → Rpc api → List (GrpcCall api) → World api → World api
  after_update p r' cs w = record (store p r' w) { calls = w.calls ++ map (λ c. (p, c)) cs }

  pub update_rpc_lem :
      (p : ℕ) (member : Rpc api → Result (Rpc api × List (GrpcCall api))) (r r' : Rpc api)
      (cs : List (GrpcCall api)) (w : World api)
      → find p w.active_rpcs ≡ some r
      → member r ≡ ok (r', cs)
      → update_rpc p member w ≡ ok (after_update p r' cs w)
  unfolding update_rpc load after_update
  update_rpc_lem p member r r' cs w there e = rw (there, e) refl

  module _ (p : ℕ) (r r' : Rpc api) (cs : List (GrpcCall api)) (w : World api)
      (there : find p w.active_rpcs ≡ some r) (pays : Pays r r' cs) where
    pub after_update-there : find p (after_update p r' cs w).active_rpcs ≡ some r'
    unfolding after_update
    after_update-there = store-there p r r' w there

    update-Balanced : Balanced w (after_update p r' cs w)
    unfolding after_update store
    update-Balanced q e = ground (
      arith,
      owed-store p q e r r' w there,
      count_calls-append q e w.calls (map (λ c. (p, c)) cs),
      count_calls-map p q e cs,
      pays e,
      there,
    )

    pub update-Fine :
        r'.new_connection_event ≡ r.new_connection_event
        → Inv w
        → Good (length w.event_queues) r'
        → Fine w (after_update p r' cs w)
    unfolding after_update store
    update-Fine kept_new v g =
        let stored = store-Inv p r r' w there v g in
        let grown = store-Grown p r r' w there kept_new in
        record {
          inv = record {
            threads = stored.threads;
            some_thread = stored.some_thread;
            infinite = stored.infinite;
            fresh = stored.fresh;
            rpcs = stored.rpcs;
          };
          stopped = refl;
          balanced = update-Balanced;
          grown = record { tags = refl; later = omega arith; kin = grown.kin };
        }
