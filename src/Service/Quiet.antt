-- ===== src/Service/Quiet.antt =====
-- async_grpc/rpc.h: steps that leave the accounting of tags alone; Write and Finish of a connected
-- Rpc are such steps, and never fault.
use async_flatbuffer_grpc.Prelude.{
  ℕ, ◌<◌, ◌≡◌, refl, ◌∙◌, false, Option, none, some, arith, ok, find, length,
}
use async_flatbuffer_grpc.Api.{Api, Event, new_connection, SendItem}
use async_flatbuffer_grpc.Rpc.{Rpc, enqueue_message}
use async_flatbuffer_grpc.Runtime.{
  World, internal_event, load, store, get_weak_ptr, enqueue_and_notify,
}
use async_flatbuffer_grpc.Service.Tags.{flag, weight, owed, owed-store, pushed, push_event_lem}
use async_flatbuffer_grpc.Service.Order.{
  Grown, Grown-trans, same-Grown, queue_tags-push_at, store-Grown,
}
use async_flatbuffer_grpc.Service.Wellformed.{
  Good, Inv, Balanced, Kept, Kept-trans, store-there, store-Inv, store-Kept, pushed-Inv,
  pushed-Kept, weight-pushed,
}

module _ {api : Api} where
  -- A step that neither asks gRPC for anything nor changes a pending flag.
  pub record Quiet (v w : World api) : Type 0 where
    pub inv : Inv w
    pub kept : Kept v w
    pub same_weight : (p : ℕ) (e : Event) → weight p e w ≡ weight p e v
    pub same_owed : (p : ℕ) (e : Event) → owed p e w ≡ owed p e v
    pub grown : Grown v w

  pub Quiet-trans : {u v w : World api} → Quiet u v → Quiet v w → Quiet u w
  Quiet-trans {u} {v} {w} g h = record {
    inv = h.inv;
    kept = Kept-trans g.kept h.kept;
    same_weight = λ p e. h.same_weight p e ∙ g.same_weight p e;
    same_owed = λ p e. h.same_owed p e ∙ g.same_owed p e;
    grown = Grown-trans u v w g.grown h.grown;
  }

  pub Quiet-Balanced : (v w : World api) → Quiet v w → Balanced v w
  Quiet-Balanced v w q p e = omega (arith, q.same_weight p e, q.same_owed p e)

  -- The Rpc at the address exists, and its NEW_CONNECTION event was handled.
  pub record Connected (p : ℕ) (w : World api) : Type 0 where
    pub rpc : Rpc api
    pub there : find p w.active_rpcs ≡ some rpc
    pub connected : rpc.new_connection_event.pending ≡ false

  -- The Rpc is there after the step, with the same pending flags.
  pub Quiet-there :
      (p : ℕ) (r : Rpc api) (v w : World api)
      → Quiet v w
      → find p v.active_rpcs ≡ some r
      → (r' : Rpc api) × (find p w.active_rpcs ≡ some r') × ((e : Event) → flag e r' ≡ flag e r)
  Quiet-there p r v w q h = found (find p w.active_rpcs) refl
    where
      found :
          (o : Option (Rpc api))
          → find p w.active_rpcs ≡ o
          → (r' : Rpc api) × (find p w.active_rpcs ≡ some r') × ((e : Event) → flag e r' ≡ flag e r)
      found none e = cc (q.kept.alive p, e, h)
      found (some r') e = (r', e, λ ev. ground (arith, q.same_owed p ev, e, h))

  pub Quiet-Connected : (p : ℕ) (v w : World api) → Quiet v w → Connected p v → Connected p w
  Quiet-Connected p v w q c =
      let (r', there, same) = Quiet-there p c.rpc v w q c.there in
      record { rpc = r'; there = there; connected = same new_connection ∙ c.connected }

  -- An assignment to a connected Rpc that changes no flag.
  module _ (p : ℕ) (r r' : Rpc api) (w : World api) (there : find p w.active_rpcs ≡ some r)
      (same : (e : Event) → flag e r' ≡ flag e r)
      (kept_new : r'.new_connection_event ≡ r.new_connection_event) where
    pub store-Quiet : Inv w → Good (length w.event_queues) r' → Quiet w (store p r' w)
    store-Quiet v g = record {
      inv = store-Inv p r r' w there v g;
      kept = store-Kept p r r' w there;
      same_weight = λ q e. unfold store in refl;
      same_owed = λ q e. ground (arith, owed-store p q e r r' w there, same e, there);
      grown = store-Grown p r r' w there kept_new;
    }

  internal-Quiet :
      (i p : ℕ) (w : World api)
      → i < length w.event_queues
      → Inv w
      → Quiet w (pushed i (internal_event p) w)
  internal-Quiet i p w h v = record {
    inv = pushed-Inv i (internal_event p) w h v;
    kept = pushed-Kept i (internal_event p) w h;
    same_weight = λ q e. omega (arith, weight-pushed i (internal_event p) w h q e);
    same_owed = λ q e. refl;
    grown =
        same-Grown w (pushed i (internal_event p) w) refl refl
          (queue_tags-push_at i p w.event_queues);
  }

  pub enqueue-Quiet :
      (p : ℕ) (item : SendItem api) (w : World api)
      → Inv w
      → Connected p w
      → (w' : World api) × (enqueue_and_notify p item w ≡ ok w') × Quiet w w'
  unfolding enqueue_and_notify load get_weak_ptr
  enqueue-Quiet p item w v c =
      let r = c.rpc in
      let r' = enqueue_message item r in
      let w1 = store p r' w in
      let g = v.rpcs p r c.there in
      let g' : Good (length w.event_queues) r' = unfold enqueue_message in ground arith in
      let q1 =
        store-Quiet p r r' w c.there (λ e. unfold enqueue_message in ground arith)
          (unfold enqueue_message in refl) v g' in
      let inside : r.event_queue < length w1.event_queues =
        omega (arith, q1.kept.queues, g.queue) in
      let there1 = store-there p r r' w c.there in
      (
        pushed r.event_queue (internal_event p) w1,
        rw
            (
              c.there,
              there1,
              push_event_lem r.event_queue (internal_event p) w1 inside q1.inv.infinite,
            )
            refl,
        Quiet-trans q1 (internal-Quiet r.event_queue p w1 inside q1.inv),
      )
