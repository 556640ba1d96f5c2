-- ===== src/Service/Serving.antt =====
-- async_grpc/service.cc: the loops of StartServing, from any state of the service.
use Prim.Native.String.{String}
use mathlib.Core.List.{append_assoc}
use async_flatbuffer_grpc.Prelude.{
  none, true, sym, zero, ◌++◌, length-append, ℕ, suc, ◌+◌, ◌*◌, ◌≡◌, refl, ap, ◌∙◌, subst, some,
  List, [], ◌∷◌, map, arith, ok, find, assign, length, get_elem?, ◌⊎◌, inl, inr, Bool-cases, ◌==◌,
}
use async_flatbuffer_grpc.Api.{Api, RpcHandlerInfo, RpcType}
use async_flatbuffer_grpc.Rpc.{Rpc, make_rpc}
use async_flatbuffer_grpc.Runtime.{World, store}
use async_flatbuffer_grpc.Service.{
  rpc_service_method, serve_method, serve_method_on, start_serving_from, start_serving,
}
use async_flatbuffer_grpc.Service.Order.{same-Grown}
use async_flatbuffer_grpc.Service.Wellformed.{Inv}
use async_flatbuffer_grpc.Service.Fine.{Fine, Fine-trans, after_update}
use async_flatbuffer_grpc.Service.Adding.{
  make_rpc-New, requested, added, find-added, add_and_request_lem, added-Fine,
}
use async_flatbuffer_grpc.Service.Connection.{
  next_queue, selected, select_lem, next_queue-lt, selected-Fine,
}

assign-absent : {V : Type 0} (k : ℕ) (v : V) (m : List (ℕ × V)) → find k m ≡ none → assign k v m ≡ m
unfolding assign find
assign-absent k v [] h = refl
assign-absent k v ((j, w) ∷ m) h = ground (arith, h, assign-absent k v m)

assign-front :
    {V : Type 0} (k : ℕ) (u v : V) (m : List (ℕ × V))
    → find k m ≡ none
    → assign k v ((k, u) ∷ m) ≡ (k, v) ∷ m
unfolding assign
assign-front k u v m h =
    let self : (k == k) ≡ true = ground arith in
    rw self (ap (λ l. (k, v) ∷ l) (assign-absent k v m h))

-- The pairs of a method's number and a completion queue, the last one first.
abbrev pub slots_on : ℕ → List ℕ → List (ℕ × ℕ)
slots_on i [] = []
slots_on i (q ∷ qs) = slots_on i qs ++ (i, q) ∷ []

abbrev pub slots_from : ℕ → ℕ → List ℕ → List (ℕ × ℕ)
slots_from i zero qs = []
slots_from i (suc n) qs = slots_from (suc i) n qs ++ slots_on i qs

length-slots_on : (i : ℕ) (qs : List ℕ) → length (slots_on i qs) ≡ length qs
length-slots_on i [] = refl
length-slots_on i (q ∷ qs) =
    omega (arith, length-append (slots_on i qs) ((i, q) ∷ []), length-slots_on i qs)

pub length-slots_from : (i n : ℕ) (qs : List ℕ) → length (slots_from i n qs) ≡ n * length qs
length-slots_from i zero qs = omega arith
length-slots_from i (suc n) qs = omega (
  arith,
  length-append (slots_from (suc i) n qs) (slots_on i qs),
  length-slots_from (suc i) n qs,
  length-slots_on i qs,
)

module _ {api : Api} where
  -- The Rpc asks for the method that the constructor of Service added for its handler.
  abbrev pub Fits : List (String × RpcType) → Rpc api → Type 0
  Fits methods r = get_elem? methods r.method_index ≡ some (rpc_service_method r.rpc_handler_info)

  abbrev pub FitsOrWas : List (String × RpcType) → ℕ → World api → Rpc api → Type 0
  FitsOrWas methods p v r = Fits methods r ⊎ (find p v.active_rpcs ≡ some r)

  -- The method's number and the completion queue of each Rpc.
  abbrev pub slots : List (ℕ × Rpc api) → List (ℕ × ℕ)
  slots rs = map (λ e. (e.1.method_index, e.1.server_completion_queue)) rs

  pub length-slots : (rs : List (ℕ × Rpc api)) → length (slots rs) ≡ length rs
  length-slots [] = refl
  length-slots (r ∷ rs) = ap suc (length-slots rs)

  -- The step adds Rpcs for the methods, with the numbers and the completion queues `ks`.
  pub record Adds (methods : List (String × RpcType)) (ks : List (ℕ × ℕ)) (v w : World api)
      : Type 0 where
    pub fine : Fine v w
    pub added_slots : slots w.active_rpcs ≡ ks ++ slots v.active_rpcs
    pub queues : w.event_queues ≡ v.event_queues
    pub threads : w.num_event_threads ≡ v.num_event_threads
    pub fits : (p : ℕ) (r : Rpc api) → find p w.active_rpcs ≡ some r → FitsOrWas methods p v r

  Adds-trans :
      {methods : List (String × RpcType)} {j k : List (ℕ × ℕ)} (u v w : World api)
      → Adds methods j u v
      → Adds methods k v w
      → Adds methods (k ++ j) u w
  Adds-trans {methods} {j} {k} u v w g h = record {
    fine = Fine-trans u v w g.fine h.fine;
    added_slots =
        h.added_slots
        ∙ ap (λ l. k ++ l) g.added_slots
        ∙ sym (append_assoc k j (slots u.active_rpcs));
    queues = h.queues ∙ g.queues;
    threads = h.threads ∙ g.threads;
    fits = λ p r e. before p r (h.fits p r e);
  }
    where
      before : (p : ℕ) (r : Rpc api) → FitsOrWas methods p v r → FitsOrWas methods p u r
      before p r (inl fits) = inl fits
      before p r (inr was) = g.fits p r was

  Adds-none : {methods : List (String × RpcType)} (w : World api) → Inv w → Adds methods [] w w
  Adds-none w v = record {
    fine = record {
      inv = v;
      stopped = refl;
      balanced = λ p e. refl;
      grown = same-Grown w w refl refl refl;
    };
    added_slots = refl;
    queues = refl;
    threads = refl;
    fits = λ p r e. inr e;
  }

  module _ (methods : List (String × RpcType)) where
    added_fits :
        (i q : ℕ) (info : RpcHandlerInfo api) (w : World api)
        → Inv w
        → get_elem? methods i ≡ some (rpc_service_method info)
        → (p : ℕ) (s : Rpc api)
        → find p (added (make_rpc i q (next_queue w) info) (selected w)).active_rpcs ≡ some s
        → FitsOrWas methods p w s
    added_fits i q info w v m p s e =
        let r = make_rpc i q (next_queue w) info in
        let f1 = selected-Fine w v in
        let fits : Fits methods (requested r) = unfold make_rpc in m in
        elim (Bool-cases (w.next_address == p)) [
          | inl here ↦
              let same : requested r ≡ s = ground (arith, find-added r (selected w) f1.inv p) in
              inl (subst (Fits methods) same fits)
          | inr other ↦ inr (ground (arith, find-added r (selected w) f1.inv p))
        ]

    serve_method-Adds :
        (i : ℕ) (info : RpcHandlerInfo api) (q : ℕ) (w : World api)
        → get_elem? methods i ≡ some (rpc_service_method info)
        → Inv w
        → (w' : World api) × (serve_method i info q w ≡ ok w') × Adds methods ((i, q) ∷ []) w w'
    unfolding serve_method
    serve_method-Adds i info q w m v =
        let r = make_rpc i q (next_queue w) info in
        let new =
          make_rpc-New i q (next_queue w) (length w.event_queues) info (next_queue-lt w v) in
        let f1 = selected-Fine w v in
        let new_slot : slots (added r (selected w)).active_rpcs ≡ (i, q) ∷ slots w.active_rpcs =
          unfold after_update store make_rpc in
          ap slots (
            assign-front w.next_address r (requested r) w.active_rpcs
              (v.fresh w.next_address (omega arith))) in
        (
          added r (selected w),
          rw (select_lem w v) (add_and_request_lem r (selected w) f1.inv new.interface),
          record {
            fine =
                Fine-trans w (selected w) (added r (selected w)) f1
                  (added-Fine r (selected w) f1.inv new);
            added_slots = new_slot;
            queues = unfold after_update store in refl;
            threads = unfold after_update store in refl;
            fits = added_fits i q info w v m;
          },
        )

    serve_method_on-Adds :
        (i : ℕ) (info : RpcHandlerInfo api) (qs : List ℕ) (w : World api)
        → get_elem? methods i ≡ some (rpc_service_method info)
        → Inv w
        → (w' : World api) × (serve_method_on i info qs w ≡ ok w')
          × Adds methods (slots_on i qs) w w'
    unfolding serve_method_on
    serve_method_on-Adds i info [] w m v = (w, refl, Adds-none w v)
    serve_method_on-Adds i info (q ∷ qs) w m v =
        let (w1, e1, a1) = serve_method-Adds i info q w m v in
        let (w2, e2, a2) = serve_method_on-Adds i info qs w1 m a1.fine.inv in
        (w2, rw e1 e2, Adds-trans w w1 w2 a1 a2)

    pub start_serving_from-Adds :
        (i : ℕ) (infos : List (RpcHandlerInfo api)) (qs : List ℕ) (w : World api)
        → ((j : ℕ) → get_elem? methods (i + j) ≡ get_elem? (map rpc_service_method infos) j)
        → Inv w
        → (w' : World api) × (start_serving_from i infos qs w ≡ ok w')
          × Adds methods (slots_from i (length infos) qs) w w'
    unfolding start_serving_from
    start_serving_from-Adds i [] qs w m v = (w, refl, Adds-none w v)
    start_serving_from-Adds i (info ∷ infos) qs w m v =
        let first : get_elem? methods i ≡ some (rpc_service_method info) =
          ap (get_elem? methods) (omega arith) ∙ m 0 in
        let (w1, e1, a1) = serve_method_on-Adds i info qs w first v in
        let rest : (j : ℕ)
            → get_elem? methods (suc i + j) ≡ get_elem? (map rpc_service_method infos) j =
          λ j. ap (get_elem? methods) (omega arith) ∙ m (suc j) in
        let (w2, e2, a2) = start_serving_from-Adds (suc i) infos qs w1 rest a1.fine.inv in
        (w2, rw e1 e2, Adds-trans w w1 w2 a1 a2)

  pub start_serving-Adds :
      (infos : List (RpcHandlerInfo api)) (qs : List ℕ) (w : World api)
      → Inv w
      → (w' : World api) × (start_serving infos qs w ≡ ok w')
        × Adds (map rpc_service_method infos) (slots_from 0 (length infos) qs) w w'
  unfolding start_serving
  start_serving-Adds infos qs w v =
      start_serving_from-Adds (map rpc_service_method infos) 0 infos qs w
        (λ j. ap (get_elem? (map rpc_service_method infos)) (omega arith)) v
