-- ===== src/Service/Adding.antt =====
-- async_grpc/service.cc: an Rpc is added to ActiveRpcs and asks gRPC for the next invocation of its
-- method, as in StartServing and HandleNewConnection.
use async_flatbuffer_grpc.Prelude.{
  ℕ, suc, ◌<◌, ◌≤◌, ◌≡◌, refl, true, false, none, some, List, [], ◌∷◌, map, arith, if◌then◌else◌,
  ok, find, find-assign, find-insert, length, ◌==◌, Bool-cases, inl, inr, subst,
}
use async_flatbuffer_grpc.Api.{
  Api, Event, new_connection, read, write, finish, done, GrpcCall, async_notify_when_done,
  RpcHandlerInfo,
}
use async_flatbuffer_grpc.Rpc.{
  Rpc, make_rpc, set_event_queue, request_next_method_invocation, request_async,
}
use async_flatbuffer_grpc.Rpc.SendQueue.{HasInterface}
use async_flatbuffer_grpc.Runtime.{World, store, add}
use async_flatbuffer_grpc.Service.{add_and_request}
use async_flatbuffer_grpc.Service.Tags.{flag, count_calls-append}
use async_flatbuffer_grpc.Service.Order.{Grown}
use async_flatbuffer_grpc.Service.Wellformed.{Good, Inv, Balanced}
use async_flatbuffer_grpc.Service.Fine.{Fine, count_calls-map, after_update, update_rpc_lem}

module _ {api : Api} where
  -- An Rpc that was just made: nothing has happened to it.
  pub record New (n : ℕ) (r : Rpc api) : Type 0 where
    pub interface : HasInterface r
    pub queue : r.event_queue < n
    pub new_connection_queue : r.new_connection_event.event_queue < n
    pub read_queue : r.read_event.event_queue < n
    pub write_queue : r.write_event.event_queue < n
    pub finish_queue : r.finish_event.event_queue < n
    pub done_queue : r.done_event.event_queue < n
    pub same_queue : r.done_event.event_queue ≡ r.new_connection_event.event_queue
    pub no_handler : r.handler ≡ none
    pub empty : r.send_queue ≡ []
    pub idle : (e : Event) → flag e r ≡ false

  pub make_rpc-New : (m c q n : ℕ) (info : RpcHandlerInfo api) → q < n → New n (make_rpc m c q info)
  unfolding make_rpc
  make_rpc-New m c q n info h = record {
    interface = refl;
    queue = h;
    new_connection_queue = h;
    read_queue = h;
    write_queue = h;
    finish_queue = h;
    done_queue = h;
    same_queue = refl;
    no_handler = refl;
    empty = refl;
    idle = λ e. ground arith;
  }

  pub set_event_queue-New : (q n : ℕ) (r : Rpc api) → q < n → New n r → New n (set_event_queue q r)
  unfolding set_event_queue
  set_event_queue-New q n r h g = record {
    interface = g.interface;
    queue = h;
    new_connection_queue = g.new_connection_queue;
    read_queue = g.read_queue;
    write_queue = g.write_queue;
    finish_queue = g.finish_queue;
    done_queue = g.done_queue;
    same_queue = g.same_queue;
    no_handler = g.no_handler;
    empty = g.empty;
    idle = λ e. ground (arith, g.idle e);
  }

  -- The Rpc once it waits for its connection.
  abbrev pub requested : Rpc api → Rpc api
  requested r = record r {
    done_event = record (r.done_event) { pending = true };
    new_connection_event = record (r.new_connection_event) { pending = true };
  }

  abbrev pub request_calls : Rpc api → List (GrpcCall api)
  request_calls r =
      record { via = none; op = async_notify_when_done; tag = done }
      ∷ record {
        via = r.interface;
        op = request_async r.rpc_handler_info.rpc_type r.method_index;
        tag = new_connection;
      }
      ∷ []

  request_lem :
      (r : Rpc api)
      → HasInterface r
      → request_next_method_invocation r ≡ ok (requested r, request_calls r)
  unfolding request_next_method_invocation
  request_lem r h = ground arith

  -- The world with the Rpc at the next address.
  abbrev pub inserted : Rpc api → World api → World api
  inserted r w = record w {
    next_address = suc (w.next_address);
    active_rpcs = (w.next_address, r) ∷ w.active_rpcs;
  }

  abbrev pub added : Rpc api → World api → World api
  added r w = after_update w.next_address (requested r) (request_calls r) (inserted r w)

  module _ (r : Rpc api) (w : World api) (v : Inv w) where
    inserted-there : find w.next_address (inserted r w).active_rpcs ≡ some r
    inserted-there = rw (find-insert w.next_address w.next_address r w.active_rpcs) (ground arith)

    pub find-added :
        (q : ℕ)
        → find q (added r w).active_rpcs
          ≡ (if w.next_address == q then some (requested r) else find q w.active_rpcs)
    unfolding after_update store
    find-added q =
        rw (find-assign w.next_address q (requested r) (inserted r w).active_rpcs, inserted-there)
          (ground (arith, find-insert w.next_address q r w.active_rpcs))

    pub add_and_request_lem : HasInterface r → add_and_request r w ≡ ok (added r w)
    unfolding add_and_request add
    add_and_request_lem h = rw (v.fresh w.next_address (omega arith)) (
        update_rpc_lem w.next_address request_next_method_invocation r (requested r)
          (request_calls r) (inserted r w) inserted-there (request_lem r h))

    added_rpc :
        (q : ℕ) (s : Rpc api)
        → New (length w.event_queues) r
        → find q (added r w).active_rpcs ≡ some s
        → Good (length w.event_queues) s
    added_rpc q s g e = elim (Bool-cases (w.next_address == q)) [
      | inl here ↦
          let same : requested r ≡ s = ground (arith, find-added q) in subst (Good _) same g'
      | inr there ↦ v.rpcs q s (ground (arith, find-added q))
    ]
      where
        g' : Good (length w.event_queues) (requested r)
        g' = ground (arith, g.idle read, g.idle write, g.idle finish)

    added-Balanced : New (length w.event_queues) r → Balanced w (added r w)
    unfolding after_update store
    added-Balanced g q e = ground (
      arith,
      find-added q,
      v.fresh w.next_address,
      g.idle e,
      count_calls-append q e w.calls (map (λ c. (w.next_address, c)) (request_calls r)),
      count_calls-map w.next_address q e (request_calls r),
    )

    added_fresh : (q : ℕ) → (added r w).next_address ≤ q → find q (added r w).active_rpcs ≡ none
    unfolding after_update store
    added_fresh q h = ground (arith, find-added q, v.fresh q)

    added-Grown : Grown w (added r w)
    unfolding after_update store
    added-Grown = record {
      tags = refl;
      later = omega arith;
      kin = λ q s e. elim (Bool-cases (w.next_address == q)) [
        | inl here ↦ inr (ground arith)
        | inr other ↦ inl (s, ground (arith, find-added q), refl)
      ];
    }

    pub added-Fine : New (length w.event_queues) r → Fine w (added r w)
    added-Fine g = record {
      inv = record {
        threads = unfold after_update store in v.threads;
        some_thread = unfold after_update store in v.some_thread;
        infinite = unfold after_update store in v.infinite;
        fresh = added_fresh;
        rpcs = λ q s e. unfold after_update store in added_rpc q s g e;
      };
      stopped = unfold after_update store in refl;
      balanced = added-Balanced g;
      grown = added-Grown;
    }
