-- ===== src/Server/Services/Sharing.antt =====
-- async_grpc/service.cc, rpc.h: a member of a service touches the service's own Rpcs only, whatever
-- other Rpcs there are.
use async_flatbuffer_grpc.Prelude.{
  ℕ, ◌≡◌, refl, sym, ap, ◌∙◌, ◌⊎◌, Bool, true, false, Option, none, List, ◌++◌, arith, Result, ok,
  fault, Fault, or_fault, ◌>>=◌, >>=-ok, find, assign, erase, get_elem?, set, find-assign,
  find-erase, if◌then◌else◌, map,
}
use async_flatbuffer_grpc.Api.{Api, GrpcCall}
use async_flatbuffer_grpc.Common.BlockingQueue
use async_flatbuffer_grpc.Rpc.{Rpc}
use async_flatbuffer_grpc.Runtime.{QueuedEvent, World, load, store, push_event, update_rpc}

abbrev pub Rpcs : Api → Type 0
Rpcs api = List (ℕ × Rpc api)

module _ {api : Api} where
  -- The state with all Rpcs of the server in place of a service's own.
  abbrev pub over : Rpcs api → World api → World api
  over rpcs w = record w { active_rpcs = rpcs }

  module _ (other : ℕ → Option (Rpc api)) where
    -- The Rpcs are the service's own with those of the other services, and no address is in both.
    abbrev pub Shared : Rpcs api → Rpcs api → Type 0
    Shared own rpcs =
        (p : ℕ)
        → ((find p own ≡ none) × (find p rpcs ≡ other p))
          ⊎ ((other p ≡ none) × (find p rpcs ≡ find p own))

    -- `m` does to the service's own Rpcs what led to `u`.
    pub record Alike (u : World api) (m : Result (World api)) : Type 0 where
      pub own : World api
      pub rpcs : Rpcs api
      pub succeeds : m ≡ ok own
      pub same : u ≡ over rpcs own
      pub shared : Shared own.active_rpcs rpcs

    -- Whenever the one result is a success, so is the other, and it leads to its own part.
    abbrev pub Follows : Result (World api) → Result (World api) → Type 0
    Follows whole part = (u : World api) → whole ≡ ok u → Alike u part

    abbrev pub Restricts : (World api → Result (World api)) → Type 0
    Restricts member =
        (w : World api) (rpcs : Rpcs api)
        → Shared w.active_rpcs rpcs
        → Follows (member (over rpcs w)) (member w)

    module _ (w : World api) (rpcs : Rpcs api) (h : Shared w.active_rpcs rpcs) where
      pub Follows-ok : Follows (ok (over rpcs w)) (ok w)
      Follows-ok u e = record { own = w; rpcs = rpcs; succeeds = refl; same = cc e; shared = h }

      module _ (p : ℕ) (mine : other p ≡ none) where
        pub find-own : find p rpcs ≡ find p w.active_rpcs
        find-own = ground (arith, h p, mine)

        pub load-own : load p (over rpcs w) ≡ load p w
        unfolding load
        load-own = ap (λ o. or_fault o Fault.dangling) find-own

        pub store-Shared : (r : Rpc api) → Shared (store p r w).active_rpcs (assign p r rpcs)
        unfolding store
        store-Shared r q =
            ground (arith, h q, h p, mine, find-assign p q r rpcs, find-assign p q r w.active_rpcs)

        pub erase-Shared : Shared (erase p w.active_rpcs) (erase p rpcs)
        erase-Shared q =
            ground (arith, h q, h p, mine, find-erase p q rpcs, find-erase p q w.active_rpcs)

    pub Follows-fault : (why : Fault) (part : Result (World api)) → Follows (fault why) part
    Follows-fault why part u e = cc

    -- After the same code, which changes nothing.
    pub Follows-after {a} :
        {A : Type a} (first : Result A) (whole part : A → Result (World api))
        → ((x : A) → Follows (whole x) (part x))
        → Follows (first >>= whole) (first >>= part)
    Follows-after (fault why) whole part h u e = cc
    Follows-after (ok x) whole part h u e = h x u e

    pub Follows-then :
        (whole part : Result (World api)) (rest : World api → Result (World api))
        → Follows whole part
        → Restricts rest
        → Follows (whole >>= rest) (part >>= rest)
    Follows-then whole part rest h g u e =
        let (v, e1, e2) = >>=-ok rest whole e in
        let a = h v e1 in
        let b = g a.own a.rpcs a.shared u (ap rest (sym a.same) ∙ e2) in
        record {
          own = b.own;
          rpcs = b.rpcs;
          succeeds = rw a.succeeds b.succeeds;
          same = b.same;
          shared = b.shared;
        }

    pub Follows-if :
        (b : Bool) (whole part whole' part' : Result (World api))
        → Follows whole part
        → Follows whole' part'
        → Follows (if b then whole else whole') (if b then part else part')
    Follows-if true whole part whole' part' h g = h
    Follows-if false whole part whole' part' h g = g

    module _ (p : ℕ) (mine : other p ≡ none) where
      pub Follows-load :
          (w : World api) (rpcs : Rpcs api) (whole part : Rpc api → Result (World api))
          → Shared w.active_rpcs rpcs
          → ((r : Rpc api) → Follows (whole r) (part r))
          → Follows (load p (over rpcs w) >>= whole) (load p w >>= part)
      Follows-load w rpcs whole part h g =
          rw (load-own w rpcs h p mine) (Follows-after (load p w) whole part g)

      pub push_event-Restricts : (i : ℕ) (x : QueuedEvent) → Restricts (push_event i x)
      unfolding push_event
      push_event-Restricts i x w rpcs h =
          Follows-after (or_fault (get_elem? w.event_queues i) Fault.null_pointer) _ _ (λ q.
            Follows-after (or_fault (BlockingQueue.push x q) Fault.would_block) _ _
              (λ q'. Follows-ok (record w { event_queues = set w.event_queues i q' }) rpcs h))

      pub update_rpc-Restricts :
          (member : Rpc api → Result (Rpc api × List (GrpcCall api)))
          → Restricts (update_rpc p member)
      unfolding update_rpc store
      update_rpc-Restricts member w rpcs h = Follows-load w rpcs _ _ h (λ r.
          Follows-after (member r) _ _ (λ m.
            Follows-ok (record (store p m.0 w) { calls = w.calls ++ map (λ c. (p, c)) m.1 })
              (assign p m.0 rpcs) (store-Shared w rpcs h p mine m.0)))
