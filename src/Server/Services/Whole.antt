-- ===== src/Server/Services/Whole.antt =====
-- async_grpc/server.cc: the services of a running server taken as one, with the Rpcs of all.
use async_flatbuffer_grpc.Prelude.{
  ℕ, ◌≡◌, refl, sym, ap, ◌∙◌, ◌⊎◌, inl, inr, true, false, Option, Option-cases, none, List, [], ◌∷◌,
  ◌++◌, arith, Result, ok, is_some, find, if◌then◌else◌,
}
use async_flatbuffer_grpc.Api.{Api}
use async_flatbuffer_grpc.Rpc.{Rpc}
use async_flatbuffer_grpc.Runtime.{World}
use async_flatbuffer_grpc.Service.Tags.{owed_of}
use async_flatbuffer_grpc.Server.Steps.Taking.{Safe}
use async_flatbuffer_grpc.Server.Lifecycle.{Service, enter, leave}
use async_flatbuffer_grpc.Server.Services.{Running, all_rpcs, at_service}
use async_flatbuffer_grpc.Server.Services.Sharing.{Rpcs, over, Shared, Restricts}

pub find-append :
    {V : Type 0} (p : ℕ) (xs ys : List (ℕ × V))
    → find p (xs ++ ys) ≡ (if is_some (find p xs) then find p xs else find p ys)
unfolding find
find-append p [] ys = refl
find-append p ((q, x) ∷ xs) ys = ground (arith, find-append p xs ys)

module _ {api : Api} where
  -- No address is in two services.
  abbrev pub Separate : List (List ℕ × Service api) → Type 0
  Separate [] = Unit {0}
  Separate ((name, v) ∷ vs) =
      ((p : ℕ) → (find p v.active_rpcs ≡ none) ⊎ (find p (all_rpcs vs) ≡ none)) × Separate vs

  abbrev pub AllServe : List (List ℕ × Service api) → Type 0
  AllServe [] = Unit {0}
  AllServe ((name, v) ∷ vs) = (v.shutting_down ≡ false) × AllServe vs

  -- The Rpcs that are in either.
  abbrev with_rpcs : (ℕ → Option (Rpc api)) → Rpcs api → ℕ → Option (Rpc api)
  with_rpcs other rpcs p = if is_some (find p rpcs) then find p rpcs else other p

  module _ (other : ℕ → Option (Rpc api)) (xs ys rpcs : Rpcs api) where
    split-Shared :
        ((p : ℕ) → (find p xs ≡ none) ⊎ (find p ys ≡ none))
        → Shared other (xs ++ ys) rpcs
        → Shared (with_rpcs other ys) xs rpcs
    split-Shared apart h p = ground (arith, find-append p xs ys, h p, apart p)

    rest-Shared :
        ((p : ℕ) → (find p xs ≡ none) ⊎ (find p ys ≡ none))
        → Shared other (xs ++ ys) rpcs
        → Shared (with_rpcs other xs) ys rpcs
    rest-Shared apart h p = ground (arith, find-append p xs ys, h p, apart p)

    -- The other services' Rpcs and those of `ys` were apart before.
    join-Shared :
        ((p : ℕ) → (other p ≡ none) ⊎ (find p ys ≡ none))
        → Shared (with_rpcs other ys) xs rpcs
        → Shared other (xs ++ ys) rpcs
    join-Shared apart h p = ground (arith, find-append p xs ys, h p, apart p)

    join_rest-Shared :
        ((p : ℕ) → (other p ≡ none) ⊎ (find p xs ≡ none))
        → Shared (with_rpcs other xs) ys rpcs
        → Shared other (xs ++ ys) rpcs
    join_rest-Shared apart h p = ground (arith, find-append p xs ys, h p, apart p)

    apart-Shared :
        Shared other (xs ++ ys) rpcs
        → (p : ℕ)
        → ((other p ≡ none) ⊎ (find p xs ≡ none)) × ((other p ≡ none) ⊎ (find p ys ≡ none))
    apart-Shared h p = ground (arith, find-append p xs ys, h p)

    with_rpcs-apart :
        Shared (with_rpcs other ys) xs rpcs → (p : ℕ) → (find p xs ≡ none) ⊎ (find p ys ≡ none)
    with_rpcs-apart h p = ground (arith, h p)

  -- `m` does to the services what led to `u`, the state with all Rpcs.
  pub record Served (other : ℕ → Option (Rpc api)) (u : World api) (m : Result (Running api))
      : Type 0 where
    pub after : Running api
    pub rpcs : Rpcs api
    pub succeeds : m ≡ ok after
    pub same : u ≡ over rpcs after.world
    pub shared : Shared other (all_rpcs after.services) rpcs
    pub separate : Separate after.services
    pub serve : AllServe after.services

  module _ (p : ℕ) (member : World api → Result (World api))
      (local : (other : ℕ → Option (Rpc api)) → other p ≡ none → Restricts other member) where
    -- The first of the services has the Rpc.
    here-Served :
        (name : List ℕ) (v : Service api) (vs : List (List ℕ × Service api))
        (other : ℕ → Option (Rpc api)) (rpcs : Rpcs api) (w u : World api)
        → other p ≡ none
        → is_some (find p v.active_rpcs) ≡ true
        → Separate ((name, v) ∷ vs)
        → AllServe ((name, v) ∷ vs)
        → Shared other (all_rpcs ((name, v) ∷ vs)) rpcs
        → member (record w { active_rpcs = rpcs; shutting_down = false }) ≡ ok u
        → u.shutting_down ≡ false
        → Served other u (at_service p member ((name, v) ∷ vs) w)
    unfolding at_service
    here-Served name v vs other rpcs w u mine has (apart, separate) (running, serve) h e going =
        let rest = all_rpcs vs in
        let mine' : with_rpcs other rest p ≡ none = ground (arith, apart p, mine, has) in
        let e' : member (over rpcs (enter v w)) ≡ ok u =
          ap (λ b. member (record w { active_rpcs = rpcs; shutting_down = b })) running ∙ e in
        let a =
          local (with_rpcs other rest) mine' (enter v w) rpcs
            (split-Shared other v.active_rpcs rest rpcs apart h) u e' in
        let before = apart-Shared other v.active_rpcs rest rpcs h in
        record {
          after = record { services = (name, leave v a.own) ∷ vs; world = a.own };
          rpcs = a.rpcs;
          succeeds = rw (has, a.succeeds) refl;
          same = a.same;
          shared = join-Shared other a.own.active_rpcs rest a.rpcs (λ q. (before q).1) a.shared;
          separate = (with_rpcs-apart other a.own.active_rpcs rest a.rpcs a.shared, separate);
          serve = (ap (λ x. x.shutting_down) (sym a.same) ∙ going, serve);
        }

    pub at_service-Served :
        (vs : List (List ℕ × Service api)) (other : ℕ → Option (Rpc api)) (rpcs : Rpcs api)
        (w u : World api)
        → other p ≡ none
        → is_some (find p (all_rpcs vs)) ≡ true
        → Separate vs
        → AllServe vs
        → Shared other (all_rpcs vs) rpcs
        → member (record w { active_rpcs = rpcs; shutting_down = false }) ≡ ok u
        → u.shutting_down ≡ false
        → Served other u (at_service p member vs w)
    unfolding at_service find
    at_service-Served [] other rpcs w u mine has separate serve h e going = absurd cc
    at_service-Served ((name, v) ∷ vs) other rpcs w u mine has separate serve h e going =
        elim (Option-cases (find p v.active_rpcs)) [
          | inl gone ↦
              let own = v.active_rpcs in
              let s =
                at_service-Served vs (with_rpcs other own) rpcs w u (ground (arith, gone, mine))
                  (ground (arith, find-append p own (all_rpcs vs), has, gone)) separate.1 serve.1
                  (rest-Shared other own (all_rpcs vs) rpcs separate.0 h) e going in
              let before = apart-Shared other own (all_rpcs vs) rpcs h in
              record {
                after = record { services = (name, v) ∷ s.after.services; world = s.after.world };
                rpcs = s.rpcs;
                succeeds = rw (gone, s.succeeds) refl;
                same = s.same;
                shared =
                    join_rest-Shared other own (all_rpcs s.after.services) s.rpcs
                      (λ q. (before q).0) s.shared;
                separate = (λ q. ground (arith, s.shared q), s.separate);
                serve = (serve.0, s.serve);
              }
          | inr (r, there) ↦
              here-Served name v vs other rpcs w u mine (rw there refl) separate serve h e going
        ]

-- A state that is safe stays so if its Rpcs are listed in another order.
pub Safe-over :
    {api : Api} (w : World api) (xs ys : Rpcs api)
    → ((p : ℕ) → find p xs ≡ find p ys)
    → Safe (over xs w)
    → Safe (over ys w)
Safe-over w xs ys h s = record {
  inv = record {
    threads = s.inv.threads;
    some_thread = s.inv.some_thread;
    infinite = s.inv.infinite;
    fresh = λ p le. sym (h p) ∙ s.inv.fresh p le;
    rpcs = λ p r there. s.inv.rpcs p r (h p ∙ there);
  };
  running = s.running;
  accounted = λ p e. s.accounted p e ∙ ap (owed_of e) (h p);
  ordered = record {
    ordered = λ p i r ts there pending tags. s.ordered.ordered p i r ts (h p ∙ there) pending tags;
  };
}
