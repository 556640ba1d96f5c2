-- ===== src/Server/Lifecycle/Serving.antt =====
-- async_grpc/server.cc: the loop of Start over the services of a server that was just built.
use mathlib.Core.List.{append-nil}
use async_flatbuffer_grpc.Prelude.{
  ℕ, suc, ◌<◌, ◌≡◌, refl, ap, ◌∙◌, subst, false, some, none, Option-cases, ◌⊎◌, ◌≤◌, List, [], ◌∷◌,
  map, arith, ok, find, length, get_elem?, All, inl, inr,
}
use async_flatbuffer_grpc.Api.{Api, RpcHandlerInfo}
use async_flatbuffer_grpc.Rpc.{Rpc}
use async_flatbuffer_grpc.Runtime.{World}
use async_flatbuffer_grpc.Service.{rpc_service_method}
use async_flatbuffer_grpc.Service.Tags.{AllInfinite}
use async_flatbuffer_grpc.Service.Order.{Grown}
use async_flatbuffer_grpc.Service.Wellformed.{Inv}
use async_flatbuffer_grpc.Service.Serving.{slots, slots_from, FitsOrWas, Adds, start_serving-Adds}
use async_flatbuffer_grpc.Server.Lifecycle.{Service, enter, leave, serve_services}

pub length-map {a b} :
    {A : Type a} {B : Type b} (f : A → B) (xs : List A) → length (map f xs) ≡ length xs
length-map f [] = refl
length-map f (x ∷ xs) = ap suc (length-map f xs)

le_or_lt : (a b : ℕ) → (a ≤ b) ⊎ (b < a)
le_or_lt a b = ground arith

module _ {api : Api} where
  -- The event queues that the services share.
  pub record Queues (w : World api) : Type 0 where
    pub threads : w.num_event_threads ≡ length w.event_queues
    pub some_thread : 0 < length w.event_queues
    pub infinite : AllInfinite w.event_queues

  -- A service that has not begun to serve.
  pub record IsNew (v : Service api) : Type 0 where
    pub no_rpc : v.active_rpcs ≡ []
    pub serving : v.shutting_down ≡ false
    pub methods : v.methods ≡ map rpc_service_method (map (λ e. e.1) v.rpc_handler_infos)

  -- A service that serves on the completion queues `qs`, with n event queues: there is one Rpc for
  -- each pair of a method and a completion queue; the method whose number an Rpc gives to gRPC is the
  -- one that the service added for the Rpc's handler, and its event queue is among the n.
  pub record Serves (qs : List ℕ) (n : ℕ) (v : Service api) : Type 0 where
    pub serving : v.shutting_down ≡ false
    pub pairs : slots v.active_rpcs ≡ slots_from 0 (length v.rpc_handler_infos) qs
    pub fits :
        (p : ℕ) (r : Rpc api)
        → find p v.active_rpcs ≡ some r
        → (get_elem? v.methods r.method_index ≡ some (rpc_service_method r.rpc_handler_info))
          × (r.event_queue < n)

  -- The name of a service with its handlers.
  abbrev pub handlers : List ℕ × Service api → List ℕ × List (List ℕ × RpcHandlerInfo api)
  handlers e = (e.0, e.1.rpc_handler_infos)

  pub enter-Inv : (v : Service api) (w : World api) → Queues w → IsNew v → Inv (enter v w)
  unfolding find
  enter-Inv v w q new = record {
    threads = q.threads;
    some_thread = q.some_thread;
    infinite = q.infinite;
    fresh = λ p h. rw new.no_rpc refl;
    rpcs = rw new.no_rpc (λ p r e. cc);
  }

  module _ (qs : List ℕ) (v : Service api) (w w' : World api) (new : IsNew v) where
    leave-Serves :
        Adds
          (map rpc_service_method (map (λ e. e.1) v.rpc_handler_infos))
          (slots_from 0 (length (map (λ e. e.1) v.rpc_handler_infos)) qs)
          (enter v w)
          w'
        → Serves qs (length w.event_queues) (leave v w')
    unfolding find
    leave-Serves a = record {
      serving = a.fine.stopped ∙ new.serving;
      pairs =
          a.added_slots
          ∙ rw (new.no_rpc, length-map (λ e. e.1) v.rpc_handler_infos)
              (append-nil (slots_from 0 (length v.rpc_handler_infos) qs));
      fits = λ p r e. (made p r (a.fits p r e), rw (← a.queues) (a.fine.inv.rpcs p r e).queue);
    }
      where
        made :
            (p : ℕ) (r : Rpc api)
            → FitsOrWas
                (map rpc_service_method (map (λ e. e.1) v.rpc_handler_infos))
                p
                (enter v w)
                r
            → get_elem? v.methods r.method_index ≡ some (rpc_service_method r.rpc_handler_info)
        made p r (inl fits) = rw new.methods fits
        made p r (inr was) =
            let none_there : find p [] ≡ some r = subst (λ m. find p m ≡ some r) new.no_rpc was in
            absurd (cc none_there)

    kept-Queues :
        w'.event_queues ≡ w.event_queues
        → w'.num_event_threads ≡ w.num_event_threads
        → Queues w
        → Queues w'
    kept-Queues e n q = record {
      threads = rw (n, e) q.threads;
      some_thread = rw e q.some_thread;
      infinite = rw e q.infinite;
    }

  -- No Rpc has an address before the given one.
  abbrev pub IsFrom : ℕ → Service api → Type 0
  IsFrom a v = (p : ℕ) → p < a → find p v.active_rpcs ≡ none

  -- No two services have an Rpc of the same address.
  abbrev pub Apart : List (List ℕ × Service api) → Type 0
  Apart [] = Unit {0}
  Apart (e ∷ vs) =
      ((p : ℕ) → (find p e.1.active_rpcs ≡ none) ⊎ All (λ d. find p d.1.active_rpcs ≡ none) vs)
      × Apart vs

  All-IsFrom :
      (a p : ℕ) (vs : List (List ℕ × Service api))
      → p < a
      → All (λ e. IsFrom a e.1) vs
      → All (λ e. find p e.1.active_rpcs ≡ none) vs
  All-IsFrom a p [] h f = tt
  All-IsFrom a p (e ∷ vs) h (f, fs) = (f p h, All-IsFrom a p vs h fs)

  later-IsFrom :
      (a b : ℕ) (vs : List (List ℕ × Service api))
      → a ≤ b
      → All (λ e. IsFrom b e.1) vs
      → All (λ e. IsFrom a e.1) vs
  later-IsFrom a b [] h f = tt
  later-IsFrom a b (e ∷ vs) h (f, fs) = (λ p g. f p (omega (arith, h, g)), later-IsFrom a b vs h fs)

  find-nil : (p : ℕ) (s : Rpc api) → find p [] ≡ some s → ⊥
  unfolding find
  find-nil p s e = cc e

  -- The Rpcs of a service that began to serve have addresses from the next one on.
  leave-IsFrom :
      (v : Service api) (w w' : World api)
      → IsNew v
      → Grown (enter v w) w'
      → IsFrom w.next_address (leave v w')
  leave-IsFrom v w w' new g p h = elim (Option-cases (find p w'.active_rpcs)) [
    | inl gone ↦ gone
    | inr (r, there) ↦ elim (g.kin p r there) [
      | inl (s, was, _) ↦
          let none_there : find p [] ≡ some s = subst (λ m. find p m ≡ some s) new.no_rpc was in
          absurd (find-nil p s none_there)
      | inr new' ↦ absurd (omega (arith, new', h))
    ]
  ]

  -- What the loop leaves of the services `vs` and the world `w`.
  pub record Served (qs : List ℕ) (vs : List (List ℕ × Service api)) (w : World api)
      (vs' : List (List ℕ × Service api)) (w' : World api) : Type 0 where
    pub serves : All (λ e. Serves qs (length w.event_queues) e.1) vs'
    pub same_handlers : map handlers vs' ≡ map handlers vs
    pub from : All (λ e. IsFrom w.next_address e.1) vs'
    pub apart : Apart vs'
    pub queues : w'.event_queues ≡ w.event_queues
    pub threads : w'.num_event_threads ≡ w.num_event_threads

  pub serve_services-Served :
      (qs : List ℕ) (vs : List (List ℕ × Service api)) (w : World api)
      → Queues w
      → All (λ e. IsNew e.1) vs
      → (vs' : List (List ℕ × Service api)) × (w' : World api) × (serve_services qs vs w
          ≡ ok (vs', w'))
        × Served qs vs w vs' w'
  unfolding serve_services
  serve_services-Served qs [] w q h = (
    [],
    w,
    refl,
    record {
      serves = tt;
      from = tt;
      apart = tt;
      same_handlers = refl;
      queues = refl;
      threads = refl;
    },
  )
  serve_services-Served qs ((name, v) ∷ vs) w q (new, news) =
      let infos = map (λ e. e.1) v.rpc_handler_infos in
      let (w1, e1, a) = start_serving-Adds infos qs (enter v w) (enter-Inv v w q new) in
      let q1 = kept-Queues qs v w w1 new a.queues a.threads q in
      let (vs', w2, e2, s) = serve_services-Served qs vs w1 q1 news in
      (
        (name, leave v w1) ∷ vs',
        w2,
        rw (e1, e2) refl,
        record {
          serves = (
            leave-Serves qs v w w1 new a,
            subst (λ m. All (λ e. Serves qs (length m) e.1) vs') a.queues s.serves,
          );
          from = (
            leave-IsFrom v w w1 new a.fine.grown,
            later-IsFrom w.next_address w1.next_address vs' a.fine.grown.later s.from,
          );
          apart = (
            λ p. elim (le_or_lt w1.next_address p) [
              | inl above ↦ inl (a.fine.inv.fresh p above)
              | inr below ↦ inr (All-IsFrom w1.next_address p vs' below s.from)
            ],
            s.apart,
          );
          same_handlers = ap (λ hs. (name, v.rpc_handler_infos) ∷ hs) s.same_handlers;
          queues = s.queues ∙ a.queues;
          threads = s.threads ∙ a.threads;
        },
      )
