-- ===== src/Server/Lifecycle/Building.antt =====
-- async_grpc/server.cc: Build, of a builder whose handlers were registered.
use mathlib.Core.List.{append-nil, append_assoc}
use async_flatbuffer_grpc.Prelude.{
  ℕ, zero, suc, ◌≡◌, refl, sym, ap, ◌∙◌, subst, true, false, none, some, List, [], ◌∷◌, ◌++◌, map,
  ok, or_fault, uninitialized, ◌>>=◌, length, All,
}
use async_flatbuffer_grpc.Api.{Api, RpcHandlerInfo}
use async_flatbuffer_grpc.Server.Builder.{Options, Builder, string_lt, look_up, insert, emplace}
use async_flatbuffer_grpc.Server.Builder.Keys.{
  Above, Sorted, string_lt_asym, string_lt_distinct, register_handlers, register_handlers-Keeps,
}
use async_flatbuffer_grpc.Server.CompletionQueueThread.{
  CompletionQueueThread, new_completion_queue_thread,
}
use async_flatbuffer_grpc.Server.CompletionQueueThread
use async_flatbuffer_grpc.Server.Lifecycle.{
  Server, Service, add_completion_queues, empty_server, new_service, new_server, add_service,
  add_services, build,
}
use async_flatbuffer_grpc.Server.Lifecycle.Serving.{IsNew, handlers}
use async_flatbuffer_grpc.Server.Lifecycle.Phases.{queue_numbers, Handlers, Built}

module _ {ℓ} {V : Type ℓ} where
  -- The keys of the map are all before the key.
  abbrev Below : List ℕ → List (List ℕ × V) → Type 0
  Below k m = All (λ e. string_lt e.0 k ≡ true) m

  look_up-Below : (k : List ℕ) (m : List (List ℕ × V)) → Below k m → look_up k m ≡ none
  unfolding look_up
  look_up-Below k [] h = refl
  look_up-Below k ((j, v) ∷ m) (h, hs) = rw (string_lt_distinct j k h) (look_up-Below k m hs)

  insert-Below :
      (k : List ℕ) (v : V) (m : List (List ℕ × V)) → Below k m → insert k v m ≡ m ++ (k, v) ∷ []
  unfolding insert
  insert-Below k v [] h = refl
  insert-Below k v ((j, w) ∷ m) (h, hs) =
      rw (string_lt_asym j k h) (ap (λ l. (j, w) ∷ l) (insert-Below k v m hs))

  Below-append :
      (j k : List ℕ) (v : V) (m : List (List ℕ × V))
      → Below j m
      → string_lt k j ≡ true
      → Below j (m ++ (k, v) ∷ [])
  Below-append j k v [] h g = (g, tt)
  Below-append j k v ((i, w) ∷ m) (h, hs) g = (h, Below-append j k v m hs g)

  -- Every key of the one map is before every key of the other.
  abbrev Before {ℓ'} : {W : Type ℓ'} → List (List ℕ × V) → List (List ℕ × W) → Type 0
  Before m n = All (λ e. Below e.0 m) n

  Before-append {ℓ'} :
      {W : Type ℓ'} (k : List ℕ) (v : V) (m : List (List ℕ × V)) (n : List (List ℕ × W))
      → Before m n
      → Above k n
      → Before (m ++ (k, v) ∷ []) n
  Before-append k v m [] h a = tt
  Before-append k v m ((j, w) ∷ n) (h, hs) (a, as') =
      (Below-append j k v m h a, Before-append k v m n hs as')

pub new_completion_threads :
    (i n : ℕ)
    → All (CompletionQueueThread.IsThread none false) (add_completion_queues i n)
      × (length (add_completion_queues i n) ≡ n)
unfolding new_completion_queue_thread
new_completion_threads i zero = (tt, refl)
new_completion_threads i (suc n) =
    let (h, l) = new_completion_threads (suc i) n in (((refl, refl), h), ap suc l)

pub new_completion_queues :
    (i n : ℕ) → map (λ t. t.completion_queue) (add_completion_queues i n) ≡ queue_numbers i n
unfolding new_completion_queue_thread
new_completion_queues i zero = refl
new_completion_queues i (suc n) = ap (λ l. i ∷ l) (new_completion_queues (suc i) n)

module _ {api : Api} where
  new_server_lem :
      (context : api.Context) (n k : ℕ) (options : Options)
      → options.num_event_threads ≡ some n
      → options.num_grpc_threads ≡ some k
      → new_server {api = api} context options ≡ ok (empty_server context options n k)
  unfolding new_server
  new_server_lem context n k options events grpc =
      ap
        (λ x. or_fault x uninitialized >>= (λ i.
          or_fault options.num_grpc_threads uninitialized
          >>= (λ j. ok (empty_server context options i j))))
        events
      ∙ ap (λ x. or_fault x uninitialized >>= (λ j. ok (empty_server context options n j))) grpc

  abbrev new_services : Handlers api → List (List ℕ × Service api)
  new_services hs = map (λ e. (e.0, new_service e.1)) hs

  -- The server with one more service behind the others.
  abbrev with_service : List ℕ → List (List ℕ × RpcHandlerInfo api) → Server api → Server api
  with_service name infos s = record s {
    services = s.services ++ (name, new_service infos) ∷ [];
    registered = s.registered ++ name ∷ [];
  }

  add_service_lem :
      (name : List ℕ) (infos : List (List ℕ × RpcHandlerInfo api)) (s : Server api)
      → Below name s.services
      → add_service name infos s ≡ ok (with_service name infos s)
  unfolding add_service emplace
  add_service_lem name infos s h =
      rw (look_up-Below name s.services h, insert-Below name (new_service infos) s.services h) refl

  -- The server with other services, registered with gRPC under the names.
  abbrev with_all : List (List ℕ × Service api) → List (List ℕ) → Server api → Server api
  with_all services names s = record s { services = services; registered = names }

  abbrev with_services : Handlers api → Server api → Server api
  with_services hs s =
      with_all (s.services ++ new_services hs) (s.registered ++ map (λ e. e.0) hs) s

  with_all-cong :
      (vs vs' : List (List ℕ × Service api)) (names names' : List (List ℕ)) (s : Server api)
      → vs ≡ vs'
      → names ≡ names'
      → with_all vs names s ≡ with_all vs' names' s
  with_all-cong vs vs' names names' s e g =
      ap (λ x. with_all x names s) e ∙ ap (λ x. with_all vs' x s) g

  add_services_lem :
      (hs : Handlers api) (s : Server api)
      → Sorted hs
      → Before s.services hs
      → add_services hs s ≡ ok (with_services hs s)
  unfolding add_services
  add_services_lem [] s o h = ap ok (
      with_all-cong s.services (s.services ++ []) s.registered (s.registered ++ []) s
        (sym (append-nil s.services)) (sym (append-nil s.registered)))
  add_services_lem ((name, infos) ∷ hs) s (a, o) (h, hs') =
      let new : List ℕ × Service api = (name, new_service infos) in
      let s1 = with_service name infos s in
      let rest =
        add_services_lem hs s1 o (Before-append name (new_service infos) s.services hs hs' a) in
      ap (λ m. m >>= add_services hs) (add_service_lem name infos s h)
      ∙ rest
      ∙ ap ok (
          with_all-cong (s1.services ++ new_services hs) (s.services ++ new ∷ new_services hs)
            (s1.registered ++ map (λ e. e.0) hs) (s.registered ++ name ∷ map (λ e. e.0) hs) s
            (append_assoc s.services (new ∷ []) (new_services hs))
            (append_assoc s.registered (name ∷ []) (map (λ e. e.0) hs)))

  pub new_services-IsNew : (hs : Handlers api) → All (λ e. IsNew e.1) (new_services hs)
  unfolding new_service
  new_services-IsNew [] = tt
  new_services-IsNew (e ∷ hs) =
      (record { no_rpc = refl; serving = refl; methods = refl }, new_services-IsNew hs)

  new_services-handlers : (hs : Handlers api) → map handlers (new_services hs) ≡ hs
  unfolding new_service
  new_services-handlers [] = refl
  new_services-handlers (e ∷ hs) = ap (λ l. e ∷ l) (new_services-handlers hs)

  Before-none : (hs : Handlers api) → Before {V = Service api} [] hs
  Before-none [] = tt
  Before-none (e ∷ hs) = (tt, Before-none hs)

  -- A builder whose numbers of threads were set and which had no handler, and on which any calls of
  -- RegisterHandler then succeeded, builds a server, without a CHECK that fails: the server has one
  -- service for each service of the builder's handlers, in the order of their names, which are
  -- registered with gRPC, and each service has the handlers that the builder has for it, has its
  -- methods added and serves nothing; no thread is started.
  pub build-Built :
      (context : api.Context) (n k : ℕ) (calls : List (List ℕ × RpcHandlerInfo api))
      (b b' : Builder (RpcHandlerInfo api))
      → b.rpc_handlers ≡ []
      → b.options.num_event_threads ≡ some n
      → b.options.num_grpc_threads ≡ some k
      → register_handlers calls b ≡ ok b'
      → (s : Server api) × (build context b' ≡ ok s)
        × Built b'.rpc_handlers n k s
        × (s.registered ≡ map (λ e. e.0) b'.rpc_handlers)
        × (s.options ≡ b.options)
  unfolding build
  build-Built context n k calls b b' empty events grpc e =
      let (same, o) = register_handlers-Keeps calls b b' e (subst Sorted (sym empty) tt) in
      let events' = ap (λ o. o.num_event_threads) same ∙ events in
      let grpc' = ap (λ o. o.num_grpc_threads) same ∙ grpc in
      let s = with_services b'.rpc_handlers (empty_server context b'.options n k) in
      (
        s,
        ap (λ m. m >>= add_services b'.rpc_handlers)
              (new_server_lem context n k b'.options events' grpc')
            ∙ add_services_lem b'.rpc_handlers (empty_server context b'.options n k) o
                (Before-none b'.rpc_handlers),
        record {
          options = events';
          event_threads = refl;
          completion_threads = (new_completion_threads 0 k).0;
          completion_count = (new_completion_threads 0 k).1;
          completion_queues = new_completion_queues 0 k;
          server = refl;
          calls = refl;
          going_on = refl;
          services = new_services-IsNew b'.rpc_handlers;
          same_handlers = new_services-handlers b'.rpc_handlers;
        },
        refl,
        same,
      )
