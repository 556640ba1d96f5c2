-- ===== src/Server/Lifecycle/Destruction.antt =====
-- async_grpc/server.h and rpc.h: the destruction of a server.
use async_flatbuffer_grpc.Prelude.{
  ℕ, suc, ◌<◌, ◌≡◌, refl, sym, subst, Bool, true, false, ◌&&◌, Option, none, some, List, [], ◌∷◌,
  arith, if◌then◌else◌, Result, ok, fault, fatal, ◌>>◌, length, All, Bool-cases, inl, inr,
}
use async_flatbuffer_grpc.Api.{Api}
use async_flatbuffer_grpc.Rpc.{Rpc}
use async_flatbuffer_grpc.Runtime.{World, destroy_active_rpcs}
use async_flatbuffer_grpc.Server.Thread.{Thread, running, joined}
use async_flatbuffer_grpc.Server.EventQueueThread.{EventQueueThread}
use async_flatbuffer_grpc.Server.EventQueueThread
use async_flatbuffer_grpc.Server.CompletionQueueThread.{CompletionQueueThread}
use async_flatbuffer_grpc.Server.CompletionQueueThread
use async_flatbuffer_grpc.Server.Lifecycle.{Server, Service, shared, enter}
use async_flatbuffer_grpc.Server.Lifecycle.Serving.{IsNew}
use async_flatbuffer_grpc.Server.Lifecycle.Phases.{
  Handlers, LifePhase, built, serving, stopped, InPhase,
}
use async_flatbuffer_grpc.Server.Lifecycle.ThreadLists.{new_threads}

-- ~EventQueueThread and ~CompletionQueueThread: a thread that is not joined ends the program.
abbrev pub destroy_thread : Option Thread → Result (Unit {0})
destroy_thread none = ok tt
destroy_thread (some running) = fault fatal
destroy_thread (some joined) = ok tt

unfoldable pub destroy_event_threads : List EventQueueThread → Result (Unit {0})
destroy_event_threads [] = ok tt
destroy_event_threads (t ∷ ts) = destroy_thread t.thread >> destroy_event_threads ts

unfoldable pub destroy_completion_threads : List CompletionQueueThread → Result (Unit {0})
destroy_completion_threads [] = ok tt
destroy_completion_threads (t ∷ ts) =
    destroy_thread t.worker_thread >> destroy_completion_threads ts

abbrev ok_or_fatal : Bool → Result (Unit {0})
ok_or_fatal b = if b then ok tt else fault fatal

if_then : (a b : Bool) → (ok_or_fatal a >> ok_or_fatal b) ≡ ok_or_fatal (a && b)
if_then true b = refl
if_then false b = refl

-- Threads in a state in which they may be destroyed.
event_threads_lem :
    (o : Option Thread) (ts : List EventQueueThread)
    → destroy_thread o ≡ ok tt
    → All (EventQueueThread.IsThread o) ts
    → destroy_event_threads ts ≡ ok tt
unfolding destroy_event_threads
event_threads_lem o [] d h = refl
event_threads_lem o (t ∷ ts) d (h, hs) = rw (h, d) (event_threads_lem o ts d hs)

completion_threads_lem :
    (o : Option Thread) (down : Bool) (ts : List CompletionQueueThread)
    → destroy_thread o ≡ ok tt
    → All (CompletionQueueThread.IsThread o down) ts
    → destroy_completion_threads ts ≡ ok tt
unfolding destroy_completion_threads
completion_threads_lem o down [] d h = refl
completion_threads_lem o down (t ∷ ts) d (h, hs) =
    rw (h.0, d) (completion_threads_lem o down ts d hs)

running_threads_lem :
    (ts : List EventQueueThread)
    → 0 < length ts
    → All (EventQueueThread.IsThread (some running)) ts
    → destroy_event_threads ts ≡ fault fatal
unfolding destroy_event_threads
running_threads_lem [] some_thread h = elim some_thread [ ]
running_threads_lem (t ∷ ts) some_thread (h, hs) = rw h refl

module _ {api : Api} where
  -- ~Service, of each service.
  unfoldable pub destroy_services : List (List ℕ × Service api) → World api → Result (Unit {0})
  destroy_services [] w = ok tt
  destroy_services ((name, v) ∷ rest) w = destroy_active_rpcs (enter v w) >> destroy_services rest w

  -- ~Server: the members, the last one first.
  unfoldable pub destroy : Server api → Result (Unit {0})
  destroy s = do
    destroy_services s.services (shared 0 s)
    destroy_event_threads s.event_queue_threads
    destroy_completion_threads s.completion_queue_threads

  abbrev is_empty : List (ℕ × Rpc api) → Bool
  is_empty [] = true
  is_empty (_ ∷ _) = false

  -- No service has an Rpc.
  abbrev pub no_rpcs : List (List ℕ × Service api) → Bool
  no_rpcs [] = true
  no_rpcs (e ∷ rest) = is_empty e.1.active_rpcs && no_rpcs rest

  -- What becomes of a server that is destroyed in a phase of its life.
  abbrev pub fate : LifePhase → Server api → Result (Unit {0})
  fate built s = ok tt
  fate serving s = fault fatal
  fate stopped s = if no_rpcs s.services then ok tt else fault fatal

  destroy_active_rpcs_lem :
      (w : World api)
      → destroy_active_rpcs w ≡ (if is_empty w.active_rpcs then ok tt else fault fatal)
  unfolding destroy_active_rpcs
  destroy_active_rpcs_lem w = by_rpcs w.active_rpcs
    where
      by_rpcs :
          (rs : List (ℕ × Rpc api))
          → elim rs as (λ _. Result (Unit {0})) [ [] ↦ ok tt | _ ∷ _ ↦ fault fatal ]
            ≡ (if is_empty rs then ok tt else fault fatal)
      by_rpcs [] = refl
      by_rpcs (r ∷ rs) = refl

  destroy_services_lem :
      (vs : List (List ℕ × Service api)) (w : World api)
      → destroy_services vs w ≡ (if no_rpcs vs then ok tt else fault fatal)
  unfolding destroy_services
  destroy_services_lem [] w = refl
  destroy_services_lem ((name, v) ∷ rest) w =
      rw (destroy_active_rpcs_lem (enter v w), destroy_services_lem rest w)
        (if_then (is_empty v.active_rpcs) (no_rpcs rest))

  new_no_rpcs : (vs : List (List ℕ × Service api)) → All (λ e. IsNew e.1) vs → no_rpcs vs ≡ true
  new_no_rpcs [] h = refl
  new_no_rpcs (e ∷ rest) (h, hs) = rw h.no_rpc (new_no_rpcs rest hs)

  -- A server with one event thread or more that was built and never started is destroyed without a
  -- fault. One that was started and not shut down ends the program, by an Rpc that is left or a thread
  -- that is not joined. One that was shut down is destroyed without a fault if no service has an Rpc
  -- left, and else ends the program with LOG(FATAL).
  pub destroy_lem :
      (hs : Handlers api) (n k : ℕ) (ph : LifePhase) (s : Server api)
      → InPhase hs (suc n) k ph s
      → destroy s ≡ fate ph s
  unfolding destroy
  destroy_lem hs n k built s b =
      rw
        (
          destroy_services_lem s.services (shared 0 s),
          new_no_rpcs s.services b.services,
          event_threads_lem none s.event_queue_threads refl (
              subst (All (EventQueueThread.IsThread none)) (sym b.event_threads)
                (new_threads (suc n))),
          completion_threads_lem none false s.completion_queue_threads refl b.completion_threads,
        )
        refl
  destroy_lem hs n k serving s b = elim (Bool-cases (no_rpcs s.services)) [
    | inl none_left ↦
        rw
          (
            destroy_services_lem s.services (shared 0 s),
            none_left,
            running_threads_lem s.event_queue_threads (omega (arith, b.event_count))
                b.event_threads,
          )
          refl
    | inr left ↦ rw (destroy_services_lem s.services (shared 0 s), left) refl
  ]
  destroy_lem hs n k stopped s b = elim (Bool-cases (no_rpcs s.services)) [
    | inl none_left ↦
        rw
          (
            destroy_services_lem s.services (shared 0 s),
            none_left,
            event_threads_lem (some joined) s.event_queue_threads refl b.event_threads,
            completion_threads_lem (some joined) true s.completion_queue_threads refl
                b.completion_threads,
          )
          refl
    | inr left ↦ rw (destroy_services_lem s.services (shared 0 s), left) refl
  ]
