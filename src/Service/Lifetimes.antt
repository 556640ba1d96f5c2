-- ===== src/Service/Lifetimes.antt =====
-- async_grpc/service.cc: HandleNewConnection where it removes an Rpc that is still needed, and the
-- queues to which an Rpc that HandleNewConnection made sends its events.
use async_flatbuffer_grpc.Prelude.{
  ℕ, ◌≡◌, refl, ◌∙◌, ap, Bool, true, false, none, arith, fault, dangling, ◌>>=◌, find, find-erase,
  Option-cases, inl, inr, ok,
}
use async_flatbuffer_grpc.Api.{Api, Event, done}
use async_flatbuffer_grpc.Rpc.{Rpc}
use async_flatbuffer_grpc.Runtime.{World, load, remove}
use async_flatbuffer_grpc.Service.{handle_new_connection, connect_if_ok, renew_rpc, complete_event}

module _ {api : Api} where
  removed : (p : ℕ) (w : World api) → find p (remove p w).0.active_rpcs ≡ none
  unfolding remove
  removed p w = elim (Option-cases (find p w.active_rpcs)) [
    | inl gone ↦ rw gone gone
    | inr (r, there) ↦ rw there (rw (find-erase p p w.active_rpcs) (ground arith))
  ]

  renew_gone :
      (p : ℕ) (v : World api) → find p v.active_rpcs ≡ none → renew_rpc p v ≡ fault dangling
  unfolding renew_rpc load
  renew_gone p v gone = rw gone refl

  complete_gone :
      (p : ℕ) (e : Event) (ok' : Bool) (v : World api)
      → find p v.active_rpcs ≡ none
      → complete_event p e ok' v ≡ fault dangling
  unfolding complete_event load
  complete_gone p e ok' v gone = rw gone refl

  failed_connection :
      (p : ℕ) (w : World api)
      → w.shutting_down ≡ false
      → handle_new_connection p false w ≡ renew_rpc p (remove p w).0
  unfolding handle_new_connection connect_if_ok
  failed_connection p w running = ground (arith, running)

  stopped_connection :
      (p : ℕ) (accepted : Bool) (w : World api)
      → w.shutting_down ≡ true
      → handle_new_connection p accepted w ≡ ok (remove p w).0
  unfolding handle_new_connection
  stopped_connection p accepted w stopping = ground (arith, stopping)

  -- HandleNewConnection of a connection that was not established, while the service runs, follows
  -- the pointer to the Rpc that it has just removed.
  pub failed_connection-dangling :
      (p : ℕ) (w : World api)
      → w.shutting_down ≡ false
      → handle_new_connection p false w ≡ fault dangling
  failed_connection-dangling p w running =
      failed_connection p w running ∙ renew_gone p (remove p w).0 (removed p w)

  -- While the service shuts down, HandleNewConnection removes the Rpc even if the connection was
  -- established; when gRPC then completes the call's DONE, its tag points into a destroyed Rpc.
  pub shutdown-dangling :
      (p : ℕ) (accepted done_ok : Bool) (w : World api)
      → w.shutting_down ≡ true
      → (handle_new_connection p accepted w >>= complete_event p done done_ok) ≡ fault dangling
  shutdown-dangling p accepted done_ok w stopping =
      ap (λ m. m >>= complete_event p done done_ok) (stopped_connection p accepted w stopping)
      ∙ complete_gone p done done_ok (remove p w).0 (removed p w)
