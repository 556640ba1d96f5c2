-- ===== src/Service/Removal.antt =====
-- async_grpc/service.cc: HandleRead, HandleWrite, HandleFinish and HandleDone of a connected Rpc end
-- without a fault, RemoveIfNotPending included, and every tag stays accounted for.
use async_flatbuffer_grpc.Prelude.{
  ℕ, ◌≡◌, refl, ◌∙◌, Bool, true, false, ◌||◌, some, arith, if◌then◌else◌, ok, find, erase,
  find-erase, Bool-cases, inl, inr,
}
use async_flatbuffer_grpc.Api.{Api, Event, new_connection, read, write, finish, done}
use async_flatbuffer_grpc.Rpc.{Rpc, is_any_event_pending, is_rpc_event_pending, get_rpc_event}
use async_flatbuffer_grpc.Runtime.{World, load, remove}
use async_flatbuffer_grpc.Service.{
  remove_if_not_pending, handle_read, handle_write, handle_finish, handle_done,
}
use async_flatbuffer_grpc.Service.Tags.{flag}
use async_flatbuffer_grpc.Service.Order.{same-Grown}
use async_flatbuffer_grpc.Service.Wellformed.{Inv}
use async_flatbuffer_grpc.Service.Quiet.{Quiet-there, Connected}
use async_flatbuffer_grpc.Service.Callbacks.{on_request-Quiet, on_reads_done-Quiet, on_finish-Quiet}
use async_flatbuffer_grpc.Service.Fine.{Fine, Quiet-Fine, Fine-trans}
use async_flatbuffer_grpc.Service.Handlers.{
  Served, Served-Quiet, read_if_needed-Served, send_queue-Served,
}

module _ {api : Api} where
  unfoldable pub erased : ℕ → World api → World api
  erased p w = record w { active_rpcs = erase p w.active_rpcs }

  -- An Rpc of which no event is pending can go.
  erased-Fine :
      (p : ℕ) (r : Rpc api) (w : World api)
      → Inv w
      → find p w.active_rpcs ≡ some r
      → ((e : Event) → flag e r ≡ false)
      → Fine w (erased p w)
  unfolding erased
  erased-Fine p r w v there idle = record {
    inv = record {
      threads = v.threads;
      some_thread = v.some_thread;
      infinite = v.infinite;
      fresh = λ q h. ground (arith, find-erase p q w.active_rpcs, v.fresh q h);
      rpcs = λ q s e. ground (arith, find-erase p q w.active_rpcs, v.rpcs q s);
    };
    stopped = refl;
    balanced = λ q e. ground (arith, find-erase p q w.active_rpcs, idle e, there);
    grown = record {
      tags = refl;
      later = omega arith;
      kin = λ q s e. inl (s, ground (arith, find-erase p q w.active_rpcs), refl);
    };
  }

  -- RemoveIfNotPending removes the Rpc just if none of the four events is pending.
  pub remove_if_not_pending_lem :
      (p : ℕ) (r : Rpc api) (w : World api)
      → find p w.active_rpcs ≡ some r
      → remove_if_not_pending p w
        ≡ ok (if flag done r || flag read r || flag write r || flag finish r then w else erased p w)
  unfolding remove_if_not_pending load is_any_event_pending is_rpc_event_pending get_rpc_event
      remove erased
  remove_if_not_pending_lem p r w there = ground arith

  pub remove_if_not_pending-Fine :
      (p : ℕ) (w : World api)
      → Inv w
      → Connected p w
      → (w' : World api) × (remove_if_not_pending p w ≡ ok w') × Fine w w'
  remove_if_not_pending-Fine p w v c =
      elim (Bool-cases
        (flag done c.rpc || flag read c.rpc || flag write c.rpc || flag finish c.rpc)) [
          | inl busy ↦ (w, remove_if_not_pending_lem p c.rpc w c.there ∙ rw busy refl, unchanged)
          | inr idle ↦ (
            erased p w,
            remove_if_not_pending_lem p c.rpc w c.there ∙ rw idle refl,
            erased-Fine p c.rpc w v c.there (λ e. ground arith),
          )
        ]
    where
      unchanged : Fine w w
      unchanged = record {
        inv = v;
        stopped = refl;
        balanced = λ p e. refl;
        grown = same-Grown w w refl refl refl;
      }

  -- A step after which the Rpc is connected, and then RemoveIfNotPending.
  then_remove :
      (p : ℕ) (v w : World api)
      → Served p v w
      → (w' : World api) × (remove_if_not_pending p w ≡ ok w') × Fine v w'
  then_remove p v w s =
      let (w', e, f) = remove_if_not_pending-Fine p w s.fine.inv s.connection in
      (w', e, Fine-trans v w w' s.fine f)

  pub handle_write-Fine :
      (p : ℕ) (ok' : Bool) (w : World api)
      → Inv w
      → Connected p w
      → (w' : World api) × (handle_write p ok' w ≡ ok w') × Fine w w'
  unfolding handle_write
  handle_write-Fine p ok' w v c =
      let (w1, e1, s1) = send_queue-Served p w v c in
      let (w2, e2, f2) = then_remove p w w1 s1 in (w2, rw e1 e2, f2)

  pub handle_finish-Fine :
      (p : ℕ) (ok' : Bool) (w : World api)
      → Inv w
      → Connected p w
      → (w' : World api) × (handle_finish p ok' w ≡ ok w') × Fine w w'
  unfolding handle_finish
  handle_finish-Fine p ok' w v c =
      let (w1, e1, q1) = on_finish-Quiet p w v c in
      let (w2, e2, f2) = then_remove p w w1 (Served-Quiet p w w1 q1 c) in (w2, rw e1 e2, f2)

  pub handle_done-Fine :
      (p : ℕ) (ok' : Bool) (w : World api)
      → Inv w
      → Connected p w
      → (w' : World api) × (handle_done p ok' w ≡ ok w') × Fine w w'
  unfolding handle_done
  handle_done-Fine p ok' w v c = remove_if_not_pending-Fine p w v c

  pub handle_read-Fine :
      (p : ℕ) (ok' : Bool) (w : World api)
      → Inv w
      → (c : Connected p w) → c.rpc.read_event.pending ≡ false
      → (w' : World api) × (handle_read p ok' w ≡ ok w') × Fine w w'
  unfolding handle_read
  handle_read-Fine p true w v c e =
      let (w1, e1, q1) = on_request-Quiet p w v c in
      let (r', there, same) = Quiet-there p c.rpc w w1 q1 c.there in
      let c1 : Connected p w1 = record {
        rpc = r';
        there = there;
        connected = same new_connection ∙ c.connected;
      } in
      let (w2, e2, s2) = read_if_needed-Served p w1 q1.inv c1 (same read ∙ e) in
      (w2, rw e1 e2, Fine-trans w w1 w2 (Quiet-Fine w w1 q1) s2.fine)
  handle_read-Fine p false w v c e =
      let (w1, e1, q1) = on_reads_done-Quiet p w v c in
      let (w2, e2, f2) = then_remove p w w1 (Served-Quiet p w w1 q1 c) in (w2, rw e1 e2, f2)
