-- ===== src/Server/Draining/Queues.antt =====
-- async_grpc/service.cc: code that leaves the event queues alone: Remove, and all that HandleWrite does.
use async_flatbuffer_grpc.Prelude.{
  ℕ, Bool-cases, inl, inr, ◌≡◌, refl, sym, ◌∙◌, ap, Bool, true, false, not, List, Result, ok, ◌>>=◌,
  >>=-ok, if◌then◌else◌, find, is_some,
}
use async_flatbuffer_grpc.Api.{Api, GrpcCall}
use async_flatbuffer_grpc.Rpc.{Rpc, handle_send_queue, is_any_event_pending}
use async_flatbuffer_grpc.Runtime.{World, load, store, remove, update_rpc}
use async_flatbuffer_grpc.Service.{remove_if_not_pending, handle_write}
use async_flatbuffer_grpc.Service.Order.{queue_tags}
use async_flatbuffer_grpc.Server.Draining.Tags.{Keeps}

module _ {api : Api} where
  pub removed_queues : (p : ℕ) (v : World api) → (remove p v).0.event_queues ≡ v.event_queues
  unfolding remove
  removed_queues p v = elim (Bool-cases (is_some (find p v.active_rpcs))) [
    | inl there ↦ rw there refl
    | inr gone ↦ rw gone refl
  ]

  -- Code that leaves the event queues alone altogether.
  abbrev pub KeepsQueues : World api → Result (World api) → Type 0
  KeepsQueues v m = (w : World api) → m ≡ ok w → w.event_queues ≡ v.event_queues

  pub KeepsQueues-Keeps : (v : World api) (m : Result (World api)) → KeepsQueues v m → Keeps v m
  KeepsQueues-Keeps v m h w e = ap queue_tags (h w e)

  pub KeepsQueues-ok : (v w : World api) → w.event_queues ≡ v.event_queues → KeepsQueues v (ok w)
  KeepsQueues-ok v w h u e = let same : w ≡ u = cc e in ap (λ x. x.event_queues) (sym same) ∙ h

  pub KeepsQueues-after {a} :
      {A : Type a} (v : World api) (first : Result A) (rest : A → Result (World api))
      → ((x : A) → KeepsQueues v (rest x))
      → KeepsQueues v (first >>= rest)
  KeepsQueues-after v first rest h u e = let (x, _, g) = >>=-ok rest first e in h x u g

  pub KeepsQueues-then :
      (v : World api) (first : Result (World api)) (rest : World api → Result (World api))
      → KeepsQueues v first
      → ((w : World api) → KeepsQueues w (rest w))
      → KeepsQueues v (first >>= rest)
  KeepsQueues-then v first rest h g u e = let (w, e1, e2) = >>=-ok rest first e in g w u e2 ∙ h w e1

  pub update_rpc-KeepsQueues :
      (p : ℕ) (member : Rpc api → Result (Rpc api × List (GrpcCall api))) (v : World api)
      → KeepsQueues v (update_rpc p member v)
  unfolding update_rpc store
  update_rpc-KeepsQueues p member v =
      KeepsQueues-after v (load p v) _
        (λ r. KeepsQueues-after v (member r) _ (λ m. KeepsQueues-ok v _ refl))

  pub remove_if_not_pending-KeepsQueues :
      (p : ℕ) (v : World api) → KeepsQueues v (remove_if_not_pending p v)
  unfolding remove_if_not_pending
  remove_if_not_pending-KeepsQueues p v = KeepsQueues-after v (load p v) _ (λ r.
      KeepsQueues-after v (is_any_event_pending r) _
        (λ pending. KeepsQueues-ok v _ (by_flag pending)))
    where
      by_flag : (b : Bool) → (if not b then (remove p v).0 else v).event_queues ≡ v.event_queues
      by_flag true = refl
      by_flag false = removed_queues p v

  pub handle_write-KeepsQueues :
      (p : ℕ) (ok' : Bool) (v : World api) → KeepsQueues v (handle_write p ok' v)
  unfolding handle_write
  handle_write-KeepsQueues p ok' v =
      KeepsQueues-then v (update_rpc p handle_send_queue v) _
        (update_rpc-KeepsQueues p handle_send_queue v) (remove_if_not_pending-KeepsQueues p)
