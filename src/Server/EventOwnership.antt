-- ===== src/Server/EventOwnership.antt =====
-- async_grpc/rpc_interface.h (EventDeleter, UniqueEventPtr), events.cc (PushToEventQueue) and rpc.h
-- (the events that Write and Finish push): who deletes an event. The pointers that exist are in an
-- event queue or in the variable of a loop's turn; moving one from here to there changes no owner.
pub mod Deletion
use async_flatbuffer_grpc.Prelude.{
  ℕ, zero, suc, ◌+◌, ◌≤◌, ◌≡◌, refl, ◌∙◌, ◌⊎◌, inl, inr, Bool, true, false, Option, Option-cases,
  none, some, List, [], ◌∷◌, arith, ◌==◌, if◌then◌else◌, is_some, Result, ok, fault, dangling,
  fatal, ◌>>=◌, find, erase, find-erase, find-insert, get_elem?, check,
}
use async_flatbuffer_grpc.Api.{Event, write_needed}
use async_flatbuffer_grpc.Server.Steps.{drop_at}

-- The address of an EventBase: an event that an Rpc stores, or one that `new` gave.
pub data EventAddress : Type 0 where
  stored : ℕ → Event → EventAddress
  allocated : ℕ → EventAddress

-- EventDeleter::Action
pub data DeleterAction : Type 0 where
  delete do_not_delete : DeleterAction

pub record UniqueEventPtr : Type 0 where
  pub pointer : Option EventAddress
  pub action : DeleterAction

-- The events that `new` gave and nobody deleted, the next address, and the pointers that exist.
pub record Owners : Type 0 where
  pub heap : List (ℕ × Event)
  pub next : ℕ
  pub pointers : List UniqueEventPtr

-- `delete e`
unfoldable pub delete_event : EventAddress → List (ℕ × Event) → Result (List (ℕ × Event))
delete_event (stored p e) heap = fault fatal
delete_event (allocated n) heap =
    if is_some (find n heap) then ok (erase n heap) else fault dangling

-- EventDeleter::operator()
unfoldable pub event_deleter :
    DeleterAction → Option EventAddress → List (ℕ × Event) → Result (List (ℕ × Event))
event_deleter action none heap = ok heap
event_deleter delete (some e) heap = delete_event e heap
event_deleter do_not_delete (some e) heap = ok heap

-- `UniqueEventPtr(new InternalRpcEvent(...))`, with the action of a default EventDeleter.
unfoldable pub push_internal_event : Owners → Owners
push_internal_event s = record {
  heap = (s.next, write_needed) ∷ s.heap;
  next = suc s.next;
  pointers = record { pointer = some (allocated s.next); action = delete } ∷ s.pointers;
}

-- CompletionQueueRpcEvent::PushToEventQueue
unfoldable pub push_to_event_queue : ℕ → Event → Owners → Owners
push_to_event_queue p e s = record s {
  pointers = record { pointer = some (stored p e); action = do_not_delete } ∷ s.pointers;
}

-- `return nullptr` of PopWithTimeout
unfoldable pub return_nullptr : Owners → Owners
return_nullptr s = record s { pointers = record { pointer = none; action = delete } ∷ s.pointers }

-- The destructor of the k-th pointer.
unfoldable pub destroy_pointer : Option UniqueEventPtr → ℕ → Owners → Result Owners
destroy_pointer none k s = ok s
destroy_pointer (some u) k s = do
  heap ← event_deleter u.action u.pointer s.heap
  ok (record s { heap = heap; pointers = drop_at k s.pointers })

pub data OwnerStep : Type 0 where
  internal_pushed nullptr_returned : OwnerStep
  completion_pushed : ℕ → Event → OwnerStep
  pointer_destroyed : ℕ → OwnerStep

unfoldable pub own_step : OwnerStep → Owners → Result Owners
own_step internal_pushed s = ok (push_internal_event s)
own_step nullptr_returned s = ok (return_nullptr s)
own_step (completion_pushed p e) s = ok (push_to_event_queue p e s)
own_step (pointer_destroyed k) s = destroy_pointer (get_elem? s.pointers k) k s

unfoldable pub own_steps : List OwnerStep → Owners → Result Owners
own_steps [] s = ok s
own_steps (x ∷ xs) s = own_step x s >>= own_steps xs

-- Before the first event.
abbrev pub no_owners : Owners
no_owners = record { heap = []; next = 0; pointers = [] }
