-- ===== src/Server/EventOwnership/Deletion.antt =====
-- async_grpc/rpc_interface.h, events.cc, rpc.h: every internal event is deleted once, and no event of an
-- Rpc is deleted by a queue.
use async_flatbuffer_grpc.Prelude.{
  ℕ, zero, suc, ◌+◌, ◌≤◌, ◌≡◌, refl, subst, inl, inr, Bool, true, false, Option, Option-cases, none,
  some, List, [], ◌∷◌, arith, ◌==◌, is_some, ok, find, erase, find-erase, find-insert, get_elem?,
}
use async_flatbuffer_grpc.Api.{Event, write_needed}
use async_flatbuffer_grpc.Service.Tags.{bit}
use async_flatbuffer_grpc.Server.Steps.{drop_at}
use async_flatbuffer_grpc.Server.EventOwnership.{
  EventAddress, stored, allocated, DeleterAction, delete, do_not_delete, UniqueEventPtr, Owners,
  delete_event, event_deleter, push_internal_event, push_to_event_queue, return_nullptr,
  destroy_pointer, OwnerStep, internal_pushed, nullptr_returned, completion_pushed,
  pointer_destroyed, own_step, own_steps, no_owners,
}

-- Whether the pointer owns the event at that address.
abbrev owns_address : ℕ → DeleterAction → Option EventAddress → Bool
owns_address n delete (some (allocated k)) = k == n
owns_address n action e = false

abbrev owns : ℕ → UniqueEventPtr → Bool
owns n u = owns_address n u.action u.pointer

-- How many pointers own it.
abbrev pub owners_of : ℕ → List UniqueEventPtr → ℕ
owners_of n [] = 0
owners_of n (u ∷ us) = bit (owns n u) + owners_of n us

-- The Rpcs' own events are not to be deleted by a pointer.
abbrev spares : DeleterAction → Option EventAddress → Bool
spares delete (some (stored p e)) = false
spares action e = true

abbrev Guarded : UniqueEventPtr → Type 0
Guarded u = spares u.action u.pointer ≡ true

abbrev AllGuarded : List UniqueEventPtr → Type 0
AllGuarded [] = Unit {0}
AllGuarded (u ∷ us) = Guarded u × AllGuarded us

record Owned (s : Owners) : Type 0 where
  counted : (n : ℕ) → bit (is_some (find n s.heap)) ≡ owners_of n s.pointers
  fresh : (n : ℕ) → s.next ≤ n → find n s.heap ≡ none
  guarded : AllGuarded s.pointers

owners_of-drop_at :
    (n k : ℕ) (u : UniqueEventPtr) (us : List UniqueEventPtr)
    → get_elem? us k ≡ some u
    → owners_of n (drop_at k us) + bit (owns n u) ≡ owners_of n us
owners_of-drop_at n k u [] h = cc
owners_of-drop_at n zero u (v ∷ us) h = let same : v ≡ u = cc h in rw same (omega arith)
owners_of-drop_at n (suc k) u (v ∷ us) h = omega (arith, owners_of-drop_at n k u us h)

AllGuarded-drop_at : (k : ℕ) (us : List UniqueEventPtr) → AllGuarded us → AllGuarded (drop_at k us)
AllGuarded-drop_at k [] h = tt
AllGuarded-drop_at zero (v ∷ us) h = h.1
AllGuarded-drop_at (suc k) (v ∷ us) h = (h.0, AllGuarded-drop_at k us h.1)

Guarded-at :
    (k : ℕ) (u : UniqueEventPtr) (us : List UniqueEventPtr)
    → get_elem? us k ≡ some u
    → AllGuarded us
    → Guarded u
Guarded-at k u [] h g = cc
Guarded-at zero u (v ∷ us) h g = let same : v ≡ u = cc h in subst Guarded same g.0
Guarded-at (suc k) u (v ∷ us) h g = Guarded-at k u us h g.1

module _ (s : Owners) (v : Owned s) where
  pushed-Owned : Owned (push_internal_event s)
  unfolding push_internal_event
  pushed-Owned = record {
    counted = λ n. ground (arith, v.counted n, v.fresh n, find-insert s.next n write_needed s.heap);
    fresh = λ n h. ground (arith, v.fresh n, find-insert s.next n write_needed s.heap);
    guarded = (refl, v.guarded);
  }

  -- What the destructor of a pointer does to the heap, if `rest` are the pointers that remain.
  deleted :
      (rest : List UniqueEventPtr) (a : DeleterAction) (e : Option EventAddress)
      → ((n : ℕ) → owners_of n rest + bit (owns_address n a e) ≡ owners_of n s.pointers)
      → spares a e ≡ true
      → (heap : List (ℕ × Event)) × (event_deleter a e s.heap ≡ ok heap)
        × ((n : ℕ) → bit (is_some (find n heap)) ≡ owners_of n rest)
        × ((n : ℕ) → s.next ≤ n → find n heap ≡ none)
  unfolding event_deleter delete_event
  deleted rest delete none out g = (s.heap, refl, λ n. omega (arith, v.counted n, out n), v.fresh)
  deleted rest do_not_delete none out g =
      (s.heap, refl, λ n. omega (arith, v.counted n, out n), v.fresh)
  deleted rest do_not_delete (some e) out g =
      (s.heap, refl, λ n. omega (arith, v.counted n, out n), v.fresh)
  deleted rest delete (some (stored p e)) out g = absurd cc
  deleted rest delete (some (allocated n)) out g =
      let alive : is_some (find n s.heap) ≡ true = ground (arith, v.counted n, out n) in
      (
        erase n s.heap,
        rw alive refl,
        λ m. ground (arith, alive, v.counted m, out m, find-erase n m s.heap),
        λ m h. ground (arith, v.fresh m, find-erase n m s.heap),
      )

  destroyed-Owned :
      (k : ℕ) → (s' : Owners) × (destroy_pointer (get_elem? s.pointers k) k s ≡ ok s') × Owned s'
  unfolding destroy_pointer
  destroyed-Owned k = elim (Option-cases (get_elem? s.pointers k)) [
    | inl nothing ↦ (s, rw nothing refl, v)
    | inr (u, there) ↦
        let rest = drop_at k s.pointers in
        let (heap, e, counted, fresh) =
          deleted rest u.action u.pointer (λ n. owners_of-drop_at n k u s.pointers there)
            (Guarded-at k u s.pointers there v.guarded) in
        (
          record s { heap = heap; pointers = rest },
          rw (there, e) refl,
          record {
            counted = counted;
            fresh = fresh;
            guarded = AllGuarded-drop_at k s.pointers v.guarded;
          },
        )
  ]

  own_step-Owned : (x : OwnerStep) → (s' : Owners) × (own_step x s ≡ ok s') × Owned s'
  unfolding own_step return_nullptr push_to_event_queue
  own_step-Owned internal_pushed = (push_internal_event s, refl, pushed-Owned)
  own_step-Owned nullptr_returned = (
    return_nullptr s,
    refl,
    record {
      counted = λ n. omega (arith, v.counted n);
      fresh = v.fresh;
      guarded = (refl, v.guarded);
    },
  )
  own_step-Owned (completion_pushed p e) = (
    push_to_event_queue p e s,
    refl,
    record {
      counted = λ n. omega (arith, v.counted n);
      fresh = v.fresh;
      guarded = (refl, v.guarded);
    },
  )
  own_step-Owned (pointer_destroyed k) = destroyed-Owned k

own_steps-Owned :
    (xs : List OwnerStep) (s : Owners)
    → Owned s
    → (s' : Owners) × (own_steps xs s ≡ ok s') × Owned s'
unfolding own_steps
own_steps-Owned [] s v = (s, refl, v)
own_steps-Owned (x ∷ xs) s v =
    let (s1, e1, v1) = own_step-Owned s v x in
    let (s2, e2, v2) = own_steps-Owned xs s1 v1 in (s2, rw e1 e2, v2)

-- Over any sequence of pushes of internal events and of events that gRPC completed, of timeouts, and
-- of destructors of pointers to events in any order: no event is deleted twice and no event that an
-- Rpc stores is deleted by a pointer, and each internal event is in memory exactly as long as one
-- pointer owns it, which is the only one.
pub deleted_once :
    (xs : List OwnerStep) (n : ℕ)
    → (s : Owners) × (own_steps xs no_owners ≡ ok s)
      × (bit (is_some (find n s.heap)) ≡ owners_of n s.pointers)
unfolding find
deleted_once xs n =
    let (s, e, v) =
      own_steps-Owned xs no_owners
        (record { counted = λ m. refl; fresh = λ m h. refl; guarded = tt }) in
    (s, e, v.counted n)
