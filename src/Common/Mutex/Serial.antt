-- ===== src/Common/Mutex/Serial.antt =====
-- async_grpc/common/mutex.h: the scopes of Lockers exclude each other, so that any interleaving is as
-- good as the scopes run one after the other.
use async_flatbuffer_grpc.Prelude.{
  ℕ, ◌≡◌, Bool, false, Option, Option-cases, none, some, inl, inr, ◌==◌, arith,
}
use async_flatbuffer_grpc.Common.Mutex.{Section, System, Reach}
use async_flatbuffer_grpc.Common.Mutex.Invariant.{
  holds, settled, replay, AreAllowed, Inv, Reach-Inv,
}

-- Whether the thread is the mutex's owner.
abbrev pub is_owner : Option ℕ → ℕ → Bool
is_owner none i = false
is_owner (some j) i = j == i

module _ {ℓ} {S Op : Type ℓ} where
  -- The state once the owner, if there is one, has run the rest of its scope.
  abbrev pub unlocked_state : System S Op → S
  unlocked_state s = elim s.owner [ none ↦ s.shared | some i ↦ settled (s.phase i) s.shared ]

module _ {ℓ} {S Op : Type ℓ} (scope : Op → Section S) (x : S) where
  holds-is_owner :
      (s : System S Op) (i : ℕ) → Inv scope x s → holds (s.phase i) ≡ is_owner s.owner i
  holds-is_owner s i v = ground (arith, v.holder i, v.owns i)

  unlocked_state-replay :
      (s : System S Op) → Inv scope x s → unlocked_state s ≡ replay scope x s.log
  unlocked_state-replay s v = elim (Option-cases s.owner) [
    | inl free ↦ rw free (v.free free)
    | inr (i, taken) ↦ rw taken (v.taken i taken)
  ]

  -- In every state that an interleaving of threads leads to from `x`: a thread holds the mutex
  -- exactly if it is the mutex's owner, so at most one does; each wait in the log returned what its
  -- predicate said of the state that the scopes before it leave when they run one after the other
  -- in the log's order, and returned false only if it had a timeout; and the guarded state, once
  -- the owner has run the rest of its scope, is the state that all of the log's scopes leave when
  -- they run one after the other.
  pub serial :
      (s : System S Op) (i : ℕ)
      → Reach scope x s
      → (holds (s.phase i) ≡ is_owner s.owner i)
        × AreAllowed scope x s.log
        × (unlocked_state s ≡ replay scope x s.log)
  serial s i r =
      let v = Reach-Inv scope x s r in (holds-is_owner s i v, v.allowed, unlocked_state-replay s v)
