-- ===== src/Common/Mutex/Wakeups.antt =====
-- async_grpc/common/mutex.h: no wake-up is lost. The destructor of a Locker notifies after it has
-- unlocked, and that is enough.
use async_flatbuffer_grpc.Prelude.{
  ℕ, ◌≡◌, refl, Bool, Bool-cases, true, false, not, Option-cases, none, inl, inr, ◌⊎◌, arith,
}
use async_flatbuffer_grpc.Common.Mutex.{
  done, reads, writes, Section, Phase, outside, unlocked, locking, asleep, waking, testing, inside,
  System, Step, call, lock, pass, expire, sleep, read, write, unlock, notify, wake_spuriously,
  time_out, relock, Reach, start, later,
}
use async_flatbuffer_grpc.Common.Mutex.Invariant.{holds, Inv, Reach-Inv}

module _ {ℓ} {S Op : Type ℓ} where
  -- Whether a thread there will call notify_all before it leaves its scope.
  abbrev notifies : Phase S Op → Bool
  notifies (inside p) = true
  notifies unlocked = true
  notifies _ = false

  -- A thread there acts by itself: it has something to do, and is not asleep.
  abbrev pub is_active : Phase S Op → Bool
  is_active outside = false
  is_active (asleep op) = false
  is_active _ = true

module _ {ℓ} {S Op : Type ℓ} (scope : Op → Section S) where
  -- Whether a thread there sleeps although what it waits for is so.
  abbrev overslept : S → Phase S Op → Bool
  overslept s (asleep op) = (scope op).predicate s
  overslept s _ = false

  -- A thread sleeps although what it waits for is so, only if another is about to notify it.
  abbrev IsAwaited : System S Op → Type 0
  IsAwaited s =
      (i : ℕ) → overslept s.shared (s.phase i) ≡ true → (j : ℕ) × (notifies (s.phase j) ≡ true)

  module _ (i : ℕ) (s : System S Op) where
    Step-IsAwaited :
        {t : System S Op}
        → Step scope i s t
        → IsAwaited s
        → (k : ℕ) → overslept t.shared (t.phase k) ≡ true
        → (j : ℕ) × (notifies (t.phase j) ≡ true)
    Step-IsAwaited (call op e) w k h = let (j, n) = w k (ground arith) in (j, ground arith)
    Step-IsAwaited (lock e o) w k h = let (j, n) = w k (ground arith) in (j, ground arith)
    Step-IsAwaited (sleep e o) w k h = let (j, n) = w k (ground arith) in (j, ground arith)
    Step-IsAwaited (wake_spuriously e) w k h = let (j, n) = w k (ground arith) in (j, ground arith)
    Step-IsAwaited (time_out e o) w k h = let (j, n) = w k (ground arith) in (j, ground arith)
    Step-IsAwaited (relock e o) w k h = let (j, n) = w k (ground arith) in (j, ground arith)
    Step-IsAwaited (notify e) w k h = absurd (ground arith)
    Step-IsAwaited _ w k h = (i, ground arith)

  pub Reach-IsAwaited : (x : S) (s : System S Op) → Reach scope x s → IsAwaited s
  Reach-IsAwaited x s start = λ i h. absurd cc
  Reach-IsAwaited x s (later {s = u} i r st) = Step-IsAwaited i u st (Reach-IsAwaited x u r)

  -- A thread there may stay where it is.
  abbrev pub may_rest : S → Phase S Op → Bool
  may_rest s outside = true
  may_rest s (asleep op) = not ((scope op).predicate s)
  may_rest s _ = false

  -- A step of an active thread: no new call, no spurious wake-up and no timeout.
  abbrev pub Progress : System S Op → Type ℓ
  Progress s = (j : ℕ) × (t : System S Op) × Step scope j s t × (is_active (s.phase j) ≡ true)

  module _ (s : System S Op) where
    holder-Progress : (j : ℕ) (p : Phase S Op) → s.phase j ≡ p → holds p ≡ true → Progress s
    holder-Progress j (testing op true) e h = elim (Bool-cases ((scope op).predicate s.shared)) [
      | inl y ↦ (j, _, pass e y, rw e refl)
      | inr n ↦ (j, _, expire e n, rw e refl)
    ]
    holder-Progress j (testing op false) e h = elim (Bool-cases ((scope op).predicate s.shared)) [
      | inl y ↦ (j, _, pass e y, rw e refl)
      | inr n ↦ (j, _, sleep e n, rw e refl)
    ]
    holder-Progress j (inside done) e h = (j, _, unlock e, rw e refl)
    holder-Progress j (inside (reads k)) e h = (j, _, read e, rw e refl)
    holder-Progress j (inside (writes x p)) e h = (j, _, write e, rw e refl)
    holder-Progress j _ e h = absurd cc

    module _ (x : S) (v : Inv scope x s) (w : IsAwaited s) where
      -- A thread that wants the mutex goes on if it is free, and its owner goes on if not.
      owner-Progress : (s.owner ≡ none → Progress s) → Progress s
      owner-Progress go = elim (Option-cases s.owner) [
        | inl free ↦ go free
        | inr (j, taken) ↦ holder-Progress j (s.phase j) refl (v.owns j taken)
      ]

      notifier-Progress : (j : ℕ) (p : Phase S Op) → s.phase j ≡ p → notifies p ≡ true → Progress s
      notifier-Progress j (inside p) e h = holder-Progress j (inside p) e refl
      notifier-Progress j unlocked e h = (j, _, notify e, rw e refl)
      notifier-Progress j _ e h = absurd cc

      phase-Progress :
          (i : ℕ) (p : Phase S Op) → s.phase i ≡ p → Progress s ⊎ (may_rest s.shared p ≡ true)
      phase-Progress i outside e = inr refl
      phase-Progress i unlocked e = inl (i, _, notify e, rw e refl)
      phase-Progress i (locking op) e =
          inl (owner-Progress (λ free. (i, _, lock e free, rw e refl)))
      phase-Progress i (waking op expired) e =
          inl (owner-Progress (λ free. (i, _, relock e free, rw e refl)))
      phase-Progress i (testing op expired) e = inl (holder-Progress i (testing op expired) e refl)
      phase-Progress i (inside p) e = inl (holder-Progress i (inside p) e refl)
      phase-Progress i (asleep op) e = elim (Bool-cases ((scope op).predicate s.shared)) [
        | inl y ↦ let (j, n) = w i (rw (e, y) refl) in inl (notifier-Progress j (s.phase j) refl n)
        | inr n ↦ inr (rw n refl)
      ]

  -- In every state that an interleaving of threads leads to, and for each thread: some thread that
  -- is neither asleep nor outside can take its next step, or that thread is outside, or it sleeps
  -- and what it waits for is not so.
  pub no_lost_wakeup :
      (x : S) (s : System S Op) (i : ℕ)
      → Reach scope x s
      → Progress s ⊎ (may_rest s.shared (s.phase i) ≡ true)
  no_lost_wakeup x s i r =
      phase-Progress s x (Reach-Inv scope x s r) (Reach-IsAwaited x s r) i (s.phase i) refl
