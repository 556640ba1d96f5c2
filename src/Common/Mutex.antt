-- ===== src/Common/Mutex.antt =====
-- async_grpc/common/mutex.h: threads that share a state which a Mutex guards. Each thread has at most
-- one Locker at a time. std::mutex and std::condition_variable are as documented: a wait gives up the
-- mutex and sleeps in one step, may wake for no reason, and takes the mutex again before it returns.
use async_flatbuffer_grpc.Prelude.{
  ℕ, ◌≡◌, Bool, true, false, Option, none, some, List, [], ◌∷◌, ◌++◌, update,
}
pub mod Invariant
pub mod Serial
pub mod Wakeups

-- What a thread does with the guarded state, one access at a time.
pub data Program {ℓ} (S : Type ℓ) : Type ℓ where
  done : Program S
  reads : (S → Program S) → Program S
  writes : S → Program S → Program S

-- The body of a scope run on its own.
unfoldable pub run_program {ℓ} : {S : Type ℓ} → Program S → S → S
run_program done s = s
run_program (reads k) s = run_program (k s) s
run_program (writes x p) s = run_program p x

-- The scope of a Locker: the predicate of its Await (the constantly true one where there is none),
-- whether it is an AwaitWithTimeout, and what follows, given the result of the wait.
pub record Section {ℓ} (S : Type ℓ) : Type ℓ where
  pub predicate : S → Bool
  pub timed : Bool
  pub body : Bool → Program S

-- Where a thread is in such a scope.
pub data Phase {ℓ} (S Op : Type ℓ) : Type ℓ where
  outside unlocked : Phase S Op
  locking asleep : Op → Phase S Op
  waking testing : Op → Bool → Phase S Op
  inside : Program S → Phase S Op

-- A wait that returned, with its result.
pub record Entry {ℓ} (Op : Type ℓ) : Type ℓ where
  pub thread : ℕ
  pub op : Op
  pub result : Bool

-- The log of the waits that returned, in order, is for the theorems only.
pub record System {ℓ} (S Op : Type ℓ) : Type ℓ where
  pub shared : S
  pub owner : Option ℕ
  pub phase : ℕ → Phase S Op
  pub log : List (Entry Op)

module _ {ℓ} {S Op : Type ℓ} where
  -- notify_all
  abbrev pub woken : Phase S Op → Phase S Op
  woken (asleep op) = waking op false
  woken outside = outside
  woken unlocked = unlocked
  woken (locking op) = locking op
  woken (waking op expired) = waking op expired
  woken (testing op expired) = testing op expired
  woken (inside p) = inside p

  -- A state where no thread has a Locker.
  abbrev pub initial : S → System S Op
  initial s = record { shared = s; owner = none; phase = λ _. outside; log = [] }

  -- A step of thread `i`. `wait_for` with a predicate returns the predicate's value after a timeout.
  pub data Step (scope : Op → Section S) (i : ℕ) (s : System S Op) : System S Op → Type ℓ where
    call :
        (op : Op)
        → s.phase i ≡ outside
        → Step scope i s (record s { phase = update s.phase i (locking op) })
    lock :
        {op : Op}
        → s.phase i ≡ locking op
        → s.owner ≡ none
        → Step scope i s (record s { owner = some i; phase = update s.phase i (testing op false) })
    pass :
        {op : Op} {expired : Bool}
        → s.phase i ≡ testing op expired
        → (scope op).predicate s.shared ≡ true
        → Step scope i s (record s {
          phase = update s.phase i (inside ((scope op).body true));
          log = s.log ++ record { thread = i; op = op; result = true } ∷ [];
        })
    expire :
        {op : Op}
        → s.phase i ≡ testing op true
        → (scope op).predicate s.shared ≡ false
        → Step scope i s (record s {
          phase = update s.phase i (inside ((scope op).body false));
          log = s.log ++ record { thread = i; op = op; result = false } ∷ [];
        })
    sleep :
        {op : Op}
        → s.phase i ≡ testing op false
        → (scope op).predicate s.shared ≡ false
        → Step scope i s (record s { owner = none; phase = update s.phase i (asleep op) })
    read :
        {k : S → Program S}
        → s.phase i ≡ inside (reads k)
        → Step scope i s (record s { phase = update s.phase i (inside (k s.shared)) })
    write :
        {x : S} {p : Program S}
        → s.phase i ≡ inside (writes x p)
        → Step scope i s (record s { shared = x; phase = update s.phase i (inside p) })
    unlock :
        s.phase i ≡ inside done
        → Step scope i s (record s { owner = none; phase = update s.phase i unlocked })
    notify :
        s.phase i ≡ unlocked
        → Step scope i s (record s { phase = λ j. woken (update s.phase i outside j) })
    wake_spuriously :
        {op : Op}
        → s.phase i ≡ asleep op
        → Step scope i s (record s { phase = update s.phase i (waking op false) })
    time_out :
        {op : Op}
        → s.phase i ≡ asleep op
        → (scope op).timed ≡ true
        → Step scope i s (record s { phase = update s.phase i (waking op true) })
    relock :
        {op : Op} {expired : Bool}
        → s.phase i ≡ waking op expired
        → s.owner ≡ none
        → Step scope i s
            (record s { owner = some i; phase = update s.phase i (testing op expired) })

  -- The states that any interleaving leads to.
  pub data Reach (scope : Op → Section S) (x : S) : System S Op → Type ℓ where
    start : Reach scope x (initial x)
    later : {s t : System S Op} (i : ℕ) → Reach scope x s → Step scope i s t → Reach scope x t
