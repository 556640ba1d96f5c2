-- ===== src/Common/Mutex/Invariant.antt =====
-- async_grpc/common/mutex.h: what holds after every step of threads that share a Mutex.
use async_flatbuffer_grpc.Prelude.{
  ℕ, ◌≡◌, refl, sym, ap, ◌∙◌, Bool, true, false, not, ◌||◌, none, some, List, [], ◌∷◌, ◌++◌, arith,
}
use async_flatbuffer_grpc.Common.Mutex.{
  Section, Phase, outside, locking, asleep, unlocked, reads, writes, done, waking, testing, inside,
  Entry, System, initial, Step, call, lock, pass, expire, sleep, read, write, unlock, notify,
  wake_spuriously, time_out, relock, Reach, start, later, run_program,
}

module _ {ℓ} {S Op : Type ℓ} where
  -- Whether the thread holds the mutex there.
  abbrev pub holds : Phase S Op → Bool
  holds (testing op expired) = true
  holds (inside p) = true
  holds _ = false

  -- What the state will be when the thread there unlocks.
  abbrev pub settled : Phase S Op → S → S
  settled (inside p) s = run_program p s
  settled _ s = s

module _ {ℓ} {S Op : Type ℓ} (scope : Op → Section S) where
  -- A whole scope, after its wait.
  abbrev pub effect : S → Entry Op → S
  effect s e = run_program ((scope e.op).body e.result) s

  abbrev pub replay : S → List (Entry Op) → S
  replay s [] = s
  replay s (e ∷ es) = replay (effect s e) es

  -- A wait returned what its predicate said, and false only if it was given a timeout.
  abbrev pub IsAllowed : S → Entry Op → Type 0
  IsAllowed s e = ((scope e.op).predicate s ≡ e.result) × ((e.result || (scope e.op).timed) ≡ true)

  abbrev pub AreAllowed : S → List (Entry Op) → Type 0
  AreAllowed s [] = Unit {0}
  AreAllowed s (e ∷ es) = IsAllowed s e × AreAllowed (effect s e) es

  -- Only a wait with a timeout expires.
  abbrev IsTimed : Phase S Op → Type 0
  IsTimed (waking op expired) = (not expired || (scope op).timed) ≡ true
  IsTimed (testing op expired) = (not expired || (scope op).timed) ≡ true
  IsTimed _ = Unit {0}

  replay-append :
      (s : S) (es : List (Entry Op)) (e : Entry Op)
      → replay s (es ++ e ∷ []) ≡ effect (replay s es) e
  replay-append s [] e = refl
  replay-append s (d ∷ es) e = replay-append (effect s d) es e

  AreAllowed-append :
      (s : S) (es : List (Entry Op)) (e : Entry Op)
      → AreAllowed s es
      → IsAllowed (replay s es) e
      → AreAllowed s (es ++ e ∷ [])
  AreAllowed-append s [] e h a = (a, tt)
  AreAllowed-append s (d ∷ es) e (a, h) b = (a, AreAllowed-append (effect s d) es e h b)

  -- The owner of the mutex is the one thread that holds it, and the state is what the log says once
  -- that thread is done.
  pub record Inv (x : S) (s : System S Op) : Type ℓ where
    pub holder : (i : ℕ) → holds (s.phase i) ≡ true → s.owner ≡ some i
    pub owns : (i : ℕ) → s.owner ≡ some i → holds (s.phase i) ≡ true
    pub timed : (i : ℕ) → IsTimed (s.phase i)
    pub free : s.owner ≡ none → s.shared ≡ replay x s.log
    pub taken : (i : ℕ) → s.owner ≡ some i → settled (s.phase i) s.shared ≡ replay x s.log
    pub allowed : AreAllowed x s.log

  module _ (x : S) (i : ℕ) (s : System S Op) where
    -- What the step asks of the owner and of the thread's phase.
    abbrev Premise : {t : System S Op} → Step scope i s t → Type ℓ
    Premise (call op e) = s.phase i ≡ outside
    Premise (lock {op} e o) = (s.phase i ≡ locking op) × (s.owner ≡ none)
    Premise (pass {op} {expired} e o) = s.phase i ≡ testing op expired
    Premise (expire {op} e o) = s.phase i ≡ testing op true
    Premise (sleep {op} e o) = s.phase i ≡ testing op false
    Premise (read {k} e) = s.phase i ≡ inside (reads k)
    Premise (write {x = y} {p} e) = s.phase i ≡ inside (writes y p)
    Premise (unlock e) = s.phase i ≡ inside done
    Premise (notify e) = s.phase i ≡ unlocked
    Premise (wake_spuriously {op} e) = s.phase i ≡ asleep op
    Premise (time_out {op} e o) = (s.phase i ≡ asleep op) × ((scope op).timed ≡ true)
    Premise (relock {op} {expired} e o) = (s.phase i ≡ waking op expired) × (s.owner ≡ none)

    premise : {t : System S Op} (st : Step scope i s t) → Premise st
    premise (call op e) = e
    premise (lock e o) = (e, o)
    premise (pass e o) = e
    premise (expire e o) = e
    premise (sleep e o) = e
    premise (read e) = e
    premise (write e) = e
    premise (unlock e) = e
    premise (notify e) = e
    premise (wake_spuriously e) = e
    premise (time_out e o) = (e, o)
    premise (relock e o) = (e, o)

    Step-holder :
        {t : System S Op}
        → Step scope i s t
        → Inv x s
        → (j : ℕ) → holds (t.phase j) ≡ true
        → t.owner ≡ some j
    Step-holder (call op e) v j h = ground (arith, v.holder j)
    Step-holder st v j h = ground (arith, premise st, v.holder j, v.holder i)

    Step-owns :
        {t : System S Op}
        → Step scope i s t
        → Inv x s
        → (j : ℕ) → t.owner ≡ some j
        → holds (t.phase j) ≡ true
    Step-owns (call op e) v j h = ground (arith, v.owns j, v.holder i)
    Step-owns st v j h = ground (arith, premise st, v.owns j, v.holder i)

    Step-IsTimed : {t : System S Op} → Step scope i s t → Inv x s → (j : ℕ) → IsTimed (t.phase j)
    Step-IsTimed (call op e) v j = ground (arith, v.timed j, v.timed i)
    Step-IsTimed st v j = ground (arith, premise st, v.timed j, v.timed i)

    -- The owner that tests its predicate has left the state as it found it.
    tested :
        {op : Op} {expired : Bool}
        → Inv x s
        → s.phase i ≡ testing op expired
        → s.shared ≡ replay x s.log
    tested v e = ground (arith, v.holder i, v.taken i)

    entered :
        {op : Op} {expired : Bool} (result : Bool)
        → Inv x s
        → s.phase i ≡ testing op expired
        → let e : Entry Op = record { thread = i; op = op; result = result } in
          run_program ((scope op).body result) s.shared ≡ replay x (s.log ++ e ∷ [])
    entered {op} result v e =
        ap (run_program ((scope op).body result)) (tested v e)
        ∙ sym (replay-append x s.log (record { thread = i; op = op; result = result }))

    Step-free :
        {t : System S Op} → Step scope i s t → Inv x s → t.owner ≡ none → t.shared ≡ replay x t.log
    unfolding run_program
    Step-free (pass e o) v h = ground (arith, v.holder i)
    Step-free (expire e o) v h = ground (arith, v.holder i)
    Step-free st v h = ground (arith, premise st, v.free, v.taken i, v.holder i)

    Step-taken :
        {t : System S Op}
        → Step scope i s t
        → Inv x s
        → (j : ℕ) → t.owner ≡ some j
        → settled (t.phase j) t.shared ≡ replay x t.log
    unfolding run_program
    Step-taken (pass e o) v j h = ground (arith, v.owns j, entered true v e, v.holder i)
    Step-taken (expire e o) v j h = ground (arith, v.owns j, entered false v e, v.holder i)
    Step-taken st v j h = ground (arith, premise st, v.free, v.taken j, v.holder i)

    Step-allowed : {t : System S Op} → Step scope i s t → Inv x s → AreAllowed x t.log
    Step-allowed (pass {op} e o) v =
        AreAllowed-append x s.log _ v.allowed (ground (arith, tested v e))
    Step-allowed (expire {op} e o) v =
        AreAllowed-append x s.log _ v.allowed (ground (arith, tested v e, v.timed i))
    Step-allowed _ v = v.allowed

    Step-Inv : {t : System S Op} → Step scope i s t → Inv x s → Inv x t
    Step-Inv st v = record {
      holder = Step-holder st v;
      owns = Step-owns st v;
      timed = Step-IsTimed st v;
      free = Step-free st v;
      taken = Step-taken st v;
      allowed = Step-allowed st v;
    }

  module _ (x : S) where
    initial-Inv : Inv x (initial x)
    initial-Inv = record {
      holder = λ i h. cc;
      owns = λ i h. cc;
      timed = λ i. tt;
      free = λ h. refl;
      taken = λ i h. cc;
      allowed = tt;
    }

    pub Reach-Inv : (s : System S Op) → Reach scope x s → Inv x s
    Reach-Inv s start = initial-Inv
    Reach-Inv s (later {s = u} i r st) = Step-Inv x i u st (Reach-Inv u r)
