-- ===== src/ExecutionContext.antt =====
-- async_grpc/execution_context.h, GetContext and GetUnsynchronizedContext of async_grpc/server.h and
-- async_grpc/rpc_handler.h: the context that handlers share, behind a mutex.
use async_flatbuffer_grpc.Prelude.{
  ℕ, ◌≡◌, refl, ap, sym, arith, ◌∙◌, true, false, Option, none, some, List, [], ◌∷◌, map, ◌==◌,
  if◌then◌else◌, Result, ok, fault, dangling, null_pointer, or_fault, ◌>>=◌,
}
use async_flatbuffer_grpc.Common.Mutex.{
  Program, done, reads, writes, run_program, Section, Entry, System, Reach,
}
use async_flatbuffer_grpc.Common.Mutex.Invariant.{effect, replay}
use async_flatbuffer_grpc.Common.Mutex.Serial.{unlocked_state, serial}

-- A class derived from ExecutionContext, by a number, with the members that it adds.
pub record ExecutionContext {ℓ} (T : Type ℓ) : Type ℓ where
  pub class : ℕ
  pub members : T

-- The uses of one Synchronized, in order, from its constructor to its destructor: each goes through
-- operator-> and may change the members.
abbrev pub Uses {ℓ} : Type ℓ → Type ℓ
Uses T = List (T → T)

same : (n : ℕ) → (n == n) ≡ true
same n = ground arith

module _ {ℓ} {T : Type ℓ} where
  -- operator->: a static_cast, which is not checked; what it gives for another class is undefined.
  unfoldable pub arrow : ℕ → ExecutionContext T → Result T
  arrow class c = if c.class == class then ok c.members else fault dangling

  -- GetContext<T>, with the uses of what it returns: `execution_context_->lock()` follows the
  -- pointer, and the members are accessed through the Synchronized.
  unfoldable pub use_all : ℕ → Uses T → ExecutionContext T → Result (ExecutionContext T)
  use_all class [] c = ok c
  use_all class (f ∷ fs) c = do m ← arrow class c; use_all class fs (record c { members = f m })

  unfoldable pub get_context :
      ℕ → Uses T → Option (ExecutionContext T) → Result (Option (ExecutionContext T))
  get_context class uses execution_context = do
    c ← or_fault execution_context null_pointer
    c' ← use_all class uses c
    ok (some c')

  -- GetUnsynchronizedContext<T>: a dynamic_cast of the pointer.
  unfoldable pub get_unsynchronized_context : ℕ → Option (ExecutionContext T) → Option T
  get_unsynchronized_context class none = none
  get_unsynchronized_context class (some c) = if c.class == class then some c.members else none

  -- Several of them, one after the other.
  unfoldable pub get_context_in_turn :
      ℕ → List (Uses T) → Option (ExecutionContext T) → Result (Option (ExecutionContext T))
  get_context_in_turn class [] execution_context = ok execution_context
  get_context_in_turn class (uses ∷ rest) execution_context =
      get_context class uses execution_context >>= get_context_in_turn class rest

  -- The lifetime of a Synchronized as a scope of its MutexLocker, one access at a time.
  abbrev uses_program : Uses T → Program T
  uses_program [] = done
  uses_program (f ∷ fs) = reads (λ m. writes (f m) (uses_program fs))

  abbrev pub synchronized : Uses T → Section T
  synchronized uses = record { predicate = λ m. true; timed = false; body = λ _. uses_program uses }

  use_all-program :
      (class : ℕ) (uses : Uses T) (m : T)
      → use_all class uses (record { class = class; members = m })
        ≡ ok (record { class = class; members = run_program (uses_program uses) m })
  unfolding use_all arrow run_program
  use_all-program class [] m = refl
  use_all-program class (f ∷ fs) m = rw (same class) (use_all-program class fs (f m))

  in_turn-replay :
      (class : ℕ) (es : List (Entry (Uses T))) (m : T)
      → get_context_in_turn class
          (map (λ e. e.op) es)
          (some (record { class = class; members = m }))
        ≡ ok (some (record { class = class; members = replay synchronized m es }))
  unfolding get_context_in_turn get_context
  in_turn-replay class [] m = refl
  in_turn-replay class (e ∷ es) m =
      rw (use_all-program class e.op m) (in_turn-replay class es (effect synchronized m e))

  -- In every state that threads reach which use a context of their class through GetContext, their
  -- accesses interleaved in any way: once the owner of the context's mutex, if there is one, has
  -- finished the uses of its Synchronized, the context's members are those that GetContext and its
  -- uses leave when the threads call it one after the other, in the order in which they got the
  -- mutex.
  pub get_context_serial :
      (class : ℕ) (m : T) (s : System T (Uses T))
      → Reach synchronized m s
      → get_context_in_turn class
          (map (λ e. e.op) s.log)
          (some (record { class = class; members = m }))
        ≡ ok (some (record { class = class; members = unlocked_state s }))
  get_context_serial class m s r =
      let (one, allowed, e) = serial synchronized m s 0 r in
      in_turn-replay class s.log m
      ∙ ap (λ t. ok (some (record { class = class; members = t }))) (sym e)
