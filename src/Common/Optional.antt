-- ===== src/Common/Optional.antt =====
-- async_grpc/common/optional.h: an optional owns its value through a unique_ptr. Variables of the type
-- are numbered; one that is not constructed, or was destroyed, holds nothing.
pub mod Ownership
pub mod Values
use async_flatbuffer_grpc.Prelude.{
  ℕ, suc, ◌≤◌, ◌<◌, ◌≡◌, refl, ap, sym, ◌∙◌, subst, ◌⊎◌, inl, inr, Bool, Bool-cases, true, false,
  Option, Option-cases, none, some, List, [], ◌∷◌, arith, ◌==◌, if◌then◌else◌, is_some, Result, ok,
  fault, dangling, check, or_fault, ◌>>=◌, ◌>>◌, update, find, erase, find-erase, find-insert,
}

-- The values that make_unique allocated and nobody deleted, the next address, and what `value_` of
-- each variable points to.
pub record Optionals (T : Type 0) : Type 0 where
  pub heap : List (ℕ × T)
  pub next : ℕ
  pub value_ : ℕ → Option ℕ

module _ {T : Type 0} where
  -- The unique_ptr's deleter, of what it held.
  abbrev pub reset : Option ℕ → List (ℕ × T) → List (ℕ × T)
  reset none heap = heap
  reset (some p) heap = erase p heap

  unfoldable pub has_value : ℕ → Optionals T → Bool
  has_value i s = is_some (s.value_ i)

  unfoldable pub value : ℕ → Optionals T → Result T
  value i s = do
    check (is_some (s.value_ i))
    p ← or_fault (s.value_ i) dangling
    or_fault (find p s.heap) dangling

  -- `value_ = make_unique<T>(x)`: the old value is deleted after the new one was made.
  unfoldable pub assign_value : ℕ → T → Optionals T → Optionals T
  assign_value i x s = record {
    heap = reset (s.value_ i) ((s.next, x) ∷ s.heap);
    next = suc s.next;
    value_ = update s.value_ i (some s.next);
  }

  -- `value_ = nullptr`, and the destructor.
  unfoldable pub assign_null : ℕ → Optionals T → Optionals T
  assign_null i s = record s { heap = reset (s.value_ i) s.heap; value_ = update s.value_ i none }

  -- `*i = *j`, and the copy constructor on a variable that holds nothing.
  unfoldable pub assign : ℕ → ℕ → Optionals T → Result (Optionals T)
  assign i j s =
      if has_value j s then (do x ← value j s; ok (assign_value i x s)) else ok (assign_null i s)

  -- `value_ = nullptr` where there was no value, and a default constructor.
  abbrev pub no_values : Optionals T
  no_values = record { heap = []; next = 0; value_ = λ i. none }

-- What a program does with its variables: a value is assigned or constructed, one variable is
-- assigned to another or constructed from it, or it is destroyed.
pub data OptionalStep (T : Type 0) : Type 0 where
  value_assigned : ℕ → T → OptionalStep T
  copied : ℕ → ℕ → OptionalStep T
  destroyed : ℕ → OptionalStep T

module _ {T : Type 0} where
  unfoldable pub optional_step : OptionalStep T → Optionals T → Result (Optionals T)
  optional_step (value_assigned i x) s = ok (assign_value i x s)
  optional_step (copied i j) s = assign i j s
  optional_step (destroyed i) s = ok (assign_null i s)

  unfoldable pub optional_steps : List (OptionalStep T) → Optionals T → Result (Optionals T)
  optional_steps [] s = ok s
  optional_steps (x ∷ xs) s = optional_step x s >>= optional_steps xs
