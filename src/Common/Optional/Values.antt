-- ===== src/Common/Optional/Values.antt =====
-- async_grpc/common/optional.h: an optional is an optional value, whatever it shares memory with.
use async_flatbuffer_grpc.Prelude.{
  ℕ, ◌≡◌, refl, ap, ◌∙◌, inl, inr, true, false, Option, Option-cases, none, some, List, [], ◌∷◌,
  arith, ◌==◌, if◌then◌else◌, is_some, Result, ok, fault, check_failed, update, find,
}
use async_flatbuffer_grpc.Common.Optional.{
  Optionals, has_value, value, assign_value, assign_null, assign, no_values, OptionalStep,
  value_assigned, copied, destroyed, optional_step, optional_steps,
}
use async_flatbuffer_grpc.Common.Optional.Ownership.{
  content, Sound, released-Sound, released-content, assigned-Sound, assigned-content,
}

module _ {T : Type 0} where
  -- The same program on plain optional values.
  abbrev pub plain_step : OptionalStep T → (ℕ → Option T) → ℕ → Option T
  plain_step (value_assigned i x) f = update f i (some x)
  plain_step (copied i j) f = update f i (f j)
  plain_step (destroyed i) f = update f i none

  abbrev pub plain_steps : List (OptionalStep T) → (ℕ → Option T) → ℕ → Option T
  plain_steps [] f = f
  plain_steps (x ∷ xs) f = plain_steps xs (plain_step x f)

  -- value() of a plain optional value.
  abbrev pub value_of : Option T → Result T
  value_of none = fault check_failed
  value_of (some x) = ok x

  module _ (s : Optionals T) (v : Sound s) where
    content-value : (i : ℕ) → value i s ≡ value_of (content s i)
    unfolding value content
    content-value i = elim (Option-cases (s.value_ i)) [
      | inl empty ↦ ground (arith, empty)
      | inr (p, there) ↦ ground (arith, there, v.engaged i p)
    ]

    content-has_value : (i : ℕ) → has_value i s ≡ is_some (content s i)
    unfolding has_value content
    content-has_value i = elim (Option-cases (s.value_ i)) [
      | inl empty ↦ ground (arith, empty)
      | inr (p, there) ↦ ground (arith, there, v.engaged i p)
    ]

    assign_value-Sound : (i : ℕ) (x : T) → Sound (assign_value i x s)
    unfolding assign_value
    assign_value-Sound i x = assigned-Sound s v i x (s.value_ i) refl

    content-assign_value :
        (i : ℕ) (x : T) (k : ℕ)
        → content (assign_value i x s) k ≡ (if i == k then some x else content s k)
    unfolding assign_value
    content-assign_value i x k = assigned-content s v i x (s.value_ i) refl k

    assign_null-Sound : (i : ℕ) → Sound (assign_null i s)
    unfolding assign_null
    assign_null-Sound i = released-Sound s v i (s.value_ i) refl

    content-assign_null :
        (i k : ℕ) → content (assign_null i s) k ≡ (if i == k then none else content s k)
    unfolding assign_null
    content-assign_null i k = released-content s v i (s.value_ i) refl k

    -- A step succeeds and does to the contents what it does to plain values.
    step-Acts :
        (x : OptionalStep T) (f : ℕ → Option T)
        → ((i : ℕ) → content s i ≡ f i)
        → (s' : Optionals T) × (optional_step x s ≡ ok s')
          × Sound s'
          × ((i : ℕ) → content s' i ≡ plain_step x f i)
    unfolding optional_step assign
    step-Acts (value_assigned i x) f h = (
      assign_value i x s,
      refl,
      assign_value-Sound i x,
      λ k. ground (arith, content-assign_value i x k, h k),
    )
    step-Acts (destroyed i) f h = (
      assign_null i s,
      refl,
      assign_null-Sound i,
      λ k. ground (arith, content-assign_null i k, h k),
    )
    step-Acts (copied i j) f h = elim (Option-cases (f j)) [
      | inl empty ↦
          let has : has_value j s ≡ false = ground (arith, content-has_value j, h j, empty) in
          (
            assign_null i s,
            rw has refl,
            assign_null-Sound i,
            λ k. ground (arith, content-assign_null i k, h k, empty),
          )
      | inr (x, there) ↦
          let has : has_value j s ≡ true = ground (arith, content-has_value j, h j, there) in
          let given : value j s ≡ ok x = content-value j ∙ ap value_of (h j ∙ there) in
          (
            assign_value i x s,
            rw (has, given) refl,
            assign_value-Sound i x,
            λ k. ground (arith, content-assign_value i x k, h k, there),
          )
    ]

  no_values-Sound : Sound {T = T} no_values
  unfolding find
  no_values-Sound = record {
    fresh = λ p h. refl;
    engaged = λ i p h. cc;
    unshared = λ i j p h g. cc;
    owned = λ p h. cc;
  }

  steps-Act :
      (xs : List (OptionalStep T)) (s : Optionals T) (v : Sound s) (f : ℕ → Option T)
      → ((i : ℕ) → content s i ≡ f i)
      → (s' : Optionals T) × (optional_steps xs s ≡ ok s')
        × Sound s'
        × ((i : ℕ) → content s' i ≡ plain_steps xs f i)
  unfolding optional_steps
  steps-Act [] s v f h = (s, refl, v, h)
  steps-Act (x ∷ xs) s v f h =
      let (s1, e1, v1, h1) = step-Acts s v x f h in
      let (s2, e2, v2, h2) = steps-Act xs s1 v1 (plain_step x f) h1 in (s2, rw e1 e2, v2, h2)

  -- A program that constructs, assigns, copies and destroys optionals in any order, each of which
  -- may be assigned to itself, does not fail, and then each optional has a value, and gives it, just
  -- if the same program on plain optional values leaves one, and it is that value; `value()` fails
  -- its CHECK otherwise. At the end each value in memory is owned by one optional and each optional
  -- with a value owns one, so none leaks and none is shared.
  pub optional_values :
      (xs : List (OptionalStep T)) (i : ℕ)
      → let x = plain_steps xs (λ _. none) i in
        (s : Optionals T) × (optional_steps xs no_values ≡ ok s)
        × (has_value i s ≡ is_some x)
        × (value i s ≡ value_of x)
        × Sound s
  unfolding find content
  optional_values xs i =
      let (s, e, v, h) = steps-Act xs no_values no_values-Sound (λ _. none) (λ j. refl) in
      (s, e, content-has_value s v i ∙ ap is_some (h i), content-value s v i ∙ ap value_of (h i), v)
