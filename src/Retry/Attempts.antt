-- ===== src/Retry/Attempts.antt =====
-- async_grpc/retry.cc: how often RetryWithStrategy calls the operation, sleeps and resets, and what
-- it returns.
use Prim.Native.Nat.{ℕ, max}
use async_flatbuffer_grpc.Prelude.{
  zero, suc, ◌+◌, ◌≤◌, ◌<◌, ◌≡◌, ◌⊎◌, refl, ap, Bool, true, false, some, List, [], ◌∷◌, arith,
  if◌then◌else◌, ltb, length, Bool-cases, inl, inr,
}
use async_flatbuffer_grpc.Retry.{
  StatusApi, Clock, RetryDelayCalculator, RetryStrategy, create_retry_strategy,
  create_limited_retry_indicator, Outcome, stop, again, retry_loop, retry_with_strategy,
}

module _ (api : StatusApi) where
  -- The statuses are those of the calls from the i-th on; all but the last are failures, and the
  -- last is a success just if the result is true.
  abbrev pub Attempted : (ℕ → api.Status) → ℕ → List api.Status → Bool → Type 0
  Attempted op i [] result = ⊥
  Attempted op i (s ∷ []) result = (s ≡ op i) × (api.is_ok s ≡ result)
  Attempted op i (s ∷ t ∷ ss) result =
      (s ≡ op i) × (api.is_ok s ≡ false) × Attempted op (suc i) (t ∷ ss) result

module _ {ℓ} {D : Type ℓ} where
  -- The delays after the failures i + 1, i + 2, ..., i + n.
  abbrev pub delays : (ℕ → D) → ℕ → ℕ → List D
  delays delay i zero = []
  delays delay i (suc n) = delay (suc i) ∷ delays delay (suc i) n

module _ (api : StatusApi) (clock : Clock) where
  -- What a finished run did, from the state with i failures on.
  pub record Ran (op : ℕ → api.Status) (delay : RetryDelayCalculator clock) (reset : Bool) (i : ℕ)
      (o : Outcome api clock) : Type 0 where
    pub attempted : Attempted api op i o.statuses o.result
    pub retried : length o.statuses ≡ suc (length o.sleeps)
    pub slept : o.sleeps ≡ delays delay i (length o.sleeps)
    pub was_reset : o.resets ≡ (if reset then length o.sleeps else 0)

  module _ (op : ℕ → api.Status) (delay : RetryDelayCalculator clock) (reset : Bool) where
    Attempted-cons :
        (i : ℕ) (ss : List api.Status) (r : Bool)
        → api.is_ok (op i) ≡ false
        → Attempted api op (suc i) ss r
        → Attempted api op i (op i ∷ ss) r
    Attempted-cons i [] r failed a = absurd a
    Attempted-cons i (s ∷ ss) r failed a = (refl, failed, a)

    pub stop-Ran :
        (i : ℕ) (r : Bool) → api.is_ok (op i) ≡ r → Ran op delay reset i (stop api clock r (op i))
    stop-Ran i r e = record {
      attempted = (refl, e);
      retried = refl;
      slept = refl;
      was_reset = ground arith;
    }

    pub again-Ran :
        (i : ℕ) (o : Outcome api clock)
        → api.is_ok (op i) ≡ false
        → Ran op delay reset (suc i) o
        → Ran op delay reset i (again api clock reset (op i) (delay (suc i)) o)
    again-Ran i o failed ran = record {
      attempted = Attempted-cons i o.statuses o.result failed ran.attempted;
      retried = ap suc ran.retried;
      slept = ap (◌∷◌ (delay (suc i))) ran.slept;
      was_reset = ground (arith, ran.was_reset);
    }

  module _ (op : ℕ → api.Status) (delay : RetryDelayCalculator clock) (reset : Bool)
      (max_attempts : ℕ) where
    abbrev pub limited : RetryStrategy api clock
    limited =
        create_retry_strategy api clock (create_limited_retry_indicator api clock max_attempts)
          delay

    limited_loop :
        (fuel i : ℕ)
        → 0 < fuel
        → max_attempts ≤ fuel + i
        → (o : Outcome api clock) × (retry_loop api clock fuel (some limited) op reset i ≡ some o)
          × Ran op delay reset i o
          × (length o.statuses + i ≤ max (suc i) max_attempts)
          × (o.result ≡ false → max_attempts ≤ length o.statuses + i)
    unfolding retry_loop create_retry_strategy create_limited_retry_indicator
    limited_loop zero i h h' = elim h [ ]
    limited_loop (suc fuel) i h h' = elim (Bool-cases (api.is_ok (op i))) [
      | inl succeeded ↦ (
        stop api clock true (op i),
        rw succeeded refl,
        stop-Ran op delay reset i true succeeded,
        omega arith,
        λ e. cc,
      )
      | inr failed ↦ elim (Bool-cases (ltb (suc i) max_attempts)) [
        | inr last ↦ (
          stop api clock false (op i),
          rw (failed, last) refl,
          stop-Ran op delay reset i false failed,
          omega arith,
          λ e. ground arith,
        )
        | inl more ↦
            let (o, e, ran, few, all) = limited_loop fuel (suc i) (ground arith) (omega arith) in
            (
              again api clock reset (op i) (delay (suc i)) o,
              rw (failed, more, e) refl,
              again-Ran op delay reset i o failed ran,
              ground (arith, few),
              λ e. ground (arith, all e),
            )
      ]
    ]

  -- For every operation, delay calculator and bound on the attempts, a run of RetryWithStrategy with
  -- the limited indicator ends, with fuel one above the bound. It calls the operation at most
  -- `max_attempts` times (once if that is 0); every call but the last failed, and the result is
  -- true just if the last succeeded; when it gives up, all `max_attempts` calls were made. Between
  -- two calls it sleeps once, for the calculator's delay after that many failures, and calls
  -- `reset` once if there is one.
  pub retry_limited :
      (op : ℕ → api.Status) (delay : RetryDelayCalculator clock) (reset : Bool) (max_attempts : ℕ)
      → (o : Outcome api clock) × (retry_with_strategy api clock
            (suc max_attempts)
            (some (limited op delay reset max_attempts))
            op
            reset
          ≡ some o)
        × Attempted api op 0 o.statuses o.result
        × (length o.statuses ≤ max 1 max_attempts)
        × ((o.result ≡ true) ⊎ (max_attempts ≤ length o.statuses))
        × (length o.statuses ≡ suc (length o.sleeps))
        × (o.sleeps ≡ delays delay 0 (length o.sleeps))
        × (o.resets ≡ (if reset then length o.sleeps else 0))
  unfolding retry_with_strategy
  retry_limited op delay reset max_attempts =
      let (o, e, ran, few, all) =
        limited_loop op delay reset max_attempts (suc max_attempts) 0 (omega arith) (omega arith) in
      (
        o,
        e,
        ran.attempted,
        omega (arith, few),
        gave_up o.result (λ h. omega (arith, all h)),
        ran.retried,
        ran.slept,
        ran.was_reset,
      )
    where
      gave_up : {n m : ℕ} (b : Bool) → (b ≡ false → m ≤ n) → (b ≡ true) ⊎ (m ≤ n)
      gave_up true h = inl refl
      gave_up false h = inr (h refl)
