-- ===== src/Retry/Unlimited.antt =====
-- async_grpc/retry.cc: the strategy that retries for ever, but for unrecoverable status codes.
use Prim.Native.Nat.{ℕ}
use async_flatbuffer_grpc.Prelude.{
  zero, suc, ◌+◌, ◌≤◌, ◌<◌, ◌≡◌, refl, ap, subst, Bool, true, false, none, some, List, arith,
  if◌then◌else◌, length, ◌⊎◌,
}
use async_flatbuffer_grpc.Retry.{
  StatusApi, Clock, RetryStrategy, contains, create_retry_strategy,
  create_unlimited_retry_indicator_except, create_constant_delay_calculator,
  create_unlimited_constant_delay_strategy_except, Outcome, stop, again, retry_loop,
  retry_with_strategy,
}
use async_flatbuffer_grpc.Retry.Attempts.{Attempted, delays, Ran, stop-Ran, again-Ran}

module _ (api : StatusApi) (clock : Clock) (op : ℕ → api.Status) (delay : clock.Duration)
    (unrecoverable_codes : List ℕ) (reset : Bool) where
  -- The call after i failures failed, and the strategy has it retried.
  abbrev pub IsRetried : ℕ → Type 0
  IsRetried i =
      (api.is_ok (op i) ≡ false) × (contains (api.error_code (op i)) unrecoverable_codes ≡ false)

  -- The call after i failures ends the loop.
  abbrev pub IsLast : ℕ → Type 0
  IsLast i =
      (api.is_ok (op i) ≡ true) ⊎ (contains (api.error_code (op i)) unrecoverable_codes ≡ true)

  abbrev pub strategy : RetryStrategy api clock
  strategy = create_unlimited_constant_delay_strategy_except api clock delay unrecoverable_codes

  abbrev constant : ℕ → clock.Duration
  constant = create_constant_delay_calculator api clock delay

  loop_last :
      (fuel i : ℕ)
      → IsLast i
      → retry_loop api clock (suc fuel) (some strategy) op reset i
        ≡ some (stop api clock (api.is_ok (op i)) (op i))
  unfolding retry_loop create_unlimited_constant_delay_strategy_except create_retry_strategy
      create_unlimited_retry_indicator_except
  loop_last fuel i h = ground arith

  loop_again :
      (fuel i : ℕ) (o : Outcome api clock)
      → IsRetried i
      → retry_loop api clock fuel (some strategy) op reset (suc i) ≡ some o
      → retry_loop api clock (suc fuel) (some strategy) op reset i
        ≡ some (again api clock reset (op i) (constant (suc i)) o)
  unfolding retry_loop create_unlimited_constant_delay_strategy_except create_retry_strategy
      create_unlimited_retry_indicator_except
  loop_again fuel i o h e = rw (h.0, h.1, e) refl

  loop_stuck :
      (fuel i : ℕ)
      → IsRetried i
      → retry_loop api clock fuel (some strategy) op reset (suc i) ≡ none
      → retry_loop api clock (suc fuel) (some strategy) op reset i ≡ none
  unfolding retry_loop create_unlimited_constant_delay_strategy_except create_retry_strategy
      create_unlimited_retry_indicator_except
  loop_stuck fuel i h e = rw (h.0, h.1, e) refl

  loop_until :
      (n i m : ℕ)
      → n + i ≡ m
      → ((j : ℕ) → i ≤ j → j < m → IsRetried j)
      → IsLast m
      → (o : Outcome api clock) × (retry_loop api clock (suc n) (some strategy) op reset i ≡ some o)
        × Ran api clock op constant reset i o
        × (length o.statuses ≡ suc n)
        × (o.result ≡ api.is_ok (op m))
  loop_until zero i m q h l =
      let at_end : i ≡ m = omega arith in
      (
        stop api clock (api.is_ok (op i)) (op i),
        loop_last 0 i (rw at_end l),
        stop-Ran api clock op constant reset i _ refl,
        refl,
        rw at_end refl,
      )
  loop_until (suc n) i m q h l =
      let retried = h i (omega arith) (omega arith) in
      let (o, e, ran, len, res) =
        loop_until n (suc i) m (omega arith) (λ j from to. h j (omega arith) to) l in
      (
        again api clock reset (op i) (constant (suc i)) o,
        loop_again (suc n) i o retried e,
        again-Ran api clock op constant reset i o retried.0 ran,
        ap suc len,
        res,
      )

  -- If the calls after fewer than m failures fail with codes that are not in the set, and the call
  -- after m failures succeeds or fails with a code in the set, then RetryWithStrategy ends after
  -- m + 1 calls. Its result is whether that last call succeeded; it slept m times, each time for
  -- the constant delay, and called `reset` as often if there is one.
  pub retry_until_last :
      (m : ℕ)
      → ((j : ℕ) → j < m → IsRetried j)
      → IsLast m
      → (o : Outcome api clock) × (retry_with_strategy api clock (suc m) (some strategy) op reset
          ≡ some o)
        × Attempted api op 0 o.statuses o.result
        × (length o.statuses ≡ suc m)
        × (o.result ≡ api.is_ok (op m))
        × (o.sleeps ≡ delays (λ i. delay) 0 m)
        × (o.resets ≡ (if reset then m else 0))
  unfolding retry_with_strategy create_constant_delay_calculator
  retry_until_last m h l =
      let (o, e, ran, len, res) = loop_until m 0 m (omega arith) (λ j from to. h j to) l in
      let count : length o.sleeps ≡ m = omega (arith, ran.retried, len) in
      (
        o,
        e,
        ran.attempted,
        len,
        res,
        subst (λ n. o.sleeps ≡ delays (λ i. delay) 0 n) count ran.slept,
        subst (λ n. o.resets ≡ (if reset then n else 0)) count ran.was_reset,
      )

  loop_for_ever :
      (fuel i : ℕ)
      → ((j : ℕ) → IsRetried j)
      → retry_loop api clock fuel (some strategy) op reset i ≡ none
  unfolding retry_loop
  loop_for_ever zero i h = refl
  loop_for_ever (suc fuel) i h = loop_stuck fuel i (h i) (loop_for_ever fuel (suc i) h)

  -- If every call fails with a code that is not in the set, the loop never ends, whatever the fuel.
  pub retry_for_ever :
      (fuel : ℕ)
      → ((j : ℕ) → IsRetried j)
      → retry_with_strategy api clock fuel (some strategy) op reset ≡ none
  unfolding retry_with_strategy
  retry_for_ever fuel h = loop_for_ever fuel 0 h
