-- ===== src/Retry.antt =====
-- async_grpc/retry.cc and retry.h: retry strategies and the retry loop. ::grpc::Status is a type
-- with `ok()` and `error_code()`. Durations, and the floating-point power and product of the
-- backoff calculator, are the parameter `Clock`. An `int` count of attempts is a number: the loop
-- would need 2^31 failures to wrap.
use Prim.Native.Nat.{ℕ}
use async_flatbuffer_grpc.Prelude.{
  zero, suc, ◌+◌, ◌-◌, ◌≡◌, refl, Bool, true, false, not, Option, none, some, List, [], ◌∷◌, ◌++◌,
  arith, if◌then◌else◌, ltb, ◌==◌,
}
pub mod Attempts
pub mod Unlimited

pub record StatusApi : Type 1 where
  pub Status : Type 0
  pub is_ok : Status → Bool
  pub error_code : Status → ℕ

-- Duration, `double`, and what the calculators do with them; `pow_pred f n` is
-- std::pow(f, n - 1) for an int n that is not negative, where n - 1 may be -1.
pub record Clock : Type 1 where
  pub Duration : Type 0
  pub Double : Type 0
  pub to_seconds : Duration → Double
  pub from_seconds : Double → Duration
  pub pow_pred : Double → ℕ → Double
  pub times : Double → Double → Double

abbrev pub RetryIndicator : StatusApi → Type 0
RetryIndicator api = ℕ → api.Status → Bool

abbrev pub RetryDelayCalculator : Clock → Type 0
RetryDelayCalculator clock = ℕ → clock.Duration

abbrev pub RetryStrategy : StatusApi → Clock → Type 0
RetryStrategy api clock = ℕ → api.Status → Option clock.Duration

-- Whether a code is in the set.
abbrev pub contains : ℕ → List ℕ → Bool
contains c [] = false
contains c (x ∷ xs) = if x == c then true else contains c xs

module _ (api : StatusApi) (clock : Clock) where
  unfoldable pub create_retry_strategy :
      RetryIndicator api → RetryDelayCalculator clock → RetryStrategy api clock
  create_retry_strategy retry_indicator retry_delay_calculator failed_attempts status =
      if not (retry_indicator failed_attempts status)
      then none
      else some (retry_delay_calculator failed_attempts)

  unfoldable pub create_limited_retry_indicator : ℕ → RetryIndicator api
  create_limited_retry_indicator max_attempts failed_attempts status =
      ltb failed_attempts max_attempts

  unfoldable pub create_unlimited_retry_indicator : RetryIndicator api
  create_unlimited_retry_indicator failed_attempts status = true

  unfoldable pub create_unlimited_retry_indicator_except : List ℕ → RetryIndicator api
  create_unlimited_retry_indicator_except unrecoverable_codes failed_attempts status =
      not (contains (api.error_code status) unrecoverable_codes)

  -- The CHECK that `failed_attempts` is not negative holds of every number.
  unfoldable pub create_backoff_delay_calculator :
      clock.Duration → clock.Double → RetryDelayCalculator clock
  create_backoff_delay_calculator min_delay backoff_factor failed_attempts =
      clock.from_seconds
        (clock.times (clock.pow_pred backoff_factor failed_attempts) (clock.to_seconds min_delay))

  unfoldable pub create_constant_delay_calculator : clock.Duration → RetryDelayCalculator clock
  create_constant_delay_calculator delay failed_attempts = delay

  unfoldable pub create_limited_backoff_strategy :
      clock.Duration → clock.Double → ℕ → RetryStrategy api clock
  create_limited_backoff_strategy min_delay backoff_factor max_attempts =
      create_retry_strategy (create_limited_retry_indicator max_attempts)
        (create_backoff_delay_calculator min_delay backoff_factor)

  unfoldable pub create_unlimited_constant_delay_strategy : clock.Duration → RetryStrategy api clock
  create_unlimited_constant_delay_strategy delay =
      create_retry_strategy create_unlimited_retry_indicator
        (create_constant_delay_calculator delay)

  unfoldable pub create_unlimited_constant_delay_strategy_except :
      clock.Duration → List ℕ → RetryStrategy api clock
  create_unlimited_constant_delay_strategy_except delay unrecoverable_codes =
      create_retry_strategy (create_unlimited_retry_indicator_except unrecoverable_codes)
        (create_constant_delay_calculator delay)

  -- What a run of the loop did: its result, the statuses that `op` returned, the times that it
  -- slept, and how often it called `reset`.
  pub record Outcome : Type 0 where
    pub result : Bool
    pub statuses : List api.Status
    pub sleeps : List clock.Duration
    pub resets : ℕ

  -- The status of a failed attempt, before the outcome of what follows.
  abbrev pub stop : Bool → api.Status → Outcome
  stop result status = record { result = result; statuses = status ∷ []; sleeps = []; resets = 0 }

  abbrev pub again : Bool → api.Status → clock.Duration → Outcome → Outcome
  again reset status delay o = record {
    result = o.result;
    statuses = status ∷ o.statuses;
    sleeps = delay ∷ o.sleeps;
    resets = (if reset then suc (o.resets) else o.resets);
  }

  -- The loop: `none` where the fuel ran out. `op i` is the status of the call after i failures, and
  -- `reset` says whether a reset function was given. A null strategy is `none`.
  unfoldable pub retry_loop :
      ℕ → Option (RetryStrategy api clock) → (ℕ → api.Status) → Bool → ℕ → Option Outcome
  retry_loop zero strategy op reset failed_attempts = none
  retry_loop (suc fuel) strategy op reset failed_attempts =
      let rest = retry_loop fuel strategy op reset (suc failed_attempts) in
      let status = op failed_attempts in
      if api.is_ok status then some (stop true status) else elim strategy [
        | none ↦ some (stop false status)
        | some retry_strategy ↦ elim (retry_strategy (suc failed_attempts) status) [
          | none ↦ some (stop false status)
          | some delay ↦ elim rest [ none ↦ none | some o ↦ some (again reset status delay o) ]
        ]
      ]

  unfoldable pub retry_with_strategy :
      ℕ → Option (RetryStrategy api clock) → (ℕ → api.Status) → Bool → Option Outcome
  retry_with_strategy fuel retry_strategy op reset = retry_loop fuel retry_strategy op reset 0
