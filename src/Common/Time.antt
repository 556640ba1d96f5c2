-- ===== src/Common/Time.antt =====
-- async_grpc/common/time.cc and time.h: a Duration is a number of ticks of 100 nanoseconds, an int64.
-- The functions on seconds compute with doubles, and are a parameter of the retry strategies.
use mathlib.Core.Option
use async_flatbuffer_grpc.Prelude.{
  ℕ, Bool, ap, zero, suc, ◌-◌, ◌*◌, ◌/◌, ◌≡◌, refl, true, false, Option, none, some, arith,
  if◌then◌else◌, ltb, Bool-cases, inl, inr,
}

pub data ℤ : Type 0 where
  pos negsuc : ℕ → ℤ

-- The number as an int64; a result of signed arithmetic that does not fit is undefined.
abbrev pub int64 : ℤ → Option ℤ
int64 (pos n) = if ltb n 9223372036854775808 then some (pos n) else none
int64 (negsuc n) = if ltb n 9223372036854775808 then some (negsuc n) else none

abbrev pub times : ℤ → ℕ → ℤ
times (pos n) zero = pos 0
times (pos n) (suc k) = pos (n * suc k)
times (negsuc n) zero = pos 0
times (negsuc n) (suc k) = negsuc (suc n * suc k - 1)

-- duration_cast from milliseconds multiplies by the ratio of the two periods.
unfoldable pub from_milliseconds : ℤ → Option ℤ
from_milliseconds milliseconds = int64 (times milliseconds 10000)

abbrev negated : ℕ → ℤ
negated zero = pos 0
negated (suc k) = negsuc k

-- The whole milliseconds of a duration, towards zero.
abbrev pub whole_milliseconds : ℤ → ℤ
whole_milliseconds (pos n) = pos (n / 10000)
whole_milliseconds (negsuc n) = negated (suc n / 10000)

-- At most 922337203685477 milliseconds, or 292 years, either way.
abbrev pub is_short : ℤ → Bool
is_short (pos n) = ltb n 922337203685478
is_short (negsuc n) = ltb n 922337203685477

-- FromMilliseconds gives a duration of that many milliseconds if they are at most 922337203685477
-- either way, and otherwise its multiplication overflows.
pub from_milliseconds_lem :
    (m : ℤ)
    → Option.map whole_milliseconds (from_milliseconds m) ≡ (if is_short m then some m else none)
unfolding from_milliseconds
from_milliseconds_lem (pos n) = elim (Bool-cases (ltb n 922337203685478)) [
  | inl short ↦
      let fits : ltb (n * 10000) 9223372036854775808 ≡ true = ground arith in
      rw (fits, short) (ap (λ k. some (pos k)) (omega arith))
  | inr long ↦
      let overflows : ltb (n * 10000) 9223372036854775808 ≡ false = ground arith in
      rw (overflows, long) refl
]
from_milliseconds_lem (negsuc n) = elim (Bool-cases (ltb n 922337203685477)) [
  | inl short ↦
      let fits : ltb (suc n * 10000 - 1) 9223372036854775808 ≡ true = ground arith in
      let same : suc (suc n * 10000 - 1) / 10000 ≡ suc n = omega arith in
      rw (fits, short) (ap (λ k. some (negated k)) same)
  | inr long ↦
      let overflows : ltb (suc n * 10000 - 1) 9223372036854775808 ≡ false = ground arith in
      rw (overflows, long) refl
]
