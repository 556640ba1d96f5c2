-- ===== src/Prelude/Faults.antt =====
-- The result of code that can abort: a failed CHECK, a LOG(FATAL), a pointer that is null or
-- points to a destroyed object, an index that `at` refuses, a thread that waits for ever, a thread
-- that was joined already, a member that was never given a value.
use Prim.Native.Nat.{suc}
use mathlib.Core.Path.{◌≡◌, refl, ap}
use mathlib.Core.Option.{Option, none, some}
use mathlib.Core.Bool.{Bool}
use mathlib.Core.List.{List, [], ◌∷◌}
use async_flatbuffer_grpc.Prelude.Tests.{if◌then◌else◌}
use async_flatbuffer_grpc.Prelude.Lists.{length}

pub data Fault : Type 0 where
  check_failed fatal null_pointer dangling out_of_range would_block not_joinable uninitialized :
      Fault

pub data Result {ℓ} (A : Type ℓ) : Type ℓ where
  ok : A → Result A
  fault : Fault → Result A

-- CHECK(b).
abbrev pub check : Bool → Result (Unit {0})
check b = if b then ok tt else fault check_failed

abbrev pub or_fault {ℓ} : {X : Type ℓ} → Option X → Fault → Result X
or_fault none why = fault why
or_fault (some x) why = ok x

-- The rest of the code runs unless there was a fault.
infixl 5 ◌>>=◌
abbrev pub ◌>>=◌ {a b} : {X : Type a} {Y : Type b} → Result X → (X → Result Y) → Result Y
fault why >>= rest = fault why
ok x >>= rest = rest x

infixl 5 ◌>>◌
abbrev pub ◌>>◌ {b} : {Y : Type b} → Result (Unit {0}) → Result Y → Result Y
fault why >> rest = fault why
ok u >> rest = rest

-- If two parts of the code in a row succeed, the first does, and then the second.
pub >>=-ok {a b} :
    {X : Type a} {Y : Type b} {y : Y} (rest : X → Result Y) (first : Result X)
    → (first >>= rest) ≡ ok y
    → (x : X) × (first ≡ ok x) × (rest x ≡ ok y)
>>=-ok rest (fault why) e = cc
>>=-ok rest (ok x) e = (x, refl, e)

-- `for (auto& x : xs) x.member()`
unfoldable pub for_each {a} : {X : Type a} → (X → Result X) → List X → Result (List X)
for_each member [] = ok []
for_each member (x ∷ xs) = do x' ← member x; xs' ← for_each member xs; ok (x' ∷ xs')

-- Each element of the list is as the predicate says.
abbrev pub All {a} : {X : Type a} → (X → Type 0) → List X → Type 0
All P [] = Unit {0}
All P (x ∷ xs) = P x × All P xs

module _ {a} {X : Type a} (P Q : X → Type 0) (member : X → Result X) where
  -- A loop over elements on each of which the member succeeds.
  pub for_each-All :
      ((x : X) → P x → (x' : X) × (member x ≡ ok x') × Q x')
      → (xs : List X) → All P xs
      → (xs' : List X) × (for_each member xs ≡ ok xs') × All Q xs' × (length xs' ≡ length xs)
  unfolding for_each
  for_each-All step [] h = ([], refl, tt, refl)
  for_each-All step (x ∷ xs) (h, hs) =
      let (x', e, q) = step x h in
      let (xs', es, qs, n) = for_each-All step xs hs in
      (x' ∷ xs', rw (e, es) refl, (q, qs), ap suc n)

-- A loop whose first element the member fails on.
pub for_each_fault {a} :
    {X : Type a} (member : X → Result X) (why : Fault) (x : X) (xs : List X)
    → member x ≡ fault why
    → for_each member (x ∷ xs) ≡ fault why
unfolding for_each
for_each_fault member why x xs h = rw h refl
