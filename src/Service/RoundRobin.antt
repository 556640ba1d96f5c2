-- ===== src/Service/RoundRobin.antt =====
-- async_grpc/server.cc: SelectNextEventQueueRoundRobin, called again and again.
use native.Mathlib.Nat.{mod-eq_of_lt, mod_self}
use async_flatbuffer_grpc.Prelude.{
  ℕ, zero, suc, ◌+◌, ◌-◌, ◌%◌, ◌<◌, ◌≡◌, refl, List, [], ◌∷◌, ◌++◌, arith, ok, Result, ◌>>=◌, subst,
  ◌==◌, if◌then◌else◌, ltb, leb,
}
use async_flatbuffer_grpc.Api.{Api}
use async_flatbuffer_grpc.Runtime.{World}
use async_flatbuffer_grpc.Service.{select_next_event_queue}
use async_flatbuffer_grpc.Service.Wellformed.{Inv}
use async_flatbuffer_grpc.Service.Connection.{next_queue, select_lem}

-- How often a number is in a list.
abbrev pub count : ℕ → List ℕ → ℕ
count i [] = 0
count i (x ∷ xs) = (if i == x then 1 else 0) + count i xs

-- The m numbers after c.
abbrev ups : ℕ → ℕ → List ℕ
ups c zero = []
ups c (suc m) = suc c ∷ ups (suc c) m

count-append : (i : ℕ) (xs ys : List ℕ) → count i (xs ++ ys) ≡ count i xs + count i ys
count-append i [] ys = omega arith
count-append i (x ∷ xs) ys = omega (arith, count-append i xs ys)

count-ups :
    (i c m : ℕ) → count i (ups c m) ≡ (if ltb c i then (if leb i (c + m) then 1 else 0) else 0)
count-ups i c zero = ground arith
count-ups i c (suc m) = ground (arith, count-ups i (suc c) m)

next_lem : (c n : ℕ) → suc c < n → (c + 1) % n ≡ suc c
next_lem c n h = let sum : c + 1 ≡ suc c = omega arith in rw sum (mod-eq_of_lt h)

wrap_lem : (c n : ℕ) → suc c ≡ n → (c + 1) % n ≡ 0
wrap_lem c n h = let sum : c + 1 ≡ n = omega (arith, h) in rw sum (mod_self n)

-- Each number below n is 0 or one of those up to c or one of those after c.
once :
    (i c m n : ℕ)
    → suc (c + m) ≡ n
    → i < n
    → count i (ups c m) + (if i == 0 then 1 else 0) + count i (ups 0 c) ≡ 1
once i c m n top h = ground (arith, count-ups i c m, count-ups i 0 c)

module _ {api : Api} where
  -- The world after k selections, and what they selected.
  pub select_times : ℕ → World api → Result (World api × List ℕ)
  select_times zero w = ok (w, [])
  select_times (suc k) w = do
    s ← select_next_event_queue w
    r ← select_times k s.0
    ok (r.0, s.1 ∷ r.1)

  abbrev at : ℕ → World api → World api
  at c w = record w { current_event_queue_id = c }

  Inv-at : (c : ℕ) (w : World api) → Inv w → Inv (at c w)
  Inv-at c w v = record {
    threads = v.threads;
    some_thread = v.some_thread;
    infinite = v.infinite;
    fresh = v.fresh;
    rpcs = v.rpcs;
  }

  -- One selection, and then more.
  select_first :
      (m d : ℕ) (w w' : World api) (xs : List ℕ)
      → Inv w
      → next_queue w ≡ d
      → select_times m (at d w) ≡ ok (w', xs)
      → select_times (suc m) w ≡ ok (w', d ∷ xs)
  unfolding select_times
  select_first m d w w' xs v e h = rw (select_lem w v, e, h) refl

  -- Selections that do not wrap around, and then more.
  select-ups :
      (m c k t : ℕ) (w w' : World api) (ys : List ℕ)
      → Inv w
      → c + m < w.num_event_threads
      → t ≡ m + k
      → select_times k (at (c + m) w) ≡ ok (w', ys)
      → select_times t (at c w) ≡ ok (w', ups c m ++ ys)
  select-ups zero c k t w w' ys v h sum e =
      let here : c + 0 ≡ c = omega arith in
      let same : k ≡ t = omega (arith, sum) in
      subst (λ j. select_times j (at c w) ≡ ok (w', ys)) same
        (subst (λ d. select_times k (at d w) ≡ ok (w', ys)) here e)
  select-ups (suc m) c k zero w w' ys v h sum e = absurd (omega (arith, sum))
  select-ups (suc m) c k (suc t) w w' ys v h sum e =
      let one : (c + 1) % w.num_event_threads ≡ suc c =
        next_lem c w.num_event_threads (omega arith) in
      let there : c + suc m ≡ suc c + m = omega arith in
      select_first t (suc c) (at c w) w' (ups (suc c) m ++ ys) (Inv-at c w v) one (
        select-ups m (suc c) k t w w' ys v (omega arith) (omega (arith, sum))
          (subst (λ d. select_times k (at d w) ≡ ok (w', ys)) there e))

  at_same : (w : World api) → at w.current_event_queue_id w ≡ w
  at_same w = refl

  -- From a well-formed state, as many selections in a row as there are event threads select each
  -- event queue exactly once, and come back to where they began.
  pub all_selected :
      (w : World api)
      → Inv w
      → w.current_event_queue_id < w.num_event_threads
      → (is : List ℕ) × (select_times w.num_event_threads w ≡ ok (w, is))
        × ((i : ℕ) → i < w.num_event_threads → count i is ≡ 1)
  unfolding select_times
  all_selected w v h =
      let c = w.current_event_queue_id in
      let n = w.num_event_threads in
      let m = n - suc c in
      let top : suc (c + m) ≡ n = omega arith in
      let zero_plus : c ≡ 0 + c = omega arith in
      let back : select_times 0 (at (0 + c) w) ≡ ok (w, []) =
        subst (λ d. select_times 0 (at d w) ≡ ok (w, [])) zero_plus refl in
      let last = select-ups c 0 0 c w w [] v (omega arith) (omega arith) back in
      let wrapped =
        select_first c 0 (at (c + m) w) w (ups 0 c ++ []) (Inv-at (c + m) w v)
          (wrap_lem (c + m) n top) last in
      (
        ups c m ++ (0 ∷ (ups 0 c ++ [])),
        subst (λ u. select_times n u ≡ ok (w, ups c m ++ (0 ∷ (ups 0 c ++ [])))) (at_same w)
            (select-ups m c (suc c) n w w (0 ∷ (ups 0 c ++ [])) v (omega arith) (omega arith)
              wrapped),
        λ i g. ground (
          arith,
          count-append i (ups c m) (0 ∷ (ups 0 c ++ [])),
          count-append i (ups 0 c) [],
          once i c m n top g,
        ),
      )
