-- ===== src/AsyncClient/Dispatching.antt =====
-- async_grpc/completion_queue_pool.cc: RunCompletionQueue, the loop of a completion queue that many
-- clients share. A tag points to an event of a client; what gRPC completes is a list.
use async_flatbuffer_grpc.Prelude.{
  ℕ, ◌≡◌, refl, sym, ◌∙◌, ap, subst, true, Option, none, some, List, [], ◌∷◌, arith, if◌then◌else◌,
  ◌==◌, Result, ok, fault, dangling, or_fault, ◌>>=◌, find, assign, find-assign, is_some, All,
  Bool-cases, Option-cases, ==_iff, inl, inr,
}
use async_flatbuffer_grpc.AsyncClient.{ClientApi, AsyncClient, Completion, complete}
use async_flatbuffer_grpc.AsyncClient.Invariant.{Inv, complete-Inv}

-- The events of one client.
abbrev pub events_of {ℓ} : {E : Type ℓ} → ℕ → List (ℕ × E) → List E
events_of p [] = []
events_of p ((q, x) ∷ xs) = let rest = events_of p xs in if q == p then x ∷ rest else rest

-- `async_client->HandleEvent` is a virtual call, here with what gRPC wrote into the client before.
module _ {C E : Type 0} (handle_event : E → C → Result C) where
  unfoldable pub deliver : ℕ × E → List (ℕ × C) → Result (List (ℕ × C))
  deliver (p, e) cs = do
    c ← or_fault (find p cs) dangling
    c' ← handle_event e c
    ok (assign p c' cs)

  unfoldable pub run_queue : List (ℕ × E) → List (ℕ × C) → Result (List (ℕ × C))
  run_queue [] cs = ok cs
  run_queue (x ∷ xs) cs = deliver x cs >>= run_queue xs

  -- What events do to one client alone.
  abbrev pub handle_each : List E → C → Result C
  handle_each [] c = ok c
  handle_each (e ∷ es) c = handle_event e c >>= handle_each es

  abbrev pub result : Result C → Option C
  result (fault why) = none
  result (ok c) = some c

  abbrev pub alone : List E → Option C → Option C
  alone es none = none
  alone es (some c) = result (handle_each es c)

  module _ (Good : C → Type 0)
      (step : (c : C) (e : E) → Good c → (c' : C) × (handle_event e c ≡ ok c') × Good c') where
    abbrev AllGood : List (ℕ × C) → Type 0
    AllGood cs = (p : ℕ) (c : C) → find p cs ≡ some c → Good c

    find-delivered :
        (q p : ℕ) (c c1 : C) (cs : List (ℕ × C))
        → find q cs ≡ some c
        → find p (assign q c1 cs) ≡ (if q == p then some c1 else find p cs)
    find-delivered q p c c1 cs there = find-assign q p c1 cs ∙ rw there refl

    delivered-Known :
        (q : ℕ) (c c1 : C) (cs : List (ℕ × C)) (xs : List (ℕ × E))
        → find q cs ≡ some c
        → All (λ x. is_some (find x.0 cs) ≡ true) xs
        → All (λ x. is_some (find x.0 (assign q c1 cs)) ≡ true) xs
    delivered-Known q c c1 cs [] there k = tt
    delivered-Known q c c1 cs (x ∷ xs) there (k, ks) = (
      ground (arith, k, find-delivered q x.0 c c1 cs there),
      delivered-Known q c c1 cs xs there ks,
    )

    delivered-AllGood :
        (q : ℕ) (c c1 : C) (cs : List (ℕ × C))
        → find q cs ≡ some c
        → AllGood cs
        → Good c1
        → AllGood (assign q c1 cs)
    delivered-AllGood q c c1 cs there good good1 p d h = elim (Bool-cases (q == p)) [
      | inl here ↦
          let same : c1 ≡ d = ground (arith, find-delivered q p c c1 cs there, h) in
          subst Good same good1
      | inr other ↦ good p d (ground (arith, find-delivered q p c c1 cs there, h))
    ]

    delivered_alone :
        (q p : ℕ) (e : E) (es : List E) (c c1 : C) (cs : List (ℕ × C))
        → find q cs ≡ some c
        → handle_event e c ≡ ok c1
        → alone es (find p (assign q c1 cs)) ≡ alone (if q == p then e ∷ es else es) (find p cs)
    delivered_alone q p e es c c1 cs there g = elim (Bool-cases (q == p)) [
      | inl here ↦
          let there_p : find p cs ≡ some c =
            subst (λ i. find i cs ≡ some c) ((==_iff q p).0 here) there in
          rw (find-delivered q p c c1 cs there, here, there_p, g) refl
      | inr other ↦ rw (find-delivered q p c c1 cs there, other) refl
    ]

    alone-nil : (o : Option C) → o ≡ alone [] o
    alone-nil none = refl
    alone-nil (some c) = refl

    pub run_queue-alone :
        (xs : List (ℕ × E)) (cs : List (ℕ × C))
        → AllGood cs
        → All (λ x. is_some (find x.0 cs) ≡ true) xs
        → (cs' : List (ℕ × C)) × (run_queue xs cs ≡ ok cs')
          × ((p : ℕ) → find p cs' ≡ alone (events_of p xs) (find p cs))
    unfolding run_queue deliver
    run_queue-alone [] cs good known = (cs, refl, λ p. alone-nil (find p cs))
    run_queue-alone ((q, e) ∷ xs) cs good (k, ks) = elim (Option-cases (find q cs)) [
      | inl gone ↦ absurd (cc (ap is_some (sym gone) ∙ k))
      | inr (c, there) ↦
          let (c1, g, good1) = step c e (good q c there) in
          let (cs', run, each) =
            run_queue-alone xs (assign q c1 cs) (delivered-AllGood q c c1 cs there good good1)
              (delivered-Known q c c1 cs xs there ks) in
          (
            cs',
            rw (there, g) run,
            λ p. each p ∙ delivered_alone q p e (events_of p xs) c c1 cs there g,
          )
    ]

-- Server-streaming clients that share a completion queue, each in a state that WriteAsync and events
-- lead to (it has a response reader, and has told its callback responses, or also its end): whatever
-- list of events of these clients gRPC completes, each read with any message, the loop handles all of them without a fault, and
-- leaves each client as that client's own events alone, in their order, leave it.
pub shared_queue :
    {api : ClientApi} (xs : List (ℕ × Completion api)) (cs : List (ℕ × AsyncClient api))
    → ((p : ℕ) (c : AsyncClient api) → find p cs ≡ some c → Inv api c)
    → All (λ x. is_some (find x.0 cs) ≡ true) xs
    → (cs' : List (ℕ × AsyncClient api)) × (run_queue complete xs cs ≡ ok cs')
      × ((p : ℕ) → find p cs' ≡ alone complete (events_of p xs) (find p cs))
shared_queue {api} xs cs good known =
    run_queue-alone complete (Inv api)
      (λ c e v. let (c', g, v', _) = complete-Inv api c e v in (c', g, v')) xs cs good known
